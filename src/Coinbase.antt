-- ===== src/Coinbase.antt =====
-- src/utils/coinbase-prefix.utils.ts: the length byte of the coinbase script.
use lido.Base.{
  ℕ, zero, suc, ◌+◌, ◌-◌, ◌≤◌, ◌<◌, ◌≡◌, ◌≢◌, refl, ap, ◌∙◌, le→ltb, false, ◌||◌, ltb, ◌==◌,
  if◌then◌else◌, arith, [], ◌∷◌, length, get_or, set, length-set, Bytes,
}

-- TOTAL_EXTRANONCE_SIZE_BYTES of src/models/stratum.constants.ts.
abbrev pub total_extranonce_size_bytes : ℕ
total_extranonce_size_bytes = 12

-- `patched[41] + (total - 12)` is negative where `patched[41] + total` is below 12.
unfoldable pub patch_coinbase_prefix_varint : Bytes → ℕ → Bytes
patch_coinbase_prefix_varint prefix total =
    if total == total_extranonce_size_bytes
    then prefix
    else if ltb (length prefix) 42
    then prefix
    else let sum = get_or prefix 41 0 + total in
      if ltb sum total_extranonce_size_bytes || ltb 0xfc (sum - total_extranonce_size_bytes)
      then prefix
      else set prefix 41 (sum - total_extranonce_size_bytes)

neq→== : (a b : ℕ) → a ≢ b → (a == b) ≡ false
neq→== a b h = ground arith

get_or-set : (xs : Bytes) (i v : ℕ) → i < length xs → get_or (set xs i v) i 0 ≡ v
get_or-set [] i v h = absurd (omega arith)
get_or-set (x ∷ xs) zero v h = refl
get_or-set (x ∷ xs) (suc i) v h = get_or-set xs i v (omega arith)

get_or-set_other : (xs : Bytes) (i j v : ℕ) → j ≢ i → get_or (set xs i v) j 0 ≡ get_or xs j 0
get_or-set_other [] i j v h = refl
get_or-set_other (x ∷ xs) zero zero v h = absurd (h refl)
get_or-set_other (x ∷ xs) zero (suc j) v h = refl
get_or-set_other (x ∷ xs) (suc i) zero v h = refl
get_or-set_other (x ∷ xs) (suc i) (suc j) v h = get_or-set_other xs i j v (λ e. h (ap suc e))

patched :
    (prefix : Bytes) (extra : ℕ)
    → 0 < extra
    → 42 ≤ length prefix
    → get_or prefix 41 0 + extra ≤ 0xfc
    → patch_coinbase_prefix_varint prefix (12 + extra) ≡ set prefix 41 (get_or prefix 41 0 + extra)
unfolding patch_coinbase_prefix_varint
patched prefix extra z l room =
    let same : (get_or prefix 41 0 + (12 + extra)) - 12 ≡ get_or prefix 41 0 + extra =
      omega arith in
    rw (
      neq→== (12 + extra) 12 (omega arith),
      le→ltb (length prefix) 42 l,
      le→ltb (get_or prefix 41 0 + (12 + extra)) 12 (omega arith),
      le→ltb 0xfc ((get_or prefix 41 0 + (12 + extra)) - 12) (omega arith),
      same,
    )

-- A prefix of at least 42 bytes, whose length byte at index 41 has room for the larger extranonce:
-- the length byte grows by what the extranonce grows, and no other byte and no length changes.
pub patch_grows :
    (prefix : Bytes) (extra j : ℕ)
    → 42 ≤ length prefix
    → get_or prefix 41 0 + extra ≤ 0xfc
    → j ≢ 41
    → let patched = patch_coinbase_prefix_varint prefix (12 + extra) in
      (get_or patched 41 0 ≡ get_or prefix 41 0 + extra)
      × (length patched ≡ length prefix)
      × (get_or patched j 0 ≡ get_or prefix j 0)
unfolding patch_coinbase_prefix_varint
patch_grows prefix zero j l room h = (omega arith, refl, refl)
patch_grows prefix (suc extra) j l room h =
    let e = patched prefix (suc extra) (omega arith) l room in
    (
      ap (λ xs. get_or xs 41 0) e ∙ get_or-set prefix 41 _ (omega arith),
      ap length e ∙ length-set prefix 41 _,
      ap (λ xs. get_or xs j 0) e ∙ get_or-set_other prefix 41 j _ h,
    )
