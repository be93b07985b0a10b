-- ===== src/Mining/Merkle.antt =====
-- The merkle root of src/models/MiningJob.ts against its definition, and its byte order on the wire.
use lido.Base.{
  ◌+◌, ◌≡◌, refl, sym, ◌∙◌, true, List, [], ◌∷◌, ◌++◌, append-nil, length, replicate, leb, All,
  Bytes, arith, length-append, take-append_self, drop-append_self, drop-all, le→leb,
}
use lido.Outcome.{ok, and_then_ok}
use lido.Mining.{Bitcoin, set_bytes, merkle_rounds, calculate_merkle_root_hash, swap_endian_words}

abbrev pub Is32 : Bytes → Type 0
Is32 b = length b ≡ 32

module _ {T : Type 0} (bitcoin : Bitcoin T) where
  -- The root above a leaf: the hash of the root so far and the next branch, for each branch.
  abbrev pub root_above : Bytes → List Bytes → Bytes
  root_above leaf [] = leaf
  root_above leaf (branch ∷ branches) = root_above (bitcoin.hash256 (leaf ++ branch)) branches

  set_second : (x y z : Bytes) → Is32 x → Is32 y → Is32 z → set_bytes (x ++ y) z 32 ≡ ok (x ++ z)
  unfolding set_bytes
  set_second x y z hx hy hz =
      let fits : leb (32 + length z) (length (x ++ y)) ≡ true =
        le→leb _ _ (omega (arith, length-append x y)) in
      let front = take-append_self 32 x y (sym hx) in
      let back = drop-all (32 + length z) (x ++ y) (omega (arith, length-append x y)) in
      rw (fits, front, back, append-nil z)

  set_first : (x y z : Bytes) → Is32 x → Is32 y → Is32 z → set_bytes (x ++ y) z 0 ≡ ok (z ++ y)
  unfolding set_bytes
  set_first x y z hx hy hz =
      let fits : leb (0 + length z) (length (x ++ y)) ≡ true =
        le→leb _ _ (omega (arith, length-append x y)) in
      let back = drop-append_self (0 + length z) x y (omega arith) in rw (fits, back)

  rounds :
      (branches : List Bytes) (leaf rest : Bytes)
      → Is32 leaf
      → Is32 rest
      → All Is32 branches
      → merkle_rounds bitcoin branches (leaf ++ rest) ≡ ok (root_above leaf branches)
  unfolding merkle_rounds
  rounds [] leaf rest hl hr h = rw (take-append_self 32 leaf rest (sym hl))
  rounds (branch ∷ branches) leaf rest hl hr h =
      let root = bitcoin.hash256 (leaf ++ branch) in
      and_then_ok _ _ (set_second leaf rest branch hl hr h.0)
      ∙ and_then_ok _ _
          (set_first leaf branch root hl h.0 (bitcoin.length-hash256 (leaf ++ branch)))
      ∙ rounds branches root branch (bitcoin.length-hash256 (leaf ++ branch)) h.0 h.1

  -- Of a leaf and branches of 32 bytes the buffer of 64 bytes computes the root above the leaf.
  pub calculate_merkle_root_hash_lem :
      (leaf : Bytes) (branches : List Bytes)
      → Is32 leaf
      → All Is32 branches
      → calculate_merkle_root_hash bitcoin leaf branches ≡ ok (root_above leaf branches)
  unfolding calculate_merkle_root_hash
  calculate_merkle_root_hash_lem leaf branches hl h =
      and_then_ok _ _ (set_first (replicate 32 0) (replicate 32 0) leaf refl refl hl)
      ∙ rounds branches leaf (replicate 32 0) hl refl h

abbrev pub IsWhole : Bytes → Type 0
IsWhole [] = Unit {0}
IsWhole (a ∷ b ∷ c ∷ d ∷ rest) = IsWhole rest
IsWhole (a ∷ []) = ⊥
IsWhole (a ∷ b ∷ []) = ⊥
IsWhole (a ∷ b ∷ c ∷ []) = ⊥

-- Swapping the words of a text of whole words twice gives it back.
pub swap_endian_words_twice : (b : Bytes) → IsWhole b → swap_endian_words (swap_endian_words b) ≡ b
unfolding swap_endian_words
swap_endian_words_twice [] h = refl
swap_endian_words_twice (a ∷ b ∷ c ∷ d ∷ rest) h = rw (swap_endian_words_twice rest h)
swap_endian_words_twice (a ∷ []) h = elim h [ ]
swap_endian_words_twice (a ∷ b ∷ []) h = elim h [ ]
swap_endian_words_twice (a ∷ b ∷ c ∷ []) h = elim h [ ]
