-- ===== src/Difficulty/Compact.antt =====
-- compactToTarget of src/utils/difficulty.utils.ts against the number that nBits stands for.
use native.Mathlib.Nat.{pow-suc}
use native.Mathlib.Numerals.{add-one}
use lido.Base.{
  ℕ, zero, suc, ◌+◌, ◌-◌, ◌*◌, ◌/◌, ◌%◌, ◌^◌, ◌≤◌, ◌<◌, ◌≡◌, ◌≢◌, ◌↔◌, refl, sym, ap, subst, ◌∙◌,
  ◌⊎◌, inl, inr, Bool, true, false, ltb, leb, Bool-cases, none, some, Option-cases, [], ◌∷◌, arith,
  if◌then◌else◌, All, Bytes, IsByte, le_value, length, length-set, replicate, set, ◌==◌, not, ◌&&◌,
  ◌||◌,
}
use lido.Outcome.{ok}
use lido.Difficulty.{
  compact_size, compact_word, is_negative, store_word, compact_to_target, meets_compact_target,
}
use lido.Difficulty.Targets.{meets_target_iff}

store_word-cons :
    (n offset w b : ℕ) (t : Bytes)
    → store_word n (suc offset) w (b ∷ t) ≡ b ∷ store_word n offset w t
unfolding store_word
store_word-cons zero offset w b t = refl
store_word-cons (suc n) offset w b t =
    rw (add-one offset, add-one (suc offset)) (store_word-cons n (suc offset) (w / 256) b _)

length-store_word : (n offset w : ℕ) (t : Bytes) → length (store_word n offset w t) ≡ length t
unfolding store_word
length-store_word zero offset w t = refl
length-store_word (suc n) offset w t =
    length-store_word n (offset + 1) (w / 256) (set t offset (w % 256))
    ∙ length-set t offset (w % 256)

set-IsByte : (t : Bytes) (i v : ℕ) → All IsByte t → v < 256 → All IsByte (set t i v)
set-IsByte [] i v h l = tt
set-IsByte (b ∷ t) zero v h l = (l, h.1)
set-IsByte (b ∷ t) (suc i) v h l = (h.0, set-IsByte t i v h.1 l)

store_word-IsByte :
    (n offset w : ℕ) (t : Bytes) → All IsByte t → All IsByte (store_word n offset w t)
unfolding store_word
store_word-IsByte zero offset w t h = h
store_word-IsByte (suc n) offset w t h =
    store_word-IsByte n (offset + 1) (w / 256) _ (set-IsByte t offset (w % 256) h (omega arith))

replicate-IsByte : (n : ℕ) → All IsByte (replicate n 0)
replicate-IsByte zero = tt
replicate-IsByte (suc n) = (omega arith, replicate-IsByte n)

le_value-replicate : (n : ℕ) → le_value (replicate n 0) ≡ 0
le_value-replicate zero = refl
le_value-replicate (suc n) = omega (arith, le_value-replicate n)

-- At the start of a target of m bytes that hold the word, storing it makes its value.
store_word_start :
    (m w : ℕ) → w < 256 ^ m → w < 256 ^ 3 → le_value (store_word 3 0 w (replicate m 0)) ≡ w
unfolding store_word
store_word_start zero w h k = omega arith
store_word_start (suc zero) w h k = omega arith
store_word_start (suc (suc zero)) w h k = omega arith
store_word_start (suc (suc (suc m))) w h k = omega (arith, le_value-replicate m)

store_word_value :
    (offset m k w : ℕ)
    → k ≡ offset + m
    → w < 256 ^ m
    → w < 256 ^ 3
    → le_value (store_word 3 offset w (replicate k 0)) ≡ w * 256 ^ offset
store_word_value zero m k w e h l =
    let e' : k ≡ m = omega arith in rw e' (store_word_start m w h l ∙ omega arith)
store_word_value (suc offset) m zero w e h l = absurd (omega arith)
store_word_value (suc offset) m (suc k) w e h l =
    ap le_value (store_word-cons 3 offset w 0 (replicate k 0))
    ∙ omega (
      arith,
      store_word_value offset m k w (omega arith) h l,
      ap (λ (t : ℕ). w * t) (pow-suc 256 offset),
    )

pow-pos : (m : ℕ) → 0 < 256 ^ m
pow-pos zero = omega arith
pow-pos (suc m) = omega (arith, pow-suc 256 m, pow-pos m)

-- The overflow test leaves words that fit the bytes behind `offset`.
fits : (m w : ℕ) → 1 ≤ m → w < 256 ^ 3 → (w ≤ 0xff) ⊎ (2 ≤ m) → (w ≤ 0xffff) ⊎ (3 ≤ m) → w < 256 ^ m
fits zero w h l a b = absurd (omega arith)
fits (suc zero) w h l a b = omega arith
fits (suc (suc zero)) w h l a b = omega arith
fits (suc (suc (suc m))) w h l a b =
    omega (arith, pow-suc 256 m, pow-suc 256 (suc m), pow-suc 256 (suc (suc m)), pow-pos m)

offset_of : (s : ℕ) → (if leb s 3 then 0 else s - 3) ≡ s - 3
offset_of s = ground arith

-- What the tests leave, for a size s, a word w and the result for an offset.
accepted_when :
    (n s w : ℕ) (sign : Bool) (target : Bytes) (result : ℕ → Bytes)
    → (if ltb 0xffffffff n
          || (w == 0
              || (sign
                  || (not (w == 0)
                      && (ltb 34 s || ((ltb 0xff w && ltb 33 s) || (ltb 0xffff w && ltb 32 s))))))
        then none
        else some (result (if leb s 3 then 0 else s - 3)))
      ≡ some target
    → (target ≡ result (s - 3)) × (s ≤ 34) × ((w ≤ 0xff) ⊎ (s ≤ 33)) × ((w ≤ 0xffff) ⊎ (s ≤ 32))
accepted_when n s w sign target result e = ground (arith, offset_of s)

accepted :
    (n : ℕ) (target : Bytes)
    → compact_to_target n ≡ some target
    → (target ≡ store_word 3 (compact_size n - 3) (compact_word n) (replicate 32 0))
      × (compact_size n ≤ 34)
      × ((compact_word n ≤ 0xff) ⊎ (compact_size n ≤ 33))
      × ((compact_word n ≤ 0xffff) ⊎ (compact_size n ≤ 32))
unfolding compact_to_target
accepted n target e =
    accepted_when n (compact_size n) (compact_word n) (is_negative n) target
      (λ offset. store_word 3 offset (compact_word n) (replicate 32 0)) e

compact_word_lt : (n : ℕ) → compact_word n < 256 ^ 3
compact_word_lt n = elim (Bool-cases (leb (compact_size n) 3)) [
  | inl small ↦ rw small (omega arith)
  | inr large ↦ rw large (omega arith)
]

-- A target that compactToTarget returns has 32 bytes, which hold the word shifted by size - 3 bytes
-- (by none if size is less than 3).
pub compact_to_target_value :
    (n_bits : ℕ) (target : Bytes)
    → compact_to_target n_bits ≡ some target
    → (length target ≡ 32)
      × All IsByte target
      × (le_value target ≡ compact_word n_bits * 256 ^ (compact_size n_bits - 3))
compact_to_target_value n target e =
    let offset : ℕ = compact_size n - 3 in
    let word : ℕ = compact_word n in
    let (stored, size, one, two) = accepted n target e in
    let room : word < 256 ^ (32 - offset) =
      fits (32 - offset) word (omega arith) (compact_word_lt n) (omega arith) (omega arith) in
    (
      ap length stored ∙ length-store_word 3 offset word (replicate 32 0),
      subst (All IsByte) (sym stored)
          (store_word-IsByte 3 offset word (replicate 32 0) (replicate-IsByte 32)),
      ap le_value stored
          ∙ store_word_value offset (32 - offset) 32 word (omega arith) room (compact_word_lt n),
    )

-- A hash of 32 bytes meets compact bits exactly when they stand for a target and the hash, as a
-- little-endian number, is at most the number that they stand for.
pub meets_compact_target_iff :
    (hash : Bytes) (n_bits : ℕ)
    → All IsByte hash
    → length hash ≡ 32
    → (b : Bool) × (meets_compact_target hash n_bits ≡ ok b)
      × ((b ≡ true) ↔ (
          (compact_to_target n_bits ≢ none)
          × (le_value hash ≤ compact_word n_bits * 256 ^ (compact_size n_bits - 3))))
unfolding meets_compact_target
meets_compact_target_iff hash n h l = elim (Option-cases (compact_to_target n)) [
  | inl e ↦ (false, rw e (ground arith), (λ x. cc, λ x. absurd (x.0 e)))
  | inr (target, e) ↦
      let (len, bytes, value) = compact_to_target_value n target e in
      let (b, r, i) = meets_target_iff hash target h bytes l len in
      (
        b,
        rw e (ground arith),
        (
          λ x. (λ y. cc, subst (λ v. le_value hash ≤ v) value (i.0 x)),
          λ x. i.1 (subst (λ v. le_value hash ≤ v) (sym value) x.1),
        ),
      )
]
