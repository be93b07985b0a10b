-- ===== src/Difficulty/Targets.antt =====
-- What the comparisons and the compact form of src/utils/difficulty.utils.ts mean in numbers.
use native.Mathlib.Nat.{pow-suc}
use lido.Base.{
  ℕ, zero, suc, ◌+◌, ◌*◌, ◌^◌, ◌≤◌, ◌<◌, ◌≡◌, ◌↔◌, refl, ap, subst, ◌⊎◌, inl, inr, Bool, true, ltb,
  Bool-cases, [], ◌∷◌, arith, if◌then◌else◌, All, Bytes, IsByte, le_value, length, take, get_or,
  take-all, ◌≢◌,
}
use lido.Outcome.{ok, err, bad_argument}
use lido.Difficulty.{
  Sign, negative, zero_sign, positive, compare_from, compare_le256, not_positive, meets_target,
}

-- The value of the lowest bytes, one byte more.
le_value-take-suc :
    (i : ℕ) (bs : Bytes)
    → i < length bs
    → le_value (take (suc i) bs) ≡ le_value (take i bs) + 256 ^ i * get_or bs i 0
le_value-take-suc i [] h = absurd (omega arith)
le_value-take-suc zero (b ∷ bs) h = omega arith
le_value-take-suc (suc i) (b ∷ bs) h =
    omega (
      arith,
      le_value-take-suc i bs (omega arith),
      ap (λ (t : ℕ). t * get_or bs i 0) (pow-suc 256 i),
    )

le_value-take_lt : (i : ℕ) (bs : Bytes) → All IsByte bs → le_value (take i bs) < 256 ^ i
le_value-take_lt zero bs h = omega arith
le_value-take_lt (suc i) [] h = omega (arith, pow-suc 256 i, le_value-take_lt i [] h)
le_value-take_lt (suc i) (b ∷ bs) h = omega (arith, pow-suc 256 i, le_value-take_lt i bs h.1)

-- What a sign says of two numbers.
abbrev Says : Sign → ℕ → ℕ → Type 0
Says negative a b = a < b
Says zero_sign a b = a ≡ b
Says positive a b = b < a

digit_lt : (a b p x y : ℕ) → a < p → x < y → a + p * x < b + p * y
digit_lt a b p x y h l = grind arith

-- A higher digit decides, and equal ones leave it to the rest.
digit-Says :
    (s : Sign) (a b p x y : ℕ)
    → a < p
    → b < p
    → Says s a b
    → Says (if ltb x y then negative else if ltb y x then positive else s) (a + p * x) (b + p * y)
digit-Says s a b p x y ha hb h = elim (Bool-cases (ltb x y)) [
  | inl less ↦ rw less (digit_lt a b p x y ha (ground arith))
  | inr no_less ↦ elim (Bool-cases (ltb y x)) [
    | inl more ↦ rw (no_less, more) (digit_lt b a p y x hb (ground arith))
    | inr no_more ↦
        let same : x ≡ y = ground arith in
        rw (no_less, no_more) (equal s (ap (λ (t : ℕ). p * t) same) h)
  ]
]
  where
    equal : (s : Sign) → p * x ≡ p * y → Says s a b → Says s (a + p * x) (b + p * y)
    equal negative e h = omega arith
    equal zero_sign e h = omega arith
    equal positive e h = omega arith

compare_from-Says :
    (i : ℕ) (left right : Bytes)
    → All IsByte left
    → All IsByte right
    → i ≤ length left
    → i ≤ length right
    → Says (compare_from i left right) (le_value (take i left)) (le_value (take i right))
unfolding compare_from
compare_from-Says zero left right hl hr l r = refl
compare_from-Says (suc i) left right hl hr l r =
    rw (le_value-take-suc i left l, le_value-take-suc i right r)
      (digit-Says (compare_from i left right) _ _ (256 ^ i) (get_or left i 0) (get_or right i 0)
        (le_value-take_lt i left hl) (le_value-take_lt i right hr)
        (compare_from-Says i left right hl hr (omega arith) (omega arith)))

compare_le256-Says :
    (left right : Bytes)
    → All IsByte left
    → All IsByte right
    → length left ≡ 32
    → length right ≡ 32
    → Says (compare_le256 left right) (le_value left) (le_value right)
unfolding compare_le256
compare_le256-Says left right hl hr l r =
    subst (λ x. Says (compare_from 32 left right) x (le_value right))
      (ap le_value (take-all 32 left (omega arith)))
      (subst (λ y. Says (compare_from 32 left right) (le_value (take 32 left)) y)
        (ap le_value (take-all 32 right (omega arith)))
        (compare_from-Says 32 left right hl hr (omega arith) (omega arith)))

-- meetsTarget on two buffers of 32 bytes answers whether the hash, as a little-endian number, is at
-- most the target.
pub meets_target_iff :
    (hash target : Bytes)
    → All IsByte hash
    → All IsByte target
    → length hash ≡ 32
    → length target ≡ 32
    → (b : Bool) × (meets_target hash target ≡ ok b)
      × ((b ≡ true) ↔ (le_value hash ≤ le_value target))
unfolding meets_target
meets_target_iff hash target hh ht lh lt = (
  not_positive (compare_le256 hash target),
  ground arith,
  answer (compare_le256 hash target) (compare_le256-Says hash target hh ht lh lt),
)
  where
    answer :
        (s : Sign)
        → Says s (le_value hash) (le_value target)
        → (not_positive s ≡ true) ↔ (le_value hash ≤ le_value target)
    answer negative h = (λ _. omega arith, λ _. refl)
    answer zero_sign h = (λ _. omega arith, λ _. refl)
    answer positive h = (λ e. cc, λ l. absurd (omega arith))

-- On any other lengths it throws.
pub meets_target_refused :
    (hash target : Bytes)
    → (length hash ≢ 32) ⊎ (length target ≢ 32)
    → meets_target hash target ≡ err bad_argument
unfolding meets_target
meets_target_refused hash target h = ground arith
