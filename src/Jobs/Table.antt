-- ===== src/Jobs/Table.antt =====
-- The table of jobs in src/services/stratum-v1-jobs.service.ts: fresh numbers, and old entries.
use lido.Base.{
  ℕ, zero, suc, ◌-◌, ◌/◌, ◌%◌, ◌≤◌, ◌≡◌, refl, sym, ap, ◌∙◌, subst, Bool, true, false, Bool-cases,
  inl, inr, Option, none, some, [], ◌∷◌, ltb, ◌==◌, All, arith, if◌then◌else◌,
}
use lido.Client.{Units, same_key}
use lido.Client.Judgement.{same_key_refl}
use lido.Mining.Hex.{digit, read_digits, read_digits-digit}
use lido.Jobs.{Table, find, put, keep_fresh, job_max_age_ms, hex_text, hex_text_on}

pub same_key→≡ : (j k : Units) → same_key j k ≡ true → j ≡ k
unfolding same_key
same_key→≡ [] [] h = refl
same_key→≡ [] (y ∷ ys) h = absurd (cc h)
same_key→≡ (x ∷ xs) [] h = absurd (cc h)
same_key→≡ (x ∷ xs) (y ∷ ys) h = elim (Bool-cases (x == y)) [
  | inl e ↦
      let head : x ≡ y = ground arith in
      let tail : same_key xs ys ≡ true = ground arith in
      ap (◌∷◌ x) (same_key→≡ xs ys tail) ∙ ap (λ z. z ∷ ys) head
  | inr e ↦ absurd (ground arith)
]

-- The digits of a number, read back.
read-hex_text_on :
    (fuel n : ℕ) (text : Units)
    → n ≤ fuel
    → read_digits none (hex_text_on fuel n text) ≡ read_digits (some n) text
unfolding hex_text_on
read-hex_text_on zero n text h =
    let zero_left : n ≡ 0 = omega arith in
    rw zero_left (read_digits-digit none 0 text (omega arith))
read-hex_text_on (suc fuel) n text h = elim (Bool-cases (ltb n 16)) [
  | inl small ↦
      let e : hex_text_on (suc fuel) n text ≡ digit n ∷ text = unfold hex_text_on in rw small in
      ap (read_digits none) e
      ∙ read_digits-digit none n text (ground arith)
      ∙ ap (λ x. read_digits (some x) text) (omega arith)
  | inr large ↦
      let e : hex_text_on (suc fuel) n text ≡ hex_text_on fuel (n / 16) (digit (n % 16) ∷ text) =
        unfold hex_text_on in rw large in
      ap (read_digits none) e
      ∙ read-hex_text_on fuel (n / 16) (digit (n % 16) ∷ text) (ground arith)
      ∙ read_digits-digit (some (n / 16)) (n % 16) text (omega arith)
      ∙ ap (λ x. read_digits (some x) text) (omega arith)
]

number_or_zero : Option ℕ → ℕ
number_or_zero none = 0
number_or_zero (some n) = n

pub hex_text-injective : (m n : ℕ) → hex_text m ≡ hex_text n → m ≡ n
unfolding read_digits number_or_zero
hex_text-injective m n e = ap number_or_zero (
    sym (read-hex_text_on m m [] (omega arith))
    ∙ ap (read_digits none) e
    ∙ read-hex_text_on n n [] (omega arith))

module _ {A : Type 0} where
  pub find-put : (m : Table A) (k : Units) (a : A) → find (put m k a) k ≡ some a
  unfolding find put
  find-put [] k a = rw (same_key_refl k)
  find-put ((j, b) ∷ m) k a = elim (Bool-cases (same_key j k)) [
    | inl e ↦ rw (e, e)
    | inr e ↦ rw (e, e, find-put m k a)
  ]

  pub find-put_other :
      (m : Table A) (k l : Units) (a : A) → same_key k l ≡ false → find (put m k a) l ≡ find m l
  unfolding find put
  find-put_other [] k l a h = rw h
  find-put_other ((j, b) ∷ m) k l a h = elim (Bool-cases (same_key j k)) [
    | inl e ↦
        let other : same_key j l ≡ false = ap (λ x. same_key x l) (same_key→≡ j k e) ∙ h in
        rw (e, other)
    | inr e ↦ elim (Bool-cases (same_key j l)) [
      | inl f ↦ rw (e, f)
      | inr f ↦ rw (e, f, find-put_other m k l a h)
    ]
  ]

  -- No key stands twice.
  abbrev pub IsUnique : Table A → Type 0
  IsUnique [] = Unit {0}
  IsUnique ((k, a) ∷ m) = All (λ x. same_key x.0 k ≡ false) m × IsUnique m

  pub find-none : (m : Table A) (k : Units) → All (λ x. same_key x.0 k ≡ false) m → find m k ≡ none
  unfolding find
  find-none [] k h = refl
  find-none ((j, a) ∷ m) k h = rw (h.0, find-none m k h.1)

  All-either :
      (P : Units × A → Type 0) (b : Bool) (xs ys : Table A)
      → All P xs
      → All P ys
      → All P (if b then xs else ys)
  All-either P true xs ys hx hy = hx
  All-either P false xs ys hx hy = hy

  pub All-keep_fresh :
      (P : Units × A → Type 0) (c : A → ℕ) (now : ℕ) (m : Table A)
      → All P m
      → All P (keep_fresh c now m)
  unfolding keep_fresh
  All-keep_fresh P c now [] h = tt
  All-keep_fresh P c now ((k, a) ∷ m) h =
      let rest = All-keep_fresh P c now m h.1 in
      All-either P (ltb job_max_age_ms (now - c a)) _ _ rest (h.0, rest)

  IsUnique-either :
      (b : Bool) (xs ys : Table A) → IsUnique xs → IsUnique ys → IsUnique (if b then xs else ys)
  IsUnique-either true xs ys hx hy = hx
  IsUnique-either false xs ys hx hy = hy

  pub IsUnique-keep_fresh :
      (c : A → ℕ) (now : ℕ) (m : Table A) → IsUnique m → IsUnique (keep_fresh c now m)
  unfolding keep_fresh
  IsUnique-keep_fresh c now [] h = tt
  IsUnique-keep_fresh c now ((k, a) ∷ m) h =
      let rest = IsUnique-keep_fresh c now m h.1 in
      IsUnique-either (ltb job_max_age_ms (now - c a)) _ _ rest
        (All-keep_fresh (λ x. same_key x.0 k ≡ false) c now m h.0, rest)

  -- What is left of an entry.
  abbrev pub still_fresh : (A → ℕ) → ℕ → Option A → Option A
  still_fresh c now none = none
  still_fresh c now (some a) = if ltb job_max_age_ms (now - c a) then none else some a

  pub find-keep_fresh :
      (c : A → ℕ) (now : ℕ) (m : Table A) (k : Units)
      → IsUnique m
      → find (keep_fresh c now m) k ≡ still_fresh c now (find m k)
  unfolding find keep_fresh
  find-keep_fresh c now [] k h = refl
  find-keep_fresh c now ((j, a) ∷ m) k h = elim (Bool-cases (ltb job_max_age_ms (now - c a))) [
    | inl stale ↦ elim (Bool-cases (same_key j k)) [
      | inl e ↦
          let gone : find m k ≡ none =
            find-none m k
              (subst (λ x. All (λ y. same_key y.0 x ≡ false) m) (same_key→≡ j k e) h.0) in
          rw (e, stale, find-keep_fresh c now m k h.1, gone)
      | inr e ↦ rw (e, stale, find-keep_fresh c now m k h.1)
    ]
    | inr young ↦ elim (Bool-cases (same_key j k)) [
      | inl e ↦ rw (e, young, e)
      | inr e ↦ rw (e, young, e, find-keep_fresh c now m k h.1)
    ]
  ]

  pub All-put :
      (P : Units × A → Type 0) (m : Table A) (k : Units) (a : A)
      → All P m
      → P (k, a)
      → All P (put m k a)
  unfolding put
  All-put P [] k a h p = (p, tt)
  All-put P ((j, b) ∷ m) k a h p = elim (Bool-cases (same_key j k)) [
    | inl e ↦
        subst (λ x. All P (if x then (j, a) ∷ m else (j, b) ∷ put m k a)) (sym e)
          (subst (λ x. P (x, a)) (sym (same_key→≡ j k e)) p, h.1)
    | inr e ↦
        subst (λ x. All P (if x then (j, a) ∷ m else (j, b) ∷ put m k a)) (sym e)
          (h.0, All-put P m k a h.1 p)
  ]

  pub IsUnique-put : (m : Table A) (k : Units) (a : A) → IsUnique m → IsUnique (put m k a)
  unfolding put
  IsUnique-put [] k a h = (tt, tt)
  IsUnique-put ((j, b) ∷ m) k a h = elim (Bool-cases (same_key j k)) [
    | inl e ↦
        subst (λ x. IsUnique (if x then (j, a) ∷ m else (j, b) ∷ put m k a)) (sym e) (h.0, h.1)
    | inr e ↦
        subst (λ x. IsUnique (if x then (j, a) ∷ m else (j, b) ∷ put m k a)) (sym e)
          (
            All-put (λ x. same_key x.0 j ≡ false) m k a h.0
                (elim (Bool-cases (same_key k j)) [
                  | inl f ↦
                      absurd
                        (cc (sym (same_key_refl k) ∙ ap (λ x. same_key x k) (same_key→≡ k j f) ∙ e))
                  | inr f ↦ f
                ]),
            IsUnique-put m k a h.1,
          )
  ]
