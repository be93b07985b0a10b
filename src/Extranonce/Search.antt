-- ===== src/Extranonce/Search.antt =====
-- The search for a free prefix in allocate of src/models/sv2/sv2-extranonce-manager.ts.
use lido.Base.{
  ℕ, zero, suc, ◌+◌, ◌-◌, ◌≤◌, ◌≡◌, refl, ap, subst, ◌∙◌, inl, inr, true, leb, Bool-cases, List,
  arith,
}
use lido.Extranonce.{has, step, search_prefix}

abbrev InPartition : ℕ → ℕ → Type 0
InPartition max p = (1 ≤ p) × (p ≤ max)

step-InPartition : (max p : ℕ) → InPartition max p → InPartition max (step max p)
step-InPartition max p h = ground arith

pub search-InPartition :
    (rounds : ℕ) (used : List ℕ) (max p : ℕ)
    → InPartition max p
    → InPartition max (search_prefix rounds used max p)
unfolding search_prefix
search-InPartition zero used max p h = h
search-InPartition (suc rounds) used max p h = elim (Bool-cases (has used p)) [
  | inl taken ↦
      rw taken (search-InPartition rounds used max (step max p) (step-InPartition max p h))
  | inr free ↦ rw free h
]

-- The prefix that k steps reach.
abbrev walk : ℕ → ℕ → ℕ → ℕ
walk max zero p = p
walk max (suc k) p = walk max k (step max p)

-- If the search ends at a used prefix, every prefix on its way is used.
search_visits :
    (rounds : ℕ) (used : List ℕ) (max p k : ℕ)
    → has used (search_prefix rounds used max p) ≡ true
    → k ≤ rounds
    → has used (walk max k p) ≡ true
unfolding search_prefix
search_visits zero used max p zero e h = e
search_visits zero used max p (suc k) e h = absurd (omega arith)
search_visits (suc rounds) used max p zero e h = ground arith
search_visits (suc rounds) used max p (suc k) e h = elim (Bool-cases (has used p)) [
  | inl taken ↦
      search_visits rounds used max (step max p) k (rw (taken, search_prefix) at e) (omega arith)
  | inr free ↦ ground arith
]

walk_up : (max k p q : ℕ) → p + k ≡ q → q ≤ max → walk max k p ≡ q
walk_up max zero p q e h = omega arith
walk_up max (suc k) p q e h =
    let s : step max p ≡ p + 1 = ground arith in
    ap (walk max k) s ∙ walk_up max k (p + 1) q (omega arith) h

-- Past the end of the partition the walk goes on from 1.
walk_wraps :
    (max k j n p : ℕ) → p + k ≡ max → p ≤ max → n ≡ k + j → walk max (suc n) p ≡ walk max j 1
walk_wraps max zero j n p e h s =
    let s' : n ≡ j = omega arith in
    let top : step max p ≡ 1 = ground arith in
    ap (λ i. walk max i (step max p)) s' ∙ ap (walk max j) top
walk_wraps max (suc k) j zero p e h s = absurd (omega arith)
walk_wraps max (suc k) j (suc n) p e h s =
    let up : step max p ≡ p + 1 = ground arith in
    ap (walk max (suc n)) up
    ∙ walk_wraps max k j n (p + 1) (omega arith) (omega arith) (omega arith)

-- Every prefix of the partition is at most max steps away.
walk_reaches :
    (max p q : ℕ) → InPartition max p → InPartition max q → (k : ℕ) × (k ≤ max) × (walk max k p ≡ q)
walk_reaches max p q hp hq = elim (Bool-cases (leb p q)) [
  | inl up ↦ (q - p, omega arith, walk_up max (q - p) p q (ground arith) hq.1)
  | inr down ↦ (
    suc (max - p + (q - 1)),
    ground arith,
    walk_wraps max (max - p) (q - 1) (max - p + (q - 1)) p (ground arith) hp.1 refl
        ∙ walk_up max (q - 1) 1 q (omega arith) hq.1,
  )
]

-- The search fails only if the whole partition is in use.
pub search_complete :
    (used : List ℕ) (max p q : ℕ)
    → InPartition max p
    → InPartition max q
    → has used (search_prefix (max + 1) used max p) ≡ true
    → has used q ≡ true
search_complete used max p q hp hq e =
    let (k, le, r) = walk_reaches max p q hp hq in
    subst (λ x. has used x ≡ true) r (search_visits (max + 1) used max p k e (omega arith))
