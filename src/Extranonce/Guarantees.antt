-- ===== src/Extranonce/Guarantees.antt =====
-- allocate of src/models/sv2/sv2-extranonce-manager.ts as its callers see it.
use mathlib.Core.Path.{ap₂}
use lido.Base.{
  ℕ, ◌+◌, ◌≤◌, ◌≡◌, ◌≢◌, ◌↔◌, refl, sym, ap, subst, ◌∙◌, ◌⊎◌, inl, inr, true, false, none, some,
  arith, Bytes,
}
use lido.Outcome.{ok-injective, ok, err, exhausted}
use lido.Extranonce.{
  Manager, has, get, prefix_to_buffer, record_prefix, next_free, allocate, get_prefix,
}
use lido.Extranonce.Search.{search-InPartition, search_complete}
use lido.Extranonce.Allocation.{IsManager, IsChannelId, allocate-Ends, record_prefix-IsManager}

-- Any channel number that is refused leaves no manager, so a success has a legal one.
allocate_legal : (c : ℕ) (m : Manager) {r : Bytes × Manager} → allocate c m ≡ ok r → IsChannelId c
unfolding allocate
allocate_legal c m e = ground arith

-- A success is an old prefix or a new one.
allocate_cases :
    (c : ℕ) (m : Manager) (buf : Bytes) (m' : Manager)
    → allocate c m ≡ ok (buf, m')
    → ((p : ℕ) × (get m.allocated_prefixes c ≡ some p) × (buf ≡ prefix_to_buffer m p) × (m' ≡ m))
      ⊎ ((get m.allocated_prefixes c ≡ none)
          × (has m.used_prefixes (next_free m) ≡ false)
          × (buf ≡ prefix_to_buffer m (next_free m))
          × (m' ≡ record_prefix m c (next_free m)))
allocate_cases c m buf m' e = elim (allocate-Ends c m (allocate_legal c m e)) [
  | inl (p, g, r) ↦ let q = ok-injective (sym e ∙ r) in inl (p, g, ap (λ x. x.0) q, ap (λ x. x.1) q)
  | inr (g, inl (f, r)) ↦
      let q = ok-injective (sym e ∙ r) in inr (g, f, ap (λ x. x.0) q, ap (λ x. x.1) q)
  | inr (g, inr (f, r)) ↦ cc
]

next_free-InPartition :
    (m : Manager) → IsManager m → (1 ≤ next_free m) × (next_free m ≤ m.max_prefix)
next_free-InPartition m v =
    search-InPartition (m.max_prefix + 1) m.used_prefixes m.max_prefix m.next_prefix v.cursor

-- Whatever allocate returns, a well-formed manager stays well formed.
pub allocate-IsManager :
    (c : ℕ) (m : Manager) (buf : Bytes) (m' : Manager)
    → IsManager m
    → allocate c m ≡ ok (buf, m')
    → IsManager m'
allocate-IsManager c m buf m' v e = elim (allocate_cases c m buf m' e) [
  | inl (p, g, _, s) ↦ subst IsManager (sym s) v
  | inr (g, f, _, s) ↦
      subst IsManager (sym s)
        (record_prefix-IsManager m c (next_free m) v g (next_free-InPartition m v) f)
]

get_prefix-some :
    (m : Manager) (c p : ℕ)
    → get m.allocated_prefixes c ≡ some p
    → get_prefix c m ≡ some (prefix_to_buffer m p)
unfolding get_prefix
get_prefix-some m c p e = rw (e, get_prefix)

recorded :
    (m : Manager) (c p : ℕ)
    → (get (record_prefix m c p).allocated_prefixes c ≡ some p)
      × (prefix_to_buffer (record_prefix m c p) p ≡ prefix_to_buffer m p)
unfolding record_prefix get prefix_to_buffer
recorded m c p = (ground arith, refl)

recorded_other :
    (m : Manager) (c d p : ℕ) → d ≢ c → get_prefix d (record_prefix m c p) ≡ get_prefix d m
unfolding record_prefix get get_prefix prefix_to_buffer
recorded_other m c d p h = ground arith

allocate_known :
    (c : ℕ) (m : Manager) (p : ℕ)
    → IsChannelId c
    → get m.allocated_prefixes c ≡ some p
    → allocate c m ≡ ok (prefix_to_buffer m p, m)
unfolding allocate
allocate_known c m p l g = ground arith

-- A successful allocate leaves its channel with the returned prefix and every other channel with
-- what it had, and asking again for the channel returns the same bytes and changes nothing.
pub allocate_result :
    (c d : ℕ) (m : Manager) (buf : Bytes) (m' : Manager)
    → allocate c m ≡ ok (buf, m')
    → d ≢ c
    → (get_prefix c m' ≡ some buf)
      × (get_prefix d m' ≡ get_prefix d m)
      × (allocate c m' ≡ ok (buf, m'))
allocate_result c d m buf m' e h = elim (allocate_cases c m buf m' e) [
  | inl (p, g, b, s) ↦ (
    ap (get_prefix c) s ∙ get_prefix-some m c p g ∙ ap some (sym b),
    ap (get_prefix d) s,
    ap (allocate c) s ∙ e,
  )
  | inr (g, f, b, s) ↦
      let p = next_free m in
      let n = record_prefix m c p in
      let (here, same) = recorded m c p in
      (
        ap (get_prefix c) s ∙ get_prefix-some n c p here ∙ ap some (same ∙ sym b),
        ap (get_prefix d) s ∙ recorded_other m c d p h,
        ap (allocate c) s
            ∙ allocate_known c n p (allocate_legal c m e) here
            ∙ ap₂ (λ x y. ok (x, y)) (same ∙ sym b) (sym s),
      )
]

-- For a legal channel without a prefix, allocate throws exactly when every prefix of the partition
-- is in use.
pub allocate_exhausted_iff :
    (c : ℕ) (m : Manager)
    → IsManager m
    → IsChannelId c
    → get m.allocated_prefixes c ≡ none
    → (allocate c m ≡ err exhausted)
      ↔ ((q : ℕ) → 1 ≤ q → q ≤ m.max_prefix → has m.used_prefixes q ≡ true)
allocate_exhausted_iff c m v l g = (
  λ e q lo hi.
      search_complete m.used_prefixes m.max_prefix m.next_prefix q v.cursor (lo, hi) (taken e),
  λ all.
      let (lo, hi) = next_free-InPartition m v in
      let full : has m.used_prefixes (next_free m) ≡ true = all (next_free m) lo hi in
      elim (allocate-Ends c m l) [
        | inl (p, g', r) ↦ cc
        | inr (_, inl (f, r)) ↦ cc
        | inr (_, inr (t, r)) ↦ r
      ],
)
  where
    taken : allocate c m ≡ err exhausted → has m.used_prefixes (next_free m) ≡ true
    taken e = elim (allocate-Ends c m l) [
      | inl (p, g', r) ↦ cc
      | inr (_, inl (f, r)) ↦ cc
      | inr (_, inr (t, r)) ↦ t
    ]
