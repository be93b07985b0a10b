-- ===== src/Extranonce/Prefixes.antt =====
-- The prefixes that the managers of src/models/sv2/sv2-extranonce-manager.ts give out.
use lido.Base.{
  ℕ, ◌-◌, ◌≤◌, ◌<◌, ◌≡◌, ◌≢◌, sym, ap, subst, ◌∙◌, inl, inr, some, Option-cases, List, [], ◌∷◌,
  arith, All, Bytes, IsByte, length,
}
use lido.Extranonce.{Manager, has, get, be_bytes, prefix_to_buffer, get_prefix}
use lido.Extranonce.Allocation.{IsManager, NoRepeats, prefixes, All-has, get-some-has}
use lido.Extranonce.BigEndian.{
  be_value, be_value-be_bytes, be_bytes-injective, length-be_bytes, be_bytes-IsByte,
}

-- Channels with the same prefix are the same.
channel_of_prefix :
    (m : List (ℕ × ℕ)) (c d p : ℕ)
    → NoRepeats (prefixes m)
    → get m c ≡ some p
    → get m d ≡ some p
    → c ≡ d
unfolding get
channel_of_prefix [] c d p n g h = cc
channel_of_prefix ((k, q) ∷ m) c d p n g h =
    ground (arith, channel_of_prefix m c d p n.1, get-some-has m c p, get-some-has m d p)

get_prefix_cases :
    (m : Manager) (c : ℕ) (b : Bytes)
    → get_prefix c m ≡ some b
    → (p : ℕ) × (get m.allocated_prefixes c ≡ some p) × (b ≡ prefix_to_buffer m p)
unfolding get_prefix
get_prefix_cases m c b e = elim (Option-cases (get m.allocated_prefixes c)) [
  | inl g ↦ ground arith
  | inr (p, g) ↦ (p, g, ground arith)
]

prefix_in_partition :
    (m : Manager) (c p : ℕ)
    → IsManager m
    → get m.allocated_prefixes c ≡ some p
    → (1 ≤ p) × (p ≤ m.max_prefix)
prefix_in_partition m c p v g =
    All-has (λ p. (1 ≤ p) × (p ≤ m.max_prefix)) m.used_prefixes p v.in_partition
      (ap (λ xs. has xs p) v.in_use ∙ get-some-has m.allocated_prefixes c p g)

-- No two channels of a well-formed manager have the same extranonce prefix.
pub get_prefix_unique :
    (m : Manager) (c d : ℕ) (b : Bytes)
    → IsManager m
    → get_prefix c m ≡ some b
    → get_prefix d m ≡ some b
    → c ≡ d
unfolding prefix_to_buffer
get_prefix_unique m c d b v e f =
    let (p, g, x) = get_prefix_cases m c b e in
    let (q, h, y) = get_prefix_cases m d b f in
    let (_, hp) = prefix_in_partition m c p v g in
    let (_, hq) = prefix_in_partition m d q v h in
    let same : p ≡ q =
      be_bytes-injective (m.prefix_size - 1) p q (omega (arith, v.partition))
        (omega (arith, v.partition)) (ap tail (sym x ∙ y)) in
    channel_of_prefix m.allocated_prefixes c d p (subst NoRepeats v.in_use v.once) g
      (h ∙ ap some (sym same))
  where
    tail : Bytes → Bytes
    tail [] = []
    tail (_ ∷ bs) = bs

-- Channels of two managers with different namespaces never have the same prefix.
pub get_prefix_apart :
    (m n : Manager) (c d : ℕ) (a b : Bytes)
    → m.process_namespace ≢ n.process_namespace
    → get_prefix c m ≡ some a
    → get_prefix d n ≡ some b
    → a ≢ b
unfolding prefix_to_buffer
get_prefix_apart m n c d a b apart e f same =
    let (p, _, x) = get_prefix_cases m c a e in
    let (q, _, y) = get_prefix_cases n d b f in apart (ap first (sym x ∙ same ∙ y))
  where
    first : Bytes → ℕ
    first [] = 0
    first (b ∷ _) = b

-- A prefix that a channel has is prefix_size bytes, the first of them the namespace, and they are
-- not all zero behind it.
pub get_prefix_shape :
    (m : Manager) (c : ℕ) (b : Bytes)
    → IsManager m
    → get_prefix c m ≡ some b
    → (rest : Bytes) × (b ≡ m.process_namespace ∷ rest)
      × All IsByte b
      × (length b ≡ m.prefix_size)
      × (0 < be_value 0 rest)
unfolding prefix_to_buffer
get_prefix_shape m c b v e =
    let (p, g, x) = get_prefix_cases m c b e in
    let (lo, hi) = prefix_in_partition m c p v g in
    let k : ℕ = m.prefix_size - 1 in
    let value : be_value 0 (be_bytes k p) ≡ p =
      be_value-be_bytes k p (omega (arith, v.partition)) in
    (
      be_bytes k p,
      x,
      subst (All IsByte) (sym x) (omega (arith, v.namespace), be_bytes-IsByte k p),
      omega (arith, ap length x, length-be_bytes k p, v.size_low),
      omega arith,
    )
