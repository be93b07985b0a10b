-- ===== src/Extranonce/Allocation.antt =====
-- The invariant of Sv2ExtranonceManager, src/models/sv2/sv2-extranonce-manager.ts, and what
-- allocate and release do.
use lido.Base.{
  ℕ, zero, suc, ◌+◌, ◌-◌, ◌*◌, ◌^◌, ◌≤◌, ◌≡◌, refl, ap, subst, ◌∙◌, ◌⊎◌, inl, inr, true, false,
  ◌==◌, ==_iff, Bool-cases, none, some, Option-cases, List, [], ◌∷◌, arith, All, Bytes,
}
use lido.Outcome.{Result, ok, err, exhausted}
use lido.Extranonce.{
  Manager, fresh_manager, new_manager, has, get, delete_channel, delete_prefix, prefix_to_buffer,
  record_prefix, next_free, claim, allocate, release,
}

abbrev pub NoRepeats : List ℕ → Type 0
NoRepeats [] = Unit {0}
NoRepeats (x ∷ xs) = (has xs x ≡ false) × NoRepeats xs

abbrev pub channels : List (ℕ × ℕ) → List ℕ
channels [] = []
channels ((c, p) ∷ m) = c ∷ channels m

abbrev pub prefixes : List (ℕ × ℕ) → List ℕ
prefixes [] = []
prefixes ((c, p) ∷ m) = p ∷ prefixes m

-- The used prefixes are those of the channels, no channel and no prefix stands twice, and all lie
-- in the partition 1 to max_prefix, as the cursor does.
pub record IsManager (m : Manager) : Type 0 where
  pub size_low : 2 ≤ m.prefix_size
  pub size_high : m.prefix_size ≤ 4
  pub total : m.prefix_size ≤ m.total_extranonce_size
  pub namespace : m.process_namespace ≤ 0xff
  pub partition : m.max_prefix + 1 ≡ 256 ^ (m.prefix_size - 1)
  pub cursor : (1 ≤ m.next_prefix) × (m.next_prefix ≤ m.max_prefix)
  pub in_use : m.used_prefixes ≡ prefixes m.allocated_prefixes
  pub once : NoRepeats m.used_prefixes
  pub channel_once : NoRepeats (channels m.allocated_prefixes)
  pub in_partition : All (λ p. (1 ≤ p) × (p ≤ m.max_prefix)) m.used_prefixes

partition_size :
    (n : ℕ)
    → 2 ≤ n
    → n ≤ 4
    → (2 ^ ((n - 1) * 8) - 1 + 1 ≡ 256 ^ (n - 1)) × (1 ≤ 2 ^ ((n - 1) * 8) - 1)
partition_size zero lo hi = absurd (omega arith)
partition_size (suc zero) lo hi = absurd (omega arith)
partition_size (suc (suc zero)) lo hi = (refl, omega arith)
partition_size (suc (suc (suc zero))) lo hi = (refl, omega arith)
partition_size (suc (suc (suc (suc zero)))) lo hi = (refl, omega arith)
partition_size (suc (suc (suc (suc (suc n))))) lo hi = absurd (omega arith)

-- For a prefix of 2 to 4 bytes, a total that includes it and a namespace of one byte the constructor
-- returns a well-formed manager.
pub new_manager-IsManager :
    (prefix_size total namespace : ℕ)
    → 2 ≤ prefix_size
    → prefix_size ≤ 4
    → prefix_size ≤ total
    → namespace ≤ 0xff
    → (m : Manager) × (new_manager prefix_size total namespace ≡ ok m) × IsManager m
unfolding new_manager
new_manager-IsManager ps total ns lo hi t n =
    let (size, positive) = partition_size ps lo hi in
    (
      fresh_manager ps total ns,
      ground arith,
      record {
        size_low = lo;
        size_high = hi;
        total = t;
        namespace = n;
        partition = size;
        cursor = (omega arith, positive);
        in_use = refl;
        once = tt;
        channel_once = tt;
        in_partition = tt;
      },
    )

pub get-none-has : (m : List (ℕ × ℕ)) (c : ℕ) → get m c ≡ none → has (channels m) c ≡ false
unfolding get has
get-none-has [] c e = refl
get-none-has ((d, p) ∷ m) c e = ground (arith, get-none-has m c)

pub get-some-has : (m : List (ℕ × ℕ)) (c p : ℕ) → get m c ≡ some p → has (prefixes m) p ≡ true
unfolding get has
get-some-has [] c p e = cc
get-some-has ((d, q) ∷ m) c p e = ground (arith, get-some-has m c p)

pub All-has : (P : ℕ → Type 0) (xs : List ℕ) (x : ℕ) → All P xs → has xs x ≡ true → P x
unfolding has
All-has P [] x a e = absurd (ground arith)
All-has P (y ∷ ys) x a e = elim (Bool-cases (y == x)) [
  | inl here ↦ subst P ((==_iff y x).0 here) a.0
  | inr there ↦ All-has P ys x a.1 (ground arith)
]

delete_agrees :
    (m : List (ℕ × ℕ)) (c p : ℕ)
    → NoRepeats (prefixes m)
    → get m c ≡ some p
    → delete_prefix (prefixes m) p ≡ prefixes (delete_channel m c)
unfolding get delete_prefix delete_channel has
delete_agrees [] c p n e = cc
delete_agrees ((d, q) ∷ m) c p n e = ground (arith, delete_agrees m c p n.1, get-some-has m c p)

has-delete_channel :
    (m : List (ℕ × ℕ)) (c d : ℕ)
    → has (channels m) d ≡ false
    → has (channels (delete_channel m c)) d ≡ false
unfolding delete_channel has
has-delete_channel [] c d h = h
has-delete_channel ((k, p) ∷ m) c d h = ground (arith, has-delete_channel m c d)

delete_channel-NoRepeats :
    (m : List (ℕ × ℕ)) (c : ℕ) → NoRepeats (channels m) → NoRepeats (channels (delete_channel m c))
unfolding delete_channel
delete_channel-NoRepeats [] c h = tt
delete_channel-NoRepeats ((k, p) ∷ m) c h =
    ground (arith, delete_channel-NoRepeats m c h.1, has-delete_channel m c k)

has-delete_prefix : (xs : List ℕ) (p q : ℕ) → has xs q ≡ false → has (delete_prefix xs p) q ≡ false
unfolding delete_prefix has
has-delete_prefix [] p q h = h
has-delete_prefix (x ∷ xs) p q h = ground (arith, has-delete_prefix xs p q)

delete_prefix-NoRepeats : (xs : List ℕ) (p : ℕ) → NoRepeats xs → NoRepeats (delete_prefix xs p)
unfolding delete_prefix
delete_prefix-NoRepeats [] p h = tt
delete_prefix-NoRepeats (x ∷ xs) p h =
    ground (arith, delete_prefix-NoRepeats xs p h.1, has-delete_prefix xs p x)

delete_prefix-All : (P : ℕ → Type 0) (xs : List ℕ) (p : ℕ) → All P xs → All P (delete_prefix xs p)
unfolding delete_prefix
delete_prefix-All P [] p h = tt
delete_prefix-All P (x ∷ xs) p h = elim (Bool-cases (x == p)) [
  | inl e ↦ rw e h.1
  | inr e ↦ rw e (h.0, delete_prefix-All P xs p h.1)
]

-- A well-formed manager stays well formed when any channel is released.
pub release-IsManager : (c : ℕ) (m : Manager) → IsManager m → IsManager (release c m)
unfolding release
release-IsManager c m v = elim (Option-cases (get m.allocated_prefixes c)) [
  | inl e ↦ rw (e, release) v
  | inr (p, e) ↦
      rw (e, release)
        (record {
          size_low = v.size_low;
          size_high = v.size_high;
          total = v.total;
          namespace = v.namespace;
          partition = v.partition;
          cursor = v.cursor;
          in_use =
              ap (λ xs. delete_prefix xs p) v.in_use
              ∙ delete_agrees m.allocated_prefixes c p (subst NoRepeats v.in_use v.once) e;
          once = delete_prefix-NoRepeats m.used_prefixes p v.once;
          channel_once = delete_channel-NoRepeats m.allocated_prefixes c v.channel_once;
          in_partition = delete_prefix-All _ m.used_prefixes p v.in_partition;
        })
]

pub record_prefix-IsManager :
    (m : Manager) (c p : ℕ)
    → IsManager m
    → get m.allocated_prefixes c ≡ none
    → (1 ≤ p) × (p ≤ m.max_prefix)
    → has m.used_prefixes p ≡ false
    → IsManager (record_prefix m c p)
unfolding record_prefix
record_prefix-IsManager m c p v e r f = record {
  size_low = v.size_low;
  size_high = v.size_high;
  total = v.total;
  namespace = v.namespace;
  partition = v.partition;
  cursor = ground arith;
  in_use = ap (◌∷◌ p) v.in_use;
  once = (f, v.once);
  channel_once = (get-none-has m.allocated_prefixes c e, v.channel_once);
  in_partition = (r, v.in_partition);
}

abbrev pub IsChannelId : ℕ → Type 0
IsChannelId c = (1 ≤ c) × (c ≤ 0xffffffff)

-- The three ends of allocate for a legal channel.
abbrev pub Ends : ℕ → Manager → Result (Bytes × Manager) → Type 0
Ends c m r =
    ((p : ℕ) × (get m.allocated_prefixes c ≡ some p) × (r ≡ ok (prefix_to_buffer m p, m)))
    ⊎ ((get m.allocated_prefixes c ≡ none)
        × (((has m.used_prefixes (next_free m) ≡ false)
              × (r ≡ ok (prefix_to_buffer m (next_free m), record_prefix m c (next_free m))))
            ⊎ ((has m.used_prefixes (next_free m) ≡ true) × (r ≡ err exhausted))))

pub allocate-Ends : (c : ℕ) (m : Manager) → IsChannelId c → Ends c m (allocate c m)
unfolding allocate claim
allocate-Ends c m h = elim (Option-cases (get m.allocated_prefixes c)) [
  | inr (p, e) ↦ inl (p, e, ground arith)
  | inl e ↦ elim (Bool-cases (has m.used_prefixes (next_free m))) [
    | inr free ↦ inr (e, inl (free, ground arith))
    | inl taken ↦ inr (e, inr (taken, ground arith))
  ]
]
