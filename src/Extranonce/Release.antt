-- ===== src/Extranonce/Release.antt =====
-- release of src/models/sv2/sv2-extranonce-manager.ts.
use lido.Base.{ℕ, ◌≡◌, ◌≢◌, refl, inl, inr, false, none, some, Option-cases, List, [], ◌∷◌, arith}
use lido.Extranonce.{
  Manager, has, get, delete_channel, delete_prefix, prefix_to_buffer, release, get_prefix,
}
use lido.Extranonce.Allocation.{IsManager, NoRepeats, channels}

get-delete_channel :
    (m : List (ℕ × ℕ)) (c : ℕ) → NoRepeats (channels m) → get (delete_channel m c) c ≡ none
unfolding get delete_channel has
get-delete_channel [] c n = refl
get-delete_channel ((d, p) ∷ m) c n = ground (arith, get-delete_channel m c n.1, has-get m c)
  where
    has-get : (m : List (ℕ × ℕ)) (c : ℕ) → has (channels m) c ≡ false → get m c ≡ none
    has-get [] c h = refl
    has-get ((d, p) ∷ m) c h = ground (arith, has-get m c)

get-delete_channel_other :
    (m : List (ℕ × ℕ)) (c d : ℕ) → d ≢ c → get (delete_channel m c) d ≡ get m d
unfolding get delete_channel
get-delete_channel_other [] c d h = refl
get-delete_channel_other ((k, p) ∷ m) c d h = ground (arith, get-delete_channel_other m c d h)

has-delete_prefix : (xs : List ℕ) (p : ℕ) → NoRepeats xs → has (delete_prefix xs p) p ≡ false
unfolding has delete_prefix
has-delete_prefix [] p n = refl
has-delete_prefix (x ∷ xs) p n = ground (arith, has-delete_prefix xs p n.1)

-- After release the channel has no prefix, and every other channel keeps its own.
pub release_result :
    (c d : ℕ) (m : Manager)
    → IsManager m
    → d ≢ c
    → (get_prefix c (release c m) ≡ none) × (get_prefix d (release c m) ≡ get_prefix d m)
unfolding release get_prefix prefix_to_buffer
release_result c d m v h = elim (Option-cases (get m.allocated_prefixes c)) [
  | inl e ↦ (ground arith, ground arith)
  | inr (p, e) ↦ (
    ground (arith, get-delete_channel m.allocated_prefixes c v.channel_once),
    ground (arith, get-delete_channel_other m.allocated_prefixes c d h),
  )
]

-- After release the prefix that the channel had is free, so that it can be given out again.
pub release_frees :
    (c p : ℕ) (m : Manager)
    → IsManager m
    → get m.allocated_prefixes c ≡ some p
    → has (release c m).used_prefixes p ≡ false
unfolding release
release_frees c p m v g = ground (arith, has-delete_prefix m.used_prefixes p v.once)
