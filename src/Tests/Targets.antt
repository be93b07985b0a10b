-- ===== src/Tests/Targets.antt =====
-- Runs of the target arithmetic of src/utils/difficulty.utils.ts.
use lido.Base.{
  zero, suc, ◌<◌, All-append, ℕ, ◌*◌, ◌^◌, ◌≤◌, ◌≡◌, ◌≢◌, ◌↔◌, refl, inl, Bool, true, some, none,
  [], ◌∷◌, ◌++◌, arith, All, IsByte, Bytes, length, replicate, le_value,
}
use lido.Outcome.{ok, err, bad_argument}
use lido.Difficulty.{
  meets_target, compact_to_target, meets_compact_target, store_word, is_zero_target,
}
use lido.Difficulty.Targets.{meets_target_iff, meets_target_refused}
use lido.Difficulty.Compact.{compact_to_target_value, meets_compact_target_iff}

-- The target of the easiest block of the main network, nBits 0x1d00ffff.
abbrev easiest : Bytes
easiest = replicate 26 0 ++ (255 ∷ 255 ∷ 0 ∷ 0 ∷ 0 ∷ 0 ∷ [])

abbrev hash : Bytes
hash = replicate 26 7 ++ (254 ∷ 255 ∷ 0 ∷ 0 ∷ 0 ∷ 0 ∷ [])

replicate-IsByte : (n b : ℕ) → b < 256 → All IsByte (replicate n b)
replicate-IsByte zero b h = tt
replicate-IsByte (suc n) b h = (h, replicate-IsByte n b h)

hash-IsByte : All IsByte hash
hash-IsByte =
    All-append IsByte (replicate 26 7) (254 ∷ 255 ∷ 0 ∷ 0 ∷ 0 ∷ 0 ∷ [])
      (replicate-IsByte 26 7 (omega arith)) (ground arith)

easiest-IsByte : All IsByte easiest
easiest-IsByte =
    All-append IsByte (replicate 26 0) (255 ∷ 255 ∷ 0 ∷ 0 ∷ 0 ∷ 0 ∷ [])
      (replicate-IsByte 26 0 (omega arith)) (ground arith)

compact : compact_to_target 0x1d00ffff ≡ some easiest
unfolding compact_to_target store_word is_zero_target
compact = refl

meets_target_iff_example :
    (b : Bool) × (meets_target hash easiest ≡ ok b)
    × ((b ≡ true) ↔ (le_value hash ≤ le_value easiest))
meets_target_iff_example = meets_target_iff hash easiest hash-IsByte easiest-IsByte refl refl

meets_target_refused_example : meets_target (1 ∷ []) easiest ≡ err bad_argument
meets_target_refused_example = meets_target_refused (1 ∷ []) easiest (inl (omega arith))

compact_to_target_value_example :
    (length easiest ≡ 32) × All IsByte easiest × (le_value easiest ≡ 0xffff * 256 ^ 26)
compact_to_target_value_example = compact_to_target_value 0x1d00ffff easiest compact

meets_compact_target_iff_example :
    (b : Bool) × (meets_compact_target hash 0x1d00ffff ≡ ok b)
    × ((b ≡ true) ↔ ((compact_to_target 0x1d00ffff ≢ none) × (le_value hash ≤ 0xffff * 256 ^ 26)))
meets_compact_target_iff_example = meets_compact_target_iff hash 0x1d00ffff hash-IsByte refl
