-- ===== src/Statistics/Suggestion.antt =====
-- getSuggestedDifficulty and nearestPowerOfTwo of src/models/StratumV1ClientStatistics.ts.
use Prim.Native.Nat.{bit_or}
use lido.Base.{
  ℕ, zero, suc, ◌+◌, ◌<◌, ◌↔◌, inl, inr, Bool-cases, ltb→lt, lt→ltb, ◌-◌, ◌/◌, ◌%◌, ◌^◌, ◌≡◌, sym,
  ap, ◌∙◌, Bool, true, false, ◌&&◌, ◌||◌, Option, none, some, List, [], ◌∷◌, length, ltb, ◌==◌,
  if◌then◌else◌,
}
use lido.Outcome.{Result, ok, err, stuck, err≢ok, ok-injective}
use lido.Client.Pacing.{Reason, abandoned, idle, vardiff}
use lido.Numbers.{Numbers}
use lido.Statistics.{Statistics, idle_after_ms, abandon_after_ms}

-- `x >> k` of a 32-bit integer in two's complement; a shift by 32 is one by 0.
unfoldable pub shift_right : ℕ → ℕ → ℕ
shift_right x k =
    if ltb x (2 ^ 31) then x / 2 ^ (k % 32) else x / 2 ^ (k % 32) + (2 ^ 32 - 2 ^ (32 - k % 32))

abbrev smear : ℕ → ℕ → ℕ
smear k x = bit_or x (shift_right x k)

-- `x - (x >> 1)` behind the shifts, where x is not negative or is -1.
unfoldable pub highest_bit : ℕ → ℕ
highest_bit val =
    let x = smear 32 (smear 16 (smear 8 (smear 4 (smear 2 (smear 1 val))))) in
    (x + 2 ^ 32 - shift_right x 1) % 2 ^ 32

abbrev ms_between : ℕ → Option ℕ → ℕ → ℕ
ms_between start none now = now - start
ms_between start (some last) now = now - last

abbrev first_time {ℓ} : {A : Type ℓ} → List (ℕ × A) → ℕ
first_time [] = 0
first_time ((t, _) ∷ _) = t

abbrev last_time {ℓ} : {A : Type ℓ} → List (ℕ × A) → ℕ
last_time [] = 0
last_time ((t, _) ∷ []) = t
last_time (_ ∷ b ∷ rest) = last_time (b ∷ rest)

module _ ⦃numbers : Numbers⦄ where
  abbrev N : Type 0
  N = numbers.Number

  abbrev pub hundred : N
  hundred = numbers.of_nat 100

  -- MIN_DIFF, 0.00001
  abbrev pub min_diff : N
  min_diff = numbers.over (numbers.of_nat 1) (numbers.of_nat 100000)

  -- `/ 100`, where a null counts as 0.
  abbrev pub hundredth : Result (Option N) → Result (Option N)
  hundredth (err e) = err e
  hundredth (ok none) = ok (some (numbers.over (numbers.of_nat 0) hundred))
  hundredth (ok (some x)) = ok (some (numbers.over x hundred))

  -- The fuel is the depth of the recursion; without it the stack overflows in the end.
  unfoldable pub nearest_power_of_two : ℕ → N → Result (Option N)
  nearest_power_of_two zero val = err stuck
  nearest_power_of_two (suc fuel) val =
      let deeper = nearest_power_of_two fuel (numbers.times val hundred) in
      let res = highest_bit (numbers.to_int32 val) in
      if numbers.equal val (numbers.of_nat 0)
      then ok none
      else if numbers.greater min_diff val
      then ok (some min_diff)
      else if res == 0 && numbers.greater min_diff (numbers.times val hundred)
      then ok (some min_diff)
      else if res == 0
      then hundredth deeper
      else ok (some (numbers.of_nat res))

  abbrev pub suggest : Reason → Result (Option N) → Result (Option (Reason × N))
  suggest reason (err e) = err e
  suggest reason (ok none) = ok none
  suggest reason (ok (some d)) = ok (some (reason, d))

  abbrev pub sum_difficulty : N → List (ℕ × N) → N
  sum_difficulty sum [] = sum
  sum_difficulty sum ((_, d) ∷ cache) = sum_difficulty (numbers.plus sum d) cache

  abbrev pub target_difficulty : List (ℕ × N) → N
  target_difficulty cache =
      numbers.times
        (numbers.over (sum_difficulty (numbers.of_nat 0) cache) (
          numbers.over (numbers.of_nat (last_time cache - first_time cache)) (numbers.of_nat 1000)))
        (numbers.of_nat 10)

  -- Fewer than five shares were accepted.
  unfoldable pub suggest_quiet : ℕ → ℕ → N → Statistics N → Result (Option (Reason × N))
  suggest_quiet fuel now difficulty s =
      if ltb abandon_after_ms (ms_between s.submission_cache_start s.last_activity_at now)
      then ok (some (abandoned, difficulty))
      else if ltb idle_after_ms (ms_between s.submission_cache_start s.last_share_at now)
      then suggest idle (nearest_power_of_two fuel (numbers.over difficulty (numbers.of_nat 6)))
      else ok none

  unfoldable pub suggest_pace : ℕ → N → Statistics N → Result (Option (Reason × N))
  suggest_pace fuel difficulty s =
      let target = target_difficulty s.submission_cache in
      if numbers.greater target (numbers.times difficulty (numbers.of_nat 2))
        || numbers.greater (numbers.over difficulty (numbers.of_nat 2)) target
      then suggest vardiff (nearest_power_of_two fuel target)
      else ok none

  unfoldable pub get_suggested_difficulty : ℕ → ℕ → N → Statistics N → Result (Option (Reason × N))
  get_suggested_difficulty fuel now difficulty s =
      if ltb (length s.submission_cache) 5
      then suggest_quiet fuel now difficulty s
      else suggest_pace fuel difficulty s

  given : N → Option (Reason × N) → Reason × N
  given d none = (idle, d)
  given d (some x) = x

  suggest_vardiff :
      (r : Result (Option N)) (d : N) → suggest vardiff r ≡ ok (some (abandoned, d)) → ⊥
  suggest_vardiff (err e) d h = err≢ok h
  suggest_vardiff (ok none) d h = cc (ok-injective h)
  suggest_vardiff (ok (some x)) d h = unfold given in cc (ap (λ o. (given d o).0) (ok-injective h))

  pace_not_abandoned :
      (b : Bool) (r : Result (Option N)) (d : N)
      → (if b then suggest vardiff r else ok none) ≡ ok (some (abandoned, d))
      → ⊥
  pace_not_abandoned true r d h = suggest_vardiff r d h
  pace_not_abandoned false r d h = cc (ok-injective h)

  -- A session that has been silent for more than three minutes is abandoned, at the difficulty that
  -- it has, if it has fewer than five accepted shares, and never with more, however long the silence.
  pub abandoned_iff :
      (fuel now : ℕ) (difficulty d : N) (s : Statistics N)
      → ltb abandon_after_ms (ms_between s.submission_cache_start s.last_activity_at now) ≡ true
      → (get_suggested_difficulty fuel now difficulty s ≡ ok (some (abandoned, d)))
        ↔ ((length s.submission_cache < 5) × (difficulty ≡ d))
  unfolding get_suggested_difficulty
  abandoned_iff fuel now difficulty d s silent =
      elim (Bool-cases (ltb (length s.submission_cache) 5)) [
        | inl few ↦
            let e : get_suggested_difficulty fuel now difficulty s
                ≡ ok (some (abandoned, difficulty)) =
              unfold get_suggested_difficulty in unfold suggest_quiet in rw (few, silent) in
            (
              λ h. (
                ltb→lt (length s.submission_cache) 5 few,
                unfold given in ap (λ o. (given d o).1) (ok-injective (sym e ∙ h)),
              ),
              λ h. e ∙ ap (λ x. ok (some (abandoned, x))) h.1,
            )
        | inr many ↦
            let e : get_suggested_difficulty fuel now difficulty s
                ≡ suggest_pace fuel difficulty s =
              unfold get_suggested_difficulty in rw many in
            (
              λ h. absurd (unfold suggest_pace in pace_not_abandoned _ _ d (sym e ∙ h)),
              λ h. absurd (cc (lt→ltb (length s.submission_cache) 5 h.0, many)),
            )
      ]
