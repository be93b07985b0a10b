-- ===== src/Client/Delivery.antt =====
-- What src/models/StratumV2Client.ts keeps of a job that it sends to a channel.
use lido.Base.{
  ℕ, ◌-◌, ◌≤◌, ◌≡◌, refl, ap, ◌∙◌, inl, inr, Bool, true, false, ◌||◌, not, Bool-cases, none, some,
  Option-cases, List, [], ◌∷◌, ◌++◌, ◌==◌, ==_iff, ltb, if◌then◌else◌, arith, length, length-append,
  length-drop, drop,
}
use lido.Client.{
  Client, Channel, ChannelJob, Tip, lookup, same_key, Key, allocate_job_id, trim_jobs,
  trim_channel_jobs, max_channel_jobs,
}
use lido.Client.Jobs.{trim_jobs_lem}
use lido.Client.Orders.{
  JobTemplate, Mining, set_key, lookup-set_key, same_tip, tip_key, sends_prev_hash, channel_job,
  with_job, send_jobs_for_channel,
}

set_key-new {ℓ} :
    {A : Type ℓ} (m : List (ℕ × A)) (k : ℕ) (a : A)
    → lookup m k ≡ none
    → set_key m k a ≡ m ++ ((k, a) ∷ [])
unfolding lookup set_key
set_key-new [] k a h = refl
set_key-new ((j, b) ∷ m) k a h = ground (arith, set_key-new m k a)

length-set_key_old {ℓ} :
    {A : Type ℓ} (m : List (ℕ × A)) (k : ℕ) (a b : A)
    → lookup m k ≡ some b
    → length (set_key m k a) ≡ length m
unfolding lookup set_key
length-set_key_old [] k a b h = cc
length-set_key_old ((j, c) ∷ m) k a b h = ground (arith, length-set_key_old m k a b)

lookup-append_new {ℓ} :
    {A : Type ℓ} (m : List (ℕ × A)) (k : ℕ) (a : A)
    → lookup m k ≡ none
    → lookup (m ++ ((k, a) ∷ [])) k ≡ some a
unfolding lookup
lookup-append_new [] k a h = ground arith
lookup-append_new ((j, b) ∷ m) k a h = ground (arith, lookup-append_new m k a)

lookup-tail {ℓ} :
    {A : Type ℓ} (j : ℕ) (b : A) (m : List (ℕ × A)) (k : ℕ)
    → lookup ((j, b) ∷ m) k ≡ none
    → lookup m k ≡ none
unfolding lookup
lookup-tail j b m k h = ground arith

trim_jobs-few {ℓ} : {A : Type ℓ} (m : List A) → length m ≤ 32 → trim_jobs m ≡ m
trim_jobs-few m h =
    let n : length m - 32 ≡ 0 = omega (arith, h) in trim_jobs_lem m ∙ ap (λ x. drop x m) n

-- A job that is added to at most 32 jobs is not trimmed.
lookup-trim_jobs {ℓ} :
    {A : Type ℓ} (m : List (ℕ × A)) (k : ℕ) (a : A)
    → length m ≤ 32
    → lookup (trim_jobs (set_key m k a)) k ≡ some a
lookup-trim_jobs {A = A} m k a h = elim (Option-cases (lookup m k)) [
  | inr (b, old) ↦
      let l = length-set_key_old m k a b old in
      ap (λ x. lookup x k) (trim_jobs-few (set_key m k a) (omega (arith, l, h)))
      ∙ lookup-set_key m k a
  | inl new ↦ ap (λ x. lookup (trim_jobs x) k) (set_key-new m k a new) ∙ added m new h
]
  where
    added :
        (m : List (ℕ × A))
        → lookup m k ≡ none
        → length m ≤ 32
        → lookup (trim_jobs (m ++ ((k, a) ∷ []))) k ≡ some a
    added [] new h =
        ap (λ x. lookup x k) (trim_jobs-few ((k, a) ∷ []) (omega arith))
        ∙ lookup-append_new [] k a new
    added ((j, b) ∷ m) new h =
        let whole = (j, b) ∷ (m ++ ((k, a) ∷ [])) in
        let l = length-append m ((k, a) ∷ []) in
        elim (Bool-cases (ltb (length m) 31)) [
          | inl few ↦
              ap (λ x. lookup x k) (trim_jobs-few whole (ground (arith, l)))
              ∙ lookup-append_new ((j, b) ∷ m) k a new
          | inr full ↦
              let n : length whole - 32 ≡ 1 = ground (arith, l) in
              ap (λ x. lookup x k) (trim_jobs_lem whole ∙ ap (λ x. drop x whole) n)
              ∙ lookup-append_new m k a (lookup-tail j b m k new)
        ]

length-trim_jobs {ℓ} : {A : Type ℓ} (m : List A) → length (trim_jobs m) ≤ 32
length-trim_jobs m =
    let l : length (trim_jobs m) ≡ length m - (length m - 32) =
      ap length (trim_jobs_lem m) ∙ length-drop (length m - 32) m in
    omega (arith, l)

same_key_refl : (k : Key) → same_key k k ≡ true
unfolding same_key
same_key_refl [] = refl
same_key_refl (x ∷ xs) =
    let head : (x == x) ≡ true = (==_iff x x).1 refl in rw (head, same_key_refl xs)

same_tip_refl : (t : Tip) → same_tip (some t) t ≡ true
unfolding same_tip
same_tip_refl (height, hash) =
    let head : (height == height) ≡ true = (==_iff height height).1 refl in
    rw (head, same_key_refl hash)

module _ {R T D : Type 0} (mining : Mining R T D) where
  tip_afterwards :
      (channel : Channel T D) (t : JobTemplate R)
      → same_tip
          (if sends_prev_hash mining channel t then some (tip_key t) else channel.active_tip_key)
          (tip_key t)
        ≡ true
  unfolding sends_prev_hash
  tip_afterwards channel t = elim (Bool-cases (same_tip channel.active_tip_key (tip_key t))) [
    | inl same ↦ go t.clear_jobs same
    | inr other ↦ rw other (same_tip_refl (tip_key t))
  ]
    where
      go :
          (b : Bool)
          → same_tip channel.active_tip_key (tip_key t) ≡ true
          → same_tip
              (if not (same_tip channel.active_tip_key (tip_key t)) || b
                then some (tip_key t)
                else channel.active_tip_key)
              (tip_key t)
            ≡ true
      go true same = rw same (same_tip_refl (tip_key t))
      go false same =
          ap
            (λ b.
              same_tip (if not b || false then some (tip_key t) else channel.active_tip_key)
                (tip_key t))
            same
          ∙ same

  -- A channel of at most 32 jobs that is sent a job: it has the job under the number that was due, still
  -- at most 32 jobs, and the tip of the job's template.
  pub job_delivered :
      (k : ℕ) (channel : Channel T D) (t : JobTemplate R) (c : Client T D)
      → length channel.jobs ≤ max_channel_jobs
      → let c' = (send_jobs_for_channel mining k channel t c).1 in
        (channel' : Channel T D) × (lookup c'.channels k ≡ some channel')
        × (lookup channel'.jobs c.next_job_id
            ≡ some (channel_job mining channel t (mining.new_mining_job c.address t)))
        × (length channel'.jobs ≤ max_channel_jobs)
        × (same_tip channel'.active_tip_key (tip_key t) ≡ true)
  unfolding send_jobs_for_channel allocate_job_id with_job trim_channel_jobs
  job_delivered k channel t c h =
      let job = channel_job mining channel t (mining.new_mining_job c.address t) in
      let fresh = sends_prev_hash mining channel t || t.clear_jobs in
      let kept : List (ℕ × ChannelJob T) = if fresh then [] else channel.jobs in
      (
        with_job mining channel t c.next_job_id job,
        lookup-set_key c.channels k _,
        lookup-trim_jobs kept c.next_job_id job (few fresh),
        length-trim_jobs (set_key kept c.next_job_id job),
        tip_afterwards channel t,
      )
    where
      few : (b : Bool) → length (if b then [] else channel.jobs) ≤ 32
      few true = omega arith
      few false = h
