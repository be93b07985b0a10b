-- ===== src/Client/Shares.antt =====
-- The handler of standard shares in src/models/StratumV2Client.ts.
use lido.Base.{
  ◌⊎◌, subst, ◌≤◌, ◌≡◌, sym, ap, ◌∙◌, inl, inr, Bool, false, Bool-cases, some, Option-cases, arith,
  length, le_value,
}
use lido.Outcome.{Result, ok}
use lido.Messages.Work.{SubmitSharesStandard}
use lido.Client.{
  Client, Channel, ChannelJob, Answer, rejected, accepted, duplicate_share, Hashing, lookup,
  has_key, max_submission_hashes, judge, standard_key, standard_job, standard_channel,
  submit_shares_standard, is_extended,
}
use lido.Client.Judgement.{
  has_key-remember, length-remember, channels-remember, judge_again, judge_channels, judge_ends,
  judge_meets,
}

module _ {T D : Type 0} (hashing : Hashing T D) where
  -- The channel and the job of a standard submission that is judged.
  abbrev pub StandardRoute : SubmitSharesStandard → Client T D → Channel T D → ChannelJob T → Type 0
  StandardRoute s c channel job =
      (lookup c.channels s.channel_id ≡ some channel)
      × (is_extended channel.channel_type ≡ false)
      × (lookup channel.jobs s.job_id ≡ some job)

  abbrev pub judge_standard :
      SubmitSharesStandard → Channel T D → ChannelJob T → Client T D → Result (Answer × Client T D)
  judge_standard s channel job c =
      judge hashing (standard_key s) s.version channel job
        (hashing.standard_hash job channel.extranonce_prefix s) c

  pub standard_judged :
      (s : SubmitSharesStandard) (c : Client T D) (channel : Channel T D) (job : ChannelJob T)
      → StandardRoute s c channel job
      → submit_shares_standard hashing s c ≡ judge_standard s channel job c
  unfolding submit_shares_standard standard_channel standard_job
  standard_judged s c channel job (at_channel, kind, at_job) = rw (at_channel, kind, at_job)

  -- An accepted share has gone to judgement.
  pub standard_route :
      (s : SubmitSharesStandard) (c c' : Client T D) (b : Bool)
      → submit_shares_standard hashing s c ≡ ok (accepted b, c')
      → (channel : Channel T D) × (job : ChannelJob T) × StandardRoute s c channel job
  unfolding submit_shares_standard standard_channel standard_job
  standard_route s c c' b h = elim (Option-cases (lookup c.channels s.channel_id)) [
    | inl none_there ↦ ground arith
    | inr (channel, at) ↦ elim (Bool-cases (is_extended channel.channel_type)) [
      | inl wrong ↦ ground arith
      | inr right ↦ elim (Option-cases (lookup channel.jobs s.job_id)) [
        | inl no_job ↦ ground arith
        | inr (job, at_job) ↦ (channel, job, (at, right, at_job))
      ]
    ]
  ]

  -- A standard submission that was accepted is rejected as a duplicate when it comes again, and the
  -- client stays as it is.
  pub standard_share_once :
      (s : SubmitSharesStandard) (c c' : Client T D) (b : Bool)
      → submit_shares_standard hashing s c ≡ ok (accepted b, c')
      → submit_shares_standard hashing s c' ≡ ok (rejected duplicate_share, c')
  standard_share_once s c c' b h =
      let (channel, job, (at, kind, at_job)) = standard_route s c c' b h in
      let j : judge_standard s channel job c ≡ ok (accepted b, c') =
        sym (standard_judged s c channel job (at, kind, at_job)) ∙ h in
      elim (judge_ends hashing (standard_key s) s.version channel job _ c (accepted b) c' j) [
        | inl (e, _) ↦ cc
        | inr e ↦
            let same : c'.channels ≡ c.channels =
              ap (λ x. x.channels) e ∙ channels-remember (standard_key s) c in
            standard_judged s c' channel job
              (ap (λ x. lookup x s.channel_id) same ∙ at, kind, at_job)
            ∙ judge_again hashing (standard_key s) s.version channel job _ c' (
                ap (λ x. has_key x.submission_hashes (standard_key s)) e
                ∙ has_key-remember (standard_key s) c)
      ]

  -- A standard submission leaves the client as it is, or goes to judgement.
  standard_ends :
      (s : SubmitSharesStandard) (c c' : Client T D) (a : Answer)
      → submit_shares_standard hashing s c ≡ ok (a, c')
      → (c' ≡ c)
        ⊎ ((channel : Channel T D) × (job : ChannelJob T) × (judge_standard s channel job c
              ≡ ok (a, c')))
  unfolding submit_shares_standard standard_channel standard_job
  standard_ends s c c' a h = elim (Option-cases (lookup c.channels s.channel_id)) [
    | inl none_there ↦ inl (ground arith)
    | inr (channel, at) ↦ elim (Bool-cases (is_extended channel.channel_type)) [
      | inl wrong ↦ inl (ground arith)
      | inr right ↦ elim (Option-cases (lookup channel.jobs s.job_id)) [
        | inl no_job ↦ inl (ground arith)
        | inr (job, at_job) ↦
            inr (channel, job, sym (standard_judged s c channel job (at, right, at_job)) ∙ h)
      ]
    ]
  ]

  pub standard_share_channels :
      (s : SubmitSharesStandard) (c c' : Client T D) (a : Answer)
      → submit_shares_standard hashing s c ≡ ok (a, c')
      → c'.channels ≡ c.channels
  standard_share_channels s c c' a h = elim (standard_ends s c c' a h) [
    | inl e ↦ ap (λ x. x.channels) e
    | inr (channel, job, j) ↦
        judge_channels hashing (standard_key s) s.version channel job _ c a c' j
  ]

  -- Whatever a standard submission is answered, the set of remembered submissions holds at most
  -- 10000 keys afterwards if it did before.
  pub standard_share_bounded :
      (s : SubmitSharesStandard) (c c' : Client T D) (a : Answer)
      → length c.submission_hashes ≤ max_submission_hashes
      → submit_shares_standard hashing s c ≡ ok (a, c')
      → length c'.submission_hashes ≤ max_submission_hashes
  standard_share_bounded s c c' a small h = elim (standard_ends s c c' a h) [
    | inl e ↦ unchanged e
    | inr (channel, job, j) ↦
        elim (judge_ends hashing (standard_key s) s.version channel job _ c a c' j) [
          | inl (_, e) ↦ unchanged e
          | inr e ↦
              subst (λ x. length x.submission_hashes ≤ max_submission_hashes) (sym e)
                (length-remember (standard_key s) c)
        ]
  ]
    where
      unchanged : c' ≡ c → length c'.submission_hashes ≤ max_submission_hashes
      unchanged e = subst (λ x. length x.submission_hashes ≤ max_submission_hashes) (sym e) small

  -- A standard submission that is accepted without being a block names a channel and a job whose
  -- header hashes to at most the channel's target.
  pub standard_share_target :
      (s : SubmitSharesStandard) (c c' : Client T D)
      → submit_shares_standard hashing s c ≡ ok (accepted false, c')
      → (channel : Channel T D) × (job : ChannelJob T) × StandardRoute s c channel job
        × (le_value (hashing.standard_hash job channel.extranonce_prefix s)
            ≤ le_value (hashing.difficulty_to_target channel.session_difficulty))
  standard_share_target s c c' h =
      let (channel, job, route) = standard_route s c c' false h in
      (
        channel,
        job,
        route,
        judge_meets hashing (standard_key s) s.version channel job _ c c'
            (hashing.standard_hash-Is32Bytes job channel.extranonce_prefix s)
            (sym (standard_judged s c channel job route) ∙ h),
      )
