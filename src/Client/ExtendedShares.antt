-- ===== src/Client/ExtendedShares.antt =====
-- The handler of extended shares in src/models/StratumV2Client.ts.
use lido.Base.{
  ◌==◌, ◌≤◌, ◌≡◌, refl, sym, ap, ◌∙◌, ◌⊎◌, inl, inr, Bool, true, false, Bool-cases, Option, none,
  some, Option-cases, List, arith, length, Bytes, le_value,
}
use lido.Outcome.{Result, ok}
use lido.Messages.Extended.{SubmitSharesExtended}
use lido.Client.{
  Client, Channel, ChannelJob, ShareError, invalid_channel_id, invalid_job_id,
  invalid_extranonce_size, Answer, rejected, accepted, duplicate_share, Hashing, lookup, has_key,
  judge, extended_key, extended_parts, extended_job, extended_channel, submit_shares_extended,
  is_extended,
}
use lido.Client.Judgement.{
  has_key-remember, channels-remember, judge_again, judge_channels, judge_ends, judge_meets,
}

module _ {T D : Type 0} (hashing : Hashing T D) where
  -- The channel, the job and its coinbase of an extended submission that is judged.
  abbrev pub ExtendedRoute :
      SubmitSharesExtended
      → Client T D
      → Channel T D
      → ChannelJob T
      → Bytes
      → Bytes
      → List Bytes
      → Type 0
  ExtendedRoute s c channel job prefix suffix path =
      (lookup c.channels s.channel_id ≡ some channel)
      × (is_extended channel.channel_type ≡ true)
      × (lookup channel.jobs s.job_id ≡ some job)
      × (job.coinbase_prefix ≡ some prefix)
      × (job.coinbase_suffix ≡ some suffix)
      × (job.merkle_path ≡ some path)
      × ((length s.extranonce == channel.extranonce_size) ≡ true)

  abbrev judge_extended :
      SubmitSharesExtended
      → Channel T D
      → ChannelJob T
      → Bytes
      → Bytes
      → List Bytes
      → Client T D
      → Result (Answer × Client T D)
  judge_extended s channel job prefix suffix path c =
      judge hashing (extended_key s) s.version channel job
        (hashing.extended_hash job prefix suffix channel.extranonce_prefix path s) c

  extended_judged :
      (s : SubmitSharesExtended) (c : Client T D) (channel : Channel T D) (job : ChannelJob T)
      (prefix suffix : Bytes) (path : List Bytes)
      → ExtendedRoute s c channel job prefix suffix path
      → submit_shares_extended hashing s c ≡ judge_extended s channel job prefix suffix path c
  unfolding submit_shares_extended extended_channel extended_job extended_parts
  extended_judged s c channel job prefix suffix path (at_channel, kind, at_job, p, q, r, size) =
      rw (at_channel, kind, at_job, p, q, r, size)

  -- An extended submission either has a route, or is rejected and leaves the client as it is.
  extended_ends :
      (s : SubmitSharesExtended) (c c' : Client T D) (a : Answer)
      → submit_shares_extended hashing s c ≡ ok (a, c')
      → ((channel : Channel T D) × (job : ChannelJob T) × (prefix : Bytes) × (suffix : Bytes)
          × (path : List Bytes) × ExtendedRoute s c channel job prefix suffix path)
        ⊎ ((c' ≡ c) × (e : ShareError) × (a ≡ rejected e))
  unfolding submit_shares_extended extended_channel extended_job extended_parts
  extended_ends s c c' a h = elim (Option-cases (lookup c.channels s.channel_id)) [
    | inl none_there ↦ inr (ground arith, invalid_channel_id, ground arith)
    | inr (channel, at) ↦ elim (Bool-cases (is_extended channel.channel_type)) [
      | inr wrong ↦ inr (ground arith, invalid_channel_id, ground arith)
      | inl right ↦ elim (Option-cases (lookup channel.jobs s.job_id)) [
        | inl no_job ↦ inr (ground arith, invalid_job_id, ground arith)
        | inr (job, at_job) ↦
            let here : submit_shares_extended hashing s c
                ≡ extended_parts hashing s c channel job job.coinbase_prefix job.coinbase_suffix
                    job.merkle_path =
              rw (at, right, at_job) in
            elim (parts channel job job.coinbase_prefix job.coinbase_suffix job.merkle_path
              (sym here ∙ h)) [
                | inr rejection ↦ inr rejection
                | inl (prefix, suffix, path, (p, q, r, size)) ↦
                    inl (channel, job, prefix, suffix, path, (at, right, at_job, p, q, r, size))
              ]
      ]
    ]
  ]
    where
      parts :
          (channel : Channel T D) (job : ChannelJob T) (p q : Option Bytes)
          (r : Option (List Bytes))
          → extended_parts hashing s c channel job p q r ≡ ok (a, c')
          → ((prefix : Bytes) × (suffix : Bytes) × (path : List Bytes) × ((p ≡ some prefix)
                × (q ≡ some suffix)
                × (r ≡ some path)
                × ((length s.extranonce == channel.extranonce_size) ≡ true)))
            ⊎ ((c' ≡ c) × (e : ShareError) × (a ≡ rejected e))
      parts channel job none q r h = inr (ground arith, invalid_job_id, ground arith)
      parts channel job (some p) none r h = inr (ground arith, invalid_job_id, ground arith)
      parts channel job (some p) (some q) none h = inr (ground arith, invalid_job_id, ground arith)
      parts channel job (some p) (some q) (some r) h =
          elim (Bool-cases (length s.extranonce == channel.extranonce_size)) [
            | inl fits ↦ inl (p, q, r, (refl, refl, refl, fits))
            | inr other ↦ inr (ground arith, invalid_extranonce_size, ground arith)
          ]

  -- An extended submission that was accepted is rejected as a duplicate when it comes again, and the
  -- client stays as it is.
  pub extended_share_once :
      (s : SubmitSharesExtended) (c c' : Client T D) (b : Bool)
      → submit_shares_extended hashing s c ≡ ok (accepted b, c')
      → submit_shares_extended hashing s c' ≡ ok (rejected duplicate_share, c')
  extended_share_once s c c' b h = elim (extended_ends s c c' (accepted b) h) [
    | inr (_, x, e) ↦ cc
    | inl (channel, job, prefix, suffix, path, (at, kind, at_job, p, q, r, size)) ↦
        let j =
          sym (extended_judged s c channel job prefix suffix path (at, kind, at_job, p, q, r, size))
          ∙ h in
        elim (judge_ends hashing (extended_key s) s.version channel job _ c (accepted b) c' j) [
          | inl (e, _) ↦ cc
          | inr e ↦
              let same : c'.channels ≡ c.channels =
                ap (λ x. x.channels) e ∙ channels-remember (extended_key s) c in
              extended_judged s c' channel job prefix suffix path
                (ap (λ x. lookup x s.channel_id) same ∙ at, kind, at_job, p, q, r, size)
              ∙ judge_again hashing (extended_key s) s.version channel job _ c' (
                  ap (λ x. has_key x.submission_hashes (extended_key s)) e
                  ∙ has_key-remember (extended_key s) c)
        ]
  ]

  -- An extended submission that is accepted without being a block names a channel, a job with its
  -- coinbase parts and merkle path, and an extranonce of the channel's size, whose header hashes to at
  -- most the channel's target.
  pub extended_share_target :
      (s : SubmitSharesExtended) (c c' : Client T D)
      → submit_shares_extended hashing s c ≡ ok (accepted false, c')
      → (channel : Channel T D) × (job : ChannelJob T) × (prefix : Bytes) × (suffix : Bytes)
        × (path : List Bytes) × ExtendedRoute s c channel job prefix suffix path
        × (le_value (hashing.extended_hash job prefix suffix channel.extranonce_prefix path s)
            ≤ le_value (hashing.difficulty_to_target channel.session_difficulty))
  extended_share_target s c c' h = elim (extended_ends s c c' (accepted false) h) [
    | inr (_, x, e) ↦ cc
    | inl (channel, job, prefix, suffix, path, route) ↦ (
      channel,
      job,
      prefix,
      suffix,
      path,
      route,
      judge_meets hashing (extended_key s) s.version channel job _ c c'
          (hashing.extended_hash-Is32Bytes job prefix suffix channel.extranonce_prefix path s)
          (sym (extended_judged s c channel job prefix suffix path route) ∙ h),
    )
  ]

  pub extended_share_channels :
      (s : SubmitSharesExtended) (c c' : Client T D) (a : Answer)
      → submit_shares_extended hashing s c ≡ ok (a, c')
      → c'.channels ≡ c.channels
  extended_share_channels s c c' a h = elim (extended_ends s c c' a h) [
    | inr (e, _, _) ↦ ap (λ x. x.channels) e
    | inl (channel, job, prefix, suffix, path, route) ↦
        judge_channels hashing (extended_key s) s.version channel job _ c a c'
          (sym (extended_judged s c channel job prefix suffix path route) ∙ h)
  ]
