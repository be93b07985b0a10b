-- ===== src/Client/Replay.antt =====
-- The submissions that src/models/StratumV2Client.ts forgets when it sends a job. The set of
-- submissions belongs to the session, the jobs to the channels.
use lido.Base.{◌≡◌, ◌≢◌, sym, ap, ◌∙◌, Bool, true, some, [], ℕ}
use lido.Outcome.{ok}
use lido.Messages.Work.{SubmitSharesStandard}
use lido.Client.{
  Client, Channel, Hashing, accepted, lookup, has_key, standard_key, remember_submission,
  allocate_job_id, submit_shares_standard,
}
use lido.Client.Judgement.{judge_elsewhere}
use lido.Client.Shares.{standard_route, standard_judged, standard_share_channels}
use lido.Client.Orders.{
  JobTemplate, Mining, lookup-set_key_other, sends_prev_hash, send_jobs_for_channel,
}

module _ {R T D : Type 0} (mining : Mining R T D) (hashing : Hashing T D) where
  forgotten :
      (k : ℕ) (channel : Channel T D) (t : JobTemplate R) (c : Client T D)
      → sends_prev_hash mining channel t ≡ true
      → (send_jobs_for_channel mining k channel t c).1.submission_hashes ≡ []
  unfolding send_jobs_for_channel
  forgotten k channel t c new = rw new

  other_channels :
      (k l : ℕ) (channel : Channel T D) (t : JobTemplate R) (c : Client T D)
      → l ≢ k
      → lookup (send_jobs_for_channel mining k channel t c).1.channels l ≡ lookup c.channels l
  unfolding send_jobs_for_channel allocate_job_id
  other_channels k l channel t c h = lookup-set_key_other c.channels k l _ h

  -- A standard submission that was accepted is accepted a second time after the client sends the
  -- previous hash to another channel.
  pub share_again_after_job :
      (s : SubmitSharesStandard) (c c' : Client T D) (b : Bool) (k : ℕ) (channel : Channel T D)
      (t : JobTemplate R)
      → submit_shares_standard hashing s c ≡ ok (accepted b, c')
      → s.channel_id ≢ k
      → sends_prev_hash mining channel t ≡ true
      → let d = (send_jobs_for_channel mining k channel t c').1 in
        submit_shares_standard hashing s d ≡ ok (accepted b, remember_submission (standard_key s) d)
  unfolding has_key
  share_again_after_job s c c' b k channel t h other new =
      let (own, job, (at, kind, at_job)) = standard_route hashing s c c' b h in
      let d = (send_jobs_for_channel mining k channel t c').1 in
      let there : lookup d.channels s.channel_id ≡ some own =
        other_channels k s.channel_id channel t c' other
        ∙ ap (λ x. lookup x s.channel_id) (standard_share_channels hashing s c c' (accepted b) h)
        ∙ at in
      standard_judged hashing s d own job (there, kind, at_job)
      ∙ judge_elsewhere hashing (standard_key s) s.version own job _ c d b c'
          (sym (standard_judged hashing s c own job (at, kind, at_job)) ∙ h)
          (ap (λ x. has_key x (standard_key s)) (forgotten k channel t c' new))
