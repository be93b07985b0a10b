-- ===== src/Session/Duplicates.antt =====
-- Submissions that come again to a session of src/models/StratumV1Client.ts.
use lido.Base.{
  ℕ, ◌≤◌, ◌≡◌, refl, ap, ◌∙◌, ◌⊎◌, inl, inr, Bool, true, false, Bool-cases, some, List, length, leb,
  if◌then◌else◌, arith, Bytes,
}
use lido.Outcome.{Result, ok, err}
use lido.Client.{Units, has_key}
use lido.Client.Judgement.{same_key_refl}
use lido.Numbers.{Numbers}
use lido.Mining.{Bitcoin, Template, MiningJob}
use lido.Mining.Submission.{Solution, copy_and_update_block}
use lido.Jobs.{JobsService, get_job_by_id, get_job_template_by_id}
use lido.Session.{
  Session, Socket, remember_submission, max_submission_hashes, reset_submission_hashes_if_new_block,
  reset_at, same_height,
}
use lido.Session.Credit.{Turn, reject, credit, credit_block}
use lido.Session.Submission.{
  submission_hash, screen, screen_job, screen_template, weigh, judge, follow_screening,
  handle_mining_submission,
}
use lido.Session.Messages.{MiningSubmitMessage, duplicate_share}
use lido.Session.Kept.{
  Kept, Keeps, kept, write-Keeps, if_written-Keeps, reject-Keeps, credit-Keeps, credit_block-Keeps,
  close_destroyed,
}

module _ {N T : Type 0} where
  has_key-remember :
      (k : Units) (s : Session N T) → has_key (remember_submission k s).submission_hashes k ≡ true
  unfolding has_key remember_submission
  has_key-remember k s =
      elim (Bool-cases (leb max_submission_hashes (length s.submission_hashes))) [
        | inl full ↦ rw (full, same_key_refl k)
        | inr room ↦ rw (room, same_key_refl k)
      ]

  length-remember :
      (k : Units) (s : Session N T)
      → length (remember_submission k s).submission_hashes ≤ max_submission_hashes
  unfolding remember_submission
  length-remember k s = ground arith

  -- The job and the template of a submission.
  abbrev pub Route : MiningSubmitMessage → JobsService N T → MiningJob → Template N T → Type 0
  Route m service job t =
      (get_job_by_id service m.job_id ≡ some job)
      × (get_job_template_by_id service job.job_template_id ≡ some t)

  screen-Route :
      (m : MiningSubmitMessage) (service : JobsService N T) (job : MiningJob) (t : Template N T)
      (hashes : List Units) (b : Bool)
      → Route m service job t
      → has_key hashes (submission_hash m) ≡ b
      → screen m service hashes ≡ screen_template b job (some t)
  unfolding screen screen_job
  screen-Route m service job t hashes b (at_job, at_template) e = rw (at_job, at_template, e)

  reset_height :
      (same : Bool) (height : ℕ) (s : Session N T)
      → same_height s.submission_hash_reset_height height ≡ same
      → same_height (reset_at true same height s).submission_hash_reset_height height ≡ true
  unfolding reset_at
  reset_height true height s e = e
  reset_height false height s e = ground arith

  reset_same : (clear : Bool) (height : ℕ) (s : Session N T) → reset_at clear true height s ≡ s
  unfolding reset_at
  reset_same true height s = refl
  reset_same false height s = refl

  remember_height :
      (k : Units) (s : Session N T)
      → (remember_submission k s).submission_hash_reset_height ≡ s.submission_hash_reset_height
  unfolding remember_submission
  remember_height k s = refl

  -- A submission that is remembered behind a template that clears the jobs is still known after any
  -- other template of the same height, one that clears the jobs again included.
  pub replay_keeps :
      (t t' : Template N T) (k : Units) (s : Session N T)
      → t.clear_jobs ≡ true
      → t'.height ≡ t.height
      → has_key
          (reset_submission_hashes_if_new_block t'
            (remember_submission k (reset_submission_hashes_if_new_block t s))).submission_hashes
          k
        ≡ true
  replay_keeps t t' k s clear height =
      let s1 = remember_submission k (reset_submission_hashes_if_new_block t s) in
      let at : same_height s1.submission_hash_reset_height t'.height ≡ true =
        ap (λ h. same_height h t'.height)
          (remember_height k (reset_submission_hashes_if_new_block t s))
        ∙ ap (same_height (reset_submission_hashes_if_new_block t s).submission_hash_reset_height)
            height
        ∙ (unfold reset_submission_hashes_if_new_block in
            ap
              (λ b.
                same_height
                  (reset_at b (same_height s.submission_hash_reset_height t.height) t.height
                    s).submission_hash_reset_height
                  t.height)
              clear
            ∙ reset_height _ t.height s refl) in
      let same : reset_submission_hashes_if_new_block t' s1 ≡ s1 =
        unfold reset_submission_hashes_if_new_block in
        ap (λ b. reset_at t'.clear_jobs b t'.height s1) at
        ∙ reset_same t'.clear_jobs t'.height s1 in
      ap (λ x. has_key x.submission_hashes k) same
      ∙ has_key-remember k (reset_submission_hashes_if_new_block t s)

module _ ⦃numbers : Numbers⦄ {T : Type 0} (bitcoin : Bitcoin T)
    (socket : Socket numbers.Number) where
  weigh-Keeps :
      (keys : Kept numbers.Number) (turn : Turn numbers.Number) (m : MiningSubmitMessage)
      (job : MiningJob) (t : Template numbers.Number T) (solution : Solution) (header : Bytes)
      (d : numbers.Number) (b : Bool) (s : Session numbers.Number T)
      → Keeps keys s
      → Keeps keys (weigh bitcoin socket turn m job t solution header d b s)
  unfolding weigh
  weigh-Keeps keys turn m job t solution header d false s h =
      reject-Keeps keys socket turn m.id _ s h
  weigh-Keeps keys turn m job t solution header d true s h =
      if_written-Keeps keys _ _ (write-Keeps socket keys _ s h)
        (next_keeps (numbers.at_least d t.network_difficulty))
    where
      next_keeps :
          (b : Bool) (s' : Session numbers.Number T)
          → Keeps keys s'
          → Keeps keys (
              (if b
                  then credit_block turn d header t.height
                      (copy_and_update_block bitcoin job t solution)
                  else credit turn d header)
                s')
      next_keeps true s' h' = credit_block-Keeps keys turn d header t.height _ s' h'
      next_keeps false s' h' = credit-Keeps keys turn d header s' h'

  pub judge-Keeps :
      (keys : Kept numbers.Number) (turn : Turn numbers.Number) (m : MiningSubmitMessage)
      (job : MiningJob) (t : Template numbers.Number T) (solution : Solution) (r : Result Bytes)
      (s : Session numbers.Number T)
      → Keeps keys s
      → Keeps keys (judge bitcoin socket turn m job t solution r s)
  unfolding judge
  judge-Keeps keys turn m job t solution (err e) s h = inr (close_destroyed s)
  judge-Keeps keys turn m job t solution (ok header) s h =
      weigh-Keeps keys turn m job t solution header _ _ s h

  pub handled-Route :
      (turn : Turn numbers.Number) (service : JobsService numbers.Number T)
      (m : MiningSubmitMessage) (job : MiningJob) (t : Template numbers.Number T)
      (s : Session numbers.Number T) (b : Bool)
      → Route m service job t
      → has_key s.submission_hashes (submission_hash m) ≡ b
      → handle_mining_submission bitcoin socket turn service m s
        ≡ follow_screening bitcoin socket turn m (screen_template b job (some t)) s
  unfolding handle_mining_submission
  handled-Route turn service m job t s b route e =
      ap (λ x. follow_screening bitcoin socket turn m x s)
        (screen-Route m service job t s.submission_hashes b route e)

  followed_known :
      (turn : Turn numbers.Number) (m : MiningSubmitMessage) (job : MiningJob)
      (t : Template numbers.Number T) (s : Session numbers.Number T) (b : Bool)
      → has_key s.submission_hashes (submission_hash m) ≡ b
      → let s' = follow_screening bitcoin socket turn m (screen_template b job (some t)) s in
        (has_key s'.submission_hashes (submission_hash m) ≡ true) ⊎ (s'.destroyed ≡ true)
  unfolding follow_screening screen_template
  followed_known turn m job t s true e =
      elim (reject-Keeps (kept s) socket turn m.id duplicate_share s (inl refl)) [
        | inl same ↦ inl (ap (λ k. has_key k.0 (submission_hash m)) same ∙ e)
        | inr over ↦ inr over
      ]
  followed_known turn m job t s false e =
      let s1 = remember_submission (submission_hash m) s in
      elim (judge-Keeps (kept s1) turn m job t _ _ s1 (inl refl)) [
        | inl same ↦ inl (
            ap (λ k. has_key k.0 (submission_hash m)) same ∙ has_key-remember (submission_hash m) s)
        | inr over ↦ inr over
      ]

  -- A submission whose job and template are found is known afterwards, or the session is over: when it
  -- comes again it is refused as a duplicate, whatever its first answer was.
  pub submission_once :
      (turn turn' : Turn numbers.Number) (service : JobsService numbers.Number T)
      (m : MiningSubmitMessage) (job : MiningJob) (t : Template numbers.Number T)
      (s : Session numbers.Number T)
      → Route m service job t
      → let s' = handle_mining_submission bitcoin socket turn service m s in
        (handle_mining_submission bitcoin socket turn' service m s'
          ≡ reject socket turn' m.id duplicate_share s')
        ⊎ (s'.destroyed ≡ true)
  submission_once turn turn' service m job t s route =
      let b = has_key s.submission_hashes (submission_hash m) in
      let first = handled-Route turn service m job t s b route refl in
      let s' = handle_mining_submission bitcoin socket turn service m s in
      elim (followed_known turn m job t s b refl) [
        | inl known ↦ inl (
            handled-Route turn' service m job t s' true route
              (ap (λ x. has_key x.submission_hashes (submission_hash m)) first ∙ known)
            ∙ (unfold follow_screening in unfold screen_template in refl))
        | inr over ↦ inr (ap (λ x. x.destroyed) first ∙ over)
      ]
