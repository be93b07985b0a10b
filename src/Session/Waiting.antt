-- ===== src/Session/Waiting.antt =====
-- What each request of a miner does to the start of a session of src/models/StratumV1Client.ts.
use lido.Base.{
  ℕ, ◌≡◌, refl, sym, ap, ◌∙◌, ◌⊎◌, inl, inr, Bool, true, false, ◌&&◌, Option, none, some,
  if◌then◌else◌,
}
use lido.Client.{Units}
use lido.Numbers.{Numbers}
use lido.Mining.{Bitcoin}
use lido.Jobs.{JobsService}
use lido.Session.{Session, Socket, write, written, is_closed, remember_submission}
use lido.Session.Credit.{Turn, reject}
use lido.Mining.Submission.{build_header_buffer}
use lido.Session.Submission.{
  handle_mining_submission, follow_screening, screen, Screening, no_job, no_template, known_share,
  new_share, submission_hash, judge, text_of, solution_of,
}
use lido.Session.Messages.{
  SubscriptionMessage, AuthorizationMessage, SuggestDifficulty, Reply, StratumErrorCode, subscribed,
  refused, other_unknown, Checked, valid, invalid, Request, malformed, other, subscribe, configure,
  authorize, suggest_difficulty, submit, MiningSubmitMessage,
}
use lido.Session.Work.{is_some}
use lido.Session.Handlers.{
  Surroundings, begin_session, subscribe_unless, suggest_unless, close_after, submit_if,
  handle_request,
}
use lido.Session.Kept.{Kept, kept, Keeps, reject-Keeps, close_destroyed, destroy_destroyed}
use lido.Session.Duplicates.{judge-Keeps}

second : (b c : Bool) → b && c ≡ true → c ≡ true
second true c e = e
second false c e = absurd (cc e)

first : (b c : Bool) → b && c ≡ true → b ≡ true
first true c e = refl
first false c e = e

module _ {N T : Type 0} where
  abbrev pub has_both : Session N T → Bool
  has_both s = is_some s.subscription && is_some s.authorization

  -- A session is initialised exactly if it has a subscription and an authorization, or it is over.
  abbrev pub IsReady : Session N T → Type 0
  IsReady s = (s.stratum_initialized ≡ has_both s) ⊎ (s.destroyed ≡ true)

  -- In the middle of a message: no earlier than that.
  abbrev pub IsWaiting : Session N T → Type 0
  IsWaiting s = ((s.stratum_initialized ≡ true) → (has_both s ≡ true)) ⊎ (s.destroyed ≡ true)

  -- The end of a handler, by whether the rest of handleMessage runs.
  abbrev pub Halfway : Bool × Session N T → Type 0
  Halfway (true, s) = IsWaiting s
  Halfway (false, s) = IsReady s

  abbrev facts : Session N T → Option SubscriptionMessage × Option (AuthorizationMessage N) × Bool
  facts s = (s.subscription, s.authorization, s.stratum_initialized)

  -- A waiting session stays one through what leaves its messages and its flag as they are.
  same_waits :
      (s s' : Session N T)
      → (facts s' ≡ facts s) ⊎ (s'.destroyed ≡ true)
      → s.stratum_initialized ≡ has_both s
      → IsWaiting s'
  same_waits s s' (inl e) w =
      inl (λ h. ap (λ k. is_some k.0 && is_some k.1) e ∙ sym w ∙ sym (ap (λ k. k.2) e) ∙ h)
  same_waits s s' (inr over) w = inr over

  written-Halfway :
      (closed full delivered : Bool) (r : Reply N) (s : Session N T)
      → ((s.stratum_initialized ≡ true) → (has_both s ≡ true))
      → Halfway (written closed full delivered r s)
  unfolding written
  written-Halfway true full delivered r s w = inr (destroy_destroyed s)
  written-Halfway false true delivered r s w = inr (close_destroyed s)
  written-Halfway false false true r s w = inl w
  written-Halfway false false false r s w = inr (close_destroyed _)

  write-Halfway :
      (socket : Socket N) (r : Reply N) (s : Session N T)
      → ((s.stratum_initialized ≡ true) → (has_both s ≡ true))
      → Halfway (write socket r s)
  unfolding write
  write-Halfway socket r s w = written-Halfway (is_closed s) _ _ r s w

  Keeps-rest :
      (keys : Kept N) (s : Session N T)
      → Keeps keys s
      → (facts s ≡ (keys.1, keys.2, keys.3)) ⊎ (s.destroyed ≡ true)
  Keeps-rest keys s (inl e) = inl (ap (λ k. (k.1, k.2, k.3)) e)
  Keeps-rest keys s (inr over) = inr over

module _ ⦃numbers : Numbers⦄ {T : Type 0} (around : Surroundings numbers.Number)
    (bitcoin : Bitcoin T) where
  rejected_rest :
      (turn : Turn numbers.Number) (m : MiningSubmitMessage) (code : StratumErrorCode)
      (s : Session numbers.Number T)
      → (facts (reject around.socket turn m.id code s) ≡ facts s)
        ⊎ ((reject around.socket turn m.id code s).destroyed ≡ true)
  rejected_rest turn m code s =
      Keeps-rest (kept s) (reject around.socket turn m.id code s)
        (reject-Keeps (kept s) around.socket turn m.id code s (inl refl))

  follow_rest :
      (turn : Turn numbers.Number) (m : MiningSubmitMessage) (x : Screening numbers.Number T)
      (s : Session numbers.Number T)
      → let s' = follow_screening bitcoin around.socket turn m x s in
        (facts s' ≡ facts s) ⊎ (s'.destroyed ≡ true)
  unfolding follow_screening remember_submission
  follow_rest turn m no_job s = rejected_rest turn m _ s
  follow_rest turn m no_template s = rejected_rest turn m _ s
  follow_rest turn m known_share s = rejected_rest turn m _ s
  follow_rest turn m (new_share job t) s =
      let s1 = remember_submission (submission_hash m) s in
      let solution = solution_of (text_of s.extra_nonce) m in
      let r = build_header_buffer bitcoin job t solution in
      Keeps-rest (kept s1) (judge bitcoin around.socket turn m job t solution r s1)
        (judge-Keeps bitcoin around.socket (kept s1) turn m job t solution r s1 (inl refl))

  submit-Halfway :
      (b : Bool) (turn : Turn numbers.Number) (service : JobsService numbers.Number T)
      (m : Checked MiningSubmitMessage) (s : Session numbers.Number T)
      → s.stratum_initialized ≡ has_both s
      → Halfway (submit_if around bitcoin b turn service m s)
  unfolding submit_if handle_mining_submission
  submit-Halfway false turn service m s e = inl e
  submit-Halfway true turn service (invalid id) s e =
      closed_halfway (write around.socket (refused id other_unknown) s)
        (write-Halfway around.socket _ s (λ h. sym e ∙ h))
    where
      closed_halfway :
          (p : Bool × Session numbers.Number T) → Halfway p → Halfway (close_after around p)
      closed_halfway (true, s') h = unfold close_after in inr (close_destroyed s')
      closed_halfway (false, s') h = unfold close_after in h
  submit-Halfway true turn service (valid m) s e =
      let x = screen m service s.submission_hashes in
      same_waits s (follow_screening bitcoin around.socket turn m x s) (follow_rest turn m x s) e

  subscribe-Halfway :
      (b : Bool) (now : ℕ) (m : SubscriptionMessage) (s : Session numbers.Number T)
      → s.stratum_initialized ≡ has_both s
      → Halfway (subscribe_unless around b now m s)
  unfolding subscribe_unless
  subscribe-Halfway true now m s e = inr (close_destroyed s)
  subscribe-Halfway false now m s e = begun s.extra_nonce
    where
      begun :
          (x : Option Units)
          → Halfway (
              let s1 = record (begin_session around now x s) { subscription = some m } in
              write around.socket (subscribed m.id (text_of s1.extra_nonce)) s1)
      begun none =
          unfold begin_session in
          write-Halfway around.socket _ _
            (λ h. second (is_some s.subscription) (is_some s.authorization) (sym e ∙ h))
      begun (some n) =
          unfold begin_session in
          write-Halfway around.socket _ _
            (λ h. second (is_some s.subscription) (is_some s.authorization) (sym e ∙ h))

  suggest-Halfway :
      (b : Bool) (m : Checked (SuggestDifficulty numbers.Number)) (s : Session numbers.Number T)
      → s.stratum_initialized ≡ has_both s
      → Halfway (suggest_unless around b m s)
  unfolding suggest_unless
  suggest-Halfway true m s e = inl e
  suggest-Halfway false (invalid id) s e = write-Halfway around.socket _ s (λ h. sym e ∙ h)
  suggest-Halfway false (valid m) s e = marked _ (write-Halfway around.socket _ _ (λ h. sym e ∙ h))
    where
      marked :
          (p : Bool × Session numbers.Number T)
          → Halfway p
          → Halfway (p.0, if p.0 then record p.1 { used_suggested_difficulty = true } else p.1)
      marked (true, s') h = h
      marked (false, s') h = h

  pub request-Halfway :
      (turn : Turn numbers.Number) (service : JobsService numbers.Number T)
      (r : Request numbers.Number) (s : Session numbers.Number T)
      → s.stratum_initialized ≡ has_both s
      → Halfway (handle_request around bitcoin turn service r s)
  unfolding handle_request
  request-Halfway turn service malformed s e = inr (close_destroyed s)
  request-Halfway turn service other s e = inl (λ h. sym e ∙ h)
  request-Halfway turn service (subscribe (invalid id)) s e =
      write-Halfway around.socket _ s (λ h. sym e ∙ h)
  request-Halfway turn service (subscribe (valid m)) s e = subscribe-Halfway _ turn.now m s e
  request-Halfway turn service (configure (invalid id)) s e =
      write-Halfway around.socket _ s (λ h. sym e ∙ h)
  request-Halfway turn service (configure (valid id)) s e =
      write-Halfway around.socket _ _ (λ h. sym e ∙ h)
  request-Halfway turn service (authorize (invalid id)) s e =
      write-Halfway around.socket _ s (λ h. sym e ∙ h)
  request-Halfway turn service (authorize (valid m)) s e =
      write-Halfway around.socket _ _
        (λ h. rw (first (is_some s.subscription) (is_some s.authorization) (sym e ∙ h)) refl)
  request-Halfway turn service (suggest_difficulty m) s e = suggest-Halfway _ m s e
  request-Halfway turn service (submit m) s e = submit-Halfway _ turn service m s e
