-- ===== src/Session/Ready.antt =====
-- When a session of src/models/StratumV1Client.ts is initialised.
use lido.Base.{
  ◌≡◌, refl, sym, ap, ◌∙◌, subst, inl, inr, Bool, true, false, ◌&&◌, ◌||◌, Bool-cases, Option, none,
  some, List, [], ◌∷◌, if◌then◌else◌,
}
use lido.Client.{Units, same_key}
use lido.Numbers.{Numbers}
use lido.Mining.{Bitcoin}
use lido.Jobs.{JobsService}
use lido.Session.{Session, write, written, if_written, is_closed}
use lido.Session.Credit.{Turn}
use lido.Session.Messages.{
  SubscriptionMessage, AuthorizationMessage, SuggestDifficulty, Reply, set_difficulty,
}
use lido.Session.Work.{is_some}
use lido.Session.Handlers.{
  Surroundings, cpuminer, handle_request, join_stream, start_jobs, init_unless, init_stratum,
  init_if_ready, finish_message, handle_message, handle_lines,
}
use lido.Session.Kept.{
  Kept, kept, Keeps, write-Keeps, if_written-Keeps, close_destroyed, destroy_destroyed,
}
use lido.Session.Waiting.{has_both, IsReady, Halfway, request-Halfway}

module _ ⦃numbers : Numbers⦄ {T : Type 0} (around : Surroundings numbers.Number)
    (bitcoin : Bitcoin T) where
  start-Keeps :
      (keys : Kept numbers.Number) (x : Option (SuggestDifficulty numbers.Number))
      (s : Session numbers.Number T)
      → Keeps keys s
      → Keeps keys (start_jobs around x s)
  unfolding start_jobs
  start-Keeps keys (some m) s h = h
  start-Keeps keys none s h =
      if_written-Keeps keys (write around.socket (set_difficulty s.session_difficulty) s) _
        (write-Keeps around.socket keys _ s h) (λ s' h'. h')

  Keeps-IsReady :
      (keys : Kept numbers.Number) (s : Session numbers.Number T)
      → keys.3 ≡ (is_some keys.1 && is_some keys.2)
      → Keeps keys s
      → IsReady s
  Keeps-IsReady keys s e (inl k) =
      inl (ap (λ x. x.3) k ∙ e ∙ sym (ap (λ x. is_some x.1 && is_some x.2) k))
  Keeps-IsReady keys s e (inr over) = inr over

  init-IsReady :
      (b : Bool) (user_agent : Units) (s : Session numbers.Number T)
      → has_both s ≡ true
      → s.stratum_initialized ≡ true
      → IsReady (init_unless around b user_agent s)
  unfolding init_unless
  init-IsReady true user_agent s e i = inr (close_destroyed s)
  init-IsReady false user_agent s e i =
      let s1 = record s {
        session_difficulty =
            if same_key user_agent cpuminer
            then numbers.over (numbers.of_nat 1) (numbers.of_nat 10)
            else s.session_difficulty;
      } in
      Keeps-IsReady (kept s1) (start_jobs around s.suggested s1) (i ∙ sym e)
        (start-Keeps (kept s1) s.suggested s1 (inl refl))

  idle-IsReady :
      (s : Session numbers.Number T)
      → has_both s ≡ false
      → ((s.stratum_initialized ≡ true) → (has_both s ≡ true))
      → IsReady s
  idle-IsReady s e w = elim (Bool-cases s.stratum_initialized) [
    | inl i ↦ absurd (cc (sym (w i) ∙ e))
    | inr i ↦ inl (i ∙ sym e)
  ]

  IsReady-if :
      (subscription : Option SubscriptionMessage)
      (authorization : Option (AuthorizationMessage numbers.Number)) (initialized : Bool)
      (s : Session numbers.Number T)
      → s.subscription ≡ subscription
      → s.authorization ≡ authorization
      → s.stratum_initialized ≡ initialized
      → ((s.stratum_initialized ≡ true) → (has_both s ≡ true))
      → IsReady (init_if_ready around subscription authorization initialized s)
  unfolding init_if_ready init_stratum
  IsReady-if none a i s es ea ei w =
      idle-IsReady s (ap (λ x. is_some x && is_some s.authorization) es) w
  IsReady-if (some m) none i s es ea ei w =
      idle-IsReady s (ap (λ x. is_some x && is_some s.authorization) es ∙ ap is_some ea) w
  IsReady-if (some m) (some a) true s es ea ei w = inl (ei ∙ sym (w ei))
  IsReady-if (some m) (some a) false s es ea ei w =
      init-IsReady (around.is_blocked_user_agent m.user_agent) m.user_agent
        (record s { stratum_initialized = true })
        (ap (λ x. is_some x && is_some s.authorization) es ∙ ap is_some ea) refl

  -- A session that is over stays so.
  written_over :
      (closed full delivered : Bool) (r : Reply numbers.Number) (s : Session numbers.Number T)
      → s.destroyed ≡ true
      → (written closed full delivered r s).1.destroyed ≡ true
  unfolding written
  written_over true full delivered r s h = destroy_destroyed s
  written_over false true delivered r s h = close_destroyed s
  written_over false false true r s h = h
  written_over false false false r s h = close_destroyed _

  joined_over :
      (p : Bool × Session numbers.Number T)
      → p.1.destroyed ≡ true
      → (if_written p (join_stream around)).destroyed ≡ true
  unfolding if_written
  joined_over (true, s) h = h
  joined_over (false, s) h = h

  start_over :
      (x : Option (SuggestDifficulty numbers.Number)) (s : Session numbers.Number T)
      → s.destroyed ≡ true
      → (start_jobs around x s).destroyed ≡ true
  unfolding start_jobs write
  start_over (some m) s h = h
  start_over none s h = joined_over _ (written_over (is_closed s) _ _ _ s h)

  init_over :
      (b : Bool) (user_agent : Units) (s : Session numbers.Number T)
      → s.destroyed ≡ true
      → (init_unless around b user_agent s).destroyed ≡ true
  unfolding init_unless
  init_over true user_agent s h = close_destroyed s
  init_over false user_agent s h = start_over s.suggested _ h

  ready_over :
      (subscription : Option SubscriptionMessage)
      (authorization : Option (AuthorizationMessage numbers.Number)) (initialized : Bool)
      (s : Session numbers.Number T)
      → s.destroyed ≡ true
      → (init_if_ready around subscription authorization initialized s).destroyed ≡ true
  unfolding init_if_ready init_stratum
  ready_over none a i s h = h
  ready_over (some m) none i s h = h
  ready_over (some m) (some a) true s h = h
  ready_over (some m) (some a) false s h = init_over _ m.user_agent _ h

  finish-IsReady :
      (p : Bool × Session numbers.Number T) → Halfway p → IsReady (finish_message around p)
  unfolding finish_message
  finish-IsReady (false, s) h = h
  finish-IsReady (true, s) (inl w) =
      IsReady-if s.subscription s.authorization s.stratum_initialized s refl refl refl w
  finish-IsReady (true, s) (inr over) =
      inr (ready_over s.subscription s.authorization s.stratum_initialized s over)

  lines_closed :
      (turn : Turn numbers.Number) (service : JobsService numbers.Number T) (lines : List Units)
      (s : Session numbers.Number T)
      → is_closed s ≡ true
      → handle_lines around bitcoin turn service lines s ≡ s
  unfolding handle_lines
  lines_closed turn service [] s h = refl
  lines_closed turn service (line ∷ lines) s h = rw h

  -- Whatever lines come in, a session is initialised exactly if it has a subscription and an
  -- authorization, or it is over, if so before.
  pub handle_lines-IsReady :
      (turn : Turn numbers.Number) (service : JobsService numbers.Number T) (lines : List Units)
      (s : Session numbers.Number T)
      → IsReady s
      → IsReady (handle_lines around bitcoin turn service lines s)
  unfolding handle_lines
  handle_lines-IsReady turn service [] s h = h
  handle_lines-IsReady turn service (line ∷ lines) s h = elim (Bool-cases (is_closed s)) [
    | inl e ↦ subst IsReady (sym (lines_closed turn service (line ∷ lines) s e)) h
    | inr e ↦ elim h [
      | inr over ↦ absurd (
          cc (
            sym (ap (λ d. d || s.connection_closed || s.socket_destroyed || s.writable_ended) over)
            ∙ e))
      | inl ready ↦
          let next : handle_lines around bitcoin turn service (line ∷ lines) s
              ≡ handle_lines around bitcoin turn service lines
                  (handle_message around bitcoin turn service line s) =
            unfold handle_lines in rw e in
          subst IsReady (sym next) (
            handle_lines-IsReady turn service lines
              (handle_message around bitcoin turn service line s)
              (unfold handle_message in
                finish-IsReady (handle_request around bitcoin turn service (around.parse line) s)
                  (request-Halfway around bitcoin turn service (around.parse line) s ready)))
    ]
  ]
