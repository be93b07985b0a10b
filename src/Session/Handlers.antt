-- ===== src/Session/Handlers.antt =====
-- The requests of a miner and the lines that they come in, in src/models/StratumV1Client.ts.
use lido.Base.{ℕ, ◌+◌, Bool, true, false, Option, none, some, List, [], ◌∷◌, if◌then◌else◌}
use lido.Client.{Units, same_key}
use lido.Numbers.{Numbers}
use lido.Mining.{Bitcoin}
use lido.Jobs.{JobsService}
use lido.Statistics.{new_statistics}
use lido.Session.{Session, Socket, write, if_written, close_socket, is_closed}
use lido.Session.Credit.{Turn}
use lido.Session.Submission.{handle_mining_submission, text_of}
use lido.Session.Messages.{
  SubscriptionMessage, AuthorizationMessage, SuggestDifficulty, MiningSubmitMessage, Checked, valid,
  invalid, Request, malformed, other, subscribe, configure, authorize, suggest_difficulty, submit,
  subscribed, configured, agreed, set_difficulty, refused, other_unknown,
}

-- The user agent 'cpuminer' by its character codes.
abbrev pub cpuminer : Units
cpuminer = 99 ∷ 112 ∷ 117 ∷ 109 ∷ 105 ∷ 110 ∷ 101 ∷ 114 ∷ []

-- What a handler takes from outside: the socket, the test of the configured list of user agents, the
-- text of the random bytes, and JSON.parse with the classes of the messages.
pub record Surroundings (N : Type 0) : Type 0 where
  pub socket : Socket N
  pub is_blocked_user_agent : Units → Bool
  pub random_hex : Units
  pub parse : Units → Request N

-- A handler's session, and whether the rest of handleMessage runs.
abbrev pub Handled : Type 0 → Type 0 → Type 0
Handled N T = Bool × Session N T

module _ ⦃numbers : Numbers⦄ where
  -- The greater starting difficulty of an authorization, if none was suggested.
  unfoldable pub starting_difficulty :
      Option (SuggestDifficulty numbers.Number)
      → Option numbers.Number
      → numbers.Number
      → numbers.Number
  starting_difficulty (some m) start d = d
  starting_difficulty none none d = d
  starting_difficulty none (some start) d = if numbers.greater start d then start else d

module _ ⦃numbers : Numbers⦄ {T : Type 0} (around : Surroundings numbers.Number) where
  -- The first subscription gives the session its start, its statistics and its extranonce.
  unfoldable pub begin_session :
      ℕ → Option Units → Session numbers.Number T → Session numbers.Number T
  begin_session now (some extra_nonce) s = s
  begin_session now none s = record s {
    statistics = some (new_statistics now);
    extra_nonce = some around.random_hex;
  }

  -- The flag is whether the user agent is blocked.
  unfoldable pub subscribe_unless :
      Bool → ℕ → SubscriptionMessage → Session numbers.Number T → Handled numbers.Number T
  subscribe_unless true now m s = (false, close_socket s)
  subscribe_unless false now m s =
      let s1 = record (begin_session now s.extra_nonce s) { subscription = some m } in
      write around.socket (subscribed m.id (text_of s1.extra_nonce)) s1

  -- The flag is whether a difficulty was suggested before.
  unfoldable pub suggest_unless :
      Bool
      → Checked (SuggestDifficulty numbers.Number)
      → Session numbers.Number T
      → Handled numbers.Number T
  suggest_unless true m s = (false, s)
  suggest_unless false (invalid id) s = write around.socket (refused id other_unknown) s
  suggest_unless false (valid m) s =
      let (ok, s1) =
        write around.socket (set_difficulty m.suggested_difficulty)
          (record s { suggested = some m; session_difficulty = m.suggested_difficulty }) in
      (ok, if ok then record s1 { used_suggested_difficulty = true } else s1)

  unfoldable pub close_after : Handled numbers.Number T → Handled numbers.Number T
  close_after (true, s) = (false, close_socket s)
  close_after (false, s) = (false, s)

module _ ⦃numbers : Numbers⦄ {T : Type 0} (around : Surroundings numbers.Number)
    (bitcoin : Bitcoin T) where
  -- The flag is whether the session is initialised; a submission before ends the socket.
  unfoldable pub submit_if :
      Bool
      → Turn numbers.Number
      → JobsService numbers.Number T
      → Checked MiningSubmitMessage
      → Session numbers.Number T
      → Handled numbers.Number T
  submit_if false turn service m s = (false, record s { writable_ended = true })
  submit_if true turn service (invalid id) s =
      close_after around (write around.socket (refused id other_unknown) s)
  submit_if true turn service (valid m) s =
      (true, handle_mining_submission bitcoin around.socket turn service m s)

  -- The cases of handleMessage.
  unfoldable pub handle_request :
      Turn numbers.Number
      → JobsService numbers.Number T
      → Request numbers.Number
      → Session numbers.Number T
      → Handled numbers.Number T
  handle_request turn service malformed s = (false, close_socket s)
  handle_request turn service other s = (true, s)
  handle_request turn service (subscribe (invalid id)) s =
      write around.socket (refused id other_unknown) s
  handle_request turn service (subscribe (valid m)) s =
      subscribe_unless around (around.is_blocked_user_agent m.user_agent) turn.now m s
  handle_request turn service (configure (invalid id)) s =
      write around.socket (refused id other_unknown) s
  handle_request turn service (configure (valid id)) s =
      write around.socket (configured id) (record s { configuration = some id })
  handle_request turn service (authorize (invalid id)) s =
      write around.socket (refused id other_unknown) s
  handle_request turn service (authorize (valid m)) s =
      write around.socket (agreed m.id) (record s {
        authorization = some m;
        session_difficulty = starting_difficulty s.suggested m.starting_diff s.session_difficulty;
      })
  handle_request turn service (suggest_difficulty m) s =
      suggest_unless around s.used_suggested_difficulty m s
  handle_request turn service (submit m) s = submit_if s.stratum_initialized turn service m s

module _ ⦃numbers : Numbers⦄ {T : Type 0} (around : Surroundings numbers.Number) where
  abbrev pub join_stream : Session numbers.Number T → Session numbers.Number T
  join_stream s = record s { job_stream = true; background_work = s.background_work + 1 }

  -- The start of the jobs, behind the difficulty unless one was suggested.
  unfoldable pub start_jobs :
      Option (SuggestDifficulty numbers.Number)
      → Session numbers.Number T
      → Session numbers.Number T
  start_jobs (some m) s = join_stream s
  start_jobs none s =
      if_written (write around.socket (set_difficulty s.session_difficulty) s) join_stream

  unfoldable pub init_unless : Bool → Units → Session numbers.Number T → Session numbers.Number T
  init_unless true user_agent s = close_socket s
  init_unless false user_agent s = start_jobs s.suggested (record s {
    session_difficulty =
        if same_key user_agent cpuminer
        then numbers.over (numbers.of_nat 1) (numbers.of_nat 10)
        else s.session_difficulty;
  })

  unfoldable pub init_stratum :
      SubscriptionMessage → Session numbers.Number T → Session numbers.Number T
  init_stratum m s =
      init_unless (around.is_blocked_user_agent m.user_agent) m.user_agent
        (record s { stratum_initialized = true })

  -- The end of handleMessage: both messages are there, and the session is not initialised.
  unfoldable pub init_if_ready :
      Option SubscriptionMessage
      → Option (AuthorizationMessage numbers.Number)
      → Bool
      → Session numbers.Number T
      → Session numbers.Number T
  init_if_ready none authorization initialized s = s
  init_if_ready (some m) none initialized s = s
  init_if_ready (some m) (some a) true s = s
  init_if_ready (some m) (some a) false s = init_stratum m s

  unfoldable pub finish_message : Handled numbers.Number T → Session numbers.Number T
  finish_message (false, s) = s
  finish_message (true, s) = init_if_ready s.subscription s.authorization s.stratum_initialized s

module _ ⦃numbers : Numbers⦄ {T : Type 0} (around : Surroundings numbers.Number)
    (bitcoin : Bitcoin T) where
  unfoldable pub handle_message :
      Turn numbers.Number
      → JobsService numbers.Number T
      → Units
      → Session numbers.Number T
      → Session numbers.Number T
  handle_message turn service line s =
      finish_message around (handle_request around bitcoin turn service (around.parse line) s)

  -- The loop over the lines, which ends where the session is closed.
  unfoldable pub handle_lines :
      Turn numbers.Number
      → JobsService numbers.Number T
      → List Units
      → Session numbers.Number T
      → Session numbers.Number T
  handle_lines turn service [] s = s
  handle_lines turn service (line ∷ lines) s =
      let next = handle_lines turn service lines (handle_message turn service line s) in
      if is_closed s then s else next
