-- ===== src/Session/Work.antt =====
-- The jobs and the difficulty of a session of src/models/StratumV1Client.ts.
use lido.Base.{
  ℕ, ◌/◌, Bool, true, false, not, ◌&&◌, ◌||◌, Option, none, some, List, [], ◌∷◌, if◌then◌else◌,
  Bytes, max,
}
use lido.Outcome.{Result, ok, err}
use lido.Client.{Units}
use lido.Client.Pacing.{Reason, abandoned, idle, vardiff, after_last}
use lido.Numbers.{Numbers}
use lido.Mining.{Bitcoin, Template, MiningJob}
use lido.Mining.Construction.{Payee, mining_job}
use lido.Jobs.{JobsService, add_job, get_next_id}
use lido.Statistics.{Statistics}
use lido.Statistics.Suggestion.{get_suggested_difficulty}
use lido.Session.{
  Session, struggling, Socket, logged, write, if_written, close_socket,
  reset_submission_hashes_if_new_block,
}
use lido.Session.Messages.{AuthorizationMessage, set_difficulty, notify, job_response}

-- The configuration: DEV_FEE_ADDRESS, the bytes of POOL_IDENTIFIER, and whether NETWORK is known.
pub record Config : Type 0 where
  pub dev_fee_address : Option Units
  pub pool_identifier : Bytes
  pub network_known : Bool

-- A session with the service that all sessions share.
pub record Served (N T : Type 0) : Type 0 where
  pub session : Session N T
  pub service : JobsService N T

abbrev pub is_some {ℓ} : {A : Type ℓ} → Option A → Bool
is_some none = false
is_some (some a) = true

module _ ⦃numbers : Numbers⦄ where
  -- 98.5 and 1.5 hundredths, or all.
  unfoldable pub payout_information : Bool → Option Units → Units → List Payee
  payout_information no_fee none address = (address, numbers.of_nat 100) ∷ []
  payout_information true (some dev) address = (address, numbers.of_nat 100) ∷ []
  payout_information false (some []) address = (address, numbers.of_nat 100) ∷ []
  payout_information false (some (c ∷ dev)) address =
      (c ∷ dev, numbers.over (numbers.of_nat 3) (numbers.of_nat 2))
      ∷ (address, numbers.over (numbers.of_nat 197) (numbers.of_nat 2))
      ∷ []

  unfoldable pub is_small : numbers.Number → Bool
  is_small rate =
      not (numbers.equal rate (numbers.of_nat 0))
      && numbers.greater (numbers.of_nat 50000000000000) rate

module _ ⦃numbers : Numbers⦄ where
  abbrev pub address_of : Option (AuthorizationMessage numbers.Number) → Units
  address_of none = []
  address_of (some a) = a.address

module _ ⦃numbers : Numbers⦄ {T : Type 0} where
  -- No fee is taken of a small miner, once the session has an entity.
  unfoldable pub with_fee :
      Bool
      → Option (Statistics numbers.Number)
      → Session numbers.Number T
      → Session numbers.Number T
  with_fee false statistics s = record s { no_fee = false }
  with_fee true none s = record s { no_fee = false }
  with_fee true (some statistics) s = record s {
    hash_rate = statistics.hash_rate;
    no_fee = is_small statistics.hash_rate;
  }

module _ ⦃numbers : Numbers⦄ {T : Type 0} (bitcoin : Bitcoin T) (socket : Socket numbers.Number)
    (config : Config) where
  -- The job is stored even if it cannot be written. `thrown` is what becomes of the session where an
  -- exception ends the method.
  unfoldable pub send_job :
      (Session numbers.Number T → Session numbers.Number T)
      → Template numbers.Number T
      → Result MiningJob
      → Served numbers.Number T
      → Served numbers.Number T
  send_job thrown t (err e) served = record served { session = thrown served.session }
  send_job thrown t (ok job) served = record {
    session =
        if_written (write socket (notify (job_response job t)) served.session)
          (λ s. record s { last_sent_mining_job_timestamp = some t.block.timestamp });
    service = add_job job served.service;
  }

  unfoldable pub send_new_mining_job :
      (Session numbers.Number T → Session numbers.Number T)
      → ℕ
      → Template numbers.Number T
      → Served numbers.Number T
      → Served numbers.Number T
  send_new_mining_job thrown now t served =
      let s = with_fee (is_some served.session.entity) served.session.statistics served.session in
      let payees =
        payout_information s.no_fee config.dev_fee_address (address_of s.authorization) in
      let made = record served { session = s } in
      if config.network_known
      then send_job thrown t
          (mining_job bitcoin config.pool_identifier (get_next_id served.service) now payees t) made
      else record made { session = thrown s }

  -- What a session does with a template of the stream. The flag is whether it is closed.
  unfoldable pub take_template :
      Bool → ℕ → Template numbers.Number T → Served numbers.Number T → Served numbers.Number T
  take_template true now t served = served
  take_template false now t served =
      send_new_mining_job close_socket now t
        (record served { session = reset_submission_hashes_if_new_block t served.session })

  unfoldable pub on_new_job :
      ℕ → Template numbers.Number T → Served numbers.Number T → Served numbers.Number T
  on_new_job now t served =
      let s = served.session in
      take_template (not s.job_stream || s.destroyed || s.connection_closed) now t served

  -- The template again, later and with the mark to clear.
  abbrev pub refreshed :
      ℕ → Template numbers.Number T → Session numbers.Number T → Template numbers.Number T
  refreshed now t s = record t {
    block = record t.block {
      timestamp =
          max t.block.timestamp (max (now / 1000) (after_last s.last_sent_mining_job_timestamp));
    };
    clear_jobs = true;
  }

  unfoldable pub resend :
      ℕ → Option (Template numbers.Number T) → Served numbers.Number T → Served numbers.Number T
  resend now none served = served
  resend now (some t) served =
      send_new_mining_job (λ s. s) now (refreshed now t served.session) served

  unfoldable pub if_told :
      ℕ
      → Option (Template numbers.Number T)
      → JobsService numbers.Number T
      → Bool × Session numbers.Number T
      → Served numbers.Number T
  if_told now latest service (true, s) =
      resend now latest (record { session = s; service = service })
  if_told now latest service (false, s) = record { session = s; service = service }

  abbrev is_idle : Reason → Bool
  is_idle idle = true
  is_idle abandoned = false
  is_idle vardiff = false

  -- One alert a session, for an idle miner whose difficulty falls.
  unfoldable pub alert :
      Reason → numbers.Number → Session numbers.Number T → Session numbers.Number T
  alert reason target s =
      if is_idle reason
        && numbers.greater s.session_difficulty target
        && not s.idle_struggle_notified
      then logged (struggling s.session_difficulty target)
          (record s { idle_struggle_notified = true })
      else s

  unfoldable pub change_difficulty :
      ℕ
      → Option (Template numbers.Number T)
      → Reason
      → numbers.Number
      → Served numbers.Number T
      → Served numbers.Number T
  change_difficulty now latest reason target served =
      let s = record (alert reason target served.session) { session_difficulty = target } in
      if_told now latest served.service (write socket (set_difficulty target) s)

  -- An exception here has no handler of its own and leaves the session as it is.
  unfoldable pub follow_suggestion :
      ℕ
      → Option (Template numbers.Number T)
      → Result (Option (Reason × numbers.Number))
      → Served numbers.Number T
      → Served numbers.Number T
  follow_suggestion now latest (err e) served = served
  follow_suggestion now latest (ok none) served = served
  follow_suggestion now latest (ok (some (abandoned, d))) served = record served {
    session = close_socket served.session;
  }
  follow_suggestion now latest (ok (some (reason, d))) served =
      if numbers.equal d served.session.session_difficulty
      then served
      else change_difficulty now latest reason d served

  unfoldable pub check_with :
      ℕ
      → ℕ
      → Option (Template numbers.Number T)
      → Bool
      → Option (Statistics numbers.Number)
      → Served numbers.Number T
      → Served numbers.Number T
  check_with fuel now latest true statistics served = served
  check_with fuel now latest false none served = served
  check_with fuel now latest false (some statistics) served =
      follow_suggestion now latest
        (get_suggested_difficulty fuel now served.session.session_difficulty statistics) served

  -- `latest` is the template that the stream replays.
  unfoldable pub check_difficulty :
      ℕ → ℕ → Option (Template numbers.Number T) → Served numbers.Number T → Served numbers.Number T
  check_difficulty fuel now latest served =
      check_with fuel now latest (served.session.destroyed || served.session.connection_closed)
        served.session.statistics served
