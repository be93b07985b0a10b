-- ===== src/Session.antt =====
-- src/models/StratumV1Client.ts: a session of a Stratum V1 miner. Its JSON with class-validator, its
-- socket, the database and the notifications are parameters or entries of a log.
pub mod Messages
pub mod Credit
pub mod Submission
pub mod Work
pub mod Handlers
pub mod Lines
pub mod Cuts
pub mod Kept
pub mod Duplicates
pub mod Rewriting
pub mod Waiting
pub mod Ready
use lido.Base.{
  ℕ, suc, ◌+◌, ◌-◌, ◌*◌, Bool, true, false, not, ◌&&◌, ◌||◌, Option, none, some, List, [], ◌∷◌,
  ◌++◌, length, ltb, leb, ◌==◌, if◌then◌else◌, Bytes,
}
use lido.Client.{Units, has_key}
use lido.Numbers.{Numbers}
use lido.Mining.{Block, Template, MiningJob}
use lido.Jobs.{JobsService}
use lido.Statistics.{Statistics, Write}
use lido.Session.Messages.{
  SubscriptionMessage, AuthorizationMessage, SuggestDifficulty, MiningSubmitMessage, Reply,
}

abbrev pub max_submission_hashes : ℕ
max_submission_hashes = 10000

abbrev pub max_inbound_buffer_chars : ℕ
max_inbound_buffer_chars = 256 * 1024

abbrev pub max_socket_buffer_bytes : ℕ
max_socket_buffer_bytes = 256 * 1024

-- The fields of ClientEntity that are read again.
pub record Entity (N : Type 0) : Type 0 where
  pub address : Units
  pub client_name : Units
  pub user_agent : Units
  pub updated_at : Option ℕ
  pub best_difficulty : N

-- What the session does to the world, oldest first.
pub data Effect (N T : Type 0) : Type 0 where
  sent : Reply N → Effect N T
  block_submitted : Block T → Effect N T
  block_saved : ℕ → Effect N T
  block_announced : ℕ → Effect N T
  best_difficulties_reset : Effect N T
  entity_inserted : Entity N → Effect N T
  connected : Bool → Effect N T
  counted : List (Write N) → Effect N T
  heartbeat : ℕ → Effect N T
  best_raised : N → Effect N T
  best_announced : N → Effect N T
  share_forwarded : Bytes → Effect N T
  struggling : N → N → Effect N T
  session_deleted : Bool → Effect N T

pub record Session (N T : Type 0) : Type 0 where
  pub subscription : Option SubscriptionMessage
  pub configuration : Option Units
  pub authorization : Option (AuthorizationMessage N)
  pub suggested : Option (SuggestDifficulty N)
  pub job_stream : Bool
  pub background_work : ℕ
  pub statistics : Option (Statistics N)
  pub stratum_initialized : Bool
  pub used_suggested_difficulty : Bool
  pub idle_struggle_notified : Bool
  pub session_difficulty : N
  pub entity : Option (Entity N)
  pub extra_nonce : Option Units
  pub no_fee : Bool
  pub hash_rate : N
  pub connection_closed : Bool
  pub destroyed : Bool
  pub socket_destroyed : Bool
  pub writable_ended : Bool
  pub last_sent_mining_job_timestamp : Option ℕ
  pub submission_hashes : List Units
  pub submission_hash_reset_height : Option ℕ
  pub writes : ℕ
  pub log : List (Effect N T)

-- What the socket does with a write: the bytes that it holds already, and whether it delivers in time.
pub record Wire : Type 0 where
  pub writable_length : ℕ
  pub delivered : Bool

-- The socket by the number of the write, and Buffer.byteLength of a message's text.
pub record Socket (N : Type 0) : Type 0 where
  pub wire : ℕ → Wire
  pub byte_length : Reply N → ℕ

-- A text that is not empty.
abbrev pub is_given : Units → Bool
is_given [] = false
is_given (c ∷ cs) = true

module _ {N T : Type 0} where
  abbrev pub logged : Effect N T → Session N T → Session N T
  logged e s = record s { log = s.log ++ (e ∷ []) }

  abbrev pub is_closed : Session N T → Bool
  is_closed s = s.destroyed || s.connection_closed || s.socket_destroyed || s.writable_ended

  -- The flag is whether the miner's disconnection is announced.
  unfoldable pub delete_session : Option Units → Option (Entity N) → Session N T → Session N T
  delete_session none entity s = s
  delete_session (some id) none s = logged (session_deleted false) s
  delete_session (some id) (some entity) s =
      logged (session_deleted (is_given entity.address && is_given entity.client_name)) s

  abbrev silenced : Session N T → Session N T
  silenced s = record s {
    destroyed = true;
    connection_closed = true;
    background_work = 0;
    job_stream = false;
    submission_hashes = [];
    submission_hash_reset_height = none;
  }

  -- The flag is `destroyed`.
  unfoldable pub destroy_unless : Bool → Session N T → Session N T
  destroy_unless true s = s
  destroy_unless false s = record (delete_session s.extra_nonce s.entity (silenced s)) {
    socket_destroyed = true;
  }

  unfoldable pub destroy : Session N T → Session N T
  destroy s = destroy_unless s.destroyed s

  unfoldable pub close_socket : Session N T → Session N T
  close_socket s = destroy (record s { connection_closed = true; socket_destroyed = true })

  -- The flags are whether the session is closed, the message too much, and delivered.
  unfoldable pub written : Bool → Bool → Bool → Reply N → Session N T → Bool × Session N T
  written true full delivered reply s = (false, destroy s)
  written false true delivered reply s = (false, close_socket s)
  written false false true reply s =
      (true, logged (sent reply) (record s { writes = s.writes + 1 }))
  written false false false reply s = (false, close_socket (record s { writes = s.writes + 1 }))

  -- Handlers run one at a time, so the socket itself holds all that is pending.
  unfoldable pub write : Socket N → Reply N → Session N T → Bool × Session N T
  write socket reply s =
      let wire = socket.wire s.writes in
      written (is_closed s)
        (ltb max_socket_buffer_bytes (wire.writable_length + socket.byte_length reply))
        wire.delivered reply s

  -- What follows a write, if it succeeds.
  unfoldable pub if_written : Bool × Session N T → (Session N T → Session N T) → Session N T
  if_written (true, s) next = next s
  if_written (false, s) next = s

  unfoldable pub remember_submission : Units → Session N T → Session N T
  remember_submission key s = record s {
    submission_hashes =
        if leb max_submission_hashes (length s.submission_hashes)
        then key ∷ []
        else key ∷ s.submission_hashes;
  }

  unfoldable pub reset_at : Bool → Bool → ℕ → Session N T → Session N T
  reset_at false same height s = s
  reset_at true true height s = s
  reset_at true false height s = record s {
    submission_hashes = [];
    submission_hash_reset_height = some height;
  }

abbrev pub same_height : Option ℕ → ℕ → Bool
same_height none height = false
same_height (some old) height = old == height

module _ {N T : Type 0} where
  unfoldable pub reset_submission_hashes_if_new_block : Template N T → Session N T → Session N T
  reset_submission_hashes_if_new_block t s =
      reset_at t.clear_jobs (same_height s.submission_hash_reset_height t.height) t.height s
