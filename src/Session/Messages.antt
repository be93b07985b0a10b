-- ===== src/Session/Messages.antt =====
-- The messages of src/models/stratum-messages, as class-transformer and class-validator leave them, and
-- the answers to them. An id is the JSON text of it.
use lido.Base.{Bool, Option, List}
use lido.Client.{Units}
use lido.Mining.{Template, MiningJob, swap_endian_words}
use lido.Mining.Hex.{to_hex}
use lido.Jobs.{hex_text}

pub record SubscriptionMessage : Type 0 where
  pub id : Units
  pub user_agent : Units

pub record AuthorizationMessage (N : Type 0) : Type 0 where
  pub id : Units
  pub address : Units
  pub worker : Units
  pub starting_diff : Option N

pub record SuggestDifficulty (N : Type 0) : Type 0 where
  pub id : Units
  pub suggested_difficulty : N

pub record MiningSubmitMessage : Type 0 where
  pub id : Units
  pub job_id : Units
  pub extra_nonce2 : Units
  pub ntime : Units
  pub nonce : Units
  pub version_mask : Units

-- A message that passes the validation, or the id of one that does not.
pub data Checked (A : Type 0) : Type 0 where
  valid : A → Checked A
  invalid : Units → Checked A

-- A line by its method; `malformed` is no JSON, or JSON without properties.
pub data Request (N : Type 0) : Type 0 where
  malformed other : Request N
  subscribe : Checked SubscriptionMessage → Request N
  configure : Checked Units → Request N
  authorize : Checked (AuthorizationMessage N) → Request N
  suggest_difficulty : Checked (SuggestDifficulty N) → Request N
  submit : Checked MiningSubmitMessage → Request N

pub data StratumErrorCode : Type 0 where
  other_unknown job_not_found duplicate_share low_difficulty_share : StratumErrorCode

-- IMiningNotify
pub record MiningNotify : Type 0 where
  pub job_id : Units
  pub prev_hash : Units
  pub coinbase_part1 : Units
  pub coinbase_part2 : Units
  pub merkle_branch : List Units
  pub version : Units
  pub bits : Units
  pub timestamp : Units
  pub clear_jobs : Bool

-- The `response` of each message: to a subscription with the extranonce, to a configuration, to an
-- authorization or a submission with `true`; a difficulty, a job, and an error with its code.
pub data Reply (N : Type 0) : Type 0 where
  subscribed : Units → Units → Reply N
  configured : Units → Reply N
  agreed : Units → Reply N
  set_difficulty : N → Reply N
  notify : MiningNotify → Reply N
  refused : Units → StratumErrorCode → Reply N

-- MiningJob.response
unfoldable pub job_response : {N T : Type 0} → MiningJob → Template N T → MiningNotify
job_response job t = record {
  job_id = job.job_id;
  prev_hash = to_hex (swap_endian_words t.block.prev_hash);
  coinbase_part1 = job.coinbase_part1;
  coinbase_part2 = job.coinbase_part2;
  merkle_branch = t.merkle_branch;
  version = hex_text t.block.version;
  bits = hex_text t.block.bits;
  timestamp = hex_text t.block.timestamp;
  clear_jobs = t.clear_jobs;
}
