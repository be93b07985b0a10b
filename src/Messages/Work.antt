-- ===== src/Messages/Work.antt =====
-- src/models/sv2/sv2-messages.ts: jobs, targets and shares.
-- Field for field as the source lists them.
pub mod RoundTrip
use lido.Base.{ℕ, Option, Bytes}
use lido.Outcome.{M, Result, pure, ◌>>=◌, ◌>>◌}
use lido.Node.{Node}
use lido.Codec.Read.{Reader, read_option_u32, read_str0_255, read_u256, read_u32, read_u64}
use lido.Codec.Write.{
  serialized, write_option_u32, write_str0_255, write_u256, write_u32, write_u64,
}

pub record NewMiningJob : Type 0 where
  pub channel_id : ℕ
  pub job_id : ℕ
  pub min_ntime : Option ℕ
  pub version : ℕ
  pub merkle_root : Bytes

unfoldable pub deserialize_new_mining_job : M Reader NewMiningJob
deserialize_new_mining_job = do
  channel_id ← read_u32
  job_id ← read_u32
  min_ntime ← read_option_u32
  version ← read_u32
  merkle_root ← read_u256
  pure (record {
    channel_id = channel_id;
    job_id = job_id;
    min_ntime = min_ntime;
    version = version;
    merkle_root = merkle_root;
  })

pub record SetNewPrevHash : Type 0 where
  pub channel_id : ℕ
  pub job_id : ℕ
  pub prev_hash : Bytes
  pub min_ntime : ℕ
  pub n_bits : ℕ

unfoldable pub deserialize_set_new_prev_hash : M Reader SetNewPrevHash
deserialize_set_new_prev_hash = do
  channel_id ← read_u32
  job_id ← read_u32
  prev_hash ← read_u256
  min_ntime ← read_u32
  n_bits ← read_u32
  pure (record {
    channel_id = channel_id;
    job_id = job_id;
    prev_hash = prev_hash;
    min_ntime = min_ntime;
    n_bits = n_bits;
  })

pub record SetTarget : Type 0 where
  pub channel_id : ℕ
  pub max_target : Bytes

unfoldable pub deserialize_set_target : M Reader SetTarget
deserialize_set_target = do
  channel_id ← read_u32
  max_target ← read_u256
  pure (record { channel_id = channel_id; max_target = max_target })

pub record SubmitSharesStandard : Type 0 where
  pub channel_id : ℕ
  pub sequence_number : ℕ
  pub job_id : ℕ
  pub nonce : ℕ
  pub ntime : ℕ
  pub version : ℕ

unfoldable pub deserialize_submit_shares_standard : M Reader SubmitSharesStandard
deserialize_submit_shares_standard = do
  channel_id ← read_u32
  sequence_number ← read_u32
  job_id ← read_u32
  nonce ← read_u32
  ntime ← read_u32
  version ← read_u32
  pure (record {
    channel_id = channel_id;
    sequence_number = sequence_number;
    job_id = job_id;
    nonce = nonce;
    ntime = ntime;
    version = version;
  })

pub record SubmitSharesSuccess : Type 0 where
  pub channel_id : ℕ
  pub last_sequence_number : ℕ
  pub new_submits_accepted_count : ℕ
  pub new_shares_sum : ℕ

unfoldable pub deserialize_submit_shares_success : M Reader SubmitSharesSuccess
deserialize_submit_shares_success = do
  channel_id ← read_u32
  last_sequence_number ← read_u32
  new_submits_accepted_count ← read_u32
  new_shares_sum ← read_u64
  pure (record {
    channel_id = channel_id;
    last_sequence_number = last_sequence_number;
    new_submits_accepted_count = new_submits_accepted_count;
    new_shares_sum = new_shares_sum;
  })

module _ ⦃node : Node⦄ where
  open node use {Text}

  unfoldable pub serialize_new_mining_job : NewMiningJob → Result Bytes
  serialize_new_mining_job msg = serialized do
    write_u32 msg.channel_id
    write_u32 msg.job_id
    write_option_u32 msg.min_ntime
    write_u32 msg.version
    write_u256 msg.merkle_root

  unfoldable pub serialize_set_new_prev_hash : SetNewPrevHash → Result Bytes
  serialize_set_new_prev_hash msg = serialized do
    write_u32 msg.channel_id
    write_u32 msg.job_id
    write_u256 msg.prev_hash
    write_u32 msg.min_ntime
    write_u32 msg.n_bits

  unfoldable pub serialize_set_target : SetTarget → Result Bytes
  serialize_set_target msg = serialized do write_u32 msg.channel_id; write_u256 msg.max_target

  unfoldable pub serialize_submit_shares_standard : SubmitSharesStandard → Result Bytes
  serialize_submit_shares_standard msg = serialized do
    write_u32 msg.channel_id
    write_u32 msg.sequence_number
    write_u32 msg.job_id
    write_u32 msg.nonce
    write_u32 msg.ntime
    write_u32 msg.version

  unfoldable pub serialize_submit_shares_success : SubmitSharesSuccess → Result Bytes
  serialize_submit_shares_success msg = serialized do
    write_u32 msg.channel_id
    write_u32 msg.last_sequence_number
    write_u32 msg.new_submits_accepted_count
    write_u64 msg.new_shares_sum

  pub record SubmitSharesError : Type 0 where
    pub channel_id : ℕ
    pub sequence_number : ℕ
    pub error_code : Text

  unfoldable pub deserialize_submit_shares_error : M Reader SubmitSharesError
  deserialize_submit_shares_error = do
    channel_id ← read_u32
    sequence_number ← read_u32
    error_code ← read_str0_255
    pure (record {
      channel_id = channel_id;
      sequence_number = sequence_number;
      error_code = error_code;
    })

  unfoldable pub serialize_submit_shares_error : SubmitSharesError → Result Bytes
  serialize_submit_shares_error msg =
      serialized
        do write_u32 msg.channel_id; write_u32 msg.sequence_number; write_str0_255 msg.error_code
