-- ===== src/Messages/Extended.antt =====
-- src/models/sv2/sv2-extended-messages.ts: the messages of extended channels.
-- Field for field as the source lists them.
pub mod RoundTrip
use lido.Base.{ℕ, Bool, Option, List, Bytes}
use lido.Outcome.{M, Result, pure, ◌>>=◌, ◌>>◌}
use lido.Node.{Node}
use lido.Codec.Read.{
  Reader, read_b0_32, read_b0_64k, read_bool, read_f32, read_option_u32, read_seq0_255,
  read_seq0_64k, read_str0_255, read_u16, read_u256, read_u32,
}
use lido.Codec.Write.{
  serialized, write_b0_32, write_b0_64k, write_bool, write_f32, write_option_u32, write_seq0_255,
  write_seq0_64k, write_str0_255, write_u16, write_u256, write_u32,
}

pub record OpenExtendedMiningChannelSuccess : Type 0 where
  pub request_id : ℕ
  pub channel_id : ℕ
  pub target : Bytes
  pub extranonce_size : ℕ
  pub extranonce_prefix : Bytes
  pub group_channel_id : ℕ

unfoldable pub deserialize_open_extended_mining_channel_success :
    M Reader OpenExtendedMiningChannelSuccess
deserialize_open_extended_mining_channel_success = do
  request_id ← read_u32
  channel_id ← read_u32
  target ← read_u256
  extranonce_size ← read_u16
  extranonce_prefix ← read_b0_32
  group_channel_id ← read_u32
  pure (record {
    request_id = request_id;
    channel_id = channel_id;
    target = target;
    extranonce_size = extranonce_size;
    extranonce_prefix = extranonce_prefix;
    group_channel_id = group_channel_id;
  })

pub record NewExtendedMiningJob : Type 0 where
  pub channel_id : ℕ
  pub job_id : ℕ
  pub min_ntime : Option ℕ
  pub version : ℕ
  pub version_rolling_allowed : Bool
  pub merkle_path : List Bytes
  pub coinbase_prefix : Bytes
  pub coinbase_suffix : Bytes

unfoldable pub deserialize_new_extended_mining_job : M Reader NewExtendedMiningJob
deserialize_new_extended_mining_job = do
  channel_id ← read_u32
  job_id ← read_u32
  min_ntime ← read_option_u32
  version ← read_u32
  version_rolling_allowed ← read_bool
  merkle_path ← read_seq0_255 read_u256
  coinbase_prefix ← read_b0_64k
  coinbase_suffix ← read_b0_64k
  pure (record {
    channel_id = channel_id;
    job_id = job_id;
    min_ntime = min_ntime;
    version = version;
    version_rolling_allowed = version_rolling_allowed;
    merkle_path = merkle_path;
    coinbase_prefix = coinbase_prefix;
    coinbase_suffix = coinbase_suffix;
  })

pub record SubmitSharesExtended : Type 0 where
  pub channel_id : ℕ
  pub sequence_number : ℕ
  pub job_id : ℕ
  pub nonce : ℕ
  pub ntime : ℕ
  pub version : ℕ
  pub extranonce : Bytes

unfoldable pub deserialize_submit_shares_extended : M Reader SubmitSharesExtended
deserialize_submit_shares_extended = do
  channel_id ← read_u32
  sequence_number ← read_u32
  job_id ← read_u32
  nonce ← read_u32
  ntime ← read_u32
  version ← read_u32
  extranonce ← read_b0_32
  pure (record {
    channel_id = channel_id;
    sequence_number = sequence_number;
    job_id = job_id;
    nonce = nonce;
    ntime = ntime;
    version = version;
    extranonce = extranonce;
  })

pub record SetExtranoncePrefix : Type 0 where
  pub channel_id : ℕ
  pub extranonce_prefix : Bytes

unfoldable pub deserialize_set_extranonce_prefix : M Reader SetExtranoncePrefix
deserialize_set_extranonce_prefix = do
  channel_id ← read_u32
  extranonce_prefix ← read_b0_32
  pure (record { channel_id = channel_id; extranonce_prefix = extranonce_prefix })

pub record SetGroupChannel : Type 0 where
  pub group_channel_id : ℕ
  pub channel_ids : List ℕ

unfoldable pub deserialize_set_group_channel : M Reader SetGroupChannel
deserialize_set_group_channel = do
  group_channel_id ← read_u32
  channel_ids ← read_seq0_64k read_u32
  pure (record { group_channel_id = group_channel_id; channel_ids = channel_ids })

module _ ⦃node : Node⦄ where
  open node use {Text, Float}

  pub record OpenExtendedMiningChannel : Type 0 where
    pub request_id : ℕ
    pub user_identity : Text
    pub nominal_hash_rate : Float
    pub max_target : Bytes
    pub min_extranonce_size : ℕ

  unfoldable pub deserialize_open_extended_mining_channel : M Reader OpenExtendedMiningChannel
  deserialize_open_extended_mining_channel = do
    request_id ← read_u32
    user_identity ← read_str0_255
    nominal_hash_rate ← read_f32
    max_target ← read_u256
    min_extranonce_size ← read_u16
    pure (record {
      request_id = request_id;
      user_identity = user_identity;
      nominal_hash_rate = nominal_hash_rate;
      max_target = max_target;
      min_extranonce_size = min_extranonce_size;
    })

  unfoldable pub serialize_open_extended_mining_channel : OpenExtendedMiningChannel → Result Bytes
  serialize_open_extended_mining_channel msg = serialized do
    write_u32 msg.request_id
    write_str0_255 msg.user_identity
    write_f32 msg.nominal_hash_rate
    write_u256 msg.max_target
    write_u16 msg.min_extranonce_size

  unfoldable pub serialize_open_extended_mining_channel_success :
      OpenExtendedMiningChannelSuccess → Result Bytes
  serialize_open_extended_mining_channel_success msg = serialized do
    write_u32 msg.request_id
    write_u32 msg.channel_id
    write_u256 msg.target
    write_u16 msg.extranonce_size
    write_b0_32 msg.extranonce_prefix
    write_u32 msg.group_channel_id

  unfoldable pub serialize_new_extended_mining_job : NewExtendedMiningJob → Result Bytes
  serialize_new_extended_mining_job msg = serialized do
    write_u32 msg.channel_id
    write_u32 msg.job_id
    write_option_u32 msg.min_ntime
    write_u32 msg.version
    write_bool msg.version_rolling_allowed
    write_seq0_255 msg.merkle_path write_u256
    write_b0_64k msg.coinbase_prefix
    write_b0_64k msg.coinbase_suffix

  unfoldable pub serialize_submit_shares_extended : SubmitSharesExtended → Result Bytes
  serialize_submit_shares_extended msg = serialized do
    write_u32 msg.channel_id
    write_u32 msg.sequence_number
    write_u32 msg.job_id
    write_u32 msg.nonce
    write_u32 msg.ntime
    write_u32 msg.version
    write_b0_32 msg.extranonce

  unfoldable pub serialize_set_extranonce_prefix : SetExtranoncePrefix → Result Bytes
  serialize_set_extranonce_prefix msg =
      serialized do write_u32 msg.channel_id; write_b0_32 msg.extranonce_prefix

  unfoldable pub serialize_set_group_channel : SetGroupChannel → Result Bytes
  serialize_set_group_channel msg =
      serialized do write_u32 msg.group_channel_id; write_seq0_64k msg.channel_ids write_u32
