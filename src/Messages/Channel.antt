-- ===== src/Messages/Channel.antt =====
-- src/models/sv2/sv2-messages.ts: the messages that open, update and close channels.
-- Field for field as the source lists them.
pub mod RoundTrip
use lido.Base.{ℕ, Bytes}
use lido.Outcome.{M, Result, pure, ◌>>=◌, ◌>>◌}
use lido.Node.{Node}
use lido.Codec.Read.{Reader, read_b0_32, read_f32, read_str0_255, read_u256, read_u32}
use lido.Codec.Write.{serialized, write_b0_32, write_f32, write_str0_255, write_u256, write_u32}

pub record OpenStandardMiningChannelSuccess : Type 0 where
  pub request_id : ℕ
  pub channel_id : ℕ
  pub target : Bytes
  pub extranonce_prefix : Bytes
  pub group_channel_id : ℕ

unfoldable pub deserialize_open_standard_mining_channel_success :
    M Reader OpenStandardMiningChannelSuccess
deserialize_open_standard_mining_channel_success = do
  request_id ← read_u32
  channel_id ← read_u32
  target ← read_u256
  extranonce_prefix ← read_b0_32
  group_channel_id ← read_u32
  pure (record {
    request_id = request_id;
    channel_id = channel_id;
    target = target;
    extranonce_prefix = extranonce_prefix;
    group_channel_id = group_channel_id;
  })

module _ ⦃node : Node⦄ where
  open node use {Text, Float}

  pub record OpenStandardMiningChannel : Type 0 where
    pub request_id : ℕ
    pub user_identity : Text
    pub nominal_hash_rate : Float
    pub max_target : Bytes

  unfoldable pub deserialize_open_standard_mining_channel : M Reader OpenStandardMiningChannel
  deserialize_open_standard_mining_channel = do
    request_id ← read_u32
    user_identity ← read_str0_255
    nominal_hash_rate ← read_f32
    max_target ← read_u256
    pure (record {
      request_id = request_id;
      user_identity = user_identity;
      nominal_hash_rate = nominal_hash_rate;
      max_target = max_target;
    })

  unfoldable pub serialize_open_standard_mining_channel : OpenStandardMiningChannel → Result Bytes
  serialize_open_standard_mining_channel msg = serialized do
    write_u32 msg.request_id
    write_str0_255 msg.user_identity
    write_f32 msg.nominal_hash_rate
    write_u256 msg.max_target

  unfoldable pub serialize_open_standard_mining_channel_success :
      OpenStandardMiningChannelSuccess → Result Bytes
  serialize_open_standard_mining_channel_success msg = serialized do
    write_u32 msg.request_id
    write_u32 msg.channel_id
    write_u256 msg.target
    write_b0_32 msg.extranonce_prefix
    write_u32 msg.group_channel_id

  pub record OpenMiningChannelError : Type 0 where
    pub request_id : ℕ
    pub error_code : Text

  unfoldable pub deserialize_open_mining_channel_error : M Reader OpenMiningChannelError
  deserialize_open_mining_channel_error = do
    request_id ← read_u32
    error_code ← read_str0_255
    pure (record { request_id = request_id; error_code = error_code })

  unfoldable pub serialize_open_mining_channel_error : OpenMiningChannelError → Result Bytes
  serialize_open_mining_channel_error msg =
      serialized do write_u32 msg.request_id; write_str0_255 msg.error_code

  pub record CloseChannel : Type 0 where
    pub channel_id : ℕ
    pub reason_code : Text

  unfoldable pub deserialize_close_channel : M Reader CloseChannel
  deserialize_close_channel = do
    channel_id ← read_u32
    reason_code ← read_str0_255
    pure (record { channel_id = channel_id; reason_code = reason_code })

  unfoldable pub serialize_close_channel : CloseChannel → Result Bytes
  serialize_close_channel msg =
      serialized do write_u32 msg.channel_id; write_str0_255 msg.reason_code

  pub record UpdateChannel : Type 0 where
    pub channel_id : ℕ
    pub nominal_hash_rate : Float
    pub maximum_target : Bytes

  unfoldable pub deserialize_update_channel : M Reader UpdateChannel
  deserialize_update_channel = do
    channel_id ← read_u32
    nominal_hash_rate ← read_f32
    maximum_target ← read_u256
    pure (record {
      channel_id = channel_id;
      nominal_hash_rate = nominal_hash_rate;
      maximum_target = maximum_target;
    })

  unfoldable pub serialize_update_channel : UpdateChannel → Result Bytes
  serialize_update_channel msg =
      serialized
        do write_u32 msg.channel_id; write_f32 msg.nominal_hash_rate; write_u256 msg.maximum_target

  pub record UpdateChannelError : Type 0 where
    pub channel_id : ℕ
    pub error_code : Text

  unfoldable pub deserialize_update_channel_error : M Reader UpdateChannelError
  deserialize_update_channel_error = do
    channel_id ← read_u32
    error_code ← read_str0_255
    pure (record { channel_id = channel_id; error_code = error_code })

  unfoldable pub serialize_update_channel_error : UpdateChannelError → Result Bytes
  serialize_update_channel_error msg =
      serialized do write_u32 msg.channel_id; write_str0_255 msg.error_code
