-- ===== src/Messages/Channel/RoundTrip.antt =====
-- Round trips of the messages of src/models/sv2/sv2-messages.ts: the messages that open, update and close channels.
use lido.Node.{Node}
use lido.Codec.Codes.{
  Codes-seq, Codes-last, Codes-u32, Codes-u256, Codes-b0_32, Codes-str0_255, IsStr0_255,
}
use lido.Codec.RoundTrip.{
  RoundTrips, RoundTrips-Codes, IsU32, IsF32, IsU256, IsB0_32, Codes-f32_exact,
}
use lido.Messages.Channel.{
  OpenStandardMiningChannel, serialize_open_standard_mining_channel,
  deserialize_open_standard_mining_channel, OpenStandardMiningChannelSuccess,
  serialize_open_standard_mining_channel_success, deserialize_open_standard_mining_channel_success,
  OpenMiningChannelError, serialize_open_mining_channel_error,
  deserialize_open_mining_channel_error, CloseChannel, serialize_close_channel,
  deserialize_close_channel, UpdateChannel, serialize_update_channel, deserialize_update_channel,
  UpdateChannelError, serialize_update_channel_error, deserialize_update_channel_error,
}

module _ ⦃node : Node⦄ where
  -- The fields fit the wire types that the source's comments give them.
  pub record IsOpenStandardMiningChannel (msg : OpenStandardMiningChannel) : Type 0 where
    pub request_id : IsU32 msg.request_id
    pub user_identity : IsStr0_255 msg.user_identity
    pub nominal_hash_rate : IsF32 msg.nominal_hash_rate
    pub max_target : IsU256 msg.max_target

  -- Every OpenStandardMiningChannel whose fields fit their wire types is serialized, and its payload is
  -- deserialized, to the last byte, to the same message.
  pub open_standard_mining_channel_round_trip :
      (msg : OpenStandardMiningChannel)
      → IsOpenStandardMiningChannel msg
      → RoundTrips
          (serialize_open_standard_mining_channel msg)
          deserialize_open_standard_mining_channel
          msg
  unfolding serialize_open_standard_mining_channel deserialize_open_standard_mining_channel
  open_standard_mining_channel_round_trip msg h = RoundTrips-Codes (
      Codes-seq _ _ _ _ _ _ (Codes-u32 _ h.request_id) (
        Codes-seq _ _ _ _ _ _ (Codes-str0_255 _ h.user_identity) (
          Codes-seq _ _ _ _ _ _ (Codes-f32_exact _ h.nominal_hash_rate)
            (Codes-last _ _ _ _ (Codes-u256 _ h.max_target.0 h.max_target.1)))))

  -- The fields fit the wire types that the source's comments give them.
  pub record IsOpenStandardMiningChannelSuccess (msg : OpenStandardMiningChannelSuccess)
      : Type 0 where
    pub request_id : IsU32 msg.request_id
    pub channel_id : IsU32 msg.channel_id
    pub target : IsU256 msg.target
    pub extranonce_prefix : IsB0_32 msg.extranonce_prefix
    pub group_channel_id : IsU32 msg.group_channel_id

  -- Every OpenStandardMiningChannelSuccess whose fields fit their wire types is serialized, and its payload is
  -- deserialized, to the last byte, to the same message.
  pub open_standard_mining_channel_success_round_trip :
      (msg : OpenStandardMiningChannelSuccess)
      → IsOpenStandardMiningChannelSuccess msg
      → RoundTrips
          (serialize_open_standard_mining_channel_success msg)
          deserialize_open_standard_mining_channel_success
          msg
  unfolding serialize_open_standard_mining_channel_success
      deserialize_open_standard_mining_channel_success
  open_standard_mining_channel_success_round_trip msg h = RoundTrips-Codes (
      Codes-seq _ _ _ _ _ _ (Codes-u32 _ h.request_id) (
        Codes-seq _ _ _ _ _ _ (Codes-u32 _ h.channel_id) (
          Codes-seq _ _ _ _ _ _ (Codes-u256 _ h.target.0 h.target.1) (
            Codes-seq _ _ _ _ _ _ (Codes-b0_32 _ h.extranonce_prefix.0 h.extranonce_prefix.1)
              (Codes-last _ _ _ _ (Codes-u32 _ h.group_channel_id))))))

  -- The fields fit the wire types that the source's comments give them.
  pub record IsOpenMiningChannelError (msg : OpenMiningChannelError) : Type 0 where
    pub request_id : IsU32 msg.request_id
    pub error_code : IsStr0_255 msg.error_code

  -- Every OpenMiningChannelError whose fields fit their wire types is serialized, and its payload is
  -- deserialized, to the last byte, to the same message.
  pub open_mining_channel_error_round_trip :
      (msg : OpenMiningChannelError)
      → IsOpenMiningChannelError msg
      → RoundTrips
          (serialize_open_mining_channel_error msg)
          deserialize_open_mining_channel_error
          msg
  unfolding serialize_open_mining_channel_error deserialize_open_mining_channel_error
  open_mining_channel_error_round_trip msg h = RoundTrips-Codes (
      Codes-seq _ _ _ _ _ _ (Codes-u32 _ h.request_id)
        (Codes-last _ _ _ _ (Codes-str0_255 _ h.error_code)))

  -- The fields fit the wire types that the source's comments give them.
  pub record IsCloseChannel (msg : CloseChannel) : Type 0 where
    pub channel_id : IsU32 msg.channel_id
    pub reason_code : IsStr0_255 msg.reason_code

  -- Every CloseChannel whose fields fit their wire types is serialized, and its payload is
  -- deserialized, to the last byte, to the same message.
  pub close_channel_round_trip :
      (msg : CloseChannel)
      → IsCloseChannel msg
      → RoundTrips (serialize_close_channel msg) deserialize_close_channel msg
  unfolding serialize_close_channel deserialize_close_channel
  close_channel_round_trip msg h = RoundTrips-Codes (
      Codes-seq _ _ _ _ _ _ (Codes-u32 _ h.channel_id)
        (Codes-last _ _ _ _ (Codes-str0_255 _ h.reason_code)))

  -- The fields fit the wire types that the source's comments give them.
  pub record IsUpdateChannel (msg : UpdateChannel) : Type 0 where
    pub channel_id : IsU32 msg.channel_id
    pub nominal_hash_rate : IsF32 msg.nominal_hash_rate
    pub maximum_target : IsU256 msg.maximum_target

  -- Every UpdateChannel whose fields fit their wire types is serialized, and its payload is
  -- deserialized, to the last byte, to the same message.
  pub update_channel_round_trip :
      (msg : UpdateChannel)
      → IsUpdateChannel msg
      → RoundTrips (serialize_update_channel msg) deserialize_update_channel msg
  unfolding serialize_update_channel deserialize_update_channel
  update_channel_round_trip msg h = RoundTrips-Codes (
      Codes-seq _ _ _ _ _ _ (Codes-u32 _ h.channel_id) (
        Codes-seq _ _ _ _ _ _ (Codes-f32_exact _ h.nominal_hash_rate)
          (Codes-last _ _ _ _ (Codes-u256 _ h.maximum_target.0 h.maximum_target.1))))

  -- The fields fit the wire types that the source's comments give them.
  pub record IsUpdateChannelError (msg : UpdateChannelError) : Type 0 where
    pub channel_id : IsU32 msg.channel_id
    pub error_code : IsStr0_255 msg.error_code

  -- Every UpdateChannelError whose fields fit their wire types is serialized, and its payload is
  -- deserialized, to the last byte, to the same message.
  pub update_channel_error_round_trip :
      (msg : UpdateChannelError)
      → IsUpdateChannelError msg
      → RoundTrips (serialize_update_channel_error msg) deserialize_update_channel_error msg
  unfolding serialize_update_channel_error deserialize_update_channel_error
  update_channel_error_round_trip msg h = RoundTrips-Codes (
      Codes-seq _ _ _ _ _ _ (Codes-u32 _ h.channel_id)
        (Codes-last _ _ _ _ (Codes-str0_255 _ h.error_code)))
