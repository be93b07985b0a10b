-- ===== src/Messages/Setup/RoundTrip.antt =====
-- Round trips of the messages of src/models/sv2/sv2-messages.ts: SetupConnection and its answers, ChannelEndpointChanged and Reconnect.
use lido.Node.{Node}
use lido.Codec.Codes.{
  Codes-seq, Codes-last, Codes-u8, Codes-u16, Codes-u32, Codes-str0_255, IsStr0_255,
}
use lido.Codec.RoundTrip.{RoundTrips, RoundTrips-Codes, IsU8, IsU16, IsU32}
use lido.Messages.Setup.{
  SetupConnection, serialize_setup_connection, deserialize_setup_connection, SetupConnectionSuccess,
  serialize_setup_connection_success, deserialize_setup_connection_success, SetupConnectionError,
  serialize_setup_connection_error, deserialize_setup_connection_error, ChannelEndpointChanged,
  serialize_channel_endpoint_changed, deserialize_channel_endpoint_changed, Reconnect,
  serialize_reconnect, deserialize_reconnect,
}

module _ ⦃node : Node⦄ where
  -- The fields fit the wire types that the source's comments give them.
  pub record IsSetupConnection (msg : SetupConnection) : Type 0 where
    pub protocol : IsU8 msg.protocol
    pub min_version : IsU16 msg.min_version
    pub max_version : IsU16 msg.max_version
    pub flags : IsU32 msg.flags
    pub endpoint_host : IsStr0_255 msg.endpoint_host
    pub endpoint_port : IsU16 msg.endpoint_port
    pub vendor : IsStr0_255 msg.vendor
    pub hardware_version : IsStr0_255 msg.hardware_version
    pub firmware_version : IsStr0_255 msg.firmware_version
    pub device_id : IsStr0_255 msg.device_id

  -- Every SetupConnection whose fields fit their wire types is serialized, and its payload is
  -- deserialized, to the last byte, to the same message.
  pub setup_connection_round_trip :
      (msg : SetupConnection)
      → IsSetupConnection msg
      → RoundTrips (serialize_setup_connection msg) deserialize_setup_connection msg
  unfolding serialize_setup_connection deserialize_setup_connection
  setup_connection_round_trip msg h = RoundTrips-Codes (
      Codes-seq _ _ _ _ _ _ (Codes-u8 _ h.protocol) (
        Codes-seq _ _ _ _ _ _ (Codes-u16 _ h.min_version) (
          Codes-seq _ _ _ _ _ _ (Codes-u16 _ h.max_version) (
            Codes-seq _ _ _ _ _ _ (Codes-u32 _ h.flags) (
              Codes-seq _ _ _ _ _ _ (Codes-str0_255 _ h.endpoint_host) (
                Codes-seq _ _ _ _ _ _ (Codes-u16 _ h.endpoint_port) (
                  Codes-seq _ _ _ _ _ _ (Codes-str0_255 _ h.vendor) (
                    Codes-seq _ _ _ _ _ _ (Codes-str0_255 _ h.hardware_version) (
                      Codes-seq _ _ _ _ _ _ (Codes-str0_255 _ h.firmware_version)
                        (Codes-last _ _ _ _ (Codes-str0_255 _ h.device_id)))))))))))

  -- The fields fit the wire types that the source's comments give them.
  pub record IsSetupConnectionSuccess (msg : SetupConnectionSuccess) : Type 0 where
    pub used_version : IsU16 msg.used_version
    pub flags : IsU32 msg.flags

  -- Every SetupConnectionSuccess whose fields fit their wire types is serialized, and its payload is
  -- deserialized, to the last byte, to the same message.
  pub setup_connection_success_round_trip :
      (msg : SetupConnectionSuccess)
      → IsSetupConnectionSuccess msg
      → RoundTrips (serialize_setup_connection_success msg) deserialize_setup_connection_success msg
  unfolding serialize_setup_connection_success deserialize_setup_connection_success
  setup_connection_success_round_trip msg h = RoundTrips-Codes (
      Codes-seq _ _ _ _ _ _ (Codes-u16 _ h.used_version) (Codes-last _ _ _ _ (Codes-u32 _ h.flags)))

  -- The fields fit the wire types that the source's comments give them.
  pub record IsSetupConnectionError (msg : SetupConnectionError) : Type 0 where
    pub flags : IsU32 msg.flags
    pub error_code : IsStr0_255 msg.error_code

  -- Every SetupConnectionError whose fields fit their wire types is serialized, and its payload is
  -- deserialized, to the last byte, to the same message.
  pub setup_connection_error_round_trip :
      (msg : SetupConnectionError)
      → IsSetupConnectionError msg
      → RoundTrips (serialize_setup_connection_error msg) deserialize_setup_connection_error msg
  unfolding serialize_setup_connection_error deserialize_setup_connection_error
  setup_connection_error_round_trip msg h = RoundTrips-Codes (
      Codes-seq _ _ _ _ _ _ (Codes-u32 _ h.flags)
        (Codes-last _ _ _ _ (Codes-str0_255 _ h.error_code)))

  -- The fields fit the wire types that the source's comments give them.
  pub record IsChannelEndpointChanged (msg : ChannelEndpointChanged) : Type 0 where
    pub channel_id : IsU32 msg.channel_id

  -- Every ChannelEndpointChanged whose fields fit their wire types is serialized, and its payload is
  -- deserialized, to the last byte, to the same message.
  pub channel_endpoint_changed_round_trip :
      (msg : ChannelEndpointChanged)
      → IsChannelEndpointChanged msg
      → RoundTrips (serialize_channel_endpoint_changed msg) deserialize_channel_endpoint_changed msg
  unfolding serialize_channel_endpoint_changed deserialize_channel_endpoint_changed
  channel_endpoint_changed_round_trip msg h =
      RoundTrips-Codes (Codes-last _ _ _ _ (Codes-u32 _ h.channel_id))

  -- The fields fit the wire types that the source's comments give them.
  pub record IsReconnect (msg : Reconnect) : Type 0 where
    pub new_host : IsStr0_255 msg.new_host
    pub new_port : IsU16 msg.new_port

  -- Every Reconnect whose fields fit their wire types is serialized, and its payload is
  -- deserialized, to the last byte, to the same message.
  pub reconnect_round_trip :
      (msg : Reconnect)
      → IsReconnect msg
      → RoundTrips (serialize_reconnect msg) deserialize_reconnect msg
  unfolding serialize_reconnect deserialize_reconnect
  reconnect_round_trip msg h = RoundTrips-Codes (
      Codes-seq _ _ _ _ _ _ (Codes-str0_255 _ h.new_host)
        (Codes-last _ _ _ _ (Codes-u16 _ h.new_port)))
