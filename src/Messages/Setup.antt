-- ===== src/Messages/Setup.antt =====
-- src/models/sv2/sv2-messages.ts: SetupConnection and its answers, ChannelEndpointChanged and Reconnect.
-- Field for field as the source lists them.
pub mod RoundTrip
use lido.Base.{ℕ, Bytes}
use lido.Outcome.{M, Result, pure, ◌>>=◌, ◌>>◌}
use lido.Node.{Node}
use lido.Codec.Read.{Reader, read_str0_255, read_u16, read_u32, read_u8}
use lido.Codec.Write.{serialized, write_str0_255, write_u16, write_u32, write_u8}

pub record SetupConnectionSuccess : Type 0 where
  pub used_version : ℕ
  pub flags : ℕ

unfoldable pub deserialize_setup_connection_success : M Reader SetupConnectionSuccess
deserialize_setup_connection_success = do
  used_version ← read_u16
  flags ← read_u32
  pure (record { used_version = used_version; flags = flags })

pub record ChannelEndpointChanged : Type 0 where
  pub channel_id : ℕ

unfoldable pub deserialize_channel_endpoint_changed : M Reader ChannelEndpointChanged
deserialize_channel_endpoint_changed = do
  channel_id ← read_u32
  pure (record { channel_id = channel_id })

module _ ⦃node : Node⦄ where
  open node use {Text}

  pub record SetupConnection : Type 0 where
    pub protocol : ℕ
    pub min_version : ℕ
    pub max_version : ℕ
    pub flags : ℕ
    pub endpoint_host : Text
    pub endpoint_port : ℕ
    pub vendor : Text
    pub hardware_version : Text
    pub firmware_version : Text
    pub device_id : Text

  unfoldable pub deserialize_setup_connection : M Reader SetupConnection
  deserialize_setup_connection = do
    protocol ← read_u8
    min_version ← read_u16
    max_version ← read_u16
    flags ← read_u32
    endpoint_host ← read_str0_255
    endpoint_port ← read_u16
    vendor ← read_str0_255
    hardware_version ← read_str0_255
    firmware_version ← read_str0_255
    device_id ← read_str0_255
    pure (record {
      protocol = protocol;
      min_version = min_version;
      max_version = max_version;
      flags = flags;
      endpoint_host = endpoint_host;
      endpoint_port = endpoint_port;
      vendor = vendor;
      hardware_version = hardware_version;
      firmware_version = firmware_version;
      device_id = device_id;
    })

  unfoldable pub serialize_setup_connection : SetupConnection → Result Bytes
  serialize_setup_connection msg = serialized do
    write_u8 msg.protocol
    write_u16 msg.min_version
    write_u16 msg.max_version
    write_u32 msg.flags
    write_str0_255 msg.endpoint_host
    write_u16 msg.endpoint_port
    write_str0_255 msg.vendor
    write_str0_255 msg.hardware_version
    write_str0_255 msg.firmware_version
    write_str0_255 msg.device_id

  unfoldable pub serialize_setup_connection_success : SetupConnectionSuccess → Result Bytes
  serialize_setup_connection_success msg =
      serialized do write_u16 msg.used_version; write_u32 msg.flags

  pub record SetupConnectionError : Type 0 where
    pub flags : ℕ
    pub error_code : Text

  unfoldable pub deserialize_setup_connection_error : M Reader SetupConnectionError
  deserialize_setup_connection_error = do
    flags ← read_u32
    error_code ← read_str0_255
    pure (record { flags = flags; error_code = error_code })

  unfoldable pub serialize_setup_connection_error : SetupConnectionError → Result Bytes
  serialize_setup_connection_error msg =
      serialized do write_u32 msg.flags; write_str0_255 msg.error_code

  unfoldable pub serialize_channel_endpoint_changed : ChannelEndpointChanged → Result Bytes
  serialize_channel_endpoint_changed msg = serialized do write_u32 msg.channel_id

  pub record Reconnect : Type 0 where
    pub new_host : Text
    pub new_port : ℕ

  unfoldable pub deserialize_reconnect : M Reader Reconnect
  deserialize_reconnect = do
    new_host ← read_str0_255
    new_port ← read_u16
    pure (record { new_host = new_host; new_port = new_port })

  unfoldable pub serialize_reconnect : Reconnect → Result Bytes
  serialize_reconnect msg = serialized do write_str0_255 msg.new_host; write_u16 msg.new_port
