-- ===== src/Client/Dispatch.antt =====
-- Sv2MsgType of src/models/sv2/sv2-constants.ts, and handleFrame of src/models/StratumV2Client.ts.
use Prim.Native.Nat.{bit_and}
use lido.Base.{ℕ, ◌-◌, ◌^◌, ◌≡◌, ◌≢◌, ◌↔◌, Bool, ◌&&◌, List, [], ◌∷◌, ◌==◌, if◌then◌else◌, arith}
use lido.Frame.{channel_msg_flag}
use lido.Messages.Extensions.{RequestExtensions, RequestExtensionsSuccess}

pub data MsgType : Type 0 where
  setup_connection : MsgType
  setup_connection_success : MsgType
  setup_connection_error : MsgType
  channel_endpoint_changed : MsgType
  open_standard_mining_channel : MsgType
  open_standard_mining_channel_success : MsgType
  open_standard_mining_channel_error : MsgType
  close_channel : MsgType
  submit_shares_standard : MsgType
  submit_shares_success : MsgType
  submit_shares_error : MsgType
  open_extended_mining_channel : MsgType
  open_extended_mining_channel_success : MsgType
  set_extranonce_prefix : MsgType
  set_group_channel : MsgType
  submit_shares_extended : MsgType
  new_mining_job : MsgType
  new_extended_mining_job : MsgType
  set_new_prev_hash : MsgType
  set_target : MsgType
  update_channel : MsgType
  update_channel_error : MsgType
  set_custom_mining_job : MsgType
  set_custom_mining_job_success : MsgType
  set_custom_mining_job_error : MsgType
  reconnect : MsgType
  jdp_allocate_mining_job_token : MsgType
  jdp_allocate_mining_job_token_success : MsgType
  jdp_provide_missing_transactions : MsgType
  jdp_provide_missing_transactions_success : MsgType
  jdp_declare_mining_job : MsgType
  jdp_declare_mining_job_success : MsgType
  jdp_declare_mining_job_error : MsgType
  jdp_push_solution : MsgType
  tdp_coinbase_output_constraints : MsgType
  tdp_new_template : MsgType
  tdp_set_new_prev_hash : MsgType
  tdp_request_transaction_data : MsgType
  tdp_request_transaction_data_success : MsgType
  tdp_request_transaction_data_error : MsgType
  tdp_submit_solution : MsgType

unfoldable pub msg_type_code : MsgType → ℕ
msg_type_code setup_connection = 0x00
msg_type_code setup_connection_success = 0x01
msg_type_code setup_connection_error = 0x02
msg_type_code channel_endpoint_changed = 0x03
msg_type_code open_standard_mining_channel = 0x10
msg_type_code open_standard_mining_channel_success = 0x11
msg_type_code open_standard_mining_channel_error = 0x12
msg_type_code close_channel = 0x18
msg_type_code submit_shares_standard = 0x1a
msg_type_code submit_shares_success = 0x1c
msg_type_code submit_shares_error = 0x1d
msg_type_code open_extended_mining_channel = 0x13
msg_type_code open_extended_mining_channel_success = 0x14
msg_type_code set_extranonce_prefix = 0x19
msg_type_code set_group_channel = 0x25
msg_type_code submit_shares_extended = 0x1b
msg_type_code new_mining_job = 0x15
msg_type_code new_extended_mining_job = 0x1f
msg_type_code set_new_prev_hash = 0x20
msg_type_code set_target = 0x21
msg_type_code update_channel = 0x16
msg_type_code update_channel_error = 0x17
msg_type_code set_custom_mining_job = 0x22
msg_type_code set_custom_mining_job_success = 0x23
msg_type_code set_custom_mining_job_error = 0x24
msg_type_code reconnect = 0x04
msg_type_code jdp_allocate_mining_job_token = 0x50
msg_type_code jdp_allocate_mining_job_token_success = 0x51
msg_type_code jdp_provide_missing_transactions = 0x55
msg_type_code jdp_provide_missing_transactions_success = 0x56
msg_type_code jdp_declare_mining_job = 0x57
msg_type_code jdp_declare_mining_job_success = 0x58
msg_type_code jdp_declare_mining_job_error = 0x59
msg_type_code jdp_push_solution = 0x60
msg_type_code tdp_coinbase_output_constraints = 0x70
msg_type_code tdp_new_template = 0x71
msg_type_code tdp_set_new_prev_hash = 0x72
msg_type_code tdp_request_transaction_data = 0x73
msg_type_code tdp_request_transaction_data_success = 0x74
msg_type_code tdp_request_transaction_data_error = 0x75
msg_type_code tdp_submit_solution = 0x76

-- The handlers that handleFrame calls, or that it ignores the message.
pub data Handler : Type 0 where
  handles_request_extensions : Handler
  handles : MsgType → Handler
  ignores : Handler

-- The cases of the switch, in its order.
abbrev pub handled_types : List MsgType
handled_types =
    setup_connection ∷ open_standard_mining_channel ∷ open_extended_mining_channel
    ∷ submit_shares_standard ∷ submit_shares_extended ∷ update_channel ∷ close_channel ∷ []

unfoldable pub select : List MsgType → ℕ → Handler
select [] msg_type = ignores
select (t ∷ ts) msg_type = if msg_type == msg_type_code t then handles t else select ts msg_type

-- `(extensionType & ~SV2_CHANNEL_MSG_FLAG) === 0x0001 && msgType === 0x00`
unfoldable pub is_negotiation : ℕ → ℕ → Bool
is_negotiation msg_type extension_type =
    bit_and extension_type (2 ^ 32 - 1 - channel_msg_flag) == 0x0001 && msg_type == 0x00

unfoldable pub handle_frame : ℕ → ℕ → Handler
handle_frame msg_type extension_type =
    if is_negotiation msg_type extension_type
    then handles_request_extensions
    else select handled_types msg_type

-- The answer to RequestExtensions: no extension is supported.
unfoldable pub answer_request_extensions : RequestExtensions → RequestExtensionsSuccess
answer_request_extensions request = record {
  request_id = request.request_id;
  supported_extensions = [];
}

-- A frame goes to the handler of SetupConnection exactly when its message type is 0 and, the channel
-- flag aside, its extension type is not 1, which would make it a RequestExtensions.
pub handle_frame_iff :
    (msg_type extension_type : ℕ)
    → (handle_frame msg_type extension_type ≡ handles setup_connection)
      ↔ ((msg_type ≡ 0) × (bit_and extension_type (2 ^ 32 - 1 - channel_msg_flag) ≢ 1))
unfolding handle_frame select is_negotiation msg_type_code
handle_frame_iff m e = ground arith
