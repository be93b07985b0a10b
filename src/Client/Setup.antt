-- ===== src/Client/Setup.antt =====
-- handleSetupConnection of src/models/StratumV2Client.ts, behind the user agent that it stores for
-- notifications: the answer to a SetupConnection.
use Prim.Native.Nat.{bit_and}
use lido.Base.{ℕ, ◌+◌, ◌-◌, ◌^◌, ◌≤◌, ◌≡◌, ◌↔◌, ◌||◌, not, ltb, ◌==◌, if◌then◌else◌, arith}
use lido.Node.{Node}
use lido.Messages.Setup.{SetupConnection}

-- Sv2SetupErrorCode.
pub data SetupErrorCode : Type 0 where
  unsupported_protocol protocol_version_mismatch unsupported_feature_flags : SetupErrorCode

-- SetupConnectionError, after which the socket is closed, or SetupConnectionSuccess.
pub data SetupAnswer : Type 0 where
  setup_error : ℕ → SetupErrorCode → SetupAnswer
  setup_success : ℕ → ℕ → SetupAnswer

-- Sv2Protocol.MINING and Sv2MiningSetupFlags.
abbrev pub mining : ℕ
mining = 0

abbrev pub requires_standard_jobs : ℕ
requires_standard_jobs = 1

abbrev pub requires_work_selection : ℕ
requires_work_selection = 2

abbrev pub requires_version_rolling : ℕ
requires_version_rolling = 4

-- `flags & ~supportedFlags` on 32 bits.
abbrev pub unsupported_flags : ℕ → ℕ
unsupported_flags flags =
    bit_and flags (2 ^ 32 - 1 - (requires_standard_jobs + requires_version_rolling))

module _ ⦃node : Node⦄ where
  unfoldable pub answer_setup_connection : SetupConnection → SetupAnswer
  answer_setup_connection message =
      if not (message.protocol == mining)
      then setup_error 0 unsupported_protocol
      else if ltb 2 message.min_version || ltb message.max_version 2
      then setup_error 0 protocol_version_mismatch
      else if not (bit_and message.flags requires_work_selection == 0)
      then setup_error requires_work_selection unsupported_feature_flags
      else if not (unsupported_flags message.flags == 0)
      then setup_error (unsupported_flags message.flags) unsupported_feature_flags
      else setup_success 2 0

  -- A SetupConnection succeeds exactly when it asks for the mining protocol, its versions include 2
  -- and none of its flags is other than standard jobs and version rolling.
  pub setup_succeeds_iff :
      (message : SetupConnection)
      → (answer_setup_connection message ≡ setup_success 2 0) ↔ (
          (message.protocol ≡ 0)
          × (message.min_version ≤ 2)
          × (2 ≤ message.max_version)
          × (bit_and message.flags requires_work_selection ≡ 0)
          × (unsupported_flags message.flags ≡ 0))
  unfolding answer_setup_connection
  setup_succeeds_iff message = ground arith
