-- ===== src/Client/Opening.antt =====
-- The opening of channels in src/models/StratumV2Client.ts, and the end of a session:
-- handleOpenStandardMiningChannel, handleOpenExtendedMiningChannel and destroy.
use lido.Base.{
  ℕ, ◌-◌, Bool, true, false, ◌&&◌, ◌||◌, not, Option, none, some, List, [], ◌∷◌, ◌==◌, ltb, max,
  min, if◌then◌else◌, length, Bytes,
}
use lido.Outcome.{Result, ok, err}
use lido.Node.{Node}
use lido.Messages.Channel.{OpenStandardMiningChannel}
use lido.Messages.Extended.{OpenExtendedMiningChannel}
use lido.Extranonce.{Manager, allocate, miner_extranonce_size}
use lido.Client.{Client, Channel, ChannelType, standard, extended, Units, same_key}
use lido.Client.Identity.{parse_user_identity}
use lido.Client.Closing.{Service, get_next_channel_id, release_extranonce_prefix}
use lido.Client.Orders.{
  Sent, open_standard_success, open_extended_success, open_channel_error, unknown_user,
  max_target_out_of_range, min_extranonce_size_too_large, OpenChannelError, JobTemplate, Mining,
  set_key, send_if_any,
}

-- What the handlers use of the language, of bitcoin-address-validation and of the difficulties.
pub record Rules (node : Node) (D : Type 0) : Type 0 where
  -- The code units of a text.
  pub units : node.Text → Units
  -- Whether getAddressInfo returns.
  pub is_valid_address : Units → Bool
  -- Number.isFinite(x) && x > 0
  pub is_positive : node.Float → Bool
  -- resolveChannelDifficulty
  pub resolve_channel_difficulty : node.Float → Bytes → D
  pub same_difficulty : D → D → Bool

unfoldable pub every_zero : Bytes → Bool
every_zero [] = true
every_zero (b ∷ bs) = b == 0 && every_zero bs

unfoldable pub bad_target : Bytes → Bool
bad_target target = not (length target == 32) || every_zero target

-- `this.address != null && this.address !== address`
unfoldable pub has_other_address : Option Units → Units → Bool
has_other_address none address = false
has_other_address (some own) address = not (same_key own address)

abbrev pub with_manager : Service → Manager → Service
with_manager service m = record service { extranonce_manager = m }

-- What a handler leaves: the frames, the client, the service, and whether the socket is closed.
pub record Handled (T D : Type 0) : Type 0 where
  pub sent : List Sent
  pub client : Client T D
  pub service : Service
  pub closed : Bool

unfoldable pub release_all : {A : Type 0} → List (ℕ × A) → Service → Service
release_all [] service = service
release_all ((channel_id, a) ∷ channels) service =
    release_all channels (release_extranonce_prefix channel_id service)

module _ {T D : Type 0} where
  -- destroy, of a client that is not destroyed yet.
  unfoldable pub destroy : Client T D → Service → Client T D × Service
  destroy c service =
      (record c { channels = []; submission_hashes = [] }, release_all c.channels service)

  -- closeSocket behind these frames.
  unfoldable pub close_socket : List Sent → Client T D → Service → Handled T D
  close_socket sent c service =
      let (c', service') = destroy c service in
      record { sent = sent; client = c'; service = service'; closed = true }

  abbrev pub answer : List Sent → Client T D → Service → Handled T D
  answer sent c service = record { sent = sent; client = c; service = service; closed = false }

  -- The number and the prefix; where there is none, the handler throws and its caller closes the socket.
  unfoldable pub take_prefix :
      Client T D
      → Service
      → ℕ
      → (Bytes → Service → Handled T D)
      → Result (Bytes × Manager)
      → Handled T D
  take_prefix c service channel_id build (err x) = close_socket [] c service
  take_prefix c service channel_id build (ok (prefix, m)) = build prefix (with_manager service m)

  unfoldable pub take_number :
      Client T D
      → Service
      → (ℕ → Bytes → Service → Handled T D)
      → Result (ℕ × Service)
      → Handled T D
  take_number c service build (err x) = close_socket [] c service
  take_number c service build (ok (channel_id, service')) =
      take_prefix c service' channel_id (build channel_id)
        (allocate channel_id service'.extranonce_manager)

  unfoldable pub with_number :
      Client T D → Service → (ℕ → Bytes → Service → Handled T D) → Handled T D
  with_number c service build = take_number c service build (get_next_channel_id service)

module _ ⦃node : Node⦄ {R T D : Type 0} (rules : Rules node D) (mining : Mining R T D) where
  abbrev pub sender : node.Text → Units
  sender identity = (parse_user_identity (rules.units identity)).0

  -- The tests before an opening: the error, and whether it closes the socket.
  unfoldable pub refusal : node.Text → Bytes → Client T D → Option (OpenChannelError × Bool)
  refusal identity target c =
      if not (rules.is_valid_address (sender identity))
      then some (unknown_user, true)
      else if has_other_address c.address (sender identity)
      then some (unknown_user, false)
      else if bad_target target
      then some (max_target_out_of_range, false)
      else none

  -- `this.address = address; this.workerName = workerName`
  unfoldable pub identified : node.Text → Client T D → Client T D
  identified identity c =
      let (address, worker_name) = parse_user_identity (rules.units identity) in
      record c { address = some address; worker_name = worker_name }

  -- The channel is registered, the success is sent, and then the latest job.
  unfoldable pub open_with :
      Sent → Option (JobTemplate R) → ℕ → Channel T D → Client T D → Service → Handled T D
  open_with success latest channel_id channel c service =
      let ready = record channel { ready_for_jobs = true } in
      let (frames, c') =
        send_if_any mining latest channel_id ready
          (record c { channels = set_key c.channels channel_id ready }) in
      answer (success ∷ frames) c' service

  abbrev pub new_channel : ChannelType → Bytes → ℕ → D → Bytes → Channel T D
  new_channel channel_type extranonce_prefix extranonce_size session_difficulty max_target =
      record {
        channel_type = channel_type;
        extranonce_prefix = extranonce_prefix;
        extranonce_size = extranonce_size;
        session_difficulty = session_difficulty;
        max_target = max_target;
        ready_for_jobs = false;
        active_tip_key = none;
        jobs = [];
      }

  -- The opening of a standard channel from its number and prefix on.
  unfoldable pub register_standard :
      OpenStandardMiningChannel
      → Option (JobTemplate R)
      → Client T D
      → ℕ
      → Bytes
      → Service
      → Handled T D
  register_standard msg latest c channel_id prefix service =
      let d = rules.resolve_channel_difficulty msg.nominal_hash_rate msg.max_target in
      open_with
        (open_standard_success (record {
          request_id = msg.request_id;
          channel_id = channel_id;
          target = mining.difficulty_to_target d;
          extranonce_prefix = prefix;
          group_channel_id = 0;
        }))
        latest channel_id (new_channel standard prefix 8 d msg.max_target) c service

  -- A refusal by the tests, or what follows them.
  unfoldable pub unless_refused :
      ℕ → Client T D → Service → Handled T D → Option (OpenChannelError × Bool) → Handled T D
  unless_refused request_id c service opened none = opened
  unless_refused request_id c service opened (some (e, true)) =
      close_socket (open_channel_error request_id e ∷ []) c service
  unless_refused request_id c service opened (some (e, false)) =
      answer (open_channel_error request_id e ∷ []) c service

  unfoldable pub handle_open_standard_mining_channel :
      OpenStandardMiningChannel → Option (JobTemplate R) → Client T D → Service → Handled T D
  handle_open_standard_mining_channel msg latest c service =
      let c1 = identified msg.user_identity c in
      unless_refused msg.request_id c service
        (with_number c1 service (register_standard msg latest c1))
        (refusal msg.user_identity msg.max_target c)

  -- The size of the miner's extranonce, and the largest that there is room for.
  unfoldable pub max_miner_extranonce_size : Bytes → Service → ℕ
  max_miner_extranonce_size prefix service =
      service.extranonce_manager.total_extranonce_size - length prefix

  unfoldable pub chosen_extranonce_size : ℕ → Bytes → Service → ℕ
  chosen_extranonce_size min_extranonce_size prefix service =
      max
        (min (miner_extranonce_size service.extranonce_manager)
          (max_miner_extranonce_size prefix service))
        min_extranonce_size

  -- The flag is whether the size is larger than there is room for.
  unfoldable pub place_extended :
      OpenExtendedMiningChannel
      → Option (JobTemplate R)
      → Client T D
      → ℕ
      → Bytes
      → Service
      → Bool
      → Handled T D
  place_extended msg latest c channel_id prefix service true =
      answer (open_channel_error msg.request_id min_extranonce_size_too_large ∷ []) c
        (release_extranonce_prefix channel_id service)
  place_extended msg latest c channel_id prefix service false =
      let size = chosen_extranonce_size msg.min_extranonce_size prefix service in
      let d = rules.resolve_channel_difficulty msg.nominal_hash_rate msg.max_target in
      open_with
        (open_extended_success (record {
          request_id = msg.request_id;
          channel_id = channel_id;
          target = mining.difficulty_to_target d;
          extranonce_size = size;
          extranonce_prefix = prefix;
          group_channel_id = 0;
        }))
        latest channel_id (new_channel extended prefix size d msg.max_target) c service

  unfoldable pub register_extended :
      OpenExtendedMiningChannel
      → Option (JobTemplate R)
      → Client T D
      → ℕ
      → Bytes
      → Service
      → Handled T D
  register_extended msg latest c channel_id prefix service =
      place_extended msg latest c channel_id prefix service (
        ltb (max_miner_extranonce_size prefix service)
          (chosen_extranonce_size msg.min_extranonce_size prefix service))

  unfoldable pub handle_open_extended_mining_channel :
      OpenExtendedMiningChannel → Option (JobTemplate R) → Client T D → Service → Handled T D
  handle_open_extended_mining_channel msg latest c service =
      let c1 = identified msg.user_identity c in
      unless_refused msg.request_id c service
        (with_number c1 service (register_extended msg latest c1))
        (refusal msg.user_identity msg.max_target c)
