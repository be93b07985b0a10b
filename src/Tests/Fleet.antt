-- ===== src/Tests/Fleet.antt =====
-- Sessions of src/models/StratumV2Client.ts: runs of the handlers that open channels and send jobs.
use lido.Base.{
  ℕ, ◌≤◌, ◌≡◌, refl, true, false, none, some, [], ◌∷◌, ltb, ◌==◌, arith, length, replicate,
}
use lido.Outcome.{ok}
use lido.Messages.Channel.{OpenStandardMiningChannel}
use lido.Messages.Extended.{OpenExtendedMiningChannel}
use lido.Extranonce.{
  allocate, claim, get, has, search_prefix, record_prefix, prefix_to_buffer, be_bytes,
  miner_extranonce_size,
}
use lido.Client.{
  Client, Channel, lookup, accepted, remember_submission, standard_key, submit_shares_standard,
  allocate_job_id, trim_channel_jobs, max_channel_jobs,
}
use lido.Client.Closing.{get_next_channel_id, release_extranonce_prefix}
use lido.Client.Orders.{
  JobTemplate, Mining, set_key, same_tip, tip_key, sends_prev_hash, channel_job, with_job,
  send_jobs_for_channel, send_if_any,
}
use lido.Client.Opening.{
  Rules, every_zero, bad_target, has_other_address, take_prefix, take_number, with_number, refusal,
  identified, open_with, register_standard, unless_refused, handle_open_standard_mining_channel,
  max_miner_extranonce_size, chosen_extranonce_size, place_extended, register_extended,
  handle_open_extended_mining_channel,
}
use lido.Client.Identity.{
  index_of_dot, or_default, default_worker, split_identity, parse_user_identity,
  parse_user_identity_lem,
}
use lido.Extranonce.Namespace.{is_space, trim, trim_start, trim_end}
use lido.Client.Delivery.{job_delivered}
use lido.Client.Replay.{share_again_after_job}
use lido.Client.Fleet.{prefix_of}
use lido.Client.Fleet.Reach.{
  Fleet, put_handled, opens_standard, opens_extended, Reachable, starts, goes_on, IsFleet,
  Reachable-IsFleet, prefixes_apart,
}
use lido.Tests.Setting.{bytes_node}
use lido.Tests.Shares.{
  hashing, client, channel, service, service-IsManager, share, after_share, standard_run,
}

abbrev toy_rules : Rules bytes_node ℕ
toy_rules = record {
  units = λ t. t;
  is_valid_address = λ a. ltb 0 (length a);
  is_positive = λ x. ltb 0 x;
  resolve_channel_difficulty = λ x target. 1;
  same_difficulty = λ d e. d == e;
}

abbrev toy_mining : Mining ℕ ℕ ℕ
toy_mining = record {
  new_mining_job = λ address t. t.height;
  build_coinbase_merkle_root = λ job prefix. replicate 32 job;
  get_coinbase_prefix_buffer = λ job. [];
  get_coinbase_suffix_buffer = λ job. [];
  get_merkle_branch_buffers = λ job. [];
  difficulty_to_target = λ d. replicate 32 2;
}

abbrev template : JobTemplate ℕ
template = record {
  rest = 0;
  height = 800;
  prev_hash = replicate 32 9;
  timestamp = 1700000000;
  version = 0x20000000;
  bits = 0x1700ffff;
  clear_jobs = false;
}

parse_user_identity_lem_example :
    (parse_user_identity (32 ∷ 98 ∷ 99 ∷ 49 ∷ 46 ∷ 114 ∷ 46 ∷ 9 ∷ 32 ∷ [])
      ≡ (98 ∷ 99 ∷ 49 ∷ [], 114 ∷ 46 ∷ []))
    × (parse_user_identity (32 ∷ 98 ∷ 99 ∷ 49 ∷ 9 ∷ 32 ∷ []) ≡ (98 ∷ 99 ∷ 49 ∷ [], default_worker))
    × (parse_user_identity (32 ∷ 46 ∷ 114 ∷ 46 ∷ 9 ∷ 32 ∷ [])
        ≡ (46 ∷ 114 ∷ 46 ∷ [], default_worker))
unfolding or_default is_space trim_end
parse_user_identity_lem_example =
    parse_user_identity_lem (32 ∷ []) (9 ∷ 32 ∷ []) 98 (99 ∷ 49 ∷ []) (114 ∷ 46 ∷ []) (refl, tt)
      (refl, (refl, tt))
      (
        (λ e. absurd (omega (arith, e))),
        ((λ e. absurd (omega (arith, e))), ((λ e. absurd (omega (arith, e))), tt)),
      )
      refl refl refl

job_delivered_example :
    let c' = (send_jobs_for_channel toy_mining 7 channel template client).1 in
    (channel' : Channel ℕ ℕ) × (lookup c'.channels 7 ≡ some channel')
    × (lookup channel'.jobs 6 ≡ some (channel_job toy_mining channel template 800))
    × (length channel'.jobs ≤ max_channel_jobs)
    × (same_tip channel'.active_tip_key (tip_key template) ≡ true)
job_delivered_example = job_delivered toy_mining 7 channel template client (omega arith)

-- Channel 8 gets its first job, and the share of channel 7 counts again.
share_again_after_job_example :
    let d = (send_jobs_for_channel toy_mining 8 channel template after_share).1 in
    submit_shares_standard hashing share d
    ≡ ok (accepted false, remember_submission (standard_key share) d)
share_again_after_job_example =
    share_again_after_job toy_mining hashing share client after_share false 8 channel template
      standard_run (omega arith) first_prev_hash
  where
    first_prev_hash : sends_prev_hash toy_mining channel template ≡ true
    first_prev_hash = unfold sends_prev_hash same_tip in refl

abbrev nobody : Client ℕ ℕ
nobody = record {
  address = none;
  worker_name = [];
  last_sent_mining_job_timestamp = none;
  next_job_id = 1;
  channels = [];
  submission_hashes = [];
}

abbrev at_first : Fleet ℕ ℕ
at_first = record { clients = λ i. nobody; service = service }

abbrev standard_request : OpenStandardMiningChannel ⦃node = bytes_node⦄
standard_request = record {
  request_id = 1;
  user_identity = 98 ∷ 99 ∷ 49 ∷ [];
  nominal_hash_rate = 5;
  max_target = replicate 32 255;
}

abbrev extended_request : OpenExtendedMiningChannel ⦃node = bytes_node⦄
extended_request = record {
  request_id = 2;
  user_identity = 98 ∷ 99 ∷ 50 ∷ [];
  nominal_hash_rate = 5;
  max_target = replicate 32 255;
  min_extranonce_size = 6;
}

abbrev then_standard : Fleet ℕ ℕ
then_standard = put_handled at_first 0 (
    handle_open_standard_mining_channel ⦃node = bytes_node⦄ toy_rules toy_mining standard_request
      (some template) nobody service)

abbrev then_extended : Fleet ℕ ℕ
then_extended = put_handled then_standard 1 (
    handle_open_extended_mining_channel ⦃node = bytes_node⦄ toy_rules toy_mining extended_request
      (some template) (then_standard.clients 1) then_standard.service)

then_extended-Reachable : Reachable ⦃node = bytes_node⦄ toy_rules toy_mining hashing then_extended
then_extended-Reachable =
    goes_on
      (goes_on (starts at_first (λ i. refl) service-IsManager)
        (opens_standard at_first 0 standard_request (some template)))
      (opens_extended then_standard 1 extended_request (some template))

second_prefix : prefix_of (then_extended.clients 1) 10 ≡ some (0 ∷ 0 ∷ 0 ∷ 2 ∷ [])
unfolding handle_open_standard_mining_channel handle_open_extended_mining_channel refusal
    unless_refused identified parse_user_identity trim trim_start trim_end is_space split_identity
    index_of_dot or_default has_other_address bad_target every_zero with_number take_number
    take_prefix get_next_channel_id allocate claim get has search_prefix record_prefix
    prefix_to_buffer be_bytes register_standard register_extended place_extended
    max_miner_extranonce_size chosen_extranonce_size miner_extranonce_size release_extranonce_prefix
    open_with send_if_any send_jobs_for_channel allocate_job_id with_job trim_channel_jobs set_key
    lookup
second_prefix = refl

abbrev session : ℕ
session = 1

abbrev number : ℕ
number = 10

prefixes_apart_example : (session ≡ session) × (number ≡ number)
prefixes_apart_example =
    prefixes_apart ⦃node = bytes_node⦄ toy_rules toy_mining hashing then_extended 1 1 10 10
      (0 ∷ 0 ∷ 0 ∷ 2 ∷ []) then_extended-Reachable second_prefix second_prefix

Reachable-IsFleet_example : IsFleet ⦃node = bytes_node⦄ toy_rules toy_mining hashing then_extended
Reachable-IsFleet_example =
    Reachable-IsFleet ⦃node = bytes_node⦄ toy_rules toy_mining hashing then_extended
      then_extended-Reachable
