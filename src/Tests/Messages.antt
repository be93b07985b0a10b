-- ===== src/Tests/Messages.antt =====
-- Messages of src/models/sv2/sv2-messages.ts and sv2-extended-messages.ts.
use lido.Base.{refl, some, true, [], ◌∷◌, arith, replicate}
use lido.Codec.Codes.{IsStr0_255}
use lido.Codec.RoundTrip.{RoundTrips, IsU256, IsB0_32, IsB0_64K}
use lido.Tests.Setting.{bytes_node}
use lido.Messages.Setup.{SetupConnection}
use lido.Messages.Setup.RoundTrip.{IsSetupConnection}
use lido.Messages.Channel.{
  OpenStandardMiningChannel, serialize_open_standard_mining_channel,
  deserialize_open_standard_mining_channel, OpenStandardMiningChannelSuccess,
  serialize_open_standard_mining_channel_success, deserialize_open_standard_mining_channel_success,
}
use lido.Messages.Channel.RoundTrip.{
  IsOpenStandardMiningChannel, open_standard_mining_channel_round_trip,
  IsOpenStandardMiningChannelSuccess, open_standard_mining_channel_success_round_trip,
}
use lido.Messages.Work.{
  NewMiningJob, serialize_new_mining_job, deserialize_new_mining_job, SetNewPrevHash,
  serialize_set_new_prev_hash, deserialize_set_new_prev_hash, SubmitSharesStandard,
  serialize_submit_shares_standard, deserialize_submit_shares_standard, SubmitSharesSuccess,
  serialize_submit_shares_success, deserialize_submit_shares_success,
}
use lido.Messages.Work.RoundTrip.{
  IsNewMiningJob, new_mining_job_round_trip, IsSetNewPrevHash, set_new_prev_hash_round_trip,
  IsSubmitSharesStandard, submit_shares_standard_round_trip, IsSubmitSharesSuccess,
  submit_shares_success_round_trip,
}
use lido.Messages.Extended.{
  OpenExtendedMiningChannel, serialize_open_extended_mining_channel,
  deserialize_open_extended_mining_channel, OpenExtendedMiningChannelSuccess,
  serialize_open_extended_mining_channel_success, deserialize_open_extended_mining_channel_success,
  NewExtendedMiningJob, SubmitSharesExtended, SetGroupChannel, serialize_set_group_channel,
  deserialize_set_group_channel,
}
use lido.Messages.Extended.RoundTrip.{
  IsOpenExtendedMiningChannel, open_extended_mining_channel_round_trip,
  IsOpenExtendedMiningChannelSuccess, open_extended_mining_channel_success_round_trip,
  IsNewExtendedMiningJob, IsSubmitSharesExtended, IsSetGroupChannel, set_group_channel_round_trip,
}

ab-IsStr : IsStr0_255 ⦃node = bytes_node⦄ (97 ∷ 98 ∷ [])
ab-IsStr = record { well_formed = refl; short = omega arith }

word-IsU256 : IsU256 (replicate 32 7)
word-IsU256 = ground arith

prefix-IsB0_32 : IsB0_32 (1 ∷ 2 ∷ [])
prefix-IsB0_32 = ((omega arith, (omega arith, tt)), omega arith)

script-IsB0_64K : IsB0_64K (replicate 40 9)
script-IsB0_64K = ground arith

abbrev setup_connection : SetupConnection ⦃node = bytes_node⦄
setup_connection = record {
  protocol = 1;
  min_version = 2;
  max_version = 2;
  flags = 3;
  endpoint_host = 97 ∷ 98 ∷ [];
  endpoint_port = 2;
  vendor = 97 ∷ 98 ∷ [];
  hardware_version = 97 ∷ 98 ∷ [];
  firmware_version = 97 ∷ 98 ∷ [];
  device_id = 97 ∷ 98 ∷ [];
}

setup_connection-Is : IsSetupConnection ⦃node = bytes_node⦄ setup_connection
setup_connection-Is = record {
  protocol = omega arith;
  min_version = omega arith;
  max_version = omega arith;
  flags = omega arith;
  endpoint_host = ab-IsStr;
  endpoint_port = omega arith;
  vendor = ab-IsStr;
  hardware_version = ab-IsStr;
  firmware_version = ab-IsStr;
  device_id = ab-IsStr;
}

abbrev open_standard_mining_channel : OpenStandardMiningChannel ⦃node = bytes_node⦄
open_standard_mining_channel = record {
  request_id = 3;
  user_identity = 97 ∷ 98 ∷ [];
  nominal_hash_rate = 0x50000000;
  max_target = replicate 32 7;
}

open_standard_mining_channel-Is :
    IsOpenStandardMiningChannel ⦃node = bytes_node⦄ open_standard_mining_channel
open_standard_mining_channel-Is = record {
  request_id = omega arith;
  user_identity = ab-IsStr;
  nominal_hash_rate = refl;
  max_target = word-IsU256;
}

open_standard_mining_channel_round_trip_example :
    RoundTrips
      (serialize_open_standard_mining_channel ⦃node = bytes_node⦄ open_standard_mining_channel)
      (deserialize_open_standard_mining_channel ⦃node = bytes_node⦄)
      open_standard_mining_channel
open_standard_mining_channel_round_trip_example =
    open_standard_mining_channel_round_trip ⦃node = bytes_node⦄ open_standard_mining_channel
      open_standard_mining_channel-Is

abbrev open_standard_mining_channel_success : OpenStandardMiningChannelSuccess
open_standard_mining_channel_success = record {
  request_id = 3;
  channel_id = 3;
  target = replicate 32 7;
  extranonce_prefix = 1 ∷ 2 ∷ [];
  group_channel_id = 3;
}

open_standard_mining_channel_success-Is :
    IsOpenStandardMiningChannelSuccess ⦃node = bytes_node⦄ open_standard_mining_channel_success
open_standard_mining_channel_success-Is = record {
  request_id = omega arith;
  channel_id = omega arith;
  target = word-IsU256;
  extranonce_prefix = prefix-IsB0_32;
  group_channel_id = omega arith;
}

open_standard_mining_channel_success_round_trip_example :
    RoundTrips
      (serialize_open_standard_mining_channel_success ⦃node = bytes_node⦄
        open_standard_mining_channel_success)
      deserialize_open_standard_mining_channel_success
      open_standard_mining_channel_success
open_standard_mining_channel_success_round_trip_example =
    open_standard_mining_channel_success_round_trip ⦃node = bytes_node⦄
      open_standard_mining_channel_success open_standard_mining_channel_success-Is

abbrev new_mining_job : NewMiningJob
new_mining_job = record {
  channel_id = 3;
  job_id = 3;
  min_ntime = some 5;
  version = 3;
  merkle_root = replicate 32 7;
}

new_mining_job-Is : IsNewMiningJob ⦃node = bytes_node⦄ new_mining_job
new_mining_job-Is = record {
  channel_id = omega arith;
  job_id = omega arith;
  min_ntime = omega arith;
  version = omega arith;
  merkle_root = word-IsU256;
}

new_mining_job_round_trip_example :
    RoundTrips
      (serialize_new_mining_job ⦃node = bytes_node⦄ new_mining_job)
      deserialize_new_mining_job
      new_mining_job
new_mining_job_round_trip_example =
    new_mining_job_round_trip ⦃node = bytes_node⦄ new_mining_job new_mining_job-Is

abbrev set_new_prev_hash : SetNewPrevHash
set_new_prev_hash = record {
  channel_id = 3;
  job_id = 3;
  prev_hash = replicate 32 7;
  min_ntime = 3;
  n_bits = 3;
}

set_new_prev_hash-Is : IsSetNewPrevHash ⦃node = bytes_node⦄ set_new_prev_hash
set_new_prev_hash-Is = record {
  channel_id = omega arith;
  job_id = omega arith;
  prev_hash = word-IsU256;
  min_ntime = omega arith;
  n_bits = omega arith;
}

set_new_prev_hash_round_trip_example :
    RoundTrips
      (serialize_set_new_prev_hash ⦃node = bytes_node⦄ set_new_prev_hash)
      deserialize_set_new_prev_hash
      set_new_prev_hash
set_new_prev_hash_round_trip_example =
    set_new_prev_hash_round_trip ⦃node = bytes_node⦄ set_new_prev_hash set_new_prev_hash-Is

abbrev submit_shares_standard : SubmitSharesStandard
submit_shares_standard = record {
  channel_id = 3;
  sequence_number = 3;
  job_id = 3;
  nonce = 3;
  ntime = 3;
  version = 3;
}

submit_shares_standard-Is : IsSubmitSharesStandard ⦃node = bytes_node⦄ submit_shares_standard
submit_shares_standard-Is = record {
  channel_id = omega arith;
  sequence_number = omega arith;
  job_id = omega arith;
  nonce = omega arith;
  ntime = omega arith;
  version = omega arith;
}

submit_shares_standard_round_trip_example :
    RoundTrips
      (serialize_submit_shares_standard ⦃node = bytes_node⦄ submit_shares_standard)
      deserialize_submit_shares_standard
      submit_shares_standard
submit_shares_standard_round_trip_example =
    submit_shares_standard_round_trip ⦃node = bytes_node⦄ submit_shares_standard
      submit_shares_standard-Is

abbrev submit_shares_success : SubmitSharesSuccess
submit_shares_success = record {
  channel_id = 3;
  last_sequence_number = 3;
  new_submits_accepted_count = 3;
  new_shares_sum = 4;
}

submit_shares_success-Is : IsSubmitSharesSuccess ⦃node = bytes_node⦄ submit_shares_success
submit_shares_success-Is = record {
  channel_id = omega arith;
  last_sequence_number = omega arith;
  new_submits_accepted_count = omega arith;
  new_shares_sum = omega arith;
}

submit_shares_success_round_trip_example :
    RoundTrips
      (serialize_submit_shares_success ⦃node = bytes_node⦄ submit_shares_success)
      deserialize_submit_shares_success
      submit_shares_success
submit_shares_success_round_trip_example =
    submit_shares_success_round_trip ⦃node = bytes_node⦄ submit_shares_success
      submit_shares_success-Is

abbrev open_extended_mining_channel : OpenExtendedMiningChannel ⦃node = bytes_node⦄
open_extended_mining_channel = record {
  request_id = 3;
  user_identity = 97 ∷ 98 ∷ [];
  nominal_hash_rate = 0x50000000;
  max_target = replicate 32 7;
  min_extranonce_size = 2;
}

open_extended_mining_channel-Is :
    IsOpenExtendedMiningChannel ⦃node = bytes_node⦄ open_extended_mining_channel
open_extended_mining_channel-Is = record {
  request_id = omega arith;
  user_identity = ab-IsStr;
  nominal_hash_rate = refl;
  max_target = word-IsU256;
  min_extranonce_size = omega arith;
}

open_extended_mining_channel_round_trip_example :
    RoundTrips
      (serialize_open_extended_mining_channel ⦃node = bytes_node⦄ open_extended_mining_channel)
      (deserialize_open_extended_mining_channel ⦃node = bytes_node⦄)
      open_extended_mining_channel
open_extended_mining_channel_round_trip_example =
    open_extended_mining_channel_round_trip ⦃node = bytes_node⦄ open_extended_mining_channel
      open_extended_mining_channel-Is

abbrev open_extended_mining_channel_success : OpenExtendedMiningChannelSuccess
open_extended_mining_channel_success = record {
  request_id = 3;
  channel_id = 3;
  target = replicate 32 7;
  extranonce_size = 2;
  extranonce_prefix = 1 ∷ 2 ∷ [];
  group_channel_id = 3;
}

open_extended_mining_channel_success-Is :
    IsOpenExtendedMiningChannelSuccess ⦃node = bytes_node⦄ open_extended_mining_channel_success
open_extended_mining_channel_success-Is = record {
  request_id = omega arith;
  channel_id = omega arith;
  target = word-IsU256;
  extranonce_size = omega arith;
  extranonce_prefix = prefix-IsB0_32;
  group_channel_id = omega arith;
}

open_extended_mining_channel_success_round_trip_example :
    RoundTrips
      (serialize_open_extended_mining_channel_success ⦃node = bytes_node⦄
        open_extended_mining_channel_success)
      deserialize_open_extended_mining_channel_success
      open_extended_mining_channel_success
open_extended_mining_channel_success_round_trip_example =
    open_extended_mining_channel_success_round_trip ⦃node = bytes_node⦄
      open_extended_mining_channel_success open_extended_mining_channel_success-Is

abbrev new_extended_mining_job : NewExtendedMiningJob
new_extended_mining_job = record {
  channel_id = 3;
  job_id = 3;
  min_ntime = some 5;
  version = 3;
  version_rolling_allowed = true;
  merkle_path = replicate 32 7 ∷ [];
  coinbase_prefix = replicate 40 9;
  coinbase_suffix = replicate 40 9;
}

new_extended_mining_job-Is : IsNewExtendedMiningJob ⦃node = bytes_node⦄ new_extended_mining_job
new_extended_mining_job-Is = record {
  channel_id = omega arith;
  job_id = omega arith;
  min_ntime = omega arith;
  version = omega arith;
  merkle_path = ((word-IsU256, tt), omega arith);
  coinbase_prefix = script-IsB0_64K;
  coinbase_suffix = script-IsB0_64K;
}

abbrev submit_shares_extended : SubmitSharesExtended
submit_shares_extended = record {
  channel_id = 3;
  sequence_number = 3;
  job_id = 3;
  nonce = 3;
  ntime = 3;
  version = 3;
  extranonce = 1 ∷ 2 ∷ [];
}

submit_shares_extended-Is : IsSubmitSharesExtended ⦃node = bytes_node⦄ submit_shares_extended
submit_shares_extended-Is = record {
  channel_id = omega arith;
  sequence_number = omega arith;
  job_id = omega arith;
  nonce = omega arith;
  ntime = omega arith;
  version = omega arith;
  extranonce = prefix-IsB0_32;
}

abbrev set_group_channel : SetGroupChannel
set_group_channel = record { group_channel_id = 3; channel_ids = 3 ∷ 4 ∷ [] }

set_group_channel-Is : IsSetGroupChannel ⦃node = bytes_node⦄ set_group_channel
set_group_channel-Is = record {
  group_channel_id = omega arith;
  channel_ids = ((omega arith, (omega arith, tt)), omega arith);
}

set_group_channel_round_trip_example :
    RoundTrips
      (serialize_set_group_channel ⦃node = bytes_node⦄ set_group_channel)
      deserialize_set_group_channel
      set_group_channel
set_group_channel_round_trip_example =
    set_group_channel_round_trip ⦃node = bytes_node⦄ set_group_channel set_group_channel-Is
