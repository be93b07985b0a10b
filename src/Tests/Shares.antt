-- ===== src/Tests/Shares.antt =====
-- Runs of the share handlers of src/models/StratumV2Client.ts.
use lido.Base.{
  true, none, ℕ, zero, suc, ◌<◌, ◌≤◌, ◌≡◌, refl, false, some, [], ◌∷◌, arith, All, IsByte, length,
  replicate, le_value, Bytes, List,
}
use lido.Outcome.{ok}
use lido.Messages.Work.{SubmitSharesStandard}
use lido.Messages.Extended.{SubmitSharesExtended}
use lido.Difficulty.{
  meets_target, meets_compact_target, compact_to_target, compare_le256, compare_from, store_word,
}
use lido.Client.{
  Client, Channel, ChannelJob, Hashing, standard, extended, accepted, rejected, duplicate_share,
  lookup, is_extended, standard_key, extended_key, submit_shares_standard, submit_shares_extended,
  standard_channel, standard_job, extended_channel, extended_job, extended_parts, judge, weigh,
  verdict, has_key, remember_submission, changes_consensus_bits, max_submission_hashes,
}
use lido.Client.Shares.{
  StandardRoute, standard_share_once, standard_share_target, standard_share_bounded,
}
use lido.Client.ExtendedShares.{ExtendedRoute, extended_share_once, extended_share_target}
use lido.Extranonce.{fresh_manager}
use lido.Extranonce.Allocation.{IsManager}
use lido.Client.Closing.{Service}

pub replicate-IsByte : (n b : ℕ) → b < 256 → All IsByte (replicate n b)
replicate-IsByte zero b h = tt
replicate-IsByte (suc n) b h = (h, replicate-IsByte n b h)

-- Every header hashes to 0x0101…, and the target of every channel is 0x0202…
abbrev pub hashing : Hashing ℕ ℕ
hashing = record {
  standard_hash = λ job prefix s. replicate 32 1;
  extended_hash = λ job first last prefix path s. replicate 32 1;
  difficulty_to_target = λ d. replicate 32 2;
  standard_hash-Is32Bytes = λ job prefix s. (replicate-IsByte 32 1 (omega arith), refl);
  extended_hash-Is32Bytes =
      λ job first last prefix path s. (replicate-IsByte 32 1 (omega arith), refl);
  difficulty_to_target-Is32Bytes = λ d. (replicate-IsByte 32 2 (omega arith), refl);
  reaches_network = λ t hash. false;
}

abbrev job : ChannelJob ℕ
job = record {
  template = 0;
  version = 0x20000000;
  n_bits = 0x1700ffff;
  coinbase_prefix = some [];
  coinbase_suffix = some [];
  merkle_path = some [];
}

abbrev pub channel : Channel ℕ ℕ
channel = record {
  channel_type = standard;
  extranonce_prefix = 3 ∷ 1 ∷ [];
  extranonce_size = 8;
  session_difficulty = 1;
  max_target = replicate 32 255;
  ready_for_jobs = true;
  active_tip_key = none;
  jobs = (5, job) ∷ [];
}

abbrev wide_channel : Channel ℕ ℕ
wide_channel = record channel { channel_type = extended; extranonce_size = 2 }

abbrev pub client : Client ℕ ℕ
client = record {
  address = none;
  worker_name = [];
  last_sent_mining_job_timestamp = none;
  next_job_id = 6;
  channels = (7, channel) ∷ (8, wide_channel) ∷ [];
  submission_hashes = [];
}

-- The share rolls a general-purpose bit of the version.
abbrev pub share : SubmitSharesStandard
share = record {
  channel_id = 7;
  sequence_number = 1;
  job_id = 5;
  nonce = 99;
  ntime = 1000;
  version = 0x20002000;
}

abbrev wide_share : SubmitSharesExtended
wide_share = record {
  channel_id = 8;
  sequence_number = 1;
  job_id = 5;
  nonce = 99;
  ntime = 1000;
  version = 0x20002000;
  extranonce = 4 ∷ 5 ∷ [];
}

abbrev pub after_share : Client ℕ ℕ
after_share = record client { submission_hashes = standard_key share ∷ [] }

abbrev after_wide_share : Client ℕ ℕ
after_wide_share = record client { submission_hashes = extended_key wide_share ∷ [] }

pub standard_run : submit_shares_standard hashing share client ≡ ok (accepted false, after_share)
unfolding submit_shares_standard standard_channel standard_job judge weigh verdict has_key
    remember_submission changes_consensus_bits lookup is_extended meets_target meets_compact_target
    compact_to_target compare_le256 compare_from store_word
standard_run = refl

extended_run :
    submit_shares_extended hashing wide_share client ≡ ok (accepted false, after_wide_share)
unfolding submit_shares_extended extended_channel extended_job extended_parts judge weigh verdict
    has_key remember_submission changes_consensus_bits lookup is_extended meets_target
    meets_compact_target compact_to_target compare_le256 compare_from store_word
extended_run = refl

standard_share_once_example :
    submit_shares_standard hashing share after_share ≡ ok (rejected duplicate_share, after_share)
standard_share_once_example =
    standard_share_once hashing share client after_share false standard_run

extended_share_once_example :
    submit_shares_extended hashing wide_share after_wide_share
    ≡ ok (rejected duplicate_share, after_wide_share)
extended_share_once_example =
    extended_share_once hashing wide_share client after_wide_share false extended_run

standard_share_target_example :
    (c : Channel ℕ ℕ) × (j : ChannelJob ℕ) × StandardRoute hashing share client c j
    × (le_value (replicate 32 1) ≤ le_value (replicate 32 2))
standard_share_target_example = standard_share_target hashing share client after_share standard_run

extended_share_target_example :
    (c : Channel ℕ ℕ) × (j : ChannelJob ℕ) × (prefix : Bytes) × (suffix : Bytes) × (path : List
      Bytes)
    × ExtendedRoute hashing wide_share client c j prefix suffix path
    × (le_value (hashing.extended_hash j prefix suffix c.extranonce_prefix path wide_share)
        ≤ le_value (hashing.difficulty_to_target c.session_difficulty))
extended_share_target_example =
    extended_share_target hashing wide_share client after_wide_share extended_run

standard_share_bounded_example : length after_share.submission_hashes ≤ max_submission_hashes
standard_share_bounded_example =
    standard_share_bounded hashing share client after_share (accepted false) (omega arith)
      standard_run

abbrev pub service : Service
service = record { channel_id_counter = 9; extranonce_manager = fresh_manager 4 14 0 }

pub service-IsManager : IsManager service.extranonce_manager
service-IsManager = record {
  size_low = omega arith;
  size_high = omega arith;
  total = omega arith;
  namespace = omega arith;
  partition = refl;
  cursor = (omega arith, omega arith);
  in_use = refl;
  once = tt;
  channel_once = tt;
  in_partition = tt;
}

found_7 : lookup client.channels 7 ≡ some channel
unfolding lookup
found_7 = refl
