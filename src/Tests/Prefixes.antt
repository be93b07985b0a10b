-- ===== src/Tests/Prefixes.antt =====
-- Runs of src/models/sv2/sv2-extranonce-manager.ts and of src/utils/coinbase-prefix.utils.ts.
use lido.Base.{
  ℕ, ◌≤◌, ◌≡◌, ◌≢◌, ◌↔◌, refl, inr, Option, none, some, List, [], ◌∷◌, true, arith, Bytes,
}
use lido.Outcome.{ok, err, exhausted}
use lido.Extranonce.{
  Manager, fresh_manager, allocate, get_prefix, record_prefix, has, get, claim, search_prefix,
  prefix_to_buffer, be_bytes,
}
use lido.Extranonce.Allocation.{IsManager}
use lido.Extranonce.Guarantees.{allocate-IsManager, allocate_exhausted_iff}
use lido.Extranonce.Prefixes.{get_prefix_unique, get_prefix_apart}
use lido.Extranonce.Namespace.{
  Environment, resolve_sv2_process_namespace, parse_namespace_integer, ◌then_parsed◌, parse_trimmed,
  trim, trim_start, trim_end, is_space, all_digits, decimal, or_else, or_zero, resolve_lane,
  fitting,
}
use lido.Extranonce.Lanes.{HasLane, lanes_apart}

-- Channels 7 and 9 have the prefixes 1 and 2 of the namespace 3.
abbrev two_channels : Manager
two_channels = record (fresh_manager 2 14 3) {
  allocated_prefixes = (9, 2) ∷ (7, 1) ∷ [];
  used_prefixes = 2 ∷ 1 ∷ [];
  next_prefix = 3;
}

two_channels-IsManager : IsManager two_channels
unfolding has
two_channels-IsManager = record {
  size_low = omega arith;
  size_high = omega arith;
  total = omega arith;
  namespace = omega arith;
  partition = refl;
  cursor = (omega arith, omega arith);
  in_use = refl;
  once = (refl, (refl, tt));
  channel_once = (refl, (refl, tt));
  in_partition = ((omega arith, omega arith), ((omega arith, omega arith), tt));
}

-- The manager above is what two allocations come to.
allocated : allocate 9 (record_prefix (fresh_manager 2 14 3) 7 1) ≡ ok (3 ∷ 2 ∷ [], two_channels)
unfolding allocate record_prefix get has claim search_prefix prefix_to_buffer be_bytes
allocated = refl

allocated_again : allocate 7 two_channels ≡ ok (3 ∷ 1 ∷ [], two_channels)
unfolding allocate get prefix_to_buffer be_bytes
allocated_again = refl

abbrev prefix_7 : Bytes
prefix_7 = 3 ∷ 1 ∷ []

abbrev other_prefix_7 : Bytes
other_prefix_7 = 4 ∷ 1 ∷ []

abbrev seven : ℕ
seven = 7

prefix_of_7 : get_prefix 7 two_channels ≡ some prefix_7
unfolding get_prefix get prefix_to_buffer be_bytes
prefix_of_7 = refl

get_7 : get two_channels.allocated_prefixes 7 ≡ some 1
unfolding get
get_7 = refl

get_8 : get two_channels.allocated_prefixes 8 ≡ none
unfolding get
get_8 = refl

allocate-IsManager_example : IsManager two_channels
allocate-IsManager_example =
    allocate-IsManager 7 two_channels (3 ∷ 1 ∷ []) two_channels two_channels-IsManager
      allocated_again

allocate_exhausted_iff_example :
    (allocate 8 two_channels ≡ err exhausted)
    ↔ ((q : ℕ) → 1 ≤ q → q ≤ 255 → has two_channels.used_prefixes q ≡ true)
allocate_exhausted_iff_example =
    allocate_exhausted_iff 8 two_channels two_channels-IsManager (omega arith, omega arith) get_8

get_prefix_unique_example : seven ≡ seven
get_prefix_unique_example =
    get_prefix_unique two_channels 7 7 (3 ∷ 1 ∷ []) two_channels-IsManager prefix_of_7 prefix_of_7

abbrev other_process : Manager
other_process = record two_channels { process_namespace = 4 }

other_prefix_of_7 : get_prefix 7 other_process ≡ some (4 ∷ 1 ∷ [])
unfolding get_prefix get prefix_to_buffer be_bytes
other_prefix_of_7 = refl

get_prefix_apart_example : prefix_7 ≢ other_prefix_7
get_prefix_apart_example =
    get_prefix_apart two_channels other_process 7 7 (3 ∷ 1 ∷ []) (4 ∷ 1 ∷ []) (omega arith)
      prefix_of_7 other_prefix_of_7

-- NODE_APP_INSTANCE is " 1 ", and the process is in its first or its second run.
abbrev process : Option (List ℕ) → Environment
process restart_time = record {
  sv2_extranonce_namespace_base = none;
  node_app_instance = some (32 ∷ 49 ∷ 32 ∷ []);
  pm_id = none;
  restart_time = restart_time;
  pm2_enabled = none;
}

abbrev restarted : Option (List ℕ)
restarted = some (49 ∷ [])

resolved_first : resolve_sv2_process_namespace (process none) none ≡ ok 2
unfolding resolve_sv2_process_namespace parse_namespace_integer ◌then_parsed◌ parse_trimmed trim
    trim_start trim_end is_space all_digits decimal or_else or_zero resolve_lane fitting
resolved_first = refl

resolved_second : resolve_sv2_process_namespace (process restarted) none ≡ ok 3
unfolding resolve_sv2_process_namespace parse_namespace_integer ◌then_parsed◌ parse_trimmed trim
    trim_start trim_end is_space all_digits decimal or_else or_zero resolve_lane fitting
resolved_second = refl

first-HasLane : HasLane (process none) none 0 1 0
unfolding parse_namespace_integer parse_trimmed trim trim_start trim_end is_space all_digits decimal
    or_else or_zero
first-HasLane = record {
  base_read = none;
  instance_read = some 1;
  pm_read = none;
  restart_read = none;
  parse_base = refl;
  parse_instance = refl;
  parse_pm = refl;
  parse_restart = refl;
  base_is = refl;
  worker_is = refl;
  generation_is = refl;
}

second-HasLane : HasLane (process restarted) none 0 1 1
unfolding parse_namespace_integer parse_trimmed trim trim_start trim_end is_space all_digits decimal
    or_else or_zero
second-HasLane = record {
  base_read = none;
  instance_read = some 1;
  pm_read = none;
  restart_read = some 1;
  parse_base = refl;
  parse_instance = refl;
  parse_pm = refl;
  parse_restart = refl;
  base_is = refl;
  worker_is = refl;
  generation_is = refl;
}

abbrev first_lane : ℕ
first_lane = 2

abbrev second_lane : ℕ
second_lane = 3

lanes_apart_example : (first_lane ≢ second_lane) × (first_lane ≤ 255) × (second_lane ≤ 255)
lanes_apart_example =
    lanes_apart (process none) (process restarted) none none 0 1 1 0 1 2 3 first-HasLane
      second-HasLane (inr (omega arith)) resolved_first resolved_second
