-- ===== src/Extranonce.antt =====
-- src/models/sv2/sv2-extranonce-manager.ts: Sv2ExtranonceManager, and the process namespace.
-- The Map from channels to prefixes is an association list, the Set of used prefixes a list.
pub mod Namespace
pub mod Search
pub mod Allocation
pub mod Guarantees
pub mod BigEndian
pub mod Lanes
pub mod Prefixes
pub mod Release
use lido.Base.{
  ℕ, zero, suc, ◌+◌, ◌-◌, ◌*◌, ◌/◌, ◌%◌, ◌^◌, Bool, true, false, ◌&&◌, ◌||◌, not, Option, none,
  some, List, [], ◌∷◌, ◌++◌, ltb, leb, ◌==◌, if◌then◌else◌, length, Bytes,
}
use lido.Outcome.{Result, ok, err, bad_argument, exhausted}

pub record Manager : Type 0 where
  pub next_prefix : ℕ
  pub max_prefix : ℕ
  pub allocated_prefixes : List (ℕ × ℕ)
  pub used_prefixes : List ℕ
  pub prefix_size : ℕ
  pub total_extranonce_size : ℕ
  pub process_namespace : ℕ

-- The assignments of the constructor.
abbrev pub fresh_manager : ℕ → ℕ → ℕ → Manager
fresh_manager prefix_size total_extranonce_size process_namespace = record {
  next_prefix = 1;
  max_prefix = 2 ^ ((prefix_size - 1) * 8) - 1;
  allocated_prefixes = [];
  used_prefixes = [];
  prefix_size = prefix_size;
  total_extranonce_size = total_extranonce_size;
  process_namespace = process_namespace;
}

-- The arguments are natural numbers, so Number.isInteger and the tests against 0 hold.
unfoldable pub new_manager : ℕ → ℕ → ℕ → Result Manager
new_manager prefix_size total_extranonce_size process_namespace =
    if ltb prefix_size 2 || ltb 4 prefix_size
    then err bad_argument
    else if ltb total_extranonce_size prefix_size
    then err bad_argument
    else if ltb 0xff process_namespace
    then err bad_argument
    else ok (fresh_manager prefix_size total_extranonce_size process_namespace)

-- The constructor refuses a total below the prefix, so the subtraction is exact.
unfoldable pub miner_extranonce_size : Manager → ℕ
miner_extranonce_size m = m.total_extranonce_size - m.prefix_size

unfoldable pub has : List ℕ → ℕ → Bool
has [] p = false
has (q ∷ qs) p = q == p || has qs p

unfoldable pub get : List (ℕ × ℕ) → ℕ → Option ℕ
get [] c = none
get ((d, p) ∷ m) c = if d == c then some p else get m c

-- Map.delete and Set.delete.
unfoldable pub delete_channel : List (ℕ × ℕ) → ℕ → List (ℕ × ℕ)
delete_channel [] c = []
delete_channel ((d, p) ∷ m) c = if d == c then m else (d, p) ∷ delete_channel m c

unfoldable pub delete_prefix : List ℕ → ℕ → List ℕ
delete_prefix [] p = []
delete_prefix (q ∷ qs) p = if q == p then qs else q ∷ delete_prefix qs p

-- The loop of prefixToBuffer: the lowest n bytes of val, highest first.
unfoldable pub be_bytes : ℕ → ℕ → Bytes
be_bytes zero val = []
be_bytes (suc n) val = be_bytes n (val / 0x100) ++ (val % 0x100 ∷ [])

unfoldable pub prefix_to_buffer : Manager → ℕ → Bytes
prefix_to_buffer m prefix = m.process_namespace ∷ be_bytes (m.prefix_size - 1) prefix

-- One step through the partition, from the last prefix back to 1.
abbrev pub step : ℕ → ℕ → ℕ
step max_prefix p = if ltb max_prefix (p + 1) then 1 else p + 1

-- The loop of allocate; `rounds` is what `attempts <= maxPrefix` leaves.
unfoldable pub search_prefix : ℕ → List ℕ → ℕ → ℕ → ℕ
search_prefix zero used max_prefix p = p
search_prefix (suc rounds) used max_prefix p =
    let further = search_prefix rounds used max_prefix (step max_prefix p) in
    if has used p then further else p

-- The prefix is recorded under the channel, and the cursor moves behind it.
unfoldable pub record_prefix : Manager → ℕ → ℕ → Manager
record_prefix m channel_id local_prefix = record m {
  allocated_prefixes = (channel_id, local_prefix) ∷ m.allocated_prefixes;
  used_prefixes = local_prefix ∷ m.used_prefixes;
  next_prefix = step m.max_prefix local_prefix;
}

-- The part of allocate behind the search.
unfoldable pub claim : Manager → ℕ → ℕ → Result (Bytes × Manager)
claim m channel_id local_prefix =
    if has m.used_prefixes local_prefix
    then err exhausted
    else ok (prefix_to_buffer m local_prefix, record_prefix m channel_id local_prefix)

-- The prefix that allocate would give a new channel.
abbrev pub next_free : Manager → ℕ
next_free m = search_prefix (m.max_prefix + 1) m.used_prefixes m.max_prefix m.next_prefix

unfoldable pub allocate : ℕ → Manager → Result (Bytes × Manager)
allocate channel_id m =
    if ltb channel_id 1 || ltb 0xffffffff channel_id
    then err bad_argument
    else elim (get m.allocated_prefixes channel_id) [
      | some existing ↦ ok (prefix_to_buffer m existing, m)
      | none ↦ claim m channel_id (next_free m)
    ]

unfoldable pub release : ℕ → Manager → Manager
release channel_id m = elim (get m.allocated_prefixes channel_id) [
  | none ↦ m
  | some prefix ↦ record m {
    allocated_prefixes = delete_channel m.allocated_prefixes channel_id;
    used_prefixes = delete_prefix m.used_prefixes prefix;
  }
]

unfoldable pub get_prefix : ℕ → Manager → Option Bytes
get_prefix channel_id m = elim (get m.allocated_prefixes channel_id) [
  | none ↦ none
  | some prefix ↦ some (prefix_to_buffer m prefix)
]

pub allocated_count : Manager → ℕ
allocated_count m = length m.allocated_prefixes
