-- ===== src/Jobs.antt =====
-- src/services/stratum-v1-jobs.service.ts: the templates made of what the Bitcoin node sends, and the
-- tables of templates and jobs. rxjs, the RPC and bitcoinjs are left outside.
pub mod Table
pub mod Pipeline
pub mod Issued
use lido.Base.{
  ℕ, zero, suc, ◌+◌, ◌-◌, ◌*◌, ◌/◌, ◌%◌, Bool, true, false, not, ◌&&◌, ◌||◌, Option, none, some,
  List, [], ◌∷◌, ◌++◌, map, ltb, ◌==◌, if◌then◌else◌, Bytes, max,
}
use lido.Outcome.{Result, ok, err}
use lido.Client.{Units, same_key}
use lido.Numbers.{Numbers}
use lido.Mining.{Block, Template, MiningJob}
use lido.Mining.Hex.{digit, of_hex}

abbrev pub job_max_age_ms : ℕ
job_max_age_ms = 1000 * 60 * 5

-- n.toString(16); the number is fuel enough, since each round divides it.
unfoldable pub hex_text_on : ℕ → ℕ → Units → Units
hex_text_on zero n text = digit n ∷ text
hex_text_on (suc fuel) n text =
    let longer = hex_text_on fuel (n / 16) (digit (n % 16) ∷ text) in
    if ltb n 16 then digit n ∷ text else longer

abbrev pub hex_text : ℕ → Units
hex_text n = hex_text_on n n []

-- An object as a table; the names that every object inherits are not among its keys here.
abbrev pub Table : Type 0 → Type 0
Table A = List (Units × A)

module _ {A : Type 0} where
  unfoldable pub find : Table A → Units → Option A
  find [] k = none
  find ((j, a) ∷ m) k = if same_key j k then some a else find m k

  unfoldable pub put : Table A → Units → A → Table A
  put [] k a = (k, a) ∷ []
  put ((j, b) ∷ m) k a = let rest = put m k a in if same_key j k then (j, a) ∷ m else (j, b) ∷ rest

  -- The entries that are not older than five minutes, by the time of their creation.
  unfoldable pub keep_fresh : (A → ℕ) → ℕ → Table A → Table A
  keep_fresh creation now [] = []
  keep_fresh creation now ((k, a) ∷ m) =
      let rest = keep_fresh creation now m in
      if ltb job_max_age_ms (now - creation a) then rest else (k, a) ∷ rest

-- What the node sends. `mintime` is in seconds; a transaction is its data and what identifies it.
pub record BlockTemplate : Type 0 where
  pub previousblockhash : Units
  pub version : ℕ
  pub bits : Units
  pub mintime : ℕ
  pub height : ℕ
  pub coinbasevalue : ℕ
  pub transactions : List (Units × Units)

pub record JobsService (N T : Type 0) : Type 0 where
  pub latest_job_id : ℕ
  pub latest_job_template_id : ℕ
  pub jobs : Table MiningJob
  pub blocks : Table (Template N T)
  pub last_block_height : ℕ
  pub last_work_signature : Option (List Units)

-- What a template makes of the pipeline: nothing, an exception behind the retry, or a job template.
pub data Emitted (N T : Type 0) : Type 0 where
  unchanged : Emitted N T
  failed : Emitted N T
  emitted : Template N T → Emitted N T

unfoldable pub same_parts : List Units → List Units → Bool
same_parts [] [] = true
same_parts [] (y ∷ ys) = false
same_parts (x ∷ xs) [] = false
same_parts (x ∷ xs) (y ∷ ys) = same_key x y && same_parts xs ys

unfoldable pub same_signature : Option (List Units) → List Units → Bool
same_signature none signature = false
same_signature (some old) signature = same_parts old signature

abbrev pub timestamp_of : BlockTemplate → ℕ → ℕ
timestamp_of t now = max t.mintime (now / 1000)

-- The parts that the source joins by bars, a number as a text of itself.
unfoldable pub work_signature : BlockTemplate → ℕ → List Units
work_signature t now =
    t.previousblockhash
    ∷ (t.version ∷ [])
    ∷ t.bits
    ∷ (timestamp_of t now ∷ [])
    ∷ (t.height ∷ [])
    ∷ (t.coinbasevalue ∷ [])
    ∷ map (λ x. x.1) t.transactions

module _ {N T : Type 0} where
  unfoldable pub get_job_template_by_id : JobsService N T → Units → Option (Template N T)
  get_job_template_by_id s id = find s.blocks id

  unfoldable pub get_job_by_id : JobsService N T → Units → Option MiningJob
  get_job_by_id s id = find s.jobs id

  unfoldable pub add_job : MiningJob → JobsService N T → JobsService N T
  add_job job s = record s { jobs = put s.jobs job.job_id job; latest_job_id = s.latest_job_id + 1 }

  unfoldable pub get_next_template_id : JobsService N T → Units
  get_next_template_id s = hex_text s.latest_job_template_id

  unfoldable pub get_next_id : JobsService N T → Units
  get_next_id s = hex_text s.latest_job_id

  unfoldable pub prune_stale_jobs : ℕ → JobsService N T → JobsService N T
  prune_stale_jobs now s = record s {
    blocks = keep_fresh (λ t. t.creation) now s.blocks;
    jobs = keep_fresh (λ j. j.creation) now s.jobs;
  }

  unfoldable pub is_new_block : ℕ → JobsService N T → Bool
  is_new_block height s = s.last_block_height == 0 || not (s.last_block_height == height)

  unfoldable pub note_height : Bool → ℕ → JobsService N T → JobsService N T
  note_height true height s = record s { last_block_height = height }
  note_height false height s = s

  -- Both tables are cleared, or pruned.
  unfoldable pub sweep : ℕ → Bool → JobsService N T → JobsService N T
  sweep now true s = record s { blocks = []; jobs = [] }
  sweep now false s = prune_stale_jobs now s

  -- The last step of the pipeline.
  unfoldable pub store_template : ℕ → Template N T → JobsService N T → JobsService N T
  store_template now t s =
      let s1 = sweep now t.clear_jobs s in record s1 { blocks = put s1.blocks t.id t }

-- bitcoinjs and merkle-lib: the parsed transactions, with an empty coinbase in front, and their roots.
pub record Assembly (T : Type 0) : Type 0 where
  pub parse_transactions : List Units → Result (List T)
  pub merkle_root : List T → Bytes
  pub merkle_branch : List T → List Units
  pub witness_root : List T → Bytes

abbrev pub reverse_onto : Bytes → Bytes → Bytes
reverse_onto [] done = done
reverse_onto (b ∷ bs) done = reverse_onto bs (b ∷ done)

unfoldable pub convert_to_little_endian : Units → Bytes
convert_to_little_endian hash = reverse_onto (of_hex hash) []
