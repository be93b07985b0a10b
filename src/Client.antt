-- ===== src/Client.antt =====
-- src/models/StratumV2Client.ts, the part that judges shares: channels, jobs and the set of
-- submissions. Blocks, statistics and notifications of an accepted share are left to its caller.
pub mod Judgement
pub mod Shares
pub mod ExtendedShares
pub mod Jobs
pub mod Setup
pub mod Closing
pub mod Dispatch
pub mod Orders
pub mod Opening
pub mod Updating
pub mod Pacing
pub mod Inbound
pub mod Chunks
pub mod Fleet
pub mod Delivery
pub mod Replay
pub mod Identity
use Prim.Native.Nat.{bit_and, bit_xor}
use lido.Base.{
  ℕ, zero, suc, ◌+◌, ◌%◌, ◌^◌, Bool, true, false, ◌&&◌, ◌||◌, not, Option, none, some, List, [],
  ◌∷◌, ◌++◌, ltb, leb, ◌==◌, if◌then◌else◌, length, Bytes, All, IsByte, ◌≡◌,
}
use lido.Outcome.{Result, ok, err}
use lido.Difficulty.{meets_target, meets_compact_target}
use lido.Messages.Work.{SubmitSharesStandard}
use lido.Messages.Extended.{SubmitSharesExtended}

abbrev pub max_submission_hashes : ℕ
max_submission_hashes = 10000

abbrev pub max_channel_jobs : ℕ
max_channel_jobs = 32

abbrev pub bip320_consensus_version_mask : ℕ
bip320_consensus_version_mask = 0xe0001fff

-- Sv2SubmitSharesErrorCode.
pub data ShareError : Type 0 where
  invalid_channel_id invalid_job_id duplicate_share invalid_version : ShareError
  difficulty_too_low invalid_extranonce_size : ShareError

pub data ChannelType : Type 0 where
  standard extended : ChannelType

unfoldable pub is_extended : ChannelType → Bool
is_extended standard = false
is_extended extended = true

-- `version` is jobTemplate.block.version; T is the rest of the template and of the MiningJob.
pub record ChannelJob (T : Type 0) : Type 0 where
  pub template : T
  pub version : ℕ
  pub n_bits : ℕ
  pub coinbase_prefix : Option Bytes
  pub coinbase_suffix : Option Bytes
  pub merkle_path : Option (List Bytes)

-- A text by its UTF-16 code units.
abbrev pub Units : Type 0
Units = List ℕ

-- The height and the previous hash that a tip key joins.
abbrev pub Tip : Type 0
Tip = ℕ × Bytes

-- D is the type of the difficulties. Map.keys goes by insertion, so the jobs stand oldest first.
pub record Channel (T D : Type 0) : Type 0 where
  pub channel_type : ChannelType
  pub extranonce_prefix : Bytes
  pub extranonce_size : ℕ
  pub session_difficulty : D
  pub max_target : Bytes
  pub ready_for_jobs : Bool
  pub active_tip_key : Option Tip
  pub jobs : List (ℕ × ChannelJob T)

-- The numbers of a key that the source joins by colons, with the extranonce's bytes behind its size.
abbrev pub Key : Type 0
Key = List ℕ

pub record Client (T D : Type 0) : Type 0 where
  pub address : Option Units
  pub worker_name : Units
  pub last_sent_mining_job_timestamp : Option ℕ
  pub next_job_id : ℕ
  pub channels : List (ℕ × Channel T D)
  pub submission_hashes : List Key

-- What is answered: SubmitSharesError, or SubmitSharesSuccess, for a block too if the flag is set.
pub data Answer : Type 0 where
  rejected : ShareError → Answer
  accepted : Bool → Answer

unfoldable pub lookup {ℓ} : {A : Type ℓ} → List (ℕ × A) → ℕ → Option A
lookup [] k = none
lookup ((j, a) ∷ m) k = if j == k then some a else lookup m k

unfoldable pub same_key : Key → Key → Bool
same_key [] [] = true
same_key [] (y ∷ ys) = false
same_key (x ∷ xs) [] = false
same_key (x ∷ xs) (y ∷ ys) = x == y && same_key xs ys

unfoldable pub has_key : List Key → Key → Bool
has_key [] k = false
has_key (j ∷ js) k = same_key j k || has_key js k

abbrev pub standard_key : SubmitSharesStandard → Key
standard_key s = s.channel_id ∷ s.job_id ∷ s.nonce ∷ s.ntime ∷ s.version ∷ []

abbrev pub extended_key : SubmitSharesExtended → Key
extended_key s =
    s.channel_id ∷ s.job_id ∷ s.nonce ∷ s.ntime ∷ s.version ∷ length s.extranonce ∷ s.extranonce

-- `((submitVersion ^ jobVersion) & BIP320_CONSENSUS_VERSION_MASK) !== 0`
unfoldable pub changes_consensus_bits : ℕ → ℕ → Bool
changes_consensus_bits submit_version job_version = not (
    bit_and (bit_xor (submit_version % 2 ^ 32) (job_version % 2 ^ 32)) bip320_consensus_version_mask
    == 0)

-- The loop of trimChannelJobs; each round drops the oldest job, so the jobs are fuel by themselves.
unfoldable pub trim_jobs {ℓ} : {A : Type ℓ} → List A → List A
trim_jobs [] = []
trim_jobs (job ∷ jobs) =
    let rest = trim_jobs jobs in
    if ltb max_channel_jobs (length (job ∷ jobs)) then rest else job ∷ jobs

module _ {T D : Type 0} where
  unfoldable pub remember_submission : Key → Client T D → Client T D
  remember_submission key c = record c {
    submission_hashes =
        if leb max_submission_hashes (length c.submission_hashes)
        then key ∷ []
        else key ∷ c.submission_hashes;
  }

  unfoldable pub allocate_job_id : Client T D → ℕ × Client T D
  allocate_job_id c = (
    c.next_job_id,
    record c { next_job_id = if ltb 0xffffffff (c.next_job_id + 1) then 1 else c.next_job_id + 1 },
  )

  unfoldable pub trim_channel_jobs : Channel T D → Channel T D
  trim_channel_jobs channel = record channel { jobs = trim_jobs channel.jobs }

abbrev pub Is32Bytes : Bytes → Type 0
Is32Bytes b = All IsByte b × (length b ≡ 32)

-- What the difficulty arithmetic over floats, MiningJob and bitcoinjs compute for a share.
pub record Hashing (T D : Type 0) : Type 0 where
  -- The hash of the header that a standard and an extended submission make of the job.
  pub standard_hash : ChannelJob T → Bytes → SubmitSharesStandard → Bytes
  pub extended_hash :
      ChannelJob T → Bytes → Bytes → Bytes → List Bytes → SubmitSharesExtended → Bytes
  -- DifficultyUtils.difficultyToTarget
  pub difficulty_to_target : D → Bytes
  pub standard_hash-Is32Bytes :
      (job : ChannelJob T) (prefix : Bytes) (s : SubmitSharesStandard)
      → Is32Bytes (standard_hash job prefix s)
  pub extended_hash-Is32Bytes :
      (job : ChannelJob T) (first last prefix : Bytes) (path : List Bytes)
      (s : SubmitSharesExtended)
      → Is32Bytes (extended_hash job first last prefix path s)
  pub difficulty_to_target-Is32Bytes : (d : D) → Is32Bytes (difficulty_to_target d)
  -- `submissionDifficulty >= jobState.jobTemplate.blockData.networkDifficulty`
  pub reaches_network : T → Bytes → Bool

module _ {T D : Type 0} (hashing : Hashing T D) where
  -- `!meetsJobTarget && !isBlockCandidate`, where a meetsTarget that throws ends the handler.
  unfoldable pub verdict :
      Client T D → Bool → Result Bool → Result Bool → Result (Answer × Client T D)
  verdict c network (err e) compact = err e
  verdict c network (ok meets) (err e) = err e
  verdict c network (ok meets) (ok compact) = ok (
    if not meets && not (compact || network)
        then rejected difficulty_too_low
        else accepted (compact || network),
    c,
  )

  unfoldable pub weigh :
      Channel T D → ChannelJob T → Bytes → Client T D → Result (Answer × Client T D)
  weigh channel job hash c =
      verdict c (hashing.reaches_network job.template hash)
        (meets_target hash (hashing.difficulty_to_target channel.session_difficulty))
        (meets_compact_target hash job.n_bits)

  -- Both handlers from the test for duplicates on.
  unfoldable pub judge :
      Key → ℕ → Channel T D → ChannelJob T → Bytes → Client T D → Result (Answer × Client T D)
  judge key version channel job hash c =
      if has_key c.submission_hashes key
      then ok (rejected duplicate_share, c)
      else if changes_consensus_bits version job.version
      then ok (rejected invalid_version, remember_submission key c)
      else weigh channel job hash (remember_submission key c)

  unfoldable pub standard_job :
      SubmitSharesStandard
      → Client T D
      → Channel T D
      → Option (ChannelJob T)
      → Result (Answer × Client T D)
  standard_job s c channel none = ok (rejected invalid_job_id, c)
  standard_job s c channel (some job) =
      judge (standard_key s) s.version channel job
        (hashing.standard_hash job channel.extranonce_prefix s) c

  unfoldable pub standard_channel :
      SubmitSharesStandard → Client T D → Option (Channel T D) → Result (Answer × Client T D)
  standard_channel s c none = ok (rejected invalid_channel_id, c)
  standard_channel s c (some channel) =
      if is_extended channel.channel_type
      then ok (rejected invalid_channel_id, c)
      else standard_job s c channel (lookup channel.jobs s.job_id)

  unfoldable pub submit_shares_standard :
      SubmitSharesStandard → Client T D → Result (Answer × Client T D)
  submit_shares_standard s c = standard_channel s c (lookup c.channels s.channel_id)

  -- The coinbase parts and the merkle path of the job, if it has all three.
  unfoldable pub extended_parts :
      SubmitSharesExtended
      → Client T D
      → Channel T D
      → ChannelJob T
      → Option Bytes
      → Option Bytes
      → Option (List Bytes)
      → Result (Answer × Client T D)
  extended_parts s c channel job (some prefix) (some suffix) (some path) =
      if length s.extranonce == channel.extranonce_size
      then judge (extended_key s) s.version channel job
          (hashing.extended_hash job prefix suffix channel.extranonce_prefix path s) c
      else ok (rejected invalid_extranonce_size, c)
  extended_parts s c channel job _ _ _ = ok (rejected invalid_job_id, c)

  unfoldable pub extended_job :
      SubmitSharesExtended
      → Client T D
      → Channel T D
      → Option (ChannelJob T)
      → Result (Answer × Client T D)
  extended_job s c channel none = ok (rejected invalid_job_id, c)
  extended_job s c channel (some job) =
      extended_parts s c channel job job.coinbase_prefix job.coinbase_suffix job.merkle_path

  unfoldable pub extended_channel :
      SubmitSharesExtended → Client T D → Option (Channel T D) → Result (Answer × Client T D)
  extended_channel s c none = ok (rejected invalid_channel_id, c)
  extended_channel s c (some channel) =
      if is_extended channel.channel_type
      then extended_job s c channel (lookup channel.jobs s.job_id)
      else ok (rejected invalid_channel_id, c)

  unfoldable pub submit_shares_extended :
      SubmitSharesExtended → Client T D → Result (Answer × Client T D)
  submit_shares_extended s c = extended_channel s c (lookup c.channels s.channel_id)
