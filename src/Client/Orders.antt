-- ===== src/Client/Orders.antt =====
-- The jobs that src/models/StratumV2Client.ts sends to a channel: sendJobsForChannel.
use lido.Base.{
  ℕ, ◌%◌, ◌^◌, ◌+◌, ◌≡◌, ◌≢◌, Bool, true, false, ◌&&◌, ◌||◌, not, Option, none, some, List, [], ◌∷◌,
  ◌++◌, ◌==◌, if◌then◌else◌, length, Bytes, arith,
}
use lido.Messages.Work.{NewMiningJob, SetNewPrevHash, SetTarget}
use lido.Messages.Channel.{OpenStandardMiningChannelSuccess}
use lido.Messages.Extended.{NewExtendedMiningJob, OpenExtendedMiningChannelSuccess}
use lido.Coinbase.{patch_coinbase_prefix_varint}
use lido.Client.{
  Client, Channel, ChannelJob, Tip, Units, is_extended, same_key, lookup, allocate_job_id,
  trim_channel_jobs,
}

-- Sv2OpenChannelErrorCode and Sv2UpdateChannelErrorCode.
pub data OpenChannelError : Type 0 where
  unknown_user max_target_out_of_range min_extranonce_size_too_large : OpenChannelError

pub data UpdateError : Type 0 where
  no_such_channel update_target_out_of_range : UpdateError

-- The frames that the modelled handlers send, by their messages; errors with the request's or the
-- channel's number.
pub data Sent : Type 0 where
  new_mining_job : NewMiningJob → Sent
  new_extended_mining_job : NewExtendedMiningJob → Sent
  set_new_prev_hash : SetNewPrevHash → Sent
  set_target : SetTarget → Sent
  open_standard_success : OpenStandardMiningChannelSuccess → Sent
  open_extended_success : OpenExtendedMiningChannelSuccess → Sent
  open_channel_error : ℕ → OpenChannelError → Sent
  update_channel_error : ℕ → UpdateError → Sent

-- The fields of IJobTemplate that the client reads; R is the rest of it.
pub record JobTemplate (R : Type 0) : Type 0 where
  pub rest : R
  pub height : ℕ
  pub prev_hash : Bytes
  pub timestamp : ℕ
  pub version : ℕ
  pub bits : ℕ
  pub clear_jobs : Bool

-- src/models/MiningJob.ts as the client uses it. T is a MiningJob with its template. The payout of a
-- job hangs on the client's address; what it takes besides from the configuration is left out.
pub record Mining (R T D : Type 0) : Type 0 where
  pub new_mining_job : Option Units → JobTemplate R → T
  pub build_coinbase_merkle_root : T → Bytes → Bytes
  pub get_coinbase_prefix_buffer : T → Bytes
  pub get_coinbase_suffix_buffer : T → Bytes
  pub get_merkle_branch_buffers : T → List Bytes
  -- DifficultyUtils.difficultyToTarget
  pub difficulty_to_target : D → Bytes

-- Map.set: the place of a key stays, a new key goes to the end.
unfoldable pub set_key {ℓ} : {A : Type ℓ} → List (ℕ × A) → ℕ → A → List (ℕ × A)
set_key [] k a = (k, a) ∷ []
set_key ((j, b) ∷ m) k a = let rest = set_key m k a in if j == k then (j, a) ∷ m else (j, b) ∷ rest

pub lookup-set_key {ℓ} :
    {A : Type ℓ} (m : List (ℕ × A)) (k : ℕ) (a : A) → lookup (set_key m k a) k ≡ some a
unfolding lookup set_key
lookup-set_key [] k a = ground arith
lookup-set_key ((j, b) ∷ m) k a = ground (arith, lookup-set_key m k a)

pub lookup-set_key_other {ℓ} :
    {A : Type ℓ} (m : List (ℕ × A)) (k l : ℕ) (a : A)
    → l ≢ k
    → lookup (set_key m k a) l ≡ lookup m l
unfolding lookup set_key
lookup-set_key_other [] k l a h = ground arith
lookup-set_key_other ((j, b) ∷ m) k l a h = ground (arith, lookup-set_key_other m k l a h)

module _ {R : Type 0} where
  abbrev pub tip_key : JobTemplate R → Tip
  tip_key t = (t.height, t.prev_hash)

unfoldable pub same_tip : Option Tip → Tip → Bool
same_tip none tip = false
same_tip (some (height, hash)) (height', hash') = height == height' && same_key hash hash'

module _ {R T D : Type 0} (mining : Mining R T D) where
  unfoldable pub sends_prev_hash : Channel T D → JobTemplate R → Bool
  sends_prev_hash channel t = not (same_tip channel.active_tip_key (tip_key t)) || t.clear_jobs

  -- The job that a channel keeps; only an extended one keeps the coinbase and the path.
  unfoldable pub channel_job : Channel T D → JobTemplate R → T → ChannelJob T
  channel_job channel t job =
      let total = length channel.extranonce_prefix + channel.extranonce_size in
      let wide = is_extended channel.channel_type in
      record {
        template = job;
        version = t.version;
        n_bits = t.bits % 2 ^ 32;
        coinbase_prefix =
            if wide
            then some (patch_coinbase_prefix_varint (mining.get_coinbase_prefix_buffer job) total)
            else none;
        coinbase_suffix = if wide then some (mining.get_coinbase_suffix_buffer job) else none;
        merkle_path = if wide then some (mining.get_merkle_branch_buffers job) else none;
      }

  -- The frame with the job itself.
  unfoldable pub job_frame : ℕ → Channel T D → JobTemplate R → T → ℕ → Sent
  job_frame channel_id channel t job job_id =
      let min_ntime = if sends_prev_hash channel t then none else some t.timestamp in
      if is_extended channel.channel_type
      then new_extended_mining_job (record {
        channel_id = channel_id;
        job_id = job_id;
        min_ntime = min_ntime;
        version = t.version % 2 ^ 32;
        version_rolling_allowed = true;
        merkle_path = mining.get_merkle_branch_buffers job;
        coinbase_prefix =
            patch_coinbase_prefix_varint (mining.get_coinbase_prefix_buffer job)
              (length channel.extranonce_prefix + channel.extranonce_size);
        coinbase_suffix = mining.get_coinbase_suffix_buffer job;
      })
      else new_mining_job (record {
        channel_id = channel_id;
        job_id = job_id;
        min_ntime = min_ntime;
        version = t.version % 2 ^ 32;
        merkle_root = mining.build_coinbase_merkle_root job channel.extranonce_prefix;
      })

  abbrev pub target_frame : ℕ → D → Sent
  target_frame channel_id d =
      set_target (record { channel_id = channel_id; max_target = mining.difficulty_to_target d })

  unfoldable pub prev_hash_frames : ℕ → Channel T D → JobTemplate R → ℕ → List Sent
  prev_hash_frames channel_id channel t job_id =
      if sends_prev_hash channel t
      then set_new_prev_hash (record {
        channel_id = channel_id;
        job_id = job_id;
        prev_hash = t.prev_hash;
        min_ntime = t.timestamp % 2 ^ 32;
        n_bits = t.bits % 2 ^ 32;
      })
        ∷ []
      else []

  -- The channel with the new job, the newest 32 of them, and the tip if the previous hash was sent.
  unfoldable pub with_job : Channel T D → JobTemplate R → ℕ → ChannelJob T → Channel T D
  with_job channel t job_id job =
      let new = sends_prev_hash channel t in
      let jobs = set_key (if new || t.clear_jobs then [] else channel.jobs) job_id job in
      record (trim_channel_jobs (record channel { jobs = jobs })) {
        active_tip_key = if new then some (tip_key t) else channel.active_tip_key;
      }

  -- sendStandardJobsForChannel and sendExtendedJobsForChannel.
  unfoldable pub send_jobs_for_channel :
      ℕ → Channel T D → JobTemplate R → Client T D → List Sent × Client T D
  send_jobs_for_channel channel_id channel t c =
      let job = mining.new_mining_job c.address t in
      let (job_id, c1) = allocate_job_id c in
      (
        job_frame channel_id channel t job job_id
            ∷ (prev_hash_frames channel_id channel t job_id
                ++ (target_frame channel_id channel.session_difficulty ∷ [])),
        record c1 {
          last_sent_mining_job_timestamp = some t.timestamp;
          submission_hashes =
              if sends_prev_hash channel t || t.clear_jobs then [] else c.submission_hashes;
          channels =
              set_key c.channels channel_id (with_job channel t job_id (channel_job channel t job));
        },
      )

  unfoldable pub send_if_any :
      Option (JobTemplate R) → ℕ → Channel T D → Client T D → List Sent × Client T D
  send_if_any none channel_id channel c = ([], c)
  send_if_any (some t) channel_id channel c = send_jobs_for_channel channel_id channel t c

  unfoldable pub send_if_ready :
      ℕ → JobTemplate R → Client T D → Option (Channel T D) → List Sent × Client T D
  send_if_ready channel_id t c none = ([], c)
  send_if_ready channel_id t c (some channel) =
      if channel.ready_for_jobs then send_jobs_for_channel channel_id channel t c else ([], c)

  -- The loop of enqueueCanonicalJob.
  unfoldable pub send_jobs :
      List (ℕ × Channel T D) → JobTemplate R → Client T D → List Sent × Client T D
  send_jobs [] t c = ([], c)
  send_jobs ((channel_id, _) ∷ channels) t c =
      let (frames, c1) = send_if_ready channel_id t c (lookup c.channels channel_id) in
      let (more, c2) = send_jobs channels t c1 in (frames ++ more, c2)

  unfoldable pub enqueue_canonical_job : JobTemplate R → Client T D → List Sent × Client T D
  enqueue_canonical_job t c = send_jobs c.channels t c
