-- ===== src/Messages/Work/RoundTrip.antt =====
-- Round trips of the messages of src/models/sv2/sv2-messages.ts: jobs, targets and shares.
use lido.Node.{Node}
use lido.Codec.Codes.{
  Codes-seq, Codes-last, Codes-u32, Codes-u64, Codes-u256, Codes-option_u32, Codes-str0_255,
  IsStr0_255, IsOptionU32,
}
use lido.Codec.RoundTrip.{RoundTrips, RoundTrips-Codes, IsU32, IsU64, IsU256}
use lido.Messages.Work.{
  NewMiningJob, serialize_new_mining_job, deserialize_new_mining_job, SetNewPrevHash,
  serialize_set_new_prev_hash, deserialize_set_new_prev_hash, SetTarget, serialize_set_target,
  deserialize_set_target, SubmitSharesStandard, serialize_submit_shares_standard,
  deserialize_submit_shares_standard, SubmitSharesSuccess, serialize_submit_shares_success,
  deserialize_submit_shares_success, SubmitSharesError, serialize_submit_shares_error,
  deserialize_submit_shares_error,
}

module _ ⦃node : Node⦄ where
  -- The fields fit the wire types that the source's comments give them.
  pub record IsNewMiningJob (msg : NewMiningJob) : Type 0 where
    pub channel_id : IsU32 msg.channel_id
    pub job_id : IsU32 msg.job_id
    pub min_ntime : IsOptionU32 msg.min_ntime
    pub version : IsU32 msg.version
    pub merkle_root : IsU256 msg.merkle_root

  -- Every NewMiningJob whose fields fit their wire types is serialized, and its payload is
  -- deserialized, to the last byte, to the same message.
  pub new_mining_job_round_trip :
      (msg : NewMiningJob)
      → IsNewMiningJob msg
      → RoundTrips (serialize_new_mining_job msg) deserialize_new_mining_job msg
  unfolding serialize_new_mining_job deserialize_new_mining_job
  new_mining_job_round_trip msg h = RoundTrips-Codes (
      Codes-seq _ _ _ _ _ _ (Codes-u32 _ h.channel_id) (
        Codes-seq _ _ _ _ _ _ (Codes-u32 _ h.job_id) (
          Codes-seq _ _ _ _ _ _ (Codes-option_u32 _ h.min_ntime) (
            Codes-seq _ _ _ _ _ _ (Codes-u32 _ h.version)
              (Codes-last _ _ _ _ (Codes-u256 _ h.merkle_root.0 h.merkle_root.1))))))

  -- The fields fit the wire types that the source's comments give them.
  pub record IsSetNewPrevHash (msg : SetNewPrevHash) : Type 0 where
    pub channel_id : IsU32 msg.channel_id
    pub job_id : IsU32 msg.job_id
    pub prev_hash : IsU256 msg.prev_hash
    pub min_ntime : IsU32 msg.min_ntime
    pub n_bits : IsU32 msg.n_bits

  -- Every SetNewPrevHash whose fields fit their wire types is serialized, and its payload is
  -- deserialized, to the last byte, to the same message.
  pub set_new_prev_hash_round_trip :
      (msg : SetNewPrevHash)
      → IsSetNewPrevHash msg
      → RoundTrips (serialize_set_new_prev_hash msg) deserialize_set_new_prev_hash msg
  unfolding serialize_set_new_prev_hash deserialize_set_new_prev_hash
  set_new_prev_hash_round_trip msg h = RoundTrips-Codes (
      Codes-seq _ _ _ _ _ _ (Codes-u32 _ h.channel_id) (
        Codes-seq _ _ _ _ _ _ (Codes-u32 _ h.job_id) (
          Codes-seq _ _ _ _ _ _ (Codes-u256 _ h.prev_hash.0 h.prev_hash.1) (
            Codes-seq _ _ _ _ _ _ (Codes-u32 _ h.min_ntime)
              (Codes-last _ _ _ _ (Codes-u32 _ h.n_bits))))))

  -- The fields fit the wire types that the source's comments give them.
  pub record IsSetTarget (msg : SetTarget) : Type 0 where
    pub channel_id : IsU32 msg.channel_id
    pub max_target : IsU256 msg.max_target

  -- Every SetTarget whose fields fit their wire types is serialized, and its payload is
  -- deserialized, to the last byte, to the same message.
  pub set_target_round_trip :
      (msg : SetTarget)
      → IsSetTarget msg
      → RoundTrips (serialize_set_target msg) deserialize_set_target msg
  unfolding serialize_set_target deserialize_set_target
  set_target_round_trip msg h = RoundTrips-Codes (
      Codes-seq _ _ _ _ _ _ (Codes-u32 _ h.channel_id)
        (Codes-last _ _ _ _ (Codes-u256 _ h.max_target.0 h.max_target.1)))

  -- The fields fit the wire types that the source's comments give them.
  pub record IsSubmitSharesStandard (msg : SubmitSharesStandard) : Type 0 where
    pub channel_id : IsU32 msg.channel_id
    pub sequence_number : IsU32 msg.sequence_number
    pub job_id : IsU32 msg.job_id
    pub nonce : IsU32 msg.nonce
    pub ntime : IsU32 msg.ntime
    pub version : IsU32 msg.version

  -- Every SubmitSharesStandard whose fields fit their wire types is serialized, and its payload is
  -- deserialized, to the last byte, to the same message.
  pub submit_shares_standard_round_trip :
      (msg : SubmitSharesStandard)
      → IsSubmitSharesStandard msg
      → RoundTrips (serialize_submit_shares_standard msg) deserialize_submit_shares_standard msg
  unfolding serialize_submit_shares_standard deserialize_submit_shares_standard
  submit_shares_standard_round_trip msg h = RoundTrips-Codes (
      Codes-seq _ _ _ _ _ _ (Codes-u32 _ h.channel_id) (
        Codes-seq _ _ _ _ _ _ (Codes-u32 _ h.sequence_number) (
          Codes-seq _ _ _ _ _ _ (Codes-u32 _ h.job_id) (
            Codes-seq _ _ _ _ _ _ (Codes-u32 _ h.nonce) (
              Codes-seq _ _ _ _ _ _ (Codes-u32 _ h.ntime)
                (Codes-last _ _ _ _ (Codes-u32 _ h.version)))))))

  -- The fields fit the wire types that the source's comments give them.
  pub record IsSubmitSharesSuccess (msg : SubmitSharesSuccess) : Type 0 where
    pub channel_id : IsU32 msg.channel_id
    pub last_sequence_number : IsU32 msg.last_sequence_number
    pub new_submits_accepted_count : IsU32 msg.new_submits_accepted_count
    pub new_shares_sum : IsU64 msg.new_shares_sum

  -- Every SubmitSharesSuccess whose fields fit their wire types is serialized, and its payload is
  -- deserialized, to the last byte, to the same message.
  pub submit_shares_success_round_trip :
      (msg : SubmitSharesSuccess)
      → IsSubmitSharesSuccess msg
      → RoundTrips (serialize_submit_shares_success msg) deserialize_submit_shares_success msg
  unfolding serialize_submit_shares_success deserialize_submit_shares_success
  submit_shares_success_round_trip msg h = RoundTrips-Codes (
      Codes-seq _ _ _ _ _ _ (Codes-u32 _ h.channel_id) (
        Codes-seq _ _ _ _ _ _ (Codes-u32 _ h.last_sequence_number) (
          Codes-seq _ _ _ _ _ _ (Codes-u32 _ h.new_submits_accepted_count)
            (Codes-last _ _ _ _ (Codes-u64 _ h.new_shares_sum)))))

  -- The fields fit the wire types that the source's comments give them.
  pub record IsSubmitSharesError (msg : SubmitSharesError) : Type 0 where
    pub channel_id : IsU32 msg.channel_id
    pub sequence_number : IsU32 msg.sequence_number
    pub error_code : IsStr0_255 msg.error_code

  -- Every SubmitSharesError whose fields fit their wire types is serialized, and its payload is
  -- deserialized, to the last byte, to the same message.
  pub submit_shares_error_round_trip :
      (msg : SubmitSharesError)
      → IsSubmitSharesError msg
      → RoundTrips (serialize_submit_shares_error msg) deserialize_submit_shares_error msg
  unfolding serialize_submit_shares_error deserialize_submit_shares_error
  submit_shares_error_round_trip msg h = RoundTrips-Codes (
      Codes-seq _ _ _ _ _ _ (Codes-u32 _ h.channel_id) (
        Codes-seq _ _ _ _ _ _ (Codes-u32 _ h.sequence_number)
          (Codes-last _ _ _ _ (Codes-str0_255 _ h.error_code))))
