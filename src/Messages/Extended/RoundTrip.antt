-- ===== src/Messages/Extended/RoundTrip.antt =====
-- Round trips of the messages of src/models/sv2/sv2-extended-messages.ts: the messages of extended channels.
use lido.Node.{Node}
use lido.Codec.Codes.{
  Codes-seq, Codes-last, Codes-u16, Codes-u32, Codes-bool, Codes-u256, Codes-option_u32,
  Codes-b0_32, Codes-b0_64k, Codes-str0_255, IsStr0_255, IsOptionU32,
}
use lido.Codec.RoundTrip.{
  RoundTrips, RoundTrips-Codes, IsU16, IsU32, IsF32, IsU256, IsB0_32, IsB0_64K, IsSeq0_255u256,
  IsSeq0_64Ku32, Codes-f32_exact, Codes-seq0_255_u256, Codes-seq0_64k_u32,
}
use lido.Messages.Extended.{
  OpenExtendedMiningChannel, serialize_open_extended_mining_channel,
  deserialize_open_extended_mining_channel, OpenExtendedMiningChannelSuccess,
  serialize_open_extended_mining_channel_success, deserialize_open_extended_mining_channel_success,
  NewExtendedMiningJob, serialize_new_extended_mining_job, deserialize_new_extended_mining_job,
  SubmitSharesExtended, serialize_submit_shares_extended, deserialize_submit_shares_extended,
  SetExtranoncePrefix, serialize_set_extranonce_prefix, deserialize_set_extranonce_prefix,
  SetGroupChannel, serialize_set_group_channel, deserialize_set_group_channel,
}

module _ ⦃node : Node⦄ where
  -- The fields fit the wire types that the source's comments give them.
  pub record IsOpenExtendedMiningChannel (msg : OpenExtendedMiningChannel) : Type 0 where
    pub request_id : IsU32 msg.request_id
    pub user_identity : IsStr0_255 msg.user_identity
    pub nominal_hash_rate : IsF32 msg.nominal_hash_rate
    pub max_target : IsU256 msg.max_target
    pub min_extranonce_size : IsU16 msg.min_extranonce_size

  -- Every OpenExtendedMiningChannel whose fields fit their wire types is serialized, and its payload is
  -- deserialized, to the last byte, to the same message.
  pub open_extended_mining_channel_round_trip :
      (msg : OpenExtendedMiningChannel)
      → IsOpenExtendedMiningChannel msg
      → RoundTrips
          (serialize_open_extended_mining_channel msg)
          deserialize_open_extended_mining_channel
          msg
  unfolding serialize_open_extended_mining_channel deserialize_open_extended_mining_channel
  open_extended_mining_channel_round_trip msg h = RoundTrips-Codes (
      Codes-seq _ _ _ _ _ _ (Codes-u32 _ h.request_id) (
        Codes-seq _ _ _ _ _ _ (Codes-str0_255 _ h.user_identity) (
          Codes-seq _ _ _ _ _ _ (Codes-f32_exact _ h.nominal_hash_rate) (
            Codes-seq _ _ _ _ _ _ (Codes-u256 _ h.max_target.0 h.max_target.1)
              (Codes-last _ _ _ _ (Codes-u16 _ h.min_extranonce_size))))))

  -- The fields fit the wire types that the source's comments give them.
  pub record IsOpenExtendedMiningChannelSuccess (msg : OpenExtendedMiningChannelSuccess)
      : Type 0 where
    pub request_id : IsU32 msg.request_id
    pub channel_id : IsU32 msg.channel_id
    pub target : IsU256 msg.target
    pub extranonce_size : IsU16 msg.extranonce_size
    pub extranonce_prefix : IsB0_32 msg.extranonce_prefix
    pub group_channel_id : IsU32 msg.group_channel_id

  -- Every OpenExtendedMiningChannelSuccess whose fields fit their wire types is serialized, and its payload is
  -- deserialized, to the last byte, to the same message.
  pub open_extended_mining_channel_success_round_trip :
      (msg : OpenExtendedMiningChannelSuccess)
      → IsOpenExtendedMiningChannelSuccess msg
      → RoundTrips
          (serialize_open_extended_mining_channel_success msg)
          deserialize_open_extended_mining_channel_success
          msg
  unfolding serialize_open_extended_mining_channel_success
      deserialize_open_extended_mining_channel_success
  open_extended_mining_channel_success_round_trip msg h = RoundTrips-Codes (
      Codes-seq _ _ _ _ _ _ (Codes-u32 _ h.request_id) (
        Codes-seq _ _ _ _ _ _ (Codes-u32 _ h.channel_id) (
          Codes-seq _ _ _ _ _ _ (Codes-u256 _ h.target.0 h.target.1) (
            Codes-seq _ _ _ _ _ _ (Codes-u16 _ h.extranonce_size) (
              Codes-seq _ _ _ _ _ _ (Codes-b0_32 _ h.extranonce_prefix.0 h.extranonce_prefix.1)
                (Codes-last _ _ _ _ (Codes-u32 _ h.group_channel_id)))))))

  -- The fields fit the wire types that the source's comments give them.
  pub record IsNewExtendedMiningJob (msg : NewExtendedMiningJob) : Type 0 where
    pub channel_id : IsU32 msg.channel_id
    pub job_id : IsU32 msg.job_id
    pub min_ntime : IsOptionU32 msg.min_ntime
    pub version : IsU32 msg.version
    pub merkle_path : IsSeq0_255u256 msg.merkle_path
    pub coinbase_prefix : IsB0_64K msg.coinbase_prefix
    pub coinbase_suffix : IsB0_64K msg.coinbase_suffix

  -- Every NewExtendedMiningJob whose fields fit their wire types is serialized, and its payload is
  -- deserialized, to the last byte, to the same message.
  pub new_extended_mining_job_round_trip :
      (msg : NewExtendedMiningJob)
      → IsNewExtendedMiningJob msg
      → RoundTrips (serialize_new_extended_mining_job msg) deserialize_new_extended_mining_job msg
  unfolding serialize_new_extended_mining_job deserialize_new_extended_mining_job
  new_extended_mining_job_round_trip msg h = RoundTrips-Codes (
      Codes-seq _ _ _ _ _ _ (Codes-u32 _ h.channel_id) (
        Codes-seq _ _ _ _ _ _ (Codes-u32 _ h.job_id) (
          Codes-seq _ _ _ _ _ _ (Codes-option_u32 _ h.min_ntime) (
            Codes-seq _ _ _ _ _ _ (Codes-u32 _ h.version) (
              Codes-seq _ _ _ _ _ _ (Codes-bool _) (
                Codes-seq _ _ _ _ _ _ (Codes-seq0_255_u256 _ h.merkle_path) (
                  Codes-seq _ _ _ _ _ _ (Codes-b0_64k _ h.coinbase_prefix.0 h.coinbase_prefix.1) (
                    Codes-last _ _ _ _
                      (Codes-b0_64k _ h.coinbase_suffix.0 h.coinbase_suffix.1)))))))))

  -- The fields fit the wire types that the source's comments give them.
  pub record IsSubmitSharesExtended (msg : SubmitSharesExtended) : Type 0 where
    pub channel_id : IsU32 msg.channel_id
    pub sequence_number : IsU32 msg.sequence_number
    pub job_id : IsU32 msg.job_id
    pub nonce : IsU32 msg.nonce
    pub ntime : IsU32 msg.ntime
    pub version : IsU32 msg.version
    pub extranonce : IsB0_32 msg.extranonce

  -- Every SubmitSharesExtended whose fields fit their wire types is serialized, and its payload is
  -- deserialized, to the last byte, to the same message.
  pub submit_shares_extended_round_trip :
      (msg : SubmitSharesExtended)
      → IsSubmitSharesExtended msg
      → RoundTrips (serialize_submit_shares_extended msg) deserialize_submit_shares_extended msg
  unfolding serialize_submit_shares_extended deserialize_submit_shares_extended
  submit_shares_extended_round_trip msg h = RoundTrips-Codes (
      Codes-seq _ _ _ _ _ _ (Codes-u32 _ h.channel_id) (
        Codes-seq _ _ _ _ _ _ (Codes-u32 _ h.sequence_number) (
          Codes-seq _ _ _ _ _ _ (Codes-u32 _ h.job_id) (
            Codes-seq _ _ _ _ _ _ (Codes-u32 _ h.nonce) (
              Codes-seq _ _ _ _ _ _ (Codes-u32 _ h.ntime) (
                Codes-seq _ _ _ _ _ _ (Codes-u32 _ h.version)
                  (Codes-last _ _ _ _ (Codes-b0_32 _ h.extranonce.0 h.extranonce.1))))))))

  -- The fields fit the wire types that the source's comments give them.
  pub record IsSetExtranoncePrefix (msg : SetExtranoncePrefix) : Type 0 where
    pub channel_id : IsU32 msg.channel_id
    pub extranonce_prefix : IsB0_32 msg.extranonce_prefix

  -- Every SetExtranoncePrefix whose fields fit their wire types is serialized, and its payload is
  -- deserialized, to the last byte, to the same message.
  pub set_extranonce_prefix_round_trip :
      (msg : SetExtranoncePrefix)
      → IsSetExtranoncePrefix msg
      → RoundTrips (serialize_set_extranonce_prefix msg) deserialize_set_extranonce_prefix msg
  unfolding serialize_set_extranonce_prefix deserialize_set_extranonce_prefix
  set_extranonce_prefix_round_trip msg h = RoundTrips-Codes (
      Codes-seq _ _ _ _ _ _ (Codes-u32 _ h.channel_id)
        (Codes-last _ _ _ _ (Codes-b0_32 _ h.extranonce_prefix.0 h.extranonce_prefix.1)))

  -- The fields fit the wire types that the source's comments give them.
  pub record IsSetGroupChannel (msg : SetGroupChannel) : Type 0 where
    pub group_channel_id : IsU32 msg.group_channel_id
    pub channel_ids : IsSeq0_64Ku32 msg.channel_ids

  -- Every SetGroupChannel whose fields fit their wire types is serialized, and its payload is
  -- deserialized, to the last byte, to the same message.
  pub set_group_channel_round_trip :
      (msg : SetGroupChannel)
      → IsSetGroupChannel msg
      → RoundTrips (serialize_set_group_channel msg) deserialize_set_group_channel msg
  unfolding serialize_set_group_channel deserialize_set_group_channel
  set_group_channel_round_trip msg h = RoundTrips-Codes (
      Codes-seq _ _ _ _ _ _ (Codes-u32 _ h.group_channel_id)
        (Codes-last _ _ _ _ (Codes-seq0_64k_u32 _ h.channel_ids)))
