-- ===== src/Client/Fleet/Handlers.antt =====
-- The handlers of src/models/StratumV2Client.ts that open and update channels and send jobs are fair
-- to the other sessions.
use lido.Base.{
  ℕ, ◌≡◌, refl, ap, ◌∙◌, Bool, true, false, Option, none, some, [], ◌∷◌, ltb, Bytes, inl, inr,
  Bool-cases,
}
use lido.Outcome.{ok}
use lido.Node.{Node}
use lido.Messages.Channel.{OpenStandardMiningChannel, UpdateChannel}
use lido.Messages.Extended.{OpenExtendedMiningChannel}
use lido.Extranonce.{Manager, allocate}
use lido.Extranonce.Allocation.{IsManager}
use lido.Client.{Client, Channel, standard, extended, lookup}
use lido.Client.Closing.{Service}
use lido.Client.Orders.{
  lookup-set_key, JobTemplate, Mining, Sent, set_key, lookup-set_key, lookup-set_key_other,
  enqueue_canonical_job, open_channel_error, OpenChannelError,
}
use lido.Client.Opening.{
  new_channel, place_extended, Rules, Handled, open_with, unless_refused, identified,
  register_standard, register_extended, handle_open_standard_mining_channel,
  handle_open_extended_mining_channel, max_miner_extranonce_size, chosen_extranonce_size,
  bad_target,
}
use lido.Client.Updating.{retarget, update_found, handle_update_channel}
use lido.Client.Fleet.Moves.{taken, Fair-opened, Fair-returned, close_socket-Fair, with_number-Fair}
use lido.Client.Fleet.{
  prefix_in, prefix_of, set_key-prefix, send_if_any-prefix, send_jobs-prefix, Sound, Fair,
  Fair-kept, Fair-trans,
}

module _ ⦃node : Node⦄ {R T D : Type 0} (rules : Rules node D) (mining : Mining R T D) where
  pub unless_refused-Fair :
      (request_id : ℕ) (c : Client T D) (service : Service) (opened : Handled T D)
      (r : Option (OpenChannelError × Bool))
      → IsManager service.extranonce_manager
      → Sound c service
      → Fair c service opened.client opened.service
      → let h = unless_refused rules mining request_id c service opened r in
        Fair c service h.client h.service
  unfolding unless_refused
  unless_refused-Fair request_id c service opened none v y f = f
  unless_refused-Fair request_id c service opened (some (e, true)) v y f =
      close_socket-Fair (open_channel_error request_id e ∷ []) c service v
  unless_refused-Fair request_id c service opened (some (e, false)) v y f =
      Fair-kept c c service v y (λ l. refl)

  pub open_with-Fair :
      (success : Sent) (latest : Option (JobTemplate R)) (channel : Channel T D) (c : Client T D)
      (service : Service) (m : Manager)
      → IsManager service.extranonce_manager
      → Sound c service
      → allocate service.channel_id_counter service.extranonce_manager
        ≡ ok (channel.extranonce_prefix, m)
      → let h =
          open_with rules mining success latest service.channel_id_counter channel c
            (taken service m) in
        Fair c service h.client h.service
  unfolding open_with
  open_with-Fair success latest channel c service m v y got =
      let k = service.channel_id_counter in
      let ready : Channel T D = record channel { ready_for_jobs = true } in
      let placed : Client T D = record c { channels = set_key c.channels k ready } in
      let at : prefix_of placed k ≡ some channel.extranonce_prefix =
        ap prefix_in (lookup-set_key c.channels k ready) in
      Fair-opened c _ service channel.extranonce_prefix m v y got
        (send_if_any-prefix mining latest k k ready placed at ∙ at)
        (λ l h.
          send_if_any-prefix mining latest k l ready placed at
          ∙ ap prefix_in (lookup-set_key_other c.channels k l ready h))

  pub open_standard-Fair :
      (msg : OpenStandardMiningChannel) (latest : Option (JobTemplate R)) (c : Client T D)
      (service : Service)
      → IsManager service.extranonce_manager
      → Sound c service
      → let h = handle_open_standard_mining_channel rules mining msg latest c service in
        Fair c service h.client h.service
  unfolding handle_open_standard_mining_channel identified register_standard
  open_standard-Fair msg latest c service v y =
      unless_refused-Fair msg.request_id c service _ _ v y (
        let c1 : Client T D = identified rules mining msg.user_identity c in
        let f = Fair-kept c c1 service v y (λ l. refl) in
        Fair-trans c c1 _ service service _ f (
          with_number-Fair c1 service (register_standard rules mining msg latest c1) v f.sound
            (λ p m got.
              open_with-Fair _ latest (new_channel rules mining standard p 8 _ msg.max_target) c1
                service m v f.sound got)))

  pub open_extended-Fair :
      (msg : OpenExtendedMiningChannel) (latest : Option (JobTemplate R)) (c : Client T D)
      (service : Service)
      → IsManager service.extranonce_manager
      → Sound c service
      → let h = handle_open_extended_mining_channel rules mining msg latest c service in
        Fair c service h.client h.service
  unfolding handle_open_extended_mining_channel identified register_extended
  open_extended-Fair msg latest c service v y =
      unless_refused-Fair msg.request_id c service _ _ v y (
        Fair-trans c c1 _ service service _ f (
          with_number-Fair c1 service (register_extended rules mining msg latest c1) v f.sound
            (λ p m got. placed p m got (
              ltb (max_miner_extranonce_size rules mining p (taken service m)) (
                chosen_extranonce_size rules mining msg.min_extranonce_size p (taken service m))))))
    where
      c1 : Client T D
      c1 = identified rules mining msg.user_identity c

      f : Fair c service c1 service
      f = Fair-kept c c1 service v y (λ l. refl)

      placed :
          (p : Bytes) (m : Manager)
          → allocate service.channel_id_counter service.extranonce_manager ≡ ok (p, m)
          → (too_large : Bool)
          → let h =
              place_extended rules mining msg latest c1 service.channel_id_counter p
                (taken service m)
                too_large in
            Fair c1 service h.client h.service
      placed p m got true = unfold place_extended in Fair-returned c1 service p m v f.sound got
      placed p m got false =
          unfold place_extended in
          open_with-Fair _ latest (new_channel rules mining extended p _ _ msg.max_target) c1
            service m v f.sound got

  retarget-prefix :
      (k l : ℕ) (channel : Channel T D) (d : D) (c : Client T D)
      → prefix_of c k ≡ some channel.extranonce_prefix
      → prefix_of (retarget rules mining k channel d c).1 l ≡ prefix_of c l
  unfolding retarget
  retarget-prefix k l channel d c e =
      elim (Bool-cases (rules.same_difficulty d channel.session_difficulty)) [
        | inl same ↦ rw same (set_key-prefix c.channels k l channel e)
        | inr other ↦
            rw other (set_key-prefix c.channels k l (record channel { session_difficulty = d }) e)
      ]

  update_found-prefix :
      (msg : UpdateChannel) (c : Client T D) (channel : Channel T D) (l : ℕ)
      → prefix_of c msg.channel_id ≡ some channel.extranonce_prefix
      → prefix_of (update_found rules mining msg c (some channel)).1 l ≡ prefix_of c l
  unfolding update_found
  update_found-prefix msg c channel l e =
      let moved : Channel T D = record channel { max_target = msg.maximum_target } in
      elim (Bool-cases (bad_target msg.maximum_target)) [
        | inl bad ↦ rw bad
        | inr fine ↦ elim (Bool-cases (rules.is_positive msg.nominal_hash_rate)) [
          | inl positive ↦ rw (fine, positive) (retarget-prefix msg.channel_id l moved _ c e)
          | inr not_positive ↦
              rw (fine, not_positive) (set_key-prefix c.channels msg.channel_id l moved e)
        ]
      ]

  pub update_channel-Fair :
      (msg : UpdateChannel) (c : Client T D) (service : Service)
      → IsManager service.extranonce_manager
      → Sound c service
      → Fair c service (handle_update_channel rules mining msg c).1 service
  unfolding handle_update_channel
  update_channel-Fair msg c service v y = go (lookup c.channels msg.channel_id) refl
    where
      go :
          (found : Option (Channel T D))
          → lookup c.channels msg.channel_id ≡ found
          → Fair c service (update_found rules mining msg c found).1 service
      go none e = unfold update_found in Fair-kept c c service v y (λ l. refl)
      go (some channel) e =
          Fair-kept c _ service v y (λ l. update_found-prefix msg c channel l (ap prefix_in e))

  pub enqueue_canonical_job-Fair :
      (t : JobTemplate R) (c : Client T D) (service : Service)
      → IsManager service.extranonce_manager
      → Sound c service
      → Fair c service (enqueue_canonical_job mining t c).1 service
  unfolding enqueue_canonical_job
  enqueue_canonical_job-Fair t c service v y =
      Fair-kept c _ service v y (send_jobs-prefix mining c.channels t c)
