-- ===== src/Client/Fleet/Paces.antt =====
-- checkDifficulty of src/models/StratumV2Client.ts is fair to the other sessions.
use lido.Base.{
  List, if◌then◌else◌, ◌++◌, ℕ, ◌≡◌, refl, ap, ◌∙◌, Bool, true, false, Option, none, some, [], ◌∷◌,
}
use lido.Extranonce.Allocation.{IsManager}
use lido.Client.{Client, Channel, lookup}
use lido.Client.Closing.{Service}
use lido.Client.Orders.{lookup-set_key, JobTemplate, Mining, set_key, lookup-set_key}
use lido.Client.Pacing.{
  Pacing, Reason, abandoned, idle, vardiff, resend, change_difficulty, follow, check_channel,
  check_channels, check_difficulty, unless_same,
}
use lido.Client.Opening.{answer, Handled}
use lido.Client.Fleet.Moves.{close_socket-Fair}
use lido.Client.Fleet.{
  send_jobs_for_channel-prefix, prefix_in, prefix_of, set_key-prefix, Sound, Fair, Fair-kept,
  Fair-trans,
}

module _ {R T D : Type 0} (pacing : Pacing D) (mining : Mining R T D) where
  resend-prefix :
      (latest : Option (JobTemplate R)) (k l : ℕ) (channel : Channel T D) (c : Client T D)
      → prefix_of c k ≡ some channel.extranonce_prefix
      → prefix_of (resend pacing mining latest k channel c).1 l ≡ prefix_of c l
  unfolding resend
  resend-prefix none k l channel c e = refl
  resend-prefix (some t) k l channel c e = send_jobs_for_channel-prefix mining k l channel _ c e

  change_difficulty-Fair :
      (latest : Option (JobTemplate R)) (k : ℕ) (channel : Channel T D) (d : D) (c : Client T D)
      (service : Service)
      → IsManager service.extranonce_manager
      → Sound c service
      → prefix_of c k ≡ some channel.extranonce_prefix
      → let h = change_difficulty pacing mining latest k channel d c service in
        Fair c service h.client h.service
  unfolding change_difficulty
  change_difficulty-Fair latest k channel d c service v y e =
      let moved : Channel T D = record channel { session_difficulty = d } in
      let placed : Client T D = record c { channels = set_key c.channels k moved } in
      Fair-kept c _ service v y (λ l.
        resend-prefix latest k l moved placed (ap prefix_in (lookup-set_key c.channels k moved))
        ∙ set_key-prefix c.channels k l moved e)

  unless_same-Fair :
      (latest : Option (JobTemplate R)) (k : ℕ) (channel : Channel T D) (d : D) (c : Client T D)
      (service : Service) (same : Bool)
      → IsManager service.extranonce_manager
      → Sound c service
      → prefix_of c k ≡ some channel.extranonce_prefix
      → let h = unless_same pacing mining latest k channel d c service same in
        Fair c service h.client h.service
  unfolding unless_same
  unless_same-Fair latest k channel d c service true v y e = Fair-kept c c service v y (λ l. refl)
  unless_same-Fair latest k channel d c service false v y e =
      change_difficulty-Fair latest k channel d c service v y e

  follow-Fair :
      (latest : Option (JobTemplate R)) (k : ℕ) (channel : Channel T D) (c : Client T D)
      (service : Service) (suggestion : Option (Reason × D))
      → IsManager service.extranonce_manager
      → Sound c service
      → prefix_of c k ≡ some channel.extranonce_prefix
      → let h = follow pacing mining latest k channel c service suggestion in
        Fair c service h.client h.service
  unfolding follow
  follow-Fair latest k channel c service none v y e = Fair-kept c c service v y (λ l. refl)
  follow-Fair latest k channel c service (some (abandoned, d)) v y e =
      close_socket-Fair [] c service v
  follow-Fair latest k channel c service (some (idle, d)) v y e =
      unless_same-Fair latest k channel _ c service _ v y e
  follow-Fair latest k channel c service (some (vardiff, d)) v y e =
      unless_same-Fair latest k channel _ c service _ v y e

  check_channel-Fair :
      (latest : Option (JobTemplate R)) (k : ℕ) (c : Client T D) (service : Service)
      → IsManager service.extranonce_manager
      → Sound c service
      → let h = check_channel pacing mining latest k c service (lookup c.channels k) in
        Fair c service h.client h.service
  check_channel-Fair latest k c service v y = go (lookup c.channels k) refl
    where
      go :
          (found : Option (Channel T D))
          → lookup c.channels k ≡ found
          → let h = check_channel pacing mining latest k c service found in
            Fair c service h.client h.service
      go none e = unfold check_channel in Fair-kept c c service v y (λ l. refl)
      go (some channel) e =
          unfold check_channel in
          ready channel.ready_for_jobs (pacing.suggested_difficulty channel.session_difficulty)
        where
          ready :
              (b : Bool) (suggestion : Option (Reason × D))
              → let h =
                  if b
                  then follow pacing mining latest k channel c service suggestion
                  else answer [] c service in
                Fair c service h.client h.service
          ready true suggestion =
              follow-Fair latest k channel c service suggestion v y (ap prefix_in e)
          ready false suggestion = Fair-kept c c service v y (λ l. refl)

  check_channels-Fair :
      (latest : Option (JobTemplate R)) (channels : List (ℕ × Channel T D)) (c : Client T D)
      (service : Service)
      → IsManager service.extranonce_manager
      → Sound c service
      → let h = check_channels pacing mining latest channels c service in
        Fair c service h.client h.service
  unfolding check_channels
  check_channels-Fair latest [] c service v y = Fair-kept c c service v y (λ l. refl)
  check_channels-Fair latest ((k, _) ∷ channels) c service v y =
      let h = check_channel pacing mining latest k c service (lookup c.channels k) in
      let f = check_channel-Fair latest k c service v y in
      let rest = check_channels pacing mining latest channels h.client h.service in
      ends h.closed h rest f (
        Fair-trans c h.client rest.client service h.service rest.service f
          (check_channels-Fair latest channels h.client h.service f.manager f.sound))
    where
      ends :
          (b : Bool) (h rest : Handled T D)
          → Fair c service h.client h.service
          → Fair c service rest.client rest.service
          → let r = if b then h else record rest { sent = h.sent ++ rest.sent } in
            Fair c service r.client r.service
      ends true h rest f g = f
      ends false h rest f g = g

  pub check_difficulty-Fair :
      (latest : Option (JobTemplate R)) (c : Client T D) (service : Service)
      → IsManager service.extranonce_manager
      → Sound c service
      → let h = check_difficulty pacing mining latest c service in Fair c service h.client h.service
  unfolding check_difficulty
  check_difficulty-Fair latest c service v y = check_channels-Fair latest c.channels c service v y
