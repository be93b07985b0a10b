-- ===== src/Client/Updating.antt =====
-- handleUpdateChannel of src/models/StratumV2Client.ts.
use lido.Base.{ℕ, not, if◌then◌else◌, Option, none, some, List, [], ◌∷◌}
use lido.Node.{Node}
use lido.Messages.Channel.{UpdateChannel}
use lido.Client.{Client, Channel, lookup}
use lido.Client.Orders.{
  Sent, update_channel_error, no_such_channel, update_target_out_of_range, Mining, set_key,
  target_frame,
}
use lido.Client.Opening.{Rules, bad_target}

module _ ⦃node : Node⦄ {R T D : Type 0} (rules : Rules node D) (mining : Mining R T D) where
  -- A new difficulty is announced; the same one is not.
  unfoldable pub retarget : ℕ → Channel T D → D → Client T D → List Sent × Client T D
  retarget channel_id channel d c =
      if rules.same_difficulty d channel.session_difficulty
      then ([], record c { channels = set_key c.channels channel_id channel })
      else (
        target_frame mining channel_id d ∷ [],
        record c {
          channels = set_key c.channels channel_id (record channel { session_difficulty = d });
        },
      )

  unfoldable pub update_found :
      UpdateChannel → Client T D → Option (Channel T D) → List Sent × Client T D
  update_found msg c none = (update_channel_error msg.channel_id no_such_channel ∷ [], c)
  update_found msg c (some channel) =
      let moved = record channel { max_target = msg.maximum_target } in
      if bad_target msg.maximum_target
      then (update_channel_error msg.channel_id update_target_out_of_range ∷ [], c)
      else if not (rules.is_positive msg.nominal_hash_rate)
      then ([], record c { channels = set_key c.channels msg.channel_id moved })
      else retarget msg.channel_id moved
          (rules.resolve_channel_difficulty msg.nominal_hash_rate msg.maximum_target) c

  unfoldable pub handle_update_channel : UpdateChannel → Client T D → List Sent × Client T D
  handle_update_channel msg c = update_found msg c (lookup c.channels msg.channel_id)
