-- ===== src/Client/Pacing.antt =====
-- checkDifficulty of src/models/StratumV2Client.ts: once a minute it fits the difficulties of a
-- session's channels to their pace. Its alert of a struggling miner is left out.
use lido.Base.{
  ap, ℕ, ◌+◌, ◌<◌, ◌≤◌, ◌≡◌, Bool, true, false, Option, none, some, List, [], ◌∷◌, ◌++◌, max,
  if◌then◌else◌, Bytes, arith,
}
use lido.Client.{Client, Channel, lookup}
use lido.Client.Closing.{Service}
use lido.Client.Orders.{Sent, JobTemplate, Mining, set_key, target_frame, send_jobs_for_channel}
use lido.Client.Opening.{Handled, answer, close_socket}

-- Why src/models/StratumV1ClientStatistics.ts suggests a difficulty.
pub data Reason : Type 0 where
  abandoned idle vardiff : Reason

-- What the statistics, the clamps of a difficulty and Date.now give.
pub record Pacing (D : Type 0) : Type 0 where
  pub suggested_difficulty : D → Option (Reason × D)
  pub clamped : D → Bytes → D
  pub same_difficulty : D → D → Bool
  -- Math.floor(Date.now() / 1000)
  pub now : ℕ

-- `(this.lastSentMiningJobTimestamp ?? 0) + 1`
abbrev pub after_last : Option ℕ → ℕ
after_last none = 1
after_last (some last) = last + 1

module _ {R T D : Type 0} (pacing : Pacing D) (mining : Mining R T D) where
  unfoldable pub refreshed : JobTemplate R → Client T D → JobTemplate R
  refreshed t c = record t {
    timestamp = max t.timestamp (max pacing.now (after_last c.last_sent_mining_job_timestamp));
    clear_jobs = true;
  }

  -- The latest job is sent again, with a later time.
  unfoldable pub resend :
      Option (JobTemplate R) → ℕ → Channel T D → Client T D → List Sent × Client T D
  resend none channel_id channel c = ([], c)
  resend (some t) channel_id channel c =
      send_jobs_for_channel mining channel_id channel (refreshed t c) c

  unfoldable pub change_difficulty :
      Option (JobTemplate R) → ℕ → Channel T D → D → Client T D → Service → Handled T D
  change_difficulty latest channel_id channel d c service =
      let moved = record channel { session_difficulty = d } in
      let (frames, c') =
        resend latest channel_id moved
          (record c { channels = set_key c.channels channel_id moved }) in
      answer (target_frame mining channel_id d ∷ frames) c' service

  -- The flag is whether the difficulty is the channel's already.
  unfoldable pub unless_same :
      Option (JobTemplate R) → ℕ → Channel T D → D → Client T D → Service → Bool → Handled T D
  unless_same latest channel_id channel target c service true = answer [] c service
  unless_same latest channel_id channel target c service false =
      change_difficulty latest channel_id channel target c service

  unfoldable pub follow :
      Option (JobTemplate R)
      → ℕ
      → Channel T D
      → Client T D
      → Service
      → Option (Reason × D)
      → Handled T D
  follow latest channel_id channel c service none = answer [] c service
  follow latest channel_id channel c service (some (abandoned, d)) = close_socket [] c service
  follow latest channel_id channel c service (some (_, d)) =
      let target = pacing.clamped d channel.max_target in
      unless_same latest channel_id channel target c service
        (pacing.same_difficulty target channel.session_difficulty)

  unfoldable pub check_channel :
      Option (JobTemplate R) → ℕ → Client T D → Service → Option (Channel T D) → Handled T D
  check_channel latest channel_id c service none = answer [] c service
  check_channel latest channel_id c service (some channel) =
      if channel.ready_for_jobs
      then follow latest channel_id channel c service
          (pacing.suggested_difficulty channel.session_difficulty)
      else answer [] c service

  -- The rest of the loop, which a closed socket ends.
  abbrev pub after_check : Handled T D → Handled T D → Handled T D
  after_check h rest = if h.closed then h else record rest { sent = h.sent ++ rest.sent }

  unfoldable pub check_channels :
      Option (JobTemplate R) → List (ℕ × Channel T D) → Client T D → Service → Handled T D
  check_channels latest [] c service = answer [] c service
  check_channels latest ((channel_id, _) ∷ channels) c service =
      let h = check_channel latest channel_id c service (lookup c.channels channel_id) in
      after_check h (check_channels latest channels h.client h.service)

  unfoldable pub check_difficulty : Option (JobTemplate R) → Client T D → Service → Handled T D
  check_difficulty latest c service = check_channels latest c.channels c service

  -- The template that is sent again is no earlier than the latest one or the clock, and later than the
  -- last job that the session was sent.
  pub refreshed_lem :
      (t : JobTemplate R) (c : Client T D) (last : ℕ)
      → c.last_sent_mining_job_timestamp ≡ some last
      → (t.timestamp ≤ (refreshed t c).timestamp)
        × (pacing.now ≤ (refreshed t c).timestamp)
        × (last < (refreshed t c).timestamp)
  unfolding refreshed
  refreshed_lem t c last e =
      let a : after_last c.last_sent_mining_job_timestamp ≡ last + 1 = ap after_last e in
      (omega arith, omega arith, omega (arith, a))
