-- ===== src/Session/Credit.antt =====
-- What accepted and rejected shares do to a session of src/models/StratumV1Client.ts, its statistics
-- and the world.
use lido.Base.{
  ℕ, ◌+◌, ◌*◌, Bool, true, not, Option, none, some, List, [], ◌∷◌, ◌++◌, ltb, if◌then◌else◌, Bytes,
}
use lido.Outcome.{Result, ok, err}
use lido.Client.{Units}
use lido.Numbers.{Numbers}
use lido.Mining.{Block}
use lido.Statistics.{Statistics, Write, add_shares, add_rejected}
use lido.Session.{
  Session, Entity, entity_inserted, connected, counted, heartbeat, best_raised, best_announced,
  share_forwarded, block_submitted, block_saved, block_announced, best_difficulties_reset, Socket,
  logged, write, if_written, close_socket,
}
use lido.Session.Messages.{AuthorizationMessage, SubscriptionMessage, refused, StratumErrorCode}

-- What the database and the node answer during a handler, the times before and after its writes to the
-- database, and the least difficulty of a share that is sent to another pool, if any is.
pub record Turn (N : Type 0) : Type 0 where
  pub now : ℕ
  pub later : ℕ
  pub returning_worker : Bool
  pub block_accepted : Bool
  pub already_recorded : Bool
  pub address_best : Bool
  pub external_minimum : Option N

abbrev pub user_agent_of : Option SubscriptionMessage → Units
user_agent_of none = []
user_agent_of (some m) = m.user_agent

unfoldable pub is_due : ℕ → Option ℕ → Bool
is_due now none = true
is_due now (some at) = ltb (at + 60 * 1000) now

module _ ⦃numbers : Numbers⦄ where
  abbrev new_entity :
      Option SubscriptionMessage → AuthorizationMessage numbers.Number → Entity numbers.Number
  new_entity subscription a = record {
    address = a.address;
    client_name = a.worker;
    user_agent = user_agent_of subscription;
    updated_at = none;
    best_difficulty = numbers.of_nat 0;
  }

module _ ⦃numbers : Numbers⦄ {T : Type 0} where
  -- The creation, which a session without an authorization does not come to.
  unfoldable pub create_entity :
      Turn numbers.Number
      → Option (Entity numbers.Number)
      → Option (AuthorizationMessage numbers.Number)
      → Session numbers.Number T
      → Session numbers.Number T
  create_entity turn (some entity) a s = s
  create_entity turn none none s = s
  create_entity turn none (some a) s =
      let entity = new_entity s.subscription a in
      record s {
        entity = some entity;
        log = s.log ++ (entity_inserted entity ∷ connected (not turn.returning_worker) ∷ []);
      }

  unfoldable pub ensure_client_entity :
      Turn numbers.Number → Session numbers.Number T → Session numbers.Number T
  ensure_client_entity turn s = create_entity turn s.entity s.authorization s

  unfoldable pub with_counts :
      List (Write numbers.Number) × Statistics numbers.Number
      → Session numbers.Number T
      → Session numbers.Number T
  with_counts (writes, statistics) s = record s {
    statistics = some statistics;
    log = s.log ++ (counted writes ∷ []);
  }

  unfoldable pub record_rejected :
      Turn numbers.Number
      → Option (AuthorizationMessage numbers.Number)
      → Option (Statistics numbers.Number)
      → Session numbers.Number T
      → Session numbers.Number T
  record_rejected turn none statistics s = s
  record_rejected turn (some a) none s = s
  record_rejected turn (some a) (some statistics) s =
      with_counts (add_rejected turn.now turn.later none statistics) (ensure_client_entity turn s)

  unfoldable pub record_rejected_share :
      Turn numbers.Number → Session numbers.Number T → Session numbers.Number T
  record_rejected_share turn s = record_rejected turn s.authorization s.statistics s

  unfoldable pub reject :
      Socket numbers.Number
      → Turn numbers.Number
      → Units
      → StratumErrorCode
      → Session numbers.Number T
      → Session numbers.Number T
  reject socket turn id code s =
      if_written (write socket (refused id code) s) (record_rejected_share turn)

  unfoldable pub count_accepted :
      Turn numbers.Number
      → Option (Statistics numbers.Number)
      → Session numbers.Number T
      → Session numbers.Number T
  count_accepted turn none s = s
  count_accepted turn (some statistics) s =
      with_counts (add_shares turn.now turn.later s.session_difficulty statistics) s

  unfoldable pub beat :
      ℕ → Option (Entity numbers.Number) → Session numbers.Number T → Session numbers.Number T
  beat now none s = s
  beat now (some entity) s =
      if is_due now entity.updated_at
      then logged (heartbeat now)
          (record s { entity = some (record entity { updated_at = some now }) })
      else s

  unfoldable pub raise_best :
      Turn numbers.Number
      → numbers.Number
      → Option (Entity numbers.Number)
      → Session numbers.Number T
      → Session numbers.Number T
  raise_best turn difficulty none s = s
  raise_best turn difficulty (some entity) s =
      if numbers.greater difficulty entity.best_difficulty
      then record s {
        entity = some (record entity { best_difficulty = difficulty });
        log =
            s.log
            ++ (best_raised difficulty
                ∷ (if turn.address_best then best_announced difficulty ∷ [] else []));
      }
      else s

  unfoldable pub forward_share :
      Option numbers.Number
      → numbers.Number
      → Bytes
      → Session numbers.Number T
      → Session numbers.Number T
  forward_share none difficulty header s = s
  forward_share (some minimum) difficulty header s =
      if numbers.at_least difficulty minimum then logged (share_forwarded header) s else s

  -- What an accepted share changes.
  unfoldable pub credit :
      Turn numbers.Number
      → numbers.Number
      → Bytes
      → Session numbers.Number T
      → Session numbers.Number T
  credit turn difficulty header s =
      let s1 = ensure_client_entity turn s in
      let s2 = count_accepted turn s1.statistics s1 in
      let s3 = beat turn.later s2.entity s2 in
      let s4 = raise_best turn difficulty s3.entity s3 in
      forward_share turn.external_minimum difficulty header s4

  -- A block is submitted and saved, announced unless its height was recorded, and resets the best
  -- difficulties if the node takes it.
  unfoldable pub submit_block :
      Turn numbers.Number → ℕ → Block T → Session numbers.Number T → Session numbers.Number T
  submit_block turn height block s = record s {
    log =
        s.log
        ++ (block_submitted block
            ∷ block_saved height
            ∷ ((if turn.already_recorded then [] else block_announced height ∷ [])
                ++ (if turn.block_accepted then best_difficulties_reset ∷ [] else [])));
  }

  -- An exception ends the session.
  unfoldable pub credit_block :
      Turn numbers.Number
      → numbers.Number
      → Bytes
      → ℕ
      → Result (Block T)
      → Session numbers.Number T
      → Session numbers.Number T
  credit_block turn difficulty header height (err e) s = close_socket s
  credit_block turn difficulty header height (ok block) s =
      credit turn difficulty header (submit_block turn height block s)
