-- ===== src/Statistics/Books.antt =====
-- Runs of src/models/StratumV1ClientStatistics.ts on the shares of a session, with the rows that the
-- database has of it.
use lido.Base.{ℕ, ◌+◌, ◌≤◌, Option, none, some, List, [], ◌∷◌}
use lido.Client.{Units}
use lido.Numbers.{Numbers}
use lido.Statistics.{
  Bucket, Write, Statistics, put_row, write_rows, bucket_payload, add_shares, add_rejected,
}

pub data Share (N : Type 0) : Type 0 where
  accept : N → Share N
  reject : Option Units → Share N

-- A share with the times before and after its writes.
pub record Arrival (N : Type 0) : Type 0 where
  pub date : ℕ
  pub later : ℕ
  pub share : Share N

-- The rows of the database and the object.
pub record Books (N : Type 0) : Type 0 where
  pub rows : List (Bucket N)
  pub statistics : Statistics N

module _ {N : Type 0} where
  abbrev pub sum_accepted : List (Bucket N) → ℕ
  sum_accepted [] = 0
  sum_accepted (b ∷ bs) = b.accepted_count + sum_accepted bs

  abbrev pub sum_rejected : List (Bucket N) → ℕ
  sum_rejected [] = 0
  sum_rejected (b ∷ bs) = b.rejected_count + sum_rejected bs

  abbrev pub accepted_one : Share N → ℕ
  accepted_one (accept d) = 1
  accepted_one (reject code) = 0

  abbrev pub rejected_one : Share N → ℕ
  rejected_one (accept d) = 0
  rejected_one (reject code) = 1

  abbrev pub accepts : List (Arrival N) → ℕ
  accepts [] = 0
  accepts (e ∷ es) = accepted_one e.share + accepts es

  abbrev pub rejects : List (Arrival N) → ℕ
  rejects [] = 0
  rejects (e ∷ es) = rejected_one e.share + rejects es

  -- The clock of the arrivals does not go back.
  abbrev pub InOrder : ℕ → List (Arrival N) → Type 0
  InOrder now [] = Unit {0}
  InOrder now (e ∷ es) = (now ≤ e.date) × InOrder e.date es

module _ ⦃numbers : Numbers⦄ where
  abbrev N : Type 0
  N = numbers.Number

  abbrev pub settle : List (Bucket N) → List (Write N) × Statistics N → Books N
  settle rows (writes, s) = record { rows = write_rows writes rows; statistics = s }

  unfoldable pub arrive_share : ℕ → ℕ → Share N → Books N → Books N
  arrive_share date later (accept d) b = settle b.rows (add_shares date later d b.statistics)
  arrive_share date later (reject code) b =
      settle b.rows (add_rejected date later code b.statistics)

  unfoldable pub arrivals : List (Arrival N) → Books N → Books N
  arrivals [] b = b
  arrivals (e ∷ es) b = arrivals es (arrive_share e.date e.later e.share b)

  -- The rows as the next write of the current slot leaves them.
  abbrev pub flushed : Books N → Option ℕ → List (Bucket N)
  flushed b none = b.rows
  flushed b (some slot) = put_row (bucket_payload slot b.statistics) b.rows
