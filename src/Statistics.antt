-- ===== src/Statistics.antt =====
-- src/models/StratumV1ClientStatistics.ts: the share counts of a session in slots of ten minutes and
-- the pace of its shares, with the rows that src/ORM/client-statistics/client-statistics.service.ts
-- keeps of them. The clock does not go back, and the database does what it is asked for.
pub mod Books
pub mod Ledger
pub mod Suggestion
use lido.Base.{
  ℕ, suc, ◌+◌, ◌-◌, ◌*◌, ◌/◌, Bool, true, false, Option, none, some, List, [], ◌∷◌, ◌++◌, length,
  map, ltb, ◌==◌, if◌then◌else◌,
}
use lido.Client.{Units, same_key}
use lido.Numbers.{Numbers}

abbrev pub cache_size : ℕ
cache_size = 30

abbrev pub slot_ms : ℕ
slot_ms = 1000 * 60 * 10

abbrev pub idle_after_ms : ℕ
idle_after_ms = 60 * 1000

abbrev pub abandon_after_ms : ℕ
abandon_after_ms = 180 * 1000

-- What bucketPayload makes, less the names of the session.
pub record Bucket (N : Type 0) : Type 0 where
  pub time : ℕ
  pub shares : N
  pub accepted_count : ℕ
  pub rejected_count : ℕ

-- The calls of clientStatisticsService.
pub data Write (N : Type 0) : Type 0 where
  insert : Bucket N → Write N
  update : Bucket N → Write N

pub record Statistics (N : Type 0) : Type 0 where
  pub shares : N
  pub accepted_count : ℕ
  pub rejected_count : ℕ
  pub rejected_by_code : List (Units × ℕ)
  pub submission_cache_start : ℕ
  pub last_share_at : Option ℕ
  pub last_activity_at : Option ℕ
  pub submission_cache : List (ℕ × N)
  pub current_time_slot : Option ℕ
  pub last_save : Option ℕ
  pub hash_rate : N
  pub previous_time_slot_time : Option ℕ
  pub current_time_slot_time : Option ℕ
  pub previous_shares : N

-- A null in arithmetic.
abbrev pub null_or_zero : Option ℕ → ℕ
null_or_zero none = 0
null_or_zero (some n) = n

unfoldable pub time_slot : ℕ → ℕ
time_slot date = date / slot_ms * slot_ms

-- The rows of one session after a write.
unfoldable pub put_row : {N : Type 0} → Bucket N → List (Bucket N) → List (Bucket N)
put_row b [] = []
put_row b (row ∷ rows) =
    (if row.time == b.time
      then record row {
        shares = b.shares;
        accepted_count = b.accepted_count;
        rejected_count = b.rejected_count;
      }
      else row)
    ∷ put_row b rows

unfoldable pub write_row : {N : Type 0} → Write N → List (Bucket N) → List (Bucket N)
write_row (insert b) rows = b ∷ rows
write_row (update b) rows = put_row b rows

unfoldable pub write_rows : {N : Type 0} → List (Write N) → List (Bucket N) → List (Bucket N)
write_rows [] rows = rows
write_rows (w ∷ ws) rows = write_rows ws (write_row w rows)

unfoldable pub count_code : List (Units × ℕ) → Units → List (Units × ℕ)
count_code [] code = (code, 1) ∷ []
count_code ((c, n) ∷ rest) code =
    let counted = count_code rest code in
    if same_key c code then (c, n + 1) ∷ rest else (c, n) ∷ counted

-- The empty text counts as no code.
unfoldable pub count_if_given : List (Units × ℕ) → Option Units → List (Units × ℕ)
count_if_given counts none = counts
count_if_given counts (some []) = counts
count_if_given counts (some (c ∷ code)) = count_code counts (c ∷ code)

abbrev pub tail {ℓ} : {A : Type ℓ} → List A → List A
tail [] = []
tail (x ∷ xs) = xs

module _ ⦃numbers : Numbers⦄ where
  abbrev N : Type 0
  N = numbers.Number

  abbrev pub new_statistics : ℕ → Statistics N
  new_statistics now = record {
    shares = numbers.of_nat 0;
    accepted_count = 0;
    rejected_count = 0;
    rejected_by_code = [];
    submission_cache_start = now;
    last_share_at = none;
    last_activity_at = none;
    submission_cache = [];
    current_time_slot = none;
    last_save = none;
    hash_rate = numbers.of_nat 0;
    previous_time_slot_time = none;
    current_time_slot_time = none;
    previous_shares = numbers.of_nat 0;
  }

  -- bucketPayload in the slot that it is called in.
  abbrev pub bucket_payload : ℕ → Statistics N → Bucket N
  bucket_payload slot s = record {
    time = slot;
    shares = s.shares;
    accepted_count = s.accepted_count;
    rejected_count = s.rejected_count;
  }

  unfoldable pub cache_share : ℕ → N → List (ℕ × N) → List (ℕ × N)
  cache_share date difficulty cache =
      (if ltb cache_size (length cache) then tail cache else cache) ++ ((date, difficulty) ∷ [])

  abbrev pub add_share : N → Statistics N → Statistics N
  add_share difficulty s = record s {
    shares = numbers.plus s.shares difficulty;
    accepted_count = s.accepted_count + 1;
  }

  -- The hash rate of a share that is only counted in memory.
  unfoldable pub with_hash_rate : ℕ → Statistics N → Statistics N
  with_hash_rate date s = record s {
    hash_rate =
        if numbers.greater s.shares (numbers.of_nat 0)
        then numbers.over
            (numbers.times (numbers.plus s.previous_shares s.shares) (numbers.of_nat 4294967296))
            (numbers.over (numbers.of_nat (date - null_or_zero s.previous_time_slot_time))
              (numbers.of_nat 1000))
        else s.hash_rate;
  }

  -- The first slot begins.
  abbrev pub start_slot : ℕ → ℕ → Statistics N → Statistics N
  start_slot date slot s = record s {
    previous_time_slot_time = some date;
    current_time_slot_time = some date;
    current_time_slot = some slot;
  }

  -- The next slot begins, with these counts, after the last one was written.
  abbrev pub next_slot : ℕ → ℕ → N → ℕ → ℕ → Statistics N → Statistics N
  next_slot later slot shares accepted rejected s = record s {
    previous_shares = s.shares;
    previous_time_slot_time = s.current_time_slot_time;
    current_time_slot_time = some later;
    current_time_slot = some slot;
    shares = shares;
    accepted_count = accepted;
    rejected_count = rejected;
  }

  abbrev pub saved : ℕ → Statistics N → Statistics N
  saved at s = record s { last_save = some at }

  -- `later` is the time after the writes. The flags are whether the slot is still `slot` and whether
  -- the last write is more than a minute ago.
  unfoldable pub count_share :
      ℕ → ℕ → N → ℕ → ℕ → Bool → Bool → Statistics N → List (Write N) × Statistics N
  count_share date later difficulty slot old false due s =
      let s1 = next_slot later slot difficulty 1 0 s in
      (update (bucket_payload old s) ∷ insert (bucket_payload slot s1) ∷ [], saved later s1)
  count_share date later difficulty slot old true true s =
      let s1 = add_share difficulty s in (update (bucket_payload old s1) ∷ [], saved later s1)
  count_share date later difficulty slot old true false s =
      ([], with_hash_rate date (add_share difficulty s))

  unfoldable pub count_share_in :
      ℕ → ℕ → N → ℕ → Option ℕ → Statistics N → List (Write N) × Statistics N
  count_share_in date later difficulty slot none s =
      let s1 = add_share difficulty (start_slot date slot s) in
      (insert (bucket_payload slot s1) ∷ [], saved later s1)
  count_share_in date later difficulty slot (some old) s =
      count_share date later difficulty slot old (old == slot)
        (ltb (null_or_zero s.last_save + 60 * 1000) date) s

  unfoldable pub add_shares : ℕ → ℕ → N → Statistics N → List (Write N) × Statistics N
  add_shares date later difficulty s =
      count_share_in date later difficulty (time_slot date) s.current_time_slot (record s {
        submission_cache = cache_share date difficulty s.submission_cache;
        last_share_at = some date;
        last_activity_at = some date;
      })

  unfoldable pub count_reject :
      ℕ → ℕ → ℕ → ℕ → Bool → Bool → Statistics N → List (Write N) × Statistics N
  count_reject date later slot old false due s =
      let s1 = next_slot later slot (numbers.of_nat 0) 0 1 s in
      (update (bucket_payload old s) ∷ insert (bucket_payload slot s1) ∷ [], saved date s1)
  count_reject date later slot old true true s =
      let s1 = record s { rejected_count = s.rejected_count + 1 } in
      (update (bucket_payload old s1) ∷ [], saved date s1)
  count_reject date later slot old true false s =
      ([], record s { rejected_count = s.rejected_count + 1 })

  unfoldable pub count_reject_in :
      ℕ → ℕ → ℕ → Option ℕ → Statistics N → List (Write N) × Statistics N
  count_reject_in date later slot none s =
      let s1 = record (start_slot date slot s) { rejected_count = 1 } in
      (insert (bucket_payload slot s1) ∷ [], saved date s1)
  count_reject_in date later slot (some old) s =
      count_reject date later slot old (old == slot)
        (ltb (null_or_zero s.last_save + 60 * 1000) date) s

  unfoldable pub add_rejected : ℕ → ℕ → Option Units → Statistics N → List (Write N) × Statistics N
  add_rejected date later code s =
      count_reject_in date later (time_slot date) s.current_time_slot (record s {
        rejected_by_code = count_if_given s.rejected_by_code code;
        last_activity_at = some date;
      })
