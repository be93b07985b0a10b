-- ===== src/Statistics/Ledger.antt =====
-- What the rows of src/models/StratumV1ClientStatistics.ts add up to.
use lido.Base.{
  ℕ, ◌+◌, ◌≤◌, ◌<◌, ◌≡◌, refl, sym, ap, ◌∙◌, subst, Bool, true, false, Option, none, some, List, [],
  ◌∷◌, All, All-map, ◌==◌, arith,
}
use lido.Numbers.{Numbers}
use lido.Statistics.Books.{
  Share, accept, reject, Arrival, Books, sum_accepted, sum_rejected, accepted_one, rejected_one,
  accepts, rejects, InOrder, settle, arrive_share, arrivals, flushed,
}
use lido.Statistics.{
  Bucket, Statistics, time_slot, put_row, write_row, write_rows, new_statistics, bucket_payload,
  count_share, count_share_in, add_shares, count_reject, count_reject_in, add_rejected,
  with_hash_rate, add_share, start_slot, cache_share, count_if_given,
}

module _ {N : Type 0} where
  -- The rows stand newest first, the current slot's at the head; what the slots before it hold makes
  -- the totals with the counts of the object.
  abbrev LedgerOf : List (Bucket N) → ℕ → ℕ → ℕ → ℕ → ℕ → Option ℕ → Type 0
  LedgerOf rows now accepted rejected a r none =
      (rows ≡ []) × (accepted ≡ 0) × (rejected ≡ 0) × (a ≡ 0) × (r ≡ 0)
  LedgerOf rows now accepted rejected a r (some slot) =
      (head : Bucket N) × (older : List (Bucket N)) × (rows ≡ head ∷ older)
      × (head.time ≡ slot)
      × All (λ b. b.time < slot) older
      × (sum_accepted older + accepted ≡ a)
      × (sum_rejected older + rejected ≡ r)
      × (slot ≤ time_slot now)

  abbrev IsLedger : ℕ → ℕ → ℕ → Books N → Type 0
  IsLedger now a r b =
      LedgerOf b.rows now b.statistics.accepted_count b.statistics.rejected_count a r
        b.statistics.current_time_slot

  put_row_older :
      (b : Bucket N) (rows : List (Bucket N))
      → All (λ x. x.time < b.time) rows
      → put_row b rows ≡ rows
  unfolding put_row
  put_row_older b [] h = refl
  put_row_older b (row ∷ rows) h =
      let e : (row.time == b.time) ≡ false = ground arith in rw (e, put_row_older b rows h.1)

  abbrev replaced : Bucket N → Bucket N → Bucket N
  replaced b row = record row {
    shares = b.shares;
    accepted_count = b.accepted_count;
    rejected_count = b.rejected_count;
  }

  put_row_head :
      (b head : Bucket N) (older : List (Bucket N))
      → head.time ≡ b.time
      → All (λ x. x.time < b.time) older
      → put_row b (head ∷ older) ≡ replaced b head ∷ older
  unfolding put_row
  put_row_head b head older e h =
      let same : (head.time == b.time) ≡ true = ground arith in rw (same, put_row_older b older h)

time_slot_le : (a b : ℕ) → a ≤ b → time_slot a ≤ time_slot b
unfolding time_slot
time_slot_le a b h = omega arith

module _ ⦃numbers : Numbers⦄ where
  abbrev N : Type 0
  N = numbers.Number

  after_memory :
      (rows : List (Bucket N)) (now date acc rej a r acc' rej' a' r' slot : ℕ)
      → now ≤ date
      → acc + a' ≡ acc' + a
      → rej + r' ≡ rej' + r
      → LedgerOf rows now acc rej a r (some slot)
      → LedgerOf rows date acc' rej' a' r' (some slot)
  after_memory rows now date acc rej a r acc' rej' a' r' slot later ea er l =
      let (head, older, e, at, old, sa, sr, le) = l in
      let grown = time_slot_le now date later in
      (head, older, e, at, old, omega arith, omega arith, omega arith)

  after_update :
      (rows : List (Bucket N)) (b : Bucket N) (now date acc rej a r acc' rej' a' r' slot : ℕ)
      → now ≤ date
      → acc + a' ≡ acc' + a
      → rej + r' ≡ rej' + r
      → b.time ≡ slot
      → LedgerOf rows now acc rej a r (some slot)
      → LedgerOf (put_row b rows) date acc' rej' a' r' (some slot)
  after_update rows b now date acc rej a r acc' rej' a' r' slot later ea er bt l =
      let (head, older, e, at, old, sa, sr, le) = l in
      let grown = time_slot_le now date later in
      (
        replaced b head,
        older,
        ap (put_row b) e
            ∙ put_row_head b head older (at ∙ sym bt)
                (subst (λ t. All (λ x. x.time < t) older) (sym bt) old),
        at,
        old,
        omega arith,
        omega arith,
        omega arith,
      )

  after_next :
      (rows : List (Bucket N)) (b n : Bucket N) (now date acc rej a r acc' rej' old : ℕ)
      → now ≤ date
      → (old == time_slot date) ≡ false
      → b.time ≡ old
      → b.accepted_count ≡ acc
      → b.rejected_count ≡ rej
      → n.time ≡ time_slot date
      → LedgerOf rows now acc rej a r (some old)
      → LedgerOf (n ∷ put_row b rows) date acc' rej' (a + acc') (r + rej') (some (time_slot date))
  after_next rows b n now date acc rej a r acc' rej' old later other bt ba br nt l =
      let (head, older, e, at, old_older, sa, sr, le) = l in
      let grown = time_slot_le now date later in
      let newer : old < time_slot date = ground arith in
      (
        n,
        replaced b head ∷ older,
        ap (λ x. n ∷ put_row b x) e
            ∙ ap (◌∷◌ n) (
                put_row_head b head older (at ∙ sym bt)
                  (subst (λ t. All (λ x. x.time < t) older) (sym bt) old_older)),
        nt,
        (omega arith, All-map (λ x h. omega arith) older old_older),
        omega arith,
        omega arith,
        omega arith,
      )

  share_counted :
      (rows : List (Bucket N)) (s : Statistics N) (now date later : ℕ) (d : N) (a r old : ℕ)
      (same due : Bool)
      → now ≤ date
      → (old == time_slot date) ≡ same
      → s.current_time_slot ≡ some old
      → LedgerOf rows now s.accepted_count s.rejected_count a r (some old)
      → IsLedger date
          (a + 1)
          (r + 0)
          (settle rows (count_share date later d (time_slot date) old same due s))
  unfolding count_share write_rows write_row with_hash_rate
  share_counted rows s now date later d a r old false due h e at l =
      after_next rows _ _ now date s.accepted_count s.rejected_count a r 1 0 old h e refl refl refl
        refl l
  share_counted rows s now date later d a r old true true h e at l =
      subst (LedgerOf _ date _ _ (a + 1) (r + 0)) (sym at) (
        after_update rows _ now date s.accepted_count s.rejected_count a r (s.accepted_count + 1)
          s.rejected_count (a + 1) (r + 0) old h (omega arith) (omega arith) refl l)
  share_counted rows s now date later d a r old true false h e at l =
      subst (LedgerOf _ date _ _ (a + 1) (r + 0)) (sym at) (
        after_memory rows now date s.accepted_count s.rejected_count a r (s.accepted_count + 1)
          s.rejected_count (a + 1) (r + 0) old h (omega arith) (omega arith) l)

  share-IsLedger :
      (rows : List (Bucket N)) (s : Statistics N) (now date later : ℕ) (d : N) (a r : ℕ)
      (slot : Option ℕ)
      → now ≤ date
      → s.current_time_slot ≡ slot
      → LedgerOf rows now s.accepted_count s.rejected_count a r slot
      → IsLedger date
          (a + 1)
          (r + 0)
          (settle rows (count_share_in date later d (time_slot date) slot s))
  unfolding count_share_in write_rows write_row
  share-IsLedger rows s now date later d a r none h at (e, ea, er, ka, kr) =
      let b = bucket_payload (time_slot date) (add_share d (start_slot date (time_slot date) s)) in
      (b, [], ap (◌∷◌ b) e, refl, tt, omega arith, omega arith, omega arith)
  share-IsLedger rows s now date later d a r (some old) h at l =
      share_counted rows s now date later d a r old _ _ h refl at l

  reject_counted :
      (rows : List (Bucket N)) (s : Statistics N) (now date later : ℕ) (a r old : ℕ)
      (same due : Bool)
      → now ≤ date
      → (old == time_slot date) ≡ same
      → s.current_time_slot ≡ some old
      → LedgerOf rows now s.accepted_count s.rejected_count a r (some old)
      → IsLedger date
          (a + 0)
          (r + 1)
          (settle rows (count_reject date later (time_slot date) old same due s))
  unfolding count_reject write_rows write_row with_hash_rate
  reject_counted rows s now date later a r old false due h e at l =
      after_next rows _ _ now date s.accepted_count s.rejected_count a r 0 1 old h e refl refl refl
        refl l
  reject_counted rows s now date later a r old true true h e at l =
      subst (LedgerOf _ date _ _ (a + 0) (r + 1)) (sym at) (
        after_update rows _ now date s.accepted_count s.rejected_count a r s.accepted_count
          (s.rejected_count + 1) (a + 0) (r + 1) old h (omega arith) (omega arith) refl l)
  reject_counted rows s now date later a r old true false h e at l =
      subst (LedgerOf _ date _ _ (a + 0) (r + 1)) (sym at) (
        after_memory rows now date s.accepted_count s.rejected_count a r s.accepted_count
          (s.rejected_count + 1) (a + 0) (r + 1) old h (omega arith) (omega arith) l)

  reject-IsLedger :
      (rows : List (Bucket N)) (s : Statistics N) (now date later : ℕ) (a r : ℕ) (slot : Option ℕ)
      → now ≤ date
      → s.current_time_slot ≡ slot
      → LedgerOf rows now s.accepted_count s.rejected_count a r slot
      → IsLedger date
          (a + 0)
          (r + 1)
          (settle rows (count_reject_in date later (time_slot date) slot s))
  unfolding count_reject_in write_rows write_row
  reject-IsLedger rows s now date later a r none h at (e, ea, er, ka, kr) =
      let b =
        bucket_payload (time_slot date)
          (record (start_slot date (time_slot date) s) { rejected_count = 1 }) in
      (b, [], ap (◌∷◌ b) e, refl, tt, omega arith, omega arith, omega arith)
  reject-IsLedger rows s now date later a r (some old) h at l =
      reject_counted rows s now date later a r old _ _ h refl at l

  arrive-IsLedger :
      (e : Arrival N) (b : Books N) (now a r : ℕ)
      → now ≤ e.date
      → IsLedger now a r b
      → IsLedger e.date
          (a + accepted_one e.share)
          (r + rejected_one e.share)
          (arrive_share e.date e.later e.share b)
  arrive-IsLedger e b now a r h l = at_share e.share
    where
      at_share :
          (share : Share N)
          → IsLedger e.date
              (a + accepted_one share)
              (r + rejected_one share)
              (arrive_share e.date e.later share b)
      at_share (accept d) =
          unfold arrive_share in
          unfold add_shares in
          share-IsLedger b.rows
            (record b.statistics {
              submission_cache = cache_share e.date d b.statistics.submission_cache;
              last_share_at = some e.date;
              last_activity_at = some e.date;
            })
            now e.date e.later d a r b.statistics.current_time_slot h refl l
      at_share (reject code) =
          unfold arrive_share in
          unfold add_rejected in
          reject-IsLedger b.rows
            (record b.statistics {
              rejected_by_code = count_if_given b.statistics.rejected_by_code code;
              last_activity_at = some e.date;
            })
            now e.date e.later a r b.statistics.current_time_slot h refl l

  arrivals-IsLedger :
      (es : List (Arrival N)) (b : Books N) (now a r a' r' : ℕ)
      → InOrder now es
      → a' ≡ a + accepts es
      → r' ≡ r + rejects es
      → IsLedger now a r b
      → (end : ℕ) × IsLedger end a' r' (arrivals es b)
  unfolding arrivals
  arrivals-IsLedger [] b now a r a' r' h ea er l =
      let ea' : a ≡ a' = omega arith in
      let er' : r ≡ r' = omega arith in
      (now, subst (λ x. IsLedger now x r' b) ea' (subst (λ x. IsLedger now a x b) er' l))
  arrivals-IsLedger (e ∷ es) b now a r a' r' h ea er l =
      arrivals-IsLedger es (arrive_share e.date e.later e.share b) e.date (a + accepted_one e.share)
        (r + rejected_one e.share) a' r' h.1 (omega arith) (omega arith)
        (arrive-IsLedger e b now a r h.0 l)

  flushed_sums :
      (b : Books N) (now a r : ℕ) (slot : Option ℕ)
      → LedgerOf b.rows now b.statistics.accepted_count b.statistics.rejected_count a r slot
      → (sum_accepted (flushed b slot) ≡ a) × (sum_rejected (flushed b slot) ≡ r)
  flushed_sums b now a r none (e, ea, er, ka, kr) =
      (ap sum_accepted e ∙ sym ka, ap sum_rejected e ∙ sym kr)
  flushed_sums b now a r (some slot) (head, older, e, at, old, sa, sr, le) =
      let p =
        ap (put_row (bucket_payload slot b.statistics)) e
        ∙ put_row_head (bucket_payload slot b.statistics) head older at old in
      (ap sum_accepted p ∙ omega arith, ap sum_rejected p ∙ omega arith)

  -- Of a session that starts empty and whose clock does not go back, the rows with the next write of
  -- the current slot add up to as many accepted and as many rejected shares as have arrived.
  pub rows_add_up :
      (es : List (Arrival N)) (now : ℕ)
      → InOrder now es
      → let b = arrivals es (record { rows = []; statistics = new_statistics now }) in
        (sum_accepted (flushed b b.statistics.current_time_slot) ≡ accepts es)
        × (sum_rejected (flushed b b.statistics.current_time_slot) ≡ rejects es)
  rows_add_up es now h =
      let b = arrivals es (record { rows = []; statistics = new_statistics now }) in
      let (end, l) =
        arrivals-IsLedger es (record { rows = []; statistics = new_statistics now }) now 0 0
          (accepts es) (rejects es) h (omega arith) (omega arith) (refl, refl, refl, refl, refl) in
      flushed_sums b end (accepts es) (rejects es) b.statistics.current_time_slot l
