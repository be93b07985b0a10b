-- ===== src/Session/Rewriting.antt =====
-- Submissions of one share that are written in two ways, in src/models/StratumV1Client.ts.
use lido.Base.{
  ◌≡◌, refl, sym, ap, subst, ◌∙◌, ◌⊎◌, inl, inr, true, false, Bool-cases, length, leb, ◌++◌,
  if◌then◌else◌, Bytes,
}
use lido.Outcome.{ok}
use lido.Client.{Units, has_key, same_key}
use lido.Numbers.{Numbers}
use lido.Mining.{Bitcoin, Template, MiningJob}
use lido.Mining.Hex.{parse_hex, of_hex}
use lido.Mining.Submission.{build_header_buffer, build_coinbase_merkle_root, copy_and_update_block}
use lido.Jobs.{JobsService, get_job_by_id}
use lido.Session.{Session, Socket, write, if_written, remember_submission, max_submission_hashes}
use lido.Session.Credit.{Turn, credit, credit_block}
use lido.Session.Submission.{
  submission_hash, solution_of, screen_template, weigh, judge, follow_screening,
  handle_mining_submission, text_of, calculate_difficulty,
}
use lido.Session.Messages.{MiningSubmitMessage, agreed}
use lido.Session.Kept.{Keeps, kept}
use lido.Session.Duplicates.{Route, handled-Route, judge-Keeps}

-- The numbers have the same values, and the extranonces give the same bytes behind this one of the
-- session. Their texts may differ: in case, in leading zeros, in what parseInt skips.
pub record IsRewriting (extra_nonce : Units) (m m' : MiningSubmitMessage) : Type 0 where
  pub job_id : m'.job_id ≡ m.job_id
  pub version_mask : parse_hex m'.version_mask ≡ parse_hex m.version_mask
  pub nonce : parse_hex m'.nonce ≡ parse_hex m.nonce
  pub ntime : parse_hex m'.ntime ≡ parse_hex m.ntime
  pub extra_nonce2 :
      of_hex (extra_nonce ++ m'.extra_nonce2) ≡ of_hex (extra_nonce ++ m.extra_nonce2)

module _ {N T : Type 0} where
  has_key-remember_other :
      (k other : Units) (s : Session N T)
      → has_key s.submission_hashes k ≡ false
      → same_key other k ≡ false
      → has_key (remember_submission other s).submission_hashes k ≡ false
  unfolding has_key remember_submission
  has_key-remember_other k other s new differs =
      elim (Bool-cases (leb max_submission_hashes (length s.submission_hashes))) [
        | inl full ↦ rw (full, differs) refl
        | inr room ↦ rw (room, differs) new
      ]

module _ ⦃numbers : Numbers⦄ {T : Type 0} (bitcoin : Bitcoin T)
    (socket : Socket numbers.Number) where
  -- The answer to a share that is accepted with this header, from its answer on the wire to its credit.
  abbrev pub accepted :
      Turn numbers.Number
      → MiningSubmitMessage
      → MiningJob
      → Template numbers.Number T
      → Units
      → Bytes
      → Session numbers.Number T
      → Session numbers.Number T
  accepted turn m job t extra_nonce header s =
      let d = calculate_difficulty bitcoin header in
      if_written (write socket (agreed m.id) (remember_submission (submission_hash m) s)) (
        if numbers.at_least d t.network_difficulty
        then credit_block turn d header t.height
            (copy_and_update_block bitcoin job t (solution_of extra_nonce m))
        else credit turn d header)

  same_header :
      (extra_nonce : Units) (m m' : MiningSubmitMessage) (job : MiningJob)
      (t : Template numbers.Number T)
      → IsRewriting extra_nonce m m'
      → build_header_buffer bitcoin job t (solution_of extra_nonce m')
        ≡ build_header_buffer bitcoin job t (solution_of extra_nonce m)
  unfolding build_header_buffer build_coinbase_merkle_root
  same_header extra_nonce m m' job t w = rw (w.version_mask, w.nonce, w.ntime, w.extra_nonce2) refl

  accepted_lem :
      (turn : Turn numbers.Number) (service : JobsService numbers.Number T)
      (m : MiningSubmitMessage) (job : MiningJob) (t : Template numbers.Number T)
      (s : Session numbers.Number T) (header : Bytes)
      → Route m service job t
      → has_key s.submission_hashes (submission_hash m) ≡ false
      → build_header_buffer bitcoin job t (solution_of (text_of s.extra_nonce) m) ≡ ok header
      → numbers.at_least (calculate_difficulty bitcoin header) s.session_difficulty ≡ true
      → handle_mining_submission bitcoin socket turn service m s
        ≡ accepted turn m job t (text_of s.extra_nonce) header s
  unfolding follow_screening screen_template judge weigh remember_submission
  accepted_lem turn service m job t s header route new made enough =
      let solution = solution_of (text_of s.extra_nonce) m in
      let s1 = remember_submission (submission_hash m) s in
      handled-Route bitcoin socket turn service m job t s false route new
      ∙ ap (λ r. judge bitcoin socket turn m job t solution r s1) made
      ∙ ap
          (λ b.
            weigh bitcoin socket turn m job t solution header (calculate_difficulty bitcoin header)
              b s1)
          enough

  -- A miner sends one share twice, written in two ways: the texts differ, but each number has the same
  -- value and the extranonce gives the same bytes. If the share meets the difficulty of the session and
  -- neither text is known, it is accepted the first time, and it is accepted again with the same header
  -- when it comes in the other writing, unless the session has ended in between.
  pub same_header_again :
      (turn turn' : Turn numbers.Number) (service : JobsService numbers.Number T)
      (m m' : MiningSubmitMessage) (job : MiningJob) (t : Template numbers.Number T)
      (s : Session numbers.Number T) (header : Bytes)
      → Route m service job t
      → IsRewriting (text_of s.extra_nonce) m m'
      → has_key s.submission_hashes (submission_hash m) ≡ false
      → has_key s.submission_hashes (submission_hash m') ≡ false
      → same_key (submission_hash m) (submission_hash m') ≡ false
      → build_header_buffer bitcoin job t (solution_of (text_of s.extra_nonce) m) ≡ ok header
      → numbers.at_least (calculate_difficulty bitcoin header) s.session_difficulty ≡ true
      → let s' = handle_mining_submission bitcoin socket turn service m s in
        (s' ≡ accepted turn m job t (text_of s.extra_nonce) header s)
        × ((handle_mining_submission bitcoin socket turn' service m' s'
              ≡ accepted turn' m' job t (text_of s.extra_nonce) header s')
            ⊎ (s'.destroyed ≡ true))
  unfolding remember_submission
  same_header_again turn turn' service m m' job t s header route w new new' differs made enough =
      let first = accepted_lem turn service m job t s header route new made enough in
      let solution = solution_of (text_of s.extra_nonce) m in
      let s1 = remember_submission (submission_hash m) s in
      let s' = handle_mining_submission bitcoin socket turn service m s in
      let stays : Keeps (kept s1) s' =
        subst (Keeps (kept s1))
          (sym (handled-Route bitcoin socket turn service m job t s false route new))
          (unfold follow_screening screen_template in
            judge-Keeps bitcoin socket (kept s1) turn m job t solution
              (build_header_buffer bitcoin job t solution) s1 (inl refl)) in
      let route' : Route m' service job t =
        (ap (get_job_by_id service) w.job_id ∙ route.0, route.1) in
      (
        first,
        elim stays [
          | inr over ↦ inr over
          | inl same ↦
              let nonce : text_of s'.extra_nonce ≡ text_of s.extra_nonce =
                ap (λ k. text_of k.4) same in
              let unknown =
                ap (λ k. has_key k.0 (submission_hash m')) same
                ∙ has_key-remember_other (submission_hash m') (submission_hash m) s new' differs in
              inl (
                accepted_lem turn' service m' job t s' header route' unknown
                  (ap (λ x. build_header_buffer bitcoin job t (solution_of x m')) nonce
                    ∙ same_header (text_of s.extra_nonce) m m' job t w
                    ∙ made)
                  (ap (numbers.at_least (calculate_difficulty bitcoin header)) (ap (λ k. k.5) same)
                    ∙ enough)
                ∙ ap (λ x. accepted turn' m' job t x header s') nonce)
        ],
      )
