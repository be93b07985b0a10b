-- ===== src/Session/Submission.antt =====
-- handleMiningSubmission and recordRejectedShare of src/models/StratumV1Client.ts.
use lido.Base.{
  ◌*◌, ◌^◌, Bool, true, false, Option, none, some, List, [], ◌∷◌, ◌++◌, if◌then◌else◌, Bytes,
}
use lido.Outcome.{Result, ok, err}
use lido.Client.{Units, has_key}
use lido.Numbers.{Numbers}
use lido.Mining.{Bitcoin, Template, MiningJob}
use lido.Mining.Hex.{parse_hex}
use lido.Mining.Submission.{Solution, build_header_buffer, copy_and_update_block}
use lido.Jobs.{JobsService, get_job_by_id, get_job_template_by_id}
use lido.Session.{Session, Socket, write, if_written, close_socket, remember_submission}
use lido.Session.Credit.{Turn, reject, credit, credit_block}
use lido.Session.Messages.{
  MiningSubmitMessage, agreed, job_not_found, duplicate_share, low_difficulty_share,
}

-- The texts that the source joins by colons.
abbrev colon : Units → Units → Units
colon a b = a ++ (58 ∷ b)

abbrev pub submission_hash : MiningSubmitMessage → Units
submission_hash m =
    colon m.job_id (colon m.extra_nonce2 (colon m.ntime (colon m.nonce m.version_mask)))

-- The numbers and texts that a submission adds to a job.
abbrev pub solution_of : Units → MiningSubmitMessage → Solution
solution_of extra_nonce m = record {
  version_mask = parse_hex m.version_mask;
  nonce = parse_hex m.nonce;
  extra_nonce = extra_nonce;
  extra_nonce2 = m.extra_nonce2;
  timestamp = parse_hex m.ntime;
}

-- How far a submission comes.
pub data Screening (N T : Type 0) : Type 0 where
  no_job no_template known_share : Screening N T
  new_share : MiningJob → Template N T → Screening N T

module _ {N T : Type 0} where
  unfoldable pub screen_template : Bool → MiningJob → Option (Template N T) → Screening N T
  screen_template known job none = no_template
  screen_template true job (some t) = known_share
  screen_template false job (some t) = new_share job t

  unfoldable pub screen_job : Bool → JobsService N T → Option MiningJob → Screening N T
  screen_job known service none = no_job
  screen_job known service (some job) =
      screen_template known job (get_job_template_by_id service job.job_template_id)

  unfoldable pub screen : MiningSubmitMessage → JobsService N T → List Units → Screening N T
  screen m service hashes =
      screen_job (has_key hashes (submission_hash m)) service (get_job_by_id service m.job_id)

module _ {T : Type 0} (bitcoin : Bitcoin T) ⦃numbers : Numbers⦄ where
  abbrev N : Type 0
  N = numbers.Number

  -- The bytes from the last to the first.
  unfoldable pub le256todouble : Bytes → N
  le256todouble [] = numbers.of_nat 0
  le256todouble (b ∷ bs) =
      numbers.plus (numbers.times (le256todouble bs) (numbers.of_nat 256)) (numbers.of_nat b)

  -- TRUE_DIFF_ONE / target, and an infinity for the hash 0.
  unfoldable pub calculate_difficulty : Bytes → N
  calculate_difficulty header =
      let target = le256todouble (bitcoin.hash256 header) in
      if numbers.equal target (numbers.of_nat 0)
      then numbers.over (numbers.of_nat 1) (numbers.of_nat 0)
      else numbers.over (numbers.of_nat (2695953529101131 * 10 ^ 52)) target

abbrev pub text_of : Option Units → Units
text_of none = []
text_of (some text) = text

module _ ⦃numbers : Numbers⦄ {T : Type 0} (bitcoin : Bitcoin T)
    (socket : Socket numbers.Number) where
  -- The flag is whether the share meets the difficulty of the session.
  unfoldable pub weigh :
      Turn numbers.Number
      → MiningSubmitMessage
      → MiningJob
      → Template numbers.Number T
      → Solution
      → Bytes
      → numbers.Number
      → Bool
      → Session numbers.Number T
      → Session numbers.Number T
  weigh turn m job t solution header difficulty false s =
      reject socket turn m.id low_difficulty_share s
  weigh turn m job t solution header difficulty true s = if_written (write socket (agreed m.id) s) (
      if numbers.at_least difficulty t.network_difficulty
      then credit_block turn difficulty header t.height
          (copy_and_update_block bitcoin job t solution)
      else credit turn difficulty header)

  unfoldable pub judge :
      Turn numbers.Number
      → MiningSubmitMessage
      → MiningJob
      → Template numbers.Number T
      → Solution
      → Result Bytes
      → Session numbers.Number T
      → Session numbers.Number T
  judge turn m job t solution (err e) s = close_socket s
  judge turn m job t solution (ok header) s =
      let difficulty = calculate_difficulty bitcoin header in
      weigh turn m job t solution header difficulty
        (numbers.at_least difficulty s.session_difficulty) s

  unfoldable pub follow_screening :
      Turn numbers.Number
      → MiningSubmitMessage
      → Screening numbers.Number T
      → Session numbers.Number T
      → Session numbers.Number T
  follow_screening turn m no_job s = reject socket turn m.id job_not_found s
  follow_screening turn m no_template s = reject socket turn m.id job_not_found s
  follow_screening turn m known_share s = reject socket turn m.id duplicate_share s
  follow_screening turn m (new_share job t) s =
      let s1 = remember_submission (submission_hash m) s in
      let solution = solution_of (text_of s.extra_nonce) m in
      judge turn m job t solution (build_header_buffer bitcoin job t solution) s1

  unfoldable pub handle_mining_submission :
      Turn numbers.Number
      → JobsService numbers.Number T
      → MiningSubmitMessage
      → Session numbers.Number T
      → Session numbers.Number T
  handle_mining_submission turn service m s =
      follow_screening turn m (screen m service s.submission_hashes) s
