-- ===== src/Jobs/Pipeline.antt =====
-- The pipeline of src/services/stratum-v1-jobs.service.ts from a block template to a job template.
use lido.Base.{ℕ, ◌+◌, ◌-◌, ◌*◌, ◌/◌, ◌%◌, ◌^◌, Bool, true, false, not, ◌&&◌, none, some, List, map}
use lido.Outcome.{Result, ok, err}
use lido.Client.{Units}
use lido.Numbers.{Numbers}
use lido.Mining.{Template}
use lido.Mining.Hex.{read_digits}
use lido.Jobs.{
  JobsService, BlockTemplate, Emitted, unchanged, failed, emitted, Assembly, is_new_block,
  note_height, same_signature, work_signature, timestamp_of, get_next_template_id, store_template,
  convert_to_little_endian,
}

-- parseInt(bits, 16), 0 for a text that does not start with a digit.
unfoldable pub parse_bits : Units → ℕ
parse_bits bits = elim (read_digits none bits) [ none ↦ 0 | some n ↦ n ]

module _ {T : Type 0} (assembly : Assembly T) ⦃numbers : Numbers⦄ where
  abbrev N : Type 0
  N = numbers.Number

  -- `mantissa * 256 ** (exponent - 3)`, with a division for an exponent below three.
  unfoldable pub target_of : ℕ → N
  target_of n_bits =
      let mantissa = numbers.of_nat (n_bits % 2 ^ 23) in
      let exponent = n_bits / 2 ^ 24 % 256 in
      numbers.over (numbers.times mantissa (numbers.of_nat (256 ^ (exponent - 3))))
        (numbers.of_nat (256 ^ (3 - exponent)))

  unfoldable pub calculate_network_difficulty : ℕ → N
  calculate_network_difficulty n_bits =
      numbers.over (numbers.of_nat (2 ^ 208 * 65535)) (target_of n_bits)

  -- The block and the template of it, with the next id.
  unfoldable pub build_template : ℕ → Bool → BlockTemplate → List T → JobsService N T → Template N T
  build_template now clear_jobs t transactions s = record {
    block = record {
      version = t.version;
      prev_hash = convert_to_little_endian t.previousblockhash;
      merkle_root = assembly.merkle_root transactions;
      timestamp = timestamp_of t now;
      bits = parse_bits t.bits;
      nonce = 0;
      witness_commit = assembly.witness_root transactions;
      transactions = transactions;
    };
    merkle_branch = assembly.merkle_branch transactions;
    id = get_next_template_id s;
    creation = now;
    coinbasevalue = t.coinbasevalue;
    network_difficulty = calculate_network_difficulty (parse_bits t.bits);
    height = t.height;
    clear_jobs = clear_jobs;
  }

  -- From the parsed transactions on.
  unfoldable pub finish_template :
      ℕ → Bool → BlockTemplate → Result (List T) → JobsService N T → Emitted N T × JobsService N T
  finish_template now clear_jobs t (err e) s = (failed, s)
  finish_template now clear_jobs t (ok transactions) s =
      let template = build_template now clear_jobs t transactions s in
      (
        emitted template,
        store_template now template
            (record s { latest_job_template_id = s.latest_job_template_id + 1 }),
      )

  unfoldable pub unless_same_work :
      ℕ → Bool → BlockTemplate → Bool → JobsService N T → Emitted N T × JobsService N T
  unless_same_work now clear_jobs t true s = (unchanged, s)
  unless_same_work now clear_jobs t false s =
      finish_template now clear_jobs t (assembly.parse_transactions (map (λ x. x.0) t.transactions))
        (record s { last_work_signature = some (work_signature t now) })

  -- The steps behind the RPC; `blocks` is the height that the node reports.
  unfoldable pub new_template :
      ℕ → ℕ → BlockTemplate → JobsService N T → Emitted N T × JobsService N T
  new_template now blocks t s =
      let clear_jobs = is_new_block blocks s in
      unless_same_work now clear_jobs t
        (not clear_jobs && same_signature s.last_work_signature (work_signature t now))
        (note_height clear_jobs blocks s)
