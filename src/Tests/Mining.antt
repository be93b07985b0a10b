-- ===== src/Tests/Mining.antt =====
-- src/models/MiningJob.ts with a small stand-in for bitcoinjs and whole numbers.
use lido.Base.{
  ℕ, ◌+◌, ◌*◌, ◌/◌, ◌%◌, ◌^◌, ◌≤◌, ◌≡◌, refl, true, false, List, [], ◌∷◌, ◌++◌, length, replicate,
  ltb, leb, ◌==◌, Bytes, IsByte, le_bytes, le_value, length-le_bytes, All-append, arith,
}
use lido.Outcome.{Result, ok, err, and_then}
use lido.Client.{Units}
use lido.Numbers.{Numbers}
use lido.Mining.{
  Bitcoin, Block, Template, Coinbase, Output, MiningJob, p2wpkh, set_bytes, merkle_rounds,
  calculate_merkle_root_hash,
}
use lido.Mining.Hex.{to_hex, of_hex, digit, hex_value, hex_pair, integer}
use lido.Mining.Construction.{
  payout, payouts, amount, sum_amounts, sum_values, add_remainder, create_coinbase_transaction,
  complete_coinbase, split_job, part_one_index, part_one_end, get_payment_script, starts_with,
  index_of,
}
use lido.Mining.Submission.{
  Solution, build_header_buffer, build_coinbase_merkle_root, header_of, write_uint32_le,
  copy_and_update_block, masked_version, mask_word,
}
use lido.Mining.Split.{IsFound, IsExtranonce}
use lido.Mining.Agreement.{header_bytes, header-block}
use lido.Mining.Merkle.{root_above, calculate_merkle_root_hash_lem}
use lido.Mining.Payouts.{coinbase_pays_reward}

-- Numbers without fractions.
abbrev pub whole_numbers : Numbers
whole_numbers = record {
  Number = ℕ;
  of_nat = λ n. n;
  plus = λ a b. a + b;
  times = λ a b. a * b;
  over = λ a b. a / b;
  floor = λ n. n;
  greater = λ a b. ltb b a;
  at_least = λ a b. leb b a;
  equal = λ a b. a == b;
  to_int32 = λ n. n % 2 ^ 32;
  to_int32-lt = λ n. omega arith;
}

abbrev small_before : ℕ → Bytes
small_before n = 255 ∷ (n % 256) ∷ []

abbrev small_after : List Output → Bytes
small_after outs = (length outs % 256) ∷ []

abbrev small_buffer : Coinbase → Bytes
small_buffer tx = small_before (length tx.script) ++ (tx.script ++ small_after tx.outs)

abbrev small_hash : Bytes → Bytes
small_hash b = le_bytes 32 (le_value b)

abbrev pub bitcoin : Bitcoin ℕ
bitcoin = record {
  hash256 = small_hash;
  length-hash256 = λ b. length-le_bytes 32 (le_value b);
  to_buffer = small_buffer;
  before_script = small_before;
  after_script = small_after;
  to_buffer_lem = λ tx. refl;
  to_buffer-IsByte = λ tx h. (
    omega arith,
    (omega arith, All-append IsByte tx.script (small_after tx.outs) h (omega arith, tt)),
  );
  get_hash = λ tx. small_hash (small_buffer tx);
  get_hash_lem = λ tx. refl;
  transaction_of = λ tx. 7;
  weight = λ tx. 500;
  block_weight = λ block. 1000;
  encode_number = λ n. le_bytes 3 n;
  return_script = λ b. 106 ∷ b;
  address_type = λ a. ok p2wpkh;
  payment = λ kind a. ok (0 ∷ []);
}

abbrev pub block : Block ℕ
block = record {
  version = 0x20000000;
  prev_hash = replicate 32 5;
  merkle_root = replicate 32 0;
  timestamp = 1700000000;
  bits = 0x1d00ffff;
  nonce = 0;
  witness_commit = replicate 32 9;
  transactions = 1 ∷ 2 ∷ [];
}

abbrev pub template : Template ℕ ℕ
template = record {
  block = block;
  merkle_branch = replicate 64 48 ∷ [];
  id = 49 ∷ [];
  creation = 1000;
  coinbasevalue = 5000;
  network_difficulty = 1000000;
  height = 800000;
  clear_jobs = true;
}

abbrev pub coinbase : Coinbase
coinbase = record { script = 3 ∷ 1 ∷ 2 ∷ 3 ∷ replicate 12 0; outs = [] }

abbrev pub solution : Solution
solution = record {
  version_mask = integer false 0x2000;
  nonce = integer false 77;
  extra_nonce = replicate 8 49;
  extra_nonce2 = replicate 16 50;
  timestamp = integer false 1700000001;
}

abbrev pub job : MiningJob
job = record {
  job_id = 49 ∷ [];
  job_template_id = 49 ∷ [];
  creation = 2000;
  coinbase_transaction = coinbase;
  coinbase_part1 = [];
  coinbase_part2 = [];
  coinbase_part1_buffer = 255 ∷ 16 ∷ 3 ∷ 1 ∷ 2 ∷ 3 ∷ [];
  coinbase_part2_buffer = 0 ∷ [];
  merkle_branch_buffers = replicate 32 0 ∷ [];
}

abbrev pub or_empty : Result Bytes → Bytes
or_empty (ok b) = b
or_empty (err e) = []

calculate_merkle_root_hash_lem_example :
    calculate_merkle_root_hash bitcoin (replicate 32 1) (replicate 32 2 ∷ replicate 32 3 ∷ [])
    ≡ ok (root_above bitcoin (replicate 32 1) (replicate 32 2 ∷ replicate 32 3 ∷ []))
calculate_merkle_root_hash_lem_example =
    calculate_merkle_root_hash_lem bitcoin (replicate 32 1) (replicate 32 2 ∷ replicate 32 3 ∷ [])
      refl (refl, (refl, tt))

abbrev payees : List (Units × ℕ)
payees = (49 ∷ [], 100) ∷ (50 ∷ [], 1) ∷ []

abbrev paid : Coinbase
paid = record {
  script = [];
  outs = record { script = 0 ∷ []; value = 5000 } ∷ record { script = 0 ∷ []; value = 0 } ∷ [];
}

created : create_coinbase_transaction bitcoin ⦃numbers = whole_numbers⦄ payees 5000 ≡ ok paid
unfolding create_coinbase_transaction add_remainder payout payouts amount get_payment_script
    and_then
created = refl

enough : sum_amounts ⦃numbers = whole_numbers⦄ 5000 payees ≤ 5000
unfolding amount
enough = omega arith

coinbase_pays_reward_example :
    sum_values (complete_coinbase bitcoin block 800000 (80 ∷ []) paid).outs ≡ 5000
coinbase_pays_reward_example =
    coinbase_pays_reward bitcoin ⦃numbers = whole_numbers⦄ payees 5000 800000 block (80 ∷ []) paid
      enough created

found : IsFound bitcoin coinbase
unfolding index_of starts_with to_hex digit
found = refl

whole : IsExtranonce bitcoin ⦃numbers = whole_numbers⦄ solution
unfolding of_hex hex_pair hex_value
whole = refl

abbrev split : MiningJob
split = split_job bitcoin ⦃numbers = whole_numbers⦄ (49 ∷ []) 2000 template coinbase

abbrev header : Bytes
header = or_empty (build_header_buffer bitcoin ⦃numbers = whole_numbers⦄ split template solution)

made : build_header_buffer bitcoin ⦃numbers = whole_numbers⦄ split template solution ≡ ok header
unfolding build_header_buffer build_coinbase_merkle_root header_of write_uint32_le masked_version
    mask_word split_job part_one_index part_one_end index_of starts_with to_hex digit of_hex
    hex_pair hex_value calculate_merkle_root_hash merkle_rounds set_bytes and_then
made = refl

header-block_example :
    (result : Block ℕ) × (copy_and_update_block bitcoin ⦃numbers = whole_numbers⦄ split template
        solution
      ≡ ok result)
    × (header ≡ header_bytes result)
header-block_example =
    header-block bitcoin ⦃numbers = whole_numbers⦄ (49 ∷ []) 2000 template coinbase solution header
      (
        (
          omega arith,
          (
            omega arith,
            (
              omega arith,
              (
                omega arith,
                (
                  omega arith,
                  (
                    omega arith,
                    (
                      omega arith,
                      (
                        omega arith,
                        (
                          omega arith,
                          (
                            omega arith,
                            (
                              omega arith,
                              (
                                omega arith,
                                (omega arith, (omega arith, (omega arith, (omega arith, tt)))),
                              ),
                            ),
                          ),
                        ),
                      ),
                    ),
                  ),
                ),
              ),
            ),
          ),
        ),
        omega arith,
        found,
      )
      whole made
