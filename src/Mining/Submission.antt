-- ===== src/Mining/Submission.antt =====
-- What a submission makes of a job in src/models/MiningJob.ts: the merkle root, the header and the
-- block.
use Prim.Native.Nat.{bit_xor}
use lido.Base.{
  ℕ, ◌-◌, ◌*◌, ◌%◌, ◌^◌, not, ◌&&◌, ◌||◌, List, [], ◌∷◌, ◌++◌, length, take, ltb, ◌==◌,
  if◌then◌else◌, Bytes, le_bytes,
}
use lido.Outcome.{Result, ok, err, and_then, range_error}
use lido.Client.{Units}
use lido.Numbers.{Numbers}
use lido.Mining.{
  Bitcoin, Block, Template, Coinbase, MiningJob, extranonce_size, calculate_merkle_root_hash,
}
use lido.Mining.Hex.{to_hex, of_hex, Parsed, nan, integer}

module _ ⦃numbers : Numbers⦄ where
  -- `version ^ mask` of 32-bit integers, which stand for their residues; a NaN counts as 0.
  unfoldable pub mask_word : Parsed → ℕ
  mask_word nan = 0
  mask_word (integer negative n) =
      let word = numbers.to_int32 (numbers.of_nat n) in
      if negative then (2 ^ 32 - word) % 2 ^ 32 else word

  unfoldable pub masked_version : ℕ → Parsed → ℕ
  masked_version version mask = bit_xor version (mask_word mask)

-- header.writeUInt32LE, which writes a NaN as 0.
unfoldable pub write_uint32_le : Parsed → Result Bytes
write_uint32_le nan = ok (le_bytes 4 0)
write_uint32_le (integer negative n) =
    if ltb 0xffffffff n || (negative && not (n == 0)) then err range_error else ok (le_bytes 4 n)

-- prevHash has 32 bytes; the three writes can throw.
unfoldable pub header_of : ℕ → Bytes → ℕ → Result Bytes → Result Bytes → Result Bytes → Result Bytes
header_of version prev_hash bits (err e) time nonce = err e
header_of version prev_hash bits (ok root) (err e) nonce = err e
header_of version prev_hash bits (ok root) (ok time) (err e) = err e
header_of version prev_hash bits (ok root) (ok time) (ok nonce) =
    ok (le_bytes 4 version ++ (prev_hash ++ (root ++ (time ++ (le_bytes 4 bits ++ nonce)))))

-- What a submission adds to a job: the texts of the two extranonces, and three parsed numbers.
pub record Solution : Type 0 where
  pub version_mask : Parsed
  pub nonce : Parsed
  pub extra_nonce : Units
  pub extra_nonce2 : Units
  pub timestamp : Parsed

module _ {T : Type 0} (bitcoin : Bitcoin T) where
  unfoldable pub build_coinbase_merkle_root : MiningJob → Units → Units → Result Bytes
  build_coinbase_merkle_root job extra_nonce extra_nonce2 =
      calculate_merkle_root_hash bitcoin
        (bitcoin.hash256 (
          job.coinbase_part1_buffer
          ++ (of_hex (extra_nonce ++ extra_nonce2) ++ job.coinbase_part2_buffer)))
        job.merkle_branch_buffers

-- The coinbase with the extranonces in place of the last digits of the script.
unfoldable pub filled_coinbase : MiningJob → Solution → Coinbase
filled_coinbase job solution =
    let digits = to_hex job.coinbase_transaction.script in
    record job.coinbase_transaction {
      script = of_hex (
          take (length digits - extranonce_size * 2) digits
          ++ (solution.extra_nonce ++ solution.extra_nonce2));
    }

-- nonce and timestamp are as parsed, and are NaN only where the header had a 0.
unfoldable pub word_of : Parsed → ℕ
word_of nan = 0
word_of (integer negative n) = n

abbrev pub replace_first : {T : Type 0} → T → List T → List T
replace_first tx [] = tx ∷ []
replace_first tx (old ∷ rest) = tx ∷ rest

module _ {T : Type 0} (bitcoin : Bitcoin T) ⦃numbers : Numbers⦄ where
  unfoldable pub build_header_buffer :
      MiningJob → Template numbers.Number T → Solution → Result Bytes
  build_header_buffer job t solution =
      header_of (masked_version t.block.version solution.version_mask) t.block.prev_hash
        t.block.bits
        (build_coinbase_merkle_root bitcoin job solution.extra_nonce solution.extra_nonce2)
        (write_uint32_le solution.timestamp) (write_uint32_le solution.nonce)

  unfoldable pub copy_and_update_block :
      MiningJob → Template numbers.Number T → Solution → Result (Block T)
  copy_and_update_block job t solution =
      let coinbase = filled_coinbase job solution in
      and_then
        (calculate_merkle_root_hash bitcoin (bitcoin.get_hash coinbase) job.merkle_branch_buffers)
        (λ root. ok (record t.block {
          version = masked_version t.block.version solution.version_mask;
          merkle_root = root;
          timestamp = word_of solution.timestamp;
          nonce = word_of solution.nonce;
          transactions = replace_first (bitcoin.transaction_of coinbase) t.block.transactions;
        }))
