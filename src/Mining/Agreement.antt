-- ===== src/Mining/Agreement.antt =====
-- The header and the block that src/models/MiningJob.ts makes of one submission.
use lido.Base.{
  ℕ, ◌≡◌, refl, sym, ap, ◌∙◌, Bool, true, false, ◌&&◌, ◌||◌, not, ltb, ◌==◌, ◌++◌, Bytes, le_bytes,
  if◌then◌else◌,
}
use lido.Outcome.{Result, ok, err, range_error, and_then_ok, err≢ok, ok-injective}
use lido.Client.{Units}
use lido.Numbers.{Numbers}
use lido.Mining.{Bitcoin, Block, Template, Coinbase, calculate_merkle_root_hash}
use lido.Mining.Hex.{of_hex, Parsed, nan, integer}
use lido.Mining.Construction.{split_job}
use lido.Mining.Split.{IsSplit, IsExtranonce, filled_buffer}
use lido.Mining.Submission.{
  Solution, write_uint32_le, word_of, header_of, build_coinbase_merkle_root, build_header_buffer,
  filled_coinbase, copy_and_update_block, masked_version, replace_first,
}

-- The eighty bytes of a block's header.
abbrev pub header_bytes : {T : Type 0} → Block T → Bytes
header_bytes b =
    le_bytes 4 b.version
    ++ (b.prev_hash
        ++ (b.merkle_root ++ (le_bytes 4 b.timestamp ++ (le_bytes 4 b.bits ++ le_bytes 4 b.nonce))))

checked :
    (bad : Bool) (n : ℕ) (b : Bytes)
    → (if bad then err range_error else ok (le_bytes 4 n)) ≡ ok b
    → b ≡ le_bytes 4 n
checked true n b e = absurd (err≢ok e)
checked false n b e = sym (ok-injective e)

written : (x : Parsed) (b : Bytes) → write_uint32_le x ≡ ok b → b ≡ le_bytes 4 (word_of x)
unfolding write_uint32_le word_of
written nan b e = sym (ok-injective e)
written (integer negative n) b e = checked (ltb 0xffffffff n || (negative && not (n == 0))) n b e

header_parts :
    (version : ℕ) (prev_hash : Bytes) (bits : ℕ) (root time nonce : Result Bytes) (header : Bytes)
    → header_of version prev_hash bits root time nonce ≡ ok header
    → (r t n : Bytes) × (root ≡ ok r)
      × (time ≡ ok t)
      × (nonce ≡ ok n)
      × (header ≡ le_bytes 4 version ++ (prev_hash ++ (r ++ (t ++ (le_bytes 4 bits ++ n)))))
unfolding header_of
header_parts version prev_hash bits (err x) time nonce header e = absurd (err≢ok e)
header_parts version prev_hash bits (ok r) (err x) nonce header e = absurd (err≢ok e)
header_parts version prev_hash bits (ok r) (ok t) (err x) header e = absurd (err≢ok e)
header_parts version prev_hash bits (ok r) (ok t) (ok n) header e =
    (r, t, n, refl, refl, refl, sym (ok-injective e))

module _ {T : Type 0} (bitcoin : Bitcoin T) ⦃numbers : Numbers⦄ where
  -- Where a submission gives a header, the block that is made of it has this header.
  pub header-block :
      (job_id : Units) (now : ℕ) (t : Template numbers.Number T) (tx : Coinbase)
      (solution : Solution) (header : Bytes)
      → IsSplit bitcoin tx
      → IsExtranonce bitcoin solution
      → build_header_buffer bitcoin (split_job bitcoin job_id now t tx) t solution ≡ ok header
      → (block : Block T) × (copy_and_update_block bitcoin
            (split_job bitcoin job_id now t tx)
            t
            solution
          ≡ ok block)
        × (header ≡ header_bytes block)
  header-block job_id now t tx solution header split whole e =
      let job = split_job bitcoin job_id now t tx in
      let version = masked_version t.block.version solution.version_mask in
      let (r, time, nonce, at_root, at_time, at_nonce, at_header) =
        header_parts version t.block.prev_hash t.block.bits
          (build_coinbase_merkle_root bitcoin job solution.extra_nonce solution.extra_nonce2)
          (write_uint32_le solution.timestamp) (write_uint32_le solution.nonce) header
          (unfold build_header_buffer in e) in
      let same_leaf : bitcoin.get_hash (filled_coinbase job solution)
          ≡ bitcoin.hash256 (
              job.coinbase_part1_buffer
              ++ (of_hex (solution.extra_nonce ++ solution.extra_nonce2)
                  ++ job.coinbase_part2_buffer)) =
        bitcoin.get_hash_lem (filled_coinbase job solution)
        ∙ ap bitcoin.hash256 (sym (filled_buffer bitcoin job_id now t tx solution split whole)) in
      let root : calculate_merkle_root_hash bitcoin
            (bitcoin.get_hash (filled_coinbase job solution)) job.merkle_branch_buffers
          ≡ ok r =
        ap (λ leaf. calculate_merkle_root_hash bitcoin leaf job.merkle_branch_buffers) same_leaf
        ∙ (unfold build_coinbase_merkle_root in at_root) in
      (
        record t.block {
          version = version;
          merkle_root = r;
          timestamp = word_of solution.timestamp;
          nonce = word_of solution.nonce;
          transactions =
              replace_first (bitcoin.transaction_of (filled_coinbase job solution))
                t.block.transactions;
        },
        unfold copy_and_update_block in and_then_ok _ _ root,
        at_header
            ∙ ap
                (λ x.
                  le_bytes 4 version
                  ++ (t.block.prev_hash ++ (r ++ (x ++ (le_bytes 4 t.block.bits ++ nonce)))))
                (written solution.timestamp time at_time)
            ∙ ap
                (λ x.
                  le_bytes 4 version
                  ++ (t.block.prev_hash
                      ++ (r
                          ++ (le_bytes 4 (word_of solution.timestamp)
                              ++ (le_bytes 4 t.block.bits ++ x)))))
                (written solution.nonce nonce at_nonce),
      )
