-- ===== src/Mining/Split.antt =====
-- The split of src/models/MiningJob.ts around the extranonce.
use lido.Base.{
  ℕ, ◌+◌, ◌-◌, ◌*◌, ◌≤◌, ◌≡◌, refl, sym, ap, ◌∙◌, subst, some, [], ◌∷◌, ◌++◌, append-nil,
  append_assoc, length, take, drop, All, Bytes, IsByte, arith, length-append, length-take,
  take-append-drop, take-append_self, drop-append_self,
}
use lido.Client.{Units}
use lido.Numbers.{Numbers}
use lido.Mining.{Bitcoin, Template, Coinbase, extranonce_size}
use lido.Mining.Hex.{to_hex, of_hex, of_hex-to_hex, to_hex-append, length-to_hex}
use lido.Mining.Construction.{index_of, part_one_index, part_one_end, split_job}
use lido.Mining.Submission.{Solution, filled_coinbase}

All-parts : (P : ℕ → Type 0) (xs ys : Bytes) → All P (xs ++ ys) → All P xs × All P ys
All-parts P [] ys h = (tt, h)
All-parts P (x ∷ xs) ys h = let (front, back) = All-parts P xs ys h.1 in ((h.0, front), back)

bytes_back : (bs : Bytes) → All IsByte bs → of_hex (to_hex bs) ≡ bs
bytes_back bs h =
    ap of_hex (sym (append-nil (to_hex bs)))
    ∙ of_hex-to_hex bs [] h
    ∙ (unfold of_hex in append-nil bs)

-- The digits of a text of bytes, cut between two bytes.
take-to_hex : (n : ℕ) (xs ys : Bytes) → n ≡ 2 * length xs → take n (to_hex (xs ++ ys)) ≡ to_hex xs
take-to_hex n xs ys e =
    ap (take n) (to_hex-append xs ys)
    ∙ take-append_self n (to_hex xs) (to_hex ys) (omega (arith, length-to_hex xs))

drop-to_hex : (n : ℕ) (xs ys : Bytes) → n ≡ 2 * length xs → drop n (to_hex (xs ++ ys)) ≡ to_hex ys
drop-to_hex n xs ys e =
    ap (drop n) (to_hex-append xs ys)
    ∙ drop-append_self n (to_hex xs) (to_hex ys) (omega (arith, length-to_hex xs))

module _ {T : Type 0} (bitcoin : Bitcoin T) where
  -- The digits of the script first occur where the script stands.
  abbrev pub IsFound : Coinbase → Type 0
  IsFound tx =
      index_of (to_hex (bitcoin.to_buffer tx)) (to_hex tx.script)
      ≡ some (2 * length (bitcoin.before_script (length tx.script)))

  abbrev base : Coinbase → Bytes
  base tx = take (length tx.script - extranonce_size) tx.script

  abbrev padding : Coinbase → Bytes
  padding tx = drop (length tx.script - extranonce_size) tx.script

  abbrev before : Coinbase → Bytes
  before tx = bitcoin.before_script (length tx.script)

  abbrev after : Coinbase → Bytes
  after tx = bitcoin.after_script tx.outs

  -- The serialization, cut before the last twelve bytes of the script and behind the script.
  cut_before :
      (tx : Coinbase) → bitcoin.to_buffer tx ≡ (before tx ++ base tx) ++ (padding tx ++ after tx)
  cut_before tx =
      bitcoin.to_buffer_lem tx
      ∙ ap (λ s. before tx ++ (s ++ after tx))
          (sym (take-append-drop (length tx.script - extranonce_size) tx.script))
      ∙ ap (before tx ++◌) (append_assoc (base tx) (padding tx) (after tx))
      ∙ sym (append_assoc (before tx) (base tx) (padding tx ++ after tx))

  cut_behind : (tx : Coinbase) → bitcoin.to_buffer tx ≡ (before tx ++ tx.script) ++ after tx
  cut_behind tx = bitcoin.to_buffer_lem tx ∙ sym (append_assoc (before tx) tx.script (after tx))

  part_one_index_at :
      (tx : Coinbase)
      → IsFound tx
      → part_one_index bitcoin tx ≡ 2 * length (before tx) + 2 * length tx.script
  unfolding part_one_index part_one_end
  part_one_index_at tx found = rw (found, length-to_hex tx.script)

module _ {T : Type 0} (bitcoin : Bitcoin T) ⦃numbers : Numbers⦄ where
  -- A transaction that the constructor splits: a script of bytes, with room for the extranonce.
  abbrev pub IsSplit : Coinbase → Type 0
  IsSplit tx = All IsByte tx.script × (extranonce_size ≤ length tx.script) × IsFound bitcoin tx

  part1_at :
      (job_id : Units) (now : ℕ) (t : Template numbers.Number T) (tx : Coinbase)
      → IsSplit tx
      → (split_job bitcoin job_id now t tx).coinbase_part1_buffer
        ≡ before bitcoin tx ++ base bitcoin tx
  unfolding split_job
  part1_at job_id now t tx (bytes, room, found) =
      let index = part_one_index_at bitcoin tx found in
      let whole = subst (All IsByte) (cut_before bitcoin tx) (bitcoin.to_buffer-IsByte tx bytes) in
      ap (λ b. of_hex (take (part_one_index bitcoin tx - extranonce_size * 2) (to_hex b)))
        (cut_before bitcoin tx)
      ∙ ap of_hex (
          take-to_hex (part_one_index bitcoin tx - extranonce_size * 2)
            (before bitcoin tx ++ base bitcoin tx) (padding bitcoin tx ++ after bitcoin tx)
            (omega (
              arith,
              index,
              length-append (before bitcoin tx) (base bitcoin tx),
              length-take (length tx.script - extranonce_size) tx.script,
            )))
      ∙ bytes_back (before bitcoin tx ++ base bitcoin tx)
          (All-parts IsByte (before bitcoin tx ++ base bitcoin tx)
            (padding bitcoin tx ++ after bitcoin tx) whole).0

  part2_at :
      (job_id : Units) (now : ℕ) (t : Template numbers.Number T) (tx : Coinbase)
      → IsSplit tx
      → (split_job bitcoin job_id now t tx).coinbase_part2_buffer ≡ after bitcoin tx
  unfolding split_job
  part2_at job_id now t tx (bytes, room, found) =
      let index = part_one_index_at bitcoin tx found in
      let whole = subst (All IsByte) (cut_behind bitcoin tx) (bitcoin.to_buffer-IsByte tx bytes) in
      ap (λ b. of_hex (drop (part_one_index bitcoin tx) (to_hex b))) (cut_behind bitcoin tx)
      ∙ ap of_hex (
          drop-to_hex (part_one_index bitcoin tx) (before bitcoin tx ++ tx.script)
            (after bitcoin tx) (omega (arith, index, length-append (before bitcoin tx) tx.script)))
      ∙ bytes_back (after bitcoin tx)
          (All-parts IsByte (before bitcoin tx ++ tx.script) (after bitcoin tx) whole).1

  -- Extranonces that are twelve bytes together.
  abbrev pub IsExtranonce : Solution → Type 0
  IsExtranonce solution =
      length (of_hex (solution.extra_nonce ++ solution.extra_nonce2)) ≡ extranonce_size

  filled_script :
      (job_id : Units) (now : ℕ) (t : Template numbers.Number T) (tx : Coinbase)
      (solution : Solution)
      → IsSplit tx
      → (filled_coinbase (split_job bitcoin job_id now t tx) solution).script
        ≡ base bitcoin tx ++ of_hex (solution.extra_nonce ++ solution.extra_nonce2)
  unfolding filled_coinbase split_job
  filled_script job_id now t tx solution (bytes, room, found) =
      let digits = to_hex tx.script in
      let n = length digits - extranonce_size * 2 in
      let extra = solution.extra_nonce ++ solution.extra_nonce2 in
      let parts = take-append-drop (length tx.script - extranonce_size) tx.script in
      let cut : take n digits ≡ to_hex (base bitcoin tx) =
        ap (λ b. take n (to_hex b)) (sym parts)
        ∙ take-to_hex n (base bitcoin tx) (padding bitcoin tx) (
            omega (
              arith,
              length-to_hex tx.script,
              length-take (length tx.script - extranonce_size) tx.script,
            )) in
      ap (λ d. of_hex (d ++ extra)) cut
      ∙ of_hex-to_hex (base bitcoin tx) extra
          (All-parts IsByte (base bitcoin tx) (padding bitcoin tx)
            (subst (All IsByte) (sym parts) bytes)).0

  -- The bytes that are hashed for a header are those of the coinbase with the extranonces.
  pub filled_buffer :
      (job_id : Units) (now : ℕ) (t : Template numbers.Number T) (tx : Coinbase)
      (solution : Solution)
      → IsSplit tx
      → IsExtranonce solution
      → let job = split_job bitcoin job_id now t tx in
        job.coinbase_part1_buffer
          ++ (of_hex (solution.extra_nonce ++ solution.extra_nonce2) ++ job.coinbase_part2_buffer)
        ≡ bitcoin.to_buffer (filled_coinbase job solution)
  filled_buffer job_id now t tx solution split whole =
      let job = split_job bitcoin job_id now t tx in
      let extra = of_hex (solution.extra_nonce ++ solution.extra_nonce2) in
      let script = filled_script job_id now t tx solution split in
      let same : length (filled_coinbase job solution).script ≡ length tx.script =
        ap length script
        ∙ length-append (base bitcoin tx) extra
        ∙ omega (arith, length-take (length tx.script - extranonce_size) tx.script, split.1) in
      let outs : (filled_coinbase job solution).outs ≡ tx.outs =
        unfold filled_coinbase in unfold split_job in refl in
      ap (λ b. b ++ (extra ++ job.coinbase_part2_buffer)) (part1_at job_id now t tx split)
      ∙ ap (λ b. (before bitcoin tx ++ base bitcoin tx) ++ (extra ++ b))
          (part2_at job_id now t tx split)
      ∙ append_assoc (before bitcoin tx) (base bitcoin tx) (extra ++ after bitcoin tx)
      ∙ ap (before bitcoin tx ++◌) (sym (append_assoc (base bitcoin tx) extra (after bitcoin tx)))
      ∙ ap (λ s. before bitcoin tx ++ (s ++ after bitcoin tx)) (sym script)
      ∙ ap
          (λ n.
            bitcoin.before_script n ++ ((filled_coinbase job solution).script ++ after bitcoin tx))
          (sym same)
      ∙ ap
          (λ o.
            bitcoin.before_script (length (filled_coinbase job solution).script)
            ++ ((filled_coinbase job solution).script ++ bitcoin.after_script o))
          (sym outs)
      ∙ sym (bitcoin.to_buffer_lem (filled_coinbase job solution))
