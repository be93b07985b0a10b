-- ===== src/Mining/Construction.antt =====
-- The constructor of src/models/MiningJob.ts: the payouts, the input script and the split.
use lido.Base.{
  ℕ, suc, ◌+◌, ◌-◌, ◌*◌, Bool, true, false, ◌&&◌, Option, none, some, List, [], ◌∷◌, ◌++◌, map,
  length, take, drop, replicate, ltb, ◌==◌, if◌then◌else◌, Bytes,
}
use lido.Outcome.{Result, ok, err, and_then, bad_argument}
use lido.Client.{Units}
use lido.Numbers.{Numbers}
use lido.Mining.{
  Bitcoin, Block, Template, AddressType, Coinbase, Output, MiningJob, other, extranonce_size,
  max_block_weight, max_script_size,
}
use lido.Mining.Hex.{to_hex, of_hex}

abbrev pub sum_values : List Output → ℕ
sum_values [] = 0
sum_values (out ∷ outs) = out.value + sum_values outs

-- `index + length`, where an index of -1 is `none`.
unfoldable pub part_one_end : Option ℕ → ℕ → ℕ
part_one_end none size = size - 1
part_one_end (some n) size = n + size

unfoldable pub starts_with : Units → Units → Bool
starts_with text [] = true
starts_with [] (p ∷ ps) = false
starts_with (c ∷ cs) (p ∷ ps) = c == p && starts_with cs ps

-- String.indexOf, of which -1 is `none`.
unfoldable pub index_of : Units → Units → Option ℕ
index_of [] pattern = if starts_with [] pattern then some 0 else none
index_of (c ∷ cs) pattern =
    let later = index_of cs pattern in
    if starts_with (c ∷ cs) pattern
    then some 0
    else elim later [ none ↦ none | some n ↦ some (suc n) ]

module _ {T : Type 0} (bitcoin : Bitcoin T) where
  abbrev pub script_of : Units → AddressType → Result Bytes
  script_of address other = ok []
  script_of address kind = bitcoin.payment kind address

  unfoldable pub get_payment_script : Units → Result Bytes
  get_payment_script address = and_then (bitcoin.address_type address) (script_of address)

  -- The script of the input without and with the pool's identifier.
  abbrev pub plain_script : ℕ → Bytes
  plain_script height =
      let encoded = bitcoin.encode_number height in
      length encoded ∷ (encoded ++ replicate (extranonce_size + 3 - length encoded) 0)

  abbrev pub full_script : ℕ → Bytes → Bytes
  full_script height extra =
      let encoded = bitcoin.encode_number height in
      length encoded ∷ (encoded ++ (extra ++ replicate (extranonce_size + 3 - length encoded) 0))

  unfoldable pub input_script : ℕ → Bytes → Bytes
  input_script height extra =
      let script = full_script height extra in
      if ltb max_script_size (length script) then plain_script height else script

  -- The script again, once the weight of the block is known.
  unfoldable pub fitted : Block T → ℕ → Coinbase → Coinbase
  fitted block height tx =
      if ltb max_block_weight (bitcoin.weight tx + bitcoin.block_weight block)
      then record tx { script = plain_script height }
      else tx

  -- `indexOf(inputScript) + inputScript.length`
  unfoldable pub part_one_index : Coinbase → ℕ
  part_one_index tx =
      part_one_end (index_of (to_hex (bitcoin.to_buffer tx)) (to_hex tx.script))
        (length (to_hex tx.script))

  -- Buffer.from('aa21a9ed', 'hex') and the commitment behind it.
  abbrev pub commitment : Bytes → Output
  commitment witness_commit = record {
    script = bitcoin.return_script (170 ∷ 33 ∷ 169 ∷ 237 ∷ witness_commit);
    value = 0;
  }

  -- The coinbase that the constructor makes of the one with the payouts.
  unfoldable pub complete_coinbase : Block T → ℕ → Bytes → Coinbase → Coinbase
  complete_coinbase block height extra tx = fitted block height (record {
    script = input_script height extra;
    outs = tx.outs ++ (commitment block.witness_commit ∷ []);
  })

-- The payouts are taken to be no more than the reward together, but for the first.
unfoldable pub add_remainder : ℕ → List Output → Result Coinbase
add_remainder reward [] = err bad_argument
add_remainder reward (out ∷ outs) = ok (record {
  script = [];
  outs = record out { value = out.value + reward - sum_values (out ∷ outs) } ∷ outs;
})

module _ ⦃numbers : Numbers⦄ where
  -- An address and a percentage.
  abbrev pub Payee : Type 0
  Payee = Units × numbers.Number

  -- `Math.floor((recipientAddress.percent / 100) * reward)`
  unfoldable pub amount : ℕ → Payee → ℕ
  amount reward (address, percent) =
      numbers.floor
        (numbers.times (numbers.over percent (numbers.of_nat 100)) (numbers.of_nat reward))

  abbrev pub sum_amounts : ℕ → List Payee → ℕ
  sum_amounts reward [] = 0
  sum_amounts reward (payee ∷ payees) = amount reward payee + sum_amounts reward payees

module _ {T : Type 0} (bitcoin : Bitcoin T) ⦃numbers : Numbers⦄ where
  abbrev N : Type 0
  N = numbers.Number

  unfoldable pub payout : ℕ → Payee → Result Output
  payout reward payee =
      and_then (get_payment_script bitcoin payee.0)
        (λ script. ok (record { script = script; value = amount reward payee }))

  unfoldable pub payouts : ℕ → List Payee → Result (List Output)
  payouts reward [] = ok []
  payouts reward (payee ∷ payees) =
      and_then (payout reward payee)
        (λ out. and_then (payouts reward payees) (λ outs. ok (out ∷ outs)))

  unfoldable pub create_coinbase_transaction : List Payee → ℕ → Result Coinbase
  create_coinbase_transaction addresses reward =
      and_then (payouts reward addresses) (add_remainder reward)

  unfoldable pub split_job : Units → ℕ → Template N T → Coinbase → MiningJob
  split_job job_id now t tx =
      let serialized = to_hex (bitcoin.to_buffer tx) in
      let index = part_one_index bitcoin tx in
      record {
        job_id = job_id;
        job_template_id = t.id;
        creation = now;
        coinbase_transaction = tx;
        coinbase_part1 = take (index - extranonce_size * 2) serialized;
        coinbase_part2 = drop index serialized;
        coinbase_part1_buffer = of_hex (take (index - extranonce_size * 2) serialized);
        coinbase_part2_buffer = of_hex (drop index serialized);
        merkle_branch_buffers = map of_hex t.merkle_branch;
      }

  -- The constructor, with the pool's identifier as bytes.
  unfoldable pub mining_job : Bytes → Units → ℕ → List Payee → Template N T → Result MiningJob
  mining_job extra job_id now payees t =
      and_then (create_coinbase_transaction payees t.coinbasevalue)
        (λ tx. ok (split_job job_id now t (complete_coinbase bitcoin t.block t.height extra tx)))
