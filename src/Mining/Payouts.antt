-- ===== src/Mining/Payouts.antt =====
-- What the coinbase of src/models/MiningJob.ts pays.
use lido.Base.{
  ℕ, ◌+◌, ◌≤◌, ◌≡◌, sym, ap, ◌∙◌, inl, inr, Bool-cases, List, [], ◌∷◌, ◌++◌, ltb, Bytes, arith,
}
use lido.Outcome.{ok, err≢ok, ok-injective, and_then_inv}
use lido.Numbers.{Numbers}
use lido.Mining.{Bitcoin, Block, Coinbase, Output, max_block_weight}
use lido.Mining.Construction.{
  Payee, payout, payouts, amount, sum_amounts, get_payment_script, sum_values, add_remainder,
  create_coinbase_transaction, complete_coinbase, commitment, fitted, input_script,
}

sum_values-append : (xs ys : List Output) → sum_values (xs ++ ys) ≡ sum_values xs + sum_values ys
sum_values-append [] ys = omega arith
sum_values-append (x ∷ xs) ys = omega (arith, sum_values-append xs ys)

add_remainder_full :
    (reward : ℕ) (outs : List Output) (tx : Coinbase)
    → sum_values outs ≤ reward
    → add_remainder reward outs ≡ ok tx
    → sum_values tx.outs ≡ reward
unfolding add_remainder
add_remainder_full reward [] tx h e = absurd (err≢ok e)
add_remainder_full reward (out ∷ outs) tx h e =
    sym (ap (λ x. sum_values x.outs) (ok-injective e)) ∙ omega arith

module _ {T : Type 0} (bitcoin : Bitcoin T) where
  fitted_outs :
      (block : Block T) (height : ℕ) (tx : Coinbase)
      → (fitted bitcoin block height tx).outs ≡ tx.outs
  unfolding fitted
  fitted_outs block height tx =
      elim (Bool-cases (ltb max_block_weight (bitcoin.weight tx + bitcoin.block_weight block))) [
        | inl heavy ↦ ground arith
        | inr light ↦ ground arith
      ]

  payout_value :
      ⦃numbers : Numbers⦄ (reward : ℕ) (payee : Payee) (out : Output)
      → payout bitcoin reward payee ≡ ok out
      → out.value ≡ amount reward payee
  unfolding payout
  payout_value reward payee out e =
      let (script, _, made) = and_then_inv (get_payment_script bitcoin payee.0) _ e in
      sym (ap (λ o. o.value) (ok-injective made))

  payouts_sum :
      ⦃numbers : Numbers⦄ (reward : ℕ) (payees : List Payee) (outs : List Output)
      → payouts bitcoin reward payees ≡ ok outs
      → sum_values outs ≡ sum_amounts reward payees
  unfolding payouts
  payouts_sum reward [] outs e = sym (ap sum_values (ok-injective e))
  payouts_sum reward (payee ∷ payees) outs e =
      let (out, first, more) = and_then_inv (payout bitcoin reward payee) _ e in
      let (rest, others, made) = and_then_inv (payouts bitcoin reward payees) _ more in
      sym (ap sum_values (ok-injective made))
      ∙ omega (arith, payout_value reward payee out first, payouts_sum reward payees rest others)

  -- The finished coinbase pays the whole reward, to the last unit, if the rounded shares of the payees
  -- are no more than it.
  pub coinbase_pays_reward :
      ⦃numbers : Numbers⦄ (payees : List Payee) (reward height : ℕ) (block : Block T)
      (extra : Bytes) (tx : Coinbase)
      → sum_amounts reward payees ≤ reward
      → create_coinbase_transaction bitcoin payees reward ≡ ok tx
      → sum_values (complete_coinbase bitcoin block height extra tx).outs ≡ reward
  unfolding complete_coinbase create_coinbase_transaction
  coinbase_pays_reward payees reward height block extra tx h e =
      let (outs, paid, made) =
        and_then_inv (payouts bitcoin reward payees) (add_remainder reward) e in
      let sum = payouts_sum reward payees outs paid in
      ap sum_values (
        fitted_outs block height (record {
          script = input_script bitcoin height extra;
          outs = tx.outs ++ (commitment bitcoin block.witness_commit ∷ []);
        }))
      ∙ sum_values-append tx.outs (commitment bitcoin block.witness_commit ∷ [])
      ∙ omega (arith, add_remainder_full reward outs tx (omega (arith, sum, h)) made)
