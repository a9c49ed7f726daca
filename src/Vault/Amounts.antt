-- ===== src/Vault/Amounts.antt =====
-- The amounts of a transaction that classify of poc/2fa-vault/internal/provider/classify.go takes.
use arkade_2fa_vault_poc.Prelude.{◌≡◌, ap, ◌∙◌, true, not, some, List, [], ◌∷◌, arith}
use arkade_2fa_vault_poc.Prelude.Int.{
  ℤ, pos, ◌+ℤ◌, ◌-ℤ◌, ◌≤ℤ◌, ltb_ℤ, leb_ℤ, int64, IsInt64, int64-eq_of_IsInt64, +ℤ_parts, -ℤ_parts,
  eq_of_parts,
}
use arkade_2fa_vault_poc.Prelude.Checks.{
  accepted, accepted-eq, >>=-accepted, require-accepted, from_option-accepted, from_option,
}
use arkade_2fa_vault_poc.Arkade.Packet.{Wire}
use arkade_2fa_vault_poc.Vault.{
  TxOut, MsgTx, Leaf, Chain, missing_recipient, missing_packet, missing_change, negative_fee,
  invalid_size,
}
use arkade_2fa_vault_poc.Vault.Money.{
  require_sats, add_sats, sum_outputs, IsMoney, require_sats-IsMoney, add_sats_exact,
}
use arkade_2fa_vault_poc.Vault.Classify.{
  Classified, Found, is_nil, estimated_v_bytes, classify_amounts,
}

abbrev pub total : List TxOut → ℤ
total [] = pos 0
total (o ∷ outs) = o.value +ℤ total outs

-- The sum of the loop is exact and an int64, and no output is negative.
pub sum_outputs_exact :
    (sum : ℤ) (outs : List TxOut) (s : ℤ)
    → IsInt64 sum
    → (pos 0 ≤ℤ sum)
    → sum_outputs sum outs ≡ accepted s
    → (s ≡ sum +ℤ total outs) × IsInt64 s × (pos 0 ≤ℤ s)
unfolding sum_outputs
sum_outputs_exact sum [] s fits low h =
    let same : sum ≡ s = cc h in
    let parts = +ℤ_parts sum (pos 0) in
    let unit : sum ≡ sum +ℤ pos 0 = eq_of_parts _ _ (omega (arith, parts)) in
    rw (← same) (unit, fits, low)
sum_outputs_exact sum (o ∷ outs) s fits low h =
    let (u, money_of, h1) = >>=-accepted (require_sats o.value) _ s h in
    let (next, added, h2) = >>=-accepted (add_sats sum o.value) _ s h1 in
    let money = require_sats-IsMoney o.value u money_of in
    let (next_is, next_fits, next_low) = add_sats_exact sum o.value next fits low money added in
    let (s_is, s_fits, s_low) = sum_outputs_exact next outs s next_fits next_low h2 in
    let p₁ = +ℤ_parts sum o.value in
    let p₂ = +ℤ_parts (sum +ℤ o.value) (total outs) in
    let p₃ = +ℤ_parts o.value (total outs) in
    let p₄ = +ℤ_parts sum (o.value +ℤ total outs) in
    let moved : sum +ℤ o.value +ℤ total outs ≡ sum +ℤ (o.value +ℤ total outs) =
      eq_of_parts _ _ (omega (arith, p₁, p₂, p₃, p₄)) in
    let whole : s ≡ sum +ℤ o.value +ℤ total outs = rw next_is at s_is in
    (rw whole moved, s_fits, s_low)

-- What the input is worth, what is paid, and the fee balance; the fee is not negative.
pub record IsBalanced (tx : MsgTx) (input : ℤ) (found : Found) (cl : Classified) : Type 0 where
  pub recipient : found.recipient ≡ some cl.recipient
  pub changed : not (is_nil found.change) ≡ true
  pub conserved : input ≡ total tx.tx_out +ℤ cl.fee
  pub fee_nonneg : pos 0 ≤ℤ cl.fee
  pub sized : pos 1 ≤ℤ cl.v_bytes

balance :
    (input s : ℤ)
    → IsMoney input
    → IsInt64 s
    → (pos 0 ≤ℤ s)
    → not (ltb_ℤ (int64 (input -ℤ s)) (pos 0)) ≡ true
    → (pos 0 ≤ℤ int64 (input -ℤ s)) × (input ≡ s +ℤ int64 (input -ℤ s))
balance input s money fits low test =
    let parts = -ℤ_parts input s in
    let range : IsInt64 (input -ℤ s) =
      (omega (arith, parts, money, fits, low), omega (arith, parts, money, fits, low)) in
    let exact = int64-eq_of_IsInt64 (input -ℤ s) range in
    let back = +ℤ_parts s (input -ℤ s) in
    let tested : not (ltb_ℤ (input -ℤ s) (pos 0)) ≡ true = rw exact at test in
    rw exact (ground (arith, tested), eq_of_parts _ _ (omega (arith, parts, back)))

pub classify_amounts-IsBalanced :
    {Witness : Type 0} (wire : Wire Witness) (chain : Chain) (tx : MsgTx) (routine : Leaf)
    (input : ℤ) (found : Found) (cl : Classified)
    → IsMoney input
    → classify_amounts wire chain tx routine input found ≡ accepted cl
    → IsBalanced tx input found cl
unfolding classify_amounts
classify_amounts-IsBalanced wire chain tx routine input found cl money h =
    let size = estimated_v_bytes wire chain tx routine in
    let (r, some_r, h1) = >>=-accepted (from_option missing_recipient found.recipient) _ cl h in
    let (_, h2) = require-accepted (not (is_nil found.packet)) missing_packet _ cl h1 in
    let (changed, h3) = require-accepted (not (is_nil found.change)) missing_change _ cl h2 in
    let (s, summed, h4) = >>=-accepted (sum_outputs (pos 0) tx.tx_out) _ cl h3 in
    let (test, h5) =
      require-accepted (not (ltb_ℤ (int64 (input -ℤ s)) (pos 0))) negative_fee _ cl h4 in
    let (sized, h6) = require-accepted (not (leb_ℤ size (pos 0))) invalid_size _ cl h5 in
    let range : IsInt64 (pos 0) = (omega arith, omega arith) in
    let (s_is, s_fits, s_low) = sum_outputs_exact (pos 0) tx.tx_out s range (omega arith) summed in
    let parts = +ℤ_parts (pos 0) (total tx.tx_out) in
    let unit : pos 0 +ℤ total tx.tx_out ≡ total tx.tx_out =
      eq_of_parts _ _ (omega (arith, parts)) in
    let (fee_low, conserved) = balance input s money s_fits s_low test in
    let made =
      accepted-eq (record { recipient = r; fee = int64 (input -ℤ s); v_bytes = size }) cl h6 in
    let balanced : IsBalanced tx input found
        (record { recipient = r; fee = int64 (input -ℤ s); v_bytes = size }) =
      record {
        recipient = from_option-accepted missing_recipient found.recipient r some_r;
        changed = changed;
        conserved = conserved ∙ ap (λ (z : ℤ). z +ℤ int64 (input -ℤ s)) (s_is ∙ unit);
        fee_nonneg = fee_low;
        sized = ground (arith, sized);
      } in
    rw (← made) balanced
