-- ===== src/Vault/Balanced.antt =====
-- The amounts of the spends that BuildRoutineSpend of poc/2fa-vault/internal/vault/tx.go builds.
use arkade_2fa_vault_poc.Prelude.{
  ℕ, ◌^◌, ◌≡◌, refl, ap, ◌∙◌, true, not, ◌&&◌, ◌||◌, List, [], ◌∷◌, arith,
}
use arkade_2fa_vault_poc.Prelude.Int.{
  ℤ, pos, ◌+ℤ◌, ◌-ℤ◌, ◌≤ℤ◌, ltb_ℤ, pos_part, neg_part, int64, IsInt64, int64-eq_of_IsInt64,
  +ℤ_parts, -ℤ_parts, eq_of_parts,
}
use arkade_2fa_vault_poc.Prelude.Checks.{accepted, >>=-accepted}
use arkade_2fa_vault_poc.Vault.{TxOut}
use arkade_2fa_vault_poc.Vault.Money.{
  max_satoshi, max_int64, min_int64, require_sats, sub_sats, remaining_after, add_sats, sum_outputs,
  IsMoney, require_sats-IsMoney, sub_sats_exact,
}
use arkade_2fa_vault_poc.Vault.Build.{output_of}

pub require_sats_money : (v : ℤ) → IsMoney v → require_sats v ≡ accepted tt
unfolding require_sats
require_sats_money v money =
    let within : not (ltb_ℤ v (pos 0) || ltb_ℤ max_satoshi v) ≡ true = ground (arith, money) in
    rw within refl

-- Far below the end of an int64.
abbrev IsSum : ℤ → Type 0
IsSum a = (pos 0 ≤ℤ a) × (a ≤ℤ pos (2 ^ 60))

add_sats_money : (a b : ℤ) → IsSum a → IsMoney b → add_sats a b ≡ accepted (a +ℤ b)
unfolding add_sats
add_sats_money a b low money =
    let room = -ℤ_parts max_int64 b in
    let parts = +ℤ_parts a b in
    let room_fits : IsInt64 (max_int64 -ℤ b) =
      (omega (arith, room, money), omega (arith, room, money)) in
    let sum_fits : IsInt64 (a +ℤ b) =
      (omega (arith, parts, low, money), omega (arith, parts, low, money)) in
    let fits_test : not (ltb_ℤ (pos 0) b && ltb_ℤ (max_int64 -ℤ b) a) ≡ true =
      ground (arith, room, low, money) in
    let negative_test : not (ltb_ℤ b (pos 0) && ltb_ℤ a (int64 (min_int64 -ℤ b))) ≡ true =
      ground (arith, money) in
    rw
      (
        int64-eq_of_IsInt64 (max_int64 -ℤ b) room_fits,
        fits_test,
        negative_test,
        int64-eq_of_IsInt64 (a +ℤ b) sum_fits,
      )
      refl

-- The sum of a recipient, the change and a zero packet.
unfoldable pub sum_of : ℤ → ℤ → ℤ
sum_of a c = pos 0 +ℤ a +ℤ c +ℤ pos 0

pub sum_three :
    (a c : ℤ) (r t : List ℕ) (out : TxOut)
    → IsMoney a
    → IsMoney c
    → out.value ≡ pos 0
    → sum_outputs (pos 0) (output_of a r ∷ output_of c t ∷ out ∷ []) ≡ accepted (sum_of a c)
unfolding sum_outputs sum_of
sum_three a c r t out money_a money_c zero_value =
    let p₁ = +ℤ_parts (pos 0) a in
    let p₂ = +ℤ_parts (pos 0 +ℤ a) c in
    let p₃ = +ℤ_parts (pos 0 +ℤ a +ℤ c) (pos 0) in
    let start : IsSum (pos 0) = (omega arith, omega arith) in
    let one : IsSum (pos 0 +ℤ a) = (omega (arith, p₁, money_a), omega (arith, p₁, money_a)) in
    let fits : IsInt64 (pos 0 +ℤ a +ℤ c +ℤ pos 0) =
      (omega (arith, p₁, p₂, p₃, money_a, money_c), omega (arith, p₁, p₂, p₃, money_a, money_c)) in
    rw
      (
        require_sats_money a money_a,
        add_sats_money (pos 0) a start money_a,
        require_sats_money c money_c,
        add_sats_money (pos 0 +ℤ a) c one money_c,
        zero_value,
      )
      (ap (λ (z : ℤ). accepted z) (int64-eq_of_IsInt64 (pos 0 +ℤ a +ℤ c +ℤ pos 0) fits))

-- The amounts that remainingAfter takes, and the change.
pub record IsRemaining (input amount fee change : ℤ) : Type 0 where
  pub input_money : IsMoney input
  pub amount_money : IsMoney amount
  pub fee_money : IsMoney fee
  pub change_money : IsMoney change
  pub balance : change ≡ input -ℤ amount -ℤ fee

pub remaining_after-IsRemaining :
    (input amount fee change : ℤ)
    → remaining_after input amount fee ≡ accepted change
    → IsRemaining input amount fee change
unfolding remaining_after
remaining_after-IsRemaining input amount fee change h =
    let (u₁, in_range, h1) = >>=-accepted (require_sats input) _ change h in
    let (u₂, amount_range, h2) = >>=-accepted (require_sats amount) _ change h1 in
    let (u₃, fee_range, h3) = >>=-accepted (require_sats fee) _ change h2 in
    let (after, first, second) = >>=-accepted (sub_sats input amount) _ change h3 in
    let money = require_sats-IsMoney input u₁ in_range in
    let (after_money, after_is, _) = sub_sats_exact input amount after money first in
    let (change_money, change_is, _) = sub_sats_exact after fee change after_money second in
    record {
      input_money = money;
      amount_money = require_sats-IsMoney amount u₂ amount_range;
      fee_money = require_sats-IsMoney fee u₃ fee_range;
      change_money = change_money;
      balance = change_is ∙ ap (λ (z : ℤ). z -ℤ fee) after_is;
    }

-- The fee that is left is the fee that was asked for.
pub fee_left :
    (input amount fee change : ℤ)
    → IsRemaining input amount fee change
    → (int64 (input -ℤ sum_of amount change) ≡ fee) × (not (ltb_ℤ fee (pos 0)) ≡ true)
unfolding sum_of
fee_left input amount fee change r =
    let p₁ = +ℤ_parts (pos 0) amount in
    let p₂ = +ℤ_parts (pos 0 +ℤ amount) change in
    let p₃ = +ℤ_parts (pos 0 +ℤ amount +ℤ change) (pos 0) in
    let p₄ = -ℤ_parts input (pos 0 +ℤ amount +ℤ change +ℤ pos 0) in
    let p₅ = -ℤ_parts input amount in
    let p₆ = -ℤ_parts (input -ℤ amount) fee in
    let change_pos : pos_part change ≡ pos_part (input -ℤ amount -ℤ fee) = ap pos_part r.balance in
    let change_neg : neg_part change ≡ neg_part (input -ℤ amount -ℤ fee) = ap neg_part r.balance in
    let exact : input -ℤ (pos 0 +ℤ amount +ℤ change +ℤ pos 0) ≡ fee =
      eq_of_parts _ _ (omega (arith, p₁, p₂, p₃, p₄, p₅, p₆, change_pos, change_neg)) in
    let fits : IsInt64 fee = (omega (arith, r.fee_money), omega (arith, r.fee_money)) in
    (rw exact (int64-eq_of_IsInt64 fee fits), ground (arith, r.fee_money))
