-- ===== src/Vault/Money.antt =====
-- Satoshi amounts of poc/2fa-vault/internal/vault/tx.go and provider/classify.go.
use arkade_2fa_vault_poc.Prelude.{
  ◌*◌, ◌-◌, ◌^◌, ◌≡◌, refl, true, not, ◌||◌, ◌&&◌, List, [], ◌∷◌, arith,
}
use arkade_2fa_vault_poc.Prelude.Int.{
  ℤ, pos, negsuc, ◌+ℤ◌, ◌-ℤ◌, ◌≤ℤ◌, ltb_ℤ, int64, IsInt64, int64-eq_of_IsInt64, +ℤ_parts, -ℤ_parts,
}
use arkade_2fa_vault_poc.Prelude.Checks.{
  Checked, accepted, require, ◌>>=◌, ◌>>◌, require-accepted, require-true,
}
use arkade_2fa_vault_poc.Vault.{TxOut, VaultError, money_range, sum_overflow, outputs_exceed_input}

-- btcutil.MaxSatoshi.
abbrev pub max_satoshi : ℤ
max_satoshi = pos (21 * 10 ^ 14)

-- requireSats and requireMoneyRange.
unfoldable pub require_sats : ℤ → Checked VaultError (Unit {0})
require_sats v = require (not (ltb_ℤ v (pos 0) || ltb_ℤ max_satoshi v)) money_range

unfoldable pub sub_sats : ℤ → ℤ → Checked VaultError ℤ
sub_sats lhs rhs =
    require (not (ltb_ℤ rhs (pos 0) || ltb_ℤ lhs rhs)) outputs_exceed_input
    >> accepted (int64 (lhs -ℤ rhs))

unfoldable pub remaining_after : ℤ → ℤ → ℤ → Checked VaultError ℤ
unfolding require_sats sub_sats
remaining_after input amount fee =
    require_sats input
    >> require_sats amount
    >> require_sats fee
    >> sub_sats input amount
    >>= λ after_amount. sub_sats after_amount fee

abbrev pub max_int64 : ℤ
max_int64 = pos (2 ^ 63 - 1)

abbrev pub min_int64 : ℤ
min_int64 = negsuc (2 ^ 63 - 1)

unfoldable pub add_sats : ℤ → ℤ → Checked VaultError ℤ
add_sats a b =
    require (not (ltb_ℤ (pos 0) b && ltb_ℤ (int64 (max_int64 -ℤ b)) a)) sum_overflow
    >> require (not (ltb_ℤ b (pos 0) && ltb_ℤ a (int64 (min_int64 -ℤ b)))) sum_overflow
    >> accepted (int64 (a +ℤ b))

-- The loop over the outputs.
unfoldable pub sum_outputs : ℤ → List TxOut → Checked VaultError ℤ
unfolding require_sats add_sats
sum_outputs sum [] = accepted sum
sum_outputs sum (o ∷ outs) =
    require_sats o.value >> add_sats sum o.value >>= λ next. sum_outputs next outs

-- An amount of money: from 0 to 21 million bitcoins.
abbrev pub IsMoney : ℤ → Type 0
IsMoney v = (pos 0 ≤ℤ v) × (v ≤ℤ max_satoshi)

pub require_sats-IsMoney : (v : ℤ) (u : Unit {0}) → require_sats v ≡ accepted u → IsMoney v
unfolding require_sats
require_sats-IsMoney v u h =
    let within = require-true (not (ltb_ℤ v (pos 0) || ltb_ℤ max_satoshi v)) money_range u h in
    (ground (arith, within), ground (arith, within))

pub sub_sats_exact :
    (lhs rhs d : ℤ)
    → IsMoney lhs
    → sub_sats lhs rhs ≡ accepted d
    → IsMoney d × (d ≡ lhs -ℤ rhs) × (pos 0 ≤ℤ rhs)
unfolding sub_sats
sub_sats_exact lhs rhs d money h =
    let (test, made) =
      require-accepted (not (ltb_ℤ rhs (pos 0) || ltb_ℤ lhs rhs)) outputs_exceed_input _ d h in
    let low : pos 0 ≤ℤ rhs = ground (arith, test) in
    let below : rhs ≤ℤ lhs = ground (arith, test) in
    let parts = -ℤ_parts lhs rhs in
    let fits : IsInt64 (lhs -ℤ rhs) =
      (omega (arith, parts, low, below, money), omega (arith, parts, low, below, money)) in
    let exact : int64 (lhs -ℤ rhs) ≡ d = cc made in
    let same : lhs -ℤ rhs ≡ d = rw (int64-eq_of_IsInt64 (lhs -ℤ rhs) fits) at exact in
    rw (← same) (
      (omega (arith, parts, low, below, money), omega (arith, parts, low, below, money)),
      refl,
      low,
    )

sum_fits :
    (a b : ℤ)
    → IsInt64 a
    → IsMoney b
    → not (ltb_ℤ (pos 0) b && ltb_ℤ (max_int64 -ℤ b) a) ≡ true
    → a +ℤ b ≤ℤ max_int64
sum_fits a b fits money below =
    let parts = +ℤ_parts a b in
    let room = -ℤ_parts max_int64 b in ground (arith, parts, room, below, fits, money)

pub add_sats_exact :
    (a b s : ℤ)
    → IsInt64 a
    → (pos 0 ≤ℤ a)
    → IsMoney b
    → add_sats a b ≡ accepted s
    → (s ≡ a +ℤ b) × IsInt64 s × (pos 0 ≤ℤ s)
unfolding add_sats
add_sats_exact a b s fits low money h =
    let room = -ℤ_parts max_int64 b in
    let room_fits : IsInt64 (max_int64 -ℤ b) =
      (omega (arith, room, money), omega (arith, room, money)) in
    let (first, h1) =
      require-accepted (not (ltb_ℤ (pos 0) b && ltb_ℤ (int64 (max_int64 -ℤ b)) a)) sum_overflow _ s
        h in
    let (_, made) =
      require-accepted (not (ltb_ℤ b (pos 0) && ltb_ℤ a (int64 (min_int64 -ℤ b)))) sum_overflow _ s
        h1 in
    let below : not (ltb_ℤ (pos 0) b && ltb_ℤ (max_int64 -ℤ b) a) ≡ true =
      rw (int64-eq_of_IsInt64 (max_int64 -ℤ b) room_fits) at first in
    let bounded : a +ℤ b ≤ℤ max_int64 = sum_fits a b fits money below in
    let parts = +ℤ_parts a b in
    let sum_range : IsInt64 (a +ℤ b) = (omega (arith, parts, low, money), bounded) in
    let exact : int64 (a +ℤ b) ≡ s = cc made in
    let same : a +ℤ b ≡ s = rw (int64-eq_of_IsInt64 (a +ℤ b) sum_range) at exact in
    rw (← same) (refl, sum_range, omega (arith, parts, low, money))
