-- ===== src/Ledger/Amounts.antt =====
-- The int64 arithmetic of the allowance in poc/2fa-vault/internal/policy/ledger.go does not wrap.
use arkade_2fa_vault_poc.Prelude.{◌^◌, ◌-◌, ◌≡◌, String, false, none, some, length, arith}
use arkade_2fa_vault_poc.Prelude.Int.{
  ℤ, pos, ◌+ℤ◌, ◌-ℤ◌, ◌≤ℤ◌, ◌<ℤ◌, int64, IsInt64, int64-eq_of_IsInt64, int_laws, +ℤ_parts, -ℤ_parts,
}
use arkade_2fa_vault_poc.Ledger.Rows.{Table, is_empty, sum_outflow, spent_in_period}
use arkade_2fa_vault_poc.Ledger.Transaction.{ok, err, outflow_overflow}
use arkade_2fa_vault_poc.Ledger.Reserve.{Request, add_outflow, check_allowance}
use arkade_2fa_vault_poc.Ledger.Sign.{request_error}

-- The three amounts of a request are int64 values.
pub record InRange (req : Request) : Type 0 where
  pub recipient_fits : IsInt64 req.recipient
  pub fee_fits : IsInt64 req.fee
  pub cap_fits : IsInt64 req.remaining_cap

max_less_fee :
    (fee : ℤ)
    → pos 0 ≤ℤ fee
    → IsInt64 fee
    → int64 (pos (2 ^ 63 - 1) -ℤ fee) ≡ pos (2 ^ 63 - 1) -ℤ fee
max_less_fee fee nonneg fits = int64-eq_of_IsInt64 _ (omega int_laws)

-- For a positive recipient amount and a fee that is not negative, addOutflow returns the exact sum
-- where that is an int64, and the overflow error where it is not.
pub add_outflow_exact :
    (r f : ℤ)
    → IsInt64 r
    → IsInt64 f
    → pos 0 <ℤ r
    → pos 0 ≤ℤ f
    → (r +ℤ f ≤ℤ pos (2 ^ 63 - 1) → add_outflow r f ≡ ok (r +ℤ f))
      × (pos (2 ^ 63 - 1) <ℤ r +ℤ f → add_outflow r f ≡ err outflow_overflow)
unfolding add_outflow
add_outflow_exact r f hr hf pr pf = (
  λ fits. ground (
    arith,
    max_less_fee f pf hf,
    +ℤ_parts r f,
    -ℤ_parts (pos (2 ^ 63 - 1)) f,
    int64-eq_of_IsInt64 (r +ℤ f) (omega int_laws),
  ),
  λ over. ground (arith, max_less_fee f pf hf, +ℤ_parts r f, -ℤ_parts (pos (2 ^ 63 - 1)) f),
)

-- A result is the exact sum, and an int64.
pub add_outflow-ok :
    (r f : ℤ) {need : ℤ}
    → IsInt64 r
    → IsInt64 f
    → pos 0 <ℤ r
    → pos 0 ≤ℤ f
    → add_outflow r f ≡ ok need
    → (need ≡ r +ℤ f) × (r +ℤ f ≤ℤ pos (2 ^ 63 - 1))
add_outflow-ok r f hr hf pr pf h =
    ground (arith, (add_outflow_exact r f hr hf pr pf).0, (add_outflow_exact r f hr hf pr pf).1)

-- The two allowance tests are the one test of the sum against the cap.
pub check_allowance-false :
    (used need cap : ℤ)
    → pos 0 ≤ℤ used
    → IsInt64 cap
    → pos 0 ≤ℤ cap
    → check_allowance used need cap ≡ false
    → used +ℤ need ≤ℤ cap
unfolding check_allowance
check_allowance-false used need cap hu hc pc h =
    ground (arith, +ℤ_parts used need, -ℤ_parts cap used, int64-eq_of_IsInt64 (cap -ℤ used))

pub spent_in_period-some :
    (v p : String) (rows : Table) {used : ℤ}
    → spent_in_period v p rows ≡ some used
    → used ≡ sum_outflow v p rows
unfolding spent_in_period
spent_in_period-some v p rows h = ground arith

-- What the guards of issueSequential leave.
pub request_error-none :
    (req : Request)
    → request_error req ≡ none
    → (is_empty req.vault_id ≡ false)
      × (length req.digest ≡ 32)
      × (is_empty req.request_psbt ≡ false)
      × (pos 0 <ℤ req.recipient)
      × (pos 0 ≤ℤ req.fee)
      × (pos 0 ≤ℤ req.remaining_cap)
unfolding request_error
request_error-none req h = ground arith
