-- ===== src/Ledger/Examples.antt =====
-- Concrete calls of the issuance ledger of poc/2fa-vault/internal/policy/ledger.go.
use arkade_2fa_vault_poc.Prelude.{
  ℕ, zero, suc, ◌-◌, ◌^◌, ◌≡◌, refl, ap, All, String, true, false, none, some, List, [], ◌∷◌, arith,
}
use arkade_2fa_vault_poc.Prelude.Int.{ℤ, pos, pos_part, ◌+ℤ◌, ◌≤ℤ◌, ◌<ℤ◌}
use arkade_2fa_vault_poc.Prelude.Bytes.{bytes_eq}
use arkade_2fa_vault_poc.Ledger.Rows.{
  reserved, vault_signed, completed, Issuance, row_check, select, sum_outflow, spent_in_period,
}
use arkade_2fa_vault_poc.Ledger.Transaction.{Error, Result, ok, err}
use arkade_2fa_vault_poc.Ledger.Reserve.{Request, add_outflow, commit_reservation}
use arkade_2fa_vault_poc.Ledger.Sign.{Env, failed, request_error, issue_stages}
use arkade_2fa_vault_poc.Ledger.Issue.{Call, sequential, run}
use arkade_2fa_vault_poc.Ledger.Valid.{IsValid}
use arkade_2fa_vault_poc.Ledger.Amounts.{InRange, add_outflow_exact}
use arkade_2fa_vault_poc.Ledger.Reserved.{Outcome, commit_reservation-Outcome}
use arkade_2fa_vault_poc.Ledger.Step.{Steps}
use arkade_2fa_vault_poc.Ledger.Refines.{issue_stages-Steps}
use arkade_2fa_vault_poc.Ledger.Persist.{KeepsRow}
use arkade_2fa_vault_poc.Ledger.History.{IsAllowed, run-IsValid, spent-run-le, run-KeepsRow}
use arkade_2fa_vault_poc.Ledger.Stored.{IsStored, issue_stages-IsStored}
use arkade_2fa_vault_poc.Ledger.Signers.{
  with_private, with_both, private_signer_unused, signers_unused, reserved_not_retried,
  rebinding_refused,
}
use arkade_2fa_vault_poc.Ledger.Success.{
  no_faults, healthy, signed_reply, completed_row, issue_stages-success,
}

abbrev bytes_of : ℕ → List ℕ
bytes_of zero = []
bytes_of (suc n) = 7 ∷ bytes_of n

abbrev spend : Request
spend = record {
  vault_id = "vault";
  digest = bytes_of 32;
  request_psbt = "request";
  recipient = pos 700;
  fee = pos 10;
  remaining_cap = pos 1000;
}

abbrev sign_private : String → Result String
sign_private s = ok "half"

abbrev sign_public : String → Result String
sign_public s = ok "full"

abbrev day : Env
day = record {
  period = "2026-01-01";
  reserved_at = "t1";
  vault_signed_at = "t2";
  completed_at = "t3";
  reserve_faults = no_faults;
  vault_faults = no_faults;
  completion_faults = no_faults;
  vault_sign = sign_private;
  arkade_sign = sign_public;
  context_done = false;
}

-- The row of `spend` after each of the three transactions.
abbrev reserved_row : Issuance
reserved_row = record {
  vault_id = "vault";
  arkade_sighash = bytes_of 32;
  period_start = "2026-01-01";
  recipient_amount = pos 700;
  fee = pos 10;
  state = reserved;
  request_psbt = "request";
  vault_psbt = none;
  signed_psbt = none;
  created_at = "t1";
  updated_at = "t1";
}

abbrev signed_row : Issuance
signed_row = record reserved_row { state = vault_signed; vault_psbt = some "half" }

abbrev done_row : Issuance
done_row = record signed_row { state = completed; signed_psbt = some "full" }

spend-InRange : InRange spend
spend-InRange = omega arith

done_row-IsValid : IsValid (done_row ∷ [])
unfolding row_check select ◌+ℤ◌
done_row-IsValid = (
  record {
    checked = refl;
    amount_pos = omega arith;
    fee_nonneg = omega arith;
    outflow_fits = omega arith;
    vault_filled = refl;
    signed_filled = refl;
  },
  refl,
  tt,
)

spend_passes : request_error spend ≡ none
unfolding request_error
spend_passes = refl

select_reserved : select "vault" (bytes_of 32) (reserved_row ∷ []) ≡ some reserved_row
unfolding select bytes_eq
select_reserved = refl

select_signed : select "vault" (bytes_of 32) (signed_row ∷ []) ≡ some signed_row
unfolding select bytes_eq
select_signed = refl

select_done : select "vault" (bytes_of 32) (done_row ∷ []) ≡ some done_row
unfolding select bytes_eq
select_done = refl

spend_fits : sum_outflow "vault" "2026-01-01" [] +ℤ (pos 700 +ℤ pos 10) ≤ℤ pos 1000
unfolding sum_outflow ◌+ℤ◌
spend_fits = omega arith

-- The second spend of the day does not fit under the allowance of 1000.
abbrev spend_again : Request
spend_again = record spend { digest = 8 ∷ bytes_of 31 }

abbrev two_calls : List Call
two_calls =
    sequential (some sign_private) (some sign_public) day spend
    ∷ sequential (some sign_private) (some sign_public) day spend_again
    ∷ []

two_calls-IsAllowed : All (IsAllowed (pos 1000)) two_calls
two_calls-IsAllowed = (
  record { range = spend-InRange; capped = omega arith },
  (record { range = omega arith; capped = omega arith }, tt),
)

abbrev no_hex : List ℕ → String
no_hex d = "00"

spent-run-le_example :
    (n : ℤ) × (spent_in_period "vault" "2026-01-01" (run no_hex two_calls []) ≡ some n)
    × (pos 0 ≤ℤ n)
    × (n ≤ℤ pos 1000)
spent-run-le_example =
    spent-run-le no_hex (pos 1000) two_calls "vault" "2026-01-01" (omega arith) (omega arith)
      two_calls-IsAllowed

run-IsValid_example : IsValid (run no_hex two_calls [])
run-IsValid_example = run-IsValid no_hex (pos 1000) two_calls (omega arith) two_calls-IsAllowed

run-KeepsRow_example :
    KeepsRow "vault" (bytes_of 32) done_row (run no_hex two_calls (done_row ∷ []))
run-KeepsRow_example =
    run-KeepsRow no_hex (pos 1000) two_calls (done_row ∷ []) "vault" (bytes_of 32) done_row
      done_row-IsValid select_done two_calls-IsAllowed

issue_stages-IsStored_example : IsStored spend (issue_stages day spend true (done_row ∷ []))
issue_stages-IsStored_example =
    issue_stages-IsStored day spend true (done_row ∷ []) spend-InRange done_row-IsValid

issue_stages-success_example :
    issue_stages (healthy sign_private sign_public day) spend true []
    ≡ (signed_reply day "full", completed_row day spend "half" "full" ∷ [])
issue_stages-success_example =
    issue_stages-success sign_private sign_public day spend [] "half" "full" true spend-InRange
      spend_passes tt (unfold select in refl) spend_fits refl refl refl refl

private_signer_unused_example :
    issue_stages (with_private (λ s. ok "other") day) spend true (signed_row ∷ [])
    ≡ issue_stages day spend true (signed_row ∷ [])
private_signer_unused_example =
    private_signer_unused day spend signed_row (signed_row ∷ []) select_signed spend-InRange
      (λ s. ok "other") true refl

signers_unused_example :
    issue_stages (with_both (λ s. ok "a") (λ s. ok "b") day) spend true (done_row ∷ [])
    ≡ issue_stages day spend true (done_row ∷ [])
signers_unused_example =
    signers_unused day spend done_row (done_row ∷ []) select_done spend-InRange (λ s. ok "a")
      (λ s. ok "b") true refl

reserved_not_retried_example :
    (e : Error) × (issue_stages day spend false (reserved_row ∷ []) ≡ (failed e, reserved_row ∷ []))
reserved_not_retried_example =
    reserved_not_retried day spend reserved_row (reserved_row ∷ []) select_reserved spend-InRange
      refl

abbrev other_spend : Request
other_spend = record spend { recipient = pos 701 }

not_same_spend : ¬ (◌≡◌ {A = String} "request" "request" × (pos 700 ≡ pos 701) × (pos 10 ≡ pos 10))
not_same_spend (p, q, r) = absurd (omega (arith, ap pos_part q))

rebinding_refused_example :
    (e : Error) × (issue_stages day other_spend true (done_row ∷ []) ≡ (failed e, done_row ∷ []))
rebinding_refused_example =
    rebinding_refused day other_spend done_row (done_row ∷ []) select_done (omega arith) true
      not_same_spend

add_outflow_exact_example :
    (pos 700 +ℤ pos 10 ≤ℤ pos (2 ^ 63 - 1)
      → add_outflow (pos 700) (pos 10) ≡ ok (pos 700 +ℤ pos 10))
    × (pos (2 ^ 63 - 1) <ℤ pos 700 +ℤ pos 10
        → add_outflow (pos 700) (pos 10) ≡ err Error.outflow_overflow)
add_outflow_exact_example =
    add_outflow_exact (pos 700) (pos 10) (omega arith) (omega arith) (omega arith) (omega arith)

commit_reservation-Outcome_example :
    Outcome spend "2026-01-01" "t1" [] (commit_reservation no_faults "2026-01-01" "t1" spend [])
commit_reservation-Outcome_example =
    commit_reservation-Outcome no_faults "2026-01-01" "t1" spend [] spend-InRange spend_passes

issue_stages-Steps_example : Steps (pos 1000) [] (issue_stages day spend true []).1
issue_stages-Steps_example = issue_stages-Steps day spend true [] spend-InRange
