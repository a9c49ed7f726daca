-- ===== src/Ledger/Refines.antt =====
-- issueSequential of poc/2fa-vault/internal/policy/ledger.go makes only the steps of Step.
use arkade_2fa_vault_poc.Prelude.{
  ◌-◌, ◌^◌, ◌≡◌, refl, String, Bool, false, not, ◌&&◌, ◌||◌, Option, none, some, ◌∷◌, arith,
  if_cases,
}
use arkade_2fa_vault_poc.Prelude.Int.{ℤ, pos, ◌+ℤ◌, ◌≤ℤ◌, ◌<ℤ◌}
use arkade_2fa_vault_poc.Ledger.Rows.{
  IssuanceState, reserved, vault_signed, completed, Table, is_empty, row_check, state_eq,
}
use arkade_2fa_vault_poc.Ledger.Transaction.{Error, Result, ok, err}
use arkade_2fa_vault_poc.Ledger.Reserve.{Stage, Request, new_row, new_stage, stored_stage}
use arkade_2fa_vault_poc.Ledger.Sign.{
  Env, Reply, public_stage, private_stage, run_stage, request_error, issue_stages, after_guards,
  public_answer, private_answer, after_vault_signed, completed_reply,
}
use arkade_2fa_vault_poc.Ledger.Valid.{IsValidRow, IsValid}
use arkade_2fa_vault_poc.Ledger.Amounts.{InRange, request_error-none}
use arkade_2fa_vault_poc.Ledger.Reserved.{
  Outcome, refused, resumed, created, commit_reservation-Outcome,
}
use arkade_2fa_vault_poc.Ledger.Written.{
  Written, unwritten, written, commit_vault_signed-Written, commit_completion-Written,
}
use arkade_2fa_vault_poc.Ledger.Step.{
  reserve, sign, complete, Steps, here, next, sign_row, complete_row,
}

-- The table that a reply comes with is reached by steps.
abbrev Reached : ℤ → Table → Reply × Table → Type 0
Reached cap rows out = Steps cap rows out.1

module _ (env : Env) (req : Request) where
  abbrev cap : ℤ
  cap = req.remaining_cap

  completed_reply-Steps :
      (signed now : String) (rows : Table) (out : Result (Unit {0}) × Table)
      → is_empty signed ≡ false
      → Written req.vault_id req.digest vault_signed (complete_row signed now) rows out
      → Reached cap rows (completed_reply env signed out)
  completed_reply-Steps signed now rows _ h (unwritten e) = here rows
  completed_reply-Steps signed now rows _ h (written one) =
      next (complete req.vault_id req.digest signed now rows h) (here _)

  public_answer-Steps :
      (answer : Result String) (rows : Table) → Reached cap rows (public_answer env req answer rows)
  public_answer-Steps (err e) rows = here rows
  public_answer-Steps (ok signed) rows =
      if_cases (Reached cap rows) (is_empty signed) (λ _. here rows)
        (λ Filled. completed_reply-Steps signed env.completed_at rows _ Filled (
          commit_completion-Written env.completion_faults env.completed_at req.vault_id req.digest
            signed rows))

  public_stage-Steps :
      (state : IssuanceState) (vault_psbt : String) (rows : Table)
      → Reached cap rows (public_stage env req state vault_psbt rows)
  unfolding public_stage
  public_stage-Steps state vault_psbt rows =
      if_cases (Reached cap rows) (not (state_eq state vault_signed) || is_empty vault_psbt)
        (λ _. here rows) (λ _. public_answer-Steps (env.arkade_sign vault_psbt) rows)

  after_vault_signed-Steps :
      (value now : String) (rows : Table) (out : Result (Unit {0}) × Table)
      → is_empty value ≡ false
      → Written req.vault_id req.digest reserved (sign_row value now) rows out
      → Reached cap rows (after_vault_signed env req value out)
  after_vault_signed-Steps value now rows _ h (unwritten e) = here rows
  after_vault_signed-Steps value now rows _ h (written one) =
      next (sign req.vault_id req.digest value now rows h) (public_stage-Steps vault_signed value _)

  private_answer-Steps :
      (answer : Result String) (rows : Table)
      → Reached cap rows (private_answer env req answer rows)
  private_answer-Steps (err e) rows = here rows
  private_answer-Steps (ok value) rows =
      if_cases (Reached cap rows) (is_empty value) (λ _. here rows)
        (λ Filled. after_vault_signed-Steps value env.vault_signed_at rows _ Filled (
          commit_vault_signed-Written env.vault_faults env.vault_signed_at req.vault_id req.digest
            value rows))

  private_stage-Steps :
      (resume_reserved : Bool) (stage : Stage) (rows : Table)
      → Reached cap rows (private_stage env req resume_reserved stage rows)
  unfolding private_stage
  private_stage-Steps resume_reserved stage rows =
      if_cases (Reached cap rows) (not stage.created && not resume_reserved) (λ _. here rows)
        (λ _. private_answer-Steps (env.vault_sign stage.request_psbt) rows)

  stage-Steps :
      (resume_reserved : Bool) (stage : Stage) (rows : Table)
      → Reached cap rows (run_stage env req resume_reserved (ok stage, rows))
  unfolding run_stage
  stage-Steps resume_reserved stage rows =
      if_cases (Reached cap rows) (state_eq stage.state completed) (λ _. here rows)
        (λ _.
          if_cases (Reached cap rows) (state_eq stage.state reserved)
            (λ _. private_stage-Steps resume_reserved stage rows)
            (λ _. public_stage-Steps stage.state stage.vault_psbt rows))

  new_row-IsValidRow :
      (period now : String)
      → is_empty req.request_psbt ≡ false
      → pos 0 <ℤ req.recipient
      → pos 0 ≤ℤ req.fee
      → req.recipient +ℤ req.fee ≤ℤ pos (2 ^ 63 - 1)
      → IsValidRow (new_row req period now)
  unfolding row_check
  new_row-IsValidRow period now full amount_pos fee_nonneg fits = record {
    checked = ground arith;
    amount_pos = amount_pos;
    fee_nonneg = fee_nonneg;
    outflow_fits = fits;
    vault_filled = tt;
    signed_filled = tt;
  }

  -- The table after a reservation is valid.
  pub Outcome-IsValid :
      (rows : Table) (out : Result Stage × Table)
      → request_error req ≡ none
      → IsValid rows
      → Outcome req env.period env.reserved_at rows out
      → IsValid out.1
  Outcome-IsValid rows _ ok_req h (refused e) = h
  Outcome-IsValid rows _ ok_req h (resumed row s p q r) = h
  Outcome-IsValid rows _ ok_req h (created absent fits within) =
      let (_, _, full, amount_pos, fee_nonneg, _) = request_error-none req ok_req in
      (new_row-IsValidRow env.period env.reserved_at full amount_pos fee_nonneg fits, absent, h)

  run_stage-Steps :
      (resume_reserved : Bool) (rows : Table) (out : Result Stage × Table)
      → request_error req ≡ none
      → Outcome req env.period env.reserved_at rows out
      → Reached cap rows (run_stage env req resume_reserved out)
  run_stage-Steps resume_reserved rows _ ok_req (refused e) = unfold run_stage in here rows
  run_stage-Steps resume_reserved rows _ ok_req (resumed row s p q r) =
      stage-Steps resume_reserved (stored_stage row) rows
  run_stage-Steps resume_reserved rows _ ok_req (created absent fits within) =
      let (_, _, full, amount_pos, fee_nonneg, _) = request_error-none req ok_req in
      next
        (reserve (new_row req env.period env.reserved_at) rows
          (new_row-IsValidRow env.period env.reserved_at full amount_pos fee_nonneg fits) refl
          absent within)
        (stage-Steps resume_reserved (new_stage req)
          (new_row req env.period env.reserved_at ∷ rows))

  after_guards-Steps :
      (resume_reserved : Bool) (rows : Table) (o : Option Error)
      → InRange req
      → request_error req ≡ o
      → Reached cap rows (after_guards o env req resume_reserved rows)
  after_guards-Steps resume_reserved rows (some e) range h = here rows
  after_guards-Steps resume_reserved rows none range h =
      run_stage-Steps resume_reserved rows _ h
        (commit_reservation-Outcome env.reserve_faults env.period env.reserved_at req rows range h)

  -- For a request with int64 amounts, whichever calls of the database fail and whatever the signers
  -- answer, the table moves by steps, each of which adds a reserved row within the allowance of the
  -- request or moves a row to its next stage.
  pub issue_stages-Steps :
      (resume_reserved : Bool) (rows : Table)
      → InRange req
      → Steps req.remaining_cap rows (issue_stages env req resume_reserved rows).1
  unfolding issue_stages
  issue_stages-Steps resume_reserved rows range =
      after_guards-Steps resume_reserved rows (request_error req) range refl
