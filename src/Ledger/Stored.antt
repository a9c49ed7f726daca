-- ===== src/Ledger/Stored.antt =====
-- A signed text that poc/2fa-vault/internal/policy/ledger.go hands out is already stored.
use arkade_2fa_vault_poc.Prelude.{
  ◌≡◌, refl, String, Bool, true, false, not, ◌&&◌, ◌||◌, Option, none, some, arith, if_cases,
  if◌then◌else◌,
}
use arkade_2fa_vault_poc.Ledger.Rows.{
  IssuanceState, reserved, vault_signed, completed, Issuance, Table, select, state_eq, is_empty,
  set_stage, row_check,
}
use arkade_2fa_vault_poc.Ledger.Transaction.{
  Error, Result, ok, err, empty_public_response, empty_private_response, invalid_signing_state,
  ambiguous_attempt,
}
use arkade_2fa_vault_poc.Ledger.Reserve.{Stage, Request, stored_stage, new_row, new_stage, text_of}
use arkade_2fa_vault_poc.Ledger.Sign.{
  Env, Reply, failed, replayed, completed_reply, public_answer, public_stage, after_vault_signed,
  private_answer, private_stage, run_stage, request_error, after_guards, issue_stages,
}
use arkade_2fa_vault_poc.Ledger.Valid.{IsValid, has_key_self, select-IsValidRow, map_updated}
use arkade_2fa_vault_poc.Ledger.Update.{select_written, map_updated-IsValid}
use arkade_2fa_vault_poc.Ledger.Amounts.{InRange}
use arkade_2fa_vault_poc.Ledger.Reserved.{
  Outcome, refused, resumed, created, commit_reservation-Outcome,
}
use arkade_2fa_vault_poc.Ledger.Written.{
  Written, unwritten, written, commit_vault_signed-Written, commit_completion-Written,
}
use arkade_2fa_vault_poc.Ledger.Refines.{Outcome-IsValid}
use arkade_2fa_vault_poc.Ledger.Step.{
  sign_row, complete_row, sign_row-IsFrame, complete_row-IsFrame,
}

-- The table has a row of the request.
abbrev pub HasRow : Request → Table → Type 0
HasRow req rows =
    (r : Issuance) × (select req.vault_id req.digest rows ≡ some r)
    × (r.request_psbt ≡ req.request_psbt)

-- The reply's text, where it has one, is the signed column of the completed row of the request.
abbrev pub IsStored : Request → Reply × Table → Type 0
IsStored req out =
    is_empty out.0.signed ≡ false
    → (r : Issuance) × (select req.vault_id req.digest out.1 ≡ some r)
      × (r.request_psbt ≡ req.request_psbt)
      × (r.state ≡ completed)
      × (r.signed_psbt ≡ some out.0.signed)

module _ (env : Env) (req : Request) where
  refused-IsStored : (e : Error) (rows : Table) → IsStored req (failed e, rows)
  refused-IsStored e rows h = cc h

  completed_reply-IsStored :
      (signed now : String) (rows : Table) (out : Result (Unit {0}) × Table)
      → is_empty signed ≡ false
      → IsValid rows
      → HasRow req rows
      → Written req.vault_id req.digest vault_signed (complete_row signed now) rows out
      → IsStored req (completed_reply env signed out)
  completed_reply-IsStored signed now rows _ full h has (unwritten e) = refused-IsStored e rows
  completed_reply-IsStored signed now rows _ full h (r, e, same) (written one) = λ _.
      let (at, e') =
        select_written req.vault_id req.digest vault_signed (complete_row signed now)
          (complete_row-IsFrame signed now full) rows r h e one in
      unfold set_stage in (complete_row signed now r, e', same, refl, refl)

  public_answer-IsStored :
      (answer : Result String) (rows : Table)
      → IsValid rows
      → HasRow req rows
      → IsStored req (public_answer env req answer rows)
  public_answer-IsStored (err e) rows h has = refused-IsStored e rows
  public_answer-IsStored (ok signed) rows h has =
      if_cases (IsStored req) (is_empty signed) (λ _. refused-IsStored empty_public_response rows)
        (λ full. completed_reply-IsStored signed env.completed_at rows _ full h has (
          commit_completion-Written env.completion_faults env.completed_at req.vault_id req.digest
            signed rows))

  public_stage-IsStored :
      (state : IssuanceState) (vault_psbt : String) (rows : Table)
      → IsValid rows
      → HasRow req rows
      → IsStored req (public_stage env req state vault_psbt rows)
  unfolding public_stage
  public_stage-IsStored state vault_psbt rows h has =
      if_cases (IsStored req) (not (state_eq state vault_signed) || is_empty vault_psbt)
        (λ _. refused-IsStored invalid_signing_state rows)
        (λ _. public_answer-IsStored (env.arkade_sign vault_psbt) rows h has)

  after_vault_signed-IsStored :
      (value now : String) (rows : Table) (out : Result (Unit {0}) × Table)
      → is_empty value ≡ false
      → IsValid rows
      → HasRow req rows
      → Written req.vault_id req.digest reserved (sign_row value now) rows out
      → IsStored req (after_vault_signed env req value out)
  after_vault_signed-IsStored value now rows _ full h has (unwritten e) = refused-IsStored e rows
  after_vault_signed-IsStored value now rows _ full h (r, e, same) (written one) =
      let frame = sign_row-IsFrame value now full in
      let (at, e') =
        select_written req.vault_id req.digest reserved (sign_row value now) frame rows r h e one in
      public_stage-IsStored vault_signed value
        (map_updated req.vault_id req.digest reserved (sign_row value now) rows)
        (map_updated-IsValid req.vault_id req.digest reserved (sign_row value now) frame rows h)
        (unfold set_stage in (sign_row value now r, e', same))

  private_answer-IsStored :
      (answer : Result String) (rows : Table)
      → IsValid rows
      → HasRow req rows
      → IsStored req (private_answer env req answer rows)
  private_answer-IsStored (err e) rows h has = refused-IsStored e rows
  private_answer-IsStored (ok value) rows h has =
      if_cases (IsStored req) (is_empty value) (λ _. refused-IsStored empty_private_response rows)
        (λ full. after_vault_signed-IsStored value env.vault_signed_at rows _ full h has (
          commit_vault_signed-Written env.vault_faults env.vault_signed_at req.vault_id req.digest
            value rows))

  private_stage-IsStored :
      (resume_reserved : Bool) (stage : Stage) (rows : Table)
      → IsValid rows
      → HasRow req rows
      → IsStored req (private_stage env req resume_reserved stage rows)
  unfolding private_stage
  private_stage-IsStored resume_reserved stage rows h has =
      if_cases (IsStored req) (not stage.created && not resume_reserved)
        (λ _. refused-IsStored ambiguous_attempt rows)
        (λ _. private_answer-IsStored (env.vault_sign stage.request_psbt) rows h has)

  -- A completed row replays its signed column.
  replay-IsStored :
      (r : Issuance) (rows : Table)
      → IsValid rows
      → select req.vault_id req.digest rows ≡ some r
      → r.request_psbt ≡ req.request_psbt
      → state_eq r.state completed ≡ true
      → IsStored req (replayed (text_of r.signed_psbt), rows)
  unfolding row_check
  replay-IsStored r rows h e same done full =
      let valid = (select-IsValidRow req.vault_id req.digest rows h e).0 in
      (r, e, same, ground arith, ground (arith, valid.checked))

  open_stage-IsStored :
      (resume_reserved : Bool) (stage : Stage) (rows : Table)
      → IsValid rows
      → HasRow req rows
      → IsStored req (
          if state_eq stage.state reserved
          then private_stage env req resume_reserved stage rows
          else public_stage env req stage.state stage.vault_psbt rows)
  open_stage-IsStored resume_reserved stage rows h has =
      if_cases (IsStored req) (state_eq stage.state reserved)
        (λ _. private_stage-IsStored resume_reserved stage rows h has)
        (λ _. public_stage-IsStored stage.state stage.vault_psbt rows h has)

  run_stage-IsStored :
      (resume_reserved : Bool) (rows : Table) (out : Result Stage × Table)
      → IsValid out.1
      → Outcome req env.period env.reserved_at rows out
      → IsStored req (run_stage env req resume_reserved out)
  unfolding run_stage
  run_stage-IsStored resume_reserved rows _ h (refused e) = refused-IsStored e rows
  run_stage-IsStored resume_reserved rows _ h (resumed row s p q r) =
      if_cases (IsStored req) (state_eq row.state completed)
        (λ done. replay-IsStored row rows h s p done)
        (λ _. open_stage-IsStored resume_reserved (stored_stage row) rows h (row, s, p))
  run_stage-IsStored resume_reserved rows _ h (created absent fits within) =
      open_stage-IsStored resume_reserved (new_stage req) _ h (
        new_row req env.period env.reserved_at,
        unfold select in rw (has_key_self (new_row req env.period env.reserved_at)) refl,
        refl,
      )

  after_guards-IsStored :
      (resume_reserved : Bool) (rows : Table) (o : Option Error)
      → InRange req
      → IsValid rows
      → request_error req ≡ o
      → IsStored req (after_guards o env req resume_reserved rows)
  after_guards-IsStored resume_reserved rows (some e) range h _ = refused-IsStored e rows
  after_guards-IsStored resume_reserved rows none range h ok_req =
      let ends =
        commit_reservation-Outcome env.reserve_faults env.period env.reserved_at req rows range
          ok_req in
      run_stage-IsStored resume_reserved rows _ (Outcome-IsValid env req rows _ ok_req h ends) ends

  -- On a valid table, for a request with int64 amounts, whatever the signers answer and whichever calls of the database fail, a signed
  -- text that is returned, as a fresh result, as a replay, or beside a context error, stands in the
  -- signed column of the completed row with the key and the request of the call.
  pub issue_stages-IsStored :
      (resume_reserved : Bool) (rows : Table)
      → InRange req
      → IsValid rows
      → IsStored req (issue_stages env req resume_reserved rows)
  unfolding issue_stages
  issue_stages-IsStored resume_reserved rows range h =
      after_guards-IsStored resume_reserved rows (request_error req) range h refl
