-- ===== src/Ledger/Sign.antt =====
-- commitSigningStage, issueSequential, Issue and IssueSequential of
-- poc/2fa-vault/internal/policy/ledger.go.
use arkade_2fa_vault_poc.Prelude.{
  ℕ, String, Bool, true, false, not, ◌&&◌, ◌||◌, Option, none, some, List, length, ◌==◌,
  if◌then◌else◌,
}
use arkade_2fa_vault_poc.Prelude.Int.{pos, ltb_ℤ, leb_ℤ}
use arkade_2fa_vault_poc.Ledger.Rows.{
  IssuanceState, reserved, vault_signed, completed, Table, Column, vault_psbt_column,
  signed_psbt_column, other_column, state_eq, is_empty, set_stage, update,
}
use arkade_2fa_vault_poc.Ledger.Transaction.{
  Error, Result, ok, err, db_error, context_error, vault_id_required, digest_size, request_required,
  recipient_required, negative_fee, negative_allowance, invalid_column, not_in_required_state,
  ambiguous_attempt, empty_private_response, invalid_signing_state, empty_public_response, Faults,
  update_row, rows_affected, Action, transaction,
}
use arkade_2fa_vault_poc.Ledger.Reserve.{Stage, Request, commit_reservation}

-- The row that a signing stage is about, and what it writes.
pub record StageWrite : Type 0 where
  pub vault_id : String
  pub digest : List ℕ
  pub want : IssuanceState
  pub next : IssuanceState
  pub column : Column
  pub value : String
  pub now : String

abbrev pub is_other : Column → Bool
is_other vault_psbt_column = false
is_other signed_psbt_column = false
is_other (other_column s) = true

unfoldable pub stage_body : Faults → StageWrite → Action (Unit {0})
stage_body fails w rows =
    if fails update_row
    then (err db_error, rows)
    else elim (update w.vault_id w.digest w.want (set_stage w.next w.column w.value w.now) rows) [
      | none ↦ (err db_error, rows)
      | some (rows', n) ↦
          if fails rows_affected
          then (err db_error, rows')
          else (if n == 1 then (ok tt, rows') else (err not_in_required_state, rows'))
    ]

unfoldable pub commit_signing_stage : Faults → StageWrite → Action (Unit {0})
unfolding stage_body transaction
commit_signing_stage fails w rows =
    if is_other w.column
    then (err invalid_column, rows)
    else transaction fails (stage_body fails w) rows

unfoldable pub commit_vault_signed : Faults → String → String → List ℕ → String → Action (Unit {0})
commit_vault_signed fails now v d vault_psbt = commit_signing_stage fails (record {
  vault_id = v;
  digest = d;
  want = reserved;
  next = vault_signed;
  column = vault_psbt_column;
  value = vault_psbt;
  now = now;
})

unfoldable pub commit_completion : Faults → String → String → List ℕ → String → Action (Unit {0})
commit_completion fails now v d signed = commit_signing_stage fails (record {
  vault_id = v;
  digest = d;
  want = vault_signed;
  next = completed;
  column = signed_psbt_column;
  value = signed;
  now = now;
})

-- What surrounds one call: the clock, the faults of its three transactions, the two cosigners, and
-- whether the caller's context is done at the end.
pub record Env : Type 0 where
  pub period : String
  pub reserved_at : String
  pub vault_signed_at : String
  pub completed_at : String
  pub reserve_faults : Faults
  pub vault_faults : Faults
  pub completion_faults : Faults
  pub vault_sign : String → Result String
  pub arkade_sign : String → Result String
  pub context_done : Bool

-- Go's three results: the text, whether it was a replay, and the error.
pub record Reply : Type 0 where
  pub signed : String
  pub replay : Bool
  pub error : Option Error

abbrev pub failed : Error → Reply
failed e = record { signed = ""; replay = false; error = some e }

abbrev pub replayed : String → Reply
replayed s = record { signed = s; replay = true; error = none }

abbrev pub context_error_of : Bool → Option Error
context_error_of true = some context_error
context_error_of false = none

-- ctx.Err() is returned beside the signed text, which is already stored.
abbrev pub completed_reply : Env → String → Result (Unit {0}) × Table → Reply × Table
completed_reply env signed (err e, rows) = (failed e, rows)
completed_reply env signed (ok u, rows) =
    (record { signed = signed; replay = false; error = context_error_of env.context_done }, rows)

abbrev pub public_answer : Env → Request → Result String → Table → Reply × Table
public_answer env req (err e) rows = (failed e, rows)
public_answer env req (ok signed) rows =
    if is_empty signed
    then (failed empty_public_response, rows)
    else completed_reply env signed (
        commit_completion env.completion_faults env.completed_at req.vault_id req.digest signed
          rows)

-- The public stage, from `if stage.state != stateVaultSigned` to the end.
unfoldable pub public_stage : Env → Request → IssuanceState → String → Table → Reply × Table
public_stage env req state vault_psbt rows =
    if not (state_eq state vault_signed) || is_empty vault_psbt
    then (failed invalid_signing_state, rows)
    else public_answer env req (env.arkade_sign vault_psbt) rows

abbrev pub after_vault_signed : Env → Request → String → Result (Unit {0}) × Table → Reply × Table
after_vault_signed env req vault_psbt (err e, rows) = (failed e, rows)
after_vault_signed env req vault_psbt (ok u, rows) =
    public_stage env req vault_signed vault_psbt rows

abbrev pub private_answer : Env → Request → Result String → Table → Reply × Table
private_answer env req (err e) rows = (failed e, rows)
private_answer env req (ok vault_psbt) rows =
    if is_empty vault_psbt
    then (failed empty_private_response, rows)
    else after_vault_signed env req vault_psbt (
        commit_vault_signed env.vault_faults env.vault_signed_at req.vault_id req.digest vault_psbt
          rows)

-- The private stage of a reserved row.
unfoldable pub private_stage : Env → Request → Bool → Stage → Table → Reply × Table
private_stage env req resume_reserved stage rows =
    if not stage.created && not resume_reserved
    then (failed ambiguous_attempt, rows)
    else private_answer env req (env.vault_sign stage.request_psbt) rows

unfoldable pub run_stage : Env → Request → Bool → Result Stage × Table → Reply × Table
run_stage env req resume_reserved (err e, rows) = (failed e, rows)
run_stage env req resume_reserved (ok stage, rows) =
    if state_eq stage.state completed
    then (replayed stage.signed_psbt, rows)
    else (if state_eq stage.state reserved
        then private_stage env req resume_reserved stage rows
        else public_stage env req stage.state stage.vault_psbt rows)

-- The guards, in order; `none` lets the call through.
unfoldable pub request_error : Request → Option Error
request_error req =
    if is_empty req.vault_id
    then some vault_id_required
    else if not (length req.digest == 32)
    then some digest_size
    else if is_empty req.request_psbt
    then some request_required
    else if leb_ℤ req.recipient (pos 0)
    then some recipient_required
    else if ltb_ℤ req.fee (pos 0)
    then some negative_fee
    else if ltb_ℤ req.remaining_cap (pos 0)
    then some negative_allowance
    else none

abbrev pub after_guards : Option Error → Env → Request → Bool → Table → Reply × Table
after_guards (some e) env req resume_reserved rows = (failed e, rows)
after_guards none env req resume_reserved rows =
    run_stage env req resume_reserved
      (commit_reservation env.reserve_faults env.period env.reserved_at req rows)

unfoldable pub issue_stages : Env → Request → Bool → Table → Reply × Table
issue_stages env req resume_reserved rows =
    after_guards (request_error req) env req resume_reserved rows
