-- ===== src/Ledger/Reserve.antt =====
-- commitReservation, addOutflow and validateIssuanceStage of
-- poc/2fa-vault/internal/policy/ledger.go.
use arkade_2fa_vault_poc.Prelude.{
  ℕ, ◌^◌, ◌-◌, String, Bool, true, false, not, ◌&&◌, ◌||◌, Option, none, some, List, str_eq,
  if◌then◌else◌,
}
use arkade_2fa_vault_poc.Prelude.Int.{ℤ, pos, ◌+ℤ◌, ◌-ℤ◌, ltb_ℤ, eq_ℤ, int64}
use arkade_2fa_vault_poc.Ledger.Rows.{
  IssuanceState, reserved, vault_signed, completed, unknown, Issuance, is_empty, select,
  spent_in_period, insert,
}
use arkade_2fa_vault_poc.Ledger.Transaction.{
  Error, Result, ok, err, db_error, negative_outflow, outflow_overflow, bound_to_other_request,
  period_spent_invalid, allowance_exceeded, inconsistent_reserved, inconsistent_vault_signed,
  inconsistent_completed, unknown_state, Faults, query, sum, insert_row, Action, transaction,
}

unfoldable pub add_outflow : ℤ → ℤ → Result ℤ
add_outflow recipient fee =
    if ltb_ℤ recipient (pos 0) || ltb_ℤ fee (pos 0)
    then err negative_outflow
    else (if ltb_ℤ (pos 0) fee && ltb_ℤ (int64 (pos (2 ^ 63 - 1) -ℤ fee)) recipient
        then err outflow_overflow
        else ok (int64 (recipient +ℤ fee)))

-- issuanceStage; a NULL column reads as the empty text.
pub record Stage : Type 0 where
  pub state : IssuanceState
  pub request_psbt : String
  pub vault_psbt : String
  pub signed_psbt : String
  pub created : Bool

-- What one call asks for.
pub record Request : Type 0 where
  pub vault_id : String
  pub digest : List ℕ
  pub request_psbt : String
  pub recipient : ℤ
  pub fee : ℤ
  pub remaining_cap : ℤ

abbrev pub text_of : Option String → String
text_of none = ""
text_of (some s) = s

abbrev pub check_when : Bool → Error → Stage → Result Stage
check_when bad e stage = if bad then err e else ok stage

-- The stage itself where it is consistent.
unfoldable pub validate_stage_at : IssuanceState → Stage → Result Stage
validate_stage_at reserved s =
    check_when
      (is_empty s.request_psbt || (not (is_empty s.vault_psbt) || not (is_empty s.signed_psbt)))
      inconsistent_reserved s
validate_stage_at vault_signed s =
    check_when (is_empty s.request_psbt || (is_empty s.vault_psbt || not (is_empty s.signed_psbt)))
      inconsistent_vault_signed s
validate_stage_at completed s =
    check_when (is_empty s.request_psbt || (is_empty s.vault_psbt || is_empty s.signed_psbt))
      inconsistent_completed s
validate_stage_at (unknown t) s = err unknown_state

unfoldable pub validate_issuance_stage : Stage → Result Stage
unfolding validate_stage_at
validate_issuance_stage s = validate_stage_at s.state s

abbrev pub stored_stage : Issuance → Stage
stored_stage row = record {
  state = row.state;
  request_psbt = row.request_psbt;
  vault_psbt = text_of row.vault_psbt;
  signed_psbt = text_of row.signed_psbt;
  created = false;
}

-- The row is there: it must be bound to the same request.
unfoldable pub resume : Request → Issuance → Action Stage
unfolding validate_issuance_stage
resume req row rows =
    if not (str_eq row.request_psbt req.request_psbt)
      || (not (eq_ℤ row.recipient_amount req.recipient) || not (eq_ℤ row.fee req.fee))
    then (err bound_to_other_request, rows)
    else (validate_issuance_stage (stored_stage row), rows)

abbrev pub new_row : Request → String → String → Issuance
new_row req period now = record {
  vault_id = req.vault_id;
  arkade_sighash = req.digest;
  period_start = period;
  recipient_amount = req.recipient;
  fee = req.fee;
  state = reserved;
  request_psbt = req.request_psbt;
  vault_psbt = none;
  signed_psbt = none;
  created_at = now;
  updated_at = now;
}

abbrev pub new_stage : Request → Stage
new_stage req = record {
  state = reserved;
  request_psbt = req.request_psbt;
  vault_psbt = "";
  signed_psbt = "";
  created = true;
}

unfoldable pub insert_reservation : Faults → String → String → Request → Action Stage
insert_reservation fails period now req rows =
    if fails insert_row then (err db_error, rows) else elim (insert (new_row req period now) rows) [
      | none ↦ (err db_error, rows)
      | some rows' ↦ (ok (new_stage req), rows')
    ]

-- The two allowance tests, on what is spent and what is needed.
unfoldable pub check_allowance : ℤ → ℤ → ℤ → Bool
check_allowance used need cap = ltb_ℤ cap used || ltb_ℤ (int64 (cap -ℤ used)) need

unfoldable pub charge : Faults → String → String → Request → ℤ → Action Stage
charge fails period now req used rows =
    if ltb_ℤ used (pos 0)
    then (err period_spent_invalid, rows)
    else elim (add_outflow req.recipient req.fee) [
      | err e ↦ (err e, rows)
      | ok need ↦
          if check_allowance used need req.remaining_cap
          then (err allowance_exceeded, rows)
          else insert_reservation fails period now req rows
    ]

unfoldable pub reserve_new : Faults → String → String → Request → Action Stage
reserve_new fails period now req rows =
    if fails sum then (err db_error, rows) else elim (spent_in_period req.vault_id period rows) [
      | none ↦ (err db_error, rows)
      | some used ↦ charge fails period now req used rows
    ]

unfoldable pub reservation_body : Faults → String → String → Request → Action Stage
reservation_body fails period now req rows =
    if fails query then (err db_error, rows) else elim (select req.vault_id req.digest rows) [
      | some row ↦ resume req row rows
      | none ↦ reserve_new fails period now req rows
    ]

unfoldable pub commit_reservation : Faults → String → String → Request → Action Stage
unfolding reservation_body reserve_new charge insert_reservation transaction
commit_reservation fails period now req = transaction fails (reservation_body fails period now req)
