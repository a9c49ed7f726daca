-- ===== src/Ledger/Transaction.antt =====
-- How the ledger of poc/2fa-vault/internal/policy/ledger.go runs a transaction: BEGIN IMMEDIATE, the
-- statements, COMMIT, and ROLLBACK on every other way out. A failing call of the database is an input.
use arkade_2fa_vault_poc.Prelude.{Bool, if◌then◌else◌}
use arkade_2fa_vault_poc.Ledger.Rows.{Table}

-- The errors, one for each message.
pub data Error : Type 0 where
  db_error signer_error context_error : Error
  vault_id_required digest_size request_required recipient_required negative_fee : Error
  negative_allowance signer_required negative_outflow outflow_overflow : Error
  bound_to_other_request period_spent_invalid allowance_exceeded : Error
  inconsistent_reserved inconsistent_vault_signed inconsistent_completed unknown_state : Error
  invalid_column not_in_required_state : Error
  ambiguous_attempt empty_private_response invalid_signing_state empty_public_response : Error

pub data Result (A : Type 0) : Type 0 where
  ok : A → Result A
  err : Error → Result A

-- What may fail in a transaction, whatever its arguments.
pub data DbCall : Type 0 where
  connect begin_immediate query sum insert_row update_row rows_affected commit : DbCall

abbrev pub Faults : Type 0
Faults = DbCall → Bool

abbrev pub Action : Type 0 → Type 0
Action A = Table → Result A × Table

module _ {A : Type 0} where
  abbrev pub finish : Faults → Table → Result A × Table → Result A × Table
  finish fails rows (ok a, rows') = if fails commit then (err db_error, rows) else (ok a, rows')
  finish fails rows (err e, rows') = (err e, rows)

  -- The body sees the table; its writes stay only where it returns and COMMIT succeeds.
  unfoldable pub transaction : Faults → Action A → Action A
  transaction fails body rows =
      if fails connect
      then (err db_error, rows)
      else (if fails begin_immediate then (err db_error, rows) else finish fails rows (body rows))
