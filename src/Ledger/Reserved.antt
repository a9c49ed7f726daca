-- ===== src/Ledger/Reserved.antt =====
-- The three ways that commitReservation of poc/2fa-vault/internal/policy/ledger.go can end.
use arkade_2fa_vault_poc.Prelude.{
  ◌-◌, ◌^◌, ◌≡◌, refl, inl, inr, ◌∷◌, String, Bool, true, false, none, some, arith, eq_iff,
  Option-cases, if_cases, if◌then◌else◌,
}
use arkade_2fa_vault_poc.Prelude.Int.{ℤ, pos, ◌+ℤ◌, ◌≤ℤ◌, ◌<ℤ◌, ltb_ℤ, eq_of_parts}
use arkade_2fa_vault_poc.Ledger.Rows.{
  Issuance, IssuanceState, Table, select, sum_outflow, spent_in_period, insert, reserved,
  vault_signed, completed, unknown,
}
use arkade_2fa_vault_poc.Ledger.Transaction.{
  Error, Result, ok, err, db_error, unknown_state, bound_to_other_request, period_spent_invalid,
  allowance_exceeded, Faults, Action, insert_row, sum, query, connect, begin_immediate, commit,
  finish, transaction,
}
use arkade_2fa_vault_poc.Ledger.Reserve.{
  Stage, Request, add_outflow, validate_issuance_stage, validate_stage_at, resume, stored_stage,
  new_row, new_stage, check_allowance, insert_reservation, charge, reserve_new, reservation_body,
  commit_reservation, check_when,
}
use arkade_2fa_vault_poc.Ledger.Valid.{insert_lem}
use arkade_2fa_vault_poc.Ledger.Sign.{request_error}
use arkade_2fa_vault_poc.Ledger.Amounts.{
  request_error-none, InRange, add_outflow-ok, check_allowance-false, spent_in_period-some,
}

-- The outcome of a reservation for `req` on `rows`.
pub data Outcome (req : Request) (period now : String) (rows : Table)
    : Result Stage × Table → Type 0 where
  -- an error, and nothing is written
  refused : (e : Error) → Outcome req period now rows (err e, rows)
  -- the stored row of the same request, and nothing is written
  resumed :
      (row : Issuance)
      → select req.vault_id req.digest rows ≡ some row
      → row.request_psbt ≡ req.request_psbt
      → row.recipient_amount ≡ req.recipient
      → row.fee ≡ req.fee
      → Outcome req period now rows (ok (stored_stage row), rows)
  -- a new row, within the allowance
  created :
      select req.vault_id req.digest rows ≡ none
      → req.recipient +ℤ req.fee ≤ℤ pos (2 ^ 63 - 1)
      → sum_outflow req.vault_id period rows +ℤ (req.recipient +ℤ req.fee) ≤ℤ req.remaining_cap
      → Outcome req period now rows (ok (new_stage req), new_row req period now ∷ rows)

module _ (fails : Faults) (period now : String) (req : Request) (rows : Table) where
  abbrev Ends : Result Stage × Table → Type 0
  Ends = Outcome req period now rows

  finish-Outcome : (out : Result Stage × Table) → Ends out → Ends (finish fails rows out)
  finish-Outcome _ (refused e) = refused e
  finish-Outcome _ (resumed row s p q r) =
      if_cases Ends (fails commit) (λ _. refused db_error) (λ _. resumed row s p q r)
  finish-Outcome _ (created s p q) =
      if_cases Ends (fails commit) (λ _. refused db_error) (λ _. created s p q)

  transaction-Outcome :
      (body : Action Stage) → Ends (body rows) → Ends (transaction fails body rows)
  unfolding transaction
  transaction-Outcome body h =
      if_cases Ends (fails connect) (λ _. refused db_error)
        (λ _.
          if_cases Ends (fails begin_immediate) (λ _. refused db_error)
            (λ _. finish-Outcome (body rows) h))

  validate-Outcome :
      (row : Issuance)
      → select req.vault_id req.digest rows ≡ some row
      → row.request_psbt ≡ req.request_psbt
      → row.recipient_amount ≡ req.recipient
      → row.fee ≡ req.fee
      → Ends (validate_issuance_stage (stored_stage row), rows)
  unfolding validate_issuance_stage
  validate-Outcome row s p q r = stage row.state
    where
      checked : (bad : Bool) (e : Error) → Ends (check_when bad e (stored_stage row), rows)
      checked true e = refused e
      checked false e = resumed row s p q r

      stage : (t : IssuanceState) → Ends (validate_stage_at t (stored_stage row), rows)
      stage reserved = checked _ _
      stage vault_signed = checked _ _
      stage completed = checked _ _
      stage (unknown u) = refused unknown_state

  resume-Outcome :
      (row : Issuance) → select req.vault_id req.digest rows ≡ some row → Ends (resume req row rows)
  unfolding resume
  resume-Outcome row s =
      if_cases Ends _ (λ _. refused bound_to_other_request)
        (λ same.
          validate-Outcome row s (ground (arith, same, eq_iff row.request_psbt req.request_psbt))
            (ground (arith, same, eq_of_parts row.recipient_amount req.recipient))
            (ground (arith, same, eq_of_parts row.fee req.fee)))

  module _ (absent : select req.vault_id req.digest rows ≡ none) (range : InRange req)
      (amount_pos : pos 0 <ℤ req.recipient) (fee_nonneg : pos 0 ≤ℤ req.fee)
      (cap_nonneg : pos 0 ≤ℤ req.remaining_cap) where
    insert-Outcome :
        req.recipient +ℤ req.fee ≤ℤ pos (2 ^ 63 - 1)
        → sum_outflow req.vault_id period rows +ℤ (req.recipient +ℤ req.fee) ≤ℤ req.remaining_cap
        → Ends (insert_reservation fails period now req rows)
    unfolding insert_reservation
    insert-Outcome fits within =
        if_cases Ends (fails insert_row) (λ _. refused db_error)
          (λ _. elim (Option-cases (insert (new_row req period now) rows)) [
            | inl e ↦ rw e (refused db_error)
            | inr (rows', e) ↦
                rw (e, (insert_lem (new_row req period now) rows e).0) (created absent fits within)
          ])

    charge-Outcome :
        (used : ℤ)
        → used ≡ sum_outflow req.vault_id period rows
        → Ends (charge fails period now req used rows)
    unfolding charge
    charge-Outcome used same =
        if_cases Ends (ltb_ℤ used (pos 0)) (λ _. refused period_spent_invalid)
          (λ nonneg. outflow (ground arith) (add_outflow req.recipient req.fee) refl)
      where
        outflow :
            pos 0 ≤ℤ used
            → (need : Result ℤ) → add_outflow req.recipient req.fee ≡ need
            → Ends (elim need [
              | err e ↦ (err e, rows)
              | ok n ↦
                  if check_allowance used n req.remaining_cap
                  then (err allowance_exceeded, rows)
                  else insert_reservation fails period now req rows
            ])
        outflow nonneg (err e) h = refused e
        outflow nonneg (ok n) h =
            let (exact, fits) =
              add_outflow-ok req.recipient req.fee range.recipient_fits range.fee_fits amount_pos
                fee_nonneg h in
            if_cases Ends _ (λ _. refused allowance_exceeded)
              (λ within. insert-Outcome fits (
                rw (← same, ← exact)
                  (check_allowance-false used n req.remaining_cap nonneg range.cap_fits cap_nonneg
                    within)))

    reserve_new-Outcome : Ends (reserve_new fails period now req rows)
    unfolding reserve_new
    reserve_new-Outcome =
        if_cases Ends (fails sum) (λ _. refused db_error)
          (λ _. elim (Option-cases (spent_in_period req.vault_id period rows)) [
            | inl e ↦ rw e (refused db_error)
            | inr (used, e) ↦
                rw e (charge-Outcome used (spent_in_period-some req.vault_id period rows e))
          ])

  -- The reservation of a request with int64 amounts that the guards let through fails and writes
  -- nothing, finds its own row and writes nothing, or adds one reserved row within the allowance.
  pub commit_reservation-Outcome :
      InRange req → request_error req ≡ none → Ends (commit_reservation fails period now req rows)
  unfolding commit_reservation reservation_body
  commit_reservation-Outcome range checked =
      let (_, _, _, amount_pos, fee_nonneg, cap_nonneg) = request_error-none req checked in
      transaction-Outcome (reservation_body fails period now req) (
        if_cases Ends (fails query) (λ _. refused db_error)
          (λ _. elim (Option-cases (select req.vault_id req.digest rows)) [
            | inl e ↦ rw e (reserve_new-Outcome e range amount_pos fee_nonneg cap_nonneg)
            | inr (row, e) ↦ rw e (resume-Outcome row e)
          ]))
