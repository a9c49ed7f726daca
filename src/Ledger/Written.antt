-- ===== src/Ledger/Written.antt =====
-- The two ways that commitSigningStage of poc/2fa-vault/internal/policy/ledger.go can end.
use arkade_2fa_vault_poc.Prelude.{
  ℕ, ◌≡◌, inl, inr, String, some, List, ◌==◌, arith, Option-cases, if_cases, if◌then◌else◌,
}
use arkade_2fa_vault_poc.Ledger.Rows.{
  IssuanceState, reserved, vault_signed, Issuance, Table, set_stage, update,
}
use arkade_2fa_vault_poc.Ledger.Transaction.{
  Error, Result, ok, err, db_error, not_in_required_state, invalid_column, Faults, update_row,
  rows_affected, connect, begin_immediate, commit, finish,
}
use arkade_2fa_vault_poc.Ledger.Sign.{
  StageWrite, is_other, stage_body, commit_signing_stage, commit_vault_signed, commit_completion,
}
use arkade_2fa_vault_poc.Ledger.Valid.{map_updated, hits, update_lem}
use arkade_2fa_vault_poc.Ledger.Step.{sign_row, complete_row}

-- The outcome of writing a stage of the row with the key `v`, `d`.
pub data Written (v : String) (d : List ℕ) (want : IssuanceState) (change : Issuance → Issuance)
    (rows : Table) : Result (Unit {0}) × Table → Type 0 where
  -- an error, and nothing is written
  unwritten : (e : Error) → Written v d want change rows (err e, rows)
  -- exactly one row was in the wanted state, and is changed
  written :
      hits v d want change rows ≡ 1
      → Written v d want change rows (ok tt, map_updated v d want change rows)

-- What a stage writes to its row.
abbrev pub change_of : StageWrite → Issuance → Issuance
change_of w = set_stage w.next w.column w.value w.now

module _ (fails : Faults) (w : StageWrite) (rows : Table) where
  abbrev Ends : Result (Unit {0}) × Table → Type 0
  Ends = Written w.vault_id w.digest w.want (change_of w) rows

  finish-Written :
      (rows' : Table) (n : ℕ)
      → update w.vault_id w.digest w.want (change_of w) rows ≡ some (rows', n)
      → Ends (
          finish fails rows (
            if fails rows_affected
            then (err db_error, rows')
            else (if n == 1 then (ok tt, rows') else (err not_in_required_state, rows'))))
  finish-Written rows' n e =
      let (same, count) = update_lem w.vault_id w.digest w.want (change_of w) rows rows' n e in
      let finished = λ (out : Result (Unit {0}) × Table). Ends (finish fails rows out) in
      if_cases finished (fails rows_affected) (λ _. unwritten db_error)
        (λ _.
          if_cases finished (n == 1)
            (λ one.
              if_cases Ends (fails commit) (λ _. unwritten db_error)
                (λ _. rw same (written (ground (arith, count)))))
            (λ _. unwritten not_in_required_state))

  body-Written : Ends (finish fails rows (stage_body fails w rows))
  unfolding stage_body
  body-Written =
      if_cases (λ out. Ends (finish fails rows out)) (fails update_row) (λ _. unwritten db_error)
        (λ _. elim (Option-cases (update w.vault_id w.digest w.want (change_of w) rows)) [
          | inl e ↦ rw e (unwritten db_error)
          | inr ((rows', n), e) ↦ rw e (finish-Written rows' n e)
        ])

  commit_signing_stage-Written : Ends (commit_signing_stage fails w rows)
  unfolding commit_signing_stage
  commit_signing_stage-Written =
      if_cases Ends (is_other w.column) (λ _. unwritten invalid_column)
        (λ _.
          if_cases Ends (fails connect) (λ _. unwritten db_error)
            (λ _.
              if_cases Ends (fails begin_immediate) (λ _. unwritten db_error) (λ _. body-Written)))

module _ (fails : Faults) (now v : String) (d : List ℕ) (value : String) (rows : Table) where
  -- The private stage fails and writes nothing, or signs the one reserved row with the key.
  pub commit_vault_signed-Written :
      Written v d reserved (sign_row value now) rows (commit_vault_signed fails now v d value rows)
  unfolding commit_vault_signed
  commit_vault_signed-Written = commit_signing_stage-Written fails _ rows

  -- The public stage fails and writes nothing, or completes the one signed row with the key.
  pub commit_completion-Written :
      Written v d vault_signed
        (complete_row value now)
        rows
        (commit_completion fails now v d value rows)
  unfolding commit_completion
  commit_completion-Written = commit_signing_stage-Written fails _ rows
