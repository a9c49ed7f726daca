-- ===== src/Ledger/History.antt =====
-- Histories of calls of poc/2fa-vault/internal/policy/ledger.go, from the empty table.
use arkade_2fa_vault_poc.Prelude.{
  ℕ, ◌≡◌, String, false, none, some, List, [], ◌∷◌, All, arith, if_cases, ◌||◌,
}
use arkade_2fa_vault_poc.Prelude.Int.{ℤ, pos, ◌≤ℤ◌, int_laws, IsInt64}
use arkade_2fa_vault_poc.Ledger.Rows.{
  Issuance, Table, select, in_period, sum_outflow, spent_in_period,
}
use arkade_2fa_vault_poc.Ledger.Reserve.{Request}
use arkade_2fa_vault_poc.Ledger.Sign.{Reply}
use arkade_2fa_vault_poc.Ledger.Issue.{
  Call, sequential, legacy, run_call, run, issue_sequential, issue, is_nil, legacy_request,
}
use arkade_2fa_vault_poc.Ledger.Valid.{IsValid}
use arkade_2fa_vault_poc.Ledger.Amounts.{InRange}
use arkade_2fa_vault_poc.Ledger.Step.{Steps, here, Steps-IsValid, IsWithin, Steps-IsWithin}
use arkade_2fa_vault_poc.Ledger.Persist.{KeepsRow, Steps-KeepsRow, Continues-trans}
use arkade_2fa_vault_poc.Ledger.Refines.{issue_stages-Steps}

abbrev pub request_of : Call → Request
request_of (sequential vault arkade env req) = req
request_of (legacy answer env req) = req

-- The amounts are int64 values and the allowance of the call is at most `limit`.
pub record IsAllowed (limit : ℤ) (c : Call) : Type 0 where
  pub range : InRange (request_of c)
  pub capped : (request_of c).remaining_cap ≤ℤ limit

legacy_request-InRange :
    (hex_encode : List ℕ → String) (req : Request)
    → InRange req
    → InRange (legacy_request hex_encode req)
legacy_request-InRange hex_encode req h = record {
  recipient_fits = h.recipient_fits;
  fee_fits = h.fee_fits;
  cap_fits = h.cap_fits;
}

module _ (hex_encode : List ℕ → String) where
  -- Each call of either entry point moves the table by steps within the allowance of the call.
  pub run_call-Steps :
      (c : Call) (rows : Table)
      → InRange (request_of c)
      → Steps (request_of c).remaining_cap rows (run_call hex_encode c rows).1
  unfolding run_call issue_sequential issue
  run_call-Steps (sequential vault arkade env req) rows range =
      if_cases (λ (out : Reply × Table). Steps req.remaining_cap rows out.1)
        (is_nil vault || is_nil arkade) (λ _. here rows)
        (λ _. issue_stages-Steps _ req _ rows range)
  run_call-Steps (legacy none env req) rows range = here rows
  run_call-Steps (legacy (some answer) env req) rows range =
      issue_stages-Steps _ (legacy_request hex_encode req) false rows
        (legacy_request-InRange hex_encode req range)

  module _ (limit : ℤ) where
    run_from-IsValid :
        (calls : List Call) (rows : Table)
        → All (IsAllowed limit) calls
        → IsValid rows
        → IsWithin limit rows
        → IsValid (run hex_encode calls rows) × IsWithin limit (run hex_encode calls rows)
    unfolding run
    run_from-IsValid [] rows a h w = (h, w)
    run_from-IsValid (c ∷ calls) rows a h w =
        let steps = run_call-Steps c rows a.0.range in
        run_from-IsValid calls (run_call hex_encode c rows).1 a.1 (Steps-IsValid steps h)
          (Steps-IsWithin limit a.0.capped steps h w)

    -- After any calls whose amounts are int64 values, whatever their signers answered and whichever
    -- calls of the database failed, the table is valid: keys are unique, every row has the columns of
    -- its state, positive amounts and an int64 outflow.
    pub run-IsValid :
        (calls : List Call)
        → pos 0 ≤ℤ limit
        → All (IsAllowed limit) calls
        → IsValid (run hex_encode calls [])
    run-IsValid calls nonneg a =
        (run_from-IsValid calls [] a tt (λ v p. unfold sum_outflow in nonneg)).0

pub sum_outflow-nonneg :
    (v p : String) (rows : Table) → IsValid rows → pos 0 ≤ℤ sum_outflow v p rows
unfolding sum_outflow
sum_outflow-nonneg v p [] h = omega arith
sum_outflow-nonneg v p (r ∷ rows) h =
    if_cases (λ z. pos 0 ≤ℤ z) (in_period v p r)
      (λ _. omega (int_laws, h.0.amount_pos, h.0.fee_nonneg, sum_outflow-nonneg v p rows h.2))
      (λ _. sum_outflow-nonneg v p rows h.2)

-- After any calls with int64 amounts and allowances of at most `limit`, whatever their signers
-- answered and whichever calls of the database failed, the sum query of every vault and period
-- succeeds, is not negative, and is at most `limit`.
pub spent-run-le :
    (hex_encode : List ℕ → String) (limit : ℤ) (calls : List Call) (v p : String)
    → pos 0 ≤ℤ limit
    → IsInt64 limit
    → All (IsAllowed limit) calls
    → (n : ℤ) × (spent_in_period v p (run hex_encode calls []) ≡ some n)
      × (pos 0 ≤ℤ n)
      × (n ≤ℤ limit)
unfolding spent_in_period
spent-run-le hex_encode limit calls v p nonneg fits a =
    let (valid, within) =
      run_from-IsValid hex_encode limit calls [] a tt (λ v p. unfold sum_outflow in nonneg) in
    let rows = run hex_encode calls [] in
    let low = sum_outflow-nonneg v p rows valid in
    let high = within v p in (sum_outflow v p rows, ground arith, low, high)

-- From a valid table, after any further calls with int64 amounts, a row that was there is still there:
-- bound to the same request, amounts and period, in the same or a later state, with every stored
-- signature kept.
pub run-KeepsRow :
    (hex_encode : List ℕ → String) (limit : ℤ) (calls : List Call) (rows : Table) (v : String)
    (d : List ℕ) (r : Issuance)
    → IsValid rows
    → select v d rows ≡ some r
    → All (IsAllowed limit) calls
    → KeepsRow v d r (run hex_encode calls rows)
unfolding run
run-KeepsRow hex_encode limit [] rows v d r h e a =
    Steps-KeepsRow {cap = limit} v d r (here rows) h e
run-KeepsRow hex_encode limit (c ∷ calls) rows v d r h e a =
    let steps = run_call-Steps hex_encode c rows a.0.range in
    let (r₁, e₁, c₁) = Steps-KeepsRow v d r steps h e in
    let (r₂, e₂, c₂) =
      run-KeepsRow hex_encode limit calls (run_call hex_encode c rows).1 v d r₁
        (Steps-IsValid steps h) e₁ a.1 in
    (r₂, e₂, Continues-trans c₁ c₂)
