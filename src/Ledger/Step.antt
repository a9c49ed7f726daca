-- ===== src/Ledger/Step.antt =====
-- What the ledger of poc/2fa-vault/internal/policy/ledger.go promises: the issuance table changes
-- only by these steps.
use arkade_2fa_vault_poc.Prelude.{
  ℕ, ◌≡◌, refl, inl, inr, String, false, none, List, ◌∷◌, arith, eq_iff, Bool-cases,
}
use arkade_2fa_vault_poc.Prelude.Int.{ℤ, ◌+ℤ◌, ◌≤ℤ◌, int_laws}
use arkade_2fa_vault_poc.Ledger.Rows.{
  reserved, vault_signed, completed, Issuance, Table, vault_psbt_column, signed_psbt_column,
  is_empty, row_check, select, sum_outflow, set_stage, in_period,
}
use arkade_2fa_vault_poc.Ledger.Valid.{IsValidRow, IsValid, IsFrame, map_updated}
use arkade_2fa_vault_poc.Ledger.Update.{sum_outflow-map_updated, map_updated-IsValid}

-- What the private stage and the public stage write to a row.
abbrev pub sign_row : String → String → Issuance → Issuance
sign_row value now = set_stage vault_signed vault_psbt_column value now

abbrev pub complete_row : String → String → Issuance → Issuance
complete_row value now = set_stage completed signed_psbt_column value now

-- One transaction under the allowance `cap`.
pub data Step (cap : ℤ) : Table → Table → Type 0 where
  -- a new reserved row that the period can pay for
  reserve :
      (r : Issuance) (rows : Table)
      → IsValidRow r
      → r.state ≡ reserved
      → select r.vault_id r.arkade_sighash rows ≡ none
      → sum_outflow r.vault_id r.period_start rows +ℤ (r.recipient_amount +ℤ r.fee) ≤ℤ cap
      → Step cap rows (r ∷ rows)
  -- a reserved row gets its private signature
  sign :
      (v : String) (d : List ℕ) (value now : String) (rows : Table)
      → is_empty value ≡ false
      → Step cap rows (map_updated v d reserved (sign_row value now) rows)
  -- a signed row gets its public signature
  complete :
      (v : String) (d : List ℕ) (value now : String) (rows : Table)
      → is_empty value ≡ false
      → Step cap rows (map_updated v d vault_signed (complete_row value now) rows)

pub data Steps (cap : ℤ) : Table → Table → Type 0 where
  here : (rows : Table) → Steps cap rows rows
  next :
      {rows rows' rows'' : Table}
      → Step cap rows rows'
      → Steps cap rows' rows''
      → Steps cap rows rows''

pub sign_row-IsFrame :
    (value now : String) → is_empty value ≡ false → IsFrame reserved (sign_row value now)
unfolding set_stage row_check
sign_row-IsFrame value now h = record {
  same_vault = λ r. refl;
  same_sighash = λ r. refl;
  same_period = λ r. refl;
  same_recipient = λ r. refl;
  same_fee = λ r. refl;
  keeps = λ r valid at. record {
    checked = ground (arith, valid.checked);
    amount_pos = valid.amount_pos;
    fee_nonneg = valid.fee_nonneg;
    outflow_fits = valid.outflow_fits;
    vault_filled = h;
    signed_filled = valid.signed_filled;
  };
}

pub complete_row-IsFrame :
    (value now : String) → is_empty value ≡ false → IsFrame vault_signed (complete_row value now)
unfolding set_stage row_check
complete_row-IsFrame value now h = record {
  same_vault = λ r. refl;
  same_sighash = λ r. refl;
  same_period = λ r. refl;
  same_recipient = λ r. refl;
  same_fee = λ r. refl;
  keeps = λ r valid at. record {
    checked = ground (arith, valid.checked);
    amount_pos = valid.amount_pos;
    fee_nonneg = valid.fee_nonneg;
    outflow_fits = valid.outflow_fits;
    vault_filled = valid.vault_filled;
    signed_filled = h;
  };
}

pub Step-IsValid :
    {cap : ℤ} {rows rows' : Table} → Step cap rows rows' → IsValid rows → IsValid rows'
Step-IsValid (reserve r rows valid at absent within) h = (valid, absent, h)
Step-IsValid (sign v d value now rows nonempty) h =
    map_updated-IsValid v d reserved (sign_row value now) (sign_row-IsFrame value now nonempty) rows
      h
Step-IsValid (complete v d value now rows nonempty) h =
    map_updated-IsValid v d vault_signed (complete_row value now)
      (complete_row-IsFrame value now nonempty) rows h

pub Steps-IsValid :
    {cap : ℤ} {rows rows' : Table} → Steps cap rows rows' → IsValid rows → IsValid rows'
Steps-IsValid (here rows) h = h
Steps-IsValid (next s more) h = Steps-IsValid more (Step-IsValid s h)

-- No period of any vault has spent more than `limit`.
abbrev pub IsWithin : ℤ → Table → Type 0
IsWithin limit rows = (v p : String) → sum_outflow v p rows ≤ℤ limit

reserve-IsWithin :
    (limit cap : ℤ) (r : Issuance) (rows : Table)
    → cap ≤ℤ limit
    → sum_outflow r.vault_id r.period_start rows +ℤ (r.recipient_amount +ℤ r.fee) ≤ℤ cap
    → IsWithin limit rows
    → IsWithin limit (r ∷ rows)
unfolding sum_outflow
reserve-IsWithin limit cap r rows le within h v p = elim (Bool-cases (in_period v p r)) [
  | inl hit ↦
      let same_v : r.vault_id ≡ v = ground (arith, eq_iff r.vault_id v) in
      let same_p : r.period_start ≡ p = ground (arith, eq_iff r.period_start p) in
      rw hit (omega (int_laws, rw (same_v, same_p) at within))
  | inr miss ↦ rw miss (h v p)
]

Step-IsWithin :
    (limit : ℤ) {cap : ℤ} {rows rows' : Table}
    → cap ≤ℤ limit
    → Step cap rows rows'
    → IsValid rows
    → IsWithin limit rows
    → IsWithin limit rows'
Step-IsWithin limit {cap = cap} le (reserve r rows valid at absent within) h w =
    reserve-IsWithin limit cap r rows le within w
Step-IsWithin limit le (sign v d value now rows nonempty) h w = λ v' p.
    rw
      (sum_outflow-map_updated v d reserved (sign_row value now)
        (sign_row-IsFrame value now nonempty) v' p rows h)
      (w v' p)
Step-IsWithin limit le (complete v d value now rows nonempty) h w = λ v' p.
    rw
      (sum_outflow-map_updated v d vault_signed (complete_row value now)
        (complete_row-IsFrame value now nonempty) v' p rows h)
      (w v' p)

-- Steps whose allowances are within a limit keep every period within it.
pub Steps-IsWithin :
    (limit : ℤ) {cap : ℤ} {rows rows' : Table}
    → cap ≤ℤ limit
    → Steps cap rows rows'
    → IsValid rows
    → IsWithin limit rows
    → IsWithin limit rows'
Steps-IsWithin limit le (here rows) h w = w
Steps-IsWithin limit le (next s more) h w =
    Steps-IsWithin limit le more (Step-IsValid s h) (Step-IsWithin limit le s h w)
