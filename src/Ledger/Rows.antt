-- ===== src/Ledger/Rows.antt =====
-- The issuance table of poc/2fa-vault/internal/policy/ledger.go: its rows, the constraints of its
-- schema, and the four statements that the ledger sends to it.
use arkade_2fa_vault_poc.Prelude.{
  ℕ, suc, ◌^◌, ◌-◌, String, Bool, true, false, not, ◌&&◌, Option, none, some, List, [], ◌∷◌, str_eq,
  if◌then◌else◌,
}
use arkade_2fa_vault_poc.Prelude.Int.{ℤ, pos, negsuc, ◌+ℤ◌, leb_ℤ}
use arkade_2fa_vault_poc.Prelude.Bytes.{bytes_eq}

-- stateReserved, stateVaultSigned, stateCompleted, and any other text.
pub data IssuanceState : Type 0 where
  reserved vault_signed completed : IssuanceState
  unknown : String → IssuanceState

pub record Issuance : Type 0 where
  pub vault_id : String
  pub arkade_sighash : List ℕ
  pub period_start : String
  pub recipient_amount : ℤ
  pub fee : ℤ
  pub state : IssuanceState
  pub request_psbt : String
  pub vault_psbt : Option String
  pub signed_psbt : Option String
  pub created_at : String
  pub updated_at : String

abbrev pub Table : Type 0
Table = List Issuance

abbrev pub state_eq : IssuanceState → IssuanceState → Bool
state_eq reserved reserved = true
state_eq vault_signed vault_signed = true
state_eq completed completed = true
state_eq (unknown s) (unknown t) = str_eq s t
state_eq _ _ = false

abbrev pub is_empty : String → Bool
is_empty s = str_eq s ""

abbrev pub is_null : Option String → Bool
is_null none = true
is_null (some s) = false

-- The CHECK that ties the state to the columns it fills.
abbrev pub stage_columns : IssuanceState → Option String → Option String → Bool
stage_columns reserved vault signed = is_null vault && is_null signed
stage_columns vault_signed vault signed = not (is_null vault) && is_null signed
stage_columns completed vault signed = not (is_null vault) && not (is_null signed)
stage_columns (unknown s) vault signed = false

-- All CHECK constraints of the table.
unfoldable pub row_check : Issuance → Bool
row_check r = not (is_empty r.request_psbt) && stage_columns r.state r.vault_psbt r.signed_psbt

-- `WHERE vault_id = ? AND arkade_sighash = ?`, the primary key.
abbrev pub has_key : String → List ℕ → Issuance → Bool
has_key v d r = str_eq r.vault_id v && bytes_eq r.arkade_sighash d

-- SELECT by the primary key.
unfoldable pub select : String → List ℕ → Table → Option Issuance
select v d [] = none
select v d (r ∷ rows) = if has_key v d r then some r else select v d rows

-- `state IN (reserved, vault_signed, completed)`
abbrev pub is_counted : IssuanceState → Bool
is_counted (unknown s) = false
is_counted _ = true

abbrev pub in_period : String → String → Issuance → Bool
in_period v p r = str_eq r.vault_id v && (str_eq r.period_start p && is_counted r.state)

unfoldable pub sum_outflow : String → String → Table → ℤ
sum_outflow v p [] = pos 0
sum_outflow v p (r ∷ rows) =
    if in_period v p r
    then r.recipient_amount +ℤ r.fee +ℤ sum_outflow v p rows
    else sum_outflow v p rows

-- `SELECT COALESCE(SUM(recipient_amount + fee), 0)`: SQLite refuses a sum outside its integers.
unfoldable pub spent_in_period : String → String → Table → Option ℤ
spent_in_period v p rows =
    let n = sum_outflow v p rows in
    if leb_ℤ (negsuc (2 ^ 63 - 1)) n && leb_ℤ n (pos (2 ^ 63 - 1)) then some n else none

-- INSERT; refused where the key is taken or a CHECK fails.
unfoldable pub insert : Issuance → Table → Option Table
unfolding row_check
insert r rows = elim (select r.vault_id r.arkade_sighash rows) [
  | none ↦ if row_check r then some (r ∷ rows) else none
  | some old ↦ none
]

-- The column that a signing stage fills, by its SQL name.
pub data Column : Type 0 where
  vault_psbt_column signed_psbt_column : Column
  other_column : String → Column

-- `SET state = ?, <column> = ?, updated_at = ?` on one row.
unfoldable pub set_stage : IssuanceState → Column → String → String → Issuance → Issuance
set_stage next vault_psbt_column value now r = record r {
  state = next;
  vault_psbt = some value;
  updated_at = now;
}
set_stage next signed_psbt_column value now r = record r {
  state = next;
  signed_psbt = some value;
  updated_at = now;
}
set_stage next (other_column name) value now r = record r { state = next; updated_at = now }

-- UPDATE of the rows with the key and the wanted state: the new table and RowsAffected, or a refusal
-- where a CHECK fails on a row that changes.
module _ (v : String) (d : List ℕ) (want : IssuanceState) (change : Issuance → Issuance) where
  unfoldable pub update_row : Issuance → Table → ℕ → Option (Table × ℕ)
  update_row r rows n =
      if has_key v d r && state_eq r.state want
      then (if row_check (change r) then some (change r ∷ rows, suc n) else none)
      else some (r ∷ rows, n)

  unfoldable pub update_front : Issuance → Option (Table × ℕ) → Option (Table × ℕ)
  update_front r none = none
  update_front r (some (rows, n)) = update_row r rows n

  unfoldable pub update : Table → Option (Table × ℕ)
  unfolding update_row update_front row_check
  update [] = some ([], 0)
  update (r ∷ rows) = update_front r (update rows)
