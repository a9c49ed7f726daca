-- ===== src/Ledger/Valid.antt =====
-- The invariant of the issuance table, and how the statements of Rows keep it.
use arkade_2fa_vault_poc.Prelude.{
  ℕ, suc, ◌-◌, ◌^◌, ◌≡◌, refl, ap, ◌∙◌, inl, inr, String, true, false, ◌&&◌, Option, none, some,
  List, [], ◌∷◌, arith, eq_iff, Bool-cases, if◌then◌else◌,
}
use arkade_2fa_vault_poc.Prelude.Int.{pos, ◌+ℤ◌, ◌≤ℤ◌, ◌<ℤ◌}
use arkade_2fa_vault_poc.Prelude.Bytes.{bytes_eq_iff}
use arkade_2fa_vault_poc.Ledger.Rows.{
  IssuanceState, Issuance, Table, state_eq, is_empty, row_check, has_key, select, is_counted,
  insert, update_row, update_front, update,
}

-- A Filled column is not the empty text.
abbrev pub Filled : Option String → Type 0
Filled none = Unit
Filled (some s) = is_empty s ≡ false

-- One row: its CHECK holds, its amounts are positive and their sum is an int64.
pub record IsValidRow (r : Issuance) : Type 0 where
  pub checked : row_check r ≡ true
  pub amount_pos : pos 0 <ℤ r.recipient_amount
  pub fee_nonneg : pos 0 ≤ℤ r.fee
  pub outflow_fits : r.recipient_amount +ℤ r.fee ≤ℤ pos (2 ^ 63 - 1)
  pub vault_filled : Filled r.vault_psbt
  pub signed_filled : Filled r.signed_psbt

-- Every row is valid and no key stands twice.
abbrev pub IsValid : Table → Type 0
IsValid [] = Unit
IsValid (r ∷ rows) = IsValidRow r × (select r.vault_id r.arkade_sighash rows ≡ none) × IsValid rows

pub has_key_self : (r : Issuance) → has_key r.vault_id r.arkade_sighash r ≡ true
has_key_self r =
    ground (arith, eq_iff r.vault_id r.vault_id, bytes_eq_iff r.arkade_sighash r.arkade_sighash)

pub has_key_iff :
    (v : String) (d : List ℕ) (r : Issuance)
    → has_key v d r ≡ true
    → (r.vault_id ≡ v) × (r.arkade_sighash ≡ d)
has_key_iff v d r h = ground (arith, eq_iff r.vault_id v, bytes_eq_iff r.arkade_sighash d)

-- What a selected row says of the table.
pub select-IsValidRow :
    (v : String) (d : List ℕ) (rows : Table) {r : Issuance}
    → IsValid rows
    → select v d rows ≡ some r
    → IsValidRow r × (has_key v d r ≡ true)
unfolding select
select-IsValidRow v d [] h e = cc
select-IsValidRow v d (x ∷ rows) {r = r} h e = elim (Bool-cases (has_key v d x)) [
  | inl hit ↦ let same : x ≡ r = ground arith in rw (← same) (h.0, hit)
  | inr miss ↦ select-IsValidRow v d rows h.2 (rw miss at e)
]

pub IsValidRow-is_counted : (r : Issuance) → IsValidRow r → is_counted r.state ≡ true
unfolding row_check
IsValidRow-is_counted r h = ground (arith, h.checked)

-- INSERT puts the row in front, and only where its key is new.
pub insert_lem :
    (r : Issuance) (rows : Table) {rows' : Table}
    → insert r rows ≡ some rows'
    → (rows' ≡ r ∷ rows) × (select r.vault_id r.arkade_sighash rows ≡ none) × (row_check r ≡ true)
unfolding insert
insert_lem r rows h = ground arith

-- An update that keeps the key, the request and the amounts, and makes valid rows of valid rows.
pub record IsFrame (want : IssuanceState) (change : Issuance → Issuance) : Type 0 where
  pub same_vault : (r : Issuance) → (change r).vault_id ≡ r.vault_id
  pub same_sighash : (r : Issuance) → (change r).arkade_sighash ≡ r.arkade_sighash
  pub same_period : (r : Issuance) → (change r).period_start ≡ r.period_start
  pub same_recipient : (r : Issuance) → (change r).recipient_amount ≡ r.recipient_amount
  pub same_fee : (r : Issuance) → (change r).fee ≡ r.fee
  pub keeps : (r : Issuance) → IsValidRow r → state_eq r.state want ≡ true → IsValidRow (change r)

module _ (v : String) (d : List ℕ) (want : IssuanceState) (change : Issuance → Issuance) where
  -- What UPDATE makes of one row.
  abbrev pub updated : Issuance → Issuance
  updated r = if has_key v d r && state_eq r.state want then change r else r

  abbrev pub map_updated : Table → Table
  map_updated [] = []
  map_updated (r ∷ rows) = updated r ∷ map_updated rows

  abbrev pub hits : Table → ℕ
  hits [] = 0
  hits (r ∷ rows) = if has_key v d r && state_eq r.state want then suc (hits rows) else hits rows

  update_row_lem :
      (r : Issuance) (rows : Table) (n : ℕ) {rows' : Table} {n' : ℕ}
      → update_row v d want change r rows n ≡ some (rows', n')
      → (rows' ≡ updated r ∷ rows)
        × (n' ≡ (if has_key v d r && state_eq r.state want then suc n else n))
  unfolding update_row
  update_row_lem r rows n h = elim (Bool-cases (has_key v d r && state_eq r.state want)) [
    | inl hit ↦ rw hit (ground (arith, rw hit at h))
    | inr miss ↦ rw miss (ground (arith, rw miss at h))
  ]

  update_front_lem :
      (r : Issuance) (o : Option (Table × ℕ)) (M : Table) (N : ℕ) {rows' : Table} {n' : ℕ}
      → ((rows₁ : Table) (n₁ : ℕ) → o ≡ some (rows₁, n₁) → (rows₁ ≡ M) × (n₁ ≡ N))
      → update_front v d want change r o ≡ some (rows', n')
      → (rows' ≡ updated r ∷ M)
        × (n' ≡ (if has_key v d r && state_eq r.state want then suc N else N))
  unfolding update_front
  update_front_lem r none M N ih h = cc
  update_front_lem r (some (rows₁, n₁)) M N ih h =
      let (p, q) = ih rows₁ n₁ refl in
      let (a, b) = update_row_lem r rows₁ n₁ h in
      (
        a ∙ ap (λ (t : Table). updated r ∷ t) p,
        b ∙ ap (λ (t : ℕ). if has_key v d r && state_eq r.state want then suc t else t) q,
      )

  -- An UPDATE that is not refused changes the rows it is for, and counts them.
  pub update_lem :
      (rows : Table) (rows' : Table) (n : ℕ)
      → update v d want change rows ≡ some (rows', n)
      → (rows' ≡ map_updated rows) × (n ≡ hits rows)
  unfolding update
  update_lem [] rows' n h = ground arith
  update_lem (r ∷ rows) rows' n h =
      update_front_lem r (update v d want change rows) (map_updated rows) (hits rows)
        (update_lem rows) h
