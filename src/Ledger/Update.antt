-- ===== src/Ledger/Update.antt =====
-- What an UPDATE of a signing stage does to a valid issuance table.
use arkade_2fa_vault_poc.Prelude.{
  ℕ, ◌≡◌, refl, ◌∙◌, inl, inr, String, true, ◌&&◌, Option, none, some, List, [], ◌∷◌, arith,
  Bool-cases,
}
use arkade_2fa_vault_poc.Ledger.Rows.{
  IssuanceState, Issuance, Table, state_eq, has_key, select, in_period, sum_outflow,
}
use arkade_2fa_vault_poc.Ledger.Valid.{
  IsValidRow, IsValid, IsFrame, has_key_iff, select-IsValidRow, IsValidRow-is_counted, updated,
  map_updated, hits,
}

abbrev pub map_option : (Issuance → Issuance) → Option Issuance → Option Issuance
map_option f none = none
map_option f (some r) = some (f r)

module _ (v : String) (d : List ℕ) (want : IssuanceState) (change : Issuance → Issuance)
    (frame : IsFrame want change) where
  updated-IsValidRow : (r : Issuance) → IsValidRow r → IsValidRow (updated v d want change r)
  updated-IsValidRow r h = elim (Bool-cases (has_key v d r && state_eq r.state want)) [
    | inl hit ↦ rw hit (frame.keeps r h (ground (arith, hit)))
    | inr miss ↦ rw miss h
  ]

  vault-updated : (r : Issuance) → (updated v d want change r).vault_id ≡ r.vault_id
  vault-updated r = elim (Bool-cases (has_key v d r && state_eq r.state want)) [
    | inl hit ↦ rw hit (frame.same_vault r)
    | inr miss ↦ rw miss
  ]

  sighash-updated : (r : Issuance) → (updated v d want change r).arkade_sighash ≡ r.arkade_sighash
  sighash-updated r = elim (Bool-cases (has_key v d r && state_eq r.state want)) [
    | inl hit ↦ rw hit (frame.same_sighash r)
    | inr miss ↦ rw miss
  ]

  period-updated : (r : Issuance) → (updated v d want change r).period_start ≡ r.period_start
  period-updated r = elim (Bool-cases (has_key v d r && state_eq r.state want)) [
    | inl hit ↦ rw hit (frame.same_period r)
    | inr miss ↦ rw miss
  ]

  recipient-updated :
      (r : Issuance) → (updated v d want change r).recipient_amount ≡ r.recipient_amount
  recipient-updated r = elim (Bool-cases (has_key v d r && state_eq r.state want)) [
    | inl hit ↦ rw hit (frame.same_recipient r)
    | inr miss ↦ rw miss
  ]

  fee-updated : (r : Issuance) → (updated v d want change r).fee ≡ r.fee
  fee-updated r = elim (Bool-cases (has_key v d r && state_eq r.state want)) [
    | inl hit ↦ rw hit (frame.same_fee r)
    | inr miss ↦ rw miss
  ]

  has_key-updated :
      (v' : String) (d' : List ℕ) (r : Issuance)
      → has_key v' d' (updated v d want change r) ≡ has_key v' d' r
  has_key-updated v' d' r = rw (vault-updated r, sighash-updated r) refl

  -- The update changes no key, so it commutes with a lookup.
  pub select-map_updated :
      (v' : String) (d' : List ℕ) (rows : Table)
      → select v' d' (map_updated v d want change rows)
        ≡ map_option (updated v d want change) (select v' d' rows)
  unfolding select
  select-map_updated v' d' [] = refl
  select-map_updated v' d' (r ∷ rows) = elim (Bool-cases (has_key v' d' r)) [
    | inl hit ↦ rw (has_key-updated v' d' r, hit) refl
    | inr miss ↦ rw (has_key-updated v' d' r, miss) (select-map_updated v' d' rows)
  ]

  in_period-updated :
      (v' p' : String) (r : Issuance)
      → IsValidRow r
      → in_period v' p' (updated v d want change r) ≡ in_period v' p' r
  in_period-updated v' p' r h =
      rw
        (
          vault-updated r,
          period-updated r,
          IsValidRow-is_counted r h,
          IsValidRow-is_counted (updated v d want change r) (updated-IsValidRow r h),
        )
        refl

  -- What a period has spent does not change.
  pub sum_outflow-map_updated :
      (v' p' : String) (rows : Table)
      → IsValid rows
      → sum_outflow v' p' (map_updated v d want change rows) ≡ sum_outflow v' p' rows
  unfolding sum_outflow
  sum_outflow-map_updated v' p' [] h = refl
  sum_outflow-map_updated v' p' (r ∷ rows) h =
      rw
        (
          in_period-updated v' p' r h.0,
          recipient-updated r,
          fee-updated r,
          sum_outflow-map_updated v' p' rows h.2,
        )
        refl

  pub map_updated-IsValid :
      (rows : Table) → IsValid rows → IsValid (map_updated v d want change rows)
  map_updated-IsValid [] h = tt
  map_updated-IsValid (r ∷ rows) h = (
    updated-IsValidRow r h.0,
    rw
        (
          vault-updated r,
          sighash-updated r,
          select-map_updated r.vault_id r.arkade_sighash rows,
          h.1,
        )
        refl,
    map_updated-IsValid rows h.2,
  )

module _ (v : String) (d : List ℕ) (want : IssuanceState) (change : Issuance → Issuance) where
  hits_absent : (rows : Table) → select v d rows ≡ none → hits v d want change rows ≡ 0
  unfolding select
  hits_absent [] h = refl
  hits_absent (r ∷ rows) h = elim (Bool-cases (has_key v d r)) [
    | inl hit ↦ cc (rw hit at h)
    | inr miss ↦ rw miss (hits_absent rows (rw miss at h))
  ]

  -- Exactly one row was updated: it is the one with the key, and it was in the wanted state.
  pub hits_one :
      (rows : Table)
      → IsValid rows
      → hits v d want change rows ≡ 1
      → (r : Issuance) × (select v d rows ≡ some r) × (state_eq r.state want ≡ true)
  unfolding select
  hits_one [] h e = absurd (omega (arith, e))
  hits_one (r ∷ rows) h e = elim (Bool-cases (has_key v d r)) [
    | inl hit ↦ elim (Bool-cases (state_eq r.state want)) [
      | inl now ↦ (r, rw hit refl, now)
      | inr other ↦
          let (same_v, same_d) = has_key_iff v d r hit in
          absurd
            (omega (arith, hits_absent rows (rw (same_v, same_d) at (h.1)), rw (hit, other) at e))
    ]
    | inr miss ↦ rw miss (hits_one rows h.2 (rw miss at e))
  ]

-- After exactly one update the key leads to the changed row.
pub select_written :
    (v : String) (d : List ℕ) (want : IssuanceState) (change : Issuance → Issuance)
    (frame : IsFrame want change) (rows : Table) (r : Issuance)
    → IsValid rows
    → select v d rows ≡ some r
    → hits v d want change rows ≡ 1
    → (state_eq r.state want ≡ true)
      × (select v d (map_updated v d want change rows) ≡ some (change r))
select_written v d want change frame rows r h e one =
    let (r₀, e₀, at) = hits_one v d want change rows h one in
    let same : r₀ ≡ r = cc in
    let now : state_eq r.state want ≡ true = rw same at at in
    let key = (select-IsValidRow v d rows h e).1 in
    (now, select-map_updated v d want change frame v d rows ∙ rw (e, map_option, key, now) refl)
