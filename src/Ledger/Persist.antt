-- ===== src/Ledger/Persist.antt =====
-- Rows of the issuance table of poc/2fa-vault/internal/policy/ledger.go are never released, and
-- what a signing stage has stored is never replaced.
use arkade_2fa_vault_poc.Prelude.{
  ℕ, ◌≤◌, ◌≡◌, refl, ◌∙◌, inl, inr, String, true, ◌&&◌, some, List, arith, Bool-cases,
}
use arkade_2fa_vault_poc.Prelude.Int.{ℤ}
use arkade_2fa_vault_poc.Ledger.Rows.{
  IssuanceState, reserved, vault_signed, completed, unknown, Issuance, Table, has_key, select,
  row_check, set_stage, state_eq,
}
use arkade_2fa_vault_poc.Ledger.Valid.{
  IsValidRow, IsValid, IsFrame, has_key_iff, select-IsValidRow, updated, map_updated,
}
use arkade_2fa_vault_poc.Ledger.Update.{select-map_updated}
use arkade_2fa_vault_poc.Ledger.Step.{
  Step, reserve, sign, complete, Steps, here, next, sign_row, complete_row, sign_row-IsFrame,
  complete_row-IsFrame, Step-IsValid,
}

-- How far an issuance has come.
abbrev pub rank : IssuanceState → ℕ
rank reserved = 0
rank vault_signed = 1
rank completed = 2
rank (unknown s) = 3

-- `r'` is a later version of `r`: bound to the same request and amounts, charged to the same period,
-- in the same or a later state, with every stored signature kept.
pub record Continues (r r' : Issuance) : Type 0 where
  pub same_request : r'.request_psbt ≡ r.request_psbt
  pub same_recipient : r'.recipient_amount ≡ r.recipient_amount
  pub same_fee : r'.fee ≡ r.fee
  pub same_period : r'.period_start ≡ r.period_start
  pub not_earlier : rank r.state ≤ rank r'.state
  pub vault_kept : (s : String) → r.vault_psbt ≡ some s → r'.vault_psbt ≡ some s
  pub signed_kept : (s : String) → r.signed_psbt ≡ some s → r'.signed_psbt ≡ some s

Continues-refl : (r : Issuance) → Continues r r
Continues-refl r = record {
  same_request = refl;
  same_recipient = refl;
  same_fee = refl;
  same_period = refl;
  not_earlier = omega arith;
  vault_kept = λ s h. h;
  signed_kept = λ s h. h;
}

pub Continues-trans : {r s t : Issuance} → Continues r s → Continues s t → Continues r t
Continues-trans p q = record {
  same_request = q.same_request ∙ p.same_request;
  same_recipient = q.same_recipient ∙ p.same_recipient;
  same_fee = q.same_fee ∙ p.same_fee;
  same_period = q.same_period ∙ p.same_period;
  not_earlier = omega (arith, p.not_earlier, q.not_earlier);
  vault_kept = λ s h. q.vault_kept s (p.vault_kept s h);
  signed_kept = λ s h. q.signed_kept s (p.signed_kept s h);
}

sign_row-Continues :
    (value now : String) (r : Issuance)
    → IsValidRow r
    → state_eq r.state reserved ≡ true
    → Continues r (sign_row value now r)
unfolding set_stage row_check
sign_row-Continues value now r h at = record {
  same_request = refl;
  same_recipient = refl;
  same_fee = refl;
  same_period = refl;
  not_earlier = ground arith;
  vault_kept = λ s e. ground (arith, h.checked);
  signed_kept = λ s e. e;
}

complete_row-Continues :
    (value now : String) (r : Issuance)
    → IsValidRow r
    → state_eq r.state vault_signed ≡ true
    → Continues r (complete_row value now r)
unfolding set_stage row_check
complete_row-Continues value now r h at = record {
  same_request = refl;
  same_recipient = refl;
  same_fee = refl;
  same_period = refl;
  not_earlier = ground arith;
  vault_kept = λ s e. e;
  signed_kept = λ s e. ground (arith, h.checked);
}

-- The row with the key is there afterwards too.
abbrev pub KeepsRow : String → List ℕ → Issuance → Table → Type 0
KeepsRow v d r rows = (r' : Issuance) × (select v d rows ≡ some r') × Continues r r'

update-KeepsRow :
    (v' : String) (d' : List ℕ) (want : IssuanceState) (change : Issuance → Issuance)
    (frame : IsFrame want change) (v : String) (d : List ℕ) (r : Issuance) (rows : Table)
    → (IsValidRow r → state_eq r.state want ≡ true → Continues r (change r))
    → IsValid rows
    → select v d rows ≡ some r
    → KeepsRow v d r (map_updated v' d' want change rows)
update-KeepsRow v' d' want change frame v d r rows keep h e = (
  updated v' d' want change r,
  select-map_updated v' d' want change frame v d rows ∙ rw e,
  elim (Bool-cases (has_key v' d' r && state_eq r.state want)) [
    | inl hit ↦ rw hit (keep (select-IsValidRow v d rows h e).0 (ground (arith, hit)))
    | inr miss ↦ rw miss (Continues-refl r)
  ],
)

Step-KeepsRow :
    {cap : ℤ} {rows rows' : Table} (v : String) (d : List ℕ) (r : Issuance)
    → Step cap rows rows'
    → IsValid rows
    → select v d rows ≡ some r
    → KeepsRow v d r rows'
unfolding select
Step-KeepsRow v d r (reserve new rows valid at absent within) h e =
    elim (Bool-cases (has_key v d new)) [
      | inl hit ↦
          cc (rw (has_key_iff v d new hit).0 at (rw (has_key_iff v d new hit).1 at absent), e)
      | inr miss ↦ (r, rw miss e, Continues-refl r)
    ]
Step-KeepsRow v d r (sign v' d' value now rows nonempty) h e =
    update-KeepsRow v' d' reserved (sign_row value now) (sign_row-IsFrame value now nonempty) v d r
      rows (sign_row-Continues value now r) h e
Step-KeepsRow v d r (complete v' d' value now rows nonempty) h e =
    update-KeepsRow v' d' vault_signed (complete_row value now)
      (complete_row-IsFrame value now nonempty) v d r rows (complete_row-Continues value now r) h e

pub Steps-KeepsRow :
    {cap : ℤ} {rows rows' : Table} (v : String) (d : List ℕ) (r : Issuance)
    → Steps cap rows rows'
    → IsValid rows
    → select v d rows ≡ some r
    → KeepsRow v d r rows'
Steps-KeepsRow v d r (here rows) h e = (r, e, Continues-refl r)
Steps-KeepsRow v d r (next s more) h e =
    let (r₁, e₁, c₁) = Step-KeepsRow v d r s h e in
    let (r₂, e₂, c₂) = Steps-KeepsRow v d r₁ more (Step-IsValid s h) e₁ in
    (r₂, e₂, Continues-trans c₁ c₂)
