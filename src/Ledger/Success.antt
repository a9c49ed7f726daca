-- ===== src/Ledger/Success.antt =====
-- Calls of poc/2fa-vault/internal/policy/ledger.go that nothing stops.
use arkade_2fa_vault_poc.Prelude.{
  ℕ, ◌-◌, ◌^◌, ◌≡◌, refl, inl, inr, String, Bool, true, false, none, some, List, [], ◌∷◌, arith,
  Bool-cases,
}
use arkade_2fa_vault_poc.Prelude.Int.{
  ℤ, pos, ◌+ℤ◌, ◌-ℤ◌, ◌≤ℤ◌, int_laws, ltb_ℤ, int64, int64-eq_of_IsInt64, +ℤ_parts, -ℤ_parts,
}
use arkade_2fa_vault_poc.Ledger.Rows.{
  IssuanceState, reserved, vault_signed, completed, Issuance, Table, has_key, select, state_eq,
  is_empty, row_check, sum_outflow, spent_in_period, insert, update_row, update_front, update,
  set_stage,
}
use arkade_2fa_vault_poc.Ledger.Transaction.{Result, ok, Faults}
use arkade_2fa_vault_poc.Ledger.Reserve.{
  Request, new_row, new_stage, add_outflow, check_allowance, commit_reservation,
}
use arkade_2fa_vault_poc.Ledger.Sign.{
  Env, Reply, context_error_of, public_stage, private_stage, run_stage, request_error, issue_stages,
  commit_vault_signed, commit_completion, commit_signing_stage,
}
use arkade_2fa_vault_poc.Ledger.Valid.{IsValid, has_key_self}
use arkade_2fa_vault_poc.Ledger.Amounts.{InRange, request_error-none, add_outflow_exact}
use arkade_2fa_vault_poc.Ledger.History.{sum_outflow-nonneg}
use arkade_2fa_vault_poc.Ledger.Step.{sign_row, complete_row}

abbrev pub no_faults : Faults
no_faults _ = false

update_absent :
    (v : String) (d : List ℕ) (want : IssuanceState) (change : Issuance → Issuance) (rows : Table)
    → select v d rows ≡ none
    → update v d want change rows ≡ some (rows, 0)
unfolding select update
update_absent v d want change [] h = refl
update_absent v d want change (r ∷ rows) h = elim (Bool-cases (has_key v d r)) [
  | inl hit ↦ cc (rw hit at h)
  | inr miss ↦
      rw (update_absent v d want change rows (rw miss at h), miss, update_front, update_row) refl
]

-- The front row is the one with the key.
update_self :
    (want : IssuanceState) (change : Issuance → Issuance) (r : Issuance) (rows : Table)
    → select r.vault_id r.arkade_sighash rows ≡ none
    → state_eq r.state want ≡ true
    → row_check (change r) ≡ true
    → update r.vault_id r.arkade_sighash want change (r ∷ rows) ≡ some (change r ∷ rows, 1)
unfolding update
update_self want change r rows absent at checked =
    rw
      (
        update_absent r.vault_id r.arkade_sighash want change rows absent,
        has_key_self r,
        at,
        checked,
        update_front,
        update_row,
      )
      refl

abbrev need_of : Request → ℤ
need_of req = req.recipient +ℤ req.fee

-- The request fits into what the period has left.
abbrev pub Fits : Request → String → Table → Type 0
Fits req period rows = sum_outflow req.vault_id period rows +ℤ need_of req ≤ℤ req.remaining_cap

module _ (period now : String) (req : Request) (rows : Table) (range : InRange req)
    (ok_req : request_error req ≡ none) (h : IsValid rows)
    (absent : select req.vault_id req.digest rows ≡ none) (fits : Fits req period rows) where
  abbrev used : ℤ
  used = sum_outflow req.vault_id period rows

  used_nonneg : pos 0 ≤ℤ used
  used_nonneg = sum_outflow-nonneg req.vault_id period rows h

  need_fits : need_of req ≤ℤ pos (2 ^ 63 - 1)
  need_fits = omega (int_laws, used_nonneg, fits, range.cap_fits)

  spent_known : spent_in_period req.vault_id period rows ≡ some used
  unfolding spent_in_period
  spent_known =
      let (_, _, _, amount_pos, fee_nonneg, _) = request_error-none req ok_req in
      ground (
        arith,
        used_nonneg,
        fits,
        range.cap_fits,
        +ℤ_parts used (need_of req),
        +ℤ_parts req.recipient req.fee,
      )

  need_known : add_outflow req.recipient req.fee ≡ ok (need_of req)
  need_known =
      let (_, _, _, amount_pos, fee_nonneg, _) = request_error-none req ok_req in
      (add_outflow_exact req.recipient req.fee range.recipient_fits range.fee_fits amount_pos
          fee_nonneg).0
        need_fits

  allowed : check_allowance used (need_of req) req.remaining_cap ≡ false
  unfolding check_allowance
  allowed =
      let (_, _, _, amount_pos, fee_nonneg, cap_nonneg) = request_error-none req ok_req in
      let exact : int64 (req.remaining_cap -ℤ used) ≡ req.remaining_cap -ℤ used =
        int64-eq_of_IsInt64 _ (omega (int_laws, used_nonneg, range.cap_fits, cap_nonneg)) in
      ground (
        arith,
        exact,
        used_nonneg,
        fits,
        +ℤ_parts used (need_of req),
        -ℤ_parts req.remaining_cap used,
        +ℤ_parts req.recipient req.fee,
      )

  inserted : insert (new_row req period now) rows ≡ some (new_row req period now ∷ rows)
  unfolding insert row_check
  inserted =
      let (_, _, full, _, _, _) = request_error-none req ok_req in rw (absent, full, insert) refl

  commit_reservation_new :
      commit_reservation no_faults period now req rows
      ≡ (ok (new_stage req), new_row req period now ∷ rows)
  unfolding commit_reservation
  commit_reservation_new =
      let nonneg : ltb_ℤ used (pos 0) ≡ false = ground (arith, used_nonneg) in
      rw (absent, spent_known, nonneg, need_known, allowed, inserted) refl

-- The surroundings in which no call of the database fails and the two signers answer.
abbrev pub healthy : (String → Result String) → (String → Result String) → Env → Env
healthy f g env = record env {
  reserve_faults = no_faults;
  vault_faults = no_faults;
  completion_faults = no_faults;
  vault_sign = f;
  arkade_sign = g;
}

abbrev pub signed_reply : Env → String → Reply
signed_reply env signed = record {
  signed = signed;
  replay = false;
  error = context_error_of env.context_done;
}

-- The row that a call leaves which began with a new key.
abbrev pub completed_row : Env → Request → String → String → Issuance
completed_row env req private_text public_text = record {
  vault_id = req.vault_id;
  arkade_sighash = req.digest;
  period_start = env.period;
  recipient_amount = req.recipient;
  fee = req.fee;
  state = completed;
  request_psbt = req.request_psbt;
  vault_psbt = some private_text;
  signed_psbt = some public_text;
  created_at = env.reserved_at;
  updated_at = env.completed_at;
}

module _ (f g : String → Result String) (env : Env) (req : Request) (rows : Table)
    (private_text public_text : String) (private_full : is_empty private_text ≡ false)
    (public_full : is_empty public_text ≡ false) (request_full : is_empty req.request_psbt ≡ false)
    (absent : select req.vault_id req.digest rows ≡ none) where
  abbrev fresh : Issuance
  fresh = new_row req env.period env.reserved_at

  abbrev half : Issuance
  half = sign_row private_text env.vault_signed_at fresh

  update-half :
      update req.vault_id req.digest reserved
        (sign_row private_text env.vault_signed_at)
        (fresh ∷ rows)
      ≡ some (half ∷ rows, 1)
  update-half =
      update_self reserved (sign_row private_text env.vault_signed_at) fresh rows absent refl
        (unfold row_check set_stage in rw request_full refl)

  full_update :
      update req.vault_id req.digest vault_signed
        (complete_row public_text env.completed_at)
        (half ∷ rows)
      ≡ some (completed_row env req private_text public_text ∷ rows, 1)
  unfolding set_stage
  full_update =
      update_self vault_signed (complete_row public_text env.completed_at) half rows absent refl
        (unfold row_check in rw request_full refl)

  vault_signed_new :
      commit_vault_signed no_faults env.vault_signed_at req.vault_id req.digest private_text
        (fresh ∷ rows)
      ≡ (ok tt, half ∷ rows)
  unfolding commit_vault_signed commit_signing_stage
  vault_signed_new = rw update-half refl

  completion_new :
      commit_completion no_faults env.completed_at req.vault_id req.digest public_text (half ∷ rows)
      ≡ (ok tt, completed_row env req private_text public_text ∷ rows)
  unfolding commit_completion commit_signing_stage
  completion_new = rw full_update refl

  stages_new :
      (resume_reserved : Bool)
      → f req.request_psbt ≡ ok private_text
      → g private_text ≡ ok public_text
      → run_stage (healthy f g env) req resume_reserved (ok (new_stage req), fresh ∷ rows)
        ≡ (signed_reply env public_text, completed_row env req private_text public_text ∷ rows)
  unfolding run_stage private_stage public_stage
  stages_new resume_reserved ef eg =
      rw (ef, private_full, vault_signed_new, private_full, eg, public_full, completion_new) refl

-- On a valid table, a request with int64 amounts and a new key that the guards let through and the
-- period can pay for, in surroundings
-- where no call of the database fails and both signers answer with some text: the reply is the public
-- signer's text for the private signer's text for the request, not a replay, and the table has gained
-- the one completed row with both texts.
pub issue_stages-success :
    (f g : String → Result String) (env : Env) (req : Request) (rows : Table)
    (private_text public_text : String) (resume_reserved : Bool)
    → InRange req
    → request_error req ≡ none
    → IsValid rows
    → select req.vault_id req.digest rows ≡ none
    → Fits req env.period rows
    → f req.request_psbt ≡ ok private_text
    → g private_text ≡ ok public_text
    → is_empty private_text ≡ false
    → is_empty public_text ≡ false
    → issue_stages (healthy f g env) req resume_reserved rows
      ≡ (signed_reply env public_text, completed_row env req private_text public_text ∷ rows)
unfolding issue_stages
issue_stages-success f g env req rows a b resume_reserved range ok_req h absent fits ef eg full_a
      full_b =
    let (_, _, full, _, _, _) = request_error-none req ok_req in
    rw
      (
        ok_req,
        commit_reservation_new env.period env.reserved_at req rows range ok_req h absent fits,
      )
      (stages_new f g env req rows a b full_a full_b full absent resume_reserved ef eg)
