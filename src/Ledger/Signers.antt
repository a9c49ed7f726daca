-- ===== src/Ledger/Signers.antt =====
-- Which signer poc/2fa-vault/internal/policy/ledger.go calls, by the stored state of the row.
use arkade_2fa_vault_poc.Prelude.{◌≡◌, refl, String, Bool, false, Option, none, some}
use arkade_2fa_vault_poc.Ledger.Rows.{reserved, vault_signed, completed, Issuance, Table, select}
use arkade_2fa_vault_poc.Ledger.Transaction.{Error, Result, ambiguous_attempt}
use arkade_2fa_vault_poc.Ledger.Reserve.{Stage, Request, commit_reservation}
use arkade_2fa_vault_poc.Ledger.Sign.{
  Env, failed, public_stage, private_stage, run_stage, request_error, after_guards, issue_stages,
}
use arkade_2fa_vault_poc.Ledger.Amounts.{InRange}
use arkade_2fa_vault_poc.Ledger.Reserved.{
  Outcome, refused, resumed, created, commit_reservation-Outcome,
}

-- The same surroundings with other signers.
abbrev pub with_private : (String → Result String) → Env → Env
with_private f env = record env { vault_sign = f }

abbrev pub with_both : (String → Result String) → (String → Result String) → Env → Env
with_both f g env = record env { vault_sign = f; arkade_sign = g }

module _ (env : Env) (req : Request) (r : Issuance) (rows : Table)
    (stored : select req.vault_id req.digest rows ≡ some r) where
  run_private :
      (f : String → Result String) (resume_reserved : Bool) (out : Result Stage × Table)
      → r.state ≡ vault_signed
      → Outcome req env.period env.reserved_at rows out
      → run_stage (with_private f env) req resume_reserved out
        ≡ run_stage env req resume_reserved out
  unfolding run_stage public_stage
  run_private f resume_reserved _ at (refused e) = refl
  run_private f resume_reserved _ at (resumed row s p q t) =
      let same : row ≡ r = cc in rw (same, at) refl
  run_private f resume_reserved _ at (created absent fits within) = cc

  run_both :
      (f g : String → Result String) (resume_reserved : Bool) (out : Result Stage × Table)
      → r.state ≡ completed
      → Outcome req env.period env.reserved_at rows out
      → run_stage (with_both f g env) req resume_reserved out
        ≡ run_stage env req resume_reserved out
  unfolding run_stage
  run_both f g resume_reserved _ at (refused e) = refl
  run_both f g resume_reserved _ at (resumed row s p q t) =
      let same : row ≡ r = cc in rw (same, at) refl
  run_both f g resume_reserved _ at (created absent fits within) = cc

  run_legacy :
      (out : Result Stage × Table)
      → r.state ≡ reserved
      → Outcome req env.period env.reserved_at rows out
      → (e : Error) × (run_stage env req false out ≡ (failed e, rows))
  unfolding run_stage private_stage
  run_legacy _ at (refused e) = (e, refl)
  run_legacy _ at (resumed row s p q t) =
      let same : row ≡ r = cc in (ambiguous_attempt, rw (same, at) refl)
  run_legacy _ at (created absent fits within) = absurd (cc)

  run_rebound :
      (resume_reserved : Bool) (out : Result Stage × Table)
      → ¬ (
          (r.request_psbt ≡ req.request_psbt)
          × (r.recipient_amount ≡ req.recipient)
          × (r.fee ≡ req.fee))
      → Outcome req env.period env.reserved_at rows out
      → (e : Error) × (run_stage env req resume_reserved out ≡ (failed e, rows))
  unfolding run_stage
  run_rebound resume_reserved _ other (refused e) = (e, refl)
  run_rebound resume_reserved _ other (resumed row s p q t) =
      let same : row ≡ r = cc in absurd (other (rw (← same) p, rw (← same) q, rw (← same) t))
  run_rebound resume_reserved _ other (created absent fits within) = absurd (cc)

  module _ (range : InRange req) where
    ends :
        request_error req ≡ none
        → Outcome req env.period env.reserved_at rows
            (commit_reservation env.reserve_faults env.period env.reserved_at req rows)
    ends ok_req =
        commit_reservation-Outcome env.reserve_faults env.period env.reserved_at req rows range
          ok_req

    -- Once the private signature of a row is stored, a call with its key and int64 amounts returns the same reply and
    -- table whatever the private signer would answer: that signer is not called again.
    pub private_signer_unused :
        (f : String → Result String) (resume_reserved : Bool)
        → r.state ≡ vault_signed
        → issue_stages (with_private f env) req resume_reserved rows
          ≡ issue_stages env req resume_reserved rows
    unfolding issue_stages
    private_signer_unused f resume_reserved at = go (request_error req) refl
      where
        go :
            (o : Option Error)
            → request_error req ≡ o
            → after_guards o (with_private f env) req resume_reserved rows
              ≡ after_guards o env req resume_reserved rows
        go (some e) _ = refl
        go none ok_req = run_private f resume_reserved _ at (ends ok_req)

    -- Once a row is completed, a call with its key and int64 amounts returns the same reply and table whatever the two
    -- signers would answer: neither is called again.
    pub signers_unused :
        (f g : String → Result String) (resume_reserved : Bool)
        → r.state ≡ completed
        → issue_stages (with_both f g env) req resume_reserved rows
          ≡ issue_stages env req resume_reserved rows
    unfolding issue_stages
    signers_unused f g resume_reserved at = go (request_error req) refl
      where
        go :
            (o : Option Error)
            → request_error req ≡ o
            → after_guards o (with_both f g env) req resume_reserved rows
              ≡ after_guards o env req resume_reserved rows
        go (some e) _ = refl
        go none ok_req = run_both f g resume_reserved _ at (ends ok_req)

    -- A call with int64 amounts that does not resume reservations, as those of Issue, fails and changes
    -- nothing where the row of its key is still reserved, whatever the signers would answer.
    pub reserved_not_retried :
        r.state ≡ reserved → (e : Error) × (issue_stages env req false rows ≡ (failed e, rows))
    unfolding issue_stages
    reserved_not_retried at = go (request_error req) refl
      where
        go :
            (o : Option Error)
            → request_error req ≡ o
            → (e : Error) × (after_guards o env req false rows ≡ (failed e, rows))
        go (some e) _ = (e, refl)
        go none ok_req = run_legacy _ at (ends ok_req)

    -- A call with int64 amounts whose request text, amount or fee differs from the row of its key fails and changes
    -- nothing, whatever the signers would answer.
    pub rebinding_refused :
        (resume_reserved : Bool)
        → ¬ (
            (r.request_psbt ≡ req.request_psbt)
            × (r.recipient_amount ≡ req.recipient)
            × (r.fee ≡ req.fee))
        → (e : Error) × (issue_stages env req resume_reserved rows ≡ (failed e, rows))
    unfolding issue_stages
    rebinding_refused resume_reserved other = go (request_error req) refl
      where
        go :
            (o : Option Error)
            → request_error req ≡ o
            → (e : Error) × (after_guards o env req resume_reserved rows ≡ (failed e, rows))
        go (some e) _ = (e, refl)
        go none ok_req = run_rebound resume_reserved _ other (ends ok_req)
