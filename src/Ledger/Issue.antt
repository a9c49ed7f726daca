-- ===== src/Ledger/Issue.antt =====
-- The two entry points of poc/2fa-vault/internal/policy/ledger.go, and histories of calls of them.
use Prim.Native.String.{◌++◌}
use arkade_2fa_vault_poc.Prelude.{
  ℕ, String, Bool, true, false, Option, none, some, List, [], ◌∷◌, ◌||◌, if◌then◌else◌,
}
use arkade_2fa_vault_poc.Ledger.Rows.{Table}
use arkade_2fa_vault_poc.Ledger.Transaction.{Result, ok, signer_required}
use arkade_2fa_vault_poc.Ledger.Reserve.{Request}
use arkade_2fa_vault_poc.Ledger.Sign.{Env, Reply, failed, issue_stages}

abbrev pub is_nil : Option (String → Result String) → Bool
is_nil none = true
is_nil (some f) = false

abbrev pub signer_of : Option (String → Result String) → String → Result String
signer_of none s = ok ""
signer_of (some f) s = f s

-- IssueSequential: nil cosigners are refused.
unfoldable pub issue_sequential :
    Option (String → Result String)
    → Option (String → Result String)
    → Env
    → Request
    → Table
    → Reply × Table
issue_sequential vault arkade env req rows =
    if is_nil vault || is_nil arkade
    then (failed signer_required, rows)
    else issue_stages (record env { vault_sign = signer_of vault; arkade_sign = signer_of arkade })
        req true rows

-- `hex_encode` is encoding/hex.EncodeToString.
abbrev pub legacy_request : (List ℕ → String) → Request → Request
legacy_request hex_encode req = record req {
  request_psbt = "legacy-external-signer:" ++ hex_encode req.digest;
}

-- Issue: one external signer that ignores the stored text; the second stage hands its result on.
unfoldable pub issue :
    (List ℕ → String) → Option (Result String) → Env → Request → Table → Reply × Table
issue hex_encode none env req rows = (failed signer_required, rows)
issue hex_encode (some answer) env req rows =
    issue_stages (record env { vault_sign = λ _. answer; arkade_sign = λ s. ok s })
      (legacy_request hex_encode req) false rows

-- A call with all that surrounds it.
pub data Call : Type 0 where
  sequential :
      Option (String → Result String) → Option (String → Result String) → Env → Request → Call
  legacy : Option (Result String) → Env → Request → Call

module _ (hex_encode : List ℕ → String) where
  unfoldable pub run_call : Call → Table → Reply × Table
  run_call (sequential vault arkade env req) rows = issue_sequential vault arkade env req rows
  run_call (legacy answer env req) rows = issue hex_encode answer env req rows

  -- The mutex makes the calls one sequence. A call that the process does not survive leaves the table
  -- of one of its transactions, which is the table of a call whose next stage fails.
  unfoldable pub run : List Call → Table → Table
  run [] rows = rows
  run (c ∷ calls) rows = run calls (run_call c rows).1
