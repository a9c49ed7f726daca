-- ===== src/Provider/Once.antt =====
-- A challenge of poc/2fa-vault/internal/provider/session.go opens at most one session.
use arkade_2fa_vault_poc.Prelude.Checks.{Checked, accepted, refused}
use arkade_2fa_vault_poc.Prelude.{
  ℕ, ◌+◌, ◌≤◌, ◌≡◌, refl, Bool, true, false, none, some, List, [], ◌∷◌, if◌then◌else◌, Bool-cases,
  inl, inr, arith,
}
use arkade_2fa_vault_poc.Prelude.Bytes.{bytes_eq, bytes_eq_iff}
use arkade_2fa_vault_poc.Codec.Base64
use arkade_2fa_vault_poc.Webauthn.{Crypto}
use arkade_2fa_vault_poc.Provider.{Pending, Table, PasskeyError}
use arkade_2fa_vault_poc.Provider.Challenges.{
  PasskeyChallengeResponse, find, delete, expire, new_pending,
}
use arkade_2fa_vault_poc.Provider.Sessions.{Credential, verify_session}
use arkade_2fa_vault_poc.Provider.Entries.{count_of, find-delete, count_of-delete, count_of-expire}
use arkade_2fa_vault_poc.Provider.Cases.{IsUsable, issue_cases, authenticate_cases}
use arkade_2fa_vault_poc.Provider.History.{
  Call, issuing, authenticating, gives, opens, run_call, issues_of, sessions_of, issues, sessions,
}

opens_le : (answer : Checked PasskeyError Credential) → opens true answer ≤ 1
opens_le (refused e) = omega arith
opens_le (accepted cred) = omega arith

opens_other : (answer : Checked PasskeyError Credential) → opens false answer ≡ 0
opens_other (refused e) = refl
opens_other (accepted cred) = refl

-- Adding a challenge under a key.
stored_le :
    (id key : List ℕ) (p : Pending) (kept : Table)
    → count_of (find id ((key, p) ∷ delete key kept))
      ≤ (if bytes_eq key id then 1 else 0) + count_of (find id kept)
unfolding find
stored_le id key p kept = elim (Bool-cases (bytes_eq key id)) [
  | inl same ↦ rw same (omega arith)
  | inr other ↦ let fewer = count_of-delete id key kept in rw other (omega (arith, fewer))
]

taken_le :
    (now : ℕ) (id key purpose : List ℕ) (p : Pending) (table : Table)
    (answer : Checked PasskeyError Credential)
    → IsUsable now key purpose table p
    → opens (bytes_eq key id) answer + count_of (find id (delete key table))
      ≤ count_of (find id table)
taken_le now id key purpose p table answer usable = elim (Bool-cases (bytes_eq key id)) [
  | inl same ↦
      let equal = (bytes_eq_iff key id).0 same in
      let pending : find id table ≡ some p = rw (← equal) usable.pending in
      let once = opens_le answer in
      rw (same, equal, find-delete id table, pending) (omega (arith, once))
  | inr other ↦
      let fewer = count_of-delete id key table in
      let never = opens_other answer in rw (other, never) (omega (arith, fewer))
]

module _ (crypto : Crypto) (contains_prf : List ℕ → Bool) where
  call_le :
      (id : List ℕ) (c : Call) (table : Table)
      → sessions_of crypto contains_prf id c table
          + count_of (find id (run_call crypto contains_prf c table))
        ≤ issues_of crypto contains_prf id c table + count_of (find id table)
  unfolding run_call
  call_le id (issuing env purpose) table =
      issue_cases
        (λ (out : Checked PasskeyError PasskeyChallengeResponse × Table).
          0 + count_of (find id out.1) ≤ gives id out.0 + count_of (find id table))
        env purpose table (λ e. omega arith)
        (let fewer = count_of-expire env.now id table in omega (arith, fewer))
        (λ credential raw challenge _ _.
          let fewer = count_of-expire env.now id table in
          let stored =
            stored_le id (Base64.encode raw) (new_pending env.now purpose challenge)
              (expire env.now table) in
          omega (arith, fewer, stored))
  call_le id (authenticating env purpose req) table =
      authenticate_cases crypto contains_prf
        (λ (out : Checked PasskeyError Credential × Table).
          opens (bytes_eq req.challenge_id id) out.0 + count_of (find id out.1)
          ≤ 0 + count_of (find id table))
        env purpose req table (λ e. omega arith)
        (let fewer = count_of-delete id req.challenge_id table in omega (arith, fewer))
        (λ p usable.
          let taken =
            taken_le env.now id req.challenge_id purpose p table
              (verify_session crypto contains_prf env purpose req p.challenge) usable in
          omega (arith, taken))

  calls_le :
      (id : List ℕ) (calls : List Call) (table : Table)
      → sessions crypto contains_prf id calls table
        ≤ issues crypto contains_prf id calls table + count_of (find id table)
  unfolding sessions issues
  calls_le id [] table = omega arith
  calls_le id (c ∷ calls) table =
      let first = call_le id c table in
      let rest = calls_le id calls (run_call crypto contains_prf c table) in
      omega (arith, first, rest)

-- From the empty map, over any calls, no id opens more sessions than IssuePasskeyChallenge has given it out:
-- a challenge that was given out once opens at most one session, whatever requests are replayed.
pub sessions-le-issues :
    (crypto : Crypto) (contains_prf : List ℕ → Bool) (id : List ℕ) (calls : List Call)
    → sessions crypto contains_prf id calls [] ≤ issues crypto contains_prf id calls []
sessions-le-issues crypto contains_prf id calls =
    let counted = calls_le crypto contains_prf id calls [] in
    let empty : find id [] ≡ none = unfold find in refl in
    let bounded : sessions crypto contains_prf id calls []
        ≤ issues crypto contains_prf id calls [] + 0 =
      rw empty at counted in
    omega (arith, bounded)
