-- ===== src/Provider/History.antt =====
-- Sequences of calls of IssuePasskeyChallenge and authenticatePasskeySession, with the one map they share.
use arkade_2fa_vault_poc.Prelude.Checks.{Checked, accepted, refused}
use arkade_2fa_vault_poc.Prelude.{
  ℕ, ◌+◌, ◌≤◌, ◌<◌, ◌≡◌, refl, Bool, not, Option, none, some, List, [], ◌∷◌, length, ltb,
  if◌then◌else◌, if_cases, arith,
}
use arkade_2fa_vault_poc.Prelude.Bytes.{bytes_eq}
use arkade_2fa_vault_poc.Codec.Base64
use arkade_2fa_vault_poc.Webauthn.{Crypto}
use arkade_2fa_vault_poc.Provider.{Pending, Table, PasskeyError}
use arkade_2fa_vault_poc.Provider.Challenges.{
  Ambient, PasskeyChallengeResponse, find, delete, expire, issue_passkey_challenge,
}
use arkade_2fa_vault_poc.Provider.Sessions.{
  Credential, SessionAssertionRequest, Surroundings, authenticate_passkey_session,
}
use arkade_2fa_vault_poc.Provider.Entries.{
  count_of, find-delete, count_of-delete, count_of-expire, length-delete, length-expire,
}
use arkade_2fa_vault_poc.Provider.Cases.{issue_cases, authenticate_cases}

pub data Call : Type 0 where
  issuing : Ambient → List ℕ → Call
  authenticating : Surroundings → List ℕ → SessionAssertionRequest → Call

-- 1 where the answer gives out the id.
abbrev pub gives : List ℕ → Checked PasskeyError PasskeyChallengeResponse → ℕ
gives id (refused e) = 0
gives id (accepted r) = if bytes_eq r.challenge_id id then 1 else 0

-- 1 where a session with the id is opened.
abbrev pub opens : Bool → Checked PasskeyError Credential → ℕ
opens same (refused e) = 0
opens same (accepted cred) = if same then 1 else 0

module _ (crypto : Crypto) (contains_prf : List ℕ → Bool) where
  unfoldable pub run_call : Call → Table → Table
  run_call (issuing env purpose) table = (issue_passkey_challenge env purpose table).1
  run_call (authenticating env purpose req) table =
      (authenticate_passkey_session crypto contains_prf env purpose req table).1

  unfoldable pub run : List Call → Table → Table
  unfolding run_call
  run [] table = table
  run (c ∷ calls) table = run calls (run_call c table)

  abbrev pub issues_of : List ℕ → Call → Table → ℕ
  issues_of id (issuing env purpose) table = gives id (issue_passkey_challenge env purpose table).0
  issues_of id (authenticating env purpose req) table = 0

  abbrev pub sessions_of : List ℕ → Call → Table → ℕ
  sessions_of id (issuing env purpose) table = 0
  sessions_of id (authenticating env purpose req) table =
      opens (bytes_eq req.challenge_id id)
        (authenticate_passkey_session crypto contains_prf env purpose req table).0

  -- How often the calls give the id out, and how often they open a session with it.
  unfoldable pub issues : List ℕ → List Call → Table → ℕ
  unfolding run_call
  issues id [] table = 0
  issues id (c ∷ calls) table = issues_of id c table + issues id calls (run_call c table)

  unfoldable pub sessions : List ℕ → List Call → Table → ℕ
  unfolding run_call
  sessions id [] table = 0
  sessions id (c ∷ calls) table = sessions_of id c table + sessions id calls (run_call c table)

-- A valid map: at most 64 challenges, no id twice.
unfoldable pub AreDistinct : Table → Type 0
unfolding find
AreDistinct [] = Unit
AreDistinct ((key, p) ∷ table) = (find key table ≡ none) × AreDistinct table

pub record IsChallengeMap (table : Table) : Type 0 where
  pub bounded : length table ≤ 64
  pub distinct : AreDistinct table

none_of_count : (o : Option Pending) → count_of o ≤ 0 → o ≡ none
none_of_count none h = refl
none_of_count (some p) h = absurd (omega (arith, h))

delete-AreDistinct :
    (id : List ℕ) (table : Table) → AreDistinct table → AreDistinct (delete id table)
unfolding delete AreDistinct
delete-AreDistinct id [] h = tt
delete-AreDistinct id ((key, p) ∷ table) (fresh, h) =
    let rest = delete-AreDistinct id table h in
    let fewer = count_of-delete key id table in
    if_cases AreDistinct (bytes_eq key id) (λ _. rest)
      (λ _. (none_of_count _ (rw fresh at fewer), rest))

expire-AreDistinct : (now : ℕ) (table : Table) → AreDistinct table → AreDistinct (expire now table)
unfolding expire AreDistinct
expire-AreDistinct now [] h = tt
expire-AreDistinct now ((key, p) ∷ table) (fresh, h) =
    let rest = expire-AreDistinct now table h in
    let fewer = count_of-expire now key table in
    if_cases AreDistinct (not (ltb now p.expires_at)) {x = expire now table}
      {y = (key, p) ∷ expire now table} (λ _. rest)
      (λ _. (none_of_count _ (rw fresh at fewer), rest))

delete-IsChallengeMap :
    (id : List ℕ) (table : Table) → IsChallengeMap table → IsChallengeMap (delete id table)
delete-IsChallengeMap id table h = record {
  bounded = omega (arith, h.bounded, length-delete id table);
  distinct = delete-AreDistinct id table h.distinct;
}

expire-IsChallengeMap :
    (now : ℕ) (table : Table) → IsChallengeMap table → IsChallengeMap (expire now table)
expire-IsChallengeMap now table h = record {
  bounded = omega (arith, h.bounded, length-expire now table);
  distinct = expire-AreDistinct now table h.distinct;
}

insert-IsChallengeMap :
    (id : List ℕ) (p : Pending) (table : Table)
    → IsChallengeMap table
    → length table < 64
    → IsChallengeMap ((id, p) ∷ delete id table)
insert-IsChallengeMap id p table h room = record {
  bounded = omega (arith, room, length-delete id table);
  distinct = unfold AreDistinct in (find-delete id table, delete-AreDistinct id table h.distinct);
}

module _ (crypto : Crypto) (contains_prf : List ℕ → Bool) where
  run_call-IsChallengeMap :
      (c : Call) (table : Table)
      → IsChallengeMap table
      → IsChallengeMap (run_call crypto contains_prf c table)
  unfolding run_call
  run_call-IsChallengeMap (issuing env purpose) table h =
      let expired = expire-IsChallengeMap env.now table h in
      issue_cases
        (λ (out : Checked PasskeyError PasskeyChallengeResponse × Table). IsChallengeMap out.1) env
        purpose table (λ e. h) expired
        (λ credential raw challenge _ room.
          insert-IsChallengeMap (Base64.encode raw) _ (expire env.now table) expired room)
  run_call-IsChallengeMap (authenticating env purpose req) table h =
      let deleted = delete-IsChallengeMap req.challenge_id table h in
      authenticate_cases crypto contains_prf
        (λ (out : Checked PasskeyError Credential × Table). IsChallengeMap out.1) env purpose req
        table (λ e. h) deleted (λ p usable. deleted)

  run_from-IsChallengeMap :
      (calls : List Call) (table : Table)
      → IsChallengeMap table
      → IsChallengeMap (run crypto contains_prf calls table)
  unfolding run
  run_from-IsChallengeMap [] table h = h
  run_from-IsChallengeMap (c ∷ calls) table h =
      run_from-IsChallengeMap calls (run_call crypto contains_prf c table)
        (run_call-IsChallengeMap c table h)

-- After any calls of IssuePasskeyChallenge and authenticatePasskeySession, whatever their random bytes,
-- clocks, stored credentials and requests were, the map has at most 64 challenges, and no id twice.
pub run-IsChallengeMap :
    (crypto : Crypto) (contains_prf : List ℕ → Bool) (calls : List Call)
    → IsChallengeMap (run crypto contains_prf calls [])
run-IsChallengeMap crypto contains_prf calls =
    run_from-IsChallengeMap crypto contains_prf calls []
      (record { bounded = omega arith; distinct = unfold AreDistinct in tt })
