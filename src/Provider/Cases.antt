-- ===== src/Provider/Cases.antt =====
-- The outcomes of IssuePasskeyChallenge, consumePasskeyChallenge and authenticatePasskeySession.
use arkade_2fa_vault_poc.Prelude.Checks.{Checked, accepted, refused}
use arkade_2fa_vault_poc.Prelude.{
  ℕ, ◌<◌, ◌≡◌, refl, Bool, true, not, Option, none, some, List, ◌∷◌, length, ltb, leb, if_cases,
  Bool-cases, inl, inr, arith,
}
use arkade_2fa_vault_poc.Prelude.Bytes.{bytes_eq, bytes_eq_iff}
use arkade_2fa_vault_poc.Codec.Base64
use arkade_2fa_vault_poc.Webauthn.{Crypto}
use arkade_2fa_vault_poc.Provider.{
  Pending, Table, PasskeyError, verification_busy, authentication_failed,
}
use arkade_2fa_vault_poc.Provider.Challenges.{
  Ambient, PasskeyChallengeResponse, find, delete, expire, prepare, store, store_prepared, respond,
  new_pending, issue_passkey_challenge, is_challenge_id, check_pending, consume_passkey_challenge,
}
use arkade_2fa_vault_poc.Provider.Sessions.{
  Credential, SessionAssertionRequest, Surroundings, acquire_verification, verify_session,
  verify_consumed, authenticate_acquired, authenticate_passkey_session,
}

store_cases :
    (P : Checked PasskeyError PasskeyChallengeResponse × Table → Type 0) (now : ℕ)
    (purpose : List ℕ) (credential raw challenge : List ℕ) (table : Table)
    → (P (refused verification_busy, expire now table))
    → (length (expire now table) < 64
        → P (
          accepted (respond (Base64.encode raw) challenge credential),
          (Base64.encode raw, new_pending now purpose challenge)
              ∷ delete (Base64.encode raw) (expire now table),
        ))
    → P (store now purpose (credential, (raw, challenge)) table)
unfolding store
store_cases P now purpose credential raw challenge table busy stored =
    if_cases P (leb 64 (length (expire now table))) (λ _. busy)
      (λ room. stored (ground (arith, room)))

-- An issue fails with the table as it was, finds it full after the expiry, or adds its challenge.
pub issue_cases :
    (P : Checked PasskeyError PasskeyChallengeResponse × Table → Type 0) (env : Ambient)
    (purpose : List ℕ) (table : Table)
    → ((e : PasskeyError) → P (refused e, table))
    → P (refused verification_busy, expire env.now table)
    → ((credential raw challenge : List ℕ)
        → prepare env purpose ≡ accepted (credential, (raw, challenge))
        → length (expire env.now table) < 64
        → P (
          accepted (respond (Base64.encode raw) challenge credential),
          (Base64.encode raw, new_pending env.now purpose challenge)
              ∷ delete (Base64.encode raw) (expire env.now table),
        ))
    → P (issue_passkey_challenge env purpose table)
unfolding issue_passkey_challenge
issue_cases P env purpose table idle busy stored = go (prepare env purpose) refl
  where
    go :
        (parts : Checked PasskeyError (List ℕ × (List ℕ × List ℕ)))
        → prepare env purpose ≡ parts
        → P (store_prepared env.now purpose parts table)
    go (refused e) h = idle e
    go (accepted (credential, (raw, challenge))) h =
        store_cases P env.now purpose credential raw challenge table busy
          (stored credential raw challenge h)

-- The pending challenge is what consumePasskeyChallenge asks for.
pub record IsUsable (now : ℕ) (id purpose : List ℕ) (table : Table) (p : Pending) : Type 0 where
  pub format : is_challenge_id id ≡ true
  pub pending : find id table ≡ some p
  pub same_purpose : p.purpose ≡ purpose
  pub fresh : now < p.expires_at

check_cases :
    (P : Checked PasskeyError (List ℕ) → Type 0) (now : ℕ) (purpose : List ℕ) (p : Pending)
    → P (refused authentication_failed)
    → (p.purpose ≡ purpose → now < p.expires_at → P (accepted p.challenge))
    → P (check_pending purpose now (some p))
check_cases P now purpose p failed usable = elim (Bool-cases (bytes_eq p.purpose purpose)) [
  | inr other ↦ rw other failed
  | inl same ↦ elim (Bool-cases (ltb now p.expires_at)) [
    | inr late ↦ rw (same, late) failed
    | inl fresh ↦
        rw (same, fresh) (usable ((bytes_eq_iff p.purpose purpose).0 same) (ground (arith, fresh)))
  ]
]

-- A challenge is taken only in the right form, and is deleted whatever it is.
pub consume_cases :
    (P : Checked PasskeyError (List ℕ) × Table → Type 0) (now : ℕ) (id purpose : List ℕ)
    (table : Table)
    → P (refused authentication_failed, table)
    → P (refused authentication_failed, delete id table)
    → ((p : Pending) → IsUsable now id purpose table p → P (accepted p.challenge, delete id table))
    → P (consume_passkey_challenge now id purpose table)
unfolding consume_passkey_challenge
consume_cases P now id purpose table malformed failed usable =
    if_cases P (not (is_challenge_id id)) (λ _. malformed)
      (λ formed. go (ground (arith, formed)) (find id table) refl)
  where
    go :
        is_challenge_id id ≡ true
        → (o : Option Pending) → find id table ≡ o
        → P (check_pending purpose now o, delete id table)
    go format none h = failed
    go format (some p) h =
        check_cases (λ answer. P (answer, delete id table)) now purpose p failed
          (λ same fresh.
            usable p (record { format = format; pending = h; same_purpose = same; fresh = fresh }))

-- A session is refused with the table as it was, or it has deleted its challenge, and then it is verified
-- with a usable challenge or refused.
pub authenticate_cases :
    (crypto : Crypto) (contains_prf : List ℕ → Bool)
    (P : Checked PasskeyError Credential × Table → Type 0) (env : Surroundings) (purpose : List ℕ)
    (req : SessionAssertionRequest) (table : Table)
    → ((e : PasskeyError) → P (refused e, table))
    → P (refused authentication_failed, delete req.challenge_id table)
    → ((p : Pending)
        → IsUsable env.now req.challenge_id purpose table p
        → P (
          verify_session crypto contains_prf env purpose req p.challenge,
          delete req.challenge_id table,
        ))
    → P (authenticate_passkey_session crypto contains_prf env purpose req table)
unfolding authenticate_passkey_session
authenticate_cases crypto contains_prf P env purpose req table idle failed usable =
    go (acquire_verification env)
  where
    go :
        (slot : Checked PasskeyError (Unit {0}))
        → P (authenticate_acquired crypto contains_prf slot env purpose req table)
    go (refused e) = idle e
    go (accepted _) =
        consume_cases (λ c. P (verify_consumed crypto contains_prf env purpose req c)) env.now
          req.challenge_id purpose table (idle authentication_failed) failed usable
