-- ===== src/Provider/Authenticated.antt =====
-- What authenticatePasskeySession of poc/2fa-vault/internal/provider/session.go accepts.
use arkade_2fa_vault_poc.Prelude.Checks.{
  Checked, accepted, refused, from_option, >>=-accepted, require-accepted, from_option-accepted,
}
use arkade_2fa_vault_poc.Prelude.{ℕ, ◌≡◌, refl, Bool, true, false, not, none, List, length}
use arkade_2fa_vault_poc.Prelude.Bytes.{bytes_eq}
use arkade_2fa_vault_poc.Codec.Hex
use arkade_2fa_vault_poc.Webauthn.{Crypto, WebauthnError}
use arkade_2fa_vault_poc.Webauthn.Assert.{Assertion, Verified, validate}
use arkade_2fa_vault_poc.Webauthn.Authentic.{IsAuthentic, validate-IsAuthentic}
use arkade_2fa_vault_poc.Provider.{
  Pending, Table, found, PasskeyError, from_loaded, from_loaded-accepted, authentication_failed,
  foreign_passkey,
}
use arkade_2fa_vault_poc.Provider.Challenges.{find}
use arkade_2fa_vault_poc.Provider.Sessions.{
  Credential, SessionAssertionRequest, Surroundings, decode_bounded_session_assertion, or_failed,
  expected, passkey_session_proof_digest, verify_direct_auth, verify_session,
  authenticate_passkey_session,
}
use arkade_2fa_vault_poc.Provider.Entries.{find-delete}
use arkade_2fa_vault_poc.Provider.Cases.{IsUsable, authenticate_cases}

-- What was verified with the challenge.
pub record IsVerified (crypto : Crypto) (contains_prf : List ℕ → Bool) (env : Surroundings)
    (purpose : List ℕ) (req : SessionAssertionRequest) (challenge : List ℕ) (cred : Credential)
    : Type 0 where
  pub loaded : env.credential ≡ found cred
  pub assertion : Assertion
  pub decoded : decode_bounded_session_assertion req ≡ accepted assertion
  pub no_prf : contains_prf assertion.client_data_json ≡ false
  pub result : Verified
  pub authentic : IsAuthentic crypto assertion (expected cred challenge) result
  pub proof : List ℕ
  pub proof_text : req.direct_proof ≡ Hex.encode proof
  pub proof_size : length proof ≡ 64
  pub proved :
      verify_direct_auth crypto cred.phone_direct_p256
        (passkey_session_proof_digest crypto purpose challenge cred.id)
        proof
      ≡ accepted tt

or_failed-accepted :
    {A : Type 0} (m : Checked WebauthnError A) (a : A) → or_failed m ≡ accepted a → m ≡ accepted a
or_failed-accepted (refused e) a h = cc
or_failed-accepted (accepted x) a h = cc

not-false : (b : Bool) → not b ≡ true → b ≡ false
not-false true h = cc
not-false false h = refl

verify_session-IsVerified :
    (crypto : Crypto) (contains_prf : List ℕ → Bool) (env : Surroundings) (purpose : List ℕ)
    (req : SessionAssertionRequest) (challenge : List ℕ) (cred : Credential)
    → verify_session crypto contains_prf env purpose req challenge ≡ accepted cred
    → IsVerified crypto contains_prf env purpose req challenge cred
unfolding verify_session
verify_session-IsVerified crypto contains_prf env purpose req challenge cred h =
    let (c, found_c, h1) =
      >>=-accepted (from_loaded authentication_failed authentication_failed env.credential) _ cred
        h in
    let (a, decoded, h2) = >>=-accepted (decode_bounded_session_assertion req) _ cred h1 in
    let (_, h3) = require-accepted (bytes_eq a.credential_id c.id) foreign_passkey _ cred h2 in
    let (prf, h4) =
      require-accepted (not (contains_prf a.client_data_json)) authentication_failed _ cred h3 in
    let (v, valid, h5) =
      >>=-accepted (or_failed (validate crypto a (expected c challenge))) _ cred h4 in
    let (proof, read, h6) =
      >>=-accepted (from_option authentication_failed (Hex.decode_fixed_hex req.direct_proof 64)) _
        cred h5 in
    let digest = passkey_session_proof_digest crypto purpose challenge c.id in
    let (_, proved, h7) =
      >>=-accepted (or_failed (verify_direct_auth crypto c.phone_direct_p256 digest proof)) _ cred
        h6 in
    let (text, size, _) = (Hex.decode_fixed_hex-canonical req.direct_proof 64 proof).0 (
      from_option-accepted authentication_failed (Hex.decode_fixed_hex req.direct_proof 64) proof
        read) in
    let made : c ≡ cred = cc h7 in
    let verified : IsVerified crypto contains_prf env purpose req challenge c = record {
      loaded =
          from_loaded-accepted authentication_failed authentication_failed env.credential c found_c;
      assertion = a;
      decoded = decoded;
      no_prf = not-false (contains_prf a.client_data_json) prf;
      result = v;
      authentic =
          (validate-IsAuthentic crypto a (expected c challenge) v).0 (or_failed-accepted _ v valid);
      proof = proof;
      proof_text = text;
      proof_size = size;
      proved = or_failed-accepted _ tt proved;
    } in
    rw (← made) verified

-- A session that authenticatePasskeySession opens had a pending challenge of its id, made for its purpose and
-- not expired; its assertion is authentic for that challenge and the stored credential, with no PRF field
-- in its client data; its proof is the canonical text of a 64-byte signature, which the direct key of the
-- credential verifies over the purpose, the challenge and the credential; and the challenge is gone.
pub authenticate-IsVerified :
    (crypto : Crypto) (contains_prf : List ℕ → Bool) (env : Surroundings) (purpose : List ℕ)
    (req : SessionAssertionRequest) (table : Table) (cred : Credential)
    → (authenticate_passkey_session crypto contains_prf env purpose req table).0 ≡ accepted cred
    → (p : Pending) × IsUsable env.now req.challenge_id purpose table p
      × IsVerified crypto contains_prf env purpose req p.challenge cred
      × (find req.challenge_id
            (authenticate_passkey_session crypto contains_prf env purpose req table).1
          ≡ none)
authenticate-IsVerified crypto contains_prf env purpose req table cred =
    authenticate_cases crypto contains_prf
      (λ (out : Checked PasskeyError Credential × Table).
        out.0 ≡ accepted cred
        → (p : Pending) × IsUsable env.now req.challenge_id purpose table p
          × IsVerified crypto contains_prf env purpose req p.challenge cred
          × (find req.challenge_id out.1 ≡ none))
      env purpose req table (λ e h. cc h) (λ h. cc h)
      (λ p usable h. (
        p,
        usable,
        verify_session-IsVerified crypto contains_prf env purpose req p.challenge cred h,
        find-delete req.challenge_id table,
      ))
