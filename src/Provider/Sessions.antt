-- ===== src/Provider/Sessions.antt =====
-- authenticatePasskeySession of poc/2fa-vault/internal/provider/session.go, and what it calls of service.go.
use arkade_2fa_vault_poc.Prelude.Checks.{
  Checked, accepted, refused, require, ◌>>=◌, ◌>>◌, from_option,
}
use arkade_2fa_vault_poc.Prelude.{
  ℕ, Bool, not, ◌||◌, Option, none, some, List, [], ◌∷◌, ◌++◌, length, ltb, ◌==◌, if◌then◌else◌,
}
use arkade_2fa_vault_poc.Prelude.Bytes.{bytes_eq}
use arkade_2fa_vault_poc.Prelude.Int.{ℤ, pos, pos_part, leb_ℤ}
use arkade_2fa_vault_poc.Codec.Hex
use arkade_2fa_vault_poc.Webauthn.{Crypto, WebauthnError}
use arkade_2fa_vault_poc.Webauthn.Signature.{parse_compressed_p256, verify_digest_low_s}
use arkade_2fa_vault_poc.Webauthn.Assert.{Assertion, Expected, validate}
use arkade_2fa_vault_poc.Provider.{
  Table, Loaded, PasskeyError, from_loaded, cancelled, verification_busy, authentication_failed,
  foreign_passkey,
}
use arkade_2fa_vault_poc.Provider.Challenges.{consume_passkey_challenge}

-- The fields of policy.Credential that a session reads.
pub record Credential : Type 0 where
  pub id : List ℕ
  pub webauthn_p256 : List ℕ
  pub phone_direct_p256 : List ℕ
  pub origin : List ℕ
  pub rp_id : List ℕ

-- Texts, all but the first hexadecimal.
pub record SessionAssertionRequest : Type 0 where
  pub challenge_id : List ℕ
  pub credential_id : List ℕ
  pub client_data_json : List ℕ
  pub authenticator_data : List ℕ
  pub signature : List ℕ
  pub direct_proof : List ℕ

-- decodeHex.
unfoldable pub decode_hex : List ℕ → Option (List ℕ)
decode_hex [] = none
decode_hex (c ∷ text) = Hex.decode (c ∷ text)

-- decodeAssertion.
unfoldable pub decode_assertion : SessionAssertionRequest → Checked PasskeyError Assertion
unfolding decode_hex
decode_assertion req = from_option authentication_failed (decode_hex req.credential_id) >>= λ id.
    from_option authentication_failed (decode_hex req.client_data_json) >>= λ cd.
    from_option authentication_failed (decode_hex req.authenticator_data) >>= λ ad.
    from_option authentication_failed (decode_hex req.signature) >>= λ sig. accepted (record {
      credential_id = id;
      client_data_json = cd;
      authenticator_data = ad;
      der_signature = sig;
    })

abbrev pub has_field_size : Assertion → Bool
has_field_size a = not (
    (length a.credential_id == 0)
    || ltb 1024 (length a.credential_id)
    || (length a.client_data_json == 0)
    || ltb 4096 (length a.client_data_json)
    || ltb (length a.authenticator_data) 37
    || ltb 1024 (length a.authenticator_data)
    || (length a.der_signature == 0)
    || ltb 128 (length a.der_signature))

-- decodeBoundedSessionAssertion.
unfoldable pub decode_bounded_session_assertion :
    SessionAssertionRequest → Checked PasskeyError Assertion
unfolding decode_assertion
decode_bounded_session_assertion req =
    decode_assertion req >>= λ a. require (has_field_size a) authentication_failed >> accepted a

-- failPasskeyAuth answers one error for all.
abbrev pub or_failed : {A : Type 0} → Checked WebauthnError A → Checked PasskeyError A
or_failed (refused e) = refused authentication_failed
or_failed (accepted a) = accepted a

-- What one session reads: whether its context is cancelled, the verification slots in use, their
-- configured number, the clock and the credential.
pub record Surroundings : Type 0 where
  pub is_cancelled : Bool
  pub slots_in_use : ℕ
  pub max_concurrent_verifications : ℤ
  pub now : ℕ
  pub credential : Loaded Credential

abbrev pub default_concurrent_verifications : ℕ
default_concurrent_verifications = 4

abbrev pub verification_limit : ℤ → ℕ
verification_limit configured =
    if leb_ℤ configured (pos 0) then default_concurrent_verifications else pos_part configured

-- acquireVerification; the slot is given back when the session ends.
unfoldable pub acquire_verification : Surroundings → Checked PasskeyError (Unit {0})
acquire_verification env =
    require (not env.is_cancelled) cancelled
    >> require (ltb env.slots_in_use (verification_limit env.max_concurrent_verifications))
        verification_busy

abbrev pub expected : Credential → List ℕ → Expected
expected cred challenge = record {
  credential_id = cred.id;
  webauthn_p256 = cred.webauthn_p256;
  challenge = challenge;
  origin = cred.origin;
  rp_id = cred.rp_id;
}

-- "arkade-2fa-vault/passkey-proof/v1".
abbrev pub passkey_proof_domain : List ℕ
passkey_proof_domain =
    b'a' ∷ b'r' ∷ b'k' ∷ b'a' ∷ b'd' ∷ b'e' ∷ b'-' ∷ b'2' ∷ b'f' ∷ b'a' ∷ b'-' ∷ b'v' ∷ b'a' ∷ b'u'
    ∷ b'l' ∷ b't' ∷ b'/' ∷ b'p' ∷ b'a' ∷ b's' ∷ b's' ∷ b'k' ∷ b'e' ∷ b'y' ∷ b'-' ∷ b'p' ∷ b'r'
    ∷ b'o' ∷ b'o' ∷ b'f' ∷ b'/' ∷ b'v' ∷ b'1' ∷ []

module _ (crypto : Crypto) where
  abbrev pub passkey_session_proof_digest : List ℕ → List ℕ → List ℕ → List ℕ
  passkey_session_proof_digest purpose challenge credential_id =
      crypto.sha256 (passkey_proof_domain ++ 0 ∷ purpose ++ 0 ∷ challenge ++ 0 ∷ credential_id)

  unfoldable pub verify_direct_auth : List ℕ → List ℕ → List ℕ → Checked WebauthnError (Unit {0})
  verify_direct_auth direct_pub digest compact = parse_compressed_p256 crypto direct_pub >>= λ key.
      verify_digest_low_s crypto (some key) digest compact

  -- webauthn.ContainsPRFField is an argument.
  module _ (contains_prf_field : List ℕ → Bool) where
    -- Behind the challenge.
    unfoldable pub verify_session :
        Surroundings → List ℕ → SessionAssertionRequest → List ℕ → Checked PasskeyError Credential
    unfolding decode_bounded_session_assertion verify_direct_auth
    verify_session env purpose req challenge =
        from_loaded authentication_failed authentication_failed env.credential >>= λ cred.
        decode_bounded_session_assertion req >>= λ assertion.
        require (bytes_eq assertion.credential_id cred.id) foreign_passkey
        >> require (not (contains_prf_field assertion.client_data_json)) authentication_failed
        >> or_failed (validate crypto assertion (expected cred challenge))
        >>= λ _.
            from_option authentication_failed (Hex.decode_fixed_hex req.direct_proof 64)
            >>= λ proof.
                or_failed (
                  verify_direct_auth cred.phone_direct_p256
                    (passkey_session_proof_digest purpose challenge cred.id) proof)
                >> accepted cred

    abbrev pub verify_consumed :
        Surroundings
        → List ℕ
        → SessionAssertionRequest
        → Checked PasskeyError (List ℕ) × Table
        → Checked PasskeyError Credential × Table
    verify_consumed env purpose req (refused e, table) = (refused authentication_failed, table)
    verify_consumed env purpose req (accepted challenge, table) =
        (verify_session env purpose req challenge, table)

    abbrev pub authenticate_acquired :
        Checked PasskeyError (Unit {0})
        → Surroundings
        → List ℕ
        → SessionAssertionRequest
        → Table
        → Checked PasskeyError Credential × Table
    authenticate_acquired (refused e) env purpose req table = (refused e, table)
    authenticate_acquired (accepted _) env purpose req table =
        verify_consumed env purpose req
          (consume_passkey_challenge env.now req.challenge_id purpose table)

    unfoldable pub authenticate_passkey_session :
        Surroundings
        → List ℕ
        → SessionAssertionRequest
        → Table
        → Checked PasskeyError Credential × Table
    unfolding verify_session acquire_verification
    authenticate_passkey_session env purpose req table =
        authenticate_acquired (acquire_verification env) env purpose req table
