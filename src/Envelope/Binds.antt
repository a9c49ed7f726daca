-- ===== src/Envelope/Binds.antt =====
-- SealCredentialEnvelope and VerifyCredentialEnvelope of poc/2fa-vault/internal/policy/envelope.go.
use arkade_2fa_vault_poc.Prelude.{
  ℕ, ◌*◌, ◌^◌, ◌<◌, ◌≡◌, refl, ap, sym, ◌∙◌, true, not, ◌||◌, ◌&&◌, List, length, ltb, ◌==◌, arith,
}
use arkade_2fa_vault_poc.Prelude.Bytes.{bytes_eq, bytes_eq_iff, bytes_eq_refl}
use arkade_2fa_vault_poc.Prelude.Checks.{
  accepted, >>=-accepted, require-accepted, require-true, accepted-eq,
}
use arkade_2fa_vault_poc.Envelope.{
  CredentialEnvelope, bad_version, bad_binding, bad_nonce, bad_ciphertext, bad_direct_sig,
  bad_phone_sig, bad_key, missing_mac, mac_mismatch, validate_credential_envelope, payload,
  credential_envelope_mac, seal_credential_envelope, verify_credential_envelope,
}
use arkade_2fa_vault_poc.Envelope.Payload.{Fits, SameContent, payload_injective}

-- The tests that validateCredentialEnvelope has passed, but for the MAC.
record IsWellFormed (e : CredentialEnvelope) : Type 0 where
  version : (e.version == 1) ≡ true
  binding : not ((length e.binding == 0) || ltb (16 * 1024) (length e.binding)) ≡ true
  nonce : (length e.nonce == 12) ≡ true
  ciphertext : (length e.ciphertext == 48) ≡ true
  direct_sig : (length e.direct_sig == 64) ≡ true
  phone_sig : (length e.phone_sig == 64) ≡ true

validate-IsWellFormed :
    (e : CredentialEnvelope) (u : Unit {0})
    → validate_credential_envelope e ≡ accepted u
    → IsWellFormed e
unfolding validate_credential_envelope
validate-IsWellFormed e u h =
    let (version, h1) = require-accepted (e.version == 1) bad_version _ u h in
    let (binding, h2) =
      require-accepted (not ((length e.binding == 0) || ltb (16 * 1024) (length e.binding)))
        bad_binding _ u h1 in
    let (nonce, h3) = require-accepted (length e.nonce == 12) bad_nonce _ u h2 in
    let (cipher, h4) = require-accepted (length e.ciphertext == 48) bad_ciphertext _ u h3 in
    let (direct, h5) = require-accepted (length e.direct_sig == 64) bad_direct_sig _ u h4 in
    let (phone, _) = require-accepted (length e.phone_sig == 64) bad_phone_sig _ u h5 in
    record {
      version = version;
      binding = binding;
      nonce = nonce;
      ciphertext = cipher;
      direct_sig = direct;
      phone_sig = phone;
    }

well_formed-Fits :
    (e : CredentialEnvelope) (id : List ℕ) → length id < 2 ^ 32 → IsWellFormed e → Fits e id
well_formed-Fits e id short h = record {
  version = ground (arith, h.version);
  credential = short;
  binding = ground (arith, h.binding);
  nonce = ground (arith, h.nonce);
  ciphertext = ground (arith, h.ciphertext);
  direct_sig = ground (arith, h.direct_sig);
  phone_sig = ground (arith, h.phone_sig);
}

verified_mac :
    (hmac : List ℕ → List ℕ → List ℕ) (e : CredentialEnvelope) (id key : List ℕ) (u : Unit {0})
    → length id < 2 ^ 32
    → verify_credential_envelope hmac e id key ≡ accepted u
    → Fits e id × (e.integrity_mac ≡ hmac key (payload e id))
unfolding verify_credential_envelope credential_envelope_mac
verified_mac hmac e id key u short h =
    let (_, h1) = require-accepted (length e.integrity_mac == 32) missing_mac _ u h in
    let (want, made, h2) = >>=-accepted (credential_envelope_mac hmac e id key) _ u h1 in
    let matched = require-true (bytes_eq e.integrity_mac want) mac_mismatch u h2 in
    let (_, m1) = require-accepted (length key == 32) bad_key _ want made in
    let (w, valid, m2) = >>=-accepted (validate_credential_envelope e) _ want m1 in
    let same = accepted-eq (hmac key (payload e id)) want m2 in
    (
      well_formed-Fits e id short (validate-IsWellFormed e w valid),
      (bytes_eq_iff e.integrity_mac want).0 matched ∙ sym same,
    )

-- An envelope binds its credential: two envelopes that VerifyCredentialEnvelope accepts with one key and that
-- have the same MAC are of the same credential and have the same version, binding, nonce, ciphertext and
-- signatures, where HMAC has no collision between their payloads and the credential ids are shorter than
-- 2^32 bytes.
pub verify-SameContent :
    (hmac : List ℕ → List ℕ → List ℕ) (d e : CredentialEnvelope) (i j key : List ℕ)
    → length i < 2 ^ 32
    → length j < 2 ^ 32
    → verify_credential_envelope hmac d i key ≡ accepted tt
    → verify_credential_envelope hmac e j key ≡ accepted tt
    → d.integrity_mac ≡ e.integrity_mac
    → (hmac key (payload d i) ≡ hmac key (payload e j) → payload d i ≡ payload e j)
    → SameContent d e × (i ≡ j)
verify-SameContent hmac d e i j key short_i short_j of_d of_e same no_collision =
    let (fits_d, mac_d) = verified_mac hmac d i key tt short_i of_d in
    let (fits_e, mac_e) = verified_mac hmac e j key tt short_j of_e in
    payload_injective d e i j fits_d fits_e (no_collision (sym mac_d ∙ same ∙ mac_e))

sealed_verifies :
    (hmac : List ℕ → List ℕ → List ℕ) (e : CredentialEnvelope) (mac id key : List ℕ)
    → IsWellFormed e
    → length mac ≡ 32
    → (length key == 32) ≡ true
    → hmac key (payload e id) ≡ mac
    → verify_credential_envelope hmac (record e { integrity_mac = mac }) id key ≡ accepted tt
unfolding verify_credential_envelope credential_envelope_mac validate_credential_envelope payload
sealed_verifies hmac e mac id key h size long_key is_mac =
    let long : (length mac == 32) ≡ true = ground (arith, size) in
    let some_mac : not (not (length mac == 0) && not true) ≡ true = ground (arith, size) in
    rw
      (
        long,
        long_key,
        h.version,
        h.binding,
        h.nonce,
        h.ciphertext,
        h.direct_sig,
        h.phone_sig,
        some_mac,
        is_mac,
        bytes_eq_refl mac,
      )
      refl

-- What SealCredentialEnvelope seals, VerifyCredentialEnvelope accepts with the same key and credential, where
-- HMAC gives 32 bytes.
pub verify-seal :
    (hmac : List ℕ → List ℕ → List ℕ) (e sealed : CredentialEnvelope) (id key : List ℕ)
    → ((k p : List ℕ) → length (hmac k p) ≡ 32)
    → seal_credential_envelope hmac e id key ≡ accepted sealed
    → verify_credential_envelope hmac sealed id key ≡ accepted tt
unfolding seal_credential_envelope credential_envelope_mac
verify-seal hmac e sealed id key sizes h =
    let (mac, made, h1) = >>=-accepted (credential_envelope_mac hmac e id key) _ sealed h in
    let (long_key, m1) = require-accepted (length key == 32) bad_key _ mac made in
    let (u, valid, m2) = >>=-accepted (validate_credential_envelope e) _ mac m1 in
    let is_mac = accepted-eq (hmac key (payload e id)) mac m2 in
    let size : length mac ≡ 32 = ap length (sym is_mac) ∙ sizes key (payload e id) in
    let verified =
      sealed_verifies hmac e mac id key (validate-IsWellFormed e u valid) size long_key is_mac in
    let same = accepted-eq (record e { integrity_mac = mac }) sealed h1 in
    ap (λ (x : CredentialEnvelope). verify_credential_envelope hmac x id key) (sym same) ∙ verified
