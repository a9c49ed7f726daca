-- ===== src/Envelope.antt =====
-- poc/2fa-vault/internal/policy/envelope.go: the sealed credential envelope.
pub mod Payload
pub mod Binds
mod Examples
use arkade_2fa_vault_poc.Prelude.{
  ℕ, ◌*◌, ◌/◌, ◌%◌, ◌^◌, Bool, true, false, not, ◌||◌, ◌&&◌, List, [], ◌∷◌, ◌++◌, length, ltb, ◌==◌,
}
use arkade_2fa_vault_poc.Prelude.Bytes.{bytes_eq}
use arkade_2fa_vault_poc.Prelude.Checks.{Checked, accepted, require, ◌>>=◌, ◌>>◌}

pub record CredentialEnvelope : Type 0 where
  pub version : ℕ
  pub binding : List ℕ
  pub nonce : List ℕ
  pub ciphertext : List ℕ
  pub direct_sig : List ℕ
  pub phone_sig : List ℕ
  pub integrity_mac : List ℕ

pub data EnvelopeError : Type 0 where
  bad_version bad_binding bad_nonce bad_ciphertext bad_direct_sig bad_phone_sig : EnvelopeError
  bad_mac_length bad_key missing_mac mac_mismatch : EnvelopeError

-- "arkade-2fa-vault/credential-envelope/v1".
abbrev pub credential_envelope_domain : List ℕ
credential_envelope_domain =
    b'a' ∷ b'r' ∷ b'k' ∷ b'a' ∷ b'd' ∷ b'e' ∷ b'-' ∷ b'2' ∷ b'f' ∷ b'a' ∷ b'-' ∷ b'v' ∷ b'a' ∷ b'u'
    ∷ b'l' ∷ b't' ∷ b'/' ∷ b'c' ∷ b'r' ∷ b'e' ∷ b'd' ∷ b'e' ∷ b'n' ∷ b't' ∷ b'i' ∷ b'a' ∷ b'l'
    ∷ b'-' ∷ b'e' ∷ b'n' ∷ b'v' ∷ b'e' ∷ b'l' ∷ b'o' ∷ b'p' ∷ b'e' ∷ b'/' ∷ b'v' ∷ b'1' ∷ []

unfoldable pub validate_credential_envelope : CredentialEnvelope → Checked EnvelopeError (Unit {0})
validate_credential_envelope e =
    require (e.version == 1) bad_version
    >> require (not ((length e.binding == 0) || ltb (16 * 1024) (length e.binding))) bad_binding
    >> require (length e.nonce == 12) bad_nonce
    >> require (length e.ciphertext == 48) bad_ciphertext
    >> require (length e.direct_sig == 64) bad_direct_sig
    >> require (length e.phone_sig == 64) bad_phone_sig
    >> require (not (not (length e.integrity_mac == 0) && not (length e.integrity_mac == 32)))
        bad_mac_length

-- binary.LittleEndian.AppendUint32, of uint32(n).
abbrev pub uint32_bytes : ℕ → List ℕ
uint32_bytes n = n % 256 ∷ n / 256 % 256 ∷ n / 65536 % 256 ∷ n / 16777216 % 256 ∷ []

abbrev pub field : List ℕ → List ℕ → List ℕ
field bytes rest = uint32_bytes (length bytes) ++ (bytes ++ rest)

-- What credentialEnvelopeMAC writes before the MAC.
unfoldable pub payload : CredentialEnvelope → List ℕ → List ℕ
payload e credential_id = field credential_envelope_domain (
    uint32_bytes e.version
    ++ field credential_id (
        field e.binding
          (field e.nonce (field e.ciphertext (field e.direct_sig (field e.phone_sig []))))))

-- HMAC-SHA256 of a key is an argument.
module _ (hmac : List ℕ → List ℕ → List ℕ) where
  unfoldable pub credential_envelope_mac :
      CredentialEnvelope → List ℕ → List ℕ → Checked EnvelopeError (List ℕ)
  unfolding validate_credential_envelope payload
  credential_envelope_mac e credential_id key =
      require (length key == 32) bad_key
      >> validate_credential_envelope e
      >> accepted (hmac key (payload e credential_id))

  unfoldable pub seal_credential_envelope :
      CredentialEnvelope → List ℕ → List ℕ → Checked EnvelopeError CredentialEnvelope
  unfolding credential_envelope_mac
  seal_credential_envelope e credential_id key =
      credential_envelope_mac e credential_id key >>= λ mac.
      accepted (record e { integrity_mac = mac })

  unfoldable pub verify_credential_envelope :
      CredentialEnvelope → List ℕ → List ℕ → Checked EnvelopeError (Unit {0})
  unfolding credential_envelope_mac
  verify_credential_envelope e credential_id key =
      require (length e.integrity_mac == 32) missing_mac
      >> credential_envelope_mac e credential_id key
      >>= λ want. require (bytes_eq e.integrity_mac want) mac_mismatch
