-- ===== src/Webauthn/Assert.antt =====
-- Validate of poc/2fa-vault/internal/webauthn/assert.go.
use arkade_2fa_vault_poc.Prelude.Checks.{Checked, accepted, require, ◌>>=◌, ◌>>◌, from_option}
use arkade_2fa_vault_poc.Prelude.{
  ℕ, ◌/◌, ◌%◌, Bool, false, not, Option, none, some, List, [], ◌∷◌, length, get_elem?, take, drop,
  ltb, ◌==◌,
}
use arkade_2fa_vault_poc.Prelude.Bytes.{bytes_eq}
use arkade_2fa_vault_poc.Codec.Base64.{decode}
use arkade_2fa_vault_poc.Codec.BigEndian.{set_bytes}
use arkade_2fa_vault_poc.Webauthn.{
  Crypto, ClientData, WebauthnError, unknown_credential, bad_registered_key, bad_challenge_length,
  short_authenticator_data, bad_client_data, bad_type, bad_origin, cross_origin,
  bad_challenge_encoding, challenge_mismatch, rp_id_mismatch, no_user_presence,
  no_user_verification,
}
use arkade_2fa_vault_poc.Webauthn.Scalar.{compact_low_s}
use arkade_2fa_vault_poc.Webauthn.Signature.{parse_compressed_p256, verify_es256}

pub record Assertion : Type 0 where
  pub credential_id : List ℕ
  pub client_data_json : List ℕ
  pub authenticator_data : List ℕ
  pub der_signature : List ℕ

pub record Expected : Type 0 where
  pub credential_id : List ℕ
  pub webauthn_p256 : List ℕ
  pub challenge : List ℕ
  pub origin : List ℕ
  pub rp_id : List ℕ

pub record Verified : Type 0 where
  pub assertion : Assertion
  pub compact_sig : List ℕ
  pub client_data : ClientData
  pub sign_count : ℕ

-- "webauthn.get".
abbrev pub webauthn_get : List ℕ
webauthn_get =
    b'w' ∷ b'e' ∷ b'b' ∷ b'a' ∷ b'u' ∷ b't' ∷ b'h' ∷ b'n' ∷ b'.' ∷ b'g' ∷ b'e' ∷ b't' ∷ []

abbrev pub is_same_origin : Option Bool → Bool
is_same_origin none = false
is_same_origin (some crossed) = not crossed

-- flags & flagUP and flags & flagUV, of the byte behind the hash.
abbrev pub has_user_presence : Option ℕ → Bool
has_user_presence none = false
has_user_presence (some flags) = flags % 2 == 1

abbrev pub has_user_verification : Option ℕ → Bool
has_user_verification none = false
has_user_verification (some flags) = flags / 4 % 2 == 1

module _ (crypto : Crypto) where
  -- What is asked of the client data.
  unfoldable pub check_client_data : ClientData → Expected → Checked WebauthnError (Unit {0})
  check_client_data cd exp =
      require (bytes_eq cd.kind webauthn_get) bad_type
      >> require (bytes_eq cd.origin exp.origin) bad_origin
      >> require (is_same_origin cd.cross_origin) cross_origin
      >> from_option bad_challenge_encoding (decode cd.challenge)
      >>= λ challenge. require (bytes_eq challenge exp.challenge) challenge_mismatch

  unfoldable pub check_authenticator_data : List ℕ → Expected → Checked WebauthnError (Unit {0})
  check_authenticator_data auth exp =
      require (bytes_eq (take 32 auth) (crypto.sha256 exp.rp_id)) rp_id_mismatch
      >> require (has_user_presence (get_elem? auth 32)) no_user_presence
      >> require (has_user_verification (get_elem? auth 32)) no_user_verification

  unfoldable pub validate : Assertion → Expected → Checked WebauthnError Verified
  unfolding check_client_data check_authenticator_data
  validate a exp =
      require (bytes_eq a.credential_id exp.credential_id) unknown_credential
      >> require (length exp.webauthn_p256 == 33) bad_registered_key
      >> require (length exp.challenge == 32) bad_challenge_length
      >> require (not (ltb (length a.authenticator_data) 37)) short_authenticator_data
      >> from_option bad_client_data (crypto.unmarshal_client_data a.client_data_json)
      >>= λ cd.
          check_client_data cd exp
          >> check_authenticator_data a.authenticator_data exp
          >> compact_low_s crypto a.der_signature
          >>= λ compact. parse_compressed_p256 crypto exp.webauthn_p256 >>= λ key.
              verify_es256 crypto (some key) a.authenticator_data a.client_data_json compact
              >> accepted (record {
                assertion = a;
                compact_sig = compact;
                client_data = cd;
                sign_count = set_bytes (take 4 (drop 33 a.authenticator_data));
              })
