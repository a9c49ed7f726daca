-- ===== src/Webauthn.antt =====
-- poc/2fa-vault/internal/webauthn: assertions, their signatures and their keys.
pub mod Scalar
pub mod Signature
pub mod Assert
pub mod LowS
pub mod Authentic
pub mod Examples
use arkade_2fa_vault_poc.Prelude.{ℕ, ◌≡◌, refl, Bool, true, false, Option, none, some, List}
use arkade_2fa_vault_poc.Prelude.Int.{ℤ}

-- The client data, with texts as their bytes; `cross_origin` is none where the field is absent.
pub record ClientData : Type 0 where
  pub kind : List ℕ
  pub challenge : List ℕ
  pub origin : List ℕ
  pub cross_origin : Option Bool

-- What the code takes from encoding/asn1, encoding/json, crypto/elliptic, crypto/ecdsa and crypto/sha256, over
-- P-256. `unmarshal_der` gives the two numbers and the bytes left.
pub record Crypto : Type 1 where
  pub PublicKey : Type 0
  pub unmarshal_der : List ℕ → Option ((ℤ × ℤ) × List ℕ)
  pub unmarshal_client_data : List ℕ → Option ClientData
  pub unmarshal_compressed : List ℕ → Option PublicKey
  pub verify : PublicKey → List ℕ → ℕ → ℕ → Bool
  pub sha256 : List ℕ → List ℕ

pub data WebauthnError : Type 0 where
  bad_der trailing_bytes negative_scalar zero_scalar r_out_of_range s_out_of_range : WebauthnError
  bad_key_length bad_key_prefix off_curve no_key bad_digest_length : WebauthnError
  bad_signature_length signature_out_of_range not_low_s bad_signature : WebauthnError
  unknown_credential bad_registered_key bad_challenge_length short_authenticator_data :
      WebauthnError
  bad_client_data bad_type bad_origin cross_origin bad_challenge_encoding : WebauthnError
  challenge_mismatch rp_id_mismatch no_user_presence no_user_verification : WebauthnError
