-- ===== src/Webauthn/Signature.antt =====
-- poc/2fa-vault/internal/webauthn/p256.go, and Digest of assert.go.
use arkade_2fa_vault_poc.Prelude.Checks.{
  Checked, accepted, refused, require, ◌>>=◌, ◌>>◌, from_option,
}
use arkade_2fa_vault_poc.Prelude.{
  ℕ, ◌||◌, Bool, false, Option, none, some, List, ◌++◌, length, get_elem?, ◌==◌,
}
use arkade_2fa_vault_poc.Codec.BigEndian.{fill_bytes}
use arkade_2fa_vault_poc.Webauthn.{
  Crypto, WebauthnError, no_key, bad_key_length, bad_key_prefix, off_curve, bad_digest_length,
  bad_signature,
}
use arkade_2fa_vault_poc.Webauthn.Scalar.{low_s, compact_scalars}

abbrev pub is_prefix : Option ℕ → Bool
is_prefix none = false
is_prefix (some b) = (b == 0x02) || (b == 0x03)

module _ (crypto : Crypto) where
  unfoldable pub parse_compressed_p256 : List ℕ → Checked WebauthnError crypto.PublicKey
  parse_compressed_p256 b =
      require (length b == 33) bad_key_length
      >> require (is_prefix (get_elem? b 0)) bad_key_prefix
      >> from_option off_curve (crypto.unmarshal_compressed b)

  unfoldable pub signed_message : List ℕ → List ℕ → List ℕ
  signed_message authenticator_data client_data_json =
      authenticator_data ++ crypto.sha256 client_data_json

  unfoldable pub digest : List ℕ → List ℕ → List ℕ
  unfolding signed_message
  digest authenticator_data client_data_json =
      crypto.sha256 (signed_message authenticator_data client_data_json)

  -- The key, if it is not nil, the message, and the scalars of the compact signature.
  abbrev pub verify_scalars : crypto.PublicKey → List ℕ → ℕ × ℕ → Checked WebauthnError (Unit {0})
  verify_scalars key message (r, s) = require (crypto.verify key message r s) bad_signature

  unfoldable pub verify_es256 :
      Option crypto.PublicKey → List ℕ → List ℕ → List ℕ → Checked WebauthnError (Unit {0})
  unfolding compact_scalars digest
  verify_es256 pub_key authenticator_data client_data_json compact =
      from_option no_key pub_key >>= λ key.
      compact_scalars compact >>= verify_scalars key (digest authenticator_data client_data_json)

  unfoldable pub verify_digest_low_s :
      Option crypto.PublicKey → List ℕ → List ℕ → Checked WebauthnError (Unit {0})
  unfolding compact_scalars
  verify_digest_low_s pub_key message compact = from_option no_key pub_key >>= λ key.
      require (length message == 32) bad_digest_length
      >> compact_scalars compact
      >>= verify_scalars key message

  -- `signed` is what ecdsa.Sign gives with the private key, none where that is nil.
  unfoldable pub sign_digest_low_s : Option (ℕ × ℕ) → List ℕ → Checked WebauthnError (List ℕ)
  sign_digest_low_s none message = refused no_key
  sign_digest_low_s (some (r, s)) message =
      require (length message == 32) bad_digest_length
      >> accepted (fill_bytes 32 r ++ fill_bytes 32 (low_s s))
