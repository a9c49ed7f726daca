-- ===== src/Envelope/Examples.antt =====
-- A credential envelope of poc/2fa-vault/internal/policy/envelope.go, with a MAC that shows the key.
use arkade_2fa_vault_poc.Prelude.{ℕ, ◌≡◌, refl, List, [], ◌∷◌, arith}
use arkade_2fa_vault_poc.Prelude.Bytes.{bytes_eq}
use arkade_2fa_vault_poc.Prelude.Checks.{accepted}
use arkade_2fa_vault_poc.Codec.BigEndian.{fill_bytes}
use arkade_2fa_vault_poc.Envelope.{
  CredentialEnvelope, credential_envelope_mac, validate_credential_envelope,
  verify_credential_envelope,
}
use arkade_2fa_vault_poc.Envelope.Payload.{SameContent}
use arkade_2fa_vault_poc.Envelope.Binds.{verify-SameContent}

abbrev key : List ℕ
key = fill_bytes 32 7

abbrev show_key : List ℕ → List ℕ → List ℕ
show_key k p = k

abbrev envelope : CredentialEnvelope
envelope = record {
  version = 1;
  binding = 5 ∷ [];
  nonce = fill_bytes 12 1;
  ciphertext = fill_bytes 48 2;
  direct_sig = fill_bytes 64 3;
  phone_sig = fill_bytes 64 4;
  integrity_mac = key;
}

envelope_verified : verify_credential_envelope show_key envelope (9 ∷ []) key ≡ accepted tt
unfolding verify_credential_envelope credential_envelope_mac validate_credential_envelope fill_bytes
    bytes_eq
envelope_verified = refl

verify-SameContent_example : SameContent envelope envelope × (◌≡◌ {A = List ℕ} (9 ∷ []) (9 ∷ []))
verify-SameContent_example =
    verify-SameContent show_key envelope envelope (9 ∷ []) (9 ∷ []) key (omega arith) (omega arith)
      envelope_verified envelope_verified refl (λ _. refl)
