-- ===== src/Webauthn/Examples.antt =====
-- The theorems of poc/2fa-vault/internal/webauthn at concrete inputs, with a signature scheme of two numbers.
use arkade_2fa_vault_poc.Prelude.Checks.{accepted}
use arkade_2fa_vault_poc.Prelude.{
  ℕ, ◌≡◌, refl, false, Option, none, some, List, [], ◌∷◌, ◌++◌, ◌==◌, ◌-◌, arith,
}
use arkade_2fa_vault_poc.Prelude.Bytes.{bytes_eq}
use arkade_2fa_vault_poc.Prelude.Int.{ℤ, pos}
use arkade_2fa_vault_poc.Codec.BigEndian.{fill_bytes, set_bytes}
use arkade_2fa_vault_poc.Codec.Base64.{encode, decode}
use arkade_2fa_vault_poc.Webauthn.{Crypto, ClientData}
use arkade_2fa_vault_poc.Webauthn.Scalar.{n, compact_low_s}
use arkade_2fa_vault_poc.Webauthn.Signature.{
  sign_digest_low_s, verify_digest_low_s, parse_compressed_p256, verify_es256,
}
use arkade_2fa_vault_poc.Webauthn.Assert.{
  Assertion, Expected, Verified, webauthn_get, validate, check_client_data,
  check_authenticator_data,
}
use arkade_2fa_vault_poc.Webauthn.LowS.{IsCompacted, compact_low_s-IsCompacted, verify-sign}
use arkade_2fa_vault_poc.Webauthn.Authentic.{IsAuthentic, validate-IsAuthentic}

abbrev pub zeros : List ℕ
zeros = fill_bytes 32 0

abbrev pub site : List ℕ
site = b'v' ∷ b'a' ∷ b'u' ∷ b'l' ∷ b't' ∷ []

abbrev client : ClientData
client = record {
  kind = webauthn_get;
  challenge = encode zeros;
  origin = site;
  cross_origin = some false;
}

-- A signature is two bytes, or three where s is n minus the second.
abbrev unmarshal : List ℕ → Option ((ℤ × ℤ) × List ℕ)
unmarshal (r ∷ s ∷ []) = some ((pos r, pos s), [])
unmarshal (r ∷ s ∷ flag ∷ []) = some ((pos r, pos (n - s)), [])
unmarshal der = none

abbrev pub toy : Crypto
toy = record {
  PublicKey = ℕ;
  unmarshal_der = unmarshal;
  unmarshal_client_data = λ json. some client;
  unmarshal_compressed = λ b. some 7;
  verify = λ key message r s. r == 5;
  sha256 = λ b. zeros;
}

abbrev pub key_bytes : List ℕ
key_bytes = 2 ∷ zeros

abbrev pub asserted : Assertion
asserted = record {
  credential_id = 9 ∷ [];
  client_data_json = site;
  authenticator_data = zeros ++ (5 ∷ 0 ∷ 0 ∷ 1 ∷ 2 ∷ []);
  der_signature = 5 ∷ 6 ∷ 0 ∷ [];
}

abbrev wanted : Expected
wanted = record {
  credential_id = 9 ∷ [];
  webauthn_p256 = key_bytes;
  challenge = zeros;
  origin = site;
  rp_id = site;
}

abbrev checked : Verified
checked = record {
  assertion = asserted;
  compact_sig = fill_bytes 32 5 ++ fill_bytes 32 6;
  client_data = client;
  sign_count = 258;
}

validate-IsAuthentic_example : IsAuthentic toy asserted wanted checked
unfolding validate bytes_eq fill_bytes set_bytes decode encode compact_low_s parse_compressed_p256
    verify_es256 check_client_data check_authenticator_data
validate-IsAuthentic_example = (validate-IsAuthentic toy asserted wanted checked).0 refl

compact_low_s-IsCompacted_example :
    IsCompacted toy (5 ∷ 6 ∷ 0 ∷ []) (fill_bytes 32 5 ++ fill_bytes 32 6)
unfolding compact_low_s fill_bytes
compact_low_s-IsCompacted_example =
    compact_low_s-IsCompacted toy (5 ∷ 6 ∷ 0 ∷ []) (fill_bytes 32 5 ++ fill_bytes 32 6) refl

verify-sign_example :
    (sig : List ℕ) × (sign_digest_low_s toy (some (5, n - 6)) zeros ≡ accepted sig)
    × (verify_digest_low_s toy (some 7) zeros sig ≡ accepted tt)
unfolding fill_bytes
verify-sign_example =
    verify-sign toy 7 zeros 5 (n - 6) (omega arith, omega arith) (omega arith, omega arith) refl
      refl refl
