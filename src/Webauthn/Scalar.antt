-- ===== src/Webauthn/Scalar.antt =====
-- CompactLowS of poc/2fa-vault/internal/webauthn/der.go, and the range checks of p256.go.
use arkade_2fa_vault_poc.Prelude.Checks.{
  Checked, accepted, refused, require, ◌>>=◌, ◌>>◌, from_option,
}
use arkade_2fa_vault_poc.Prelude.{
  ℕ, ◌-◌, ◌/◌, Bool, not, ◌||◌, List, ◌++◌, length, take, drop, ltb, leb, ◌==◌, if◌then◌else◌,
}
use arkade_2fa_vault_poc.Prelude.Int.{ℤ, pos, negsuc, pos_part, leb_ℤ}
use arkade_2fa_vault_poc.Codec.BigEndian.{fill_bytes, set_bytes}
use arkade_2fa_vault_poc.Webauthn.{
  Crypto, WebauthnError, bad_der, trailing_bytes, negative_scalar, zero_scalar, r_out_of_range,
  s_out_of_range, bad_signature_length, signature_out_of_range, not_low_s,
}

-- elliptic.P256().Params().N.
abbrev pub n : ℕ
n = 0xffffffff00000000ffffffffffffffffbce6faada7179e84f3b9cac2fc632551

abbrev pub half : ℕ
half = n / 2

unfoldable pub canonical_scalar : ℤ → Checked WebauthnError (Unit {0})
canonical_scalar (negsuc k) = refused negative_scalar
canonical_scalar (pos x) = if x == 0 then refused zero_scalar else accepted tt

abbrev pub in_range : ℤ → Bool
in_range v = not (leb_ℤ v (pos 0) || leb_ℤ (pos n) v)

abbrev pub low_s : ℕ → ℕ
low_s s = if ltb half s then n - s else s

-- Of what encoding/asn1 gives.
unfoldable pub compact_of : (ℤ × ℤ) × List ℕ → Checked WebauthnError (List ℕ)
unfolding canonical_scalar
compact_of ((r, s), rest) =
    require (length rest == 0) trailing_bytes
    >> canonical_scalar r
    >> canonical_scalar s
    >> require (in_range r) r_out_of_range
    >> require (in_range s) s_out_of_range
    >> accepted (fill_bytes 32 (pos_part r) ++ fill_bytes 32 (low_s (pos_part s)))

unfoldable pub compact_low_s : (crypto : Crypto) → List ℕ → Checked WebauthnError (List ℕ)
unfolding compact_of
compact_low_s crypto der = from_option bad_der (crypto.unmarshal_der der) >>= compact_of

-- r and s of a compact signature that VerifyES256 and VerifyDigestLowS take.
unfoldable pub compact_scalars : List ℕ → Checked WebauthnError (ℕ × ℕ)
compact_scalars compact =
    let r = set_bytes (take 32 compact) in
    let s = set_bytes (drop 32 compact) in
    require (length compact == 64) bad_signature_length
    >> require (not (((leb r 0 || leb s 0) || leb n r) || leb n s)) signature_out_of_range
    >> require (not (ltb half s)) not_low_s
    >> accepted (r, s)
