-- ===== src/Webauthn/LowS.antt =====
-- The low-S form of poc/2fa-vault/internal/webauthn: what der.go and SignDigestLowS write, p256.go takes.
use arkade_2fa_vault_poc.Prelude.Checks.{
  accepted, from_option, >>=-accepted, require-accepted, from_option-accepted,
}
use arkade_2fa_vault_poc.Prelude.{
  ℕ, ◌-◌, ◌<◌, ◌≤◌, ◌≡◌, refl, ap, sym, ◌∙◌, true, not, ◌||◌, some, List, [], ◌∷◌, ◌++◌, length,
  length-append, take, take-append, drop, drop-append, ltb, leb, ◌==◌, arith, if_cases,
}
use arkade_2fa_vault_poc.Prelude.Int.{ℤ, pos, negsuc}
use arkade_2fa_vault_poc.Codec.BigEndian.{
  fill_bytes, pow256, length-fill_bytes, set_bytes-fill_bytes,
}
use arkade_2fa_vault_poc.Webauthn.{Crypto, bad_der, trailing_bytes, r_out_of_range, s_out_of_range}
use arkade_2fa_vault_poc.Webauthn.Scalar.{
  n, half, canonical_scalar, in_range, low_s, compact_of, compact_low_s, compact_scalars,
}
use arkade_2fa_vault_poc.Webauthn.Signature.{sign_digest_low_s, verify_digest_low_s}

-- A scalar from 1 to n - 1.
abbrev pub IsScalar : ℕ → Type 0
IsScalar x = (0 < x) × (x < n)

n_fits : n ≤ pow256 32
n_fits = omega arith

low_s-IsScalar : (s : ℕ) → IsScalar s → IsScalar (low_s s) × (low_s s ≤ half)
low_s-IsScalar s (some_s, below) = ground (arith, some_s, below)

take_exact : (k : ℕ) (xs ys : List ℕ) → length xs ≡ k → take k (xs ++ ys) ≡ xs
take_exact k xs ys h = ap (λ (j : ℕ). take j (xs ++ ys)) (sym h) ∙ take-append xs ys

drop_exact : (k : ℕ) (xs ys : List ℕ) → length xs ≡ k → drop k (xs ++ ys) ≡ ys
drop_exact k xs ys h = ap (λ (j : ℕ). drop j (xs ++ ys)) (sym h) ∙ drop-append xs ys

-- The 64 bytes of two scalars, the second in the lower half, are read back as they are.
pub compact_scalars-fill :
    (r s : ℕ)
    → IsScalar r
    → IsScalar s
    → s ≤ half
    → compact_scalars (fill_bytes 32 r ++ fill_bytes 32 s) ≡ accepted (r, s)
unfolding compact_scalars
compact_scalars-fill r s (r_some, r_below) (s_some, s_below) low =
    let first = take_exact 32 (fill_bytes 32 r) (fill_bytes 32 s) (length-fill_bytes 32 r) in
    let second = drop_exact 32 (fill_bytes 32 r) (fill_bytes 32 s) (length-fill_bytes 32 r) in
    let long : (length (fill_bytes 32 r ++ fill_bytes 32 s) == 64) ≡ true = ground (
      arith,
      length-append (fill_bytes 32 r) (fill_bytes 32 s),
      length-fill_bytes 32 r,
      length-fill_bytes 32 s,
    ) in
    let ranged : not (((leb r 0 || leb s 0) || leb n r) || leb n s) ≡ true =
      ground (arith, r_some, r_below, s_some, s_below) in
    let lower : not (ltb half s) ≡ true = ground (arith, low) in
    rw
      (
        long,
        first,
        second,
        set_bytes-fill_bytes 32 r (omega (arith, r_below, n_fits)),
        set_bytes-fill_bytes 32 s (omega (arith, s_below, n_fits)),
        ranged,
        lower,
      )
      refl

-- What CompactLowS read and wrote.
pub record IsCompacted (crypto : Crypto) (der sig : List ℕ) : Type 0 where
  pub r : ℕ
  pub s : ℕ
  pub read : crypto.unmarshal_der der ≡ some ((pos r, pos s), [])
  pub r_scalar : IsScalar r
  pub s_scalar : IsScalar s
  pub size : length sig ≡ 64
  pub scalars : compact_scalars sig ≡ accepted (r, low_s s)

in_range-IsScalar : (x : ℕ) → in_range (pos x) ≡ true → IsScalar x
in_range-IsScalar x h = (ground (arith, h), ground (arith, h))

compact_of-accepted :
    (p : (ℤ × ℤ) × List ℕ) (sig : List ℕ)
    → compact_of p ≡ accepted sig
    → (r : ℕ) × (s : ℕ) × (p ≡ ((pos r, pos s), []))
      × IsScalar r
      × IsScalar s
      × (sig ≡ fill_bytes 32 r ++ fill_bytes 32 (low_s s))
unfolding compact_of
compact_of-accepted ((pos r, pos s), []) sig h =
    let (_, _, h1) = >>=-accepted (canonical_scalar (pos r)) _ sig h in
    let (_, _, h2) = >>=-accepted (canonical_scalar (pos s)) _ sig h1 in
    let (r_in, h3) = require-accepted (in_range (pos r)) r_out_of_range _ sig h2 in
    let (s_in, h4) = require-accepted (in_range (pos s)) s_out_of_range _ sig h3 in
    (r, s, refl, in_range-IsScalar r r_in, in_range-IsScalar s s_in, cc h4)
compact_of-accepted ((negsuc r, s), []) sig h = cc
compact_of-accepted ((pos r, negsuc s), []) sig h =
    let (_, _, h1) = >>=-accepted (canonical_scalar (pos r)) _ sig h in cc h1
compact_of-accepted ((r, s), b ∷ rest) sig h =
    let (ended, _) = require-accepted (length (b ∷ rest) == 0) trailing_bytes _ sig h in
    absurd (ground (arith, ended))

-- A signature that CompactLowS accepts has 64 bytes; it was DER with nothing behind it, of r and s from 1 to
-- n - 1, n the order of P-256, and it is r and s, or n - s where s is in the upper half: in the form, the
-- range and the lower half that VerifyES256 asks for.
pub compact_low_s-IsCompacted :
    (crypto : Crypto) (der sig : List ℕ)
    → compact_low_s crypto der ≡ accepted sig
    → IsCompacted crypto der sig
unfolding compact_low_s
compact_low_s-IsCompacted crypto der sig h =
    let (parsed, found, rest) =
      >>=-accepted (from_option bad_der (crypto.unmarshal_der der)) compact_of sig h in
    let read = from_option-accepted bad_der (crypto.unmarshal_der der) parsed found in
    let (r, s, same, r_scalar, s_scalar, made) = compact_of-accepted parsed sig rest in
    let (lower, half_fits) = low_s-IsScalar s s_scalar in
    record {
      r = r;
      s = s;
      read = read ∙ ap (λ (p : (ℤ × ℤ) × List ℕ). some p) same;
      r_scalar = r_scalar;
      s_scalar = s_scalar;
      size =
          ap length made
          ∙ omega (
            arith,
            length-append (fill_bytes 32 r) (fill_bytes 32 (low_s s)),
            length-fill_bytes 32 r,
            length-fill_bytes 32 (low_s s),
          );
      scalars = ap compact_scalars made ∙ compact_scalars-fill r (low_s s) r_scalar lower half_fits;
    }

-- SignDigestLowS and VerifyDigestLowS agree: the signature of a 32-byte message passes the check with the same
-- key, where ecdsa.Sign gave scalars from 1 to n - 1 that ecdsa.Verify takes, and ecdsa.Verify takes n - s
-- where it takes s.
pub verify-sign :
    (crypto : Crypto) (key : crypto.PublicKey) (message : List ℕ) (r s : ℕ)
    → IsScalar r
    → IsScalar s
    → crypto.verify key message r s ≡ true
    → crypto.verify key message r (n - s) ≡ crypto.verify key message r s
    → length message ≡ 32
    → (sig : List ℕ) × (sign_digest_low_s crypto (some (r, s)) message ≡ accepted sig)
      × (verify_digest_low_s crypto (some key) message sig ≡ accepted tt)
unfolding sign_digest_low_s verify_digest_low_s
verify-sign crypto key message r s r_scalar s_scalar valid symmetric size =
    let (lower, half_fits) = low_s-IsScalar s s_scalar in
    let sized : (length message == 32) ≡ true = ground (arith, size) in
    let low_valid : crypto.verify key message r (low_s s) ≡ true =
      if_cases (λ (x : ℕ). crypto.verify key message r x ≡ true) (ltb half s)
        (λ _. symmetric ∙ valid) (λ _. valid) in
    (
      fill_bytes 32 r ++ fill_bytes 32 (low_s s),
      rw sized refl,
      rw (sized, compact_scalars-fill r (low_s s) r_scalar lower half_fits, low_valid) refl,
    )
