-- ===== src/Arkade/ScriptNum/Magnitude.antt =====
-- The bytes of a magnitude in scriptNum.Bytes of pkg/arkade/scriptnum.go.
use arkade_2fa_vault_poc.Prelude.{
  ℕ, zero, suc, ◌*◌, ◌/◌, ◌%◌, ◌^◌, ◌<◌, ◌≤◌, ◌≡◌, refl, List, [], ◌∷◌, ◌==◌, arith, if_cases,
  Bool-cases, inl, inr,
}
use arkade_2fa_vault_poc.Prelude.Bytes.{IsByte}
use arkade_2fa_vault_poc.Arkade.ScriptNum.{magnitude_bytes, from_little_endian}

abbrev pub pow256 : ℕ → ℕ
pow256 zero = 1
pow256 (suc n) = 256 * pow256 n

pub two_pow-pow256 : (n : ℕ) → 2 ^ (8 * n) ≡ pow256 n
two_pow-pow256 zero = refl
two_pow-pow256 (suc n) =
    let eight : 8 * suc n ≡ suc (suc (suc (suc (suc (suc (suc (suc (8 * n)))))))) = omega arith in
    rw eight (omega (arith, two_pow-pow256 n))

pub pow256-positive : (n : ℕ) → 1 ≤ pow256 n
pow256-positive zero = omega arith
pow256-positive (suc n) = omega (arith, pow256-positive n)

-- Bytes with a last one that is not 0.
pub data IsTrimmed : List ℕ → Type 0 where
  last : (b : ℕ) → 0 < b → IsByte b → IsTrimmed (b ∷ [])
  byte : (b c : ℕ) (rest : List ℕ) → IsByte b → IsTrimmed (c ∷ rest) → IsTrimmed (b ∷ c ∷ rest)

magnitude_bytes-zero : (fuel : ℕ) → magnitude_bytes fuel 0 ≡ []
unfolding magnitude_bytes
magnitude_bytes-zero zero = refl
magnitude_bytes-zero (suc fuel) = refl

pub magnitude_lem :
    (fuel n : ℕ)
    → 0 < n
    → n < pow256 fuel
    → IsTrimmed (magnitude_bytes fuel n) × (from_little_endian (magnitude_bytes fuel n) ≡ n)
unfolding magnitude_bytes from_little_endian
magnitude_lem zero n some_bit fits = absurd (omega (arith, some_bit, fits))
magnitude_lem (suc fuel) n some_bit fits =
    if_cases (λ (v : List ℕ). IsTrimmed v × (from_little_endian v ≡ n)) (n == 0)
      (λ none_left. absurd (ground (arith, none_left, some_bit)))
      (λ _. elim (Bool-cases (n / 256 == 0)) [
        | inl small ↦
            let quotient : n / 256 ≡ 0 = ground (arith, small) in
            let low : n % 256 ≡ n = omega (arith, quotient) in
            rw (quotient, magnitude_bytes-zero fuel)
              (last (n % 256) (omega (arith, low, some_bit)) (omega arith), omega (arith, low))
        | inr large ↦
            let more : 0 < n / 256 = ground (arith, large) in
            let fits' : n / 256 < pow256 fuel = omega (arith, fits) in
            let (trimmed, value) = magnitude_lem fuel (n / 256) more fits' in
            (
              prepend (n % 256) (magnitude_bytes fuel (n / 256)) (omega arith) trimmed,
              omega (arith, value),
            )
      ])
  where
    prepend : (b : ℕ) (v : List ℕ) → IsByte b → IsTrimmed v → IsTrimmed (b ∷ v)
    prepend b v h (last c some_bit' small) = byte b c [] h (last c some_bit' small)
    prepend b v h (byte c d rest small t) = byte b c (d ∷ rest) h (byte c d rest small t)
