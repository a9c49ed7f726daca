-- ===== src/Codec/BigEndian.antt =====
-- big.Int.FillBytes and SetBytes: numbers as big-endian bytes.
use arkade_2fa_vault_poc.Prelude.{
  ℕ, zero, suc, ◌+◌, ◌*◌, ◌/◌, ◌%◌, ◌<◌, ◌≡◌, refl, List, [], ◌∷◌, ◌++◌, length, length-append,
  arith,
}

-- The number in `n` bytes, for a number that fits them.
unfoldable pub fill_bytes : ℕ → ℕ → List ℕ
fill_bytes zero x = []
fill_bytes (suc n) x = fill_bytes n (x / 256) ++ x % 256 ∷ []

unfoldable pub set_bytes_from : ℕ → List ℕ → ℕ
set_bytes_from x [] = x
set_bytes_from x (b ∷ bytes) = set_bytes_from (x * 256 + b) bytes

unfoldable pub set_bytes : List ℕ → ℕ
unfolding set_bytes_from
set_bytes = set_bytes_from 0

pub length-fill_bytes : (n x : ℕ) → length (fill_bytes n x) ≡ n
unfolding fill_bytes
length-fill_bytes zero x = refl
length-fill_bytes (suc n) x =
    omega
      (arith, length-append (fill_bytes n (x / 256)) (x % 256 ∷ []), length-fill_bytes n (x / 256))

set_bytes_from-append :
    (x : ℕ) (bytes : List ℕ) (b : ℕ)
    → set_bytes_from x (bytes ++ b ∷ []) ≡ set_bytes_from x bytes * 256 + b
unfolding set_bytes_from
set_bytes_from-append x [] b = refl
set_bytes_from-append x (c ∷ bytes) b = set_bytes_from-append (x * 256 + c) bytes b

abbrev pub pow256 : ℕ → ℕ
pow256 zero = 1
pow256 (suc n) = 256 * pow256 n

pub set_bytes-fill_bytes : (n x : ℕ) → x < pow256 n → set_bytes (fill_bytes n x) ≡ x
unfolding set_bytes fill_bytes set_bytes_from
set_bytes-fill_bytes zero x h = omega (arith, h)
set_bytes-fill_bytes (suc n) x h = omega (
  arith,
  set_bytes_from-append 0 (fill_bytes n (x / 256)) (x % 256),
  set_bytes-fill_bytes n (x / 256) (omega (arith, h)),
)
