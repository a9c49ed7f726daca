-- ===== src/Arkade/ScriptNum.antt =====
-- pkg/arkade/scriptnum.go: numbers as little-endian bytes with a sign bit.
pub mod Magnitude
pub mod Signed
pub mod RoundTrip
use Prim.Native.Nat.{bit_and, bit_or}
use arkade_2fa_vault_poc.Prelude.{
  ℕ, zero, suc, ◌+◌, ◌-◌, ◌*◌, ◌/◌, ◌%◌, ◌^◌, Bool, true, not, ◌&&◌, ◌||◌, Option, none, some, List,
  [], ◌∷◌, length, get_elem?, ltb, ◌==◌, if◌then◌else◌,
}
use arkade_2fa_vault_poc.Prelude.Int.{ℤ, pos, negsuc, pos_part, sub_ℕ, ◌-ℤ◌, ltb_ℤ, eq_ℤ, int64}
use arkade_2fa_vault_poc.Arkade.Result.{Result, ok, err, number_too_big, minimal_data, index_panic}

-- The last byte, or Go's panic on an empty slice.
abbrev pub last? : List ℕ → Option ℕ
last? v = if length v == 0 then none else get_elem? v (length v - 1)

-- `v[len(v)-2]&0x80 == 0`, for a slice of two bytes or more.
abbrev pub sign_clear : Option ℕ → Bool
sign_clear none = true
sign_clear (some b) = bit_and b 0x80 == 0

-- Whether checkMinimalDataEncoding returns nil.
unfoldable pub is_minimal : List ℕ → Bool
is_minimal v = elim (last? v) [
  | none ↦ true
  | some b ↦
      if bit_and b 0x7f == 0
      then not ((length v == 1) || sign_clear (get_elem? v (length v - 2)))
      else true
]

-- `for n > 0 { append(byte(n&0xff)); n >>= 8 }`; eight rounds are enough for an int64.
unfoldable pub magnitude_bytes : ℕ → ℕ → List ℕ
magnitude_bytes zero n = []
magnitude_bytes (suc fuel) n =
    let rest = magnitude_bytes fuel (n / 256) in if n == 0 then [] else n % 256 ∷ rest

-- The byte that carries the sign: added, or set in the last one.
unfoldable pub sign_bytes : Bool → List ℕ → Result (List ℕ)
sign_bytes negative [] = err index_panic
sign_bytes negative (b ∷ []) =
    if not (bit_and b 0x80 == 0)
    then ok (b ∷ (if negative then 0x80 else 0x00) ∷ [])
    else ok ((if negative then bit_or b 0x80 else b) ∷ [])
sign_bytes negative (b ∷ c ∷ rest) = elim (sign_bytes negative (c ∷ rest)) [
  | ok out ↦ ok (b ∷ out)
  | err e ↦ err e
]

-- scriptNum.Bytes: `-n` wraps at the least int64, and the loop is over what is positive.
unfoldable pub bytes : ℤ → Result (List ℕ)
bytes n =
    if eq_ℤ n (pos 0)
    then ok []
    else (let negative = ltb_ℤ n (pos 0) in
        sign_bytes negative
          (magnitude_bytes 8 (pos_part (if negative then int64 (pos 0 -ℤ n) else n))))

-- Int32 clamps.
unfoldable pub clamp_int32 : ℤ → ℤ
clamp_int32 n =
    if ltb_ℤ (pos (2 ^ 31 - 1)) n
    then pos (2 ^ 31 - 1)
    else if ltb_ℤ n (negsuc (2 ^ 31 - 1))
    then negsuc (2 ^ 31 - 1)
    else n

-- `result |= int64(val) << uint8(8*i)`: the shifted bytes have no common bit, so `|` adds.
unfoldable pub from_little_endian : List ℕ → ℕ
from_little_endian [] = 0
from_little_endian (b ∷ rest) = b + 256 * from_little_endian rest

-- The sign bit of the last byte is cleared and negates the number.
abbrev pub signed_value : List ℕ → Option ℕ → ℤ
signed_value v none = pos 0
signed_value v (some b) =
    if not (bit_and b 0x80 == 0)
    then sub_ℕ 0 (from_little_endian v - 0x80 * 2 ^ (8 * (length v - 1)))
    else pos (from_little_endian v)

abbrev pub max_script_num_len : ℕ
max_script_num_len = 4

-- MakeScriptNum. Its one caller passes 4 for the length, so that no shift reaches the sign of an int64.
unfoldable pub make_script_num : List ℕ → Bool → ℕ → Result ℤ
unfolding is_minimal from_little_endian
make_script_num v require_minimal script_num_len =
    if ltb script_num_len (length v)
    then err number_too_big
    else if require_minimal && not (is_minimal v)
    then err minimal_data
    else ok (signed_value v (last? v))
