-- ===== src/Arkade/ScriptNum/RoundTrip.antt =====
-- Numbers through scriptNum.Bytes and MakeScriptNum of pkg/arkade/scriptnum.go.
use Prim.Native.Nat.{bit_and}
use arkade_2fa_vault_poc.Prelude.{
  ℕ, zero, suc, ◌+◌, ◌-◌, ◌*◌, ◌^◌, ◌<◌, ◌≤◌, ◌≡◌, refl, ap, ◌∙◌, Bool, true, false, not, ◌&&◌,
  Option, some, List, [], ◌∷◌, length, ltb, leb, ◌==◌, arith, Bool-cases, inl, inr,
}
use arkade_2fa_vault_poc.Prelude.Int.{
  ℤ, pos, negsuc, pos_part, neg_part, eq_ℤ, ltb_ℤ, ◌-ℤ◌, -ℤ_parts, eq_of_parts, int64-eq_of_IsInt64,
  sub_ℕ,
}
use arkade_2fa_vault_poc.Arkade.Result.{ok}
use arkade_2fa_vault_poc.Arkade.ScriptNum.{
  last?, is_minimal, sign_bytes, magnitude_bytes, bytes, from_little_endian, signed_value,
  max_script_num_len, make_script_num,
}
use arkade_2fa_vault_poc.Arkade.ScriptNum.Magnitude.{
  pow256, pow256-positive, two_pow-pow256, IsTrimmed, last, byte, magnitude_lem,
}
use arkade_2fa_vault_poc.Arkade.ScriptNum.Signed.{
  sign_weight, IsSigned, Signs, last-cons, minimal-cons, wide, narrow,
}

weight-suc :
    (negative : Bool) (k : ℕ)
    → 256 * sign_weight negative (suc k) ≡ sign_weight negative (suc (suc k))
weight-suc true k =
    let index : suc k - 1 ≡ k = omega arith in
    let index' : suc (suc k) - 1 ≡ suc k = omega arith in rw (index, index') (omega arith)
weight-suc false k = refl

extend :
    (negative : Bool) (b x m : ℕ) (rest : List ℕ)
    → IsSigned negative m (x ∷ rest)
    → IsSigned negative (b + 256 * m) (b ∷ x ∷ rest)
unfolding from_little_endian
extend negative b x m rest s =
    let long : last? (b ∷ x ∷ rest) ≡ some s.top = last-cons b x rest ∙ s.last_is in
    let index : suc (length rest) - 1 ≡ length rest = omega arith in
    let index' : suc (suc (length rest)) - 1 ≡ suc (length rest) = omega arith in
    let size : pow256 (length rest) ≤ 2 * m = rw index at s.size in
    record {
      top = s.top;
      last_is = long;
      sign = s.sign;
      value = omega (arith, s.value, weight-suc negative (length rest));
      minimal = minimal-cons b s.top (x ∷ rest) long s.last_is (omega arith) s.minimal;
      size = rw index' (omega (arith, size));
      some_byte = omega arith;
    }

sign_bytes_lem :
    (negative : Bool) {v : List ℕ} → IsTrimmed v → Signs negative v (sign_bytes negative v)
unfolding sign_bytes from_little_endian
sign_bytes_lem negative (last b some_bit small) = elim (Bool-cases (ltb b 128)) [
  | inl low ↦ narrow negative b small some_bit (ground (arith, low))
  | inr high ↦ wide negative b small (ground (arith, high))
]
sign_bytes_lem negative (byte b c rest small t) = go (sign_bytes_lem negative t)
  where
    go :
        Signs negative (c ∷ rest) (sign_bytes negative (c ∷ rest))
        → Signs negative (b ∷ c ∷ rest) (sign_bytes negative (b ∷ c ∷ rest))
    go ([], e, s) = absurd (omega (arith, s.some_byte))
    go (x ∷ out, e, s) =
        rw e (b ∷ x ∷ out, refl, extend negative b x (from_little_endian (c ∷ rest)) out s)

short_enough : (n m : ℕ) → pow256 (n - 1) ≤ 2 * m → m < 2 ^ 31 → n ≤ 4
short_enough zero m h small = omega arith
short_enough (suc zero) m h small = omega arith
short_enough (suc (suc zero)) m h small = omega arith
short_enough (suc (suc (suc zero))) m h small = omega arith
short_enough (suc (suc (suc (suc zero)))) m h small = omega arith
short_enough (suc (suc (suc (suc (suc k))))) m h small =
    let index : suc (suc (suc (suc (suc k)))) - 1 ≡ suc (suc (suc (suc k))) = omega arith in
    absurd (omega (arith, rw index at h, small, pow256-positive k))

abbrev signed_of : Bool → ℕ → ℤ
signed_of true m = sub_ℕ 0 m
signed_of false m = pos m

signed_value_lem :
    (negative : Bool) (m top : ℕ) (out : List ℕ)
    → (bit_and top 0x80 == 0) ≡ not negative
    → from_little_endian out ≡ m + sign_weight negative (length out)
    → signed_value out (some top) ≡ signed_of negative m
signed_value_lem true m top out sign value =
    let weight : 0x80 * 2 ^ (8 * (length out - 1)) ≡ 128 * pow256 (length out - 1) =
      ap (λ (w : ℕ). 128 * w) (two_pow-pow256 (length out - 1)) in
    let rest : from_little_endian out - 0x80 * 2 ^ (8 * (length out - 1)) ≡ m =
      omega (arith, value, weight) in
    rw (sign, rest) refl
signed_value_lem false m top out sign value =
    let rest : from_little_endian out ≡ m = omega (arith, value) in rw (sign, rest) refl

read_back :
    (negative required : Bool) (m : ℕ) (out : List ℕ)
    → IsSigned negative m out
    → m < 2 ^ 31
    → make_script_num out required max_script_num_len ≡ ok (signed_of negative m)
unfolding make_script_num
read_back negative required m out s small =
    let fits : ltb 4 (length out) ≡ false =
      ground (arith, short_enough (length out) m s.size small) in
    let accepted : (required && not (is_minimal out)) ≡ false = rw s.minimal (and_false required) in
    let result : signed_value out (last? out) ≡ signed_of negative m =
      ap (λ (o : Option ℕ). signed_value out o) s.last_is
      ∙ signed_value_lem negative m s.top out s.sign s.value in
    rw (fits, accepted) (ap ok result)
  where
    and_false : (b : Bool) → (b && false) ≡ false
    and_false true = refl
    and_false false = refl

-- The bytes of a number that is not 0, by its sign and magnitude.
written :
    (negative : Bool) (m : ℕ)
    → 0 < m
    → m < 2 ^ 31
    → (out : List ℕ) × (sign_bytes negative (magnitude_bytes 8 m) ≡ ok out)
      × IsSigned negative m out
written negative m some_bit small =
    let (trimmed, value) = magnitude_lem 8 m some_bit (omega (arith, small)) in
    let (out, e, s) = sign_bytes_lem negative trimmed in (out, e, rw value at s)

bytes-pos : (n : ℕ) → bytes (pos (suc n)) ≡ sign_bytes false (magnitude_bytes 8 (suc n))
unfolding bytes
bytes-pos n =
    let some_bit : eq_ℤ (pos (suc n)) (pos 0) ≡ false = ground arith in
    let positive : ltb_ℤ (pos (suc n)) (pos 0) ≡ false = ground arith in
    rw (some_bit, positive) refl

bytes-negsuc :
    (n : ℕ) → suc n < 2 ^ 31 → bytes (negsuc n) ≡ sign_bytes true (magnitude_bytes 8 (suc n))
unfolding bytes
bytes-negsuc n small =
    let some_bit : eq_ℤ (negsuc n) (pos 0) ≡ false = ground arith in
    let negative : ltb_ℤ (negsuc n) (pos 0) ≡ true = ground arith in
    let opposite : pos 0 -ℤ negsuc n ≡ pos (suc n) =
      eq_of_parts _ _ (omega (arith, -ℤ_parts (pos 0) (negsuc n))) in
    rw (some_bit, negative, opposite, int64-eq_of_IsInt64 (pos (suc n)) (omega (arith, small))) refl

negated : (n : ℕ) → signed_of true (suc n) ≡ negsuc n
negated n =
    let below : leb (suc n) 0 ≡ false = ground arith in
    let index : suc n - 0 - 1 ≡ n = omega arith in rw (below, index) refl

-- A number of magnitude below 2^31 is written without a panic, and what is written reads back as the same
-- number, whether or not the reader requires the minimal encoding.
pub bytes-make_script_num :
    (z : ℤ) (required : Bool)
    → pos_part z + neg_part z < 2 ^ 31
    → (out : List ℕ) × (bytes z ≡ ok out) × (make_script_num out required max_script_num_len ≡ ok z)
bytes-make_script_num (pos zero) required small = ([], unfold bytes in refl, zero_back required)
  where
    zero_back : (b : Bool) → make_script_num [] b max_script_num_len ≡ ok (pos 0)
    zero_back true = unfold make_script_num is_minimal in refl
    zero_back false = unfold make_script_num in refl
bytes-make_script_num (pos (suc n)) required small =
    let (out, e, s) = written false (suc n) (omega arith) (omega (arith, small)) in
    (out, bytes-pos n ∙ e, read_back false required (suc n) out s (omega (arith, small)))
bytes-make_script_num (negsuc n) required small =
    let (out, e, s) = written true (suc n) (omega arith) (omega (arith, small)) in
    (
      out,
      bytes-negsuc n (omega (arith, small)) ∙ e,
      read_back true required (suc n) out s (omega (arith, small)) ∙ ap ok (negated n),
    )
