-- ===== src/Arkade/ScriptNum/Signed.antt =====
-- The sign of a number in scriptNum.Bytes of pkg/arkade/scriptnum.go.
use Prim.Native.Nat.{bit_and, bit_or}
use arkade_2fa_vault_poc.Prelude.{
  ℕ, zero, suc, ◌+◌, ◌-◌, ◌*◌, ◌<◌, ◌≤◌, ◌≡◌, ◌≢◌, refl, sym, ◌∙◌, Bool, true, false, not, ◌&&◌,
  ◌||◌, some, List, [], ◌∷◌, get_elem?, length, ltb, ◌==◌, arith, if◌then◌else◌, Bool-cases, inl,
  inr,
}
use arkade_2fa_vault_poc.Prelude.Bytes.{IsByte}
use arkade_2fa_vault_poc.Arkade.Result.{Result, ok}
use arkade_2fa_vault_poc.Arkade.ScriptNum.{
  last?, sign_clear, is_minimal, sign_bytes, from_little_endian,
}
use arkade_2fa_vault_poc.Arkade.ScriptNum.Magnitude.{pow256}

-- A test on every byte.
abbrev every : ℕ → (ℕ → Bool) → Bool
every zero test = true
every (suc n) test = test n && every n test

every_sound : (n b : ℕ) (test : ℕ → Bool) → every n test ≡ true → b < n → test b ≡ true
every_sound zero b test h small = absurd (omega (arith, small))
every_sound (suc n) b test h small = elim (Bool-cases (b == n)) [
  | inl here ↦ let same : b ≡ n = ground (arith, here) in rw same (ground (arith, h))
  | inr there ↦ every_sound n b test (ground (arith, h)) (ground (arith, there, small))
]

abbrev same : Bool → Bool → Bool
same true b = b
same false b = not b

same_sound : (a b : Bool) → same a b ≡ true → a ≡ b
same_sound true true h = refl
same_sound true false h = cc
same_sound false true h = cc
same_sound false false h = refl

sign_bit : (b : ℕ) → IsByte b → (bit_and b 0x80 == 0) ≡ ltb b 128
sign_bit b h =
    same_sound _ _ (every_sound 256 b (λ b. same (bit_and b 0x80 == 0) (ltb b 128)) refl h)

low_bits : (b : ℕ) → IsByte b → (bit_and b 0x7f == 0) ≡ ((b == 0) || (b == 128))
low_bits b h =
    same_sound _ _
      (every_sound 256 b (λ b. same (bit_and b 0x7f == 0) ((b == 0) || (b == 128))) refl h)

set_bit : (b : ℕ) → IsByte b → (bit_or b 0x80 == (if ltb b 128 then b + 128 else b)) ≡ true
set_bit b h = every_sound 256 b (λ b. bit_or b 0x80 == (if ltb b 128 then b + 128 else b)) refl h

-- The weight of the sign bit.
abbrev pub sign_weight : Bool → ℕ → ℕ
sign_weight true n = 128 * pow256 (n - 1)
sign_weight false n = 0

-- The encoding of a magnitude with a sign.
pub record IsSigned (negative : Bool) (m : ℕ) (out : List ℕ) : Type 0 where
  pub top : ℕ
  pub last_is : last? out ≡ some top
  pub sign : (bit_and top 0x80 == 0) ≡ not negative
  pub value : from_little_endian out ≡ m + sign_weight negative (length out)
  pub minimal : is_minimal out ≡ true
  pub size : pow256 (length out - 1) ≤ 2 * m
  pub some_byte : 0 < length out

pub last-cons : (b x : ℕ) (rest : List ℕ) → last? (b ∷ x ∷ rest) ≡ last? (x ∷ rest)
last-cons b x rest =
    let long : (suc (suc (length rest)) == 0) ≡ false = ground arith in
    let short : (suc (length rest) == 0) ≡ false = ground arith in
    let index : suc (suc (length rest)) - 1 ≡ suc (length rest) = omega arith in
    let index' : suc (length rest) - 1 ≡ length rest = omega arith in
    rw (long, short, index, index') refl

-- The test of checkMinimalDataEncoding on a slice whose last byte is `t`.
abbrev minimal_at : List ℕ → ℕ → Bool
minimal_at v t =
    if bit_and t 0x7f == 0
    then not ((length v == 1) || sign_clear (get_elem? v (length v - 2)))
    else true

minimal_by : (v : List ℕ) (t : ℕ) → last? v ≡ some t → is_minimal v ≡ minimal_at v t
unfolding is_minimal
minimal_by v t e = rw (is_minimal, e) refl

minimal_at-cons :
    (b t : ℕ) (out : List ℕ)
    → 0 < length out
    → minimal_at out t ≡ true
    → minimal_at (b ∷ out) t ≡ true
minimal_at-cons b t [] h e = absurd (omega (arith, h))
minimal_at-cons b t (x ∷ []) h e = elim (Bool-cases (bit_and t 0x7f == 0)) [
  | inl low ↦ cc (rw low at e)
  | inr high ↦ rw high refl
]
minimal_at-cons b t (x ∷ y ∷ rest) h e =
    let long : (suc (suc (suc (length rest))) == 1) ≡ false = ground arith in
    let short : (suc (suc (length rest)) == 1) ≡ false = ground arith in
    let index : suc (suc (suc (length rest))) - 2 ≡ suc (length rest) = omega arith in
    let index' : suc (suc (length rest)) - 2 ≡ length rest = omega arith in
    rw (long, index) (rw (short, index') at e)

pub minimal-cons :
    (b t : ℕ) (out : List ℕ)
    → last? (b ∷ out) ≡ some t
    → last? out ≡ some t
    → 0 < length out
    → is_minimal out ≡ true
    → is_minimal (b ∷ out) ≡ true
minimal-cons b t out e e' h minimal =
    minimal_by (b ∷ out) t e ∙ minimal_at-cons b t out h (sym (minimal_by out t e') ∙ minimal)

-- What signing a trimmed magnitude gives.
abbrev pub Signs : Bool → List ℕ → Result (List ℕ) → Type 0
Signs negative v r = (out : List ℕ) × (r ≡ ok out) × IsSigned negative (from_little_endian v) out

module _ (negative : Bool) (b : ℕ) (small : IsByte b) where
  -- The last byte has its high bit set: one more byte carries the sign.
  pub wide : 128 ≤ b → Signs negative (b ∷ []) (sign_bytes negative (b ∷ []))
  unfolding sign_bytes from_little_endian is_minimal
  wide high =
      let bit : (bit_and b 0x80 == 0) ≡ false = sign_bit b small ∙ ground (arith, high) in
      rw bit (b ∷ (if negative then 0x80 else 0x00) ∷ [], refl, signed bit negative)
    where
      signed :
          (bit_and b 0x80 == 0) ≡ false
          → (n : Bool) → IsSigned n (b + 256 * 0) (b ∷ (if n then 0x80 else 0x00) ∷ [])
      signed bit true = record {
        top = 0x80;
        last_is = refl;
        sign = refl;
        value = omega arith;
        minimal = rw bit refl;
        size = omega (arith, high);
        some_byte = omega arith;
      }
      signed bit false = record {
        top = 0x00;
        last_is = refl;
        sign = refl;
        value = omega arith;
        minimal = rw bit refl;
        size = omega (arith, high);
        some_byte = omega arith;
      }

  -- It has not: the bit is set in it.
  pub narrow : 0 < b → b < 128 → Signs negative (b ∷ []) (sign_bytes negative (b ∷ []))
  unfolding sign_bytes from_little_endian is_minimal
  narrow some_bit low =
      let bit : (bit_and b 0x80 == 0) ≡ true = sign_bit b small ∙ ground (arith, low) in
      rw bit ((if negative then bit_or b 0x80 else b) ∷ [], refl, signed bit negative)
    where
      set : bit_or b 0x80 ≡ b + 128
      set = let e = set_bit b small in ground (arith, e, low)

      lone : (t : ℕ) → IsByte t → t ≢ 0 → t ≢ 128 → is_minimal (t ∷ []) ≡ true
      lone t h z o =
          let high : (bit_and t 0x7f == 0) ≡ false = low_bits t h ∙ ground (arith, z, o) in
          minimal_by (t ∷ []) t refl ∙ (rw high refl)

      signed :
          (bit_and b 0x80 == 0) ≡ true
          → (n : Bool) → IsSigned n (b + 256 * 0) ((if n then bit_or b 0x80 else b) ∷ [])
      signed bit true = rw set (record {
        top = b + 128;
        last_is = refl;
        sign = sign_bit (b + 128) (omega (arith, low)) ∙ ground (arith, low);
        value = omega arith;
        minimal =
            lone (b + 128) (omega (arith, low)) (λ e. absurd (omega (arith, e)))
              (λ e. absurd (omega (arith, e, some_bit)));
        size = omega (arith, some_bit);
        some_byte = omega arith;
      })
      signed bit false = record {
        top = b;
        last_is = refl;
        sign = bit;
        value = omega arith;
        minimal =
            lone b small (λ e. absurd (omega (arith, e, some_bit)))
              (λ e. absurd (omega (arith, e, low)));
        size = omega (arith, some_bit);
        some_byte = omega arith;
      }
