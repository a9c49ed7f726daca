-- ===== src/Codec/Hex.antt =====
-- hex.EncodeToString and hex.DecodeString, and decodeFixedHex of
-- poc/2fa-vault/internal/provider/session.go.
use arkade_2fa_vault_poc.Prelude.{
  ℕ, ◌+◌, ◌-◌, ◌*◌, ◌/◌, ◌%◌, ◌<◌, ◌≡◌, ◌↔◌, refl, ap, sym, Bool, true, false, not, ◌&&◌, ◌||◌,
  Option, none, some, List, [], ◌∷◌, map, length, arith, ltb, leb, ◌==◌, if◌then◌else◌, Bool-cases,
  inl, inr, All,
}
use arkade_2fa_vault_poc.Prelude.Bytes.{bytes_eq, bytes_eq_iff, bytes_eq_refl}

abbrev pub hex_digit : ℕ → ℕ
hex_digit n = if ltb n 10 then b'0' + n else b'a' + (n - 10)

-- Both cases are read.
unfoldable pub hex_value : ℕ → Option ℕ
hex_value c =
    if leb b'0' c && leb c b'9'
    then some (c - b'0')
    else if leb b'a' c && leb c b'f'
    then some (c - b'a' + 10)
    else if leb b'A' c && leb c b'F'
    then some (c - b'A' + 10)
    else none

unfoldable pub encode : List ℕ → List ℕ
encode [] = []
encode (b ∷ bytes) = hex_digit (b / 16) ∷ hex_digit (b % 16) ∷ encode bytes

abbrev pub join : Option ℕ → Option ℕ → Option (List ℕ) → Option (List ℕ)
join (some hi) (some lo) (some rest) = some ((hi * 16 + lo) ∷ rest)
join none lo rest = none
join (some hi) none rest = none
join (some hi) (some lo) none = none

unfoldable pub decode : List ℕ → Option (List ℕ)
unfolding hex_value
decode [] = some []
decode (c ∷ []) = none
decode (c ∷ d ∷ text) = join (hex_value c) (hex_value d) (decode text)

-- bytes.ToLower on ASCII.
abbrev pub to_lower : ℕ → ℕ
to_lower c = if leb b'A' c && leb c b'Z' then c + 32 else c

abbrev pub of_size : ℕ → Option (List ℕ) → Option (List ℕ)
of_size size none = none
of_size size (some raw) = if length raw == size then some raw else none

-- none is the error.
unfoldable pub decode_fixed_hex : List ℕ → ℕ → Option (List ℕ)
unfolding decode
decode_fixed_hex encoded size =
    if not (length encoded == size * 2) || not (bytes_eq encoded (map to_lower encoded))
    then none
    else of_size size (decode encoded)

abbrev pub AreBytes : List ℕ → Type 0
AreBytes = All (λ (b : ℕ). b < 256)

-- A lower-case digit is read as its value, and no other lower-case text is.
hex_value-some : (c v : ℕ) → to_lower c ≡ c → hex_value c ≡ some v → (v < 16) × (hex_digit v ≡ c)
unfolding hex_value
hex_value-some c v low h = ground (arith, low, h)

hex_value-digit : (v : ℕ) → v < 16 → hex_value (hex_digit v) ≡ some v
unfolding hex_value
hex_value-digit v h = ground (arith, h)

digits_lem : (hi lo b : ℕ) → hi < 16 → lo < 16 → hi * 16 + lo ≡ b → (b / 16 ≡ hi) × (b % 16 ≡ lo)
digits_lem hi lo b h l e = omega (arith, h, l, e)

-- Lower-case text that decodes is the encoding of what it decodes to.
decode-some :
    (text raw : List ℕ)
    → map to_lower text ≡ text
    → decode text ≡ some raw
    → (text ≡ encode raw) × AreBytes raw
unfolding decode encode
decode-some [] [] low h = (refl, tt)
decode-some [] (b ∷ raw) low h = cc
decode-some (c ∷ []) raw low h = cc
decode-some (c ∷ d ∷ text) raw low h =
    go (hex_value c) (hex_value d) (decode text) refl refl refl h (λ rest. decode-some text rest)
  where
    go :
        (hi lo : Option ℕ) (rest : Option (List ℕ))
        → hex_value c ≡ hi
        → hex_value d ≡ lo
        → decode text ≡ rest
        → join hi lo rest ≡ some raw
        → ((rest : List ℕ)
            → map to_lower text ≡ text
            → decode text ≡ some rest
            → (text ≡ encode rest) × AreBytes rest)
        → ((c ∷ d ∷ text) ≡ encode raw) × AreBytes raw
    go none lo rest p q r h again = cc
    go (some hi) none rest p q r h again = cc
    go (some hi) (some lo) none p q r h again = cc
    go (some hi) (some lo) (some rest) p q r h again =
        let low_c : to_lower c ≡ c = cc in
        let low_d : to_lower d ≡ d = cc in
        let low_text : map to_lower text ≡ text = cc in
        let (hi_fits, hi_digit) = hex_value-some c hi low_c p in
        let (lo_fits, lo_digit) = hex_value-some d lo low_d q in
        let (same, bytes) = again rest low_text r in
        let (high, low_part) = digits_lem hi lo (hi * 16 + lo) hi_fits lo_fits refl in
        let made : (hi * 16 + lo) ∷ rest ≡ raw = cc h in
        rw (← made) (
          rw (high, low_part, hi_digit, lo_digit) (ap (λ (t : List ℕ). c ∷ d ∷ t) same),
          (omega (arith, hi_fits, lo_fits), bytes),
        )

decode-encode : (raw : List ℕ) → AreBytes raw → decode (encode raw) ≡ some raw
unfolding decode encode
decode-encode [] h = refl
decode-encode (b ∷ raw) (small, h) =
    rw
      (
        hex_value-digit (b / 16) (omega (arith, small)),
        hex_value-digit (b % 16) (omega arith),
        decode-encode raw h,
      )
      (let same : b / 16 * 16 + b % 16 ≡ b = omega arith in rw same refl)

lower-digit : (v : ℕ) → v < 16 → to_lower (hex_digit v) ≡ hex_digit v
lower-digit v h = ground (arith, h)

lower-encode : (raw : List ℕ) → AreBytes raw → map to_lower (encode raw) ≡ encode raw
unfolding encode
lower-encode [] h = refl
lower-encode (b ∷ raw) (small, h) =
    rw
      (
        lower-digit (b / 16) (omega (arith, small)),
        lower-digit (b % 16) (omega arith),
        lower-encode raw h,
      )
      refl

length-encode : (raw : List ℕ) → length (encode raw) ≡ length raw * 2
unfolding encode
length-encode [] = refl
length-encode (b ∷ raw) = omega (arith, length-encode raw)

tests_lem :
    (a b : Bool) (o : Option (List ℕ)) (raw : List ℕ)
    → (if not a || not b then none else o) ≡ some raw
    → (a ≡ true) × (b ≡ true) × (o ≡ some raw)
tests_lem true true o raw h = (refl, refl, h)
tests_lem true false o raw h = cc
tests_lem false b o raw h = cc

of_size-some :
    (size : ℕ) (o : Option (List ℕ)) (raw : List ℕ)
    → of_size size o ≡ some raw
    → (o ≡ some raw) × (length raw ≡ size)
of_size-some size none raw h = cc
of_size-some size (some r) raw h = elim (Bool-cases (length r == size)) [
  | inl same ↦
      let made : some r ≡ some raw = rw same at h in
      let equal : r ≡ raw = cc made in
      let size_of : length r ≡ size = ground (arith, same) in (made, rw equal at size_of)
  | inr other ↦ let none_made : none ≡ some raw = rw other at h in cc none_made
]

-- decodeFixedHex accepts exactly the canonical encodings of the size: a text is accepted as some bytes where,
-- and only where, it is their lower-case hexadecimal encoding and they are as many as asked for.
pub decode_fixed_hex-canonical :
    (encoded : List ℕ) (size : ℕ) (raw : List ℕ)
    → (decode_fixed_hex encoded size ≡ some raw)
      ↔ ((encoded ≡ encode raw) × (length raw ≡ size) × AreBytes raw)
unfolding decode_fixed_hex
decode_fixed_hex-canonical encoded size raw = (there, back)
  where
    there :
        decode_fixed_hex encoded size ≡ some raw
        → (encoded ≡ encode raw) × (length raw ≡ size) × AreBytes raw
    there h =
        let (long, low, sized) =
          tests_lem (length encoded == size * 2) (bytes_eq encoded (map to_lower encoded))
            (of_size size (decode encoded)) raw h in
        let (read, count) = of_size-some size (decode encoded) raw sized in
        let equal : encoded ≡ map to_lower encoded =
          (bytes_eq_iff encoded (map to_lower encoded)).0 low in
        let (same, bytes) = decode-some encoded raw (sym equal) read in (same, count, bytes)

    back :
        (encoded ≡ encode raw) × (length raw ≡ size) × AreBytes raw
        → decode_fixed_hex encoded size ≡ some raw
    back (same, count, bytes) =
        let long : (length (encode raw) == size * 2) ≡ true =
          ground (arith, length-encode raw, count) in
        let sized : (length raw == size) ≡ true = ground (arith, count) in
        rw
          (
            same,
            long,
            lower-encode raw bytes,
            bytes_eq_refl (encode raw),
            decode-encode raw bytes,
            sized,
          )
          refl
