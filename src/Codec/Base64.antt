-- ===== src/Codec/Base64.antt =====
-- base64.RawURLEncoding: no padding, and a decoder that skips line ends.
use arkade_2fa_vault_poc.Prelude.{
  ℕ, ◌+◌, ◌-◌, ◌*◌, ◌/◌, ◌%◌, ◌<◌, ◌≡◌, refl, false, ◌&&◌, ◌||◌, Option, none, some, List, [], ◌∷◌,
  map, arith, ltb, leb, ◌==◌, if◌then◌else◌, All,
}

abbrev pub digit : ℕ → ℕ
digit n =
    if ltb n 26
    then b'A' + n
    else if ltb n 52
    then b'a' + (n - 26)
    else if ltb n 62
    then b'0' + (n - 52)
    else if n == 62
    then b'-'
    else b'_'

unfoldable pub value : ℕ → Option ℕ
value c =
    if leb b'A' c && leb c b'Z'
    then some (c - b'A')
    else if leb b'a' c && leb c b'z'
    then some (c - b'a' + 26)
    else if leb b'0' c && leb c b'9'
    then some (c - b'0' + 52)
    else if c == b'-'
    then some 62
    else if c == b'_'
    then some 63
    else none

-- Groups of six bits, the first bits first.
unfoldable pub sextets : List ℕ → List ℕ
sextets [] = []
sextets (a ∷ []) = a / 4 ∷ a % 4 * 16 ∷ []
sextets (a ∷ b ∷ []) = a / 4 ∷ (a % 4 * 16 + b / 16) ∷ b % 16 * 4 ∷ []
sextets (a ∷ b ∷ c ∷ bytes) =
    a / 4 ∷ (a % 4 * 16 + b / 16) ∷ (b % 16 * 4 + c / 64) ∷ c % 64 ∷ sextets bytes

unfoldable pub encode : List ℕ → List ℕ
unfolding sextets
encode bytes = map digit (sextets bytes)

abbrev pub cons : ℕ → Option (List ℕ) → Option (List ℕ)
cons v none = none
cons v (some vs) = some (v ∷ vs)

abbrev pub cons_value : Option ℕ → Option (List ℕ) → Option (List ℕ)
cons_value none vs = none
cons_value (some v) vs = cons v vs

unfoldable pub values : List ℕ → Option (List ℕ)
unfolding value
values [] = some []
values (c ∷ text) =
    let rest = values text in if (c == 10) || (c == 13) then rest else cons_value (value c) rest

-- Six bits left over are an error.
unfoldable pub joined : List ℕ → Option (List ℕ)
joined [] = some []
joined (w ∷ []) = none
joined (w ∷ x ∷ []) = some ((w * 4 + x / 16) ∷ [])
joined (w ∷ x ∷ y ∷ []) = some ((w * 4 + x / 16) ∷ (x % 16 * 16 + y / 4) ∷ [])
joined (w ∷ x ∷ y ∷ z ∷ vs) =
    cons (w * 4 + x / 16) (cons (x % 16 * 16 + y / 4) (cons (y % 4 * 64 + z) (joined vs)))

abbrev pub bind_joined : Option (List ℕ) → Option (List ℕ)
bind_joined none = none
bind_joined (some vs) = joined vs

unfoldable pub decode : List ℕ → Option (List ℕ)
unfolding values joined
decode text = bind_joined (values text)

abbrev AreSextets : List ℕ → Type 0
AreSextets = All (λ (v : ℕ). v < 64)

abbrev pub AreBytes : List ℕ → Type 0
AreBytes = All (λ (b : ℕ). b < 256)

value-digit :
    (v : ℕ) → v < 64 → (((digit v == 10) || (digit v == 13)) ≡ false) × (value (digit v) ≡ some v)
unfolding value
value-digit v h = (ground (arith, h), ground (arith, h))

values-map : (vs : List ℕ) → AreSextets vs → values (map digit vs) ≡ some vs
unfolding values
values-map [] h = refl
values-map (v ∷ vs) (small, h) =
    let (shown, read) = value-digit v small in rw (shown, read, values-map vs h) refl

sextets-AreSextets : (bytes : List ℕ) → AreBytes bytes → AreSextets (sextets bytes)
unfolding sextets
sextets-AreSextets [] h = tt
sextets-AreSextets (a ∷ []) (p, h) = (omega (arith, p), (omega (arith, p), tt))
sextets-AreSextets (a ∷ b ∷ []) (p, (q, h)) =
    (omega (arith, p), (omega (arith, p, q), (omega (arith, q), tt)))
sextets-AreSextets (a ∷ b ∷ c ∷ bytes) (p, (q, (r, h))) = (
  omega (arith, p),
  (omega (arith, p, q), (omega (arith, q, r), (omega arith, sextets-AreSextets bytes h))),
)

joined-sextets : (bytes : List ℕ) → AreBytes bytes → joined (sextets bytes) ≡ some bytes
unfolding joined sextets
joined-sextets [] h = refl
joined-sextets (a ∷ []) (p, h) =
    let first : a / 4 * 4 + a % 4 * 16 / 16 ≡ a = omega (arith, p) in rw first refl
joined-sextets (a ∷ b ∷ []) (p, (q, h)) =
    let first : a / 4 * 4 + (a % 4 * 16 + b / 16) / 16 ≡ a = omega (arith, p, q) in
    let second : (a % 4 * 16 + b / 16) % 16 * 16 + b % 16 * 4 / 4 ≡ b = omega (arith, p, q) in
    rw (first, second) refl
joined-sextets (a ∷ b ∷ c ∷ bytes) (p, (q, (r, h))) =
    let first : a / 4 * 4 + (a % 4 * 16 + b / 16) / 16 ≡ a = omega (arith, p, q) in
    let second : (a % 4 * 16 + b / 16) % 16 * 16 + (b % 16 * 4 + c / 64) / 4 ≡ b =
      omega (arith, p, q, r) in
    let third : (b % 16 * 4 + c / 64) % 4 * 64 + c % 64 ≡ c = omega (arith, q, r) in
    rw (first, second, third, joined-sextets bytes h) refl

-- What is encoded is read back.
pub decode-encode : (bytes : List ℕ) → AreBytes bytes → decode (encode bytes) ≡ some bytes
unfolding decode encode
decode-encode bytes h =
    rw (values-map (sextets bytes) (sextets-AreSextets bytes h)) (joined-sextets bytes h)
