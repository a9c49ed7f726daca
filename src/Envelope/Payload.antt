-- ===== src/Envelope/Payload.antt =====
-- The bytes under the MAC of poc/2fa-vault/internal/policy/envelope.go determine what they are of.
use arkade_2fa_vault_poc.Prelude.{
  ℕ, ◌/◌, ◌%◌, ◌^◌, ◌<◌, ◌≡◌, refl, ap, List, [], ◌∷◌, ◌++◌, length, arith,
}
use arkade_2fa_vault_poc.Envelope.{
  CredentialEnvelope, uint32_bytes, field, credential_envelope_domain, payload,
}

head_of : List ℕ → ℕ
head_of [] = 0
head_of (x ∷ xs) = x

tail_of : List ℕ → List ℕ
tail_of [] = []
tail_of (x ∷ xs) = xs

cons_eq : (x y : ℕ) (xs ys : List ℕ) → (x ∷ xs) ≡ (y ∷ ys) → (x ≡ y) × (xs ≡ ys)
unfolding head_of tail_of
cons_eq x y xs ys h = (ap head_of h, ap tail_of h)

-- A number below 2^32 and what follows it.
uint32_bytes_eq :
    (a b : ℕ) (xs ys : List ℕ)
    → a < 2 ^ 32
    → b < 2 ^ 32
    → uint32_bytes a ++ xs ≡ uint32_bytes b ++ ys
    → (a ≡ b) × (xs ≡ ys)
uint32_bytes_eq a b xs ys low_a low_b h =
    let (p, h1) = cons_eq (a % 256) (b % 256) _ _ h in
    let (q, h2) = cons_eq (a / 256 % 256) (b / 256 % 256) _ _ h1 in
    let (r, h3) = cons_eq (a / 65536 % 256) (b / 65536 % 256) _ _ h2 in
    let (s, h4) = cons_eq (a / 16777216 % 256) (b / 16777216 % 256) _ _ h3 in
    (omega (arith, low_a, low_b, p, q, r, s), h4)

append_eq :
    (xs ys us vs : List ℕ) → length xs ≡ length ys → xs ++ us ≡ ys ++ vs → (xs ≡ ys) × (us ≡ vs)
append_eq [] [] us vs same h = (refl, h)
append_eq [] (y ∷ ys) us vs same h = absurd (omega (arith, same))
append_eq (x ∷ xs) [] us vs same h = absurd (omega (arith, same))
append_eq (x ∷ xs) (y ∷ ys) us vs same h =
    let (first, rest) = cons_eq x y (xs ++ us) (ys ++ vs) h in
    let (equal, after) = append_eq xs ys us vs (omega (arith, same)) rest in
    (rw (first, equal) refl, after)

field_eq :
    (xs ys us vs : List ℕ)
    → length xs < 2 ^ 32
    → length ys < 2 ^ 32
    → field xs us ≡ field ys vs
    → (xs ≡ ys) × (us ≡ vs)
field_eq xs ys us vs low_x low_y h =
    let (same, rest) =
      uint32_bytes_eq (length xs) (length ys) (xs ++ us) (ys ++ vs) low_x low_y h in
    append_eq xs ys us vs same rest

-- The lengths and the version are uint32 values.
pub record Fits (e : CredentialEnvelope) (id : List ℕ) : Type 0 where
  pub version : e.version < 2 ^ 32
  pub credential : length id < 2 ^ 32
  pub binding : length e.binding < 2 ^ 32
  pub nonce : length e.nonce < 2 ^ 32
  pub ciphertext : length e.ciphertext < 2 ^ 32
  pub direct_sig : length e.direct_sig < 2 ^ 32
  pub phone_sig : length e.phone_sig < 2 ^ 32

-- The same content, but for the MAC.
pub record SameContent (d e : CredentialEnvelope) : Type 0 where
  pub version : d.version ≡ e.version
  pub binding : d.binding ≡ e.binding
  pub nonce : d.nonce ≡ e.nonce
  pub ciphertext : d.ciphertext ≡ e.ciphertext
  pub direct_sig : d.direct_sig ≡ e.direct_sig
  pub phone_sig : d.phone_sig ≡ e.phone_sig

pub payload_injective :
    (d e : CredentialEnvelope) (i j : List ℕ)
    → Fits d i
    → Fits e j
    → payload d i ≡ payload e j
    → SameContent d e × (i ≡ j)
unfolding payload
payload_injective d e i j fd fe h =
    let domain = credential_envelope_domain in
    let (_, h1) = field_eq domain domain _ _ (omega arith) (omega arith) h in
    let (version, h2) = uint32_bytes_eq d.version e.version _ _ fd.version fe.version h1 in
    let (id, h3) = field_eq i j _ _ fd.credential fe.credential h2 in
    let (binding, h4) = field_eq d.binding e.binding _ _ fd.binding fe.binding h3 in
    let (nonce, h5) = field_eq d.nonce e.nonce _ _ fd.nonce fe.nonce h4 in
    let (ciphertext, h6) = field_eq d.ciphertext e.ciphertext _ _ fd.ciphertext fe.ciphertext h5 in
    let (direct, h7) = field_eq d.direct_sig e.direct_sig _ _ fd.direct_sig fe.direct_sig h6 in
    let (phone, _) = field_eq d.phone_sig e.phone_sig [] [] fd.phone_sig fe.phone_sig h7 in
    (
      record {
        version = version;
        binding = binding;
        nonce = nonce;
        ciphertext = ciphertext;
        direct_sig = direct;
        phone_sig = phone;
      },
      id,
    )
