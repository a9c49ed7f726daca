-- ===== src/Webauthn/Authentic.antt =====
-- What Validate of poc/2fa-vault/internal/webauthn/assert.go accepts.
use arkade_2fa_vault_poc.Prelude.Checks.{
  accepted, from_option, >>=-accepted, require-accepted, from_option-accepted, accepted-eq,
  require-true,
}
use arkade_2fa_vault_poc.Prelude.{
  ℕ, ◌/◌, ◌%◌, ◌≤◌, ◌≡◌, ◌↔◌, refl, ap, sym, ◌∙◌, Bool, true, false, not, Option, none, some, List,
  length, get_elem?, take, drop, ltb, ◌==◌, arith,
}
use arkade_2fa_vault_poc.Prelude.Bytes.{bytes_eq, bytes_eq_iff, bytes_eq_refl}
use arkade_2fa_vault_poc.Codec.Base64.{decode}
use arkade_2fa_vault_poc.Codec.BigEndian.{set_bytes}
use arkade_2fa_vault_poc.Webauthn.{
  Crypto, ClientData, unknown_credential, bad_registered_key, bad_challenge_length,
  short_authenticator_data, bad_client_data, bad_type, bad_origin, cross_origin,
  bad_challenge_encoding, challenge_mismatch, rp_id_mismatch, no_user_presence,
  no_user_verification,
}
use arkade_2fa_vault_poc.Webauthn.Scalar.{compact_low_s}
use arkade_2fa_vault_poc.Webauthn.Signature.{parse_compressed_p256, verify_es256}
use arkade_2fa_vault_poc.Webauthn.Assert.{
  Assertion, Expected, Verified, webauthn_get, is_same_origin, has_user_presence,
  has_user_verification, check_client_data, check_authenticator_data, validate,
}

-- The assertion is of the expected credential, key and challenge, for the origin and the relying party, made by a
-- user who was present and verified, and signed.
pub record IsAuthentic (crypto : Crypto) (a : Assertion) (exp : Expected) (v : Verified)
    : Type 0 where
  pub credential : a.credential_id ≡ exp.credential_id
  pub key_size : length exp.webauthn_p256 ≡ 33
  pub challenge_size : length exp.challenge ≡ 32
  pub data_size : 37 ≤ length a.authenticator_data
  pub parsed : crypto.unmarshal_client_data a.client_data_json ≡ some v.client_data
  pub kind : v.client_data.kind ≡ webauthn_get
  pub origin : v.client_data.origin ≡ exp.origin
  pub same_origin : v.client_data.cross_origin ≡ some false
  pub challenge : decode v.client_data.challenge ≡ some exp.challenge
  pub relying_party : take 32 a.authenticator_data ≡ crypto.sha256 exp.rp_id
  pub flags : ℕ
  pub flags_at : get_elem? a.authenticator_data 32 ≡ some flags
  pub present : flags % 2 ≡ 1
  pub verified : flags / 4 % 2 ≡ 1
  pub compacted : compact_low_s crypto a.der_signature ≡ accepted v.compact_sig
  pub key : crypto.PublicKey
  pub key_parsed : parse_compressed_p256 crypto exp.webauthn_p256 ≡ accepted key
  pub signed :
      verify_es256 crypto (some key) a.authenticator_data a.client_data_json v.compact_sig
      ≡ accepted tt
  pub assertion : v.assertion ≡ a
  pub counted : v.sign_count ≡ set_bytes (take 4 (drop 33 a.authenticator_data))

same_origin-some : (o : Option Bool) → is_same_origin o ≡ true → o ≡ some false
same_origin-some none h = cc
same_origin-some (some true) h = cc
same_origin-some (some false) h = refl

flags_lem :
    (o : Option ℕ)
    → has_user_presence o ≡ true
    → has_user_verification o ≡ true
    → (flags : ℕ) × (o ≡ some flags) × (flags % 2 ≡ 1) × (flags / 4 % 2 ≡ 1)
flags_lem none p q = cc
flags_lem (some flags) p q = (flags, refl, ground (arith, p), ground (arith, q))

abbrev verified_of : Assertion → List ℕ → ClientData → Verified
verified_of a compact cd = record {
  assertion = a;
  compact_sig = compact;
  client_data = cd;
  sign_count = set_bytes (take 4 (drop 33 a.authenticator_data));
}

-- What the client data that pass are.
abbrev pub IsExpectedData : ClientData → Expected → Type 0
IsExpectedData cd exp =
    (cd.kind ≡ webauthn_get)
    × (cd.origin ≡ exp.origin)
    × (cd.cross_origin ≡ some false)
    × (decode cd.challenge ≡ some exp.challenge)

check_client_data-accepted :
    (crypto : Crypto) (cd : ClientData) (exp : Expected) (u : Unit {0})
    → check_client_data crypto cd exp ≡ accepted u
    → IsExpectedData cd exp
unfolding check_client_data
check_client_data-accepted crypto cd exp u h =
    let (kind, h1) = require-accepted (bytes_eq cd.kind webauthn_get) bad_type _ u h in
    let (origin, h2) = require-accepted (bytes_eq cd.origin exp.origin) bad_origin _ u h1 in
    let (same, h3) = require-accepted (is_same_origin cd.cross_origin) cross_origin _ u h2 in
    let (got, found, h4) =
      >>=-accepted (from_option bad_challenge_encoding (decode cd.challenge)) _ u h3 in
    let matched = require-true (bytes_eq got exp.challenge) challenge_mismatch u h4 in
    (
      (bytes_eq_iff cd.kind webauthn_get).0 kind,
      (bytes_eq_iff cd.origin exp.origin).0 origin,
      same_origin-some cd.cross_origin same,
      from_option-accepted bad_challenge_encoding (decode cd.challenge) got found
          ∙ ap (λ (c : List ℕ). some c) ((bytes_eq_iff got exp.challenge).0 matched),
    )

check_authenticator_data-accepted :
    (crypto : Crypto) (auth : List ℕ) (exp : Expected) (u : Unit {0})
    → check_authenticator_data crypto auth exp ≡ accepted u
    → (take 32 auth ≡ crypto.sha256 exp.rp_id)
      × (flags : ℕ) × (get_elem? auth 32 ≡ some flags)
      × (flags % 2 ≡ 1)
      × (flags / 4 % 2 ≡ 1)
unfolding check_authenticator_data
check_authenticator_data-accepted crypto auth exp u h =
    let (party, h1) =
      require-accepted (bytes_eq (take 32 auth) (crypto.sha256 exp.rp_id)) rp_id_mismatch _ u h in
    let (present, h2) =
      require-accepted (has_user_presence (get_elem? auth 32)) no_user_presence _ u h1 in
    let verified =
      require-true (has_user_verification (get_elem? auth 32)) no_user_verification u h2 in
    let (flags, at, up, uv) = flags_lem (get_elem? auth 32) present verified in
    ((bytes_eq_iff (take 32 auth) (crypto.sha256 exp.rp_id)).0 party, flags, at, up, uv)

validate_sound :
    (crypto : Crypto) (a : Assertion) (exp : Expected) (v : Verified)
    → validate crypto a exp ≡ accepted v
    → IsAuthentic crypto a exp v
unfolding validate check_client_data check_authenticator_data
validate_sound crypto a exp v h =
    let (credential, h1) =
      require-accepted (bytes_eq a.credential_id exp.credential_id) unknown_credential _ v h in
    let (key_size, h2) =
      require-accepted (length exp.webauthn_p256 == 33) bad_registered_key _ v h1 in
    let (challenge_size, h3) =
      require-accepted (length exp.challenge == 32) bad_challenge_length _ v h2 in
    let (data_size, h4) =
      require-accepted (not (ltb (length a.authenticator_data) 37)) short_authenticator_data _ v
        h3 in
    let (cd, found, h5) =
      >>=-accepted (from_option bad_client_data (crypto.unmarshal_client_data a.client_data_json)) _
        v h4 in
    let (_, client, h6) = >>=-accepted (check_client_data crypto cd exp) _ v h5 in
    let (_, auth, h7) =
      >>=-accepted (check_authenticator_data crypto a.authenticator_data exp) _ v h6 in
    let (compact, compacted, h8) = >>=-accepted (compact_low_s crypto a.der_signature) _ v h7 in
    let (key, key_parsed, h9) =
      >>=-accepted (parse_compressed_p256 crypto exp.webauthn_p256) _ v h8 in
    let (_, signed, h10) =
      >>=-accepted (verify_es256 crypto (some key) a.authenticator_data a.client_data_json compact)
        _ v h9 in
    let (kind, origin, same_origin, challenge) =
      check_client_data-accepted crypto cd exp _ client in
    let (relying_party, flags, flags_at, present, verified) =
      check_authenticator_data-accepted crypto a.authenticator_data exp _ auth in
    let made = accepted-eq (verified_of a compact cd) v h10 in
    let authentic : IsAuthentic crypto a exp (verified_of a compact cd) = record {
      credential = (bytes_eq_iff a.credential_id exp.credential_id).0 credential;
      key_size = ground (arith, key_size);
      challenge_size = ground (arith, challenge_size);
      data_size = ground (arith, data_size);
      parsed =
          from_option-accepted bad_client_data (crypto.unmarshal_client_data a.client_data_json) cd
            found;
      kind = kind;
      origin = origin;
      same_origin = same_origin;
      challenge = challenge;
      relying_party = relying_party;
      flags = flags;
      flags_at = flags_at;
      present = present;
      verified = verified;
      compacted = compacted;
      key = key;
      key_parsed = key_parsed;
      signed = signed;
      assertion = refl;
      counted = refl;
    } in
    rw (← made) authentic

validate_complete :
    (crypto : Crypto) (a : Assertion) (exp : Expected) (v : Verified)
    → IsAuthentic crypto a exp v
    → validate crypto a exp ≡ accepted v
unfolding validate check_client_data check_authenticator_data
validate_complete crypto a exp v h =
    let key_size : (length exp.webauthn_p256 == 33) ≡ true = ground (arith, h.key_size) in
    let challenge_size : (length exp.challenge == 32) ≡ true = ground (arith, h.challenge_size) in
    let data_size : not (ltb (length a.authenticator_data) 37) ≡ true =
      ground (arith, h.data_size) in
    let same_origin : is_same_origin v.client_data.cross_origin ≡ true =
      ap is_same_origin h.same_origin in
    let present : has_user_presence (get_elem? a.authenticator_data 32) ≡ true =
      rw h.flags_at (ground (arith, h.present)) in
    let verified : has_user_verification (get_elem? a.authenticator_data 32) ≡ true =
      rw h.flags_at (ground (arith, h.verified)) in
    let made : verified_of a v.compact_sig v.client_data ≡ v =
      λ i. record v { assertion = sym h.assertion i; sign_count = sym h.counted i } in
    rw
      (
        (bytes_eq_iff a.credential_id exp.credential_id).1 h.credential,
        key_size,
        challenge_size,
        data_size,
        h.parsed,
        (bytes_eq_iff v.client_data.kind webauthn_get).1 h.kind,
        (bytes_eq_iff v.client_data.origin exp.origin).1 h.origin,
        same_origin,
        h.challenge,
        bytes_eq_refl exp.challenge,
        (bytes_eq_iff (take 32 a.authenticator_data) (crypto.sha256 exp.rp_id)).1 h.relying_party,
        present,
        verified,
        h.compacted,
        h.key_parsed,
        h.signed,
      )
      (ap (λ (x : Verified). accepted x) made)

-- Validate accepts exactly the authentic assertions, and returns what it has checked: of the expected credential,
-- with client data of type webauthn.get for the origin, not crossed, with the expected challenge, with the
-- hash of the relying party and the flags of presence and verification, and with a signature whose low-S form
-- the registered key verifies.
pub validate-IsAuthentic :
    (crypto : Crypto) (a : Assertion) (exp : Expected) (v : Verified)
    → (validate crypto a exp ≡ accepted v) ↔ IsAuthentic crypto a exp v
validate-IsAuthentic crypto a exp v =
    (validate_sound crypto a exp v, validate_complete crypto a exp v)
