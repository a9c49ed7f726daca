-- ===== src/Codec/Examples.antt =====
-- The text encodings at concrete inputs.
use arkade_2fa_vault_poc.Prelude.{ℕ, ◌≡◌, refl, [], ◌∷◌, length}
use arkade_2fa_vault_poc.Prelude.Bytes.{bytes_eq}
use arkade_2fa_vault_poc.Codec.Hex.{encode, decode_fixed_hex, AreBytes, decode_fixed_hex-canonical}

decode_fixed_hex-canonical_example :
    ((b'0' ∷ b'a' ∷ []) ≡ encode (10 ∷ [])) × (length {A = ℕ} (10 ∷ []) ≡ 1) × AreBytes (10 ∷ [])
unfolding decode_fixed_hex bytes_eq
decode_fixed_hex-canonical_example =
    (decode_fixed_hex-canonical (b'0' ∷ b'a' ∷ []) 1 (10 ∷ [])).0 refl
