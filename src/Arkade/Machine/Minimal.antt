-- ===== src/Arkade/Machine/Minimal.antt =====
-- checkMinimalDataPush of pkg/arkade/engine.go against the encodings that the tokenizer reads.
use arkade_2fa_vault_poc.Prelude.{
  ℕ, ◌+◌, ◌<◌, ◌≤◌, ◌≡◌, true, List, [], ◌∷◌, ◌++◌, length, length-append, leb, arith,
  if◌then◌else◌,
}
use arkade_2fa_vault_poc.Arkade.ScriptNum.{from_little_endian}
use arkade_2fa_vault_poc.Arkade.Tokenizer.Tokens.{
  pushdata1, pushdata2, pushdata4, Token, single, direct, prefixed,
}
use arkade_2fa_vault_poc.Arkade.Machine.Execute.{is_minimal_push}

abbrev pub AreBytes : List ℕ → Type 0
AreBytes [] = Unit
AreBytes (b ∷ rest) = (b < 256) × AreBytes rest

-- The bytes of a length prefix that data of length `n` needs.
abbrev prefix_length : ℕ → ℕ
prefix_length n = if leb n 75 then 0 else if leb n 255 then 1 else if leb n 65535 then 2 else 4

one_byte :
    (prefix rest : List ℕ)
    → length prefix ≡ 1
    → AreBytes (prefix ++ rest)
    → from_little_endian prefix < 256
unfolding from_little_endian
one_byte [] rest size h = ground (arith, size)
one_byte (b ∷ []) rest size (small, h) = omega (arith, small)
one_byte (b ∷ c ∷ prefix) rest size h = ground (arith, size)

two_bytes :
    (prefix rest : List ℕ)
    → length prefix ≡ 2
    → AreBytes (prefix ++ rest)
    → from_little_endian prefix < 65536
unfolding from_little_endian
two_bytes [] rest size h = ground (arith, size)
two_bytes (b ∷ []) rest size h = ground (arith, size)
two_bytes (b ∷ c ∷ []) rest size (first, (second, h)) = omega (arith, first, second)
two_bytes (b ∷ c ∷ d ∷ prefix) rest size h = ground (arith, size)

-- No token is shorter than the prefix length asks.
Token-length :
    (op : ℕ) (bytes token : List ℕ)
    → Token op bytes token
    → AreBytes token
    → 1 + prefix_length (length bytes) + length bytes ≤ length token
Token-length op bytes token (single op' plain) h = omega arith
Token-length op bytes token (direct bytes' some_byte short) h = ground (arith, short)
Token-length op bytes token (prefixed op' width prefix bytes' pushdata1 size value) (_, h) =
    let bound = one_byte prefix bytes' size h in
    ground (arith, bound, value, size, length-append prefix bytes')
Token-length op bytes token (prefixed op' width prefix bytes' pushdata2 size value) (_, h) =
    let bound = two_bytes prefix bytes' size h in
    ground (arith, bound, value, size, length-append prefix bytes')
Token-length op bytes token (prefixed op' width prefix bytes' pushdata4 size value) (_, h) =
    ground (arith, size, length-append prefix bytes')

-- The opcode that the rule asks for data of each length.
record IsRuled (op n : ℕ) : Type 0 where
  direct_push : n ≤ 75 → op ≡ n
  one : 75 < n → n ≤ 255 → op ≡ 0x4c
  two : 255 < n → n ≤ 65535 → op ≡ 0x4d

minimal_push-IsRuled :
    (op : ℕ) (bytes : List ℕ)
    → op ≤ 0x4e
    → is_minimal_push op bytes ≡ true
    → IsRuled op (length bytes)
unfolding is_minimal_push
minimal_push-IsRuled op [] push e = record {
  direct_push = λ _. ground (arith, e);
  one = λ a _. ground (arith, a);
  two = λ a _. ground (arith, a);
}
minimal_push-IsRuled op (b ∷ []) push e = record {
  direct_push = λ _. ground (arith, e, push);
  one = λ a _. ground (arith, a);
  two = λ a _. ground (arith, a);
}
minimal_push-IsRuled op (b ∷ c ∷ bytes) push e = record {
  direct_push = λ a. ground (arith, e, a);
  one = λ a z. ground (arith, e, a, z);
  two = λ a z. ground (arith, e, a, z);
}

IsRuled-length :
    (op : ℕ) (bytes token : List ℕ)
    → Token op bytes token
    → IsRuled op (length bytes)
    → length token ≤ 1 + prefix_length (length bytes) + length bytes
IsRuled-length op bytes token (single op' plain) r = omega arith
IsRuled-length op bytes token (direct bytes' some_byte short) r = ground (arith, short)
IsRuled-length op bytes token (prefixed op' width prefix bytes' pushdata1 size value) r =
    ground (arith, r.direct_push, size, length-append prefix bytes')
IsRuled-length op bytes token (prefixed op' width prefix bytes' pushdata2 size value) r =
    ground (arith, r.direct_push, r.one, size, length-append prefix bytes')
IsRuled-length op bytes token (prefixed op' width prefix bytes' pushdata4 size value) r =
    ground (arith, r.direct_push, r.one, r.two, size, length-append prefix bytes')

-- A data push that checkMinimalDataPush accepts, with an opcode up to OP_PUSHDATA4, is the shortest: every
-- other encoding in bytes of an opcode with the same data is at least as long.
pub minimal_push-shortest :
    (op : ℕ) (bytes token : List ℕ) (other : ℕ) (rival : List ℕ)
    → op ≤ 0x4e
    → Token op bytes token
    → is_minimal_push op bytes ≡ true
    → Token other bytes rival
    → AreBytes rival
    → length token ≤ length rival
minimal_push-shortest op bytes token other rival push t e t' h =
    let short = IsRuled-length op bytes token t (minimal_push-IsRuled op bytes push e) in
    let long = Token-length other bytes rival t' h in omega (arith, short, long)
