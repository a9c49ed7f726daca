-- ===== src/Arkade/Tokenizer/Tokens.antt =====
-- What ScriptTokenizer.Next of pkg/arkade/tokenizer.go accepts: the encodings of opcodes and pushes.
use arkade_2fa_vault_poc.Prelude.{
  ℕ, suc, ◌+◌, ◌-◌, ◌^◌, ◌<◌, ◌≤◌, ◌≡◌, refl, Bool, true, false, ◌&&◌, ◌||◌, Option, none, some,
  List, [], ◌∷◌, ◌++◌, length, length-append, take, drop, take-append, drop-append, ltb, leb, ◌==◌,
  arith,
}
use arkade_2fa_vault_poc.Prelude.Int.{ℤ, pos, negsuc, int32, int32-add, int32-eq_of_IsInt32, ltb_ℤ}
use arkade_2fa_vault_poc.Arkade.ScriptNum.{from_little_endian}
use arkade_2fa_vault_poc.Arkade.Tokenizer.{ScriptTokenizer, op_length, data_len, next_data, next_op}

-- The opcode of a push with a length prefix of this many bytes.
pub data Width : ℕ → ℕ → Type 0 where
  pushdata1 : Width 0x4c 1
  pushdata2 : Width 0x4d 2
  pushdata4 : Width 0x4e 4

-- `Token op data bytes`: the bytes encode the opcode with that data.
pub data Token : ℕ → List ℕ → List ℕ → Type 0 where
  single : (op : ℕ) → (leb 0x01 op && leb op 0x4e) ≡ false → Token op [] (op ∷ [])
  direct :
      (bytes : List ℕ)
      → 0 < length bytes
      → length bytes ≤ 75
      → Token (length bytes) bytes (length bytes ∷ bytes)
  prefixed :
      (op width : ℕ) (prefix bytes : List ℕ)
      → Width op width
      → length prefix ≡ width
      → from_little_endian prefix ≡ length bytes
      → Token op bytes (op ∷ (prefix ++ bytes))

-- A tokenizer that has met no error, at a position.
abbrev pub tokenizer_at : ℕ → List ℕ → ℕ → ℤ → Option ℕ → List ℕ → ScriptTokenizer
tokenizer_at version script i count op bytes = record {
  script = script;
  version = version;
  offset = pos i;
  opcode_pos = count;
  op = op;
  bytes = bytes;
  failure = none;
}

module _ (version : ℕ) (script : List ℕ) (i : ℕ) (count : ℤ) (old : Option ℕ)
    (before : List ℕ) where
  abbrev pub here : ScriptTokenizer
  here = tokenizer_at version script i count old before

  abbrev pub moved : ℕ → List ℕ → ℕ → Bool × ScriptTokenizer
  moved op bytes n = (true, tokenizer_at version script (i + n) count (some op) bytes)

  pub next_single :
      (op : ℕ) (rest : List ℕ)
      → (leb 0x01 op && leb op 0x4e) ≡ false
      → i + 1 < 2 ^ 31
      → next_op op rest (op_length op) here ≡ moved op [] 1
  unfolding next_op op_length
  next_single op rest plain fits =
      let one : op_length op ≡ pos 1 = unfold op_length in ground (arith, plain) in
      rw (one, int32-add i 1 fits) refl

  pub next_direct :
      (bytes post : List ℕ)
      → 0 < length bytes
      → length bytes ≤ 75
      → i + (length bytes + 1) < 2 ^ 31
      → next_op (length bytes) (bytes ++ post) (op_length (length bytes)) here
        ≡ moved (length bytes) bytes (length bytes + 1)
  unfolding next_op op_length
  next_direct bytes post some_byte short fits =
      let sized : op_length (length bytes) ≡ pos (length bytes + 1) =
        ground (arith, some_byte, short) in
      let back : length bytes + 1 - 1 ≡ length bytes = omega arith in
      let not_one : (length bytes + 1 == 1) ≡ false = ground (arith, some_byte) in
      let not_zero : (length bytes + 1 == 0) ≡ false = ground arith in
      let enough : ltb (suc (length (bytes ++ post))) (length bytes + 1) ≡ false =
        ground (arith, length-append bytes post) in
      rw
        (
          sized,
          not_one,
          not_zero,
          enough,
          back,
          take-append bytes post,
          int32-add i (length bytes + 1) fits,
        )
        refl

  next_pushed :
      (op width : ℕ) (bytes post : List ℕ)
      → i + (1 + width + length bytes) < 2 ^ 31
      → length bytes + length post < 2 ^ 31
      → next_data op width (some (pos (length bytes))) (bytes ++ post) here
        ≡ moved op bytes (1 + width + length bytes)
  unfolding next_data
  next_pushed op width bytes post fits whole =
      let total : int32 (pos (length (bytes ++ post))) ≡ pos (length bytes + length post) =
        rw (length-append bytes post)
          (int32-eq_of_IsInt32 (pos (length bytes + length post)) (omega (arith, whole))) in
      let enough : ltb_ℤ (pos (length bytes + length post)) (pos (length bytes)) ≡ false =
        ground arith in
      let positive : ltb_ℤ (pos (length bytes)) (pos 0) ≡ false = ground arith in
      rw
        (
          total,
          enough,
          positive,
          int32-add 1 width (omega (arith, fits)),
          int32-add (1 + width) (length bytes) (omega (arith, fits)),
          int32-add i (1 + width + length bytes) fits,
          take-append bytes post,
        )
        refl

  pub next_prefixed :
      (op k : ℕ) (prefix bytes post : List ℕ)
      → op_length op ≡ negsuc k
      → ((suc k == 1) || (suc k == 2) || (suc k == 4)) ≡ true
      → length prefix ≡ suc k
      → from_little_endian prefix ≡ length bytes
      → i + (1 + suc k + length bytes) < 2 ^ 31
      → length bytes + length post < 2 ^ 31
      → next_op op (prefix ++ (bytes ++ post)) (op_length op) here
        ≡ moved op bytes (1 + suc k + length bytes)
  unfolding next_op
  next_prefixed op k prefix bytes post sized known width value fits whole =
      let enough : ltb (length (prefix ++ (bytes ++ post))) (suc k) ≡ false =
        ground (arith, width, length-append prefix (bytes ++ post)) in
      let taken : take (suc k) (prefix ++ (bytes ++ post)) ≡ prefix =
        rw (← width) (take-append prefix (bytes ++ post)) in
      let left : drop (suc k) (prefix ++ (bytes ++ post)) ≡ bytes ++ post =
        rw (← width) (drop-append prefix (bytes ++ post)) in
      let counted : data_len (suc k) (prefix ++ (bytes ++ post)) ≡ some (pos (length bytes)) =
        unfold data_len in
        rw (known, taken, value, int32-eq_of_IsInt32 (pos (length bytes)) (omega (arith, whole)))
          refl in
      rw (sized, enough, counted, left) (next_pushed op (suc k) bytes post fits whole)
