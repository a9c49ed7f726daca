-- ===== src/Arkade/Tokenizer/RoundTrip.antt =====
-- Encoded scripts through ScriptTokenizer of pkg/arkade/tokenizer.go.
use mathlib.Core.List.{append_assoc, append-nil}
use arkade_2fa_vault_poc.Prelude.{
  ℕ, zero, suc, ◌+◌, ◌^◌, ◌<◌, ◌≤◌, ◌≡◌, refl, ap, ◌∙◌, true, false, ◌||◌, Option, none, some, List,
  [], ◌∷◌, ◌++◌, length, length-append, drop-append, ◌==◌, arith,
}
use arkade_2fa_vault_poc.Prelude.Int.{ℤ, pos, negsuc, ◌+ℤ◌, int32, int32-eq_of_IsInt32}
use arkade_2fa_vault_poc.Arkade.ScriptNum.{from_little_endian}
use arkade_2fa_vault_poc.Arkade.Tokenizer.{
  ScriptTokenizer, op_length, done, next_at, next, make_script_tokenizer, tokenize,
  check_script_parses,
}
use arkade_2fa_vault_poc.Arkade.Tokenizer.Tokens.{
  pushdata1, pushdata2, pushdata4, Token, single, direct, prefixed, tokenizer_at, next_single,
  next_direct, next_prefixed,
}

pub not_done :
    (version : ℕ) (script : List ℕ) (i : ℕ) (count : ℤ) (old : Option ℕ) (before : List ℕ)
    → i < length script
    → length script < 2 ^ 31
    → done (tokenizer_at version script i count old before) ≡ false
unfolding done
not_done version script i count old before inside short =
    rw (int32-eq_of_IsInt32 (pos (length script)) (omega (arith, short))) (ground (arith, inside))

pub at_end :
    (version : ℕ) (script : List ℕ) (count : ℤ) (old : Option ℕ) (before : List ℕ)
    → length script < 2 ^ 31
    → done (tokenizer_at version script (length script) count old before) ≡ true
unfolding done
at_end version script count old before short =
    rw (int32-eq_of_IsInt32 (pos (length script)) (omega (arith, short))) (ground arith)

module _ (version : ℕ) (script : List ℕ) (i : ℕ) (count : ℤ) (old : Option ℕ)
    (before : List ℕ) where
  next_at-Token :
      (op : ℕ) (bytes enc post : List ℕ)
      → Token op bytes enc
      → i + length enc + length post < 2 ^ 31
      → next_at (enc ++ post) (tokenizer_at version script i count old before)
        ≡ (true, tokenizer_at version script (i + length enc) count (some op) bytes)
  next_at-Token op bytes enc post token short = go token short
    where
      sized :
          {op : ℕ} (k : ℕ) (prefix bytes : List ℕ)
          → op_length op ≡ negsuc k
          → ((suc k == 1) || (suc k == 2) || (suc k == 4)) ≡ true
          → length prefix ≡ suc k
          → from_little_endian prefix ≡ length bytes
          → i + suc (length (prefix ++ bytes)) + length post < 2 ^ 31
          → next_at
              (op ∷ ((prefix ++ bytes) ++ post))
              (tokenizer_at version script i count old before)
            ≡ (
              true,
              tokenizer_at version script
                  (i + suc (length (prefix ++ bytes)))
                  count
                  (some op)
                  bytes,
            )
      sized {op} k prefix bytes long known width value fits =
          let total : suc (length (prefix ++ bytes)) ≡ 1 + suc k + length bytes =
            omega (arith, width, length-append prefix bytes) in
          rw (total, append_assoc prefix bytes post)
            (next_prefixed version script i count old before op k prefix bytes post long known width
              value (omega (arith, fits, total)) (omega (arith, fits, total)))

      go :
          {op : ℕ} {bytes enc : List ℕ}
          → Token op bytes enc
          → i + length enc + length post < 2 ^ 31
          → next_at (enc ++ post) (tokenizer_at version script i count old before)
            ≡ (true, tokenizer_at version script (i + length enc) count (some op) bytes)
      go (single op plain) fits =
          next_single version script i count old before op post plain (omega (arith, fits))
      go (direct bytes some_byte small) fits =
          let one : suc (length bytes) ≡ length bytes + 1 = omega arith in
          rw one (
            next_direct version script i count old before bytes post some_byte small
              (omega (arith, fits)))
      go (prefixed op width prefix bytes pushdata1 n v) fits =
          sized 0 prefix bytes (unfold op_length in refl) refl n v fits
      go (prefixed op width prefix bytes pushdata2 n v) fits =
          sized 1 prefix bytes (unfold op_length in refl) refl n v fits
      go (prefixed op width prefix bytes pushdata4 n v) fits =
          sized 3 prefix bytes (unfold op_length in refl) refl n v fits

pub Token-length : {op : ℕ} {bytes enc : List ℕ} → Token op bytes enc → 0 < length enc
Token-length (single op plain) = omega arith
Token-length (direct bytes some_byte small) = omega arith
Token-length (prefixed op width prefix bytes w n v) = omega arith

-- Where an encoded opcode stands at the position of a tokenizer that has met no error, in a script of fewer
-- than 2^31 bytes, Next returns true, reports that opcode with its data, and moves just behind it.
pub next-Token :
    (version : ℕ) (pre enc post : List ℕ) (op : ℕ) (bytes : List ℕ) (count : ℤ) (old : Option ℕ)
    (before : List ℕ)
    → Token op bytes enc
    → length (pre ++ (enc ++ post)) < 2 ^ 31
    → next (tokenizer_at version (pre ++ (enc ++ post)) (length pre) count old before) ≡ (
      true,
      tokenizer_at version
          (pre ++ (enc ++ post))
          (length pre + length enc)
          (int32 (count +ℤ pos 1))
          (some op)
          bytes,
    )
unfolding next
next-Token version pre enc post op bytes count old before token short =
    let total : length (pre ++ (enc ++ post)) ≡ length pre + (length enc + length post) =
      length-append pre (enc ++ post) ∙ ap (λ (n : ℕ). length pre + n) (length-append enc post) in
    rw
      (
        not_done version (pre ++ (enc ++ post)) (length pre) count old before
            (omega (arith, total, Token-length token)) short,
        drop-append pre (enc ++ post),
      )
      (next_at-Token version (pre ++ (enc ++ post)) (length pre) (int32 (count +ℤ pos 1)) old before
        op bytes enc post token (omega (arith, short, total)))

-- A script made of encoded opcodes.
pub data Encoded : List (ℕ × List ℕ) → List ℕ → Type 0 where
  nothing : Encoded [] []
  opcode_first :
      {op : ℕ} {bytes enc : List ℕ} {tokens : List (ℕ × List ℕ)} {script : List ℕ}
      → Token op bytes enc
      → Encoded tokens script
      → Encoded ((op, bytes) ∷ tokens) (enc ++ script)

Encoded-length :
    {tokens : List (ℕ × List ℕ)} {script : List ℕ}
    → Encoded tokens script
    → length tokens ≤ length script
Encoded-length nothing = omega arith
Encoded-length (opcode_first {op} {bytes} {enc} {tokens} {script} token rest) =
    omega (arith, Token-length token, Encoded-length rest, length-append enc script)

abbrev Reads : ℕ → List (ℕ × List ℕ) → ScriptTokenizer → Type 0
Reads n tokens t = ((tokenize n t).0 ≡ tokens) × ((tokenize n t).1.failure ≡ none)

module _ (version : ℕ) where
  tokenize-Reads :
      {tokens : List (ℕ × List ℕ)} {rest : List ℕ}
      → Encoded tokens rest
      → (n : ℕ) (pre : List ℕ) (count : ℤ) (old : Option ℕ) (before : List ℕ) → length tokens < n
      → length (pre ++ rest) < 2 ^ 31
      → Reads n tokens (tokenizer_at version (pre ++ rest) (length pre) count old before)
  unfolding tokenize next
  tokenize-Reads e zero pre count old before fuel short = absurd (omega (arith, fuel))
  tokenize-Reads nothing (suc n) pre count old before fuel short =
      rw (append-nil pre)
        (rw (at_end version pre count old before (rw (append-nil pre) at short)) (refl, refl))
  tokenize-Reads (opcode_first {op} {bytes} {enc} {tokens} {script} token e) (suc n) pre count old
        before fuel short =
      let one = next-Token version pre enc script op bytes count old before token short in
      let whole : length ((pre ++ enc) ++ script) < 2 ^ 31 =
        rw (append_assoc pre enc script) short in
      let later =
        tokenize-Reads e n (pre ++ enc) (int32 (count +ℤ pos 1)) (some op) bytes
          (omega (arith, fuel)) whole in
      let (same, clean) = rw (append_assoc pre enc script, length-append pre enc) at later in
      rw one (ap (λ (ts : List (ℕ × List ℕ)). (op, bytes) ∷ ts) same, clean)

-- A script of fewer than 2^31 bytes made of encoded opcodes is read back: in as many rounds as it has opcodes
-- and one more, Next yields exactly those opcodes with their data and then stops without an error, and
-- checkScriptParses accepts the script.
pub tokenize-Encoded :
    (tokens : List (ℕ × List ℕ)) (script : List ℕ) (n : ℕ)
    → Encoded tokens script
    → length tokens < n
    → length script < 2 ^ 31
    → ((tokenize n (make_script_tokenizer 0 script)).0 ≡ tokens)
      × (check_script_parses 0 script ≡ none)
unfolding check_script_parses
tokenize-Encoded tokens script n e fuel short =
    let (same, _) = tokenize-Reads 0 e n [] (negsuc 0) none [] fuel short in
    let (_, clean) =
      tokenize-Reads 0 e (suc (length script)) [] (negsuc 0) none []
        (omega (arith, Encoded-length e)) short in
    (same, clean)
