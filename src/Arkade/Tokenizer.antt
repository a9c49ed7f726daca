-- ===== src/Arkade/Tokenizer.antt =====
-- pkg/arkade/tokenizer.go, and checkScriptParses of engine.go.
pub mod Tokens
pub mod RoundTrip
pub mod Progress
use arkade_2fa_vault_poc.Prelude.{
  ℕ, zero, suc, ◌+◌, ◌-◌, Bool, true, false, ◌&&◌, ◌||◌, Option, none, some, List, [], ◌∷◌, length,
  take, drop, ltb, leb, ◌==◌, if◌then◌else◌,
}
use arkade_2fa_vault_poc.Prelude.Int.{ℤ, pos, negsuc, pos_part, ◌+ℤ◌, ltb_ℤ, leb_ℤ, int32}
use arkade_2fa_vault_poc.Arkade.Result.{ErrorCode, malformed_push, unsupported_version, index_panic}
use arkade_2fa_vault_poc.Arkade.ScriptNum.{from_little_endian}

-- `op` is the value of the opcode, none before the first one.
pub record ScriptTokenizer : Type 0 where
  pub script : List ℕ
  pub version : ℕ
  pub offset : ℤ
  pub opcode_pos : ℤ
  pub op : Option ℕ
  pub bytes : List ℕ
  pub failure : Option ErrorCode

-- The length column of opcodeArray.
unfoldable pub op_length : ℕ → ℤ
op_length op =
    if leb 0x01 op && leb op 0x4b
    then pos (op + 1)
    else if op == 0x4c
    then negsuc 0
    else if op == 0x4d
    then negsuc 1
    else if op == 0x4e
    then negsuc 3
    else pos 1

abbrev pub is_failed : Option ErrorCode → Bool
is_failed none = false
is_failed (some e) = true

unfoldable pub done : ScriptTokenizer → Bool
done t = is_failed t.failure || leb_ℤ (int32 (pos (length t.script))) t.offset

abbrev pub Step : Type 0
Step = Bool × ScriptTokenizer

abbrev pub stop : ErrorCode → ScriptTokenizer → Step
stop e t = (false, record t { failure = some e })

abbrev pub advance : ℕ → ℤ → List ℕ → ScriptTokenizer → Step
advance op offset bytes t = (true, record t { offset = offset; op = some op; bytes = bytes })

-- The length of a push of OP_PUSHDATA1, 2 or 4, by the width of its prefix.
unfoldable pub data_len : ℕ → List ℕ → Option ℤ
data_len width script =
    if (width == 1) || (width == 2) || (width == 4)
    then some (int32 (pos (from_little_endian (take width script))))
    else none

-- `script` is what follows the prefix.
unfoldable pub next_data : ℕ → ℕ → Option ℤ → List ℕ → ScriptTokenizer → Step
next_data op width none script t = stop malformed_push t
next_data op width (some n) script t =
    if ltb_ℤ (int32 (pos (length script))) n || ltb_ℤ n (pos 0)
    then stop malformed_push t
    else advance op (int32 (t.offset +ℤ int32 (int32 (pos 1 +ℤ pos width) +ℤ n)))
        (take (pos_part n) script) t

-- `script` is what follows the opcode. A length of 0, which opcodeArray does not have, panics.
unfoldable pub next_op : ℕ → List ℕ → ℤ → ScriptTokenizer → Step
next_op op script (pos n) t =
    if n == 1
    then advance op (int32 (t.offset +ℤ pos 1)) [] t
    else if n == 0
    then stop index_panic t
    else if ltb (length (op ∷ script)) n
    then stop malformed_push t
    else advance op (int32 (t.offset +ℤ pos n)) (take (n - 1) script) t
next_op op script (negsuc k) t =
    if ltb (length script) (suc k)
    then stop malformed_push t
    else next_data op (suc k) (data_len (suc k) script) (drop (suc k) script) t

abbrev pub next_at : List ℕ → ScriptTokenizer → Step
next_at [] t = stop index_panic t
next_at (op ∷ script) t = next_op op script (op_length op) t

unfoldable pub next : ScriptTokenizer → Step
next t =
    if done t
    then (false, t)
    else next_at (drop (pos_part t.offset) t.script)
        (record t { opcode_pos = int32 (t.opcode_pos +ℤ pos 1) })

abbrev pub make_script_tokenizer : ℕ → List ℕ → ScriptTokenizer
make_script_tokenizer version script = record {
  script = script;
  version = version;
  offset = pos 0;
  opcode_pos = negsuc 0;
  op = none;
  bytes = [];
  failure = if version == 0 then none else some unsupported_version;
}

abbrev pub opcode : Option ℕ → ℕ
opcode none = 0
opcode (some op) = op

-- `for t.Next()`: the opcodes and data met, on fuel for the rounds.
unfoldable pub tokenize : ℕ → ScriptTokenizer → List (ℕ × List ℕ) × ScriptTokenizer
tokenize zero t = ([], t)
tokenize (suc n) t =
    let (more, t') = next t in
    let (tokens, end) = tokenize n t' in
    if more then ((opcode t'.op, t'.bytes) ∷ tokens, end) else ([], t')

-- checkScriptParses, on one round for each byte and one for the end.
unfoldable pub check_script_parses : ℕ → List ℕ → Option ErrorCode
check_script_parses version script =
    (tokenize (suc (length script)) (make_script_tokenizer version script)).1.failure
