-- ===== src/Arkade/Machine/Table.antt =====
-- opcodeArray of pkg/arkade/opcode.go: the handler of every modelled opcode. The handlers that are not
-- modelled are an argument.
use arkade_2fa_vault_poc.Prelude.{
  ℕ, ◌&&◌, Option, none, some, List, [], ◌∷◌, ◌++◌, leb, ◌==◌, if◌then◌else◌,
}
use arkade_2fa_vault_poc.Arkade.Machine.Conditionals.{
  opcode_if, opcode_not_if, opcode_else, opcode_endif,
}
use arkade_2fa_vault_poc.Arkade.Machine.Opcodes.{
  Handler, opcode_reserved, opcode_invalid, opcode_false, opcode_push_data, opcode_1negate,
  opcode_n, opcode_nop, opcode_verify, opcode_return, opcode_to_alt_stack, opcode_from_alt_stack,
  opcode_2drop, opcode_2dup, opcode_3dup, opcode_2over, opcode_2rot, opcode_2swap, opcode_if_dup,
  opcode_depth, opcode_drop, opcode_dup, opcode_nip, opcode_over, opcode_pick, opcode_roll,
  opcode_rot, opcode_swap, opcode_tuck, opcode_size, opcode_equal, opcode_equal_verify,
}

abbrev pub control_handlers : List (ℕ × Handler)
control_handlers =
    (0x00, opcode_false)
    ∷ (0x4f, opcode_1negate)
    ∷ (0x50, opcode_reserved)
    ∷ (0x62, opcode_reserved)
    ∷ (0x63, opcode_if)
    ∷ (0x64, opcode_not_if)
    ∷ (0x65, opcode_reserved)
    ∷ (0x66, opcode_reserved)
    ∷ (0x67, opcode_else)
    ∷ (0x68, opcode_endif)
    ∷ (0x69, opcode_verify)
    ∷ (0x6a, opcode_return)
    ∷ (0x6b, opcode_to_alt_stack)
    ∷ (0x6c, opcode_from_alt_stack)
    ∷ (0x88, opcode_equal_verify)
    ∷ (0x89, opcode_reserved)
    ∷ (0x8a, opcode_reserved)
    ∷ []

abbrev pub stack_handlers : List (ℕ × Handler)
stack_handlers =
    (0x6d, opcode_2drop)
    ∷ (0x6e, opcode_2dup)
    ∷ (0x6f, opcode_3dup)
    ∷ (0x70, opcode_2over)
    ∷ (0x71, opcode_2rot)
    ∷ (0x72, opcode_2swap)
    ∷ (0x73, opcode_if_dup)
    ∷ (0x74, opcode_depth)
    ∷ (0x75, opcode_drop)
    ∷ (0x76, opcode_dup)
    ∷ (0x77, opcode_nip)
    ∷ (0x78, opcode_over)
    ∷ (0x79, opcode_pick)
    ∷ (0x7a, opcode_roll)
    ∷ (0x7b, opcode_rot)
    ∷ (0x7c, opcode_swap)
    ∷ (0x7d, opcode_tuck)
    ∷ (0x82, opcode_size)
    ∷ (0x87, opcode_equal)
    ∷ []

abbrev pub nops : List ℕ
nops = 0x61 ∷ 0xb0 ∷ 0xb4 ∷ 0xb5 ∷ 0xb6 ∷ 0xb7 ∷ 0xb8 ∷ 0xb9 ∷ []

abbrev pub undefined_opcodes : List ℕ
undefined_opcodes =
    0xbb ∷ 0xbc ∷ 0xbd ∷ 0xbe ∷ 0xbf ∷ 0xc0 ∷ 0xc1 ∷ 0xc2 ∷ 0xd0 ∷ 0xdb ∷ 0xdc ∷ 0xdd ∷ 0xde ∷ 0xdf
    ∷ 0xf7 ∷ 0xf8 ∷ 0xf9 ∷ 0xfa ∷ 0xfb ∷ 0xfc ∷ 0xfd ∷ 0xfe ∷ 0xff ∷ []

abbrev pub entries_of : (ℕ → Handler) → List ℕ → List (ℕ × Handler)
entries_of h [] = []
entries_of h (v ∷ values) = (v, h v) ∷ entries_of h values

abbrev pub handlers : List (ℕ × Handler)
handlers =
    control_handlers
    ++ (stack_handlers
        ++ (entries_of opcode_nop nops ++ entries_of (λ _. opcode_invalid) undefined_opcodes))

abbrev pub handler_of : ℕ → List (ℕ × Handler) → Option Handler
handler_of value [] = none
handler_of value ((v, h) ∷ rest) = if v == value then some h else handler_of value rest

abbrev pub or_else : Option Handler → Handler → Handler
or_else none h = h
or_else (some h') h = h'

-- The opfunc of an opcode, applied to the data of the push.
unfoldable pub opfunc : (ℕ → List ℕ → Handler) → ℕ → List ℕ → Handler
opfunc others value bytes =
    if leb 0x01 value && leb value 0x4e
    then opcode_push_data bytes
    else if leb 0x51 value && leb value 0x60
    then opcode_n value
    else or_else (handler_of value handlers) (others value bytes)
