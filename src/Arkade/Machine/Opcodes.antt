-- ===== src/Arkade/Machine/Opcodes.antt =====
-- The constant, verification and stack opcodes of pkg/arkade/opcode.go.
use arkade_2fa_vault_poc.Prelude.{
  ℕ, ◌+◌, ◌-◌, ◌%◌, ◌||◌, ◌&&◌, List, [], length, leb, ◌==◌, if◌then◌else◌,
}
use arkade_2fa_vault_poc.Prelude.Int.{pos, negsuc}
use arkade_2fa_vault_poc.Prelude.Bytes.{bytes_eq}
use arkade_2fa_vault_poc.Arkade.Result.{
  ErrorCode, reserved_opcode, discourage_nops, verify_failed, equal_verify_failed, early_return,
  Action, ◌>>=◌, ◌>>◌, pure, raise,
}
use arkade_2fa_vault_poc.Arkade.ScriptNum.{clamp_int32}
use arkade_2fa_vault_poc.Arkade.Stack.{
  as_bool, depth, push_byte_array, push_int, push_bool, pop_byte_array, pop_int, pop_bool,
  peek_byte_array, nip_n_item, tuck, drop_n, dup_n, rot_n, swap_n, over_n, pick_n, roll_n,
}
use arkade_2fa_vault_poc.Arkade.Machine.{Engine, on_dstack, on_astack}

abbrev pub Handler : Type 0
Handler = Action Engine (Unit {0})

abbrev pub opcode_reserved : Handler
opcode_reserved = raise reserved_opcode

abbrev pub opcode_invalid : Handler
opcode_invalid = raise reserved_opcode

unfoldable pub opcode_false : Handler
opcode_false = on_dstack (push_byte_array [])

unfoldable pub opcode_push_data : List ℕ → Handler
opcode_push_data bytes = on_dstack (push_byte_array bytes)

unfoldable pub opcode_1negate : Handler
opcode_1negate = on_dstack (push_int (negsuc 0))

-- Byte subtraction wraps.
unfoldable pub opcode_n : ℕ → Handler
opcode_n value = on_dstack (push_int (pos ((value + 256 - 0x50) % 256)))

-- OP_NOP1 and OP_NOP5 to OP_NOP10 are discouraged.
unfoldable pub opcode_nop : ℕ → Handler
opcode_nop value =
    if (value == 0xb0) || (leb 0xb4 value && leb value 0xb9) then raise discourage_nops else pure tt

unfoldable pub abstract_verify : ErrorCode → Handler
abstract_verify c = on_dstack pop_bool >>= λ verified. if verified then pure tt else raise c

unfoldable pub opcode_verify : Handler
opcode_verify = abstract_verify verify_failed

abbrev pub opcode_return : Handler
opcode_return = raise early_return

unfoldable pub opcode_to_alt_stack : Handler
opcode_to_alt_stack = on_dstack pop_byte_array >>= λ so. on_astack (push_byte_array so)

unfoldable pub opcode_from_alt_stack : Handler
opcode_from_alt_stack = on_astack pop_byte_array >>= λ so. on_dstack (push_byte_array so)

unfoldable pub opcode_2drop : Handler
opcode_2drop = on_dstack (drop_n (pos 2))

unfoldable pub opcode_2dup : Handler
opcode_2dup = on_dstack (dup_n (pos 2))

unfoldable pub opcode_3dup : Handler
opcode_3dup = on_dstack (dup_n (pos 3))

unfoldable pub opcode_2over : Handler
opcode_2over = on_dstack (over_n (pos 2))

unfoldable pub opcode_2rot : Handler
opcode_2rot = on_dstack (rot_n (pos 2))

unfoldable pub opcode_2swap : Handler
opcode_2swap = on_dstack (swap_n (pos 2))

unfoldable pub opcode_if_dup : Handler
opcode_if_dup =
    on_dstack (peek_byte_array (pos 0) >>= λ so. if as_bool so then push_byte_array so else pure tt)

unfoldable pub opcode_depth : Handler
opcode_depth = on_dstack (λ s. push_int (depth s) s)

unfoldable pub opcode_drop : Handler
opcode_drop = on_dstack (drop_n (pos 1))

unfoldable pub opcode_dup : Handler
opcode_dup = on_dstack (dup_n (pos 1))

unfoldable pub opcode_nip : Handler
opcode_nip = on_dstack (nip_n_item (pos 1))

unfoldable pub opcode_over : Handler
opcode_over = on_dstack (over_n (pos 1))

unfoldable pub opcode_pick : Handler
opcode_pick = on_dstack (pop_int >>= λ val. pick_n (clamp_int32 val))

unfoldable pub opcode_roll : Handler
opcode_roll = on_dstack (pop_int >>= λ val. roll_n (clamp_int32 val))

unfoldable pub opcode_rot : Handler
opcode_rot = on_dstack (rot_n (pos 1))

unfoldable pub opcode_swap : Handler
opcode_swap = on_dstack (swap_n (pos 1))

unfoldable pub opcode_tuck : Handler
opcode_tuck = on_dstack tuck

unfoldable pub opcode_size : Handler
opcode_size = on_dstack (peek_byte_array (pos 0) >>= λ so. push_int (pos (length so)))

unfoldable pub opcode_equal : Handler
opcode_equal = on_dstack (pop_byte_array >>= λ a. pop_byte_array >>= λ b. push_bool (bytes_eq a b))

unfoldable pub opcode_equal_verify : Handler
opcode_equal_verify = opcode_equal >> abstract_verify equal_verify_failed
