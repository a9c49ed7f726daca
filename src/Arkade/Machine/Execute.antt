-- ===== src/Arkade/Machine/Execute.antt =====
-- executeOpcode, the stack limits of Step, and CheckErrorCondition, pkg/arkade/engine.go.
use arkade_2fa_vault_poc.Prelude.{
  ℕ, ◌+◌, ◌-◌, ◌*◌, Bool, true, false, not, ◌&&◌, ◌||◌, List, [], ◌∷◌, length, ltb, leb, ◌==◌,
  if◌then◌else◌,
}
use arkade_2fa_vault_poc.Prelude.Int.{ℤ, pos, ◌+ℤ◌, ltb_ℤ, eq_ℤ, int32, int64}
use arkade_2fa_vault_poc.Arkade.Result.{
  ok, err, reserved_opcode, element_too_big, minimal_data, stack_overflow, script_unfinished,
  clean_stack, empty_stack, eval_false, Action, ◌>>=◌, ◌>>◌, pure, raise,
}
use arkade_2fa_vault_poc.Arkade.Stack.{Item, Stack, depth, pop_bool}
use arkade_2fa_vault_poc.Arkade.ComputeLimits.{charge_opcode}
use arkade_2fa_vault_poc.Arkade.Machine.{Engine, on_meter, on_dstack}
use arkade_2fa_vault_poc.Arkade.Machine.Conditionals.{is_branch_executing}
use arkade_2fa_vault_poc.Arkade.Machine.Opcodes.{Handler}

abbrev pub is_opcode_always_illegal : ℕ → Bool
is_opcode_always_illegal op = (op == 0x65) || (op == 0x66)

abbrev pub is_opcode_conditional : ℕ → Bool
is_opcode_conditional op = (op == 0x63) || (op == 0x64) || (op == 0x67) || (op == 0x68)

-- Whether checkMinimalDataPush returns nil.
unfoldable pub is_minimal_push : ℕ → List ℕ → Bool
is_minimal_push op [] = op == 0x00
is_minimal_push op (b ∷ []) =
    if leb 1 b && leb b 16 then op == 0x51 + b - 1 else if b == 0x81 then op == 0x4f else op == 1
is_minimal_push op (b ∷ c ∷ bytes) =
    let n = length (b ∷ c ∷ bytes) in
    if leb n 75
    then op == n
    else if leb n 255
    then op == 0x4c
    else if leb n 65535
    then op == 0x4d
    else true

-- The push that the minimal data rule refuses.
abbrev pub is_wide_push : ℕ → List ℕ → Engine → Bool
is_wide_push op bytes vm =
    vm.dstack.verify_minimal_data
    && (is_branch_executing vm.cond_stack && (leb op 0x4e && not (is_minimal_push op bytes)))

-- `max_element` is txscript.MaxScriptElementSize.
unfoldable pub execute_opcode : ℕ → (ℕ → List ℕ → Handler) → ℕ → List ℕ → Action Engine (Unit {0})
execute_opcode max_element opfunc op bytes vm =
    if is_opcode_always_illegal op
    then (err reserved_opcode, vm)
    else if ltb max_element (length bytes)
    then (err element_too_big, vm)
    else if not (is_branch_executing vm.cond_stack) && not (is_opcode_conditional op)
    then (ok tt, vm)
    else if is_wide_push op bytes vm
    then (err minimal_data, vm)
    else (on_meter (charge_opcode op) >> opfunc op bytes) vm

-- stackByteSize: an int64 total.
unfoldable pub item_bytes : List Item → ℕ
item_bytes [] = 0
item_bytes (so ∷ stk) = length so + item_bytes stk

abbrev pub stack_byte_size : Stack → ℤ
stack_byte_size s = int64 (pos (item_bytes s.stk))

abbrev pub max_combined_stack_byte_size : ℕ
max_combined_stack_byte_size = 128 * 1024

-- `max_items` is txscript.MaxStackSize.
abbrev pub is_over_items : ℕ → Engine → Bool
is_over_items max_items vm = ltb_ℤ (pos max_items) (int32 (depth vm.dstack +ℤ depth vm.astack))

abbrev pub is_over_bytes : Engine → Bool
is_over_bytes vm =
    ltb_ℤ (pos max_combined_stack_byte_size)
      (int64 (stack_byte_size vm.dstack +ℤ stack_byte_size vm.astack))

-- What Step checks after an opcode.
unfoldable pub check_stacks : ℕ → Action Engine (Unit {0})
check_stacks max_items vm =
    if is_over_items max_items vm
    then (err stack_overflow, vm)
    else if is_over_bytes vm
    then (err stack_overflow, vm)
    else (ok tt, vm)

-- The opcodes of a script, each executed and its stacks checked.
unfoldable pub run_opcodes :
    ℕ → ℕ → (ℕ → List ℕ → Handler) → List (ℕ × List ℕ) → Action Engine (Unit {0})
run_opcodes max_element max_items opfunc [] = pure tt
run_opcodes max_element max_items opfunc ((op, bytes) ∷ ops) =
    let rest = run_opcodes max_element max_items opfunc ops in
    execute_opcode max_element opfunc op bytes >> check_stacks max_items >> rest

abbrev pub require_true : Bool → Action Engine (Unit {0})
require_true true = pure tt
require_true false = raise eval_false

-- CheckErrorCondition on the data stack.
unfoldable pub check_top : Bool → Action Engine (Unit {0})
check_top final_script vm =
    if final_script && not (eq_ℤ (depth vm.dstack) (pos 1))
    then (err clean_stack, vm)
    else if ltb_ℤ (depth vm.dstack) (pos 1)
    then (err empty_stack, vm)
    else (on_dstack pop_bool >>= require_true) vm

-- CheckErrorCondition: `must_succeed` is that of taprootCtx, false where it is nil, and `script_count` the
-- number of scripts.
unfoldable pub check_error_condition : Bool → ℕ → ℕ → Bool → Action Engine (Unit {0})
check_error_condition must_succeed script_idx script_count final_script vm =
    if must_succeed
    then (ok tt, vm)
    else if ltb script_idx script_count
    then (err script_unfinished, vm)
    else check_top final_script vm
