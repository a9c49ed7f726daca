-- ===== src/Arkade/Vm/Steps.antt =====
-- Step and Execute of pkg/arkade/engine.go, with no step callback.
use arkade_2fa_vault_poc.Prelude.{
  ℕ, zero, suc, ◌+◌, Bool, true, false, ◌&&◌, Option, none, some, List, [], ◌∷◌, length, get_elem?,
  leb, ◌==◌, if◌then◌else◌,
}
use arkade_2fa_vault_poc.Arkade.Result.{
  Result, ok, err, ErrorCode, invalid_program_counter, unbalanced_conditional, Action, ◌>>◌,
}
use arkade_2fa_vault_poc.Arkade.Stack.{Item, depth, drop_n}
use arkade_2fa_vault_poc.Arkade.Tokenizer.{
  ScriptTokenizer, done, next, opcode, make_script_tokenizer,
}
use arkade_2fa_vault_poc.Arkade.Machine.{Cond, Engine}
use arkade_2fa_vault_poc.Arkade.Machine.Opcodes.{Handler}
use arkade_2fa_vault_poc.Arkade.Machine.Execute.{
  execute_opcode, check_stacks, check_error_condition,
}
use arkade_2fa_vault_poc.Arkade.Vm.{Btcd, Vm, on_engine}
use arkade_2fa_vault_poc.Arkade.Vm.Witness.{verify_witness_program}

abbrev pub no_conditional : List Cond → Bool
no_conditional [] = true
no_conditional (c ∷ conds) = false

abbrev pub has_program : Option (ℕ × List ℕ) → Bool
has_program none = false
has_program (some p) = true

abbrev pub error_or : ErrorCode → Option ErrorCode → ErrorCode
error_or e none = e
error_or e (some e') = e'

-- The alt stack does not persist between scripts; the error of DropN on an empty stack is dropped.
abbrev pub clear_alt : Engine → Engine
clear_alt engine = record engine { astack = (drop_n (depth engine.astack) engine.astack).1 }

abbrev pub is_empty_script : Option (List ℕ) → Bool
is_empty_script (some []) = true
is_empty_script (some (b ∷ script)) = false
is_empty_script none = false

abbrev pub skip_empty : Vm → Vm
skip_empty vm =
    if is_empty_script (get_elem? vm.scripts vm.script_idx)
    then record vm { script_idx = vm.script_idx + 1 }
    else vm

-- true where no script is left.
abbrev pub start_script : Option (List ℕ) → Action Vm Bool
start_script none vm = (ok true, vm)
start_script (some script) vm =
    (ok false, record vm { tokenizer = make_script_tokenizer vm.version script })

unfoldable pub enter_script : Action Vm Bool
enter_script vm = let vm' = skip_empty vm in start_script (get_elem? vm'.scripts vm'.script_idx) vm'

module _ (btcd : Btcd) (opfunc : ℕ → List ℕ → Handler) (witness : List Item) where
  unfoldable pub advance_script : Action Vm (Unit {0})
  advance_script vm =
      let vm' = record vm { script_idx = vm.script_idx + 1 } in
      if vm.script_idx == 1 && has_program vm.program
      then verify_witness_program btcd witness vm.program vm'
      else (ok tt, vm')

  unfoldable pub end_script : Action Vm Bool
  unfolding enter_script advance_script
  end_script vm =
      if no_conditional vm.engine.cond_stack
      then (advance_script >> enter_script)
          (record vm { engine = clear_alt vm.engine; opcode_idx = 0 })
      else (err unbalanced_conditional, vm)

  -- What follows an opcode and its checks.
  unfoldable pub finish_opcode : Action Vm Bool
  unfolding end_script
  finish_opcode vm =
      let vm' = record vm { opcode_idx = vm.opcode_idx + 1 } in
      if done vm'.tokenizer then end_script vm' else (ok false, vm')

  abbrev pub run_opcode : Bool × ScriptTokenizer → Action Vm Bool
  run_opcode (false, t) vm =
      (err (error_or invalid_program_counter t.failure), record vm { tokenizer = t })
  run_opcode (true, t) vm =
      (on_engine (
            execute_opcode btcd.max_script_element_size opfunc (opcode t.op) t.bytes
            >> check_stacks btcd.max_stack_size)
          >> finish_opcode)
        (record vm { tokenizer = t })

  -- The result is `done`.
  unfoldable pub step : Action Vm Bool
  unfolding finish_opcode
  step vm =
      if leb (length vm.scripts) vm.script_idx
      then (err invalid_program_counter, vm)
      else run_opcode (next vm.tokenizer) vm

  abbrev pub verdict : Action Vm (Unit {0})
  verdict vm =
      on_engine (check_error_condition vm.must_succeed vm.script_idx (length vm.scripts) true) vm

  abbrev pub after_step :
      (Vm → Option (Result (Unit {0}) × Vm)) → Result Bool × Vm → Option (Result (Unit {0}) × Vm)
  after_step again (err e, vm) = some (err e, vm)
  after_step again (ok true, vm) = some (verdict vm)
  after_step again (ok false, vm) = again vm

  -- The loop of Execute, on fuel for the steps; none where the fuel runs out.
  unfoldable pub steps : ℕ → Vm → Option (Result (Unit {0}) × Vm)
  steps zero vm = none
  steps (suc n) vm = after_step (λ vm'. steps n vm') (step vm)

  unfoldable pub execute : ℕ → Vm → Option (Result (Unit {0}) × Vm)
  unfolding steps
  execute n vm = if vm.version == 0 then steps n vm else some (ok tt, vm)
