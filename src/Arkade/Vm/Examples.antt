-- ===== src/Arkade/Vm/Examples.antt =====
-- Concrete scripts through ArkadeScript.Execute of pkg/arkade/script.go.
use arkade_2fa_vault_poc.Prelude.{
  ℕ, ◌≡◌, refl, true, false, Option, none, some, List, [], ◌∷◌, arith,
}
use arkade_2fa_vault_poc.Prelude.Int.{pos, ◌+ℤ◌, int32, int64, ◌-ℤ◌}
use arkade_2fa_vault_poc.Prelude.Bytes.{bytes_eq}
use arkade_2fa_vault_poc.Arkade.Result.{Result, ok, err, index_panic}
use arkade_2fa_vault_poc.Arkade.Tokenizer.Tokens.{single}
use arkade_2fa_vault_poc.Arkade.Tokenizer.RoundTrip.{nothing, opcode_first}
use arkade_2fa_vault_poc.Arkade.Machine.Table.{opfunc}
use arkade_2fa_vault_poc.Arkade.Vm.{Btcd, Vm}
use arkade_2fa_vault_poc.Arkade.Packet.{
  Wire, deserialize_emulator_packet, check_entries, new_packet, read_blob, read_entries, read_entry,
  read_witness, validate,
}
use arkade_2fa_vault_poc.Arkade.Packet.Find.{found, check_vins, find_emulator_packet, scan}
use arkade_2fa_vault_poc.Arkade.ComputeLimits.{
  charge, charge_budget, charge_input, charge_opcode, limit_of, tally,
}
use arkade_2fa_vault_poc.Arkade.Machine.Conditionals.{is_branch_executing}
use arkade_2fa_vault_poc.Arkade.Machine.Execute.{
  check_error_condition, check_stacks, check_top, execute_opcode, is_minimal_push, item_bytes,
}
use arkade_2fa_vault_poc.Arkade.Machine.Opcodes.{Handler, opcode_n}
use arkade_2fa_vault_poc.Arkade.ScriptNum.{bytes, sign_bytes, magnitude_bytes, from_little_endian}
use arkade_2fa_vault_poc.Arkade.Stack.{
  Item, as_bool, depth, drop_n, nip_n, pop_bool, pop_byte_array, push_byte_array, push_int,
}
use arkade_2fa_vault_poc.Arkade.Tokenizer.{
  check_script_parses, tokenize, next, done, next_op, op_length,
}
use arkade_2fa_vault_poc.Arkade.Vm.Create.{
  TxIn, new_vm, new_machine, check_scripts, find_program, new_engine,
}
use arkade_2fa_vault_poc.Arkade.Vm.Script.{
  ArkadeScript, SpendingTx, Outcome, rejected, ran, execute_script, check_prevouts,
  packet_contains_exact_entry,
}
use arkade_2fa_vault_poc.Arkade.Vm.Steps.{
  execute, advance_script, end_script, enter_script, finish_opcode, step, steps,
}
use arkade_2fa_vault_poc.Arkade.Vm.Runs.{execute_script_total}
use arkade_2fa_vault_poc.Arkade.Vm.Bound.{IsBound, execute_script-IsBound}
use arkade_2fa_vault_poc.Arkade.Vm.Whole.{Agrees, whole, execute-whole}

-- No witness program is known, and every script counts as push only.
abbrev plain_btcd : Btcd
plain_btcd = record {
  ControlBlock = List ℕ;
  parse_control_block = λ b. some b;
  leaf_version = λ b. 0xc0;
  verify_taproot_leaf_commitment = λ b p s. true;
  verify_taproot_key_spend = λ p s. true;
  is_push_only_script = λ s. true;
  is_witness_program = λ s. false;
  extract_witness_program_info = λ s. none;
  taproot_witness_version = 1;
  base_leaf_version = 0xc0;
  taproot_annex_tag = 0x50;
  max_script_element_size = 520;
  max_stack_size = 1000;
  max_script_size = 10000;
}

abbrev read_number : List ℕ → Option (ℕ × List ℕ)
read_number [] = none
read_number (n ∷ rest) = some (n, rest)

abbrev item_wire : Wire (List Item)
item_wire = record {
  write_var_int = λ n. n ∷ [];
  read_var_int = read_number;
  write_tx_witness = λ w. [];
  read_tx_witness = λ b. some (b ∷ []);
  no_witness = [];
}

abbrev no_effect : ℕ → List ℕ → Handler
no_effect op bytes vm = (ok tt, vm)

abbrev table : ℕ → List ℕ → Handler
table = opfunc no_effect

abbrev one_input : List TxIn
one_input = record { signature_script = []; witness = []; prevout = some (pos 1000) } ∷ []

abbrev true_script : ArkadeScript
true_script = record { script = 0x51 ∷ []; witness = []; packet_bound = true; packet_vin = 0 }

-- A packet with one entry, for input 0.
abbrev packet_tx : SpendingTx
packet_tx = record {
  inputs = one_input;
  extension = found ((0x01, some (1 ∷ 0 ∷ 0 ∷ 1 ∷ 0x51 ∷ 0 ∷ [])) ∷ []);
}

abbrev result : Option Outcome
result =
    execute_script plain_btcd item_wire 2100000000000000 table 5 true_script (some packet_tx) true
      (pos 0) []

abbrev start : Vm
start = new_vm [] (0x51 ∷ []) none

abbrev out_of : Option Outcome → Result (Unit {0}) × Vm
out_of none = (err index_panic, start)
out_of (some (rejected e)) = (err index_panic, start)
out_of (some (ran out)) = out

execute-whole_example :
    Agrees
      (execute plain_btcd table [] 1 start)
      (whole plain_btcd table [] ((0x51, []) ∷ []) new_machine)
execute-whole_example =
    execute-whole plain_btcd table [] 1 0x51 [] [] (0x51 ∷ []) new_machine
      (opcode_first (single 0x51 refl) nothing) (omega arith) (omega arith)

execute_script_total_example : (out : Outcome) × (result ≡ some out)
execute_script_total_example =
    execute_script_total plain_btcd item_wire 2100000000000000 table 5 true_script packet_tx true
      (pos 0) [] (omega arith) (unfold item_bytes in omega arith) (unfold item_bytes in omega arith)

result_ran : result ≡ some (ran (out_of result))
unfolding execute_script opfunc bytes_eq int32 int64 ◌+ℤ◌ ◌-ℤ◌ check_entries
    deserialize_emulator_packet new_packet read_blob read_entries read_entry read_witness validate
    check_vins find_emulator_packet scan charge charge_budget charge_input charge_opcode limit_of
    tally is_branch_executing check_error_condition check_stacks check_top execute_opcode
    is_minimal_push item_bytes opcode_n bytes sign_bytes magnitude_bytes from_little_endian as_bool
    depth drop_n nip_n pop_bool pop_byte_array push_byte_array push_int check_script_parses tokenize
    next done next_op op_length check_scripts find_program new_engine check_prevouts
    packet_contains_exact_entry advance_script end_script enter_script execute finish_opcode step
    steps
result_ran = refl

result_accepts : (out_of result).0 ≡ ok tt
unfolding execute_script opfunc bytes_eq int32 int64 ◌+ℤ◌ ◌-ℤ◌ check_entries
    deserialize_emulator_packet new_packet read_blob read_entries read_entry read_witness validate
    check_vins find_emulator_packet scan charge charge_budget charge_input charge_opcode limit_of
    tally is_branch_executing check_error_condition check_stacks check_top execute_opcode
    is_minimal_push item_bytes opcode_n bytes sign_bytes magnitude_bytes from_little_endian as_bool
    depth drop_n nip_n pop_bool pop_byte_array push_byte_array push_int check_script_parses tokenize
    next done next_op op_length check_scripts find_program new_engine check_prevouts
    packet_contains_exact_entry advance_script end_script enter_script execute finish_opcode step
    steps
result_accepts = refl

execute_script-IsBound_example : IsBound item_wire 2100000000000000 true_script packet_tx (pos 0)
execute_script-IsBound_example =
    execute_script-IsBound plain_btcd item_wire 2100000000000000 table 5 true_script packet_tx true
      (pos 0) [] (out_of result) refl result_ran
