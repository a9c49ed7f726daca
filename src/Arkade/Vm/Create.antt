-- ===== src/Arkade/Vm/Create.antt =====
-- NewEngine of pkg/arkade/engine.go.
use arkade_2fa_vault_poc.Prelude.{
  ℕ, true, false, not, ◌&&◌, ◌||◌, Option, none, some, List, [], ◌∷◌, length, get_elem?, ltb, ◌==◌,
  if◌then◌else◌,
}
use arkade_2fa_vault_poc.Prelude.Int.{ℤ, pos, pos_part, ltb_ℤ}
use arkade_2fa_vault_poc.Arkade.Result.{
  Result, ok, err, ErrorCode, invalid_index, eval_false, not_push_only, script_too_big,
  witness_malleated, witness_unexpected, btcd_error, index_panic,
}
use arkade_2fa_vault_poc.Arkade.Stack.{Item, Stack}
use arkade_2fa_vault_poc.Arkade.ComputeLimits.{default_compute_limits, no_counts}
use arkade_2fa_vault_poc.Arkade.Tokenizer.{make_script_tokenizer, check_script_parses}
use arkade_2fa_vault_poc.Arkade.Machine.{Engine}
use arkade_2fa_vault_poc.Arkade.Vm.{Btcd, Vm}

-- An input of the transaction, with the value of its previous output that the fetcher has.
pub record TxIn : Type 0 where
  pub signature_script : List ℕ
  pub witness : List Item
  pub prevout : Option ℤ

abbrev pub new_stack : Stack
new_stack = record { stk = []; verify_minimal_data = true }

-- With no taprootCtx.
abbrev pub new_machine : Engine
new_machine = record {
  dstack = new_stack;
  astack = new_stack;
  cond_stack = [];
  meter = record {
    in_taproot = false;
    limits = default_compute_limits;
    op_counts = no_counts;
    budget = none;
  };
}

abbrev pub new_vm : List ℕ → List ℕ → Option (ℕ × List ℕ) → Vm
new_vm script_sig script_pub_key program =
    let no_sig = length script_sig == 0 in
    record {
      engine = new_machine;
      scripts = script_sig ∷ script_pub_key ∷ [];
      script_idx = if no_sig then 1 else 0;
      opcode_idx = 0;
      tokenizer = make_script_tokenizer 0 (if no_sig then script_pub_key else script_sig);
      version = 0;
      program = program;
      must_succeed = false;
    }

module _ (btcd : Btcd) where
  unfoldable pub check_scripts : List (List ℕ) → Option ErrorCode
  check_scripts [] = none
  check_scripts (script ∷ scripts) =
      let rest = check_scripts scripts in
      if ltb btcd.max_script_size (length script)
      then some script_too_big
      else elim (check_script_parses 0 script) [ none ↦ rest | some e ↦ some e ]

  abbrev pub extracted : Option (ℕ × List ℕ) → Result (Option (ℕ × List ℕ))
  extracted none = err btcd_error
  extracted (some p) = ok (some p)

  -- witnessVersion and witnessProgram.
  unfoldable pub find_program : TxIn → List ℕ → Result (Option (ℕ × List ℕ))
  find_program input script_pub_key =
      if btcd.is_witness_program script_pub_key
      then if not (length input.signature_script == 0)
        then err witness_malleated
        else extracted (btcd.extract_witness_program_info script_pub_key)
      else if not (length input.witness == 0)
      then err witness_unexpected
      else ok none

  abbrev pub create : TxIn → List ℕ → Option ErrorCode → Result (Option (ℕ × List ℕ)) → Result Vm
  create input script_pub_key (some e) program = err e
  create input script_pub_key none (err e) = err e
  create input script_pub_key none (ok program) =
      ok (new_vm input.signature_script script_pub_key program)

  abbrev pub new_engine_at : List ℕ → Option TxIn → Result Vm
  new_engine_at script_pub_key none = err index_panic
  new_engine_at script_pub_key (some input) =
      let script_sig = input.signature_script in
      if length script_sig == 0 && length script_pub_key == 0
      then err eval_false
      else if not (btcd.is_push_only_script script_sig)
      then err not_push_only
      else create input script_pub_key (check_scripts (script_sig ∷ script_pub_key ∷ []))
          (find_program input script_pub_key)

  unfoldable pub new_engine : List ℕ → List TxIn → ℤ → Result Vm
  unfolding check_scripts find_program
  new_engine script_pub_key inputs tx_idx =
      if ltb_ℤ tx_idx (pos 0) || not (ltb_ℤ tx_idx (pos (length inputs)))
      then err invalid_index
      else new_engine_at script_pub_key (get_elem? inputs (pos_part tx_idx))
