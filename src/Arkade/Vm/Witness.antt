-- ===== src/Arkade/Vm/Witness.antt =====
-- verifyWitnessProgram of pkg/arkade/engine.go.
use arkade_2fa_vault_poc.Prelude.{
  ℕ, ◌-◌, Bool, true, false, not, ◌||◌, Option, none, some, List, [], ◌∷◌, ◌++◌, length, take,
  get_elem?, ltb, ◌==◌, if◌then◌else◌,
}
use arkade_2fa_vault_poc.Prelude.Int.{pos, ltb_ℤ}
use arkade_2fa_vault_poc.Arkade.Result.{
  ok, err, ErrorCode, unsupported_program, witness_program_empty, btcd_error,
  discourage_upgradeable_taproot_version, stack_overflow, element_too_big, Action, ◌>>=◌, ◌>>◌,
  pure, raise, lift,
}
use arkade_2fa_vault_poc.Arkade.Stack.{Item, depth, or_panic}
use arkade_2fa_vault_poc.Arkade.ComputeLimits.{no_counts}
use arkade_2fa_vault_poc.Arkade.Tokenizer.{check_script_parses}
use arkade_2fa_vault_poc.Arkade.Vm.{Btcd, Vm, set_stack, get_stack}

abbrev pub pay_to_taproot_data_size : ℕ
pay_to_taproot_data_size = 32

abbrev has_tag : ℕ → Option Item → Bool
has_tag tag none = false
has_tag tag (some []) = false
has_tag tag (some (b ∷ so)) = b == tag

-- What becomes of the result of a call that may fail.
abbrev pub checked : Option ErrorCode → Action Vm (Unit {0})
checked none = pure tt
checked (some e) = raise e

abbrev pub require : Bool → ErrorCode → Action Vm (Unit {0})
require true e = pure tt
require false e = raise e

module _ (btcd : Btcd) where
  unfoldable pub is_annexed_witness : List Item → Bool
  is_annexed_witness witness =
      if ltb (length witness) 2
      then false
      else has_tag btcd.taproot_annex_tag (get_elem? witness (length witness - 1))

  abbrev pub without_annex : List Item → List Item
  without_annex witness =
      if is_annexed_witness witness then take (length witness - 1) witness else witness

  -- newTaprootExecutionCtx: fresh counters.
  abbrev pub new_context : Vm → Vm
  new_context vm =
      let meter = record vm.engine.meter { in_taproot = true; op_counts = no_counts } in
      record vm { engine = record vm.engine { meter = meter }; must_succeed = false }

  unfoldable pub key_spend : List ℕ → Item → Action Vm (Unit {0})
  key_spend program raw_sig vm =
      if btcd.verify_taproot_key_spend program raw_sig
      then (ok tt, record vm { must_succeed = true })
      else (err btcd_error, vm)

  abbrev pub are_small : List Item → Bool
  are_small [] = true
  are_small (so ∷ items) =
      let rest = are_small items in
      if ltb btcd.max_script_element_size (length so) then false else rest

  -- The limits of the starting stack.
  unfoldable pub check_start : Action Vm (Unit {0})
  check_start vm =
      if ltb_ℤ (pos btcd.max_stack_size) (depth vm.engine.dstack)
      then (err stack_overflow, vm)
      else if are_small (get_stack vm.engine.dstack)
      then (ok tt, vm)
      else (err element_too_big, vm)

  abbrev pub add_script : Item → List Item → Action Vm (Unit {0})
  add_script script items vm = (
    ok tt,
    record vm {
      scripts = vm.scripts ++ script ∷ [];
      engine = record vm.engine { dstack = set_stack items vm.engine.dstack };
    },
  )

  abbrev pub commit_leaf : Option btcd.ControlBlock → List ℕ → Item → Action Vm (Unit {0})
  commit_leaf none program script = raise btcd_error
  commit_leaf (some control) program script =
      require (btcd.verify_taproot_leaf_commitment control program script) btcd_error
      >> require (btcd.leaf_version control == btcd.base_leaf_version)
          discourage_upgradeable_taproot_version

  -- The case of a witness with a script and a control block at its end.
  unfoldable pub script_spend : List ℕ → List Item → Action Vm (Unit {0})
  unfolding check_start
  script_spend program witness vm =
      (lift (or_panic (get_elem? witness (length witness - 1))) >>= λ control.
      lift (or_panic (get_elem? witness (length witness - 2))) >>= λ script.
      commit_leaf (btcd.parse_control_block control) program script
      >> checked (check_script_parses vm.version script)
      >> add_script script (take (length witness - 2) witness)
      >> check_start)
        vm

  abbrev pub spend : List ℕ → List Item → Action Vm (Unit {0})
  spend program witness =
      if length witness == 1
      then (lift (or_panic (get_elem? witness 0)) >>= key_spend program)
      else script_spend program witness

  -- `witness` is that of the input.
  unfoldable pub verify_witness_program : List Item → Option (ℕ × List ℕ) → Action Vm (Unit {0})
  verify_witness_program witness none vm = (err unsupported_program, vm)
  verify_witness_program witness (some (version, program)) vm =
      if not (version == btcd.taproot_witness_version)
        || not (length program == pay_to_taproot_data_size)
      then (err unsupported_program, vm)
      else if length witness == 0
      then (err witness_program_empty, vm)
      else spend program (without_annex witness) (new_context vm)
