-- ===== src/Arkade/Vm/Runs.antt =====
-- A run by ArkadeScript.Execute of pkg/arkade/script.go ends.
use arkade_2fa_vault_poc.Prelude.{
  ℕ, ◌+◌, ◌^◌, ◌<◌, ◌≤◌, ◌≡◌, refl, Bool, false, not, ◌&&◌, ◌||◌, Option, none, some, List, [], ◌∷◌,
  length, get_elem?, arith, ◌==◌, if_cases, if◌then◌else◌, Bool-cases, inl, inr,
}
use arkade_2fa_vault_poc.Prelude.Int.{ℤ, pos, pos_part, negsuc, ltb_ℤ}
use arkade_2fa_vault_poc.Arkade.Result.{Result, ok, err, ErrorCode}
use arkade_2fa_vault_poc.Arkade.Stack.{Item}
use arkade_2fa_vault_poc.Arkade.Packet.{Wire, EmulatorEntry, Parsed, parsed, refused}
use arkade_2fa_vault_poc.Arkade.Packet.Find.{find_emulator_packet}
use arkade_2fa_vault_poc.Arkade.Machine.{Engine}
use arkade_2fa_vault_poc.Arkade.Machine.Opcodes.{Handler}
use arkade_2fa_vault_poc.Arkade.Machine.Execute.{item_bytes}
use arkade_2fa_vault_poc.Arkade.Vm.{Btcd, Vm, set_stack}
use arkade_2fa_vault_poc.Arkade.Vm.Steps.{execute}
use arkade_2fa_vault_poc.Arkade.Vm.Create.{
  TxIn, new_vm, check_scripts, find_program, create, new_engine_at, new_engine,
}
use arkade_2fa_vault_poc.Arkade.Vm.Script.{
  rejected, ran, is_bad, or_rejected, ArkadeScript, SpendingTx, ExecuteOption, Outcome, ScriptError,
  check_prevouts, witness_of, is_unbound, with_witness, configure, ended, run_bound, run_engine,
  execute_script,
}
use arkade_2fa_vault_poc.Arkade.Vm.Ready.{measure, IsRunning}
use arkade_2fa_vault_poc.Arkade.Vm.Total.{steps_total}

module _ (btcd : Btcd) where
  -- What NewEngine makes of an input.
  pub record IsNew (script : List ℕ) (inputs : List TxIn) (i : ℕ) (vm : Vm) : Type 0 where
    pub input : TxIn
    pub program : Option (ℕ × List ℕ)
    pub at : get_elem? inputs i ≡ some input
    pub made : vm ≡ new_vm input.signature_script script program
    pub sig_fits : length input.signature_script ≤ btcd.max_script_size
    pub script_fits : length script ≤ btcd.max_script_size

  abbrev pub Makes : (Vm → Type 0) → Result Vm → Type 0
  Makes P (ok vm) = P vm
  Makes P (err e) = Unit

  check_scripts-fits :
      (a b : List ℕ)
      → check_scripts btcd (a ∷ b ∷ []) ≡ none
      → (length a ≤ btcd.max_script_size) × (length b ≤ btcd.max_script_size)
  unfolding check_scripts
  check_scripts-fits a b h = ground (arith, h)

  new_engine-IsNew :
      (script : List ℕ) (inputs : List TxIn) (tx_idx : ℤ)
      → Makes (IsNew script inputs (pos_part tx_idx)) (new_engine btcd script inputs tx_idx)
  unfolding new_engine
  new_engine-IsNew script inputs tx_idx =
      if_cases makes (ltb_ℤ tx_idx (pos 0) || not (ltb_ℤ tx_idx (pos (length inputs)))) (λ _. tt)
        (λ _. go (get_elem? inputs (pos_part tx_idx)) refl)
    where
      makes : Result Vm → Type 0
      makes = Makes (IsNew script inputs (pos_part tx_idx))

      created :
          (input : TxIn)
          → get_elem? inputs (pos_part tx_idx) ≡ some input
          → (o : Option ErrorCode) (r : Result (Option (ℕ × List ℕ)))
          → check_scripts btcd (input.signature_script ∷ script ∷ []) ≡ o
          → makes (create btcd input script o r)
      created input e (some x) r h = tt
      created input e none (err x) h = tt
      created input e none (ok program) h =
          let (a, b) = check_scripts-fits input.signature_script script h in
          record {
            input = input;
            program = program;
            at = e;
            made = refl;
            sig_fits = a;
            script_fits = b;
          }

      go :
          (o : Option TxIn)
          → get_elem? inputs (pos_part tx_idx) ≡ o
          → makes (new_engine_at btcd script o)
      go none e = tt
      go (some input) e =
          if_cases makes (length input.signature_script == 0 && length script == 0) (λ _. tt)
            (λ _.
              if_cases makes (not (btcd.is_push_only_script input.signature_script)) (λ _. tt)
                (λ _.
                  created input e (check_scripts btcd (input.signature_script ∷ script ∷ []))
                    (find_program btcd input script) refl))

module _ (btcd : Btcd) (opfunc : ℕ → List ℕ → Handler) (witness : List Item)
    (small : item_bytes witness < 2 ^ 31) (sig script : List ℕ)
    (program : Option (ℕ × List ℕ)) where
  -- A new engine whose stacks, counters and context have been set.
  abbrev set_up : Engine → Bool → Vm
  set_up engine must_succeed = record (new_vm sig script program) {
    engine = engine;
    must_succeed = must_succeed;
  }

  set_up-IsRunning :
      (engine : Engine) (must_succeed : Bool)
      → length sig < 2 ^ 31
      → length script < 2 ^ 31
      → IsRunning btcd opfunc witness small (set_up engine must_succeed)
  set_up-IsRunning engine must_succeed sig_short script_short = record {
    script = if length sig == 0 then script else sig;
    i = 0;
    count = negsuc 0;
    op = none;
    bytes = [];
    at = refl;
    inside = omega arith;
    short =
        if_cases (λ (s : List ℕ). length s < 2 ^ 31) (length sig == 0) (λ _. script_short)
          (λ _. sig_short);
    shorts = (sig_short, (script_short, tt));
    zero_version = refl;
  }

  measure-set_up :
      (engine : Engine) (must_succeed : Bool)
      → measure btcd opfunc witness small (set_up engine must_succeed)
        ≤ length sig + length script + item_bytes witness
  unfolding item_bytes
  measure-set_up engine must_succeed = elim (Bool-cases (length sig == 0)) [
    | inl none_given ↦ rw none_given (omega arith)
    | inr given ↦ rw given (omega arith)
  ]

  execute_total :
      (fuel : ℕ) (engine : Engine) (must_succeed : Bool)
      → length sig < 2 ^ 31
      → length script < 2 ^ 31
      → length sig + length script + item_bytes witness < fuel
      → (out : Result (Unit {0}) × Vm) × (execute btcd opfunc witness fuel
            (set_up engine must_succeed)
          ≡ some out)
  unfolding execute
  execute_total fuel engine must_succeed sig_short script_short enough =
      steps_total btcd opfunc witness small fuel (set_up engine must_succeed)
        (set_up-IsRunning engine must_succeed sig_short script_short)
        (omega (arith, enough, measure-set_up engine must_succeed))

-- The bytes of an input.
abbrev pub input_bytes : Option TxIn → ℕ
input_bytes none = 0
input_bytes (some input) = length input.signature_script + item_bytes input.witness

module _ (btcd : Btcd) (wire : Wire (List Item)) (max_satoshi : ℕ) (opfunc : ℕ → List ℕ → Handler)
    (limited : btcd.max_script_size < 2 ^ 31) where
  abbrev Returns : Option Outcome → Type 0
  Returns o = (out : Outcome) × (o ≡ some out)

  ended-Returns :
      (o : Option (Result (Unit {0}) × Vm))
      → (out : Result (Unit {0}) × Vm) × (o ≡ some out)
      → Returns (ended btcd wire max_satoshi opfunc o)
  ended-Returns none (out, e) = cc
  ended-Returns (some out') (out, e) = (ran out', refl)

  configured-Returns :
      (fuel : ℕ) (script : List ℕ) (witness : List Item) (options : List ExecuteOption)
      (input : TxIn) (program : Option (ℕ × List ℕ))
      → length input.signature_script < 2 ^ 31
      → length script < 2 ^ 31
      → input_bytes (some input) < 2 ^ 31
      → length script + input_bytes (some input) < fuel
      → Returns (
          ended btcd wire max_satoshi opfunc (
            execute btcd opfunc input.witness fuel (
              with_witness witness
                (configure options (new_vm input.signature_script script program)))))
  configured-Returns fuel script witness options input program sig_short script_short small enough =
      if_cases
        (λ (v : Vm).
          Returns (ended btcd wire max_satoshi opfunc (execute btcd opfunc input.witness fuel v)))
        (length witness == 0) (λ _. runs vm.engine) (λ _. runs (with_witness' vm).engine)
    where
      vm : Vm
      vm = configure options (new_vm input.signature_script script program)

      with_witness' : Vm → Vm
      with_witness' v = record v {
        engine = record v.engine { dstack = set_stack witness v.engine.dstack };
      }

      runs :
          (engine : Engine)
          → Returns (
              ended btcd wire max_satoshi opfunc
                (execute btcd opfunc input.witness fuel (record vm { engine = engine })))
      runs engine =
          ended-Returns (execute btcd opfunc input.witness fuel (record vm { engine = engine })) (
            execute_total btcd opfunc input.witness (omega (arith, small)) input.signature_script
              script program fuel engine false sig_short script_short (omega (arith, enough)))

  bound-Returns :
      (fuel : ℕ) (s : ArkadeScript) (input_index : ℤ) (inputs : List TxIn)
      (options : List ExecuteOption) (vm : Vm)
      (p : Parsed (Option (List (EmulatorEntry (List Item)))))
      → IsNew btcd s.script inputs (pos_part input_index) vm
      → input_bytes (get_elem? inputs (pos_part input_index)) < 2 ^ 31
      → length s.script + input_bytes (get_elem? inputs (pos_part input_index)) < fuel
      → Returns (
          run_bound btcd wire max_satoshi opfunc fuel s input_index
            (witness_of btcd wire max_satoshi opfunc (get_elem? inputs (pos_part input_index)))
            (configure options vm)
            p)
  bound-Returns fuel s input_index inputs options vm (refused e) new small enough = (_, refl)
  bound-Returns fuel s input_index inputs options vm (parsed packet) new small enough =
      if_cases Returns (is_unbound btcd wire max_satoshi opfunc s input_index packet)
        (λ _. (_, refl))
        (λ _.
          let small' : input_bytes (some new.input) < 2 ^ 31 = rw new.at at small in
          let enough' : length s.script + input_bytes (some new.input) < fuel =
            rw new.at at enough in
          rw (new.at, new.made)
            (configured-Returns fuel s.script s.witness options new.input new.program
              (omega (arith, new.sig_fits, limited)) (omega (arith, new.script_fits, limited))
              small' enough'))

  engine-Returns :
      (fuel : ℕ) (s : ArkadeScript) (tx : SpendingTx) (input_index : ℤ)
      (options : List ExecuteOption) (r : Result Vm)
      → Makes btcd (IsNew btcd s.script tx.inputs (pos_part input_index)) r
      → input_bytes (get_elem? tx.inputs (pos_part input_index)) < 2 ^ 31
      → length s.script + input_bytes (get_elem? tx.inputs (pos_part input_index)) < fuel
      → Returns (run_engine btcd wire max_satoshi opfunc fuel s tx input_index options r)
  engine-Returns fuel s tx input_index options (err e) new small enough = (_, refl)
  engine-Returns fuel s tx input_index options (ok vm) new small enough =
      if_cases Returns (is_bad tx.extension) (λ _. (_, refl))
        (λ _.
          bound-Returns fuel s input_index tx.inputs options vm
            (find_emulator_packet wire (length tx.inputs) tx.extension) new small enough)

  or_rejected-Returns :
      (e : Option ScriptError) (o : Option Outcome) → Returns o → Returns (or_rejected e o)
  or_rejected-Returns none o h = h
  or_rejected-Returns (some e) o h = (rejected e, refl)

  given-Returns :
      (fuel : ℕ) (s : ArkadeScript) (tx : SpendingTx) (has_fetcher : Bool) (input_index : ℤ)
      (options : List ExecuteOption)
      → input_bytes (get_elem? tx.inputs (pos_part input_index)) < 2 ^ 31
      → length s.script + input_bytes (get_elem? tx.inputs (pos_part input_index)) < fuel
      → Returns (
          execute_script btcd wire max_satoshi opfunc fuel s
            (some tx)
            has_fetcher
            input_index
            options)
  unfolding execute_script
  given-Returns fuel s tx has_fetcher input_index options small enough =
      if_cases Returns
        (ltb_ℤ input_index (pos 0) || not (ltb_ℤ input_index (pos (length tx.inputs))))
        (λ _. (_, refl))
        (λ _.
          if_cases Returns (not has_fetcher) (λ _. (_, refl))
            (λ _.
              or_rejected-Returns (check_prevouts btcd wire max_satoshi opfunc tx.inputs)
                (run_engine btcd wire max_satoshi opfunc fuel s tx input_index options
                  (new_engine btcd s.script tx.inputs input_index))
                (engine-Returns fuel s tx input_index options
                  (new_engine btcd s.script tx.inputs input_index)
                  (new_engine-IsNew btcd s.script tx.inputs input_index) small enough)))

-- ArkadeScript.Execute always returns: a script is refused, or the engine runs and its loop over Step ends, in
-- fewer steps than the script, the signature script and the witness of the input have bytes, and one, where
-- the two last have fewer than 2^31 bytes, and so has the largest script that btcd allows.
pub execute_script_total :
    (btcd : Btcd) (wire : Wire (List Item)) (max_satoshi : ℕ) (opfunc : ℕ → List ℕ → Handler)
    (fuel : ℕ) (s : ArkadeScript) (tx : SpendingTx) (has_fetcher : Bool) (input_index : ℤ)
    (options : List ExecuteOption)
    → btcd.max_script_size < 2 ^ 31
    → input_bytes (get_elem? tx.inputs (pos_part input_index)) < 2 ^ 31
    → length s.script + input_bytes (get_elem? tx.inputs (pos_part input_index)) < fuel
    → (out : Outcome) × (execute_script btcd wire max_satoshi opfunc fuel s
          (some tx)
          has_fetcher
          input_index
          options
        ≡ some out)
execute_script_total btcd wire max_satoshi opfunc fuel s tx has_fetcher input_index options limited
      small enough =
    given-Returns btcd wire max_satoshi opfunc limited fuel s tx has_fetcher input_index options
      small enough
