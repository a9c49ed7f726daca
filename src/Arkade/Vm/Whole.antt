-- ===== src/Arkade/Vm/Whole.antt =====
-- Execute of pkg/arkade/engine.go on one script, against the opcodes of the script run in order.
use mathlib.Core.List.{append_assoc}
use arkade_2fa_vault_poc.Prelude.{
  ℕ, zero, suc, ◌+◌, ◌^◌, ◌<◌, ◌≡◌, refl, Bool, true, false, Option, none, some, List, [], ◌∷◌,
  ◌++◌, length, length-append, arith, if◌then◌else◌, Bool-cases, inl, inr,
}
use arkade_2fa_vault_poc.Prelude.Int.{ℤ, pos, negsuc, ◌+ℤ◌, int32}
use arkade_2fa_vault_poc.Arkade.Result.{
  Result, ok, err, unbalanced_conditional, continue, Action, ◌>>◌,
}
use arkade_2fa_vault_poc.Arkade.Stack.{Item}
use arkade_2fa_vault_poc.Arkade.Tokenizer.{ScriptTokenizer, done}
use arkade_2fa_vault_poc.Arkade.Tokenizer.Tokens.{Token, tokenizer_at}
use arkade_2fa_vault_poc.Arkade.Tokenizer.RoundTrip.{
  Encoded, nothing, opcode_first, next-Token, not_done, at_end, Token-length,
}
use arkade_2fa_vault_poc.Arkade.Machine.{Engine}
use arkade_2fa_vault_poc.Arkade.Machine.Opcodes.{Handler}
use arkade_2fa_vault_poc.Arkade.Machine.Execute.{run_opcodes, check_top, check_error_condition}
use arkade_2fa_vault_poc.Arkade.Vm.{Btcd, Vm}
use arkade_2fa_vault_poc.Arkade.Vm.Create.{new_vm}
use arkade_2fa_vault_poc.Arkade.Vm.Steps.{
  no_conditional, clear_alt, enter_script, advance_script, end_script, finish_opcode, step, steps,
  after_step, execute,
}

-- What the end of a script asks of the engine: no open conditional, and one true item.
abbrev pub end_of_script : Action Engine (Unit {0})
end_of_script engine =
    if no_conditional engine.cond_stack
    then check_top true (clear_alt engine)
    else (err unbalanced_conditional, engine)

-- The loop ended with this result and this engine.
abbrev pub Agrees : Option (Result (Unit {0}) × Vm) → Result (Unit {0}) × Engine → Type 0
Agrees o r = (vm : Vm) × (o ≡ some (r.0, vm)) × (vm.engine ≡ r.1)

module _ (btcd : Btcd) (opfunc : ℕ → List ℕ → Handler) (witness : List Item) where
  abbrev pub whole : List (ℕ × List ℕ) → Action Engine (Unit {0})
  whole tokens =
      run_opcodes btcd.max_script_element_size btcd.max_stack_size opfunc tokens >> end_of_script

  -- At a token of the script, with an empty signature script before it and no witness program.
  abbrev run_vm : List ℕ → ScriptTokenizer → ℕ → Engine → Vm
  run_vm script t k engine = record (new_vm [] script none) {
    tokenizer = t;
    opcode_idx = k;
    engine = engine;
  }

  last-Agrees :
      (n : ℕ) (script : List ℕ) (t : ScriptTokenizer) (k : ℕ) (engine : Engine)
      → done t ≡ true
      → Agrees
          (after_step btcd opfunc witness
            (λ v. steps btcd opfunc witness n v)
            (finish_opcode btcd opfunc witness (run_vm script t k engine)))
          (end_of_script engine)
  unfolding finish_opcode end_script advance_script enter_script check_error_condition
  last-Agrees n script t k engine ended = elim (Bool-cases (no_conditional engine.cond_stack)) [
    | inl closed ↦ rw (ended, closed) (_, refl, refl)
    | inr opened ↦ rw (ended, opened) (_, refl, refl)
  ]

  -- What remains of a run after one opcode and its checks.
  abbrev then_finish : Vm → Result (Unit {0}) × Engine → Result Bool × Vm
  then_finish vm t =
      continue (t.0, record vm { engine = t.1 }) (λ _. finish_opcode btcd opfunc witness)

  opcode-Agrees :
      (n : ℕ) (vm : Vm) (t : Result (Unit {0}) × Engine) (rest : Action Engine (Unit {0}))
      → ((engine : Engine)
          → Agrees
              (after_step btcd opfunc witness
                (λ v. steps btcd opfunc witness n v)
                (finish_opcode btcd opfunc witness (record vm { engine = engine })))
              ((rest >> end_of_script) engine))
      → Agrees
          (after_step btcd opfunc witness (λ v. steps btcd opfunc witness n v) (then_finish vm t))
          (continue (continue t (λ _. rest)) (λ _. end_of_script))
  opcode-Agrees n vm (ok u, engine) rest later = later engine
  opcode-Agrees n vm (err e, engine) rest later = (record vm { engine = engine }, refl, refl)

  more-Agrees :
      (n : ℕ) (script : List ℕ) (t : ScriptTokenizer) (k : ℕ) (engine : Engine)
      (r : Result (Unit {0}) × Engine)
      → done t ≡ false
      → Agrees (steps btcd opfunc witness n (run_vm script t (k + 1) engine)) r
      → Agrees
          (after_step btcd opfunc witness
            (λ v. steps btcd opfunc witness n v)
            (finish_opcode btcd opfunc witness (run_vm script t k engine)))
          r
  unfolding finish_opcode
  more-Agrees n script t k engine r going later = rw going later

  -- The place of a tokenizer that has read `pre`.
  abbrev after : List ℕ → List ℕ → ℤ → Option ℕ → List ℕ → ScriptTokenizer
  after pre rest count old before = tokenizer_at 0 (pre ++ rest) (length pre) count old before

  steps-Agrees :
      {tokens : List (ℕ × List ℕ)} {rest : List ℕ} {op : ℕ} {bytes enc : List ℕ}
      → Encoded tokens rest
      → Token op bytes enc
      → (n : ℕ) (pre : List ℕ) (count : ℤ) (old : Option ℕ) (before : List ℕ) (k : ℕ)
        (engine : Engine)
      → length tokens < n
      → length (pre ++ (enc ++ rest)) < 2 ^ 31
      → Agrees
          (steps btcd opfunc witness n
            (run_vm (pre ++ (enc ++ rest)) (after pre (enc ++ rest) count old before) k engine))
          (whole ((op, bytes) ∷ tokens) engine)
  unfolding steps step run_opcodes
  steps-Agrees e token zero pre count old before k engine fuel short = absurd (omega (arith, fuel))
  steps-Agrees {op = op} {bytes = bytes} {enc = enc} nothing token (suc n) pre count old before k
        engine fuel short =
      let script = pre ++ (enc ++ []) in
      let size : length pre + length enc ≡ length script =
        omega (arith, length-append pre (enc ++ []), length-append enc []) in
      let count' = int32 (count +ℤ pos 1) in
      let ended : done (tokenizer_at 0 script (length pre + length enc) count' (some op) bytes)
          ≡ true =
        rw size (at_end 0 script count' (some op) bytes short) in
      rw (next-Token 0 pre enc [] op bytes count old before token short) (
        opcode-Agrees n (run_vm script _ k engine) _ _
          (λ engine'. last-Agrees n script _ k engine' ended))
  steps-Agrees {op = op} {bytes = bytes} {enc = enc}
        (opcode_first {enc = enc'} {script = rest'} token' e) token (suc n) pre count old before k
        engine fuel short =
      let rest = enc' ++ rest' in
      let script = pre ++ (enc ++ rest) in
      let count' = int32 (count +ℤ pos 1) in
      let inside : length pre + length enc < length script = omega (
        arith,
        length-append pre (enc ++ rest),
        length-append enc rest,
        length-append enc' rest',
        Token-length token',
      ) in
      let going : done (tokenizer_at 0 script (length pre + length enc) count' (some op) bytes)
          ≡ false =
        not_done 0 script (length pre + length enc) count' (some op) bytes inside short in
      let whole_short : length ((pre ++ enc) ++ rest) < 2 ^ 31 =
        rw (append_assoc pre enc rest) short in
      rw (next-Token 0 pre enc rest op bytes count old before token short) (
        opcode-Agrees n (run_vm script _ k engine) _ _ (λ engine'.
          more-Agrees n script _ k engine' _ going (
            rw (append_assoc pre enc rest, length-append pre enc) at
              (steps-Agrees e token' n (pre ++ enc) count' (some op) bytes (k + 1) engine'
                (omega (arith, fuel)) whole_short))))

-- Execute on a script that is not a witness program, behind an empty signature script, does what its opcodes do
-- one after the other, each with the checks of Step, and then the checks of the end: no open conditional, and
-- one true item. The script is made of at least one encoded opcode and has fewer than 2^31 bytes, the stacks
-- and the counters may be any, and as many steps as there are opcodes are enough.
pub execute-whole :
    (btcd : Btcd) (opfunc : ℕ → List ℕ → Handler) (witness : List Item) (fuel : ℕ) (op : ℕ)
    (bytes : List ℕ) (tokens : List (ℕ × List ℕ)) (script : List ℕ) (engine : Engine)
    → Encoded ((op, bytes) ∷ tokens) script
    → length script < 2 ^ 31
    → length tokens < fuel
    → Agrees
        (execute btcd opfunc witness fuel (record (new_vm [] script none) { engine = engine }))
        (whole btcd opfunc witness ((op, bytes) ∷ tokens) engine)
unfolding execute
execute-whole btcd opfunc witness fuel op bytes tokens script engine (opcode_first token e) short
      enough =
    steps-Agrees btcd opfunc witness e token fuel [] (negsuc 0) none [] 0 engine enough short
