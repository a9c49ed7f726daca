-- ===== src/Arkade/Vm/Total.antt =====
-- Execute of pkg/arkade/engine.go ends: every step that does not end the loop reads bytes of a script.
use arkade_2fa_vault_poc.Prelude.{
  ℕ, zero, suc, ◌+◌, ◌-◌, ◌^◌, ◌<◌, ◌≤◌, ◌≡◌, refl, ap, Bool, true, false, Option, some, List,
  length, drop, arith, leb, if_cases,
}
use arkade_2fa_vault_poc.Prelude.Int.{ℤ, pos_part}
use arkade_2fa_vault_poc.Arkade.Result.{Result, ok, err, continue, ◌>>◌}
use arkade_2fa_vault_poc.Arkade.Ensures.{Ensures, Ensures-mono, Ensures-continue}
use arkade_2fa_vault_poc.Arkade.Stack.{Item}
use arkade_2fa_vault_poc.Arkade.Tokenizer.{ScriptTokenizer, done, next, opcode}
use arkade_2fa_vault_poc.Arkade.Tokenizer.Tokens.{tokenizer_at}
use arkade_2fa_vault_poc.Arkade.Tokenizer.Progress.{Moved, forward, stopped, next-Moved}
use arkade_2fa_vault_poc.Arkade.Machine.{Engine}
use arkade_2fa_vault_poc.Arkade.Machine.Opcodes.{Handler}
use arkade_2fa_vault_poc.Arkade.Machine.Execute.{item_bytes, execute_opcode, check_stacks}
use arkade_2fa_vault_poc.Arkade.Vm.{Btcd, Vm}
use arkade_2fa_vault_poc.Arkade.Vm.Steps.{
  no_conditional, clear_alt, enter_script, advance_script, end_script, finish_opcode, run_opcode,
  step, steps, after_step, verdict,
}
use arkade_2fa_vault_poc.Arkade.Vm.Ready.{
  AreShort, pending, measure, IsRunning, IsReady, Continues, IsRunning-same, advance-IsReady,
  enter-Continues,
}

module _ (btcd : Btcd) (opfunc : ℕ → List ℕ → Handler) (witness : List Item)
    (small : item_bytes witness < 2 ^ 31) where
  end_script-Continues :
      (vm : Vm)
      → AreShort vm.scripts
      → vm.version ≡ 0
      → Ensures
          (Continues btcd opfunc witness small (
            item_bytes (drop (suc vm.script_idx) vm.scripts)
            + pending btcd opfunc witness small vm.script_idx))
          (end_script btcd opfunc witness vm)
  unfolding end_script
  end_script-Continues vm shorts zero_version =
      let bound =
        item_bytes (drop (suc vm.script_idx) vm.scripts)
        + pending btcd opfunc witness small vm.script_idx in
      let vm' = record vm { engine = clear_alt vm.engine; opcode_idx = 0 } in
      if_cases (Ensures (Continues btcd opfunc witness small bound))
        (no_conditional vm.engine.cond_stack)
        (λ _.
          Ensures-continue (λ (u : Unit {0}). IsReady btcd opfunc witness small bound)
            (Continues btcd opfunc witness small bound) (advance_script btcd opfunc witness vm')
            (λ _. enter_script) (advance-IsReady btcd opfunc witness small vm' shorts zero_version)
            (λ u v h. enter-Continues btcd opfunc witness small bound v h))
        (λ _. tt)

  -- The loop goes on with less than `left` bytes to read.
  abbrev pub Ends : ℕ → Bool → Vm → Type 0
  Ends left true vm = Unit
  Ends left false vm =
      IsRunning btcd opfunc witness small vm × (measure btcd opfunc witness small vm < left)

  finish-Ends :
      (vm : Vm) (left : ℕ)
      → IsRunning btcd opfunc witness small vm
      → measure btcd opfunc witness small vm < left
      → Ensures (Ends left) (finish_opcode btcd opfunc witness vm)
  unfolding finish_opcode
  finish-Ends vm left h less =
      let vm' = record vm { opcode_idx = vm.opcode_idx + 1 } in
      let bound =
        item_bytes (drop (suc vm.script_idx) vm.scripts)
        + pending btcd opfunc witness small vm.script_idx in
      if_cases (Ensures (Ends left)) (done vm.tokenizer)
        (λ _.
          Ensures-mono (Continues btcd opfunc witness small bound) (Ends left)
            (end_script btcd opfunc witness vm') (below bound (omega (arith, less)))
            (end_script-Continues vm' h.shorts h.zero_version))
        (λ _. (IsRunning-same btcd opfunc witness small vm vm' refl refl refl h, less))
    where
      below :
          (bound : ℕ)
          → bound < left
          → (again : Bool) (v : Vm) → Continues btcd opfunc witness small bound again v
          → Ends left again v
      below bound lt true v c = tt
      below bound lt false v (running, fits) = (running, omega (arith, lt, fits))

  step-Ends :
      (vm : Vm)
      → IsRunning btcd opfunc witness small vm
      → Ensures (Ends (measure btcd opfunc witness small vm)) (step btcd opfunc witness vm)
  unfolding step
  step-Ends vm h =
      if_cases (Ensures (Ends (measure btcd opfunc witness small vm)))
        (leb (length vm.scripts) vm.script_idx) (λ _. tt) (λ _. go (next vm.tokenizer) moved)
    where
      moved : Moved 0 h.script h.i (next vm.tokenizer)
      moved = rw h.at (next-Moved 0 h.script h.i h.count h.op h.bytes h.inside h.short)

      left :
          measure btcd opfunc witness small vm
          ≡ (length h.script - h.i)
            + (item_bytes (drop (suc vm.script_idx) vm.scripts)
                + pending btcd opfunc witness small vm.script_idx)
      left =
          ap
            (λ (t : ScriptTokenizer).
              (length t.script - pos_part t.offset)
              + (item_bytes (drop (suc vm.script_idx) vm.scripts)
                  + pending btcd opfunc witness small vm.script_idx))
            h.at

      executed :
          (j : ℕ) (count : ℤ) (op : Option ℕ) (bytes : List ℕ)
          → h.i < j
          → j ≤ length h.script
          → (t : Result (Unit {0}) × Engine)
          → let vm' = record vm { tokenizer = tokenizer_at 0 h.script j count op bytes } in
            Ensures
              (Ends (measure btcd opfunc witness small vm))
              (continue (t.0, record vm' { engine = t.1 }) (λ _. finish_opcode btcd opfunc witness))
      executed j count op bytes ahead within (err e, engine) = tt
      executed j count op bytes ahead within (ok u, engine) =
          finish-Ends
            (record vm { tokenizer = tokenizer_at 0 h.script j count op bytes; engine = engine })
            (measure btcd opfunc witness small vm)
            (record {
              script = h.script;
              i = j;
              count = count;
              op = op;
              bytes = bytes;
              at = refl;
              inside = within;
              short = h.short;
              shorts = h.shorts;
              zero_version = h.zero_version;
            })
            (omega (arith, left, ahead, within))

      go :
          (s : Bool × ScriptTokenizer)
          → Moved 0 h.script h.i s
          → Ensures
              (Ends (measure btcd opfunc witness small vm))
              (run_opcode btcd opfunc witness s vm)
      go s (stopped t ended) = tt
      go s (forward j count op bytes ahead within) = executed j count op bytes ahead within (
          (execute_opcode btcd.max_script_element_size opfunc (opcode op) bytes
              >> check_stacks btcd.max_stack_size)
            vm.engine)

  pub steps_total :
      (n : ℕ) (vm : Vm)
      → IsRunning btcd opfunc witness small vm
      → measure btcd opfunc witness small vm < n
      → (out : Result (Unit {0}) × Vm) × (steps btcd opfunc witness n vm ≡ some out)
  unfolding steps
  steps_total zero vm h less = absurd (omega (arith, less))
  steps_total (suc n) vm h less =
      go (step btcd opfunc witness vm) (step-Ends vm h)
        (λ v r m. steps_total n v r (omega (arith, less, m)))
    where
      go :
          (t : Result Bool × Vm)
          → Ensures (Ends (measure btcd opfunc witness small vm)) t
          → ((v : Vm)
              → IsRunning btcd opfunc witness small v
              → measure btcd opfunc witness small v < measure btcd opfunc witness small vm
              → (out : Result (Unit {0}) × Vm) × (steps btcd opfunc witness n v ≡ some out))
          → (out : Result (Unit {0}) × Vm) × (after_step btcd opfunc witness
                (λ v. steps btcd opfunc witness n v)
                t
              ≡ some out)
      go (err e, v) ends again = ((err e, v), refl)
      go (ok true, v) ends again = (verdict btcd opfunc witness v, refl)
      go (ok false, v) (running, less') again = again v running less'
