-- ===== src/Arkade/Machine/Charged.antt =====
-- What a run of opcodes by executeOpcode and Step of pkg/arkade/engine.go charges, and the limits it
-- stays within.
use arkade_2fa_vault_poc.Prelude.{
  ℕ, ◌≡◌, refl, ap, sym, ◌∙◌, Bool, true, false, not, ◌&&◌, ◌||◌, Option, some, List, [], ◌∷◌,
  length, ltb, if_cases, if◌then◌else◌, Bool-cases, inl, inr,
}
use arkade_2fa_vault_poc.Prelude.Int.{ℤ, pos, ◌≤ℤ◌, ◌<ℤ◌}
use arkade_2fa_vault_poc.Arkade.Result.{Result, ok, err, stack_overflow, continue, ◌>>◌}
use arkade_2fa_vault_poc.Arkade.ComputeLimits.{
  Meter, ComputeLimits, ComputeBudget, charge_opcode, charge_all, new_meter, limit_of, validate,
  max_int,
}
use arkade_2fa_vault_poc.Arkade.ComputeLimits.Bounds.{times}
use arkade_2fa_vault_poc.Arkade.ComputeLimits.Requests.{input_bound}
use arkade_2fa_vault_poc.Arkade.Machine.{Engine, on_meter}
use arkade_2fa_vault_poc.Arkade.Machine.Conditionals.{is_branch_executing}
use arkade_2fa_vault_poc.Arkade.Machine.Opcodes.{Handler}
use arkade_2fa_vault_poc.Arkade.Machine.Execute.{
  is_opcode_always_illegal, is_opcode_conditional, is_wide_push, is_over_items, is_over_bytes,
  execute_opcode, check_stacks, run_opcodes,
}
use arkade_2fa_vault_poc.Arkade.Machine.Table.{opfunc}
use arkade_2fa_vault_poc.Arkade.Machine.Counters.{KeepsMeter, opfunc-KeepsMeter}

-- Whether executeOpcode runs the opcode at all.
abbrev pub is_run : ℕ → Engine → Bool
is_run op vm = is_branch_executing vm.cond_stack || is_opcode_conditional op

is_run-hidden : (a b : Bool) → (not a && not b) ≡ true → (a || b) ≡ false
is_run-hidden true b h = cc
is_run-hidden false true h = cc
is_run-hidden false false h = refl

is_run-shown : (a b : Bool) → (not a && not b) ≡ false → (a || b) ≡ true
is_run-shown true b h = refl
is_run-shown false true h = refl
is_run-shown false false h = cc

-- What one opcode costs.
abbrev Fee : Bool → ℕ → Meter → Meter → Type 0
Fee true op m m' = charge_opcode op m ≡ (ok tt, m')
Fee false op m m' = m' ≡ m

pub check_stacks-same : (max_items : ℕ) (vm : Engine) → (check_stacks max_items vm).1 ≡ vm
unfolding check_stacks
check_stacks-same max_items vm =
    if_cases (λ (t : Result (Unit {0}) × Engine). t.1 ≡ vm) (is_over_items max_items vm)
      {x = (err stack_overflow, vm)}
      {y = if is_over_bytes vm then (err stack_overflow, vm) else (ok tt, vm)} (λ _. refl)
      (λ _.
        if_cases (λ (t : Result (Unit {0}) × Engine). t.1 ≡ vm) (is_over_bytes vm)
          {x = (err stack_overflow, vm)} {y = (ok tt, vm)} (λ _. refl) (λ _. refl))

module _ (max_element : ℕ) (handler : ℕ → List ℕ → Handler) where
  -- The opcodes that a run executes.
  abbrev pub executed : List (ℕ × List ℕ) → Engine → List ℕ
  executed [] vm = []
  executed ((op, bytes) ∷ ops) vm =
      let rest = executed ops (execute_opcode max_element handler op bytes vm).1 in
      if is_run op vm then op ∷ rest else rest

module _ (max_element : ℕ) (handler : ℕ → List ℕ → Handler)
    (keep : (op : ℕ) (bytes : List ℕ) → KeepsMeter (handler op bytes)) where
  abbrev Paid : ℕ → Engine → Result (Unit {0}) × Engine → Type 0
  Paid op vm out = out.0 ≡ ok tt → Fee (is_run op vm) op vm.meter out.1.meter

  run-Paid :
      (op : ℕ) (bytes : List ℕ) (vm : Engine)
      → is_run op vm ≡ true
      → Paid op vm ((on_meter (charge_opcode op) >> handler op bytes) vm)
  run-Paid op bytes vm on = rw on (go (charge_opcode op vm.meter))
    where
      go :
          (t : Result (Unit {0}) × Meter)
          → (continue (t.0, record vm { meter = t.1 }) (λ _. handler op bytes)).0 ≡ ok tt
          → t ≡ (ok tt, (continue (t.0, record vm { meter = t.1 }) (λ _. handler op bytes)).1.meter)
      go (ok u, m) h =
          ap (λ (x : Meter). (ok tt, x)) (sym (keep op bytes (record vm { meter = m })))
      go (err e, m) h = cc

  execute-Paid :
      (op : ℕ) (bytes : List ℕ) (vm : Engine)
      → Paid op vm (execute_opcode max_element handler op bytes vm)
  unfolding execute_opcode
  execute-Paid op bytes vm =
      if_cases (Paid op vm) (is_opcode_always_illegal op) (λ _ h. cc)
        (λ _.
          if_cases (Paid op vm) (ltb max_element (length bytes)) (λ _ h. cc)
            (λ _.
              if_cases (Paid op vm)
                (not (is_branch_executing vm.cond_stack) && not (is_opcode_conditional op))
                (λ hidden h.
                  rw
                    (is_run-hidden (is_branch_executing vm.cond_stack) (is_opcode_conditional op)
                      hidden)
                    refl)
                (λ shown.
                  if_cases (Paid op vm) (is_wide_push op bytes vm) (λ _ h. cc)
                    (λ _. run-Paid op bytes vm (
                      is_run-shown (is_branch_executing vm.cond_stack) (is_opcode_conditional op)
                        shown)))))

  module _ (max_items : ℕ) where
    run_opcodes_ok :
        (op : ℕ) (bytes : List ℕ) (ops : List (ℕ × List ℕ)) (vm : Engine)
        → (run_opcodes max_element max_items handler ((op, bytes) ∷ ops) vm).0 ≡ ok tt
        → let next = execute_opcode max_element handler op bytes vm in
          (next.0 ≡ ok tt)
          × (run_opcodes max_element max_items handler ((op, bytes) ∷ ops) vm
              ≡ run_opcodes max_element max_items handler ops next.1)
    unfolding run_opcodes
    run_opcodes_ok op bytes ops vm = go (execute_opcode max_element handler op bytes vm)
      where
        checked :
            (t : Result (Unit {0}) × Engine) (vm' : Engine)
            → t.1 ≡ vm'
            → (continue t (λ _. run_opcodes max_element max_items handler ops)).0 ≡ ok tt
            → continue t (λ _. run_opcodes max_element max_items handler ops)
              ≡ run_opcodes max_element max_items handler ops vm'
        checked (ok u, v) vm' e h = rw e refl
        checked (err x, v) vm' e h = cc

        go :
            (t : Result (Unit {0}) × Engine)
            → (continue
                (continue t (λ _. check_stacks max_items))
                (λ _. run_opcodes max_element max_items handler ops)).0
              ≡ ok tt
            → (t.0 ≡ ok tt)
              × (continue
                    (continue t (λ _. check_stacks max_items))
                    (λ _. run_opcodes max_element max_items handler ops)
                  ≡ run_opcodes max_element max_items handler ops t.1)
        go (ok u, v) h =
            (refl, checked (check_stacks max_items v) v (check_stacks-same max_items v) h)
        go (err x, v) h = cc

    run-charge_all :
        (ops : List (ℕ × List ℕ)) (vm : Engine)
        → (run_opcodes max_element max_items handler ops vm).0 ≡ ok tt
        → charge_all (executed max_element handler ops vm) vm.meter
          ≡ (ok tt, (run_opcodes max_element max_items handler ops vm).1.meter)
    unfolding run_opcodes charge_all
    run-charge_all [] vm h = refl
    run-charge_all ((op, bytes) ∷ ops) vm h =
        let next = execute_opcode max_element handler op bytes vm in
        let (passed, same) = run_opcodes_ok op bytes ops vm h in
        let later = run-charge_all ops next.1 (rw same at h) in
        let paid : Fee (is_run op vm) op vm.meter next.1.meter = execute-Paid op bytes vm passed in
        elim (Bool-cases (is_run op vm)) [
          | inl on ↦
              let fee : charge_opcode op vm.meter ≡ (ok tt, next.1.meter) = rw on at paid in
              rw (on, same, fee) later
          | inr off ↦
              let fee : next.1.meter ≡ vm.meter = rw off at paid in
              rw (off, same)
                (ap (λ (x : Meter). charge_all (executed max_element handler ops next.1) x)
                    (sym fee)
                  ∙ later)
        ]

-- On an engine with fresh counters, a run of opcodes that succeeds executes an opcode, hidden branches not
-- counted, no more often than the limits of the input say, for validated limits, a limit below MaxInt, and
-- handlers outside the model that leave the counters alone.
pub executed_bound :
    (max_element max_items : ℕ) (others : ℕ → List ℕ → Handler) (op : ℕ) (limit : ℤ)
    (limits : ComputeLimits) (budget : Option ComputeBudget) (ops : List (ℕ × List ℕ)) (vm : Engine)
    → ((j : ℕ) (bytes : List ℕ) → KeepsMeter (others j bytes))
    → vm.meter ≡ new_meter limits budget
    → validate limits ≡ true
    → limit_of op limits ≡ some limit
    → limit <ℤ max_int
    → (run_opcodes max_element max_items (opfunc others) ops vm).0 ≡ ok tt
    → pos (times op (executed max_element (opfunc others) ops vm)) ≤ℤ limit
executed_bound max_element max_items others op limit limits budget ops vm keep start valid known
      small done =
    let charged =
      run-charge_all max_element (opfunc others) (opfunc-KeepsMeter others keep) max_items ops vm
        done in
    let passed : (charge_all (executed max_element (opfunc others) ops vm)
          (new_meter limits budget)).0
        ≡ ok tt =
      ap (λ (m : Meter). (charge_all (executed max_element (opfunc others) ops vm) m).0) (sym start)
      ∙ ap (λ (t : Result (Unit {0}) × Meter). t.0) charged in
    input_bound op limit limits budget (executed max_element (opfunc others) ops vm) valid known
      small passed
