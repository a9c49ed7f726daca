-- ===== src/Arkade/Machine/Examples.antt =====
-- Concrete runs of the script engine of pkg/arkade/engine.go.
use arkade_2fa_vault_poc.Prelude.{
  ℕ, ◌≡◌, ◌↔◌, ◌⊎◌, length, ◌≤◌, refl, true, false, none, some, List, [], ◌∷◌, ◌++◌, arith,
}
use arkade_2fa_vault_poc.Prelude.Int.{pos, ◌≤ℤ◌, ◌+ℤ◌, ◌-ℤ◌, int64, int32}
use arkade_2fa_vault_poc.Arkade.Result.{ok}
use arkade_2fa_vault_poc.Arkade.ScriptNum.{bytes, sign_bytes, magnitude_bytes, from_little_endian}
use arkade_2fa_vault_poc.Arkade.Stack.{
  Item, push_int, push_byte_array, pop_byte_array, nip_n, depth, as_bool,
}
use arkade_2fa_vault_poc.Arkade.Stack.Items.{with_items}
use arkade_2fa_vault_poc.Arkade.ComputeLimits.{
  default_compute_limits, limit_of, validate, charge_opcode, charge_input, charge_budget, charge,
  tally, new_meter,
}
use arkade_2fa_vault_poc.Arkade.ComputeLimits.Bounds.{times}
use arkade_2fa_vault_poc.Arkade.Machine.{Engine, cond_true}
use arkade_2fa_vault_poc.Arkade.Machine.Conditionals.{
  is_branch_executing, is_not_minimal_if, pop_if_bool, opcode_if, opcode_else, opcode_endif,
}
use arkade_2fa_vault_poc.Arkade.Machine.Opcodes.{Handler, opcode_n}
use arkade_2fa_vault_poc.Arkade.Machine.Table.{opfunc}
use arkade_2fa_vault_poc.Arkade.Machine.Execute.{
  item_bytes, execute_opcode, is_minimal_push, check_stacks, run_opcodes, check_error_condition,
}
use arkade_2fa_vault_poc.Arkade.Machine.Nesting.{
  if_opcode, all_true, engine_step, rule_step, Same, conditional-Same,
}
use arkade_2fa_vault_poc.Arkade.Machine.Documented.{with_dstack, doc_2rot, opfunc-Documented}
use arkade_2fa_vault_poc.Arkade.Machine.Charged.{executed, executed_bound}
use arkade_2fa_vault_poc.Arkade.Machine.Minimal.{minimal_push-shortest}
use arkade_2fa_vault_poc.Arkade.Tokenizer.Tokens.{pushdata1, Token, direct, prefixed}
use arkade_2fa_vault_poc.Arkade.Machine.Verdict.{IsTrueTop, check_error_condition_exact}
use arkade_2fa_vault_poc.Arkade.Machine.Limits.{IsCountable}

abbrev fresh : Engine
fresh = record {
  dstack = with_items true [];
  astack = with_items true [];
  cond_stack = [];
  meter = new_meter default_compute_limits none;
}

-- One open conditional, and an operand.
abbrev inside : Engine
inside = record fresh { dstack = with_items true ((1 ∷ []) ∷ []); cond_stack = cond_true ∷ [] }

abbrev no_effect : ℕ → List ℕ → Handler
no_effect op bytes vm = (ok tt, vm)

conditional-Same_example :
    (is_branch_executing (cond_true ∷ []) ≡ all_true (true ∷ []))
    × Same inside (engine_step if_opcode inside) (rule_step if_opcode (true ∷ []) inside.dstack)
conditional-Same_example = conditional-Same if_opcode inside (true ∷ []) (refl, tt)

abbrev below : List Item
below = (9 ∷ []) ∷ []

abbrev item : ℕ → Item
item b = b ∷ []

opfunc-Documented_example :
    opfunc no_effect 0x71 [] (
      with_dstack fresh
        (with_items true (below ++ (item 1 ∷ item 2 ∷ item 3 ∷ item 4 ∷ item 5 ∷ item 6 ∷ []))))
    ≡ (
      ok tt,
      with_dstack fresh
          (with_items true (below ++ (item 3 ∷ item 4 ∷ item 5 ∷ item 6 ∷ item 1 ∷ item 2 ∷ []))),
    )
opfunc-Documented_example =
    opfunc-Documented no_effect fresh true below 0x71
      (item 1 ∷ item 2 ∷ item 3 ∷ item 4 ∷ item 5 ∷ item 6 ∷ [])
      (item 3 ∷ item 4 ∷ item 5 ∷ item 6 ∷ item 1 ∷ item 2 ∷ [])
      (doc_2rot (item 1) (item 2) (item 3) (item 4) (item 5) (item 6)) (omega arith)

-- OP_1 OP_IF OP_ECPAIRING OP_ELSE OP_ECPAIRING OP_ENDIF.
abbrev branching : List (ℕ × List ℕ)
branching = (0x51, []) ∷ (0x63, []) ∷ (0xe2, []) ∷ (0x67, []) ∷ (0xe2, []) ∷ (0x68, []) ∷ []

known : limit_of 0xe2 default_compute_limits ≡ some (pos 2)
unfolding limit_of
known = refl

valid : validate default_compute_limits ≡ true
unfolding validate
valid = refl

branching_runs : (run_opcodes 520 1000 (opfunc no_effect) branching fresh).0 ≡ ok tt
unfolding run_opcodes execute_opcode check_stacks opfunc opcode_n push_int bytes sign_bytes
    magnitude_bytes push_byte_array pop_byte_array nip_n depth as_bool is_branch_executing
    is_not_minimal_if pop_if_bool opcode_if opcode_else opcode_endif charge_opcode charge_input
    charge_budget charge tally limit_of item_bytes is_minimal_push int64 int32 ◌+ℤ◌ ◌-ℤ◌
branching_runs = refl

executed_bound_example : pos (times 0xe2 (executed 520 (opfunc no_effect) branching fresh)) ≤ℤ pos 2
executed_bound_example =
    executed_bound 520 1000 no_effect 0xe2 (pos 2) default_compute_limits none branching fresh
      (λ j bytes vm. refl) refl valid known (omega arith) branching_runs

inside-IsCountable : IsCountable inside
inside-IsCountable = record { items = omega arith; bytes = unfold item_bytes in omega arith }

abbrev ended : Engine
ended = with_dstack fresh (with_items true (item 1 ∷ []))

check_error_condition_exact_example :
    ((check_error_condition false 2 2 true ended).0 ≡ ok tt)
    ↔ ((false ≡ true) ⊎ ((2 ≤ 2) × IsTrueTop true (item 1 ∷ [])))
check_error_condition_exact_example = check_error_condition_exact false 2 2 true ended (omega arith)

abbrev short_token : List ℕ
short_token = 2 ∷ 7 ∷ 8 ∷ []

abbrev long_token : List ℕ
long_token = 0x4c ∷ 2 ∷ 7 ∷ 8 ∷ []

long_push : Token 0x4c (7 ∷ 8 ∷ []) long_token
long_push = prefixed 0x4c 1 (2 ∷ []) (7 ∷ 8 ∷ []) pushdata1 refl (unfold from_little_endian in refl)

minimal_push-shortest_example : length short_token ≤ length long_token
minimal_push-shortest_example =
    minimal_push-shortest 2 (7 ∷ 8 ∷ []) short_token 0x4c long_token (omega arith)
      (direct (7 ∷ 8 ∷ []) (omega arith) (omega arith)) (unfold is_minimal_push in refl) long_push
      (omega arith, (omega arith, (omega arith, (omega arith, tt))))
