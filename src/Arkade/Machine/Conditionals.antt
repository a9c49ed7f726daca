-- ===== src/Arkade/Machine/Conditionals.antt =====
-- The conditional opcodes of pkg/arkade/opcode.go, and isBranchExecuting of engine.go.
use arkade_2fa_vault_poc.Prelude.{
  Bool, true, false, not, Option, none, some, List, [], ◌∷◌, ◌==◌, if◌then◌else◌,
}
use arkade_2fa_vault_poc.Arkade.Result.{
  ok, err, minimal_if, unbalanced_conditional, Action, ◌>>=◌, pure, raise,
}
use arkade_2fa_vault_poc.Arkade.Stack.{Item, Op, as_bool, pop_byte_array}
use arkade_2fa_vault_poc.Arkade.Machine.{Cond, cond_false, cond_true, cond_skip, Engine, on_dstack}

abbrev pub is_cond_true : Cond → Bool
is_cond_true cond_true = true
is_cond_true _ = false

unfoldable pub is_branch_executing : List Cond → Bool
is_branch_executing [] = true
is_branch_executing (c ∷ conds) = is_cond_true c

-- Whether popIfBool refuses the item: longer than one byte, or one byte other than 0x01.
unfoldable pub is_not_minimal_if : Item → Bool
is_not_minimal_if [] = false
is_not_minimal_if (b ∷ []) = not (b == 0x01)
is_not_minimal_if (b ∷ c ∷ so) = true

unfoldable pub pop_if_bool : Op Bool
unfolding is_not_minimal_if
pop_if_bool =
    pop_byte_array >>= λ so. if is_not_minimal_if so then raise minimal_if else pure (as_bool so)

abbrev pub push_cond : Cond → Action Engine (Unit {0})
push_cond c vm = (ok tt, record vm { cond_stack = c ∷ vm.cond_stack })

abbrev pub cond_of : Bool → Cond
cond_of true = cond_true
cond_of false = cond_false

unfoldable pub opcode_if : Action Engine (Unit {0})
opcode_if vm =
    (if is_branch_executing vm.cond_stack
        then (on_dstack pop_if_bool >>= λ b. push_cond (cond_of b))
        else push_cond cond_skip)
      vm

unfoldable pub opcode_not_if : Action Engine (Unit {0})
opcode_not_if vm =
    (if is_branch_executing vm.cond_stack
        then (on_dstack pop_if_bool >>= λ b. push_cond (cond_of (not b)))
        else push_cond cond_skip)
      vm

abbrev pub invert : Cond → Cond
invert cond_true = cond_false
invert cond_false = cond_true
invert cond_skip = cond_skip

-- On the entries of condStack; `none` is the unbalanced conditional.
abbrev pub else_conds : List Cond → Option (List Cond)
else_conds [] = none
else_conds (c ∷ conds) = some (invert c ∷ conds)

abbrev pub endif_conds : List Cond → Option (List Cond)
endif_conds [] = none
endif_conds (c ∷ conds) = some conds

abbrev pub set_conds : Option (List Cond) → Action Engine (Unit {0})
set_conds none vm = (err unbalanced_conditional, vm)
set_conds (some conds) vm = (ok tt, record vm { cond_stack = conds })

unfoldable pub opcode_else : Action Engine (Unit {0})
opcode_else vm = set_conds (else_conds vm.cond_stack) vm

unfoldable pub opcode_endif : Action Engine (Unit {0})
opcode_endif vm = set_conds (endif_conds vm.cond_stack) vm
