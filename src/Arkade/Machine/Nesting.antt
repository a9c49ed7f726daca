-- ===== src/Arkade/Machine/Nesting.antt =====
-- The conditional opcodes of pkg/arkade/opcode.go against the rule of Bitcoin Core's interpreter: one
-- Boolean for each open conditional, and code runs where all of them are true.
use arkade_2fa_vault_poc.Prelude.{
  ◌≡◌, refl, Bool, true, false, not, ◌&&◌, List, [], ◌∷◌, if◌then◌else◌, Bool-cases, inl, inr,
}
use arkade_2fa_vault_poc.Arkade.Result.{
  ErrorCode, Result, ok, err, unbalanced_conditional, Action, continue, ◌>>=◌, pure, raise,
}
use arkade_2fa_vault_poc.Arkade.Stack.{Stack, Op}
use arkade_2fa_vault_poc.Arkade.Machine.{Cond, cond_skip, Engine}
use arkade_2fa_vault_poc.Arkade.Machine.Conditionals.{
  is_branch_executing, pop_if_bool, push_cond, cond_of, invert, else_conds, endif_conds, set_conds,
  opcode_if, opcode_not_if, opcode_else, opcode_endif,
}

-- Whether all open conditionals take the branch that is being read.
abbrev pub all_true : List Bool → Bool
all_true [] = true
all_true (b ∷ taken) = b && all_true taken

-- The entries of the engine's stack that stand for these Booleans.
abbrev pub StandFor : List Bool → List Cond → Type 0
StandFor [] [] = Unit
StandFor [] (c ∷ conds) = ⊥
StandFor (b ∷ taken) [] = ⊥
StandFor (b ∷ taken) (c ∷ conds) =
    (c ≡ (if all_true taken then cond_of b else cond_skip)) × StandFor taken conds

pub data Conditional : Type 0 where
  if_opcode not_if_opcode else_opcode endif_opcode : Conditional

-- What the engine does.
abbrev pub engine_step : Conditional → Action Engine (Unit {0})
engine_step if_opcode = opcode_if
engine_step not_if_opcode = opcode_not_if
engine_step else_opcode = opcode_else
engine_step endif_opcode = opcode_endif

-- The rule: an operand is popped only where code runs.
abbrev pub rule_open : Bool → List Bool → Op (List Bool)
rule_open wanted taken =
    if all_true taken
    then (pop_if_bool >>= λ b. pure ((if wanted then b else not b) ∷ taken))
    else pure (false ∷ taken)

abbrev pub rule_step : Conditional → List Bool → Op (List Bool)
rule_step if_opcode taken = rule_open true taken
rule_step not_if_opcode taken = rule_open false taken
rule_step else_opcode [] = raise unbalanced_conditional
rule_step else_opcode (b ∷ taken) = pure (not b ∷ taken)
rule_step endif_opcode [] = raise unbalanced_conditional
rule_step endif_opcode (b ∷ taken) = pure taken

-- The engine ends as the rule does: the same data stack, the same error or related conditionals.
pub data Same (vm : Engine) : Result (Unit {0}) × Engine → Result (List Bool) × Stack → Type 0 where
  both_fail : (e : ErrorCode) (s : Stack) → Same vm (err e, record vm { dstack = s }) (err e, s)
  both_go :
      (taken : List Bool) (conds : List Cond) (s : Stack)
      → StandFor taken conds
      → Same vm (ok tt, record vm { dstack = s; cond_stack = conds }) (ok taken, s)

executing_lem :
    (taken : List Bool) (conds : List Cond)
    → StandFor taken conds
    → is_branch_executing conds ≡ all_true taken
unfolding is_branch_executing
executing_lem [] [] h = refl
executing_lem [] (c ∷ conds) h = absurd h
executing_lem (b ∷ taken) [] h = absurd h
executing_lem (b ∷ taken) (c ∷ conds) (e, h) = rw e (go b (all_true taken))
  where
    go : (b a : Bool) → is_branch_executing ((if a then cond_of b else cond_skip) ∷ conds) ≡ b && a
    go true true = refl
    go true false = refl
    go false true = refl
    go false false = refl

module _ (vm : Engine) (taken : List Bool) (h : StandFor taken vm.cond_stack) where
  opened :
      (f : Bool → Bool) (t : Result Bool × Stack)
      → all_true taken ≡ true
      → Same vm
          (continue (t.0, record vm { dstack = t.1 }) (λ b. push_cond (cond_of (f b))))
          (continue t (λ b. pure (f b ∷ taken)))
  opened f (err e, s) run = both_fail e s
  opened f (ok b, s) run = both_go (f b ∷ taken) (cond_of (f b) ∷ vm.cond_stack) s (rw run refl, h)

  if-Same : Same vm (opcode_if vm) (rule_open true taken vm.dstack)
  unfolding opcode_if
  if-Same = elim (Bool-cases (all_true taken)) [
    | inl run ↦
        rw (executing_lem taken vm.cond_stack h, run) (opened (λ b. b) (pop_if_bool vm.dstack) run)
    | inr skip ↦
        rw (executing_lem taken vm.cond_stack h, skip)
          (both_go (false ∷ taken) (cond_skip ∷ vm.cond_stack) vm.dstack (rw skip refl, h))
  ]

  not_if-Same : Same vm (opcode_not_if vm) (rule_open false taken vm.dstack)
  unfolding opcode_not_if
  not_if-Same = elim (Bool-cases (all_true taken)) [
    | inl run ↦
        rw (executing_lem taken vm.cond_stack h, run) (opened not (pop_if_bool vm.dstack) run)
    | inr skip ↦
        rw (executing_lem taken vm.cond_stack h, skip)
          (both_go (false ∷ taken) (cond_skip ∷ vm.cond_stack) vm.dstack (rw skip refl, h))
  ]

invert_lem :
    (a b : Bool)
    → invert (if a then cond_of b else cond_skip) ≡ (if a then cond_of (not b) else cond_skip)
invert_lem true true = refl
invert_lem true false = refl
invert_lem false b = refl

else-Same :
    (vm : Engine) (taken : List Bool) (conds : List Cond)
    → StandFor taken conds
    → Same vm (set_conds (else_conds conds) vm) (rule_step else_opcode taken vm.dstack)
else-Same vm [] [] h = both_fail unbalanced_conditional vm.dstack
else-Same vm [] (c ∷ conds) h = absurd h
else-Same vm (b ∷ taken) [] h = absurd h
else-Same vm (b ∷ taken) (c ∷ conds) (e, h) =
    both_go (not b ∷ taken) (invert c ∷ conds) vm.dstack (rw e (invert_lem (all_true taken) b), h)

endif-Same :
    (vm : Engine) (taken : List Bool) (conds : List Cond)
    → StandFor taken conds
    → Same vm (set_conds (endif_conds conds) vm) (rule_step endif_opcode taken vm.dstack)
endif-Same vm [] [] h = both_fail unbalanced_conditional vm.dstack
endif-Same vm [] (c ∷ conds) h = absurd h
endif-Same vm (b ∷ taken) [] h = absurd h
endif-Same vm (b ∷ taken) (c ∷ conds) (e, h) = both_go taken conds vm.dstack h

-- On an engine whose conditional stack stands for a list of Booleans, one for each open conditional, OP_IF,
-- OP_NOTIF, OP_ELSE and OP_ENDIF do what Bitcoin Core's rule does on that list: a branch is read as running
-- exactly where all the Booleans are true, the data stacks end equal, and the errors are equal or the new
-- conditional stack stands for the new list, the rest of the engine being unchanged.
pub conditional-Same :
    (k : Conditional) (vm : Engine) (taken : List Bool)
    → StandFor taken vm.cond_stack
    → (is_branch_executing vm.cond_stack ≡ all_true taken)
      × Same vm (engine_step k vm) (rule_step k taken vm.dstack)
unfolding opcode_else opcode_endif
conditional-Same k vm taken h = (executing_lem taken vm.cond_stack h, go k)
  where
    go : (k : Conditional) → Same vm (engine_step k vm) (rule_step k taken vm.dstack)
    go if_opcode = if-Same vm taken h
    go not_if_opcode = not_if-Same vm taken h
    go else_opcode = else-Same vm taken vm.cond_stack h
    go endif_opcode = endif-Same vm taken vm.cond_stack h
