-- ===== src/Arkade/Machine/Counters.antt =====
-- The modelled opcodes of pkg/arkade/opcode.go leave the compute counters of the engine alone.
use arkade_2fa_vault_poc.Prelude.{
  ℕ, ◌≡◌, refl, ◌∙◌, not, ◌&&◌, Option, none, some, List, [], ◌∷◌, ◌++◌, leb, ◌==◌, if_cases,
  if◌then◌else◌,
}
use arkade_2fa_vault_poc.Arkade.Result.{
  ErrorCode, Result, ok, err, verify_failed, equal_verify_failed, Action, continue, ◌>>=◌, pure,
  raise,
}
use arkade_2fa_vault_poc.Arkade.Stack.{pop_bool, pop_byte_array, push_byte_array}
use arkade_2fa_vault_poc.Arkade.Machine.{Cond, Engine, on_dstack, on_astack}
use arkade_2fa_vault_poc.Arkade.Machine.Conditionals.{
  is_branch_executing, pop_if_bool, push_cond, cond_of, else_conds, endif_conds, set_conds,
  opcode_if, opcode_not_if, opcode_else, opcode_endif,
}
use arkade_2fa_vault_poc.Arkade.Machine.Opcodes.{
  Handler, opcode_invalid, opcode_n, opcode_nop, abstract_verify, opcode_push_data, opcode_verify,
  opcode_to_alt_stack, opcode_from_alt_stack, opcode_equal_verify, opcode_1negate, opcode_2drop,
  opcode_2dup, opcode_2over, opcode_2rot, opcode_2swap, opcode_3dup, opcode_depth, opcode_drop,
  opcode_dup, opcode_equal, opcode_false, opcode_if_dup, opcode_nip, opcode_over, opcode_pick,
  opcode_roll, opcode_rot, opcode_size, opcode_swap, opcode_tuck,
}
use arkade_2fa_vault_poc.Arkade.Machine.Table.{
  control_handlers, stack_handlers, nops, undefined_opcodes, entries_of, handlers, handler_of,
  or_else, opfunc,
}

-- The action leaves the counters as they are, also where it fails.
abbrev pub KeepsMeter : {A : Type 0} → Action Engine A → Type 0
KeepsMeter m = (vm : Engine) → (m vm).1.meter ≡ vm.meter

bind-KeepsMeter :
    {A B : Type 0} (m : Action Engine A) (f : A → Action Engine B)
    → KeepsMeter m
    → ((a : A) → KeepsMeter (f a))
    → KeepsMeter (m >>= f)
bind-KeepsMeter {A} {B} m f hm hf vm = go (m vm) (hm vm)
  where
    go : (t : Result A × Engine) → t.1.meter ≡ vm.meter → (continue t f).1.meter ≡ vm.meter
    go (ok a, vm') e = hf a vm' ∙ e
    go (err x, vm') e = e

if-KeepsMeter : KeepsMeter opcode_if
unfolding opcode_if
if-KeepsMeter vm =
    if_cases (λ (h : Handler). (h vm).1.meter ≡ vm.meter) (is_branch_executing vm.cond_stack)
      (λ _.
        bind-KeepsMeter (on_dstack pop_if_bool) (λ b. push_cond (cond_of b)) (λ vm. refl)
          (λ b vm. refl) vm)
      (λ _. refl)

not_if-KeepsMeter : KeepsMeter opcode_not_if
unfolding opcode_not_if
not_if-KeepsMeter vm =
    if_cases (λ (h : Handler). (h vm).1.meter ≡ vm.meter) (is_branch_executing vm.cond_stack)
      (λ _.
        bind-KeepsMeter (on_dstack pop_if_bool) (λ b. push_cond (cond_of (not b))) (λ vm. refl)
          (λ b vm. refl) vm)
      (λ _. refl)

set_conds-KeepsMeter : (o : Option (List Cond)) → KeepsMeter (set_conds o)
set_conds-KeepsMeter none vm = refl
set_conds-KeepsMeter (some conds) vm = refl

else-KeepsMeter : KeepsMeter opcode_else
unfolding opcode_else
else-KeepsMeter vm = set_conds-KeepsMeter (else_conds vm.cond_stack) vm

endif-KeepsMeter : KeepsMeter opcode_endif
unfolding opcode_endif
endif-KeepsMeter vm = set_conds-KeepsMeter (endif_conds vm.cond_stack) vm

nop-KeepsMeter : (value : ℕ) → KeepsMeter (opcode_nop value)
unfolding opcode_nop
nop-KeepsMeter value = if_cases KeepsMeter _ (λ _ vm. refl) (λ _ vm. refl)

verify-KeepsMeter : (c : ErrorCode) → KeepsMeter (abstract_verify c)
unfolding abstract_verify
verify-KeepsMeter c =
    bind-KeepsMeter (on_dstack pop_bool) (λ verified. if verified then pure tt else raise c)
      (λ vm. refl) (λ verified. if_cases KeepsMeter verified (λ _ vm. refl) (λ _ vm. refl))

to_alt-KeepsMeter : KeepsMeter opcode_to_alt_stack
unfolding opcode_to_alt_stack
to_alt-KeepsMeter =
    bind-KeepsMeter (on_dstack pop_byte_array) (λ so. on_astack (push_byte_array so)) (λ vm. refl)
      (λ so vm. refl)

from_alt-KeepsMeter : KeepsMeter opcode_from_alt_stack
unfolding opcode_from_alt_stack
from_alt-KeepsMeter =
    bind-KeepsMeter (on_astack pop_byte_array) (λ so. on_dstack (push_byte_array so)) (λ vm. refl)
      (λ so vm. refl)

equal_verify-KeepsMeter : KeepsMeter opcode_equal_verify
unfolding opcode_equal_verify opcode_equal
equal_verify-KeepsMeter =
    bind-KeepsMeter opcode_equal (λ _. abstract_verify equal_verify_failed) (λ vm. refl)
      (λ _. verify-KeepsMeter equal_verify_failed)

infixr 30 ◌▹◌
-- Every handler of the entries leaves the counters alone.
data AllKeep : List (ℕ × Handler) → Type 0 where
  none_left : AllKeep []
  ◌▹◌ :
      {v : ℕ} {h : Handler} {entries : List (ℕ × Handler)}
      → KeepsMeter h
      → AllKeep entries
      → AllKeep ((v, h) ∷ entries)

append-AllKeep : (xs ys : List (ℕ × Handler)) → AllKeep xs → AllKeep ys → AllKeep (xs ++ ys)
append-AllKeep xs ys none_left more = more
append-AllKeep xs ys (keep ▹ all) more = keep ▹ append-AllKeep _ ys all more

entries_of-AllKeep :
    (h : ℕ → Handler) (values : List ℕ)
    → ((v : ℕ) → KeepsMeter (h v))
    → AllKeep (entries_of h values)
entries_of-AllKeep h [] keep = none_left
entries_of-AllKeep h (v ∷ values) keep = keep v ▹ entries_of-AllKeep h values keep

control-AllKeep : AllKeep control_handlers
unfolding opcode_verify opcode_1negate opcode_false
control-AllKeep =
    (λ vm. refl)
    ▹ (λ vm. refl)
    ▹ (λ vm. refl)
    ▹ (λ vm. refl)
    ▹ if-KeepsMeter
    ▹ not_if-KeepsMeter
    ▹ (λ vm. refl)
    ▹ (λ vm. refl)
    ▹ else-KeepsMeter
    ▹ endif-KeepsMeter
    ▹ verify-KeepsMeter verify_failed
    ▹ (λ vm. refl)
    ▹ to_alt-KeepsMeter
    ▹ from_alt-KeepsMeter
    ▹ equal_verify-KeepsMeter
    ▹ (λ vm. refl)
    ▹ (λ vm. refl)
    ▹ none_left

stack-AllKeep : AllKeep stack_handlers
unfolding opcode_2drop opcode_2dup opcode_2over opcode_2rot opcode_2swap opcode_3dup opcode_depth
    opcode_drop opcode_dup opcode_equal opcode_if_dup opcode_nip opcode_over opcode_pick opcode_roll
    opcode_rot opcode_size opcode_swap opcode_tuck
stack-AllKeep =
    (λ vm. refl)
    ▹ (λ vm. refl)
    ▹ (λ vm. refl)
    ▹ (λ vm. refl)
    ▹ (λ vm. refl)
    ▹ (λ vm. refl)
    ▹ (λ vm. refl)
    ▹ (λ vm. refl)
    ▹ (λ vm. refl)
    ▹ (λ vm. refl)
    ▹ (λ vm. refl)
    ▹ (λ vm. refl)
    ▹ (λ vm. refl)
    ▹ (λ vm. refl)
    ▹ (λ vm. refl)
    ▹ (λ vm. refl)
    ▹ (λ vm. refl)
    ▹ (λ vm. refl)
    ▹ (λ vm. refl)
    ▹ none_left

handlers-AllKeep : AllKeep handlers
handlers-AllKeep = append-AllKeep control_handlers _ control-AllKeep (
    append-AllKeep stack_handlers _ stack-AllKeep (
      append-AllKeep (entries_of opcode_nop nops) _
        (entries_of-AllKeep opcode_nop nops nop-KeepsMeter)
        (entries_of-AllKeep (λ _. opcode_invalid) undefined_opcodes (λ v vm. refl))))

handler_of-KeepsMeter :
    (value : ℕ) (entries : List (ℕ × Handler)) (default : Handler)
    → AllKeep entries
    → KeepsMeter default
    → KeepsMeter (or_else (handler_of value entries) default)
handler_of-KeepsMeter value entries default none_left d = d
handler_of-KeepsMeter value entries default (◌▹◌ {v = v} {h = h} {entries = rest} keep all) d =
    if_cases (λ (o : Option Handler). KeepsMeter (or_else o default)) (v == value) (λ _. keep)
      (λ _. handler_of-KeepsMeter value rest default all d)

-- Where the handlers that are not modelled leave the counters alone, every handler does.
pub opfunc-KeepsMeter :
    (others : ℕ → List ℕ → Handler)
    → ((op : ℕ) (bytes : List ℕ) → KeepsMeter (others op bytes))
    → (op : ℕ) (bytes : List ℕ) → KeepsMeter (opfunc others op bytes)
unfolding opfunc opcode_push_data opcode_n
opfunc-KeepsMeter others keep op bytes =
    if_cases KeepsMeter (leb 0x01 op && leb op 0x4e) (λ _ vm. refl)
      (λ _.
        if_cases KeepsMeter (leb 0x51 op && leb op 0x60) (λ _ vm. refl)
          (λ _.
            handler_of-KeepsMeter op handlers (others op bytes) handlers-AllKeep (keep op bytes)))
