-- ===== src/Arkade/Vm.antt =====
-- The Engine of pkg/arkade/engine.go with its scripts: the program counter, the witness program, and the
-- functions of btcd that it calls.
pub mod Witness
pub mod Steps
pub mod Grown
pub mod Ready
pub mod Total
pub mod Create
pub mod Script
pub mod Runs
pub mod Bound
pub mod Whole
mod Examples
use arkade_2fa_vault_poc.Prelude.{ℕ, zero, suc, Bool, Option, none, some, List, [], ◌∷◌}
use arkade_2fa_vault_poc.Prelude.Int.{pos, pos_part}
use arkade_2fa_vault_poc.Arkade.Result.{Result, ok, err, Action}
use arkade_2fa_vault_poc.Arkade.Stack.{Item, Stack, depth, push_byte_array, peek_byte_array, drop_n}
use arkade_2fa_vault_poc.Arkade.Tokenizer.{ScriptTokenizer}
use arkade_2fa_vault_poc.Arkade.Machine.{Engine}

-- What btcd gives, at the transaction, the input and the previous outputs of the engine. A test is whether the
-- function returns no error.
pub record Btcd : Type 1 where
  pub ControlBlock : Type 0
  pub parse_control_block : List ℕ → Option ControlBlock
  pub leaf_version : ControlBlock → ℕ
  pub verify_taproot_leaf_commitment : ControlBlock → List ℕ → List ℕ → Bool
  pub verify_taproot_key_spend : List ℕ → List ℕ → Bool
  pub is_push_only_script : List ℕ → Bool
  pub is_witness_program : List ℕ → Bool
  pub extract_witness_program_info : List ℕ → Option (ℕ × List ℕ)
  pub taproot_witness_version : ℕ
  pub base_leaf_version : ℕ
  pub taproot_annex_tag : ℕ
  pub max_script_element_size : ℕ
  pub max_stack_size : ℕ
  pub max_script_size : ℕ

-- `program` is witnessVersion and witnessProgram, none where the latter is nil; `must_succeed` is that of
-- taprootCtx.
pub record Vm : Type 0 where
  pub engine : Engine
  pub scripts : List (List ℕ)
  pub script_idx : ℕ
  pub opcode_idx : ℕ
  pub tokenizer : ScriptTokenizer
  pub version : ℕ
  pub program : Option (ℕ × List ℕ)
  pub must_succeed : Bool

-- An action of the stacks, the conditionals and the counters.
abbrev pub on_engine : {A : Type 0} → Action Engine A → Action Vm A
on_engine m vm = let (r, engine) = m vm.engine in (r, record vm { engine = engine })

-- setStack: the error of DropN on an empty stack is dropped.
unfoldable pub push_all : List Item → Stack → Stack
unfolding push_byte_array
push_all [] s = s
push_all (so ∷ items) s = push_all items (push_byte_array so s).1

unfoldable pub set_stack : List Item → Stack → Stack
set_stack items s = push_all items (drop_n (depth s) s).1

-- getStack: the items from position `n - 1` up to the top, bottom first.
abbrev pub or_nil : Result Item → Item
or_nil (ok so) = so
or_nil (err e) = []

unfoldable pub get_items : ℕ → Stack → List Item
get_items zero s = []
get_items (suc n) s = or_nil (peek_byte_array (pos n) s).0 ∷ get_items n s

unfoldable pub get_stack : Stack → List Item
unfolding get_items
get_stack s = get_items (pos_part (depth s)) s
