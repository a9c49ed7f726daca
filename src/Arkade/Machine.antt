-- ===== src/Arkade/Machine.antt =====
-- The state of the script engine of pkg/arkade/engine.go, as far as the modelled opcodes use it.
pub mod Conditionals
pub mod Opcodes
pub mod Table
pub mod Execute
pub mod Nesting
pub mod Charged
pub mod Limits
pub mod Verdict
pub mod Minimal
mod Examples
pub mod Counters
pub mod Documented
use arkade_2fa_vault_poc.Prelude.{List}
use arkade_2fa_vault_poc.Arkade.Result.{Action}
use arkade_2fa_vault_poc.Arkade.Stack.{Stack, Op}
use arkade_2fa_vault_poc.Arkade.ComputeLimits.{Meter}

-- OpCondFalse, OpCondTrue, OpCondSkip.
pub data Cond : Type 0 where
  cond_false cond_true cond_skip : Cond

-- The last entry of condStack stands first. `meter` is what chargeOpcode reads and writes.
pub record Engine : Type 0 where
  pub dstack : Stack
  pub astack : Stack
  pub cond_stack : List Cond
  pub meter : Meter

-- An action of one part of the engine.
module _ {A : Type 0} where
  abbrev pub on_dstack : Op A → Action Engine A
  on_dstack m vm = let (r, s) = m vm.dstack in (r, record vm { dstack = s })

  abbrev pub on_astack : Op A → Action Engine A
  on_astack m vm = let (r, s) = m vm.astack in (r, record vm { astack = s })

  abbrev pub on_meter : Action Meter A → Action Engine A
  on_meter m vm = let (r, s) = m vm.meter in (r, record vm { meter = s })
