-- ===== src/Arkade/ComputeLimits.antt =====
-- pkg/arkade/compute_limits.go, and chargeOpcode of pkg/arkade/engine.go: how often an opcode may run
-- for one input, and for all inputs of a request.
pub mod Bounds
pub mod Requests
use arkade_2fa_vault_poc.Prelude.{
  ℕ, ◌-◌, ◌^◌, ◌/◌, Bool, true, Option, none, some, List, [], ◌∷◌, ◌==◌, ◌&&◌, if◌then◌else◌, not,
}
use arkade_2fa_vault_poc.Prelude.Int.{ℤ, pos, ◌+ℤ◌, ◌*ℤ◌, ltb_ℤ, int64}
use arkade_2fa_vault_poc.Arkade.Result.{Result, ok, err, script_too_big, Action, continue, ◌>>◌}

-- map[byte]int: the first entry of a key counts.
abbrev pub ComputeLimits : Type 0
ComputeLimits = List (ℕ × ℤ)

unfoldable pub limit_of : ℕ → ComputeLimits → Option ℤ
limit_of op [] = none
limit_of op ((k, limit) ∷ c) = if k == op then some limit else limit_of op c

-- Whether Validate returns nil.
unfoldable pub validate : ComputeLimits → Bool
validate [] = true
validate ((k, limit) ∷ c) = not (ltb_ℤ limit (pos 0)) && validate c

-- The opcode values are those of pkg/arkade/opcode.go.
abbrev pub default_compute_limits : ComputeLimits
default_compute_limits =
    (0xac, pos 50)
    ∷ (0xad, pos 50)
    ∷ (0xba, pos 50)
    ∷ (0xcc, pos 50)
    ∷ (0xe0, pos 1000)
    ∷ (0xe1, pos 50)
    ∷ (0xe3, pos 50)
    ∷ (0xe4, pos 50)
    ∷ (0xe2, pos 2)
    ∷ (0xda, pos 64)
    ∷ []

abbrev pub max_int : ℤ
max_int = pos (2 ^ 63 - 1)

abbrev pub request_input_budget : ℕ
request_input_budget = 4

-- One entry of AggregateComputeLimits.
unfoldable pub aggregate_limit : ℤ → ℤ
aggregate_limit limit =
    if ltb_ℤ (pos ((2 ^ 63 - 1) / request_input_budget)) limit
    then max_int
    else int64 (limit *ℤ pos request_input_budget)

unfoldable pub aggregate_compute_limits : ComputeLimits → ComputeLimits
aggregate_compute_limits [] = []
aggregate_compute_limits ((k, limit) ∷ c) = (k, aggregate_limit limit) ∷ aggregate_compute_limits c

-- opCounts; a missing entry is 0.
abbrev pub OpCounts : Type 0
OpCounts = ℕ → ℤ

abbrev pub no_counts : OpCounts
no_counts op = pos 0

abbrev pub increment : ℕ → OpCounts → OpCounts
increment op counts j = if j == op then int64 (counts j +ℤ pos 1) else counts j

pub record ComputeBudget : Type 0 where
  pub limits : ComputeLimits
  pub op_counts : OpCounts

abbrev pub new_compute_budget_with_limits : ComputeLimits → ComputeBudget
new_compute_budget_with_limits c = record { limits = c; op_counts = no_counts }

abbrev pub over_limit : ℤ → ℤ → Result (Unit {0})
over_limit count limit = if ltb_ℤ limit count then err script_too_big else ok tt

-- Both accountings: count one execution, where the opcode has a limit.
unfoldable pub tally : ℕ → Option ℤ → Action OpCounts (Unit {0})
tally op none counts = (ok tt, counts)
tally op (some limit) counts =
    let counts' = increment op counts in (over_limit (counts' op) limit, counts')

-- charge; a nil budget charges nothing.
unfoldable pub charge : ℕ → Action (Option ComputeBudget) (Unit {0})
charge op none = (ok tt, none)
charge op (some b) =
    let (r, counts) = tally op (limit_of op b.limits) b.op_counts in
    (r, some (record b { op_counts = counts }))

-- What chargeOpcode reads and writes of an Engine; `in_taproot` says that taprootCtx is not nil.
pub record Meter : Type 0 where
  pub in_taproot : Bool
  pub limits : ComputeLimits
  pub op_counts : OpCounts
  pub budget : Option ComputeBudget

unfoldable pub charge_input : ℕ → Action Meter (Unit {0})
charge_input op m =
    let (r, counts) = tally op (limit_of op m.limits) m.op_counts in
    (r, record m { op_counts = counts })

unfoldable pub charge_budget : ℕ → Action Meter (Unit {0})
charge_budget op m = let (r, b) = charge op m.budget in (r, record m { budget = b })

unfoldable pub charge_opcode : ℕ → Action Meter (Unit {0})
unfolding charge_input charge_budget
charge_opcode op m = if m.in_taproot then (charge_input op >> charge_budget op) m else (ok tt, m)

-- The charges of a run, in order, up to the first refusal.
unfoldable pub charge_all : List ℕ → Action Meter (Unit {0})
charge_all [] m = (ok tt, m)
charge_all (op ∷ ops) m = (charge_opcode op >> charge_all ops) m

-- What an input's engine starts from: newEngine with a taprootExecutionCtx.
abbrev pub new_meter : ComputeLimits → Option ComputeBudget → Meter
new_meter limits budget = record {
  in_taproot = true;
  limits = limits;
  op_counts = no_counts;
  budget = budget;
}

-- The inputs of a request share one budget, and the first refusal ends it.
unfoldable pub charge_inputs :
    ComputeLimits → List (List ℕ) → Action (Option ComputeBudget) (Unit {0})
charge_inputs limits [] budget = (ok tt, budget)
charge_inputs limits (ops ∷ inputs) budget =
    let (r, m) = charge_all ops (new_meter limits budget) in
    continue (r, m.budget) (λ _. charge_inputs limits inputs)
