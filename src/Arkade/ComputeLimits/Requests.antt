-- ===== src/Arkade/ComputeLimits/Requests.antt =====
-- The limits of pkg/arkade/compute_limits.go over a whole input and over a whole request.
use Prim.Native.Nat.{min}
use arkade_2fa_vault_poc.Prelude.{
  ℕ, ◌+◌, ◌-◌, ◌*◌, ◌^◌, ◌/◌, ◌<◌, ◌≤◌, ◌≡◌, refl, ap, ◌∙◌, true, Option, none, some, List, [], ◌∷◌,
  ◌==◌, arith, if_cases, inl, inr, Bool-cases,
}
use arkade_2fa_vault_poc.Prelude.Int.{ℤ, pos, ◌*ℤ◌, ◌≤ℤ◌, ◌<ℤ◌, ltb_ℤ, int64-eq_of_IsInt64}
use arkade_2fa_vault_poc.Arkade.Result.{Result, ok, err, continue}
use arkade_2fa_vault_poc.Arkade.ComputeLimits.{
  ComputeLimits, limit_of, validate, aggregate_limit, aggregate_compute_limits,
  request_input_budget, max_int, ComputeBudget, Meter, new_compute_budget_with_limits, new_meter,
  charge_all, charge_inputs,
}
use arkade_2fa_vault_poc.Arkade.ComputeLimits.Bounds.{
  times, Counts, BudgetCounts, charge_all-Counts, charge_all-BudgetCounts,
}

-- How often `op` stands in the runs of a request.
abbrev pub times_in : ℕ → List (List ℕ) → ℕ
times_in op [] = 0
times_in op (ops ∷ inputs) = times op ops + times_in op inputs

validate-limit_of :
    (limits : ComputeLimits) (op : ℕ) (limit : ℤ)
    → validate limits ≡ true
    → limit_of op limits ≡ some limit
    → pos 0 ≤ℤ limit
unfolding validate limit_of
validate-limit_of [] op limit h e = cc
validate-limit_of ((k, l) ∷ c) op limit h e = elim (Bool-cases (k == op)) [
  | inl hit ↦ ground (arith, h, e, hit)
  | inr miss ↦ validate-limit_of c op limit (ground (arith, h)) (ground (arith, e, miss))
]

-- The script of one input whose charges are all accepted runs an opcode no more often than the limits of
-- that input say, for validated limits and a limit below MaxInt.
pub input_bound :
    (op : ℕ) (limit : ℤ) (limits : ComputeLimits) (budget : Option ComputeBudget) (ops : List ℕ)
    → validate limits ≡ true
    → limit_of op limits ≡ some limit
    → limit <ℤ max_int
    → (charge_all ops (new_meter limits budget)).0 ≡ ok tt
    → pos (times op ops) ≤ℤ limit
input_bound op limit limits budget ops valid known small done =
    let start : Counts op 0 limit limits (new_meter limits budget).op_counts = record {
      limited = known;
      counted = refl;
      within = validate-limit_of limits op limit valid known;
    } in
    let bound = charge_all-Counts op limit small ops 0 (new_meter limits budget) refl start done in
    omega (arith, bound)

aggregate_found :
    (limits : ComputeLimits) (op : ℕ) (limit : ℤ)
    → limit_of op limits ≡ some limit
    → limit_of op (aggregate_compute_limits limits) ≡ some (aggregate_limit limit)
unfolding limit_of aggregate_compute_limits
aggregate_found [] op limit e = cc
aggregate_found ((k, l) ∷ c) op limit e = elim (Bool-cases (k == op)) [
  | inl hit ↦ ground (arith, e, hit)
  | inr miss ↦ ground (arith, e, miss, aggregate_found c op limit (ground (arith, e, miss)))
]

times_four : (n : ℕ) → pos n *ℤ pos request_input_budget ≡ pos (n * 4)
unfolding ◌*ℤ◌
times_four n = ground arith

-- The request-wide limit of a limit n, from 0 to MaxInt, is 4 * n capped at MaxInt: neither below n nor
-- wrapped.
pub aggregate_limit-saturates :
    (n : ℕ) → n < 2 ^ 63 → aggregate_limit (pos n) ≡ pos (min (n * 4) (2 ^ 63 - 1))
unfolding aggregate_limit
aggregate_limit-saturates n h =
    if_cases (λ (x : ℤ). x ≡ pos (min (n * 4) (2 ^ 63 - 1)))
      (ltb_ℤ (pos ((2 ^ 63 - 1) / request_input_budget)) (pos n))
      (λ over.
        let top : min (n * 4) (2 ^ 63 - 1) ≡ 2 ^ 63 - 1 = ground (arith, over) in rw top refl)
      (λ fits.
        let top : min (n * 4) (2 ^ 63 - 1) ≡ n * 4 = ground (arith, fits) in
        rw (times_four n, top) (int64-eq_of_IsInt64 (pos (n * 4)) (ground (arith, fits))))

module _ (op : ℕ) (limit : ℤ) (small : limit <ℤ max_int) (limits : ComputeLimits) where
  inputs_bound :
      (inputs : List (List ℕ)) (c : ℕ) (budget : Option ComputeBudget)
      → BudgetCounts op limit small c budget
      → (charge_inputs limits inputs budget).0 ≡ ok tt
      → pos (times_in op inputs + c) ≤ℤ limit
  unfolding charge_inputs
  inputs_bound [] c none h done = absurd h
  inputs_bound [] c (some b) h done = omega (arith, h.within)
  inputs_bound (ops ∷ inputs) c budget h done =
      go (λ c' b. inputs_bound inputs c' b) (charge_all ops (new_meter limits budget)) refl done
    where
      go :
          ((c' : ℕ) (b : Option ComputeBudget)
            → BudgetCounts op limit small c' b
            → (charge_inputs limits inputs b).0 ≡ ok tt
            → pos (times_in op inputs + c') ≤ℤ limit)
          → (t : Result (Unit {0}) × Meter) → charge_all ops (new_meter limits budget) ≡ t
          → (continue (t.0, t.1.budget) (λ _. charge_inputs limits inputs)).0 ≡ ok tt
          → pos (times_in op (ops ∷ inputs) + c) ≤ℤ limit
      go rest (ok u, m) e passed =
          let ran : (charge_all ops (new_meter limits budget)).0 ≡ ok tt = rw e refl in
          let next =
            charge_all-BudgetCounts op limit small ops c (new_meter limits budget) refl h ran in
          let bound = rest (times op ops + c) m.budget (rw e at next) passed in omega (arith, bound)
      go rest (err x, m) e passed = cc passed

-- A request whose charges are all accepted runs an opcode, over all its inputs, no more often than 4
-- times the limit n of one input, however many inputs it has, for 4 * n below MaxInt.
pub request_bound :
    (op n : ℕ) (limits : ComputeLimits) (inputs : List (List ℕ))
    → limit_of op limits ≡ some (pos n)
    → n * 4 < 2 ^ 63 - 1
    → (charge_inputs limits inputs
        (some (new_compute_budget_with_limits (aggregate_compute_limits limits)))).0
      ≡ ok tt
    → times_in op inputs ≤ n * 4
request_bound op n limits inputs known small done =
    let top : min (n * 4) (2 ^ 63 - 1) ≡ n * 4 = omega (arith, small) in
    let exact : aggregate_limit (pos n) ≡ pos (n * 4) =
      aggregate_limit-saturates n (omega (arith, small)) ∙ ap pos top in
    let start : Counts op 0 (pos (n * 4)) (aggregate_compute_limits limits) (λ _. pos 0) = record {
      limited = aggregate_found limits op (pos n) known ∙ ap some exact;
      counted = refl;
      within = omega arith;
    } in
    let bound =
      inputs_bound op (pos (n * 4)) (omega (arith, small)) limits inputs 0
        (some (new_compute_budget_with_limits (aggregate_compute_limits limits))) start done in
    omega (arith, bound)
