-- ===== src/Arkade/ComputeLimits/Bounds.antt =====
-- How often a limited opcode runs, by the accounting of pkg/arkade/compute_limits.go.
use arkade_2fa_vault_poc.Prelude.{
  ℕ, suc, ◌+◌, ◌≡◌, refl, ap, ◌∙◌, Bool, true, false, Option, none, some, List, [], ◌∷◌, ◌==◌,
  arith, if◌then◌else◌, Bool-cases, inl, inr,
}
use arkade_2fa_vault_poc.Prelude.Int.{
  ℤ, pos, ◌+ℤ◌, ◌≤ℤ◌, ◌<ℤ◌, int64, int64-eq_of_IsInt64, +ℤ_parts, eq_of_parts,
}
use arkade_2fa_vault_poc.Arkade.Result.{Result, ok, err, Action, continue, ◌>>◌}
use arkade_2fa_vault_poc.Arkade.ComputeLimits.{
  ComputeLimits, OpCounts, limit_of, max_int, increment, ComputeBudget, Meter, tally, charge,
  charge_input, charge_budget, charge_opcode, charge_all,
}

-- How often `op` stands in a run.
abbrev pub times : ℕ → List ℕ → ℕ
times op [] = 0
times op (j ∷ ops) = if j == op then suc (times op ops) else times op ops

count_up : (c : ℕ) → pos c <ℤ max_int → int64 (pos c +ℤ pos 1) ≡ pos (c + 1)
count_up c h =
    let sum : pos c +ℤ pos 1 ≡ pos (c + 1) =
      eq_of_parts _ _ (omega (arith, +ℤ_parts (pos c) (pos 1))) in
    rw sum (int64-eq_of_IsInt64 (pos (c + 1)) (omega (arith, h)))

-- What an accounting says of one opcode: its count is `c`, within the limit.
pub record Counts (op c : ℕ) (limit : ℤ) (limits : ComputeLimits) (counts : OpCounts) : Type 0 where
  pub limited : limit_of op limits ≡ some limit
  pub counted : counts op ≡ pos c
  pub within : pos c ≤ℤ limit

tally_other :
    (op j : ℕ) (o : Option ℤ) (counts : OpCounts)
    → (j == op) ≡ false
    → (tally j o counts).1 op ≡ counts op
unfolding tally
tally_other op j none counts miss = refl
tally_other op j (some l) counts miss = ground (arith, miss)

-- What a charge that succeeds has done.
abbrev charged : ℕ → Meter → Meter
charged j m = record m {
  op_counts = (tally j (limit_of j m.limits) m.op_counts).1;
  budget = (charge j m.budget).1;
}

-- One charge, with taprootCtx set.
in_taproot_charge :
    (j : ℕ) (m : Meter)
    → m.in_taproot ≡ true
    → charge_opcode j m ≡ (charge_input j >> charge_budget j) m
unfolding charge_opcode
in_taproot_charge j m on =
    if_true m.in_taproot on ((charge_input j >> charge_budget j) m) (ok tt, m)
  where
    if_true : {A : Type 0} (b : Bool) → b ≡ true → (x y : A) → (if b then x else y) ≡ x
    if_true true h x y = refl
    if_true false h x y = cc

charge_opcode_ok :
    (j : ℕ) (m : Meter)
    → m.in_taproot ≡ true
    → (charge_opcode j m).0 ≡ ok tt
    → ((tally j (limit_of j m.limits) m.op_counts).0 ≡ ok tt)
      × ((charge j m.budget).0 ≡ ok tt)
      × ((charge_opcode j m).1 ≡ charged j m)
charge_opcode_ok j m on =
    rw (in_taproot_charge j m on) (
      unfold charge_input charge_budget in
      go (tally j (limit_of j m.limits) m.op_counts) (charge j))
  where
    go :
        (t : Result (Unit {0}) × OpCounts) (f : Action (Option ComputeBudget) (Unit {0}))
        → let out =
            continue
              (t.0, record m { op_counts = t.1 })
              (λ _ m'. ((f m'.budget).0, record m' { budget = (f m'.budget).1 })) in
          (out.0 ≡ ok tt)
          → (t.0 ≡ ok tt)
            × ((f m.budget).0 ≡ ok tt)
            × (out.1 ≡ record m { op_counts = t.1; budget = (f m.budget).1 })
    go (ok u, counts) f h = (refl, h, refl)
    go (err e, counts) f h = cc

module _ (op : ℕ) (limit : ℤ) (small : limit <ℤ max_int) where
  tally_self :
      (c : ℕ) (limits : ComputeLimits) (counts : OpCounts)
      → Counts op c limit limits counts
      → (tally op (some limit) counts).0 ≡ ok tt
      → Counts op (suc c) limit limits (tally op (some limit) counts).1
  unfolding tally
  tally_self c limits counts h done =
      let up = count_up c (omega (arith, h.within, small)) in
      let one : increment op counts op ≡ pos (suc c) = ground (arith, up, h.counted) in
      record { limited = h.limited; counted = one; within = ground (arith, one, done) }

  tally-Counts :
      (c j : ℕ) (limits : ComputeLimits) (counts : OpCounts)
      → Counts op c limit limits counts
      → (tally j (limit_of j limits) counts).0 ≡ ok tt
      → Counts op (times op (j ∷ []) + c) limit limits (tally j (limit_of j limits) counts).1
  tally-Counts c j limits counts h done = elim (Bool-cases (j == op)) [
    | inl hit ↦
        let same : j ≡ op = ground (arith, hit) in
        let known : limit_of j limits ≡ some limit = rw same h.limited in
        let next : suc c ≡ 1 + c = omega arith in
        rw (hit, known, same, ← next) (tally_self c limits counts h (rw (known, same) at done))
    | inr miss ↦
        let next : 0 + c ≡ c = omega arith in
        rw (miss, next)
          (record {
            limited = h.limited;
            counted = tally_other op j (limit_of j limits) counts miss ∙ h.counted;
            within = h.within;
          })
  ]

  -- What a budget says of one opcode.
  abbrev pub BudgetCounts : ℕ → Option ComputeBudget → Type 0
  BudgetCounts c none = ⊥
  BudgetCounts c (some b) = Counts op c limit b.limits b.op_counts

  charge-BudgetCounts :
      (c j : ℕ) (o : Option ComputeBudget)
      → BudgetCounts c o
      → (charge j o).0 ≡ ok tt
      → BudgetCounts (times op (j ∷ []) + c) (charge j o).1
  unfolding charge
  charge-BudgetCounts c j none h done = absurd h
  charge-BudgetCounts c j (some b) h done = tally-Counts c j b.limits b.op_counts h done

  times_cons : (j : ℕ) (ops : List ℕ) → times op (j ∷ ops) ≡ times op (j ∷ []) + times op ops
  times_cons j ops = ground arith

  regroup :
      (j c : ℕ) (ops : List ℕ) → times op ops + (times op (j ∷ []) + c) ≡ times op (j ∷ ops) + c
  regroup j c ops = omega (arith, times_cons j ops)

  -- A run that no charge refuses.
  charge_all_ok :
      (ops : List ℕ) (j : ℕ) (m : Meter)
      → m.in_taproot ≡ true
      → (charge_all (j ∷ ops) m).0 ≡ ok tt
      → ((charge_opcode j m).0 ≡ ok tt) × (charge_all (j ∷ ops) m ≡ charge_all ops (charged j m))
  charge_all_ok ops j m on = unfold charge_all in go (charge_opcode j m) refl
    where
      go :
          (t : Result (Unit {0}) × Meter)
          → charge_opcode j m ≡ t
          → (continue t (λ _. charge_all ops)).0 ≡ ok tt
          → ((charge_opcode j m).0 ≡ ok tt)
            × (continue t (λ _. charge_all ops) ≡ charge_all ops (charged j m))
      go (ok u, m') e h =
          let first : (charge_opcode j m).0 ≡ ok tt = rw e refl in
          let (_, _, same) = charge_opcode_ok j m on first in
          (first, ap (λ (x : Meter). charge_all ops x) (rw e at same))
      go (err e', m') e h = cc h

  pub charge_all-Counts :
      (ops : List ℕ) (c : ℕ) (m : Meter)
      → m.in_taproot ≡ true
      → Counts op c limit m.limits m.op_counts
      → (charge_all ops m).0 ≡ ok tt
      → pos (times op ops + c) ≤ℤ limit
  charge_all-Counts [] c m on h done = omega (arith, h.within)
  charge_all-Counts (j ∷ ops) c m on h done =
      let (first, same) = charge_all_ok ops j m on done in
      let (tallied, _, _) = charge_opcode_ok j m on first in
      rw (regroup j c ops) at (
        charge_all-Counts ops (times op (j ∷ []) + c) (charged j m) on
          (tally-Counts c j m.limits m.op_counts h tallied) (rw same at done))

  pub charge_all-BudgetCounts :
      (ops : List ℕ) (c : ℕ) (m : Meter)
      → m.in_taproot ≡ true
      → BudgetCounts c m.budget
      → (charge_all ops m).0 ≡ ok tt
      → BudgetCounts (times op ops + c) (charge_all ops m).1.budget
  charge_all-BudgetCounts [] c m on h done =
      let same : 0 + c ≡ c = omega arith in unfold charge_all in rw same h
  charge_all-BudgetCounts (j ∷ ops) c m on h done =
      let (first, same) = charge_all_ok ops j m on done in
      let (_, budget_ok, _) = charge_opcode_ok j m on first in
      rw (same, ← regroup j c ops)
        (charge_all-BudgetCounts ops (times op (j ∷ []) + c) (charged j m) on
          (charge-BudgetCounts c j m.budget h budget_ok) (rw same at done))
