-- ===== src/Arkade/Machine/Verdict.antt =====
-- CheckErrorCondition of pkg/arkade/engine.go, the verdict on a finished execution.
use arkade_2fa_vault_poc.Prelude.{
  ℕ, ◌+◌, ◌≤◌, ◌≡◌, ◌↔◌, ◌⊎◌, inl, inr, ◌≢◌, not, ◌&&◌, ◌==◌, refl, ap, sym, ◌∙◌, Bool, true, false,
  List, [], ◌∷◌, ◌++◌, length, length-append, arith, ltb, if◌then◌else◌,
}
use arkade_2fa_vault_poc.Prelude.Int.{pos, ltb_ℤ, eq_ℤ, int32}
use arkade_2fa_vault_poc.Arkade.Result.{
  continue, pure, Result, ok, err, script_unfinished, clean_stack,
}
use arkade_2fa_vault_poc.Arkade.Stack.{Item, Stack, depth, as_bool, pop_bool}
use arkade_2fa_vault_poc.Arkade.Stack.Items.{IsShort, with_items, depth-length}
use arkade_2fa_vault_poc.Arkade.Stack.Loops.{unsnoc, pop_at}
use arkade_2fa_vault_poc.Arkade.Machine.{Engine}
use arkade_2fa_vault_poc.Arkade.Machine.Execute.{check_top, check_error_condition, require_true}

-- A true item is on top, and alone where the script is the final one.
pub record IsTrueTop (final_script : Bool) (stk : List Item) : Type 0 where
  pub below : List Item
  pub top : Item
  pub items : stk ≡ below ++ top ∷ []
  pub clean : final_script ≡ true → below ≡ []
  pub truth : as_bool top ≡ true

abbrev on_items : Engine → List Item → Engine
on_items vm stk = record vm { dstack = with_items vm.dstack.verify_minimal_data stk }

check_top-empty :
    (final_script : Bool) (vm : Engine) → (check_top final_script (on_items vm [])).0 ≢ ok tt
unfolding check_top depth int32
check_top-empty true vm e = cc
check_top-empty false vm e = cc

pop_bool_at :
    (m : Bool) (below : List Item) (top : Item)
    → IsShort (below ++ top ∷ [])
    → pop_bool (with_items m (below ++ top ∷ [])) ≡ (ok (as_bool top), with_items m below)
unfolding pop_bool
pop_bool_at m below top short =
    ap (λ (r : Result Item × Stack). continue r (λ so. pure (as_bool so)))
      (pop_at m below top short)

check_top-at :
    (final_script : Bool) (vm : Engine) (below : List Item) (top : Item)
    → IsShort (below ++ top ∷ [])
    → check_top final_script (on_items vm (below ++ top ∷ [])) ≡ (
        if final_script && not (length below == 0)
        then (err clean_stack, on_items vm (below ++ top ∷ []))
        else require_true (as_bool top) (on_items vm below))
unfolding check_top
check_top-at final_script vm below top short =
    let m = vm.dstack.verify_minimal_data in
    let size : depth (with_items m (below ++ top ∷ [])) ≡ pos (length below + 1) =
      depth-length (with_items m (below ++ top ∷ [])) short
      ∙ ap pos (length-append below (top ∷ [])) in
    let one : eq_ℤ (pos (length below + 1)) (pos 1) ≡ (length below == 0) = ground arith in
    let some_item : ltb_ℤ (pos (length below + 1)) (pos 1) ≡ false = ground arith in
    rw (size, one, some_item, pop_bool_at m below top short) refl

module _ (unclean after : Engine) where
  abbrev passed : Bool → Bool → Bool → Result (Unit {0}) × Engine
  passed final_script alone truth =
      if final_script && not alone then (err clean_stack, unclean) else require_true truth after

  passed_lem :
      (final_script alone truth : Bool)
      → (passed final_script alone truth).0 ≡ ok tt
      → (final_script ≡ true → alone ≡ true) × (truth ≡ true)
  passed_lem true true true e = (λ _. refl, refl)
  passed_lem false alone true e = (λ h. cc, refl)
  passed_lem true false truth e = cc
  passed_lem true true false e = cc
  passed_lem false alone false e = cc

  passed_back :
      (final_script alone truth : Bool)
      → (final_script ≡ true → alone ≡ true)
      → truth ≡ true
      → (passed final_script alone truth).0 ≡ ok tt
  passed_back true true true clean h = refl
  passed_back true false true clean h = let e = clean refl in cc
  passed_back false alone true clean h = refl
  passed_back final_script alone false clean h = cc

no_items : (stk : List Item) → (length stk == 0) ≡ true → stk ≡ []
no_items [] e = refl
no_items (x ∷ stk) e = ground (arith, e)

check_top-IsTrueTop :
    (final_script : Bool) (vm : Engine) (stk : List Item)
    → IsShort stk
    → (check_top final_script (on_items vm stk)).0 ≡ ok tt
    → IsTrueTop final_script stk
check_top-IsTrueTop final_script vm [] short e = absurd (check_top-empty final_script vm e)
check_top-IsTrueTop final_script vm (x ∷ xs) short e =
    let (below, top, items, n) = unsnoc x xs in
    let size = ap length items in
    let run = check_top-at final_script vm below top (omega (arith, short, size)) in
    let (clean, truth) =
      passed_lem (on_items vm (below ++ top ∷ [])) (on_items vm below) final_script
        (length below == 0) (as_bool top)
        (sym (ap (λ r. r.0) run)
          ∙ sym (ap (λ (t : List Item). (check_top final_script (on_items vm t)).0) items)
          ∙ e) in
    record {
      below = below;
      top = top;
      items = items;
      clean = λ h. no_items below (clean h);
      truth = truth;
    }

IsTrueTop-check_top :
    (final_script : Bool) (vm : Engine) (stk : List Item)
    → IsShort stk
    → IsTrueTop final_script stk
    → (check_top final_script (on_items vm stk)).0 ≡ ok tt
IsTrueTop-check_top final_script vm stk short t =
    let size = ap length t.items in
    let run = check_top-at final_script vm t.below t.top (omega (arith, short, size)) in
    ap (λ (u : List Item). (check_top final_script (on_items vm u)).0) t.items
    ∙ ap (λ r. r.0) run
    ∙ passed_back (on_items vm (t.below ++ t.top ∷ [])) (on_items vm t.below) final_script
        (length t.below == 0) (as_bool t.top) (λ h. let e = t.clean h in rw e refl) t.truth

finished_lem :
    (unfinished final_script : Bool) (vm : Engine)
    → (if unfinished then (err script_unfinished, vm) else check_top final_script vm).0 ≡ ok tt
    → (unfinished ≡ false) × ((check_top final_script vm).0 ≡ ok tt)
finished_lem true final_script vm e = cc
finished_lem false final_script vm e = (refl, e)

-- CheckErrorCondition returns nil exactly where a key spend has succeeded already, or every script has been run
-- and the top item of the data stack is true, and alone where the script is the final one, for a stack shorter
-- than the largest int32.
pub check_error_condition_exact :
    (must_succeed : Bool) (script_idx script_count : ℕ) (final_script : Bool) (vm : Engine)
    → IsShort vm.dstack.stk
    → ((check_error_condition must_succeed script_idx script_count final_script vm).0 ≡ ok tt) ↔ (
        (must_succeed ≡ true)
        ⊎ ((script_count ≤ script_idx) × IsTrueTop final_script vm.dstack.stk))
unfolding check_error_condition
check_error_condition_exact true script_idx script_count final_script vm short =
    (λ _. inl refl, λ _. refl)
check_error_condition_exact false script_idx script_count final_script vm short = (there, back)
  where
    there :
        (check_error_condition false script_idx script_count final_script vm).0 ≡ ok tt
        → (false ≡ true) ⊎ ((script_count ≤ script_idx) × IsTrueTop final_script vm.dstack.stk)
    there e =
        let (finished, passes) = finished_lem (ltb script_idx script_count) final_script vm e in
        inr
          (ground (arith, finished), check_top-IsTrueTop final_script vm vm.dstack.stk short passes)

    back :
        (false ≡ true) ⊎ ((script_count ≤ script_idx) × IsTrueTop final_script vm.dstack.stk)
        → (check_error_condition false script_idx script_count final_script vm).0 ≡ ok tt
    back (inl e) = cc
    back (inr (ended, top)) =
        let finished : ltb script_idx script_count ≡ false = ground (arith, ended) in
        rw finished (IsTrueTop-check_top final_script vm vm.dstack.stk short top)
