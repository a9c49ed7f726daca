-- ===== src/Arkade/Vm/Grown.antt =====
-- What verifyWitnessProgram of pkg/arkade/engine.go does to the scripts of the engine.
use arkade_2fa_vault_poc.Prelude.{
  ℕ, zero, suc, ◌-◌, ◌≤◌, ◌≡◌, ◌⊎◌, inl, inr, refl, ap, Bool, true, false, not, ◌||◌, Option, none,
  some, List, [], ◌∷◌, ◌++◌, length, take, get_elem?, arith, ◌==◌, if_cases,
}
use arkade_2fa_vault_poc.Prelude.Int.{pos, ltb_ℤ}
use arkade_2fa_vault_poc.Arkade.Result.{
  Result, ok, err, continue, Action, btcd_error, discourage_upgradeable_taproot_version, ErrorCode,
  lift, ◌>>=◌, ◌>>◌,
}
use arkade_2fa_vault_poc.Arkade.Ensures.{Ensures, Ensures-mono}
use arkade_2fa_vault_poc.Arkade.Stack.{Item, depth, or_panic}
use arkade_2fa_vault_poc.Arkade.Tokenizer.{check_script_parses}
use arkade_2fa_vault_poc.Arkade.Machine.Execute.{item_bytes}
use arkade_2fa_vault_poc.Arkade.Vm.{Btcd, Vm, get_stack}
use arkade_2fa_vault_poc.Arkade.Vm.Witness.{
  checked, require, is_annexed_witness, without_annex, new_context, key_spend, are_small,
  check_start, add_script, commit_leaf, script_spend, pay_to_taproot_data_size, spend,
  verify_witness_program,
}

pub length-le-item_bytes :
    (items : List Item) (i : ℕ) (so : Item)
    → get_elem? items i ≡ some so
    → length so ≤ item_bytes items
unfolding item_bytes
length-le-item_bytes [] i so e = cc
length-le-item_bytes (x ∷ items) zero so e = ground (arith, e)
length-le-item_bytes (x ∷ items) (suc i) so e = omega (arith, length-le-item_bytes items i so e)

-- The same place, with the same scripts or one more of at most `bound` bytes.
pub record IsGrown (bound : ℕ) (vm v : Vm) : Type 0 where
  pub place : v.script_idx ≡ vm.script_idx
  pub numbered : v.version ≡ vm.version
  pub scripts :
      (v.scripts ≡ vm.scripts)
      ⊎ ((script : List ℕ) × (v.scripts ≡ vm.scripts ++ script ∷ []) × (length script ≤ bound))

item_bytes-take : (n : ℕ) (items : List Item) → item_bytes (take n items) ≤ item_bytes items
unfolding item_bytes
item_bytes-take zero items = omega arith
item_bytes-take (suc n) [] = omega arith
item_bytes-take (suc n) (x ∷ items) = omega (arith, item_bytes-take n items)

module _ (btcd : Btcd) (bound : ℕ) (vm : Vm) where
  abbrev Kept : Result (Unit {0}) × Vm → Type 0
  Kept = Ensures (λ (u : Unit {0}) v. v ≡ vm)

  abbrev Grows : Result (Unit {0}) × Vm → Type 0
  Grows = Ensures (λ (u : Unit {0}). IsGrown bound vm)

  commit_leaf-Kept :
      (o : Option btcd.ControlBlock) (program : List ℕ) (script : Item)
      → Kept (commit_leaf btcd o program script vm)
  commit_leaf-Kept none program script = tt
  commit_leaf-Kept (some control) program script =
      go (btcd.verify_taproot_leaf_commitment control program script)
        (btcd.leaf_version control == btcd.base_leaf_version)
    where
      go :
          (a b : Bool)
          → Kept ((require a btcd_error >> require b discourage_upgradeable_taproot_version) vm)
      go true true = refl
      go true false = tt
      go false b = tt

  check_start-Grows : (v : Vm) → IsGrown bound vm v → Grows (check_start btcd v)
  unfolding check_start
  check_start-Grows v h =
      if_cases Grows (ltb_ℤ (pos btcd.max_stack_size) (depth v.engine.dstack)) (λ _. tt)
        (λ _. if_cases Grows (are_small btcd (get_stack v.engine.dstack)) (λ _. h) (λ _. tt))

  add_script-IsGrown :
      (script : Item) (items : List Item) (v : Vm)
      → length script ≤ bound
      → v ≡ vm
      → IsGrown bound vm (add_script btcd script items v).1
  add_script-IsGrown script items v small e = record {
    place = ap (λ (u : Vm). u.script_idx) e;
    numbered = ap (λ (u : Vm). u.version) e;
    scripts = inr (script, ap (λ (u : Vm). u.scripts ++ script ∷ []) e, small);
  }

  chain-Grows :
      (t : Result (Unit {0}) × Vm) (o : Option ErrorCode) (script : Item) (items : List Item)
      → length script ≤ bound
      → Kept t
      → Grows (
          continue
            (continue (continue t (λ _. checked o)) (λ _. add_script btcd script items))
            (λ _. check_start btcd))
  chain-Grows (ok u, v) none script items small e =
      check_start-Grows (add_script btcd script items v).1
        (add_script-IsGrown script items v small e)
  chain-Grows (ok u, v) (some x) script items small e = tt
  chain-Grows (err x, v) o script items small e = tt

  script_spend-Grows :
      (program : List ℕ) (witness : List Item)
      → item_bytes witness ≤ bound
      → Grows (script_spend btcd program witness vm)
  unfolding script_spend
  script_spend-Grows program witness fits =
      go (get_elem? witness (length witness - 1)) (get_elem? witness (length witness - 2)) refl
    where
      go :
          (a b : Option Item)
          → get_elem? witness (length witness - 2) ≡ b
          → Grows (
              (lift (or_panic a) >>= λ control. lift (or_panic b) >>= λ script.
              commit_leaf btcd (btcd.parse_control_block control) program script
              >> checked (check_script_parses vm.version script)
              >> add_script btcd script (take (length witness - 2) witness)
              >> check_start btcd)
                vm)
      go none b e = tt
      go (some control) none e = tt
      go (some control) (some script) e =
          chain-Grows (commit_leaf btcd (btcd.parse_control_block control) program script vm)
            (check_script_parses vm.version script) script (take (length witness - 2) witness)
            (omega (arith, fits, length-le-item_bytes witness (length witness - 2) script e))
            (commit_leaf-Kept (btcd.parse_control_block control) program script)

  key_spend-Grows :
      (program : List ℕ) (o : Option Item)
      → Grows ((lift (or_panic o) >>= key_spend btcd program) vm)
  unfolding key_spend
  key_spend-Grows program none = tt
  key_spend-Grows program (some raw_sig) =
      if_cases Grows (btcd.verify_taproot_key_spend program raw_sig)
        (λ _. record { place = refl; numbered = refl; scripts = inl refl }) (λ _. tt)

  spend-Grows :
      (program : List ℕ) (witness : List Item)
      → item_bytes witness ≤ bound
      → Grows (spend btcd program witness vm)
  spend-Grows program witness fits =
      if_cases (λ (m : Action Vm (Unit {0})). Grows (m vm)) (length witness == 1)
        (λ _. key_spend-Grows program (get_elem? witness 0))
        (λ _. script_spend-Grows program witness fits)

without_annex-le :
    (btcd : Btcd) (witness : List Item)
    → item_bytes (without_annex btcd witness) ≤ item_bytes witness
without_annex-le btcd witness =
    if_cases (λ (w : List Item). item_bytes w ≤ item_bytes witness)
      (is_annexed_witness btcd witness) (λ _. item_bytes-take (length witness - 1) witness)
      (λ _. omega arith)

pub verify_witness_program-Grows :
    (btcd : Btcd) (witness : List Item) (program : Option (ℕ × List ℕ)) (vm : Vm)
    → Ensures
        (λ (u : Unit {0}). IsGrown (item_bytes witness) vm)
        (verify_witness_program btcd witness program vm)
unfolding verify_witness_program
verify_witness_program-Grows btcd witness none vm = tt
verify_witness_program-Grows btcd witness (some (version, program)) vm =
    if_cases grows
      (not (version == btcd.taproot_witness_version)
        || not (length program == pay_to_taproot_data_size))
      (λ _. tt)
      (λ _.
        if_cases grows (length witness == 0) (λ _. tt)
          (λ _.
            Ensures-mono (λ (u : Unit {0}). IsGrown (item_bytes witness) (new_context btcd vm))
              (λ (u : Unit {0}). IsGrown (item_bytes witness) vm)
              (spend btcd program (without_annex btcd witness) (new_context btcd vm))
              (λ u v h. record { place = h.place; numbered = h.numbered; scripts = h.scripts })
              (spend-Grows btcd (item_bytes witness) (new_context btcd vm) program
                (without_annex btcd witness) (without_annex-le btcd witness))))
  where
    grows : Result (Unit {0}) × Vm → Type 0
    grows = Ensures (λ (u : Unit {0}). IsGrown (item_bytes witness) vm)
