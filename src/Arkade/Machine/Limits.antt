-- ===== src/Arkade/Machine/Limits.antt =====
-- The limits that Step of pkg/arkade/engine.go sets to the two stacks.
use arkade_2fa_vault_poc.Prelude.{
  ℕ, ◌+◌, ◌*◌, ◌^◌, ◌<◌, ◌≤◌, ◌≡◌, ◌↔◌, refl, ◌∙◌, Bool, true, false, length, arith, if◌then◌else◌,
}
use arkade_2fa_vault_poc.Prelude.Int.{pos, pos_add, int32-eq_of_IsInt32, int64-eq_of_IsInt64, ltb_ℤ}
use arkade_2fa_vault_poc.Arkade.Result.{Result, ok, err, stack_overflow}
use arkade_2fa_vault_poc.Arkade.Stack.Items.{depth-length}
use arkade_2fa_vault_poc.Arkade.Machine.{Engine}
use arkade_2fa_vault_poc.Arkade.Machine.Execute.{
  item_bytes, is_over_items, is_over_bytes, check_stacks,
}
use arkade_2fa_vault_poc.Arkade.Machine.Charged.{check_stacks-same}

-- The stacks of an engine are within the limits of Step.
pub record IsWithinLimits (max_items : ℕ) (vm : Engine) : Type 0 where
  pub few : length vm.dstack.stk + length vm.astack.stk ≤ max_items
  pub small : item_bytes vm.dstack.stk + item_bytes vm.astack.stk ≤ 128 * 1024

-- The stacks are far from the ranges of int32 and int64.
pub record IsCountable (vm : Engine) : Type 0 where
  pub items : length vm.dstack.stk + length vm.astack.stk < 2 ^ 31
  pub bytes : item_bytes vm.dstack.stk + item_bytes vm.astack.stk < 2 ^ 63

over_items-eq :
    (max_items : ℕ) (vm : Engine)
    → IsCountable vm
    → is_over_items max_items vm
      ≡ ltb_ℤ (pos max_items) (pos (length vm.dstack.stk + length vm.astack.stk))
over_items-eq max_items vm h =
    rw
      (
        depth-length vm.dstack (omega (arith, h.items)),
        depth-length vm.astack (omega (arith, h.items)),
        pos_add (length vm.dstack.stk) (length vm.astack.stk),
        int32-eq_of_IsInt32 (pos (length vm.dstack.stk + length vm.astack.stk))
            (omega (arith, h.items)),
      )
      refl

over_bytes-eq :
    (vm : Engine)
    → IsCountable vm
    → is_over_bytes vm
      ≡ ltb_ℤ (pos (128 * 1024)) (pos (item_bytes vm.dstack.stk + item_bytes vm.astack.stk))
over_bytes-eq vm h =
    rw
      (
        int64-eq_of_IsInt64 (pos (item_bytes vm.dstack.stk)) (omega (arith, h.bytes)),
        int64-eq_of_IsInt64 (pos (item_bytes vm.astack.stk)) (omega (arith, h.bytes)),
        pos_add (item_bytes vm.dstack.stk) (item_bytes vm.astack.stk),
        int64-eq_of_IsInt64 (pos (item_bytes vm.dstack.stk + item_bytes vm.astack.stk))
            (omega (arith, h.bytes)),
      )
      refl

-- The checks of Step accept exactly the engines whose two stacks together hold at most `max_items` items and
-- 128 KiB, for stacks whose counts fit an int32 and whose bytes fit an int64, and they change nothing.
pub check_stacks_exact :
    (max_items : ℕ) (vm : Engine)
    → IsCountable vm
    → ((check_stacks max_items vm).1 ≡ vm)
      × (((check_stacks max_items vm).0 ≡ ok tt) ↔ IsWithinLimits max_items vm)
unfolding check_stacks
check_stacks_exact max_items vm h = (check_stacks-same max_items vm, (there, back))
  where
    both_false :
        (a b : Bool)
        → (if◌then◌else◌ {A = Result (Unit {0}) × Engine} a
            (err stack_overflow, vm)
            (if b then (err stack_overflow, vm) else (ok tt, vm))).0
          ≡ ok tt
        → (a ≡ false) × (b ≡ false)
    both_false true b e = cc
    both_false false true e = cc
    both_false false false e = (refl, refl)

    there : (check_stacks max_items vm).0 ≡ ok tt → IsWithinLimits max_items vm
    there e =
        let (items, bytes) = both_false (is_over_items max_items vm) (is_over_bytes vm) e in
        record {
          few = ground (arith, over_items-eq max_items vm h, items);
          small = ground (arith, over_bytes-eq vm h, bytes);
        }

    back : IsWithinLimits max_items vm → (check_stacks max_items vm).0 ≡ ok tt
    back w =
        let items : is_over_items max_items vm ≡ false =
          over_items-eq max_items vm h ∙ ground (arith, w.few) in
        let bytes : is_over_bytes vm ≡ false = over_bytes-eq vm h ∙ ground (arith, w.small) in
        rw (items, bytes) refl
