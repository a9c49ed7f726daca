-- ===== src/Arkade/Machine/Documented.antt =====
-- The stack opcodes of pkg/arkade/opcode.go against the stack transformations of their comments.
use mathlib.Core.List.{append_assoc, append-nil}
use arkade_2fa_vault_poc.Prelude.{
  ℕ, ◌+◌, ◌^◌, ◌<◌, ◌≡◌, refl, ap, ◌∙◌, Bool, List, [], ◌∷◌, ◌++◌, length, length-append, arith,
}
use arkade_2fa_vault_poc.Prelude.Int.{pos}
use arkade_2fa_vault_poc.Arkade.Result.{Result, ok}
use arkade_2fa_vault_poc.Arkade.Stack.{
  Item, Stack, Op, nip_n_item, rot_n, swap_n, over_n, dup_n, drop_n, tuck,
}
use arkade_2fa_vault_poc.Arkade.Stack.Items.{IsShort, with_items, nip_at}
use arkade_2fa_vault_poc.Arkade.Stack.Moves.{
  rot_n_lem, swap_n_lem, over_n_lem, dup_n_lem, drop_n_lem, tuck_lem,
}
use arkade_2fa_vault_poc.Arkade.Machine.{Engine, on_dstack}
use arkade_2fa_vault_poc.Arkade.Machine.Opcodes.{
  Handler, opcode_2drop, opcode_2dup, opcode_3dup, opcode_2over, opcode_2rot, opcode_2swap,
  opcode_drop, opcode_dup, opcode_nip, opcode_over, opcode_rot, opcode_swap, opcode_tuck,
}
use arkade_2fa_vault_poc.Arkade.Machine.Table.{opfunc}

-- The transformations, on the top items only.
pub data Documented : ℕ → List Item → List Item → Type 0 where
  doc_2drop : (x y : Item) → Documented 0x6d (x ∷ y ∷ []) []
  doc_2dup : (x y : Item) → Documented 0x6e (x ∷ y ∷ []) (x ∷ y ∷ x ∷ y ∷ [])
  doc_3dup : (x y z : Item) → Documented 0x6f (x ∷ y ∷ z ∷ []) (x ∷ y ∷ z ∷ x ∷ y ∷ z ∷ [])
  doc_2over : (x y z w : Item) → Documented 0x70 (x ∷ y ∷ z ∷ w ∷ []) (x ∷ y ∷ z ∷ w ∷ x ∷ y ∷ [])
  doc_2rot :
      (x y z w u v : Item)
      → Documented 0x71 (x ∷ y ∷ z ∷ w ∷ u ∷ v ∷ []) (z ∷ w ∷ u ∷ v ∷ x ∷ y ∷ [])
  doc_2swap : (x y z w : Item) → Documented 0x72 (x ∷ y ∷ z ∷ w ∷ []) (z ∷ w ∷ x ∷ y ∷ [])
  doc_drop : (x : Item) → Documented 0x75 (x ∷ []) []
  doc_dup : (x : Item) → Documented 0x76 (x ∷ []) (x ∷ x ∷ [])
  doc_nip : (x y : Item) → Documented 0x77 (x ∷ y ∷ []) (y ∷ [])
  doc_over : (x y : Item) → Documented 0x78 (x ∷ y ∷ []) (x ∷ y ∷ x ∷ [])
  doc_rot : (x y z : Item) → Documented 0x7b (x ∷ y ∷ z ∷ []) (y ∷ z ∷ x ∷ [])
  doc_swap : (x y : Item) → Documented 0x7c (x ∷ y ∷ []) (y ∷ x ∷ [])
  doc_tuck : (x y : Item) → Documented 0x7d (x ∷ y ∷ []) (y ∷ x ∷ y ∷ [])

abbrev pub with_dstack : Engine → Stack → Engine
with_dstack vm s = record vm { dstack = s }

on_dstack_ok :
    (m : Op (Unit {0})) (vm : Engine) (s s' : Stack)
    → m s ≡ (ok tt, s')
    → on_dstack m (with_dstack vm s) ≡ (ok tt, with_dstack vm s')
on_dstack_ok m vm s s' e = ap (λ (t : Result (Unit {0}) × Stack). (t.0, with_dstack vm t.1)) e

module _ (others : ℕ → List ℕ → Handler) (vm : Engine) (m : Bool) (base : List Item) where
  nip_item :
      (x y : Item)
      → IsShort (base ++ x ∷ y ∷ [])
      → nip_n_item (pos 1) (with_items m (base ++ x ∷ y ∷ []))
        ≡ (ok tt, with_items m (base ++ y ∷ []))
  unfolding nip_n_item
  nip_item x y short = rw (nip_at m base (y ∷ []) x short) refl

  tuck_items :
      (x y : Item)
      → IsShort (base ++ x ∷ y ∷ [])
      → tuck (with_items m (base ++ x ∷ y ∷ [])) ≡ (ok tt, with_items m (base ++ y ∷ x ∷ y ∷ []))
  tuck_items x y short =
      let before : (base ++ x ∷ []) ++ y ∷ [] ≡ base ++ x ∷ y ∷ [] =
        append_assoc base (x ∷ []) (y ∷ []) in
      let after : ((base ++ y ∷ []) ++ x ∷ []) ++ y ∷ [] ≡ base ++ y ∷ x ∷ y ∷ [] =
        ap (λ (t : List Item). t ++ y ∷ []) (append_assoc base (y ∷ []) (x ∷ []))
        ∙ append_assoc base (y ∷ x ∷ []) (y ∷ []) in
      rw (before, after) at (tuck_lem m base x y (rw before short))

  -- OP_2DROP, OP_2DUP, OP_3DUP, OP_2OVER, OP_2ROT, OP_2SWAP, OP_DROP, OP_DUP, OP_NIP, OP_OVER, OP_ROT,
  -- OP_SWAP and OP_TUCK transform the top items as their comments say and change nothing else, whatever
  -- is below, on a stack that stays under 2^31 items.
  pub opfunc-Documented :
      (op : ℕ) (xs ys : List Item)
      → Documented op xs ys
      → length base + 6 < 2 ^ 31
      → opfunc others op [] (with_dstack vm (with_items m (base ++ xs)))
        ≡ (ok tt, with_dstack vm (with_items m (base ++ ys)))
  unfolding opfunc opcode_2drop opcode_2dup opcode_3dup opcode_2over opcode_2rot opcode_2swap
      opcode_drop opcode_dup opcode_nip opcode_over opcode_rot opcode_swap opcode_tuck
  opfunc-Documented op xs ys d short = go d
    where
      lift_ok :
          (a b : List Item) (f : Op (Unit {0}))
          → f (with_items m a) ≡ (ok tt, with_items m b)
          → on_dstack f (with_dstack vm (with_items m a)) ≡ (ok tt, with_dstack vm (with_items m b))
      lift_ok a b f e = on_dstack_ok f vm (with_items m a) (with_items m b) e

      dropped :
          (a : List Item) (f : Op (Unit {0}))
          → f (with_items m (base ++ a)) ≡ (ok tt, with_items m base)
          → on_dstack f (with_dstack vm (with_items m (base ++ a)))
            ≡ (ok tt, with_dstack vm (with_items m (base ++ [])))
      dropped a f e = rw (append-nil base) (lift_ok (base ++ a) base f e)

      fits : (ts : List Item) → length ts < 7 → IsShort (base ++ ts)
      fits ts h = omega (arith, short, length-append base ts, h)

      go :
          {op : ℕ} {xs ys : List Item}
          → Documented op xs ys
          → opfunc others op [] (with_dstack vm (with_items m (base ++ xs)))
            ≡ (ok tt, with_dstack vm (with_items m (base ++ ys)))
      go (doc_2drop x y) =
          dropped (x ∷ y ∷ []) (drop_n (pos 2))
            (drop_n_lem m base 1 (x ∷ y ∷ []) refl (fits (x ∷ y ∷ []) (omega arith)))
      go (doc_2dup x y) =
          lift_ok _ _ (dup_n (pos 2)) (dup_n_lem m base 1 (x ∷ y ∷ []) refl (omega (arith, short)))
      go (doc_3dup x y z) =
          lift_ok _ _ (dup_n (pos 3))
            (dup_n_lem m base 2 (x ∷ y ∷ z ∷ []) refl (omega (arith, short)))
      go (doc_2over x y z w) =
          lift_ok _ _ (over_n (pos 2))
            (over_n_lem m base 1 (x ∷ y ∷ []) (z ∷ w ∷ []) refl refl (omega (arith, short)))
      go (doc_2rot x y z w u v) = lift_ok _ _ (rot_n (pos 2)) (
          rot_n_lem m base 1 (x ∷ y ∷ []) (z ∷ w ∷ []) (u ∷ v ∷ []) refl refl refl
            (fits (x ∷ y ∷ z ∷ w ∷ u ∷ v ∷ []) (omega arith)))
      go (doc_2swap x y z w) = lift_ok _ _ (swap_n (pos 2)) (
          swap_n_lem m base 1 (x ∷ y ∷ []) (z ∷ w ∷ []) refl refl
            (fits (x ∷ y ∷ z ∷ w ∷ []) (omega arith)))
      go (doc_drop x) =
          dropped (x ∷ []) (drop_n (pos 1))
            (drop_n_lem m base 0 (x ∷ []) refl (fits (x ∷ []) (omega arith)))
      go (doc_dup x) =
          lift_ok _ _ (dup_n (pos 1)) (dup_n_lem m base 0 (x ∷ []) refl (omega (arith, short)))
      go (doc_nip x y) =
          lift_ok _ _ (nip_n_item (pos 1)) (nip_item x y (fits (x ∷ y ∷ []) (omega arith)))
      go (doc_over x y) =
          lift_ok _ _ (over_n (pos 1))
            (over_n_lem m base 0 (x ∷ []) (y ∷ []) refl refl (omega (arith, short)))
      go (doc_rot x y z) = lift_ok _ _ (rot_n (pos 1)) (
          rot_n_lem m base 0 (x ∷ []) (y ∷ []) (z ∷ []) refl refl refl
            (fits (x ∷ y ∷ z ∷ []) (omega arith)))
      go (doc_swap x y) =
          lift_ok _ _ (swap_n (pos 1))
            (swap_n_lem m base 0 (x ∷ []) (y ∷ []) refl refl (fits (x ∷ y ∷ []) (omega arith)))
      go (doc_tuck x y) = lift_ok _ _ tuck (tuck_items x y (fits (x ∷ y ∷ []) (omega arith)))
