-- ===== src/Arkade/Stack/Loops.antt =====
-- What the loops of the multi-item methods of pkg/arkade/stack.go do, for every count.
use arkade_2fa_vault_poc.Prelude.{
  ℕ, zero, suc, ◌+◌, ◌^◌, ◌<◌, ◌≡◌, refl, ap, sym, ◌∙◌, Bool, List, [], ◌∷◌, ◌++◌, length,
  length-append, arith,
}
use mathlib.Core.List.{append-nil, append_assoc}
use arkade_2fa_vault_poc.Prelude.Int.{pos}
use arkade_2fa_vault_poc.Arkade.Result.{ok}
use arkade_2fa_vault_poc.Arkade.Stack.{
  Item, push_byte_array, pop_byte_array, move_loop, copy_loop, drop_loop,
}
use arkade_2fa_vault_poc.Arkade.Stack.Items.{IsShort, with_items, peek_at, nip_at}

push_at :
    (m : Bool) (stk : List Item) (x : Item)
    → push_byte_array x (with_items m stk) ≡ (ok tt, with_items m (stk ++ x ∷ []))
unfolding push_byte_array
push_at m stk x = refl

-- The items above the base go round: those moved end on top, in order.
pub move_loop_lem :
    (m : Bool) (base xs mid : List Item) (e : ℕ)
    → length xs + length mid ≡ suc e
    → IsShort (base ++ (xs ++ mid))
    → move_loop (length xs) (pos e) (with_items m (base ++ (xs ++ mid)))
      ≡ (ok tt, with_items m (base ++ (mid ++ xs)))
unfolding move_loop
move_loop_lem m base [] mid e h short = rw (append-nil mid) refl
move_loop_lem m base (x ∷ xs) mid e h short =
    let index : e ≡ length (xs ++ mid) = omega (arith, length-append xs mid) in
    let regroup : (base ++ (xs ++ mid)) ++ x ∷ [] ≡ base ++ (xs ++ (mid ++ x ∷ [])) =
      append_assoc base (xs ++ mid) (x ∷ [])
      ∙ ap (λ (t : List Item). base ++ t) (append_assoc xs mid (x ∷ [])) in
    let done : base ++ ((mid ++ x ∷ []) ++ xs) ≡ base ++ (mid ++ (x ∷ xs)) =
      ap (λ (t : List Item). base ++ t) (append_assoc mid (x ∷ []) xs) in
    rw (ap pos index, nip_at m base (xs ++ mid) x short, push_at m (base ++ (xs ++ mid)) x, regroup)
      (rw (← index) (
        move_loop_lem m base xs (mid ++ x ∷ []) e (omega (arith, length-append mid (x ∷ []))) (
          omega (
            arith,
            short,
            length-append base (x ∷ (xs ++ mid)),
            length-append xs mid,
            length-append base (xs ++ (mid ++ x ∷ [])),
            length-append xs (mid ++ x ∷ []),
            length-append mid (x ∷ []),
          ))
        ∙ ap (λ (t : List Item). (ok tt, with_items m t)) done))

-- The items are copied to the top, in order.
pub copy_loop_lem :
    (m : Bool) (base xs mid : List Item) (e : ℕ)
    → length xs + length mid ≡ suc e
    → length base + length xs + length mid + length xs < 2 ^ 31
    → copy_loop (length xs) (pos e) (with_items m (base ++ (xs ++ mid)))
      ≡ (ok tt, with_items m (base ++ (xs ++ (mid ++ xs))))
unfolding copy_loop
copy_loop_lem m base [] mid e h short = rw (append-nil mid) refl
copy_loop_lem m base (x ∷ xs) mid e h short =
    let index : e ≡ length (xs ++ mid) = omega (arith, length-append xs mid) in
    let fits : IsShort (base ++ x ∷ (xs ++ mid)) =
      omega (arith, short, length-append base (x ∷ (xs ++ mid)), length-append xs mid) in
    let regroup : (base ++ x ∷ (xs ++ mid)) ++ x ∷ []
        ≡ (base ++ x ∷ []) ++ (xs ++ (mid ++ x ∷ [])) =
      append_assoc base (x ∷ (xs ++ mid)) (x ∷ [])
      ∙ ap (λ (t : List Item). base ++ (x ∷ t)) (append_assoc xs mid (x ∷ []))
      ∙ sym (append_assoc base (x ∷ []) (xs ++ (mid ++ x ∷ []))) in
    let done : (base ++ x ∷ []) ++ (xs ++ ((mid ++ x ∷ []) ++ xs))
        ≡ base ++ ((x ∷ xs) ++ (mid ++ (x ∷ xs))) =
      append_assoc base (x ∷ []) (xs ++ ((mid ++ x ∷ []) ++ xs))
      ∙ ap (λ (t : List Item). base ++ (x ∷ (xs ++ t))) (append_assoc mid (x ∷ []) xs) in
    rw
      (
        ap pos index,
        peek_at m base (xs ++ mid) x fits,
        push_at m (base ++ x ∷ (xs ++ mid)) x,
        regroup,
      )
      (rw (← index) (
          copy_loop_lem m (base ++ x ∷ []) xs (mid ++ x ∷ []) e
            (omega (arith, length-append mid (x ∷ [])))
            (omega (arith, short, length-append base (x ∷ []), length-append mid (x ∷ []))))
        ∙ ap (λ (t : List Item). (ok tt, with_items m t)) done)

pub unsnoc :
    (x : Item) (xs : List Item)
    → (ys : List Item) × (y : Item) × (x ∷ xs ≡ ys ++ y ∷ []) × (length ys ≡ length xs)
unsnoc x [] = ([], x, refl, refl)
unsnoc x (z ∷ xs) =
    let (ys, y, e, n) = unsnoc z xs in (x ∷ ys, y, ap (λ (t : List Item). x ∷ t) e, ap suc n)

pub pop_at :
    (m : Bool) (base : List Item) (x : Item)
    → IsShort (base ++ x ∷ [])
    → pop_byte_array (with_items m (base ++ x ∷ [])) ≡ (ok x, with_items m base)
unfolding pop_byte_array
pop_at m base x short =
    nip_at m base [] x short ∙ ap (λ (t : List Item). (ok x, with_items m t)) (append-nil base)

-- The items are dropped.
pub drop_loop_lem :
    (k : ℕ) (m : Bool) (base xs : List Item)
    → length xs ≡ k
    → IsShort (base ++ xs)
    → drop_loop k (with_items m (base ++ xs)) ≡ (ok tt, with_items m base)
unfolding drop_loop
drop_loop_lem zero m base [] h short = rw (append-nil base) refl
drop_loop_lem zero m base (x ∷ xs) h short = absurd (omega (arith, h))
drop_loop_lem (suc k) m base [] h short = absurd (omega (arith, h))
drop_loop_lem (suc k) m base (x ∷ xs) h short =
    let (ys, y, e, n) = unsnoc x xs in
    let regroup : base ++ (x ∷ xs) ≡ (base ++ ys) ++ y ∷ [] =
      ap (λ (t : List Item). base ++ t) e ∙ sym (append_assoc base ys (y ∷ [])) in
    rw (regroup, pop_at m (base ++ ys) y (rw regroup at short))
      (drop_loop_lem k m base ys (omega (arith, h, n))
        (omega (arith, short, n, length-append base ys, length-append base (x ∷ xs))))
