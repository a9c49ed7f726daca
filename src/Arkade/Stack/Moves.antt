-- ===== src/Arkade/Stack/Moves.antt =====
-- What the multi-item methods of pkg/arkade/stack.go do to the whole stack, for every count.
use arkade_2fa_vault_poc.Prelude.{
  ℕ, suc, ◌+◌, ◌*◌, ◌^◌, ◌<◌, ◌≡◌, refl, Bool, false, List, [], ◌∷◌, ◌++◌, length, length-append,
  arith,
}
use mathlib.Core.List.{append-nil}
use arkade_2fa_vault_poc.Prelude.Int.{
  pos, int32, int32-eq_of_IsInt32, ◌-ℤ◌, ◌*ℤ◌, -ℤ_parts, ltb_ℤ, eq_of_parts,
}
use arkade_2fa_vault_poc.Arkade.Result.{ok}
use arkade_2fa_vault_poc.Arkade.Stack.{
  Item, rot_n, swap_n, over_n, dup_n, drop_n, tuck, pick_n, roll_n,
}
use arkade_2fa_vault_poc.Arkade.Stack.Items.{IsShort, with_items, peek_at, nip_at}
use arkade_2fa_vault_poc.Arkade.Stack.Loops.{move_loop_lem, copy_loop_lem, pop_at, drop_loop_lem}

mul_pos : (a b : ℕ) → pos a *ℤ pos b ≡ pos (a * b)
unfolding ◌*ℤ◌
mul_pos a b = ground arith

less_one : (n : ℕ) → suc n < 2 ^ 31 → int32 (pos (suc n) -ℤ pos 1) ≡ pos n
less_one n h =
    let same : pos (suc n) -ℤ pos 1 ≡ pos n =
      eq_of_parts _ _ (omega (arith, -ℤ_parts (pos (suc n)) (pos 1))) in
    rw same (int32-eq_of_IsInt32 (pos n) (omega (arith, h)))

-- k * n - 1 as int32 does not wrap where that many items fit.
entry_of :
    (k n e : ℕ) → k * n ≡ suc e → suc e < 2 ^ 31 → int32 (int32 (pos k *ℤ pos n) -ℤ pos 1) ≡ pos e
entry_of k n e h short =
    rw (mul_pos k n, h, int32-eq_of_IsInt32 (pos (suc e)) (omega (arith, short))) (less_one e short)

positive : (n : ℕ) → ltb_ℤ (pos (suc n)) (pos 1) ≡ false
positive n = ground arith

module _ (m : Bool) (base : List Item) where
  -- RotN(n) takes [.. xs ys zs] to [.. ys zs xs], for three groups of n items and n of 1 or more, on a
  -- stack of fewer than 2^31 items.
  pub rot_n_lem :
      (n : ℕ) (xs ys zs : List Item)
      → length xs ≡ suc n
      → length ys ≡ suc n
      → length zs ≡ suc n
      → IsShort (base ++ (xs ++ (ys ++ zs)))
      → rot_n (pos (suc n)) (with_items m (base ++ (xs ++ (ys ++ zs))))
        ≡ (ok tt, with_items m (base ++ ((ys ++ zs) ++ xs)))
  unfolding rot_n
  rot_n_lem n xs ys zs hx hy hz short =
      let sizes : length xs + length (ys ++ zs) ≡ suc (3 * n + 2) =
        omega (arith, hx, hy, hz, length-append ys zs) in
      let entry = entry_of 3 (suc n) (3 * n + 2) (omega arith) (
        omega (
          arith,
          short,
          sizes,
          length-append base (xs ++ (ys ++ zs)),
          length-append xs (ys ++ zs),
        )) in
      rw (positive n, entry, ← hx) (move_loop_lem m base xs (ys ++ zs) (3 * n + 2) sizes short)

  -- SwapN(n) takes [.. xs ys] to [.. ys xs], for two groups of n items and n of 1 or more, on a stack
  -- of fewer than 2^31 items.
  pub swap_n_lem :
      (n : ℕ) (xs ys : List Item)
      → length xs ≡ suc n
      → length ys ≡ suc n
      → IsShort (base ++ (xs ++ ys))
      → swap_n (pos (suc n)) (with_items m (base ++ (xs ++ ys)))
        ≡ (ok tt, with_items m (base ++ (ys ++ xs)))
  unfolding swap_n
  swap_n_lem n xs ys hx hy short =
      let sizes : length xs + length ys ≡ suc (2 * n + 1) = omega (arith, hx, hy) in
      let entry =
        entry_of 2 (suc n) (2 * n + 1) (omega arith)
          (omega (arith, short, sizes, length-append base (xs ++ ys), length-append xs ys)) in
      rw (positive n, entry, ← hx) (move_loop_lem m base xs ys (2 * n + 1) sizes short)

  -- OverN(n) takes [.. xs ys] to [.. xs ys xs], for two groups of n items and n of 1 or more, where the
  -- result has fewer than 2^31 items.
  pub over_n_lem :
      (n : ℕ) (xs ys : List Item)
      → length xs ≡ suc n
      → length ys ≡ suc n
      → length base + length xs + length ys + length xs < 2 ^ 31
      → over_n (pos (suc n)) (with_items m (base ++ (xs ++ ys)))
        ≡ (ok tt, with_items m (base ++ (xs ++ (ys ++ xs))))
  unfolding over_n
  over_n_lem n xs ys hx hy short =
      let entry = entry_of 2 (suc n) (2 * n + 1) (omega arith) (omega (arith, short, hx, hy)) in
      rw (positive n, entry, ← hx)
        (copy_loop_lem m base xs ys (2 * n + 1) (omega (arith, hx, hy)) short)

  -- DupN(n) takes [.. xs] to [.. xs xs], for a group of n items and n of 1 or more, where the result
  -- has fewer than 2^31 items.
  pub dup_n_lem :
      (n : ℕ) (xs : List Item)
      → length xs ≡ suc n
      → length base + length xs + length xs < 2 ^ 31
      → dup_n (pos (suc n)) (with_items m (base ++ xs)) ≡ (ok tt, with_items m (base ++ (xs ++ xs)))
  unfolding dup_n
  dup_n_lem n xs hx short =
      rw (positive n, less_one n (omega (arith, short, hx)), ← hx)
        (rw (append-nil xs) at
          (copy_loop_lem m base xs [] n (omega (arith, hx)) (omega (arith, short))))

  -- DropN(n) takes [.. xs] to [..], for a group of n items and n of 1 or more, on a stack of fewer than
  -- 2^31 items.
  pub drop_n_lem :
      (n : ℕ) (xs : List Item)
      → length xs ≡ suc n
      → IsShort (base ++ xs)
      → drop_n (pos (suc n)) (with_items m (base ++ xs)) ≡ (ok tt, with_items m base)
  unfolding drop_n
  drop_n_lem n xs hx short = rw (positive n) (drop_loop_lem (suc n) m base xs hx short)

  -- Tuck takes [.. x y] to [.. y x y], on a stack of fewer than 2^31 items.
  pub tuck_lem :
      (x y : Item)
      → IsShort ((base ++ x ∷ []) ++ y ∷ [])
      → tuck (with_items m ((base ++ x ∷ []) ++ y ∷ []))
        ≡ (ok tt, with_items m (((base ++ y ∷ []) ++ x ∷ []) ++ y ∷ []))
  unfolding tuck
  tuck_lem x y short =
      rw
        (
          pop_at m (base ++ x ∷ []) y short,
          pop_at m base x (omega (arith, short, length-append (base ++ x ∷ []) (y ∷ []))),
        )
        refl

  -- PickN(n) takes [.. x ys] to [.. x ys x] and RollN(n) takes it to [.. ys x], for a group ys of n
  -- items, on a stack of fewer than 2^31 items.
  pub pick_roll_lem :
      (x : Item) (ys : List Item)
      → IsShort (base ++ x ∷ ys)
      → (pick_n (pos (length ys)) (with_items m (base ++ x ∷ ys))
          ≡ (ok tt, with_items m ((base ++ x ∷ ys) ++ x ∷ [])))
        × (roll_n (pos (length ys)) (with_items m (base ++ x ∷ ys))
            ≡ (ok tt, with_items m ((base ++ ys) ++ x ∷ [])))
  unfolding pick_n roll_n
  pick_roll_lem x ys short =
      (rw (peek_at m base ys x short) refl, rw (nip_at m base ys x short) refl)
