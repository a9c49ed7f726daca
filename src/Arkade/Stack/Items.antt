-- ===== src/Arkade/Stack/Items.antt =====
-- Reading and removing one item of the stack of pkg/arkade/stack.go, whose depth is an int32.
use arkade_2fa_vault_poc.Prelude.{
  suc, ◌+◌, ◌-◌, ◌^◌, ◌<◌, ◌≡◌, refl, ap, ◌∙◌, Bool, true, false, some, List, [], ◌∷◌, ◌++◌, length,
  length-append, take, drop, get_elem?, arith, ◌==◌,
}
use mathlib.Core.List.{append-nil}
use arkade_2fa_vault_poc.Prelude.Int.{pos, int32-eq_of_IsInt32, ◌-ℤ◌, -ℤ_parts, ltb_ℤ}
use arkade_2fa_vault_poc.Arkade.Result.{ok}
use arkade_2fa_vault_poc.Arkade.Stack.{Item, Stack, depth, peek_byte_array, without, nip_n}

-- The slice is shorter than the largest int32.
abbrev pub IsShort : List Item → Type 0
IsShort stk = length stk < 2 ^ 31

abbrev pub with_items : Bool → List Item → Stack
with_items m stk = record { stk = stk; verify_minimal_data = m }

module _ {ℓ} {A : Type ℓ} where
  pub get_elem?-append :
      (front back : List A) (x : A) → get_elem? (front ++ x ∷ back) (length front) ≡ some x
  get_elem?-append [] back x = refl
  get_elem?-append (y ∷ front) back x = get_elem?-append front back x

  pub take-append : (front back : List A) → take (length front) (front ++ back) ≡ front
  take-append [] back = refl
  take-append (y ∷ front) back = ap (λ (t : List A). y ∷ t) (take-append front back)

  pub drop-append : (front back : List A) → drop (length front) (front ++ back) ≡ back
  drop-append [] back = refl
  drop-append (y ∷ front) back = drop-append front back

  pub drop-suc-append :
      (front back : List A) (x : A) → drop (suc (length front)) (front ++ x ∷ back) ≡ back
  drop-suc-append [] back x = refl
  drop-suc-append (y ∷ front) back x = drop-suc-append front back x

pub depth-length : (s : Stack) → IsShort s.stk → depth s ≡ pos (length s.stk)
unfolding depth
depth-length s h = int32-eq_of_IsInt32 (pos (length s.stk)) (omega (arith, h))

module _ (front back : List Item) (x : Item) where
  abbrev whole : List Item
  whole = front ++ x ∷ back

  length-whole : length whole ≡ length front + 1 + length back
  length-whole = omega (arith, length-append front (x ∷ back))

  position : length whole - length back - 1 ≡ length front
  position = omega (arith, length-whole)

  without_middle :
      take (length whole - length back - 1) whole ++ drop (length whole - length back) whole
      ≡ front ++ back
  without_middle =
      let next : length whole - length back ≡ suc (length front) = omega (arith, length-whole) in
      rw (position, next, take-append front (x ∷ back), drop-suc-append front back x) refl

-- nipN's three cases remove the same item.
without_lem :
    (front back : List Item) (x : Item) → without (length back) (front ++ x ∷ back) ≡ front ++ back
without_lem front [] x =
    let last : length (front ++ x ∷ []) - 1 ≡ length front =
      omega (arith, length-whole front [] x) in
    rw (last, take-append front (x ∷ []), append-nil front) refl
without_lem [] (y ∷ back) x =
    let same : (length (y ∷ back) == length (x ∷ y ∷ back) - 1) ≡ true = ground arith in
    let nonzero : (length (y ∷ back) == 0) ≡ false = ground arith in rw (nonzero, same) refl
without_lem (z ∷ front) (y ∷ back) x =
    let other : (length (y ∷ back) == length ((z ∷ front) ++ x ∷ y ∷ back) - 1) ≡ false =
      ground (arith, length-whole (z ∷ front) (y ∷ back) x) in
    let nonzero : (length (y ∷ back) == 0) ≡ false = ground arith in
    rw (nonzero, other) (without_middle (z ∷ front) (y ∷ back) x)

module _ (m : Bool) (front back : List Item) (x : Item) (short : IsShort (front ++ x ∷ back)) where
  abbrev before : Stack
  before = with_items m (front ++ x ∷ back)

  size : depth before ≡ pos (length front + 1 + length back)
  size = depth-length before short ∙ ap pos (length-whole front back x)

  found : get_elem? (front ++ x ∷ back) (length front + 1 + length back - length back - 1) ≡ some x
  found =
      let here : length front + 1 + length back - length back - 1 ≡ length front = omega arith in
      rw here (get_elem?-append front back x)

  pub peek_at : peek_byte_array (pos (length back)) before ≡ (ok x, before)
  unfolding peek_byte_array
  peek_at =
      let inside : ltb_ℤ (pos (length back)) (pos (length front + 1 + length back)) ≡ true =
        ground arith in
      let nonneg : ltb_ℤ (pos (length back)) (pos 0) ≡ false = ground arith in
      rw (nonneg, size, inside, found) refl

  pub nip_at : nip_n (pos (length back)) before ≡ (ok x, with_items m (front ++ back))
  unfolding nip_n
  nip_at =
      let inside : ltb_ℤ (pos (length front + 1 + length back) -ℤ pos 1) (pos (length back))
          ≡ false =
        ground (arith, -ℤ_parts (pos (length front + 1 + length back)) (pos 1)) in
      let nonneg : ltb_ℤ (pos (length back)) (pos 0) ≡ false = ground arith in
      rw (nonneg, size, inside, found)
        (ap (λ (t : List Item). (ok x, with_items m t)) (without_lem front back x))
