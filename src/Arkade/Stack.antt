-- ===== src/Arkade/Stack.antt =====
-- pkg/arkade/stack.go: the data stack, a slice whose last item is the top. Positions are Go's int32,
-- and a method leaves what it has done where it fails.
pub mod Items
pub mod Loops
pub mod Moves
use arkade_2fa_vault_poc.Prelude.{
  ℕ, zero, suc, ◌-◌, Bool, true, false, not, ◌&&◌, ◌||◌, Option, none, some, List, [], ◌∷◌, ◌++◌,
  length, take, drop, get_elem?, ◌==◌, if◌then◌else◌,
}
use arkade_2fa_vault_poc.Prelude.Int.{ℤ, pos, pos_part, ◌-ℤ◌, ◌*ℤ◌, ltb_ℤ, int32}
use arkade_2fa_vault_poc.Arkade.Result.{
  Result, ok, err, invalid_stack_operation, index_panic, Action, pure, raise, lift, ◌>>=◌, ◌>>◌,
}
use arkade_2fa_vault_poc.Arkade.ScriptNum.{bytes, make_script_num, max_script_num_len}

abbrev pub Item : Type 0
Item = List ℕ

pub record Stack : Type 0 where
  pub stk : List Item
  pub verify_minimal_data : Bool

abbrev pub Op : Type 0 → Type 0
Op A = Action Stack A

-- A byte other than 0, except a last 0x80.
unfoldable pub as_bool : Item → Bool
as_bool [] = false
as_bool (b ∷ rest) =
    let later = as_bool rest in if b == 0 then later else not ((length rest == 0) && (b == 0x80))

abbrev pub from_bool : Bool → Item
from_bool true = 1 ∷ []
from_bool false = []

unfoldable pub depth : Stack → ℤ
depth s = int32 (pos (length s.stk))

unfoldable pub push_byte_array : Item → Op (Unit {0})
push_byte_array so s = (ok tt, record s { stk = s.stk ++ so ∷ [] })

-- The bytes of the number, and Go's panic where there are none.
unfoldable pub push_int : ℤ → Op (Unit {0})
unfolding push_byte_array
push_int val = lift (bytes val) >>= push_byte_array

unfoldable pub push_bool : Bool → Op (Unit {0})
unfolding push_byte_array
push_bool val = push_byte_array (from_bool val)

abbrev pub or_panic : Option Item → Result Item
or_panic none = err index_panic
or_panic (some so) = ok so

unfoldable pub peek_byte_array : ℤ → Op Item
unfolding depth
peek_byte_array idx s =
    let sz = depth s in
    if ltb_ℤ idx (pos 0) || not (ltb_ℤ idx sz)
    then (err invalid_stack_operation, s)
    else (or_panic (get_elem? s.stk (pos_part sz - pos_part idx - 1)), s)

-- The slice without its item at `i` from the end, by nipN's three cases.
abbrev pub without : ℕ → List Item → List Item
without i stk =
    let sz = length stk in
    if i == 0
    then take (sz - 1) stk
    else (if i == sz - 1 then drop 1 stk else take (sz - i - 1) stk ++ drop (sz - i) stk)

abbrev pub removed : Result Item → ℕ → Stack → Result Item × Stack
removed (err e) i s = (err e, s)
removed (ok so) i s = (ok so, record s { stk = without i s.stk })

unfoldable pub nip_n : ℤ → Op Item
unfolding depth
nip_n idx s =
    let sz = depth s in
    if ltb_ℤ idx (pos 0) || ltb_ℤ (sz -ℤ pos 1) idx
    then (err invalid_stack_operation, s)
    else removed (or_panic (get_elem? s.stk (pos_part sz - pos_part idx - 1))) (pos_part idx) s

unfoldable pub pop_byte_array : Op Item
unfolding nip_n
pop_byte_array = nip_n (pos 0)

unfoldable pub pop_int : Op ℤ
unfolding pop_byte_array
pop_int s =
    (pop_byte_array >>= λ so. lift (make_script_num so s.verify_minimal_data max_script_num_len)) s

unfoldable pub pop_bool : Op Bool
unfolding pop_byte_array
pop_bool = pop_byte_array >>= λ so. pure (as_bool so)

unfoldable pub peek_int : ℤ → Op ℤ
unfolding peek_byte_array
peek_int idx s =
    (peek_byte_array idx >>= λ so.
    lift (make_script_num so s.verify_minimal_data max_script_num_len))
      s

unfoldable pub peek_bool : ℤ → Op Bool
unfolding peek_byte_array
peek_bool idx = peek_byte_array idx >>= λ so. pure (as_bool so)

-- NipN drops the item.
unfoldable pub nip_n_item : ℤ → Op (Unit {0})
unfolding nip_n
nip_n_item idx = nip_n idx >>= λ _. pure tt

unfoldable pub tuck : Op (Unit {0})
unfolding pop_byte_array push_byte_array
tuck = do
  so2 ← pop_byte_array
  so1 ← pop_byte_array
  push_byte_array so2
  push_byte_array so1
  push_byte_array so2

-- `for ; n > 0; n--`, over the rounds left.
unfoldable pub drop_loop : ℕ → Op (Unit {0})
drop_loop zero = pure tt
drop_loop (suc k) = let rest = drop_loop k in pop_byte_array >>= λ _. rest

unfoldable pub drop_n : ℤ → Op (Unit {0})
drop_n n = if ltb_ℤ n (pos 1) then raise invalid_stack_operation else drop_loop (pos_part n)

-- DupN, OverN: copy the item at one position again and again.
unfoldable pub copy_loop : ℕ → ℤ → Op (Unit {0})
copy_loop zero entry = pure tt
copy_loop (suc k) entry =
    let rest = copy_loop k entry in peek_byte_array entry >>= λ so. push_byte_array so >>= λ _. rest

unfoldable pub dup_n : ℤ → Op (Unit {0})
dup_n n =
    if ltb_ℤ n (pos 1)
    then raise invalid_stack_operation
    else copy_loop (pos_part n) (int32 (n -ℤ pos 1))

-- RotN, SwapN: move the item at one position to the top again and again.
unfoldable pub move_loop : ℕ → ℤ → Op (Unit {0})
move_loop zero entry = pure tt
move_loop (suc k) entry =
    let rest = move_loop k entry in nip_n entry >>= λ so. push_byte_array so >>= λ _. rest

unfoldable pub rot_n : ℤ → Op (Unit {0})
rot_n n =
    if ltb_ℤ n (pos 1)
    then raise invalid_stack_operation
    else move_loop (pos_part n) (int32 (int32 (pos 3 *ℤ n) -ℤ pos 1))

unfoldable pub swap_n : ℤ → Op (Unit {0})
swap_n n =
    if ltb_ℤ n (pos 1)
    then raise invalid_stack_operation
    else move_loop (pos_part n) (int32 (int32 (pos 2 *ℤ n) -ℤ pos 1))

unfoldable pub over_n : ℤ → Op (Unit {0})
over_n n =
    if ltb_ℤ n (pos 1)
    then raise invalid_stack_operation
    else copy_loop (pos_part n) (int32 (int32 (pos 2 *ℤ n) -ℤ pos 1))

unfoldable pub pick_n : ℤ → Op (Unit {0})
unfolding peek_byte_array push_byte_array
pick_n n = peek_byte_array n >>= push_byte_array

unfoldable pub roll_n : ℤ → Op (Unit {0})
unfolding nip_n push_byte_array
roll_n n = nip_n n >>= push_byte_array
