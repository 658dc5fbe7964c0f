-- ===== src/BigInt/Arith.antt =====
-- `int_add`, `int_sub`, `int_neg` and `int_invert` of objects/intobject.c.
pub mod Laws
use cobj.Prelude.{ℕ, ◌+◌, Bool, true, false, not, ◌&&◌, if◌then◌else◌, leb, ◌==◌, List, [], ◌∷◌}
use cobj.Prelude.{take, length, get_or}
use cobj.Prelude.Int.{ℤ, pos, ◌+ℤ◌, ◌-ℤ◌, neg_ℤ, ltb_ℤ, leb_ℤ}
use cobj.Prelude.Result.{Result, ok, raise, undefined_error}
use cobj.BigInt.{IntObject, size, signed}
use cobj.BigInt.Normalize.{negate}
use cobj.BigInt.Magnitude.{x_add, x_sub}
use cobj.BigInt.Long.{from_long, onedigit}

-- What an operand can be for these functions: an int object, or an object of another type.
pub data Operand : Type 0 where
  int : IntObject → Operand
  other : Operand

-- CHECK_BINOP
unfoldable pub check_binop {ℓ} :
    {A : Type ℓ} → Operand → Operand → (IntObject → IntObject → Result A) → Result A
check_binop (int a) (int b) f = f a b
check_binop (int a) other f = raise undefined_error
check_binop other b f = raise undefined_error

-- `ABS(CO_SIZE(a)) <= 1 && ABS(CO_SIZE(b)) <= 1`
abbrev pub small_operands : IntObject → IntObject → Bool
small_operands a b = leb (size a) 1 && leb (size b) 1

-- `if (CO_SIZE(o) != 0) NEGATE(o);`
negate_nonzero : IntObject → IntObject
negate_nonzero o = if size o == 0 then o else negate o

-- `int_add` behind the check of the operands.
pub add_ints : IntObject → IntObject → IntObject
add_ints a b =
    if small_operands a b
    then from_long (onedigit a +ℤ onedigit b)
    else if a.neg
    then (if b.neg then negate_nonzero (x_add a b) else x_sub b a)
    else if b.neg
    then x_sub a b
    else x_add a b

pub int_add : Operand → Operand → Result IntObject
int_add a b = check_binop a b (λ x y. ok (add_ints x y))

-- `int_sub` behind the check of the operands.
pub sub_ints : IntObject → IntObject → IntObject
sub_ints a b =
    if small_operands a b
    then from_long (onedigit a -ℤ onedigit b)
    else if a.neg
    then negate_nonzero (if b.neg then x_sub a b else x_add a b)
    else if b.neg
    then x_add a b
    else x_sub a b

pub int_sub : Operand → Operand → Result IntObject
int_sub a b = check_binop a b (λ x y. ok (sub_ints x y))

-- `maybe_small_int`: a value of the table is taken from the table.
pub maybe_small_int : IntObject → IntObject
maybe_small_int o =
    let v = onedigit o in
    if leb (size o) 1 && (leb_ℤ (neg_ℤ (pos 10)) v && ltb_ℤ v (pos 257)) then from_long v else o

-- `_COInt_Copy`. The test for a small integer takes the digit without its sign.
pub int_copy : IntObject → IntObject
int_copy src =
    let v = get_or src.digits 0 0 in
    if not (leb 2 (size src)) && ltb_ℤ (pos v) (pos 257) then from_long (pos v) else src

pub int_neg : IntObject → IntObject
int_neg o = if leb (size o) 1 then from_long (neg_ℤ (onedigit o)) else negate (int_copy o)

-- -(x + 1)
pub int_invert : IntObject → IntObject
int_invert o =
    if leb (size o) 1
    then from_long (neg_ℤ (onedigit o +ℤ pos 1))
    else maybe_small_int (negate (add_ints o (from_long (pos 1))))
