-- ===== src/BigInt/Magnitude.antt =====
-- `x_add` and `x_sub` of objects/intobject.c: sum and difference of two magnitudes. A digit_t is
-- a uint32_t, so its sums and differences wrap at 2 ^ 32.
pub mod Add
pub mod Subtract
use cobj.Prelude.{ℕ, zero, suc, ◌+◌, ◌-◌, ◌*◌, ◌/◌, ◌%◌, ◌^◌, List, [], ◌∷◌, length, take, get_or}
use cobj.Prelude.{Bool, true, false, if◌then◌else◌, ltb, ◌==◌}
use cobj.BigInt.{IntObject, size, signed, base}
use cobj.BigInt.Normalize.{int_normalize, negate}
use cobj.BigInt.Compare.{highest_diff}

-- `for (; i < size_a; ++i)`: the carry goes through the rest of `a`, and ends as the last digit.
carry_loop : List ℕ → ℕ → List ℕ
carry_loop [] carry = carry ∷ []
carry_loop (x ∷ a) carry = let c = (carry + x) % 2 ^ 32 in c % base ∷ carry_loop a (c / base)

-- `for (i = 0; i < size_b; ++i)`. The caller has `size_a ≥ size_b`, so `a` never ends first.
add_loop : List ℕ → List ℕ → ℕ → List ℕ
add_loop a [] carry = carry_loop a carry
add_loop [] (y ∷ b) carry = carry ∷ []
add_loop (x ∷ a) (y ∷ b) carry =
    let c = (carry + (x + y) % 2 ^ 32) % 2 ^ 32 in c % base ∷ add_loop a b (c / base)

pub x_add : IntObject → IntObject → IntObject
x_add a b = int_normalize (
    signed false (
      if ltb (size a) (size b) then add_loop b.digits a.digits 0 else add_loop a.digits b.digits 0))

-- `borrow >>= COInt_SHIFT; borrow &= 1;`
abbrev next_borrow : ℕ → ℕ
next_borrow w = w / base % 2

-- `for (; i < size_a; i++)`
borrow_loop : List ℕ → ℕ → List ℕ
borrow_loop [] borrow = []
borrow_loop (x ∷ a) borrow =
    let w = (x + 2 ^ 32 - borrow) % 2 ^ 32 in w % base ∷ borrow_loop a (next_borrow w)

-- `for (i = 0; i < size_b; i++)`
sub_loop : List ℕ → List ℕ → ℕ → List ℕ
sub_loop a [] borrow = borrow_loop a borrow
sub_loop [] (y ∷ b) borrow = []
sub_loop (x ∷ a) (y ∷ b) borrow =
    let w = ((x + 2 ^ 32 - y) % 2 ^ 32 + 2 ^ 32 - borrow) % 2 ^ 32 in
    w % base ∷ sub_loop a b (next_borrow w)

-- The part of `x_sub` behind the exchange: `a` is not less than `b`.
sub_ordered : Bool → List ℕ → List ℕ → IntObject
sub_ordered exchanged a b =
    let o = signed false (sub_loop a b 0) in int_normalize (if exchanged then negate o else o)

-- Sizes are equal: cut both off above the highest digit that differs, and exchange if need be.
sub_same_size : ℕ → List ℕ → List ℕ → IntObject
sub_same_size zero a b = signed false []
sub_same_size (suc i) a b =
    if ltb (get_or a i 0) (get_or b i 0)
    then sub_ordered true (take (suc i) b) (take (suc i) a)
    else sub_ordered false (take (suc i) a) (take (suc i) b)

-- The assertion at the end, that no borrow is left, is not a step of the model.
pub x_sub : IntObject → IntObject → IntObject
x_sub a b =
    if ltb (size a) (size b)
    then sub_ordered true b.digits a.digits
    else if size a == size b
    then sub_same_size (highest_diff (size a) a.digits b.digits) a.digits b.digits
    else sub_ordered false a.digits b.digits
