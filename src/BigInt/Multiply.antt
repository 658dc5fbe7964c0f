-- ===== src/BigInt/Multiply.antt =====
-- `x_mul` and `int_mul` of objects/intobject.c: the product of magnitudes digit by digit, with the
-- shortened rows of the square where both operands are one object. A twodigits is a uint64_t.
pub mod Rows
pub mod Square
pub mod Laws
use cobj.Prelude.{ℕ, zero, suc, ◌+◌, ◌*◌, ◌/◌, ◌%◌, ◌^◌, List, [], ◌∷◌, replicate}
use cobj.Prelude.{Bool, true, false, if◌then◌else◌, ◌==◌}
use cobj.Prelude.Result.{Result, ok}
use cobj.BigInt.{IntObject, size, signed, base}
use cobj.BigInt.Normalize.{int_normalize, negate}
use cobj.BigInt.Arith.{Operand, check_binop}

-- `*po += (digit)(carry & COInt_MASK);`. The list is the result from `po` on.
add_at : ℕ → List ℕ → List ℕ
add_at carry [] = []
add_at carry (x ∷ o) = (x + carry % base) % 2 ^ 32 ∷ o

-- `if (carry) *po += ...`
last_carry : ℕ → List ℕ → List ℕ
last_carry carry o = if carry == 0 then o else add_at carry o

-- `while (pb < pbend)` and the carry behind it: adds `f * b` to the result from `po` on. The
-- result has room for the row, so `o` never ends first.
pub mul_row : ℕ → List ℕ → ℕ → List ℕ → List ℕ
mul_row f [] carry o = last_carry carry o
mul_row f (y ∷ b) carry [] = []
mul_row f (y ∷ b) carry (x ∷ o) =
    let c = (carry + (x + y * f)) % 2 ^ 64 in c % base ∷ mul_row f b (c / base) o

-- The next row starts one digit further up, and leaves the digit below as it is.
abbrev pub next_row : (List ℕ → List ℕ) → List ℕ → List ℕ
next_row rows [] = []
next_row rows (x ∷ o) = x ∷ rows o

pub mul_rows : List ℕ → List ℕ → List ℕ → List ℕ
mul_rows [] b o = o
mul_rows (f ∷ a) b o = next_row (mul_rows a b) (mul_row f b 0 o)

-- The two tests of the carry behind a row of the square.
square_carry : ℕ → List ℕ → List ℕ
square_carry carry [] = []
square_carry carry (x ∷ o) =
    let c = (carry + x) % 2 ^ 64 in if carry == 0 then x ∷ o else c % base ∷ last_carry (c / base) o

-- `while (pa < paend)` with `f` doubled.
pub square_row : ℕ → List ℕ → ℕ → List ℕ → List ℕ
square_row f [] carry o = square_carry carry o
square_row f (y ∷ a) carry [] = []
square_row f (y ∷ a) carry (x ∷ o) =
    let c = (carry + (x + y * f)) % 2 ^ 64 in c % base ∷ square_row f a (c / base) o

-- The rows of the square: each starts two digits further up, at the square of its own digit. The
-- assertion on the carry behind a row is not a step of the model.
pub square_rows : List ℕ → List ℕ → List ℕ
square_rows [] o = o
square_rows (f ∷ a) [] = []
square_rows (f ∷ a) (x ∷ o) =
    let c = (x + f * f) % 2 ^ 64 in
    c % base ∷ next_row (square_rows a) (square_row (f * 2) a (c / base) o)

-- `same` is `a == b`, the test on the pointers.
pub x_mul : Bool → IntObject → IntObject → IntObject
x_mul same a b =
    let zeros = replicate (size a + size b) 0 in
    int_normalize
      (signed false (if same then square_rows a.digits zeros else mul_rows a.digits b.digits zeros))

-- `(CO_SIZE(a) ^ CO_SIZE(b)) < 0`: exactly one of the sizes is negative.
abbrev pub signs_differ : IntObject → IntObject → Bool
signs_differ a b = if a.neg then (if b.neg then false else true) else b.neg

pub mul_ints : Bool → IntObject → IntObject → IntObject
mul_ints same a b = let o = x_mul same a b in if signs_differ a b then negate o else o

pub int_mul : Bool → Operand → Operand → Result IntObject
int_mul same a b = check_binop a b (λ x y. ok (mul_ints same x y))
