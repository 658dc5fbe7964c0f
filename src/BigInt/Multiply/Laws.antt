-- ===== src/BigInt/Multiply/Laws.antt =====
-- `x_mul` and `int_mul` of objects/intobject.c, and the product of the integers.
use cobj.Prelude.{ℕ, ◌*◌, ◌≡◌, arith, refl, ◌∙◌, inl, inr}
use cobj.Prelude.{Bool, true, false, if◌then◌else◌, Bool-cases}
use cobj.Prelude.Int.{pos, pos_part, neg_part, sub_ℕ, ◌*ℤ◌, neg_ℤ}
use cobj.BigInt.{IntObject, value, IsNormal, to_ℤ, signed_ℤ}
use cobj.BigInt.Normalize.{normalized_result}
use cobj.BigInt.Arith.Laws.{Gives, negate_lem}
use cobj.BigInt.Multiply.{x_mul, signs_differ, mul_ints}
use cobj.BigInt.Multiply.Rows.{mul_rows_product}
use cobj.BigInt.Multiply.Square.{square_rows_square}

-- Where `a` and `b` are normal, and equal where `same` says that they are one object, `x_mul`
-- gives the product of their magnitudes as a normal object: no intermediate sum is cut off at 2 ^
-- 64.
pub x_mul_lem :
    (same : Bool) (a b : IntObject)
    → IsNormal a
    → IsNormal b
    → (same ≡ true → a ≡ b)
    → Gives (pos (value a.digits * value b.digits)) (x_mul same a b)
unfolding x_mul
x_mul_lem true a b na nb h =
    rw (← h refl) (normalized_result false _ _ (square_rows_square a.digits na.in_range))
x_mul_lem false a b na nb h =
    normalized_result false _ _ (mul_rows_product a.digits b.digits na.in_range nb.in_range)

pub pos_part-minus : (m : ℕ) → pos_part (sub_ℕ 0 m) ≡ 0
pos_part-minus m = ground arith

pub neg_part-minus : (m : ℕ) → neg_part (sub_ℕ 0 m) ≡ m
neg_part-minus m = ground arith

-- The rule of signs.
pub product_sign :
    (s t : Bool) (m n : ℕ)
    → (if (if s then (if t then false else true) else t) then neg_ℤ (pos (m * n)) else pos (m * n))
      ≡ signed_ℤ s m *ℤ signed_ℤ t n
unfolding ◌*ℤ◌ neg_ℤ
product_sign true true m n =
    rw (pos_part-minus m, neg_part-minus m, pos_part-minus n, neg_part-minus n) (ground arith)
product_sign true false m n = rw (pos_part-minus m, neg_part-minus m) (ground arith)
product_sign false true m n = rw (pos_part-minus n, neg_part-minus n) (ground arith)
product_sign false false m n = ground arith

-- Where `a` and `b` are normal, and equal where `same` says that they are one object, the product
-- that `int_mul` makes of them stands for the product of the two integers and is normal; this
-- holds along the rows of a general product and along the shortened rows of a square.
pub mul_ints_lem :
    (same : Bool) (a b : IntObject)
    → IsNormal a
    → IsNormal b
    → (same ≡ true → a ≡ b)
    → Gives (to_ℤ a *ℤ to_ℤ b) (mul_ints same a b)
unfolding mul_ints
mul_ints_lem same a b na nb h = elim (Bool-cases (signs_differ a b)) [
  | inl s ↦
      let (e, n) = negate_lem (x_mul same a b) _ (x_mul_lem same a b na nb h) in
      rw s (e ∙ rw s at (product_sign a.neg b.neg (value a.digits) (value b.digits)), n)
  | inr s ↦
      let (e, n) = x_mul_lem same a b na nb h in
      rw s (e ∙ rw s at (product_sign a.neg b.neg (value a.digits) (value b.digits)), n)
]
