-- ===== src/BigInt/Magnitude/Add.antt =====
-- `x_add` of objects/intobject.c.
use cobj.Prelude.{ℕ, ◌+◌, ◌/◌, ◌%◌, ◌^◌, ◌≤◌, ◌≡◌, arith}
use cobj.Prelude.{List, [], ◌∷◌, length, false, ltb, Bool-cases, inl, inr}
use cobj.Prelude.Int.{pos}
use cobj.BigInt.{IntObject, size, value, base, IsDigits, IsNormal, to_ℤ}
use cobj.BigInt.Normalize.{normalized_result}
use cobj.BigInt.Magnitude.{carry_loop, add_loop, x_add}

carry_loop_lem :
    (a : List ℕ) (c : ℕ)
    → IsDigits a
    → c ≤ 1
    → (value (carry_loop a c) ≡ value a + c) × IsDigits (carry_loop a c)
unfolding carry_loop
carry_loop_lem [] c r h = omega arith
carry_loop_lem (x ∷ a) c (rx, r) h =
    let (v, d) = carry_loop_lem a ((c + x) % 2 ^ 32 / base) r (omega arith) in
    (omega (arith, v), (omega arith, d))

add_loop_lem :
    (a b : List ℕ) (c : ℕ)
    → IsDigits a
    → IsDigits b
    → length b ≤ length a
    → c ≤ 1
    → (value (add_loop a b c) ≡ value a + value b + c) × IsDigits (add_loop a b c)
unfolding add_loop
add_loop_lem a [] c ra rb l h = let (v, d) = carry_loop_lem a c ra h in (omega (arith, v), d)
add_loop_lem [] (y ∷ b) c ra rb l h = absurd (omega arith)
add_loop_lem (x ∷ a) (y ∷ b) c (rx, ra) (ry, rb) l h =
    let (v, d) =
      add_loop_lem a b ((c + (x + y) % 2 ^ 32) % 2 ^ 32 / base) ra rb (omega arith) (omega arith) in
    (omega (arith, v), (omega arith, d))

-- Where the digits of `a` and `b` are below 2 ^ 30, `x_add` gives the sum of their magnitudes as a
-- normal object that is not negative: no sum of digits and carry is cut off at 2 ^ 32.
pub x_add_lem :
    (a b : IntObject)
    → IsDigits a.digits
    → IsDigits b.digits
    → (to_ℤ (x_add a b) ≡ pos (value a.digits + value b.digits)) × IsNormal (x_add a b)
unfolding x_add
x_add_lem a b ra rb = elim (Bool-cases (ltb (size a) (size b))) [
  | inl e ↦ rw e (
      normalized_result false _ _ (
        let (v, d) = add_loop_lem b.digits a.digits 0 rb ra (ground arith) (omega arith) in
        (omega (arith, v), d)))
  | inr e ↦ rw e (
      normalized_result false _ _ (
        let (v, d) = add_loop_lem a.digits b.digits 0 ra rb (ground arith) (omega arith) in
        (omega (arith, v), d)))
]
