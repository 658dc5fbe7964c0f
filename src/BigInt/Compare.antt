-- ===== src/BigInt/Compare.antt =====
-- `int_cmp` and `int_compare` of objects/intobject.c, and the scan for the highest differing digit
-- that `int_cmp` and `x_sub` share.
pub mod Order
use cobj.Prelude.{ℕ, zero, suc, ◌+◌, ◌-◌, ◌*◌, ◌<◌, ◌≤◌, ◌≡◌, refl, arith, ◌≢◌, inl, inr}
use cobj.Prelude.{Bool, true, false, not, List, [], ◌∷◌, length, take, get_or, Option, none, some}
use cobj.Prelude.{if◌then◌else◌, ◌==◌, Bool-cases}
use cobj.Prelude.Int.{ℤ, pos, negsuc, sub_ℕ, ◌-ℤ◌, eqb_ℤ, ltb_ℤ, leb_ℤ}
use cobj.BigInt.{IntObject, size, co_size, value, base, IsDigit, IsDigits}

-- `while (--i >= 0 && a->co_digit[i] == b->co_digit[i]);` The result is one more than the index
-- where the scan stops, and 0 where it falls off the end.
unfoldable pub highest_diff : ℕ → List ℕ → List ℕ → ℕ
highest_diff zero a b = 0
highest_diff (suc i) a b =
    let rest = highest_diff i a b in if get_or a i 0 == get_or b i 0 then rest else suc i

highest_diff-cons :
    (i x y : ℕ) (a b : List ℕ)
    → highest_diff (suc i) (x ∷ a) (y ∷ b)
      ≡ (if highest_diff i a b == 0 then (if x == y then 0 else 1) else suc (highest_diff i a b))
unfolding highest_diff
highest_diff-cons zero x y a b = ground arith
highest_diff-cons (suc i) x y a b = ground (arith, highest_diff-cons i x y a b)

pub highest_diff-le : (i : ℕ) (a b : List ℕ) → highest_diff i a b ≤ i
unfolding highest_diff
highest_diff-le zero a b = omega arith
highest_diff-le (suc i) a b = ground (arith, highest_diff-le i a b)

-- The digit just below a position, and 0 at the bottom.
abbrev pub digit_below : ℕ → List ℕ → ℕ
digit_below zero ds = 0
digit_below (suc i) ds = get_or ds i 0

-- What the scan over two numbers of one size tells, with `d` its result.
pub record Scanned (a b : List ℕ) (d : ℕ) : Type 0 where
  -- no digit differs: the numbers are equal
  pub equal : d ≡ 0 → value a ≡ value b
  -- the digits above the stop are the same and cancel
  pub cancel : value a + value (take d b) ≡ value b + value (take d a)
  -- the digit at the stop differs, and decides
  pub differs : d ≢ 0 → digit_below d a ≢ digit_below d b
  pub below : digit_below d a < digit_below d b → value a < value b
  pub above : digit_below d b < digit_below d a → value b < value a

module _ (x y : ℕ) (a b : List ℕ) (rx : IsDigit x) (ry : IsDigit y) where
  Scanned-cons :
      (d : ℕ)
      → Scanned a b d
      → Scanned (x ∷ a) (y ∷ b) (if d == 0 then (if x == y then 0 else 1) else suc d)
  Scanned-cons zero s = elim (Bool-cases (x == y)) [
    | inl e ↦ rw e (ground (arith, s.equal refl))
    | inr e ↦ rw e (ground (arith, s.equal refl))
  ]
  Scanned-cons (suc d) s =
      let n : (suc d == 0) ≡ false = ground arith in
      rw n record {
        equal = λ e. absurd (omega arith);
        cancel = omega (arith, s.cancel);
        differs = λ z. s.differs (omega arith);
        below = λ h. let k = s.below h in omega arith;
        above = λ h. let k = s.above h in omega arith;
      }

pub highest_diff-Scanned :
    (a b : List ℕ)
    → length a ≡ length b
    → IsDigits a
    → IsDigits b
    → Scanned a b (highest_diff (length a) a b)
highest_diff-Scanned [] [] e ra rb = unfold highest_diff in ground arith
highest_diff-Scanned [] (y ∷ b) e ra rb = absurd (omega arith)
highest_diff-Scanned (x ∷ a) [] e ra rb = absurd (omega arith)
highest_diff-Scanned (x ∷ a) (y ∷ b) e (rx, ra) (ry, rb) =
    rw highest_diff-cons
      (Scanned-cons x y a b rx ry _ (highest_diff-Scanned a b (omega arith) ra rb))

-- `sign < 0 ? -1 : sign > 0 ? 1 : 0`
abbrev pub three_way : ℤ → ℤ
three_way (pos zero) = pos 0
three_way (pos (suc n)) = pos 1
three_way (negsuc n) = negsuc 0

-- `(sdigit)a->co_digit[i] - (sdigit)b->co_digit[i]` where the scan stopped, with the sign of `a`.
unfoldable pub digit_sign : Bool → ℕ → List ℕ → List ℕ → ℤ
digit_sign neg zero a b = pos 0
digit_sign neg (suc i) a b =
    if neg then sub_ℕ (get_or b i 0) (get_or a i 0) else sub_ℕ (get_or a i 0) (get_or b i 0)

-- -1, 0 or 1.
unfoldable pub int_cmp : IntObject → IntObject → ℤ
int_cmp a b = three_way (
    if eqb_ℤ (co_size a) (co_size b)
    then digit_sign a.neg (highest_diff (size a) a.digits b.digits) a.digits b.digits
    else co_size a -ℤ co_size b)

-- OP_CMP's operands.
pub data CmpOp : Type 0 where
  lt le eq ne gt ge exc_match : CmpOp

-- TEST_COND on the result of `int_cmp`; `none` is the internal error of an operand that is no
-- comparison.
unfoldable pub cond_of : CmpOp → ℤ → Option Bool
cond_of eq r = some (eqb_ℤ r (pos 0))
cond_of ne r = some (not (eqb_ℤ r (pos 0)))
cond_of le r = some (leb_ℤ r (pos 0))
cond_of ge r = some (leb_ℤ (pos 0) r)
cond_of lt r = some (ltb_ℤ r (pos 0))
cond_of gt r = some (ltb_ℤ (pos 0) r)
cond_of exc_match r = none

-- `same` is `this == that`, the test on the pointers.
unfoldable pub int_compare : Bool → IntObject → IntObject → CmpOp → Option Bool
int_compare same a b op = cond_of op (if same then pos 0 else int_cmp a b)
