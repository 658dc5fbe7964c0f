-- ===== src/BigInt/Tests.antt =====
-- Runs of objects/intobject.c on integers of two digits.
use cobj.BigInt.Shift.Left.{LeftShift, int_lshift_lem}
use cobj.BigInt.Shift.Floor.{RightShift, int_rshift_lem}
use cobj.Prelude.{◌≡◌, arith, refl, [], ◌∷◌, true, false}
use cobj.Prelude.{◌⊎◌}
use cobj.Prelude.Int.{pos, negsuc, ◌+ℤ◌, ◌-ℤ◌, ◌*ℤ◌}
use cobj.Prelude.Result.{ok, raise, overflow_error, value_error}
use cobj.BigInt.{IntObject, IsDigits, IsNormal, to_ℤ}
use cobj.BigInt.Compare.{lt, int_compare}
use cobj.BigInt.Compare.Order.{holds, int_compare-holds}
use cobj.BigInt.Long.{IsLong, from_long, as_long}
use cobj.BigInt.Long.RoundTrip.{from_long_lem, as_long_lem, as_long-from_long}
use cobj.BigInt.Arith.{add_ints, sub_ints}
use cobj.BigInt.Arith.Laws.{Gives, add_ints_lem, sub_ints_lem}
use cobj.BigInt.Divide.{x_divrem, int_divrem}
use cobj.BigInt.Divide.Signed.{IsQuotient, IsDivided, x_divrem-IsQuotient, int_divrem_lem}
use cobj.BigInt.Multiply.{mul_ints}
use cobj.BigInt.Multiply.Laws.{mul_ints_lem}

-- 5 + 7 * 2 ^ 30
abbrev big : IntObject
big = record { neg = false; digits = 5 ∷ 7 ∷ [] }

-- -(1073741823 + 3 * 2 ^ 30)
abbrev minus_big : IntObject
minus_big = record { neg = true; digits = 1073741823 ∷ 3 ∷ [] }

big_digits : IsDigits big.digits
big_digits = (omega arith, (omega arith, tt))

minus_big_digits : IsDigits minus_big.digits
minus_big_digits = (omega arith, (omega arith, tt))

big-IsNormal : IsNormal big
big-IsNormal = record { in_range = big_digits; top = λ e. omega arith; zero_sign = λ e. refl }

minus_big-IsNormal : IsNormal minus_big
minus_big-IsNormal = record {
  in_range = minus_big_digits;
  top = λ e. omega arith;
  zero_sign = λ e. absurd (omega arith);
}

mul_ints_lem_example : Gives (to_ℤ big *ℤ to_ℤ minus_big) (mul_ints false big minus_big)
mul_ints_lem_example =
    mul_ints_lem false big minus_big big-IsNormal minus_big-IsNormal (λ e. absurd (ground arith))

add_ints_lem_example : Gives (to_ℤ big +ℤ to_ℤ minus_big) (add_ints big minus_big)
add_ints_lem_example = add_ints_lem big minus_big big-IsNormal minus_big-IsNormal

sub_ints_lem_example : Gives (to_ℤ minus_big -ℤ to_ℤ big) (sub_ints minus_big big)
sub_ints_lem_example = sub_ints_lem minus_big big minus_big-IsNormal big-IsNormal

int_compare-holds_example :
    int_compare false minus_big big lt ≡ holds lt (to_ℤ minus_big) (to_ℤ big)
int_compare-holds_example =
    int_compare-holds false minus_big big lt minus_big-IsNormal big-IsNormal
      (λ e. absurd (ground arith))

from_long_lem_example :
    (to_ℤ (from_long (negsuc 5000000000)) ≡ negsuc 5000000000)
    × IsNormal (from_long (negsuc 5000000000))
from_long_lem_example = from_long_lem (negsuc 5000000000) (omega arith)

as_long-from_long_example : as_long (from_long (negsuc 5000000000)) ≡ ok (negsuc 5000000000)
as_long-from_long_example = as_long-from_long (negsuc 5000000000) (omega arith)

as_long_lem_example :
    (IsLong (to_ℤ big) × (as_long big ≡ ok (to_ℤ big)))
    ⊎ (¬ (IsLong (to_ℤ big)) × (as_long big ≡ raise overflow_error))
as_long_lem_example = as_long_lem big big_digits

int_divrem_lem_example :
    ((to_ℤ big ≡ pos 0) × (int_divrem minus_big big ≡ raise value_error))
    ⊎ ((o : IntObject × IntObject) × (int_divrem minus_big big ≡ ok o) × IsDivided minus_big big o)
int_divrem_lem_example = int_divrem_lem minus_big big minus_big-IsNormal big-IsNormal

x_divrem-IsQuotient_example :
    (o : IntObject × IntObject) × (x_divrem minus_big big ≡ ok o) × IsQuotient minus_big big o
x_divrem-IsQuotient_example =
    x_divrem-IsQuotient minus_big big minus_big-IsNormal big-IsNormal (omega arith) (omega arith)

abbrev forty : IntObject
forty = record { neg = false; digits = 40 ∷ [] }

forty-IsNormal : IsNormal forty
forty-IsNormal = record { in_range = omega arith; top = λ e. omega arith; zero_sign = λ e. refl }

int_lshift_lem_example : LeftShift minus_big forty
int_lshift_lem_example = int_lshift_lem minus_big forty minus_big-IsNormal forty-IsNormal

int_rshift_lem_example : RightShift minus_big forty
int_rshift_lem_example = int_rshift_lem minus_big forty minus_big-IsNormal forty-IsNormal
