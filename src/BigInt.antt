-- ===== src/BigInt.antt =====
-- objects/intobject.h and objects/intobject.c: integers of arbitrary precision. A COIntObject is
-- its sign and its digits in base 2 ^ 30, the lowest first: co_size is the number of digits, taken
-- negative where `neg` holds.
pub mod Normalize
pub mod Compare
pub mod Magnitude
pub mod Multiply
pub mod Long
pub mod Arith
pub mod Divide
pub mod Unique
pub mod Shift
mod Tests
use cobj.Prelude.{ℕ, ◌+◌, ◌*◌, ◌^◌, ◌<◌, ◌≡◌}
use cobj.Prelude.{Bool, true, false, List, [], ◌∷◌, length, All, if◌then◌else◌, ◌≢◌}
use cobj.Prelude.Int.{ℤ, pos, sub_ℕ}

-- COInt_BASE, which is 1 << COInt_SHIFT
abbrev pub base : ℕ
base = 2 ^ 30

-- The digits `co_digit[0 .. |co_size|)`. Storage behind them, which `int_normalize` leaves in
-- place, is never read and is not kept here.
pub record IntObject : Type 0 where
  pub neg : Bool
  pub digits : List ℕ

-- ABS(CO_SIZE(o))
abbrev pub size : IntObject → ℕ
size o = length o.digits

-- An object with the sign and the digits given. A co_size of 0 has no sign.
abbrev pub signed : Bool → List ℕ → IntObject
signed s [] = record { neg = false; digits = [] }
signed s (d ∷ ds) = record { neg = s; digits = d ∷ ds }

-- The sum of `co_digit[i] * 2 ** (SHIFT * i)`.
abbrev pub value : List ℕ → ℕ
value [] = 0
value (d ∷ ds) = d + base * value ds

abbrev pub IsDigit : ℕ → Type 0
IsDigit d = d < base

abbrev pub IsDigits : List ℕ → Type 0
IsDigits ds = All IsDigit ds

-- CO_SIZE(o), a signed number.
abbrev pub co_size : IntObject → ℤ
co_size o = if o.neg then sub_ℕ 0 (size o) else pos (size o)

-- The integer that a sign and a magnitude stand for.
abbrev pub signed_ℤ : Bool → ℕ → ℤ
signed_ℤ s n = if s then sub_ℕ 0 n else pos n

-- The integer that an object stands for.
abbrev pub to_ℤ : IntObject → ℤ
to_ℤ o = signed_ℤ o.neg (value o.digits)

-- The most significant digit is not zero.
abbrev pub HasTop : List ℕ → Type 0
HasTop [] = Unit {0}
HasTop (d ∷ []) = d ≢ 0
HasTop (d ∷ e ∷ ds) = HasTop (e ∷ ds)

-- A normalised object: digits in range, no leading zero, and zero has no sign (co_size = 0).
pub record IsNormal (o : IntObject) : Type 0 where
  pub in_range : IsDigits o.digits
  pub top : HasTop o.digits
  pub zero_sign : size o ≡ 0 → o.neg ≡ false
