-- ===== src/BigInt/Long.antt =====
-- `COInt_FromLong`, `COInt_AsLong` and `COInt_AsSsize_t` of objects/intobject.c, with the small
-- integers of `COInt_Init`. A C long is a 64-bit integer.
pub mod RoundTrip
use cobj.Prelude.{ℕ, zero, suc, ◌+◌, ◌-◌, ◌*◌, ◌/◌, ◌%◌, ◌^◌, ◌<◌, ◌≤◌, List, [], ◌∷◌}
use cobj.Prelude.{Bool, true, false, ◌&&◌, if◌then◌else◌, ltb, leb, ◌==◌, length}
use cobj.Prelude.Int.{ℤ, pos, negsuc, pos_part, neg_part, sub_ℕ, ltb_ℤ, leb_ℤ}
use cobj.Prelude.Result.{Result, ok, raise, overflow_error, ◌>>=◌}
use cobj.BigInt.{IntObject, size, signed, base}

-- The values of a C long.
abbrev pub IsLong : ℤ → Type 0
IsLong v = (pos_part v < 2 ^ 63) × (neg_part v ≤ 2 ^ 63)

-- SMALL_NEG_INT and SMALL_POS_INT
abbrev small_neg_int : ℤ
small_neg_int = negsuc 9

abbrev small_pos_int : ℤ
small_pos_int = pos 257

-- The object that `COInt_Init` puts into the table for a value.
unfoldable pub small_int : ℤ → IntObject
small_int (pos zero) = signed false []
small_int (pos (suc n)) = signed false (suc n ∷ [])
small_int (negsuc n) = signed true (suc n ∷ [])

-- `(unsigned long)ival`
abbrev unsigned_long : ℤ → ℕ
unsigned_long v = (2 ^ 64 + pos_part v - neg_part v) % 2 ^ 64

-- `while (t) { *p++ = t & COInt_MASK; t >>= COInt_SHIFT; }`. Three digits hold 90 bits.
pub split_digits : ℕ → ℕ → List ℕ
split_digits zero t = []
split_digits (suc fuel) t =
    let rest = split_digits fuel (t / base) in if t == 0 then [] else t % base ∷ rest

-- The new object of `COInt_FromLong`: one digit, or the digits of the loop.
unfoldable pub new_long : Bool → ℕ → IntObject
new_long negative abs_ival =
    if abs_ival / base == 0
    then signed negative (abs_ival ∷ [])
    else signed negative (split_digits 3 abs_ival)

-- `0U - (unsigned long)ival` under a minus.
unfoldable pub abs_long : ℤ → ℕ
abs_long v = if ltb_ℤ v (pos 0) then (2 ^ 64 - unsigned_long v) % 2 ^ 64 else unsigned_long v

unfoldable pub from_long : ℤ → IntObject
from_long v =
    if leb_ℤ small_neg_int v && ltb_ℤ v small_pos_int
    then small_int v
    else new_long (ltb_ℤ v (pos 0)) (abs_long v)

-- `while (--i >= 0) { prev = accum; accum = (accum << SHIFT) | co_digit[i]; ... }`, from the most
-- significant digit on. The bits that the shift makes free take the digit by a sum.
unfoldable pub accumulate : List ℕ → Result ℕ
accumulate [] = ok 0
accumulate (d ∷ ds) = do
  prev ← accumulate ds
  let accum = prev * base % 2 ^ 64 + d
  if accum / base == prev then ok accum else raise overflow_error

-- The casts at the end: up to LONG_MAX, or the magnitude of LONG_MIN under a minus.
unfoldable pub to_long : Bool → ℕ → Result ℤ
to_long negative accum =
    if leb accum (2 ^ 63 - 1)
    then ok (if negative then sub_ℕ 0 accum else pos accum)
    else if negative && accum == 2 ^ 63
    then ok (negsuc (2 ^ 63 - 1))
    else raise overflow_error

unfoldable pub onedigit_of : Bool → List ℕ → ℤ
onedigit_of s [] = pos 0
onedigit_of s (d ∷ ds) = if s then sub_ℕ 0 d else pos d

-- ONEDIGIT_VALUE
unfoldable pub onedigit : IntObject → ℤ
onedigit o = onedigit_of o.neg o.digits

-- `COInt_AsSsize_t` has the same branches, and the same result on a 64-bit machine.
unfoldable pub as_long : IntObject → Result ℤ
as_long o =
    if leb (size o) 1 then ok (onedigit o) else do accum ← accumulate o.digits; to_long o.neg accum
