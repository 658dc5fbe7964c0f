-- ===== src/BigInt/Shift.antt =====
-- `int_lshift`, `int_rshift` and `int_hash` of objects/intobject.c.
pub mod Left
pub mod Right
pub mod Floor
use cobj.Prelude.{
  ℕ, zero, suc, ◌+◌, ◌-◌, ◌*◌, ◌/◌, ◌%◌, ◌^◌, List, [], ◌∷◌, ◌++◌, length, drop, replicate, get_or,
}
use cobj.Prelude.{Bool, true, false, if◌then◌else◌, leb, ◌==◌, not}
use cobj.Prelude.Int.{ℤ, pos, negsuc}
use cobj.Prelude.Result.{Result, ok, raise, undefined, value_error, ◌>>=◌}
use cobj.BigInt.{IntObject, size, signed, base}
use cobj.BigInt.Normalize.{int_normalize}
use cobj.BigInt.Long.{as_long, from_long}
use cobj.BigInt.Arith.{maybe_small_int, int_invert}
use cobj.BigInt.Divide.{lshift_loop}

-- `shiftby`, with its test. COInt_AsSsize_t has the branches of COInt_AsLong.
abbrev pub shift_count : IntObject → Result ℕ
shift_count b = as_long b >>= not_negative
  where
    not_negative : ℤ → Result ℕ
    not_negative (pos n) = ok n
    not_negative (negsuc n) = raise value_error

-- The digits behind the zeros: those of the loop, which is that of v_lshift, and the last `accum`.
abbrev pub shifted_digits : ℕ → List ℕ × ℕ → Result (List ℕ)
shifted_digits remshift (ds, accum) =
    if not (remshift == 0) then ok (ds ++ accum ∷ []) else if accum == 0 then ok ds else undefined

-- int_lshift
unfoldable pub int_lshift : IntObject → IntObject → Result IntObject
int_lshift a b = do
  shiftby ← shift_count b
  let wordshift = shiftby / 30
  let remshift = shiftby - wordshift * 30
  ds ← shifted_digits remshift (lshift_loop (2 ^ remshift) a.digits 0)
  ok (maybe_small_int (int_normalize (signed a.neg (replicate wordshift 0 ++ ds))))

-- The digits of `int_rshift`: the high bits of a digit below the low ones of the next.
unfoldable pub rshift_digits : ℕ → List ℕ → List ℕ
rshift_digits loshift [] = []
rshift_digits loshift (x ∷ []) = (x / 2 ^ loshift % 2 ^ (30 - loshift)) ∷ []
rshift_digits loshift (x ∷ y ∷ ds) =
    (x / 2 ^ loshift % 2 ^ (30 - loshift) + y * 2 ^ (30 - loshift) % 2 ^ 32 % base)
    ∷ rshift_digits loshift (y ∷ ds)

-- The branch of `int_rshift` for a number that is not negative.
unfoldable pub rshift_magnitude : IntObject → IntObject → Result IntObject
rshift_magnitude a b = do
  shiftby ← shift_count b
  let wordshift = shiftby / 30
  ok (
      if leb (size a) wordshift
      then from_long (pos 0)
      else maybe_small_int
          (int_normalize (signed false (rshift_digits (shiftby % 30) (drop wordshift a.digits)))))

-- int_rshift
unfoldable pub int_rshift : IntObject → IntObject → Result IntObject
int_rshift a b =
    if a.neg
    then (rshift_magnitude (int_invert a) b >>= λ x. ok (maybe_small_int (int_invert x)))
    else rshift_magnitude a b

-- int_hash, an unsigned long; a number of more than one digit has the hash 0.
unfoldable pub int_hash : IntObject → ℕ
int_hash o = by_size o.neg o.digits
  where
    by_size : Bool → List ℕ → ℕ
    by_size true (d ∷ []) = if d == 1 then 2 ^ 64 - 2 else (2 ^ 64 - d) % 2 ^ 64
    by_size false (d ∷ []) = d
    by_size s ds = 0
