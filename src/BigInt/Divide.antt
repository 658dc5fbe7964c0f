-- ===== src/BigInt/Divide.antt =====
-- The division of objects/intobject.c: bits_in_digit, v_lshift, v_rshift, inplace_divrem1, divrem1,
-- x_divrem, int_divrem, int_div and int_mod. An assertion that fails is `undefined`.
pub mod Digits
pub mod Estimate
pub mod Window
pub mod Step
pub mod Laws
pub mod Signed
use cobj.Prelude.{ℕ, zero, suc, ◌+◌, ◌-◌, ◌*◌, ◌/◌, ◌%◌, ◌^◌, List, [], ◌∷◌, ◌++◌, length}
use cobj.Prelude.{
  Bool, true, false, ◌&&◌, ◌||◌, not, if◌then◌else◌, ltb, leb, ◌==◌, get_or, take, drop,
}
use cobj.Prelude.Int.{ℤ, pos, negsuc, sub_ℕ}
use cobj.Prelude.Result.{Result, ok, raise, undefined, value_error, ◌>>=◌}
use cobj.BigInt.{IntObject, size, signed, base}
use cobj.BigInt.Normalize.{int_normalize, negate}
use cobj.BigInt.Long.{from_long}
use cobj.BigInt.Multiply.{signs_differ}
use cobj.BigInt.Arith.{Operand, check_binop, maybe_small_int}

-- `assert(c)` before the rest.
abbrev pub assert {ℓ} : {A : Type ℓ} → Bool → Result A → Result A
assert true rest = rest
assert false rest = undefined

-- BitLengthTable
abbrev pub bit_length_table : List ℕ
bit_length_table =
    0 ∷ 1 ∷ 2 ∷ 2 ∷ 3 ∷ 3 ∷ 3 ∷ 3 ∷ 4 ∷ 4 ∷ 4 ∷ 4 ∷ 4 ∷ 4 ∷ 4 ∷ 4 ∷ 5 ∷ 5 ∷ 5 ∷ 5 ∷ 5 ∷ 5 ∷ 5 ∷ 5
    ∷ 5 ∷ 5 ∷ 5 ∷ 5 ∷ 5 ∷ 5 ∷ 5 ∷ 5 ∷ []

-- `while (d >= 32) { d_bits += 6; d >>= 6; }` and the table. A digit has 32 bits.
pub bits_loop : ℕ → ℕ → ℕ
bits_loop zero d = get_or bit_length_table d 0
bits_loop (suc fuel) d =
    let rest = bits_loop fuel (d / 64) in if leb 32 d then 6 + rest else get_or bit_length_table d 0

pub bits_in_digit : ℕ → ℕ
bits_in_digit d = bits_loop 5 d

-- The loop of v_lshift by the factor 2 ^ d, from `carry` on: the shifted digits and the last carry.
pub lshift_loop : ℕ → List ℕ → ℕ → List ℕ × ℕ
lshift_loop p [] carry = ([], carry)
lshift_loop p (x ∷ a) carry =
    let acc = (x * p) % 2 ^ 64 + carry in
    let (z, last) = lshift_loop p a (acc / base) in (acc % base ∷ z, last)

-- v_lshift by `d` bits, with its assertion `0 <= d && d < COInt_SHIFT`.
pub v_lshift : List ℕ → ℤ → Result (List ℕ × ℕ)
v_lshift a (negsuc n) = undefined
v_lshift a (pos d) = assert (ltb d 30) (ok (lshift_loop (2 ^ d) a 0))

-- The loop of v_rshift by the divisor 2 ^ d, from the most significant digit on: the digits and the
-- last carry.
pub rshift_loop : ℕ → List ℕ → List ℕ × ℕ
rshift_loop p [] = ([], 0)
rshift_loop p (x ∷ a) =
    let (z, carry) = rshift_loop p a in let acc = carry * base + x in (acc / p ∷ z, acc % p)

-- v_rshift by `d` bits, with the same assertion.
pub v_rshift : List ℕ → ℤ → Result (List ℕ × ℕ)
v_rshift a (negsuc n) = undefined
v_rshift a (pos d) = assert (ltb d 30) (ok (rshift_loop (2 ^ d) a))

-- inplace_divrem1, from the most significant digit on: the quotient and the remainder.
pub inplace_divrem1 : ℕ → List ℕ → List ℕ × ℕ
inplace_divrem1 n [] = ([], 0)
inplace_divrem1 n (x ∷ a) =
    let (q, before) = inplace_divrem1 n a in
    let rem = (before * base) % 2 ^ 64 + x in let hi = rem / n % 2 ^ 32 in (hi ∷ q, rem - hi * n)

-- divrem1, with the assertion on the divisor that inplace_divrem1 makes.
pub divrem1 : IntObject → ℕ → Result (IntObject × ℕ)
divrem1 a n =
    assert (ltb 0 n && ltb n base)
      (let (q, rem) = inplace_divrem1 n a.digits in ok (int_normalize (signed false q), rem))

-- The loop that corrects the estimate: `while (wm2 * q > (r << SHIFT | v2)) { --q; r += wm1; ... }`.
-- It ends once r has reached the base, after two rounds at most.
pub correct : ℕ → ℕ → ℕ → ℕ → ℕ → ℕ → ℕ
correct zero wm1 wm2 v2 q r = q
correct (suc fuel) wm1 wm2 v2 q r =
    let rest = correct fuel wm1 wm2 v2 (q - 1) (r + wm1) in
    if ltb (r * base + v2) (wm2 * q) then (if leb base (r + wm1) then q - 1 else rest) else q

-- The estimate of a quotient digit from the three top digits of the window.
pub estimate : ℕ → ℕ → ℕ → ℕ → ℕ → ℕ
estimate wm1 wm2 vtop v1 v2 =
    let vv = vtop * base + v1 in
    let q = vv / wm1 % 2 ^ 32 in correct 3 wm1 wm2 v2 q ((vv - wm1 * q) % 2 ^ 32)

-- `z = vk[i] + zhi - q * w0[i]` over the digits; `taken` is -zhi. The sum with 2 ^ 62, a multiple of
-- the base, keeps the mask and the arithmetic shift of `z` on numbers that are not negative.
pub sub_mul : ℕ → List ℕ → List ℕ → ℕ → List ℕ × ℕ
sub_mul q [] w taken = ([], taken)
sub_mul q (x ∷ v) [] taken = (x ∷ v, taken)
sub_mul q (x ∷ v) (y ∷ w) taken =
    let z = x + 2 ^ 62 - taken - q * y in
    let (u, last) = sub_mul q v w (2 ^ 32 - z / base) in (z % base ∷ u, last)

-- `carry += vk[i] + w0[i]` over the digits.
pub add_back : List ℕ → List ℕ → ℕ → List ℕ
add_back [] w carry = []
add_back (x ∷ v) [] carry = x ∷ v
add_back (x ∷ v) (y ∷ w) carry =
    let c = (carry + (x + y) % 2 ^ 32) % 2 ^ 32 in c % base ∷ add_back v w (c / base)

-- The end of a round: `v` and `zhi` are what the subtraction left.
pub settle_digit : List ℕ → ℕ → ℕ → List ℕ × ℕ → Result (ℕ × List ℕ)
settle_digit w vtop q (v, taken) = assert (taken == vtop || taken == vtop + 1) (
    if ltb vtop taken
    then assert (ltb (q - 1) base) (ok (q - 1, add_back v w 0))
    else assert (ltb q base) (ok (q, v)))

-- A round of the loop of x_divrem: `w` has `n` digits and the window `n + 1`.
pub div_digit : List ℕ → List ℕ → Result (ℕ × List ℕ)
div_digit w window =
    let n = length w in
    let vtop = get_or window n 0 in
    let wm1 = get_or w (n - 1) 0 in
    let q =
      estimate wm1 (get_or w (n - 2) 0) vtop (get_or window (n - 1) 0) (get_or window (n - 2) 0) in
    assert (leb vtop wm1 && leb q base) (settle_digit w vtop q (sub_mul q (take n window) w 0))

-- The rounds, the digits below the first window still to come: the quotient and what is left.
pub div_loop : List ℕ → List ℕ → List ℕ → Result (List ℕ × List ℕ)
div_loop w [] rest = ok ([], rest)
div_loop w (x ∷ lows) rest = do
  (q, r) ← div_loop w lows rest
  (d, r') ← div_digit w (x ∷ r)
  ok (d ∷ q, r')

-- The shifted dividend gets one more digit, unless its top digit is below that of the divisor.
pub extend : List ℕ → List ℕ → ℕ → List ℕ
extend w v carry =
    if not (carry == 0) || leb (get_or w (length w - 1) 0) (get_or v (length v - 1) 0)
    then v ++ carry ∷ []
    else v

-- x_divrem on the magnitudes: the digits of the quotient and of the remainder.
pub div_shifted : ℤ → List ℕ × ℕ → List ℕ × ℕ → Result (List ℕ × List ℕ)
div_shifted d (w, cw) (v, cv) =
    let v' = extend w v cv in
    let k = length v' - length w in
    assert (cw == 0 && leb (length w) (length v')) do
      (q, r) ← div_loop w (take k v') (drop k v')
      (z, carry) ← v_rshift r d
      assert (carry == 0) (ok (q, z))

-- `d = COInt_SHIFT - bits_in_digit(...)` is an int, which the assertions of the shifts test.
pub x_divrem : IntObject → IntObject → Result (IntObject × IntObject)
x_divrem v1 w1 =
    let d = sub_ℕ 30 (bits_in_digit (get_or w1.digits (size w1 - 1) 0)) in
    assert (leb (size w1) (size v1) && leb 2 (size w1)) do
      w ← v_lshift w1.digits d
      v ← v_lshift v1.digits d
      (q, r) ← div_shifted d w v
      ok (int_normalize (signed false q), int_normalize (signed false r))

-- The quotient and the remainder of magnitudes that the size test lets through.
pub div_magnitudes : IntObject → IntObject → Result (IntObject × IntObject)
div_magnitudes a b =
    if size b == 1
    then (divrem1 a (get_or b.digits 0 0) >>= λ r. ok (r.0, from_long (pos r.1)))
    else x_divrem a b

-- `size_a < size_b || (size_a == size_b && the top digit of a is the lower one)`
pub surely_less : IntObject → IntObject → Bool
surely_less a b =
    ltb (size a) (size b)
    || (size a == size b) && ltb (get_or a.digits (size a - 1) 0) (get_or b.digits (size b - 1) 0)

-- The signs of quotient and remainder.
pub set_signs : IntObject → IntObject → IntObject × IntObject → IntObject × IntObject
set_signs a b (div, rem) = (
  maybe_small_int (if signs_differ a b then negate div else div),
  if a.neg && not (size rem == 0) then negate rem else rem,
)

-- int_divrem: quotient and remainder.
pub int_divrem : IntObject → IntObject → Result (IntObject × IntObject)
int_divrem a b =
    if size b == 0
    then raise value_error
    else if surely_less a b
    then ok (from_long (pos 0), a)
    else div_magnitudes a b >>= λ r. ok (set_signs a b r)

pub int_div : IntObject → IntObject → Result IntObject
int_div a b = int_divrem a b >>= λ r. ok r.0

pub int_mod : IntObject → IntObject → Result IntObject
int_mod a b = int_divrem a b >>= λ r. ok r.1
