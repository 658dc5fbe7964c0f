-- ===== src/BigInt/Multiply/Rows.antt =====
-- The rows of the general product.
use cobj.Prelude.{ℕ, zero, suc, ◌+◌, ◌-◌, ◌*◌, ◌/◌, ◌%◌, ◌^◌, ◌<◌, ◌≤◌, ◌≡◌, arith, refl, ap}
use cobj.Prelude.{List, [], ◌∷◌, ◌++◌, length, length-replicate, replicate, replicate-add}
use cobj.BigInt.{value, base, IsDigit, IsDigits}
use cobj.BigInt.Multiply.{add_at, last_carry, mul_row, mul_rows}
use mathlib.Core.List.{append-nil}
use native.Mathlib.Nat.{mul-le-mul}

-- A product of two digits.
pub digit_product : (x y : ℕ) → IsDigit x → IsDigit y → x * y ≤ (base - 1) * (base - 1)
digit_product x y hx hy =
    mul-le-mul {n₁ = x} {m₁ = y} {n₂ = base - 1} {m₂ = base - 1} (omega arith) (omega arith)

-- What a row promises of its result `o`: `n` digits for the number `v`, in front of `z`.
pub record Row (n v : ℕ) (z o : List ℕ) : Type 0 where
  pub digits : List ℕ
  pub split : o ≡ digits ++ z
  pub count : length digits ≡ n
  pub in_range : IsDigits digits
  pub number : value digits ≡ v

-- The carry of a row goes into a cell that is still 0.
last_carry_zero : (c : ℕ) (z : List ℕ) → c < base → last_carry c (0 ∷ z) ≡ c ∷ z
unfolding last_carry add_at
last_carry_zero c z h = ground arith

-- One round of a row: no bit is lost, and the carry stays below the base.
round_lem :
    (c x y f : ℕ)
    → c < base
    → IsDigit x
    → IsDigit y
    → IsDigit f
    → let s = (c + (x + y * f)) % 2 ^ 64 in (s ≡ c + (x + y * f)) × (s / base < base)
round_lem c x y f hc hx hy hf = omega (arith, digit_product y f hy hf)

mul_row_lem :
    (f : ℕ) (b : List ℕ) (c : ℕ) (lo z : List ℕ)
    → IsDigit f
    → IsDigits b
    → IsDigits lo
    → length lo ≡ length b
    → c < base
    → Row (suc (length b)) (value lo + f * value b + c) z (mul_row f b c (lo ++ (0 ∷ z)))
unfolding mul_row
mul_row_lem f [] c [] z hf rb rl e hc = record {
  digits = c ∷ [];
  split = last_carry_zero c z hc;
  count = refl;
  in_range = omega arith;
  number = omega arith;
}
mul_row_lem f [] c (x ∷ lo) z hf rb rl e hc = absurd (omega arith)
mul_row_lem f (y ∷ b) c [] z hf rb rl e hc = absurd (omega arith)
mul_row_lem f (y ∷ b) c (x ∷ lo) z hf (ry, rb) (rx, rl) e hc =
    let s = (c + (x + y * f)) % 2 ^ 64 in
    let (es, hs) = round_lem c x y f hc rx ry hf in
    let r = mul_row_lem f b (s / base) lo z hf rb rl (omega arith) hs in
    record {
      digits = s % base ∷ r.digits;
      split = ap (λ t. s % base ∷ t) r.split;
      count = ap suc r.count;
      in_range = (omega arith, r.in_range);
      number = omega (arith, r.number, es);
    }

-- A row is not empty: its first digit is settled, and the rest goes on.
pub Row-cons :
    {n v : ℕ} {z o : List ℕ}
    → Row (suc n) v z o
    → (d : ℕ) × (ds : List ℕ) × (o ≡ d ∷ (ds ++ z))
      × (length ds ≡ n)
      × (IsDigit d × IsDigits ds)
      × (d + base * value ds ≡ v)
Row-cons r = go r.digits r.split r.count r.in_range r.number
  where
    go :
        {n v : ℕ} {z o : List ℕ} (ds : List ℕ)
        → o ≡ ds ++ z
        → length ds ≡ suc n
        → IsDigits ds
        → value ds ≡ v
        → (d : ℕ) × (ds' : List ℕ) × (o ≡ d ∷ (ds' ++ z))
          × (length ds' ≡ n)
          × (IsDigit d × IsDigits ds')
          × (d + base * value ds' ≡ v)
    go [] s c r n = absurd (omega arith)
    go (d ∷ ds) s c (rd, r) n = (d, ds, s, omega arith, (rd, r), n)

pub value-zeros : (n : ℕ) → value (replicate n 0) ≡ 0
value-zeros zero = refl
value-zeros (suc n) = omega (arith, value-zeros n)

pub zeros-IsDigits : (n : ℕ) → IsDigits (replicate n 0)
zeros-IsDigits zero = tt
zeros-IsDigits (suc n) = (omega arith, zeros-IsDigits n)

-- All rows add the product.
mul_rows_lem :
    (a b lo : List ℕ)
    → IsDigits a
    → IsDigits b
    → IsDigits lo
    → length lo ≡ length b
    → let o = mul_rows a b (lo ++ replicate (length a) 0) in
      (value o ≡ value lo + value a * value b) × IsDigits o
unfolding mul_rows
mul_rows_lem [] b lo ra rb rl e = rw append-nil (omega arith, rl)
mul_rows_lem (f ∷ a) b lo (rf, ra) rb rl e =
    let (d, ds, s, l, (rd, r), n) =
      Row-cons (mul_row_lem f b 0 lo (replicate (length a) 0) rf rb rl e (omega arith)) in
    let (v, w) = mul_rows_lem a b ds ra rb r l in rw s (omega (arith, v, n), (rd, w))

-- Over a cleared result the rows give the product.
pub mul_rows_product :
    (a b : List ℕ)
    → IsDigits a
    → IsDigits b
    → let o = mul_rows a b (replicate (length a + length b) 0) in
      (value o ≡ value a * value b) × IsDigits o
mul_rows_product a b ra rb =
    let (v, r) =
      mul_rows_lem a b (replicate (length b) 0) ra rb (zeros-IsDigits (length b))
        (length-replicate (length b) 0) in
    rw (replicate-add {A = ℕ} (length b) (length a) 0) (omega (arith, v, value-zeros (length b)), r)
