-- ===== src/BigInt/Multiply/Square.antt =====
-- The rows of the square.
use cobj.Prelude.{ℕ, suc, ◌+◌, ◌-◌, ◌*◌, ◌/◌, ◌%◌, ◌^◌, ◌<◌, ◌≤◌, ◌≡◌, arith, refl, ap}
use cobj.Prelude.{List, [], ◌∷◌, ◌++◌, length, replicate, ◌==◌, Bool-cases, inl, inr}
use cobj.Prelude.{length-replicate, replicate-add}
use cobj.BigInt.{value, base, IsDigit, IsDigits}
use cobj.BigInt.Multiply.{add_at, last_carry, square_carry, square_row, square_rows, next_row}
use cobj.BigInt.Multiply.Rows.{digit_product, Row, Row-cons, value-zeros, zeros-IsDigits}
use mathlib.Core.List.{append-nil}
use native.Mathlib.Nat.{mul-le-mul}

-- base ^ length a
abbrev side : List ℕ → ℕ
side [] = 1
side (f ∷ a) = base * side a

-- base ^ (2 * length a): what the digits of a square can count to.
abbrev span : List ℕ → ℕ
span a = side a * side a

-- A carry of a row of the square is less than twice the base.
square_round :
    (c x y f : ℕ)
    → c ≤ 2 * base - 2
    → IsDigit x
    → IsDigit y
    → IsDigit f
    → let s = (c + (x + y * (f * 2))) % 2 ^ 64 in
      (s ≡ c + (x + y * (f * 2))) × (s / base ≤ 2 * base - 2)
square_round c x y f hc hx hy hf = omega (arith, digit_product y f hy hf)

-- The end of a row with a free cell behind it: both carries find room.
square_carry_room :
    (c x : ℕ) (z : List ℕ)
    → c ≤ 2 * base - 2
    → IsDigit x
    → Row 2 (x + c) z (square_carry c (x ∷ 0 ∷ z))
unfolding square_carry last_carry add_at
square_carry_room c x z hc hx = elim (Bool-cases (c == 0)) [
  | inl e ↦ rw e record {
    digits = x ∷ 0 ∷ [];
    split = refl;
    count = refl;
    in_range = omega arith;
    number = ground arith;
  }
  | inr e ↦ rw e record {
    digits = (x + c) % base ∷ (x + c) / base ∷ [];
    split = ground arith;
    count = refl;
    in_range = omega arith;
    number = omega arith;
  }
]

-- The end of the last row: the number fits, so the second carry is 0.
square_carry_end : (c x : ℕ) → x + c < base → Row 1 (x + c) [] (square_carry c (x ∷ []))
unfolding square_carry last_carry add_at
square_carry_end c x h = elim (Bool-cases (c == 0)) [
  | inl e ↦ rw e record {
    digits = x ∷ [];
    split = refl;
    count = refl;
    in_range = omega arith;
    number = ground arith;
  }
  | inr e ↦ rw e record {
    digits = (x + c) ∷ [];
    split = ground arith;
    count = refl;
    in_range = omega arith;
    number = omega arith;
  }
]

-- A row over the digits `a` above its own digit, with a free cell behind.
square_row_room :
    (f : ℕ) (a : List ℕ) (c : ℕ) (lo z : List ℕ)
    → IsDigit f
    → IsDigits a
    → IsDigits lo
    → length lo ≡ suc (length a)
    → c ≤ 2 * base - 2
    → Row
        (suc (suc (length a)))
        (value lo + f * 2 * value a + c)
        z
        (square_row (f * 2) a c (lo ++ (0 ∷ z)))
unfolding square_row
square_row_room f a c [] z hf ra rl e hc = absurd (omega arith)
square_row_room f [] c (x ∷ []) z hf ra (rx, rl) e hc =
    let r = square_carry_room c x z hc rx in
    record {
      digits = r.digits;
      split = r.split;
      count = r.count;
      in_range = r.in_range;
      number = omega (arith, r.number);
    }
square_row_room f [] c (x ∷ y ∷ lo) z hf ra rl e hc = absurd (omega arith)
square_row_room f (y ∷ a) c (x ∷ lo) z hf (ry, ra) (rx, rl) e hc =
    let s = (c + (x + y * (f * 2))) % 2 ^ 64 in
    let (es, hs) = square_round c x y f hc rx ry hf in
    let r = square_row_room f a (s / base) lo z hf ra rl (omega arith) hs in
    record {
      digits = s % base ∷ r.digits;
      split = ap (λ t. s % base ∷ t) r.split;
      count = ap suc r.count;
      in_range = (omega arith, r.in_range);
      number = omega (arith, r.number, es);
    }

-- A round for the square of a digit.
own_square :
    (x f : ℕ)
    → IsDigit x
    → IsDigit f
    → let s = (x + f * f) % 2 ^ 64 in (s ≡ x + f * f) × (s / base ≤ 2 * base - 2)
own_square x f hx hf = omega (arith, digit_product f f hf hf)

-- The last row: the number fits two digits.
last_row :
    (f x y : ℕ)
    → IsDigit f
    → IsDigit x
    → IsDigit y
    → value (x ∷ y ∷ []) + f * f < base * base
    → let o = square_rows (f ∷ []) (x ∷ y ∷ []) in
      (value o ≡ value (x ∷ y ∷ []) + f * f) × IsDigits o
unfolding square_rows square_row
last_row f x y hf hx hy h =
    let c = (x + f * f) % 2 ^ 64 in
    let (ec, hc) = own_square x f hx hf in
    let (d, ds, s, l, (rd, r), n) = Row-cons (square_carry_end (c / base) y (omega arith)) in
    rw (s, append-nil) (omega (arith, n, ec), (omega arith, (rd, r)))

square_rows-cons :
    (f x : ℕ) (a o : List ℕ)
    → square_rows (f ∷ a) (x ∷ o)
      ≡ (x + f * f) % 2 ^ 64 % base
        ∷ next_row (square_rows a) (square_row (f * 2) a ((x + f * f) % 2 ^ 64 / base) o)
unfolding square_rows
square_rows-cons f x a o = refl

square_head :
    (f v : ℕ)
    → (f + base * v) * (f + base * v) ≡ f * f + base * (f * 2 * v) + base * (base * (v * v))
square_head f v = omega arith

-- All rows: the number so far and the square to come fit the result.
square_rows_lem :
    (f : ℕ) (a lo : List ℕ)
    → IsDigits (f ∷ a)
    → IsDigits lo
    → length lo ≡ suc (suc (length a))
    → value lo + value (f ∷ a) * value (f ∷ a) < span (f ∷ a)
    → let o = square_rows (f ∷ a) (lo ++ replicate (length a) 0) in
      (value o ≡ value lo + value (f ∷ a) * value (f ∷ a)) × IsDigits o
square_rows_lem f a [] ra rl e h = absurd (omega arith)
square_rows_lem f a (x ∷ []) ra rl e h = absurd (omega arith)
square_rows_lem f [] (x ∷ y ∷ []) (rf, ra) (rx, (ry, rl)) e h =
    let (v, r) = last_row f x y rf rx ry (omega arith) in (omega (arith, v), r)
square_rows_lem f [] (x ∷ y ∷ z ∷ lo) ra rl e h = absurd (omega arith)
square_rows_lem f (g ∷ a) (x ∷ y ∷ lo) (rf, ra) (rx, rl) e h =
    let c = (x + f * f) % 2 ^ 64 in
    let (ec, hc) = own_square x f rx rf in
    let (d, ds, s, l, (rd, r), n) = Row-cons (
      square_row_room f (g ∷ a) (c / base) (y ∷ lo) (replicate (length a) 0) rf ra rl (omega arith)
        hc) in
    let q = square_head f (value (g ∷ a)) in
    let (v, w) = square_rows_lem g a ds ra r l (omega (arith, n, ec, q)) in
    rw (square_rows-cons, s) (omega (arith, v, n, ec, q), (omega arith, (rd, w)))

value-lt-side : (a : List ℕ) → IsDigits a → value a < side a
value-lt-side [] r = omega arith
value-lt-side (f ∷ a) (rf, r) = omega (arith, value-lt-side a r)

value-lt-span : (a : List ℕ) → IsDigits a → value a * value a < span a
value-lt-span a r =
    let h = value-lt-side a r in
    omega (arith, mul-le-mul {n₁ = suc (value a)} {m₁ = suc (value a)} h h)

-- Over a cleared result the rows of the square give the square.
pub square_rows_square :
    (a : List ℕ)
    → IsDigits a
    → let o = square_rows a (replicate (length a + length a) 0) in
      (value o ≡ value a * value a) × IsDigits o
square_rows_square [] r = unfold square_rows in (refl, tt)
square_rows_square (f ∷ a) r =
    let n = length a in
    let z = value-zeros (suc (suc n)) in
    let e : suc n + suc n ≡ n + suc (suc n) = omega arith in
    let (v, w) =
      square_rows_lem f a (replicate (suc (suc n)) 0) r (zeros-IsDigits (suc (suc n)))
        (length-replicate (suc (suc n)) 0) (omega (arith, z, value-lt-span (f ∷ a) r)) in
    rw (e, replicate-add {A = ℕ} (suc (suc n)) n 0) (omega (arith, v, z), w)
