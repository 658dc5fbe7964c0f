-- ===== src/BigInt/Divide/Window.antt =====
-- Vectors of digits by their length and by their top digits, and the two inner loops of x_divrem of
-- objects/intobject.c.
use cobj.Prelude.{ℕ, zero, suc, ◌+◌, ◌-◌, ◌*◌, ◌/◌, ◌%◌, ◌^◌, ◌<◌, ◌≤◌, ◌≡◌, arith, refl, ap}
use cobj.Prelude.{List, [], ◌∷◌, length, get_or, take}
use cobj.BigInt.{value, base, IsDigit, IsDigits}
use cobj.BigInt.Divide.{sub_mul, add_back}
use native.Mathlib.Nat.{mul-le-mul}

-- base ^ n
abbrev pub weight : ℕ → ℕ
weight zero = 1
weight (suc n) = base * weight n

pub value_bound : (ds : List ℕ) → IsDigits ds → value ds < weight (length ds)
value_bound [] r = omega arith
value_bound (d ∷ ds) (h, r) = omega (arith, value_bound ds r)

pub get_or-IsDigit : (ds : List ℕ) (i : ℕ) → IsDigits ds → IsDigit (get_or ds i 0)
get_or-IsDigit [] i r = omega arith
get_or-IsDigit (d ∷ ds) zero (h, r) = h
get_or-IsDigit (d ∷ ds) (suc i) (h, r) = get_or-IsDigit ds i r

-- A vector of `m + 1` digits, with the top digit apart.
pub top_one :
    (m : ℕ) (ds : List ℕ)
    → length ds ≡ suc m
    → value ds ≡ value (take m ds) + weight m * get_or ds m 0
top_one m [] e = absurd (omega arith)
top_one zero (d ∷ []) e = omega arith
top_one zero (d ∷ x ∷ ds) e = absurd (omega arith)
top_one (suc m) (d ∷ ds) e = omega (arith, top_one m ds (omega arith))

pub top_two :
    (m : ℕ) (ds : List ℕ)
    → length ds ≡ suc (suc m)
    → value ds ≡ value (take m ds) + weight m * (get_or ds m 0 + base * get_or ds (suc m) 0)
top_two m [] e = absurd (omega arith)
top_two zero (d ∷ ds) e = omega (arith, top_one 0 ds (omega arith))
top_two (suc m) (d ∷ ds) e = omega (arith, top_two m ds (omega arith))

pub top_three :
    (m : ℕ) (ds : List ℕ)
    → length ds ≡ suc (suc (suc m))
    → value ds
      ≡ value (take m ds)
        + weight m
          * (get_or ds m 0 + base * (get_or ds (suc m) 0 + base * get_or ds (suc (suc m)) 0))
top_three m [] e = absurd (omega arith)
top_three zero (d ∷ ds) e = omega (arith, top_two 0 ds (omega arith))
top_three (suc m) (d ∷ ds) e = omega (arith, top_three m ds (omega arith))

pub take-bound : (m : ℕ) (ds : List ℕ) → IsDigits ds → m ≤ length ds → value (take m ds) < weight m
take-bound zero ds r h = omega arith
take-bound (suc m) [] r h = absurd (omega arith)
take-bound (suc m) (d ∷ ds) (rd, r) h = omega (arith, take-bound m ds r (omega arith))

-- What the subtraction of `q * w` leaves: the digits and the borrow.
pub record Subtracted (q : ℕ) (v w : List ℕ) (taken : ℕ) (r : List ℕ × ℕ) : Type 0 where
  pub exact : value r.0 + q * value w + taken ≡ value v + weight (length v) * r.1
  pub small : r.1 ≤ base
  pub in_range : IsDigits r.0
  pub same_length : length r.0 ≡ length v

pub sub_mul-Subtracted :
    (q : ℕ) (v w : List ℕ) (taken : ℕ)
    → length v ≡ length w
    → IsDigits v
    → IsDigits w
    → q ≤ base
    → taken ≤ base
    → Subtracted q v w taken (sub_mul q v w taken)
unfolding sub_mul
sub_mul-Subtracted q [] [] taken e rv rw' h t = record {
  exact = omega arith;
  small = t;
  in_range = tt;
  same_length = refl;
}
sub_mul-Subtracted q [] (y ∷ w) taken e rv rw' h t = absurd (omega arith)
sub_mul-Subtracted q (x ∷ v) [] taken e rv rw' h t = absurd (omega arith)
sub_mul-Subtracted q (x ∷ v) (y ∷ w) taken e (rx, rv) (ry, rw') h t =
    let z = x + 2 ^ 62 - taken - q * y in
    let m = mul-le-mul {n₁ = q} {m₁ = y} {n₂ = base} {m₂ = base - 1} h (omega (arith, ry)) in
    let b : 2 ^ 32 - z / base ≤ base = omega (arith, m, t) in
    let i = sub_mul-Subtracted q v w (2 ^ 32 - z / base) (omega (arith, e)) rv rw' h b in
    let step : z % base + q * y + taken ≡ x + base * (2 ^ 32 - z / base) =
      omega (arith, m, t, rx) in
    record {
      exact = omega (arith, i.exact, step);
      small = i.small;
      in_range = (omega arith, i.in_range);
      same_length = ap suc i.same_length;
    }

-- What adding `w` back leaves, with the last carry that is dropped.
pub record Added (v w : List ℕ) (carry : ℕ) (r : List ℕ) : Type 0 where
  pub last : ℕ
  pub exact : value r + weight (length v) * last ≡ value v + value w + carry
  pub small : last ≤ 1
  pub in_range : IsDigits r
  pub same_length : length r ≡ length v

pub add_back-Added :
    (v w : List ℕ) (carry : ℕ)
    → length v ≡ length w
    → IsDigits v
    → IsDigits w
    → carry ≤ 1
    → Added v w carry (add_back v w carry)
unfolding add_back
add_back-Added [] [] carry e rv rw' t = record {
  last = carry;
  exact = omega arith;
  small = t;
  in_range = tt;
  same_length = refl;
}
add_back-Added [] (y ∷ w) carry e rv rw' t = absurd (omega arith)
add_back-Added (x ∷ v) [] carry e rv rw' t = absurd (omega arith)
add_back-Added (x ∷ v) (y ∷ w) carry e (rx, rv) (ry, rw') t =
    let c = (carry + (x + y) % 2 ^ 32) % 2 ^ 32 in
    let w1 : c ≡ carry + x + y = omega (arith, rx, ry, t) in
    let i =
      add_back-Added v w (c / base) (omega (arith, e)) rv rw' (omega (arith, w1, rx, ry, t)) in
    record {
      last = i.last;
      exact = omega (arith, i.exact, w1);
      small = i.small;
      in_range = (omega arith, i.in_range);
      same_length = ap suc i.same_length;
    }
