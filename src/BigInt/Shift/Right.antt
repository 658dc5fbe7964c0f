-- ===== src/BigInt/Shift/Right.antt =====
-- `int_rshift` of objects/intobject.c as a division by a power of 2.
use cobj.Prelude.{
  ℕ, zero, suc, ◌+◌, ◌-◌, ◌*◌, ◌/◌, ◌%◌, ◌^◌, ◌≤◌, ◌<◌, ◌≡◌, sym, ap, subst, ◌∙◌, arith, List, [],
  ◌∷◌, drop,
}
use native.Mathlib.Nat.{
  mod-eq_of_lt, div-lt_iff_lt-mul, add-mul-mod_self_left, add-mul-div_left, div-add-mod, mod-lt,
  mul-le-mul_right, mul-lt-mul_of_pos_right, zero-div, div-one, div-div-eq-div-mul,
  pow-le-pow_right,
}
use cobj.BigInt.{value, base, IsDigit, IsDigits}
use cobj.BigInt.Divide.Digits.{pow-add}
use cobj.BigInt.Shift.{rshift_digits}

-- The shift by the two factors of the base.
module _ (p h : ℕ) (whole : p * h ≡ base) (p_pos : 0 < p) (h_pos : 0 < h) where
  expand : (a b : ℕ) → h * (p * a + b) ≡ base * a + b * h
  expand a b =
      let e : h * (p * a + b) ≡ p * h * a + b * h = grind arith in e ∙ ap (λ k. k * a + b * h) whole

  -- The low bits of a digit, moved to the top.
  high_part : (y : ℕ) → y * h % 2 ^ 32 % base ≡ y % p * h
  high_part y =
      let r = mod-lt y p_pos in
      let split : y * h ≡ y % p * h + base * (y / p) =
        commute y
        ∙ ap (λ k. h * k) (sym (div-add-mod y p))
        ∙ expand (y / p) (y % p)
        ∙ swap (y / p) (y % p) in
      let small : y % p * h < base =
        subst (λ k. y % p * h < k) whole (mul-lt-mul_of_pos_right r h_pos) in
      let two : y * h % 2 ^ 32 % base ≡ y * h % base = omega arith in
      two
      ∙ ap (λ k. k % base) split
      ∙ add-mul-mod_self_left (y % p * h) base (y / p)
      ∙ mod-eq_of_lt small
    where
      commute : (y : ℕ) → y * h ≡ h * y
      commute y = grind arith

      swap : (a b : ℕ) → base * a + b * h ≡ b * h + base * a
      swap a b = omega arith

  shift_step :
      (x y v : ℕ)
      → x < base
      → let w = y + base * v in
        (x / p % h + y * h % 2 ^ 32 % base) + base * (w / p) ≡ (x + base * w) / p
  shift_step x y v lx =
      let w = y + base * v in
      let bound : x < h * p = subst (λ k. x < k) (sym whole ∙ commute) lx in
      let low = mod-eq_of_lt ((div-lt_iff_lt-mul p_pos).1 bound) in
      let same : w % p ≡ y % p =
        ap (λ k. (y + k) % p) (inside v) ∙ add-mul-mod_self_left y p (h * v) in
      let all : h * w ≡ base * (w / p) + y % p * h =
        ap (λ k. h * k) (sym (div-add-mod w p))
        ∙ expand (w / p) (w % p)
        ∙ ap (λ k. base * (w / p) + k * h) same in
      let quotient : (x + base * w) / p ≡ x / p + h * w =
        ap (λ k. (x + k) / p) (inside w) ∙ add-mul-div_left x (h * w) p_pos in
      omega (arith, low, high_part y, all, quotient)
    where
      commute : p * h ≡ h * p
      commute = grind arith

      inside : (k : ℕ) → base * k ≡ p * (h * k)
      inside k = let e : p * h * k ≡ p * (h * k) = grind arith in ap (λ m. m * k) (sym whole) ∙ e

  rshift_digits-IsDigit : (x y : ℕ) → IsDigit (x / p % h + y * h % 2 ^ 32 % base)
  rshift_digits-IsDigit x y =
      let l = mod-lt (x / p) h_pos in
      let r = mul-le-mul_right {m = suc (y % p)} {n = p} h (mod-lt y p_pos) in
      omega (arith, high_part y, l, r, whole)

  last_shift : (x : ℕ) → x < base → (x / p % h ≡ x / p) × IsDigit (x / p % h)
  last_shift x lx =
      let bound : x < h * p = subst (λ k. x < k) (sym whole ∙ commute) lx in
      let l = mod-lt (x / p) h_pos in
      let r = mul-le-mul_right {m = 1} {n = p} h p_pos in
      (mod-eq_of_lt ((div-lt_iff_lt-mul p_pos).1 bound), omega (arith, l, r, whole))
    where
      commute : p * h ≡ h * p
      commute = grind arith

factors : (lo : ℕ) → lo < 30 → 2 ^ lo * 2 ^ (30 - lo) ≡ base
factors lo l =
    let n : lo + (30 - lo) ≡ 30 = omega (arith, l) in sym (pow-add lo (30 - lo)) ∙ ap (λ k. 2 ^ k) n

power_pos : (n : ℕ) → 0 < 2 ^ n
power_pos n = let l : 0 ≤ n = omega arith in pow-le-pow_right {n = 2} (omega arith) l

pub rshift_digits_lem :
    (lo : ℕ) (ds : List ℕ)
    → lo < 30
    → IsDigits ds
    → (value (rshift_digits lo ds) ≡ value ds / 2 ^ lo) × IsDigits (rshift_digits lo ds)
unfolding rshift_digits
rshift_digits_lem lo [] l d = (sym (zero-div (2 ^ lo)), tt)
rshift_digits_lem lo (x ∷ []) l (dx, d) =
    let p_pos = power_pos lo in
    let h_pos = power_pos (30 - lo) in
    let whole = factors lo l in
    let (e, r) = last_shift (2 ^ lo) (2 ^ (30 - lo)) whole p_pos h_pos x dx in
    let none : x + 0 ≡ x = omega arith in (omega (arith, e, ap (λ k. k / 2 ^ lo) none), (r, tt))
rshift_digits_lem lo (x ∷ y ∷ ds) l (dx, d) =
    let p_pos = power_pos lo in
    let h_pos = power_pos (30 - lo) in
    let whole = factors lo l in
    let (v, r) = rshift_digits_lem lo (y ∷ ds) l d in
    let step = shift_step (2 ^ lo) (2 ^ (30 - lo)) whole p_pos h_pos x y (value ds) dx in
    (
      ap (λ k. (x / 2 ^ lo % 2 ^ (30 - lo) + y * 2 ^ (30 - lo) % 2 ^ 32 % base) + base * k) v
          ∙ step,
      (rshift_digits-IsDigit (2 ^ lo) (2 ^ (30 - lo)) whole p_pos h_pos x y, r),
    )

pub drop_lem :
    (w : ℕ) (ds : List ℕ)
    → IsDigits ds
    → (value (drop w ds) ≡ value ds / 2 ^ (30 * w)) × IsDigits (drop w ds)
drop_lem zero ds d = (sym (div-one (value ds)), d)
drop_lem (suc w) [] d = (sym (zero-div (2 ^ (30 * suc w))), tt)
drop_lem (suc w) (x ∷ ds) (dx, d) =
    let (v, r) = drop_lem w ds d in
    let n : 30 + 30 * w ≡ 30 * suc w = omega arith in
    let first : (x + base * value ds) / base ≡ value ds = omega (arith, dx) in
    let power : base * 2 ^ (30 * w) ≡ 2 ^ (30 * suc w) =
      sym (pow-add 30 (30 * w)) ∙ ap (λ k. 2 ^ k) n in
    (
      v
          ∙ ap (λ k. k / 2 ^ (30 * w)) (sym first)
          ∙ div-div-eq-div-mul (x + base * value ds) base (2 ^ (30 * w))
          ∙ ap (λ k. (x + base * value ds) / k) power,
      r,
    )
