-- ===== src/BigInt/Divide/Signed.antt =====
-- int_divrem of objects/intobject.c against the division of integers.
use cobj.Prelude.{ℕ, zero, suc, ◌+◌, ◌-◌, ◌*◌, ◌^◌, ◌<◌, ◌≤◌, ◌≡◌, arith, refl, sym, ap, ◌∙◌}
use cobj.Prelude.{List, [], ◌∷◌, length, get_or, Bool, true, false, ltb, ◌==◌, ==_iff, ◌&&◌}
use cobj.Prelude.{◌⊎◌, not, Bool-cases, inl, inr, if◌then◌else◌, lt→ltb, le→leb}
use cobj.Prelude.Int.{ℤ, pos, ◌+ℤ◌, ◌*ℤ◌, neg_ℤ}
use cobj.Prelude.Result.{ok, raise, value_error}
use cobj.BigInt.{IntObject, size, signed, value, base, IsNormal, HasTop, to_ℤ, signed_ℤ}
use cobj.BigInt.Normalize.{int_normalize, negate, normalized_result}
use cobj.BigInt.Compare.Order.{value-lt}
use cobj.BigInt.Long.{from_long}
use cobj.BigInt.Long.RoundTrip.{from_long_lem}
use cobj.BigInt.Arith.Laws.{Gives, negate_lem, maybe_small_int_lem, zero_value}
use cobj.BigInt.Multiply.{signs_differ}
use cobj.BigInt.Multiply.Laws.{pos_part-minus, neg_part-minus}
use cobj.BigInt.Divide.{inplace_divrem1, divrem1, v_lshift, lshift_loop, x_divrem, bits_in_digit}
use cobj.BigInt.Divide.{div_magnitudes, surely_less, set_signs, int_divrem}
use cobj.BigInt.Divide.Digits.{inplace_divrem1-Divided, lshift_loop-Shifted, bits_in_digit_lem}
use cobj.BigInt.Divide.Window.{weight, get_or-IsDigit, top_one, take-bound}
use cobj.BigInt.Divide.Laws.{div_shifted_lem}
use native.Mathlib.Nat.{mul-le-mul_left, pow-le-pow_right}

-- Quotient and remainder of the magnitudes, as normal objects that are not negative.
pub record IsQuotient (a b : IntObject) (o : IntObject × IntObject) : Type 0 where
  pub q : ℕ
  pub r : ℕ
  pub quotient : Gives (pos q) o.0
  pub remainder : Gives (pos r) o.1
  pub exact : q * value b.digits + r ≡ value a.digits
  pub small : r < value b.digits

top_positive : (k : ℕ) (ds : List ℕ) → length ds ≡ suc k → HasTop ds → 0 < get_or ds k 0
top_positive k [] e t = absurd (omega arith)
top_positive zero (d ∷ []) e t = omega (arith, t)
top_positive zero (d ∷ x ∷ ds) e t = absurd (omega arith)
top_positive (suc k) (d ∷ []) e t = absurd (omega arith)
top_positive (suc k) (d ∷ x ∷ ds) e t = top_positive k (x ∷ ds) (omega arith) t

-- Where both integers are normal, the divisor has at least two digits and the dividend at least as
-- many as the divisor, `x_divrem` returns, with no assertion failing, the normal quotient and
-- remainder of the magnitudes.
pub x_divrem-IsQuotient :
    (a b : IntObject)
    → IsNormal a
    → IsNormal b
    → 2 ≤ size b
    → size b ≤ size a
    → (o : IntObject × IntObject) × (x_divrem a b ≡ ok o) × IsQuotient a b o
unfolding x_divrem v_lshift
x_divrem-IsQuotient a b na nb two le =
    let m = size b - 2 in
    let n : size b ≡ suc (suc m) = omega (arith, two) in
    let i : size b - 1 ≡ suc m = omega (arith, two) in
    let t = get_or b.digits (size b - 1) 0 in
    let et : get_or b.digits (suc m) 0 ≡ t = ap (λ j. get_or b.digits j 0) (sym i) in
    let k = 30 - bits_in_digit t in
    let p = 2 ^ k in
    let (small, lo, hi, some_bits, few) =
      bits_in_digit_lem t (rw et at (top_positive (suc m) b.digits n nb.top))
        (get_or-IsDigit b.digits (size b - 1) nb.in_range) in
    let less : k < 30 = omega (arith, some_bits) in
    let some_p : 0 < p = pow-le-pow_right {n = 2} (omega arith) {i = 0} (omega arith) in
    let ((q, r), e, ex, below, dq, dr) =
      div_shifted_lem m k a.digits b.digits (lshift_loop p b.digits 0) (lshift_loop p a.digits 0)
        less nb.in_range n (omega (arith, n, le)) small (rw et lo) (rw et hi)
        (lshift_loop-Shifted p b.digits 0 (omega (arith, small)) some_p nb.in_range)
        (lshift_loop-Shifted p a.digits 0 (omega (arith, small)) some_p na.in_range) in
    (
      (int_normalize (signed false q), int_normalize (signed false r)),
      rw (le→leb _ _ le, le→leb _ _ two, le→leb (bits_in_digit t) 30 few, lt→ltb k 30 less, e) refl,
      record {
        q = value q;
        r = value r;
        quotient = normalized_result false q (value q) (refl, dq);
        remainder = normalized_result false r (value r) (refl, dr);
        exact = ex;
        small = below;
      },
    )

one_digit_value : (ds : List ℕ) → length ds ≡ 1 → value ds ≡ get_or ds 0 0
one_digit_value [] e = absurd (omega arith)
one_digit_value (d ∷ []) e = omega arith
one_digit_value (d ∷ x ∷ ds) e = absurd (omega arith)

pub div_magnitudes-IsQuotient :
    (a b : IntObject)
    → IsNormal a
    → IsNormal b
    → 0 < size b
    → size b ≤ size a
    → (o : IntObject × IntObject) × (div_magnitudes a b ≡ ok o) × IsQuotient a b o
unfolding div_magnitudes divrem1
div_magnitudes-IsQuotient a b na nb some le = elim (Bool-cases (size b == 1)) [
  | inr z ↦
      let (o, e, i) = x_divrem-IsQuotient a b na nb (ground (arith, z, some)) le in (o, rw z e, i)
  | inl z ↦
      let n = get_or b.digits 0 0 in
      let one : size b ≡ 1 = (==_iff (size b) 1).0 z in
      let v = one_digit_value b.digits one in
      let d = get_or-IsDigit b.digits 0 nb.in_range in
      let some_n : 0 < n = top_positive 0 b.digits one nb.top in
      let i = inplace_divrem1-Divided n a.digits some_n (omega (arith, d)) na.in_range in
      let q = (inplace_divrem1 n a.digits).0 in
      let r = (inplace_divrem1 n a.digits).1 in
      let qv : value q * value b.digits ≡ value q * n = ap (λ k. value q * k) v in
      (
        (int_normalize (signed false q), from_long (pos r)),
        rw (z, lt→ltb 0 n some_n, lt→ltb n base d) refl,
        record {
          q = value q;
          r = r;
          quotient = normalized_result false q (value q) (refl, i.in_range);
          remainder = from_long_lem (pos r) (omega (arith, i.small, d));
          exact = omega (arith, i.exact, qv);
          small = omega (arith, i.small, v);
        },
      )
]

-- The sign of the quotient, with `signs_differ` written out.
abbrev differ : Bool → Bool → Bool
differ s t = if s then (if t then false else true) else t

-- Division with the signs, from that of the magnitudes.
signed_division :
    (s t : Bool) (q b r : ℕ)
    → ((if differ s t then neg_ℤ (pos q) else pos q) *ℤ signed_ℤ t b) +ℤ signed_ℤ s r
      ≡ signed_ℤ s (q * b + r)
unfolding ◌*ℤ◌ ◌+ℤ◌ neg_ℤ
signed_division true true q b r =
    rw (pos_part-minus b, neg_part-minus b, pos_part-minus r, neg_part-minus r) (ground arith)
signed_division true false q b r = rw (pos_part-minus r, neg_part-minus r) (ground arith)
signed_division false true q b r = rw (pos_part-minus b, neg_part-minus b) (ground arith)
signed_division false false q b r = ground arith

abs_value : (o : IntObject) (s : Bool) (r : ℕ) → to_ℤ o ≡ signed_ℤ s r → value o.digits ≡ r
abs_value o true r e = ground (arith, e)
abs_value o false r e = ground (arith, e)

-- What `int_divrem` promises: quotient and remainder that are normal, a remainder less than the
-- divisor in magnitude, with the sign of the dividend.
pub record IsDivided (a b : IntObject) (o : IntObject × IntObject) : Type 0 where
  pub quotient : IsNormal o.0
  pub remainder : IsNormal o.1
  pub exact : (to_ℤ o.0 *ℤ to_ℤ b) +ℤ to_ℤ o.1 ≡ to_ℤ a
  pub small : value o.1.digits < value b.digits
  pub sign : to_ℤ o.1 ≡ signed_ℤ a.neg (value o.1.digits)

set_signs-IsDivided :
    (a b : IntObject) (o : IntObject × IntObject)
    → IsQuotient a b o
    → IsDivided a b (set_signs a b o)
unfolding set_signs
set_signs-IsDivided a b (div, rem) i =
    let div' = if signs_differ a b then negate div else div in
    let (qe, qn) : Gives (if differ a.neg b.neg then neg_ℤ (pos i.q) else pos i.q) div' =
      elim (Bool-cases (differ a.neg b.neg)) [
        | inl d ↦ rw d (negate_lem div (pos i.q) i.quotient)
        | inr d ↦ rw d i.quotient
      ] in
    let (me, mn) = maybe_small_int_lem div' qn in
    let (re, rn) : Gives (signed_ℤ a.neg i.r)
        (if a.neg && not (size rem == 0) then negate rem else rem) =
      remainder_sign a.neg in
    let v = abs_value _ a.neg i.r re in
    record {
      quotient = mn;
      remainder = rn;
      exact =
          rw (me ∙ qe, re)
            (signed_division a.neg b.neg i.q (value b.digits) i.r ∙ ap (signed_ℤ a.neg) i.exact);
      small = omega (arith, v, i.small);
      sign = re ∙ ap (signed_ℤ a.neg) (sym v);
    }
  where
    remainder_sign :
        (s : Bool) → Gives (signed_ℤ s i.r) (if s && not (size rem == 0) then negate rem else rem)
    remainder_sign false = i.remainder
    remainder_sign true = elim (Bool-cases (size rem == 0)) [
      | inr z ↦
          rw z
            (let (e, n) = negate_lem rem (pos i.r) i.remainder in (e ∙ (unfold neg_ℤ in refl), n))
      | inl z ↦
          let (e, n) = i.remainder in
          let v : value rem.digits ≡ i.r = abs_value rem false i.r e in
          let zero : i.r ≡ 0 = sym v ∙ zero_value rem.digits ((==_iff (size rem) 0).0 z) in
          rw z (e ∙ (rw zero refl), n)
    ]

-- A dividend with fewer digits, or with as many and a lower top digit, is the smaller one.
surely_less_lem :
    (a b : IntObject)
    → IsNormal a
    → IsNormal b
    → 0 < size b
    → surely_less a b ≡ true
    → value a.digits < value b.digits
unfolding surely_less
surely_less_lem a b na nb some h = elim (Bool-cases (ltb (size a) (size b))) [
  | inl l ↦ value-lt a.digits b.digits na.in_range nb.top (ground (arith, l))
  | inr l ↦
      let k = size b - 1 in
      let (e, t) : (size a ≡ size b)
          × (get_or a.digits (size a - 1) 0 < get_or b.digits (size b - 1) 0) =
        ground (arith, h, l) in
      let ea : length a.digits ≡ suc k = omega (arith, e, some) in
      let eb : length b.digits ≡ suc k = omega (arith, some) in
      let ta = top_one k a.digits ea in
      let tb = top_one k b.digits eb in
      let la = take-bound k a.digits na.in_range (omega (arith, ea)) in
      let ia : get_or a.digits (size a - 1) 0 ≡ get_or a.digits k 0 =
        ap (λ j. get_or a.digits (j - 1) 0) e in
      let g =
        mul-le-mul_left {m = suc (get_or a.digits k 0)} {n = get_or b.digits k 0} (weight k)
          (omega (arith, t, ia)) in
      omega (arith, ta, tb, la, g)
]

-- Where both integers are normal, `int_divrem` raises value_error when the divisor is 0; otherwise
-- it returns, with no assertion failing, a normal quotient and a normal remainder such that the
-- quotient times the divisor plus the remainder is the dividend, the remainder is smaller in
-- magnitude than the divisor, and it has the sign of the dividend.
pub int_divrem_lem :
    (a b : IntObject)
    → IsNormal a
    → IsNormal b
    → ((to_ℤ b ≡ pos 0) × (int_divrem a b ≡ raise value_error))
      ⊎ ((o : IntObject × IntObject) × (int_divrem a b ≡ ok o) × IsDivided a b o)
unfolding int_divrem
int_divrem_lem a b na nb = elim (Bool-cases (size b == 0)) [
  | inl z ↦
      let e : size b ≡ 0 = (==_iff (size b) 0).0 z in
      let v = zero_value b.digits e in let s = nb.zero_sign e in inl (rw (s, v) refl, rw z refl)
  | inr z ↦
      let some : 0 < size b = ground (arith, z) in
      elim (Bool-cases (surely_less a b)) [
        | inl l ↦
            let (e, n) = from_long_lem (pos 0) (omega arith) in
            inr (
              (from_long (pos 0), a),
              rw (z, l) refl,
              record {
                quotient = n;
                remainder = na;
                exact = rw e (zero_times (to_ℤ b) (to_ℤ a));
                small = surely_less_lem a b na nb some l;
                sign = refl;
              },
            )
        | inr l ↦
            let (o, e, i) = div_magnitudes-IsQuotient a b na nb some (not_less l) in
            inr (set_signs a b o, rw (z, l, e) refl, set_signs-IsDivided a b o i)
      ]
]
  where
    not_less : surely_less a b ≡ false → size b ≤ size a
    not_less h = unfold surely_less in ground (arith, h)

    zero_times : (x y : ℤ) → (pos 0 *ℤ x) +ℤ y ≡ y
    zero_times x y = unfold ◌*ℤ◌ ◌+ℤ◌ in ground arith
