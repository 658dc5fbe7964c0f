-- ===== src/BigInt/Shift/Left.antt =====
-- `int_lshift` of objects/intobject.c as a product with a power of 2.
use cobj.Prelude.{
  ℕ, zero, suc, ◌+◌, ◌-◌, ◌*◌, ◌/◌, ◌^◌, ◌≤◌, ◌<◌, ◌≡◌, refl, sym, ap, subst, ◌∙◌, arith, List, [],
  ◌∷◌, ◌++◌, replicate,
}
use cobj.Prelude.{Bool, true, false, Bool-cases, ◌==◌, ==_iff, ◌⊎◌, inl, inr}
use cobj.Prelude.Int.{ℤ, pos, negsuc, ◌*ℤ◌, neg_ℤ}
use cobj.Prelude.Result.{ok, raise, value_error, overflow_error}
use native.Mathlib.Nat.{pow-le-pow_right}
use cobj.BigInt.{IntObject, value, signed, base, IsDigits, IsNormal, to_ℤ, signed_ℤ}
use cobj.BigInt.Normalize.{int_normalize, normalized_result}
use cobj.BigInt.Long.{IsLong, as_long}
use cobj.BigInt.Long.RoundTrip.{as_long_lem}
use cobj.BigInt.Arith.{maybe_small_int}
use cobj.BigInt.Arith.Laws.{Gives, maybe_small_int_lem}
use cobj.BigInt.Multiply.Laws.{product_sign}
use cobj.BigInt.Divide.{lshift_loop}
use cobj.BigInt.Divide.Digits.{lshift_loop-Shifted, pow-add}
use cobj.BigInt.Divide.Laws.{value-append}
use cobj.BigInt.Shift.{shifted_digits, int_lshift}

IsDigits-append : (xs ys : List ℕ) → IsDigits xs → IsDigits ys → IsDigits (xs ++ ys)
IsDigits-append [] ys h k = k
IsDigits-append (x ∷ xs) ys (d, h) k = (d, IsDigits-append xs ys h k)

-- Zeros below the digits are a product with a power of the base.
zeros_lem :
    (w : ℕ) (ds : List ℕ)
    → IsDigits ds
    → (value (replicate w 0 ++ ds) ≡ value ds * 2 ^ (30 * w)) × IsDigits (replicate w 0 ++ ds)
zeros_lem zero ds r =
    let e : 30 * 0 ≡ 0 = omega arith in
    (subst (λ k. value ds ≡ value ds * 2 ^ k) (sym e) (omega arith), r)
zeros_lem (suc w) ds r =
    let (v, d) = zeros_lem w ds r in
    let n : 30 * suc w ≡ 30 + 30 * w = omega arith in
    let p = pow-add 30 (30 * w) in
    let q = ap (λ k. base * k) v in
    let f : base * (value ds * 2 ^ (30 * w)) ≡ value ds * (base * 2 ^ (30 * w)) = grind arith in
    let g = ap (λ k. value ds * k) (sym p ∙ ap (λ k. 2 ^ k) (sym n)) in
    (omega (arith, q, f, g), (omega arith, d))

shifted_digits_lem :
    (rem : ℕ) (ds : List ℕ)
    → rem < 30
    → IsDigits ds
    → (r : List ℕ) × (shifted_digits rem (lshift_loop (2 ^ rem) ds 0) ≡ ok r)
      × (value r ≡ value ds * 2 ^ rem)
      × IsDigits r
shifted_digits_lem rem ds h d =
    let le : rem ≤ 30 = omega (arith, h) in
    let p : 2 ^ rem ≤ base = pow-le-pow_right {n = 2} (omega arith) le in
    let least : 0 ≤ rem = omega arith in
    let positive : 1 ≤ 2 ^ rem = pow-le-pow_right {n = 2} (omega arith) least in
    let s = lshift_loop-Shifted (2 ^ rem) ds 0 p (omega (arith, positive)) d in
    let z = lshift_loop (2 ^ rem) ds 0 in
    elim (Bool-cases (rem == 0)) [
      | inr e ↦ (
        z.0 ++ z.1 ∷ [],
        rw e refl,
        omega (arith, s.exact),
        IsDigits-append z.0 (z.1 ∷ []) s.in_range (omega (arith, s.small, p), tt),
      )
      | inl e ↦
          let one : 2 ^ rem ≡ 1 = ap (λ k. 2 ^ k) ((==_iff rem 0).0 e) in
          let nothing : z.1 ≡ 0 = omega (arith, s.small, one) in
          let none : (z.1 == 0) ≡ true = (==_iff z.1 0).1 nothing in
          let top = ap (λ k. value (z.0 ++ k ∷ [])) nothing in
          let without = value-append z.0 (0 ∷ []) in
          (z.0, rw (e, none) refl, omega (arith, s.exact, top, without), s.in_range)
    ]

product : (a b c : ℕ) → a * b * c ≡ a * (b * c)
product a b c = grind arith

lshift_magnitude :
    (s : Bool) (n v : ℕ) (ds : List ℕ)
    → value ds ≡ v * 2 ^ (n - n / 30 * 30)
    → IsDigits ds
    → Gives
        (signed_ℤ s (v * 2 ^ n))
        (maybe_small_int (int_normalize (signed s (replicate (n / 30) 0 ++ ds))))
lshift_magnitude s n v ds e d =
    let (x, y) = zeros_lem (n / 30) ds d in
    let split : n - n / 30 * 30 + 30 * (n / 30) ≡ n = omega arith in
    let whole : value (replicate (n / 30) 0 ++ ds) ≡ v * 2 ^ n =
      x
      ∙ ap (λ k. k * 2 ^ (30 * (n / 30))) e
      ∙ product v (2 ^ (n - n / 30 * 30)) (2 ^ (30 * (n / 30)))
      ∙ ap (λ k. v * k) (sym (pow-add (n - n / 30 * 30) (30 * (n / 30))) ∙ ap (λ k. 2 ^ k) split) in
    let (g, m) = normalized_result s (replicate (n / 30) 0 ++ ds) (v * 2 ^ n) (whole, y) in
    let (f, k) = maybe_small_int_lem _ m in (f ∙ g, k)

scaled : (s : Bool) (m n : ℕ) → signed_ℤ s (m * n) ≡ signed_ℤ s m *ℤ pos n
unfolding neg_ℤ
scaled true m n = product_sign true false m n
scaled false m n = product_sign false false m n

abbrev pub LeftShift : IntObject → IntObject → Type 0
LeftShift a b =
    (¬ (IsLong (to_ℤ b)) × (int_lshift a b ≡ raise overflow_error))
    ⊎ (((n : ℕ) × (to_ℤ b ≡ negsuc n) × (int_lshift a b ≡ raise value_error))
        ⊎ ((n : ℕ) × (to_ℤ b ≡ pos n)
            × ((r : IntObject) × (int_lshift a b ≡ ok r) × Gives (to_ℤ a *ℤ pos (2 ^ n)) r)))

int_lshift_pos :
    (a b : IntObject) (n : ℕ)
    → IsNormal a
    → as_long b ≡ ok (pos n)
    → (r : IntObject) × (int_lshift a b ≡ ok r) × Gives (to_ℤ a *ℤ pos (2 ^ n)) r
int_lshift_pos a b n na e =
    let (ds, f, v, d) = shifted_digits_lem (n - n / 30 * 30) a.digits (omega arith) na.in_range in
    let (g, m) = lshift_magnitude a.neg n (value a.digits) ds v d in
    (
      maybe_small_int (int_normalize (signed a.neg (replicate (n / 30) 0 ++ ds))),
      (unfold int_lshift in rw (e, f) refl),
      (g ∙ scaled a.neg (value a.digits) (2 ^ n), m),
    )

-- Where both integers are normal, `int_lshift` raises OverflowError if the count is no C long and
-- ValueError if it is negative; with a count `n` that is not negative it succeeds, with its
-- assertion, and gives a normal object for the integer times 2 ^ n.
pub int_lshift_lem : (a b : IntObject) → IsNormal a → IsNormal b → LeftShift a b
unfolding int_lshift
int_lshift_lem a b na nb = elim (as_long_lem b nb.in_range) [
  | inr (l, e) ↦ inl (l, rw e refl)
  | inl (l, e) ↦ inr (by_sign (to_ℤ b) refl e)
]
  where
    by_sign :
        (v : ℤ)
        → to_ℤ b ≡ v
        → as_long b ≡ ok (to_ℤ b)
        → ((n : ℕ) × (to_ℤ b ≡ negsuc n) × (int_lshift a b ≡ raise value_error))
          ⊎ ((n : ℕ) × (to_ℤ b ≡ pos n)
              × ((r : IntObject) × (int_lshift a b ≡ ok r) × Gives (to_ℤ a *ℤ pos (2 ^ n)) r))
    by_sign (negsuc n) z e = inl (n, z, rw (e ∙ ap ok z) refl)
    by_sign (pos n) z e = inr (n, z, int_lshift_pos a b n na (e ∙ ap ok z))
