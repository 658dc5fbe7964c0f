-- ===== src/BigInt/Shift/Floor.antt =====
-- `int_rshift` of objects/intobject.c on signed numbers.
use cobj.Prelude.{
  ℕ, zero, suc, ◌+◌, ◌-◌, ◌*◌, ◌/◌, ◌%◌, ◌^◌, ◌≤◌, ◌≡◌, refl, sym, ap, ◌∙◌, arith, List, [], ◌∷◌,
  length, drop,
}
use cobj.Prelude.{true, false, Bool-cases, leb, leb→le, if◌then◌else◌, ◌⊎◌, inl, inr}
use cobj.Prelude.Int.{ℤ, pos, negsuc, ◌+ℤ◌, neg_ℤ, pos_part, neg_part}
use cobj.Prelude.Result.{Result, Exception, ok, raise, value_error, overflow_error, ◌>>=◌}
use native.Mathlib.Nat.{div-div-eq-div-mul, zero-div}
use cobj.BigInt.{IntObject, size, signed, value, IsDigits, IsNormal, to_ℤ}
use cobj.BigInt.Normalize.{int_normalize, normalized_result}
use cobj.BigInt.Long.{IsLong, as_long, from_long}
use cobj.BigInt.Long.RoundTrip.{as_long_lem, from_long_lem}
use cobj.BigInt.Unique.{magnitude}
use cobj.BigInt.Compare.Order.{value-nonzero}
use cobj.BigInt.Arith.{maybe_small_int, int_invert}
use cobj.BigInt.Arith.Laws.{Gives, maybe_small_int_lem, int_invert_lem}
use cobj.BigInt.Divide.Digits.{pow-add}
use cobj.BigInt.Shift.{rshift_digits, rshift_magnitude, int_rshift}
use cobj.BigInt.Shift.Right.{rshift_digits_lem, drop_lem}

-- The quotient rounded towards minus infinity
unfoldable pub floor_div : ℤ → ℕ → ℤ
floor_div (pos m) k = pos (m / k)
floor_div (negsuc m) k = negsuc (m / k)

two_steps : (m n : ℕ) → m / 2 ^ (30 * (n / 30)) / 2 ^ (n % 30) ≡ m / 2 ^ n
two_steps m n =
    let split : 30 * (n / 30) + n % 30 ≡ n = omega arith in
    div-div-eq-div-mul m (2 ^ (30 * (n / 30))) (2 ^ (n % 30))
    ∙ ap (λ k. m / k) (sym (pow-add (30 * (n / 30)) (n % 30)) ∙ ap (λ k. 2 ^ k) split)

shifted_value :
    (n : ℕ) (ds : List ℕ)
    → IsDigits ds
    → let r = rshift_digits (n % 30) (drop (n / 30) ds) in (value r ≡ value ds / 2 ^ n) × IsDigits r
shifted_value n ds d =
    let (v, r) = drop_lem (n / 30) ds d in
    let (w, s) = rshift_digits_lem (n % 30) (drop (n / 30) ds) (omega arith) r in
    (w ∙ ap (λ k. k / 2 ^ (n % 30)) v ∙ two_steps (value ds) n, s)

drop_all : (w : ℕ) (ds : List ℕ) → length ds ≤ w → value (drop w ds) ≡ 0
drop_all zero [] l = refl
drop_all zero (x ∷ ds) l = absurd (omega (arith, l))
drop_all (suc w) [] l = refl
drop_all (suc w) (x ∷ ds) l = drop_all w ds (omega (arith, l))

-- A shift by all digits leaves nothing.
shifted_out : (n : ℕ) (ds : List ℕ) → IsDigits ds → length ds ≤ n / 30 → value ds / 2 ^ n ≡ 0
shifted_out n ds d l =
    let (v, r) = drop_lem (n / 30) ds d in
    sym (two_steps (value ds) n)
    ∙ ap (λ k. k / 2 ^ (n % 30)) (sym v ∙ drop_all (n / 30) ds l)
    ∙ zero-div (2 ^ (n % 30))

rshift_magnitude_lem :
    (a b : IntObject) (n : ℕ)
    → IsDigits a.digits
    → as_long b ≡ ok (pos n)
    → (r : IntObject) × (rshift_magnitude a b ≡ ok r) × Gives (pos (value a.digits / 2 ^ n)) r
unfolding rshift_magnitude
rshift_magnitude_lem a b n d e = elim (Bool-cases (leb (size a) (n / 30))) [
  | inl f ↦
      let none = shifted_out n a.digits d (leb→le _ _ f) in
      let (g, m) = from_long_lem (pos 0) (omega arith) in
      (from_long (pos 0), rw (e, f) refl, (g ∙ ap pos (sym none), m))
  | inr f ↦
      let ds = rshift_digits (n % 30) (drop (n / 30) a.digits) in
      let (g, m) =
        normalized_result false ds (value a.digits / 2 ^ n) (shifted_value n a.digits d) in
      let (h, k) = maybe_small_int_lem (int_normalize (signed false ds)) m in
      (maybe_small_int (int_normalize (signed false ds)), rw (e, f) refl, (h ∙ g, k))
]

inverted : (q : ℕ) → neg_ℤ (pos q +ℤ pos 1) ≡ negsuc q
unfolding neg_ℤ ◌+ℤ◌
inverted q = ground arith

inverted_back : (m : ℕ) → neg_ℤ (negsuc m +ℤ pos 1) ≡ pos m
unfolding neg_ℤ ◌+ℤ◌
inverted_back m = ground arith

abbrev pub ShiftedBy : IntObject → IntObject → ℕ → Type 0
ShiftedBy a b n = (r : IntObject) × (int_rshift a b ≡ ok r) × Gives (floor_div (to_ℤ a) (2 ^ n)) r

-- The magnitude of an object for a number that is not negative
digits_value : (o : IntObject) (m : ℕ) → to_ℤ o ≡ pos m → value o.digits ≡ m
digits_value o m e =
    sym (magnitude o.neg (value o.digits)) ∙ ap (λ z. pos_part z + neg_part z) e ∙ (omega arith)

negative_value : (a : IntObject) → IsNormal a → a.neg ≡ true → (m : ℕ) × (to_ℤ a ≡ negsuc m)
negative_value a na s =
    let some : (length a.digits ≡ 0) → ⊥ = λ e. true_not_false (sym s ∙ na.zero_sign e) in
    let l = value-nonzero a.digits na.top (omega (arith, some)) in
    (value a.digits - 1, rw s (ground (arith, l)))
  where
    true_not_false : true ≡ false → ⊥
    true_not_false e = cc

int_rshift_negative :
    (a b x : IntObject)
    → a.neg ≡ true
    → rshift_magnitude (int_invert a) b ≡ ok x
    → int_rshift a b ≡ ok (maybe_small_int (int_invert x))
unfolding int_rshift
int_rshift_negative a b x s f =
    let twice = λ (r : Result IntObject). r >>= λ y. ok (maybe_small_int (int_invert y)) in
    ap (λ t. if t then twice (rshift_magnitude (int_invert a) b) else rshift_magnitude a b) s
    ∙ ap twice f

int_rshift_nonneg : (a b : IntObject) → a.neg ≡ false → int_rshift a b ≡ rshift_magnitude a b
unfolding int_rshift
int_rshift_nonneg a b s =
    let twice = λ (r : Result IntObject). r >>= λ y. ok (maybe_small_int (int_invert y)) in
    ap (λ t. if t then twice (rshift_magnitude (int_invert a) b) else rshift_magnitude a b) s

int_rshift_pos : (a b : IntObject) (n : ℕ) → IsNormal a → as_long b ≡ ok (pos n) → ShiftedBy a b n
unfolding floor_div
int_rshift_pos a b n na e = elim (Bool-cases a.neg) [
  | inr s ↦
      let (r, f, (g, m)) = rshift_magnitude_lem a b n na.in_range e in
      let z : floor_div (to_ℤ a) (2 ^ n) ≡ pos (value a.digits / 2 ^ n) = rw s refl in
      (r, int_rshift_nonneg a b s ∙ f, (g ∙ sym z, m))
  | inl s ↦
      let (k, z) = negative_value a na s in
      let (i, ni) = int_invert_lem a na in
      let v =
        digits_value (int_invert a) k (i ∙ ap (λ t. neg_ℤ (t +ℤ pos 1)) z ∙ inverted_back k) in
      let (x, f, (g, nx)) = rshift_magnitude_lem (int_invert a) b n ni.in_range e in
      let (j, nj) = int_invert_lem x nx in
      let (h, nh) = maybe_small_int_lem (int_invert x) nj in
      (
        maybe_small_int (int_invert x),
        int_rshift_negative a b x s f,
        (
          h
              ∙ j
              ∙ ap (λ t. neg_ℤ (t +ℤ pos 1)) g
              ∙ inverted (value (int_invert a).digits / 2 ^ n)
              ∙ ap (λ t. negsuc (t / 2 ^ n)) v
              ∙ ap (λ t. floor_div t (2 ^ n)) (sym z),
          nh,
        ),
      )
]

abbrev pub RightShift : IntObject → IntObject → Type 0
RightShift a b =
    (¬ (IsLong (to_ℤ b)) × (int_rshift a b ≡ raise overflow_error))
    ⊎ (((n : ℕ) × (to_ℤ b ≡ negsuc n) × (int_rshift a b ≡ raise value_error))
        ⊎ ((n : ℕ) × (to_ℤ b ≡ pos n) × ShiftedBy a b n))

-- Where both integers are normal, `int_rshift` raises OverflowError if the count is no C long and
-- ValueError if it is negative; with a count `n` that is not negative it succeeds and gives a
-- normal object for the integer divided by 2 ^ n, rounded towards minus infinity, for both signs
-- and also where all digits are shifted out.
pub int_rshift_lem : (a b : IntObject) → IsNormal a → IsNormal b → RightShift a b
unfolding int_rshift rshift_magnitude
int_rshift_lem a b na nb = elim (as_long_lem b nb.in_range) [
  | inr (l, e) ↦ inl (l, failing overflow_error e)
  | inl (l, e) ↦ inr (by_sign (to_ℤ b) refl e)
]
  where
    failing : (x : Exception) → as_long b ≡ raise x → int_rshift a b ≡ raise x
    failing x e = elim (Bool-cases a.neg) [ inl s ↦ rw (s, e) refl | inr s ↦ rw (s, e) refl ]

    negative : (k : ℕ) → as_long b ≡ ok (negsuc k) → int_rshift a b ≡ raise value_error
    negative k e = elim (Bool-cases a.neg) [ inl s ↦ rw (s, e) refl | inr s ↦ rw (s, e) refl ]

    by_sign :
        (v : ℤ)
        → to_ℤ b ≡ v
        → as_long b ≡ ok (to_ℤ b)
        → ((n : ℕ) × (to_ℤ b ≡ negsuc n) × (int_rshift a b ≡ raise value_error))
          ⊎ ((n : ℕ) × (to_ℤ b ≡ pos n) × ShiftedBy a b n)
    by_sign (negsuc n) z e = inl (n, z, negative n (e ∙ ap ok z))
    by_sign (pos n) z e = inr (n, z, int_rshift_pos a b n na (e ∙ ap ok z))
