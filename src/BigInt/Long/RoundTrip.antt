-- ===== src/BigInt/Long/RoundTrip.antt =====
-- `COInt_FromLong` and `COInt_AsLong` of objects/intobject.c.
use cobj.Prelude.{ℕ, zero, suc, ◌+◌, ◌*◌, ◌/◌, ◌%◌, ◌^◌, ◌<◌, ◌≤◌, ◌≡◌, arith, refl, ap, ◌∙◌}
use native.Mathlib.Nat.{pow-suc}
use native.Mathlib.Decide.{dec_lt}
use cobj.Prelude.{List, [], ◌∷◌, length, ◌≢◌, ◌⊎◌, inl, inr}
use cobj.Prelude.{Bool, true, false, ◌&&◌, if◌then◌else◌, leb, ◌==◌, Bool-cases}
use cobj.Prelude.Int.{ℤ, pos, negsuc, ltb_ℤ, leb_ℤ}
use cobj.Prelude.Result.{Result, ok, raise, overflow_error}
use cobj.BigInt.{IntObject, size, signed, base, value, IsDigit, IsDigits, HasTop, IsNormal}
use cobj.BigInt.{to_ℤ, signed_ℤ}
use cobj.BigInt.Normalize.{to_ℤ-signed, signed-IsNormal}
use cobj.BigInt.Long.{IsLong, small_int, split_digits, from_long, accumulate}
use cobj.BigInt.Long.{to_long, onedigit, onedigit_of, as_long, new_long, abs_long}

HasTop-cons : (d : ℕ) (ds : List ℕ) → d + base * value ds ≢ 0 → HasTop ds → HasTop (d ∷ ds)
HasTop-cons d [] n h = omega arith
HasTop-cons d (e ∷ ds) n h = h

-- Splitting gives the digits of a number that fits, with no leading zero.
split_digits_lem :
    (fuel t : ℕ)
    → t < base ^ fuel
    → (value (split_digits fuel t) ≡ t)
      × IsDigits (split_digits fuel t)
      × HasTop (split_digits fuel t)
unfolding split_digits
split_digits_lem zero t h = (omega arith, tt, tt)
split_digits_lem (suc fuel) t h =
    let (v, r, p) = split_digits_lem fuel (t / base) (omega (arith, pow-suc base fuel)) in
    elim (Bool-cases (t == 0)) [
      | inl e ↦ rw e (ground arith, tt, tt)
      | inr e ↦
          let n : t ≢ 0 = ground arith in
          rw e (
            omega (arith, v),
            (omega arith, r),
            HasTop-cons (t % base) (split_digits fuel (t / base)) (omega (arith, v)) p,
          )
    ]

-- An object of one digit that is not zero, or of the digits that a split gives.
one_digit-IsNormal :
    (s : Bool) (t : ℕ)
    → t < base
    → t ≢ 0
    → (to_ℤ (signed s (t ∷ [])) ≡ signed_ℤ s t) × IsNormal (signed s (t ∷ []))
one_digit-IsNormal s t h n =
    (ap (signed_ℤ s) (omega arith), signed-IsNormal s (t ∷ []) (omega arith) (omega arith))

split-IsNormal :
    (s : Bool) (t : ℕ)
    → t < 2 ^ 64
    → (to_ℤ (signed s (split_digits 3 t)) ≡ signed_ℤ s t) × IsNormal (signed s (split_digits 3 t))
split-IsNormal s t h =
    let (v, r, p) = split_digits_lem 3 t (omega arith) in
    (to_ℤ-signed s _ ∙ ap (signed_ℤ s) v, signed-IsNormal s _ r p)

small_int_lem :
    (v : ℤ)
    → (leb_ℤ (negsuc 9) v && ltb_ℤ v (pos 257)) ≡ true
    → (to_ℤ (small_int v) ≡ v) × IsNormal (small_int v)
unfolding small_int
small_int_lem (pos zero) h = (refl, record { in_range = tt; top = tt; zero_sign = λ e. refl })
small_int_lem (pos (suc n)) h = one_digit-IsNormal false (suc n) (ground arith) (ground arith)
small_int_lem (negsuc n) h =
    let (v, r) = one_digit-IsNormal true (suc n) (ground arith) (ground arith) in
    (v ∙ ground arith, r)

abs_long_lem :
    (v : ℤ) → IsLong v → (signed_ℤ (ltb_ℤ v (pos 0)) (abs_long v) ≡ v) × (abs_long v < 2 ^ 64)
unfolding abs_long
abs_long_lem (pos n) h = (ground arith, ground arith)
abs_long_lem (negsuc n) h = (ground arith, ground arith)

new_long_lem :
    (s : Bool) (t : ℕ)
    → t < 2 ^ 64
    → t ≢ 0
    → (to_ℤ (new_long s t) ≡ signed_ℤ s t) × IsNormal (new_long s t)
unfolding new_long
new_long_lem s t h n = elim (Bool-cases (t / base == 0)) [
  | inl e ↦ rw e (one_digit-IsNormal s t (ground arith) n)
  | inr e ↦ rw e (split-IsNormal s t h)
]

-- Zero is a small integer.
not_small : (v : ℤ) → (leb_ℤ (negsuc 9) v && ltb_ℤ v (pos 257)) ≡ false → IsLong v → abs_long v ≢ 0
unfolding abs_long
not_small (pos n) h = λ l. ground arith
not_small (negsuc n) h = λ l. ground arith

-- For every value in the range of a C long COInt_FromLong gives a normal object that stands for
-- the value, whether it is taken from the table of small integers, has one digit, or has more.
pub from_long_lem : (v : ℤ) → IsLong v → (to_ℤ (from_long v) ≡ v) × IsNormal (from_long v)
unfolding from_long
from_long_lem v h =
    let (e, l) = abs_long_lem v h in
    elim (Bool-cases (leb_ℤ (negsuc 9) v && ltb_ℤ v (pos 257))) [
      | inl s ↦ rw s (small_int_lem v s)
      | inr s ↦
          let (p, n) = new_long_lem (ltb_ℤ v (pos 0)) (abs_long v) l (not_small v s h) in
          rw s (p ∙ e, n)
    ]

-- One round: the shifted number keeps its bits exactly if it stays below 2 ^ 64.
abbrev round : ℕ → ℕ → Result ℕ
round d p =
    let accum = p * base % 2 ^ 64 + d in
    if accum / base == p then ok accum else raise overflow_error

round_fits : (d p : ℕ) → IsDigit d → p < 2 ^ 34 → round d p ≡ ok (d + base * p)
round_fits d p h l = ground arith

round_overflows : (d p : ℕ) → IsDigit d → 2 ^ 34 ≤ p → round d p ≡ raise overflow_error
round_overflows d p h l = ground arith

-- The loop of `COInt_AsLong` gives the magnitude, and fails exactly where 64 bits cannot hold it.
accumulate_lem :
    (ds : List ℕ)
    → IsDigits ds
    → ((value ds < 2 ^ 64) × (accumulate ds ≡ ok (value ds)))
      ⊎ ((2 ^ 64 ≤ value ds) × (accumulate ds ≡ raise overflow_error))
unfolding accumulate
accumulate_lem [] r = inl (omega arith, refl)
accumulate_lem (d ∷ ds) (rd, r) = elim (accumulate_lem ds r) [
  | inl (h, e) ↦ rw e (elim (dec_lt (value ds) (2 ^ 34)) [
    | yes l ↦ inl (omega arith, round_fits d (value ds) rd l)
    | no l ↦ inr (omega arith, round_overflows d (value ds) rd (omega arith))
  ])
  | inr (h, e) ↦ rw e (inr (omega arith, refl))
]

to_long_lem :
    (s : Bool) (n : ℕ)
    → (IsLong (signed_ℤ s n) × (to_long s n ≡ ok (signed_ℤ s n)))
      ⊎ (¬ (IsLong (signed_ℤ s n)) × (to_long s n ≡ raise overflow_error))
unfolding to_long
to_long_lem true n = elim (dec_lt (2 ^ 63) n) [
  | yes l ↦ inr (ground arith, ground arith)
  | no l ↦ inl (ground arith, ground arith)
]
to_long_lem false n = elim (dec_lt n (2 ^ 63)) [
  | yes l ↦ inl (ground arith, ground arith)
  | no l ↦ inr (ground arith, ground arith)
]

-- What `COInt_AsLong` promises for the integer `v` on its result `r`.
abbrev Converts : ℤ → Result ℤ → Type 0
Converts v r = (IsLong v × (r ≡ ok v)) ⊎ (¬ (IsLong v) × (r ≡ raise overflow_error))

Converts-digits :
    (s : Bool) (ds : List ℕ)
    → IsDigits ds
    → Converts (signed_ℤ s (value ds)) (as_long (record { neg = s; digits = ds }))
unfolding as_long onedigit onedigit_of
Converts-digits true [] r = inl (ground arith, ground arith)
Converts-digits false [] r = inl (ground arith, ground arith)
Converts-digits true (d ∷ []) r = inl (ground arith, ground arith)
Converts-digits false (d ∷ []) r = inl (ground arith, ground arith)
Converts-digits s (d ∷ e ∷ ds) r =
    let m : leb (length (d ∷ e ∷ ds)) 1 ≡ false = ground arith in
    rw m (elim (accumulate_lem (d ∷ e ∷ ds) r) [
      | inl (h, e') ↦ rw e' (to_long_lem s (value (d ∷ e ∷ ds)))
      | inr (h, e') ↦ rw e' (inr (ground arith, refl))
    ])

-- Where the digits are below 2 ^ 30, COInt_AsLong gives the integer that the object stands for if
-- a C long holds it, and raises OverflowError if not.
pub as_long_lem :
    (o : IntObject)
    → IsDigits o.digits
    → (IsLong (to_ℤ o) × (as_long o ≡ ok (to_ℤ o)))
      ⊎ (¬ (IsLong (to_ℤ o)) × (as_long o ≡ raise overflow_error))
as_long_lem o r = Converts-digits o.neg o.digits r

-- A value in the range of a C long that goes through COInt_FromLong and then COInt_AsLong comes
-- back as it was.
pub as_long-from_long : (v : ℤ) → IsLong v → as_long (from_long v) ≡ ok v
as_long-from_long v h =
    let (e, n) = from_long_lem v h in
    elim (as_long_lem (from_long v) n.in_range) [
      | inl (l, f) ↦ f ∙ ap ok e
      | inr (l, f) ↦ absurd (l (rw e h))
    ]

onedigit_of_lem :
    (s : Bool) (ds : List ℕ) → length ds ≤ 1 → onedigit_of s ds ≡ signed_ℤ s (value ds)
unfolding onedigit_of
onedigit_of_lem true [] h = ground arith
onedigit_of_lem false [] h = ground arith
onedigit_of_lem s (d ∷ []) h = ground arith
onedigit_of_lem s (d ∷ e ∷ ds) h = absurd (omega arith)

-- The value of an object of at most one digit.
pub onedigit_lem : (o : IntObject) → size o ≤ 1 → onedigit o ≡ to_ℤ o
unfolding onedigit
onedigit_lem o h = onedigit_of_lem o.neg o.digits h
