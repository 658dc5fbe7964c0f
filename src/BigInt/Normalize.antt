-- ===== src/BigInt/Normalize.antt =====
-- `int_normalize` and `NEGATE` of objects/intobject.c.
use cobj.Prelude.{ℕ, zero, suc, ◌≤◌, ◌≡◌, refl, ap, ◌∙◌, arith, inl, inr}
use cobj.Prelude.{Bool, true, false, not, List, [], ◌∷◌, length, take, get_or, All-take}
use cobj.Prelude.{if◌then◌else◌, ◌==◌, ==_iff, Bool-cases, take-length}
use cobj.BigInt.{
  IntObject, size, signed, value, IsDigit, IsDigits, HasTop, IsNormal, to_ℤ, signed_ℤ,
}

-- `while (i > 0 && o->co_digit[i - 1] == 0) --i;`
top_index : ℕ → List ℕ → ℕ
top_index zero ds = 0
top_index (suc i) ds = let rest = top_index i ds in if get_or ds i 0 == 0 then rest else suc i

pub int_normalize : IntObject → IntObject
int_normalize o =
    let i = top_index (size o) o.digits in if i == size o then o else signed o.neg (take i o.digits)

-- `CO_SIZE(x) = -CO_SIZE(x)`: the branch of NEGATE for an object that is not shared. A shared
-- object is a small integer, and the other branch makes one of the opposite value.
unfoldable pub negate : IntObject → IntObject
negate o = signed (not o.neg) o.digits

-- The loop on a number with one more digit at the low end.
top_index-cons :
    (i d : ℕ) (ds : List ℕ)
    → top_index (suc i) (d ∷ ds)
      ≡ (if top_index i ds == 0 then (if d == 0 then 0 else 1) else suc (top_index i ds))
unfolding top_index
top_index-cons zero d ds = ground arith
top_index-cons (suc i) d ds = ground (arith, top_index-cons i d ds)

top_index-value : (ds : List ℕ) → value (take (top_index (length ds) ds) ds) ≡ value ds
top_index-value [] = unfold top_index in refl
top_index-value (d ∷ ds) = rw top_index-cons (ground (arith, top_index-value ds))

top_index-le : (i : ℕ) (ds : List ℕ) → top_index i ds ≤ i
unfolding top_index
top_index-le zero ds = omega arith
top_index-le (suc i) ds = ground (arith, top_index-le i ds)

HasTop-cons :
    (t d : ℕ) (ds : List ℕ)
    → t ≤ length ds
    → HasTop (take t ds)
    → HasTop (take (if t == 0 then (if d == 0 then 0 else 1) else suc t) (d ∷ ds))
HasTop-cons zero d ds le h = elim (Bool-cases (d == 0)) [
  | inl e ↦ rw e tt
  | inr e ↦ rw e (ground arith)
]
HasTop-cons (suc t) d [] le h = absurd (omega arith)
HasTop-cons (suc t) d (e ∷ ds) le h = let e' : (suc t == 0) ≡ false = ground arith in rw e' h

top_index-HasTop : (ds : List ℕ) → HasTop (take (top_index (length ds) ds) ds)
top_index-HasTop [] = unfold top_index in tt
top_index-HasTop (d ∷ ds) =
    rw top_index-cons (HasTop-cons _ d ds (top_index-le _ ds) (top_index-HasTop ds))

-- What `int_normalize` leaves: the same sign and number, in normal form.
pub record Normalized (o r : IntObject) : Type 0 where
  pub same : to_ℤ r ≡ to_ℤ o
  pub digits_value : value r.digits ≡ value o.digits
  pub normal : IsNormal r

value-signed : (s : Bool) (ds : List ℕ) → value (signed s ds).digits ≡ value ds
value-signed s [] = refl
value-signed s (d ∷ ds) = refl

pub to_ℤ-signed : (s : Bool) (ds : List ℕ) → to_ℤ (signed s ds) ≡ signed_ℤ s (value ds)
to_ℤ-signed true [] = refl
to_ℤ-signed false [] = refl
to_ℤ-signed s (d ∷ ds) = refl

pub signed-IsNormal : (s : Bool) (ds : List ℕ) → IsDigits ds → HasTop ds → IsNormal (signed s ds)
signed-IsNormal s [] r t = record { in_range = tt; top = tt; zero_sign = λ e. refl }
signed-IsNormal s (d ∷ ds) r t = record {
  in_range = r;
  top = t;
  zero_sign = λ e. absurd (omega arith);
}

digits-signed : (s : Bool) (ds : List ℕ) → (signed s ds).digits ≡ ds
digits-signed s [] = refl
digits-signed s (d ∷ ds) = refl

-- Normalising is cutting off the leading zeros.
int_normalize-take :
    (s : Bool) (ds : List ℕ)
    → int_normalize (signed s ds) ≡ signed s (take (top_index (length ds) ds) ds)
unfolding int_normalize
int_normalize-take s [] = unfold top_index in refl
int_normalize-take s (d ∷ ds) =
    let i = top_index (suc (length ds)) (d ∷ ds) in
    elim (Bool-cases (i == suc (length ds))) [
      | inl e ↦ rw e (rw ((==_iff i _).0 e) (rw take-length refl))
      | inr e ↦ rw e refl
    ]

-- Removing the leading zeros keeps the number and gives the normal form.
pub int_normalize-Normalized :
    (s : Bool) (ds : List ℕ) → IsDigits ds → Normalized (signed s ds) (int_normalize (signed s ds))
int_normalize-Normalized s ds r =
    let i = top_index (length ds) ds in
    rw int_normalize-take record {
      same = rw (to_ℤ-signed s ds, to_ℤ-signed s (take i ds), top_index-value ds) refl;
      digits_value = rw (value-signed s ds, value-signed s (take i ds)) (top_index-value ds);
      normal = signed-IsNormal s _ (All-take IsDigit i ds r) (top_index-HasTop ds);
    }

-- A result is normalised with the sign and the number that its digits have.
pub normalized_result :
    (s : Bool) (ds : List ℕ) (n : ℕ)
    → (value ds ≡ n) × IsDigits ds
    → let r = int_normalize (signed s ds) in (to_ℤ r ≡ signed_ℤ s n) × IsNormal r
normalized_result s ds n (v, r) =
    let z = int_normalize-Normalized s ds r in
    (z.same ∙ to_ℤ-signed s ds ∙ ap (signed_ℤ s) v, z.normal)

-- Negation of the number that an object stands for; the normal form stays.
pub to_ℤ-negate : (o : IntObject) → to_ℤ (negate o) ≡ signed_ℤ (not o.neg) (value o.digits)
unfolding negate
to_ℤ-negate o = to_ℤ-signed (not o.neg) o.digits

pub negate-IsNormal : (o : IntObject) → IsNormal o → IsNormal (negate o)
unfolding negate
negate-IsNormal o n = signed-IsNormal (not o.neg) o.digits n.in_range n.top
