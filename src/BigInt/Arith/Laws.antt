-- ===== src/BigInt/Arith/Laws.antt =====
-- `int_add`, `int_sub`, `int_neg` and `int_invert` of objects/intobject.c, and the integers.
use cobj.Prelude.{ℕ, ◌+◌, ◌<◌, ◌≤◌, ◌≡◌, arith, refl, ap, ◌∙◌, inl, inr}
use cobj.Prelude.{Bool, true, false, ◌&&◌, if◌then◌else◌, leb, ◌==◌, Bool-cases, List, [], ◌∷◌}
use cobj.Prelude.{length}
use cobj.Prelude.Int.{ℤ, pos, sub_ℕ, ◌+ℤ◌, ◌-ℤ◌, neg_ℤ, ltb_ℤ, leb_ℤ}
use cobj.BigInt.{IntObject, size, value, base, IsDigits, IsNormal, to_ℤ}
use cobj.BigInt.Normalize.{negate, to_ℤ-negate, negate-IsNormal}
use cobj.BigInt.Magnitude.{x_add, x_sub}
use cobj.BigInt.Magnitude.Add.{x_add_lem}
use cobj.BigInt.Magnitude.Subtract.{x_sub_lem}
use cobj.BigInt.Long.{from_long, onedigit, IsLong}
use cobj.BigInt.Long.RoundTrip.{from_long_lem, onedigit_lem}
use cobj.BigInt.Arith.{small_operands, negate_nonzero}
use cobj.BigInt.Arith.{add_ints, sub_ints, maybe_small_int, int_copy}
use cobj.BigInt.Arith.{int_neg, int_invert}

-- What an operation promises of its result `r`: the integer `v`, in normal form.
abbrev pub Gives : ℤ → IntObject → Type 0
Gives v r = (to_ℤ r ≡ v) × IsNormal r

small_bound : (ds : List ℕ) → length ds ≤ 1 → IsDigits ds → value ds < base
small_bound [] h r = omega arith
small_bound (d ∷ []) h (rd, r) = omega arith
small_bound (d ∷ e ∷ ds) h r = absurd (omega arith)

pub negate_lem : (o : IntObject) (v : ℤ) → Gives v o → Gives (neg_ℤ v) (negate o)
unfolding neg_ℤ
negate_lem o v (e, n) = (to_ℤ-negate o ∙ ground arith, negate-IsNormal o n)

pub zero_value : (ds : List ℕ) → length ds ≡ 0 → value ds ≡ 0
zero_value [] h = refl
zero_value (d ∷ ds) h = absurd (omega arith)

negate_nonzero_lem : (o : IntObject) (v : ℤ) → Gives v o → Gives (neg_ℤ v) (negate_nonzero o)
unfolding negate_nonzero
negate_nonzero_lem o v (e, n) = elim (Bool-cases (size o == 0)) [
  | inl z ↦ let z' = zero_value o.digits (ground arith) in rw z (unfold neg_ℤ in ground arith, n)
  | inr z ↦ rw z (negate_lem o v (e, n))
]

-- The small case of a sum or a difference: a C long takes it.
small_result :
    (a b : IntObject) (v : ℤ)
    → IsNormal a
    → IsNormal b
    → small_operands a b ≡ true
    → (value a.digits < base → value b.digits < base → IsLong v)
    → Gives v (from_long v)
small_result a b v na nb s f =
    from_long_lem v
      (f (small_bound _ (ground arith) na.in_range) (small_bound _ (ground arith) nb.in_range))

x_add-Gives :
    (a b : IntObject) (v : ℤ)
    → IsNormal a
    → IsNormal b
    → pos (value a.digits + value b.digits) ≡ v
    → Gives v (x_add a b)
x_add-Gives a b v na nb h = let (e, n) = x_add_lem a b na.in_range nb.in_range in (e ∙ h, n)

x_sub-Gives :
    (a b : IntObject) (v : ℤ)
    → IsNormal a
    → IsNormal b
    → sub_ℕ (value a.digits) (value b.digits) ≡ v
    → Gives v (x_sub a b)
x_sub-Gives a b v na nb h = let (e, n) = x_sub_lem a b na nb in (e ∙ h, n)

neg-pos : (n : ℕ) → neg_ℤ (pos n) ≡ sub_ℕ 0 n
unfolding neg_ℤ
neg-pos n = refl

neg-sub_ℕ : (m n : ℕ) → neg_ℤ (sub_ℕ m n) ≡ sub_ℕ n m
unfolding neg_ℤ
neg-sub_ℕ m n = ground arith

module _ (a b : IntObject) (na : IsNormal a) (nb : IsNormal b) where
  x_add_neg :
      (v : ℤ) → sub_ℕ 0 (value a.digits + value b.digits) ≡ v → Gives v (negate_nonzero (x_add a b))
  x_add_neg v h =
      let (e, n) = negate_nonzero_lem _ _ (x_add-Gives a b _ na nb refl) in (e ∙ neg-pos _ ∙ h, n)

  x_sub_neg :
      (v : ℤ) → sub_ℕ (value b.digits) (value a.digits) ≡ v → Gives v (negate_nonzero (x_sub a b))
  x_sub_neg v h =
      let (e, n) = negate_nonzero_lem _ _ (x_sub-Gives a b _ na nb refl) in
      (e ∙ neg-sub_ℕ _ _ ∙ h, n)

  add_signs :
      (s t : Bool)
      → a.neg ≡ s
      → b.neg ≡ t
      → Gives (to_ℤ a +ℤ to_ℤ b) (
          if s
          then (if t then negate_nonzero (x_add a b) else x_sub b a)
          else if t
          then x_sub a b
          else x_add a b)
  unfolding ◌+ℤ◌
  add_signs true true x y = x_add_neg _ (ground arith)
  add_signs true false x y = x_sub-Gives b a _ nb na (ground arith)
  add_signs false true x y = x_sub-Gives a b _ na nb (ground arith)
  add_signs false false x y = x_add-Gives a b _ na nb (ground arith)

  sub_signs :
      (s t : Bool)
      → a.neg ≡ s
      → b.neg ≡ t
      → Gives (to_ℤ a -ℤ to_ℤ b) (
          if s
          then negate_nonzero (if t then x_sub a b else x_add a b)
          else if t
          then x_add a b
          else x_sub a b)
  unfolding ◌-ℤ◌
  sub_signs true true x y = x_sub_neg _ (ground arith)
  sub_signs true false x y = x_add_neg _ (ground arith)
  sub_signs false true x y = x_add-Gives a b _ na nb (ground arith)
  sub_signs false false x y = x_sub-Gives a b _ na nb (ground arith)

  -- Where `a` and `b` are normal, the object that `int_add` makes of them stands for the sum of
  -- the two integers and is normal.
  pub add_ints_lem : Gives (to_ℤ a +ℤ to_ℤ b) (add_ints a b)
  unfolding add_ints
  add_ints_lem = elim (Bool-cases (small_operands a b)) [
    | inl s ↦
        rw (s, onedigit_lem a (ground arith), onedigit_lem b (ground arith))
          (small_result a b _ na nb s (λ p q. unfold ◌+ℤ◌ in ground arith))
    | inr s ↦ rw s (add_signs a.neg b.neg refl refl)
  ]

  -- Where `a` and `b` are normal, the object that `int_sub` makes of them stands for the
  -- difference of the two integers and is normal.
  pub sub_ints_lem : Gives (to_ℤ a -ℤ to_ℤ b) (sub_ints a b)
  unfolding sub_ints
  sub_ints_lem = elim (Bool-cases (small_operands a b)) [
    | inl s ↦
        rw (s, onedigit_lem a (ground arith), onedigit_lem b (ground arith))
          (small_result a b _ na nb s (λ p q. unfold ◌-ℤ◌ in ground arith))
    | inr s ↦ rw s (sub_signs a.neg b.neg refl refl)
  ]

one_IsLong : IsLong (pos 1)
one_IsLong = omega arith

-- An object of more than one digit is copied as it is.
int_copy_long : (o : IntObject) → leb (size o) 1 ≡ false → int_copy o ≡ o
unfolding int_copy
int_copy_long o h = ground arith

module _ (o : IntObject) (n : IsNormal o) where
  pub maybe_small_int_lem : Gives (to_ℤ o) (maybe_small_int o)
  unfolding maybe_small_int
  maybe_small_int_lem =
      elim (Bool-cases
        (leb (size o) 1 && (leb_ℤ (neg_ℤ (pos 10)) (onedigit o) && ltb_ℤ (onedigit o) (pos 257)))) [
          | inl s ↦
              let v : value o.digits < base = small_bound _ (ground arith) n.in_range in
              rw (s, onedigit_lem o (ground arith)) (from_long_lem (to_ℤ o) (ground arith))
          | inr s ↦ rw s (refl, n)
        ]

module _ (o : IntObject) (n : IsNormal o) where
  -- Where `o` is normal, `int_neg` gives a normal object for the opposite of the integer.
  pub int_neg_lem : Gives (neg_ℤ (to_ℤ o)) (int_neg o)
  unfolding int_neg
  int_neg_lem = elim (Bool-cases (leb (size o) 1)) [
    | inl s ↦
        let v : value o.digits < base = small_bound _ (ground arith) n.in_range in
        rw (s, onedigit_lem o (ground arith))
          (from_long_lem (neg_ℤ (to_ℤ o)) (unfold neg_ℤ in ground arith))
    | inr s ↦ rw (s, int_copy_long o s) (negate_lem o _ (refl, n))
  ]

  -- Where `o` is normal, `int_invert` gives a normal object for -(x + 1), with `x` the integer
  -- that `o` stands for.
  pub int_invert_lem : Gives (neg_ℤ (to_ℤ o +ℤ pos 1)) (int_invert o)
  unfolding int_invert
  int_invert_lem = elim (Bool-cases (leb (size o) 1)) [
    | inl s ↦
        let v : value o.digits < base = small_bound _ (ground arith) n.in_range in
        rw (s, onedigit_lem o (ground arith))
          (from_long_lem (neg_ℤ (to_ℤ o +ℤ pos 1)) (unfold neg_ℤ ◌+ℤ◌ in ground arith))
    | inr s ↦ rw s long
  ]
    where
      long :
          Gives
            (neg_ℤ (to_ℤ o +ℤ pos 1))
            (maybe_small_int (negate (add_ints o (from_long (pos 1)))))
      long =
          let (e1, n1) = from_long_lem (pos 1) one_IsLong in
          let (e2, n2) = add_ints_lem o (from_long (pos 1)) n n1 in
          let (e3, n3) = negate_lem (add_ints o (from_long (pos 1))) _ (e2, n2) in
          let (e4, n4) = maybe_small_int_lem _ n3 in
          (e4 ∙ e3 ∙ ap (λ v. neg_ℤ (to_ℤ o +ℤ v)) e1, n4)
