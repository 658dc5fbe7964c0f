-- ===== src/StrObject/Compare/Order.antt =====
-- `str_compare` of objects/strobject.c against the lexicographic order of bytes.
use cobj.Prelude.{ℕ, zero, suc, ◌%◌, ◌<◌, ◌≡◌, refl, sym, ap, ◌∙◌, arith, List, [], ◌∷◌, length}
use cobj.Prelude.{
  Bool, true, false, Bool-cases, ◌&&◌, if◌then◌else◌, ltb, ◌==◌, Option, none, some, inl, inr,
}
use cobj.Prelude.Int.{ℤ, pos, negsuc, sub_ℕ, eqb_ℤ, ltb_ℤ}
use cobj.Prelude.Result.{Result, ok, undefined}
use cobj.BigInt.Compare.{CmpOp, lt, le, eq, ne, gt, ge, exc_match}
use cobj.BigInt.Compare.Order.{holds}
use cobj.StrObject.{StrObject, IsBytes}
use cobj.StrObject.Compare.{
  memcmp, by_length, str_difference, cond_of_sign, str_equal, different, str_compare,
}

-- The lexicographic order of byte strings: -1, 0 or 1.
unfoldable pub lexicographic : List ℕ → List ℕ → ℤ
lexicographic [] [] = pos 0
lexicographic [] (y ∷ b) = negsuc 0
lexicographic (x ∷ a) [] = pos 1
lexicographic (x ∷ a) (y ∷ b) =
    let rest = lexicographic a b in if ltb x y then negsuc 0 else if ltb y x then pos 1 else rest

abbrev memcmp_then_length : List ℕ → List ℕ → ℕ → ℤ
memcmp_then_length a b n =
    if eqb_ℤ (memcmp a b n) (pos 0) then by_length (length a) (length b) else memcmp a b n

by_length-suc : (m n : ℕ) → by_length (suc m) (suc n) ≡ by_length m n
by_length-suc m n = ground arith

-- memcmp on the shorter length, and then the lengths, is the lexicographic order.
memcmp_lexicographic :
    (a b : List ℕ) (n : ℕ)
    → n ≡ (if ltb (length a) (length b) then length a else length b)
    → memcmp_then_length a b n ≡ lexicographic a b
unfolding lexicographic
memcmp_lexicographic [] [] zero e = refl
memcmp_lexicographic [] [] (suc n) e = absurd (ground (arith, e))
memcmp_lexicographic [] (y ∷ b) zero e = ground arith
memcmp_lexicographic [] (y ∷ b) (suc n) e = absurd (ground (arith, e))
memcmp_lexicographic (x ∷ a) [] zero e = ground arith
memcmp_lexicographic (x ∷ a) [] (suc n) e = absurd (ground (arith, e))
memcmp_lexicographic (x ∷ a) (y ∷ b) zero e = absurd (ground (arith, e))
memcmp_lexicographic (x ∷ a) (y ∷ b) (suc n) e =
    let step = memcmp_lexicographic a b n (ground (arith, e)) in
    elim (Bool-cases (ltb x y)) [
      | inl f ↦ rw f refl
      | inr f ↦ elim (Bool-cases (ltb y x)) [
        | inl g ↦ rw (f, g) refl
        | inr g ↦
            rw (f, g)
              (ap (λ k. if eqb_ℤ (memcmp a b n) (pos 0) then k else memcmp a b n)
                  (by_length-suc (length a) (length b))
                ∙ step)
      ]
    ]

-- What the comparison answers, where an operand that is no comparison fails an assertion.
abbrev pub verdict : Option Bool → Result Bool
verdict (some b) = ok b
verdict none = undefined

-- Numbers on the same side of 0
abbrev SameSign : ℤ → ℤ → Type 0
SameSign c d = (eqb_ℤ c (pos 0) ≡ eqb_ℤ d (pos 0)) × (ltb_ℤ c (pos 0) ≡ ltb_ℤ d (pos 0))

-- A first byte `c`, what memcmp gives, and the lengths.
settle : ℤ → ℤ → ℤ → ℤ
settle c m l = let d = if eqb_ℤ c (pos 0) then m else c in if eqb_ℤ d (pos 0) then l else d

settle_same : (m l : ℤ) → settle (pos 0) m l ≡ (if eqb_ℤ m (pos 0) then l else m)
unfolding settle
settle_same m l = refl

settle_different : (c m l : ℤ) → eqb_ℤ c (pos 0) ≡ false → settle c m l ≡ c
unfolding settle
settle_different c m l e = rw (e, e) refl

str_difference-cons :
    (x y : ℕ) (a b : List ℕ) (n : ℕ)
    → x < 256
    → y < 256
    → n ≡ (if ltb (length (x ∷ a)) (length (y ∷ b)) then length (x ∷ a) else length (y ∷ b))
    → str_difference (x ∷ a) (y ∷ b)
      ≡ settle (sub_ℕ x y) (memcmp (x ∷ a) (y ∷ b) n) (by_length (length (x ∷ a)) (length (y ∷ b)))
unfolding str_difference settle
str_difference-cons x y a b n hx hy e =
    let some : ltb 0 n ≡ true = ground (arith, e) in
    let ex : x % 256 ≡ x = omega (arith, hx) in
    let ey : y % 256 ≡ y = omega (arith, hy) in rw (← e, some, ex, ey) refl

str_difference-SameSign :
    (a b : List ℕ) → IsBytes a → IsBytes b → SameSign (str_difference a b) (lexicographic a b)
str_difference-SameSign [] [] ha hb = unfold str_difference lexicographic in (refl, refl)
str_difference-SameSign [] (y ∷ b) ha hb = unfold str_difference lexicographic in ground arith
str_difference-SameSign (x ∷ a) [] ha hb = unfold str_difference lexicographic in ground arith
str_difference-SameSign (x ∷ a) (y ∷ b) (hx, ha) (hy, hb) =
    let n = if ltb (length (x ∷ a)) (length (y ∷ b)) then length (x ∷ a) else length (y ∷ b) in
    let m = memcmp (x ∷ a) (y ∷ b) n in
    let l = by_length (length (x ∷ a)) (length (y ∷ b)) in
    rw (str_difference-cons x y a b n hx hy refl) (elim (Bool-cases (ltb x y)) [
      | inl f ↦
          let d : eqb_ℤ (sub_ℕ x y) (pos 0) ≡ false = ground (arith, f) in
          let negative : SameSign (sub_ℕ x y) (negsuc 0) = ground (arith, f) in
          rw (settle_different (sub_ℕ x y) m l d) (unfold lexicographic in rw f negative)
      | inr f ↦ elim (Bool-cases (ltb y x)) [
        | inl g ↦
            let d : eqb_ℤ (sub_ℕ x y) (pos 0) ≡ false = ground (arith, g) in
            let positive : SameSign (sub_ℕ x y) (pos 1) = ground (arith, g) in
            rw (settle_different (sub_ℕ x y) m l d) (unfold lexicographic in rw (f, g) positive)
        | inr g ↦
            let same : sub_ℕ x y ≡ pos 0 = ground (arith, f, g) in
            rw same (same_SameSign (settle_same m l ∙ memcmp_lexicographic (x ∷ a) (y ∷ b) n refl))
      ]
    ])
  where
    same_SameSign : {c d : ℤ} → c ≡ d → SameSign c d
    same_SameSign e = (ap (λ k. eqb_ℤ k (pos 0)) e, ap (λ k. ltb_ℤ k (pos 0)) e)

cond_of_sign-holds :
    (op : CmpOp) (c d : ℤ)
    → SameSign c d
    → (op ≡ eq → ⊥)
    → (op ≡ exc_match → ⊥)
    → cond_of_sign op c ≡ verdict (holds op d (pos 0))
unfolding cond_of_sign holds
cond_of_sign-holds lt c d (e, f) n m = rw f refl
cond_of_sign-holds le c d (e, f) n m = ground (arith, e, f)
cond_of_sign-holds eq c d (e, f) n m = absurd (n refl)
cond_of_sign-holds ne c d (e, f) n m = rw e refl
cond_of_sign-holds gt c d (e, f) n m = ground (arith, e, f)
cond_of_sign-holds ge c d (e, f) n m = ground (arith, e, f)
cond_of_sign-holds exc_match c d (e, f) n m = absurd (m refl)

and_false : (b : Bool) → (b && false) ≡ false
and_false true = refl
and_false false = refl

middle_true : (a b : Bool) → (a && true && b) ≡ (a && b)
middle_true true true = refl
middle_true true false = refl
middle_true false true = refl
middle_true false false = refl

middle_false : (a b : Bool) → (a && false && b) ≡ false
middle_false true true = refl
middle_false true false = refl
middle_false false true = refl
middle_false false false = refl

-- Of the same length and the same bytes.
same_bytes-lexicographic :
    (a b : List ℕ)
    → (length a == length b && eqb_ℤ (memcmp a b (length a)) (pos 0))
      ≡ eqb_ℤ (lexicographic a b) (pos 0)
unfolding lexicographic
same_bytes-lexicographic [] [] = refl
same_bytes-lexicographic [] (y ∷ b) = ground arith
same_bytes-lexicographic (x ∷ a) [] = ground arith
same_bytes-lexicographic (x ∷ a) (y ∷ b) =
    let next : (suc (length a) == suc (length b)) ≡ (length a == length b) = ground arith in
    elim (Bool-cases (ltb x y)) [
      | inl f ↦ rw f (and_false _)
      | inr f ↦ elim (Bool-cases (ltb y x)) [
        | inl g ↦ rw (f, g) (and_false _)
        | inr g ↦
            rw (f, g)
              (ap (λ k. k && eqb_ℤ (memcmp a b (length a)) (pos 0)) next
                ∙ same_bytes-lexicographic a b)
      ]
    ]

str_equal-lexicographic : (a b : List ℕ) → str_equal a b ≡ eqb_ℤ (lexicographic a b) (pos 0)
unfolding str_equal
str_equal-lexicographic [] [] = same_bytes-lexicographic [] []
str_equal-lexicographic [] (y ∷ b) = unfold lexicographic in ground arith
str_equal-lexicographic (x ∷ a) [] = unfold lexicographic in ground arith
str_equal-lexicographic (x ∷ a) (y ∷ b) =
    let sizes = length (x ∷ a) == length (y ∷ b) in
    let bytes = eqb_ℤ (memcmp (x ∷ a) (y ∷ b) (length (x ∷ a))) (pos 0) in
    elim (Bool-cases (x == y)) [
      | inl e ↦ rw e (middle_true sizes bytes ∙ same_bytes-lexicographic (x ∷ a) (y ∷ b))
      | inr e ↦ rw e (middle_false sizes bytes ∙ sym (unfold lexicographic in ground (arith, e)))
    ]

different-holds :
    (op : CmpOp) (a b : List ℕ)
    → IsBytes a
    → IsBytes b
    → different op a b ≡ verdict (holds op (lexicographic a b) (pos 0))
unfolding different holds
different-holds eq a b ha hb = ap ok (str_equal-lexicographic a b)
different-holds lt a b ha hb =
    cond_of_sign-holds lt (str_difference a b) (lexicographic a b)
      (str_difference-SameSign a b ha hb) (λ e. cc) (λ e. cc)
different-holds le a b ha hb =
    cond_of_sign-holds le (str_difference a b) (lexicographic a b)
      (str_difference-SameSign a b ha hb) (λ e. cc) (λ e. cc)
different-holds ne a b ha hb =
    cond_of_sign-holds ne (str_difference a b) (lexicographic a b)
      (str_difference-SameSign a b ha hb) (λ e. cc) (λ e. cc)
different-holds gt a b ha hb =
    cond_of_sign-holds gt (str_difference a b) (lexicographic a b)
      (str_difference-SameSign a b ha hb) (λ e. cc) (λ e. cc)
different-holds ge a b ha hb =
    cond_of_sign-holds ge (str_difference a b) (lexicographic a b)
      (str_difference-SameSign a b ha hb) (λ e. cc) (λ e. cc)
different-holds exc_match a b ha hb = unfold cond_of_sign in refl

lexicographic_self : (a : List ℕ) → lexicographic a a ≡ pos 0
unfolding lexicographic
lexicographic_self [] = refl
lexicographic_self (x ∷ a) = let n : ltb x x ≡ false = ground arith in rw n (lexicographic_self a)

self_holds :
    (op : CmpOp) (a b : StrObject) → str_compare true a b op ≡ verdict (holds op (pos 0) (pos 0))
unfolding str_compare holds different cond_of_sign
self_holds lt a b = refl
self_holds le a b = refl
self_holds eq a b = refl
self_holds ne a b = refl
self_holds gt a b = refl
self_holds ge a b = refl
self_holds exc_match a b = refl

-- For two strings of bytes, which are equal where `same` says that they are one object,
-- `str_compare` answers each of the six comparisons as the lexicographic order of unsigned bytes
-- does, with its short cuts on the pointers, the first bytes and the sizes, and fails an assertion
-- for an operand that is no comparison.
pub str_compare-lexicographic :
    (same : Bool) (a b : StrObject) (op : CmpOp)
    → IsBytes a.co_sval
    → IsBytes b.co_sval
    → (same ≡ true → a.co_sval ≡ b.co_sval)
    → str_compare same a b op ≡ verdict (holds op (lexicographic a.co_sval b.co_sval) (pos 0))
str_compare-lexicographic true a b op ha hb h =
    self_holds op a b
    ∙ ap (λ c. verdict (holds op c (pos 0)))
        (sym (lexicographic_self a.co_sval) ∙ ap (lexicographic a.co_sval) (h refl))
str_compare-lexicographic false a b op ha hb h =
    unfold str_compare in different-holds op a.co_sval b.co_sval ha hb
