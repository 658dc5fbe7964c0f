-- ===== src/BigInt/Compare/Order.antt =====
-- `int_cmp` and `int_compare` of objects/intobject.c, and the order of the integers.
use cobj.Prelude.{ℕ, zero, suc, ◌<◌, ◌≡◌, refl, sym, ap, ◌∙◌, arith, ◌⊎◌, inl, inr}
use cobj.Prelude.{Bool, true, false, not, List, [], ◌∷◌, length, Option, none, some}
use cobj.Prelude.{if◌then◌else◌, Bool-cases}
use cobj.Prelude.Int.{ℤ, pos, negsuc, sub_ℕ, ◌-ℤ◌, ◌<ℤ◌, eqb_ℤ, ltb_ℤ, leb_ℤ}
use cobj.BigInt.{IntObject, size, co_size, to_ℤ, signed_ℤ, value, IsDigits, HasTop, IsNormal}
use cobj.BigInt.Compare.{highest_diff, Scanned, highest_diff-Scanned, three_way}
use cobj.BigInt.Compare.{digit_sign, int_cmp, CmpOp, lt, le, eq, ne, gt, ge, exc_match, cond_of}
use cobj.BigInt.Compare.{int_compare}

-- A number with a top digit is not zero.
pub value-pos : (d : ℕ) (ds : List ℕ) → HasTop (d ∷ ds) → 0 < value (d ∷ ds)
value-pos d [] h = omega arith
value-pos d (e ∷ ds) h = omega (arith, value-pos e ds h)

-- Of two normal numbers the one with fewer digits is less.
pub value-lt : (a b : List ℕ) → IsDigits a → HasTop b → length a < length b → value a < value b
value-lt a [] r h l = absurd (omega arith)
value-lt [] (y ∷ b) r h l = value-pos y b h
value-lt (x ∷ a) (y ∷ []) r h l = absurd (omega arith)
value-lt (x ∷ a) (y ∷ z ∷ b) (rx, r) h l = omega (arith, value-lt a (z ∷ b) r h (omega arith))

pub value-nonzero : (ds : List ℕ) → HasTop ds → 0 < length ds → 0 < value ds
value-nonzero [] t h = absurd (omega arith)
value-nonzero (d ∷ ds) t h = value-pos d ds t

digit_sign-three_way :
    (s : Bool) (a b : List ℕ) (d : ℕ)
    → Scanned a b d
    → three_way (digit_sign s d a b)
      ≡ three_way (if s then sub_ℕ (value b) (value a) else sub_ℕ (value a) (value b))
unfolding digit_sign
digit_sign-three_way s a b zero c = ground (arith, c.equal refl)
digit_sign-three_way s a b (suc i) c = ground (arith, c.differs, c.below, c.above)

-- Of numbers with one size, the highest differing digit gives the order.
digit_sign-lem :
    (s : Bool) (a b : List ℕ)
    → IsDigits a
    → IsDigits b
    → length a ≡ length b
    → three_way (digit_sign s (highest_diff (length a) a b) a b)
      ≡ three_way (if s then sub_ℕ (value b) (value a) else sub_ℕ (value a) (value b))
digit_sign-lem s a b ra rb e = digit_sign-three_way s a b _ (highest_diff-Scanned a b e ra rb)

three_way-lt : (x y : ℤ) → x <ℤ y → three_way (x -ℤ y) ≡ negsuc 0
unfolding ◌-ℤ◌
three_way-lt x y h = ground arith

three_way-gt : (x y : ℤ) → y <ℤ x → three_way (x -ℤ y) ≡ pos 1
unfolding ◌-ℤ◌
three_way-gt x y h = ground arith

-- The signed sizes of normal objects already order them where they differ.
co_size-lt : (a b : IntObject) → IsNormal a → IsNormal b → co_size a <ℤ co_size b → to_ℤ a <ℤ to_ℤ b
co_size-lt a b na nb h = ground (
  arith,
  value-lt a.digits b.digits na.in_range nb.top,
  value-lt b.digits a.digits nb.in_range na.top,
  value-nonzero a.digits na.top,
  value-nonzero b.digits nb.top,
)

same_size :
    (a b : IntObject)
    → IsNormal a
    → IsNormal b
    → eqb_ℤ (co_size a) (co_size b) ≡ true
    → (size a ≡ size b) × (a.neg ≡ b.neg)
same_size a b na nb h = ground arith

three_way-signs :
    (s : Bool) (m n : ℕ)
    → three_way (if s then sub_ℕ n m else sub_ℕ m n) ≡ three_way (signed_ℤ s m -ℤ signed_ℤ s n)
unfolding ◌-ℤ◌
three_way-signs true m n = ground arith
three_way-signs false m n = ground arith

-- `int_cmp` is the three-way comparison of the two integers.
pub int_cmp_lem :
    (a b : IntObject) → IsNormal a → IsNormal b → int_cmp a b ≡ three_way (to_ℤ a -ℤ to_ℤ b)
unfolding int_cmp
int_cmp_lem a b na nb = elim (Bool-cases (eqb_ℤ (co_size a) (co_size b))) [
  | inl e ↦
      let (l, s) = same_size a b na nb e in
      rw (e, ← s)
        (digit_sign-lem a.neg a.digits b.digits na.in_range nb.in_range l
          ∙ three_way-signs a.neg _ _)
  | inr e ↦ rw e (elim (sides e) [
    | inl h ↦ three_way-lt _ _ h ∙ sym (three_way-lt _ _ (co_size-lt a b na nb h))
    | inr h ↦ three_way-gt _ _ h ∙ sym (three_way-gt _ _ (co_size-lt b a nb na h))
  ])
]
  where
    sides :
        eqb_ℤ (co_size a) (co_size b) ≡ false → (co_size a <ℤ co_size b) ⊎ (co_size b <ℤ co_size a)
    sides e = ground arith

-- The comparison that an operand of OP_CMP names, on integers.
unfoldable pub holds : CmpOp → ℤ → ℤ → Option Bool
holds eq x y = some (eqb_ℤ x y)
holds ne x y = some (not (eqb_ℤ x y))
holds le x y = some (leb_ℤ x y)
holds ge x y = some (leb_ℤ y x)
holds lt x y = some (ltb_ℤ x y)
holds gt x y = some (ltb_ℤ y x)
holds exc_match x y = none

cond_of-three_way : (op : CmpOp) (x y : ℤ) → cond_of op (three_way (x -ℤ y)) ≡ holds op x y
unfolding cond_of holds ◌-ℤ◌
cond_of-three_way lt x y = ground arith
cond_of-three_way le x y = ground arith
cond_of-three_way eq x y = ground arith
cond_of-three_way ne x y = ground arith
cond_of-three_way gt x y = ground arith
cond_of-three_way ge x y = ground arith
cond_of-three_way exc_match x y = refl

cond_of_self : (op : CmpOp) (x : ℤ) → cond_of op (pos 0) ≡ holds op x x
unfolding cond_of holds
cond_of_self lt x = ground arith
cond_of_self le x = ground arith
cond_of_self eq x = ground arith
cond_of_self ne x = ground arith
cond_of_self gt x = ground arith
cond_of_self ge x = ground arith
cond_of_self exc_match x = refl

-- Where `a` and `b` are normal, and equal where `same` says that they are one object,
-- `int_compare` answers each of the six comparisons as the integers do, and fails on an operand
-- that is no comparison; the test on the pointers changes nothing.
pub int_compare-holds :
    (same : Bool) (a b : IntObject) (op : CmpOp)
    → IsNormal a
    → IsNormal b
    → (same ≡ true → a ≡ b)
    → int_compare same a b op ≡ holds op (to_ℤ a) (to_ℤ b)
unfolding int_compare
int_compare-holds true a b op na nb h =
    cond_of_self op (to_ℤ a) ∙ ap (λ c. holds op (to_ℤ a) (to_ℤ c)) (h refl)
int_compare-holds false a b op na nb h =
    rw (int_cmp_lem a b na nb) (cond_of-three_way op (to_ℤ a) (to_ℤ b))
