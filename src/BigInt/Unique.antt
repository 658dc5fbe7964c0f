-- ===== src/BigInt/Unique.antt =====
-- A number has one normalised integer object.
use cobj.Prelude.{
  ℕ, zero, suc, ◌+◌, ◌<◌, ◌≡◌, refl, sym, ap, ap₂, subst, ◌∙◌, arith, List, [], ◌∷◌, length,
}
use cobj.Prelude.{Bool, true, false}
use cobj.Prelude.Int.{pos_part, neg_part}
use cobj.BigInt.{IntObject, IsDigits, HasTop, IsNormal, value, to_ℤ, signed_ℤ}

value_pos : (d : ℕ) (ds : List ℕ) → HasTop (d ∷ ds) → 0 < value (d ∷ ds)
value_pos d [] h = ground arith
value_pos d (e ∷ ds) h = let l = value_pos e ds h in omega (arith, l)

digits_unique :
    (ds es : List ℕ)
    → IsDigits ds
    → IsDigits es
    → HasTop ds
    → HasTop es
    → value ds ≡ value es
    → ds ≡ es
digits_unique [] [] r t x y e = refl
digits_unique [] (f ∷ es) r t x y e = let l = value_pos f es y in absurd (omega (arith, e, l))
digits_unique (d ∷ ds) [] r t x y e = let l = value_pos d ds x in absurd (omega (arith, e, l))
digits_unique (d ∷ ds) (f ∷ es) (r, rs) (t, ts) x y e =
    let low : d ≡ f = omega (arith, e, r, t) in
    let high : value ds ≡ value es = omega (arith, e, r, t) in
    ap₂ (λ a b. a ∷ b) low (digits_unique ds es rs ts (tail_top d ds x) (tail_top f es y) high)
  where
    tail_top : (d : ℕ) (ds : List ℕ) → HasTop (d ∷ ds) → HasTop ds
    tail_top d [] h = tt
    tail_top d (e ∷ ds) h = h

pub magnitude : (s : Bool) (n : ℕ) → pos_part (signed_ℤ s n) + neg_part (signed_ℤ s n) ≡ n
magnitude true zero = refl
magnitude true (suc n) = ground arith
magnitude false n = ground arith

-- The parts tell the sign of a number that is not zero.
same_sign : (s t : Bool) (n : ℕ) → 0 < n → signed_ℤ s n ≡ signed_ℤ t n → s ≡ t
same_sign true true n h e = refl
same_sign false false n h e = refl
same_sign true false n h e = let p = ap pos_part e in absurd (ground arith)
same_sign false true n h e = let p = ap pos_part e in absurd (ground arith)

-- Two normalised objects that stand for the same integer are the same.
pub to_ℤ_injective : (a b : IntObject) → IsNormal a → IsNormal b → to_ℤ a ≡ to_ℤ b → a ≡ b
to_ℤ_injective a b n m e =
    let v : value a.digits ≡ value b.digits =
      sym (magnitude a.neg (value a.digits))
      ∙ ap (λ z. pos_part z + neg_part z) e
      ∙ magnitude b.neg (value b.digits) in
    let d = digits_unique a.digits b.digits n.in_range m.in_range n.top m.top v in
    ap₂ (λ s ds. record { neg = s; digits = ds }) (sign a.digits refl d v) d
  where
    sign :
        (ds : List ℕ)
        → a.digits ≡ ds
        → a.digits ≡ b.digits
        → value a.digits ≡ value b.digits
        → a.neg ≡ b.neg
    sign [] z d v = n.zero_sign (ap length z) ∙ sym (m.zero_sign (ap length (sym d ∙ z)))
    sign (c ∷ ds) z d v =
        let l : 0 < value a.digits =
          subst (λ xs. 0 < value xs) (sym z) (value_pos c ds (subst HasTop z n.top)) in
        same_sign a.neg b.neg (value a.digits) l (e ∙ ap (signed_ℤ b.neg) (sym v))
