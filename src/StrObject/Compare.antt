-- ===== src/StrObject/Compare.antt =====
-- `str_compare` of objects/strobject.c.
pub mod Order
use cobj.Prelude.{
  ℕ, zero, suc, ◌+◌, ◌-◌, ◌%◌, ◌≤◌, ◌<◌, ◌≡◌, refl, sym, ap, ◌∙◌, arith, List, [], ◌∷◌, length,
  get_or,
}
use cobj.Prelude.{
  Bool, true, false, Bool-cases, ◌&&◌, not, if◌then◌else◌, ltb, leb, ◌==◌, ==_iff, Option, none,
  some, inl, inr,
}
use cobj.Prelude.Int.{ℤ, pos, negsuc, sub_ℕ, eqb_ℤ, ltb_ℤ, leb_ℤ}
use cobj.Prelude.Result.{Result, ok, undefined}
use cobj.BigInt.Compare.{CmpOp, lt, le, eq, ne, gt, ge, exc_match}
use cobj.StrObject.{StrObject, IsBytes}

-- memcmp, which tells the order of the first bytes that differ.
abbrev pub memcmp : List ℕ → List ℕ → ℕ → ℤ
memcmp a b zero = pos 0
memcmp (x ∷ a) (y ∷ b) (suc n) =
    let rest = memcmp a b n in if ltb x y then negsuc 0 else if ltb y x then pos 1 else rest
memcmp _ _ (suc n) = pos 0

-- CHAR_MASK
abbrev pub char_mask : ℕ → ℕ
char_mask c = c % 256

-- `c` before the sizes are looked at. A string has a zero byte behind its end.
abbrev pub first_difference : List ℕ → List ℕ → ℕ → ℤ
first_difference a b len_min =
    let c = sub_ℕ (char_mask (get_or a 0 0)) (char_mask (get_or b 0 0)) in
    if ltb 0 len_min then (if eqb_ℤ c (pos 0) then memcmp a b len_min else c) else pos 0

-- `(len_this < len_that) ? -1 : (len_this > len_that) ? 1 : 0`
abbrev pub by_length : ℕ → ℕ → ℤ
by_length m n = if ltb m n then negsuc 0 else if ltb n m then pos 1 else pos 0

unfoldable pub str_difference : List ℕ → List ℕ → ℤ
str_difference a b =
    let c = first_difference a b (if ltb (length a) (length b) then length a else length b) in
    if eqb_ℤ c (pos 0) then by_length (length a) (length b) else c

-- The switch at the end; the assertion of Cmp_EQ is never reached, and that of the default fails.
unfoldable pub cond_of_sign : CmpOp → ℤ → Result Bool
cond_of_sign lt c = ok (ltb_ℤ c (pos 0))
cond_of_sign le c = ok (leb_ℤ c (pos 0))
cond_of_sign eq c = undefined
cond_of_sign ne c = ok (not (eqb_ℤ c (pos 0)))
cond_of_sign gt c = ok (ltb_ℤ (pos 0) c)
cond_of_sign ge c = ok (leb_ℤ (pos 0) c)
cond_of_sign exc_match c = undefined

unfoldable pub str_equal : List ℕ → List ℕ → Bool
str_equal a b =
    length a == length b && get_or a 0 0 == get_or b 0 0 && eqb_ℤ (memcmp a b (length a)) (pos 0)

unfoldable pub different : CmpOp → List ℕ → List ℕ → Result Bool
different eq a b = ok (str_equal a b)
different op a b = cond_of_sign op (str_difference a b)

-- str_compare; `same` is `this == that`.
unfoldable pub str_compare : Bool → StrObject → StrObject → CmpOp → Result Bool
str_compare true a b eq = ok true
str_compare true a b le = ok true
str_compare true a b ge = ok true
str_compare true a b ne = ok false
str_compare true a b lt = ok false
str_compare true a b gt = ok false
str_compare true a b exc_match = different exc_match a.co_sval b.co_sval
str_compare false a b op = different op a.co_sval b.co_sval
