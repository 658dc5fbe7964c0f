-- ===== src/TupleObject/Laws.antt =====
-- The operations of objects/tupleobject.c.
use cobj.Prelude.{
  ℕ, zero, suc, ◌+◌, ◌-◌, ◌*◌, ◌%◌, ◌^◌, ◌<◌, ◌≤◌, ◌≡◌, arith, refl, ap, ap₂, ◌∙◌, min, max,
}
use cobj.Prelude.{List, [], ◌∷◌, length, Option, some, take, drop}
use cobj.Prelude.Int.{ℤ, pos, pos_part}
use cobj.Prelude.{false, Bool-cases, ◌⊎◌, inl, inr, ltb, leb, ltb→lt}
use cobj.Prelude.Result.{ok, undefined}
use native.Mathlib.Nat.{mul-le-mul_left}
use Prim.Native.Nat.{bit_xor}
use cobj.ListObject.{slice_low, slice_high}
use cobj.ListObject.Slice.{slice_bounds}
use cobj.TupleObject.{mul_long, hash_items, tuple_hash, tuple_cell, copy_items, tuple_slice}

mul_long_zero : (w : ℕ) → mul_long w 0 ≡ ok 0
unfolding mul_long
mul_long_zero w = elim (Bool-cases (ltb w (2 ^ 63))) [
  | inl e ↦ rw e (let z : w * 0 ≡ 0 = omega arith in rw z refl)
  | inr e ↦ rw e (let z : (2 ^ 64 - w) * 0 ≡ 0 = omega arith in rw z refl)
]

mul_long_cases :
    (w n : ℕ) → ((mul_long w n ≡ undefined) × (2 ≤ n)) ⊎ ((y : ℕ) × (mul_long w n ≡ ok y))
unfolding mul_long
mul_long_cases w n = elim (Bool-cases (ltb w (2 ^ 63))) [
  | inl e ↦ elim (Bool-cases (ltb (w * n) (2 ^ 63))) [
    | inl f ↦ inr (w * n, rw (e, f) refl)
    | inr f ↦ inl (rw (e, f) refl, two w (ltb→lt _ _ e) f)
  ]
  | inr e ↦ elim (Bool-cases (leb ((2 ^ 64 - w) * n) (2 ^ 63))) [
    | inl f ↦ inr ((2 ^ 64 - (2 ^ 64 - w) * n) % 2 ^ 64, rw (e, f) refl)
    | inr f ↦ inl (rw (e, f) refl, two_negative (ground (arith, e)) f)
  ]
]
  where
    two : (v : ℕ) → v < 2 ^ 63 → ltb (v * n) (2 ^ 63) ≡ false → 2 ≤ n
    two v l f = elim (Bool-cases (leb 2 n)) [
      | inl t ↦ ground (arith, t)
      | inr t ↦
          let g = mul-le-mul_left {m = n} {n = 1} v (ground (arith, t)) in
          absurd (ground (arith, g, l, f))
    ]

    two_negative : 2 ^ 63 ≤ w → leb ((2 ^ 64 - w) * n) (2 ^ 63) ≡ false → 2 ≤ n
    two_negative l f = elim (Bool-cases (leb 2 n)) [
      | inl t ↦ ground (arith, t)
      | inr t ↦
          let g = mul-le-mul_left {m = n} {n = 1} (2 ^ 64 - w) (ground (arith, t)) in
          absurd (ground (arith, g, l, f))
    ]

module _ {ℓ} {A : Type ℓ} where
  -- The cells of a tuple that has no NULL.
  abbrev pub cells : List A → List (Option A)
  cells [] = []
  cells (o ∷ os) = some o ∷ cells os

  length-cells : (os : List A) → length (cells os) ≡ length os
  length-cells [] = refl
  length-cells (o ∷ os) = ap suc (length-cells os)

  -- The last round multiplies by 0, and the one before it by 1.
  hash_items_lem :
      (hash : A → ℕ) (o : A) (os : List A) (x : ℕ)
      → ((hash_items hash (cells (o ∷ os)) x ≡ undefined) × (3 ≤ length (o ∷ os)))
        ⊎ (hash_items hash (cells (o ∷ os)) x ≡ ok 0)
  unfolding hash_items
  hash_items_lem hash o [] x = inr (rw (mul_long_zero (bit_xor x (hash o))) refl)
  hash_items_lem hash o (p ∷ ps) x =
      elim (mul_long_cases (bit_xor x (hash o)) (length (cells (p ∷ ps)))) [
        | inl (e, l) ↦ inl (rw e refl, omega (arith, l, length-cells ps))
        | inr (y, e) ↦ elim (hash_items_lem hash p ps y) [
          | inl (u, l) ↦ inl (rw e u, omega (arith, l))
          | inr z ↦ inr (rw e z)
        ]
      ]

  -- For any hashes of the objects, `tuple_hash` of any tuple that is not empty and has no NULL is
  -- 0, since the last round of its loop multiplies by a length of 0, or a product overflows a long
  -- on the way, which is undefined and happens with three objects or more only.
  pub tuple_hash-zero :
      (hash : A → ℕ) (o : A) (os : List A)
      → ((tuple_hash hash (cells (o ∷ os)) ≡ undefined) × (3 ≤ length (o ∷ os)))
        ⊎ (tuple_hash hash (cells (o ∷ os)) ≡ ok 0)
  unfolding tuple_hash
  tuple_hash-zero hash o os = hash_items_lem hash o os 3430008

  tuple_cell-drop :
      (items : List (Option A)) (i : ℕ)
      → i < length items
      → (v : Option A) × (tuple_cell items (pos i) ≡ ok v) × (drop i items ≡ v ∷ drop (suc i) items)
  unfolding tuple_cell
  tuple_cell-drop [] i h = absurd (omega (arith, h))
  tuple_cell-drop (x ∷ items) zero h = (x, refl, refl)
  tuple_cell-drop (x ∷ items) (suc i) h = tuple_cell-drop items i (omega (arith, h))

  copy_items_lem :
      (len from : ℕ) (src : List (Option A))
      → from + len ≤ length src
      → copy_items len from src ≡ ok (take len (drop from src))
  unfolding copy_items
  copy_items_lem zero from src h = refl
  copy_items_lem (suc len) from src h =
      let (v, r, d) = tuple_cell-drop src from (omega (arith, h)) in
      rw (r, copy_items_lem len (suc from) src (omega (arith, h)), d) refl

  -- The items from the lower bound up to the upper one, both cut off to the tuple, and none where
  -- the bounds are crossed.
  pub tuple_slice_lem :
      (items : List (Option A)) (ilow ihigh : ℤ)
      → let n = length items in
        let low = min (pos_part ilow) n in
        let high = max low (min (pos_part ihigh) n) in
        tuple_slice items ilow ihigh ≡ ok (take (high - low) (drop low items))
  unfolding tuple_slice
  tuple_slice_lem items ilow ihigh =
      let n = length items in
      let low = slice_low n ilow in
      let high = slice_high n low ihigh in
      let (e, f, l) = slice_bounds n ilow ihigh in
      copy_items_lem (high - low) low items (omega (arith, f, l))
      ∙ ap₂ (λ p q. ok (take (q - p) (drop p items))) e
          (f ∙ ap (λ t. max t (min (pos_part ihigh) n)) e)
