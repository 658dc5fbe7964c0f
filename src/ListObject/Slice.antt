-- ===== src/ListObject/Slice.antt =====
-- `COList_GetSlice`.
use cobj.Prelude.{ℕ, zero, suc, ◌+◌, ◌-◌, ◌<◌, ◌≤◌, ◌≡◌, arith, refl, sym, ap, ap₂, ◌∙◌, min, max}
use cobj.Prelude.{
  List, [], ◌∷◌, length, Option, take, drop, length-take, length-drop, take-take, drop-take,
}
use cobj.Prelude.Int.{ℤ, pos, negsuc, pos_part}
use cobj.Prelude.Result.{ok}
use cobj.ListObject.{ListObject, contents, read, copy_cells, slice_low, slice_high}
use cobj.ListObject.{list_slice}
use cobj.ListObject.Resize.{IsValid}
use native.Mathlib.Numerals.{add-one}

module _ {ℓ} {A : Type ℓ} where
  read-drop :
      (xs : List (Option A)) (i : ℕ)
      → i < length xs
      → (v : Option A) × (read xs i ≡ ok v) × (drop i xs ≡ v ∷ drop (suc i) xs)
  unfolding read
  read-drop [] i h = absurd (omega arith)
  read-drop (x ∷ xs) zero h = (x, refl, refl)
  read-drop (x ∷ xs) (suc i) h = read-drop xs i (omega arith)

  copy_cells_lem :
      (len from : ℕ) (src : List (Option A))
      → from + len ≤ length src
      → copy_cells len from src ≡ ok (take len (drop from src))
  unfolding copy_cells
  copy_cells_lem zero from src h = refl
  copy_cells_lem (suc len) from src h =
      let (v, r, d) = read-drop src from (omega arith) in
      rw (r, copy_cells_lem len (from + 1) src (omega arith), d, add-one from) refl

-- The bounds after the cut: within the list, the upper not below the lower.
pub slice_bounds :
    (n : ℕ) (ilow ihigh : ℤ)
    → (slice_low n ilow ≡ min (pos_part ilow) n)
      × (slice_high n (slice_low n ilow) ihigh ≡ max (slice_low n ilow) (min (pos_part ihigh) n))
      × (slice_low n ilow ≤ n)
unfolding slice_low slice_high
slice_bounds n (pos i) (pos j) = (ground arith, ground arith, ground arith)
slice_bounds n (pos i) (negsuc j) = (ground arith, ground arith, ground arith)
slice_bounds n (negsuc i) (pos j) = (ground arith, ground arith, ground arith)
slice_bounds n (negsuc i) (negsuc j) = (ground arith, ground arith, ground arith)

module _ {ℓ} {A : Type ℓ} where
  -- On a valid list `list_slice` succeeds for all bounds: the new list is valid and has the items
  -- from the lower bound up to the upper bound, both cut off to the list, and none where the
  -- bounds are crossed.
  pub list_slice_lem :
      (l : ListObject A) (ilow ihigh : ℤ)
      → IsValid l
      → let n = l.co_size in
        let low = min (pos_part ilow) n in
        let high = max low (min (pos_part ihigh) n) in
        (r : ListObject A) × (list_slice l ilow ihigh ≡ ok r)
        × (contents r ≡ take (high - low) (drop low (contents l)))
        × IsValid r
  unfolding list_slice
  list_slice_lem l ilow ihigh h =
      let n = l.co_size in
      let (a, b, c) = slice_bounds n ilow ihigh in
      let low = slice_low n ilow in
      let high = slice_high n low ihigh in
      (
        record { co_size = high - low; co_item = take (high - low) (drop low l.co_item) },
        rw (copy_cells_lem (high - low) low l.co_item (omega (arith, b, c, h.fits))) refl,
        take-take (high - low) (high - low) (drop low l.co_item) (omega arith)
            ∙ sym (
                ap (take (high - low)) (drop-take low n l.co_item c)
                ∙ take-take (high - low) (n - low) (drop low l.co_item) (omega (arith, b, c)))
            ∙ ap₂ (λ p q. take (q - p) (drop p (contents l))) a
                (b ∙ ap (λ t. max t (min (pos_part ihigh) n)) a),
        record {
          fits = omega (
            arith,
            length-take (high - low) (drop low l.co_item),
            length-drop low l.co_item,
            b,
            c,
            h.fits,
          );
        },
      )
