-- ===== src/ListObject/Items.antt =====
-- Subscripts and `COList_SetItem` of objects/listobject.c.
use cobj.Prelude.{ℕ, zero, suc, ◌-◌, ◌<◌, ◌≤◌, ◌≡◌, arith, refl, sym, ap, inl, inr, ◌⊎◌}
use cobj.Prelude.{List, [], ◌∷◌, length, Option, some, set, take}
use cobj.Prelude.{
  length-set, true, false, if◌then◌else◌, leb, Bool-cases, leb→le, lt→ltb, le→leb, lt→leb_false,
  length-take,
}
use cobj.Prelude.Int.{ℤ, pos, negsuc, ◌+ℤ◌, ltb_ℤ}
use cobj.Prelude.Result.{Result, ok, raise, index_error}
use cobj.ListObject.{ListObject, allocated, contents, read, write, list_item, list_subscript}
use cobj.ListObject.{set_item}
use cobj.ListObject.Resize.{IsValid}

sub_pos : (n i : ℕ) → leb (suc i) n ≡ true → negsuc i +ℤ pos n ≡ pos (n - suc i)
unfolding ◌+ℤ◌
sub_pos n i h = ground arith

sub_neg : (n i : ℕ) → leb (suc i) n ≡ false → (k : ℕ) × (negsuc i +ℤ pos n ≡ negsuc k)
unfolding ◌+ℤ◌
sub_neg n i h = (i - n, ground arith)

module _ {ℓ} {A : Type ℓ} where
  -- What reading the item `i` of a sequence gives.
  pub lookup_item : List A → ℕ → Result A
  lookup_item [] i = raise index_error
  lookup_item (x ∷ xs) zero = ok x
  lookup_item (x ∷ xs) (suc i) = lookup_item xs i

module _ {ℓ} {A : Type ℓ} where
  read-take :
      (xs : List (Option A)) (n i : ℕ)
      → i < n
      → n ≤ length xs
      → read xs i ≡ lookup_item (take n xs) i
  unfolding read lookup_item
  read-take [] n i h l = absurd (omega arith)
  read-take (x ∷ xs) zero i h l = absurd (omega arith)
  read-take (x ∷ xs) (suc n) zero h l = refl
  read-take (x ∷ xs) (suc n) (suc i) h l = read-take xs n i (omega arith) (omega arith)

  lookup_item_beyond :
      (xs : List (Option A)) (n i : ℕ) → n ≤ i → lookup_item (take n xs) i ≡ raise index_error
  unfolding lookup_item
  lookup_item_beyond xs zero i h = refl
  lookup_item_beyond [] (suc n) i h = refl
  lookup_item_beyond (x ∷ xs) (suc n) zero h = absurd (omega arith)
  lookup_item_beyond (x ∷ xs) (suc n) (suc i) h = lookup_item_beyond xs n i (omega arith)

  -- A write inside the items is a write to the items.
  take-set :
      (xs : List (Option A)) (n i : ℕ) (v : Option A)
      → i < n
      → take n (set xs i v) ≡ set (take n xs) i v
  take-set [] (suc n) i v h = refl
  take-set [] zero i v h = refl
  take-set (x ∷ xs) zero i v h = absurd (omega arith)
  take-set (x ∷ xs) (suc n) zero v h = refl
  take-set (x ∷ xs) (suc n) (suc i) v h = ap (λ t. x ∷ t) (take-set xs n i v (omega arith))

  -- An index of a program: from the front, or from the end if negative.
  pub lookup_index : List (Option A) → ℤ → Result (Option A)
  lookup_index xs (pos i) = lookup_item xs i
  lookup_index xs (negsuc i) =
      if leb (suc i) (length xs) then lookup_item xs (length xs - suc i) else raise index_error

  length-contents : (l : ListObject A) → IsValid l → length (contents l) ≡ l.co_size
  length-contents l v = omega (arith, length-take l.co_size l.co_item, v.fits)

  item_lookup :
      (l : ListObject A) (i : ℕ) → IsValid l → list_item l (pos i) ≡ lookup_item (contents l) i
  unfolding list_item
  item_lookup l i v = elim (Bool-cases (leb l.co_size i)) [
    | inl e ↦ rw e (sym (lookup_item_beyond l.co_item l.co_size i (leb→le _ _ e)))
    | inr e ↦ rw e (read-take l.co_item l.co_size i (ground arith) v.fits)
  ]

  -- On a valid list a subscript gives the item counted from the front, or from the end where it is
  -- negative, and raises IndexError exactly outside the list; no read leaves the cells.
  pub list_subscript-lookup :
      (l : ListObject A) (i : ℤ) → IsValid l → list_subscript l i ≡ lookup_index (contents l) i
  unfolding list_subscript lookup_index
  list_subscript-lookup l (pos i) v =
      let e : ltb_ℤ (pos i) (pos 0) ≡ false = ground arith in rw e (item_lookup l i v)
  list_subscript-lookup l (negsuc i) v =
      let e : ltb_ℤ (negsuc i) (pos 0) ≡ true = ground arith in
      rw (e, length-contents l v)
        (elim (Bool-cases (leb (suc i) l.co_size)) [
          | inl h ↦ rw (h, sub_pos l.co_size i h) (item_lookup l (l.co_size - suc i) v)
          | inr h ↦ rw (h, (sub_neg l.co_size i h).1) (unfold list_item in refl)
        ])

  set_item_parts :
      (l : ListObject A) (i : ℕ) (v : A)
      → IsValid l
      → (l.co_size ≤ i → set_item l (pos i) v ≡ raise index_error)
        × (i < l.co_size
            → (r : ListObject A) × (set_item l (pos i) v ≡ ok r)
              × (contents r ≡ set (contents l) i (some v))
              × IsValid r)
  unfolding set_item write
  set_item_parts l i v h = (
    λ b. rw (le→leb _ _ b) refl,
    λ b. (
      record l { co_item = set l.co_item i (some v) },
      rw (lt→leb_false _ _ b, lt→ltb i (allocated l) (omega (arith, h.fits))) refl,
      take-set l.co_item l.co_size i (some v) b,
      record { fits = omega (arith, h.fits, length-set l.co_item i (some v)) },
    ),
  )

  -- On a valid list COList_SetItem at an index that is not negative raises IndexError from the end
  -- on; below it succeeds, stores the value at the index, keeps the other items, and the list
  -- stays valid.
  pub set_item_lem :
      (l : ListObject A) (i : ℕ) (v : A)
      → IsValid l
      → ((l.co_size ≤ i) × (set_item l (pos i) v ≡ raise index_error))
        ⊎ ((i < l.co_size)
            × ((r : ListObject A) × (set_item l (pos i) v ≡ ok r)
                × (contents r ≡ set (contents l) i (some v))
                × IsValid r))
  set_item_lem l i v h =
      let (beyond, inside) = set_item_parts l i v h in
      elim (Bool-cases (leb l.co_size i)) [
        | inl e ↦ inl (leb→le _ _ e, beyond (leb→le _ _ e))
        | inr e ↦ let b : i < l.co_size = ground arith in inr (b, inside b)
      ]
