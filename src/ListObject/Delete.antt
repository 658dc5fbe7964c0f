-- ===== src/ListObject/Delete.antt =====
-- `COList_DelItem`.
use cobj.Prelude.{append_assoc, ◌⊎◌, inl, inr, Bool-cases, leb→le, leb, ◌<◌, ◌≤◌}
use cobj.Prelude.{ℕ, zero, suc, ◌+◌, ◌-◌, ◌≡◌, arith, refl, sym, ap, ◌∙◌}
use cobj.Prelude.{List, [], ◌∷◌, ◌++◌, length, Option, none, some, set, take, drop, length-take}
use cobj.Prelude.{take-append, take-take, take-append-drop, drop-take, take-length}
use cobj.Prelude.{
  length-append, length-drop, false, if◌then◌else◌, ltb, lt→ltb, le→leb, lt→leb_false,
}
use cobj.Prelude.Int.{pos}
use cobj.Prelude.Result.{ok, ◌>>=◌}
use cobj.ListObject.{ListObject, contents, read, write, close_gap, del_item}
use cobj.ListObject.Resize.{IsValid}

module _ {ℓ} {A : Type ℓ} where
  last_or : Option A → List (Option A) → Option A
  last_or y [] = y
  last_or y (z ∷ zs) = last_or z zs

  read_at :
      (pre : List (Option A)) (y z : Option A) (t : List (Option A))
      → read (pre ++ (y ∷ (z ∷ t))) (suc (length pre)) ≡ ok z
  unfolding read
  read_at [] y z t = refl
  read_at (x ∷ pre) y z t = read_at pre y z t

  set_at :
      (pre : List (Option A)) (y z : Option A) (t : List (Option A))
      → set (pre ++ (y ∷ t)) (length pre) z ≡ pre ++ (z ∷ t)
  set_at [] y z t = refl
  set_at (x ∷ pre) y z t = ap (λ s. x ∷ s) (set_at pre y z t)

  write_at :
      (pre : List (Option A)) (y z : Option A) (t : List (Option A))
      → write (pre ++ (y ∷ t)) (suc (length pre) - 1) z ≡ ok (pre ++ (z ∷ t))
  unfolding write
  write_at pre y z t =
      let e : suc (length pre) - 1 ≡ length pre = omega arith in
      rw
        (
          e,
          lt→ltb (length pre) (length (pre ++ (y ∷ t))) (omega (arith, length-append pre (y ∷ t))),
          set_at pre y z t,
        )
        refl

  -- The items behind the gap move down by one cell.
  close_gap_shift :
      (mid pre rest : List (Option A)) (y : Option A) (index : ℕ)
      → index ≤ length pre
      → close_gap (length mid) (suc (length pre)) index (pre ++ (y ∷ (mid ++ rest)))
        ≡ ok (pre ++ (mid ++ (last_or y mid ∷ rest)))
  unfolding close_gap last_or
  close_gap_shift [] pre rest y index h = refl
  close_gap_shift (z ∷ mid) pre rest y index h =
      let p : List (Option A) = pre ++ (z ∷ []) in
      let l : suc (length pre) + 1 ≡ suc (length p) = omega (arith, length-append pre (z ∷ [])) in
      let ih = close_gap_shift mid p rest z index (omega (arith, l)) in
      rw
        (
          lt→ltb index (suc (length pre)) (omega arith),
          read_at pre y z (mid ++ rest),
          write_at pre y z (z ∷ (mid ++ rest)),
          l,
        )
        (rw (append_assoc pre (z ∷ []) _, append_assoc pre (z ∷ []) _) at ih)

  -- The rounds up to the index do nothing.
  close_gap_skip :
      (d m r i index : ℕ) (cells : List (Option A))
      → i + d ≡ suc index
      → m ≡ d + r
      → close_gap m i index cells ≡ close_gap r (suc index) index cells
  unfolding close_gap
  close_gap_skip zero m r i index cells h e =
      let p : i ≡ suc index = omega arith in let q : m ≡ r = omega arith in rw (p, q) refl
  close_gap_skip (suc d) zero r i index cells h e = absurd (omega arith)
  close_gap_skip (suc d) (suc m) r i index cells h e =
      let f : ltb index i ≡ false = ground arith in
      rw f (close_gap_skip d m r (i + 1) index cells (omega arith) (omega arith))

  take-append_drop :
      (i : ℕ) (xs : List (Option A))
      → i < length xs
      → (y : Option A) × (xs ≡ take i xs ++ (y ∷ drop (suc i) xs))
  take-append_drop i [] h = absurd (omega arith)
  take-append_drop zero (x ∷ xs) h = (x, refl)
  take-append_drop (suc i) (x ∷ xs) h =
      let (y, e) = take-append_drop i xs (omega arith) in (y, ap (λ t. x ∷ t) e)

  -- Deleting the item at an index of cells cut up there.
  gap_closed :
      (n i : ℕ) (cells : List (Option A))
      → i < n
      → n ≤ length cells
      → (rest : List (Option A)) × (close_gap n 0 i cells
          ≡ ok (take i cells ++ (take (n - suc i) (drop (suc i) cells) ++ rest)))
  gap_closed n i cells h l =
      let pre = take i cells in
      let mid = take (n - suc i) (drop (suc i) cells) in
      let rest = drop (n - suc i) (drop (suc i) cells) in
      let (y, e) = take-append_drop i cells (omega arith) in
      let lp : length pre ≡ i = omega (arith, length-take i cells) in
      let lm : length mid ≡ n - suc i =
        omega (arith, length-take (n - suc i) (drop (suc i) cells), length-drop (suc i) cells) in
      let e' : cells ≡ pre ++ (y ∷ (mid ++ rest)) =
        e ∙ ap (λ t. pre ++ (y ∷ t)) (sym (take-append-drop (n - suc i) (drop (suc i) cells))) in
      let s : close_gap (length mid) (suc (length pre)) i (pre ++ (y ∷ (mid ++ rest)))
          ≡ ok (pre ++ (mid ++ (last_or y mid ∷ rest))) =
        close_gap_shift mid pre rest y i (omega arith) in
      (
        last_or y mid ∷ rest,
        close_gap_skip (suc i) n (length mid) 0 i cells (omega arith) (omega arith)
            ∙ ap (λ t. close_gap (length mid) (suc i) i t) e'
            ∙ ap (λ t. close_gap (length mid) (suc t) i (pre ++ (y ∷ (mid ++ rest)))) (sym lp)
            ∙ s,
      )

  take_two :
      (n : ℕ) (xs ys zs : List (Option A))
      → length xs + length ys ≡ n
      → take n (xs ++ (ys ++ zs)) ≡ xs ++ ys
  take_two n xs ys zs h =
      rw (← append_assoc xs ys zs, take-append n (xs ++ ys) zs (omega (arith, length-append xs ys)))
        (ap (λ k. take k (xs ++ ys)) (omega (arith, length-append xs ys, h))
          ∙ take-length (xs ++ ys))

  del_item_parts :
      (l : ListObject A) (i : ℕ)
      → IsValid l
      → (l.co_size ≤ i → del_item l (pos i) ≡ ok none)
        × (i < l.co_size
            → (r : ListObject A) × (del_item l (pos i) ≡ ok (some r))
              × (contents r ≡ take i (contents l) ++ drop (suc i) (contents l))
              × IsValid r)
  unfolding del_item
  del_item_parts l i h = (λ b. rw (le→leb _ _ b) refl, λ b. removed b)
    where
      n : ℕ
      n = l.co_size

      mid : List (Option A)
      mid = take (n - suc i) (drop (suc i) l.co_item)

      removed :
          i < n
          → (r : ListObject A) × ((if leb n i
                then ok none
                else (close_gap n 0 i l.co_item >>= λ cells.
                    ok (some (record { co_size = n - 1; co_item = cells }))))
              ≡ ok (some r))
            × (contents r ≡ take i (contents l) ++ drop (suc i) (contents l))
            × IsValid r
      removed b =
          let (rest, g) = gap_closed n i l.co_item b h.fits in
          let lp : length (take i l.co_item) ≡ i = omega (arith, length-take i l.co_item, h.fits) in
          let lm : length mid ≡ n - suc i = omega (
            arith,
            length-take (n - suc i) (drop (suc i) l.co_item),
            length-drop (suc i) l.co_item,
            h.fits,
          ) in
          (
            record { co_size = n - 1; co_item = take i l.co_item ++ (mid ++ rest) },
            rw (lt→leb_false _ _ b, g) refl,
            rw (take-take i n l.co_item (omega arith), drop-take (suc i) n l.co_item b)
                (take_two (n - 1) (take i l.co_item) mid rest (omega (arith, lp, lm))),
            record {
              fits = omega (
                arith,
                lp,
                lm,
                length-append (take i l.co_item) (mid ++ rest),
                length-append mid rest,
              );
            },
          )

  -- On a valid list COList_DelItem at an index that is not negative answers -1 from the end on;
  -- below it succeeds, takes out exactly the item at the index, closes the gap, and the list stays
  -- valid.
  pub del_item_lem :
      (l : ListObject A) (i : ℕ)
      → IsValid l
      → ((l.co_size ≤ i) × (del_item l (pos i) ≡ ok none))
        ⊎ ((i < l.co_size)
            × ((r : ListObject A) × (del_item l (pos i) ≡ ok (some r))
                × (contents r ≡ take i (contents l) ++ drop (suc i) (contents l))
                × IsValid r))
  del_item_lem l i h =
      let (beyond, inside) = del_item_parts l i h in
      elim (Bool-cases (leb l.co_size i)) [
        | inl e ↦ inl (leb→le _ _ e, beyond (leb→le _ _ e))
        | inr e ↦ let b : i < l.co_size = ground arith in inr (b, inside b)
      ]
