-- ===== src/ListObject/Insert.antt =====
-- `COList_Append` and `COList_Insert`.
use cobj.Prelude.{ℕ, zero, suc, ◌+◌, ◌^◌, ◌<◌, ◌≤◌, ◌≡◌, ◌≢◌, arith, refl, sym, ap, ◌∙◌, ◌⊎◌}
use cobj.Prelude.{List, [], ◌∷◌, ◌++◌, length, Option, some, get_elem?, set, take}
use cobj.Prelude.{length-set, false, ltb, Bool-cases, inl, inr, lt→ltb, ltb→lt}
use cobj.Prelude.Int.{pos}
use cobj.Prelude.Result.{ok, undefined}
use cobj.ListObject.{ListObject, allocated, contents, read, write, open_gap}
use cobj.ListObject.{insert_index, insert, to_int, append}
use cobj.ListObject.Resize.{IsValid, list_resize_lem}
use native.Mathlib.Numerals.{add-one}

to_int_lem : (n : ℕ) → n < 2 ^ 31 → to_int n ≡ pos n
to_int_lem n h = ground arith

at_end : (n : ℕ) → insert_index n (pos n) ≡ n
unfolding insert_index
at_end n = ground arith

module _ {ℓ} {A : Type ℓ} where
  -- At the end no cell moves.
  no_gap : (n : ℕ) (cells : List (Option A)) → open_gap n n cells ≡ ok cells
  unfolding open_gap
  no_gap zero cells = refl
  no_gap (suc n) cells = let e : ltb (suc n) (suc n) ≡ false = ground arith in rw e refl

  take-set_end :
      (xs : List (Option A)) (n : ℕ) (v : Option A)
      → n < length xs
      → take (suc n) (set xs n v) ≡ take n xs ++ (v ∷ [])
  take-set_end [] n v h = absurd (omega arith)
  take-set_end (x ∷ xs) zero v h = refl
  take-set_end (x ∷ xs) (suc n) v h = ap (λ t. x ∷ t) (take-set_end xs n v (omega arith))

  -- On a valid list of fewer than 2 ^ 31 items COList_Append succeeds, adds the item at the end,
  -- keeps the others in their order, and the list stays valid.
  pub append_lem :
      (l : ListObject A) (v : A)
      → IsValid l
      → l.co_size < 2 ^ 31
      → (r : ListObject A) × (append l v ≡ ok r)
        × (contents r ≡ contents l ++ (some v ∷ []))
        × IsValid r
  unfolding append insert write
  append_lem l v h b =
      let n = l.co_size in
      let (r, e, q) = list_resize_lem l (n + 1) (omega arith) in
      let s : n < allocated r = omega (arith, q.valid) in
      (
        record r { co_item = set r.co_item n (some v) },
        rw (to_int_lem n b, at_end n, e, no_gap n r.co_item, lt→ltb n (allocated r) s) refl,
        rw (q.sized, add-one n, take-set_end r.co_item n (some v) s, q.kept n (omega arith) h.fits)
            refl,
        record { fits = omega (arith, q.sized, q.valid, length-set r.co_item n (some v)) },
      )

module _ {ℓ} {A : Type ℓ} where
  get_elem?-set_ne :
      (xs : List A) (i j : ℕ) (v : A) → i ≢ j → get_elem? (set xs i v) j ≡ get_elem? xs j
  get_elem?-set_ne [] i j v h = refl
  get_elem?-set_ne (x ∷ xs) zero zero v h = absurd (h refl)
  get_elem?-set_ne (x ∷ xs) zero (suc j) v h = refl
  get_elem?-set_ne (x ∷ xs) (suc i) zero v h = refl
  get_elem?-set_ne (x ∷ xs) (suc i) (suc j) v h = get_elem?-set_ne xs i j v (λ e. h (ap suc e))

  get_elem?-set_same :
      (xs : List A) (i : ℕ) (v : A) → i < length xs → get_elem? (set xs i v) i ≡ some v
  get_elem?-set_same [] i v h = absurd (omega arith)
  get_elem?-set_same (x ∷ xs) zero v h = refl
  get_elem?-set_same (x ∷ xs) (suc i) v h = get_elem?-set_same xs i v (omega arith)

  get_elem?-take : (xs : List A) (n j : ℕ) → j < n → get_elem? (take n xs) j ≡ get_elem? xs j
  get_elem?-take xs zero j h = absurd (omega arith)
  get_elem?-take [] (suc n) j h = refl
  get_elem?-take (x ∷ xs) (suc n) zero h = refl
  get_elem?-take (x ∷ xs) (suc n) (suc j) h = get_elem?-take xs n j (omega arith)

module _ {ℓ} {A : Type ℓ} where
  read_cases :
      (xs : List (Option A)) (i : ℕ)
      → (read xs i ≡ undefined) ⊎ ((v : Option A) × (read xs i ≡ ok v))
  unfolding read
  read_cases [] i = inl refl
  read_cases (x ∷ xs) zero = inr (x, refl)
  read_cases (x ∷ xs) (suc i) = read_cases xs i

  write_cases :
      (xs : List (Option A)) (i : ℕ) (v : Option A)
      → (write xs i v ≡ undefined) ⊎ ((i < length xs) × (write xs i v ≡ ok (set xs i v)))
  unfolding write
  write_cases xs i v = elim (Bool-cases (ltb i (length xs))) [
    | inl e ↦ inr (ltb→lt _ _ e, rw e refl)
    | inr e ↦ inl (rw e refl)
  ]

  -- Where making room stays inside the cells, it moves none up to the one behind the index.
  open_gap_cases :
      (m index : ℕ) (cells : List (Option A))
      → (open_gap m index cells ≡ undefined)
        ⊎ ((cells' : List (Option A)) × (open_gap m index cells ≡ ok cells')
            × ((j : ℕ) → j ≤ index + 1 → get_elem? cells' j ≡ get_elem? cells j))
  unfolding open_gap
  open_gap_cases zero index cells = inr (cells, refl, λ j h. refl)
  open_gap_cases (suc i) index cells = elim (Bool-cases (ltb index (suc i))) [
    | inr e ↦ rw e (inr (cells, refl, λ j h. refl))
    | inl e ↦ elim (read_cases cells (suc i)) [
      | inl r ↦ rw (e, r) (inl refl)
      | inr (v, r) ↦ elim (write_cases cells (suc i + 1) v) [
        | inl w ↦ rw (e, r, w) (inl refl)
        | inr (_, w) ↦ elim (open_gap_cases i index (set cells (suc i + 1) v)) [
          | inl u ↦ rw (e, r, w, u) (inl refl)
          | inr (cells', o, k) ↦
              rw (e, r, w, o)
                (inr (
                  cells',
                  refl,
                  λ j h.
                      k j h
                      ∙ get_elem?-set_ne cells (suc i + 1) j v
                          (λ q. absurd (omega (arith, q, ltb→lt _ _ e))),
                ))
        ]
      ]
    ]
  ]

inside_index : (n i : ℕ) → i < n → insert_index n (pos i) ≡ i
unfolding insert_index
inside_index n i h = ground arith

module _ {ℓ} {A : Type ℓ} where
  -- On a valid list of fewer than 2 ^ 31 items, COList_Insert at an index before the last item
  -- either writes outside the cells, or puts the item at the index and leaves the item that stood
  -- behind the index where it was: the item that stood at the index has been written over,
  -- although the list has one item more.
  pub insert_overwrites :
      (l : ListObject A) (i : ℕ) (v : Option A)
      → IsValid l
      → i + 1 < l.co_size
      → l.co_size < 2 ^ 31
      → (insert l (pos i) v ≡ undefined)
        ⊎ ((r : ListObject A) × (insert l (pos i) v ≡ ok r)
            × (r.co_size ≡ l.co_size + 1)
            × (get_elem? (contents r) i ≡ some v)
            × (get_elem? (contents r) (i + 1) ≡ get_elem? (contents l) (i + 1)))
  unfolding insert
  insert_overwrites l i v h b c =
      let n = l.co_size in
      let (r, e, q) = list_resize_lem l (n + 1) (omega arith) in
      rw (inside_index n i (omega arith), e)
        (elim (open_gap_cases n i r.co_item) [
          | inl u ↦ rw u (inl refl)
          | inr (cells, o, k) ↦ elim (write_cases cells i v) [
            | inl w ↦ rw (o, w) (inl refl)
            | inr (inside, w) ↦
                rw (o, w)
                  (inr (
                    record r { co_item = set cells i v },
                    refl,
                    q.sized,
                    get_elem?-take (set cells i v) r.co_size i (omega (arith, q.sized))
                        ∙ get_elem?-set_same cells i v inside,
                    get_elem?-take (set cells i v) r.co_size (i + 1) (omega (arith, q.sized))
                        ∙ get_elem?-set_ne cells i (i + 1) v (λ p. absurd (omega (arith, p)))
                        ∙ k (i + 1) (omega arith)
                        ∙ sym (get_elem?-take r.co_item n (i + 1) b)
                        ∙ ap (λ t. get_elem? t (i + 1)) (q.kept n (omega arith) h.fits),
                  ))
          ]
        ])
