-- ===== src/ListObject/Resize.antt =====
-- The invariant of the list object, and `list_resize`.
use cobj.Prelude.{ℕ, ◌+◌, ◌-◌, ◌/◌, ◌^◌, ◌<◌, ◌≤◌, ◌≡◌, arith, refl, ◌∙◌}
use cobj.Prelude.{List, length, Option, none, take, replicate}
use cobj.Prelude.{length-append, length-take, length-replicate, inl, inr, take-append, take-take}
use cobj.Prelude.{true, false, ◌&&◌, if◌then◌else◌, ltb, leb, Bool-cases}
use cobj.Prelude.Int.{pos}
use cobj.Prelude.Result.{ok}
use cobj.ListObject.{ListObject, allocated, new_allocated, realloc, list_resize, new_list}

new_allocated-le : (n : ℕ) → n ≤ new_allocated n
unfolding new_allocated
new_allocated-le n = ground arith

-- Neither test for an overflow fires on a size below 2 ^ 60.
no_overflow :
    (n : ℕ)
    → n < 2 ^ 60
    → (ltb (2 ^ 64 - 1 - n) (n / 8 + (if ltb n 9 then 3 else 6)) ≡ false)
      × (leb (new_allocated n) ((2 ^ 64 - 1) / 8) ≡ true)
unfolding new_allocated
no_overflow n h = (ground arith, ground arith)

module _ {ℓ} {A : Type ℓ} where
  -- `0 <= co_size <= allocated_size`, and more cells than any address space has are never asked for.
  pub record IsValid (l : ListObject A) : Type 0 where
    pub fits : l.co_size ≤ allocated l

  pub new_list-IsValid : (n : ℕ) → IsValid (new_list {A = A} (pos n))
  unfolding new_list
  new_list-IsValid n = record { fits = omega (arith, length-replicate {A = Option A} n none) }

  length-realloc : (n : ℕ) (xs : List (Option A)) → length (realloc n xs) ≡ n
  unfolding realloc
  length-realloc n xs = omega (
    arith,
    length-append (take n xs) (replicate (n - length xs) none),
    length-take n xs,
    length-replicate {A = Option A} (n - length xs) none,
  )

  take-realloc :
      (k n : ℕ) (xs : List (Option A)) → k ≤ n → k ≤ length xs → take k (realloc n xs) ≡ take k xs
  unfolding realloc
  take-realloc k n xs h l =
      take-append k (take n xs) (replicate (n - length xs) none) (omega (arith, length-take n xs))
      ∙ take-take k n xs h

  -- What `list_resize` promises: the size asked for, inside the cells, and every item that both
  -- sizes have.
  pub record Resized (l : ListObject A) (n : ℕ) (r : ListObject A) : Type ℓ where
    pub sized : r.co_size ≡ n
    pub valid : n ≤ allocated r
    pub kept : (k : ℕ) → k ≤ n → k ≤ allocated l → take k r.co_item ≡ take k l.co_item

  -- For a size below 2 ^ 60 `list_resize` succeeds on every list: the list has the size asked for,
  -- the size fits the cells, and the items below both the new size and the old cells are kept.
  pub list_resize_lem :
      (l : ListObject A) (n : ℕ)
      → n < 2 ^ 60
      → (r : ListObject A) × (list_resize l n ≡ ok r) × Resized l n r
  unfolding list_resize
  list_resize_lem l n h = elim (Bool-cases (leb n (allocated l) && leb (allocated l / 2) n)) [
    | inl e ↦ (
      record l { co_size = n },
      rw e refl,
      record { sized = refl; valid = ground arith; kept = λ k p q. refl },
    )
    | inr e ↦ (
      record { co_size = n; co_item = realloc (new_allocated n) l.co_item },
      rw (e, (no_overflow n h).0, (no_overflow n h).1) refl,
      record {
        sized = refl;
        valid = omega (arith, length-realloc (new_allocated n) l.co_item, new_allocated-le n);
        kept = λ k p q. take-realloc k _ _ (omega (arith, new_allocated-le n)) q;
      },
    )
  ]
