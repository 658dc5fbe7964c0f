-- ===== src/TupleObject.antt =====
-- objects/tupleobject.c: tuples. A cell is none where co_item has a NULL.
pub mod Laws
mod Tests
use Prim.Native.Nat.{bit_xor}
use cobj.Prelude.{
  ℕ, zero, suc, ◌+◌, ◌-◌, ◌*◌, ◌%◌, ◌^◌, List, [], ◌∷◌, length, get_elem?, set, take, drop,
  replicate,
}
use cobj.Prelude.{Bool, true, false, if◌then◌else◌, leb, ltb, ◌==◌, not, Option, none, some}
use cobj.Prelude.Int.{ℤ, pos, negsuc}
use cobj.Prelude.Result.{Result, ok, raise, undefined, ◌>>=◌, system_error, index_error}
use cobj.ListObject.{slice_low, slice_high}

-- The product of a long, given by its bits, and a number that is not negative; one that is no long
-- overflows.
unfoldable pub mul_long : ℕ → ℕ → Result ℕ
mul_long w n =
    if ltb w (2 ^ 63)
    then (if ltb (w * n) (2 ^ 63) then ok (w * n) else undefined)
    else if leb ((2 ^ 64 - w) * n) (2 ^ 63)
    then ok ((2 ^ 64 - (2 ^ 64 - w) * n) % 2 ^ 64)
    else undefined

module _ {ℓ} {A : Type ℓ} where
  -- The loop of `tuple_hash`. The parameter is COObject_Hash as the bits of the long that it
  -- returns: those of -1 where it fails, since the loop goes on with it. There is no hash of a NULL.
  unfoldable pub hash_items : (A → ℕ) → List (Option A) → ℕ → Result ℕ
  hash_items hash [] x = ok x
  hash_items hash (none ∷ items) x = undefined
  hash_items hash (some o ∷ items) x =
      mul_long (bit_xor x (hash o)) (length items) >>= λ y. hash_items hash items y

  -- tuple_hash, with the bits of a long
  unfoldable pub tuple_hash : (A → ℕ) → List (Option A) → Result ℕ
  tuple_hash hash items = hash_items hash items 3430008

  -- COTuple_New
  unfoldable pub new_tuple : ℤ → Result (List (Option A))
  new_tuple (pos size) = ok (replicate size none)
  new_tuple (negsuc n) = raise system_error

  -- The cell at an index, and what lies outside the cells.
  unfoldable pub tuple_cell : List (Option A) → ℤ → Result (Option A)
  tuple_cell items (negsuc n) = undefined
  tuple_cell items (pos i) = cell_or (get_elem? items i)
    where
      cell_or : Option (Option A) → Result (Option A)
      cell_or none = undefined
      cell_or (some v) = ok v

  -- COTuple_GetItem: NULL from the size on, and no test for an index below 0.
  unfoldable pub tuple_get_item : List (Option A) → ℤ → Result (Option A)
  tuple_get_item items (pos i) = if leb (length items) i then ok none else tuple_cell items (pos i)
  tuple_get_item items (negsuc n) = undefined

  -- The copy of `tuple_slice` into the new cells.
  unfoldable pub copy_items : ℕ → ℕ → List (Option A) → Result (List (Option A))
  copy_items zero from src = ok []
  copy_items (suc len) from src = do
    v ← tuple_cell src (pos from)
    rest ← copy_items len (suc from) src
    ok (v ∷ rest)

  -- tuple_slice
  unfoldable pub tuple_slice : List (Option A) → ℤ → ℤ → Result (List (Option A))
  tuple_slice items ilow ihigh =
      let low = slice_low (length items) ilow in
      let high = slice_high (length items) low ihigh in copy_items (high - low) low items

  -- COTuple_SetItem; `same` is `this == item`, where `error` ends the process, and `refcnt` is the
  -- reference count of the tuple.
  unfoldable pub tuple_set_item :
      Bool → ℕ → List (Option A) → ℤ → Option A → Result (List (Option A))
  tuple_set_item same refcnt items index item =
      if same
      then raise system_error
      else if not (refcnt == 1)
      then raise system_error
      else if in_range index
      then ok (store index)
      else raise index_error
    where
      in_range : ℤ → Bool
      in_range (pos i) = ltb i (length items)
      in_range (negsuc n) = false

      store : ℤ → List (Option A)
      store (pos i) = set items i item
      store (negsuc n) = items
