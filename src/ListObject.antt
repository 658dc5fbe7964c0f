-- ===== src/ListObject.antt =====
-- objects/listobject.c: the list object over its allocated cells. References are values of any
-- type; a cell that holds no reference yet (NULL, or what realloc left there) is `none`.
pub mod Resize
pub mod Items
pub mod Insert
pub mod Slice
pub mod Delete
mod Tests
use cobj.Prelude.{ℕ, zero, suc, ◌+◌, ◌-◌, ◌*◌, ◌/◌, ◌%◌, ◌^◌, List, [], ◌∷◌, ◌++◌, length}
use cobj.Prelude.{Option, none, some, get_elem?, set, take, drop, replicate, ◌≤◌}
use cobj.Prelude.{Bool, true, false, ◌&&◌, ◌||◌, if◌then◌else◌, ltb, leb, ◌==◌}
use cobj.Prelude.Int.{ℤ, pos, negsuc, pos_part, ◌+ℤ◌, ltb_ℤ, leb_ℤ, sub_ℕ}
use cobj.Prelude.Result.{Result, ok, raise, undefined, index_error, memory_error, ◌>>=◌}

-- The size of the cells that `list_resize` asks for.
pub new_allocated : ℕ → ℕ
new_allocated newsize =
    if newsize == 0 then 0 else newsize / 8 + (if ltb newsize 9 then 3 else 6) + newsize

-- The index of `COList_Insert`: from the end if negative, and cut off at both ends. The sum of a
-- negative index and the size goes through an int, which changes nothing up to 2 ^ 31 items.
pub insert_index : ℕ → ℤ → ℕ
insert_index n (pos i) = if ltb n i then n else i
insert_index n (negsuc i) = n - suc i

-- The conversion of a size to the `int` that `COList_Insert` takes.
abbrev pub to_int : ℕ → ℤ
to_int n = let w = n % 2 ^ 32 in if ltb w (2 ^ 31) then pos w else sub_ℕ w (2 ^ 32)

-- The bounds of `list_slice`, cut off to the list.
pub slice_low : ℕ → ℤ → ℕ
slice_low n (negsuc i) = 0
slice_low n (pos i) = if ltb n i then n else i

pub slice_high : ℕ → ℕ → ℤ → ℕ
slice_high n low high =
    if ltb_ℤ high (pos low) then low else if ltb_ℤ (pos n) high then n else pos_part high

module _ {ℓ} where
  -- `co_item[0 .. allocated)`; `allocated` is its length.
  pub record ListObject (A : Type ℓ) : Type ℓ where
    pub co_size : ℕ
    pub co_item : List (Option A)

module _ {ℓ} {A : Type ℓ} where
  abbrev pub allocated : ListObject A → ℕ
  allocated l = length l.co_item

  -- The items of the list: the cells below its size.
  abbrev pub contents : ListObject A → List (Option A)
  contents l = take l.co_size l.co_item

  -- A read and a write through a pointer into the cells.
  read : List (Option A) → ℕ → Result (Option A)
  read [] i = undefined
  read (x ∷ xs) zero = ok x
  read (x ∷ xs) (suc i) = read xs i

  write : List (Option A) → ℕ → Option A → Result (List (Option A))
  write xs i v = if ltb i (length xs) then ok (set xs i v) else undefined

  -- `realloc`: the cells that both sizes have are kept.
  realloc : ℕ → List (Option A) → List (Option A)
  realloc n xs = take n xs ++ replicate (n - length xs) none

  -- COList_New
  pub new_list : ℤ → ListObject A
  new_list (pos n) = record { co_size = n; co_item = replicate n none }
  new_list (negsuc n) = record { co_size = 0; co_item = [] }

  pub list_resize : ListObject A → ℕ → Result (ListObject A)
  list_resize l newsize =
      if leb newsize (allocated l) && leb (allocated l / 2) newsize
      then ok (record l { co_size = newsize })
      else if ltb (2 ^ 64 - 1 - newsize) (newsize / 8 + (if ltb newsize 9 then 3 else 6))
      then raise memory_error
      else if leb (new_allocated newsize) ((2 ^ 64 - 1) / 8)
      then ok (record { co_size = newsize; co_item = realloc (new_allocated newsize) l.co_item })
      else raise memory_error

  -- list_item
  pub list_item : ListObject A → ℤ → Result (Option A)
  list_item l (negsuc i) = raise index_error
  list_item l (pos i) = if leb l.co_size i then raise index_error else read l.co_item i

  -- `list_subscript` at an int index that `COInt_AsSsize_t` converts.
  pub list_subscript : ListObject A → ℤ → Result (Option A)
  list_subscript l i = list_item l (if ltb_ℤ i (pos 0) then i +ℤ pos l.co_size else i)

  -- COList_GetItem: only the upper bound is tested.
  pub get_item : ListObject A → ℤ → Result (Option A)
  get_item l (negsuc i) = undefined
  get_item l (pos i) = if leb l.co_size i then raise index_error else read l.co_item i

  -- COList_SetItem: only the upper bound is tested.
  pub set_item : ListObject A → ℤ → A → Result (ListObject A)
  set_item l (negsuc i) v = undefined
  set_item l (pos i) v =
      if leb l.co_size i
      then raise index_error
      else do cells ← write l.co_item i (some v); ok (record l { co_item = cells })

  -- `for (i = 0; i < n; i++) if (i > index) items[i - 1] = items[i];` with `rounds` still to go.
  close_gap : ℕ → ℕ → ℕ → List (Option A) → Result (List (Option A))
  close_gap zero i index cells = ok cells
  close_gap (suc rounds) i index cells =
      let shifted = read cells i >>= (λ v. write cells (i - 1) v) in
      (if ltb index i then shifted else ok cells) >>= close_gap rounds (i + 1) index

  -- COList_DelItem; `none` is its -1, which sets no exception.
  pub del_item : ListObject A → ℤ → Result (Option (ListObject A))
  del_item l (negsuc i) = ok none
  del_item l (pos i) = if leb l.co_size i then ok none else do
    cells ← close_gap l.co_size 0 i l.co_item
    ok (some (record { co_size = l.co_size - 1; co_item = cells }))

  -- `for (i = n; i > index; i--) items[i + 1] = items[i];`
  open_gap : ℕ → ℕ → List (Option A) → Result (List (Option A))
  open_gap zero index cells = ok cells
  open_gap (suc i) index cells =
      let moved = read cells (suc i) >>= (λ v. write cells (suc i + 1) v) in
      if ltb index (suc i) then moved >>= open_gap i index else ok cells

  pub insert : ListObject A → ℤ → Option A → Result (ListObject A)
  insert l index item = do
    r ← list_resize l (l.co_size + 1)
    cells ← open_gap l.co_size (insert_index l.co_size index) r.co_item
    cells' ← write cells (insert_index l.co_size index) item
    ok (record r { co_item = cells' })

  -- COList_Append
  pub append : ListObject A → A → Result (ListObject A)
  append l item = insert l (to_int l.co_size) (some item)

  -- `for (i = 0; i < len; i++) dest[i] = src[i];`
  copy_cells : ℕ → ℕ → List (Option A) → Result (List (Option A))
  copy_cells zero from src = ok []
  copy_cells (suc len) from src = do
    v ← read src from
    rest ← copy_cells len (from + 1) src
    ok (v ∷ rest)

  -- COList_GetSlice
  pub list_slice : ListObject A → ℤ → ℤ → Result (ListObject A)
  list_slice l ilow ihigh =
      let low = slice_low l.co_size ilow in
      let high = slice_high l.co_size low ihigh in
      copy_cells (high - low) low l.co_item
      >>= (λ cells. ok (record { co_size = high - low; co_item = cells }))
