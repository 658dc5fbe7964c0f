-- ===== src/ListObject/Tests.antt =====
-- Runs of objects/listobject.c on a list of three items in four cells.
use cobj.Prelude.{ℕ, ◌+◌, ◌≡◌, ◌<◌, ◌≤◌, arith, [], ◌∷◌, ◌++◌, none, some}
use cobj.Prelude.{◌⊎◌, take, drop, get_elem?}
use cobj.Prelude.Int.{pos, negsuc}
use cobj.Prelude.Result.{ok, undefined}
use cobj.ListObject.{ListObject, contents, list_subscript, del_item, append, insert}
use cobj.ListObject.{list_slice, list_resize}
use cobj.ListObject.Resize.{IsValid, Resized, list_resize_lem}
use cobj.ListObject.Items.{list_subscript-lookup, lookup_index}
use cobj.ListObject.Insert.{append_lem, insert_overwrites}
use cobj.ListObject.Slice.{list_slice_lem}
use cobj.ListObject.Delete.{del_item_lem}

abbrev three : ListObject ℕ
three = record { co_size = 3; co_item = some 10 ∷ some 11 ∷ some 12 ∷ none ∷ [] }

three-IsValid : IsValid three
three-IsValid = record { fits = omega arith }

append_lem_example :
    (r : ListObject ℕ) × (append three 13 ≡ ok r)
    × (contents r ≡ contents three ++ some 13 ∷ [])
    × IsValid r
append_lem_example = append_lem three 13 three-IsValid (omega arith)

del_item_lem_example :
    ((3 ≤ 1) × (del_item three (pos 1) ≡ ok none))
    ⊎ ((1 < 3)
        × ((r : ListObject ℕ) × (del_item three (pos 1) ≡ ok (some r))
            × (contents r ≡ take 1 (contents three) ++ drop 2 (contents three))
            × IsValid r))
del_item_lem_example = del_item_lem three 1 three-IsValid

list_subscript-lookup_example :
    list_subscript three (negsuc 0) ≡ lookup_index (contents three) (negsuc 0)
list_subscript-lookup_example = list_subscript-lookup three (negsuc 0) three-IsValid

list_slice_lem_example :
    (r : ListObject ℕ) × (list_slice three (pos 1) (pos 9) ≡ ok r)
    × (contents r ≡ take 2 (drop 1 (contents three)))
    × IsValid r
list_slice_lem_example = list_slice_lem three (pos 1) (pos 9) three-IsValid

list_resize_lem_example : (r : ListObject ℕ) × (list_resize three 20 ≡ ok r) × Resized three 20 r
list_resize_lem_example = list_resize_lem three 20 (omega arith)

insert_overwrites_example :
    (insert three (pos 0) (some 9) ≡ undefined)
    ⊎ ((r : ListObject ℕ) × (insert three (pos 0) (some 9) ≡ ok r)
        × (r.co_size ≡ 3 + 1)
        × (get_elem? (contents r) 0 ≡ some (some 9))
        × (get_elem? (contents r) 1 ≡ get_elem? (contents three) 1))
insert_overwrites_example =
    insert_overwrites three 0 (some 9) three-IsValid (omega arith) (omega arith)
