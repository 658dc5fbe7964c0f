-- ===== src/RangeObject/Tests.antt =====
-- Runs of objects/rangeobject.c: the range from -2 to 9 in steps of 3.
use cobj.Prelude.{ℕ, ◌+◌, ◌*◌, ◌<◌, ◌≤◌, ◌≡◌, arith}
use cobj.Prelude.Int.{pos, negsuc, sub_ℕ, ◌+ℤ◌}
use cobj.Prelude.Result.{ok}
use cobj.RangeObject.{get_len_of_range, range_item}
use cobj.RangeObject.Laws.{get_len_of_range_lem, range_item_lem}

get_len_of_range_lem_example :
    (n : ℕ) × (get_len_of_range (negsuc 1) (pos 9) (pos 3) ≡ ok n)
    × (get_len_of_range (pos 9) (negsuc 1) (sub_ℕ 0 3) ≡ ok n)
    × (11 ≤ n * 3)
    × (n * 3 < 11 + 3)
get_len_of_range_lem_example =
    get_len_of_range_lem (negsuc 1) (pos 9) 11 3 (omega arith) (omega arith) (omega arith)
      (omega arith) (omega arith) (omega arith)

range_item_lem_example : range_item (negsuc 1) (pos 3) 2 ≡ negsuc 1 +ℤ pos (2 * 3)
range_item_lem_example =
    range_item_lem (negsuc 1) 3 2 (omega arith) (unfold ◌+ℤ◌ in omega arith) (omega arith)
