-- ===== src/Marshal/Tests.antt =====
-- A list with an object that is shared, which is written, and a number that is read back.
use cobj.Prelude.{◌≡◌, refl, arith, true, [], ◌∷◌}
use cobj.Prelude.Result.{Result, ok}
use cobj.Marshal.Objects.{Object, Pairs, node, none_value, list_value, nil, cons, pair}
use cobj.BigInt.Long.{from_long, small_int, abs_long, as_long, onedigit, onedigit_of}
use cobj.BigInt.Compare.{int_compare, int_cmp, highest_diff, digit_sign, cond_of}
use cobj.BigInt.Shift.{int_hash}
use cobj.DictObject.{
  get_item, dict_lookup, lookup_hash, lookup_loop, set_item, replace_or_insert, dict_insert,
  link_bucket, resize_if_full, bit_and, item_at, new_dict,
}
use cobj.Marshal.Known.{objects_get, objects_set}
use cobj.Marshal.Writer.{WFile, start, w_byte, w_bytes, w_int64, w_object}
use cobj.Marshal.Words.{bytes_of_int64, bytes_of_int32}
use cobj.BigInt.{IntObject}
use cobj.Marshal.Memory.{Fits, w_object-Fits}

empty-Fits : Fits start
unfolding Fits
empty-Fits = (refl, omega arith)

-- The same None twice
abbrev twice : Object
twice = node 1 (list_value (cons (node 2 none_value) (cons (node 2 none_value) nil)))

abbrev written_or_start : Result WFile → WFile
written_or_start (ok p) = p
written_or_start _ = start

abbrev written : WFile
written = written_or_start (w_object twice start)

written_lem : w_object twice start ≡ ok written
unfolding w_object objects_get objects_set get_item dict_lookup lookup_hash lookup_loop set_item
    replace_or_insert dict_insert link_bucket resize_if_full bit_and item_at new_dict from_long
    small_int abs_long int_hash int_compare int_cmp highest_diff digit_sign cond_of as_long onedigit
    onedigit_of w_int64 w_bytes bytes_of_int64 bytes_of_int32 w_byte
written_lem = refl

w_object-Fits_example : Fits written
w_object-Fits_example = w_object-Fits twice start written empty-Fits written_lem

-- A number of two digits, with a sign
abbrev below_zero : IntObject
below_zero = record { neg = true; digits = 5 ∷ 1 ∷ [] }

-- A dictionary that is read takes a pair in front of the others.
abbrev add_first : Pairs → Object → Object → Pairs
add_first ps k v = pair k v ps
