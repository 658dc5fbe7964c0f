-- ===== src/RangeObject.antt =====
-- objects/rangeobject.c and objects/rangeiterobject.c: ranges of C longs and their iterators.
pub mod Laws
mod Tests
use cobj.Prelude.{ℕ, zero, suc, ◌+◌, ◌-◌, ◌*◌, ◌/◌, ◌%◌, ◌^◌, Bool, true, false, if◌then◌else◌, ltb}
use cobj.Prelude.{Option, none, some, ◌&&◌, ◌==◌}
use cobj.Prelude.Int.{ℤ, pos, negsuc, pos_part, neg_part, sub_ℕ, ltb_ℤ, ◌-ℤ◌}
use cobj.Prelude.Result.{Result, ok, raise, undefined, overflow_error}

-- `(unsigned long)v`
abbrev pub to_unsigned : ℤ → ℕ
to_unsigned v = (2 ^ 64 + pos_part v - neg_part v) % 2 ^ 64

-- `(long)w`
abbrev pub to_signed : ℕ → ℤ
to_signed w = if ltb w (2 ^ 63) then pos w else sub_ℕ w (2 ^ 64)

-- `1UL + (hi - 1UL - lo) / step`, in unsigned longs.
abbrev pub count_steps : ℤ → ℤ → ℕ → ℕ
count_steps lo hi step =
    (1 + ((to_unsigned hi + 2 ^ 64 - 1) % 2 ^ 64 + 2 ^ 64 - to_unsigned lo) % 2 ^ 64 / step)
    % 2 ^ 64

-- get_len_of_range, with its assertion.
pub get_len_of_range : ℤ → ℤ → ℤ → Result ℕ
get_len_of_range lo hi step =
    if ltb_ℤ (pos 0) step && ltb_ℤ lo hi
    then ok (count_steps lo hi (to_unsigned step))
    else if ltb_ℤ step (pos 0) && ltb_ℤ hi lo
    then ok (count_steps hi lo ((2 ^ 64 - to_unsigned step) % 2 ^ 64))
    else if ltb_ℤ (pos 0) step
    then ok 0
    else if ltb_ℤ step (pos 0)
    then ok 0
    else undefined

-- CORangeIterObject
pub record RangeIterObject : Type 0 where
  pub start : ℤ
  pub step : ℤ
  pub index : ℕ
  pub len : ℕ

-- fast_range_iter
pub fast_range_iter : ℤ → ℤ → ℤ → Result RangeIterObject
fast_range_iter start stop step = elim (get_len_of_range start stop step) [
  | ok ulen ↦
      if ltb (2 ^ 63 - 1) ulen
      then raise overflow_error
      else ok (record { start = start; step = step; index = 0; len = ulen })
  | raise e ↦ raise e
  | undefined ↦ undefined
]

-- `(long)(this->start + (unsigned long)(this->index++) * this->step)`
abbrev pub range_item : ℤ → ℤ → ℕ → ℤ
range_item start step index = to_signed ((to_unsigned start + index * to_unsigned step) % 2 ^ 64)

-- rangeiter_next: the next value, and `none` for the NULL at the end.
pub rangeiter_next : RangeIterObject → Option (ℤ × RangeIterObject)
rangeiter_next it =
    if ltb it.index it.len
    then some (range_item it.start it.step it.index, record it { index = it.index + 1 })
    else none
