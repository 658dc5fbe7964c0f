-- ===== src/RangeObject/Laws.antt =====
-- Length and values of a range (objects/rangeobject.c, objects/rangeiterobject.c).
use cobj.Prelude.{ℕ, ◌+◌, ◌-◌, ◌*◌, ◌/◌, ◌%◌, ◌^◌, ◌<◌, ◌≤◌, ◌≡◌, arith, refl}
use cobj.Prelude.{true, false, ◌&&◌}
use cobj.Prelude.Int.{ℤ, pos, pos_part, neg_part, sub_ℕ, ltb_ℤ, ◌+ℤ◌}
use cobj.Prelude.Result.{ok}
use native.Mathlib.Nat.{div-le_self, div-add-mod, mod-lt}
use cobj.BigInt.Long.{IsLong}
use cobj.RangeObject.{to_unsigned, to_signed, count_steps, get_len_of_range, range_item}

-- `hi` is `gap` above `lo`.
abbrev pub IsGap : ℤ → ℤ → ℕ → Type 0
IsGap lo hi gap = pos_part hi + neg_part lo ≡ pos_part lo + neg_part hi + gap

-- No word wraps in the count of the steps.
count_steps_lem :
    (lo hi : ℤ) (gap step : ℕ)
    → IsLong lo
    → IsLong hi
    → IsGap lo hi gap
    → 0 < gap
    → 0 < step
    → count_steps lo hi step ≡ 1 + (gap - 1) / step
count_steps_lem lo hi gap step l h g p q =
    let d : ((to_unsigned hi + 2 ^ 64 - 1) % 2 ^ 64 + 2 ^ 64 - to_unsigned lo) % 2 ^ 64 ≡ gap - 1 =
      omega arith in
    let q : (gap - 1) / step ≤ gap - 1 = div-le_self (gap - 1) step in
    rw d (let b : 1 + (gap - 1) / step < 2 ^ 64 = omega arith in omega arith)

-- The number of steps is the least that covers the gap.
steps_cover :
    (gap step : ℕ)
    → 0 < gap
    → 0 < step
    → let n = 1 + (gap - 1) / step in (gap ≤ n * step) × (n * step < gap + step)
steps_cover gap step p q =
    let e = div-add-mod (gap - 1) step in
    let m = mod-lt (gap - 1) q in
    let k = (gap - 1) / step in
    let w : (1 + k) * step ≡ step + step * k = grind arith in
    (omega (arith, e, m, w), omega (arith, e, m, w))

-- Where `lo` and `hi` are C longs, `hi` is `gap` above `lo` with `gap` positive, and `step` is
-- positive and below 2 ^ 63, `get_len_of_range` gives the same number for the way up by `step` and
-- the way down by `step`, and it is the least number of steps that covers the gap; no unsigned
-- long wraps on the way to a wrong result.
pub get_len_of_range_lem :
    (lo hi : ℤ) (gap step : ℕ)
    → IsLong lo
    → IsLong hi
    → IsGap lo hi gap
    → 0 < gap
    → 0 < step
    → step < 2 ^ 63
    → (n : ℕ) × (get_len_of_range lo hi (pos step) ≡ ok n)
      × (get_len_of_range hi lo (sub_ℕ 0 step) ≡ ok n)
      × (gap ≤ n * step)
      × (n * step < gap + step)
unfolding get_len_of_range
get_len_of_range_lem lo hi gap step l h g p q r =
    let e = count_steps_lem lo hi gap step l h g p q in
    let (c, d) = steps_cover gap step p q in
    let up : (ltb_ℤ (pos 0) (pos step) && ltb_ℤ lo hi) ≡ true = ground arith in
    let not_up : (ltb_ℤ (pos 0) (sub_ℕ 0 step) && ltb_ℤ hi lo) ≡ false = ground arith in
    let down : (ltb_ℤ (sub_ℕ 0 step) (pos 0) && ltb_ℤ lo hi) ≡ true = ground arith in
    let s1 : to_unsigned (pos step) ≡ step = omega arith in
    let s2 : (2 ^ 64 - to_unsigned (sub_ℕ 0 step)) % 2 ^ 64 ≡ step = ground arith in
    (1 + (gap - 1) / step, rw (up, s1, e) refl, rw (not_up, down, s2, e) refl, c, d)

-- Where the start and the value that is meant are C longs and the step is positive and below 2 ^
-- 63, the value that `rangeiter_next` computes at `index` is the start and `index` steps.
pub range_item_lem :
    (lo : ℤ) (step index : ℕ)
    → IsLong lo
    → IsLong (lo +ℤ pos (index * step))
    → step < 2 ^ 63
    → range_item lo (pos step) index ≡ lo +ℤ pos (index * step)
range_item_lem lo step index l h r =
    let s1 : to_unsigned (pos step) ≡ step = omega arith in rw s1 (moved lo (index * step) l h)
  where
    moved :
        (v : ℤ) (d : ℕ)
        → IsLong v
        → IsLong (v +ℤ pos d)
        → to_signed ((to_unsigned v + d) % 2 ^ 64) ≡ v +ℤ pos d
    moved v d a b = unfold ◌+ℤ◌ in ground arith
