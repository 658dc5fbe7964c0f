-- ===== src/StrObject/Join.antt =====
-- `str_concat` and `str_join` of objects/strobject.c.
use cobj.Prelude.{
  append_assoc, append-nil, ℕ, suc, ◌+◌, ◌-◌, ◌^◌, ◌≤◌, ◌<◌, ◌≡◌, refl, sym, ap, ◌∙◌, arith, List,
  [], ◌∷◌, ◌++◌, length, length-append,
}
use cobj.Prelude.{true, false, ◌||◌, if◌then◌else◌, ltb, leb, ◌==◌, le→leb}
use cobj.Prelude.Result.{Result, ok, raise, undefined, ◌>>=◌, system_error, overflow_error}
use cobj.StrObject.{StrObject, new_str}

-- An item of the list: a str with its bytes, or an object of another type.
pub data Item : Type 0 where
  str : List ℕ → Item
  other : Item

-- A sum of two sizes, which are signed.
abbrev pub add_size : ℕ → ℕ → Result ℕ
add_size a b = if ltb (a + b) (2 ^ 63) then ok (a + b) else undefined

-- str_concat
unfoldable pub str_concat : StrObject → StrObject → Result StrObject
str_concat this s = do
  size ← add_size (length this.co_sval) (length s.co_sval)
  ok (new_str (this.co_sval ++ s.co_sval))

-- The first loop of `str_join`: the size of the result. The `int i` of both loops counts up to the
-- ssize_t of the list; the model's count has no bound, so it is the source's below 2 ^ 31 items.
unfoldable pub join_size : ℕ → List Item → ℕ → ℕ → Result ℕ
join_size seplen [] i sz = ok sz
join_size seplen (other ∷ items) i sz = raise system_error
join_size seplen (str s ∷ items) i sz = do
  sz₁ ← add_size sz (length s)
  sz₂ ← if i == 0 then ok sz₁ else add_size sz₁ seplen
  if ltb sz₂ sz || ltb (2 ^ 63 - 1) sz₂
      then raise overflow_error
      else join_size seplen items (suc i) sz₂

-- memcpy to `p`, behind the bytes `out` of a string of `sz` bytes.
abbrev pub copy : ℕ → List ℕ → List ℕ → Result (List ℕ)
copy sz s out = if leb (length out + length s) sz then ok (out ++ s) else undefined

-- The second loop: the items, and the separator behind each but the last one.
unfoldable pub join_copy : ℕ → List ℕ → List Item → List ℕ → Result (List ℕ)
join_copy sz sep [] out = ok out
join_copy sz sep (other ∷ items) out = undefined
join_copy sz sep (str s ∷ []) out = copy sz s out
join_copy sz sep (str s ∷ item ∷ items) out = do
  out₁ ← copy sz s out
  out₂ ← copy sz sep out₁
  join_copy sz sep (item ∷ items) out₂

-- The bytes behind `out` are those of the allocation.
abbrev pub filled : ℕ → List ℕ → Result Item
filled sz out = if length out == sz then ok (str out) else undefined

-- str_join; a single item is returned as it is.
unfoldable pub str_join : List ℕ → List Item → Result Item
str_join sep [] = ok (str [])
str_join sep (item ∷ []) = ok item
str_join sep (item ∷ item₂ ∷ items) = do
  sz ← join_size (length sep) (item ∷ item₂ ∷ items) 0 0
  out ← join_copy sz sep (item ∷ item₂ ∷ items) []
  filled sz out

-- Every string behind a separator.
unfoldable pub separated : List ℕ → List (List ℕ) → List ℕ
separated sep [] = []
separated sep (s ∷ ss) = sep ++ (s ++ separated sep ss)

-- The strings with separators in between.
unfoldable pub intercalate : List ℕ → List (List ℕ) → List ℕ
intercalate sep [] = []
intercalate sep (s ∷ ss) = s ++ separated sep ss

-- The sizes are in range, so no test of the first loop holds.
join_size_first :
    (seplen : ℕ) (s : List ℕ) (items : List Item)
    → length s < 2 ^ 63
    → join_size seplen (str s ∷ items) 0 0 ≡ join_size seplen items 1 (length s)
unfolding join_size
join_size_first seplen s items h =
    let fits : ltb (0 + length s) (2 ^ 63) ≡ true = ground (arith, h) in
    let low : ltb (0 + length s) 0 ≡ false = ground arith in
    let high : ltb (2 ^ 63 - 1) (0 + length s) ≡ false = ground (arith, h) in
    let same : 0 + length s ≡ length s = omega arith in rw (fits, low, high, same) refl

join_size_next :
    (seplen : ℕ) (s : List ℕ) (items : List Item) (i sz : ℕ)
    → sz + length s + seplen < 2 ^ 63
    → join_size seplen (str s ∷ items) (suc i) sz
      ≡ join_size seplen items (suc (suc i)) (sz + length s + seplen)
unfolding join_size
join_size_next seplen s items i sz h =
    let fits : ltb (sz + length s) (2 ^ 63) ≡ true = ground (arith, h) in
    let all : ltb (sz + length s + seplen) (2 ^ 63) ≡ true = ground (arith, h) in
    let later : (suc i == 0) ≡ false = ground arith in
    let low : ltb (sz + length s + seplen) sz ≡ false = ground arith in
    let high : ltb (2 ^ 63 - 1) (sz + length s + seplen) ≡ false = ground (arith, h) in
    rw (fits, later, all, low, high) refl

abbrev pub strs : List (List ℕ) → List Item
strs [] = []
strs (s ∷ ss) = str s ∷ strs ss

join_size_lem :
    (sep : List ℕ) (ss : List (List ℕ)) (i sz : ℕ)
    → sz + length (separated sep ss) < 2 ^ 63
    → join_size (length sep) (strs ss) (suc i) sz ≡ ok (sz + length (separated sep ss))
unfolding separated
join_size_lem sep [] i sz h = let same : sz ≡ sz + 0 = omega arith in unfold join_size in ap ok same
join_size_lem sep (s ∷ ss) i sz h =
    let n = length-append sep (s ++ separated sep ss) in
    let m = length-append s (separated sep ss) in
    let k = sz + length s + length sep in
    let bound : k + length (separated sep ss) < 2 ^ 63 = omega (arith, h, n, m) in
    let all : k + length (separated sep ss) ≡ sz + length (sep ++ (s ++ separated sep ss)) =
      omega (arith, n, m) in
    join_size_next (length sep) s (strs ss) i sz (omega (arith, bound))
    ∙ join_size_lem sep ss (suc i) k bound
    ∙ ap ok all

copy_lem : (sz : ℕ) (s out : List ℕ) → length out + length s ≤ sz → copy sz s out ≡ ok (out ++ s)
copy_lem sz s out h = rw (le→leb (length out + length s) sz h) refl

join_copy_lem :
    (sz : ℕ) (sep s : List ℕ) (ss : List (List ℕ)) (out : List ℕ)
    → length out + length (s ++ separated sep ss) ≤ sz
    → join_copy sz sep (strs (s ∷ ss)) out ≡ ok (out ++ (s ++ separated sep ss))
unfolding separated join_copy
join_copy_lem sz sep s [] out h =
    let n = length-append s [] in
    copy_lem sz s out (omega (arith, h, n)) ∙ ap (λ k. ok (out ++ k)) (sym (append-nil s))
join_copy_lem sz sep s (t ∷ ss) out h =
    let rest = t ++ separated sep ss in
    let n = length-append s (sep ++ rest) in
    let m = length-append sep rest in
    let l = length-append out s in
    let k = length-append (out ++ s) sep in
    let first = copy_lem sz s out (omega (arith, h, n, m)) in
    let second = copy_lem sz sep (out ++ s) (omega (arith, h, n, m, l)) in
    let whole = join_copy_lem sz sep t ss ((out ++ s) ++ sep) (omega (arith, h, n, m, l, k)) in
    let same : ((out ++ s) ++ sep) ++ rest ≡ out ++ (s ++ (sep ++ rest)) =
      append_assoc (out ++ s) sep rest ∙ append_assoc out s (sep ++ rest) in
    rw (first, second) (whole ∙ ap ok same)

-- For less than 2 ^ 31 strings whose concatenation with the separators in between has less than 2
-- ^ 63 bytes, `str_join` succeeds and gives this concatenation: no test on the size holds, no
-- memcpy leaves the result, and the result is filled.
pub str_join-intercalate :
    (sep : List ℕ) (ss : List (List ℕ))
    → length ss < 2 ^ 31
    → length (intercalate sep ss) < 2 ^ 63
    → str_join sep (strs ss) ≡ ok (str (intercalate sep ss))
unfolding str_join intercalate
str_join-intercalate sep [] few h = refl
str_join-intercalate sep (s ∷ []) few h =
    unfold separated in ap (λ k. ok (str k)) (sym (append-nil s))
str_join-intercalate sep (s ∷ t ∷ ss) few h =
    let all = s ++ separated sep (t ∷ ss) in
    let n = length-append s (separated sep (t ∷ ss)) in
    let size =
      join_size_first (length sep) s (strs (t ∷ ss)) (omega (arith, h, n))
      ∙ join_size_lem sep (t ∷ ss) 0 (length s) (omega (arith, h, n))
      ∙ ap ok (sym n) in
    let bytes = join_copy_lem (length all) sep s (t ∷ ss) [] (omega arith) in
    let full : (length all == length all) ≡ true = ground arith in rw (size, bytes, full) refl
