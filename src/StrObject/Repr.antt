-- ===== src/StrObject/Repr.antt =====
-- `str_repr` of objects/strobject.c.
pub mod Chars
pub mod Literal
use cobj.Prelude.{ℕ, zero, suc, ◌+◌, ◌-◌, ◌*◌, ◌/◌, ◌%◌, ◌^◌, List, [], ◌∷◌, ◌++◌, length}
use cobj.Prelude.{Bool, true, false, ◌&&◌, ◌||◌, not, if◌then◌else◌, ltb, leb, ◌==◌}
use cobj.Prelude.Result.{Result, ok, raise, undefined, ◌>>=◌, overflow_error}

-- memchr
abbrev pub memchr : List ℕ → ℕ → Bool
memchr [] c = false
memchr (x ∷ s) c = x == c || memchr s c

-- Single quotes, unless the string has such a quote and no double one.
unfoldable pub quote_of : List ℕ → ℕ
quote_of s = if memchr s 39 && not (memchr s 34) then 34 else 39

-- A digit of `%02x`
pub hex_digit : ℕ → ℕ
hex_digit d = if ltb d 10 then 48 + d else 87 + d

-- `sprintf(p, "\\x%02x", c); p += 4`: the bytes before the new `p`. A negative char is a negative
-- int, whose first two digits of eight are `ff`.
abbrev pub hex_escape : ℕ → List ℕ
hex_escape c =
    b'\\'
    ∷ b'x'
    ∷ (if ltb c 128 then hex_digit (c / 16) ∷ hex_digit (c % 16) ∷ [] else b'f' ∷ b'f' ∷ [])

-- The bytes that sprintf writes, with the zero byte at the end.
abbrev pub sprintf_size : ℕ → ℕ
sprintf_size c = if ltb c 128 then 5 else 11

-- `c < ' ' || c >= 0x7f` of a signed char
abbrev pub is_escaped : ℕ → Bool
is_escaped c = ltb c 32 || leb 127 c

-- The branches for a char of the string, behind the assertion.
unfoldable pub repr_char : ℕ → ℕ → List ℕ → ℕ → Result (List ℕ)
repr_char quote newsize out c =
    if ltb (newsize - length out) 5
    then undefined
    else if c == quote || c == b'\\'
    then ok (out ++ b'\\' ∷ c ∷ [])
    else if c == 9
    then ok (out ++ b'\\' ∷ b't' ∷ [])
    else if c == 10
    then ok (out ++ b'\\' ∷ b'n' ∷ [])
    else if c == 13
    then ok (out ++ b'\\' ∷ b'r' ∷ [])
    else if is_escaped c
    then (if leb (length out + sprintf_size c) (newsize + 1)
        then ok (out ++ hex_escape c)
        else undefined)
    else ok (out ++ c ∷ [])

unfoldable pub repr_loop : ℕ → ℕ → List ℕ → List ℕ → Result (List ℕ)
repr_loop quote newsize out [] = ok out
repr_loop quote newsize out (c ∷ s) = do
  out' ← repr_char quote newsize out c
  repr_loop quote newsize out' s

-- str_repr
unfoldable pub str_repr : List ℕ → Result (List ℕ)
str_repr s =
    let newsize = (2 + 4 * length s) % 2 ^ 64 in
    let quote = quote_of s in
    if leb (2 ^ 63) newsize || not (newsize / 4 == length s)
    then raise overflow_error
    else do out ← repr_loop quote newsize (quote ∷ []) s; ok (out ++ quote ∷ [])
