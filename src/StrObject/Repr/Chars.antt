-- ===== src/StrObject/Repr/Chars.antt =====
-- What `str_repr` of objects/strobject.c writes, and how it is decoded, which cobj itself does not do.
use cobj.Prelude.{
  ℕ, ◌+◌, ◌-◌, ◌*◌, ◌/◌, ◌%◌, ◌≤◌, ◌<◌, ◌≡◌, refl, sym, ap, ◌∙◌, arith, List, [], ◌∷◌, ◌++◌, length,
}
use cobj.Prelude.{
  true, false, Bool-cases, ◌||◌, ◌⊎◌, inl, inr, if◌then◌else◌, ltb, leb, ◌==◌, ==_iff, Option, none,
  some,
}
use cobj.Prelude.Result.{ok}
use cobj.StrObject.Repr.{hex_digit, is_escaped, repr_char}

-- The value of a hexadecimal digit
pub digit_value : ℕ → ℕ
digit_value c = if ltb c 58 then c - 48 else c - 87

-- A char between the quotes: unescaped, behind a backslash, or a digit of `\x`.
pub data Mode : Type 0 where
  unescaped escaped high : Mode
  low : ℕ → Mode

abbrev pub after_char : ℕ → Option (List ℕ) → Option (List ℕ)
after_char c none = none
after_char c (some s) = some (c ∷ s)

abbrev pub if_end : List ℕ → Option (List ℕ)
if_end [] = some []
if_end (c ∷ s) = none

-- The string that was written between quotes, decoded.
unfoldable pub literal : ℕ → Mode → List ℕ → Option (List ℕ)
literal quote mode [] = none
literal quote unescaped (c ∷ s) =
    let more = literal quote unescaped s in
    let escape = literal quote escaped s in
    if c == quote then if_end s else if c == b'\\' then escape else after_char c more
literal quote escaped (c ∷ s) =
    let more = literal quote unescaped s in
    let hex = literal quote high s in
    if c == b't'
    then after_char 9 more
    else if c == b'n'
    then after_char 10 more
    else if c == b'r'
    then after_char 13 more
    else if c == b'x'
    then hex
    else after_char c more
literal quote high (c ∷ s) = literal quote (low (digit_value c)) s
literal quote (low d) (c ∷ s) = after_char (d * 16 + digit_value c) (literal quote unescaped s)

-- The quotes of a literal
abbrev pub IsQuote : ℕ → Type 0
IsQuote q = (q ≡ 34) ⊎ (q ≡ 39)

-- A char was written in at most four bytes, which are read as the char.
pub record WrittenChar (quote c : ℕ) (out out' : List ℕ) : Type 0 where
  pub bytes : List ℕ
  pub appended : out' ≡ out ++ bytes
  pub short : length bytes ≤ 4
  pub read :
      (rest : List ℕ)
      → literal quote unescaped (bytes ++ rest) ≡ after_char c (literal quote unescaped rest)

hex_digits :
    (c : ℕ) → c < 128 → digit_value (hex_digit (c / 16)) * 16 + digit_value (hex_digit (c % 16)) ≡ c
unfolding digit_value hex_digit
hex_digits c h = ground (arith, h)

literal-unescaped :
    (quote c : ℕ) (rest : List ℕ)
    → (c == quote) ≡ false
    → (c == b'\\') ≡ false
    → literal quote unescaped (c ∷ rest) ≡ after_char c (literal quote unescaped rest)
unfolding literal
literal-unescaped quote c rest e f = rw (e, f) refl

literal_backslash :
    (quote c : ℕ) (rest : List ℕ)
    → IsQuote quote
    → literal quote unescaped (b'\\' ∷ c ∷ rest) ≡ literal quote escaped (c ∷ rest)
unfolding literal
literal_backslash quote c rest h = let e : (b'\\' == quote) ≡ false = ground (arith, h) in rw e refl

literal_same :
    (quote c : ℕ) (rest : List ℕ)
    → ((c == quote || c == b'\\') ≡ true)
    → IsQuote quote
    → literal quote escaped (c ∷ rest) ≡ after_char c (literal quote unescaped rest)
unfolding literal
literal_same quote c rest e h =
    let t : (c == b't') ≡ false = ground (arith, e, h) in
    let n : (c == b'n') ≡ false = ground (arith, e, h) in
    let r : (c == b'r') ≡ false = ground (arith, e, h) in
    let x : (c == b'x') ≡ false = ground (arith, e, h) in rw (t, n, r, x) refl

literal_hex :
    (quote c : ℕ) (rest : List ℕ)
    → c < 128
    → literal quote escaped (b'x' ∷ hex_digit (c / 16) ∷ hex_digit (c % 16) ∷ rest)
      ≡ after_char c (literal quote unescaped rest)
unfolding literal
literal_hex quote c rest h = ap (λ k. after_char k (literal quote unescaped rest)) (hex_digits c h)

-- A branch of repr_char that appends a backslash and a byte.
with_backslash :
    (quote c d : ℕ) (out : List ℕ)
    → IsQuote quote
    → ((rest : List ℕ)
        → literal quote escaped (d ∷ rest) ≡ after_char c (literal quote unescaped rest))
    → WrittenChar quote c out (out ++ b'\\' ∷ d ∷ [])
with_backslash quote c d out q read = record {
  bytes = b'\\' ∷ d ∷ [];
  appended = refl;
  short = omega arith;
  read = λ rest. literal_backslash quote d rest q ∙ read rest;
}

pub repr_char-WrittenChar :
    (quote newsize : ℕ) (out : List ℕ) (c : ℕ)
    → IsQuote quote
    → c < 128
    → length out + 5 ≤ newsize
    → (out' : List ℕ) × (repr_char quote newsize out c ≡ ok out') × WrittenChar quote c out out'
unfolding repr_char
repr_char-WrittenChar quote newsize out c q h room =
    let fits : ltb (newsize - length out) 5 ≡ false = ground (arith, room) in
    elim (Bool-cases (c == quote || c == b'\\')) [
      | inl e ↦ (
        _,
        rw (fits, e) refl,
        with_backslash quote c c out q (λ rest. literal_same quote c rest e q),
      )
      | inr e ↦ elim (Bool-cases (c == 9)) [
        | inl f ↦ (
          _,
          rw (fits, e, f) refl,
          with_backslash quote c b't' out q (λ rest.
              unfold literal in
              ap (λ k. after_char k (literal quote unescaped rest)) (sym ((==_iff c 9).0 f))),
        )
        | inr f ↦ elim (Bool-cases (c == 10)) [
          | inl g ↦ (
            _,
            rw (fits, e, f, g) refl,
            with_backslash quote c b'n' out q (λ rest.
                unfold literal in
                ap (λ k. after_char k (literal quote unescaped rest)) (sym ((==_iff c 10).0 g))),
          )
          | inr g ↦ elim (Bool-cases (c == 13)) [
            | inl i ↦ (
              _,
              rw (fits, e, f, g, i) refl,
              with_backslash quote c b'r' out q (λ rest.
                  unfold literal in
                  ap (λ k. after_char k (literal quote unescaped rest)) (sym ((==_iff c 13).0 i))),
            )
            | inr i ↦ others fits e f g i
          ]
        ]
      ]
    ]
  where
    others :
        ltb (newsize - length out) 5 ≡ false
        → (c == quote || c == b'\\') ≡ false
        → (c == 9) ≡ false
        → (c == 10) ≡ false
        → (c == 13) ≡ false
        → (out' : List ℕ) × (repr_char quote newsize out c ≡ ok out') × WrittenChar quote c out out'
    others fits e f g i =
        let ascii : ltb c 128 ≡ true = ground (arith, h) in
        let space : leb (length out + 5) (newsize + 1) ≡ true = ground (arith, room) in
        let quote_no : (c == quote) ≡ false = ground (arith, e) in
        let slash_no : (c == b'\\') ≡ false = ground (arith, e) in
        elim (Bool-cases (is_escaped c)) [
          | inl j ↦ (
            out ++ b'\\' ∷ b'x' ∷ hex_digit (c / 16) ∷ hex_digit (c % 16) ∷ [],
            rw (fits, e, f, g, i, j, ascii, space) refl,
            record {
              bytes = b'\\' ∷ b'x' ∷ hex_digit (c / 16) ∷ hex_digit (c % 16) ∷ [];
              appended = refl;
              short = omega arith;
              read = λ rest. literal_backslash quote b'x' _ q ∙ literal_hex quote c rest h;
            },
          )
          | inr j ↦ (
            out ++ c ∷ [],
            rw (fits, e, f, g, i, j) refl,
            record {
              bytes = c ∷ [];
              appended = refl;
              short = omega arith;
              read = λ rest. literal-unescaped quote c rest quote_no slash_no;
            },
          )
        ]
