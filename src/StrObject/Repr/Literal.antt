-- ===== src/StrObject/Repr/Literal.antt =====
-- `str_repr` of objects/strobject.c on whole strings.
use cobj.Prelude.{
  append_assoc, append-nil, ℕ, ◌+◌, ◌*◌, ◌/◌, ◌%◌, ◌^◌, ◌≤◌, ◌<◌, ◌≡◌, ◌≢◌, refl, sym, ap, ◌∙◌,
  arith, List, [], ◌∷◌, ◌++◌, length, length-append, All,
}
use cobj.Prelude.{
  true, false, Bool-cases, ◌&&◌, ◌||◌, not, inl, inr, if◌then◌else◌, leb, ◌==◌, Option, none, some,
}
use cobj.Prelude.Result.{ok}
use cobj.StrObject.Repr.{memchr, quote_of, repr_loop, str_repr}
use cobj.StrObject.Repr.Chars.{IsQuote, literal, unescaped, after_char, repr_char-WrittenChar}

-- The decoding of what str_repr writes, with its quotes. The scanner is not asked: in single quotes
-- it takes only \' and \\ as escapes.
pub unquoted : List ℕ → Option (List ℕ)
unquoted [] = none
unquoted (q ∷ s) = if q == 34 || q == 39 then literal q unescaped s else none

abbrev pub IsAscii : List ℕ → Type 0
IsAscii s = All (λ c. c < 128) s

-- The loop of str_repr, before the closing quote.
pub record WrittenLoop (quote newsize : ℕ) (s out : List ℕ) : Type 0 where
  pub bytes : List ℕ
  pub wrote : repr_loop quote newsize out s ≡ ok (out ++ bytes)
  pub short : length bytes ≤ 4 * length s
  pub read : literal quote unescaped (bytes ++ quote ∷ []) ≡ some s

repr_loop-WrittenLoop :
    (quote newsize : ℕ) (s out : List ℕ)
    → IsQuote quote
    → IsAscii s
    → length out + 4 * length s + 1 ≤ newsize
    → WrittenLoop quote newsize s out
unfolding repr_loop
repr_loop-WrittenLoop quote newsize [] out q h room =
    let same : (quote == quote) ≡ true = ground arith in
    record {
      bytes = [];
      wrote = ap ok (sym (append-nil out));
      short = omega arith;
      read = unfold literal in rw same refl;
    }
repr_loop-WrittenLoop quote newsize (c ∷ s) out q (l, h) room =
    let (out', e, w) = repr_char-WrittenChar quote newsize out c q l (omega (arith, room)) in
    let n = ap (λ k. length k) w.appended in
    let m = length-append out w.bytes in
    let r = repr_loop-WrittenLoop quote newsize s out' q h (omega (arith, room, n, m, w.short)) in
    record {
      bytes = w.bytes ++ r.bytes;
      wrote = rw e (
          r.wrote
          ∙ ap (λ k. ok (k ++ r.bytes)) w.appended
          ∙ ap ok (append_assoc out w.bytes r.bytes));
      short = omega (arith, w.short, r.short, length-append w.bytes r.bytes);
      read =
          ap (literal quote unescaped) (append_assoc w.bytes r.bytes (quote ∷ []))
          ∙ w.read (r.bytes ++ quote ∷ [])
          ∙ ap (after_char c) r.read;
    }

quote_of-IsQuote : (s : List ℕ) → IsQuote (quote_of s)
unfolding quote_of
quote_of-IsQuote s = elim (Bool-cases (memchr s 39 && not (memchr s 34))) [
  | inl e ↦ rw e (inl refl)
  | inr e ↦ rw e (inr refl)
]

unquoted_quote : (q : ℕ) (s : List ℕ) → IsQuote q → unquoted (q ∷ s) ≡ literal q unescaped s
unfolding unquoted
unquoted_quote q s h = let e : (q == 34 || q == 39) ≡ true = ground (arith, h) in rw e refl

-- The size is in range, so the test for it fails.
str_repr_loop :
    (s out : List ℕ)
    → length s < 2 ^ 60
    → repr_loop (quote_of s) (2 + 4 * length s) (quote_of s ∷ []) s ≡ ok out
    → str_repr s ≡ ok (out ++ quote_of s ∷ [])
unfolding str_repr
str_repr_loop s out l e =
    let size : (2 + 4 * length s) % 2 ^ 64 ≡ 2 + 4 * length s = omega (arith, l) in
    let low : leb (2 ^ 63) (2 + 4 * length s) ≡ false = ground (arith, l) in
    let exact : ((2 + 4 * length s) / 4 == length s) ≡ true = ground arith in
    rw (size, low, exact, e) refl

-- What is written for a string, with a decoding that gives the string back.
str_repr-decoded :
    (s : List ℕ)
    → IsAscii s
    → length s < 2 ^ 60
    → (t : List ℕ) × (str_repr s ≡ ok t) × (length t ≤ 2 + 4 * length s) × (unquoted t ≡ some s)
str_repr-decoded s h l =
    let q = quote_of s in
    let quote = quote_of-IsQuote s in
    let w = repr_loop-WrittenLoop q (2 + 4 * length s) s (q ∷ []) quote h (omega arith) in
    (
      q ∷ (w.bytes ++ q ∷ []),
      str_repr_loop s _ l w.wrote,
      omega (arith, w.short, length-append w.bytes (q ∷ [])),
      unquoted_quote q (w.bytes ++ q ∷ []) quote ∙ w.read,
    )

some_injective {ℓ} : {A : Type ℓ} {a b : A} → some a ≡ some b → a ≡ b
some_injective {a = a} e = ap (λ o. elim o [ none ↦ a | some x ↦ x ]) e

-- For two different strings of ASCII chars of less than 2 ^ 60 bytes each, `str_repr` succeeds on
-- both, with the assertion on the room and every write inside the buffer, and gives at most 4
-- bytes for each char and two quotes; what it gives for the one is not what it gives for the
-- other.
pub str_repr_distinct :
    (s s' : List ℕ)
    → IsAscii s
    → IsAscii s'
    → length s < 2 ^ 60
    → length s' < 2 ^ 60
    → s ≢ s'
    → (t : List ℕ) × (t' : List ℕ) × (str_repr s ≡ ok t)
      × (str_repr s' ≡ ok t')
      × (length t ≤ 2 + 4 * length s)
      × (length t' ≤ 2 + 4 * length s')
      × (t ≢ t')
str_repr_distinct s s' h h' l l' d =
    let (t, e, n, u) = str_repr-decoded s h l in
    let (t', e', n', u') = str_repr-decoded s' h' l' in
    (t, t', e, e', n, n', λ same. d (some_injective (sym u ∙ ap unquoted same ∙ u')))
