-- ===== src/StrObject/Tests.antt =====
-- Strings at concrete inputs.
use cobj.Prelude.{ℕ, ◌+◌, ◌*◌, ◌≤◌, ◌≡◌, ◌≢◌, refl, ap, arith, List, [], ◌∷◌, length, false, inl}
use cobj.Prelude.Int.{pos}
use cobj.Prelude.Result.{ok, undefined}
use cobj.BigInt.Compare.{lt}
use cobj.BigInt.Compare.Order.{holds}
use cobj.StrObject.{StrObject, new_str, str_hash}
use cobj.StrObject.Hash.{polynomial_hash, IsHashed, str_hash-IsHashed}
use cobj.StrObject.Compare.{str_compare}
use cobj.StrObject.Compare.Order.{lexicographic, verdict, str_compare-lexicographic}
use cobj.StrObject.Join.{str, str_join, separated, intercalate, strs, str_join-intercalate}
use cobj.StrObject.Repr.{quote_of, repr_char, repr_loop, str_repr}
use cobj.StrObject.Repr.Literal.{str_repr_distinct}

-- Ten bytes, of which the loop takes eight, one of them negative as a char.
abbrev key : StrObject
key = new_str (b'd' ∷ b'i' ∷ b'c' ∷ b't' ∷ b'_' ∷ 195 ∷ b'k' ∷ b'e' ∷ b'y' ∷ b's' ∷ [])

abbrev shorter : StrObject
shorter = new_str (b'd' ∷ b'i' ∷ [])

key-IsHashed : IsHashed key
unfolding IsHashed
key-IsHashed = inl refl

str_hash-IsHashed_example :
    let (hash, o') = str_hash key in
    (hash ≡ polynomial_hash key.co_sval) × IsHashed o' × (o'.co_sval ≡ key.co_sval)
str_hash-IsHashed_example = str_hash-IsHashed key key-IsHashed (omega arith) (omega arith)

str_compare-lexicographic_example :
    str_compare false shorter key lt
    ≡ verdict (holds lt (lexicographic shorter.co_sval key.co_sval) (pos 0))
str_compare-lexicographic_example =
    str_compare-lexicographic false shorter key lt (omega arith) (omega arith) (λ e. cc)

abbrev words : List (List ℕ)
words = (b'a' ∷ b'b' ∷ []) ∷ [] ∷ (b'c' ∷ []) ∷ []

str_join-intercalate_example :
    str_join (b',' ∷ b' ' ∷ []) (strs words) ≡ ok (str (intercalate (b',' ∷ b' ' ∷ []) words))
str_join-intercalate_example =
    str_join-intercalate (b',' ∷ b' ' ∷ []) words (omega arith)
      (unfold intercalate separated in omega arith)

abbrev line : List ℕ
line = b'i' ∷ b't' ∷ 39 ∷ b's' ∷ 9 ∷ 1 ∷ b'\\' ∷ 10 ∷ []

abbrev other_line : List ℕ
other_line = b'i' ∷ b't' ∷ 39 ∷ b's' ∷ 34 ∷ []

str_repr_distinct_example :
    (t : List ℕ) × (t' : List ℕ) × (str_repr line ≡ ok t)
    × (str_repr other_line ≡ ok t')
    × (length t ≤ 2 + 4 * length line)
    × (length t' ≤ 2 + 4 * length other_line)
    × (t ≢ t')
str_repr_distinct_example =
    str_repr_distinct line other_line (omega arith) (omega arith) (omega arith) (omega arith)
      (λ e. absurd (omega (arith, ap length e)))

-- A byte that is negative as a char is written with eight digits, past the end of the buffer.
negative_char : str_repr (200 ∷ []) ≡ undefined
unfolding str_repr repr_loop repr_char quote_of
negative_char = refl
