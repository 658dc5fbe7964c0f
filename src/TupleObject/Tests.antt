-- ===== src/TupleObject/Tests.antt =====
-- Tuples at concrete inputs.
use cobj.Prelude.{ℕ, zero, suc, List, ◌^◌, ◌-◌, ◌≡◌, ◌≤◌, ◌⊎◌, refl, [], ◌∷◌, length}
use cobj.Prelude.Result.{ok, undefined}
use cobj.TupleObject.{tuple_hash, hash_items, mul_long}
use cobj.TupleObject.Laws.{cells, tuple_hash-zero}

-- Each number is its own hash, and 0 has the hash -1.
abbrev own_hash : ℕ → ℕ
own_hash zero = 2 ^ 64 - 1
own_hash (suc n) = suc n

abbrev three : List ℕ
three = 3 ∷ 0 ∷ 5 ∷ []

tuple_hash-zero_example :
    ((tuple_hash own_hash (cells three) ≡ undefined) × (3 ≤ length three))
    ⊎ (tuple_hash own_hash (cells three) ≡ ok 0)
tuple_hash-zero_example = tuple_hash-zero own_hash 3 (0 ∷ 5 ∷ [])

-- A large hash overflows in the first of three rounds.
overflow_of_three : tuple_hash own_hash (cells (2 ^ 62 ∷ 4 ∷ 5 ∷ [])) ≡ undefined
unfolding tuple_hash hash_items mul_long
overflow_of_three = refl
