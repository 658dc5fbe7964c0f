-- ===== src/Hashing.antt =====
-- What the containers use of the objects that are their keys: `COObject_Hash`, which calls the
-- type's tp_hash, and `COObject_CompareBool` with Cmp_EQ (object.c), which first compares the
-- pointers and then calls the type's tp_compare.
pub mod Numbers
use cobj.Prelude.{ℕ, ◌<◌, ◌^◌, ◌≡◌, Bool, true, false, if◌then◌else◌}
use cobj.Prelude.Result.{Result, ok}

-- The operations of a type of keys. Two keys are the same where the pointers are equal.
pub record KeyType : Type 1 where
  pub Key : Type 0
  -- `a == b`
  pub same : Key → Key → Bool
  -- `COObject_Hash`: an unsigned long, or the exception that goes with -1.
  pub hash : Key → Result ℕ
  -- The type's tp_compare with Cmp_EQ, or its exception.
  pub equal : Key → Key → Result Bool

-- `COObject_CompareBool(a, b, Cmp_EQ)`
abbrev pub compare_eq : (T : KeyType) → T.Key → T.Key → Result Bool
compare_eq T a b = if T.same a b then ok true else T.equal a b

-- Keys whose comparison never raises, as for ints and strings, and which equal themselves.
pub record IsLawful (T : KeyType) : Type 0 where
  pub same_refl : (a : T.Key) → T.same a a ≡ true
  pub equal_total : (a b : T.Key) → (r : Bool) × (T.equal a b ≡ ok r)
  pub equal_refl : (a : T.Key) → T.equal a a ≡ ok true
