-- ===== src/Hashing/Numbers.antt =====
-- Keys for the runs: numbers, each its own hash, equal as objects where they are equal.
use cobj.Prelude.{ℕ, ◌==◌, arith, refl, ap}
use cobj.Prelude.Result.{ok}
use cobj.Hashing.{KeyType, IsLawful}

abbrev pub numbers : KeyType
numbers = record { Key = ℕ; same = λ a b. a == b; hash = λ a. ok a; equal = λ a b. ok (a == b) }

pub numbers-IsLawful : IsLawful numbers
numbers-IsLawful = record {
  same_refl = λ a. ground arith;
  equal_total = λ a b. (a == b, refl);
  equal_refl = λ a. ap ok (ground arith);
}
