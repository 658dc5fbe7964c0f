-- ===== src/SetObject/Tests.antt =====
-- Runs of objects/setobject.c with numbers as keys, each its own hash.
use cobj.Prelude.{ℕ, ◌≡◌, arith, refl, [], ◌∷◌}
use cobj.Prelude.Result.{ok}
use cobj.SetObject.{SetObject, active, empty, set_lookkey}
use cobj.SetObject.Probe.{set_lookkey_ends}
use cobj.Hashing.Numbers.{numbers, numbers-IsLawful}

-- Seven members, and the last slot free.
abbrev seven : SetObject ℕ
seven = record {
  fill = 7;
  used = 7;
  table =
      active 0 0
      ∷ active 1 1
      ∷ active 2 2
      ∷ active 3 3
      ∷ active 4 4
      ∷ active 5 5
      ∷ active 6 6
      ∷ empty
      ∷ [];
}

set_lookkey_ends_example : (s : ℕ) × (set_lookkey numbers seven 8 8 ≡ ok s)
set_lookkey_ends_example =
    set_lookkey_ends numbers numbers-IsLawful seven 8 8 7 (omega arith) (omega arith) refl
