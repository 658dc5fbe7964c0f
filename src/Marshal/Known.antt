-- ===== src/Marshal/Known.antt =====
-- The dictionary `objects` of WFILE and RFILE: a dictionary of objects/dictobject.c with ints as
-- keys.
use cobj.Prelude.{Bool, false, Option, none, some}
use cobj.Prelude.Int.{ℤ}
use cobj.Prelude.Result.{Result, ok, undefined}
use cobj.BigInt.{IntObject}
use cobj.BigInt.Long.{from_long}
use cobj.BigInt.Compare.{int_compare, eq}
use cobj.BigInt.Shift.{int_hash}
use cobj.Hashing.{KeyType}
use cobj.DictObject.{DictObject, get_item, set_item}

-- COInt_Type as the type of the keys: int_hash is never -1, and int_compare with Cmp_EQ answers.
-- Ints with the same pointer are equal, so `same` may be left out.
abbrev pub int_keys : KeyType
int_keys = record {
  Key = IntObject;
  same = λ a b. false;
  hash = λ a. ok (int_hash a);
  equal = λ a b. answer (int_compare false a b eq);
}
  where
    answer : Option Bool → Result Bool
    answer none = undefined
    answer (some b) = ok b

-- `CODict_GetItem(p->objects, COInt_FromLong(n))`
unfoldable pub objects_get : {V : Type 0} → DictObject IntObject V → ℤ → Result (Option V)
objects_get d n = get_item int_keys d (from_long n)

-- `CODict_SetItem(p->objects, COInt_FromLong(n), v)`
unfoldable pub objects_set :
    {V : Type 0} → DictObject IntObject V → ℤ → V → Result (DictObject IntObject V)
objects_set d n v = set_item int_keys d (from_long n) v
