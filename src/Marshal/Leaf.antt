-- ===== src/Marshal/Leaf.antt =====
-- marshal and unmarshal on an object that has no objects inside.
use cobj.Prelude.{ℕ, ◌^◌, ◌<◌, ◌≡◌, List, [], ◌∷◌, ◌++◌, length}
use cobj.Prelude.{false, ◌==◌}
use cobj.Prelude.Result.{ok}
use cobj.BigInt.{IntObject, IsNormal, to_ℤ}
use cobj.BigInt.Long.{IsLong}
use cobj.DictObject.{DictObject}
use cobj.DictObject.{set_item}
use cobj.Marshal.Objects.{
  Object, Value, Pairs, null_value, none_value, false_value, true_value, int_value, str_value,
  bytes_value,
}
use cobj.Marshal.Writer.{WFile, w_value}
use cobj.Marshal.Reader.{RFile, r_object, read_value, tag_of, complete}

-- The objects without others inside that can be read back: integers that are C longs, and texts
-- below 2 ^ 31 bytes.
pub data IsLeaf : Value → Type 0 where
  null_leaf : IsLeaf null_value
  none_leaf : IsLeaf none_value
  false_leaf : IsLeaf false_value
  true_leaf : IsLeaf true_value
  int_leaf : {i : IntObject} → IsNormal i → IsLong (to_ℤ i) → IsLeaf (int_value i)
  str_leaf : {s : List ℕ} → length s < 2 ^ 31 → IsLeaf (str_value s)
  bytes_leaf : {s : List ℕ} → length s < 2 ^ 31 → IsLeaf (bytes_value s)

module _ (set_item : Pairs → Object → Object → Pairs) where
  -- What is written for a value behind any bytes, and how it is read.
  record Piece (v : Value) : Type 0 where
    tag : ℕ
    bytes : List ℕ
    no_eof : (tag == 255) ≡ false
    after : WFile → WFile
    wrote : (p : WFile) → w_value v p ≡ ok (after p)
    out : (p : WFile) → (after p).out ≡ p.out ++ tag ∷ bytes
    reads :
        (q : RFile) (fuel offset : ℕ)
        → q.rest ≡ bytes ++ []
        → (q' : RFile) × (q'.objects ≡ q.objects)
          × (read_value set_item (r_object set_item fuel) fuel offset (tag_of tag) q
              ≡ complete offset v q')
