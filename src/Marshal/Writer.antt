-- ===== src/Marshal/Writer.antt =====
-- w_byte, w_more, w_int64, w_string, w_object and marshal.
use cobj.Prelude.{ℕ, suc, ◌+◌, ◌%◌, ◌^◌, List, [], ◌∷◌, ◌++◌, length, take}
use cobj.Prelude.{if◌then◌else◌, ltb, ◌==◌, Option, none, some}
use cobj.Prelude.Int.{ℤ, pos, negsuc}
use cobj.Prelude.Result.{Result, ok, raise, undefined, ◌>>=◌, system_error}
use cobj.BigInt.{IntObject}
use cobj.BigInt.Long.{as_long, from_long}
use cobj.DictObject.{DictObject, new_dict}
use cobj.Marshal.Known.{objects_get, objects_set}
use cobj.Marshal.Words.{word_of, bytes_of_int64}
use cobj.Marshal.Objects.{Object, Value, Objects, Pairs, node, null_value, none_value, false_value}
use cobj.Marshal.Objects.{true_value, float_value, other_value, int_value, str_value, bytes_value}
use cobj.Marshal.Objects.{
  list_value, tuple_value, dict_value, code_value, nil, cons, end, pair, count,
}

-- WFILE. `out` is what was written so far; `capacity` is the size of the bytes object, or `none`
-- where a file is written.
pub record WFile : Type 0 where
  pub objects : DictObject IntObject IntObject
  pub offset : ℕ
  pub out : List ℕ
  pub capacity : Option ℕ

-- The size of the bytes object when the next byte is written: w_more makes it larger if it is full.
unfoldable pub grown : ℕ → Option ℕ → Option ℕ
grown n none = none
grown n (some size) = if n == size then some (size + size + 1024) else some size

-- w_byte with w_more
unfoldable pub w_byte : ℕ → WFile → WFile
w_byte c p = record p {
  out = p.out ++ c ∷ [];
  offset = suc p.offset;
  capacity = grown (length p.out) p.capacity;
}

-- w_string, and the bytes of w_int64
unfoldable pub w_bytes : List ℕ → WFile → WFile
w_bytes [] p = p
w_bytes (c ∷ s) p = w_bytes s (w_byte c p)

unfoldable pub w_int64 : ℤ → WFile → WFile
w_int64 x p = w_bytes (bytes_of_int64 (word_of x)) p

-- `long x = COInt_AsLong(co)`, which is -1 where the integer is no long.
abbrev pub long_or_minus_one : Result ℤ → ℤ
long_or_minus_one (ok x) = x
long_or_minus_one _ = negsuc 0

-- The bytes that `w_string(s, (int)n, p)` writes.
unfoldable pub int_prefix : List ℕ → List ℕ
int_prefix s = if ltb (length s % 2 ^ 32) (2 ^ 31) then take (length s % 2 ^ 32) s else []

abbrev pub w_text : ℕ → List ℕ → WFile → WFile
w_text type s p = w_bytes (int_prefix s) (w_int64 (pos (length s)) (w_byte type p))

-- TYPE_REFER
abbrev pub w_refer : IntObject → WFile → WFile
w_refer offset p = w_int64 (long_or_minus_one (as_long offset)) (w_byte b'r' p)

-- The offset of an object that is written now, under its address.
abbrev pub remember : ℕ → WFile → Result WFile
remember address p = do
  d ← objects_set p.objects (pos address) (from_long (pos p.offset))
  ok (record p { objects = d })

-- An object that was found is a reference, and `write` writes any other one.
abbrev pub refer_or_write : Option IntObject → ℕ → WFile → (WFile → Result WFile) → Result WFile
refer_or_write (some offset) address p write = ok (w_refer offset p)
refer_or_write none address p write = remember address p >>= write

-- The lookup of an address at the start of w_object.
abbrev pub unless_known : ℕ → WFile → (WFile → Result WFile) → Result WFile
unless_known address p write =
    objects_get p.objects (pos address) >>= λ found. refer_or_write found address p write

unfoldable mutual
  pub w_object : Object → WFile → Result WFile
  w_object (node address v) p = unless_known address p (w_value v)

  -- The chain of tests. A float writes nothing, and `error` ends the process.
  pub w_value : Value → WFile → Result WFile
  w_value null_value p = ok (w_byte b'0' p)
  w_value none_value p = ok (w_byte b'N' p)
  w_value false_value p = ok (w_byte b'F' p)
  w_value true_value p = ok (w_byte b'T' p)
  w_value (int_value i) p = ok (w_int64 (long_or_minus_one (as_long i)) (w_byte b'i' p))
  w_value float_value p = ok p
  w_value (list_value os) p = w_items os (w_int64 (pos (count os)) (w_byte b'[' p))
  -- The pairs, and `w_object((COObject *)NULL, p)` behind them
  w_value (dict_value ps) p = do
    p' ← w_pairs ps (w_byte b'{' p)
    unless_known 0 p' (λ q. ok (w_byte b'0' q))
  w_value (tuple_value os) p = w_items os (w_int64 (pos (count os)) (w_byte b'(' p))
  w_value (code_value os argcount stacksize) p = do
    p' ← w_items os (w_byte b'c' p)
    ok (w_int64 (pos stacksize) (w_int64 (pos argcount) p'))
  w_value (str_value s) p = ok (w_text b's' s p)
  w_value (bytes_value s) p = ok (w_text b'b' s p)
  w_value other_value p = raise system_error

  -- The `int i` over a size_t, which has no bound here, is the source's below 2 ^ 31 items.
  pub w_items : Objects → WFile → Result WFile
  w_items nil p = ok p
  w_items (cons o os) p = do p' ← w_object o p; w_items os p'

  pub w_pairs : Pairs → WFile → Result WFile
  w_pairs end p = ok p
  w_pairs (pair k v ps) p = do p₁ ← w_object k p; p₂ ← w_object v p₁; w_pairs ps p₂

abbrev pub start : WFile
start = record { objects = new_dict IntObject IntObject; offset = 0; out = []; capacity = some 0 }

-- The last COBytes_Resize. Where nothing was written, `p.ptr` is still NULL.
abbrev pub resized : List ℕ → Result (List ℕ)
resized [] = undefined
resized (c ∷ s) = ok (c ∷ s)

-- marshal
unfoldable pub marshal : Object → Result (List ℕ)
marshal o = w_object o start >>= λ p. resized p.out
