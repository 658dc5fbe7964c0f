-- ===== src/Marshal/Reader.antt =====
-- r_string, r_byte, r_int64, r_object and unmarshal. Bytes that are not there leave the buffer of
-- r_int32 or a string as it was, which is `undefined`.
use cobj.Prelude.{ℕ, zero, suc, ◌+◌, ◌-◌, ◌%◌, ◌^◌, List, [], ◌∷◌, length, take, drop}
use cobj.Prelude.{Bool, true, false, if◌then◌else◌, ltb, leb, ◌==◌, Option, none, some}
use cobj.Prelude.Result.{Result, ok, raise, undefined, ◌>>=◌, system_error}
use cobj.Prelude.Int.{ℤ, pos, negsuc}
use cobj.BigInt.{IntObject}
use cobj.BigInt.Long.{from_long}
use cobj.Marshal.Words.{long_of, int32_of, int64_of}
use cobj.DictObject.{DictObject, new_dict}
use cobj.Marshal.Known.{objects_get, objects_set}
use cobj.Marshal.Objects.{Object, Value, Objects, Pairs, node, null_value, none_value, false_value}
use cobj.Marshal.Objects.{true_value, int_value, str_value, bytes_value}
use cobj.Marshal.Objects.{list_value, tuple_value, dict_value, code_value, nil, cons, end}

-- What an offset stands for: an object whose items are being read, or one that is complete.
pub data Entry : Type 0 where
  pending : Entry
  done : Object → Entry

-- RFILE: `rest` are the bytes from `ptr` to `end`, or those left in the file.
pub record RFile : Type 0 where
  pub objects : DictObject IntObject Entry
  pub offset : ℕ
  pub rest : List ℕ

abbrev pub advance : ℕ → RFile → RFile
advance n p = record p { rest = drop n p.rest; offset = p.offset + n }

-- r_byte. A char is signed, so the byte 255 is EOF as well.
unfoldable pub r_byte : RFile → Option ℕ × RFile
r_byte p = first p.rest
  where
    first : List ℕ → Option ℕ × RFile
    first [] = (none, p)
    first (c ∷ rest) = (if c == 255 then none else some c, advance 1 p)

unfoldable pub r_int32 : RFile → Result (ℕ × RFile)
r_int32 p = four p.rest
  where
    four : List ℕ → Result (ℕ × RFile)
    four (a ∷ b ∷ c ∷ d ∷ rest) = ok (int32_of a b c d, advance 4 p)
    four _ = undefined

unfoldable pub r_int64 : RFile → Result (ℕ × RFile)
r_int64 p = do (lo, p₁) ← r_int32 p; (hi, p₂) ← r_int32 p₁; ok (int64_of lo hi, p₂)

-- `int n = r_int64(p)`, where n is not negative
abbrev pub c_int : ℕ → Result ℕ
c_int w = if ltb (w % 2 ^ 32) (2 ^ 31) then ok (w % 2 ^ 32) else undefined

-- A number kept in an int
unfoldable pub as_int : ℕ → ℤ
as_int w = if ltb (w % 2 ^ 32) (2 ^ 31) then pos (w % 2 ^ 32) else negsuc (2 ^ 32 - 1 - w % 2 ^ 32)

-- The tags of the objects, and the byte that is none of them.
pub data Tag : Type 0 where
  tag_null tag_none tag_false tag_true tag_int tag_list tag_dict tag_tuple : Tag
  tag_code tag_string tag_bytes tag_refer tag_other : Tag

abbrev pub tag_of : ℕ → Tag
tag_of c =
    if c == b'0'
    then tag_null
    else if c == b'N'
    then tag_none
    else if c == b'F'
    then tag_false
    else if c == b'T'
    then tag_true
    else if c == b'i'
    then tag_int
    else if c == b'['
    then tag_list
    else if c == b'{'
    then tag_dict
    else if c == b'('
    then tag_tuple
    else if c == b'c'
    then tag_code
    else if c == b's'
    then tag_string
    else if c == b'b'
    then tag_bytes
    else if c == b'r'
    then tag_refer
    else tag_other

-- EOF is read like the tag of NULL.
abbrev pub type_of : Option ℕ → Tag
type_of none = tag_null
type_of (some c) = tag_of c

-- SET_OBJECT at `int offset`
abbrev pub set_entry : ℕ → Entry → RFile → Result RFile
set_entry offset e p = do d ← objects_set p.objects (as_int offset) e; ok (record p { objects = d })

abbrev pub complete : ℕ → Value → RFile → Result (Object × RFile)
complete offset v p = do q ← set_entry offset (done (node 0 v)) p; ok (node 0 v, q)

-- The loop over the items of a list, a tuple or a code; an item that is NULL leaves a NULL.
unfoldable pub read_items : (RFile → Result (Object × RFile)) → ℕ → RFile → Result (Objects × RFile)
read_items read zero p = ok (nil, p)
read_items read (suc n) p = do (o, p₁) ← read p; (os, p₂) ← read_items read n p₁; ok (cons o os, p₂)

abbrev pub is_null : Object → Bool
is_null (node a null_value) = true
is_null _ = false

-- TYPE_REFER
abbrev pub referred : Option Entry → RFile → Result (Object × RFile)
referred (some (done o)) p = ok (o, p)
referred _ p = undefined

-- TYPE_STRING and TYPE_BYTES; `error` ends the process where the bytes end too early.
abbrev pub r_text : (List ℕ → Value) → ℕ → RFile → Result (Object × RFile)
r_text make offset p = do
  (w, p₁) ← r_int64 p
  n ← c_int w
  if leb n (length p₁.rest)
      then complete offset (make (take n p₁.rest)) (advance n p₁)
      else raise system_error

-- `set_item` is CODict_SetItem on the pairs of a dictionary in the order of CODict_Next.
module _ (set_item : Pairs → Object → Object → Pairs) where
  abbrev pub add_pair : Pairs → Object → Object → Pairs
  add_pair ps k v = if is_null v then ps else set_item ps k v

  -- The loop of TYPE_DICT until a key is NULL.
  unfoldable pub read_pairs :
      (RFile → Result (Object × RFile)) → ℕ → Pairs → RFile → Result (Pairs × RFile)
  read_pairs read zero ps p = undefined
  read_pairs read (suc fuel) ps p = do
    (k, p₁) ← read p
    if is_null k
        then ok (ps, p₁)
        else (read p₁ >>= λ (v, p₂). read_pairs read fuel (add_pair ps k v) p₂)

  -- The cases of r_object behind the type; `read` is r_object for what is inside, and `offset` is
  -- where the type stood.
  unfoldable pub read_value :
      (RFile → Result (Object × RFile)) → ℕ → ℕ → Tag → RFile → Result (Object × RFile)
  read_value read fuel offset tag_null p = complete offset null_value p
  read_value read fuel offset tag_none p = complete offset none_value p
  read_value read fuel offset tag_false p = complete offset false_value p
  read_value read fuel offset tag_true p = complete offset true_value p
  read_value read fuel offset tag_int p = do
    (w, p₁) ← r_int64 p
    complete offset (int_value (from_long (long_of w))) p₁
  read_value read fuel offset tag_list p = do
    (n, p₁) ← r_int64 p
    started ← set_entry offset pending p₁
    (os, p₂) ← read_items read n started
    complete offset (list_value os) p₂
  read_value read fuel offset tag_dict p = do
    started ← set_entry offset pending p
    (ps, p₁) ← read_pairs read fuel end started
    complete offset (dict_value ps) p₁
  read_value read fuel offset tag_tuple p = do
    (n, p₁) ← r_int64 p
    started ← set_entry offset pending p₁
    (os, p₂) ← read_items read n started
    complete offset (tuple_value os) p₂
  read_value read fuel offset tag_code p = do
    (os, p₁) ← read_items read 6 p
    (a, p₂) ← r_int64 p₁
    argcount ← c_int a
    (s, p₃) ← r_int64 p₂
    stacksize ← c_int s
    complete offset (code_value os argcount stacksize) p₃
  read_value read fuel offset tag_string p = r_text str_value offset p
  read_value read fuel offset tag_bytes p = r_text bytes_value offset p
  read_value read fuel offset tag_refer p = do
    (w, p₁) ← r_int64 p
    found ← objects_get p₁.objects (as_int w)
    referred found p₁
  read_value read fuel offset tag_other p = ok (node 0 null_value, p)

  -- r_object. An object takes a byte at least, so as many rounds as there are bytes are enough.
  unfoldable pub r_object : ℕ → RFile → Result (Object × RFile)
  r_object zero p = undefined
  r_object (suc fuel) p =
      let (c, p₁) = r_byte p in read_value (r_object fuel) fuel p.offset (type_of c) p₁

  -- unmarshal
  unfoldable pub unmarshal : List ℕ → Result Object
  unmarshal bytes = do
    (o, _) ←
        r_object (suc (length bytes))
          (record { objects = new_dict IntObject Entry; offset = 0; rest = bytes })
    ok o
