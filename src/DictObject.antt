-- ===== src/DictObject.antt =====
-- objects/dictobject.c: the dictionary object, a table of chained buckets that are also linked in
-- the order of their insertion.
pub mod Chains
pub mod SetGet
pub mod Delete
mod Tests
use cobj.Prelude.{ℕ, zero, suc, ◌+◌, ◌-◌, ◌*◌, ◌/◌, ◌%◌, ◌^◌, List, [], ◌∷◌, ◌++◌, length}
use cobj.Prelude.{Bool, true, false, if◌then◌else◌, ◌==◌, ltb, Option, none, some, get_or}
use cobj.Prelude.{get_elem?, replicate, set}
use cobj.Prelude.Result.{Result, ok, raise, undefined, ◌>>=◌, Exception, key_error}
use cobj.Hashing.{KeyType, compare_eq}

-- DictBucket. `key` is `none` for the dummy key, and `next` is pNext as the place of a bucket.
pub record DictBucket (K V : Type 0) : Type 0 where
  pub key : Option K
  pub item : V
  pub h : ℕ
  pub next : Option ℕ

-- pCursor: NULL, a bucket, or a bucket that was freed.
pub data Cursor : Type 0 where
  null dangling : Cursor
  at : ℕ → Cursor

-- CODictObject. `buckets` is the global list from pListHead to pListTail: a bucket is known by
-- its place there, and its pListNext is the place behind it.
pub record DictObject (K V : Type 0) : Type 0 where
  pub table_mask : ℕ
  pub num_elements : ℕ
  pub cursor : Cursor
  pub buckets : List (DictBucket K V)
  pub ar_buckets : List (Option ℕ)

-- `a & b` on the lowest `n` bits.
unfoldable pub bit_and : ℕ → ℕ → ℕ → ℕ
bit_and zero a b = 0
bit_and (suc n) a b = (a % 2) * (b % 2) + 2 * bit_and n (a / 2) (b / 2)

-- `h & nTableMask` in an unsigned int
abbrev pub index_of : ℕ → ℕ → ℕ
index_of h mask = bit_and 32 h mask

-- CODict_New
unfoldable pub new_dict : (K V : Type 0) → DictObject K V
new_dict K V = record {
  table_mask = 7;
  num_elements = 0;
  cursor = null;
  buckets = [];
  ar_buckets = replicate 8 none;
}

-- The loop of `_dict_rehash`, at the bucket of place `p`.
unfoldable pub rehash_loop :
    {K V : Type 0} → ℕ → List (DictBucket K V) → ℕ → List (Option ℕ) → List (Option ℕ)
rehash_loop mask [] p table = table
rehash_loop mask (b ∷ bs) p table =
    rehash_loop mask bs (suc p) (set table (index_of b.h mask) (some p))

-- `_dict_rehash`: the table is cleared and filled again; the chains stay as they are.
unfoldable pub dict_rehash : {K V : Type 0} → DictObject K V → DictObject K V
dict_rehash d = record d {
  ar_buckets = rehash_loop d.table_mask d.buckets 0 (replicate (d.table_mask + 1) none);
}

-- `_dict_do_resize`, in unsigned ints; the -1 of a table that cannot grow is not looked at.
unfoldable pub dict_do_resize : {K V : Type 0} → DictObject K V → DictObject K V
dict_do_resize d =
    if ltb 0 (((d.table_mask + 1) * 2) % 2 ^ 32)
    then dict_rehash (record d { table_mask = (d.table_mask * 2) % 2 ^ 32 })
    else d

-- `cmp`: an unequal key and an exception both end the search with NULL.
abbrev pub settle_key : ℕ → Result Bool → Result (Option ℕ)
settle_key p (ok true) = ok (some p)
settle_key p (ok false) = ok none
settle_key p (raise e) = ok none
settle_key p undefined = undefined

-- The bucket of place `p` with its hash the one searched for: a dummy key loops for ever.
abbrev pub match_key : (T : KeyType) → T.Key → ℕ → Option T.Key → Result (Option ℕ)
match_key T key p none = undefined
match_key T key p (some k) = settle_key p (compare_eq T k key)

-- A round at the bucket of place `p`; `rest` is the search from a later bucket of the chain.
abbrev pub visit :
    (T : KeyType) {V : Type 0}
    → T.Key
    → ℕ
    → ℕ
    → (Option ℕ → Result (Option ℕ))
    → Option (DictBucket T.Key V)
    → Result (Option ℕ)
visit T key h p rest none = undefined
visit T key h p rest (some b) = if b.h == h then match_key T key p b.key else rest b.next

-- `if (h == -1) return NULL;`
abbrev pub search : (ℕ → Result (Option ℕ)) → Result ℕ → Result (Option ℕ)
search go (ok h) = go h
search go (raise e) = ok none
search go undefined = undefined

module _ (T : KeyType) {V : Type 0} where
  -- The loop of `_dict_lookup` from the bucket `p` on; `undefined` on a place outside the list and
  -- once the fuel is used up.
  unfoldable pub lookup_loop :
      ℕ → List (DictBucket T.Key V) → T.Key → ℕ → Option ℕ → Result (Option ℕ)
  lookup_loop fuel bs key h none = ok none
  lookup_loop zero bs key h (some p) = undefined
  lookup_loop (suc fuel) bs key h (some p) =
      visit T key h p (λ s. lookup_loop fuel bs key h s) (get_elem? bs p)

  -- The rest of `_dict_lookup` once the hash is known.
  unfoldable pub lookup_hash : DictObject T.Key V → T.Key → ℕ → Result (Option ℕ)
  lookup_hash d key h =
      lookup_loop (suc (length d.buckets)) d.buckets key h
        (get_or d.ar_buckets (index_of h d.table_mask) none)

  -- `_dict_lookup`: the place of the bucket, or `none` for NULL, which a failing hash gives too.
  unfoldable pub dict_lookup : DictObject T.Key V → T.Key → Result (Option ℕ)
  dict_lookup d key = search (lookup_hash d key) (T.hash key)

  -- The new bucket at the head of its chain and at the end of the global list.
  unfoldable pub link_bucket : DictObject T.Key V → T.Key → V → ℕ → DictObject T.Key V
  link_bucket d key item h =
      let i = index_of h d.table_mask in
      let b : DictBucket T.Key V = record {
        key = some key;
        item = item;
        h = h;
        next = get_or d.ar_buckets i none;
      } in
      record {
        table_mask = d.table_mask;
        num_elements = (d.num_elements + 1) % 2 ^ 32;
        cursor = elim d.cursor [ null ↦ at (length d.buckets) | dangling ↦ dangling | at p ↦ at p ];
        buckets = d.buckets ++ b ∷ [];
        ar_buckets = set d.ar_buckets i (some (length d.buckets));
      }

  -- `if (nNumOfElements > nTableMask + 1) _dict_do_resize(this);`
  unfoldable pub resize_if_full : DictObject T.Key V → DictObject T.Key V
  resize_if_full d =
      if ltb ((d.table_mask + 1) % 2 ^ 32) d.num_elements then dict_do_resize d else d

  -- `_dict_insert`
  unfoldable pub dict_insert : DictObject T.Key V → T.Key → V → Result (DictObject T.Key V)
  dict_insert d key item = T.hash key >>= λ h. ok (resize_if_full (link_bucket d key item h))

  abbrev pub item_of : Option (DictBucket T.Key V) → Result (Option V)
  item_of none = undefined
  item_of (some b) = ok (some b.item)

  -- `p->pItem`
  unfoldable pub item_at : DictObject T.Key V → Option ℕ → Result (Option V)
  item_at d none = ok none
  item_at d (some p) = item_of (get_elem? d.buckets p)

  -- CODict_GetItem: `none` for the NULL that is returned without a new exception.
  unfoldable pub get_item : DictObject T.Key V → T.Key → Result (Option V)
  get_item d key = dict_lookup d key >>= λ p. item_at d p

  -- dict_subscript
  pub dict_subscript : DictObject T.Key V → T.Key → Result V
  dict_subscript d key = get_item d key >>= λ x. elim x [ none ↦ raise key_error | some v ↦ ok v ]

  -- `p->pItem = item` in the bucket of place `p`.
  unfoldable pub store_item : List (DictBucket T.Key V) → ℕ → V → List (DictBucket T.Key V)
  store_item [] p item = []
  store_item (b ∷ bs) zero item = record b { item = item } ∷ bs
  store_item (b ∷ bs) (suc p) item = b ∷ store_item bs p item

  unfoldable pub replace_or_insert :
      DictObject T.Key V → T.Key → V → Option ℕ → Result (DictObject T.Key V)
  replace_or_insert d key item none = dict_insert d key item
  replace_or_insert d key item (some p) = ok (record d { buckets = store_item d.buckets p item })

  -- CODict_SetItem
  unfoldable pub set_item : DictObject T.Key V → T.Key → V → Result (DictObject T.Key V)
  set_item d key item = dict_lookup d key >>= λ p. replace_or_insert d key item p

  -- `p->pKey = dummy` in the bucket of place `p`.
  pub store_dummy : List (DictBucket T.Key V) → ℕ → List (DictBucket T.Key V)
  store_dummy [] p = []
  store_dummy (b ∷ bs) zero = record b { key = none } ∷ bs
  store_dummy (b ∷ bs) (suc p) = b ∷ store_dummy bs p

  -- CODict_DelItem: `none` for the -1 of a key that is not there, which sets no exception.
  pub del_item : DictObject T.Key V → T.Key → Result (Option (DictObject T.Key V))
  del_item d key = dict_lookup d key >>= λ found. elim found [
    | none ↦ ok none
    | some p ↦ ok (
        some (record d {
          buckets = store_dummy d.buckets p;
          num_elements = (d.num_elements + (2 ^ 32 - 1)) % 2 ^ 32;
        }))
  ]

-- CODict_Current: `none` for the -1 at the end.
pub current : {K V : Type 0} → DictObject K V → Result (Option (Option K × V))
current d = elim d.cursor [
  | null ↦ ok none
  | dangling ↦ undefined
  | at p ↦ elim (get_elem? d.buckets p) [ none ↦ undefined | some b ↦ ok (some (b.key, b.item)) ]
]

-- The cursor behind the bucket of place `p`.
pub behind : {K V : Type 0} → DictObject K V → Cursor → Cursor
behind d null = null
behind d dangling = dangling
behind d (at p) = if ltb (suc p) (length d.buckets) then at (suc p) else null

-- CODict_Next
pub dict_next : {K V : Type 0} → DictObject K V → Result (Option (Option K × V) × DictObject K V)
dict_next d = current d >>= λ c. elim c [
  | none ↦ ok (none, d)
  | some e ↦ ok (some e, record d { cursor = behind d d.cursor })
]

-- CODict_Rewind
pub rewind : {K V : Type 0} → DictObject K V → DictObject K V
rewind d = record d { cursor = elim d.buckets [ [] ↦ null | b ∷ bs ↦ at 0 ] }

-- CODict_Clear: every bucket is freed, and the cursor keeps the address it has.
pub clear : {K V : Type 0} → DictObject K V → DictObject K V
clear d = record d {
  num_elements = 0;
  cursor = elim d.cursor [ null ↦ null | dangling ↦ dangling | at p ↦ dangling ];
  buckets = [];
  ar_buckets = replicate (d.table_mask + 1) none;
}

-- CODict_Size
pub dict_size : {K V : Type 0} → DictObject K V → ℕ
dict_size d = d.num_elements
