-- ===== src/DictObject/SetGet.antt =====
-- CODict_SetItem followed by CODict_GetItem (objects/dictobject.c).
use cobj.Prelude.{ℕ, zero, suc, ◌+◌, ◌*◌, ◌%◌, ◌^◌, ◌<◌, ◌≤◌, ◌≡◌, arith, refl, sym, ap}
use cobj.Prelude.{List, [], ◌∷◌, ◌++◌, length, get_elem?, get_or, set, replicate}
use cobj.Prelude.{true, ◌==◌, ltb, Option, none, some, ◌∙◌}
use cobj.Prelude.{Bool-cases, inl, inr, length-set, length-append, length-replicate}
use cobj.Prelude.Result.{ok}
use cobj.Hashing.{KeyType, IsLawful}
use cobj.DictObject.{new_dict, DictBucket, DictObject, lookup_loop, index_of}
use cobj.DictObject.{rehash_loop, dict_rehash, dict_do_resize, lookup_hash, dict_lookup}
use cobj.DictObject.{link_bucket, resize_if_full, dict_insert, item_at, get_item, store_item}
use cobj.DictObject.{replace_or_insert, set_item, visit}
use cobj.DictObject.Chains.{
  empty-IsChained, Below, AllBelow, IsChained, Below-mono, Below-some, AllBelow-mono, get_or-Below,
}
use cobj.DictObject.Chains.{set-AllBelow, replicate-AllBelow, bit_and_le, get_or-set}
use cobj.DictObject.Chains.{
  get_elem?-last, snoc-IsChained, store-IsChained, length-store_item, get_elem?-store, store-visit,
  lookup_loop_total,
}

-- A table of nTableMask + 1 entries, every entry and every chain on the buckets, and no dummy key.
pub record IsValid {K V : Type 0} (d : DictObject K V) : Type 0 where
  pub table_size : length d.ar_buckets ≡ d.table_mask + 1
  pub mask_bound : d.table_mask < 2 ^ 32
  pub entries : AllBelow (length d.buckets) d.ar_buckets
  pub chains : IsChained 0 d.buckets

pub new_dict-IsValid : (K V : Type 0) → IsValid (new_dict K V)
unfolding new_dict
new_dict-IsValid K V = record {
  table_size = refl;
  mask_bound = omega arith;
  entries = replicate-AllBelow 0 8;
  chains = empty-IsChained K V;
}

index_bound : (h m : ℕ) (es : List (Option ℕ)) → length es ≡ m + 1 → index_of h m < length es
index_bound h m es e = omega (arith, bit_and_le 32 h m)

module _ {K V : Type 0} where
  length-rehash_loop :
      (m : ℕ) (bs : List (DictBucket K V)) (p : ℕ) (es : List (Option ℕ))
      → length (rehash_loop m bs p es) ≡ length es
  unfolding rehash_loop
  length-rehash_loop m [] p es = refl
  length-rehash_loop m (b ∷ bs) p es =
      length-rehash_loop m bs (suc p) (set es (index_of b.h m) (some p))
      ∙ length-set es (index_of b.h m) (some p)

  rehash_loop-AllBelow :
      (m n : ℕ) (bs : List (DictBucket K V)) (p : ℕ) (es : List (Option ℕ))
      → p + length bs ≤ n
      → AllBelow n es
      → AllBelow n (rehash_loop m bs p es)
  unfolding rehash_loop
  rehash_loop-AllBelow m n [] p es l h = h
  rehash_loop-AllBelow m n (b ∷ bs) p es l h =
      rehash_loop-AllBelow m n bs (suc p) (set es (index_of b.h m) (some p)) (omega arith)
        (set-AllBelow n es (index_of b.h m) p (omega arith) h)

  -- The last bucket of the global list is written last, so its entry is its place.
  rehash_loop-last :
      (m : ℕ) (bs : List (DictBucket K V)) (b : DictBucket K V) (p : ℕ) (es : List (Option ℕ))
      → length es ≡ m + 1
      → get_or (rehash_loop m (bs ++ b ∷ []) p es) (index_of b.h m) none ≡ some (p + length bs)
  unfolding rehash_loop
  rehash_loop-last m [] b p es e =
      get_or-set es (index_of b.h m) (some p) none (index_bound b.h m es e) ∙ ap some (omega arith)
  rehash_loop-last m (x ∷ bs) b p es e =
      rehash_loop-last m bs b (suc p) (set es (index_of x.h m) (some p))
        (length-set es (index_of x.h m) (some p) ∙ e)
      ∙ ap some (omega arith)

-- The bucket `b` was linked last and its entry points at it.
pub record Linked {K V : Type 0} (d : DictObject K V) (b : DictBucket K V) : Type 0 where
  pub valid : IsValid d
  pub place : ℕ
  pub in_table : get_or d.ar_buckets (index_of b.h d.table_mask) none ≡ some place
  pub in_list : get_elem? d.buckets place ≡ some b

module _ {K V : Type 0} where
  dict_do_resize-Linked :
      (d : DictObject K V) (bs : List (DictBucket K V)) (b : DictBucket K V)
      → d.buckets ≡ bs ++ b ∷ []
      → Linked d b
      → Linked (dict_do_resize d) b
  unfolding dict_do_resize dict_rehash
  dict_do_resize-Linked d bs b e l =
      let m = (d.table_mask * 2) % 2 ^ 32 in
      let es : List (Option ℕ) = replicate (m + 1) none in
      let es_size : length es ≡ m + 1 = length-replicate (m + 1) none in
      elim (Bool-cases (ltb 0 (((d.table_mask + 1) * 2) % 2 ^ 32))) [
        | inr t ↦ rw t l
        | inl t ↦ rw t (record {
          valid = record {
            table_size = length-rehash_loop m d.buckets 0 es ∙ es_size;
            mask_bound = omega arith;
            entries =
                rehash_loop-AllBelow m (length d.buckets) d.buckets 0 es (omega arith)
                  (replicate-AllBelow (length d.buckets) (m + 1));
            chains = l.valid.chains;
          };
          place = 0 + length bs;
          in_table = rw e (rehash_loop-last m bs b 0 es es_size);
          in_list = rw e (ap (get_elem? (bs ++ b ∷ [])) (omega arith) ∙ get_elem?-last bs b);
        })
      ]

resize_if_full-Linked :
    (T : KeyType) {V : Type 0} (d : DictObject T.Key V) (bs : List (DictBucket T.Key V))
    (b : DictBucket T.Key V)
    → d.buckets ≡ bs ++ b ∷ []
    → Linked d b
    → Linked (resize_if_full T d) b
unfolding resize_if_full
resize_if_full-Linked T d bs b e l =
    elim (Bool-cases (ltb ((d.table_mask + 1) % 2 ^ 32) d.num_elements)) [
      | inl t ↦ rw t (dict_do_resize-Linked d bs b e l)
      | inr t ↦ rw t l
    ]

link_bucket-Linked :
    (T : KeyType) {V : Type 0} (d : DictObject T.Key V) (key : T.Key) (item : V) (h : ℕ)
    → IsValid d
    → (b : DictBucket T.Key V) × (b.key ≡ some key)
      × (b.item ≡ item)
      × (b.h ≡ h)
      × ((link_bucket T d key item h).buckets ≡ d.buckets ++ b ∷ [])
      × Linked (link_bucket T d key item h) b
unfolding link_bucket
link_bucket-Linked T {V} d key item h v =
    let i = index_of h d.table_mask in
    let b : DictBucket T.Key V = record {
      key = some key;
      item = item;
      h = h;
      next = get_or d.ar_buckets i none;
    } in
    let n = length d.buckets in
    let longer = length-append d.buckets (b ∷ []) in
    (
      b,
      refl,
      refl,
      refl,
      refl,
      record {
        valid = record {
          table_size = length-set d.ar_buckets i (some n) ∙ v.table_size;
          mask_bound = v.mask_bound;
          entries =
              set-AllBelow (length (d.buckets ++ b ∷ [])) d.ar_buckets i n (omega (arith, longer)) (
                AllBelow-mono n (length (d.buckets ++ b ∷ [])) d.ar_buckets (omega (arith, longer))
                  v.entries);
          chains =
              snoc-IsChained 0 d.buckets b key v.chains refl (
                Below-mono n (0 + n) b.next (omega arith)
                  (get_or-Below n d.ar_buckets i v.entries));
        };
        place = n;
        in_table =
            get_or-set d.ar_buckets i (some n) none
              (index_bound h d.table_mask d.ar_buckets v.table_size);
        in_list = get_elem?-last d.buckets b;
      },
    )

module _ (T : KeyType) (law : IsLawful T) {V : Type 0} where
  lookup_loop-store :
      (fuel : ℕ) (bs : List (DictBucket T.Key V)) (key : T.Key) (h p : ℕ) (item : V) (s : Option ℕ)
      → lookup_loop T fuel (store_item T bs p item) key h s ≡ lookup_loop T fuel bs key h s
  unfolding lookup_loop
  lookup_loop-store fuel bs key h p item none = refl
  lookup_loop-store zero bs key h p item (some q) = refl
  lookup_loop-store (suc fuel) bs key h p item (some q) =
      store-visit T key h q (λ s. lookup_loop T fuel (store_item T bs p item) key h s) bs p q item
      ∙ ap (λ go. visit T key h q go (get_elem? bs q))
          (λ i s. lookup_loop-store fuel bs key h p item s i)

  -- A bucket that is linked last and has the key is the one that is found.
  Linked-found :
      (d : DictObject T.Key V) (b : DictBucket T.Key V) (key : T.Key) (h : ℕ)
      → b.key ≡ some key
      → b.h ≡ h
      → T.hash key ≡ ok h
      → Linked d b
      → get_item T d key ≡ ok (some b.item)
  unfolding get_item dict_lookup lookup_hash lookup_loop item_at
  Linked-found d b key h ek eh hash l =
      let t : get_or d.ar_buckets (index_of h d.table_mask) none ≡ some l.place =
        rw (sym eh) l.in_table in
      let q : (h == h) ≡ true = ground arith in
      rw (hash, t, l.in_list, eh, q, ek, law.same_refl key, l.in_list) refl

  lookup_total :
      (d : DictObject T.Key V) (key : T.Key) (h : ℕ)
      → IsValid d
      → (r : Option ℕ) × (lookup_hash T d key h ≡ ok r) × Below (length d.buckets) r
  unfolding lookup_hash
  lookup_total d key h v =
      let s = get_or d.ar_buckets (index_of h d.table_mask) none in
      let n = length d.buckets in
      let l = get_or-Below n d.ar_buckets (index_of h d.table_mask) v.entries in
      lookup_loop_total T law (suc n) d.buckets key h s v.chains
        (Below-mono n (suc n) s (omega arith) l) l

  -- What `CODict_SetItem` leaves behind.
  Stored : DictObject T.Key V → T.Key → V → Type 0
  Stored d key item =
      (d' : DictObject T.Key V) × (set_item T d key item ≡ ok d')
      × IsValid d'
      × (get_item T d' key ≡ ok (some item))

  inserted :
      (d : DictObject T.Key V) (key : T.Key) (item : V) (h : ℕ)
      → IsValid d
      → T.hash key ≡ ok h
      → lookup_hash T d key h ≡ ok none
      → Stored d key item
  unfolding Stored set_item dict_lookup replace_or_insert dict_insert
  inserted d key item h v hash miss =
      let (b, ek, ei, eh, eb, l) = link_bucket-Linked T d key item h v in
      let d1 = link_bucket T d key item h in
      let l' = resize_if_full-Linked T d1 d.buckets b eb l in
      (
        resize_if_full T d1,
        rw (hash, miss, hash) refl,
        l'.valid,
        Linked-found (resize_if_full T d1) b key h ek eh hash l' ∙ ap (λ v. ok (some v)) ei,
      )

  replaced :
      (d : DictObject T.Key V) (key : T.Key) (item : V) (h p : ℕ)
      → IsValid d
      → T.hash key ≡ ok h
      → lookup_hash T d key h ≡ ok (some p)
      → p < length d.buckets
      → Stored d key item
  unfolding Stored set_item get_item dict_lookup lookup_hash replace_or_insert item_at
  replaced d key item h p v hash hit l =
      let n = length d.buckets in
      let same_length = length-store_item T d.buckets p item in
      let (b, eb, ei) = get_elem?-store T d.buckets p item l in
      let s = get_or d.ar_buckets (index_of h d.table_mask) none in
      (
        record d { buckets = store_item T d.buckets p item },
        rw (hash, hit) refl,
        record {
          table_size = v.table_size;
          mask_bound = v.mask_bound;
          entries =
              AllBelow-mono n (length (store_item T d.buckets p item)) d.ar_buckets
                (omega (arith, same_length)) v.entries;
          chains = store-IsChained T 0 d.buckets p item v.chains;
        },
        rw (hash, same_length, lookup_loop-store (suc n) d.buckets key h p item s, hit, eb, ei)
            refl,
      )

  -- Where the keys are lawful, `d` is a valid dictionary without dummy keys and the hash of `key`
  -- is given, CODict_SetItem succeeds, whether it replaces an item, adds a bucket, or also resizes
  -- the table: the dictionary that it leaves is valid again, and CODict_GetItem then gives the
  -- item for that key.
  pub set_item-get_item :
      (d : DictObject T.Key V) (key : T.Key) (item : V) (h : ℕ)
      → IsValid d
      → T.hash key ≡ ok h
      → (d' : DictObject T.Key V) × (set_item T d key item ≡ ok d')
        × IsValid d'
        × (get_item T d' key ≡ ok (some item))
  unfolding Stored
  set_item-get_item d key item h v hash = let (r, e, l) = lookup_total d key h v in found r e l
    where
      found :
          (r : Option ℕ)
          → lookup_hash T d key h ≡ ok r
          → Below (length d.buckets) r
          → Stored d key item
      found none e l = inserted d key item h v hash e
      found (some p) e l = replaced d key item h p v hash e (Below-some (length d.buckets) p l)
