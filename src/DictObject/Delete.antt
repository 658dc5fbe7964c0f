-- ===== src/DictObject/Delete.antt =====
-- CODict_DelItem followed by CODict_GetItem (objects/dictobject.c).
use cobj.Prelude.{ℕ, zero, suc, ◌+◌, ◌-◌, ◌%◌, ◌^◌, ◌≡◌, arith, refl, ap, List, [], ◌∷◌}
use cobj.Prelude.{length, get_elem?, get_or, Bool, true, false, ◌==◌, Option, none, some}
use cobj.Prelude.{Bool-cases, Option-cases, inl, inr}
use cobj.Prelude.Result.{Result, ok, raise, undefined}
use cobj.Hashing.{KeyType, compare_eq}
use cobj.DictObject.{DictBucket, DictObject, settle_key, match_key, lookup_loop, lookup_hash}
use cobj.DictObject.{index_of, dict_lookup, store_dummy, del_item, get_item}

length-store_dummy :
    (T : KeyType) {V : Type 0} (bs : List (DictBucket T.Key V)) (p : ℕ)
    → length (store_dummy T bs p) ≡ length bs
unfolding store_dummy
length-store_dummy T [] p = refl
length-store_dummy T (b ∷ bs) zero = refl
length-store_dummy T (b ∷ bs) (suc p) = ap suc (length-store_dummy T bs p)

-- The bucket of a place afterwards: the same but for its key.
get_elem?-store_dummy :
    (T : KeyType) {V : Type 0} (bs : List (DictBucket T.Key V)) (p q : ℕ) (b : DictBucket T.Key V)
    → get_elem? bs q ≡ some b
    → (b' : DictBucket T.Key V) × (get_elem? (store_dummy T bs p) q ≡ some b')
      × (b'.h ≡ b.h)
      × (b'.next ≡ b.next)
      × (q ≡ p → b'.key ≡ none)
unfolding store_dummy
get_elem?-store_dummy T [] p q b e = absurd (ground (arith, e))
get_elem?-store_dummy T (x ∷ bs) zero zero b e =
    (record x { key = none }, refl, ground (arith, e), ground (arith, e), λ s. refl)
get_elem?-store_dummy T (x ∷ bs) zero (suc q) b e =
    (b, e, refl, refl, λ s. absurd (omega (arith, s)))
get_elem?-store_dummy T (x ∷ bs) (suc p) zero b e =
    (x, refl, ground (arith, e), ground (arith, e), λ s. absurd (omega (arith, s)))
get_elem?-store_dummy T (x ∷ bs) (suc p) (suc q) b e =
    let (b', a, c, n, k) = get_elem?-store_dummy T bs p q b e in
    (b', a, c, n, λ s. k (omega (arith, s)))

settled_place : (q p : ℕ) (r : Result Bool) → settle_key q r ≡ ok (some p) → q ≡ p
settled_place q p (ok true) e = ground (arith, e)
settled_place q p (ok false) e = absurd (ground (arith, e))
settled_place q p (raise x) e = absurd (ground (arith, e))
settled_place q p undefined e = absurd (ground (arith, e))

matched_place :
    (T : KeyType) (key : T.Key) (q p : ℕ) (k : Option T.Key)
    → match_key T key q k ≡ ok (some p)
    → q ≡ p
matched_place T key q p none e = absurd (ground (arith, e))
matched_place T key q p (some k) e = settled_place q p (compare_eq T k key) e

-- A search that ended at a bucket meets the dummy key there.
dummy_met :
    (T : KeyType) {V : Type 0} (fuel : ℕ) (bs : List (DictBucket T.Key V)) (key : T.Key) (h p : ℕ)
    (s : Option ℕ)
    → lookup_loop T fuel bs key h s ≡ ok (some p)
    → lookup_loop T fuel (store_dummy T bs p) key h s ≡ undefined
unfolding lookup_loop
dummy_met T fuel bs key h p none e = absurd (ground (arith, e))
dummy_met T zero bs key h p (some q) e = absurd (ground (arith, e))
dummy_met T (suc fuel) bs key h p (some q) e = elim (Option-cases (get_elem? bs q)) [
  | inl n ↦ let u = rw n at e in absurd (ground (arith, u))
  | inr (b, f) ↦
      let (b', f', eh, en, ek) = get_elem?-store_dummy T bs p q b f in
      elim (Bool-cases (b.h == h)) [
        | inl t ↦
            let m : match_key T key q b.key ≡ ok (some p) = rw (f, t) at e in
            rw (f', eh, t, ek (matched_place T key q p b.key m)) refl
        | inr t ↦
            let m : lookup_loop T fuel bs key h b.next ≡ ok (some p) = rw (f, t) at e in
            rw (f', eh, t, en) (dummy_met T fuel bs key h p b.next m)
      ]
]

-- Where the hash of `key` is given and the lookup finds its bucket, CODict_DelItem succeeds, and
-- CODict_GetItem of the same key on the dictionary that it leaves is undefined: the lookup meets
-- the dummy key and never goes on.
pub del_item-get_item :
    (T : KeyType) {V : Type 0} (d : DictObject T.Key V) (key : T.Key) (h p : ℕ)
    → T.hash key ≡ ok h
    → lookup_hash T d key h ≡ ok (some p)
    → (d' : DictObject T.Key V) × (del_item T d key ≡ ok (some d'))
      × (get_item T d' key ≡ undefined)
unfolding del_item get_item dict_lookup lookup_hash
del_item-get_item T d key h p hash found =
    let s = get_or d.ar_buckets (index_of h d.table_mask) none in
    (
      record d {
        buckets = store_dummy T d.buckets p;
        num_elements = (d.num_elements + (2 ^ 32 - 1)) % 2 ^ 32;
      },
      rw (hash, found) refl,
      rw
          (
            hash,
            length-store_dummy T d.buckets p,
            dummy_met T (suc (length d.buckets)) d.buckets key h p s found,
          )
          refl,
    )
