-- ===== src/DictObject/Chains.antt =====
-- The chains of buckets that `_dict_lookup` of objects/dictobject.c walks along.
use cobj.Prelude.{ℕ, zero, suc, ◌+◌, ◌/◌, ◌%◌, ◌<◌, ◌≤◌, ◌≡◌, arith, refl, ap}
use cobj.Prelude.{List, [], ◌∷◌, ◌++◌, length, get_elem?, get_or, set, replicate}
use cobj.Prelude.{◌==◌, Option, none, some}
use cobj.Prelude.{Bool-cases, ◌⊎◌, inl, inr}
use cobj.Prelude.Result.{Result, ok}
use cobj.Hashing.{KeyType, IsLawful}
use cobj.DictObject.{DictBucket, match_key, lookup_loop, bit_and, visit, store_item}

-- The place, if any, is below `n`.
pub Below : ℕ → Option ℕ → Type 0
Below n none = Unit
Below n (some p) = p < n

-- Every entry of the table is below `n`.
pub AllBelow : ℕ → List (Option ℕ) → Type 0
AllBelow n [] = Unit
AllBelow n (e ∷ es) = Below n e × AllBelow n es

-- From place `p` on, every bucket has a key and its chain goes on with an older bucket.
pub IsChained : {K V : Type 0} → ℕ → List (DictBucket K V) → Type 0
IsChained p [] = Unit
IsChained {K} p (b ∷ bs) = ((k : K) × (b.key ≡ some k)) × Below p b.next × IsChained (suc p) bs

pub empty-IsChained : (K V : Type 0) → IsChained {K = K} {V = V} 0 []
unfolding IsChained
empty-IsChained K V = tt

pub Below-mono : (m n : ℕ) (e : Option ℕ) → m ≤ n → Below m e → Below n e
unfolding Below
Below-mono m n none l h = tt
Below-mono m n (some p) l h = omega arith

pub Below-some : (n p : ℕ) → Below n (some p) → p < n
unfolding Below
Below-some n p h = h

pub AllBelow-mono : (m n : ℕ) (es : List (Option ℕ)) → m ≤ n → AllBelow m es → AllBelow n es
unfolding AllBelow
AllBelow-mono m n [] l h = tt
AllBelow-mono m n (e ∷ es) l (b, h) = (Below-mono m n e l b, AllBelow-mono m n es l h)

pub get_or-Below :
    (n : ℕ) (es : List (Option ℕ)) (i : ℕ) → AllBelow n es → Below n (get_or es i none)
unfolding AllBelow Below
get_or-Below n [] i h = tt
get_or-Below n (e ∷ es) zero (b, h) = b
get_or-Below n (e ∷ es) (suc i) (b, h) = get_or-Below n es i h

pub set-AllBelow :
    (n : ℕ) (es : List (Option ℕ)) (i p : ℕ)
    → p < n
    → AllBelow n es
    → AllBelow n (set es i (some p))
unfolding AllBelow Below
set-AllBelow n [] i p l h = tt
set-AllBelow n (e ∷ es) zero p l (b, h) = (l, h)
set-AllBelow n (e ∷ es) (suc i) p l (b, h) = (b, set-AllBelow n es i p l h)

pub replicate-AllBelow : (n k : ℕ) → AllBelow n (replicate k none)
unfolding AllBelow Below
replicate-AllBelow n zero = tt
replicate-AllBelow n (suc k) = (tt, replicate-AllBelow n k)

-- The masked index stays inside the table.
pub bit_and_le : (n a b : ℕ) → bit_and n a b ≤ b
unfolding bit_and
bit_and_le zero a b = omega arith
bit_and_le (suc n) a b =
    let ih = bit_and_le n (a / 2) (b / 2) in
    elim (bit a) [ inl e ↦ rw e (omega (arith, ih)) | inr e ↦ rw e (omega (arith, ih)) ]
  where
    bit : (x : ℕ) → (x % 2 ≡ 0) ⊎ (x % 2 ≡ 1)
    bit x = omega arith

pub get_or-set :
    {A : Type 0} (es : List A) (i : ℕ) (v d : A) → i < length es → get_or (set es i v) i d ≡ v
get_or-set [] i v d h = absurd (omega arith)
get_or-set (e ∷ es) zero v d h = refl
get_or-set (e ∷ es) (suc i) v d h = get_or-set es i v d (omega arith)

pub get_elem?-last :
    {A : Type 0} (xs : List A) (x : A) → get_elem? (xs ++ x ∷ []) (length xs) ≡ some x
get_elem?-last [] x = refl
get_elem?-last (y ∷ xs) x = get_elem?-last xs x

-- What the chain gives for the bucket of a place.
pub bucket_at :
    {K V : Type 0} (bs : List (DictBucket K V)) (i p : ℕ)
    → IsChained i bs
    → p < length bs
    → (b : DictBucket K V) × (k : K) × (get_elem? bs p ≡ some b)
      × (b.key ≡ some k)
      × Below (i + p) b.next
unfolding IsChained
bucket_at [] i p c h = absurd (omega arith)
bucket_at (b ∷ bs) i zero ((k, e), n, c) h =
    (b, k, refl, e, Below-mono i (i + 0) b.next (omega arith) n)
bucket_at (b ∷ bs) i (suc p) (kb, n, c) h =
    let (b', k, e, ek, l) = bucket_at bs (suc i) p c (omega arith) in
    (b', k, e, ek, Below-mono (suc i + p) (i + suc p) b'.next (omega arith) l)

match_key_total :
    (T : KeyType) (key k : T.Key) (p n : ℕ)
    → IsLawful T
    → p < n
    → (r : Option ℕ) × (match_key T key p (some k) ≡ ok r) × Below n r
unfolding Below
match_key_total T key k p n law h =
    let (r, e) = law.equal_total k key in
    elim (Bool-cases (T.same k key)) [
      | inl s ↦ (some p, rw s refl, h)
      | inr s ↦ elim (Bool-cases r) [
        | inl t ↦ (some p, rw (s, e, t) refl, h)
        | inr t ↦ (none, rw (s, e, t) refl, tt)
      ]
    ]

-- One more bucket at the end of to chained buckets.
pub snoc-IsChained :
    {K V : Type 0} (i : ℕ) (bs : List (DictBucket K V)) (b : DictBucket K V) (k : K)
    → IsChained i bs
    → b.key ≡ some k
    → Below (i + length bs) b.next
    → IsChained i (bs ++ b ∷ [])
unfolding IsChained
snoc-IsChained i [] b k c e n = ((k, e), Below-mono (i + 0) i b.next (omega arith) n, tt)
snoc-IsChained i (x ∷ bs) b k (kx, nx, c) e n = (
  kx,
  nx,
  snoc-IsChained (suc i) bs b k c e
      (Below-mono (i + length (x ∷ bs)) (suc i + length bs) b.next (omega arith) n),
)

pub length-store_item :
    (T : KeyType) {V : Type 0} (bs : List (DictBucket T.Key V)) (p : ℕ) (item : V)
    → length (store_item T bs p item) ≡ length bs
unfolding store_item
length-store_item T [] p item = refl
length-store_item T (b ∷ bs) zero item = refl
length-store_item T (b ∷ bs) (suc p) item = ap suc (length-store_item T bs p item)

pub store-IsChained :
    (T : KeyType) {V : Type 0} (i : ℕ) (bs : List (DictBucket T.Key V)) (p : ℕ) (item : V)
    → IsChained i bs
    → IsChained i (store_item T bs p item)
unfolding IsChained store_item
store-IsChained T i [] p item c = tt
store-IsChained T i (b ∷ bs) zero item c = c
store-IsChained T i (b ∷ bs) (suc p) item (k, n, c) = (k, n, store-IsChained T (suc i) bs p item c)

pub get_elem?-store :
    (T : KeyType) {V : Type 0} (bs : List (DictBucket T.Key V)) (p : ℕ) (item : V)
    → p < length bs
    → (b : DictBucket T.Key V) × (get_elem? (store_item T bs p item) p ≡ some b) × (b.item ≡ item)
unfolding store_item
get_elem?-store T [] p item l = absurd (omega arith)
get_elem?-store T (b ∷ bs) zero item l = (record b { item = item }, refl, refl)
get_elem?-store T (b ∷ bs) (suc p) item l = get_elem?-store T bs p item (omega arith)

-- A round of the search does not see the items.
pub store-visit :
    (T : KeyType) {V : Type 0} (key : T.Key) (h q : ℕ) (go : Option ℕ → Result (Option ℕ))
    (bs : List (DictBucket T.Key V)) (p r : ℕ) (item : V)
    → visit T key h q go (get_elem? (store_item T bs p item) r)
      ≡ visit T key h q go (get_elem? bs r)
unfolding store_item
store-visit T key h q go [] p r item = refl
store-visit T key h q go (b ∷ bs) zero zero item = refl
store-visit T key h q go (b ∷ bs) zero (suc r) item = refl
store-visit T key h q go (b ∷ bs) (suc p) zero item = refl
store-visit T key h q go (b ∷ bs) (suc p) (suc r) item = store-visit T key h q go bs p r item

module _ (T : KeyType) (law : IsLawful T) {V : Type 0} where
  -- On well-founded chains, more fuel than the place of the first bucket is enough.
  pub lookup_loop_total :
      (fuel : ℕ) (bs : List (DictBucket T.Key V)) (key : T.Key) (h : ℕ) (s : Option ℕ)
      → IsChained 0 bs
      → Below fuel s
      → Below (length bs) s
      → (r : Option ℕ) × (lookup_loop T fuel bs key h s ≡ ok r) × Below (length bs) r
  unfolding lookup_loop Below
  lookup_loop_total fuel bs key h none c f l = (none, refl, tt)
  lookup_loop_total zero bs key h (some p) c f l = absurd (omega arith)
  lookup_loop_total (suc fuel) bs key h (some p) c f l =
      let (b, k, e, ek, nb) = bucket_at bs 0 p c l in
      let (r, er, lr) = match_key_total T key k p (length bs) law l in
      let (r', er', lr') =
        lookup_loop_total fuel bs key h b.next c (Below-mono (0 + p) fuel b.next (omega arith) nb)
          (Below-mono (0 + p) (length bs) b.next (omega arith) nb) in
      elim (Bool-cases (b.h == h)) [
        | inl t ↦ (r, rw (e, t, ek) er, lr)
        | inr t ↦ (r', rw (e, t) er', lr')
      ]
