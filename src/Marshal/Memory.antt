-- ===== src/Marshal/Memory.antt =====
-- The bytes object that marshal.c writes into.
use cobj.Prelude.{ℕ, suc, ◌≤◌, ◌≡◌, sym, subst, arith, List, [], ◌∷◌, ◌++◌, length, length-append}
use cobj.Prelude.{Bool-cases, ◌==◌, Option, none, some, inl, inr}
use cobj.Prelude.Int.{ℤ, pos}
use cobj.Prelude.Result.{Result, ok, raise, undefined, ◌>>=◌}
use cobj.BigInt.{IntObject}
use cobj.BigInt.Long.{from_long}
use cobj.Marshal.Known.{objects_get, objects_set}
use cobj.Marshal.Words.{word_of, bytes_of_int64}
use cobj.Marshal.Objects.{
  Object, Value, Objects, Pairs, node, null_value, none_value, false_value, nil, cons, end, pair,
  count,
}
use cobj.Marshal.Objects.{
  true_value, float_value, other_value, int_value, str_value, bytes_value, list_value, tuple_value,
  dict_value, code_value,
}
use cobj.Marshal.Writer.{
  WFile, grown, unless_known, refer_or_write, remember, w_byte, w_bytes, w_int64, w_text,
  int_prefix, w_object, w_value, w_items, w_pairs,
}

-- The bytes that were written fit into the bytes object, and `offset` is their number.
abbrev Holds : ℕ → Option ℕ → Type 0
Holds n none = Unit
Holds n (some size) = n ≤ size

unfoldable pub Fits : WFile → Type 0
Fits p = (p.offset ≡ length p.out) × Holds (length p.out) p.capacity

grown-Holds : (n : ℕ) (size : Option ℕ) → Holds n size → Holds (suc n) (grown n size)
unfolding grown
grown-Holds n none h = tt
grown-Holds n (some size) h = elim (Bool-cases (n == size)) [
  | inl e ↦ rw e (ground arith)
  | inr e ↦ rw e (ground arith)
]

-- What may follow a step that keeps the bytes in place.
abbrev FitsResult : Result WFile → Type 0
FitsResult (ok p) = Fits p
FitsResult _ = Unit

abbrev Keeps : (WFile → WFile) → Type 0
Keeps w = (p : WFile) → Fits p → Fits (w p)

w_byte-Fits : (c : ℕ) → Keeps (w_byte c)
unfolding w_byte Fits
w_byte-Fits c p (o, h) =
    let n : length (p.out ++ c ∷ []) ≡ suc (length p.out) =
      omega (arith, length-append p.out (c ∷ [])) in
    (
      omega (arith, o, n),
      subst (λ m. Holds m (grown (length p.out) p.capacity)) (sym n)
          (grown-Holds (length p.out) p.capacity h),
    )

w_bytes-Fits : (s : List ℕ) → Keeps (w_bytes s)
unfolding w_bytes
w_bytes-Fits [] p h = h
w_bytes-Fits (c ∷ s) p h = w_bytes-Fits s (w_byte c p) (w_byte-Fits c p h)

w_int64-Fits : (x : ℤ) → Keeps (w_int64 x)
unfolding w_int64
w_int64-Fits x p h = w_bytes-Fits (bytes_of_int64 (word_of x)) p h

w_text-Fits : (type : ℕ) (s : List ℕ) → Keeps (w_text type s)
w_text-Fits type s p h =
    w_bytes-Fits (int_prefix s) _ (w_int64-Fits (pos (length s)) _ (w_byte-Fits type p h))

then-Fits :
    (r : Result WFile) (f : WFile → Result WFile)
    → FitsResult r
    → ((p : WFile) → Fits p → FitsResult (f p))
    → FitsResult (r >>= f)
then-Fits (ok p) f h k = k p h
then-Fits (raise e) f h k = tt
then-Fits undefined f h k = tt

-- Whatever the dictionary of the objects answers.
any-Fits :
    {A : Type 0} (r : Result A) (f : A → Result WFile)
    → ((a : A) → FitsResult (f a))
    → FitsResult (r >>= f)
any-Fits (ok a) f k = k a
any-Fits (raise e) f k = tt
any-Fits undefined f k = tt

remember-Fits : (a : ℕ) (p : WFile) → Fits p → FitsResult (remember a p)
unfolding Fits
remember-Fits a p h = any-Fits (objects_set p.objects (pos a) (from_long (pos p.offset))) _ (λ d. h)

refer_or_write-Fits :
    (found : Option IntObject) (a : ℕ) (p : WFile) (write : WFile → Result WFile)
    → Fits p
    → ((q : WFile) → Fits q → FitsResult (write q))
    → FitsResult (refer_or_write found a p write)
refer_or_write-Fits (some offset) a p write h k = w_int64-Fits _ _ (w_byte-Fits b'r' p h)
refer_or_write-Fits none a p write h k = then-Fits (remember a p) write (remember-Fits a p h) k

unless_known-Fits :
    (a : ℕ) (p : WFile) (write : WFile → Result WFile)
    → Fits p
    → ((q : WFile) → Fits q → FitsResult (write q))
    → FitsResult (unless_known a p write)
unless_known-Fits a p write h k =
    any-Fits (objects_get p.objects (pos a)) _ (λ found. refer_or_write-Fits found a p write h k)

mutual
  unfolding w_object

  object-Fits : (o : Object) (p : WFile) → Fits p → FitsResult (w_object o p)
  object-Fits (node a v) p h = unless_known-Fits a p (w_value v) h (value-Fits v)

  value-Fits : (v : Value) (p : WFile) → Fits p → FitsResult (w_value v p)
  value-Fits null_value p h = w_byte-Fits b'0' p h
  value-Fits none_value p h = w_byte-Fits b'N' p h
  value-Fits false_value p h = w_byte-Fits b'F' p h
  value-Fits true_value p h = w_byte-Fits b'T' p h
  value-Fits float_value p h = h
  value-Fits other_value p h = tt
  value-Fits (int_value i) p h = w_int64-Fits _ _ (w_byte-Fits b'i' p h)
  value-Fits (str_value s) p h = w_text-Fits b's' s p h
  value-Fits (bytes_value s) p h = w_text-Fits b'b' s p h
  value-Fits (list_value os) p h =
      items-Fits os _ (w_int64-Fits (pos (count os)) _ (w_byte-Fits b'[' p h))
  value-Fits (tuple_value os) p h =
      items-Fits os _ (w_int64-Fits (pos (count os)) _ (w_byte-Fits b'(' p h))
  value-Fits (dict_value ps) p h =
      then-Fits (w_pairs ps (w_byte b'{' p)) _ (pairs-Fits ps _ (w_byte-Fits b'{' p h))
        (λ q g. unless_known-Fits 0 q (λ r. ok (w_byte b'0' r)) g (w_byte-Fits b'0'))
  value-Fits (code_value os m n) p h =
      then-Fits (w_items os (w_byte b'c' p)) _ (items-Fits os _ (w_byte-Fits b'c' p h))
        (λ q g. w_int64-Fits (pos n) _ (w_int64-Fits (pos m) q g))

  items-Fits : (os : Objects) (p : WFile) → Fits p → FitsResult (w_items os p)
  items-Fits nil p h = h
  items-Fits (cons o os) p h = then-Fits (w_object o p) _ (object-Fits o p h) (items-Fits os)

  pairs-Fits : (ps : Pairs) (p : WFile) → Fits p → FitsResult (w_pairs ps p)
  pairs-Fits end p h = h
  pairs-Fits (pair k v ps) p h =
      then-Fits (w_object k p) _ (object-Fits k p h)
        (λ q g. then-Fits (w_object v q) _ (object-Fits v q g) (pairs-Fits ps))

-- Where the bytes written so far fit into the bytes object and `offset` is their number, the same
-- holds after any object that `w_object` writes without an error: every byte goes into the bytes
-- object, which `w_more` makes larger in time.
pub w_object-Fits : (o : Object) (p p' : WFile) → Fits p → w_object o p ≡ ok p' → Fits p'
w_object-Fits o p p' h e = subst FitsResult e (object-Fits o p h)
