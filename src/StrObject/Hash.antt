-- ===== src/StrObject/Hash.antt =====
-- `str_hash` of objects/strobject.c against the hash that its comment describes.
use cobj.Prelude.{
  ℕ, zero, suc, ◌+◌, ◌-◌, ◌*◌, ◌%◌, ◌^◌, ◌≤◌, ◌<◌, ◌≡◌, refl, ap, ◌∙◌, arith, List, [], ◌∷◌, length,
}
use cobj.Prelude.{false, Bool-cases, if◌then◌else◌, ltb, leb, ◌==◌, ◌⊎◌, inl, inr}
use native.Mathlib.Nat.{pow-suc}
use cobj.StrObject.{
  StrObject, IsBytes, no_hash, times_33, hash_eight, hash_loop, hash_rest, str_hash,
}

-- A char as a number in 64 bits: a byte from 128 on is that number less 256.
unfoldable pub char_value : ℕ → ℕ
char_value c = if ltb c 128 then c else 2 ^ 64 - (256 - c)

-- The sum of the chars, each times 33 to the power of the number of chars behind it.
unfoldable pub powers_of_33 : List ℕ → ℕ
powers_of_33 [] = 0
powers_of_33 (c ∷ s) = char_value c * 33 ^ length s + powers_of_33 s

-- The hash of the comment as one polynomial: `hash(i) = hash(i-1) * 33 + str[i]` from 5381 on.
unfoldable pub polynomial_hash : List ℕ → ℕ
polynomial_hash s = (5381 * 33 ^ length s + powers_of_33 s) % 2 ^ 64

-- The hash as the source computes it char by char.
times_33_hash : ℕ → List ℕ → ℕ
times_33_hash hash [] = hash
times_33_hash hash (c ∷ s) = times_33_hash (times_33 hash c) s

-- The cached hash is not computed yet, or that of the bytes.
unfoldable pub IsHashed : StrObject → Type 0
IsHashed o = (o.co_shash ≡ no_hash) ⊎ (o.co_shash ≡ polynomial_hash o.co_sval)

hash_eight_lem :
    (s : List ℕ) (hash : ℕ)
    → 8 ≤ length s
    → let (s', h) = hash_eight s hash in
      (times_33_hash h s' ≡ times_33_hash hash s) × (length s' + 8 ≡ length s)
unfolding hash_eight times_33_hash
hash_eight_lem (c1 ∷ c2 ∷ c3 ∷ c4 ∷ c5 ∷ c6 ∷ c7 ∷ c8 ∷ s) hash l = (refl, omega arith)
hash_eight_lem [] hash l = absurd (omega (arith, l))
hash_eight_lem (c1 ∷ []) hash l = absurd (omega (arith, l))
hash_eight_lem (c1 ∷ c2 ∷ []) hash l = absurd (omega (arith, l))
hash_eight_lem (c1 ∷ c2 ∷ c3 ∷ []) hash l = absurd (omega (arith, l))
hash_eight_lem (c1 ∷ c2 ∷ c3 ∷ c4 ∷ []) hash l = absurd (omega (arith, l))
hash_eight_lem (c1 ∷ c2 ∷ c3 ∷ c4 ∷ c5 ∷ []) hash l = absurd (omega (arith, l))
hash_eight_lem (c1 ∷ c2 ∷ c3 ∷ c4 ∷ c5 ∷ c6 ∷ []) hash l = absurd (omega (arith, l))
hash_eight_lem (c1 ∷ c2 ∷ c3 ∷ c4 ∷ c5 ∷ c6 ∷ c7 ∷ []) hash l = absurd (omega (arith, l))

hash_rest_lem :
    (n : ℕ) (s : List ℕ) (hash : ℕ) → n ≡ length s → hash_rest n s hash ≡ times_33_hash hash s
unfolding hash_rest times_33_hash
hash_rest_lem zero [] hash e = refl
hash_rest_lem zero (c ∷ s) hash e = absurd (omega (arith, e))
hash_rest_lem (suc n) [] hash e = absurd (omega (arith, e))
hash_rest_lem (suc n) (c ∷ s) hash e = hash_rest_lem n s (times_33 hash c) (omega (arith, e))

-- The loop leaves less than eight bytes, so the switch has a case for them.
hash_loop_lem :
    (fuel n : ℕ) (s : List ℕ) (hash : ℕ)
    → n ≡ length s
    → n ≤ fuel
    → let (m, s', h) = hash_loop fuel n s hash in
      (m < 8) × (hash_rest m s' h ≡ times_33_hash hash s)
unfolding hash_loop
hash_loop_lem zero n s hash e l = (omega (arith, l), hash_rest_lem n s hash e)
hash_loop_lem (suc fuel) n s hash e l = elim (Bool-cases (leb 8 n)) [
  | inr f ↦ rw f (ground arith, hash_rest_lem n s hash e)
  | inl f ↦
      let eight : 8 ≤ n = ground arith in
      let (same, less) = hash_eight_lem s hash (omega (arith, e, eight)) in
      let (k, g) =
        hash_loop_lem fuel (n - 8) (hash_eight s hash).0 (hash_eight s hash).1
          (omega (arith, e, less)) (omega (arith, l, eight)) in
      rw f (k, g ∙ same)
]

times_33_lem : (x c : ℕ) → c < 256 → times_33 (x % 2 ^ 64) c ≡ (x * 33 + char_value c) % 2 ^ 64
unfolding times_33 char_value
times_33_lem x c b = elim (Bool-cases (ltb c 128)) [
  | inl e ↦ rw e (omega arith)
  | inr e ↦ rw e (let high : 128 ≤ c = ground (arith, e) in omega (arith, b, high))
]

-- Char by char, from any start, is the polynomial.
times_33-powers_of_33 :
    (s : List ℕ) (x : ℕ)
    → IsBytes s
    → times_33_hash (x % 2 ^ 64) s ≡ (x * 33 ^ length s + powers_of_33 s) % 2 ^ 64
unfolding times_33_hash powers_of_33
times_33-powers_of_33 [] x h = omega arith
times_33-powers_of_33 (c ∷ s) x (b, h) =
    let k = 33 ^ length s in
    let same : (x * 33 + char_value c) * k + powers_of_33 s
        ≡ x * (k * 33) + (char_value c * k + powers_of_33 s) =
      omega arith in
    rw (pow-suc 33 (length s)) (
      ap (λ n. times_33_hash n s) (times_33_lem x c b)
      ∙ times_33-powers_of_33 s (x * 33 + char_value c) h
      ∙ ap (λ n. n % 2 ^ 64) same)

times_33_hash-polynomial_hash : (s : List ℕ) → IsBytes s → times_33_hash 5381 s ≡ polynomial_hash s
unfolding polynomial_hash
times_33_hash-polynomial_hash s h = times_33-powers_of_33 s 5381 h

-- Where the hash that a string keeps is not computed yet or that of its bytes, and it has less
-- than 2 ^ 32 bytes, `str_hash` gives the sum of 5381 and the signed chars, each times 33 to the
-- power of the number of chars behind it, in 64 bits, for the loop unrolled eight times and the
-- switch behind it as for a cached hash; the string that it leaves has the same bytes and keeps a
-- hash in the same sense.
pub str_hash-IsHashed :
    (o : StrObject)
    → IsHashed o
    → IsBytes o.co_sval
    → length o.co_sval < 2 ^ 32
    → let (hash, o') = str_hash o in
      (hash ≡ polynomial_hash o.co_sval) × IsHashed o' × (o'.co_sval ≡ o.co_sval)
unfolding str_hash IsHashed
str_hash-IsHashed o h b l =
    let len : length o.co_sval % 2 ^ 32 ≡ length o.co_sval = omega (arith, l) in
    let (k, folded) =
      hash_loop_lem (length o.co_sval) (length o.co_sval) o.co_sval 5381 refl (omega arith) in
    let e = folded ∙ times_33_hash-polynomial_hash o.co_sval b in
    elim (Bool-cases (o.co_shash == no_hash)) [
      | inl f ↦ rw (f, len) (e, inr e, refl)
      | inr f ↦ rw f (cached h f, h, refl)
    ]
  where
    cached :
        (o.co_shash ≡ no_hash) ⊎ (o.co_shash ≡ polynomial_hash o.co_sval)
        → (o.co_shash == no_hash) ≡ false
        → o.co_shash ≡ polynomial_hash o.co_sval
    cached (inl e) f = absurd (ground (arith, e, f))
    cached (inr e) f = e
