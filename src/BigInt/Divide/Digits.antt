-- ===== src/BigInt/Divide/Digits.antt =====
-- inplace_divrem1, the loops of v_lshift and v_rshift, and bits_in_digit of objects/intobject.c on vectors of digits.
use cobj.Prelude.{
  ℕ, zero, suc, ◌+◌, ◌-◌, ◌*◌, ◌/◌, ◌%◌, ◌^◌, ◌<◌, ◌≤◌, ◌≡◌, arith, refl, sym, ap, ◌∙◌,
}
use cobj.Prelude.{List, [], ◌∷◌, ◌++◌, length, Bool, true, ltb, leb, get_or}
use cobj.Prelude.{Bool-cases, inl, inr, ◌⊎◌, if◌then◌else◌}
use cobj.BigInt.{value, base, IsDigit, IsDigits}
use cobj.Prelude.{every, every_at, ◌==◌, ◌&&◌}
use cobj.BigInt.Divide.{
  bit_length_table, lshift_loop, rshift_loop, inplace_divrem1, bits_loop, bits_in_digit,
}
use native.Mathlib.Nat.{
  div-add-mod, mod-lt, mul-le-mul, pow-le-pow_right, pow-suc, mul-le-mul_right,
}

-- What a division of the vector `ds` by `n` promises of the quotient and the remainder.
pub record Divided (n : ℕ) (ds : List ℕ) (r : List ℕ × ℕ) : Type 0 where
  pub exact : value r.0 * n + r.1 ≡ value ds
  pub small : r.1 < n
  pub in_range : IsDigits r.0
  pub same_length : length r.0 ≡ length ds

-- A quotient of one digit more.
one_more :
    (n rem x : ℕ)
    → rem < n
    → n ≤ base
    → IsDigit x
    → (((rem * base + x) / n * n + (rem * base + x) % n) ≡ rem * base + x)
      × ((rem * base + x) / n < base)
      × ((rem * base + x) % n < n)
one_more n rem x r h d =
    let z = rem * base + x in
    let e = div-add-mod z n in
    let m : z % n < n = mod-lt z (omega arith) in
    let q = z / n in
    (
      omega (arith, e),
      (elim (Bool-cases (ltb q base)) [
        | inl t ↦ ground (arith, t)
        | inr t ↦
            let g =
              mul-le-mul {n₁ = base} {m₁ = n} {n₂ = q} {m₂ = n} (ground arith) (omega arith) in
            absurd (omega (arith, e, g))
      ]),
      m,
    )

pub rshift_loop-Divided :
    (n : ℕ) (ds : List ℕ) → 0 < n → n ≤ base → IsDigits ds → Divided n ds (rshift_loop n ds)
unfolding rshift_loop
rshift_loop-Divided n [] p h r = record {
  exact = omega arith;
  small = p;
  in_range = tt;
  same_length = refl;
}
rshift_loop-Divided n (x ∷ ds) p h (d, r) =
    let i = rshift_loop-Divided n ds p h r in
    let c = (rshift_loop n ds).1 in
    let (e, q, m) = one_more n c x i.small h d in
    record {
      exact = omega (arith, e, i.exact);
      small = m;
      in_range = (q, i.in_range);
      same_length = ap suc i.same_length;
    }

pub inplace_divrem1-Divided :
    (n : ℕ) (ds : List ℕ) → 0 < n → n ≤ base → IsDigits ds → Divided n ds (inplace_divrem1 n ds)
unfolding inplace_divrem1
inplace_divrem1-Divided n [] p h r = record {
  exact = omega arith;
  small = p;
  in_range = tt;
  same_length = refl;
}
inplace_divrem1-Divided n (x ∷ ds) p h (d, r) =
    let i = inplace_divrem1-Divided n ds p h r in
    let c = (inplace_divrem1 n ds).1 in
    let (e, q, m) = one_more n c x i.small h d in
    let w : (c * base) % 2 ^ 64 + x ≡ c * base + x = omega (arith, i.small) in
    let w' : (c * base + x) / n % 2 ^ 32 ≡ (c * base + x) / n = omega (arith, q) in
    rw (w, w')
      (record {
        exact = omega (arith, e, i.exact);
        small = omega (arith, e, m);
        in_range = (q, i.in_range);
        same_length = ap suc i.same_length;
      })

-- What a shift to the left promises: the digits with the carry on top are the product.
pub record Shifted (p carry : ℕ) (ds : List ℕ) (r : List ℕ × ℕ) : Type 0 where
  pub exact : value (r.0 ++ r.1 ∷ []) ≡ value ds * p + carry
  pub small : r.1 < p
  pub in_range : IsDigits r.0
  pub same_length : length r.0 ≡ length ds

pub lshift_loop-Shifted :
    (p : ℕ) (ds : List ℕ) (carry : ℕ)
    → p ≤ base
    → carry < p
    → IsDigits ds
    → Shifted p carry ds (lshift_loop p ds carry)
unfolding lshift_loop
lshift_loop-Shifted p [] carry h l r = record {
  exact = omega arith;
  small = l;
  in_range = tt;
  same_length = refl;
}
lshift_loop-Shifted p (x ∷ ds) carry h l (d, r) =
    let g : x * p + p ≤ base * p = grind arith in
    let w : (x * p) % 2 ^ 64 + carry ≡ x * p + carry = omega (arith, g) in
    let i = lshift_loop-Shifted p ds ((x * p + carry) / base) h (omega (arith, g)) r in
    rw w (record {
      exact = omega (arith, i.exact);
      small = i.small;
      in_range = (omega arith, i.in_range);
      same_length = ap suc i.same_length;
    })

pub pow-add : (m n : ℕ) → 2 ^ (m + n) ≡ 2 ^ m * 2 ^ n
pow-add zero n = let e : 0 + n ≡ n = omega arith in rw e (omega arith)
pow-add (suc m) n =
    let e : suc m + n ≡ suc (m + n) = omega arith in
    let ih = pow-add m n in
    let a = pow-suc 2 (m + n) in let b = pow-suc 2 m in rw (e, a, b) (grind (arith, ih))

-- `b` bits are the least that hold `d`.
abbrev IsBits : ℕ → ℕ → Type 0
IsBits d b = (d < 2 ^ b) × ((d ≡ 0) × (b ≡ 0) ⊎ (0 < b) × (2 ^ b ≤ 2 * d))

bits_fit : ℕ → Bool
bits_fit d =
    let b = get_or bit_length_table d 0 in
    ltb d (2 ^ b) && (if d == 0 then b == 0 else ltb 0 b && leb (2 ^ b) (2 * d))

bits_table : every bits_fit 32 ≡ true
unfolding every bits_fit
bits_table = refl

table-IsBits : (d : ℕ) → d < 32 → IsBits d (get_or bit_length_table d 0)
unfolding bits_fit
table-IsBits d h = ground (arith, every_at bits_fit 32 d bits_table h)

bits_loop-IsBits : (fuel d : ℕ) → d < 32 * 64 ^ fuel → IsBits d (bits_loop fuel d)
unfolding bits_loop
bits_loop-IsBits zero d h = table-IsBits d (omega arith)
bits_loop-IsBits (suc fuel) d h = elim (Bool-cases (leb 32 d)) [
  | inl t ↦
      let ih = bits_loop-IsBits fuel (d / 64) (omega arith) in
      rw t (more (bits_loop fuel (d / 64)) (ground (arith, t)) ih)
  | inr t ↦ rw t (table-IsBits d (ground (arith, t)))
]
  where
    more : (b : ℕ) → 32 ≤ d → IsBits (d / 64) b → IsBits d (6 + b)
    more b l (fits, least) =
        let e = pow-add 6 b in
        (
          omega (arith, e, fits),
          inr (
            omega arith,
            (elim least [ inl (z, zb) ↦ rw zb (omega arith) | inr (q, g) ↦ omega (arith, e, g) ]),
          ),
        )

-- The shift that brings the top bit of a digit to the top of the digit.
pub bits_in_digit_lem :
    (d : ℕ)
    → 0 < d
    → IsDigit d
    → (2 ^ (30 - bits_in_digit d) ≤ 2 ^ 29)
      × (base ≤ 2 * (d * 2 ^ (30 - bits_in_digit d)))
      × (suc d * 2 ^ (30 - bits_in_digit d) ≤ base)
      × (0 < bits_in_digit d)
      × (bits_in_digit d ≤ 30)
unfolding bits_in_digit
bits_in_digit_lem d p h =
    let (fits, least) = bits_loop-IsBits 5 d (omega arith) in
    elim least [
      | inl (z, zb) ↦ absurd (omega (arith, z, p))
      | inr (q, g) ↦ shifted (bits_loop 5 d) q fits g
    ]
  where
    shifted :
        (b : ℕ)
        → 0 < b
        → d < 2 ^ b
        → 2 ^ b ≤ 2 * d
        → (2 ^ (30 - b) ≤ 2 ^ 29)
          × (base ≤ 2 * (d * 2 ^ (30 - b)))
          × (suc d * 2 ^ (30 - b) ≤ base)
          × (0 < b)
          × (b ≤ 30)
    shifted b q fits g =
        let least : b ≤ 30 = elim (Bool-cases (leb 31 b)) [
          | inl t ↦
              let w = pow-le-pow_right {n = 2} (omega arith) {i = 31} {j = b} (ground arith) in
              absurd (omega (arith, w, g, h))
          | inr t ↦ ground (arith, t)
        ] in
        let k = 30 - b in
        let small =
          pow-le-pow_right {n = 2} (omega arith) {i = k} {j = 29} (omega (arith, least)) in
        let full : b + k ≡ 30 = omega (arith, least) in
        let whole : 2 ^ b * 2 ^ k ≡ 2 ^ 30 = sym (pow-add b k) ∙ ap (λ n. 2 ^ n) full in
        let lo = mul-le-mul_right {m = suc d} {n = 2 ^ b} (2 ^ k) fits in
        let hi = mul-le-mul_right (2 ^ k) g in
        (omega (arith, small), omega (arith, whole, hi), omega (arith, whole, lo), q, least)
