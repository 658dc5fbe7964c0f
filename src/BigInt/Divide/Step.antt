-- ===== src/BigInt/Divide/Step.antt =====
-- A round of x_divrem of objects/intobject.c.
use cobj.Prelude.{ℕ, suc, ◌+◌, ◌-◌, ◌*◌, ◌<◌, ◌≤◌, ◌≡◌, arith, refl, sym, ap, ◌∙◌}
use cobj.Prelude.{List, ◌∷◌, length, get_or, take, length-take, All-take}
use cobj.Prelude.{Bool, true, false, ltb, leb, ◌==◌, ==_iff, ◌&&◌, Bool-cases, inl, inr, ◌⊎◌}
use cobj.Prelude.{lt→ltb, le→leb}
use cobj.Prelude.Result.{Result, ok}
use cobj.BigInt.{value, base, IsDigit, IsDigits}
use cobj.BigInt.Divide.{assert, estimate, sub_mul, add_back, settle_digit, div_digit}
use cobj.BigInt.Divide.Estimate.{IsEstimate, estimate-IsEstimate}
use cobj.BigInt.Divide.Window.{weight, value_bound, get_or-IsDigit, top_one, top_two, top_three}
use cobj.BigInt.Divide.Window.{take-bound, Subtracted, sub_mul-Subtracted, add_back-Added}
use native.Mathlib.Nat.{mul-le-mul, mul-le-mul_left, mul-le-mul_right}

-- The estimate of the top digits is at most one above the quotient `V / W`. `e` is the weight of
-- the digits below.
estimate_bounds :
    (e wl wm1 wm2 vl v1 v2 vtop q : ℕ)
    → wl < e
    → vl < e
    → base ≤ wm1 * base + wm2
    → q ≤ base
    → IsEstimate wm1 wm2 (vtop * base + v1) v2 q
    → (vl + e * (v2 + base * (v1 + base * vtop))
        < q * (wl + e * (wm2 + base * wm1)) + (wl + e * (wm2 + base * wm1)))
      × (q * (wl + e * (wm2 + base * wm1))
          ≤ vl + e * (v2 + base * (v1 + base * vtop)) + (wl + e * (wm2 + base * wm1)))
estimate_bounds e wl wm1 wm2 vl v1 v2 vtop q lw lv d b i =
    let lo = mul-le-mul_left e i.lower in
    let hi = mul-le-mul_left e i.upper in
    let m = mul-le-mul {n₁ = q} {m₁ = wl} {n₂ = base} {m₂ = e} b (omega (arith, lw)) in
    let k = mul-le-mul_left e d in (omega (arith, hi, lv), omega (arith, lo, m, k))

-- The digits of the window are those of a number below `base * W`.
fit_lem : (e wl d v n : ℕ) → wl < e → v + e * n < base * (wl + e * d) → n < base * d + base
fit_lem e wl d v n lw h = elim (Bool-cases (leb (base * d + base) n)) [
  | inl t ↦
      let g = mul-le-mul_left {m = base * d + base} {n = n} e (ground (arith, t)) in
      absurd (omega (arith, g, h, lw))
  | inr t ↦ ground (arith, t)
]

-- The borrow of the subtraction is that of the quotient digit or one more.
borrow_lem :
    (p u t vtop vlow qw w : ℕ)
    → u + qw ≡ vlow + p * t
    → u < p
    → w < p
    → vlow + p * vtop < qw + w
    → qw ≤ vlow + p * vtop + w
    → (t ≡ vtop) ⊎ (t ≡ suc vtop)
borrow_lem p u t vtop vlow qw w e lu lw lo hi = elim (Bool-cases (ltb t vtop)) [
  | inl a ↦
      let g = mul-le-mul_left {m = suc t} {n = vtop} p (ground (arith, a)) in
      absurd (omega (arith, g, e, lo, lw))
  | inr a ↦ elim (Bool-cases (ltb (suc vtop) t)) [
    | inl c ↦
        let g = mul-le-mul_left {m = suc (suc vtop)} {n = t} p (ground (arith, c)) in
        absurd (omega (arith, g, e, hi, lu, lw))
    | inr c ↦
        let a' : vtop ≤ t = ground (arith, a) in
        let c' : t ≤ suc vtop = ground (arith, c) in omega arith
  ]
]

-- What a round promises: a digit of the quotient, and a remainder below the divisor.
pub record Round (w window : List ℕ) (r : ℕ × List ℕ) : Type 0 where
  pub exact : r.0 * value w + value r.1 ≡ value window
  pub small : value r.1 < value w
  pub digit : IsDigit r.0
  pub in_range : IsDigits r.1
  pub same_length : length r.1 ≡ length w

-- The end of a round, with the borrow that the estimate leaves.
module _ (w v window : List ℕ) (q vtop t : ℕ) (u : List ℕ) (rw' : IsDigits w)
    (n : length v ≡ length w) (s : Subtracted q v w 0 (u, t))
    (split : value window ≡ value v + weight (length v) * vtop)
    (below : value window < base * value w) (b : q ≤ base)
    (lo : value window < q * value w + value w) (hi : q * value w ≤ value window + value w) where
  settle_kept :
      t ≡ vtop → (r : ℕ × List ℕ) × (settle_digit w vtop q (u, t) ≡ ok r) × Round w window r
  unfolding settle_digit
  settle_kept e =
      let e1 : (t == vtop) ≡ true = (==_iff t vtop).1 e in
      let e2 : ltb vtop t ≡ false = ground (arith, e) in
      let pt : weight (length v) * t ≡ weight (length v) * vtop =
        ap (λ k. weight (length v) * k) e in
      let x : q * value w + value u ≡ value window = omega (arith, s.exact, split, pt) in
      let d : q < base = elim (Bool-cases (leb base q)) [
        | inl a ↦
            let g = mul-le-mul_right {m = base} {n = q} (value w) (ground (arith, a)) in
            absurd (omega (arith, g, x, below))
        | inr a ↦ ground (arith, a)
      ] in
      (
        (q, u),
        rw (e1, e2, lt→ltb q base d) refl,
        record {
          exact = x;
          small = omega (arith, x, lo);
          digit = d;
          in_range = s.in_range;
          same_length = s.same_length ∙ n;
        },
      )

  settle_back :
      t ≡ suc vtop → (r : ℕ × List ℕ) × (settle_digit w vtop q (u, t) ≡ ok r) × Round w window r
  unfolding settle_digit
  settle_back e =
      let m = length v in
      let e1 : (t == vtop) ≡ false = ground (arith, e) in
      let e2 : (t == vtop + 1) ≡ true = ground (arith, e) in
      let e3 : ltb vtop t ≡ true = ground (arith, e) in
      let pt : weight m * t ≡ weight m * suc vtop = ap (λ k. weight m * k) e in
      let a = add_back-Added u w 0 (s.same_length ∙ n) s.in_range rw' (omega arith) in
      let same : weight (length u) ≡ weight m = ap weight s.same_length in
      let room : value (add_back u w 0) < weight (length (add_back u w 0)) =
        value_bound (add_back u w 0) a.in_range in
      let room' : value (add_back u w 0) < weight m = rw (a.same_length, s.same_length) at room in
      let top : value u < weight m = rw s.same_length at (value_bound u s.in_range) in
      let pl : weight (length u) * a.last ≡ weight m * a.last = ap (λ k. k * a.last) same in
      let carried : a.last ≡ 1 = elim (Bool-cases (a.last == 0)) [
        | inl z ↦
            let z' : weight m * a.last ≡ weight m * 0 =
              ap (λ k. weight m * k) ((==_iff a.last 0).0 z) in
            absurd (omega (arith, s.exact, split, pt, a.exact, pl, z', room', hi))
        | inr z ↦ let z' : 0 < a.last = ground (arith, z) in omega (arith, a.small, z')
      ] in
      let pc : weight m * a.last ≡ weight m * 1 = ap (λ k. weight m * k) carried in
      let some_q : 0 < q = elim (Bool-cases (q == 0)) [
        | inl z ↦
            let z' : q * value w ≡ 0 * value w = ap (λ k. k * value w) ((==_iff q 0).0 z) in
            absurd (omega (arith, z', s.exact, split, pt, top))
        | inr z ↦ ground (arith, z)
      ] in
      let qw : q * value w ≡ (q - 1) * value w + value w =
        ap (λ k. k * value w) (omega (arith, some_q)) ∙ q_suc (q - 1) in
      (
        (q - 1, add_back u w 0),
        rw (e1, e2, e3, lt→ltb (q - 1) base (omega (arith, b))) refl,
        record {
          exact = omega (arith, qw, s.exact, split, pt, a.exact, pl, pc);
          small = omega (arith, a.exact, pl, pc, top);
          digit = omega (arith, b, some_q);
          in_range = a.in_range;
          same_length = a.same_length ∙ s.same_length ∙ n;
        },
      )
    where
      q_suc : (k : ℕ) → suc k * value w ≡ k * value w + value w
      q_suc k = omega arith

  settled :
      value w < weight (length v)
      → (r : ℕ × List ℕ) × (settle_digit w vtop q (u, t) ≡ ok r) × Round w window r
  settled room =
      let top : value u < weight (length v) = rw s.same_length at (value_bound u s.in_range) in
      elim (borrow_lem (weight (length v)) (value u) t vtop (value v) (q * value w) (value w)
        (omega (arith, s.exact)) top room (omega (arith, lo, split)) (omega (arith, hi, split))) [
          | inl e ↦ settle_kept e
          | inr e ↦ settle_back e
        ]

take-length_window : (n : ℕ) (ds : List ℕ) → length ds ≡ suc n → length (take n ds) ≡ n
take-length_window n ds e = omega (arith, length-take n ds)

pub assert-true {ℓ} : {A : Type ℓ} (c : Bool) (rest : Result A) → c ≡ true → assert c rest ≡ rest
assert-true c rest e = rw e refl

both_le : (a b c d : ℕ) → a ≤ b → c ≤ d → (leb a b && leb c d) ≡ true
both_le a b c d h k = rw (le→leb a b h, le→leb c d k) refl

-- A round of a divisor of `m + 2` digits.
div_digit_step :
    (m : ℕ) (w window : List ℕ)
    → length w ≡ suc (suc m)
    → let wm1 = get_or w (suc m) 0 in
      let vtop = get_or window (suc (suc m)) 0 in
      let q = estimate wm1 (get_or w m 0) vtop (get_or window (suc m) 0) (get_or window m 0) in
      div_digit w window
      ≡ assert
          (leb vtop wm1 && leb q base)
          (settle_digit w vtop q (sub_mul q (take (suc (suc m)) window) w 0))
unfolding div_digit
div_digit_step m w window e =
    let i1 : suc (suc m) - 1 ≡ suc m = omega arith in
    let i2 : suc (suc m) - 2 ≡ m = omega arith in rw (e, i1, i2) refl

-- A divisor of at least two digits whose top bit is set.
pub record IsDivisor (m : ℕ) (w : List ℕ) : Type 0 where
  pub in_range : IsDigits w
  pub count : length w ≡ suc (suc m)
  pub top : base ≤ 2 * get_or w (suc m) 0

pub div_digit-Round :
    (m : ℕ) (w : List ℕ) (x : ℕ) (r : List ℕ)
    → IsDivisor m w
    → IsDigit x
    → IsDigits r
    → length r ≡ length w
    → value r < value w
    → (o : ℕ × List ℕ) × (div_digit w (x ∷ r) ≡ ok o) × Round w (x ∷ r) o
div_digit-Round m w x r iw rx rr n below =
    let window = x ∷ r in
    let n' : length window ≡ suc (suc (suc m)) = omega (arith, n, iw.count) in
    let wm1 = get_or w (suc m) 0 in
    let wm2 = get_or w m 0 in
    let vtop = get_or window (suc (suc m)) 0 in
    let v1 = get_or window (suc m) 0 in
    let v2 = get_or window m 0 in
    let ds : IsDigits window = (rx, rr) in
    let d1 = get_or-IsDigit w (suc m) iw.in_range in
    let d2 = get_or-IsDigit w m iw.in_range in
    let b1 = get_or-IsDigit window (suc m) ds in
    let b2 = get_or-IsDigit window m ds in
    let tw = top_two m w iw.count in
    let tv = top_three m window n' in
    let lw = take-bound m w iw.in_range (omega (arith, iw.count)) in
    let lv = take-bound m window ds (omega (arith, n')) in
    let wl = value (take m w) in
    let vl = value (take m window) in
    let big : value window < base * value w = omega (arith, below, rx) in
    let fit =
      fit_lem (weight m) wl (wm2 + base * wm1) vl (v2 + base * (v1 + base * vtop)) lw
        (omega (arith, big, tw, tv)) in
    let high : vtop ≤ wm1 = omega (arith, fit, d2) in
    let (est, eb) =
      estimate-IsEstimate wm1 wm2 vtop v1 v2 iw.top d1 d2 b1 b2 high (omega (arith, fit)) in
    let q = estimate wm1 wm2 vtop v1 v2 in
    let (lo, hi) =
      estimate_bounds (weight m) wl wm1 wm2 vl v1 v2 vtop q lw lv (omega (arith, iw.top)) eb est in
    let v = take (suc (suc m)) window in
    let nv : length v ≡ length w = take-length_window (suc (suc m)) window n' ∙ sym iw.count in
    let s =
      sub_mul-Subtracted q v w 0 nv (All-take IsDigit (suc (suc m)) window ds) iw.in_range eb
        (omega arith) in
    let t1 = top_one (suc (suc m)) window n' in
    let wn : weight (length v) ≡ weight (suc (suc m)) = ap weight (nv ∙ iw.count) in
    let split : value window ≡ value v + weight (length v) * vtop =
      t1 ∙ ap (λ k. value v + k * vtop) (sym wn) in
    let room : value w < weight (length v) =
      let same : weight (length w) ≡ weight (length v) = ap weight (sym nv) in
      omega (arith, value_bound w iw.in_range, same) in
    let qt : q * value w ≡ q * (wl + weight m * (wm2 + base * wm1)) = ap (λ k. q * k) tw in
    let lo' : value window < q * value w + value w = omega (arith, lo, qt, tw, tv) in
    let hi' : q * value w ≤ value window + value w = omega (arith, hi, qt, tw, tv) in
    let (o, eo, ro) =
      settled w v window q vtop (sub_mul q v w 0).1 (sub_mul q v w 0).0 iw.in_range nv s split big
        eb lo' hi' room in
    (
      o,
      div_digit_step m w window iw.count
          ∙ assert-true _ (settle_digit w vtop q (sub_mul q v w 0))
              (both_le vtop wm1 q base high eb)
          ∙ eo,
      ro,
    )
