-- ===== src/BigInt/Divide/Laws.antt =====
-- The rounds of x_divrem of objects/intobject.c, on magnitudes.
use cobj.Prelude.{ℕ, zero, suc, ◌+◌, ◌-◌, ◌*◌, ◌^◌, ◌<◌, ◌≤◌, ◌≡◌, arith, refl, sym, ap, ◌∙◌}
use cobj.Prelude.{List, [], ◌∷◌, ◌++◌, length, get_or, take, drop, All-take, length-append}
use cobj.Prelude.{true, ltb, leb, ◌==◌, ==_iff, Bool-cases, inl, inr}
use cobj.Prelude.{le→leb, lt→ltb, take-append-drop, length-drop}
use cobj.Prelude.Int.{pos}
use cobj.Prelude.Result.{ok}
use cobj.BigInt.{value, base, IsDigit, IsDigits}
use cobj.BigInt.Divide.{div_loop, extend, div_shifted, v_rshift, rshift_loop}
use cobj.BigInt.Divide.Digits.{rshift_loop-Divided, Shifted}
use cobj.BigInt.Divide.Window.{weight, top_one, take-bound}
use cobj.BigInt.Divide.Step.{IsDivisor, div_digit-Round}
use native.Mathlib.Nat.{mul-le-mul_left, mul-le-mul_right}

pub value-append : (xs ys : List ℕ) → value (xs ++ ys) ≡ value xs + weight (length xs) * value ys
value-append [] ys = omega arith
value-append (x ∷ xs) ys = omega (arith, value-append xs ys)

-- What a division by `w` leaves of the number `n`.
pub record Quotient (w : List ℕ) (n : ℕ) (o : List ℕ × List ℕ) : Type 0 where
  pub exact : value o.0 * value w + value o.1 ≡ n
  pub small : value o.1 < value w
  pub digits : IsDigits o.0
  pub rest : IsDigits o.1
  pub same_length : length o.1 ≡ length w

pub div_loop-Quotient :
    (m : ℕ) (w lows rest : List ℕ)
    → IsDivisor m w
    → IsDigits lows
    → IsDigits rest
    → length rest ≡ length w
    → value rest < value w
    → (o : List ℕ × List ℕ) × (div_loop w lows rest ≡ ok o) × Quotient w (value (lows ++ rest)) o
unfolding div_loop
div_loop-Quotient m w [] rest iw rl rr n b = (
  ([], rest),
  refl,
  record { exact = omega arith; small = b; digits = tt; rest = rr; same_length = n },
)
div_loop-Quotient m w (x ∷ lows) rest iw (rx, rl) rr n b =
    let ((q, r), e, i) = div_loop-Quotient m w lows rest iw rl rr n b in
    let ((d, r'), e', j) = div_digit-Round m w x r iw rx i.rest i.same_length i.small in
    (
      (d ∷ q, r'),
      rw (e, e') refl,
      record {
        exact = omega (arith, i.exact, j.exact);
        small = j.small;
        digits = (j.digit, i.digits);
        rest = j.in_range;
        same_length = j.same_length;
      },
    )

-- Multiples of `p` with a rest below `p`.
pub cancel_right : (a b c p : ℕ) → a * p ≡ b * p + c → c < p → (a ≡ b) × (c ≡ 0)
cancel_right a b c p e l =
    let same : a ≡ b = elim (Bool-cases (ltb a b)) [
      | inl t ↦
          let g = mul-le-mul_right {m = suc a} {n = b} p (ground (arith, t)) in
          absurd (omega (arith, g, e, l))
      | inr t ↦ elim (Bool-cases (ltb b a)) [
        | inl s ↦
            let g = mul-le-mul_right {m = suc b} {n = a} p (ground (arith, s)) in
            absurd (omega (arith, g, e, l))
        | inr s ↦ ground (arith, t, s)
      ]
    ] in
    let g : a * p ≡ b * p = ap (λ k. k * p) same in (same, omega (arith, g, e))

pub get_or-drop : (k i : ℕ) (ds : List ℕ) → get_or (drop k ds) i 0 ≡ get_or ds (k + i) 0
get_or-drop zero i ds = ap (λ j. get_or ds j 0) (omega arith)
get_or-drop (suc k) i [] = refl
get_or-drop (suc k) i (d ∷ ds) =
    let e : suc k + i ≡ suc (k + i) = omega arith in rw e (get_or-drop k i ds)

pub get_or-last : (ds : List ℕ) (c i : ℕ) → i ≡ length ds → get_or (ds ++ c ∷ []) i 0 ≡ c
get_or-last [] c i e = rw e refl
get_or-last (d ∷ ds) c zero e = absurd (omega (arith, e))
get_or-last (d ∷ ds) c (suc i) e = get_or-last ds c i (omega (arith, e))

pub All-snoc : (ds : List ℕ) (c : ℕ) → IsDigits ds → IsDigit c → IsDigits (ds ++ c ∷ [])
All-snoc [] c r h = (h, tt)
All-snoc (d ∷ ds) c (rd, r) h = (rd, All-snoc ds c r h)

pub All-drop : (k : ℕ) (ds : List ℕ) → IsDigits ds → IsDigits (drop k ds)
All-drop zero ds r = r
All-drop (suc k) [] r = tt
All-drop (suc k) (d ∷ ds) (rd, r) = All-drop k ds r

-- The dividend is ready: its top window starts below the divisor.
pub record Ready (m n : ℕ) (w v : List ℕ) : Type 0 where
  pub number : value v ≡ n
  pub in_range : IsDigits v
  pub long : suc (suc m) ≤ length v
  pub top : get_or v (length v - 1) 0 < get_or w (suc m) 0

pub extend-Ready :
    (m n : ℕ) (w v : List ℕ) (carry : ℕ)
    → IsDivisor m w
    → IsDigits v
    → suc (suc m) ≤ length v
    → value (v ++ carry ∷ []) ≡ n
    → carry < 2 ^ 29
    → Ready m n w (extend w v carry)
unfolding extend
extend-Ready m n w v carry iw rv l e c =
    let i1 : length w - 1 ≡ suc m = omega (arith, iw.count) in
    let longer = length-append v (carry ∷ []) in
    let last : length (v ++ carry ∷ []) - 1 ≡ length v = omega (arith, longer) in
    let grown : Ready m n w (v ++ carry ∷ []) = record {
      number = e;
      in_range = All-snoc v carry rv (omega (arith, c));
      long = omega (arith, longer, l);
      top = omega (arith, get_or-last v carry (length (v ++ carry ∷ []) - 1) last, c, iw.top);
    } in
    elim (Bool-cases (carry == 0)) [
      | inr z ↦ rw z grown
      | inl z ↦ elim (Bool-cases (leb (get_or w (suc m) 0) (get_or v (length v - 1) 0))) [
        | inl t ↦ rw (z, i1, t) grown
        | inr t ↦
            let z' : weight (length v) * carry ≡ weight (length v) * 0 =
              ap (λ k. weight (length v) * k) ((==_iff carry 0).0 z) in
            rw (z, i1, t)
              (record {
                number = omega (arith, e, value-append v (carry ∷ []), z');
                in_range = rv;
                long = l;
                top = ground (arith, t);
              })
      ]
    ]

pub Ready-Quotient :
    (m n : ℕ) (w v : List ℕ)
    → IsDivisor m w
    → Ready m n w v
    → let k = length v - length w in
      (o : List ℕ × List ℕ) × (div_loop w (take k v) (drop k v) ≡ ok o) × Quotient w n o
Ready-Quotient m n w v iw r =
    let k = length v - length w in
    let highs = drop k v in
    let count : length highs ≡ length w = omega (arith, length-drop k v, iw.count, r.long) in
    let top : get_or highs (suc m) 0 ≡ get_or v (length v - 1) 0 =
      get_or-drop k (suc m) v ∙ ap (λ i. get_or v i 0) (omega (arith, iw.count, r.long)) in
    let dh = All-drop k v r.in_range in
    let th = top_one (suc m) highs (count ∙ iw.count) in
    let tw = top_one (suc m) w iw.count in
    let lh = take-bound (suc m) highs dh (omega (arith, count, iw.count)) in
    let g =
      mul-le-mul_left {m = suc (get_or highs (suc m) 0)} {n = get_or w (suc m) 0} (weight (suc m))
        (omega (arith, r.top, top)) in
    let below : value highs < value w = omega (arith, th, tw, lh, g) in
    let (o, e, q) =
      div_loop-Quotient m w (take k v) highs iw (All-take IsDigit k v r.in_range) dh count below in
    let whole : value (take k v ++ highs) ≡ n = ap value (take-append-drop k v) ∙ r.number in
    (
      o,
      e,
      record {
        exact = q.exact ∙ whole;
        small = q.small;
        digits = q.digits;
        rest = q.rest;
        same_length = q.same_length;
      },
    )

-- The shifted divisor: no carry is left, and its top bit is set.
pub lshift_loop-IsDivisor :
    (m p : ℕ) (b ws : List ℕ) (carry : ℕ)
    → IsDigits b
    → length b ≡ suc (suc m)
    → base ≤ 2 * (get_or b (suc m) 0 * p)
    → suc (get_or b (suc m) 0) * p ≤ base
    → Shifted p 0 b (ws, carry)
    → (carry ≡ 0) × (value ws ≡ value b * p) × IsDivisor m ws
lshift_loop-IsDivisor m p b ws carry rb n lo hi s =
    let n' : length ws ≡ suc (suc m) = s.same_length ∙ n in
    let t = get_or b (suc m) 0 in
    let tb = top_one (suc m) b n in
    let lb = take-bound (suc m) b rb (omega (arith, n)) in
    let e = weight (suc m) in
    let g1 = mul-le-mul_left {m = suc t * p} {n = base} e hi in
    let g2 = mul-le-mul_left {m = base} {n = 2 * (t * p)} e lo in
    let g3 = mul-le-mul_right {m = suc (value (take (suc m) b))} {n = e} p lb in
    let vb : value b * p ≡ (value (take (suc m) b) + e * t) * p = ap (λ k. k * p) tb in
    let ex = s.exact in
    let va = value-append ws (carry ∷ []) in
    let wn : weight (length ws) * carry ≡ base * (e * carry) =
      ap (λ k. weight k * carry) n' ∙ omega arith in
    let zero_carry : carry ≡ 0 = elim (Bool-cases (carry == 0)) [
      | inl z ↦ (==_iff carry 0).0 z
      | inr z ↦
          let c1 = mul-le-mul_left {m = 1} {n = carry} e (ground (arith, z)) in
          absurd (omega (arith, c1, ex, va, wn, vb, g1, g3, s.small))
    ] in
    let zc : e * carry ≡ e * 0 = ap (λ k. e * k) zero_carry in
    let v : value ws ≡ value b * p = omega (arith, ex, va, wn, zc) in
    let tw = top_one (suc m) ws n' in
    let lw = take-bound (suc m) ws s.in_range (omega (arith, n')) in
    let high : base ≤ 2 * get_or ws (suc m) 0 =
      elim (Bool-cases (ltb (2 * get_or ws (suc m) 0) base)) [
        | inl z ↦
            let z' : 2 * get_or ws (suc m) 0 < base = ground (arith, z) in
            let h =
              mul-le-mul_left {m = 2 * get_or ws (suc m) 0 + 2} {n = base} e (omega (arith, z')) in
            absurd (omega (arith, h, tw, lw, v, vb, g2))
        | inr z ↦ ground (arith, z)
      ] in
    (zero_carry, v, record { in_range = s.in_range; count = n'; top = high })

-- The division of the shifted numbers gives that of the numbers.
pub div_shifted_lem :
    (m k : ℕ) (a b : List ℕ) (ws vs : List ℕ × ℕ)
    → k < 30
    → IsDigits b
    → length b ≡ suc (suc m)
    → suc (suc m) ≤ length a
    → 2 ^ k ≤ 2 ^ 29
    → base ≤ 2 * (get_or b (suc m) 0 * 2 ^ k)
    → suc (get_or b (suc m) 0) * 2 ^ k ≤ base
    → Shifted (2 ^ k) 0 b ws
    → Shifted (2 ^ k) 0 a vs
    → (o : List ℕ × List ℕ) × (div_shifted (pos k) ws vs ≡ ok o)
      × (value o.0 * value b + value o.1 ≡ value a)
      × (value o.1 < value b)
      × IsDigits o.0
      × IsDigits o.1
unfolding div_shifted v_rshift
div_shifted_lem m k a b (ws, cw) (vs, cv) less rb n la small lo hi sw sv =
    let p = 2 ^ k in
    let (zc, vw, iw) = lshift_loop-IsDivisor m p b ws cw rb n lo hi sw in
    let ready =
      extend-Ready m (value a * p) ws vs cv iw sv.in_range (omega (arith, sv.same_length, la))
        (omega (arith, sv.exact)) (omega (arith, sv.small, small)) in
    let v' = extend ws vs cv in
    let ((q, r), e, o) = Ready-Quotient m (value a * p) ws v' iw ready in
    let d = rshift_loop-Divided p r (omega (arith, sv.small)) (omega (arith, small)) o.rest in
    let z = (rshift_loop p r).0 in
    let c = (rshift_loop p r).1 in
    let qb : value q * value ws ≡ value q * (value b * p) = ap (λ x. value q * x) vw in
    let whole : value a * p ≡ (value q * value b + value z) * p + c =
      omega (arith, o.exact, d.exact, qb) in
    let (ea, ec) = cancel_right (value a) (value q * value b + value z) c p whole d.small in
    let below : value z < value b = elim (Bool-cases (ltb (value z) (value b))) [
      | inl t ↦ ground (arith, t)
      | inr t ↦
          let g = mul-le-mul_right {m = value b} {n = value z} p (ground (arith, t)) in
          absurd (omega (arith, g, d.exact, o.small, vw))
    ] in
    let fit : leb (length ws) (length v') ≡ true =
      le→leb _ _ (omega (arith, iw.count, ready.long)) in
    let c0 : (cw == 0) ≡ true = (==_iff cw 0).1 zc in
    let r0 : (c == 0) ≡ true = (==_iff c 0).1 ec in
    ((q, z), rw (c0, fit, e, lt→ltb k 30 less, r0) refl, sym ea, below, o.digits, d.in_range)
