-- ===== src/BigInt/Magnitude/Subtract.antt =====
-- `x_sub` of objects/intobject.c.
use cobj.Prelude.{ℕ, zero, suc, ◌+◌, ◌-◌, ◌/◌, ◌%◌, ◌^◌, ◌<◌, ◌≤◌, ◌≡◌, arith, ap, ◌∙◌}
use cobj.Prelude.{List, [], ◌∷◌, length, take, get_or, min, length-take, All-take, refl, sym}
use cobj.Prelude.{Bool, true, false, if◌then◌else◌, ltb, ltb→lt, ◌==◌, ==_iff, Bool-cases, inl, inr}
use cobj.Prelude.Int.{sub_ℕ}
use cobj.BigInt.{IntObject, size, signed, value, base, IsDigit, IsDigits, IsNormal, to_ℤ, signed_ℤ}
use cobj.BigInt.Normalize.{negate, normalized_result}
use cobj.BigInt.Compare.{Scanned, highest_diff-Scanned}
use cobj.BigInt.Compare.Order.{value-lt}
use cobj.BigInt.Magnitude.{borrow_loop, sub_loop, sub_ordered, sub_same_size, x_sub}

borrow_loop_lem :
    (a : List ℕ) (c : ℕ)
    → IsDigits a
    → c ≤ 1
    → c ≤ value a
    → (value (borrow_loop a c) + c ≡ value a) × IsDigits (borrow_loop a c)
unfolding borrow_loop
borrow_loop_lem [] c r h l = omega arith
borrow_loop_lem (x ∷ a) c (rx, r) h l =
    let (v, d) =
      borrow_loop_lem a ((x + 2 ^ 32 - c) % 2 ^ 32 / base % 2) r (omega arith) (omega arith) in
    (omega (arith, v), (omega arith, d))

sub_loop_lem :
    (a b : List ℕ) (c : ℕ)
    → IsDigits a
    → IsDigits b
    → length b ≤ length a
    → c ≤ 1
    → value b + c ≤ value a
    → (value (sub_loop a b c) + value b + c ≡ value a) × IsDigits (sub_loop a b c)
unfolding sub_loop
sub_loop_lem a [] c ra rb l h le =
    let (v, d) = borrow_loop_lem a c ra h (omega arith) in (omega (arith, v), d)
sub_loop_lem [] (y ∷ b) c ra rb l h le = absurd (omega arith)
sub_loop_lem (x ∷ a) (y ∷ b) c (rx, ra) (ry, rb) l h le =
    let w = ((x + 2 ^ 32 - y) % 2 ^ 32 + 2 ^ 32 - c) % 2 ^ 32 in
    let (v, d) = sub_loop_lem a b (w / base % 2) ra rb (omega arith) (omega arith) (omega arith) in
    (omega (arith, v), (omega arith, d))

exchanged-signed :
    (s : Bool) (ds : List ℕ)
    → (if s then negate (signed false ds) else signed false ds) ≡ signed s ds
unfolding negate
exchanged-signed true [] = refl
exchanged-signed true (d ∷ ds) = refl
exchanged-signed false ds = refl

-- The difference with the sign that the exchange asks for.
sub_ordered_lem :
    (s : Bool) (a b : List ℕ)
    → IsDigits a
    → IsDigits b
    → length b ≤ length a
    → value b ≤ value a
    → (to_ℤ (sub_ordered s a b) ≡ signed_ℤ s (value a - value b)) × IsNormal (sub_ordered s a b)
unfolding sub_ordered
sub_ordered_lem s a b ra rb l le =
    let (v, d) = sub_loop_lem a b 0 ra rb l (omega arith) (omega arith) in
    rw exchanged-signed (normalized_result s _ _ (omega (arith, v), d))

signed_ℤ-true : (m n : ℕ) → m ≤ n → signed_ℤ true (n - m) ≡ sub_ℕ m n
signed_ℤ-true m n h = ground arith

signed_ℤ-false : (m n : ℕ) → n ≤ m → signed_ℤ false (m - n) ≡ sub_ℕ m n
signed_ℤ-false m n h = ground arith

-- What `x_sub` promises of its result `r`: the difference of the magnitudes `m` and `n`.
abbrev Difference : ℕ → ℕ → IntObject → Type 0
Difference m n r = (to_ℤ r ≡ sub_ℕ m n) × IsNormal r

ordered_true :
    (a b : List ℕ)
    → IsDigits a
    → IsDigits b
    → length a ≤ length b
    → value a ≤ value b
    → Difference (value a) (value b) (sub_ordered true b a)
ordered_true a b ra rb l le =
    let (v, n) = sub_ordered_lem true b a rb ra l le in (v ∙ signed_ℤ-true _ _ le, n)

ordered_false :
    (a b : List ℕ)
    → IsDigits a
    → IsDigits b
    → length b ≤ length a
    → value b ≤ value a
    → Difference (value a) (value b) (sub_ordered false a b)
ordered_false a b ra rb l le =
    let (v, n) = sub_ordered_lem false a b ra rb l le in (v ∙ signed_ℤ-false _ _ le, n)

zero_IsNormal : IsNormal (signed false [])
zero_IsNormal = record { in_range = tt; top = tt; zero_sign = λ e. refl }

sub_ℕ-cancel : (a b m n : ℕ) → a + n ≡ b + m → sub_ℕ m n ≡ sub_ℕ a b
sub_ℕ-cancel a b m n h = ground arith

module _ (a b : List ℕ) (ra : IsDigits a) (rb : IsDigits b) (l : length a ≡ length b) where
  cut_lengths : (k : ℕ) → length (take k a) ≡ length (take k b)
  cut_lengths k = length-take k a ∙ ap (min k) l ∙ sym (length-take k b)

  sub_same_size_lem : (d : ℕ) → Scanned a b d → Difference (value a) (value b) (sub_same_size d a b)
  unfolding sub_same_size
  sub_same_size_lem zero s = (ground (arith, s.equal refl), zero_IsNormal)
  sub_same_size_lem (suc i) s =
      let ta = All-take IsDigit (suc i) a ra in
      let tb = All-take IsDigit (suc i) b rb in
      let k = sub_ℕ-cancel _ _ _ _ s.cancel in
      elim (Bool-cases (ltb (get_or a i 0) (get_or b i 0))) [
        | inl e ↦
            let below : value a < value b = s.below (ltb→lt _ _ e) in
            let (v, n) =
              ordered_true _ _ ta tb (omega (arith, cut_lengths (suc i)))
                (omega (arith, s.cancel)) in
            rw e (v ∙ k, n)
        | inr e ↦
            let above : value b ≤ value a = ground (arith, s.above, s.differs) in
            let (v, n) =
              ordered_false _ _ ta tb (omega (arith, cut_lengths (suc i)))
                (omega (arith, s.cancel)) in
            rw e (v ∙ k, n)
      ]

-- Where `a` and `b` are normal, `x_sub` gives the difference of their magnitudes, with its sign,
-- as a normal object.
pub x_sub_lem :
    (a b : IntObject)
    → IsNormal a
    → IsNormal b
    → (to_ℤ (x_sub a b) ≡ sub_ℕ (value a.digits) (value b.digits)) × IsNormal (x_sub a b)
unfolding x_sub
x_sub_lem a b na nb = elim (Bool-cases (ltb (size a) (size b))) [
  | inl e ↦
      let l = ltb→lt _ _ e in
      let v : value a.digits < value b.digits = value-lt _ _ na.in_range nb.top l in
      rw e (ordered_true _ _ na.in_range nb.in_range (omega arith) (omega arith))
  | inr e ↦ rw e (elim (Bool-cases (size a == size b)) [
    | inl f ↦
        let l = (==_iff _ _).0 f in
        rw f (
          sub_same_size_lem _ _ na.in_range nb.in_range l _
            (highest_diff-Scanned _ _ l na.in_range nb.in_range))
    | inr f ↦
        let l : size b < size a = ground arith in
        let v : value b.digits < value a.digits = value-lt _ _ nb.in_range na.top l in
        rw f (ordered_false _ _ na.in_range nb.in_range (omega arith) (omega arith))
  ])
]
