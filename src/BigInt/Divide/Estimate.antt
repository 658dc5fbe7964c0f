-- ===== src/BigInt/Divide/Estimate.antt =====
-- The estimate of a quotient digit in x_divrem of objects/intobject.c.
use cobj.Prelude.{ℕ, zero, suc, ◌+◌, ◌-◌, ◌*◌, ◌/◌, ◌%◌, ◌^◌, ◌<◌, ◌≤◌, ◌≡◌, arith}
use cobj.Prelude.{false, ltb, leb, Bool-cases, inl, inr}
use cobj.BigInt.{base, IsDigit}
use cobj.BigInt.Divide.{correct, estimate}
use native.Mathlib.Nat.{div-add-mod, mod-lt, mul-le-mul}

-- `q` is the quotient of the three top digits by the two top digits.
pub record IsEstimate (wm1 wm2 vv v2 q : ℕ) : Type 0 where
  pub lower : q * wm1 * base + q * wm2 ≤ vv * base + v2
  pub upper : vv * base + v2 < q * wm1 * base + q * wm2 + wm1 * base + wm2

correct-IsEstimate :
    (fuel wm1 wm2 v2 q r vv : ℕ)
    → IsDigit wm2
    → IsDigit r
    → base ≤ r + fuel * wm1
    → q ≤ base + 1
    → q * wm1 + r ≡ vv
    → vv * base + v2 < q * wm1 * base + q * wm2 + wm1 * base + wm2
    → IsEstimate wm1 wm2 vv v2 (correct fuel wm1 wm2 v2 q r)
unfolding correct
correct-IsEstimate zero wm1 wm2 v2 q r vv dw dr f b e u = absurd (omega (arith, f, dr))
correct-IsEstimate (suc fuel) wm1 wm2 v2 zero r vv dw dr f b e u =
    let t : ltb (r * base + v2) (wm2 * 0) ≡ false = ground arith in
    rw t (record { lower = omega arith; upper = u })
correct-IsEstimate (suc fuel) wm1 wm2 v2 (suc q) r vv dw dr f b e u =
    elim (Bool-cases (ltb (r * base + v2) (wm2 * suc q))) [
      | inr t ↦
          let l : wm2 * suc q ≤ r * base + v2 = ground (arith, t) in
          rw t (record { lower = omega (arith, l, e); upper = u })
      | inl t ↦
          let l : r * base + v2 < wm2 * suc q = ground (arith, t) in
          let p : suc q - 1 ≡ q = omega arith in
          let e' : q * wm1 + (r + wm1) ≡ vv = omega (arith, e) in
          let u' : vv * base + v2 < q * wm1 * base + q * wm2 + wm1 * base + wm2 =
            omega (arith, l, e) in
          rw (t, p)
            (elim (Bool-cases (leb base (r + wm1))) [
              | inl s ↦
                  let m =
                    mul-le-mul {n₁ = q} {m₁ = wm2} {n₂ = base} {m₂ = base - 1} (omega (arith, b))
                      (omega (arith, dw)) in
                  let g : base ≤ r + wm1 = ground (arith, s) in
                  rw s (record { lower = omega (arith, m, g, e'); upper = u' })
              | inr s ↦
                  let g : r + wm1 < base = ground (arith, s) in
                  rw s (
                    correct-IsEstimate fuel wm1 wm2 v2 q (r + wm1) vv dw g (omega (arith, f))
                      (omega (arith, b)) e' u')
            ])
    ]

-- Two rounds correct the estimate of the code, and it is at most the base.
pub estimate-IsEstimate :
    (wm1 wm2 vtop v1 v2 : ℕ)
    → base ≤ 2 * wm1
    → IsDigit wm1
    → IsDigit wm2
    → IsDigit v1
    → IsDigit v2
    → vtop ≤ wm1
    → (vtop * base + v1) * base + v2 < base * (wm1 * base + wm2) + base
    → IsEstimate wm1 wm2 (vtop * base + v1) v2 (estimate wm1 wm2 vtop v1 v2)
      × (estimate wm1 wm2 vtop v1 v2 ≤ base)
unfolding estimate
estimate-IsEstimate wm1 wm2 vtop v1 v2 top d1 d2 dv dv2 le fit =
    let vv = vtop * base + v1 in
    let q = vv / wm1 in
    let e = div-add-mod vv wm1 in
    let m : vv % wm1 < wm1 = mod-lt vv (omega (arith, top)) in
    let b : q ≤ base + 1 = elim (Bool-cases (leb (base + 2) q)) [
      | inl t ↦
          let g =
            mul-le-mul {n₁ = wm1} {m₁ = base + 2} {n₂ = wm1} {m₂ = q} (omega arith)
              (ground (arith, t)) in
          absurd (omega (arith, g, e, top, le, dv))
      | inr t ↦ ground (arith, t)
    ] in
    let w : q % 2 ^ 32 ≡ q = omega (arith, b) in
    let w' : (vv - wm1 * q) % 2 ^ 32 ≡ vv % wm1 = omega (arith, e, m, d1) in
    let i =
      correct-IsEstimate 3 wm1 wm2 v2 q (vv % wm1) vv d2 (omega (arith, m, d1)) (omega (arith, top))
        b (omega (arith, e)) (omega (arith, e, m, dv2)) in
    let c = correct 3 wm1 wm2 v2 q (vv % wm1) in
    let last : c ≤ base = elim (Bool-cases (leb (base + 1) c)) [
      | inl t ↦
          let g1 =
            mul-le-mul {n₁ = base + 1} {m₁ = wm1} {n₂ = c} {m₂ = wm1} (ground (arith, t))
              (omega arith) in
          let g2 =
            mul-le-mul {n₁ = base + 1} {m₁ = wm2} {n₂ = c} {m₂ = wm2} (ground (arith, t))
              (omega arith) in
          absurd (omega (arith, i.lower, g1, g2, fit, top))
      | inr t ↦ ground (arith, t)
    ] in
    rw (w, w') (i, last)
