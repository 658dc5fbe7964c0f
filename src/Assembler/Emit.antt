-- ===== src/Assembler/Emit.antt =====
-- assembler_emit: the bytes are appended, and every write stays inside the bytes object.
use cobj.Prelude.{
  append_assoc, append-nil, ℕ, zero, suc, ◌+◌, ◌^◌, ◌≤◌, ◌<◌, ◌≡◌, refl, sym, ap, ◌∙◌, arith,
  Bool-cases, inl, inr,
}
use cobj.Prelude.{
  List, [], ◌∷◌, ◌++◌, length, take, set, replicate, length-append, length-replicate, length-set,
  take-append,
}
use cobj.Prelude.{leb, lt→ltb, if◌then◌else◌}
use cobj.Prelude.Result.{ok}
use cobj.Assembler.{Instr, instrsize, encode, write_bytes, doubled, assembler_emit, emit_instrs}

pub length-encode : (i : Instr) → length (encode i) ≡ instrsize i
unfolding encode instrsize
length-encode i = ground arith

take-set {ℓ} :
    {A : Type ℓ} (i : ℕ) (xs : List A) (v : A)
    → i < length xs
    → take (suc i) (set xs i v) ≡ take i xs ++ v ∷ []
take-set i [] v h = absurd (omega arith)
take-set zero (x ∷ xs) v h = refl
take-set (suc i) (x ∷ xs) v h = ap (λ t. x ∷ t) (take-set i xs v (omega arith))

write_bytes_lem :
    (offset : ℕ) (vs bytes : List ℕ)
    → offset + length vs ≤ length bytes
    → (bytes' : List ℕ) × (write_bytes offset vs bytes ≡ ok bytes')
      × (length bytes' ≡ length bytes)
      × (take (offset + length vs) bytes' ≡ take offset bytes ++ vs)
unfolding write_bytes
write_bytes_lem offset [] bytes h =
    let z : offset + 0 ≡ offset = omega arith in
    (bytes, refl, refl, ap (λ k. take k bytes) z ∙ sym (append-nil (take offset bytes)))
write_bytes_lem offset (v ∷ vs) bytes h =
    let l : offset < length bytes = omega arith in
    let s = length-set bytes offset v in
    let (b, e, n, t) = write_bytes_lem (suc offset) vs (set bytes offset v) (omega (arith, s)) in
    let shift : offset + suc (length vs) ≡ suc offset + length vs = omega arith in
    (
      b,
      rw (lt→ltb offset (length bytes) l) e,
      n ∙ s,
      ap (λ k. take k b) shift
          ∙ t
          ∙ ap (λ k. k ++ vs) (take-set offset bytes v l)
          ∙ append_assoc (take offset bytes) (v ∷ []) vs,
    )

-- What the assembler has written: `code`, with room behind it.
pub record Written (code : List ℕ) (a : List ℕ × ℕ) : Type 0 where
  pub end : a.1 ≡ length code
  pub room : a.1 < length a.0
  pub enough : 3 ≤ length a.0
  pub prefix : take a.1 a.0 ≡ code

grown-Written :
    (code : List ℕ) (a : List ℕ × ℕ) (n : ℕ)
    → Written code a
    → n ≤ 3
    → (room : List ℕ) × ((if leb (length a.0) (a.1 + n) then doubled a.0 else a.0) ≡ room)
      × (a.1 + n < length room)
      × (length a.0 ≤ length room)
      × (take a.1 room ≡ code)
grown-Written code (bytes, offset) n w l =
    let more : List ℕ = replicate (length bytes) 0 in
    elim (Bool-cases (leb (length bytes) (offset + n))) [
      | inl e ↦
          let long : length (doubled bytes) ≡ length bytes + length bytes =
            length-append bytes more
            ∙ ap (λ k. length bytes + k) (length-replicate (length bytes) 0) in
          let inside : offset ≤ length bytes = omega (arith, w.room) in
          let kept : take offset (doubled bytes) ≡ code =
            take-append offset bytes more inside ∙ w.prefix in
          (
            doubled bytes,
            rw e refl,
            omega (arith, w.room, w.enough, long),
            omega (arith, long),
            kept,
          )
      | inr e ↦ (bytes, rw e refl, ground (arith, e), omega arith, w.prefix)
    ]

pub assembler_emit-Written :
    (code : List ℕ) (i : Instr) (a : List ℕ × ℕ)
    → Written code a
    → (a' : List ℕ × ℕ) × (assembler_emit i a ≡ ok a') × Written (code ++ encode i) a'
unfolding assembler_emit
assembler_emit-Written code i (bytes, offset) w =
    let n = length-encode i in
    let (r, e, l, g, p) = grown-Written code (bytes, offset) (instrsize i) w small in
    let (b, we, wl, wt) = write_bytes_lem offset (encode i) r (omega (arith, n, l)) in
    let at : offset + length (encode i) ≡ offset + instrsize i = ap (λ k. offset + k) n in
    (
      (b, offset + instrsize i),
      rw (e, we) refl,
      record {
        end = omega (arith, n, w.end, length-append code (encode i));
        room = omega (arith, wl, l);
        enough = omega (arith, wl, g, w.enough);
        prefix = rw at at (wt ∙ ap (λ k. k ++ encode i) p);
      },
    )
  where
    small : instrsize i ≤ 3
    small = unfold instrsize in ground arith

-- The bytes of the instructions in their order
unfoldable pub encode_all : List Instr → List ℕ
encode_all [] = []
encode_all (i ∷ is) = encode i ++ encode_all is

-- The instructions in turn, without a bound on the offset.
pub emit_instrs_lem :
    (code : List ℕ) (is : List Instr) (a : List ℕ × ℕ)
    → Written code a
    → (a' : List ℕ × ℕ) × (emit_instrs is a ≡ ok a') × Written (code ++ encode_all is) a'
unfolding emit_instrs encode_all
emit_instrs_lem code [] a w = (a, refl, rw (append-nil code) w)
emit_instrs_lem code (i ∷ is) a w =
    let (a₁, e₁, w₁) = assembler_emit-Written code i a w in
    let (a₂, e₂, w₂) = emit_instrs_lem (code ++ encode i) is a₁ w₁ in
    (a₂, rw (e₁, e₂) refl, rw (append_assoc code (encode i) (encode_all is)) at w₂)

-- Where the bytes object holds the code written so far with at least one byte of room and is of 3
-- bytes at least, and the code with the bytes of the instructions has less than 2 ^ 31 bytes,
-- `assembler_emit` of the instructions in turn writes only inside the bytes object, which grows in
-- time, and leaves the code followed by the bytes of the instructions, with room behind them and
-- an offset that is an int.
pub emit_instrs-Written :
    (code : List ℕ) (is : List Instr) (a : List ℕ × ℕ)
    → Written code a
    → length (code ++ encode_all is) < 2 ^ 31
    → (a' : List ℕ × ℕ) × (emit_instrs is a ≡ ok a')
      × Written (code ++ encode_all is) a'
      × (a'.1 < 2 ^ 31)
emit_instrs-Written code is a w l =
    let (a', e, w') = emit_instrs_lem code is a w in (a', e, w', omega (arith, l, w'.end))
