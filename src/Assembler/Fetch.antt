-- ===== src/Assembler/Fetch.antt =====
-- The instructions that compile.c emits, read back by NEXTOP and NEXTARG of vm.c.
use cobj.Prelude.{ℕ, suc, ◌+◌, ◌*◌, ◌/◌, ◌%◌, ◌^◌, ◌<◌, ◌≡◌, refl, ap, ◌∙◌, arith}
use cobj.Prelude.{List, [], ◌∷◌, ◌++◌, length, get_elem?, true, some}
use cobj.Prelude.Result.{Result, ok, ◌>>=◌}
use cobj.Vm.Objects.{Code}
use cobj.Vm.Machine.{Machine}
use cobj.Vm.Operands.{next_op, next_arg}
use cobj.Assembler.{Instr, encode}

-- A cell behind a prefix
get_elem-append {ℓ} :
    {A : Type ℓ} (pre s : List A) (k : ℕ) → get_elem? (pre ++ s) (length pre + k) ≡ get_elem? s k
get_elem-append [] s k = ap (λ j. get_elem? s j) (omega arith)
get_elem-append (x ∷ pre) s k =
    let e : suc (length pre) + k ≡ suc (length pre + k) = omega arith in
    rw e (get_elem-append pre s k)

-- NEXTOP and then NEXTARG, as a case with an argument does
abbrev pub fetch_instr :
    {Obj Heap : Type 0} → Code Obj → Machine Obj Heap → Result (ℕ × ℕ × Machine Obj Heap)
fetch_instr c m = do (op, m₁) ← next_op c m; (arg, m₂) ← next_arg c m₁; ok (op, arg, m₂)

-- Where the code of a frame holds the bytes of an instruction with an argument at the place of
-- `next_code`, and its opcode is below 256, NEXTOP and NEXTARG read back the opcode and the
-- argument modulo 2 ^ 16, and leave `next_code` behind the three bytes.
pub fetch_instr-encode :
    {Obj Heap : Type 0} (c : Code Obj) (m : Machine Obj Heap) (i : Instr) (pre post : List ℕ)
    → c.co_code ≡ pre ++ (encode i ++ post)
    → m.next_code ≡ length pre
    → i.i_hasarg ≡ true
    → i.i_opcode < 256
    → fetch_instr c m
      ≡ ok (
        i.i_opcode,
        i.i_oparg % 2 ^ 16,
        record m { next_code = length pre + 3; oparg = i.i_oparg % 2 ^ 16 },
      )
unfolding encode
fetch_instr-encode c m i pre post e n a l =
    let low = i.i_oparg % 256 in
    let high = (i.i_oparg / 256) % 256 in
    let rest = i.i_opcode % 256 ∷ low ∷ high ∷ post in
    let code : c.co_code ≡ pre ++ rest = rw a at e in
    let op : i.i_opcode % 256 ≡ i.i_opcode = omega (arith, l) in
    let g0 : get_elem? c.co_code m.next_code ≡ some i.i_opcode =
      at rest code m.next_code 0 (omega (arith, n)) ∙ ap (λ k. some k) op in
    let g1 : get_elem? c.co_code (suc m.next_code) ≡ some low =
      at rest code (suc m.next_code) 1 (omega (arith, n)) in
    let g2 : get_elem? c.co_code (suc (suc m.next_code)) ≡ some high =
      at rest code (suc (suc m.next_code)) 2 (omega (arith, n)) in
    let arg : high * 256 + low ≡ i.i_oparg % 2 ^ 16 = omega arith in
    let next : suc m.next_code + 2 ≡ length pre + 3 = omega (arith, n) in
    rw (g0, g1, g2, arg, next) refl
  where
    at :
        (rest : List ℕ)
        → c.co_code ≡ pre ++ rest
        → (j k : ℕ) → j ≡ length pre + k
        → get_elem? c.co_code j ≡ get_elem? rest k
    at rest code j k h =
        ap (λ x. get_elem? x j) code
        ∙ ap (λ x. get_elem? (pre ++ rest) x) h
        ∙ get_elem-append pre rest k
