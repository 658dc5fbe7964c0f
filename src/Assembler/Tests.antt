-- ===== src/Assembler/Tests.antt =====
-- Runs of the assembler on a few instructions.
use cobj.Prelude.{
  ℕ, ◌^◌, ◌<◌, ◌≡◌, refl, List, [], ◌∷◌, ◌++◌, replicate, take, true, false, none, some, arith,
}
use cobj.Prelude.Result.{Result, ok}
use cobj.Vm.Sample.{Object, none_value, code_of_number, sample}
use cobj.Vm.Step.{vm_start}
use cobj.Vm.Objects.{Code}
use cobj.Vm.Handlers.{State}
use cobj.Assembler.{
  Instr, Block, encode, emit_instrs, assemble, assembler_jump_offsets, place_blocks,
}
use cobj.Assembler.{
  fix_blocks, fix_instrs, fix_jump, blocksize, instrsize, emit_blocks, assembler_emit,
}
use cobj.Assembler.{write_bytes}
use cobj.Assembler.Layout.{total_size, size_at}
use cobj.Assembler.Code.{Placed, assemble-Placed}
use cobj.Assembler.Emit.{Written, encode_all, emit_instrs-Written}
use cobj.Assembler.Fetch.{fetch_instr, fetch_instr-encode}

-- OP_JMPX to the offset 259, and OP_RETURN
abbrev jump : Instr
jump = record { i_opcode = 16; i_hasarg = true; i_oparg = 259; i_target = some 1 }

abbrev leave : Instr
leave = record { i_opcode = 18; i_hasarg = false; i_oparg = 0; i_target = none }

empty-Written : Written [] (replicate 64 0, 0)
empty-Written = record { end = refl; room = omega arith; enough = omega arith; prefix = refl }

emit_instrs-Written_example :
    (a : List ℕ × ℕ) × (emit_instrs (jump ∷ leave ∷ []) (replicate 64 0, 0) ≡ ok a)
    × Written ([] ++ encode_all (jump ∷ leave ∷ [])) a
    × (a.1 < 2 ^ 31)
emit_instrs-Written_example =
    emit_instrs-Written [] (jump ∷ leave ∷ []) (replicate 64 0, 0) empty-Written
      (unfold encode_all encode in omega arith)

-- OP_RETURN, and then the jump
abbrev leave_and_jump : Code Object
leave_and_jump = record (code_of_number 2) { co_code = 18 ∷ 16 ∷ 3 ∷ 1 ∷ [] }

abbrev behind_leave : State sample
behind_leave = record (vm_start sample none_value none_value tt) { next_code = 1 }

jump_bytes : 18 ∷ 16 ∷ 3 ∷ 1 ∷ [] ≡ (18 ∷ []) ++ (encode jump ++ [])
unfolding encode
jump_bytes = refl

fetch_instr-encode_example :
    fetch_instr leave_and_jump behind_leave
    ≡ ok (16, 259, record behind_leave { next_code = 4; oparg = 259 })
fetch_instr-encode_example =
    fetch_instr-encode leave_and_jump behind_leave jump (18 ∷ []) [] jump_bytes start refl
      (omega arith)
  where
    start : behind_leave.next_code ≡ 1
    start = refl

-- A block that jumps back to itself, and one that leaves, emitted the other way round.
abbrev two_blocks : List Block
two_blocks =
    (record { b_instr = (record jump { i_target = some 0 }) ∷ []; b_offset = 0 })
    ∷ (record { b_instr = leave ∷ leave ∷ []; b_offset = 0 })
    ∷ []

assemble-Placed_example : Placed (1 ∷ 0 ∷ []) 0 two_blocks
assemble-Placed_example =
    assemble-Placed (1 ∷ []) 0 [] two_blocks (omega arith, (omega arith, tt)) tt
      ((omega arith, tt), ((tt, (tt, tt)), tt)) small
  where
    small : total_size two_blocks (1 ∷ 0 ∷ []) < 2 ^ 31
    small = unfold total_size size_at blocksize instrsize in omega arith

take_bytes : Result (List ℕ × ℕ) → List ℕ
take_bytes (ok (bytes, end)) = take end bytes
take_bytes _ = []

assembled_bytes : take_bytes (assemble (1 ∷ 0 ∷ []) two_blocks) ≡ 18 ∷ 18 ∷ 16 ∷ 2 ∷ 0 ∷ []
unfolding take_bytes assemble assembler_jump_offsets place_blocks fix_blocks fix_instrs fix_jump
    blocksize instrsize emit_blocks emit_instrs assembler_emit write_bytes encode
assembled_bytes = refl
