-- ===== src/Assembler.antt =====
-- The assembler of compile.c: instrsize, blocksize, assembler_jump_offsets, assembler_emit and the
-- emission of the blocks in assemble. The order of the blocks, which dfs finds, is an argument.
pub mod Emit
pub mod Fetch
pub mod Layout
pub mod Jumps
pub mod Code
mod Tests
use cobj.Prelude.{
  ℕ, zero, suc, ◌+◌, ◌*◌, ◌/◌, ◌%◌, List, [], ◌∷◌, ◌++◌, length, get_elem?, set, replicate,
}
use cobj.Prelude.{Bool, true, false, ◌||◌, if◌then◌else◌, ltb, leb, ◌==◌, Option, none, some}
use cobj.Prelude.Result.{Result, ok, undefined, ◌>>=◌}

-- `struct instr`; a target is the place of a block in the list of blocks.
pub record Instr : Type 0 where
  pub i_opcode : ℕ
  pub i_hasarg : Bool
  pub i_oparg : ℕ
  pub i_target : Option ℕ

-- `struct block`: the instructions that are used, and the offset of the first one.
pub record Block : Type 0 where
  pub b_instr : List Instr
  pub b_offset : ℕ

pub instrsize : Instr → ℕ
instrsize i = if i.i_hasarg then 3 else 1

abbrev pub instrs_size : List Instr → ℕ
instrs_size [] = 0
instrs_size (i ∷ is) = instrsize i + instrs_size is

-- The sizes and offsets are ints in the source and have no bound here; the theorems on them ask for
-- less than 2 ^ 31 bytes of code.
pub blocksize : Block → ℕ
blocksize b = instrs_size b.b_instr

-- The block at a place; a place outside the list is `undefined`.
abbrev pub block_at : List Block → ℕ → Result Block
block_at bs b = found (get_elem? bs b)
  where
    found : Option Block → Result Block
    found none = undefined
    found (some x) = ok x

-- The first loop of assembler_jump_offsets, in the order of emission.
pub place_blocks : List ℕ → ℕ → List Block → Result (List Block)
place_blocks [] totalsize bs = ok bs
place_blocks (b ∷ order) totalsize bs = do
  x ← block_at bs b
  place_blocks order (totalsize + blocksize x) (set bs b (record x { b_offset = totalsize }))

-- OP_JMPX, OP_JMPZ, OP_SETUP_LOOP, OP_SETUP_TRY, OP_CONTINUE_LOOP and OP_FOR_ITER, as in opcode.h
abbrev pub has_absolute_target : ℕ → Bool
has_absolute_target op = op == 16 || op == 14 || op == 28 || op == 20 || op == 31 || op == 44

-- The body of the second loop: the argument becomes the offset of the target.
pub fix_jump : List Block → Instr → Result Instr
fix_jump bs i = if has_absolute_target i.i_opcode then to_target i.i_target else ok i
  where
    to_target : Option ℕ → Result Instr
    to_target none = undefined
    to_target (some t) = block_at bs t >>= λ x. ok (record i { i_oparg = x.b_offset })

pub fix_instrs : List Block → List Instr → Result (List Instr)
fix_instrs bs [] = ok []
fix_instrs bs (i ∷ is) = do j ← fix_jump bs i; js ← fix_instrs bs is; ok (j ∷ js)

-- The second loop, over the blocks; it reads the offsets, which it does not change.
pub fix_blocks : List Block → List Block → Result (List Block)
fix_blocks bs [] = ok []
fix_blocks bs (x ∷ xs) = do
  is ← fix_instrs bs x.b_instr
  ys ← fix_blocks bs xs
  ok ((record x { b_instr = is }) ∷ ys)

pub assembler_jump_offsets : List ℕ → List Block → Result (List Block)
assembler_jump_offsets order bs = do placed ← place_blocks order 0 bs; fix_blocks placed placed

-- The bytes of an instruction. `*code++ = i->i_oparg >> 8` keeps the low byte.
pub encode : Instr → List ℕ
encode i =
    if i.i_hasarg
    then i.i_opcode % 256 ∷ i.i_oparg % 256 ∷ (i.i_oparg / 256) % 256 ∷ []
    else i.i_opcode % 256 ∷ []

-- `*code++ = ...` from an offset on; a write behind the bytes object is `undefined`.
pub write_bytes : ℕ → List ℕ → List ℕ → Result (List ℕ)
write_bytes offset [] bytes = ok bytes
write_bytes offset (v ∷ vs) bytes =
    let rest = write_bytes (suc offset) vs (set bytes offset v) in
    if ltb offset (length bytes) then rest else undefined

-- COBytes_Resize to twice the length; the bytes that are new are written as 0.
abbrev pub doubled : List ℕ → List ℕ
doubled bytes = bytes ++ replicate (length bytes) 0

-- assembler_emit on a_bytecode and a_offset
pub assembler_emit : Instr → List ℕ × ℕ → Result (List ℕ × ℕ)
assembler_emit i (bytes, offset) = do
  let room = if leb (length bytes) (offset + instrsize i) then doubled bytes else bytes
  bytes' ← write_bytes offset (encode i) room
  ok (bytes', offset + instrsize i)

pub emit_instrs : List Instr → List ℕ × ℕ → Result (List ℕ × ℕ)
emit_instrs [] a = ok a
emit_instrs (i ∷ is) a = assembler_emit i a >>= emit_instrs is

-- The loop of assemble over the blocks
pub emit_blocks : List Block → List ℕ → List ℕ × ℕ → Result (List ℕ × ℕ)
emit_blocks bs [] a = ok a
emit_blocks bs (b ∷ order) a = do
  x ← block_at bs b
  a' ← emit_instrs x.b_instr a
  emit_blocks bs order a'

-- assemble: from the blocks in their order to the bytecode and the offset behind it.
-- DEFAULT_BYTECODE_SIZE is 64.
pub assemble : List ℕ → List Block → Result (List ℕ × ℕ)
assemble order bs = do
  fixed ← assembler_jump_offsets order bs
  emit_blocks fixed order (replicate 64 0, 0)
