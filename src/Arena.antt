-- ===== src/Arena.antt =====
-- arena.c: memory that is handed out from blocks in turn. The address that COObject_Mem_MALLOC
-- gives for the bytes of a new block is an argument.
pub mod Served
mod Tests
use cobj.Prelude.{
  ℕ, ◌+◌, ◌-◌, ◌*◌, ◌/◌, ◌%◌, ◌^◌, List, [], ◌∷◌, Bool, true, false, if◌then◌else◌, ltb, leb,
}
use cobj.Prelude.Result.{Result, ok, undefined, ◌>>=◌}

-- DEFAULT_BLOCK_SIZE
abbrev pub default_block_size : ℕ
default_block_size = 8192

-- ROUNDUP on a size_t, to a multiple of ALIGNMENT
pub roundup : ℕ → ℕ
roundup x = (x + 7) % 2 ^ 64 / 8 * 8

-- `struct block`; its list is kept by the arena.
pub record ArenaBlock : Type 0 where
  pub b_size : ℕ
  pub b_offset : ℕ
  pub b_mem : ℕ

-- `struct arena` without its list of objects: a_cur, and the blocks before it, the last one first.
pub record Arena : Type 0 where
  pub a_cur : ArenaBlock
  pub older : List ArenaBlock

pub block_new : ℕ → ℕ → ArenaBlock
block_new mem size = record { b_size = size; b_offset = roundup mem - mem; b_mem = mem }

-- The end of block_alloc, with its assertion: the address and the block behind it.
pub take_from : ArenaBlock → ℕ → Result (ℕ × ArenaBlock)
take_from b size =
    if leb ((b.b_offset + size) % 2 ^ 64) b.b_size
    then ok (b.b_mem + b.b_offset, record b { b_offset = b.b_offset + size })
    else undefined

-- The test of block_alloc: whether a block is too small for what is left to hand out.
pub too_small : ArenaBlock → ℕ → Bool
too_small b size = ltb b.b_size ((b.b_offset + size) % 2 ^ 64)

-- arena_malloc with block_alloc: a new block becomes a_cur.
pub arena_malloc : ℕ → Arena → ℕ → Result (ℕ × Arena)
arena_malloc mem a size =
    let n = roundup size in
    if too_small a.a_cur n
    then (take_from (block_new mem (if ltb n default_block_size then default_block_size else n)) n
        >>= λ (p, b). ok (p, record { a_cur = b; older = a.a_cur ∷ a.older }))
    else (take_from a.a_cur n >>= λ (p, b). ok (p, record a { a_cur = b }))

-- arena_new on the address of its first block
pub arena_new : ℕ → Arena
arena_new mem = record { a_cur = block_new mem default_block_size; older = [] }
