-- ===== src/Arena/Tests.antt =====
-- Runs of arena.c from a first block at the address 4096.
use cobj.Prelude.{ℕ, ◌≡◌, arith, []}
use cobj.Prelude.Result.{ok}
use cobj.Arena.{Arena, arena_malloc}
use cobj.Arena.Served.{IsBlock, IsServed, arena_malloc-IsServed}

abbrev first : Arena
first = record { a_cur = record { b_size = 8192; b_offset = 24; b_mem = 4096 }; older = [] }

first-IsBlock : IsBlock first.a_cur
first-IsBlock = record { within = omega arith; small = omega arith; aligned = omega arith }

-- 9000 bytes do not fit in the first block.
arena_malloc-IsServed_example :
    (p : ℕ) × (a : Arena) × (arena_malloc 65536 first 9000 ≡ ok (p, a)) × IsServed first 9000 p a
arena_malloc-IsServed_example =
    arena_malloc-IsServed 65536 first 9000 first-IsBlock (omega arith) (omega arith) (omega arith)
