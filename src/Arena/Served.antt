-- ===== src/Arena/Served.antt =====
-- What arena_malloc hands out: aligned memory inside a block, and none that it gave before.
use cobj.Prelude.{ℕ, ◌+◌, ◌-◌, ◌%◌, ◌^◌, ◌≤◌, ◌<◌, ◌≡◌, refl, arith, ◌∷◌, ◌⊎◌, inl, inr}
use cobj.Prelude.{Bool-cases, if◌then◌else◌, ltb, le→leb}
use cobj.Prelude.Result.{ok}
use cobj.Arena.{
  ArenaBlock, Arena, roundup, block_new, take_from, too_small, arena_malloc, default_block_size,
}

-- A block whose next byte is aligned, and which is not used up to more than its size.
pub record IsBlock (b : ArenaBlock) : Type 0 where
  pub within : b.b_offset ≤ b.b_size
  pub small : b.b_size ≤ 2 ^ 62
  pub aligned : (b.b_mem + b.b_offset) % 8 ≡ 0

-- The bytes from `p` on, `size` of them, are new in the arena `after`.
pub record IsServed (before : Arena) (size p : ℕ) (after : Arena) : Type 0 where
  pub block : IsBlock after.a_cur
  pub aligned : p % 8 ≡ 0
  pub above : after.a_cur.b_mem ≤ p
  pub below : p + size ≤ after.a_cur.b_mem + after.a_cur.b_offset
  pub fresh :
      ((after.older ≡ before.older)
        × (after.a_cur.b_mem ≡ before.a_cur.b_mem)
        × (p ≡ before.a_cur.b_mem + before.a_cur.b_offset))
      ⊎ ((after.older ≡ before.a_cur ∷ before.older) × (p ≡ after.a_cur.b_mem))

roundup_lem : (x : ℕ) → x ≤ 2 ^ 61 → (x ≤ roundup x) × (roundup x < x + 8) × (roundup x % 8 ≡ 0)
unfolding roundup
roundup_lem x h = (omega arith, omega arith, omega arith)

roundup_aligned : (x : ℕ) → x ≤ 2 ^ 61 → x % 8 ≡ 0 → roundup x - x ≡ 0
unfolding roundup
roundup_aligned x h a = omega arith

take_from_lem :
    (b : ArenaBlock) (n : ℕ)
    → b.b_offset + n ≤ b.b_size
    → b.b_size ≤ 2 ^ 62
    → take_from b n ≡ ok (b.b_mem + b.b_offset, record b { b_offset = b.b_offset + n })
unfolding take_from
take_from_lem b n h s =
    let e : (b.b_offset + n) % 2 ^ 64 ≡ b.b_offset + n = omega arith in
    rw (e, le→leb (b.b_offset + n) b.b_size h) refl

-- Where the current block is used within its size and its next byte is aligned, the address for a
-- new block is a multiple of 8 up to 2 ^ 61 and the size is up to 2 ^ 60: `arena_malloc` succeeds
-- with its assertion, and gives an address that is a multiple of 8, whose bytes lie in the current
-- block of the arena that it leaves, behind all bytes handed out from that block before or at the
-- start of a new block; the older blocks stay as they are, and the block is well-formed again.
pub arena_malloc-IsServed :
    (mem : ℕ) (a : Arena) (size : ℕ)
    → IsBlock a.a_cur
    → mem ≤ 2 ^ 61
    → mem % 8 ≡ 0
    → size ≤ 2 ^ 60
    → (p : ℕ) × (a' : Arena) × (arena_malloc mem a size ≡ ok (p, a')) × IsServed a size p a'
unfolding arena_malloc too_small block_new
arena_malloc-IsServed mem a size i hm al hs =
    let n = roundup size in
    let (lo, hi, na) = roundup_lem size (omega arith) in
    let z = roundup_aligned mem hm al in
    let b = a.a_cur in
    elim (Bool-cases (ltb b.b_size ((b.b_offset + n) % 2 ^ 64))) [
      | inr f ↦
          let fits : b.b_offset + n ≤ b.b_size = ground (arith, f, i.within, i.small, hi) in
          let t = take_from_lem b n fits i.small in
          (
            b.b_mem + b.b_offset,
            record a { a_cur = record b { b_offset = b.b_offset + n } },
            rw (f, t) refl,
            record {
              block = record {
                within = fits;
                small = i.small;
                aligned = omega (arith, i.aligned, na);
              };
              aligned = i.aligned;
              above = omega arith;
              below = omega (arith, lo);
              fresh = inl (refl, refl, refl);
            },
          )
      | inl f ↦
          let s = if ltb n default_block_size then default_block_size else n in
          let large : n ≤ s = sized_lo n in
          let small : s ≤ 2 ^ 62 = sized_hi n (omega (arith, hi, hs)) in
          let nb : ArenaBlock = record { b_size = s; b_offset = 0; b_mem = mem } in
          let t = take_from_lem nb n (omega (arith, large)) small in
          (
            mem + 0,
            record { a_cur = record nb { b_offset = 0 + n }; older = b ∷ a.older },
            rw (f, z, t) refl,
            record {
              block = record {
                within = omega (arith, large);
                small = small;
                aligned = omega (arith, al, na);
              };
              aligned = omega (arith, al);
              above = omega arith;
              below = omega (arith, lo);
              fresh = inr (refl, omega arith);
            },
          )
    ]
  where
    sized_lo : (n : ℕ) → n ≤ (if ltb n default_block_size then default_block_size else n)
    sized_lo n = ground arith

    sized_hi :
        (n : ℕ) → n ≤ 2 ^ 62 → (if ltb n default_block_size then default_block_size else n) ≤ 2 ^ 62
    sized_hi n h = ground arith
