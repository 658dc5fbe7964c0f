-- ===== src/Assembler/Jumps.antt =====
-- The second loop of assembler_jump_offsets: every jump gets the offset of its target.
use cobj.Prelude.{ℕ, zero, suc, ◌<◌, ◌≡◌, refl, ap, arith, Bool-cases, inl, inr}
use cobj.Prelude.{List, [], ◌∷◌, length, get_elem?, All}
use cobj.Prelude.{Bool, true, false, Option, none, some}
use cobj.Prelude.Result.{ok}
use cobj.Assembler.{Instr, Block, instrsize, instrs_size, blocksize, has_absolute_target}
use cobj.Assembler.{fix_jump, fix_instrs, fix_blocks}
use cobj.Assembler.Layout.{block_at_lem, size_at, SameSizes, some_inj}

-- A jump that assembler_jump_offsets writes has its target in the list.
abbrev pub TargetIn : List Block → Bool → Option ℕ → Type 0
TargetIn bs true none = ⊥
TargetIn bs true (some t) = t < length bs
TargetIn bs false t = Unit

abbrev pub HasTarget : List Block → Instr → Type 0
HasTarget bs i = TargetIn bs (has_absolute_target i.i_opcode) i.i_target

abbrev pub HasTargets : List Block → Block → Type 0
HasTargets bs x = All (HasTarget bs) x.b_instr

target_of :
    (bs : List Block) (o : Option ℕ) → TargetIn bs true o → (t : ℕ) × (o ≡ some t) × (t < length bs)
target_of bs none h = absurd h
target_of bs (some t) h = (t, refl, h)

-- The argument of a jump is the offset of its target.
abbrev pub ToTarget : List Block → Bool → Option ℕ → ℕ → Type 0
ToTarget bs true (some t) arg = (x : Block) × (get_elem? bs t ≡ some x) × (arg ≡ x.b_offset)
ToTarget bs _ _ arg = Unit

abbrev pub JumpsTo : List Block → Instr → Type 0
JumpsTo bs i = ToTarget bs (has_absolute_target i.i_opcode) i.i_target i.i_oparg

abbrev pub JumpsIn : List Block → Block → Type 0
JumpsIn bs x = All (JumpsTo bs) x.b_instr

fix_jump_lem :
    (bs : List Block) (i : Instr)
    → HasTarget bs i
    → (j : Instr) × (fix_jump bs i ≡ ok j) × (instrsize j ≡ instrsize i) × JumpsTo bs j
unfolding fix_jump instrsize
fix_jump_lem bs i h = elim (Bool-cases (has_absolute_target i.i_opcode)) [
  | inr z ↦ (i, rw z refl, refl, rw z tt)
  | inl z ↦
      let (t, e, l) = target_of bs i.i_target (rw z at h) in
      let (x, f) = block_at_lem bs t l in
      (record i { i_oparg = x.b_offset }, rw (z, e, f) refl, refl, rw (z, e) (x, f, refl))
]

fix_instrs_lem :
    (bs : List Block) (is : List Instr)
    → All (HasTarget bs) is
    → (js : List Instr) × (fix_instrs bs is ≡ ok js)
      × (instrs_size js ≡ instrs_size is)
      × All (JumpsTo bs) js
unfolding fix_instrs
fix_instrs_lem bs [] h = ([], refl, refl, tt)
fix_instrs_lem bs (i ∷ is) (t, h) =
    let (j, e, s, k) = fix_jump_lem bs i t in
    let (js, f, ss, ks) = fix_instrs_lem bs is h in
    (j ∷ js, rw (e, f) refl, omega (arith, s, ss), (k, ks))

-- What the second loop keeps of each block: its size and its offset.
pub record Fixed (bs cs : List Block) : Type 0 where
  pub sizes : SameSizes bs cs
  pub offsets :
      (b : ℕ) (x : Block)
      → get_elem? bs b ≡ some x
      → (y : Block) × (get_elem? cs b ≡ some y) × (y.b_offset ≡ x.b_offset)

pub fix_blocks-Fixed :
    (bs xs : List Block)
    → All (HasTargets bs) xs
    → (ys : List Block) × (fix_blocks bs xs ≡ ok ys) × Fixed xs ys × All (JumpsIn bs) ys
unfolding fix_blocks
fix_blocks-Fixed bs [] h =
    ([], refl, record { sizes = (refl, λ b. refl); offsets = λ b x e. (x, e, refl) }, tt)
fix_blocks-Fixed bs (x ∷ xs) (t, h) =
    let (is, e, s, k) = fix_instrs_lem bs x.b_instr t in
    let (ys, f, fixed, ks) = fix_blocks-Fixed bs xs h in
    let y = record x { b_instr = is } in
    (
      y ∷ ys,
      rw (e, f) refl,
      record { sizes = (ap suc fixed.sizes.0, sizes ys is s fixed); offsets = offsets ys is fixed },
      (k, ks),
    )
  where
    sizes :
        (ys : List Block) (is : List Instr)
        → instrs_size is ≡ instrs_size x.b_instr
        → Fixed xs ys
        → (b : ℕ) → size_at ((record x { b_instr = is }) ∷ ys) b ≡ size_at (x ∷ xs) b
    sizes ys is s fixed zero = unfold size_at blocksize in s
    sizes ys is s fixed (suc b) = unfold size_at in fixed.sizes.1 b

    offsets :
        (ys : List Block) (is : List Instr)
        → Fixed xs ys
        → (b : ℕ) (z : Block) → get_elem? (x ∷ xs) b ≡ some z
        → (y : Block) × (get_elem? ((record x { b_instr = is }) ∷ ys) b ≡ some y)
          × (y.b_offset ≡ z.b_offset)
    offsets ys is fixed zero z e =
        (record x { b_instr = is }, refl, ap (λ w. w.b_offset) (some_inj e))
    offsets ys is fixed (suc b) z e = fixed.offsets b z e
