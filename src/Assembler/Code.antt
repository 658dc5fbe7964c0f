-- ===== src/Assembler/Code.antt =====
-- The code that assemble of compile.c writes: every block stands at its offset.
use cobj.Prelude.{
  All-imp, append_assoc, ℕ, zero, suc, ◌+◌, ◌^◌, ◌<◌, ◌≡◌, refl, sym, ap, ◌∙◌, arith, inl, inr,
}
use cobj.Prelude.{List, [], ◌∷◌, ◌++◌, length, get_elem?, set, All, replicate, take, length-append}
use cobj.Prelude.{Bool, true, false, Option, none, some, Option-cases, subst}
use cobj.Prelude.Result.{Result, ok, undefined}
use cobj.Assembler.{Instr, Block, blocksize, instrs_size, place_blocks, has_absolute_target}
use cobj.Assembler.{assembler_jump_offsets, assemble}
use cobj.Assembler.Emit.{Written, encode_all}
use cobj.Assembler.Jumps.{
  HasTarget, HasTargets, TargetIn, Fixed, fix_blocks-Fixed, ToTarget, JumpsTo, JumpsIn,
}
use cobj.Assembler.Layout.{Inside, Other, total_size, blocks_of}
use cobj.Assembler.Layout.{
  code_of_blocks, block_at_lem, emit_blocks-Written, length-encode_all, size_at-get,
}
use cobj.Assembler.Layout.{place_blocks_lem, size_at, some_inj, total_size-same}

ok_inj {ℓ} : {A : Type ℓ} {a b : A} → ok a ≡ ok b → a ≡ b
ok_inj {A = A} {a = a} e = ap (λ r. value_or r) e
  where
    value_or : Result A → A
    value_or (ok b) = b
    value_or _ = a

All-get {ℓ κ} :
    {A : Type ℓ} (P : A → Type κ) (xs : List A) (i : ℕ) (x : A)
    → All P xs
    → get_elem? xs i ≡ some x
    → P x
All-get P [] i x h e = absurd (ground (arith, e))
All-get P (y ∷ xs) zero x h e = subst P (some_inj e) h.0
All-get P (y ∷ xs) (suc i) x h e = All-get P xs i x h.1 e

All-set {ℓ κ} :
    {A : Type ℓ} (P : A → Type κ) (xs : List A) (i : ℕ) (x : A)
    → All P xs
    → P x
    → All P (set xs i x)
All-set P [] i x h p = tt
All-set P (y ∷ xs) zero x h p = (p, h.1)
All-set P (y ∷ xs) (suc i) x h p = (h.0, All-set P xs i x h.1 p)

-- The first loop changes no instruction.
place_blocks-HasTargets :
    (order : List ℕ) (total : ℕ) (ds bs bs' : List Block)
    → All (HasTargets ds) bs
    → place_blocks order total bs ≡ ok bs'
    → All (HasTargets ds) bs'
unfolding place_blocks
place_blocks-HasTargets [] total ds bs bs' h e = subst (All (HasTargets ds)) (ok_inj e) h
place_blocks-HasTargets (c ∷ order) total ds bs bs' h e = elim (Option-cases (get_elem? bs c)) [
  | inl z ↦ let u : undefined ≡ ok bs' = rw z at e in absurd (ground (arith, u))
  | inr (x, z) ↦
      let p = All-get (HasTargets ds) bs c x h z in
      let y = record x { b_offset = total } in
      place_blocks-HasTargets order (total + blocksize x) ds (set bs c y) bs'
        (All-set (HasTargets ds) bs c y h p) (rw z at e)
]

HasTarget-length :
    (bs cs : List Block) (i : Instr) → length cs ≡ length bs → HasTarget bs i → HasTarget cs i
HasTarget-length bs cs i e h = by_test (has_absolute_target i.i_opcode) i.i_target h
  where
    by_test : (t : Bool) (o : Option ℕ) → TargetIn bs t o → TargetIn cs t o
    by_test false o h = tt
    by_test true none h = h
    by_test true (some t) h = omega (arith, h, e)

Inside-length :
    (bs cs : List Block) (order : List ℕ)
    → length cs ≡ length bs
    → All (Inside bs) order
    → All (Inside cs) order
Inside-length bs cs order e h = All-imp order (λ b l. omega (arith, l, e)) h

length-code_of_blocks :
    (bs : List Block) (order : List ℕ)
    → All (Inside bs) order
    → length (code_of_blocks (blocks_of bs order)) ≡ total_size bs order
unfolding code_of_blocks blocks_of total_size
length-code_of_blocks bs [] h = refl
length-code_of_blocks bs (b ∷ order) (l, h) =
    let (x, e) = block_at_lem bs b l in
    let rest = code_of_blocks (blocks_of bs order) in
    let size : size_at bs b ≡ instrs_size x.b_instr =
      size_at-get bs b x e ∙ (unfold blocksize in refl) in
    rw e (
      omega (
        arith,
        length-append (encode_all x.b_instr) rest,
        length-encode_all x.b_instr,
        length-code_of_blocks bs order h,
        size,
      ))

code_of_blocks-append :
    (bs : List Block) (pre : List ℕ) (b : ℕ) (post : List ℕ) (x : Block)
    → All (Inside bs) pre
    → get_elem? bs b ≡ some x
    → code_of_blocks (blocks_of bs (pre ++ b ∷ post))
      ≡ code_of_blocks (blocks_of bs pre)
        ++ (encode_all x.b_instr ++ code_of_blocks (blocks_of bs post))
unfolding code_of_blocks blocks_of
code_of_blocks-append bs [] b post x h e = rw e refl
code_of_blocks-append bs (c ∷ pre) b post x (l, h) e =
    let (y, f) = block_at_lem bs c l in
    let ih = code_of_blocks-append bs pre b post x h e in
    rw f (
      ap (λ k. encode_all y.b_instr ++ k) ih
      ∙ sym (
          append_assoc (encode_all y.b_instr) (code_of_blocks (blocks_of bs pre))
            (encode_all x.b_instr ++ code_of_blocks (blocks_of bs post))))

-- What assemble does with a block `b` of the order: its code follows the code before it, at the
-- offset that the jumps to it have.
pub record Placed (order : List ℕ) (b : ℕ) (bs : List Block) : Type 0 where
  pub fixed : List Block
  pub block : Block
  pub bytes : List ℕ
  pub end : ℕ
  pub before : List ℕ
  pub behind : List ℕ
  pub offsets : assembler_jump_offsets order bs ≡ ok fixed
  pub found : get_elem? fixed b ≡ some block
  pub assembled : assemble order bs ≡ ok (bytes, end)
  pub code : take end bytes ≡ before ++ (encode_all block.b_instr ++ behind)
  pub jumps : JumpsIn fixed block
  pub place : block.b_offset ≡ length before
  pub within : end < 2 ^ 31

start-Written : Written [] (replicate 64 0, 0)
start-Written = record { end = refl; room = omega arith; enough = omega arith; prefix = refl }

All-prefix {ℓ κ} :
    {A : Type ℓ} (P : A → Type κ) (xs : List A) (y : A) (ys : List A)
    → All P (xs ++ y ∷ ys)
    → All P xs
All-prefix P [] y ys h = tt
All-prefix P (x ∷ xs) y ys h = (h.0, All-prefix P xs y ys h.1)

JumpsTo-Fixed : (bs cs : List Block) (i : Instr) → Fixed bs cs → JumpsTo bs i → JumpsTo cs i
JumpsTo-Fixed bs cs i k h = by_test (has_absolute_target i.i_opcode) i.i_target h
  where
    by_test : (t : Bool) (o : Option ℕ) → ToTarget bs t o i.i_oparg → ToTarget cs t o i.i_oparg
    by_test false o h = tt
    by_test true none h = tt
    by_test true (some t) (x, e, a) = let (y, f, s) = k.offsets t x e in (y, f, a ∙ sym s)

-- Where the blocks are emitted in the order `pre`, `b`, `post`, every block of the order is in the
-- list, `b` is not in `post`, every jump has its target in the list, and the blocks of the order
-- have less than 2 ^ 31 bytes together: assembler_jump_offsets and `assemble` succeed; the code
-- that is written is some bytes, the bytes of the instructions of `b`, and some bytes more; the
-- offset of `b` is the number of bytes before its instructions; and the argument of each jump of
-- `b` with an absolute target is the offset of its target; the end of the code is an int.
pub assemble-Placed :
    (pre : List ℕ) (b : ℕ) (post : List ℕ) (bs : List Block)
    → All (Inside bs) (pre ++ b ∷ post)
    → All (Other b) post
    → All (HasTargets bs) bs
    → total_size bs (pre ++ b ∷ post) < 2 ^ 31
    → Placed (pre ++ b ∷ post) b bs
unfolding assemble assembler_jump_offsets
assemble-Placed pre b post bs i o t small =
    let order = pre ++ b ∷ post in
    let (placed, e, (l, s), (x, g, at)) = place_blocks_lem pre b post 0 bs i o in
    let t₁ = place_blocks-HasTargets order 0 bs bs placed t e in
    let t₂ : All (HasTargets placed) placed =
      All-imp placed (λ y h. All-imp y.b_instr (λ j k. HasTarget-length bs placed j l k) h) t₁ in
    let (fixed, f, k, js) = fix_blocks-Fixed placed placed t₂ in
    let (y, found, same) = k.offsets b x g in
    let len : length fixed ≡ length bs = k.sizes.0 ∙ l in
    let i₁ = Inside-length bs fixed order len i in
    let before = All-prefix (Inside fixed) pre b post i₁ in
    let (a, w, written) = emit_blocks-Written fixed order [] (replicate 64 0, 0) i₁ start-Written in
    let target = All-get (JumpsIn placed) fixed b y js found in
    let offsets : assembler_jump_offsets order bs ≡ ok fixed = rw (e, f) refl in
    record {
      fixed = fixed;
      block = y;
      bytes = a.0;
      end = a.1;
      before = code_of_blocks (blocks_of fixed pre);
      behind = code_of_blocks (blocks_of fixed post);
      offsets = offsets;
      found = found;
      assembled = rw (e, f) w;
      code = written.prefix ∙ code_of_blocks-append fixed pre b post y before found;
      jumps = All-imp y.b_instr (λ j h. JumpsTo-Fixed placed fixed j k h) target;
      place = omega (
        arith,
        same,
        at,
        length-code_of_blocks fixed pre before,
        total_size-same bs fixed pre (len, λ c. k.sizes.1 c ∙ s c),
      );
      within = omega (
        arith,
        small,
        written.end,
        length-code_of_blocks fixed order i₁,
        total_size-same bs fixed order (len, λ c. k.sizes.1 c ∙ s c),
      );
    }
