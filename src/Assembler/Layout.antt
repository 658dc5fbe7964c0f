-- ===== src/Assembler/Layout.antt =====
-- assembler_jump_offsets against the emission: the offset of a block is where its code begins.
use cobj.Prelude.{
  append_assoc, append-nil, ℕ, zero, suc, ◌+◌, ◌<◌, ◌≡◌, ◌≢◌, refl, sym, ap, ◌∙◌, arith,
}
use cobj.Prelude.{List, [], ◌∷◌, ◌++◌, length, get_elem?, set, All, length-append, length-set}
use cobj.Prelude.{Option, none, some}
use cobj.Prelude.Result.{ok}
use cobj.Assembler.{Instr, Block, instrs_size, blocksize, place_blocks}
use cobj.Assembler.{encode, emit_blocks}
use cobj.Assembler.Emit.{Written, encode_all, length-encode, emit_instrs_lem}

-- Every block of the order is in the list.
abbrev pub Inside : List Block → ℕ → Type 0
Inside bs b = b < length bs

pub block_at_lem :
    (bs : List Block) (b : ℕ) → b < length bs → (x : Block) × (get_elem? bs b ≡ some x)
block_at_lem [] b h = absurd (omega arith)
block_at_lem (x ∷ bs) zero h = (x, refl)
block_at_lem (x ∷ bs) (suc b) h = block_at_lem bs b (omega arith)

-- The blocks of the order, as they are found
unfoldable pub blocks_of : List Block → List ℕ → List Block
blocks_of bs [] = []
blocks_of bs (b ∷ order) = cons_found (get_elem? bs b) (blocks_of bs order)
  where
    cons_found : Option Block → List Block → List Block
    cons_found (some x) xs = x ∷ xs
    cons_found none xs = xs

unfoldable pub code_of_blocks : List Block → List ℕ
code_of_blocks [] = []
code_of_blocks (x ∷ xs) = encode_all x.b_instr ++ code_of_blocks xs

pub emit_blocks-Written :
    (bs : List Block) (order code : List ℕ) (a : List ℕ × ℕ)
    → All (Inside bs) order
    → Written code a
    → (a' : List ℕ × ℕ) × (emit_blocks bs order a ≡ ok a')
      × Written (code ++ code_of_blocks (blocks_of bs order)) a'
unfolding emit_blocks blocks_of code_of_blocks
emit_blocks-Written bs [] code a h w = (a, refl, rw (append-nil code) w)
emit_blocks-Written bs (b ∷ order) code a (l, h) w =
    let (x, e) = block_at_lem bs b l in
    let (a₁, e₁, w₁) = emit_instrs_lem code x.b_instr a w in
    let (a₂, e₂, w₂) = emit_blocks-Written bs order (code ++ encode_all x.b_instr) a₁ h w₁ in
    (
      a₂,
      rw (e, e₁, e₂) refl,
      rw e (
          rw (append_assoc code (encode_all x.b_instr) (code_of_blocks (blocks_of bs order))) at
            w₂),
    )

pub length-encode_all : (is : List Instr) → length (encode_all is) ≡ instrs_size is
unfolding encode_all
length-encode_all [] = refl
length-encode_all (i ∷ is) =
    omega (arith, length-append (encode i) (encode_all is), length-encode i, length-encode_all is)

-- The size of the block at a place, and of the blocks of an order
unfoldable pub size_at : List Block → ℕ → ℕ
size_at [] b = 0
size_at (x ∷ bs) zero = blocksize x
size_at (x ∷ bs) (suc b) = size_at bs b

unfoldable pub total_size : List Block → List ℕ → ℕ
total_size bs [] = 0
total_size bs (b ∷ order) = size_at bs b + total_size bs order

-- Two lists of blocks of the same sizes, place by place
abbrev pub SameSizes : List Block → List Block → Type 0
SameSizes bs cs = (length cs ≡ length bs) × ((b : ℕ) → size_at cs b ≡ size_at bs b)

pub some_inj {ℓ} : {A : Type ℓ} {a b : A} → some a ≡ some b → a ≡ b
some_inj {A = A} {a = a} e = ap (λ o. value_or a o) e
  where
    value_or : A → Option A → A
    value_or a none = a
    value_or a (some b) = b

pub size_at-get :
    (bs : List Block) (b : ℕ) (x : Block) → get_elem? bs b ≡ some x → size_at bs b ≡ blocksize x
unfolding size_at
size_at-get [] b x e = ground (arith, e)
size_at-get (y ∷ bs) zero x e = ap blocksize (some_inj e)
size_at-get (y ∷ bs) (suc b) x e = size_at-get bs b x e

size_at-set :
    (bs : List Block) (b : ℕ) (x y : Block) (c : ℕ)
    → get_elem? bs b ≡ some x
    → blocksize y ≡ blocksize x
    → size_at (set bs b y) c ≡ size_at bs c
unfolding size_at
size_at-set [] b x y c e s = refl
size_at-set (z ∷ bs) zero x y zero e s = s ∙ sym (size_at-get (z ∷ bs) zero x e)
size_at-set (z ∷ bs) zero x y (suc c) e s = refl
size_at-set (z ∷ bs) (suc b) x y zero e s = refl
size_at-set (z ∷ bs) (suc b) x y (suc c) e s = size_at-set bs b x y c e s

get-set_other :
    (bs : List Block) (b c : ℕ) (y : Block) → c ≢ b → get_elem? (set bs b y) c ≡ get_elem? bs c
get-set_other [] b c y n = refl
get-set_other (z ∷ bs) zero zero y n = absurd (n refl)
get-set_other (z ∷ bs) zero (suc c) y n = refl
get-set_other (z ∷ bs) (suc b) zero y n = refl
get-set_other (z ∷ bs) (suc b) (suc c) y n = get-set_other bs b c y (λ e. n (ap suc e))

get-set_same :
    (bs : List Block) (b : ℕ) (y : Block) → b < length bs → get_elem? (set bs b y) b ≡ some y
get-set_same [] b y h = absurd (omega arith)
get-set_same (z ∷ bs) zero y h = refl
get-set_same (z ∷ bs) (suc b) y h = get-set_same bs b y (omega arith)

Inside-set :
    (bs : List Block) (b : ℕ) (y : Block) (order : List ℕ)
    → All (Inside bs) order
    → All (Inside (set bs b y)) order
Inside-set bs b y [] h = tt
Inside-set bs b y (c ∷ order) (l, h) =
    (omega (arith, l, length-set bs b y), Inside-set bs b y order h)

abbrev pub Other : ℕ → ℕ → Type 0
Other b c = b ≢ c

-- The blocks that the order does not name stay as they are.
pub get-place_blocks :
    (order : List ℕ) (total : ℕ) (bs : List Block) (b : ℕ)
    → All (Inside bs) order
    → All (Other b) order
    → (bs' : List Block) × (place_blocks order total bs ≡ ok bs')
      × (get_elem? bs' b ≡ get_elem? bs b)
      × SameSizes bs bs'
unfolding place_blocks
get-place_blocks [] total bs b i o = (bs, refl, refl, (refl, λ c. refl))
get-place_blocks (c ∷ order) total bs b (l, i) (n, o) =
    let (x, e) = block_at_lem bs c l in
    let y = record x { b_offset = total } in
    let (bs', e', k, (ls, ss)) =
      get-place_blocks order (total + blocksize x) (set bs c y) b (Inside-set bs c y order i) o in
    (
      bs',
      rw e e',
      k ∙ get-set_other bs c b y n,
      (ls ∙ length-set bs c y, λ d. ss d ∙ size_at-set bs c x y d e (unfold blocksize in refl)),
    )

pub total_size-same :
    (bs cs : List Block) (order : List ℕ)
    → SameSizes bs cs
    → total_size cs order ≡ total_size bs order
unfolding total_size
total_size-same bs cs [] h = refl
total_size-same bs cs (b ∷ order) (l, s) = omega (arith, s b, total_size-same bs cs order (l, s))

-- The offset of a block is the size of the blocks before it.
pub place_blocks_lem :
    (pre : List ℕ) (b : ℕ) (post : List ℕ) (total : ℕ) (bs : List Block)
    → All (Inside bs) (pre ++ b ∷ post)
    → All (Other b) post
    → (bs' : List Block) × (place_blocks (pre ++ b ∷ post) total bs ≡ ok bs')
      × SameSizes bs bs'
      × ((x : Block) × (get_elem? bs' b ≡ some x) × (x.b_offset ≡ total + total_size bs pre))
unfolding place_blocks total_size
place_blocks_lem [] b post total bs (l, i) o =
    let (x, e) = block_at_lem bs b l in
    let y = record x { b_offset = total } in
    let (bs', e', k, (ls, ss)) =
      get-place_blocks post (total + blocksize x) (set bs b y) b (Inside-set bs b y post i) o in
    (
      bs',
      rw e e',
      (ls ∙ length-set bs b y, λ d. ss d ∙ size_at-set bs b x y d e (unfold blocksize in refl)),
      (y, k ∙ get-set_same bs b y l, omega arith),
    )
place_blocks_lem (c ∷ pre) b post total bs (l, i) o =
    let (x, e) = block_at_lem bs c l in
    let y = record x { b_offset = total } in
    let same : SameSizes bs (set bs c y) =
      (length-set bs c y, λ d. size_at-set bs c x y d e (unfold blocksize in refl)) in
    let (bs', e', (ls, ss), (z, g, at)) =
      place_blocks_lem pre b post (total + blocksize x) (set bs c y) (Inside-set bs c y _ i) o in
    (
      bs',
      rw e e',
      (ls ∙ same.0, λ d. ss d ∙ same.1 d),
      (z, g, omega (arith, at, total_size-same bs (set bs c y) pre same, size_at-get bs c x e)),
    )
