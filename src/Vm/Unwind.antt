-- ===== src/Vm/Unwind.antt =====
-- `fast_end` of vm_eval: the block that takes a pending status, and what it finds there.
use cobj.Prelude.{ℕ, zero, suc, ◌+◌, ◌-◌, ◌≤◌, ◌<◌, ◌≡◌, ◌≢◌, refl, ap, ◌∙◌, sym, arith}
use cobj.Prelude.{List, [], ◌∷◌, ◌++◌, length, drop, length-drop, All}
use cobj.Prelude.{Bool, true, false, ◌||◌, Option, none}
use cobj.Prelude.Result.{ok, ◌>>=◌}
use cobj.Vm.Machine.{Machine, FrameBlock, Status}
use cobj.Vm.Machine.{status_none, status_exception, status_break, status_continue, unwind_block}
use cobj.Vm.Machine.{
  continues, breaks, catches, fetch, unwind, fast_end, still_pending, unwind_pending, running,
  exited,
}

-- A block takes a status: a loop a break or a continue, a `try` an exception.
abbrev pub takes : Status → FrameBlock → Bool
takes s b = continues b.fb_type s || breaks b.fb_type s || catches b.fb_type s

abbrev pub Passes : Status → FrameBlock → Type 0
Passes s b = takes s b ≡ false

-- The levels of the blocks go down with the blocks.
abbrev pub Above : ℕ → FrameBlock → Type 0
Above level b = level ≤ b.fb_level

-- The stack after UNWIND_BLOCK of each block in turn.
abbrev pub unwind_blocks {ℓ} : {A : Type ℓ} → List FrameBlock → List A → List A
unwind_blocks [] s = s
unwind_blocks (b ∷ bs) s = unwind_blocks bs (unwind_block b.fb_level s)

drop-nil {ℓ} : {A : Type ℓ} (n : ℕ) → drop {A = A} n [] ≡ []
drop-nil zero = refl
drop-nil (suc n) = refl

drop-drop {ℓ} : {A : Type ℓ} (m n : ℕ) (s : List A) → drop m (drop n s) ≡ drop (n + m) s
drop-drop m zero s = ap (λ k. drop k s) (omega arith)
drop-drop m (suc n) [] = drop-nil m ∙ sym (drop-nil (suc n + m))
drop-drop m (suc n) (x ∷ s) =
    let e : suc (n + m) ≡ suc n + m = omega arith in drop-drop m n s ∙ ap (λ k. drop k (x ∷ s)) e

unwind_block-unwind_block {ℓ} :
    {A : Type ℓ} (low high : ℕ) (s : List A)
    → low ≤ high
    → unwind_block low (unwind_block high s) ≡ unwind_block low s
unwind_block-unwind_block low high s h =
    drop-drop _ (length s - high) s
    ∙ ap (λ k. drop k s) (omega (arith, length-drop (length s - high) s))

pub unwind_block-unwind_blocks {ℓ} :
    {A : Type ℓ} (low : ℕ) (bs : List FrameBlock) (s : List A)
    → All (Above low) bs
    → unwind_block low (unwind_blocks bs s) ≡ unwind_block low s
unwind_block-unwind_blocks low [] s h = refl
unwind_block-unwind_blocks low (b ∷ bs) s (l, h) =
    unwind_block-unwind_blocks low bs (unwind_block b.fb_level s) h
    ∙ unwind_block-unwind_block low b.fb_level s l

-- The room that the value of an exception takes on the stack that is left.
abbrev pub HasRoom {ℓ} : {A : Type ℓ} → ℕ → FrameBlock → Status → List A → Type 0
HasRoom size b status_exception s = length (unwind_block b.fb_level s) < size
HasRoom size b _ s = Unit

module _ {Obj Heap : Type 0} where
  -- What a block that takes the status does with it, on the stack `s` that the inner blocks left.
  abbrev pub taken_by :
      FrameBlock
      → List FrameBlock
      → Status
      → List (Option Obj)
      → Machine Obj Heap
      → Machine Obj Heap
  taken_by b outer status_continue s m = record m {
    status = status_none;
    next_code = m.oparg;
    stack = s;
    frame = record m.frame { f_blockstack = b ∷ outer };
  }
  taken_by b outer status_exception s m = record m {
    status = status_none;
    next_code = b.fb_handler;
    stack = fetch m.curexc ∷ unwind_block b.fb_level s;
    curexc = none;
    frame = record m.frame { f_blockstack = outer };
  }
  taken_by b outer _ s m = record m {
    status = status_none;
    next_code = b.fb_handler;
    stack = unwind_block b.fb_level s;
    frame = record m.frame { f_blockstack = outer };
  }

  unwind-taken :
      (size : ℕ) (b : FrameBlock) (outer : List FrameBlock) (m : Machine Obj Heap)
      → takes m.status b ≡ true
      → HasRoom size b m.status m.stack
      → unwind size (b ∷ outer) m ≡ ok (taken_by b outer m.status m.stack m)
  unfolding unwind
  unwind-taken size b outer m h r = ground arith

  unwind-passed :
      (size : ℕ) (b : FrameBlock) (outer : List FrameBlock) (m : Machine Obj Heap)
      → Passes m.status b
      → unwind size (b ∷ outer) m
        ≡ unwind size outer (record m { stack = unwind_block b.fb_level m.stack })
  unfolding unwind
  unwind-passed size b outer m h = ground arith

  taken_by-stack :
      (b : FrameBlock) (outer : List FrameBlock) (st : Status) (s t : List (Option Obj))
      (m : Machine Obj Heap)
      → taken_by b outer st s (record m { stack = t }) ≡ taken_by b outer st s m
  taken_by-stack b outer status_none s t m = refl
  taken_by-stack b outer status_exception s t m = refl
  taken_by-stack b outer status_break s t m = refl
  taken_by-stack b outer status_continue s t m = refl

  pub unwind-unwind_blocks :
      (size : ℕ) (inner : List FrameBlock) (b : FrameBlock) (outer : List FrameBlock)
      (m : Machine Obj Heap)
      → All (Passes m.status) inner
      → takes m.status b ≡ true
      → HasRoom size b m.status (unwind_blocks inner m.stack)
      → unwind size (inner ++ b ∷ outer) m
        ≡ ok (taken_by b outer m.status (unwind_blocks inner m.stack) m)
  unwind-unwind_blocks size [] b outer m h t r = unwind-taken size b outer m t r
  unwind-unwind_blocks size (c ∷ inner) b outer m (p, h) t r =
      let cut = record m { stack = unwind_block c.fb_level m.stack } in
      unwind-passed size c (inner ++ b ∷ outer) m p
      ∙ unwind-unwind_blocks size inner b outer cut h t r
      ∙ ap ok (taken_by-stack b outer m.status _ _ m)

  pub unwind_none :
      (size : ℕ) (bs : List FrameBlock) (m : Machine Obj Heap)
      → All (Passes m.status) bs
      → unwind size bs m
        ≡ ok (record m {
          stack = unwind_blocks bs m.stack;
          frame = record m.frame { f_blockstack = [] };
        })
  unfolding unwind
  unwind_none size [] m h = refl
  unwind_none size (b ∷ bs) m (p, h) =
      unwind-passed size b bs m p
      ∙ unwind_none size bs (record m { stack = unwind_block b.fb_level m.stack }) h

  pending :
      (size : ℕ) (s : Status) (m : Machine Obj Heap)
      → s ≢ status_none
      → unwind_pending size s m ≡ unwind size m.frame.f_blockstack m
  pending size status_none m h = absurd (h refl)
  pending size status_exception m h = refl
  pending size status_break m h = refl
  pending size status_continue m h = refl

  still : (s : Status) (m : Machine Obj Heap) → s ≢ status_none → still_pending s m ≡ exited m
  still status_none m h = absurd (h refl)
  still status_exception m h = refl
  still status_break m h = refl
  still status_continue m h = refl

  taken_by_status :
      (b : FrameBlock) (outer : List FrameBlock) (s : Status) (t : List (Option Obj))
      (m : Machine Obj Heap)
      → (taken_by b outer s t m).status ≡ status_none
  taken_by_status b outer status_none t m = refl
  taken_by_status b outer status_exception t m = refl
  taken_by_status b outer status_break t m = refl
  taken_by_status b outer status_continue t m = refl

  -- `fast_end` with no status pending goes on with the machine as it is.
  pub fast_end_none :
      (size : ℕ) (m : Machine Obj Heap) → m.status ≡ status_none → fast_end size m ≡ ok (running m)
  unfolding fast_end
  fast_end_none size m h = rw h refl

  -- Where the blocks of the frame are those of `inner`, which pass the pending status, then a
  -- block `b` that takes it, then `outer`, and the stack has room for an exception's value:
  -- `fast_end` goes on with no status. A loop takes a continue: it stays in place and the argument
  -- is the next offset. A loop takes a break, and a `try` an exception: the next offset is the
  -- handler of `b`, the stack is cut to the levels of `inner` and then of `b`, `outer` is left,
  -- and for an exception its value is on top. A finally block passes every status.
  pub fast_end-taken :
      (size : ℕ) (inner : List FrameBlock) (b : FrameBlock) (outer : List FrameBlock)
      (m : Machine Obj Heap)
      → m.frame.f_blockstack ≡ inner ++ b ∷ outer
      → All (Passes m.status) inner
      → takes m.status b ≡ true
      → HasRoom size b m.status (unwind_blocks inner m.stack)
      → fast_end size m ≡ ok (running (taken_by b outer m.status (unwind_blocks inner m.stack) m))
  unfolding fast_end
  fast_end-taken size inner b outer m e h t r =
      let u = pending size m.status m (not_none m.status t) in
      let v = unwind-unwind_blocks size inner b outer m h t r in
      let w = u ∙ ap (λ k. unwind size k m) e ∙ v in
      let z = taken_by_status b outer m.status (unwind_blocks inner m.stack) m in
      ap (λ k. k >>= λ m'. ok (still_pending m'.status m')) w ∙ (rw z refl)
    where
      not_none : (s : Status) → takes s b ≡ true → s ≢ status_none
      not_none s t z = ground (arith, z, t)

  -- Where a status is pending and no block of the frame takes it, `fast_end` ends vm_eval with the
  -- status still pending and every block of the frame popped; the blocks of the frames that called
  -- it are not looked at.
  pub fast_end_uncaught :
      (size : ℕ) (m : Machine Obj Heap)
      → m.status ≢ status_none
      → All (Passes m.status) m.frame.f_blockstack
      → fast_end size m
        ≡ ok (
            exited (record m {
              stack = unwind_blocks m.frame.f_blockstack m.stack;
              frame = record m.frame { f_blockstack = [] };
            }))
  unfolding fast_end
  fast_end_uncaught size m p h =
      let u = pending size m.status m p ∙ unwind_none size m.frame.f_blockstack m h in
      ap (λ k. k >>= λ m'. ok (still_pending m'.status m')) u ∙ ap ok (still m.status _ p)
