-- ===== src/Vm/Machine.antt =====
-- The state of vm_eval, the frames and blocks of objects/frameobject.c, and `fast_end`, the end of
-- the evaluation loop that unwinds the blocks.
use cobj.Prelude.{ℕ, ◌-◌, List, [], ◌∷◌, length, drop, Bool, true, false, if◌then◌else◌, ltb}
use cobj.Prelude.{Option, none, some, replicate}
use cobj.Prelude.Result.{Result, ok, raise, undefined, ◌>>=◌, Exception, system_error}
use cobj.Vm.Objects.{Objects}

-- The type of a block: the opcode that has set it up.
pub data BlockType : Type 0 where
  loop_block try_block finally_block : BlockType

-- enum status_code
pub data Status : Type 0 where
  status_none status_exception status_break status_continue : Status

-- COFrameBlock
pub record FrameBlock : Type 0 where
  pub fb_type : BlockType
  pub fb_handler : ℕ
  pub fb_level : ℕ

-- COFrameObject. `f_blockstack` has the block on top first; its length is f_iblock. `f_stacktop` is
-- the stack below the saved top, top first, and `locals` are the cells of f_extraplus below it.
pub record Frame (Obj : Type 0) : Type 0 where
  pub f_func : Obj
  pub f_lasti : ℕ
  pub f_globals : Obj
  pub f_builtins : Obj
  pub f_blockstack : List FrameBlock
  pub f_stacktop : List (Option Obj)
  pub locals : List (Option Obj)

-- The local variables of vm_eval and the state of the thread: the frame with those before it, the
-- pending exception with its value, and the heap. A cell of the stack may hold NULL.
pub record Machine (Obj Heap : Type 0) : Type 0 where
  pub func : Obj
  pub globals : Obj
  pub frame : Frame Obj
  pub f_prev : List (Frame Obj)
  pub stack : List (Option Obj)
  pub next_code : ℕ
  pub oparg : ℕ
  pub status : Status
  pub curexc : Option (Exception × Option Obj)
  pub heap : Heap

-- FRAME_MAXBLOCKS
abbrev pub max_blocks : ℕ
max_blocks = 20

-- COFrame_New
unfoldable pub new_frame : (O : Objects) → O.Obj → O.Obj → Frame O.Obj
new_frame O func globals = record {
  f_func = func;
  f_lasti = 0;
  f_globals = globals;
  f_builtins = O.builtins;
  f_blockstack = [];
  f_stacktop = [];
  locals = replicate (length ((O.code_of_function func).co_localnames)) none;
}

-- COFrameBlock_Setup. `error` ends the process.
unfoldable pub block_setup : {A : Type 0} → Frame A → BlockType → ℕ → ℕ → Result (Frame A)
block_setup f type handler level =
    if ltb (length f.f_blockstack) max_blocks
    then (ok (record f {
      f_blockstack =
          (record { fb_type = type; fb_handler = handler; fb_level = level }) ∷ f.f_blockstack;
    }))
    else raise system_error

-- COFrameBlock_Pop
abbrev pub pop_from {ℓ} :
    {A : Type ℓ} → (List FrameBlock → A) → List FrameBlock → Result (FrameBlock × A)
pop_from rest [] = raise system_error
pop_from rest (b ∷ bs) = ok (b, rest bs)

unfoldable pub block_pop : {A : Type 0} → Frame A → Result (FrameBlock × Frame A)
block_pop f = pop_from (λ bs. record f { f_blockstack = bs }) f.f_blockstack

-- UNWIND_BLOCK, on the stack
abbrev pub unwind_block {ℓ} : {A : Type ℓ} → ℕ → List A → List A
unwind_block level stack = drop (length stack - level) stack

-- The value that COErr_Fetch gives; it leaves no exception behind.
abbrev pub fetch {ℓ} : {A : Type ℓ} → Option (Exception × Option A) → Option A
fetch none = none
fetch (some (e, v)) = v

-- The tests of `fast_end` on a block and the status.
abbrev pub continues : BlockType → Status → Bool
continues loop_block status_continue = true
continues _ _ = false

abbrev pub breaks : BlockType → Status → Bool
breaks loop_block status_break = true
breaks _ _ = false

abbrev pub catches : BlockType → Status → Bool
catches try_block status_exception = true
catches _ _ = false

-- What an instruction leads to: the next round of the loop, or `vm_exit`.
pub data Next (Obj Heap : Type 0) : Type 0 where
  running : Machine Obj Heap → Next Obj Heap
  exited : Machine Obj Heap → Next Obj Heap

module _ {Obj Heap : Type 0} where
  -- COErr_SetObject, which is COErr_Restore with no traceback
  abbrev pub set_object : Exception → Option Obj → Machine Obj Heap → Machine Obj Heap
  set_object e v m = record m { curexc = some (e, v) }

  -- PUSH of the value of the exception, on a stack of `size` cells
  abbrev pub push_caught :
      ℕ
      → FrameBlock
      → List FrameBlock
      → List (Option Obj)
      → Machine Obj Heap
      → Result (Machine Obj Heap)
  push_caught size b bs cut m =
      if ltb (length cut) size
      then (ok (record m {
        status = status_none;
        next_code = b.fb_handler;
        stack = fetch m.curexc ∷ cut;
        curexc = none;
        frame = record m.frame { f_blockstack = bs };
      }))
      else undefined

  -- The loop of `fast_end` while a status is pending, on the blocks of the frame.
  unfoldable pub unwind : ℕ → List FrameBlock → Machine Obj Heap → Result (Machine Obj Heap)
  unwind size [] m = ok (record m { frame = record m.frame { f_blockstack = [] } })
  unwind size (b ∷ bs) m =
      let cut = unwind_block b.fb_level m.stack in
      let rest = unwind size bs (record m { stack = cut }) in
      if continues b.fb_type m.status
      then (ok (record m {
        status = status_none;
        next_code = m.oparg;
        frame = record m.frame { f_blockstack = b ∷ bs };
      }))
      else if breaks b.fb_type m.status
      then (ok (record m {
        status = status_none;
        next_code = b.fb_handler;
        stack = cut;
        frame = record m.frame { f_blockstack = bs };
      }))
      else if catches b.fb_type m.status
      then push_caught size b bs cut m
      else rest

  abbrev pub still_pending : Status → Machine Obj Heap → Next Obj Heap
  still_pending status_none m = running m
  still_pending _ m = exited m

  abbrev pub unwind_pending : ℕ → Status → Machine Obj Heap → Result (Machine Obj Heap)
  unwind_pending size status_none m = ok m
  unwind_pending size _ m = unwind size m.frame.f_blockstack m

  -- `fast_end`: unwinding, and the end of the loop if the status is still pending.
  unfoldable pub fast_end : ℕ → Machine Obj Heap → Result (Next Obj Heap)
  fast_end size m = unwind_pending size m.status m >>= λ m'. ok (still_pending m'.status m')
