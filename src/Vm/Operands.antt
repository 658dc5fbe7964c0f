-- ===== src/Vm/Operands.antt =====
-- The macros of vm_eval on the stack, the code and the locals. A read or write outside the stack,
-- the code, a tuple or the locals is `undefined`, and so is the use of NULL as an object.
use cobj.Prelude.{ℕ, zero, suc, ◌+◌, ◌*◌, List, [], ◌∷◌, ◌++◌, length, get_elem?, set}
use cobj.Prelude.{if◌then◌else◌, ltb, Option, none, some}
use cobj.Prelude.Result.{Result, ok, undefined, ◌>>=◌}
use cobj.Vm.Objects.{Answer, value, null, Code}
use cobj.Vm.Machine.{Machine, status_exception, set_object}

-- A use of a pointer that must not be NULL, or of an index that must be inside.
abbrev pub deref {ℓ} : {A : Type ℓ} → Option A → Result A
deref none = undefined
deref (some a) = ok a

-- SETLOCAL
abbrev pub set_local {ℓ} : {A : Type ℓ} → ℕ → A → List A → Result (List A)
set_local i c locals = if ltb i (length locals) then ok (set locals i c) else undefined

module _ {Obj Heap : Type 0} where
  abbrev pub with_stack : List (Option Obj) → Machine Obj Heap → Machine Obj Heap
  with_stack s m = record m { stack = s }

  -- POP: the cell and the machine without it
  abbrev pub pop_cell :
      List (Option Obj) → Machine Obj Heap → Result (Option Obj × Machine Obj Heap)
  pop_cell [] m = undefined
  pop_cell (c ∷ s) m = ok (c, with_stack s m)

  abbrev pub pop : Machine Obj Heap → Result (Option Obj × Machine Obj Heap)
  pop m = pop_cell m.stack m

  -- POP of a cell whose object is used afterwards
  abbrev pub pop_object : Machine Obj Heap → Result (Obj × Machine Obj Heap)
  pop_object m = do (c, m') ← pop m; o ← deref c; ok (o, m')

  -- `while (--oparg >= 0) { o = POP(); ... }` into the places of a tuple or a list
  unfoldable pub pop_items : ℕ → Machine Obj Heap → Result (List Obj × Machine Obj Heap)
  pop_items zero m = ok ([], m)
  pop_items (suc n) m = do (o, m₁) ← pop_object m; (os, m₂) ← pop_items n m₁; ok (os ++ o ∷ [], m₂)

  -- PUSH, on a stack of `size` cells. The source has no test here: a write behind the cells is
  -- outside the allocation, and `undefined`.
  abbrev pub push : ℕ → Option Obj → Machine Obj Heap → Result (Machine Obj Heap)
  push size c m = if ltb (length m.stack) size then ok (with_stack (c ∷ m.stack) m) else undefined

  -- SET_TOP
  abbrev pub set_top_of :
      List (Option Obj) → Option Obj → Machine Obj Heap → Result (Machine Obj Heap)
  set_top_of [] c m = undefined
  set_top_of (x ∷ s) c m = ok (with_stack (c ∷ s) m)

  abbrev pub set_top : Option Obj → Machine Obj Heap → Result (Machine Obj Heap)
  set_top c m = set_top_of m.stack c m

  -- NEXTOP on the code
  abbrev pub next_op : Code Obj → Machine Obj Heap → Result (ℕ × Machine Obj Heap)
  next_op c m = do
    byte ← deref (get_elem? c.co_code m.next_code)
    ok (byte, record m { next_code = suc m.next_code })

  -- NEXTARG: two bytes, the lower one first
  abbrev pub next_arg : Code Obj → Machine Obj Heap → Result (ℕ × Machine Obj Heap)
  next_arg c m = do
    low ← deref (get_elem? c.co_code m.next_code)
    high ← deref (get_elem? c.co_code (suc m.next_code))
    ok (high * 256 + low, record m { next_code = m.next_code + 2; oparg = high * 256 + low })

  -- JUMPTO
  abbrev pub jump_to : ℕ → Machine Obj Heap → Machine Obj Heap
  jump_to offset m = record m { next_code = offset }

  -- `status = STATUS_EXCEPTION`
  abbrev pub fail : Machine Obj Heap → Machine Obj Heap
  fail m = record m { status = status_exception }

  -- What a call left: its value, or NULL and the exception that it has set.
  abbrev pub settle : Answer Obj Obj Heap → Machine Obj Heap → Option Obj × Machine Obj Heap
  settle (value x h) m = (some x, record m { heap = h })
  settle (null e v h) m = (none, set_object e (some v) (record m { heap = h }))

  -- A call whose result is ignored.
  abbrev pub ignore : Answer Unit Obj Heap → Machine Obj Heap → Machine Obj Heap
  ignore (value x h) m = record m { heap = h }
  ignore (null e v h) m = set_object e (some v) (record m { heap = h })

  -- `x = ...; SET_TOP(x);` for the result of a call
  abbrev pub set_top_answer : Answer Obj Obj Heap → Machine Obj Heap → Result (Machine Obj Heap)
  set_top_answer a m = let (c, m') = settle a m in set_top c m'

  -- `if (!x) { status = STATUS_EXCEPTION; goto fast_end; }`
  abbrev pub fail_on_null : Answer Obj Obj Heap → Machine Obj Heap → Machine Obj Heap
  fail_on_null (value x h) m = m
  fail_on_null (null e v h) m = fail m
