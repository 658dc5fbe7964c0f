-- ===== src/Vm/Step.antt =====
-- The switch of vm_eval, one round of its loop, and the states that the rounds lead to.
use cobj.Prelude.{ℕ, ◌+◌, List, [], length, get_elem?, if◌then◌else◌, ◌==◌, Option, none, some, map}
use cobj.Prelude.{Bool, true, false}
use cobj.Prelude.Result.{Result, ok, raise, ◌>>=◌, system_error}
use cobj.Vm.Opcode.{OpCode, decode}
use cobj.Vm.Opcode.{binary_add, binary_sub, binary_mul, binary_div, binary_mod}
use cobj.Vm.Opcode.{binary_sl, binary_sr, binary_subscript, cmp, unary_negate}
use cobj.Vm.Opcode.{unary_invert, store_name, jmpz, jmp, jmpx, declare_function, return_}
use cobj.Vm.Opcode.{call_function, setup_try, throw, load_name, load_const, build_tuple}
use cobj.Vm.Opcode.{build_list, dict_build, dict_add, setup_loop, pop_block, break_loop}
use cobj.Vm.Opcode.{continue_loop, pop_try, dup_top, pop_top, end_try, setup_finally}
use cobj.Vm.Opcode.{end_finally, store_subscript, load_local, load_upval, store_upval}
use cobj.Vm.Opcode.{store_local, get_iter, for_iter}
use cobj.Vm.Objects.{Objects, Answer, value, null, text_of}
use cobj.Vm.Machine.{Frame, BlockType, loop_block, try_block, finally_block}
use cobj.Vm.Machine.{
  status_none, status_break, status_continue, new_frame, block_setup, block_pop, unwind_block,
}
use cobj.Vm.Machine.{set_object, Next, fast_end}
use cobj.Vm.Operands.{
  deref, pop, pop_object, pop_items, push, next_op, next_arg, jump_to, set_local,
}
use cobj.Vm.Operands.{fail, ignore}
use cobj.Vm.Handlers.{State, code, stack_size, set_message, binary_add_handler, binary_handler}
use cobj.Vm.Handlers.{unary_handler, subscript_handler, cmp_handler, load_name_handler}
use cobj.Vm.Handlers.{declare_handler, call_handler, return_handler, store_subscript_handler}

abbrev pub is_return : OpCode → Bool
is_return return_ = true
is_return _ = false

module _ (O : Objects) where
  abbrev pub with_frame : Frame O.Obj → State O → State O
  with_frame f m = record m { frame = f }

  -- OP_SETUP_LOOP, OP_SETUP_TRY and OP_SETUP_FINALLY, at the level of the stack
  unfoldable pub setup_handler : BlockType → State O → Result (State O)
  setup_handler type m = do
    (target, m₁) ← next_arg (code O m) m
    f ← block_setup m₁.frame type target (length m₁.stack)
    ok (with_frame f m₁)

  -- OP_POP_BLOCK and OP_POP_TRY
  unfoldable pub pop_block_handler : State O → Result (State O)
  pop_block_handler m = do
    (b, f) ← block_pop m.frame
    ok (record m { frame = f; stack = unwind_block b.fb_level m.stack })

  -- OP_LOAD_UPVAL, of the variable `func`
  unfoldable pub load_upval_handler : State O → Result (State O)
  load_upval_handler m = do
    (i, m₁) ← next_arg (code O m) m
    cell ← deref (get_elem? (O.upvalues m₁.func m₁.heap) i)
    push (stack_size O m) (O.cell_get cell m₁.heap) m₁

  unfoldable pub store_upval_handler : State O → Result (State O)
  store_upval_handler m = do
    (i, m₁) ← next_arg (code O m) m
    cell ← deref (get_elem? (O.upvalues m₁.func m₁.heap) i)
    (o2, m₂) ← pop_object m₁
    ok (record m₂ { heap = O.cell_set cell o2 m₂.heap })

  -- OP_LOAD_LOCAL and OP_LOAD_CONST
  unfoldable pub load_handler : List (Option O.Obj) → State O → Result (State O)
  load_handler cells m = do
    (i, m₁) ← next_arg (code O m) m
    c ← deref (get_elem? cells i)
    x ← deref c
    push (stack_size O m) (some x) m₁

  unfoldable pub store_local_handler : State O → Result (State O)
  store_local_handler m = do
    (i, m₁) ← next_arg (code O m) m
    (c, m₂) ← pop m₁
    locals ← set_local i c m₂.frame.locals
    ok (with_frame (record m₂.frame { locals = locals }) m₂)

  -- OP_STORE_NAME with COObject_set
  unfoldable pub store_name_handler : State O → Result (State O)
  store_name_handler m = do
    (i, m₁) ← next_arg (code O m) m
    name ← deref (get_elem? (code O m).co_names i)
    (o2, m₂) ← pop_object m₁
    ok (ignore (O.dict_set_item m₂.frame.f_globals name o2 m₂.heap) m₂)

  -- OP_BUILD_TUPLE and OP_BUILD_LIST
  unfoldable pub build_handler : (List O.Obj → O.Heap → O.Obj × O.Heap) → State O → Result (State O)
  build_handler make m = do
    (n, m₁) ← next_arg (code O m) m
    (items, m₂) ← pop_items n m₁
    let (x, h) = make items m₂.heap
    push (stack_size O m) (some x) (record m₂ { heap = h })

  -- OP_DICT_BUILD; its argument is read and not used.
  unfoldable pub dict_build_handler : State O → Result (State O)
  dict_build_handler m = do
    (_, m₁) ← next_arg (code O m) m
    let (x, h) = O.dict_new m₁.heap
    push (stack_size O m) (some x) (record m₁ { heap = h })

  unfoldable pub dict_add_handler : State O → Result (State O)
  dict_add_handler m = do
    (o1, m₁) ← pop_object m
    (o2, m₂) ← pop_object m₁
    (o3, m₃) ← pop_object m₂
    push (stack_size O m) (some o3) (ignore (O.dict_set_item o3 o2 o1 m₃.heap) m₃)

  -- The result of COObject_IsTrue in OP_JMPZ; an exception counts as true.
  abbrev pub answer_is_false : Answer Bool O.Obj O.Heap → State O → Bool × State O
  answer_is_false (value true h) m = (false, record m { heap = h })
  answer_is_false (value false h) m = (true, record m { heap = h })
  answer_is_false (null e v h) m = (false, set_object e (some v) (record m { heap = h }))

  -- The test of OP_JMPZ
  unfoldable pub is_false : O.Obj → State O → Bool × State O
  is_false o m =
      if O.is_true_object o
      then (false, m)
      else if O.is_false_object o
      then (true, m)
      else answer_is_false (O.is_true o m.heap) m

  unfoldable pub jmpz_handler : State O → Result (State O)
  jmpz_handler m = do
    (target, m₁) ← next_arg (code O m) m
    (o1, m₂) ← pop_object m₁
    let (zero_test, m₃) = is_false o1 m₂
    ok (if zero_test then jump_to target m₃ else m₃)

  -- OP_THROW; `error` on any other argument ends the process.
  unfoldable pub throw_handler : State O → Result (State O)
  throw_handler m = do
    (n, m₁) ← next_arg (code O m) m
    if n == 1
        then (pop m₁ >>= λ (c, m₂). ok (fail (set_object system_error c m₂)))
        else if n == 0
        then ok (fail (set_object system_error (some O.none_object) m₁))
        else raise system_error

  -- OP_END_TRY and OP_END_FINALLY, which raises nothing for CO_None
  unfoldable pub end_try_handler : State O → Result (State O)
  end_try_handler m = do
    (o1, m₁) ← pop_object m
    ok (fail (set_message O system_error (text_of o1) m₁))

  unfoldable pub end_finally_handler : State O → Result (State O)
  end_finally_handler m = do
    (o1, m₁) ← pop_object m
    ok (if O.is_none o1 then m₁ else fail (set_message O system_error (text_of o1) m₁))

  -- OP_FOR_ITER: the next item on the iterator, or the jump without it.
  abbrev pub iterate : State O → ℕ → State O → State O → Option O.Obj × O.Heap → Result (State O)
  iterate m target m₁ m₂ (some x, h) = push (stack_size O m) (some x) (record m₁ { heap = h })
  iterate m target m₁ m₂ (none, h) = ok (jump_to target (record m₂ { heap = h }))

  unfoldable pub for_iter_handler : State O → Result (State O)
  for_iter_handler m = do
    (target, m₁) ← next_arg (code O m) m
    (o1, m₂) ← pop_object m₁
    iterate m target m₁ m₂ (O.iternext o1 m₁.heap)

  -- The cases that go on in the frame; OP_RETURN is apart.
  unfoldable pub exec : OpCode → State O → Result (State O)
  exec binary_add m = binary_add_handler O m
  exec binary_sub m = binary_handler O O.int_sub m
  exec binary_mul m = binary_handler O O.int_mul m
  exec binary_div m = binary_handler O O.int_div m
  exec binary_mod m = binary_handler O O.int_mod m
  exec binary_sl m = binary_handler O O.int_lshift m
  exec binary_sr m = binary_handler O O.int_rshift m
  exec binary_subscript m = subscript_handler O m
  exec cmp m = cmp_handler O m
  exec unary_negate m = unary_handler O O.int_neg m
  exec unary_invert m = unary_handler O O.int_invert m
  exec load_local m = load_handler m.frame.locals m
  exec load_name m = load_name_handler O m
  exec load_upval m = load_upval_handler m
  exec load_const m = load_handler (map (λ o. some o) (code O m).co_consts) m
  exec build_tuple m = build_handler O.tuple_new m
  exec build_list m = build_handler O.list_new m
  exec dict_build m = dict_build_handler m
  exec dict_add m = dict_add_handler m
  exec store_name m = store_name_handler m
  exec store_upval m = store_upval_handler m
  exec store_local m = store_local_handler m
  exec jmpz m = jmpz_handler m
  exec jmp m = next_arg (code O m) m >>= λ (offset, m₁). ok (jump_to (m₁.next_code + offset) m₁)
  exec jmpx m = next_arg (code O m) m >>= λ (target, m₁). ok (jump_to target m₁)
  exec declare_function m = declare_handler O m
  exec call_function m = call_handler O m
  exec setup_loop m = setup_handler loop_block m
  exec setup_try m = setup_handler try_block m
  exec setup_finally m = setup_handler finally_block m
  exec pop_block m = pop_block_handler m
  exec pop_try m = pop_block_handler m
  exec break_loop m = ok (record m { status = status_break })
  exec continue_loop m =
      next_arg (code O m) m >>= λ (_, m₁). ok (record m₁ { status = status_continue })
  exec throw m = throw_handler m
  exec dup_top m = pop_object m >>= λ (o, _). push (stack_size O m) (some o) m
  exec pop_top m = pop_object m >>= λ (_, m₁). ok m₁
  exec end_try m = end_try_handler m
  exec end_finally m = end_finally_handler m
  exec store_subscript m = store_subscript_handler O m
  exec get_iter m = unary_handler O O.get_iter m
  exec for_iter m = for_iter_handler m
  exec _ m = raise system_error

  -- A case of the switch, and `fast_end` behind it.
  unfoldable pub dispatch : Option OpCode → State O → Result (Next O.Obj O.Heap)
  dispatch none m = raise system_error
  dispatch (some op) m =
      if is_return op then return_handler O m else exec op m >>= λ m'. fast_end (stack_size O m') m'

  -- A round of the loop.
  unfoldable pub step : State O → Result (Next O.Obj O.Heap)
  step m = do (byte, m₁) ← next_op (code O m) m; dispatch (decode byte) m₁

  -- The start of vm_eval on the first frame, where no frame is before it.
  unfoldable pub vm_start : O.Obj → O.Obj → O.Heap → State O
  vm_start f globals h = record {
    func = f;
    globals = globals;
    frame = new_frame O f globals;
    f_prev = [];
    stack = [];
    next_code = 0;
    oparg = 0;
    status = status_none;
    curexc = none;
    heap = h;
  }
