-- ===== src/Vm/Invariant.antt =====
-- The rounds of the evaluation loop of vm_eval, and what holds in every state they lead to.
use cobj.Prelude.{
  All, All-imp, ◌≡◌, refl, arith, Option, none, some, get_elem?, map, subst, length-replicate,
}
use cobj.Prelude.Result.{ok}
use cobj.Vm.Objects.{Objects}
use cobj.Vm.Opcode.{OpCode, decode}
use cobj.Vm.Machine.{new_frame, running, loop_block, try_block, finally_block}
use cobj.Vm.Operands.{deref, next_op}
use cobj.Vm.Handlers.{State, code}
use cobj.Vm.Step.{exec, dispatch, is_return, step, vm_start}
use cobj.Vm.Shape.{
  Holds, holds_ok, holds_raise, Holds-bind, Holds-if, Holds-at, Holds-any, Fits, FitsFrame,
  Keeps-Fits, push-Keeps,
}
use cobj.Vm.Shape.Frames.{
  FitsNext, setup_handler-Fits, pop_block_handler-Fits, store_local_handler-Fits, call_handler-Fits,
  return_handler-Fits, fast_end-Fits,
}
use cobj.Vm.Shape.Handlers.{binary_add_handler-Keeps, binary_handler-Keeps}
use cobj.Vm.Shape.Handlers.{build_handler-Keeps, cmp_handler-Keeps, declare_handler-Keeps}
use cobj.Vm.Shape.Handlers.{dict_add_handler-Keeps, dict_build_handler-Keeps}
use cobj.Vm.Shape.Handlers.{end_finally_handler-Keeps, end_try_handler-Keeps}
use cobj.Vm.Shape.Handlers.{for_iter_handler-Keeps, jmpz_handler-Keeps, load_handler-Keeps}
use cobj.Vm.Shape.Handlers.{load_name_handler-Keeps, load_upval_handler-Keeps}
use cobj.Vm.Shape.Handlers.{store_name_handler-Keeps, store_subscript_handler-Keeps}
use cobj.Vm.Shape.Handlers.{store_upval_handler-Keeps, subscript_handler-Keeps}
use cobj.Vm.Shape.Handlers.{throw_handler-Keeps, unary_handler-Keeps, with_arg, with_object}
use cobj.Vm.Opcode.{binary_add, binary_div, binary_mod, binary_mul, binary_pow}
use cobj.Vm.Opcode.{binary_sl, binary_sr, binary_sub, binary_subscript, break_loop}
use cobj.Vm.Opcode.{build_list, build_tuple, call_function, cmp, continue_loop}
use cobj.Vm.Opcode.{declare_function, dict_add, dict_build, dup_top, end_finally}
use cobj.Vm.Opcode.{end_try, for_iter, get_iter, jmp, jmpx, jmpz, load_const}
use cobj.Vm.Opcode.{load_local, load_name, load_upval, nop, pop_block, pop_top}
use cobj.Vm.Opcode.{pop_try, return_, setup_finally, setup_loop, setup_try}
use cobj.Vm.Opcode.{store_local, store_name, store_subscript, store_upval, throw}
use cobj.Vm.Opcode.{unary_invert, unary_negate}

module _ (O : Objects) where
  exec-Fits : (op : OpCode) (m : State O) → Fits O m → Holds (Fits O) (exec O op m)
  unfolding exec
  exec-Fits binary_add m h = Keeps-Fits O m _ (binary_add_handler-Keeps O m h)
  exec-Fits binary_sub m h = Keeps-Fits O m _ (binary_handler-Keeps O O.int_sub m h)
  exec-Fits binary_mul m h = Keeps-Fits O m _ (binary_handler-Keeps O O.int_mul m h)
  exec-Fits binary_div m h = Keeps-Fits O m _ (binary_handler-Keeps O O.int_div m h)
  exec-Fits binary_mod m h = Keeps-Fits O m _ (binary_handler-Keeps O O.int_mod m h)
  exec-Fits binary_sl m h = Keeps-Fits O m _ (binary_handler-Keeps O O.int_lshift m h)
  exec-Fits binary_sr m h = Keeps-Fits O m _ (binary_handler-Keeps O O.int_rshift m h)
  exec-Fits binary_subscript m h = Keeps-Fits O m _ (subscript_handler-Keeps O m h)
  exec-Fits cmp m h = Keeps-Fits O m _ (cmp_handler-Keeps O m h)
  exec-Fits unary_negate m h = Keeps-Fits O m _ (unary_handler-Keeps O O.int_neg m h)
  exec-Fits unary_invert m h = Keeps-Fits O m _ (unary_handler-Keeps O O.int_invert m h)
  exec-Fits load_local m h = Keeps-Fits O m _ (load_handler-Keeps O m.frame.locals m h)
  exec-Fits load_name m h = Keeps-Fits O m _ (load_name_handler-Keeps O m h)
  exec-Fits load_upval m h = Keeps-Fits O m _ (load_upval_handler-Keeps O m h)
  exec-Fits load_const m h =
      Keeps-Fits O m _ (load_handler-Keeps O (map (λ o. some o) (code O m).co_consts) m h)
  exec-Fits build_tuple m h = Keeps-Fits O m _ (build_handler-Keeps O O.tuple_new m h)
  exec-Fits build_list m h = Keeps-Fits O m _ (build_handler-Keeps O O.list_new m h)
  exec-Fits dict_build m h = Keeps-Fits O m _ (dict_build_handler-Keeps O m h)
  exec-Fits dict_add m h = Keeps-Fits O m _ (dict_add_handler-Keeps O m h)
  exec-Fits store_name m h = Keeps-Fits O m _ (store_name_handler-Keeps O m h)
  exec-Fits store_upval m h = Keeps-Fits O m _ (store_upval_handler-Keeps O m h)
  exec-Fits store_local m h = store_local_handler-Fits O m h
  exec-Fits jmpz m h = Keeps-Fits O m _ (jmpz_handler-Keeps O m h)
  exec-Fits jmp m h = with_arg O m _ h (λ (i, m₁) k₁. holds_ok k₁.0)
  exec-Fits jmpx m h = with_arg O m _ h (λ (i, m₁) k₁. holds_ok k₁.0)
  exec-Fits declare_function m h = Keeps-Fits O m _ (declare_handler-Keeps O m h)
  exec-Fits call_function m h = call_handler-Fits O m h
  exec-Fits setup_loop m h = setup_handler-Fits O loop_block m h
  exec-Fits setup_try m h = setup_handler-Fits O try_block m h
  exec-Fits setup_finally m h = setup_handler-Fits O finally_block m h
  exec-Fits pop_block m h = pop_block_handler-Fits O m h
  exec-Fits pop_try m h = pop_block_handler-Fits O m h
  exec-Fits break_loop m h = holds_ok h
  exec-Fits continue_loop m h = with_arg O m _ h (λ (i, m₁) k₁. holds_ok k₁.0)
  exec-Fits throw m h = Keeps-Fits O m _ (throw_handler-Keeps O m h)
  exec-Fits dup_top m h =
      with_object O m m _ (h, refl)
        (λ (o, m₁) k₁. Keeps-Fits O m _ (push-Keeps O m m (some o) (h, refl)))
  exec-Fits pop_top m h = with_object O m m _ (h, refl) (λ (o, m₁) k₁. holds_ok k₁.0)
  exec-Fits end_try m h = Keeps-Fits O m _ (end_try_handler-Keeps O m h)
  exec-Fits end_finally m h = Keeps-Fits O m _ (end_finally_handler-Keeps O m h)
  exec-Fits store_subscript m h = Keeps-Fits O m _ (store_subscript_handler-Keeps O m h)
  exec-Fits get_iter m h = Keeps-Fits O m _ (unary_handler-Keeps O O.get_iter m h)
  exec-Fits for_iter m h = Keeps-Fits O m _ (for_iter_handler-Keeps O m h)
  exec-Fits nop m h = holds_raise
  exec-Fits binary_pow m h = holds_raise
  exec-Fits return_ m h = holds_raise

  dispatch-Fits : (c : Option OpCode) (m : State O) → Fits O m → Holds (FitsNext O) (dispatch O c m)
  unfolding dispatch
  dispatch-Fits none m h = holds_raise
  dispatch-Fits (some op) m h =
      Holds-if (is_return op) _ _ (return_handler-Fits O m h)
        (Holds-bind (exec O op m) _ (exec-Fits op m h) (λ n k. fast_end-Fits O n k))

  pub step-Fits : (m : State O) → Fits O m → Holds (FitsNext O) (step O m)
  unfolding step
  step-Fits m h =
      Holds-bind (next_op (code O m) m) _ fetched (λ (byte, n) k. dispatch-Fits (decode byte) n k)
    where
      fetched : Holds (λ r. Fits O r.1) (next_op (code O m) m)
      fetched =
          Holds-bind (deref (get_elem? (code O m).co_code m.next_code)) _ (Holds-any _)
            (λ byte _. holds_ok h)

  -- The states that the rounds lead to.
  pub data Reach (s : State O) : State O → Type 0 where
    here : Reach s s
    next : {m n : State O} → Reach s m → step O m ≡ ok (running n) → Reach s n

  Reach-kept : {s m : State O} → Fits O s → Reach s m → Fits O m
  Reach-kept f here = f
  Reach-kept f (next {m = m} r e) =
      Holds-at (subst (Holds (FitsNext O)) e (step-Fits m (Reach-kept f r)))

  vm_start-Fits : (func globals : O.Obj) (h : O.Heap) → Fits O (vm_start O func globals h)
  unfolding vm_start new_frame
  vm_start-Fits func globals h =
      (record { blocks = omega arith; cells = length-replicate _ none }, omega arith, tt)

  -- In every state that the rounds of `step` reach from the first frame of `vm_eval`, for any
  -- objects and any code, the running frame and every frame below it have at most FRAME_MAXBLOCKS
  -- blocks and one cell for each local name of their function.
  pub Reach-FitsFrame :
      (func globals : O.Obj) (h : O.Heap) (m : State O)
      → Reach (vm_start O func globals h) m
      → FitsFrame O m.frame × All (FitsFrame O) m.f_prev
  Reach-FitsFrame func globals h m r =
      let (f, s, p) = Reach-kept (vm_start-Fits func globals h) r in
      (f, All-imp m.f_prev (λ g k. k.0) p)
