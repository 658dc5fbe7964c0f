-- ===== src/Vm/Handlers.antt =====
-- The longer cases of the switch of vm_eval: the addition, the comparison, names, new functions,
-- calls and returns.
use cobj.Prelude.{ℕ, suc, List, [], ◌∷◌, length, get_elem?}
use cobj.Prelude.{Bool, true, false, ◌&&◌, if◌then◌else◌, ◌==◌, Option, none, some}
use cobj.Prelude.Result.{Result, ok, raise, ◌>>=◌, Exception, type_error, name_error}
use cobj.Prelude.Result.{value_error, system_error}
use cobj.Vm.Objects.{Objects, Answer, value, null, Code, Callable, cfunction, function}
use cobj.Vm.Objects.{other_callable, Container, list, dict, other_container}
use cobj.Vm.Objects.{Message, not_defined, not_subscriptable, takes_exactly}
use cobj.Vm.Machine.{Machine, Frame, new_frame, set_object, Next, running, exited}
use cobj.Vm.Operands.{deref, pop, pop_object, pop_items, push, set_top, next_arg, set_local, fail}
use cobj.Vm.Operands.{settle, ignore, set_top_answer, fail_on_null}

module _ (O : Objects) where
  abbrev pub State : Type 0
  State = Machine O.Obj O.Heap

  -- The code of the running frame, which the label new_frame reads.
  abbrev pub code : State → Code O.Obj
  code m = O.code_of_function m.frame.f_func

  abbrev pub stack_size : State → ℕ
  stack_size m = (code m).co_stacksize

  -- COErr_Format and COErr_SetString, with the kind of the exception
  abbrev pub set_message : Exception → Message O.Obj → State → State
  set_message e t m =
      let (v, h) = O.message t m.heap in set_object e (some v) (record m { heap = h })

  -- COObject_get
  unfoldable pub lookup_name : O.Obj → State → Option O.Obj
  lookup_name name m = found (O.dict_get_item m.frame.f_globals name m.heap)
    where
      found : Option O.Obj → Option O.Obj
      found (some o) = some o
      found none = O.dict_get_item m.frame.f_builtins name m.heap

  -- OP_BINARY_ADD: `o1` was on top, `o2` is below it.
  unfoldable pub binary_add_handler : State → Result State
  binary_add_handler m = do
    (o1, m₁) ← pop_object m
    (o2, _) ← pop_object m₁
    let a = if O.is_str o1 && O.is_str o2 then O.str_concat o2 o1 m.heap else O.int_add o1 o2 m.heap
    m₂ ← set_top_answer a m₁
    ok (fail_on_null a m₂)

  -- OP_BINARY_SUB to OP_BINARY_SR: a NULL stays on the stack and no status is set.
  unfoldable pub binary_handler :
      (O.Obj → O.Obj → O.Heap → Answer O.Obj O.Obj O.Heap) → State → Result State
  binary_handler op m = do
    (o1, m₁) ← pop_object m
    (o2, _) ← pop_object m₁
    set_top_answer (op o2 o1 m.heap) m₁

  -- OP_UNARY_NEGATE and OP_UNARY_INVERT, and OP_GET_ITER
  unfoldable pub unary_handler : (O.Obj → O.Heap → Answer O.Obj O.Obj O.Heap) → State → Result State
  unary_handler op m = do (o1, _) ← pop_object m; set_top_answer (op o1 m.heap) m

  -- `if (!x) { status = STATUS_EXCEPTION; goto fast_end; }`, or the result at the top
  abbrev pub store_or_fail : Answer O.Obj O.Obj O.Heap → State → Result State
  store_or_fail (value x h) m = set_top_answer (value x h) m
  store_or_fail (null e v h) m = ok (fail (set_object e (some v) (record m { heap = h })))

  -- OP_BINARY_SUBSCRIPT: on an exception of mp_subscript the container stays on the stack.
  unfoldable pub subscript_handler : State → Result State
  subscript_handler m = do
    (o1, m₁) ← pop_object m
    (o2, _) ← pop_object m₁
    if O.is_subscriptable o2
        then store_or_fail (O.mp_subscript o2 o1 m.heap) m₁
        else set_top none (fail (set_message type_error (not_subscriptable o2) m₁))

  -- The loop of vm_cmp over the items of a tuple; -1 counts as a match.
  abbrev pub match_item : Answer Bool O.Obj O.Heap → (State → Bool × State) → State → Bool × State
  match_item (value true h) rest m = (true, record m { heap = h })
  match_item (value false h) rest m = rest (record m { heap = h })
  match_item (null e v h) rest m = (true, set_object e (some v) (record m { heap = h }))

  unfoldable pub match_items : List O.Obj → O.Obj → State → Bool × State
  match_items [] o m = (false, m)
  match_items (x ∷ xs) o m = match_item (O.compare_bool x o m.heap) (match_items xs o) m

  -- The case Cmp_EXC_MATCH of vm_cmp: `o1` must be a tuple.
  abbrev pub compared : O.Obj → O.Obj → State → Result State
  compared o1 o2 m = do
    items ← deref (O.tuple_items o1 m.heap)
    let (b, m₁) = match_items items o2 m
    set_top (some (O.bool_object b)) m₁

  -- OP_CMP with vm_cmp; an argument of 6 is Cmp_EXC_MATCH.
  unfoldable pub cmp_handler : State → Result State
  cmp_handler m = do
    (o1, m₁) ← pop_object m
    (o2, _) ← pop_object m₁
    (op, m₂) ← next_arg (code m) m₁
    if op == 6 then compared o1 o2 m₂ else store_or_fail (O.compare op o2 o1 m₂.heap) m₂

  abbrev pub load_found : State → O.Obj → State → Option O.Obj → Result State
  load_found m name m₁ (some x) = push (stack_size m) (some x) m₁
  load_found m name m₁ none = ok (fail (set_message name_error (not_defined name) m₁))

  -- OP_LOAD_NAME
  unfoldable pub load_name_handler : State → Result State
  load_name_handler m = do
    (i, m₁) ← next_arg (code m) m
    name ← deref (get_elem? (code m).co_names i)
    load_found m name m₁ (lookup_name name m₁)

  -- The loop of OP_DECLARE_FUNCTION over the local names: the last one that is equal gives the value.
  abbrev pub named_local :
      Answer Bool O.Obj O.Heap → Option O.Obj → Option O.Obj → State → Option O.Obj × State
  named_local (value true h) c v m = (c, record m { heap = h })
  named_local (value false h) c v m = (v, record m { heap = h })
  named_local (null e w h) c v m = (c, set_object e (some w) (record m { heap = h }))

  unfoldable pub local_named :
      List O.Obj → List (Option O.Obj) → O.Obj → Option O.Obj × State → Option O.Obj × State
  local_named [] cells name r = r
  local_named (n ∷ ns) [] name r = r
  local_named (n ∷ ns) (c ∷ cells) name (v, m) =
      local_named ns cells name (named_local (O.compare_bool n name m.heap) c v m)

  -- The value of an upvalue: a global or builtin name, or else a local.
  abbrev pub captured : O.Obj → State → Option O.Obj → Option O.Obj × State
  captured name m (some o) = (some o, m)
  captured name m none = local_named (code m).co_localnames m.frame.locals name (none, m)

  -- The loop of OP_DECLARE_FUNCTION over the upvalues, from the place `i` on.
  unfoldable pub fill_upvalues : O.Obj → ℕ → List O.Obj → State → State
  fill_upvalues f i [] m = m
  fill_upvalues f i (name ∷ names) m =
      let (v, m₁) = captured name m (lookup_name name m) in
      let (cell, h) = O.cell_new v m₁.heap in
      fill_upvalues f (suc i) names (record m₁ { heap = O.set_upvalue f i cell h })

  -- OP_DECLARE_FUNCTION
  unfoldable pub declare_handler : State → Result State
  declare_handler m = do
    (o1, m₁) ← pop_object m
    let (f, h) = O.function_new o1 m.heap
    let m₂ = fill_upvalues f 0 (O.code_of o1).co_upvals (record m₁ { heap = h })
    push (stack_size m) (some f) m₂

  -- `COList_Append` of the arguments from the last to the first, then SETLOCAL of the last place
  -- with the first of the list: `args` is the tuple, and the last argument comes first.
  unfoldable pub set_arguments : ℕ → List O.Obj → List (Option O.Obj) → Result (List (Option O.Obj))
  set_arguments i [] locals = ok locals
  set_arguments i (a ∷ args) locals = do
    rest ← set_arguments (suc i) args locals
    set_local i (some a) rest

  abbrev pub with_locals : List (Option O.Obj) → State → State
  with_locals locals m = record m { frame = record m.frame { locals = locals } }

  -- The label new_frame after a call. With no argument the count is not looked at.
  unfoldable pub enter : O.Obj → List O.Obj → State → Result State
  enter f [] m = ok m
  enter f (a ∷ args) m =
      let given = length (a ∷ args) in
      let count = (O.code_of_function f).co_argcount in
      if count == given
      then (set_arguments 0 (a ∷ args) m.frame.locals >>= λ locals. ok (with_locals locals m))
      else ok (fail (set_message value_error (takes_exactly count given) m))

  -- The frame that is left for a call or a return keeps its stack and its place in the code.
  abbrev pub save_frame : State → Frame O.Obj
  save_frame m = record m.frame { f_stacktop = m.stack; f_lasti = m.next_code }

  -- The result of a call in C; a NULL is pushed with no status set.
  abbrev pub push_answer : ℕ → Answer O.Obj O.Obj O.Heap → State → Result State
  push_answer size a m = let (c, m') = settle a m in push size c m'

  -- `COFrame_New` on top of the frame that is saved, and the jump to new_frame.
  abbrev pub call_frame : O.Obj → State → State
  call_frame f m = record m {
    func = f;
    frame = new_frame O f m.globals;
    f_prev = save_frame m ∷ m.f_prev;
    stack = [];
    next_code = 0;
  }

  abbrev pub call_kind : Callable → O.Obj → List O.Obj → State → Result State
  call_kind cfunction f args m = push_answer (stack_size m) (O.call_c f args m.heap) m
  call_kind other_callable f args m = push_answer (stack_size m) (O.call f args m.heap) m
  call_kind function f args m = enter f args (call_frame f m)

  -- OP_CALL_FUNCTION: the callee is on top and the arguments are below it. `oparg`, which the
  -- source counts down to -1, stays their number; the next instruction with an argument sets it.
  unfoldable pub call_handler : State → Result State
  call_handler m = do
    (o1, m₁) ← pop_object m
    (n, m₂) ← next_arg (code m) m₁
    (args, m₃) ← pop_items n m₂
    call_kind (O.callable o1) o1 args m₃

  -- The frame below goes on with the result on its stack; without one, vm_eval ends.
  abbrev pub return_to : List (Frame O.Obj) → Option O.Obj → State → Result (Next O.Obj O.Heap)
  return_to [] c m = do _ ← deref c; ok (exited m)
  return_to (f ∷ fs) c m = do
    m' ←
        push (O.code_of_function f.f_func).co_stacksize c
          (record m { frame = f; f_prev = fs; stack = f.f_stacktop; next_code = f.f_lasti })
    ok (running m')

  -- OP_RETURN; `func` stays that of the callee.
  unfoldable pub return_handler : State → Result (Next O.Obj O.Heap)
  return_handler m = do (c, m₁) ← pop m; return_to m.f_prev c m₁

  -- `error` on any other container ends the process.
  abbrev pub store_in : Container → O.Obj → O.Obj → O.Obj → State → Result State
  store_in list o3 o2 o1 m = ok (ignore (O.list_set_item o3 o2 o1 m.heap) m)
  store_in dict o3 o2 o1 m = ok (ignore (O.dict_set_item o3 o2 o1 m.heap) m)
  store_in other_container o3 o2 o1 m = raise system_error

  -- OP_STORE_SUBSCRIPT: the value, the subscript, and the container below them.
  unfoldable pub store_subscript_handler : State → Result State
  store_subscript_handler m = do
    (o1, m₁) ← pop_object m
    (o2, m₂) ← pop_object m₁
    (o3, m₃) ← pop_object m₂
    store_in (O.container o3) o3 o2 o1 m₃
