-- ===== src/Vm/Objects.antt =====
-- What the evaluation loop uses of the objects: the slots of their types and the functions of
-- object.c and objects/ that vm.c calls.
use cobj.Prelude.{ℕ, List, Bool, Option}
use cobj.Prelude.Result.{Exception}

-- What a function gives back: a value, or NULL (or -1) with the exception it has set.
pub data Answer (A O H : Type 0) : Type 0 where
  value : A → H → Answer A O H
  null : Exception → O → H → Answer A O H

-- COCodeObject, with its tuples as lists; `co_localnames` are the names of the locals.
pub record Code (O : Type 0) : Type 0 where
  pub co_code : List ℕ
  pub co_consts : List O
  pub co_names : List O
  pub co_localnames : List O
  pub co_upvals : List O
  pub co_argcount : ℕ
  pub co_stacksize : ℕ

-- COCFunction_Check, COFunction_Check, and every other object
pub data Callable : Type 0 where
  cfunction function other_callable : Callable

-- COList_Check, CODict_Check, and every other object
pub data Container : Type 0 where
  list dict other_container : Container

-- The texts that COErr_Format and COErr_SetString make.
pub data Message (O : Type 0) : Type 0 where
  not_defined not_subscriptable text_of : O → Message O
  takes_exactly : ℕ → ℕ → Message O

pub record Objects : Type 1 where
  pub Obj : Type 0
  -- Everything that an object holds and that an operation may change.
  pub Heap : Type 0
  pub builtins : Obj
  pub none_object : Obj
  pub is_none : Obj → Bool
  pub is_true_object : Obj → Bool
  pub is_false_object : Obj → Bool
  pub is_str : Obj → Bool
  pub message : Message Obj → Heap → Obj × Heap
  -- tp_int_interface of COInt_Type, and COStr_Concat
  pub int_add : Obj → Obj → Heap → Answer Obj Obj Heap
  pub int_sub : Obj → Obj → Heap → Answer Obj Obj Heap
  pub int_mul : Obj → Obj → Heap → Answer Obj Obj Heap
  pub int_div : Obj → Obj → Heap → Answer Obj Obj Heap
  pub int_mod : Obj → Obj → Heap → Answer Obj Obj Heap
  pub int_lshift : Obj → Obj → Heap → Answer Obj Obj Heap
  pub int_rshift : Obj → Obj → Heap → Answer Obj Obj Heap
  pub int_neg : Obj → Heap → Answer Obj Obj Heap
  pub int_invert : Obj → Heap → Answer Obj Obj Heap
  pub str_concat : Obj → Obj → Heap → Answer Obj Obj Heap
  -- tp_mapping_interface, tp_compare, tp_iter, tp_iternext and truth
  pub is_subscriptable : Obj → Bool
  pub mp_subscript : Obj → Obj → Heap → Answer Obj Obj Heap
  pub compare : ℕ → Obj → Obj → Heap → Answer Obj Obj Heap
  pub compare_bool : Obj → Obj → Heap → Answer Bool Obj Heap
  pub bool_object : Bool → Obj
  pub is_true : Obj → Heap → Answer Bool Obj Heap
  pub get_iter : Obj → Heap → Answer Obj Obj Heap
  pub iternext : Obj → Heap → Option Obj × Heap
  -- Containers
  pub tuple_items : Obj → Heap → Option (List Obj)
  pub tuple_new : List Obj → Heap → Obj × Heap
  pub list_new : List Obj → Heap → Obj × Heap
  pub dict_new : Heap → Obj × Heap
  pub container : Obj → Container
  pub dict_get_item : Obj → Obj → Heap → Option Obj
  pub dict_set_item : Obj → Obj → Obj → Heap → Answer Unit Obj Heap
  pub list_set_item : Obj → Obj → Obj → Heap → Answer Unit Obj Heap
  -- Functions, their code and their upvalues
  pub callable : Obj → Callable
  pub code_of_function : Obj → Code Obj
  pub code_of : Obj → Code Obj
  pub call_c : Obj → List Obj → Heap → Answer Obj Obj Heap
  pub call : Obj → List Obj → Heap → Answer Obj Obj Heap
  pub function_new : Obj → Heap → Obj × Heap
  pub upvalues : Obj → Heap → List Obj
  pub set_upvalue : Obj → ℕ → Obj → Heap → Heap
  pub cell_new : Option Obj → Heap → Obj × Heap
  pub cell_get : Obj → Heap → Option Obj
  pub cell_set : Obj → Obj → Heap → Heap
