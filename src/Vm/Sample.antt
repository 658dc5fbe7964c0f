-- ===== src/Vm/Sample.antt =====
-- Objects for runs of the evaluation loop: integers with the operations of BigInt, and two
-- functions with their code.
use cobj.Prelude.{ℕ, List, [], ◌∷◌, Bool, true, false, not, ◌==◌, get_or, none}
use cobj.Prelude.Int.{pos}
use cobj.Prelude.Result.{Result, ok, raise, undefined, type_error, undefined_error, value_error}
use cobj.BigInt.{IntObject, size}
use cobj.BigInt.Long.{from_long}
use cobj.BigInt.Arith.{add_ints, sub_ints, int_neg, int_invert}
use cobj.BigInt.Multiply.{mul_ints}
use cobj.BigInt.Divide.{int_div, int_mod}
use cobj.Vm.Objects.{
  Objects, Answer, value, null, Code, Callable, function, other_callable, other_container,
}

pub data Object : Type 0 where
  none_value : Object
  bool_value : Bool → Object
  int_value : IntObject → Object
  function_value : ℕ → Object

abbrev pub number : ℕ → Object
number n = int_value (from_long (pos n))

-- 0: `f(7)` and its result returned; 1: a function that returns its argument.
abbrev pub code_of_number : ℕ → Code Object
code_of_number n = get_or codes n empty
  where
    empty : Code Object
    empty = record {
      co_code = [];
      co_consts = [];
      co_names = [];
      co_localnames = [];
      co_upvals = [];
      co_argcount = 0;
      co_stacksize = 0;
    }

    codes : List (Code Object)
    codes =
        (record empty {
          co_code = 23 ∷ 0 ∷ 0 ∷ 23 ∷ 1 ∷ 0 ∷ 19 ∷ 1 ∷ 0 ∷ 18 ∷ [];
          co_consts = number 7 ∷ function_value 1 ∷ [];
          co_stacksize = 2;
        })
        ∷ (record empty {
          co_code = 39 ∷ 0 ∷ 0 ∷ 18 ∷ [];
          co_localnames = number 0 ∷ [];
          co_argcount = 1;
          co_stacksize = 1;
        })
        ∷ []

abbrev pub code_of_object : Object → Code Object
code_of_object (function_value n) = code_of_number n
code_of_object _ = code_of_number 2

abbrev kind_of : Object → Callable
kind_of (function_value n) = function
kind_of _ = other_callable

abbrev answer : Result IntObject → Unit {0} → Answer Object Object (Unit {0})
answer (ok i) h = value (int_value i) h
answer (raise e) h = null e none_value h
answer undefined h = null value_error none_value h

abbrev unary : (IntObject → Result IntObject) → Object → Unit {0} → Answer Object Object (Unit {0})
unary f (int_value a) h = answer (f a) h
unary f _ h = null type_error none_value h

abbrev binary :
    (IntObject → IntObject → Result IntObject)
    → Object
    → Object
    → Unit {0}
    → Answer Object Object (Unit {0})
binary f (int_value a) (int_value b) h = answer (f a b) h
binary f _ _ h = null undefined_error none_value h

abbrev none_of : Object → Bool
none_of none_value = true
none_of _ = false

abbrev is_bool : Bool → Object → Bool
is_bool true (bool_value true) = true
is_bool false (bool_value false) = true
is_bool _ _ = false

abbrev truth : Object → Bool
truth (int_value a) = not (size a == 0)
truth none_value = false
truth _ = true

abbrev pub sample : Objects
sample = record {
  Obj = Object;
  Heap = Unit {0};
  builtins = none_value;
  none_object = none_value;
  is_none = none_of;
  is_true_object = is_bool true;
  is_false_object = is_bool false;
  is_str = λ o. false;
  message = λ t h. (none_value, h);
  int_add = binary (λ a b. ok (add_ints a b));
  int_sub = binary (λ a b. ok (sub_ints a b));
  int_mul = binary (λ a b. ok (mul_ints false a b));
  int_div = binary int_div;
  int_mod = binary int_mod;
  int_lshift = λ a b h. null type_error none_value h;
  int_rshift = λ a b h. null type_error none_value h;
  int_neg = unary (λ a. ok (int_neg a));
  int_invert = unary (λ a. ok (int_invert a));
  str_concat = λ a b h. null type_error none_value h;
  is_subscriptable = λ o. false;
  mp_subscript = λ a b h. null type_error none_value h;
  compare = λ op a b h. null type_error none_value h;
  compare_bool = λ a b h. value false h;
  bool_object = bool_value;
  is_true = λ o h. value (truth o) h;
  get_iter = λ o h. null type_error none_value h;
  iternext = λ o h. (none, h);
  tuple_items = λ o h. none;
  tuple_new = λ os h. (none_value, h);
  list_new = λ os h. (none_value, h);
  dict_new = λ h. (none_value, h);
  container = λ o. other_container;
  dict_get_item = λ d k h. none;
  dict_set_item = λ d k v h. value tt h;
  list_set_item = λ d k v h. value tt h;
  callable = kind_of;
  code_of_function = code_of_object;
  code_of = code_of_object;
  call_c = λ f args h. null type_error none_value h;
  call = λ f args h. null type_error none_value h;
  function_new = λ c h. (none_value, h);
  upvalues = λ f h. [];
  set_upvalue = λ f i c h. h;
  cell_new = λ v h. (none_value, h);
  cell_get = λ c h. none;
  cell_set = λ c v h. h;
}
