-- ===== src/Marshal/Objects.antt =====
-- The objects that marshal.c writes: a tree whose nodes carry the address of their object.
use cobj.Prelude.{ℕ, suc, List}
use cobj.BigInt.{IntObject}

mutual
  -- An object with its address; that of NULL is 0.
  pub data Object : Type 0 where
    node : ℕ → Value → Object

  -- `code_value` has the objects of a code in the order of COCode_New, `co_argcount` and
  -- `co_stacksize`. `other_value` is an object of any other type.
  pub data Value : Type 0 where
    null_value none_value false_value true_value float_value other_value : Value
    int_value : IntObject → Value
    str_value : List ℕ → Value
    bytes_value : List ℕ → Value
    list_value : Objects → Value
    tuple_value : Objects → Value
    dict_value : Pairs → Value
    code_value : Objects → ℕ → ℕ → Value

  pub data Objects : Type 0 where
    nil : Objects
    cons : Object → Objects → Objects

  pub data Pairs : Type 0 where
    end : Pairs
    pair : Object → Object → Pairs → Pairs

abbrev pub count : Objects → ℕ
count nil = 0
count (cons o os) = suc (count os)
