-- ===== src/Vm/Opcode.antt =====
-- opcode.h: the instructions and their numbers.
use cobj.Prelude.{ℕ, List, [], ◌∷◌, Option, get_elem?}

pub data OpCode : Type 0 where
  nop binary_add binary_sub binary_mul binary_div binary_mod binary_pow binary_sl : OpCode
  binary_sr binary_subscript cmp unary_negate unary_invert store_name jmpz jmp jmpx : OpCode
  declare_function return_ call_function setup_try throw load_name load_const : OpCode
  build_tuple build_list dict_build dict_add setup_loop pop_block break_loop : OpCode
  continue_loop pop_try dup_top pop_top end_try setup_finally end_finally : OpCode
  store_subscript load_local load_upval store_upval store_local get_iter for_iter : OpCode

-- The enum in its order.
abbrev pub opcodes : List OpCode
opcodes =
    nop ∷ binary_add ∷ binary_sub ∷ binary_mul ∷ binary_div ∷ binary_mod ∷ binary_pow ∷ binary_sl
    ∷ binary_sr ∷ binary_subscript ∷ cmp ∷ unary_negate ∷ unary_invert ∷ store_name ∷ jmpz ∷ jmp
    ∷ jmpx ∷ declare_function ∷ return_ ∷ call_function ∷ setup_try ∷ throw ∷ load_name ∷ load_const
    ∷ build_tuple ∷ build_list ∷ dict_build ∷ dict_add ∷ setup_loop ∷ pop_block ∷ break_loop
    ∷ continue_loop ∷ pop_try ∷ dup_top ∷ pop_top ∷ end_try ∷ setup_finally ∷ end_finally
    ∷ store_subscript ∷ load_local ∷ load_upval ∷ store_upval ∷ store_local ∷ get_iter ∷ for_iter
    ∷ []

-- `switch (opcode)` on a byte
abbrev pub decode : ℕ → Option OpCode
decode byte = get_elem? opcodes byte
