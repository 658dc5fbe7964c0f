-- ===== src/Lib.antt =====
-- The cobj interpreter: the integers, strings, lists, sets and dictionaries that it computes with, the
-- collector that frees their cycles, the virtual machine, the assembler that writes its code, and the
-- marshalling of objects.
--
-- The parts and the files that model them:
--
--   objects/intobject.c, objects/intobject.h: integers of arbitrary precision in base 2 ^ 30.
--     BigInt is the representation (COIntObject as a sign and digits), BigInt/Normalize is
--     int_normalize and NEGATE, BigInt/Compare is int_cmp and int_compare, BigInt/Magnitude is x_add
--     and x_sub, BigInt/Multiply is x_mul and int_mul, BigInt/Long is COInt_FromLong and
--     COInt_AsLong, BigInt/Arith is int_add, int_sub, int_neg and int_invert,
--     BigInt/Divide is int_divrem with x_divrem and the helpers that they call, and BigInt/Shift is
--     int_lshift, int_rshift and int_hash.
--   objects/listobject.c: ListObject, the items over the cells that are allocated.
--   objects/setobject.c: SetObject, an open-addressed table of 8 slots.
--   objects/dictobject.c: DictObject, chained buckets in the order of their insertion.
--   object.c: Hashing, what sets and dictionaries use of COObject_Hash and COObject_CompareBool.
--     The keys are a parameter of those two modules; Hashing/Numbers is an instance of it for runs.
--   objects/rangeobject.c, objects/rangeiterobject.c: RangeObject, the length of a range of C longs and
--     the values of its iterator.
--   gc.c: Gc, the collector of cycles over numbered objects; tp_traverse and tp_clear are parameters.
--   vm.c, objects/frameobject.c, opcode.h, error.c: Vm, the evaluation loop. Vm/Opcode has the opcodes,
--     Vm/Objects the interface of the objects that the loop works on, Vm/Machine the frames, the blocks
--     and fast_end, Vm/Operands the macros, Vm/Handlers and Vm/Step the cases of the switch. The objects
--     are a parameter of these; Vm/Sample is an instance of the interface on the integers of BigInt.
--   compile.c: Assembler, from blocks of instructions to the bytes that Vm reads.
--   arena.c: Arena, the blocks from which the parser takes its nodes; an address that malloc gives is an
--     argument.
--   marshal.c: Marshal, objects as bytes. Marshal/Objects has the objects as trees with addresses,
--     Marshal/Words the longs, Marshal/Writer what marshal calls, and Marshal/Reader what unmarshal
--     calls; Marshal/Memory and Marshal/Leaf have the theorems. The two dictionaries `objects` are
--     those of DictObject with ints as keys (Marshal/Known), and what CODict_SetItem does to the pairs
--     of a dictionary that is read is a parameter.
--   objects/strobject.c: StrObject, strings of bytes. The hash is there, StrObject/Compare is str_compare,
--     StrObject/Join is str_concat and str_join, and StrObject/Repr is str_repr.
--   objects/tupleobject.c: TupleObject, the cells of a tuple and the operations on them.
--   Prelude: names of the libraries, lists and integers over the native numbers, and the result of
--     an operation that can fail.
--
-- A function is modelled from its arguments to what it returns and leaves behind. An exception is
-- `raise`, with the kind of the exception; what C leaves undefined (an access outside an allocation, a
-- failed assertion, a loop that does not end) is `undefined`. In Vm an exception is part of the state,
-- and `raise` stands for a call of `error`, which ends the process. Words wrap where the source computes in
-- uint32_t, uint64_t or unsigned long. A test on pointers (`a == b`) is an argument `same`, since the
-- models have values and no addresses. A loop on an array is a recursion on its digits, its cells or
-- its index. Four loops of the containers and the collector run on fuel: the probe of a set, for which
-- 22 rounds are enough, since 13 shifts take a 64-bit perturbation to 0 and 8 more rounds see every
-- slot; the walk along a chain of a dictionary, for which one round more than there are buckets is enough, since a chain leads to
-- ever older buckets; the loop of move_unreachable, on three times as many rounds as the generation
-- has objects, since an object is at most moved, marked and scanned; and the loop of delete_garbage, on
-- as many rounds as there are objects to clear, since every round takes one off the list.
-- Two loops of the integers run on fuel as well: that of bits_in_digit on 5 rounds, since a digit has 32
-- bits and a round takes off 6, and the correction of a quotient digit in x_divrem on 3 rounds, since it
-- ends after two. The evaluation loop has no fuel: a round is `step`, and the loop is the relation Reach.
-- r_object takes a byte at least for each call, so that its fuel, the number of bytes and one, is
-- enough. The loop of str_hash runs on as
-- many rounds as there are bytes, of which it needs an eighth.
--
-- Not modelled: allocation failures, reference counts of the items (CO_INCREF, CO_DECREF), the error
-- state of the thread outside Vm beside what a function returns, printing, the free list of
-- intobject.c, conversions of integers with text, the shared short strings, and of the compiler what comes before the assembler. The parser and the scanner are generated code.
pub mod Arena
pub mod Assembler
pub mod BigInt
pub mod DictObject
pub mod Gc
pub mod Hashing
pub mod ListObject
pub mod Marshal
pub mod Prelude
pub mod RangeObject
pub mod SetObject
pub mod StrObject
pub mod TupleObject
pub mod Vm
