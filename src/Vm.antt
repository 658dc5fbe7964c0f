-- ===== src/Vm.antt =====
-- vm.c, with objects/frameobject.c and the error state of error.c: the evaluation loop, one
-- instruction after the other. The objects are reached through an interface.
pub mod Opcode
pub mod Objects
pub mod Machine
pub mod Operands
pub mod Handlers
pub mod Step
pub mod Unwind
pub mod Calls
pub mod Shape
pub mod Invariant
pub mod Sample
mod Tests
