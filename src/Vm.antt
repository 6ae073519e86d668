-- ===== src/Vm.antt =====
-- vm.c, vm.h: values, the operations on them, calls, and the steps of the machine.
pub mod Values
pub mod Aop
pub mod Elements
pub mod State
pub mod Call
pub mod Step
pub mod Arithmetic
pub mod Frames
pub mod Trace
