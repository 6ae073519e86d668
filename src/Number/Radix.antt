-- ===== src/Number/Radix.antt =====
-- number.c: numbers in other bases.
pub mod Defs
pub mod Add
pub mod Text
pub mod Parse
