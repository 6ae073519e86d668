-- ===== src/Number/Compare.antt =====
-- number.c: the order of numbers.
pub mod Defs
pub mod Spans
pub mod Order
