-- ===== src/Number/Round.antt =====
-- number.c: rounding to an integer, the fraction, and counts of digits.
pub mod Defs
pub mod Parts
pub mod Increment
pub mod Whole
pub mod Half
