-- ===== src/Number/Convert.antt =====
-- number.c, number.h: numbers from and to machine integers, and the bit operations.
pub mod Defs
pub mod New
pub mod Read
pub mod Bits
