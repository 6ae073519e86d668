-- ===== src/Number.antt =====
-- number.c, number.h: decimal numbers as a sign, a list of base-10^k words with the least
-- significant one first, and a count of words behind the decimal point.
pub mod Words
pub mod Deci
pub mod Defs
pub mod Add
pub mod Convert
pub mod Compare
pub mod Text
pub mod Round
pub mod Fancy
pub mod Mul
pub mod Div
pub mod Scale
pub mod Radix
