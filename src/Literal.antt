-- ===== src/Literal.antt =====
-- String literals: vm.c prints a string inside a list or a dict escaped and in quotes, and parse.c
-- reads the body of a literal that the lexer has delimited.
pub mod Write
pub mod Read
pub mod RoundTrip
pub mod Ends
