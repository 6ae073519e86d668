-- ===== src/Tests.antt =====
-- The properties at concrete inputs.
mod Decimal
mod Spans
mod Quotients
mod Machine
mod Lexing
mod Numbers
mod Strings
mod Programs
