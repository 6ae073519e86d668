-- ===== src/Parser.antt =====
-- parse.c, parse.h: the parser, which is the code generator too.
pub mod State
pub mod Scope
pub mod Resolve
pub mod Functions
pub mod Operators
pub mod Operands
pub mod Calls
pub mod Expr
pub mod Rotate
pub mod Jump
pub mod Assign
pub mod Params
pub mod Stmt
pub mod Main
pub mod Fuel
