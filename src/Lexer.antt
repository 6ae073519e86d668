-- ===== src/Lexer.antt =====
-- lexer.c, lexer.h, position.h: the lexer. `Kinds` has the lexemes, `Levels` the stack of bracket
-- levels, `Scan` the loops over one lexeme, `Token` the lexer's state and `lexer_next`; the other
-- children hold the lemmas.
pub mod Kinds
pub mod Levels
pub mod Scan
pub mod Token
pub mod Bounds
pub mod Next
pub mod Loop
pub mod Context
