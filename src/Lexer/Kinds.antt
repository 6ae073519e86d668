-- ===== src/Lexer/Kinds.antt =====
-- lexer.h: the kinds of lexemes, and a lexeme with its place in the source.
use calx.Base.{ℕ, Bool, ◌==◌}

pub data LexemeKind : Type 0 where
  lk_and lk_and_and lk_and_and_eq lk_and_eq lk_at lk_bang lk_bang_eq lk_break lk_comma : LexemeKind
  lk_continue lk_dot lk_elif lk_else lk_eof lk_colon lk_colon_eq lk_eq lk_eq_eq lk_error :
      LexemeKind
  lk_false lk_for lk_fun lk_greater lk_greater_eq lk_greater_greater : LexemeKind
  lk_greater_greater_eq lk_hat lk_hat_eq lk_ident lk_if lk_lbrace lk_lbracket lk_less : LexemeKind
  lk_less_eq lk_less_less lk_less_less_eq lk_lparen lk_minus lk_minus_eq lk_minus_greater :
      LexemeKind
  lk_nil lk_number lk_or lk_or_eq lk_or_or lk_or_or_eq lk_percent lk_percent_eq lk_plus : LexemeKind
  lk_plus_eq lk_rbrace lk_rbracket lk_return lk_rparen lk_semicolon lk_slash lk_slash_eq :
      LexemeKind
  lk_slash_slash lk_slash_slash_eq lk_star lk_star_eq lk_star_star lk_star_star_eq : LexemeKind
  lk_string lk_tilde lk_tilde_eq lk_true lk_while : LexemeKind

-- `start` is an offset into the source; `line` and `column` are the position of position.h
pub record Lexeme : Type 0 where
  pub kind : LexemeKind
  pub start : ℕ
  pub size : ℕ
  pub line : ℕ
  pub column : ℕ

-- the value of the enumerator
unfoldable pub kind_index : LexemeKind → ℕ
kind_index LexemeKind.lk_and = 0
kind_index LexemeKind.lk_and_and = 1
kind_index LexemeKind.lk_and_and_eq = 2
kind_index LexemeKind.lk_and_eq = 3
kind_index LexemeKind.lk_at = 4
kind_index LexemeKind.lk_bang = 5
kind_index LexemeKind.lk_bang_eq = 6
kind_index LexemeKind.lk_break = 7
kind_index LexemeKind.lk_comma = 8
kind_index LexemeKind.lk_continue = 9
kind_index LexemeKind.lk_dot = 10
kind_index LexemeKind.lk_elif = 11
kind_index LexemeKind.lk_else = 12
kind_index LexemeKind.lk_eof = 13
kind_index LexemeKind.lk_colon = 14
kind_index LexemeKind.lk_colon_eq = 15
kind_index LexemeKind.lk_eq = 16
kind_index LexemeKind.lk_eq_eq = 17
kind_index LexemeKind.lk_error = 18
kind_index LexemeKind.lk_false = 19
kind_index LexemeKind.lk_for = 20
kind_index LexemeKind.lk_fun = 21
kind_index LexemeKind.lk_greater = 22
kind_index LexemeKind.lk_greater_eq = 23
kind_index LexemeKind.lk_greater_greater = 24
kind_index LexemeKind.lk_greater_greater_eq = 25
kind_index LexemeKind.lk_hat = 26
kind_index LexemeKind.lk_hat_eq = 27
kind_index LexemeKind.lk_ident = 28
kind_index LexemeKind.lk_if = 29
kind_index LexemeKind.lk_lbrace = 30
kind_index LexemeKind.lk_lbracket = 31
kind_index LexemeKind.lk_less = 32
kind_index LexemeKind.lk_less_eq = 33
kind_index LexemeKind.lk_less_less = 34
kind_index LexemeKind.lk_less_less_eq = 35
kind_index LexemeKind.lk_lparen = 36
kind_index LexemeKind.lk_minus = 37
kind_index LexemeKind.lk_minus_eq = 38
kind_index LexemeKind.lk_minus_greater = 39
kind_index LexemeKind.lk_nil = 40
kind_index LexemeKind.lk_number = 41
kind_index LexemeKind.lk_or = 42
kind_index LexemeKind.lk_or_eq = 43
kind_index LexemeKind.lk_or_or = 44
kind_index LexemeKind.lk_or_or_eq = 45
kind_index LexemeKind.lk_percent = 46
kind_index LexemeKind.lk_percent_eq = 47
kind_index LexemeKind.lk_plus = 48
kind_index LexemeKind.lk_plus_eq = 49
kind_index LexemeKind.lk_rbrace = 50
kind_index LexemeKind.lk_rbracket = 51
kind_index LexemeKind.lk_return = 52
kind_index LexemeKind.lk_rparen = 53
kind_index LexemeKind.lk_semicolon = 54
kind_index LexemeKind.lk_slash = 55
kind_index LexemeKind.lk_slash_eq = 56
kind_index LexemeKind.lk_slash_slash = 57
kind_index LexemeKind.lk_slash_slash_eq = 58
kind_index LexemeKind.lk_star = 59
kind_index LexemeKind.lk_star_eq = 60
kind_index LexemeKind.lk_star_star = 61
kind_index LexemeKind.lk_star_star_eq = 62
kind_index LexemeKind.lk_string = 63
kind_index LexemeKind.lk_tilde = 64
kind_index LexemeKind.lk_tilde_eq = 65
kind_index LexemeKind.lk_true = 66
kind_index LexemeKind.lk_while = 67

abbrev pub same_kind : LexemeKind → LexemeKind → Bool
same_kind j k = kind_index j == kind_index k
