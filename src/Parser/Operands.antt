-- ===== src/Parser/Operands.antt =====
-- parse.c: constants and identifiers in expressions.
use calx.Base.{ℕ, ◌+◌, Bool, true, false, Option, none, some, length, ◌==◌, if◌then◌else◌}
use calx.Lexer.Kinds.{LexemeKind, Lexeme, same_kind}
use calx.Literal.Read.{Literal, ok, invalid_escape, fault, add_string_const, literal_body}
use calx.Number.Deci.{Deci}
use calx.Number.Text.Parse.{number_parse}
use calx.Parser.Resolve.{guard}
use calx.Parser.State.{
  M, ◌>>=◌, ◌>>◌, pure, gets, at, exhausted, throw_error_precise, add_const_steal, emit_at, advance,
  text, with_arg, load, uint32_max,
}
use calx.Str.Defs.{string_new_with_capacity}
use calx.Vm.State.{op_load_const, Instr}
use calx.Vm.Values.{num, flag, str, nil}
use calx.Parser.Operators.{this_is_expr}

-- add_string_const, with the reader of the literal
unfoldable pub string_const : ℕ → Lexeme → Option Literal → M ℕ
unfolding add_const_steal throw_error_precise string_new_with_capacity
string_const capacity token none p = exhausted
string_const capacity token (some (ok s)) p =
    add_const_steal (str (string_new_with_capacity s capacity)) p
string_const capacity token (some (invalid_escape offset)) p =
    throw_error_precise "invalid escape" token.line (token.column + offset) 1 p
string_const capacity token (some fault) p = at none p

-- The cases of the switch of `expr`; the last one is its default.
pub data ExprCase : Type 0 where
  load_number load_true load_false load_nil load_string load_ident : ExprCase
  lbracket lbrace lparen dot stops operator : ExprCase

unfoldable pub expr_case : LexemeKind → ExprCase
expr_case LexemeKind.lk_number = load_number
expr_case LexemeKind.lk_true = load_true
expr_case LexemeKind.lk_false = load_false
expr_case LexemeKind.lk_nil = load_nil
expr_case LexemeKind.lk_string = load_string
expr_case LexemeKind.lk_ident = load_ident
expr_case LexemeKind.lk_lbracket = lbracket
expr_case LexemeKind.lk_lbrace = lbrace
expr_case LexemeKind.lk_lparen = lparen
expr_case LexemeKind.lk_dot = dot
expr_case LexemeKind.lk_and_and_eq = stops
expr_case LexemeKind.lk_and_eq = stops
expr_case LexemeKind.lk_comma = stops
expr_case LexemeKind.lk_eof = stops
expr_case LexemeKind.lk_eq = stops
expr_case LexemeKind.lk_colon = stops
expr_case LexemeKind.lk_hat_eq = stops
expr_case LexemeKind.lk_minus_eq = stops
expr_case LexemeKind.lk_or_eq = stops
expr_case LexemeKind.lk_or_or_eq = stops
expr_case LexemeKind.lk_percent_eq = stops
expr_case LexemeKind.lk_plus_eq = stops
expr_case LexemeKind.lk_semicolon = stops
expr_case LexemeKind.lk_slash_eq = stops
expr_case LexemeKind.lk_slash_slash_eq = stops
expr_case LexemeKind.lk_star_eq = stops
expr_case LexemeKind.lk_star_star_eq = stops
expr_case LexemeKind.lk_tilde_eq = stops
expr_case LexemeKind.lk_colon_eq = stops
expr_case LexemeKind.lk_rparen = stops
expr_case LexemeKind.lk_rbracket = stops
expr_case LexemeKind.lk_rbrace = stops
expr_case LexemeKind.lk_greater_greater_eq = stops
expr_case LexemeKind.lk_less_less_eq = stops
expr_case _ = operator

-- what stands behind an element of a list: the closing bracket, a comma or neither
pub data Separator : Type 0 where
  closing comma other : Separator

unfoldable pub separator : LexemeKind → LexemeKind → Separator
separator close k =
    if same_kind k close then closing else if same_kind k LexemeKind.lk_comma then comma else other

unfoldable pub by_separator : {A : Type 0} → Separator → M A → M A → M A → M A
by_separator closing m n o = m
by_separator comma m n o = n
by_separator other m n o = o

-- the element's number is counted, unless it is too great for 32 bits
abbrev pub count_to : ℕ → M (Unit {0}) → M (Unit {0})
count_to n m = guard (n == uint32_max) m

module _ (d : Deci) (bits : ℕ) where
  -- The constants, and the identifiers: the instruction that loads them.
  unfoldable pub load_case : ExprCase → Lexeme → M Instr
  unfolding add_const_steal string_const add_string_const load number_parse
  load_case load_number cur = do
    s ← gets (λ p. text p cur)
    i ← add_const_steal (num (number_parse d bits s))
    pure (with_arg op_load_const i)
  load_case load_true cur = do i ← add_const_steal (flag true); pure (with_arg op_load_const i)
  load_case load_false cur = do i ← add_const_steal (flag false); pure (with_arg op_load_const i)
  load_case load_nil cur = do i ← add_const_steal nil; pure (with_arg op_load_const i)
  load_case load_string cur = do
    s ← gets (λ p. literal_body (text p cur))
    i ← string_const (length s) cur (add_string_const s)
    pure (with_arg op_load_const i)
  load_case _ cur = load cur

  -- one of the first six cases
  unfoldable pub operand : ExprCase → Bool → Lexeme → M (Option Bool)
  unfolding this_is_expr load_case emit_at advance
  operand c expect_expr cur = do
    this_is_expr expect_expr
    instr ← load_case c cur
    emit_at instr cur
    advance
    pure (some false)
