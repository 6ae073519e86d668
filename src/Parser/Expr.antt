-- ===== src/Parser/Expr.antt =====
-- parse.c: `expr`. A loop is on fuel, and so is the depth of expressions.
use calx.Base.{ℕ, zero, suc, Bool, true, false, Option, none, some, if◌then◌else◌, not}
use calx.Lexer.Kinds.{LexemeKind, Lexeme, same_kind}
use calx.Number.Deci.{Deci}
use calx.Parser.Resolve.{guard}
use calx.Parser.State.{
  cur_lexeme, M, ◌>>=◌, ◌>>◌, pure, gets, exhausted, throw_error_at, add_const_steal, emit_at,
  advance, slurp, text, with_arg, plain,
}
use calx.Str.Defs.{string_new}
use calx.Vm.State.{op_load_const, op_load_at, op_list, op_dict, op_call}
use calx.Vm.Values.{str}
use calx.Parser.Operators.{this_is_expr, after_expr}
use calx.Parser.Operands.{
  ExprCase, expr_case, operand, lbracket, lbrace, lparen, dot, stops, operator,
}
use calx.Parser.Calls.{unary_operator, binary_operator, funcall, newlist, newdict}

-- what a round of the loop of `expr` says
unfoldable pub then_round : Option Bool → (Bool → M (Unit {0})) → M (Unit {0})
then_round none again = pure tt
then_round (some expect) again = again expect

module _ (d : Deci) (bits : ℕ) (expr : ℕ → M (Unit {0})) (fuel : ℕ) where
  -- `expected` tells whether an operand is due
  unfoldable pub bracket_case : Bool → Lexeme → M (Option Bool)
  unfolding newlist emit_at advance slurp
  bracket_case true cur = do
    nelems ← newlist expr fuel
    emit_at (with_arg op_list nelems) cur
    pure (some false)
  bracket_case false cur = do
    advance
    expr 0
    slurp LexemeKind.lk_rbracket "expected ']'"
    emit_at (plain op_load_at) cur
    pure (some false)

  unfoldable pub paren_case : Bool → Lexeme → M (Option Bool)
  unfolding funcall emit_at advance slurp
  paren_case true cur = do
    advance
    expr 0
    slurp LexemeKind.lk_rparen "expected ')'"
    pure (some false)
  paren_case false cur = do
    r ← funcall expr fuel
    emit_at (record { opcode = op_call; a = if r.1 then 1 else 0; c = r.0 }) cur
    pure (some false)

  unfoldable pub brace_case : Bool → Lexeme → M (Option Bool)
  unfolding this_is_expr newdict emit_at
  brace_case expect_expr cur = do
    this_is_expr expect_expr
    nentries ← newdict expr fuel
    emit_at (with_arg op_dict nentries) cur
    pure (some false)

  unfoldable pub dot_case : Bool → M (Option Bool)
  unfolding after_expr advance cur_lexeme guard throw_error_at add_const_steal emit_at string_new
  dot_case expect_expr = do
    after_expr expect_expr
    advance
    field ← cur_lexeme
    guard (not (same_kind field.kind LexemeKind.lk_ident))
        (throw_error_at "expected identifier (field name)" field)
    s ← gets (λ p. text p field)
    const_idx ← add_const_steal (str (string_new s))
    emit_at (with_arg op_load_const const_idx) field
    emit_at (plain op_load_at) field
    advance
    pure (some expect_expr)

  unfoldable pub operator_case : ℕ → Bool → M (Option Bool)
  unfolding unary_operator binary_operator
  operator_case min_priority true = do unary_operator expr; pure (some false)
  operator_case min_priority false = do
    found ← binary_operator expr min_priority
    pure (if found then some false else none)

  -- One round of the loop of `expr`, which returns or goes on with expect_expr.
  unfoldable pub expr_round : ExprCase → ℕ → Bool → Lexeme → M (Option Bool)
  unfolding operand bracket_case paren_case brace_case dot_case operator_case after_expr
  expr_round lbracket min_priority expect_expr cur = bracket_case expect_expr cur
  expr_round lbrace min_priority expect_expr cur = brace_case expect_expr cur
  expr_round lparen min_priority expect_expr cur = paren_case expect_expr cur
  expr_round dot min_priority expect_expr cur = dot_case expect_expr
  expr_round stops min_priority expect_expr cur = do after_expr expect_expr; pure none
  expr_round operator min_priority expect_expr cur = operator_case min_priority expect_expr
  expr_round c min_priority expect_expr cur = operand d bits c expect_expr cur

  unfoldable pub expr_loop : ℕ → ℕ → Bool → M (Unit {0})
  unfolding expr_round cur_lexeme expr_case then_round
  expr_loop zero min_priority expect_expr p = exhausted
  expr_loop (suc rounds) min_priority expect_expr p =
      (do
        cur ← cur_lexeme
        go_on ← expr_round (expr_case cur.kind) min_priority expect_expr cur
        then_round go_on (expr_loop rounds min_priority))
        p

-- The depth of the expressions and the rounds of a loop are limited by the fuel.
unfoldable pub expr : Deci → ℕ → ℕ → ℕ → M (Unit {0})
unfolding expr_loop
expr d bits zero min_priority p = exhausted
expr d bits (suc fuel) min_priority p =
    expr_loop d bits (expr d bits fuel) (suc fuel) (suc fuel) min_priority true p
