-- ===== src/Parser/Calls.antt =====
-- parse.c: operators, calls, lists and dicts. What is called for an expression inside is an argument,
-- `expr`; a loop is on fuel.
use calx.Base.{ℕ, zero, suc, ◌+◌, Bool, true, false, Option, none, some, ltb, if◌then◌else◌}
use calx.Lexer.Kinds.{LexemeKind, Lexeme, same_kind}
use calx.Parser.Resolve.{guard}
use calx.Parser.State.{
  cur_lexeme, M, ◌>>=◌, ◌>>◌, pure, exhausted, throw_error_at, emit_at, advance, slurp, plain,
}
use calx.Vm.State.{Opcode}
use calx.Parser.Operators.{unary_table, BinaryOpProps, binary_table}
use calx.Parser.Operands.{separator, by_separator, count_to}

module _ (expr : ℕ → M (Unit {0})) where
  unfoldable pub unary_by : Option (Opcode × ℕ) → Lexeme → M (Unit {0})
  unfolding throw_error_at advance emit_at
  unary_by none cur = throw_error_at "syntax error" cur
  unary_by (some props) cur = do advance; expr props.1; emit_at (plain props.0) cur

  unfoldable pub unary_operator : M (Unit {0})
  unfolding cur_lexeme unary_by unary_table
  unary_operator = do cur ← cur_lexeme; unary_by (unary_table cur.kind) cur

  unfoldable pub apply_binary : BinaryOpProps → Lexeme → M Bool
  unfolding advance emit_at
  apply_binary props cur = do
    advance
    expr (props.priority + props.right)
    emit_at props.instr cur
    pure true

  unfoldable pub binary_by : Option BinaryOpProps → ℕ → Lexeme → M Bool
  unfolding throw_error_at apply_binary
  binary_by none min_priority cur = throw_error_at "syntax error" cur
  binary_by (some props) min_priority cur =
      if ltb props.priority min_priority then pure false else apply_binary props cur

  -- -1, the priority of a whole expression, is 0 here: every operator has a higher one
  unfoldable pub binary_operator : ℕ → M Bool
  unfolding cur_lexeme binary_by binary_table
  binary_operator min_priority = do
    cur ← cur_lexeme
    binary_by (binary_table cur.kind) min_priority cur

  -- `if (p->cur.kind == LK_STAR)`
  unfoldable pub scatter_mark : Bool → Bool → M Bool
  unfolding advance
  scatter_mark true is_scatter = do advance; pure true
  scatter_mark false is_scatter = pure is_scatter

  -- The loop of funcall: the number of arguments, and *is_scatter.
  unfoldable pub funcall_loop : ℕ → ℕ → Bool → M (ℕ × Bool)
  unfolding scatter_mark cur_lexeme advance throw_error_at guard separator by_separator
  funcall_loop zero nargs is_scatter p = exhausted
  funcall_loop (suc fuel) nargs is_scatter p =
      (do
        cur ← cur_lexeme
        scatter ← scatter_mark (same_kind cur.kind LexemeKind.lk_star) is_scatter
        expr 0
        cur ← cur_lexeme
        by_separator (separator LexemeKind.lk_rparen cur.kind) (advance >> pure (nargs, scatter))
            (do
              advance
              cur ← cur_lexeme
              guard scatter (throw_error_at "scatter argument is not the last one" cur)
              count_to nargs (throw_error_at "too many arguments" cur)
              funcall_loop fuel (nargs + 1) scatter)
            (throw_error_at "expected ',' or ')'" cur))
        p

  unfoldable pub funcall : ℕ → M (ℕ × Bool)
  unfolding funcall_loop advance cur_lexeme
  funcall fuel = do
    advance
    cur ← cur_lexeme
    (if same_kind cur.kind LexemeKind.lk_rparen
        then (advance >> pure (0, false))
        else funcall_loop fuel 1 false)

  unfoldable pub newlist_loop : ℕ → ℕ → M ℕ
  unfolding cur_lexeme advance throw_error_at guard separator by_separator
  newlist_loop zero nelems p = exhausted
  newlist_loop (suc fuel) nelems p =
      (do
        expr 0
        cur ← cur_lexeme
        by_separator (separator LexemeKind.lk_rbracket cur.kind) (advance >> pure nelems)
            (do
              advance
              cur ← cur_lexeme
              count_to nelems (throw_error_at "too many list elements" cur)
              newlist_loop fuel (nelems + 1))
            (throw_error_at "expected ',' or ']'" cur))
        p

  unfoldable pub newlist : ℕ → M ℕ
  unfolding newlist_loop advance cur_lexeme
  newlist fuel = do
    advance
    cur ← cur_lexeme
    (if same_kind cur.kind LexemeKind.lk_rbracket then (advance >> pure 0) else newlist_loop fuel 1)

  unfoldable pub newdict_loop : ℕ → ℕ → M ℕ
  unfolding cur_lexeme advance slurp throw_error_at guard separator by_separator
  newdict_loop zero nelems p = exhausted
  newdict_loop (suc fuel) nelems p =
      (do
        expr 0
        slurp LexemeKind.lk_colon "expected ':'"
        expr 0
        cur ← cur_lexeme
        by_separator (separator LexemeKind.lk_rbrace cur.kind) (advance >> pure nelems)
            (do
              advance
              cur ← cur_lexeme
              count_to nelems (throw_error_at "too many dict entries" cur)
              newdict_loop fuel (nelems + 1))
            (throw_error_at "expected ',' or '}'" cur))
        p

  unfoldable pub newdict : ℕ → M ℕ
  unfolding newdict_loop advance cur_lexeme
  newdict fuel = do
    advance
    cur ← cur_lexeme
    (if same_kind cur.kind LexemeKind.lk_rbrace then (advance >> pure 0) else newdict_loop fuel 1)
