-- ===== src/Parser/Stmt.antt =====
-- parse.c: blocks and statements. The statements inside another one are an argument, `stmt`, up to
-- `stmt` itself; a loop is on fuel, and so is the depth of statements.
use calx.Base.{ℕ, zero, suc, ◌+◌, ◌-◌, false, Option, none, some, not, if◌then◌else◌}
use calx.Lexer.Kinds.{LexemeKind, Lexeme, same_kind}
use calx.Number.Deci.{Deci}
use calx.Parser.Expr.{expr}
use calx.Parser.Rotate.{ti_rotate_left}
use calx.Parser.Resolve.{guard}
use calx.Parser.Scope.{load_to_store}
use calx.Parser.Functions.{fun_begin, fun_end}
use calx.Parser.State.{
  cur_lexeme, jump_at, s_if, s_break, s_continue, M, ◌>>=◌, ◌>>◌, pure, modify, exhausted,
  stack_push, throw_error_at, emit, advance, slurp, here, load,
}
use calx.Parser.Jump.{
  postpone_jump, postpone_jump_unless, fixup_jump, emit_jump_to, stack_segment_begin,
  stack_segment_end_fixup,
}
use calx.Parser.Assign.{
  StmtCase, stmt_case, optional_part, condition_by, return_stmt, expr_stmt, leave_stmt, if_case,
  while_case, for_case, fun_case, empty_case, return_case, break_case, continue_case, end_case,
  expr_case,
}
use calx.Parser.Params.{fixup_if_set, end_of, by_end, params}

module _ (expr : ℕ → M (Unit {0})) (stmt : M (Unit {0})) (fuel : ℕ) where
  -- the statements up to the closing brace
  unfoldable pub block_loop : ℕ → M (Unit {0})
  unfolding cur_lexeme throw_error_at advance end_of by_end
  block_loop zero p = exhausted
  block_loop (suc rounds) p =
      (do
        stmt
        cur ← cur_lexeme
        by_end (end_of cur.kind) (throw_error_at "expected '}'" cur) advance (block_loop rounds))
        p

  unfoldable pub block : M (Unit {0})
  unfolding slurp block_loop
  block = do slurp LexemeKind.lk_lbrace "expected '{'"; block_loop fuel

  unfoldable pub if_or_elif_clause : M ℕ
  unfolding advance slurp postpone_jump_unless block
  if_or_elif_clause = do
    advance
    slurp LexemeKind.lk_lparen "expected '('"
    expr 0
    jump_pos ← postpone_jump_unless
    slurp LexemeKind.lk_rparen "expected ')'"
    block
    pure jump_pos

  unfoldable pub else_clause : M (Unit {0})
  unfolding advance block
  else_clause = do advance; block

  -- the jump behind a clause to the end of the statement; the clause is skipped to here
  unfoldable pub next_clause : ℕ → M (Unit {0})
  unfolding postpone_jump stack_push here fixup_jump
  next_clause prev_jump_unless = do
    pos ← postpone_jump
    stack_push s_if (jump_at pos)
    to ← here
    fixup_jump prev_jump_unless to

  -- the loop over `elif`, which returns prev_jump_unless
  unfoldable pub elif_loop : ℕ → ℕ → M ℕ
  unfolding cur_lexeme next_clause if_or_elif_clause
  elif_loop zero prev_jump_unless p = exhausted
  elif_loop (suc rounds) prev_jump_unless p =
      (do
        cur ← cur_lexeme
        (if same_kind cur.kind LexemeKind.lk_elif
            then (next_clause prev_jump_unless >> (if_or_elif_clause >>= elif_loop rounds))
            else pure prev_jump_unless))
        p

  unfoldable pub else_part : ℕ → M (Option ℕ)
  unfolding cur_lexeme next_clause else_clause
  else_part prev_jump_unless = do
    cur ← cur_lexeme
    (if same_kind cur.kind LexemeKind.lk_else
        then (next_clause prev_jump_unless >> (else_clause >> pure none))
        else pure (some prev_jump_unless))

  unfoldable pub if_stmt : M (Unit {0})
  unfolding stack_segment_begin if_or_elif_clause elif_loop else_part here fixup_if_set
      stack_segment_end_fixup
  if_stmt = do
    stack_segment_begin s_if
    first ← if_or_elif_clause
    last ← elif_loop fuel first
    prev_jump_unless ← else_part last
    to ← here
    fixup_if_set prev_jump_unless to
    stack_segment_end_fixup s_if to

  unfoldable pub while_stmt : M (Unit {0})
  unfolding stack_segment_begin advance slurp here postpone_jump_unless block emit_jump_to
      fixup_jump stack_segment_end_fixup
  while_stmt = do
    stack_segment_begin s_break
    stack_segment_begin s_continue
    advance
    slurp LexemeKind.lk_lparen "expected '('"
    begin_pos ← here
    expr 0
    jump_pos ← postpone_jump_unless
    slurp LexemeKind.lk_rparen "expected ')'"
    block
    emit_jump_to begin_pos
    end_pos ← here
    fixup_jump jump_pos end_pos
    stack_segment_end_fixup s_break end_pos
    stack_segment_end_fixup s_continue begin_pos

  unfoldable pub fun_stmt : M (Unit {0})
  unfolding advance cur_lexeme guard throw_error_at slurp fun_begin params block fun_end load
      load_to_store emit
  fun_stmt = do
    advance
    name ← cur_lexeme
    guard (not (same_kind name.kind LexemeKind.lk_ident))
        (throw_error_at "expected function name" name)
    advance
    slurp LexemeKind.lk_lparen "expected '('"
    fun_pos ← fun_begin
    params fuel fun_pos
    advance
    block
    fun_end fun_pos
    load_instr ← load name
    store_instr ← load_to_store load_instr false name
    emit store_instr

  -- from the end of the body on: the positions at which the last part and the body begin and end
  unfoldable pub close_for : ℕ → Option ℕ → ℕ → ℕ → ℕ → M (Unit {0})
  unfolding emit_jump_to here fixup_if_set stack_segment_end_fixup ti_rotate_left
  close_for begin_pos jump_pos i1 i2 i3 = do
    let nrotate = i2 - i1
    let ctnue_pos = i3 - nrotate
    emit_jump_to begin_pos
    end_pos ← here
    fixup_if_set jump_pos end_pos
    stack_segment_end_fixup s_break (end_pos + nrotate)
    stack_segment_end_fixup s_continue (ctnue_pos + nrotate)
    modify (λ p. record p { prog = ti_rotate_left i1 (i3 - i1) nrotate p.prog })

  unfoldable pub for_stmt : M (Unit {0})
  unfolding stack_segment_begin advance slurp optional_part here cur_lexeme condition_by block
      close_for
  for_stmt = do
    stack_segment_begin s_break
    stack_segment_begin s_continue
    advance
    slurp LexemeKind.lk_lparen "expected '('"
    optional_part expr LexemeKind.lk_semicolon
    slurp LexemeKind.lk_semicolon "expected ';'"
    begin_pos ← here
    cur ← cur_lexeme
    jump_pos ← condition_by expr (same_kind cur.kind LexemeKind.lk_semicolon)
    slurp LexemeKind.lk_semicolon "expected ';'"
    i1 ← here
    optional_part expr LexemeKind.lk_rparen
    slurp LexemeKind.lk_rparen "expected ')'"
    i2 ← here
    block
    i3 ← here
    close_for begin_pos jump_pos i1 i2 i3

  unfoldable pub stmt_by : StmtCase → Lexeme → M (Unit {0})
  unfolding if_stmt while_stmt for_stmt fun_stmt advance return_stmt leave_stmt expr_stmt
  stmt_by if_case cur = if_stmt
  stmt_by while_case cur = while_stmt
  stmt_by for_case cur = for_stmt
  stmt_by fun_case cur = fun_stmt
  stmt_by empty_case cur = advance
  stmt_by return_case cur = return_stmt expr
  stmt_by break_case cur = leave_stmt s_break cur
  stmt_by continue_case cur = leave_stmt s_continue cur
  stmt_by end_case cur = pure tt
  stmt_by expr_case cur = expr_stmt expr

-- The depth of the statements and the rounds of a loop are limited by the fuel.
unfoldable pub stmt : Deci → ℕ → ℕ → M (Unit {0})
unfolding stmt_by cur_lexeme stmt_case expr
stmt d bits zero p = exhausted
stmt d bits (suc fuel) p =
    (do
      cur ← cur_lexeme
      stmt_by (expr d bits (suc fuel)) (stmt d bits fuel) (suc fuel) (stmt_case cur.kind) cur)
      p
