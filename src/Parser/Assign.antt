-- ===== src/Parser/Assign.antt =====
-- parse.c: expr_or_assignment, and the statements without a block.
use calx.Base.{ℕ, Bool, true, false, Option, none, some, not, if◌then◌else◌}
use calx.Lexer.Kinds.{LexemeKind, Lexeme, same_kind}
use calx.Parser.Resolve.{guard}
use calx.Parser.Scope.{load_to_store, load_to_modify}
use calx.Parser.State.{
  cur_lexeme, StackName, s_break, M, ◌>>=◌, ◌>>◌, pure, throw_error_at, add_const_steal, emit,
  emit_at, unemit, advance, slurp, with_arg, plain,
}
use calx.Vm.State.{op_load_const, op_print, op_return}
use calx.Vm.Values.{
  AritOp, nil, aop_and, aop_bit_and, aop_sub, aop_or, aop_bit_or, aop_bit_xor, aop_lshift,
  aop_rshift, aop_mod, aop_add, aop_div, aop_idiv, aop_mul, aop_pow, aop_concat,
}
use calx.Parser.Jump.{postpone_jump_unless, stack_segment_emit_jump_and_push}

-- the operator of a compound assignment
unfoldable pub op_assign : LexemeKind → Option AritOp
op_assign LexemeKind.lk_and_and_eq = some aop_and
op_assign LexemeKind.lk_and_eq = some aop_bit_and
op_assign LexemeKind.lk_hat_eq = some aop_bit_xor
op_assign LexemeKind.lk_greater_greater_eq = some aop_rshift
op_assign LexemeKind.lk_less_less_eq = some aop_lshift
op_assign LexemeKind.lk_minus_eq = some aop_sub
op_assign LexemeKind.lk_or_or_eq = some aop_or
op_assign LexemeKind.lk_or_eq = some aop_bit_or
op_assign LexemeKind.lk_percent_eq = some aop_mod
op_assign LexemeKind.lk_plus_eq = some aop_add
op_assign LexemeKind.lk_slash_eq = some aop_div
op_assign LexemeKind.lk_slash_slash_eq = some aop_idiv
op_assign LexemeKind.lk_star_eq = some aop_mul
op_assign LexemeKind.lk_star_star_eq = some aop_pow
op_assign LexemeKind.lk_tilde_eq = some aop_concat
op_assign _ = none

-- what the lexeme behind an expression makes of it
pub data Barrier : Type 0 where
  assigns : Bool → Barrier
  prints : Barrier
  modifies : Option AritOp → Barrier

unfoldable pub barrier_of : LexemeKind → Barrier
unfolding op_assign
barrier_of LexemeKind.lk_eq = assigns false
barrier_of LexemeKind.lk_colon_eq = assigns true
barrier_of LexemeKind.lk_semicolon = prints
barrier_of k = modifies (op_assign k)

-- the cases of the switch of `stmt`
pub data StmtCase : Type 0 where
  if_case while_case for_case fun_case empty_case return_case : StmtCase
  break_case continue_case end_case expr_case : StmtCase

unfoldable pub stmt_case : LexemeKind → StmtCase
stmt_case LexemeKind.lk_if = if_case
stmt_case LexemeKind.lk_while = while_case
stmt_case LexemeKind.lk_for = for_case
stmt_case LexemeKind.lk_fun = fun_case
stmt_case LexemeKind.lk_semicolon = empty_case
stmt_case LexemeKind.lk_return = return_case
stmt_case LexemeKind.lk_break = break_case
stmt_case LexemeKind.lk_continue = continue_case
stmt_case LexemeKind.lk_eof = end_case
stmt_case LexemeKind.lk_rbrace = end_case
stmt_case _ = expr_case

module _ (expr : ℕ → M (Unit {0})) where
  unfoldable pub finish_assignment : Barrier → Lexeme → M (Unit {0})
  unfolding unemit advance load_to_store load_to_modify emit_at throw_error_at
  finish_assignment (assigns local) barrier = do
    load_instr ← unemit
    advance
    expr 0
    store_instr ← load_to_store load_instr local barrier
    emit_at store_instr barrier
  finish_assignment prints barrier = emit_at (plain op_print) barrier
  finish_assignment (modifies none) barrier = throw_error_at "expected ';' or assignment" barrier
  finish_assignment (modifies (some aop)) barrier = do
    load_instr ← unemit
    advance
    expr 0
    modify_instr ← load_to_modify load_instr aop barrier
    emit_at modify_instr barrier

  unfoldable pub expr_or_assignment : M (Unit {0})
  unfolding cur_lexeme finish_assignment barrier_of
  expr_or_assignment = do
    expr 0
    barrier ← cur_lexeme
    finish_assignment (barrier_of barrier.kind) barrier

  -- nothing if the lexeme is of this kind, else an expression or an assignment
  unfoldable pub optional_part : LexemeKind → M (Unit {0})
  unfolding cur_lexeme expr_or_assignment
  optional_part k = do
    cur ← cur_lexeme
    (if same_kind cur.kind k then pure tt else expr_or_assignment)

  -- <condition>; `none` is -1
  unfoldable pub condition_by : Bool → M (Option ℕ)
  unfolding postpone_jump_unless
  condition_by true = pure none
  condition_by false = do expr 0; jump_pos ← postpone_jump_unless; pure (some jump_pos)

  unfoldable pub return_by : Bool → M (Unit {0})
  unfolding advance add_const_steal emit slurp
  return_by true = do advance; i ← add_const_steal nil; emit (with_arg op_load_const i)
  return_by false = do expr 0; slurp LexemeKind.lk_semicolon "expected ';'"

  unfoldable pub return_stmt : M (Unit {0})
  unfolding advance cur_lexeme return_by emit
  return_stmt = do
    advance
    cur ← cur_lexeme
    return_by (same_kind cur.kind LexemeKind.lk_semicolon)
    emit (plain op_return)

  unfoldable pub expr_stmt : M (Unit {0})
  unfolding expr_or_assignment slurp
  expr_stmt = do expr_or_assignment; slurp LexemeKind.lk_semicolon "expected ';'"

-- `break` and `continue`
unfoldable pub leave_stmt : StackName → Lexeme → M (Unit {0})
unfolding stack_segment_emit_jump_and_push guard throw_error_at advance slurp
leave_stmt name cur = do
  in_loop ← stack_segment_emit_jump_and_push name
  guard (not in_loop) (
      throw_error_at
        (elim name [ s_break ↦ "'break' outside of a loop" | _ ↦ "'continue' outside of a loop" ])
        cur)
  advance
  slurp LexemeKind.lk_semicolon "expected ';'"
