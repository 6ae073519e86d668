-- ===== src/Parser/Params.antt =====
-- parse.c: the parameters of a function in fun_stmt.
use calx.Base.{ℕ, zero, suc, true, false, Option, none, some, not, if◌then◌else◌}
use calx.Lexer.Kinds.{LexemeKind, Lexeme, same_kind}
use calx.Parser.Resolve.{guard}
use calx.Parser.Functions.{fun_param}
use calx.Parser.State.{cur_lexeme, M, ◌>>=◌, ◌>>◌, pure, exhausted, throw_error_at, advance, slurp}
use calx.Parser.Jump.{fixup_jump}

unfoldable pub fixup_if_set : Option ℕ → ℕ → M (Unit {0})
unfolding fixup_jump
fixup_if_set none to = pure tt
fixup_if_set (some from) to = fixup_jump from to

-- what ends the statements of a block or a program
pub data End : Type 0 where
  at_eof at_rbrace goes_on : End

unfoldable pub end_of : LexemeKind → End
end_of LexemeKind.lk_eof = at_eof
end_of LexemeKind.lk_rbrace = at_rbrace
end_of _ = goes_on

unfoldable pub by_end : End → M (Unit {0}) → M (Unit {0}) → M (Unit {0}) → M (Unit {0})
by_end at_eof m n o = m
by_end at_rbrace m n o = n
by_end goes_on m n o = o

-- The parameters of a function: the loop of fun_stmt, up to the closing parenthesis.
unfoldable pub gather_param : ℕ → M (Unit {0})
unfolding advance cur_lexeme guard throw_error_at fun_param
gather_param fun_pos = do
  advance
  lxm ← cur_lexeme
  guard (not (same_kind lxm.kind LexemeKind.lk_ident))
      (throw_error_at "expected gather parameter name" lxm)
  fun_param fun_pos lxm true
  advance
  cur ← cur_lexeme
  guard (not (same_kind cur.kind LexemeKind.lk_rparen))
      (throw_error_at "expected ')' after gather parameter" lxm)

unfoldable pub plain_param : ℕ → Lexeme → M (Unit {0})
unfolding guard throw_error_at fun_param advance
plain_param fun_pos lxm = do
  guard (not (same_kind lxm.kind LexemeKind.lk_ident))
      (throw_error_at "expected parameter name" lxm)
  fun_param fun_pos lxm false
  advance

unfoldable pub params_loop : ℕ → ℕ → M (Unit {0})
unfolding cur_lexeme gather_param plain_param slurp
params_loop zero fun_pos p = exhausted
params_loop (suc fuel) fun_pos p =
    (do
      lxm ← cur_lexeme
      (if same_kind lxm.kind LexemeKind.lk_star then gather_param fun_pos else do
        plain_param fun_pos lxm
        cur ← cur_lexeme
        (if same_kind cur.kind LexemeKind.lk_rparen
            then pure tt
            else do slurp LexemeKind.lk_comma "expected ',' or ')'"; params_loop fuel fun_pos)))
      p

unfoldable pub params : ℕ → ℕ → M (Unit {0})
unfolding cur_lexeme params_loop
params fuel fun_pos = do
  cur ← cur_lexeme
  (if same_kind cur.kind LexemeKind.lk_rparen then pure tt else params_loop fuel fun_pos)
