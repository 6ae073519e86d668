-- ===== src/Tests/Lexing.antt =====
-- Lexemes, levels, string literals and precisions at concrete inputs.
use calx.Base.{◌+◌, ◌*◌, ◌≡◌, refl, true, none, some, [], ◌∷◌, ◌++◌, Bytes, codes, arith, length}
use calx.Lexer.Bounds.{Next}
use calx.Lexer.Context.{Agrees, lexer_next-Agrees}
use calx.Lexer.Kinds.{LexemeKind, Lexeme}
use calx.Lexer.Levels.{LevelStack, level_stack_push, level_stack_new, level_expr, top_is_expr}
use calx.Lexer.Loop.{lexer_next-Next, lexer_new-Within, lexer_new-Ends, Ends}
use calx.Lexer.Token.{Lexer, lexer_new, lexer_next, string, make_lexeme_advance, dispatch}
use calx.Literal.Read.{add_string_const, literal_body, ok}
use calx.Literal.RoundTrip.{string-write_string_escaped}
use calx.Literal.Write.{write_string_escaped}
use calx.Ntp.{ntp_from_prec, ntp_to_prec}
use calx.Ntp.RoundTrip.{ntp_to_prec-ntp_from_prec}

abbrev program : Bytes
program = codes "(x + 1.5) # sum\nif y { z }"

lexer_next-Next_example :
    (r : Lexeme × Lexer) × (lexer_next (lexer_new program) ≡ some r)
    × Next program (lexer_new program) r
lexer_next-Next_example = lexer_next-Next program (lexer_new program) (lexer_new-Within program)

lexer_new-Ends_example : Ends (2 * length program + 2) (lexer_new program)
lexer_new-Ends_example = lexer_new-Ends program

abbrev opened : Lexeme × Lexer
opened =
    make_lexeme_advance
      (record (lexer_new program) { level_stack = level_stack_push level_stack_new level_expr })
      LexemeKind.lk_lparen 1

lexer_next-Agrees_example : Agrees opened.1.level_stack
unfolding lexer_next lexer_new level_stack_new level_stack_push top_is_expr dispatch
lexer_next-Agrees_example = lexer_next-Agrees (lexer_new program) opened refl refl

abbrev in_expression : LevelStack
in_expression = record { levels = level_expr ∷ []; blocky_level = none; is_expr_context = true }

abbrev printed : Bytes
printed = 10 ∷ b'"' ∷ b'a' ∷ 200 ∷ []

abbrev at_string : Lexer
at_string = record (lexer_new []) { rest = write_string_escaped printed ++ codes " + 1"; cur = 7 }

string-write_string_escaped_example :
    ((string at_string).0.kind ≡ LexemeKind.lk_string)
    × ((string at_string).0.start ≡ 7)
    × ((string at_string).0.size ≡ length (write_string_escaped printed))
    × ((string at_string).1.rest ≡ codes " + 1")
    × (add_string_const (literal_body (write_string_escaped printed)) ≡ some (ok printed))
string-write_string_escaped_example =
    string-write_string_escaped at_string printed (codes " + 1") refl

ntp_to_prec-ntp_from_prec_example : ntp_to_prec 9 (ntp_from_prec 9 32 20) ≡ 20
ntp_to_prec-ntp_from_prec_example = ntp_to_prec-ntp_from_prec 9 32 20 (omega arith) (omega arith)
