-- ===== src/Lexer/Context.antt =====
-- lexer.c: the flag is_expr_context and the top of the level stack.
use mathlib.Core.Path.{subst}
use calx.Base.{
  ap, sym, drop, ℕ, zero, suc, ◌≡◌, refl, Bool, true, false, Option, some, List, [], ◌∷◌, Bytes,
  length, arith, ◌==◌, ◌||◌, Bool-cases, inl, inr,
}
use calx.Lexer.Kinds.{Lexeme}
use calx.Lexer.Levels.{
  Level, level_expr, LevelStack, top_is_expr, level_stack_push, level_stack_set_blocky,
  level_stack_push_blocky, level_stack_drop, level_stack_pop,
}
use calx.Lexer.Scan.{StringEnd, closed, eof_reached, eol_reached, string_loop, identifier_loop}
use calx.Lexer.Token.{
  Lexer, Action, do_number, do_identifier, do_string, operator, open_bracket, close_bracket, single,
  open_brace, close_brace, unexpected, dispatch, advance, string_result, set_blocky_if,
  insert_semicolon, insert_semicolon_when, close_brace_token, perform, token, at_end, Round, found,
  passed, line_end, next_round, next_loop, lexer_next,
}

abbrev pub Agrees : LevelStack → Type 0
Agrees s = s.is_expr_context ≡ top_is_expr s.levels

push-Agrees : (s : LevelStack) (l : Level) → Agrees (level_stack_push s l)
unfolding level_stack_push top_is_expr
push-Agrees s l = refl

push_blocky-Agrees : (s : LevelStack) → Agrees (level_stack_push_blocky s)
unfolding level_stack_push_blocky top_is_expr
push_blocky-Agrees s = ground arith

drop-Agrees :
    (s : LevelStack) (ls : List Level) → s.levels ≡ ls → Agrees s → Agrees (level_stack_drop s ls)
unfolding level_stack_drop top_is_expr
drop-Agrees s [] e h = h
drop-Agrees s (l ∷ ls) e h = refl

pop-Agrees : (s : LevelStack) → Agrees s → Agrees (level_stack_pop s)
unfolding level_stack_pop
pop-Agrees s h = drop-Agrees s s.levels refl h

-- If the context flag of a stack says what its top is, a pop after a push gives back the stack.
pub pop-push : (s : LevelStack) (l : Level) → Agrees s → level_stack_pop (level_stack_push s l) ≡ s
unfolding level_stack_pop level_stack_push level_stack_drop
pop-push s l h = ap (λ b. record s { is_expr_context = b }) (sym h)

some_inj : {r r' : Lexeme × Lexer} → ◌≡◌ {A = Option (Lexeme × Lexer)} (some r) (some r') → r ≡ r'
some_inj e = cc

AgreesNext : Lexeme × Lexer → Type 0
AgreesNext r = Agrees r.1.level_stack

AgreesRound : Round → Type 0
AgreesRound (found r) = Agrees r.1.level_stack
AgreesRound (passed x) = Agrees x.level_stack

string_result-Agrees :
    (how : StringEnd) (x : Lexer) (start : ℕ)
    → Agrees x.level_stack
    → AgreesNext (string_result how x start)
unfolding string_result AgreesNext
string_result-Agrees closed x start h = h
string_result-Agrees eof_reached x start h = h
string_result-Agrees eol_reached x start h = h

set_blocky_if-Agrees :
    (b : Bool) (x : Lexer) → Agrees x.level_stack → Agrees (set_blocky_if b x).level_stack
unfolding set_blocky_if level_stack_set_blocky
set_blocky_if-Agrees true x h = h
set_blocky_if-Agrees false x h = h

close_brace_token-Agrees :
    (ctx flag : Bool) (x : Lexer)
    → Agrees x.level_stack
    → AgreesNext (close_brace_token (insert_semicolon_when ctx flag x))
unfolding close_brace_token insert_semicolon_when AgreesNext
close_brace_token-Agrees true flag x h = pop-Agrees x.level_stack h
close_brace_token-Agrees false true x h = pop-Agrees x.level_stack h
close_brace_token-Agrees false false x h = h

perform-Agrees : (a : Action) (x : Lexer) → Agrees x.level_stack → AgreesNext (perform a x)
unfolding perform insert_semicolon AgreesNext
perform-Agrees do_number x h = h
perform-Agrees do_identifier x h =
    set_blocky_if-Agrees _ (advance x (suc (identifier_loop (drop 1 x.rest)))) h
perform-Agrees do_string x h =
    string_result-Agrees _ (advance x (suc (string_loop false (drop 1 x.rest)).0)) x.cur h
perform-Agrees (operator if_a b if_ab c if_ac d if_acd) x h = h
perform-Agrees (open_bracket k) x h = push-Agrees x.level_stack level_expr
perform-Agrees (close_bracket k) x h = pop-Agrees x.level_stack h
perform-Agrees (single k) x h = h
perform-Agrees open_brace x h = push_blocky-Agrees x.level_stack
perform-Agrees close_brace x h = close_brace_token-Agrees _ _ x h
perform-Agrees unexpected x h = h

at_end-Agrees :
    (ctx flag : Bool) (x : Lexer)
    → Agrees x.level_stack
    → AgreesNext (at_end (insert_semicolon_when ctx flag x))
unfolding at_end insert_semicolon_when AgreesNext
at_end-Agrees true flag x h = h
at_end-Agrees false true x h = h
at_end-Agrees false false x h = h

line_end-Agrees :
    (ctx flag : Bool) (x : Lexer)
    → Agrees x.level_stack
    → AgreesRound (line_end (insert_semicolon_when ctx flag x))
unfolding line_end insert_semicolon_when AgreesRound
line_end-Agrees true flag x h = h
line_end-Agrees false true x h = h
line_end-Agrees false false x h = h

next_round-Agrees : (s : Bytes) (x : Lexer) → Agrees x.level_stack → AgreesRound (next_round s x)
unfolding next_round insert_semicolon AgreesRound AgreesNext
next_round-Agrees [] x h = at_end-Agrees _ _ x h
next_round-Agrees (c ∷ s) x h = elim (Bool-cases (c == b' ' || c == b'\t')) [
  | inl p ↦ rw p h
  | inr p ↦ elim (Bool-cases (c == b'\n')) [
    | inl q ↦ rw (p, q) (line_end-Agrees _ _ x h)
    | inr q ↦ elim (Bool-cases (c == b'#')) [
      | inl r ↦ rw (p, q, r) h
      | inr r ↦ rw (p, q, r) (unfold token in perform-Agrees (dispatch c) x h)
    ]
  ]
]

after_round-Agrees :
    (again : Lexer → Option (Lexeme × Lexer)) (q : Round) (r : Lexeme × Lexer)
    → AgreesRound q
    → ((x' : Lexer) → Agrees x'.level_stack → again x' ≡ some r → Agrees r.1.level_stack)
    → elim q [ found r' ↦ some r' | passed x' ↦ again x' ] ≡ some r
    → Agrees r.1.level_stack
unfolding AgreesRound AgreesNext
after_round-Agrees again (found r') r h ih e = subst AgreesNext (some_inj e) h
after_round-Agrees again (passed x') r h ih e = ih x' h e

next_loop-Agrees :
    (fuel : ℕ) (x : Lexer) (r : Lexeme × Lexer)
    → Agrees x.level_stack
    → next_loop fuel x ≡ some r
    → Agrees r.1.level_stack
unfolding next_loop
next_loop-Agrees zero x r h e = cc
next_loop-Agrees (suc fuel) x r h e =
    after_round-Agrees (next_loop fuel) (next_round x.rest x) r (next_round-Agrees x.rest x h)
      (λ x' h'. next_loop-Agrees fuel x' r h') e

-- If the context flag says what the top of the level stack is, it says so behind every lexeme.
pub lexer_next-Agrees :
    (x : Lexer) (r : Lexeme × Lexer)
    → Agrees x.level_stack
    → lexer_next x ≡ some r
    → Agrees r.1.level_stack
unfolding lexer_next
lexer_next-Agrees x r h e = next_loop-Agrees (suc (length x.rest)) x r h e
