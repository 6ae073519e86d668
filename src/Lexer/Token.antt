-- ===== src/Lexer/Token.antt =====
-- lexer.c: the lexer's state, `token` and `lexer_next`. The source is the list of bytes from
-- x->cur to x->end; `cur` and `line_start` are offsets into the whole source.
use calx.Base.{
  ℕ, zero, suc, ◌+◌, ◌-◌, Bool, true, false, ◌||◌, Option, none, some, [], ◌∷◌, Bytes, length, take,
  drop, ◌==◌, if◌then◌else◌,
}
use calx.Lexer.Kinds.{LexemeKind, Lexeme}
use calx.Lexer.Levels.{
  LevelStack, level_expr, level_stack_new, level_stack_push, level_stack_set_blocky,
  level_stack_push_blocky, level_stack_pop,
}
use calx.Lexer.Scan.{
  is_digit, is_ident_start, number_loop, StringEnd, closed, eof_reached, eol_reached, string_loop,
  identifier_loop, keywords, keyword_lookup, choice1223,
}

pub data ErrorMsg : Type 0 where
  unterminated_string_eof unterminated_string_eol unexpected_symbol : ErrorMsg

pub record Lexer : Type 0 where
  pub rest : Bytes
  pub cur : ℕ
  pub line_num : ℕ
  pub line_start : ℕ
  pub level_stack : LevelStack
  pub inserted_semicolon_flag : Bool
  pub err_msg : Option ErrorMsg

unfoldable pub lexer_new : Bytes → Lexer
unfolding level_stack_new
lexer_new source = record {
  rest = source;
  cur = 0;
  line_num = 1;
  line_start = 0;
  level_stack = level_stack_new;
  inserted_semicolon_flag = false;
  err_msg = none;
}

-- x->cur += size
unfoldable pub advance : Lexer → ℕ → Lexer
advance x size = record x { rest = drop size x.rest; cur = x.cur + size }

unfoldable pub make_lexeme : Lexer → LexemeKind → ℕ → Lexeme
make_lexeme x kind start = record {
  kind = kind;
  start = start;
  size = x.cur - start;
  line = x.line_num;
  column = start - x.line_start + 1;
}

unfoldable pub make_lexeme_advance : Lexer → LexemeKind → ℕ → Lexeme × Lexer
unfolding advance make_lexeme
make_lexeme_advance x kind size = let x' = advance x size in (make_lexeme x' kind x.cur, x')

unfoldable pub make_error_advance : Lexer → ErrorMsg → ℕ → Lexeme × Lexer
unfolding make_lexeme_advance
make_error_advance x msg size =
    make_lexeme_advance (record x { err_msg = some msg }) LexemeKind.lk_error size

unfoldable pub number : Lexer → Lexeme × Lexer
unfolding advance make_lexeme
number x =
    let x' = advance x (suc (number_loop false (drop 1 x.rest))) in
    (make_lexeme x' LexemeKind.lk_number x.cur, x')

-- what `string` returns, once its loop has moved the cursor
unfoldable pub string_result : StringEnd → Lexer → ℕ → Lexeme × Lexer
unfolding make_error_advance make_lexeme
string_result closed x start = (make_lexeme x LexemeKind.lk_string start, x)
string_result eof_reached x start = make_error_advance x unterminated_string_eof 0
string_result eol_reached x start = make_error_advance x unterminated_string_eol 0

unfoldable pub string : Lexer → Lexeme × Lexer
unfolding advance string_result
string x =
    let (n, how) = string_loop false (drop 1 x.rest) in string_result how (advance x (suc n)) x.cur

unfoldable pub set_blocky_if : Bool → Lexer → Lexer
set_blocky_if is_blocky x =
    if is_blocky then record x { level_stack = level_stack_set_blocky x.level_stack } else x

unfoldable pub identifier : Lexer → Lexeme × Lexer
unfolding advance make_lexeme set_blocky_if
identifier x =
    let size = suc (identifier_loop (drop 1 x.rest)) in
    let (kind, is_blocky) = keyword_lookup (take size x.rest) keywords in
    let x' = set_blocky_if is_blocky (advance x size) in (make_lexeme x' kind x.cur, x')

unfoldable pub fake_semicolon : Lexer → Lexeme × Lexer
unfolding make_lexeme_advance
fake_semicolon x = make_lexeme_advance x LexemeKind.lk_semicolon 0

-- insert_semicolon, by is_expr_context and inserted_semicolon_flag
unfoldable pub insert_semicolon_when : Bool → Bool → Lexer → Bool × Lexer
insert_semicolon_when true flag x = (false, x)
insert_semicolon_when false true x = (false, record x { inserted_semicolon_flag = false })
insert_semicolon_when false false x = (true, record x { inserted_semicolon_flag = true })

unfoldable pub insert_semicolon : Lexer → Bool × Lexer
unfolding insert_semicolon_when
insert_semicolon x = insert_semicolon_when x.level_stack.is_expr_context x.inserted_semicolon_flag x

-- The statements that the cases of the switch in `token` hold.
pub data Action : Type 0 where
  do_number do_identifier do_string open_brace close_brace unexpected : Action
  operator : LexemeKind → ℕ → LexemeKind → ℕ → LexemeKind → ℕ → LexemeKind → Action
  open_bracket close_bracket single : LexemeKind → Action

-- the case labels of the switch; `two` and `four` are calls of choice1223
abbrev two : LexemeKind → LexemeKind → Action
two if_a if_ab = operator if_a b'=' if_ab 0 if_a 0 if_a

abbrev four : LexemeKind → LexemeKind → ℕ → LexemeKind → LexemeKind → Action
four if_a if_ab c if_ac if_acd = operator if_a b'=' if_ab c if_ac b'=' if_acd

unfoldable pub dispatch : ℕ → Action
dispatch c =
    if is_digit c
    then do_number
    else if is_ident_start c
    then do_identifier
    else if c == b'"'
    then do_string
    else if c == b'!'
    then two LexemeKind.lk_bang LexemeKind.lk_bang_eq
    else if c == b'%'
    then two LexemeKind.lk_percent LexemeKind.lk_percent_eq
    else if c == b'&'
    then four LexemeKind.lk_and LexemeKind.lk_and_eq b'&' LexemeKind.lk_and_and
        LexemeKind.lk_and_and_eq
    else if c == b'|'
    then four LexemeKind.lk_or LexemeKind.lk_or_eq b'|' LexemeKind.lk_or_or LexemeKind.lk_or_or_eq
    else if c == b'('
    then open_bracket LexemeKind.lk_lparen
    else if c == b')'
    then close_bracket LexemeKind.lk_rparen
    else if c == b'*'
    then four LexemeKind.lk_star LexemeKind.lk_star_eq b'*' LexemeKind.lk_star_star
        LexemeKind.lk_star_star_eq
    else if c == b'+'
    then two LexemeKind.lk_plus LexemeKind.lk_plus_eq
    else if c == b'-'
    then operator LexemeKind.lk_minus b'=' LexemeKind.lk_minus_eq b'>' LexemeKind.lk_minus_greater 0
        LexemeKind.lk_minus
    else if c == b','
    then single LexemeKind.lk_comma
    else if c == b'.'
    then single LexemeKind.lk_dot
    else if c == b'@'
    then single LexemeKind.lk_at
    else if c == b'/'
    then four LexemeKind.lk_slash LexemeKind.lk_slash_eq b'/' LexemeKind.lk_slash_slash
        LexemeKind.lk_slash_slash_eq
    else if c == b':'
    then two LexemeKind.lk_colon LexemeKind.lk_colon_eq
    else if c == b';'
    then single LexemeKind.lk_semicolon
    else if c == b'<'
    then four LexemeKind.lk_less LexemeKind.lk_less_eq b'<' LexemeKind.lk_less_less
        LexemeKind.lk_less_less_eq
    else if c == b'='
    then two LexemeKind.lk_eq LexemeKind.lk_eq_eq
    else if c == b'>'
    then four LexemeKind.lk_greater LexemeKind.lk_greater_eq b'>' LexemeKind.lk_greater_greater
        LexemeKind.lk_greater_greater_eq
    else if c == b'['
    then open_bracket LexemeKind.lk_lbracket
    else if c == b']'
    then close_bracket LexemeKind.lk_rbracket
    else if c == b'^'
    then two LexemeKind.lk_hat LexemeKind.lk_hat_eq
    else if c == b'{'
    then open_brace
    else if c == b'~'
    then two LexemeKind.lk_tilde LexemeKind.lk_tilde_eq
    else if c == b'}'
    then close_brace
    else unexpected

-- case '}': a fake semicolon comes first, unless one has just been inserted
unfoldable pub close_brace_token : Bool × Lexer → Lexeme × Lexer
unfolding fake_semicolon make_lexeme_advance
close_brace_token (true, x) = fake_semicolon x
close_brace_token (false, x) =
    make_lexeme_advance (record x { level_stack = level_stack_pop x.level_stack })
      LexemeKind.lk_rbrace 1

unfoldable pub perform : Action → Lexer → Lexeme × Lexer
unfolding number identifier string make_lexeme_advance make_error_advance close_brace_token
    insert_semicolon
perform do_number x = number x
perform do_identifier x = identifier x
perform do_string x = string x
perform (operator if_a b if_ab c if_ac d if_acd) x =
    let (kind, size) = choice1223 x.rest if_a b if_ab c if_ac d if_acd in
    make_lexeme_advance x kind size
perform (open_bracket kind) x =
    make_lexeme_advance (record x { level_stack = level_stack_push x.level_stack level_expr }) kind
      1
perform (close_bracket kind) x =
    make_lexeme_advance (record x { level_stack = level_stack_pop x.level_stack }) kind 1
perform (single kind) x = make_lexeme_advance x kind 1
perform open_brace x =
    make_lexeme_advance (record x { level_stack = level_stack_push_blocky x.level_stack })
      LexemeKind.lk_lbrace 1
perform close_brace x = close_brace_token (insert_semicolon x)
perform unexpected x = make_error_advance x unexpected_symbol 1

-- `c` is *x->cur
unfoldable pub token : ℕ → Lexer → Lexeme × Lexer
unfolding perform
token c x = perform (dispatch c) x

-- the end of the source
unfoldable pub at_end : Bool × Lexer → Lexeme × Lexer
unfolding fake_semicolon make_lexeme_advance
at_end (true, x) = fake_semicolon x
at_end (false, x) = make_lexeme_advance x LexemeKind.lk_eof 0

-- one round of the loop of `lexer_next`: a lexeme, or a blank, a comment or a line end passed
pub data Round : Type 0 where
  found : Lexeme × Lexer → Round
  passed : Lexer → Round

-- how many bytes the loop over a comment passes after '#'
unfoldable pub comment_loop : Bytes → ℕ
comment_loop [] = 0
comment_loop (c ∷ s) = let rest = suc (comment_loop s) in if c == b'\n' then 0 else rest

unfoldable pub new_line : Lexer → Lexer
unfolding advance
new_line x = let x' = advance x 1 in record x' { line_num = x'.line_num + 1; line_start = x'.cur }

unfoldable pub line_end : Bool × Lexer → Round
unfolding fake_semicolon new_line
line_end (true, x) = found (fake_semicolon x)
line_end (false, x) = passed (new_line x)

unfoldable pub next_round : Bytes → Lexer → Round
unfolding insert_semicolon at_end advance line_end token
next_round [] x = found (at_end (insert_semicolon x))
next_round (c ∷ s) x =
    if c == b' ' || c == b'\t'
    then passed (advance x 1)
    else if c == b'\n'
    then line_end (insert_semicolon x)
    else if c == b'#'
    then passed (advance x (suc (comment_loop s)))
    else found (token c x)

-- the loop of `lexer_next` on fuel; `none` means that the fuel ran out
unfoldable pub next_loop : ℕ → Lexer → Option (Lexeme × Lexer)
unfolding next_round
next_loop zero x = none
next_loop (suc fuel) x = elim (next_round x.rest x) [
  | found r ↦ some r
  | passed x' ↦ next_loop fuel x'
]

-- Each round that goes on passes a byte.
unfoldable pub lexer_next : Lexer → Option (Lexeme × Lexer)
unfolding next_loop
lexer_next x = next_loop (suc (length x.rest)) x
