-- ===== src/Lexer/Scan.antt =====
-- lexer.c: the loops of `number`, `string` and `identifier`, the choice between operators of one
-- to three characters, and the keywords. A loop takes the bytes after the first one of the lexeme
-- and says how many of them it passes.
use calx.Base.{
  ℕ, suc, Bool, true, false, not, ◌&&◌, ◌||◌, List, [], ◌∷◌, Bytes, codes, bytes_eq, in_range, ◌==◌,
  if◌then◌else◌,
}
use calx.Lexer.Kinds.{
  LexemeKind, lk_fun, lk_if, lk_else, lk_elif, lk_for, lk_while, lk_break, lk_continue, lk_return,
  lk_true, lk_false, lk_nil, lk_ident,
}

abbrev pub is_digit : ℕ → Bool
is_digit = in_range b'0' b'9'

abbrev pub is_ident_start : ℕ → Bool
is_ident_start c = in_range b'a' b'z' c || (in_range b'A' b'Z' c || c == b'_')

abbrev pub is_ident_char : ℕ → Bool
is_ident_char c = is_digit c || is_ident_start c

unfoldable pub number_loop : Bool → Bytes → ℕ
number_loop seen_dot [] = 0
number_loop seen_dot (c ∷ s) =
    let same = suc (number_loop seen_dot s) in
    let dot = suc (number_loop true s) in
    if is_digit c || c == b'\''
    then same
    else if c == b'.'
    then (if seen_dot then 0 else dot)
    else 0

pub data StringEnd : Type 0 where
  closed eof_reached eol_reached : StringEnd

unfoldable pub pass : ℕ × StringEnd → ℕ × StringEnd
pass (n, e) = (suc n, e)

-- The flag says that the byte before was a backslash: the next byte is passed whatever it is.
unfoldable pub string_loop : Bool → Bytes → ℕ × StringEnd
unfolding pass
string_loop escaped [] = (0, eof_reached)
string_loop true (c ∷ s) = pass (string_loop false s)
string_loop false (c ∷ s) =
    let plain = pass (string_loop false s) in
    let escape = pass (string_loop true s) in
    if c == b'"'
    then (1, closed)
    else if c == b'\\'
    then escape
    else if c == b'\n'
    then (0, eol_reached)
    else plain

unfoldable pub identifier_loop : Bytes → ℕ
identifier_loop [] = 0
identifier_loop (c ∷ s) = let rest = suc (identifier_loop s) in if is_ident_char c then rest else 0

-- The table of make_keywords_ht: spelling, kind, and whether a block may follow.
abbrev pub keywords : List (Bytes × LexemeKind × Bool)
keywords =
    (codes "fun", lk_fun, true)
    ∷ (codes "if", lk_if, true)
    ∷ (codes "else", lk_else, true)
    ∷ (codes "elif", lk_elif, true)
    ∷ (codes "for", lk_for, true)
    ∷ (codes "while", lk_while, true)
    ∷ (codes "break", lk_break, false)
    ∷ (codes "continue", lk_continue, false)
    ∷ (codes "return", lk_return, false)
    ∷ (codes "true", lk_true, false)
    ∷ (codes "false", lk_false, false)
    ∷ (codes "nil", lk_nil, false)
    ∷ []

-- xht_get_int(&x->keywords, ..., LK_IDENT), with the bit that marks a blocky keyword taken apart
unfoldable pub keyword_lookup : Bytes → List (Bytes × LexemeKind × Bool) → LexemeKind × Bool
keyword_lookup s [] = (lk_ident, false)
keyword_lookup s ((spelling, kind, is_blocky) ∷ table) =
    let rest = keyword_lookup s table in if bytes_eq s spelling then (kind, is_blocky) else rest

-- x->cur + 2 != x->end && x->cur[2] == d, for a `d` that is not 0
unfoldable pub third_is : ℕ → Bytes → Bool
third_is d [] = false
third_is d (f ∷ s) = not (d == 0) && f == d

-- choice1223, on the bytes from x->cur: the kind and the size of the operator
unfoldable pub choice1223 :
    Bytes → LexemeKind → ℕ → LexemeKind → ℕ → LexemeKind → ℕ → LexemeKind → LexemeKind × ℕ
unfolding third_is
choice1223 (a ∷ e ∷ s) if_a b if_ab c if_ac d if_acd =
    if e == b
    then (if_ab, 2)
    else if not (c == 0) && e == c
    then (if third_is d s then (if_acd, 3) else (if_ac, 2))
    else (if_a, 1)
choice1223 _ if_a b if_ab c if_ac d if_acd = (if_a, 1)
