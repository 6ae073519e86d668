-- ===== src/Lexer/Next.antt =====
-- lexer.c: each case of `token` and each round of the loop of `lexer_next`.
use calx.Base.{
  ℕ, suc, ◌+◌, ◌≤◌, ◌<◌, ◌≡◌, refl, ap, ◌∙◌, inl, inr, Bool, true, false, [], ◌∷◌, Option, Bytes,
  arith, length, drop, length-drop, Bool-cases, ◌||◌, ◌==◌,
}
use calx.Lexer.Bounds.{
  number_loop-le, string_loop-le, identifier_loop-le, comment_loop-le, choice1223_bounds, Within,
  length-rest, advance-Within, pending, Next, make_lexeme_advance-Next,
}
use calx.Lexer.Kinds.{LexemeKind}
use calx.Lexer.Levels.{LevelStack}
use calx.Lexer.Scan.{StringEnd, closed, eof_reached, eol_reached, number_loop}
use calx.Lexer.Token.{
  Lexer, ErrorMsg, Action, do_number, do_identifier, do_string, operator, open_bracket,
  close_bracket, single, open_brace, close_brace, unexpected, dispatch, advance, make_lexeme,
  make_lexeme_advance, number, identifier, string, string_result, set_blocky_if, insert_semicolon,
  insert_semicolon_when, fake_semicolon, close_brace_token, perform, token, at_end, Round, found,
  passed, comment_loop, new_line, line_end, next_round,
}

-- A lexeme that ends at the cursor of an advanced lexer.
module _ (src : Bytes) (x : Lexer) (w : Within src x) (n : ℕ) (h : suc n ≤ length x.rest) where
  make_lexeme-Next :
      (kind : LexemeKind) (start : ℕ) (x' : Lexer)
      → x'.rest ≡ drop (suc n) x.rest
      → x'.cur ≡ x.cur + suc n
      → x'.line_start ≡ x.line_start
      → x.cur ≤ start
      → start ≤ x'.cur
      → Next src x (make_lexeme x' kind start, x')
  unfolding make_lexeme advance
  make_lexeme-Next kind start x' r c l lo hi = record {
    within = record {
      rest = rw c (r ∙ (advance-Within src x (suc n) h w).rest);
      cur = omega (arith, length-rest src x w);
      line = omega (arith, w.line);
    };
    from = lo;
    span = omega arith;
    column = omega arith;
    progress = inr (ground (arith, length-drop (suc n) x.rest));
  }

module _ (src : Bytes) (x : Lexer) (w : Within src x) (c : ℕ) (s : Bytes) (e : x.rest ≡ c ∷ s) where
  left : length x.rest ≡ suc (length s)
  left = ap length e

  behind : drop 1 x.rest ≡ s
  behind = rw e

  number-Next : Next src x (number x)
  unfolding number advance
  number-Next =
      make_lexeme-Next src x w (number_loop false (drop 1 x.rest))
        (rw e (omega (arith, number_loop-le false s))) LexemeKind.lk_number x.cur _ refl refl refl
        (omega arith) (omega arith)

  string_result-Next :
      (how : StringEnd) (n : ℕ)
      → n ≤ length s
      → Next src x (string_result how (advance x (suc n)) x.cur)
  unfolding string_result advance
  string_result-Next closed n h =
      make_lexeme-Next src x w n (omega (arith, left)) LexemeKind.lk_string x.cur _ refl refl refl
        (omega arith) (omega arith)
  string_result-Next eof_reached n h =
      make_lexeme-Next src x w n (omega (arith, left)) LexemeKind.lk_error (x.cur + suc n) _ refl
        (omega arith) refl (omega arith) (omega arith)
  string_result-Next eol_reached n h =
      make_lexeme-Next src x w n (omega (arith, left)) LexemeKind.lk_error (x.cur + suc n) _ refl
        (omega arith) refl (omega arith) (omega arith)

  string-Next : Next src x (string x)
  unfolding string
  string-Next = string_result-Next _ _ (rw behind (string_loop-le false s))

  identifier_result-Next :
      (is_blocky : Bool) (kind : LexemeKind) (n : ℕ)
      → n ≤ length s
      → let x' : Lexer = set_blocky_if is_blocky (advance x (suc n)) in
        Next src x (make_lexeme x' kind x.cur, x')
  unfolding set_blocky_if advance
  identifier_result-Next true kind n h =
      make_lexeme-Next src x w n (omega (arith, left)) kind x.cur _ refl refl refl (omega arith)
        (omega arith)
  identifier_result-Next false kind n h =
      make_lexeme-Next src x w n (omega (arith, left)) kind x.cur _ refl refl refl (omega arith)
        (omega arith)

  identifier-Next : Next src x (identifier x)
  unfolding identifier
  identifier-Next = identifier_result-Next _ _ _ (rw behind (identifier_loop-le s))

  -- a one-byte lexeme, whatever becomes of the levels and the error message
  one_byte-Next :
      (kind : LexemeKind) (levels : LevelStack) (err : Option ErrorMsg)
      → Next src x (make_lexeme_advance (record x { level_stack = levels; err_msg = err }) kind 1)
  unfolding advance make_lexeme_advance
  one_byte-Next kind levels err =
      make_lexeme-Next src x w 0 (omega (arith, left)) kind x.cur _ refl refl refl (omega arith)
        (omega arith)

  operator-Next :
      (if_a : LexemeKind) (b : ℕ) (if_ab : LexemeKind) (c' : ℕ) (if_ac : LexemeKind) (d : ℕ)
      (if_acd : LexemeKind)
      → Next src x (perform (operator if_a b if_ab c' if_ac d if_acd) x)
  unfolding perform
  operator-Next if_a b if_ab c' if_ac d if_acd =
      let (lo, hi) = choice1223_bounds c s if_a b if_ab c' if_ac d if_acd in
      make_lexeme_advance-Next src x w _ _ (rw e lo) (rw e hi)

module _ (src : Bytes) where
  -- a fake semicolon has no bytes; the flag then keeps a second one from being inserted here
  fake_semicolon-Next :
      (x : Lexer)
      → Within src x
      → x.inserted_semicolon_flag ≡ false
      → Next src x (fake_semicolon (record x { inserted_semicolon_flag = true }))
  unfolding fake_semicolon advance
  fake_semicolon-Next x w f =
      let same : x.cur + 0 ≡ x.cur = omega arith in
      record {
        within = record {
          rest = rw same w.rest;
          cur = omega (arith, w.cur);
          line = omega (arith, w.line);
        };
        from = omega arith;
        span = omega arith;
        column = omega arith;
        progress = inr (ground arith);
      }

  -- the end of the source: nothing is left to pass
  eof-Next :
      (x : Lexer)
      → Within src x
      → (flag : Bool)
      → Next src x
          (make_lexeme_advance (record x { inserted_semicolon_flag = flag }) LexemeKind.lk_eof 0)
  unfolding advance make_lexeme_advance
  eof-Next x w flag =
      let same : x.cur + 0 ≡ x.cur = omega arith in
      record {
        within = record {
          rest = rw same w.rest;
          cur = omega (arith, w.cur);
          line = omega (arith, w.line);
        };
        from = omega arith;
        span = omega arith;
        column = omega arith;
        progress = inl refl;
      }

  close_brace_token-Next :
      (ctx flag : Bool) (x : Lexer) (c : ℕ) (s : Bytes)
      → Within src x
      → x.rest ≡ c ∷ s
      → x.inserted_semicolon_flag ≡ flag
      → Next src x (close_brace_token (insert_semicolon_when ctx flag x))
  unfolding close_brace_token insert_semicolon_when advance
  close_brace_token-Next true flag x c s w e f =
      one_byte-Next src x w c s e LexemeKind.lk_rbrace _ x.err_msg
  close_brace_token-Next false true x c s w e f =
      make_lexeme-Next src x w 0 (omega (arith, ap length e)) LexemeKind.lk_rbrace x.cur _ refl refl
        refl (omega arith) (omega arith)
  close_brace_token-Next false false x c s w e f = fake_semicolon-Next x w f

  perform-Next :
      (a : Action) (x : Lexer) (c : ℕ) (s : Bytes)
      → Within src x
      → x.rest ≡ c ∷ s
      → Next src x (perform a x)
  unfolding perform insert_semicolon
  perform-Next do_number x c s w e = number-Next src x w c s e
  perform-Next do_identifier x c s w e = identifier-Next src x w c s e
  perform-Next do_string x c s w e = string-Next src x w c s e
  perform-Next (operator if_a b if_ab c' if_ac d if_acd) x c s w e =
      operator-Next src x w c s e if_a b if_ab c' if_ac d if_acd
  perform-Next close_brace x c s w e = close_brace_token-Next _ _ x c s w e refl
  perform-Next (open_bracket k) x c s w e = one_byte-Next src x w c s e k _ _
  perform-Next (close_bracket k) x c s w e = one_byte-Next src x w c s e k _ _
  perform-Next (single k) x c s w e = one_byte-Next src x w c s e k _ _
  perform-Next open_brace x c s w e = one_byte-Next src x w c s e LexemeKind.lk_lbrace _ _
  perform-Next unexpected x c s w e = one_byte-Next src x w c s e LexemeKind.lk_error _ _

  at_end-Next :
      (ctx flag : Bool) (x : Lexer)
      → Within src x
      → x.inserted_semicolon_flag ≡ flag
      → Next src x (at_end (insert_semicolon_when ctx flag x))
  unfolding at_end insert_semicolon_when
  at_end-Next true flag x w f = eof-Next x w x.inserted_semicolon_flag
  at_end-Next false true x w f = eof-Next x w false
  at_end-Next false false x w f = fake_semicolon-Next x w f

  -- a round that returns no lexeme: it passes bytes, and leaves no fewer lexemes to come
  pub record Passed (x x' : Lexer) : Type 0 where
    pub within : Within src x'
    pub from : x.cur ≤ x'.cur
    pub shorter : length x'.rest < length x.rest
    pub progress : pending x' < pending x

  unfoldable pub Result : Lexer → Round → Type 0
  Result x (found r) = Next src x r
  Result x (passed x') = Passed x x'

  advance-Passed :
      (x : Lexer) (n : ℕ) → Within src x → suc n ≤ length x.rest → Passed x (advance x (suc n))
  unfolding advance
  advance-Passed x n w h = record {
    within = advance-Within src x (suc n) h w;
    from = omega arith;
    shorter = omega (arith, length-drop (suc n) x.rest);
    progress = ground (arith, length-drop (suc n) x.rest);
  }

  new_line-Passed :
      (x : Lexer)
      → Within src x
      → 1 ≤ length x.rest
      → (flag : Bool) → Passed x (new_line (record x { inserted_semicolon_flag = flag }))
  unfolding new_line advance
  new_line-Passed x w h flag =
      let w' = advance-Within src x 1 h w in
      record {
        within = record { rest = w'.rest; cur = w'.cur; line = omega arith };
        from = omega arith;
        shorter = omega (arith, length-drop 1 x.rest);
        progress = ground (arith, length-drop 1 x.rest);
      }

  line_end-Result :
      (ctx flag : Bool) (x : Lexer)
      → Within src x
      → 1 ≤ length x.rest
      → x.inserted_semicolon_flag ≡ flag
      → Result x (line_end (insert_semicolon_when ctx flag x))
  unfolding line_end insert_semicolon_when new_line advance Result
  line_end-Result true flag x w h f = new_line-Passed x w h x.inserted_semicolon_flag
  line_end-Result false true x w h f = new_line-Passed x w h false
  line_end-Result false false x w h f = fake_semicolon-Next x w f

  pub next_round-Result :
      (s : Bytes) (x : Lexer) → Within src x → x.rest ≡ s → Result x (next_round s x)
  unfolding next_round insert_semicolon Result
  next_round-Result [] x w e = at_end-Next _ _ x w refl
  next_round-Result (c ∷ s) x w e =
      let pos : 1 ≤ length x.rest = omega (arith, ap length e) in
      elim (Bool-cases (c == b' ' || c == b'\t')) [
        | inl p ↦ rw p (advance-Passed x 0 w pos)
        | inr p ↦ elim (Bool-cases (c == b'\n')) [
          | inl q ↦ rw (p, q) (line_end-Result _ _ x w pos refl)
          | inr q ↦ elim (Bool-cases (c == b'#')) [
            | inl r ↦
                rw (p, q, r)
                  (advance-Passed x (comment_loop s) w
                    (omega (arith, ap length e, comment_loop-le s)))
            | inr r ↦ rw (p, q, r) (unfold token in perform-Next (dispatch c) x c s w e)
          ]
        ]
      ]
