-- ===== src/Lexer/Bounds.antt =====
-- lexer.c: how far each loop over the source moves, and where a lexeme ends.
use calx.Base.{
  ℕ, zero, suc, ◌+◌, ◌*◌, ◌≤◌, ◌<◌, ◌≡◌, refl, ap, ◌∙◌, ◌⊎◌, inr, Bool, true, false, [], ◌∷◌, Bytes,
  arith, length, drop, length-drop, if◌then◌else◌,
}
use calx.Lexer.Kinds.{LexemeKind, Lexeme}
use calx.Lexer.Scan.{number_loop, string_loop, identifier_loop, choice1223}
use calx.Lexer.Token.{Lexer, advance, make_lexeme_advance, comment_loop}

pub number_loop-le : (seen : Bool) (s : Bytes) → number_loop seen s ≤ length s
unfolding number_loop
number_loop-le seen [] = omega arith
number_loop-le seen (c ∷ s) = ground (arith, number_loop-le seen s, number_loop-le true s)

pub string_loop-le : (escaped : Bool) (s : Bytes) → (string_loop escaped s).0 ≤ length s
unfolding string_loop
string_loop-le true [] = omega arith
string_loop-le false [] = omega arith
string_loop-le true (c ∷ s) = ground (arith, string_loop-le false s)
string_loop-le false (c ∷ s) = ground (arith, string_loop-le false s, string_loop-le true s)

pub identifier_loop-le : (s : Bytes) → identifier_loop s ≤ length s
unfolding identifier_loop
identifier_loop-le [] = omega arith
identifier_loop-le (c ∷ s) = ground (arith, identifier_loop-le s)

pub comment_loop-le : (s : Bytes) → comment_loop s ≤ length s
unfolding comment_loop
comment_loop-le [] = omega arith
comment_loop-le (c ∷ s) = ground (arith, comment_loop-le s)

-- an operator has one byte at least, and no more than the source has left
pub choice1223_bounds :
    (c₀ : ℕ) (s : Bytes) (if_a : LexemeKind) (b : ℕ) (if_ab : LexemeKind) (c : ℕ)
    (if_ac : LexemeKind) (d : ℕ) (if_acd : LexemeKind)
    → (1 ≤ (choice1223 (c₀ ∷ s) if_a b if_ab c if_ac d if_acd).1)
      × ((choice1223 (c₀ ∷ s) if_a b if_ab c if_ac d if_acd).1 ≤ suc (length s))
unfolding choice1223
choice1223_bounds c₀ [] if_a b if_ab c if_ac d if_acd = omega arith
choice1223_bounds c₀ (e ∷ []) if_a b if_ab c if_ac d if_acd = ground arith
choice1223_bounds c₀ (e ∷ f ∷ s) if_a b if_ab c if_ac d if_acd = ground arith

drop-nil : (n : ℕ) → drop {A = ℕ} n [] ≡ []
drop-nil zero = refl
drop-nil (suc n) = refl

drop-drop : (n m : ℕ) (xs : Bytes) → drop n (drop m xs) ≡ drop (m + n) xs
drop-drop n zero xs = let e : 0 + n ≡ n = omega arith in rw e
drop-drop n (suc m) [] = rw (drop-nil n, drop-nil (suc m + n))
drop-drop n (suc m) (x ∷ xs) =
    let e : suc m + n ≡ suc (m + n) = omega arith in rw e (drop-drop n m xs)

-- The cursor and the bytes left agree with the source.
pub record Within (src : Bytes) (x : Lexer) : Type 0 where
  pub rest : x.rest ≡ drop x.cur src
  pub cur : x.cur ≤ length src
  pub line : x.line_start ≤ x.cur

pub length-rest : (src : Bytes) (x : Lexer) → Within src x → length x.rest + x.cur ≡ length src
length-rest src x w = omega (arith, ap length w.rest, length-drop x.cur src, w.cur)

pub advance-Within :
    (src : Bytes) (x : Lexer) (n : ℕ) → n ≤ length x.rest → Within src x → Within src (advance x n)
unfolding advance
advance-Within src x n h w = record {
  rest = ap (drop n) w.rest ∙ drop-drop n x.cur src;
  cur = omega (arith, length-rest src x w);
  line = omega (arith, w.line);
}

-- No lexeme ends a second time at the same place in the same way: twice the bytes that are left,
-- and one more while a fake semicolon may still be inserted here.
abbrev pub pending : Lexer → ℕ
pending x = 2 * length x.rest + (if x.inserted_semicolon_flag then 0 else 1)

-- `r` is the lexeme that comes next after `x`, and the lexer behind it: the lexeme is a part of the
-- source between the two cursors, its column counts from 1, and the lexer has moved on.
pub record Next (src : Bytes) (x : Lexer) (r : Lexeme × Lexer) : Type 0 where
  pub within : Within src r.1
  pub from : x.cur ≤ r.0.start
  pub span : r.0.start + r.0.size ≡ r.1.cur
  pub column : 1 ≤ r.0.column
  pub progress : (r.0.kind ≡ LexemeKind.lk_eof) ⊎ (pending r.1 < pending x)

module _ (src : Bytes) (x : Lexer) (w : Within src x) where
  -- a lexeme of at least one byte
  pub make_lexeme_advance-Next :
      (kind : LexemeKind) (n : ℕ)
      → 1 ≤ n
      → n ≤ length x.rest
      → Next src x (make_lexeme_advance x kind n)
  unfolding make_lexeme_advance
  make_lexeme_advance-Next kind n pos h = record {
    within = advance-Within src x n h w;
    from = omega arith;
    span = omega arith;
    column = omega arith;
    progress = inr (ground (arith, length-drop n x.rest));
  }
