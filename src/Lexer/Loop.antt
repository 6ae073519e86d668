-- ===== src/Lexer/Loop.antt =====
-- lexer.c: the loop of `lexer_next`, and the calls of it up to the end of the source.
use calx.Base.{
  ℕ, zero, suc, ◌+◌, ◌*◌, ◌≤◌, ◌<◌, ◌≡◌, refl, ◌⊎◌, inl, inr, Option, some, Bytes, arith, length,
}
use calx.Lexer.Bounds.{Within, pending, Next}
use calx.Lexer.Kinds.{LexemeKind, Lexeme}
use calx.Lexer.Next.{Passed, Result, next_round-Result}
use calx.Lexer.Token.{Lexer, Round, found, passed, next_round, next_loop, lexer_new, lexer_next}

module _ (src : Bytes) where
  Next-Passed : (x x' : Lexer) (r : Lexeme × Lexer) → Passed src x x' → Next src x' r → Next src x r
  Next-Passed x x' r p n = record {
    within = n.within;
    from = omega (arith, p.from, n.from);
    span = n.span;
    column = n.column;
    progress = later n.progress;
  }
    where
      later :
          (r.0.kind ≡ LexemeKind.lk_eof) ⊎ (pending r.1 < pending x')
          → (r.0.kind ≡ LexemeKind.lk_eof) ⊎ (pending r.1 < pending x)
      later (inl e) = inl e
      later (inr h) = let q : pending x' < pending x = p.progress in inr (omega arith)

  abbrev Returns : Lexer → Option (Lexeme × Lexer) → Type 0
  Returns x o = (r : Lexeme × Lexer) × (o ≡ some r) × Next src x r

  -- the match of the loop on a round, with the loop's rest as an argument
  after_round-Next :
      (x : Lexer) (again : Lexer → Option (Lexeme × Lexer)) (q : Round)
      → Result src x q
      → ((x' : Lexer) → Passed src x x' → Returns x' (again x'))
      → Returns x (elim q [ found r ↦ some r | passed x' ↦ again x' ])
  unfolding Result
  after_round-Next x again (found r) n ih = (r, refl, n)
  after_round-Next x again (passed x') p ih =
      let (r, e, n) = ih x' p in (r, e, Next-Passed x x' r p n)

  next_loop-Next :
      (fuel : ℕ) (x : Lexer) → Within src x → length x.rest < fuel → Returns x (next_loop fuel x)
  unfolding next_loop
  next_loop-Next zero x w h = absurd (omega arith)
  next_loop-Next (suc fuel) x w h =
      after_round-Next x (next_loop fuel) (next_round x.rest x)
        (next_round-Result src x.rest x w refl)
        (λ x' p. next_loop-Next fuel x' p.within (omega (arith, p.shorter)))

  -- From every lexer that stands inside its source, `lexer_next` returns a lexeme. The lexeme is
  -- the part of the source up to the new cursor, it starts no earlier than the old one, and the
  -- lexer moves on unless the lexeme is the end of the source.
  pub lexer_next-Next :
      (x : Lexer) → Within src x → (r : Lexeme × Lexer) × (lexer_next x ≡ some r) × Next src x r
  unfolding lexer_next
  lexer_next-Next x w = next_loop-Next (suc (length x.rest)) x w (omega arith)

pub lexer_new-Within : (src : Bytes) → Within src (lexer_new src)
unfolding lexer_new
lexer_new-Within src = record { rest = refl; cur = omega arith; line = omega arith }

-- The calls of `lexer_next` up to the end of the source: at most `n` of them.
pub data Ends : ℕ → Lexer → Type 0 where
  last :
      {n : ℕ} {x : Lexer} (r : Lexeme × Lexer)
      → lexer_next x ≡ some r
      → r.0.kind ≡ LexemeKind.lk_eof
      → Ends (suc n) x
  more :
      {n : ℕ} {x : Lexer} (r : Lexeme × Lexer)
      → lexer_next x ≡ some r
      → x.cur ≤ r.0.start
      → Ends n r.1
      → Ends (suc n) x

Ends-step :
    (src : Bytes) (n : ℕ) (x : Lexer)
    → ((x' : Lexer) → Within src x' → pending x' < n → Ends n x')
    → pending x < suc n
    → (r : Lexeme × Lexer) → lexer_next x ≡ some r
    → Next src x r
    → (r.0.kind ≡ LexemeKind.lk_eof) ⊎ (pending r.1 < pending x)
    → Ends (suc n) x
Ends-step src n x ih h r e nx (inl eof) = last r e eof
Ends-step src n x ih h r e nx (inr lt) = more r e nx.from (ih r.1 nx.within (omega arith))

Ends-pending : (src : Bytes) (n : ℕ) (x : Lexer) → Within src x → pending x < n → Ends n x
Ends-pending src zero x w h = absurd (omega arith)
Ends-pending src (suc n) x w h =
    let (r, e, nx) = lexer_next-Next src x w in
    Ends-step src n x (Ends-pending src n) h r e nx nx.progress

-- A new lexer reaches the end of any source of n bytes in at most 2 n + 2 calls, each of which
-- returns a lexeme.
pub lexer_new-Ends : (src : Bytes) → Ends (2 * length src + 2) (lexer_new src)
unfolding lexer_new
lexer_new-Ends src =
    Ends-pending src (2 * length src + 2) (lexer_new src) (lexer_new-Within src) (omega arith)
