-- ===== src/Parser/Fuel/Rules.antt =====
-- parse.c: bounds on the lexemes that are to come, before an operation and behind it.
use calx.Base.{
  ℕ, zero, suc, ◌+◌, ◌≤◌, ◌<◌, ◌≡◌, refl, sym, ap, ◌∙◌, ◌⊎◌, inl, inr, Bool, true, false, not,
  Bytes, arith, ◌==◌, if◌then◌else◌, ==_iff,
}
use mathlib.Core.Path.{subst}
use calx.Lexer.Bounds.{Within, pending}
use calx.Lexer.Kinds.{LexemeKind, Lexeme, same_kind, kind_index}
use calx.Lexer.Loop.{lexer_next-Next}
use calx.Lexer.Token.{Lexer}
use calx.Parser.Fuel.Keeps.{Post, Post-then, Post-if, Same, Keeps}
use calx.Parser.Resolve.{guard}
use calx.Parser.State.{
  cur_lexeme, Parser, Parse, parsed, thrown, undefined, exhausted, M, ◌>>=◌, pure, throw_error_at,
  take_lexeme, take_next, advance, slurp, gets,
}
use Prim.Native.String.{String}

abbrev pub is_eof : LexemeKind → Bool
is_eof k = same_kind k LexemeKind.lk_eof

-- How many lexemes may come, the current one included.
abbrev pub measure : Parser → ℕ
measure p = if is_eof p.cur.kind then 0 else pending p.lexer + 1

pub record Triple {A : Type 0} (P : Parser → Type 0) (m : M A) (Q : A → Parser → Type 0)
    : Type 0 where
  pub apply : (p : Parser) → P p → Post Q (m p)

module _ (src : Bytes) where
  -- fewer than n lexemes
  pub record Below (n : ℕ) (p : Parser) : Type 0 where
    pub within : Within src p.lexer
    pub bound : measure p < n

  -- and the current one is not the end
  pub record Ready (n : ℕ) (p : Parser) : Type 0 where
    pub below : Below n p
    pub kind : is_eof p.cur.kind ≡ false

  pub record At (n : ℕ) (cur : Lexeme) (p : Parser) : Type 0 where
    pub below : Below n p
    pub is : p.cur ≡ cur

  Below-Same : {n : ℕ} (p p' : Parser) → Same p p' → Below n p → Below n p'
  Below-Same {n} p p' s b = record {
    within = subst (λ l. Within src l) (sym s.0) b.within;
    bound =
        subst (λ (r : Lexer × Lexeme). (if is_eof r.1.kind then 0 else pending r.0 + 1) < n)
          (λ i. (sym s.0 i, sym s.1 i)) b.bound;
  }

  Below-le : {m n : ℕ} {p : Parser} → m ≤ n → Below m p → Below n p
  Below-le h b = record { within = b.within; bound = omega (arith, b.bound) }

  pub Below-keep :
      {A : Type 0} {n : ℕ} (m : M A) → Keeps m → Triple (Below n) m (λ (a : A). Below n)
  Below-keep {A} {n} m k = record { apply = λ p b. moved p (m p) b (k.apply p) }
    where
      moved :
          (p : Parser) (r : Parse A)
          → Below n p
          → Post (λ (a : A) (p' : Parser). Same p p') r
          → Post (λ (a : A). Below n) r
      moved p (parsed a p') b s = Below-Same p p' s b
      moved p (thrown e s') b s = tt
      moved p undefined b s = tt
      moved p exhausted b s = s

  pub Ready-keep :
      {A : Type 0} {n : ℕ} (m : M A) → Keeps m → Triple (Ready n) m (λ (a : A). Ready n)
  Ready-keep {A} {n} m k = record { apply = λ p b. moved p (m p) b (k.apply p) }
    where
      moved :
          (p : Parser) (r : Parse A)
          → Ready n p
          → Post (λ (a : A) (p' : Parser). Same p p') r
          → Post (λ (a : A). Ready n) r
      moved p (parsed a p') b s = record {
        below = Below-Same p p' s b.below;
        kind = ap (λ (l : Lexeme). is_eof l.kind) s.1 ∙ b.kind;
      }
      moved p (thrown e s') b s = tt
      moved p undefined b s = tt
      moved p exhausted b s = s

module _ {A B : Type 0} {P : Parser → Type 0} {Q : A → Parser → Type 0}
    {R : B → Parser → Type 0} where
  pub bind :
      (m : M A) (f : A → M B)
      → Triple P m Q
      → ((a : A) → Triple (Q a) (f a) R)
      → Triple P (m >>= f) R
  unfolding ◌>>=◌
  bind m f h k = record {
    apply = λ p w. Post-then Q R (m p) f (h.apply p w) (λ a q v. (k a).apply q v);
  }

module _ {A : Type 0} {P : Parser → Type 0} {Q : A → Parser → Type 0} where
  pub return : (a : A) → ((p : Parser) → P p → Q a p) → Triple P (pure a) Q
  unfolding pure
  return a h = record { apply = h }

  pub throw_at : (msg : String) (l : Lexeme) → Triple P (throw_error_at msg l) Q
  unfolding throw_error_at
  throw_at msg l = record { apply = λ p w. tt }

  pub either :
      (b : Bool) (m n : M A)
      → (b ≡ true → Triple P m Q)
      → (b ≡ false → Triple P n Q)
      → Triple P (if b then m else n) Q
  either true m n h k = h refl
  either false m n h k = k refl

  pub before :
      {P' : Parser → Type 0} (m : M A) → ((p : Parser) → P p → P' p) → Triple P' m Q → Triple P m Q
  before m w h = record { apply = λ p v. h.apply p (w p v) }

  pub after :
      {R : A → Parser → Type 0} (m : M A)
      → Triple P m Q
      → ((a : A) (p : Parser) → Q a p → R a p)
      → Triple P m R
  after {R} m h w = record { apply = λ p v. weaken (m p) (h.apply p v) }
    where
      weaken : (r : Parse A) → Post Q r → Post R r
      weaken (parsed a p') q = w a p' q
      weaken (thrown e s) q = tt
      weaken undefined q = tt
      weaken exhausted q = q

module _ (src : Bytes) where
  take_lexeme-Below :
      (n : ℕ) (p : Parser) (r : Lexeme × Lexer)
      → pending p.lexer + 1 ≤ n
      → Within src r.1
      → (r.0.kind ≡ LexemeKind.lk_eof) ⊎ (pending r.1 < pending p.lexer)
      → Post (λ (a : Unit {0}). Below src n) (take_lexeme r p)
  unfolding take_lexeme throw_error_at kind_index
  take_lexeme-Below n p r h w (inl e) =
      Post-if (λ (a : Unit {0}). Below src n) (same_kind r.0.kind LexemeKind.lk_error) _ _ tt
        (record { within = w; bound = rw e (omega arith) })
  take_lexeme-Below n p r h w (inr lt) =
      Post-if (λ (a : Unit {0}). Below src n) (same_kind r.0.kind LexemeKind.lk_error) _ _ tt
        (record { within = w; bound = ground arith })

  counted :
      (n : ℕ) (eof : Bool) (k : ℕ) → (if eof then 0 else k + 1) < suc n → eof ≡ false → k + 1 ≤ n
  counted n eof k h e = ground arith

  pub advance-Below : (n : ℕ) → Triple (Ready src (suc n)) advance (λ (a : Unit {0}). Below src n)
  unfolding advance
  advance-Below n = record {
    apply = λ p b.
        let (r, e, nx) = lexer_next-Next src p.lexer b.below.within in
        subst (λ o. Post (λ (a : Unit {0}). Below src n) (take_next o p)) (sym e)
          (take_lexeme-Below n p r
            (counted n (is_eof p.cur.kind) (pending p.lexer) b.below.bound b.kind) nx.within
            nx.progress);
  }

  pub Below-suc : {n : ℕ} (p : Parser) → Below src n p → Below src (suc n) p
  Below-suc p b = record { within = b.within; bound = omega (arith, b.bound) }

  -- an operation with the current lexeme
  pub with_current :
      {A : Type 0} {n : ℕ} {Q : A → Parser → Type 0} (f : Lexeme → M A)
      → ((cur : Lexeme) → Triple (At src n cur) (f cur) Q)
      → Triple (Below src n) (cur_lexeme >>= f) Q
  unfolding cur_lexeme ◌>>=◌ gets
  with_current f h = record { apply = λ p b. (h p.cur).apply p (record { below = b; is = refl }) }

  pub At-keep :
      {A : Type 0} {n : ℕ} (cur : Lexeme) (m : M A)
      → Keeps m
      → Triple (At src n cur) m (λ (a : A). At src n cur)
  At-keep {A} {n} cur m k = record { apply = λ p b. moved p (m p) b (k.apply p) }
    where
      moved :
          (p : Parser) (r : Parse A)
          → At src n cur p
          → Post (λ (a : A) (p' : Parser). Same p p') r
          → Post (λ (a : A). At src n cur) r
      moved p (parsed a p') b s = record { below = Below-Same src p p' s b.below; is = s.1 ∙ b.is }
      moved p (thrown e s') b s = tt
      moved p undefined b s = tt
      moved p exhausted b s = s

  -- with what is known before
  pub with_current_known :
      {A : Type 0} {P : Parser → Type 0} {Q : A → Parser → Type 0} (f : Lexeme → M A)
      → ((cur : Lexeme) → Triple (λ p. P p × (p.cur ≡ cur)) (f cur) Q)
      → Triple P (cur_lexeme >>= f) Q
  unfolding cur_lexeme ◌>>=◌ gets
  with_current_known f h = record { apply = λ p w. (h p.cur).apply p (w, refl) }

  -- where the current lexeme is not the end
  pub ready :
      {A : Type 0} {n : ℕ} {Q : A → Parser → Type 0} (cur : Lexeme) (m : M A)
      → is_eof cur.kind ≡ false
      → Triple (Ready src n) m Q
      → Triple (At src n cur) m Q
  ready {n} cur m e h =
      before m
        (λ p a. record { below = a.below; kind = ap (λ (l : Lexeme). is_eof l.kind) a.is ∙ e }) h

  -- where it does not matter
  pub any :
      {A : Type 0} {n : ℕ} {Q : A → Parser → Type 0} (cur : Lexeme) (m : M A)
      → Triple (Below src n) m Q
      → Triple (At src n cur) m Q
  any cur m h = before m (λ p a. a.below) h

  pub known : (j k : LexemeKind) → same_kind j k ≡ true → is_eof k ≡ false → is_eof j ≡ false
  unfolding kind_index
  known j k e f =
      subst (λ t. (t == 13) ≡ false) (sym ((==_iff (kind_index j) (kind_index k)).0 e)) f

  pub slurp-Below :
      (n : ℕ) (k : LexemeKind) (msg : String)
      → is_eof k ≡ false
      → Triple (Below src (suc n)) (slurp k msg) (λ (a : Unit {0}). Below src n)
  unfolding slurp
  slurp-Below n k msg e = with_current _ (λ cur.
      either _ _ _ (λ s. ready cur _ (known cur.kind k s e) (advance-Below n))
        (λ s. throw_at msg cur))

  -- a check that throws, or that has passed
  pub check :
      {P : Parser → Type 0} (b : Bool) (msg : String) (l : Lexeme)
      → Triple P (guard b (throw_error_at msg l)) (λ (a : Unit {0}) p. P p × (b ≡ false))
  unfolding guard
  check true msg l = throw_at msg l
  check false msg l = return tt (λ p w. (w, refl))

  pub slurp-weak :
      (n : ℕ) (k : LexemeKind) (msg : String)
      → is_eof k ≡ false
      → Triple (Below src n) (slurp k msg) (λ (a : Unit {0}). Below src n)
  slurp-weak zero k msg e = record { apply = λ p b. absurd (omega (arith, b.bound)) }
  slurp-weak (suc n) k msg e = after _ (slurp-Below n k msg e) (λ a p b. Below-suc p b)

  pub advance-Ready : (n : ℕ) → Triple (Ready src n) advance (λ (a : Unit {0}). Below src n)
  advance-Ready zero = record { apply = λ p b. absurd (omega (arith, b.below.bound)) }
  advance-Ready (suc n) = after _ (advance-Below n) (λ a p b. Below-suc p b)

pub not-false : (b : Bool) → not b ≡ false → b ≡ true
not-false true e = refl
not-false false e = cc
