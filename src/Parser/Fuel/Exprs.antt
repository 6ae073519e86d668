-- ===== src/Parser/Fuel/Exprs.antt =====
-- parse.c: `expr` takes enough lexemes for its fuel.
use calx.Base.{ℕ, zero, suc, ◌≤◌, Bool, true, Option, none, some, Bytes, arith}
use calx.Number.Deci.{Deci}
use calx.Parser.Expr.{then_round, expr_loop, expr}
use calx.Parser.Fuel.Calls.{never, Bounded}
use calx.Parser.Fuel.Rules.{Triple, Below, bind, return, after, Below-suc, with_current}
use calx.Parser.State.{Parser, M}
use calx.Parser.Fuel.Rounds.{Stopped, After, round-After}

-- Behind an expression with a least priority the lexeme is Stopped.
abbrev pub Ended : Bytes → ℕ → ℕ → Parser → Type 0
Ended src q n p = Below src n p × Stopped q p.cur.kind

then_round-Below :
    (src : Bytes) (q n : ℕ) (again : Bool → M (Unit {0}))
    → ((e : Bool) → Triple (Below src n) (again e) (λ (a : Unit {0}). Ended src q n))
    → (go_on : Option Bool)
    → Triple (After src q n go_on) (then_round go_on again) (λ (a : Unit {0}). Ended src q (suc n))
unfolding then_round
then_round-Below src q n again h none = return tt (λ p b. b)
then_round-Below src q n again h (some e) = after _ (h e) (λ a p b. (Below-suc src p b.0, b.1))

module _ (src : Bytes) (d : Deci) (bits : ℕ) where
  module _ (expr : ℕ → M (Unit {0})) (fuel : ℕ) (bounded : Bounded src fuel expr) where
    expr_loop-Ended :
        (n rounds q : ℕ) (expect : Bool)
        → n ≤ rounds
        → n ≤ suc fuel
        → Triple
            (Below src n)
            (expr_loop d bits expr (suc fuel) rounds q expect)
            (λ (a : Unit {0}). Ended src q n)
    unfolding expr_loop
    expr_loop-Ended zero rounds q expect h k = never src _
    expr_loop-Ended (suc n) zero q expect h k = absurd (omega arith)
    expr_loop-Ended (suc n) (suc rounds) q expect h k = record {
      apply =
          (with_current src _ (λ cur.
            bind _ _
              (round-After src d bits expr fuel bounded (suc fuel) n q (omega arith) (omega arith)
                expect cur)
              (then_round-Below src q n _
                (λ e. expr_loop-Ended n rounds q e (omega arith) (omega arith))))).apply;
    }

  pub expr-Ended :
      (fuel n q : ℕ)
      → n ≤ fuel
      → Triple (Below src n) (expr d bits fuel q) (λ (a : Unit {0}). Ended src q n)
  unfolding expr
  expr-Ended zero zero q h = never src _
  expr-Ended zero (suc n) q h = absurd (omega arith)
  expr-Ended (suc fuel) n q h = record {
    apply =
        (expr_loop-Ended (expr d bits fuel) fuel
          (λ m r l. after _ (expr-Ended fuel m r l) (λ a p b. b.0)) n (suc fuel) q true h h).apply;
  }

  pub expr-Bounded : (fuel : ℕ) → Bounded src fuel (expr d bits fuel)
  expr-Bounded fuel n q h = after _ (expr-Ended fuel n q h) (λ a p b. b.0)
