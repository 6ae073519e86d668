-- ===== src/Parser/Fuel/Programs.antt =====
-- parse.c: `stmt` and `parse` end within their fuel.
use calx.Base.{
  ℕ, zero, suc, ◌+◌, ◌*◌, ◌≤◌, ◌≡◌, ◌≢◌, refl, sym, ap, ◌∙◌, ◌⊎◌, inl, inr, false, Bytes, arith,
  length,
}
use calx.Lexer.Kinds.{LexemeKind, Lexeme, kind_index}
use calx.Lexer.Loop.{lexer_new-Within}
use calx.Lexer.Token.{lexer_new}
use calx.Number.Deci.{Deci}
use calx.Parser.Assign.{stmt_case, end_case}
use calx.Parser.Expr.{expr}
use calx.Parser.Fuel.Blocks.{Behind, by_end-Triple, Steps, stmt_by-Behind}
use calx.Parser.Fuel.Calls.{never}
use calx.Parser.Fuel.Exprs.{expr-Bounded}
use calx.Parser.Fuel.Keeps.{Post}
use calx.Parser.Fuel.Rules.{
  Triple, Below, Ready, At, is_eof, Below-keep, Ready-keep, bind, return, throw_at, after,
  advance-Ready, Below-suc, with_current, ready,
}
use calx.Parser.Fuel.Scopes.{Keeps-fun_begin, Keeps-fun_end}
use calx.Parser.Main.{parse_loop, parse_program, out_of_fuel, finish_parse, parse}
use calx.Parser.Params.{end_of, goes_on}
use calx.Parser.State.{Parser, Parse, parsed, thrown, undefined, exhausted, parser_new}
use calx.Parser.Stmt.{stmt, stmt_by}
use calx.Vm.State.{State}

-- a statement is empty just before an end
stmt_case-cases :
    (k : LexemeKind)
    → ((stmt_case k ≡ end_case) × (end_of k ≢ goes_on))
      ⊎ ((is_eof k ≡ false) × (stmt_case k ≢ end_case))
unfolding stmt_case end_of kind_index
stmt_case-cases LexemeKind.lk_eof = inl (refl, λ e. cc)
stmt_case-cases LexemeKind.lk_rbrace = inl (refl, λ e. cc)
stmt_case-cases LexemeKind.lk_and = inr (refl, λ e. cc)
stmt_case-cases _ = inr (refl, λ e. cc)

module _ (src : Bytes) (d : Deci) (bits : ℕ) where
  stmt-Steps : (fuel : ℕ) → Steps src fuel (stmt d bits fuel)
  unfolding stmt
  stmt-Steps zero n h = absurd (omega arith)
  stmt-Steps (suc fuel) n h = record {
    apply =
        (with_current src _ (λ cur. elim (stmt_case-cases cur.kind) [
          | inl c ↦ rw c.0 (unfold stmt_by in return tt (λ p w. empty p cur w c.1))
          | inr c ↦ ready src cur _ c.0 (
              stmt_by-Behind src (expr d bits (suc fuel)) (stmt d bits fuel) fuel (suc fuel)
                (expr-Bounded src d bits (suc fuel)) (stmt-Steps fuel) (omega arith) n (omega arith)
                (stmt_case cur.kind) cur h c.1)
        ])).apply;
  }
    where
      empty :
          (p : Parser) (cur : Lexeme)
          → At src (suc n) cur p
          → end_of cur.kind ≢ goes_on
          → Behind src n p
      empty p cur w ne = record {
        below = w.below;
        less = λ e. absurd (ne (ap (λ (l : Lexeme). end_of l.kind) (sym w.is) ∙ e));
      }

  parse_loop-Below :
      (fuel n rounds : ℕ)
      → n ≤ rounds
      → n ≤ fuel
      → Triple (Below src n) (parse_loop d bits fuel rounds) (λ (a : Unit {0}). Below src n)
  unfolding parse_loop
  parse_loop-Below fuel zero rounds h k = never src _
  parse_loop-Below fuel (suc n) zero h k = absurd (omega arith)
  parse_loop-Below fuel (suc n) (suc rounds) h k = record {
    apply =
        (bind _ _ (stmt-Steps fuel n k) (λ _.
          by_end-Triple src n _ _ _ (λ cur. return tt (λ p b. b)) (λ cur. throw_at _ cur)
            (λ cur.
              after _ (parse_loop-Below fuel n rounds (omega arith) (omega arith))
                (λ a p b. Below-suc src p b)))).apply;
  }

  program-Below :
      (fuel : ℕ)
      → Triple (Ready src fuel) (parse_program d bits fuel) (λ (a : Unit {0}). Below src fuel)
  unfolding parse_program
  program-Below fuel = bind _ _ (Ready-keep src _ Keeps-fun_begin) (λ fun_pos.
      bind _ _ (advance-Ready src fuel) (λ _.
        bind _ _ (parse_loop-Below fuel fuel fuel (omega arith) (omega arith))
          (λ _. Below-keep src _ (Keeps-fun_end fun_pos))))

  parser_new-Ready : (state : State) → Ready src (2 * length src + 3) (parser_new src state)
  unfolding parser_new kind_index lexer_new
  parser_new-Ready state = record {
    below = record { within = unfold lexer_new in lexer_new-Within src; bound = omega arith };
    kind = refl;
  }

finish_parse-Post :
    (Q : Unit {0} → Parser → Type 0) (r : Parse (Unit {0}))
    → Post Q r
    → finish_parse r ≢ out_of_fuel
unfolding finish_parse
finish_parse-Post Q (parsed u p) h e = cc
finish_parse-Post Q (thrown e s) h e' = cc
finish_parse-Post Q undefined h e = cc
finish_parse-Post Q exhausted h e = h

-- The parser ends on every source, within the rounds and the levels of nesting that are counted from the
-- length of the source.
pub parse-ends :
    (d : Deci) (bits : ℕ) (state : State) (source : Bytes) → parse d bits state source ≢ out_of_fuel
unfolding parse
parse-ends d bits state source =
    finish_parse-Post (λ (a : Unit {0}). Below source (2 * length source + 3)) _
      ((program-Below source d bits (2 * length source + 3)).apply (parser_new source state)
        (parser_new-Ready source d bits state))
