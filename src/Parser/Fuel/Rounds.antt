-- ===== src/Parser/Fuel/Rounds.antt =====
-- parse.c: a round of `expr` takes a lexeme, or it ends the expression.
use calx.Base.{
  ltb→lt, ◌≢◌, ◌<◌, ℕ, suc, ◌≤◌, ◌≡◌, refl, sym, ap, ◌∙◌, Bool, true, false, not, inl, inr, ◌⊎◌,
  Option, none, some, Bytes, if◌then◌else◌, ltb,
}
use mathlib.Core.Path.{subst}
use calx.Lexer.Kinds.{LexemeKind, Lexeme, same_kind, kind_index}
use calx.Literal.Ends.{add_string_const-Ends}
use calx.Literal.Read.{Literal, ok, invalid_escape, fault, add_string_const}
use calx.Number.Deci.{Deci}
use calx.Parser.Calls.{binary_by}
use calx.Parser.Expr.{bracket_case, paren_case, brace_case, dot_case, operator_case, expr_round}
use calx.Parser.Fuel.Calls.{
  Bounded, unary_by-Below, apply_binary-Below, newlist-Below, newdict-Below, funcall-Below,
}
use calx.Parser.Fuel.Keeps.{
  Keeps, Keeps-gets, Keeps-at, Keeps-emit_at, Keeps-add_const_steal, Keeps-load, keeps,
}
use calx.Parser.Fuel.Rules.{
  Triple, Below, Ready, At, is_eof, Below-keep, Ready-keep, bind, return, throw_at, either, before,
  after, advance-Below, with_current, with_current_known, At-keep, ready, known, check, slurp-weak,
  advance-Ready, not-false,
}
use calx.Parser.Fuel.Scopes.{Keeps-guard}
use calx.Parser.Operands.{
  string_const, load_case, operand, ExprCase, expr_case, load_number, load_true, load_false,
  load_nil, load_string, lbracket, lbrace, lparen, dot, stops, operator,
}
use calx.Parser.Operators.{this_is_expr, after_expr, BinaryOpProps, binary_table, unary_table}
use calx.Parser.State.{
  Parser, M, ◌>>=◌, ◌>>◌, pure, gets, advance, text, slurp, add_const_steal, emit_at, with_arg,
  plain,
}
use calx.Str.Defs.{string_new}
use calx.Vm.State.{Instr, op_load_const, op_load_at}
use calx.Vm.Values.{str}
use Prim.Native.String.{String}

string_const-Keeps :
    (capacity : ℕ) (token : Lexeme) (l : Literal) → Keeps (string_const capacity token (some l))
unfolding string_const
string_const-Keeps capacity token (ok s) = record { apply = (Keeps-add_const_steal _).apply }
string_const-Keeps capacity token (invalid_escape offset) = record { apply = λ p. tt }
string_const-Keeps capacity token fault = record { apply = (Keeps-at none).apply }

-- the reader of a literal always ends
string_const-read :
    (capacity : ℕ) (token : Lexeme) (s : Bytes)
    → Keeps (string_const capacity token (add_string_const s))
string_const-read capacity token s =
    let (l, e) = add_string_const-Ends s in
    subst (λ o. Keeps (string_const capacity token o)) (sym e) (string_const-Keeps capacity token l)

Keeps-load_case :
    (d : Deci) (bits : ℕ) (c : ExprCase) (cur : Lexeme) → Keeps (load_case d bits c cur)
unfolding load_case
Keeps-load_case d bits load_number cur = search (keeps, Keeps-add_const_steal) depth 12
Keeps-load_case d bits load_true cur = search (keeps, Keeps-add_const_steal) depth 12
Keeps-load_case d bits load_false cur = search (keeps, Keeps-add_const_steal) depth 12
Keeps-load_case d bits load_nil cur = search (keeps, Keeps-add_const_steal) depth 12
Keeps-load_case d bits load_string cur = search (keeps, string_const-read) depth 12
Keeps-load_case d bits _ cur = Keeps-load cur

Keeps-this_is_expr : (b : Bool) → Keeps (this_is_expr b)
unfolding this_is_expr
Keeps-this_is_expr b = search (keeps, Keeps-guard) depth 12

Keeps-after_expr : (b : Bool) → Keeps (after_expr b)
unfolding after_expr
Keeps-after_expr b = search (keeps, Keeps-guard) depth 12

-- The lexeme ends expressions, or it is a binary operator of a lower priority.
pub data Stopped (q : ℕ) (k : LexemeKind) : Type 0 where
  stops_here : expr_case k ≡ stops → Stopped q k
  binds_less :
      (props : BinaryOpProps) → binary_table k ≡ some props → props.priority < q → Stopped q k

-- behind a round that goes on there is one lexeme less
abbrev pub After : Bytes → ℕ → ℕ → Option Bool → Parser → Type 0
After src q n none p = Below src (suc n) p × Stopped q p.cur.kind
After src q n (some expect) p = Below src n p

stops-cases : (c : ExprCase) → (c ≡ stops) ⊎ (c ≢ stops)
stops-cases stops = inl refl
stops-cases dot = inr (λ e. cc)
stops-cases _ = inr (λ e. cc)

-- only lexemes that stop an expression can be the end
expr_case-cases : (k : LexemeKind) → (expr_case k ≡ stops) ⊎ (is_eof k ≡ false)
unfolding expr_case kind_index
expr_case-cases LexemeKind.lk_eof = inl refl
expr_case-cases LexemeKind.lk_and = inr refl
expr_case-cases _ = inr refl

module _ (src : Bytes) (d : Deci) (bits : ℕ) (expr : ℕ → M (Unit {0})) (fuel : ℕ)
    (bounded : Bounded src fuel expr) (rounds n q : ℕ) (enough : n ≤ rounds) (fits : n ≤ fuel) where
  operand-After :
      (c : ExprCase) (expect : Bool) (cur : Lexeme)
      → Triple (Ready src (suc n)) (operand d bits c expect cur) (After src q n)
  unfolding operand
  operand-After c expect cur = bind _ _ (Ready-keep src _ (Keeps-this_is_expr expect)) (λ _.
      bind _ _ (Ready-keep src _ (Keeps-load_case d bits c cur)) (λ instr.
        bind _ _ (Ready-keep src _ (Keeps-emit_at instr cur))
          (λ _. bind _ _ (advance-Below src n) (λ _. return (some false) (λ p b. b)))))

  -- an instruction behind an expression inside, and a round that goes on
  then_emit :
      {P : Parser → Type 0} (instr : Instr) (cur : Lexeme)
      → ((p : Parser) → P p → Below src n p)
      → Triple P (emit_at instr cur >> pure (some false)) (After src q n)
  then_emit instr cur w =
      before _ w (
        bind _ _ (Below-keep src _ (Keeps-emit_at instr cur)) (λ _. return (some false) (λ p b. b)))

  -- an expression in brackets
  bracketed :
      (k : LexemeKind) (msg : String) (rest : M (Option Bool))
      → is_eof k ≡ false
      → Triple (Below src n) rest (After src q n)
      → Triple (Ready src (suc n)) (advance >> (expr 0 >> (slurp k msg >> rest))) (After src q n)
  bracketed k msg rest e h =
      bind _ _ (advance-Below src n)
        (λ _. bind _ _ (bounded n 0 fits) (λ _. bind _ _ (slurp-weak src n k msg e) (λ _. h)))

  bracket_case-After :
      (expect : Bool) (cur : Lexeme)
      → Triple (Ready src (suc n)) (bracket_case d bits expr rounds expect cur) (After src q n)
  unfolding bracket_case kind_index
  bracket_case-After true cur =
      bind _ _ (newlist-Below src expr fuel bounded n rounds enough fits)
        (λ k. then_emit _ cur (λ p b. b))
  bracket_case-After false cur =
      bracketed LexemeKind.lk_rbracket _ _ refl (then_emit _ cur (λ p b. b))

  paren_case-After :
      (expect : Bool) (cur : Lexeme)
      → Triple (Ready src (suc n)) (paren_case d bits expr rounds expect cur) (After src q n)
  unfolding paren_case kind_index
  paren_case-After true cur =
      bracketed LexemeKind.lk_rparen _ _ refl (return (some false) (λ p b. b))
  paren_case-After false cur =
      bind _ _ (funcall-Below src expr fuel bounded n rounds enough fits)
        (λ k. then_emit _ cur (λ p b. b))

  brace_case-After :
      (expect : Bool) (cur : Lexeme)
      → Triple (Ready src (suc n)) (brace_case d bits expr rounds expect cur) (After src q n)
  unfolding brace_case
  brace_case-After expect cur = bind _ _ (Ready-keep src _ (Keeps-this_is_expr expect)) (λ _.
      bind _ _ (newdict-Below src expr fuel bounded n rounds enough fits)
        (λ k. then_emit _ cur (λ p b. b)))

  field-After :
      (expect : Bool) (field : Lexeme)
      → Triple
          (Ready src n)
          (gets (λ p. text p field) >>= λ s. add_const_steal (str (string_new s)) >>= λ i.
            emit_at (with_arg op_load_const i) field
            >> (emit_at (plain op_load_at) field >> (advance >> pure (some expect))))
          (After src q n)
  field-After expect field = bind _ _ (Ready-keep src _ (Keeps-gets _)) (λ s.
      bind _ _ (Ready-keep src _ (Keeps-add_const_steal _)) (λ i.
        bind _ _ (Ready-keep src _ (Keeps-emit_at _ field)) (λ _.
          bind _ _ (Ready-keep src _ (Keeps-emit_at _ field))
            (λ _. bind _ _ (advance-Ready src n) (λ _. return (some expect) (λ p b. b))))))

  dot_case-After :
      (expect : Bool)
      → Triple (Ready src (suc n)) (dot_case d bits expr rounds expect) (After src q n)
  unfolding dot_case kind_index
  dot_case-After expect = bind _ _ (Ready-keep src _ (Keeps-after_expr expect)) (λ _.
      bind _ _ (advance-Below src n) (λ _. with_current src _ (λ field.
        bind _ _ (check src _ _ field)
          (λ _. before _ (λ p w. passed p field w) (field-After expect field)))))
    where
      passed :
          (p : Parser) (field : Lexeme)
          → At src n field p × (not (same_kind field.kind LexemeKind.lk_ident) ≡ false)
          → Ready src n p
      passed p field w = record {
        below = w.0.below;
        kind =
            ap (λ (l : Lexeme). is_eof l.kind) w.0.is
            ∙ known src field.kind LexemeKind.lk_ident (not-false _ w.1) refl;
      }

  -- an operator takes its lexeme, or the expression ends
  AfterOperator : Bool → Parser → Type 0
  AfterOperator true p = Below src n p
  AfterOperator false p = Below src (suc n) p × Stopped q p.cur.kind

  binary_by-After :
      (o : Option BinaryOpProps) (cur : Lexeme)
      → binary_table cur.kind ≡ o
      → Triple (λ p. Ready src (suc n) p × (p.cur ≡ cur)) (binary_by expr o q cur) AfterOperator
  unfolding binary_by AfterOperator
  binary_by-After none cur e = throw_at _ cur
  binary_by-After (some props) cur e =
      either (ltb props.priority q) _ _
        (λ less. return false (λ p w. (
          w.0.below,
          binds_less props (ap (λ (l : Lexeme). binary_table l.kind) w.1 ∙ e)
              (ltb→lt props.priority q less),
        )))
        (λ _.
          before _ (λ p w. w.0)
            (after _ (apply_binary-Below src expr fuel bounded n props cur fits) taken))
    where
      taken : (found : Bool) (p : Parser) → Below src n p × (found ≡ true) → AfterOperator found p
      taken true p b = b.0
      taken false p b = cc

  go_on :
      (found : Bool)
      → Triple (AfterOperator found) (pure (if found then some false else none)) (After src q n)
  unfolding AfterOperator
  go_on true = return (some false) (λ p b. b)
  go_on false = return none (λ p b. b)

  operator_case-After :
      (expect : Bool)
      → Triple (Ready src (suc n)) (operator_case d bits expr rounds q expect) (After src q n)
  unfolding operator_case
  operator_case-After true =
      bind _ _
        (with_current_known src _ (λ cur.
          before _ (λ p w. w.0)
            (unary_by-Below src expr fuel bounded n (unary_table cur.kind) cur fits)))
        (λ _. return (some false) (λ p b. b))
  operator_case-After false =
      bind _ _ (with_current_known src _ (λ cur. binary_by-After (binary_table cur.kind) cur refl))
        go_on

  expr_round-After :
      (c : ExprCase) (expect : Bool) (cur : Lexeme)
      → c ≢ stops
      → Triple (Ready src (suc n)) (expr_round d bits expr rounds c q expect cur) (After src q n)
  unfolding expr_round
  expr_round-After lbracket expect cur ne = bracket_case-After expect cur
  expr_round-After lbrace expect cur ne = brace_case-After expect cur
  expr_round-After lparen expect cur ne = paren_case-After expect cur
  expr_round-After dot expect cur ne = dot_case-After expect
  expr_round-After stops expect cur ne = absurd (ne refl)
  expr_round-After operator expect cur ne = operator_case-After expect
  expr_round-After c expect cur ne = operand-After c expect cur

  expr_stops-After :
      (expect : Bool) (cur : Lexeme)
      → expr_case cur.kind ≡ stops
      → Triple
          (At src (suc n) cur)
          (expr_round d bits expr rounds stops q expect cur)
          (After src q n)
  unfolding expr_round
  expr_stops-After expect cur e = bind _ _ (At-keep src cur _ (Keeps-after_expr expect)) (λ _.
      return none (λ p a. (a.below, stops_here (ap (λ (l : Lexeme). expr_case l.kind) a.is ∙ e))))

  -- whatever the current lexeme is
  pub round-After :
      (expect : Bool) (cur : Lexeme)
      → Triple
          (At src (suc n) cur)
          (expr_round d bits expr rounds (expr_case cur.kind) q expect cur)
          (After src q n)
  round-After expect cur = elim (stops-cases (expr_case cur.kind)) [
    | inl e ↦ rw e (expr_stops-After expect cur e)
    | inr ne ↦ elim (expr_case-cases cur.kind) [
      | inl e ↦ absurd (ne e)
      | inr e ↦ ready src cur _ e (expr_round-After (expr_case cur.kind) expect cur ne)
    ]
  ]
