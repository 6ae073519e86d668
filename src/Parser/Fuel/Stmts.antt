-- ===== src/Parser/Fuel/Stmts.antt =====
-- parse.c: the statements without a block take enough lexemes, and so do the parameters of a function.
use calx.Base.{
  ℕ, zero, suc, ◌≤◌, ◌≡◌, refl, ap, ◌∙◌, Bool, true, false, not, inl, inr, ◌⊎◌, Option, none, some,
  Bytes, arith,
}
use calx.Lexer.Kinds.{LexemeKind, Lexeme, same_kind, kind_index}
use calx.Parser.Assign.{
  Barrier, assigns, prints, modifies, barrier_of, finish_assignment, expr_or_assignment,
  optional_part, condition_by, return_by, return_stmt, expr_stmt, leave_stmt,
}
use calx.Parser.Fuel.Calls.{never, Bounded}
use calx.Parser.Fuel.Keeps.{
  Keeps-emit, Keeps-emit_at, Keeps-add_const_steal, Keeps-unemit, Keeps-throw_error_at,
}
use calx.Parser.Fuel.Rules.{
  Triple, Below, Ready, At, is_eof, Below-keep, Ready-keep, bind, return, throw_at, either, before,
  after, advance-Below, advance-Ready, Below-suc, with_current, ready, any, known, slurp-Below,
  slurp-weak, check, not-false,
}
use calx.Parser.Fuel.Scopes.{
  Keeps-guard, Keeps-load_to_store, Keeps-load_to_modify, Keeps-fun_param,
  Keeps-postpone_jump_unless, Keeps-segment_emit,
}
use calx.Parser.Params.{gather_param, plain_param, params_loop, params}
use calx.Parser.State.{Parser, M, StackName}

-- the end is no barrier that assigns
barrier-cases : (k : LexemeKind) → (barrier_of k ≡ modifies none) ⊎ (is_eof k ≡ false)
unfolding barrier_of kind_index
barrier-cases LexemeKind.lk_eof = inl refl
barrier-cases LexemeKind.lk_and = inr refl
barrier-cases _ = inr refl

module _ (src : Bytes) where
  -- a lexeme of a kind that was checked
  pub checked :
      {n : ℕ} (p : Parser) (cur : Lexeme) (k : LexemeKind)
      → is_eof k ≡ false
      → At src n cur p × (not (same_kind cur.kind k) ≡ false)
      → Ready src n p
  checked p cur k e w = record {
    below = w.0.below;
    kind = ap (λ (l : Lexeme). is_eof l.kind) w.0.is ∙ known src cur.kind k (not-false _ w.1) e;
  }

  Ready-suc : {n : ℕ} (p : Parser) → Ready src n p → Ready src (suc n) p
  Ready-suc p r = record { below = Below-suc src p r.below; kind = r.kind }

  gather_param-Ready :
      (n fun_pos : ℕ) → Triple (Ready src n) (gather_param fun_pos) (λ (a : Unit {0}). Ready src n)
  unfolding gather_param kind_index
  gather_param-Ready n fun_pos = bind _ _ (advance-Ready src n) (λ _. with_current src _ (λ lxm.
      bind _ _ (check src _ _ lxm) (λ _.
        before _ (λ p w. checked p lxm LexemeKind.lk_ident refl w)
          (bind _ _ (Ready-keep src _ (Keeps-fun_param fun_pos lxm true)) (λ _.
            bind _ _ (advance-Ready src n) (λ _. with_current src _ (λ cur.
              after _ (check src _ _ lxm)
                (λ a p w. checked p cur LexemeKind.lk_rparen refl w))))))))

  plain_param-Below :
      (n fun_pos : ℕ) (lxm : Lexeme)
      → Triple (At src (suc n) lxm) (plain_param fun_pos lxm) (λ (a : Unit {0}). Below src n)
  unfolding plain_param kind_index
  plain_param-Below n fun_pos lxm = bind _ _ (check src _ _ lxm) (λ _.
      before _ (λ p w. checked p lxm LexemeKind.lk_ident refl w)
        (bind _ _ (Ready-keep src _ (Keeps-fun_param fun_pos lxm false))
          (λ _. advance-Below src n)))

  -- the loop over the parameters stops at a closing parenthesis
  closed :
      {n : ℕ} (p : Parser) (cur : Lexeme)
      → same_kind cur.kind LexemeKind.lk_rparen ≡ true
      → At src n cur p
      → Ready src n p
  unfolding kind_index
  closed p cur e w = record {
    below = w.below;
    kind = ap (λ (l : Lexeme). is_eof l.kind) w.is ∙ known src cur.kind LexemeKind.lk_rparen e refl;
  }

  params_loop-Ready :
      (n rounds fun_pos : ℕ)
      → n ≤ rounds
      → Triple (Below src n) (params_loop rounds fun_pos) (λ (a : Unit {0}). Ready src n)
  unfolding params_loop kind_index
  params_loop-Ready zero rounds fun_pos h = never src _
  params_loop-Ready (suc n) zero fun_pos h = absurd (omega arith)
  params_loop-Ready (suc n) (suc rounds) fun_pos h = record {
    apply =
        (with_current src _ (λ lxm.
          either _ _ _
            (λ s.
              ready src lxm _ (known src lxm.kind LexemeKind.lk_star s refl)
                (gather_param-Ready (suc n) fun_pos))
            (λ s. bind _ _ (plain_param-Below n fun_pos lxm) (λ _. with_current src _ (λ cur.
              either _ _ _ (λ t. return tt (λ p w. Ready-suc p (closed p cur t w)))
                (λ t. any src cur _ (
                  bind _ _ (slurp-weak src n LexemeKind.lk_comma _ refl) (λ _.
                    after _ (params_loop-Ready n rounds fun_pos (omega arith))
                      (λ a p b. Ready-suc p b))))))))).apply;
  }

  pub params-Ready :
      (n rounds fun_pos : ℕ)
      → n ≤ rounds
      → Triple (Below src n) (params rounds fun_pos) (λ (a : Unit {0}). Ready src n)
  unfolding params
  params-Ready n rounds fun_pos h = with_current src _ (λ cur.
      either _ _ _ (λ t. return tt (λ p w. closed p cur t w))
        (λ t. any src cur _ (params_loop-Ready n rounds fun_pos h)))

module _ (src : Bytes) (expr : ℕ → M (Unit {0})) (fuel : ℕ) (bounded : Bounded src fuel expr)
    (n : ℕ) (fits : n ≤ fuel) where
  finish_assignment-Ready :
      (b : Barrier) (cur : Lexeme)
      → Triple (Ready src n) (finish_assignment expr b cur) (λ (a : Unit {0}). Below src n)
  unfolding finish_assignment
  finish_assignment-Ready (assigns local) cur = bind _ _ (Ready-keep src _ Keeps-unemit) (λ i.
      bind _ _ (advance-Ready src n) (λ _. bind _ _ (bounded n 0 fits) (λ _.
        bind _ _ (Below-keep src _ (Keeps-load_to_store i local cur))
          (λ j. Below-keep src _ (Keeps-emit_at j cur)))))
  finish_assignment-Ready prints cur =
      before _ (λ p b. b.below) (Below-keep src _ (Keeps-emit_at _ cur))
  finish_assignment-Ready (modifies none) cur = throw_at _ cur
  finish_assignment-Ready (modifies (some aop)) cur = bind _ _ (Ready-keep src _ Keeps-unemit) (λ i.
      bind _ _ (advance-Ready src n) (λ _. bind _ _ (bounded n 0 fits) (λ _.
        bind _ _ (Below-keep src _ (Keeps-load_to_modify i aop cur))
          (λ j. Below-keep src _ (Keeps-emit_at j cur)))))

  assignment_end :
      (cur : Lexeme)
      → Triple
          (At src n cur)
          (finish_assignment expr (barrier_of cur.kind) cur)
          (λ (a : Unit {0}). Below src n)
  unfolding finish_assignment
  assignment_end cur = elim (barrier-cases cur.kind) [
    | inl e ↦ rw e (throw_at _ cur)
    | inr e ↦ ready src cur _ e (finish_assignment-Ready (barrier_of cur.kind) cur)
  ]

  pub expr_or_assignment-Below :
      Triple (Below src n) (expr_or_assignment expr) (λ (a : Unit {0}). Below src n)
  unfolding expr_or_assignment
  expr_or_assignment-Below =
      bind _ _ (bounded n 0 fits) (λ _. with_current src _ (λ cur. assignment_end cur))

  pub optional_part-Below :
      (k : LexemeKind) → Triple (Below src n) (optional_part expr k) (λ (a : Unit {0}). Below src n)
  unfolding optional_part
  optional_part-Below k = with_current src _ (λ cur.
      either _ _ _ (λ s. return tt (λ p w. w.below)) (λ s. any src cur _ expr_or_assignment-Below))

  pub condition_by-Below :
      (t : Bool) → Triple (Below src n) (condition_by expr t) (λ (a : Option ℕ). Below src n)
  unfolding condition_by
  condition_by-Below true = return none (λ p b. b)
  condition_by-Below false = bind _ _ (bounded n 0 fits) (λ _.
      bind _ _ (Below-keep src _ Keeps-postpone_jump_unless) (λ i. return (some i) (λ p b. b)))

  return_by-Below :
      (cur : Lexeme) (t : Bool)
      → same_kind cur.kind LexemeKind.lk_semicolon ≡ t
      → Triple (At src n cur) (return_by expr t) (λ (a : Unit {0}). Below src n)
  unfolding return_by kind_index
  return_by-Below cur true e = ready src cur _ (known src cur.kind LexemeKind.lk_semicolon e refl) (
      bind _ _ (advance-Ready src n) (λ _.
        bind _ _ (Below-keep src _ (Keeps-add_const_steal _))
          (λ i. Below-keep src _ (Keeps-emit _))))
  return_by-Below cur false e =
      any src cur _
        (bind _ _ (bounded n 0 fits) (λ _. slurp-weak src n LexemeKind.lk_semicolon _ refl))

  pub return_stmt-Below :
      Triple (Ready src (suc n)) (return_stmt expr) (λ (a : Unit {0}). Below src n)
  unfolding return_stmt
  return_stmt-Below = bind _ _ (advance-Below src n) (λ _.
      with_current src _
        (λ cur. bind _ _ (return_by-Below cur _ refl) (λ _. Below-keep src _ (Keeps-emit _))))

pub leave_stmt-Below :
    (src : Bytes) (n : ℕ) (name : StackName) (cur : Lexeme)
    → Triple (Ready src (suc n)) (leave_stmt name cur) (λ (a : Unit {0}). Below src n)
unfolding leave_stmt kind_index
leave_stmt-Below src n name cur = bind _ _ (Ready-keep src _ (Keeps-segment_emit name)) (λ in_loop.
    bind _ _ (Ready-keep src _ (Keeps-guard _ _ (Keeps-throw_error_at _ cur)))
      (λ _. bind _ _ (advance-Below src n) (λ _. slurp-weak src n LexemeKind.lk_semicolon _ refl)))

pub expr_stmt-Below :
    (src : Bytes) (expr : ℕ → M (Unit {0})) (fuel : ℕ)
    → Bounded src fuel expr
    → (n : ℕ) → suc n ≤ fuel
    → Triple (Below src (suc n)) (expr_stmt expr) (λ (a : Unit {0}). Below src n)
unfolding expr_stmt kind_index
expr_stmt-Below src expr fuel bounded n fits =
    bind _ _ (expr_or_assignment-Below src expr fuel bounded (suc n) fits)
      (λ _. slurp-Below src n LexemeKind.lk_semicolon _ refl)
