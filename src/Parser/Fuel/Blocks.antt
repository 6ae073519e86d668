-- ===== src/Parser/Fuel/Blocks.antt =====
-- parse.c: blocks, and the statements that have them, take enough lexemes for their fuel.
use calx.Base.{ℕ, zero, suc, ◌≤◌, ◌≡◌, ◌≢◌, refl, false, Option, none, some, Bytes, arith}
use calx.Lexer.Kinds.{LexemeKind, Lexeme, kind_index}
use calx.Parser.Fuel.Calls.{never, Bounded}
use calx.Parser.Fuel.Keeps.{
  Post, Keeps, Keeps-emit, Keeps-load, Keeps-here, Keeps-stack_push, keeps,
}
use calx.Parser.Fuel.Rules.{
  Triple, Below, Ready, is_eof, Below-keep, Ready-keep, bind, return, throw_at, either, before,
  after, advance-Below, advance-Ready, Below-suc, with_current, ready, any, known, slurp-weak,
  check,
}
use calx.Parser.Fuel.Scopes.{
  Keeps-load_to_store, Keeps-fun_begin, Keeps-fun_end, Keeps-postpone_jump,
  Keeps-postpone_jump_unless, Keeps-fixup_jump, Keeps-fixup_if_set, Keeps-emit_jump_to,
  Keeps-stack_segment_begin, Keeps-stack_segment_end_fixup,
}
use calx.Parser.Fuel.Stmts.{
  checked, params-Ready, optional_part-Below, condition_by-Below, return_stmt-Below,
  leave_stmt-Below, expr_stmt-Below,
}
use calx.Parser.Assign.{
  StmtCase, if_case, while_case, for_case, fun_case, empty_case, return_case, break_case,
  continue_case, end_case, expr_case,
}
use calx.Parser.Jump.{stack_segment_begin}
use Prim.Native.String.{String}
use calx.Parser.Params.{End, at_eof, at_rbrace, goes_on, end_of, by_end}
use calx.Parser.State.{
  Parser, M, ◌>>=◌, ◌>>◌, gets, cur_lexeme, advance, slurp, s_if, s_break, s_continue,
}
use calx.Parser.Stmt.{
  block_loop, block, if_or_elif_clause, else_clause, next_clause, elif_loop, else_part, if_stmt,
  while_stmt, fun_stmt, close_for, for_stmt, stmt_by,
}

-- Behind a statement there is a lexeme less, unless it was the empty one before an end.
pub record Behind (src : Bytes) (n : ℕ) (p : Parser) : Type 0 where
  pub below : Below src (suc n) p
  pub less : end_of p.cur.kind ≡ goes_on → Below src n p

end_of-rbrace : (k : LexemeKind) → end_of k ≡ at_rbrace → is_eof k ≡ false
unfolding end_of kind_index
end_of-rbrace LexemeKind.lk_eof e = cc
end_of-rbrace LexemeKind.lk_rbrace e = refl
end_of-rbrace _ e = refl

-- an operation with the current lexeme behind a statement
pub by_end-Triple :
    {Q : Unit {0} → Parser → Type 0} (src : Bytes) (n : ℕ) (m k o : Lexeme → M (Unit {0}))
    → ((cur : Lexeme) → Triple (Below src (suc n)) (m cur) Q)
    → ((cur : Lexeme) → Triple (Ready src (suc n)) (k cur) Q)
    → ((cur : Lexeme) → Triple (Below src n) (o cur) Q)
    → Triple
        (Behind src n)
        (cur_lexeme >>= λ cur. by_end (end_of cur.kind) (m cur) (k cur) (o cur))
        Q
unfolding cur_lexeme ◌>>=◌ gets by_end
by_end-Triple {Q} src n m k o hm hk ho = record {
  apply = λ p b. by_case p b (end_of p.cur.kind) refl;
}
  where
    by_case :
        (p : Parser)
        → Behind src n p
        → (e : End) → end_of p.cur.kind ≡ e
        → Post Q (by_end e (m p.cur) (k p.cur) (o p.cur) p)
    by_case p b at_eof e = (hm p.cur).apply p b.below
    by_case p b at_rbrace e =
        (hk p.cur).apply p (record { below = b.below; kind = end_of-rbrace p.cur.kind e })
    by_case p b goes_on e = (ho p.cur).apply p (b.less e)

abbrev pub Steps : Bytes → ℕ → M (Unit {0}) → Type 0
Steps src fuel stmt =
    (n : ℕ) → suc n ≤ fuel → Triple (Below src (suc n)) stmt (λ (a : Unit {0}). Behind src n)

Keeps-next_clause :
    (expr : ℕ → M (Unit {0})) (stmt : M (Unit {0})) (fuel j : ℕ)
    → Keeps (next_clause expr stmt fuel j)
unfolding next_clause
Keeps-next_clause expr stmt fuel j =
    search (keeps, Keeps-postpone_jump, Keeps-stack_push, Keeps-fixup_jump) depth 20

Keeps-close_for :
    (expr : ℕ → M (Unit {0})) (stmt : M (Unit {0})) (fuel begin_pos : ℕ) (jump_pos : Option ℕ)
    (i1 i2 i3 : ℕ)
    → Keeps (close_for expr stmt fuel begin_pos jump_pos i1 i2 i3)
unfolding close_for
Keeps-close_for expr stmt fuel begin_pos jump_pos i1 i2 i3 =
    search (keeps, Keeps-emit_jump_to, Keeps-fixup_if_set, Keeps-stack_segment_end_fixup) depth 20

module _ (src : Bytes) (expr : ℕ → M (Unit {0})) (stmt : M (Unit {0})) (fuel rounds : ℕ)
    (bounded : Bounded src rounds expr) (steps : Steps src fuel stmt) (more : fuel ≤ rounds) where
  block_loop-Below :
      (n k : ℕ)
      → n ≤ k
      → n ≤ fuel
      → Triple (Below src n) (block_loop expr stmt rounds k) (λ (a : Unit {0}). Below src n)
  unfolding block_loop
  block_loop-Below zero k h l = never src _
  block_loop-Below (suc n) zero h l = absurd (omega arith)
  block_loop-Below (suc n) (suc k) h l = record {
    apply =
        (bind _ _ (steps n l) (λ _.
          by_end-Triple src n _ _ _ (λ cur. throw_at _ cur) (λ cur. advance-Ready src (suc n))
            (λ cur.
              after _ (block_loop-Below n k (omega arith) (omega arith))
                (λ a p b. Below-suc src p b)))).apply;
  }

module _ (src : Bytes) (expr : ℕ → M (Unit {0})) (stmt : M (Unit {0})) (fuel rounds : ℕ)
    (bounded : Bounded src rounds expr) (steps : Steps src fuel stmt) (more : fuel ≤ rounds) (n : ℕ)
    (fits : n ≤ fuel) where
  block-Below : Triple (Below src n) (block expr stmt rounds) (λ (a : Unit {0}). Below src n)
  unfolding block kind_index
  block-Below = bind _ _ (slurp-weak src n LexemeKind.lk_lbrace _ refl) (λ _.
      block_loop-Below src expr stmt fuel rounds bounded steps more n rounds (omega arith) fits)

  if_or_elif_clause-Ready :
      Triple (Ready src (suc n)) (if_or_elif_clause expr stmt rounds) (λ (a : ℕ). Below src n)
  unfolding if_or_elif_clause kind_index
  if_or_elif_clause-Ready = bind _ _ (advance-Below src n) (λ _.
      bind _ _ (slurp-weak src n LexemeKind.lk_lparen _ refl) (λ _.
        bind _ _ (bounded n 0 (omega arith)) (λ _.
          bind _ _ (Below-keep src _ Keeps-postpone_jump_unless) (λ jump_pos.
            bind _ _ (slurp-weak src n LexemeKind.lk_rparen _ refl)
              (λ _. bind _ _ block-Below (λ _. return jump_pos (λ p b. b)))))))

  else_clause-Ready :
      Triple (Ready src n) (else_clause expr stmt rounds) (λ (a : Unit {0}). Below src n)
  unfolding else_clause
  else_clause-Ready = bind _ _ (advance-Ready src n) (λ _. block-Below)

  else_part-Below :
      (j : ℕ) → Triple (Below src n) (else_part expr stmt rounds j) (λ (a : Option ℕ). Below src n)
  unfolding else_part kind_index
  else_part-Below j = with_current src _ (λ cur.
      either _ _ _
        (λ s. ready src cur _ (known src cur.kind LexemeKind.lk_else s refl) (
          bind _ _ (Ready-keep src _ (Keeps-next_clause expr stmt rounds j))
            (λ _. bind _ _ else_clause-Ready (λ _. return none (λ p b. b)))))
        (λ s. return (some j) (λ p w. w.below)))

module _ (src : Bytes) (expr : ℕ → M (Unit {0})) (stmt : M (Unit {0})) (fuel rounds : ℕ)
    (bounded : Bounded src rounds expr) (steps : Steps src fuel stmt) (more : fuel ≤ rounds) where
  elif_loop-Below :
      (n k j : ℕ)
      → n ≤ k
      → n ≤ fuel
      → Triple (Below src n) (elif_loop expr stmt rounds k j) (λ (a : ℕ). Below src n)
  unfolding elif_loop kind_index
  elif_loop-Below zero k j h l = never src _
  elif_loop-Below (suc n) zero j h l = absurd (omega arith)
  elif_loop-Below (suc n) (suc k) j h l = record {
    apply =
        (with_current src _ (λ cur.
          either _ _ _
            (λ s. ready src cur _ (known src cur.kind LexemeKind.lk_elif s refl) (
              bind _ _ (Ready-keep src _ (Keeps-next_clause expr stmt rounds j)) (λ _.
                bind _ _
                  (if_or_elif_clause-Ready src expr stmt fuel rounds bounded steps more n
                    (omega arith))
                  (λ j'.
                    after _ (elif_loop-Below n k j' (omega arith) (omega arith))
                      (λ a p b. Below-suc src p b)))))
            (λ s. return j (λ p w. w.below)))).apply;
  }

module _ (src : Bytes) (expr : ℕ → M (Unit {0})) (stmt : M (Unit {0})) (fuel rounds : ℕ)
    (bounded : Bounded src rounds expr) (steps : Steps src fuel stmt) (more : fuel ≤ rounds) (n : ℕ)
    (fits : n ≤ fuel) where
  if_stmt-Ready :
      Triple (Ready src (suc n)) (if_stmt expr stmt rounds) (λ (a : Unit {0}). Below src n)
  unfolding if_stmt
  if_stmt-Ready = bind _ _ (Ready-keep src _ (Keeps-stack_segment_begin s_if)) (λ _.
      bind _ _ (if_or_elif_clause-Ready src expr stmt fuel rounds bounded steps more n fits)
        (λ first.
          bind _ _
            (elif_loop-Below src expr stmt fuel rounds bounded steps more n rounds first
              (omega arith) fits)
            (λ last.
              bind _ _ (else_part-Below src expr stmt fuel rounds bounded steps more n fits last)
                (λ prev. bind _ _ (Below-keep src _ Keeps-here) (λ to.
                  bind _ _ (Below-keep src _ (Keeps-fixup_if_set prev to))
                    (λ _. Below-keep src _ (Keeps-stack_segment_end_fixup _ to)))))))

  -- the segments for `break` and `continue`, and the opening parenthesis
  open_loop :
      {A : Type 0} {Q : A → Parser → Type 0} (msg : String) (rest : M A)
      → Triple (Below src n) rest Q
      → Triple
          (Ready src (suc n))
          (stack_segment_begin s_break
            >> (stack_segment_begin s_continue
                >> (advance >> (slurp LexemeKind.lk_lparen msg >> rest))))
          Q
  unfolding kind_index
  open_loop msg rest h = bind _ _ (Ready-keep src _ (Keeps-stack_segment_begin _)) (λ _.
      bind _ _ (Ready-keep src _ (Keeps-stack_segment_begin _)) (λ _.
        bind _ _ (advance-Below src n)
          (λ _. bind _ _ (slurp-weak src n LexemeKind.lk_lparen msg refl) (λ _. h))))

  while_stmt-Ready :
      Triple (Ready src (suc n)) (while_stmt expr stmt rounds) (λ (a : Unit {0}). Below src n)
  unfolding while_stmt kind_index
  while_stmt-Ready = open_loop _ _ (
      bind _ _ (Below-keep src _ Keeps-here) (λ begin_pos.
        bind _ _ (bounded n 0 (omega arith)) (λ _.
          bind _ _ (Below-keep src _ Keeps-postpone_jump_unless) (λ jump_pos.
            bind _ _ (slurp-weak src n LexemeKind.lk_rparen _ refl) (λ _.
              bind _ _ (block-Below src expr stmt fuel rounds bounded steps more n fits) (λ _.
                Below-keep src _ (
                  search
                    (keeps, Keeps-emit_jump_to, Keeps-fixup_jump, Keeps-stack_segment_end_fixup)
                    depth 20)))))))

  fun_stmt-Ready :
      Triple (Ready src (suc n)) (fun_stmt expr stmt rounds) (λ (a : Unit {0}). Below src n)
  unfolding fun_stmt kind_index
  fun_stmt-Ready = bind _ _ (advance-Below src n) (λ _. with_current src _ (λ name.
      bind _ _ (check src _ _ name) (λ _.
        before _ (λ p w. checked src p name LexemeKind.lk_ident refl w)
          (bind _ _ (advance-Ready src n) (λ _.
            bind _ _ (slurp-weak src n LexemeKind.lk_lparen _ refl) (λ _.
              bind _ _ (Below-keep src _ Keeps-fun_begin) (λ fun_pos.
                bind _ _ (params-Ready src n rounds fun_pos (omega arith)) (λ _.
                  bind _ _ (advance-Ready src n) (λ _.
                    bind _ _ (block-Below src expr stmt fuel rounds bounded steps more n fits) (λ _.
                      Below-keep src _ (
                        search (keeps, Keeps-fun_end, Keeps-load, Keeps-load_to_store, Keeps-emit)
                          depth 20)))))))))))

  for_stmt-Ready :
      Triple (Ready src (suc n)) (for_stmt expr stmt rounds) (λ (a : Unit {0}). Below src n)
  unfolding for_stmt kind_index
  for_stmt-Ready =
      let enough : n ≤ rounds = omega arith in
      open_loop _ _ (
        bind _ _ (optional_part-Below src expr rounds bounded n enough LexemeKind.lk_semicolon)
          (λ _. bind _ _ (slurp-weak src n LexemeKind.lk_semicolon _ refl) (λ _.
            bind _ _ (Below-keep src _ Keeps-here) (λ begin_pos. with_current src _ (λ cur.
              any src cur _ (
                bind _ _ (condition_by-Below src expr rounds bounded n enough _) (λ jump_pos.
                  bind _ _ (slurp-weak src n LexemeKind.lk_semicolon _ refl) (λ _.
                    bind _ _ (Below-keep src _ Keeps-here) (λ i1.
                      bind _ _
                        (optional_part-Below src expr rounds bounded n enough LexemeKind.lk_rparen)
                        (λ _. bind _ _ (slurp-weak src n LexemeKind.lk_rparen _ refl) (λ _.
                          bind _ _ (Below-keep src _ Keeps-here) (λ i2.
                            bind _ _
                              (block-Below src expr stmt fuel rounds bounded steps more n fits)
                              (λ _. bind _ _ (Below-keep src _ Keeps-here) (λ i3. Below-keep src _ (
                                Keeps-close_for expr stmt rounds begin_pos jump_pos i1 i2
                                  i3)))))))))))))))

  behind : {p : Parser} → Below src n p → Behind src n p
  behind b = record { below = Below-suc src _ b; less = λ e. b }

  -- every statement but the empty one before an end
  pub stmt_by-Behind :
      (c : StmtCase) (cur : Lexeme)
      → suc n ≤ rounds
      → c ≢ end_case
      → Triple (Ready src (suc n)) (stmt_by expr stmt rounds c cur) (λ (a : Unit {0}). Behind src n)
  unfolding stmt_by
  stmt_by-Behind if_case cur h ne = after _ if_stmt-Ready (λ a p b. behind b)
  stmt_by-Behind while_case cur h ne = after _ while_stmt-Ready (λ a p b. behind b)
  stmt_by-Behind for_case cur h ne = after _ for_stmt-Ready (λ a p b. behind b)
  stmt_by-Behind fun_case cur h ne = after _ fun_stmt-Ready (λ a p b. behind b)
  stmt_by-Behind empty_case cur h ne = after _ (advance-Below src n) (λ a p b. behind b)
  stmt_by-Behind return_case cur h ne =
      after _ (return_stmt-Below src expr rounds bounded n (omega arith)) (λ a p b. behind b)
  stmt_by-Behind break_case cur h ne =
      after _ (leave_stmt-Below src n s_break cur) (λ a p b. behind b)
  stmt_by-Behind continue_case cur h ne =
      after _ (leave_stmt-Below src n s_continue cur) (λ a p b. behind b)
  stmt_by-Behind end_case cur h ne = absurd (ne refl)
  stmt_by-Behind expr_case cur h ne =
      before _ (λ p r. r.below)
        (after _ (expr_stmt-Below src expr rounds bounded n h) (λ a p b. behind b))
