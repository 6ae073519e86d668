-- ===== src/Parser/Fuel/Calls.antt =====
-- parse.c: operators, calls, lists and dicts take enough lexemes for their fuel, where expressions do.
use calx.Base.{
  ℕ, zero, suc, ◌+◌, ◌≤◌, ◌≡◌, refl, Bool, true, false, inl, inr, Option, none, some, Bytes, arith,
  if◌then◌else◌, Bool-cases,
}
use calx.Lexer.Kinds.{LexemeKind, Lexeme, same_kind, kind_index}
use calx.Parser.Calls.{
  unary_by, apply_binary, scatter_mark, funcall_loop, funcall, newlist_loop, newlist, newdict_loop,
  newdict,
}
use calx.Parser.Fuel.Keeps.{Keeps-emit_at, Keeps-pure}
use calx.Parser.Fuel.Rules.{
  Triple, Below, Ready, At, is_eof, Below-keep, bind, return, throw_at, either, before, after,
  advance-Below, Below-suc, with_current, ready, any, known, slurp-Below, check,
}
use calx.Parser.Operands.{separator, by_separator}
use calx.Parser.Operators.{BinaryOpProps}
use calx.Parser.State.{Parser, M, ◌>>=◌, ◌>>◌, pure, cur_lexeme, advance}
use calx.Vm.State.{Opcode}

module _ (src : Bytes) where
  -- no parser has less than no lexeme
  pub never : {A : Type 0} {Q : A → Parser → Type 0} (m : M A) → Triple (Below src 0) m Q
  never {A} {Q} m = record { apply = λ p b. absurd (omega (arith, b.bound)) }

  pub advance-weak :
      (n : ℕ) → Triple (Ready src (suc n)) advance (λ (a : Unit {0}). Below src (suc n))
  advance-weak n = after advance (advance-Below src n) (λ a p b. Below-suc src p b)

  -- the end of a list, or a comma
  pub by_separator-Triple :
      {A : Type 0} {n : ℕ} {Q : A → Parser → Type 0} (close : LexemeKind) (cur : Lexeme)
      (m k o : M A)
      → is_eof close ≡ false
      → Triple (Ready src n) m Q
      → Triple (Ready src n) k Q
      → Triple (At src n cur) o Q
      → Triple (At src n cur) (by_separator (separator close cur.kind) m k o) Q
  unfolding by_separator separator kind_index
  by_separator-Triple close cur m k o e hm hk ho = elim (Bool-cases (same_kind cur.kind close)) [
    | inl s ↦ rw s (ready src cur m (known src cur.kind close s e) hm)
    | inr s ↦ elim (Bool-cases (same_kind cur.kind LexemeKind.lk_comma)) [
      | inl t ↦ rw (s, t) (ready src cur k (known src cur.kind LexemeKind.lk_comma t refl) hk)
      | inr t ↦ rw (s, t) ho
    ]
  ]

-- Expressions that begin below a bound up to the fuel end below it.
abbrev pub Bounded : Bytes → ℕ → (ℕ → M (Unit {0})) → Type 0
Bounded src fuel expr =
    (n q : ℕ) → n ≤ fuel → Triple (Below src n) (expr q) (λ (a : Unit {0}). Below src n)

module _ (src : Bytes) (expr : ℕ → M (Unit {0})) (fuel : ℕ) (bounded : Bounded src fuel expr) where
  pub unary_by-Below :
      (n : ℕ) (o : Option (Opcode × ℕ)) (cur : Lexeme)
      → n ≤ fuel
      → Triple (Ready src (suc n)) (unary_by expr o cur) (λ (a : Unit {0}). Below src n)
  unfolding unary_by
  unary_by-Below n none cur h = throw_at _ cur
  unary_by-Below n (some props) cur h =
      bind _ _ (advance-Below src n)
        (λ _. bind _ _ (bounded n props.1 h) (λ _. Below-keep src _ (Keeps-emit_at _ cur)))

  pub apply_binary-Below :
      (n : ℕ) (props : BinaryOpProps) (cur : Lexeme)
      → n ≤ fuel
      → Triple
          (Ready src (suc n))
          (apply_binary expr props cur)
          (λ (a : Bool) p. Below src n p × (a ≡ true))
  unfolding apply_binary
  apply_binary-Below n props cur h = bind _ _ (advance-Below src n) (λ _.
      bind _ _ (bounded n _ h) (λ _.
        bind _ _ (Below-keep src _ (Keeps-emit_at _ cur)) (λ _. return true (λ p b. (b, refl)))))

  scatter_mark-Below :
      (n : ℕ) (cur : Lexeme) (t s : Bool)
      → same_kind cur.kind LexemeKind.lk_star ≡ t
      → Triple (At src (suc n) cur) (scatter_mark expr t s) (λ (a : Bool). Below src (suc n))
  unfolding scatter_mark kind_index
  scatter_mark-Below n cur true s e =
      ready src cur _ (known src cur.kind LexemeKind.lk_star e refl)
        (bind _ _ (advance-weak src n) (λ _. Below-keep src _ (Keeps-pure _)))
  scatter_mark-Below n cur false s e = any src cur _ (Below-keep src _ (Keeps-pure s))

  newlist_loop-Below :
      (n rounds nelems : ℕ)
      → n ≤ rounds
      → n ≤ fuel
      → Triple (Below src n) (newlist_loop expr rounds nelems) (λ (a : ℕ). Below src n)
  unfolding newlist_loop kind_index
  newlist_loop-Below zero rounds nelems h k = never src _
  newlist_loop-Below (suc n) zero nelems h k = absurd (omega arith)
  newlist_loop-Below (suc n) (suc rounds) nelems h k = record {
    apply =
        (bind _ _ (bounded (suc n) 0 k) (λ _. with_current src _ (λ cur.
          by_separator-Triple src LexemeKind.lk_rbracket cur _ _ _ refl
            (bind _ _ (advance-weak src n) (λ _. Below-keep src _ (Keeps-pure nelems)))
            (bind _ _ (advance-Below src n) (λ _. with_current src _ (λ cur'.
              bind _ _ (check src _ _ cur') (λ _.
                before _ (λ p w. w.0.below)
                  (after _ (newlist_loop-Below n rounds (nelems + 1) (omega arith) (omega arith))
                    (λ a p b. Below-suc src p b))))))
            (throw_at _ cur)))).apply;
  }

  funcall_loop-Below :
      (n rounds nargs : ℕ) (s : Bool)
      → n ≤ rounds
      → n ≤ fuel
      → Triple (Below src n) (funcall_loop expr rounds nargs s) (λ (a : ℕ × Bool). Below src n)
  unfolding funcall_loop kind_index
  funcall_loop-Below zero rounds nargs s h k = never src _
  funcall_loop-Below (suc n) zero nargs s h k = absurd (omega arith)
  funcall_loop-Below (suc n) (suc rounds) nargs s h k = record {
    apply =
        (with_current src _ (λ cur. bind _ _ (scatter_mark-Below n cur _ s refl) (λ scatter.
          bind _ _ (bounded (suc n) 0 k) (λ _. with_current src _ (λ cur.
            by_separator-Triple src LexemeKind.lk_rparen cur _ _ _ refl
              (bind _ _ (advance-weak src n) (λ _. Below-keep src _ (Keeps-pure (nargs, scatter))))
              (bind _ _ (advance-Below src n) (λ _. with_current src _ (λ cur'.
                bind _ _ (check src _ _ cur') (λ _. bind _ _ (check src _ _ cur') (λ _.
                  before _ (λ p w. w.0.0.below)
                    (after _
                      (funcall_loop-Below n rounds (nargs + 1) scatter (omega arith) (omega arith))
                      (λ a p b. Below-suc src p b)))))))
              (throw_at _ cur)))))).apply;
  }

  newdict_loop-Below :
      (n rounds nelems : ℕ)
      → n ≤ rounds
      → n ≤ fuel
      → Triple (Below src n) (newdict_loop expr rounds nelems) (λ (a : ℕ). Below src n)
  unfolding newdict_loop kind_index
  newdict_loop-Below zero rounds nelems h k = never src _
  newdict_loop-Below (suc n) zero nelems h k = absurd (omega arith)
  newdict_loop-Below (suc n) (suc rounds) nelems h k = record {
    apply =
        (bind _ _ (bounded (suc n) 0 k) (λ _.
          bind _ _
            (after _ (slurp-Below src n LexemeKind.lk_colon _ refl) (λ a p b. Below-suc src p b))
            (λ _. bind _ _ (bounded (suc n) 0 k) (λ _. with_current src _ (λ cur.
              by_separator-Triple src LexemeKind.lk_rbrace cur _ _ _ refl
                (bind _ _ (advance-weak src n) (λ _. Below-keep src _ (Keeps-pure nelems)))
                (bind _ _ (advance-Below src n) (λ _. with_current src _ (λ cur'.
                  bind _ _ (check src _ _ cur') (λ _.
                    before _ (λ p w. w.0.below)
                      (after _
                        (newdict_loop-Below n rounds (nelems + 1) (omega arith) (omega arith))
                        (λ a p b. Below-suc src p b))))))
                (throw_at _ cur)))))).apply;
  }

  -- the closing bracket at once, or the loop
  open_list :
      {A : Type 0} (n : ℕ) (close : LexemeKind) (none_of : A) (loop : M A)
      → is_eof close ≡ false
      → Triple (Below src n) loop (λ (a : A). Below src n)
      → Triple
          (Ready src (suc n))
          (advance >>= λ _. cur_lexeme >>= λ cur.
            if same_kind cur.kind close then (advance >> pure none_of) else loop)
          (λ (a : A). Below src n)
  open_list zero close none_of loop e h = bind _ _ (advance-Below src 0) (λ _. never src _)
  open_list (suc n) close none_of loop e h = bind _ _ (advance-Below src (suc n)) (λ _.
      with_current src _ (λ cur.
        either _ _ _
          (λ s.
            ready src cur _ (known src cur.kind close s e)
              (bind _ _ (advance-weak src n) (λ _. Below-keep src _ (Keeps-pure none_of))))
          (λ s. any src cur _ h)))

  pub newlist-Below :
      (n rounds : ℕ)
      → n ≤ rounds
      → n ≤ fuel
      → Triple (Ready src (suc n)) (newlist expr rounds) (λ (a : ℕ). Below src n)
  unfolding newlist kind_index
  newlist-Below n rounds h k =
      open_list n LexemeKind.lk_rbracket 0 _ refl (newlist_loop-Below n rounds 1 h k)

  pub newdict-Below :
      (n rounds : ℕ)
      → n ≤ rounds
      → n ≤ fuel
      → Triple (Ready src (suc n)) (newdict expr rounds) (λ (a : ℕ). Below src n)
  unfolding newdict kind_index
  newdict-Below n rounds h k =
      open_list n LexemeKind.lk_rbrace 0 _ refl (newdict_loop-Below n rounds 1 h k)

  pub funcall-Below :
      (n rounds : ℕ)
      → n ≤ rounds
      → n ≤ fuel
      → Triple (Ready src (suc n)) (funcall expr rounds) (λ (a : ℕ × Bool). Below src n)
  unfolding funcall kind_index
  funcall-Below n rounds h k =
      open_list n LexemeKind.lk_rparen (0, false) _ refl (funcall_loop-Below n rounds 1 false h k)
