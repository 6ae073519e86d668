-- ===== src/Parser/Fuel/Keeps.antt =====
-- parse.c: operations that do not move the lexer.
use calx.Base.{
  ℕ, ◌≡◌, refl, ◌∙◌, Bool, true, false, Option, none, some, List, [], ◌∷◌, if◌then◌else◌,
}
use calx.Lexer.Kinds.{Lexeme}
use calx.Parser.State.{
  Parser, Parse, parsed, thrown, undefined, exhausted, M, then_parse, ◌>>=◌, pure, gets, modify, at,
  emit, emit_at, emit_at_line, throw_error, throw_error_at, index_or_throw, add_shape,
  add_const_steal, unemit, load, stack_push, push_range, throw_error_precise, here, StackName,
  stack_peek, stack_pop, Mark, Range, stack_of, with_stack,
}
use calx.Vm.State.{Instr}
use calx.Vm.Values.{Value}
use Prim.Native.String.{String}

-- `Q` holds of a result and the parser behind it, and the fuel does not run out
abbrev pub Post : {A : Type 0} → (A → Parser → Type 0) → Parse A → Type 0
Post Q (parsed a p) = Q a p
Post Q (thrown e s) = Unit
Post Q undefined = Unit
Post Q exhausted = ⊥

pub Post-then :
    {A B : Type 0} (Q : A → Parser → Type 0) (R : B → Parser → Type 0) (r : Parse A) (f : A → M B)
    → Post Q r
    → ((a : A) (p : Parser) → Q a p → Post R (f a p))
    → Post R (then_parse r f)
Post-then Q R (parsed a p) f h k = k a p h
Post-then Q R (thrown e s) f h k = tt
Post-then Q R undefined f h k = tt
Post-then Q R exhausted f h k = h

pub Post-if :
    {A : Type 0} (Q : A → Parser → Type 0) (b : Bool) (r s : Parse A)
    → Post Q r
    → Post Q s
    → Post Q (if b then r else s)
Post-if Q true r s h k = h
Post-if Q false r s h k = k

abbrev pub Same : Parser → Parser → Type 0
Same p p' = (p'.lexer ≡ p.lexer) × (p'.cur ≡ p.cur)

pub record Keeps {A : Type 0} (m : M A) : Type 0 where
  pub apply : (p : Parser) → Post (λ (a : A) (p' : Parser). Same p p') (m p)

Same-trans : (p q r : Parser) → Same p q → Same q r → Same p r
Same-trans p q r h k = (k.0 ∙ h.0, k.1 ∙ h.1)

pub Keeps-bind :
    {A B : Type 0} (m : M A) (f : A → M B) → Keeps m → ((a : A) → Keeps (f a)) → Keeps (m >>= f)
unfolding ◌>>=◌
Keeps-bind {A} {B} m f h k = record {
  apply = λ p.
      Post-then (λ (a : A) (p' : Parser). Same p p') _ (m p) f (h.apply p)
        (λ a q s. weaken p q (f a q) s ((k a).apply q));
}
  where
    weaken :
        (p q : Parser) (r : Parse B)
        → Same p q
        → Post (λ (b : B) (p' : Parser). Same q p') r
        → Post (λ (b : B) (p' : Parser). Same p p') r
    weaken p q (parsed b p') s h = Same-trans p q p' s h
    weaken p q (thrown e s') s h = tt
    weaken p q undefined s h = tt
    weaken p q exhausted s h = h

pub Keeps-pure : {A : Type 0} (a : A) → Keeps (pure a)
unfolding pure
Keeps-pure a = record { apply = λ p. (refl, refl) }

pub Keeps-gets : {A : Type 0} (f : Parser → A) → Keeps (gets f)
unfolding gets
Keeps-gets f = record { apply = λ p. (refl, refl) }

pub Keeps-modify : (f : Parser → Parser) → ((p : Parser) → Same p (f p)) → Keeps (modify f)
unfolding modify
Keeps-modify f h = record { apply = h }

pub Keeps-at : {A : Type 0} (o : Option A) → Keeps (at o)
unfolding at
Keeps-at none = record { apply = λ p. tt }
Keeps-at (some a) = record { apply = λ p. (refl, refl) }

pub Keeps-if : {A : Type 0} (b : Bool) (m n : M A) → Keeps m → Keeps n → Keeps (if b then m else n)
Keeps-if true m n h k = h
Keeps-if false m n h k = k

pub Keeps-throw_error : {A : Type 0} (msg : String) → Keeps {A = A} (throw_error msg)
unfolding throw_error
Keeps-throw_error msg = record { apply = λ p. tt }

pub Keeps-throw_error_at :
    {A : Type 0} (msg : String) (l : Lexeme) → Keeps {A = A} (throw_error_at msg l)
unfolding throw_error_at
Keeps-throw_error_at msg l = record { apply = λ p. tt }

pub ruleset keeps = (
  Keeps-bind, Keeps-pure, Keeps-gets, Keeps-modify, Keeps-at, Keeps-if, Keeps-throw_error,
  Keeps-throw_error_at,
)

Keeps-emit_at_line : (instr : Instr) (line : Option ℕ) → Keeps (emit_at_line instr line)
unfolding emit_at_line
Keeps-emit_at_line instr line = Keeps-modify _ (λ p. (refl, refl))

pub Keeps-index_or_throw : (i : ℕ) (msg : String) → Keeps (index_or_throw i msg)
unfolding index_or_throw
Keeps-index_or_throw i msg = search keeps

pub Keeps-add_const_steal : (v : Value) → Keeps (add_const_steal v)
unfolding add_const_steal
Keeps-add_const_steal v = search keeps

pub Keeps-add_shape : Keeps add_shape
unfolding add_shape
Keeps-add_shape = search keeps

pub Keeps-emit : (instr : Instr) → Keeps (emit instr)
unfolding emit
Keeps-emit instr = Keeps-emit_at_line _ _

pub Keeps-emit_at : (instr : Instr) (l : Lexeme) → Keeps (emit_at instr l)
unfolding emit_at
Keeps-emit_at instr l = Keeps-emit_at_line _ _

pub Keeps-unemit : Keeps unemit
unfolding unemit
Keeps-unemit = search keeps

pub Keeps-here : Keeps here
unfolding here
Keeps-here = Keeps-gets _

pub Keeps-load : (l : Lexeme) → Keeps (load l)
unfolding load
Keeps-load l = search keeps

pub Keeps-stack_push : (name : StackName) (v : Mark) → Keeps (stack_push name v)
unfolding stack_push
Keeps-stack_push name v = Keeps-modify _ (λ p. (refl, refl))

pub Keeps-push_range : (r : Range) → Keeps (push_range r)
unfolding push_range
Keeps-push_range r = Keeps-modify _ (λ p. (refl, refl))

pub Keeps-throw_error_precise :
    {A : Type 0} (msg : String) (line column size : ℕ)
    → Keeps {A = A} (throw_error_precise msg line column size)
unfolding throw_error_precise
Keeps-throw_error_precise msg line column size = record { apply = λ p. tt }

pub Keeps-stack_peek : (name : StackName) → Keeps (stack_peek name)
unfolding stack_peek
Keeps-stack_peek name = record { apply = λ p. top_of p (stack_of name p.stacks) }
  where
    top_of :
        (p : Parser) (marks : List Mark)
        → Post
            (λ (v : Mark) (p' : Parser). Same p p')
            (elim marks [ [] ↦ undefined | v ∷ marks ↦ parsed v p ])
    top_of p [] = tt
    top_of p (v ∷ marks) = (refl, refl)

pub Keeps-stack_pop : (name : StackName) → Keeps (stack_pop name)
unfolding stack_pop
Keeps-stack_pop name = record { apply = λ p. top_of p (stack_of name p.stacks) }
  where
    top_of :
        (p : Parser) (marks : List Mark)
        → Post
            (λ (v : Mark) (p' : Parser). Same p p')
            (elim marks [
              | [] ↦ undefined
              | v ∷ marks ↦ parsed v (record p { stacks = with_stack name p.stacks marks })
            ])
    top_of p [] = tt
    top_of p (v ∷ marks) = (refl, refl)
