-- ===== src/Parser/Fuel/Scopes.antt =====
-- parse.c: scopes, functions and jumps do not move the lexer.
use calx.Base.{
  ℕ, zero, suc, refl, Bool, true, false, Option, none, some, List, [], ◌∷◌, Bytes, ◌==◌,
}
use calx.Lexer.Kinds.{Lexeme}
use calx.Parser.Functions.{fun_shape, fun_shape_ptr, update_shape, fun_begin, fun_param, fun_end}
use calx.Parser.Fuel.Keeps.{
  Post, Post-if, Same, Keeps, Keeps-bind, Keeps-pure, Keeps-at, keeps, Keeps-add_const_steal,
  Keeps-add_shape, Keeps-emit, Keeps-stack_push, Keeps-push_range, Keeps-stack_peek,
  Keeps-stack_pop,
}
use calx.Parser.Jump.{
  postpone_jump, postpone_jump_unless, fixup_jump, emit_jump_to, stack_segment_begin, jump_and_push,
  stack_segment_emit_jump_and_push, end_fixup_loop, stack_segment_end_fixup, after_pop,
}
use calx.Parser.Params.{fixup_if_set}
use calx.Parser.Resolve.{
  resolved, resolve_symbolic, resolve, set_instr, Depth, resolve_at, resolve_range, resolve_ranges,
  resume_range, guard, close_scope,
}
use calx.Parser.Scope.{
  scope_locals, set_locals, put_local, fixup_last_range_end, store_for, load_to_store, modify_for,
  load_to_modify, fixup_if_any, open_scope,
}
use calx.Parser.State.{
  TaggedInstr, Mark, bottom, segment, jump_at, StackName, Range, Parser, parsed, undefined, M,
}
use calx.Vm.State.{
  Opcode, op_load_symbolic, op_store_symbolic, op_modify_symbolic, op_load_at, op_function, Instr,
  Shape,
}
use calx.Vm.Values.{AritOp}
use calx.Xht.Defs.{Xht, no_index}

Keeps-scope_locals : Keeps scope_locals
unfolding scope_locals
Keeps-scope_locals = search keeps

Keeps-set_locals : (ht : Xht ℕ) → Keeps (set_locals ht)
unfolding set_locals
Keeps-set_locals ht = search keeps

Keeps-put_local : (name : Bytes) → Keeps (put_local name)
unfolding put_local
Keeps-put_local name = search (keeps, Keeps-scope_locals, Keeps-set_locals)

Keeps-fixup_last_range_end : (n : ℕ) → Keeps (fixup_last_range_end n)
unfolding fixup_last_range_end
Keeps-fixup_last_range_end n = record { apply = λ p. top_of p p.ranges }
  where
    top_of :
        (p : Parser) (ranges : List Range)
        → Post
            (λ (v : Unit {0}) (p' : Parser). Same p p')
            (elim ranges [
              | [] ↦ undefined
              | range ∷ ranges ↦
                  parsed tt (record p { ranges = (record range { end = n }) ∷ ranges })
            ])
    top_of p [] = tt
    top_of p (range ∷ ranges) = (refl, refl)

Keeps-store_for : (op : Opcode) (c : ℕ) (local : Bool) (l : Lexeme) → Keeps (store_for op c local l)
unfolding store_for
Keeps-store_for op_load_symbolic c true l = search (keeps, Keeps-put_local)
Keeps-store_for op_load_symbolic c false l = search keeps
Keeps-store_for op_load_at c false l = search keeps
Keeps-store_for op_load_at c true l = search keeps
Keeps-store_for _ c local l = search keeps

pub Keeps-load_to_store :
    (instr : Instr) (local : Bool) (l : Lexeme) → Keeps (load_to_store instr local l)
unfolding load_to_store
Keeps-load_to_store instr local l = Keeps-store_for _ _ _ _

Keeps-modify_for : (op : Opcode) (c : ℕ) (aop : AritOp) (l : Lexeme) → Keeps (modify_for op c aop l)
unfolding modify_for
Keeps-modify_for op_load_symbolic c aop l = search keeps
Keeps-modify_for op_load_at c aop l = search keeps
Keeps-modify_for _ c aop l = search keeps

pub Keeps-load_to_modify :
    (instr : Instr) (aop : AritOp) (l : Lexeme) → Keeps (load_to_modify instr aop l)
unfolding load_to_modify
Keeps-load_to_modify instr aop l = Keeps-modify_for _ _ _ _

Keeps-fixup_if_any : (ranges : List Range) (n : ℕ) → Keeps (fixup_if_any ranges n)
unfolding fixup_if_any
Keeps-fixup_if_any [] n = Keeps-pure _
Keeps-fixup_if_any (r ∷ ranges) n = Keeps-fixup_last_range_end n

Keeps-open_scope : Keeps open_scope
unfolding open_scope
Keeps-open_scope = search (keeps, Keeps-fixup_if_any, Keeps-push_range) depth 12

Keeps-resolved :
    (i : ℕ) (ident : Bytes) (instr : Instr) (op_local op_global : Opcode)
    → Keeps (resolved i ident instr op_local op_global)
unfolding resolved
Keeps-resolved i ident instr op_local op_global = record {
  apply = λ p.
      Post-if (λ (a : Instr) (p' : Parser). Same p p') (i == no_index) _ _ (refl, refl)
        (refl, refl);
}

Keeps-resolve_symbolic :
    (ht : Xht ℕ) (instr : Instr) (op_local op_global : Opcode)
    → Keeps (resolve_symbolic ht instr op_local op_global)
unfolding resolve_symbolic
Keeps-resolve_symbolic ht instr op_local op_global = search (keeps, Keeps-resolved)

Keeps-resolve : (ht : Xht ℕ) (op : Opcode) (instr : Instr) → Keeps (resolve ht op instr)
unfolding resolve
Keeps-resolve ht op_load_symbolic instr = Keeps-resolve_symbolic ht instr _ _
Keeps-resolve ht op_store_symbolic instr = Keeps-resolve_symbolic ht instr _ _
Keeps-resolve ht (op_modify_symbolic aop) instr = Keeps-resolve_symbolic ht instr _ _
Keeps-resolve ht _ instr = Keeps-pure _

Keeps-set_instr : (j : ℕ) (ti : TaggedInstr) (instr : Instr) → Keeps (set_instr j ti instr)
unfolding set_instr
Keeps-set_instr j ti instr = search keeps

Keeps-resolve_at : (ht : Xht ℕ) (j : ℕ) (d : Depth) → Keeps (resolve_at ht j d)
unfolding resolve_at
Keeps-resolve_at ht j d = search (keeps, Keeps-resolve, Keeps-set_instr) depth 12

Keeps-resolve_range : (ht : Xht ℕ) (n j : ℕ) (d : Depth) → Keeps (resolve_range ht n j d)
unfolding resolve_range
Keeps-resolve_range ht zero j d = Keeps-pure _
Keeps-resolve_range ht (suc n) j d =
    Keeps-bind _ _ (Keeps-resolve_at ht j d) (Keeps-resolve_range ht n (suc j))

Keeps-resolve_ranges :
    (ht : Xht ℕ) (ranges : List Range) (d : Depth) → Keeps (resolve_ranges ht ranges d)
unfolding resolve_ranges
Keeps-resolve_ranges ht [] d = Keeps-pure _
Keeps-resolve_ranges ht (r ∷ ranges) d =
    Keeps-bind _ _ (Keeps-resolve_range ht _ _ d) (Keeps-resolve_ranges ht ranges)

Keeps-resume_range : (n pos : ℕ) → Keeps (resume_range n pos)
unfolding resume_range
Keeps-resume_range zero pos = Keeps-pure _
Keeps-resume_range (suc n) pos = Keeps-push_range _

pub Keeps-guard : (b : Bool) (m : M (Unit {0})) → Keeps m → Keeps (guard b m)
unfolding guard
Keeps-guard true m h = h
Keeps-guard false m h = Keeps-pure _

Keeps-close_scope : Keeps close_scope
unfolding close_scope
Keeps-close_scope =
    search
      (
        keeps, Keeps-fixup_last_range_end, Keeps-scope_locals, Keeps-resolve_ranges, Keeps-guard,
        Keeps-resume_range,
      )
      depth 30

Keeps-fun_shape : (op : Opcode) (c : ℕ) → Keeps (fun_shape op c)
unfolding fun_shape
Keeps-fun_shape op_function c = Keeps-pure _
Keeps-fun_shape _ c = Keeps-at none

Keeps-fun_shape_ptr : (n : ℕ) → Keeps (fun_shape_ptr n)
unfolding fun_shape_ptr
Keeps-fun_shape_ptr n = search (keeps, Keeps-fun_shape) depth 12

Keeps-update_shape : (i : ℕ) (f : Shape → Shape) → Keeps (update_shape i f)
unfolding update_shape
Keeps-update_shape i f = search keeps depth 12

pub Keeps-fun_begin : Keeps fun_begin
unfolding fun_begin
Keeps-fun_begin =
    search (keeps, Keeps-add_shape, Keeps-emit, Keeps-open_scope, Keeps-stack_push) depth 30

pub Keeps-fun_param : (n : ℕ) (l : Lexeme) (gather : Bool) → Keeps (fun_param n l gather)
unfolding fun_param
Keeps-fun_param n l gather =
    search
      (
        keeps, Keeps-scope_locals, Keeps-put_local, Keeps-guard, Keeps-fun_shape_ptr,
        Keeps-update_shape,
      )
      depth 30

pub Keeps-fun_end : (n : ℕ) → Keeps (fun_end n)
unfolding fun_end
Keeps-fun_end n =
    search
      (
        keeps, Keeps-add_const_steal, Keeps-emit, Keeps-fun_shape_ptr, Keeps-close_scope,
        Keeps-update_shape, Keeps-guard, Keeps-stack_pop,
      )
      depth 40

pub Keeps-postpone_jump : Keeps postpone_jump
unfolding postpone_jump
Keeps-postpone_jump = search (keeps, Keeps-emit) depth 12

pub Keeps-postpone_jump_unless : Keeps postpone_jump_unless
unfolding postpone_jump_unless
Keeps-postpone_jump_unless = search (keeps, Keeps-emit) depth 12

pub Keeps-fixup_jump : (from to : ℕ) → Keeps (fixup_jump from to)
unfolding fixup_jump
Keeps-fixup_jump from to = search (keeps, Keeps-guard) depth 12

pub Keeps-fixup_if_set : (from : Option ℕ) (to : ℕ) → Keeps (fixup_if_set from to)
unfolding fixup_if_set
Keeps-fixup_if_set none to = Keeps-pure _
Keeps-fixup_if_set (some from) to = Keeps-fixup_jump from to

pub Keeps-emit_jump_to : (to : ℕ) → Keeps (emit_jump_to to)
unfolding emit_jump_to
Keeps-emit_jump_to to = search (keeps, Keeps-postpone_jump, Keeps-fixup_jump) depth 12

pub Keeps-stack_segment_begin : (name : StackName) → Keeps (stack_segment_begin name)
unfolding stack_segment_begin
Keeps-stack_segment_begin name = Keeps-stack_push _ _

Keeps-jump_and_push : (mark : Mark) (name : StackName) → Keeps (jump_and_push mark name)
unfolding jump_and_push
Keeps-jump_and_push bottom name = Keeps-pure _
Keeps-jump_and_push _ name = search (keeps, Keeps-postpone_jump, Keeps-stack_push) depth 12

pub Keeps-segment_emit : (name : StackName) → Keeps (stack_segment_emit_jump_and_push name)
unfolding stack_segment_emit_jump_and_push
Keeps-segment_emit name = search (keeps, Keeps-stack_peek, Keeps-jump_and_push) depth 12

Keeps-after_pop :
    (mark : Mark) (m : ℕ → M (Unit {0})) → ((pos : ℕ) → Keeps (m pos)) → Keeps (after_pop mark m)
unfolding after_pop
Keeps-after_pop segment m h = Keeps-pure _
Keeps-after_pop bottom m h = Keeps-at none
Keeps-after_pop (jump_at pos) m h = h pos

Keeps-end_fixup_loop : (n : ℕ) (name : StackName) (to : ℕ) → Keeps (end_fixup_loop n name to)
unfolding end_fixup_loop
Keeps-end_fixup_loop zero name to = record { apply = λ p. (Keeps-at none).apply p }
Keeps-end_fixup_loop (suc n) name to = record {
  apply =
      (Keeps-bind _ _ (Keeps-stack_pop name) (λ mark. Keeps-after_pop mark _ (λ pos.
        Keeps-bind _ _ (Keeps-fixup_jump pos to) (λ _. Keeps-end_fixup_loop n name to)))).apply;
}

pub Keeps-stack_segment_end_fixup :
    (name : StackName) (to : ℕ) → Keeps (stack_segment_end_fixup name to)
unfolding stack_segment_end_fixup
Keeps-stack_segment_end_fixup name to = search (keeps, Keeps-end_fixup_loop)
