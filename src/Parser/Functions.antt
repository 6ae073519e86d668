-- ===== src/Parser/Functions.antt =====
-- parse.c: the begin, the parameters and the end of a function.
pub mod Arity
use calx.Base.{ℕ, ◌+◌, ◌-◌, ◌%◌, ◌^◌, Bool, true, false, none, get_elem?, set, not, ltb, ◌==◌}
use calx.Lexer.Kinds.{Lexeme}
use calx.Parser.State.{
  bottom, s_if, s_break, s_continue, M, ◌>>=◌, ◌>>◌, pure, gets, modify, at, stack_push, stack_pop,
  throw_error, throw_error_at, add_shape, add_const_steal, emit, here, text, with_arg, plain,
}
use calx.Vm.State.{Opcode, op_load_const, op_return, op_function, Shape}
use calx.Vm.Values.{nil}
use calx.Xht.Defs.{xht_size}
use calx.Parser.Scope.{scope_locals, put_local, open_scope}
use calx.Parser.Resolve.{uint32_limit, guard, close_scope}

-- the index of the shape of a function
unfoldable pub fun_shape : Opcode → ℕ → M ℕ
fun_shape op_function c = pure c
fun_shape _ c = at none

unfoldable pub fun_shape_ptr : ℕ → M ℕ
unfolding fun_shape
fun_shape_ptr begin_pos = do
  ti ← gets (λ p. get_elem? p.prog begin_pos) >>= at
  fun_shape ti.instr.opcode ti.instr.c

unfoldable pub update_shape : ℕ → (Shape → Shape) → M (Unit {0})
update_shape i f = do
  shape ← gets (λ p. get_elem? p.shapes i) >>= at
  modify (λ p. record p { shapes = set p.shapes i (f shape) })

unfoldable pub fun_begin : M ℕ
unfolding here add_shape emit open_scope stack_push
fun_begin = do
  pos ← here
  shape_idx ← add_shape
  emit (with_arg op_function shape_idx)
  open_scope
  stack_push s_if bottom
  stack_push s_break bottom
  stack_push s_continue bottom
  pure pos

-- one more parameter; the last one gathers the rest
unfoldable pub count_param : Bool → Shape → Shape
count_param true shape = record shape { nargs_encoded = 2 ^ 32 - 1 - shape.nargs_encoded }
count_param false shape = record shape { nargs_encoded = (shape.nargs_encoded + 1) % 2 ^ 32 }

unfoldable pub fun_param : ℕ → Lexeme → Bool → M (Unit {0})
unfolding scope_locals put_local throw_error_at fun_shape_ptr update_shape count_param guard
fun_param begin_pos name gather = do
  old ← scope_locals
  key ← gets (λ p. text p name)
  idx ← put_local key
  guard (not (idx == xht_size old)) (throw_error_at "duplicate parameter" name)
  i ← fun_shape_ptr begin_pos
  update_shape i (count_param gather)

unfoldable pub fun_end : ℕ → M (Unit {0})
unfolding add_const_steal emit here fun_shape_ptr close_scope update_shape throw_error stack_pop
    guard
fun_end begin_pos = do
  i ← add_const_steal nil
  emit (with_arg op_load_const i)
  emit (plain op_return)
  pos ← here
  shape ← fun_shape_ptr begin_pos
  out ← close_scope
  update_shape shape (λ s. record s { maxstack = out.0; nlocals = out.1 })
  guard (ltb uint32_limit (pos - begin_pos)) (throw_error "function body is too long")
  update_shape shape (λ s. record s { offset = pos - begin_pos })
  v ← stack_pop s_if
  v ← stack_pop s_break
  v ← stack_pop s_continue
  pure tt
