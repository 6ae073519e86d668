-- ===== src/Parser/Scope.antt =====
-- parse.c: stores and modifications, and the scopes that functions open.
use calx.Base.{
  ℕ, Bool, true, false, Option, none, some, List, [], ◌∷◌, Bytes, get_elem?, length, set,
}
use calx.Lexer.Kinds.{Lexeme}
use calx.Parser.State.{
  Range, M, ◌>>=◌, ◌>>◌, pure, gets, modify, at, undefined, parsed, throw_error_at, push_range,
  here, with_arg, plain,
}
use calx.Str.Defs.{hash_str, size_max}
use calx.Vm.State.{
  Opcode, op_load_at, op_store_local, op_store_at, op_modify_at, op_load_symbolic,
  op_store_symbolic, op_modify_symbolic, Instr,
}
use calx.Vm.Values.{AritOp}
use calx.Xht.Defs.{Xht, xht_new, xht_size, xht_put, value_or}

-- the top of a stack, which must not be empty
unfoldable pub stack_top {ℓ} : {A : Type ℓ} → List A → Option A
stack_top [] = none
stack_top (a ∷ rest) = some a

-- *xht_put_int: the table, and the value that is there now
unfoldable pub xht_put_int : Xht ℕ → Bytes → ℕ → Xht ℕ × ℕ
xht_put_int ht key value =
    let (ht', i) = xht_put ht key (hash_str key) value in
    (ht', value_or (get_elem? ht'.items i) value)

-- the innermost scope
unfoldable pub scope_locals : M (Xht ℕ)
unfolding stack_top
scope_locals = gets (λ p. stack_top p.scopes) >>= at

unfoldable pub set_locals : Xht ℕ → M (Unit {0})
set_locals ht = modify λ p. record p { scopes = set p.scopes 0 ht }

unfoldable pub put_local : Bytes → M ℕ
unfolding scope_locals set_locals xht_put_int
put_local name = do
  ht ← scope_locals
  let r = xht_put_int ht name (xht_size ht)
  set_locals r.0
  pure r.1

unfoldable pub fixup_last_range_end : ℕ → M (Unit {0})
fixup_last_range_end new_end p = elim p.ranges [
  | [] ↦ undefined
  | range ∷ ranges ↦ parsed tt (record p { ranges = (record range { end = new_end }) ∷ ranges })
]

-- `store_for op c local`: the switch of load_to_store, on the opcode
unfoldable pub store_for : Opcode → ℕ → Bool → Lexeme → M Instr
unfolding put_local throw_error_at
store_for op_load_symbolic c true scapegoat = do
  ident ← gets (λ p. get_elem? p.idents c) >>= at
  idx ← put_local ident
  pure (with_arg op_store_local idx)
store_for op_load_symbolic c false scapegoat = pure (with_arg op_store_symbolic c)
store_for op_load_at c false scapegoat = pure (plain op_store_at)
store_for _ c local scapegoat = throw_error_at "invalid assignment" scapegoat

unfoldable pub load_to_store : Instr → Bool → Lexeme → M Instr
unfolding store_for
load_to_store instr local scapegoat = store_for instr.opcode instr.c local scapegoat

-- the switch of load_to_modify, on the opcode
unfoldable pub modify_for : Opcode → ℕ → AritOp → Lexeme → M Instr
unfolding throw_error_at
modify_for op_load_symbolic c aop scapegoat = pure (with_arg (op_modify_symbolic aop) c)
modify_for op_load_at c aop scapegoat = pure (plain (op_modify_at aop))
modify_for _ c aop scapegoat = throw_error_at "invalid compound assignment" scapegoat

unfoldable pub load_to_modify : Instr → AritOp → Lexeme → M Instr
unfolding modify_for
load_to_modify instr aop scapegoat = modify_for instr.opcode instr.c aop scapegoat

unfoldable pub fixup_if_any : List Range → ℕ → M (Unit {0})
unfolding fixup_last_range_end
fixup_if_any [] pos = pure tt
fixup_if_any (range ∷ ranges) pos = fixup_last_range_end pos

unfoldable pub open_scope : M (Unit {0})
unfolding fixup_if_any here push_range
open_scope = do
  pos ← here
  ranges ← gets (λ p. p.ranges)
  fixup_if_any ranges pos
  i ← gets (λ p. length p.scopes)
  modify (λ p. record p { scopes = xht_new 0 ∷ p.scopes })
  push_range (record { scope_index = i; begin = pos; end = size_max })
