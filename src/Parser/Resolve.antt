-- ===== src/Parser/Resolve.antt =====
-- parse.c: resolve_symbolic and close_scope. A size_t has 64 bits.
pub mod Symbols
use calx.Base.{
  ℕ, zero, suc, ◌+◌, ◌-◌, ◌*◌, ◌/◌, ◌%◌, ◌^◌, Bool, true, false, List, [], ◌∷◌, Bytes, get_elem?,
  length, set, drop, ltb, ◌==◌, if◌then◌else◌,
}
use mathlib.Core.List.{reverse}
use calx.Parser.State.{
  TaggedInstr, Range, M, ◌>>=◌, ◌>>◌, pure, gets, modify, at, parsed, throw_error, push_range, here,
}
use calx.Str.Defs.{hash_str, size_max}
use calx.Vm.State.{
  Opcode, op_load_const, op_load_local, op_load_at, op_load_global, op_store_local, op_store_at,
  op_store_global, op_modify_local, op_modify_at, op_modify_global, op_print, op_return, op_jump,
  op_jump_unless, op_call, op_function, op_neg, op_not, op_aop, op_cmp_2way, op_cmp_3way, op_list,
  op_dict, op_len, op_load_symbolic, op_store_symbolic, op_modify_symbolic, Instr,
  state_intern_global,
}
use calx.Xht.Defs.{Xht, xht_size, xht_get, no_index}
use calx.Parser.Scope.{scope_locals, fixup_last_range_end}

-- `local_idx` is what the table has for the identifier, or (uint32_t) -1
unfoldable pub resolved : ℕ → Bytes → Instr → Opcode → Opcode → M Instr
resolved local_idx ident instr op_local op_global p =
    let (state, global_idx) = state_intern_global p.state ident in
    if local_idx == no_index
    then parsed (record { opcode = op_global; a = instr.a; c = global_idx })
        (record p { state = state })
    else parsed (record { opcode = op_local; a = instr.a; c = local_idx }) p

unfoldable pub resolve_symbolic : Xht ℕ → Instr → Opcode → Opcode → M Instr
unfolding resolved
resolve_symbolic ht instr op_local op_global = do
  ident ← gets (λ p. get_elem? p.idents instr.c) >>= at
  resolved (xht_get ht ident (hash_str ident) no_index) ident instr op_local op_global

-- the cases of the switch of close_scope that resolve an instruction
unfoldable pub resolve : Xht ℕ → Opcode → Instr → M Instr
unfolding resolve_symbolic
resolve ht op_load_symbolic instr = resolve_symbolic ht instr op_load_local op_load_global
resolve ht op_store_symbolic instr = resolve_symbolic ht instr op_store_local op_store_global
resolve ht (op_modify_symbolic aop) instr =
    resolve_symbolic ht instr (op_modify_local aop) (op_modify_global aop)
resolve ht _ instr = pure instr

-- -n as a size_t
abbrev pub minus : ℕ → ℕ
minus n = 2 ^ 64 - n

-- by how much an instruction changes the depth of the stack
unfoldable pub actions : Opcode → ℕ
actions op_load_const = 1
actions op_load_local = 1
actions op_load_at = minus 1
actions op_load_global = 1
actions (op_modify_local aop) = minus 1
actions (op_modify_at aop) = minus 3
actions (op_modify_global aop) = minus 1
actions op_store_local = minus 1
actions op_store_at = minus 3
actions op_store_global = minus 1
actions op_print = minus 1
actions op_return = minus 1
actions op_jump = 0
actions op_jump_unless = minus 1
actions op_call = 0
actions op_function = 1
actions op_neg = 0
actions op_not = 0
actions (op_aop aop) = minus 1
actions op_cmp_2way = minus 1
actions op_cmp_3way = minus 1
actions op_list = 1
actions op_dict = 1
actions op_len = 0
actions op_load_symbolic = 1
actions (op_modify_symbolic aop) = minus 1
actions op_store_symbolic = minus 1

-- what it takes off besides
unfoldable pub operands : Opcode → ℕ → ℕ
operands op_call c = c
operands op_list c = c
operands op_dict c = 2 * c
operands _ c = 0

unfoldable pub stack_after : Instr → ℕ → ℕ
unfolding actions operands
stack_after instr curstack =
    ((curstack + actions instr.opcode) % 2 ^ 64 + 2 ^ 64 - operands instr.opcode instr.c) % 2 ^ 64

-- curstack and maxstack
pub record Depth : Type 0 where
  pub curstack : ℕ
  pub maxstack : ℕ

unfoldable pub count_depth : Instr → Depth → Depth
unfolding stack_after
count_depth instr d =
    let curstack = stack_after instr d.curstack in
    record {
      curstack = curstack;
      maxstack = if ltb d.maxstack curstack then curstack else d.maxstack;
    }

unfoldable pub set_instr : ℕ → TaggedInstr → Instr → M (Unit {0})
set_instr j ti instr = modify λ p. record p { prog = set p.prog j (record ti { instr = instr }) }

-- one instruction of a range
unfoldable pub resolve_at : Xht ℕ → ℕ → Depth → M Depth
unfolding resolve count_depth set_instr
resolve_at ht j d = do
  ti ← gets (λ p. get_elem? p.prog j) >>= at
  instr ← resolve ht ti.instr.opcode ti.instr
  set_instr j ti instr
  pure (count_depth ti.instr d)

-- `n` instructions from j on
unfoldable pub resolve_range : Xht ℕ → ℕ → ℕ → Depth → M Depth
unfolding resolve_at
resolve_range ht zero j d = pure d
resolve_range ht (suc n) j d = resolve_at ht j d >>= resolve_range ht n (suc j)

unfoldable pub resolve_ranges : Xht ℕ → List Range → Depth → M Depth
unfolding resolve_range
resolve_ranges ht [] d = pure d
resolve_ranges ht (range ∷ ranges) d =
    resolve_range ht (range.end - range.begin) range.begin d >>= resolve_ranges ht ranges

-- nranges_for_scope_index: the ranges of the scope, which stand on top, and those below
unfoldable pub ranges_for_scope_index : ℕ → List Range → List Range × List Range
ranges_for_scope_index scope_index [] = ([], [])
ranges_for_scope_index scope_index (range ∷ ranges) =
    let (ours, others) = ranges_for_scope_index scope_index ranges in
    if range.scope_index == scope_index then (range ∷ ours, others) else ([], range ∷ ranges)

-- the range of the scope that goes on
unfoldable pub resume_range : ℕ → ℕ → M (Unit {0})
unfolding push_range
resume_range zero pos = pure tt
resume_range (suc n) pos = push_range (record { scope_index = n; begin = pos; end = size_max })

abbrev pub size_limit : ℕ
size_limit = size_max / 2

abbrev pub uint32_limit : ℕ
uint32_limit = (2 ^ 32 - 1) / 2

unfoldable pub guard : Bool → M (Unit {0}) → M (Unit {0})
guard true m = m
guard false m = pure tt

-- *out_maxstack and *out_nlocals
unfoldable pub close_scope : M (ℕ × ℕ)
unfolding here fixup_last_range_end scope_locals resolve_ranges ranges_for_scope_index resume_range
    throw_error guard
close_scope = do
  pos ← here
  fixup_last_range_end pos
  scope_idx ← gets (λ p. length p.scopes - 1)
  ht ← scope_locals
  split ← gets (λ p. ranges_for_scope_index scope_idx p.ranges)
  depth ← resolve_ranges ht (reverse split.0) (record { curstack = 0; maxstack = 0 })
  modify (λ p. record p { ranges = split.1 })
  guard (ltb size_limit depth.maxstack) (throw_error "program is too big")
  guard (ltb uint32_limit (xht_size ht)) (throw_error "too many locals")
  scopes ← gets (λ p. p.scopes)
  modify (λ p. record p { scopes = drop 1 scopes })
  resume_range scope_idx pos
  pure (depth.maxstack, xht_size ht)
