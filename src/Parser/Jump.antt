-- ===== src/Parser/Jump.antt =====
-- parse.c: jumps that are fixed up later, and the segments of the stacks that hold them.
pub mod Landing
use calx.Base.{
  ℕ, zero, suc, ◌+◌, ◌-◌, ◌%◌, ◌^◌, Bool, true, false, none, length, get_elem?, set, not,
}
use calx.Parser.Resolve.{guard}
use calx.Parser.State.{
  Mark, bottom, segment, jump_at, StackName, M, ◌>>=◌, ◌>>◌, pure, gets, modify, at, stack_push,
  stack_peek, stack_pop, stack_of, emit, here, plain,
}
use calx.Vm.State.{Opcode, op_jump, op_jump_unless}

-- to - from, as it is stored in the 32 bits of c
unfoldable pub jump_offset : ℕ → ℕ → ℕ
jump_offset from to = (to + 2 ^ 64 - from) % 2 ^ 32

unfoldable pub postpone_jump : M ℕ
unfolding here emit
postpone_jump = do pos ← here; emit (plain op_jump); pure pos

unfoldable pub postpone_jump_unless : M ℕ
unfolding here emit
postpone_jump_unless = do pos ← here; emit (plain op_jump_unless); pure pos

unfoldable pub is_jump : Opcode → Bool
is_jump op_jump = true
is_jump op_jump_unless = true
is_jump _ = false

unfoldable pub fixup_jump : ℕ → ℕ → M (Unit {0})
unfolding guard is_jump jump_offset
fixup_jump from to = do
  ti ← gets (λ p. get_elem? p.prog from) >>= at
  guard (not (is_jump ti.instr.opcode)) (at none)
  let instr = record ti.instr { c = jump_offset from to }
  modify (λ p. record p { prog = set p.prog from (record ti { instr = instr }) })

unfoldable pub emit_jump_to : ℕ → M (Unit {0})
unfolding postpone_jump fixup_jump
emit_jump_to to = do from ← postpone_jump; fixup_jump from to

unfoldable pub stack_segment_begin : StackName → M (Unit {0})
unfolding stack_push
stack_segment_begin name = stack_push name segment

-- by the mark on top
unfoldable pub jump_and_push : Mark → StackName → M Bool
unfolding postpone_jump stack_push
jump_and_push bottom name = pure false
jump_and_push _ name = do pos ← postpone_jump; stack_push name (jump_at pos); pure true

unfoldable pub stack_segment_emit_jump_and_push : StackName → M Bool
unfolding stack_peek jump_and_push
stack_segment_emit_jump_and_push name = do mark ← stack_peek name; jump_and_push mark name

-- what the loop of stack_segment_end_fixup does with a mark; behind the bottom nothing is defined
unfoldable pub after_pop : Mark → (ℕ → M (Unit {0})) → M (Unit {0})
after_pop segment m = pure tt
after_pop bottom m = at none
after_pop (jump_at pos) m = m pos

-- The loop pops a mark in each round, so that there are no more rounds than marks.
unfoldable pub end_fixup_loop : ℕ → StackName → ℕ → M (Unit {0})
unfolding stack_pop fixup_jump after_pop
end_fixup_loop zero name to p = at none p
end_fixup_loop (suc rounds) name to p =
    (do
      mark ← stack_pop name
      after_pop mark (λ pos. fixup_jump pos to >> end_fixup_loop rounds name to))
      p

unfoldable pub stack_segment_end_fixup : StackName → ℕ → M (Unit {0})
unfolding end_fixup_loop stack_of
stack_segment_end_fixup name to = do
  n ← gets (λ p. length (stack_of name p.stacks))
  end_fixup_loop (n + 1) name to
