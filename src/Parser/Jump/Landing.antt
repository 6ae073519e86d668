-- ===== src/Parser/Jump/Landing.antt =====
-- parse.c with vm.c: a jump that was fixed up, as the machine takes it.
use calx.Base.{
  ℕ, ◌+◌, ◌-◌, ◌%◌, ◌^◌, ◌≤◌, ◌<◌, ◌≡◌, ◌≢◌, refl, true, some, arith, length, get_elem?, set, ltb,
  get_elem?-set_self, get_elem?-set_ne, inl, inr, Bool-cases, List, [], ◌∷◌, zero, suc,
}
use mathlib.Core.Option
use calx.Parser.Jump.{jump_offset, is_jump, fixup_jump}
use calx.Parser.State.{TaggedInstr, Parser, parsed, ◌>>=◌, pure, gets, modify, at}
use calx.Vm.Step.{jump}

jump-jump_offset :
    (from to : ℕ) → to < from + 2 ^ 31 → from ≤ to + 2 ^ 31 → jump from (jump_offset from to) ≡ to
unfolding jump jump_offset
jump-jump_offset from to far back =
    elim (Bool-cases (ltb ((to + 2 ^ 64 - from) % 2 ^ 32) (2 ^ 31))) [
      | inl e ↦ rw e (ground arith)
      | inr e ↦ rw e (ground arith)
    ]

-- the instruction at `from` is the same jump, and the machine jumps from there to `to`
pub record Lands (from to : ℕ) (ti : TaggedInstr) (p p' : Parser) : Type 0 where
  pub there : TaggedInstr
  pub at : get_elem? p'.prog from ≡ some there
  pub opcode : there.instr.opcode ≡ ti.instr.opcode
  pub line : there.line ≡ ti.line
  pub lands : jump from there.instr.c ≡ to
  pub others : (j : ℕ) → from ≢ j → get_elem? p'.prog j ≡ get_elem? p.prog j

get_elem?-lt {ℓ} :
    {A : Type ℓ} (xs : List A) (i : ℕ) (a : A) → get_elem? xs i ≡ some a → i < length xs
get_elem?-lt [] i a h = absurd (Option.none-ne-some a h)
get_elem?-lt (x ∷ xs) zero a h = omega arith
get_elem?-lt (x ∷ xs) (suc i) a h = omega (arith, get_elem?-lt xs i a h)

-- A jump instruction that fixup_jump has fixed up leads the machine to the target, if that is less than
-- 2 ^ 31 instructions ahead or at most 2 ^ 31 back; the other instructions stay as they are.
pub fixup_jump-Lands :
    (p : Parser) (from to : ℕ) (ti : TaggedInstr)
    → get_elem? p.prog from ≡ some ti
    → is_jump ti.instr.opcode ≡ true
    → to < from + 2 ^ 31
    → from ≤ to + 2 ^ 31
    → (p' : Parser) × (fixup_jump from to p ≡ parsed tt p') × Lands from to ti p p'
unfolding fixup_jump ◌>>=◌ pure gets modify at
fixup_jump-Lands p from to ti e j far back =
    let ti' : TaggedInstr = record ti { instr = record ti.instr { c = jump_offset from to } } in
    let h = get_elem?-lt p.prog from ti e in
    (
      record p { prog = set p.prog from ti' },
      rw (e, j) refl,
      record {
        there = ti';
        at = get_elem?-set_self p.prog from ti' h;
        opcode = refl;
        line = refl;
        lands = jump-jump_offset from to far back;
        others = λ k ne. get_elem?-set_ne p.prog ti' ne;
      },
    )
