-- ===== src/Parser/Main/Lines.antt =====
-- parse.c with vm.c: the quarks of a chunk, as find_quark reads them.
use calx.Base.{
  ℕ, zero, suc, ◌+◌, ◌-◌, ◌≤◌, ◌<◌, ◌≡◌, refl, ap, ◌∙◌, inl, inr, Option, none, some, List, [], ◌∷◌,
  arith, get_elem?, length, leb, ◌==◌, if◌then◌else◌, Bool-cases,
}
use mathlib.Core.Option
use calx.Parser.Main.{same_line, add_quark, quarks_loop, to_chunk}
use calx.Parser.State.{TaggedInstr, Parser}
use calx.Vm.State.{Quark}
use calx.Vm.Trace.{find_quark, Sorted, no_later, no_later-le, quark_loop-no_later}

abbrev or_else : Option ℕ → Option ℕ → Option ℕ
or_else none line = line
or_else (some l) line = some l

-- the line of the last instruction up to an index that has one; `line` is that before the first one
abbrev pub last_line : Option ℕ → List TaggedInstr → ℕ → Option ℕ
last_line line [] i = line
last_line line (ti ∷ prog) zero = or_else ti.line line
last_line line (ti ∷ prog) (suc i) = last_line (or_else ti.line line) prog i

-- the line of the quark at the index that was found
abbrev pub quark_line : List Quark → Option ℕ → Option ℕ
quark_line quarks none = none
quark_line quarks (some k) = Option.map (λ (q : Quark). q.line) (get_elem? quarks k)

-- the line of the last of the leading quarks that are no later than the instruction
line_up_to : Option ℕ → ℕ → List Quark → Option ℕ
line_up_to line i [] = line
line_up_to line i (q ∷ quarks) =
    let more = line_up_to (some q.line) i quarks in if leb q.instr i then more else line

-- what find_quark and quark_line make of the count of those quarks
line_of_count : Option ℕ → ℕ → List Quark → Option ℕ
line_of_count line zero quarks = line
line_of_count line (suc k) quarks = quark_line quarks (some k)

shift :
    (q : Quark) (quarks : List Quark) (n : ℕ)
    → quark_line (q ∷ quarks) (some n) ≡ line_of_count (some q.line) n quarks
unfolding line_of_count
shift q quarks zero = refl
shift q quarks (suc n) = refl

count-line_up_to :
    (line : Option ℕ) (i : ℕ) (quarks : List Quark)
    → line_of_count line (no_later i quarks) quarks ≡ line_up_to line i quarks
unfolding line_up_to line_of_count
count-line_up_to line i [] = refl
count-line_up_to line i (q ∷ quarks) = elim (Bool-cases (leb q.instr i)) [
  | inl e ↦ rw e (shift q quarks (no_later i quarks) ∙ count-line_up_to (some q.line) i quarks)
  | inr e ↦ rw e refl
]

test : (n : ℕ) → (if suc n == 0 then none else some (suc n - 1)) ≡ some n
test n = ground arith

find_quark-line_up_to :
    (i : ℕ) (quarks : List Quark)
    → Sorted quarks
    → quark_line quarks (find_quark i quarks) ≡ line_up_to none i quarks
unfolding find_quark line_of_count
find_quark-line_up_to i quarks h =
    let found =
      quark_loop-no_later (suc (length quarks)) i quarks 0 (length quarks) h (omega arith)
        (no_later-le i quarks) (omega arith) (omega arith) in
    rw found (by_count (no_later i quarks)) ∙ count-line_up_to none i quarks
  where
    by_count :
        (n : ℕ)
        → quark_line quarks (if n == 0 then none else some (n - 1)) ≡ line_of_count none n quarks
    by_count zero = refl
    by_count (suc n) = ap (λ o. quark_line quarks o) (test n)

-- quarks of later instructions
add_quark-before :
    (line : Option ℕ) (i n : ℕ) (cur tl : Option ℕ) (again : Option ℕ → List Quark)
    → i < n
    → ((cur' : Option ℕ) → line_up_to line i (again cur') ≡ line)
    → line_up_to line i (add_quark n cur tl again) ≡ line
unfolding line_up_to add_quark
add_quark-before line i n cur none again h ih = ih cur
add_quark-before line i n cur (some l) again h ih = elim (Bool-cases (same_line cur l)) [
  | inl e ↦ rw e (ih cur)
  | inr e ↦ rw e (ground arith)
]

line_up_to-before :
    (line : Option ℕ) (i n : ℕ) (cur : Option ℕ) (prog : List TaggedInstr)
    → i < n
    → line_up_to line i (quarks_loop n cur prog) ≡ line
unfolding line_up_to quarks_loop
line_up_to-before line i n cur [] h = refl
line_up_to-before line i n cur (ti ∷ prog) h =
    add_quark-before line i n cur ti.line (λ c. quarks_loop (suc n) c prog) h
      (λ c. line_up_to-before line i (suc n) c prog (omega arith))

add_quark-Sorted :
    (q : Quark) (n : ℕ) (cur tl : Option ℕ) (again : Option ℕ → List Quark)
    → q.instr ≤ n
    → ((r : Quark) (cur' : Option ℕ) → r.instr ≤ n → Sorted (r ∷ again cur'))
    → Sorted (q ∷ add_quark n cur tl again)
unfolding add_quark
add_quark-Sorted q n cur none again h ih = ih q cur h
add_quark-Sorted q n cur (some l) again h ih = elim (Bool-cases (same_line cur l)) [
  | inl e ↦ rw e (ih q cur h)
  | inr e ↦ let r : Quark = record { instr = n; line = l } in rw e (h, ih r (some l) (omega arith))
]

quarks_loop-Sorted :
    (q : Quark) (n : ℕ) (cur : Option ℕ) (prog : List TaggedInstr)
    → q.instr ≤ n
    → Sorted (q ∷ quarks_loop n cur prog)
unfolding quarks_loop
quarks_loop-Sorted q n cur [] h = tt
quarks_loop-Sorted q n cur (ti ∷ prog) h =
    add_quark-Sorted q n cur ti.line (λ c. quarks_loop (suc n) c prog) h
      (λ r c k. quarks_loop-Sorted r (suc n) c prog (omega arith))

Sorted-of : (q : Quark) (quarks : List Quark) → Sorted (q ∷ quarks) → Sorted quarks
Sorted-of q [] h = tt
Sorted-of q (r ∷ quarks) h = h.1

-- the line of the last quark is that of the last instruction that has one
add_quark-line :
    (i n : ℕ) (cur tl : Option ℕ) (again : Option ℕ → List Quark)
    → n ≤ i
    → line_up_to cur i (add_quark n cur tl again)
      ≡ line_up_to (or_else tl cur) i (again (or_else tl cur))
unfolding line_up_to add_quark same_line
add_quark-line i n cur none again h = refl
add_quark-line i n none (some l) again h = ground arith
add_quark-line i n (some k) (some l) again h = ground arith

line_up_to-last_line :
    (n i : ℕ) (cur : Option ℕ) (prog : List TaggedInstr)
    → line_up_to cur (n + i) (quarks_loop n cur prog) ≡ last_line cur prog i
unfolding line_up_to quarks_loop
line_up_to-last_line n i cur [] = refl
line_up_to-last_line n zero cur (ti ∷ prog) =
    add_quark-line (n + 0) n cur ti.line (λ c. quarks_loop (suc n) c prog) (omega arith)
    ∙ line_up_to-before (or_else ti.line cur) (n + 0) (suc n) (or_else ti.line cur) prog
        (omega arith)
line_up_to-last_line n (suc i) cur (ti ∷ prog) =
    let e : n + suc i ≡ suc n + i = omega arith in
    add_quark-line (n + suc i) n cur ti.line (λ c. quarks_loop (suc n) c prog) (omega arith)
    ∙ rw e (line_up_to-last_line (suc n) i (or_else ti.line cur) prog)

-- For every instruction of a compiled program, find_quark gives a quark with the line of the last
-- instruction up to it that has a line, or none where there is no such instruction.
pub to_chunk-last_line :
    (p : Parser) (i : ℕ)
    → quark_line (to_chunk p).quarks (find_quark i (to_chunk p).quarks) ≡ last_line none p.prog i
unfolding to_chunk
to_chunk-last_line p i =
    let first : Quark = record { instr = 0; line = 0 } in
    let quarks = quarks_loop 0 none p.prog in
    let h = Sorted-of first quarks (quarks_loop-Sorted first 0 none p.prog (omega arith)) in
    let e : 0 + i ≡ i = omega arith in
    find_quark-line_up_to i quarks h ∙ rw e at (line_up_to-last_line 0 i none p.prog)
