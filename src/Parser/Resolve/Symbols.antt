-- ===== src/Parser/Resolve/Symbols.antt =====
-- parse.c: the symbolic instructions of a range, in close_scope.
use calx.Base.{
  ℕ, zero, suc, ◌+◌, ◌<◌, ◌≡◌, ◌≢◌, refl, sym, ap, ◌∙◌, Bool, true, false, Option, none, some, not,
  ◌||◌, List, [], ◌∷◌, length, set, get_elem?, get_elem?-set_ne, Bytes, ltb, leb, ◌==◌, ◌&&◌, arith,
  Bool-cases, inl, inr,
}
use calx.Parser.Resolve.{
  resolved, resolve_symbolic, resolve, resolve_at, resolve_range, set_instr, Depth, count_depth,
}
use calx.Parser.State.{
  Parser, then_parse, Parse, parsed, TaggedInstr, ◌>>=◌, pure, gets, modify, at,
}
use calx.Vm.State.{Instr, Opcode, op_load_symbolic, op_store_symbolic, op_modify_symbolic}
use calx.Str.Defs.{hash_str}
use calx.Xht.Defs.{Xht, xht_get, no_index}

abbrev pub is_symbolic : Opcode → Bool
is_symbolic op_load_symbolic = true
is_symbolic op_store_symbolic = true
is_symbolic (op_modify_symbolic aop) = true
is_symbolic _ = false

abbrev pub symbolic : Option TaggedInstr → Bool
symbolic none = false
symbolic (some ti) = is_symbolic ti.instr.opcode

-- an instruction that is there, and that has an identifier if it is symbolic
abbrev pub known : List Bytes → Option TaggedInstr → Bool
known idents none = false
known idents (some ti) = not (is_symbolic ti.instr.opcode) || ltb ti.instr.c (length idents)

-- a parser with the same program, and an instruction that is not symbolic
record Resolved (p : Parser) (r : Parse Instr) : Type 0 where
  instr : Instr
  next : Parser
  runs : r ≡ parsed instr next
  prog : next.prog ≡ p.prog
  idents : next.idents ≡ p.idents
  plain : is_symbolic instr.opcode ≡ false

found :
    (xs : List Bytes) (i : ℕ) → ltb i (length xs) ≡ true → (x : Bytes) × (get_elem? xs i ≡ some x)
found [] i h = absurd (ground arith)
found (x ∷ xs) zero h = (x, refl)
found (x ∷ xs) (suc i) h = found xs i (ground arith)

at_once :
    (p next : Parser) (instr : Instr)
    → next.prog ≡ p.prog
    → next.idents ≡ p.idents
    → is_symbolic instr.opcode ≡ false
    → Resolved p (parsed instr next)
at_once p next instr h k e = record {
  instr = instr;
  next = next;
  runs = refl;
  prog = h;
  idents = k;
  plain = e;
}

resolved-Resolved :
    (i : ℕ) (ident : Bytes) (instr : Instr) (op_local op_global : Opcode) (p : Parser)
    → is_symbolic op_local ≡ false
    → is_symbolic op_global ≡ false
    → Resolved p (resolved i ident instr op_local op_global p)
unfolding resolved
resolved-Resolved i ident instr op_local op_global p h k = elim (Bool-cases (i == no_index)) [
  | inl e ↦ rw e (at_once p _ _ refl refl k)
  | inr e ↦ rw e (at_once p _ _ refl refl h)
]

resolve_symbolic-Resolved :
    (ht : Xht ℕ) (instr : Instr) (op_local op_global : Opcode) (p : Parser)
    → ltb instr.c (length p.idents) ≡ true
    → is_symbolic op_local ≡ false
    → is_symbolic op_global ≡ false
    → Resolved p (resolve_symbolic ht instr op_local op_global p)
unfolding resolve_symbolic ◌>>=◌ gets at
resolve_symbolic-Resolved ht instr op_local op_global p in_range h k =
    let (ident, e) = found p.idents instr.c in_range in
    rw e (
      resolved-Resolved (xht_get ht ident (hash_str ident) no_index) ident instr op_local op_global
        p h k)

resolve-Resolved :
    (ht : Xht ℕ) (op : Opcode) (instr : Instr) (p : Parser)
    → instr.opcode ≡ op
    → (not (is_symbolic op) || ltb instr.c (length p.idents)) ≡ true
    → Resolved p (resolve ht op instr p)
unfolding resolve pure
resolve-Resolved ht op_load_symbolic instr p e h =
    resolve_symbolic-Resolved ht instr _ _ p h refl refl
resolve-Resolved ht op_store_symbolic instr p e h =
    resolve_symbolic-Resolved ht instr _ _ p h refl refl
resolve-Resolved ht (op_modify_symbolic aop) instr p e h =
    resolve_symbolic-Resolved ht instr _ _ p h refl refl
resolve-Resolved ht _ instr p e h = at_once p p instr refl refl (ap is_symbolic e)

-- one step: the instruction at j is another one, which is not symbolic
record Stepped (j : ℕ) (p : Parser) (r : Parse Depth) : Type 0 where
  depth : Depth
  next : Parser
  runs : r ≡ parsed depth next
  ti : TaggedInstr
  prog : next.prog ≡ set p.prog j ti
  idents : next.idents ≡ p.idents
  plain : is_symbolic ti.instr.opcode ≡ false

step_at :
    (ht : Xht ℕ) (j : ℕ) (d : Depth) (p : Parser) (o : Option TaggedInstr)
    → get_elem? p.prog j ≡ o
    → known p.idents o ≡ true
    → Stepped j p (resolve_at ht j d p)
unfolding resolve_at set_instr ◌>>=◌ gets at modify pure
step_at ht j d p none e h = absurd (ground arith)
step_at ht j d p (some ti) e h =
    let r = resolve-Resolved ht ti.instr.opcode ti.instr p refl h in
    rw (e, r.runs)
      (record {
        depth = count_depth ti.instr d;
        next = record r.next { prog = set r.next.prog j (record ti { instr = r.instr }) };
        runs = refl;
        ti = record ti { instr = r.instr };
        prog = ap (λ prog. set prog j (record ti { instr = r.instr })) r.prog;
        idents = r.idents;
        plain = r.plain;
      })

known-length :
    (idents : List Bytes) (prog : List TaggedInstr) (j : ℕ)
    → known idents (get_elem? prog j) ≡ true
    → j < length prog
known-length idents [] j h = absurd (ground arith)
known-length idents (ti ∷ prog) zero h = omega arith
known-length idents (ti ∷ prog) (suc j) h = omega (arith, known-length idents prog j h)

-- whether the instruction k is symbolic when those from j up to m are resolved
abbrev pub still_symbolic : List TaggedInstr → ℕ → ℕ → ℕ → Bool
still_symbolic prog j m k = not (leb j k && ltb k m) && symbolic (get_elem? prog k)

set-symbolic :
    (prog : List TaggedInstr) (j k : ℕ) (ti : TaggedInstr)
    → j < length prog
    → is_symbolic ti.instr.opcode ≡ false
    → symbolic (get_elem? (set prog j ti) k) ≡ (not (j == k) && symbolic (get_elem? prog k))
set-symbolic [] j k ti h e = absurd (omega arith)
set-symbolic (x ∷ prog) zero zero ti h e = e
set-symbolic (x ∷ prog) zero (suc k) ti h e =
    let other : (0 == suc k) ≡ false = ground arith in rw other refl
set-symbolic (x ∷ prog) (suc j) zero ti h e =
    let other : (suc j == 0) ≡ false = ground arith in rw other refl
set-symbolic (x ∷ prog) (suc j) (suc k) ti h e =
    let same : (suc j == suc k) ≡ (j == k) = ground arith in
    rw same (set-symbolic prog j k ti (omega arith) e)

still_symbolic-step :
    (prog prog' : List TaggedInstr) (j n k : ℕ)
    → symbolic (get_elem? prog' k) ≡ (not (j == k) && symbolic (get_elem? prog k))
    → still_symbolic prog' (suc j) (suc j + n) k ≡ still_symbolic prog j (j + suc n) k
still_symbolic-step prog prog' j n k h = rw h (outside (symbolic (get_elem? prog k)))
  where
    outside :
        (s : Bool)
        → (not (leb (suc j) k && ltb k (suc j + n)) && (not (j == k) && s))
          ≡ (not (leb j k && ltb k (j + suc n)) && s)
    outside s = ground arith

-- The loop of close_scope over the instructions of a range, which are all there and have an identifier
-- where they are symbolic, gets to its end, and behind it none of them is symbolic and any other
-- instruction is just if it was.
pub resolve_range-still_symbolic :
    (ht : Xht ℕ) (n j k : ℕ) (d : Depth) (p : Parser)
    → ((i : ℕ) → i < n → known p.idents (get_elem? p.prog (j + i)) ≡ true)
    → (d' : Depth) × (p' : Parser) × (resolve_range ht n j d p ≡ parsed d' p')
      × (symbolic (get_elem? p'.prog k) ≡ still_symbolic p.prog j (j + n) k)
unfolding resolve_range ◌>>=◌ pure
resolve_range-still_symbolic ht zero j k d p h =
    let e : (leb j k && ltb k (j + 0)) ≡ false = ground arith in (d, p, refl, rw e refl)
resolve_range-still_symbolic ht (suc n) j k d p h =
    let start : j + 0 ≡ j = omega arith in
    let here = ap (λ i. known p.idents (get_elem? p.prog i)) (sym start) ∙ h 0 (omega arith) in
    let s = step_at ht j d p (get_elem? p.prog j) refl here in
    let (d', p', runs, plain) =
      resolve_range-still_symbolic ht n (suc j) k s.depth s.next (λ i l. after s i l) in
    let stepped =
      ap (λ prog. symbolic (get_elem? prog k)) s.prog
      ∙ set-symbolic p.prog j k s.ti (known-length p.idents p.prog j here) s.plain in
    (
      d',
      p',
      ap (λ r. then_parse r (resolve_range ht n (suc j))) s.runs ∙ runs,
      plain ∙ still_symbolic-step p.prog s.next.prog j n k stepped,
    )
  where
    after :
        (s : Stepped j p (resolve_at ht j d p)) (i : ℕ)
        → i < n
        → known s.next.idents (get_elem? s.next.prog (suc j + i)) ≡ true
    after s i l =
        let ne : j ≢ suc j + i = λ e. omega (arith, e) in
        let shift : j + suc i ≡ suc j + i = omega arith in
        rw (s.idents, s.prog, get_elem?-set_ne p.prog s.ti ne)
          (ap (λ i. known p.idents (get_elem? p.prog i)) (sym shift) ∙ h (suc i) (omega arith))
