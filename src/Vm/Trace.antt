-- ===== src/Vm/Trace.antt =====
-- vm.c: find_quark and the lines of a stack trace.
use calx.Base.{
  ℕ, zero, suc, ◌+◌, ◌-◌, ◌/◌, ◌≤◌, ◌<◌, ◌≡◌, refl, sym, ap, ◌∙◌, inl, inr, Bool, false, Option,
  none, some, List, [], ◌∷◌, arith, get_elem?, length, ltb, leb, ◌==◌, if◌then◌else◌, Bool-cases,
}
use mathlib.Core.Option
use calx.Vm.State.{Quark, CallSite}

-- The binary search, on fuel: the range gets shorter in each round. An index out of range is not
-- reached.
unfoldable pub quark_loop : ℕ → ℕ → List Quark → ℕ → ℕ → ℕ
quark_loop zero instr quarks left right = left
quark_loop (suc fuel) instr quarks left right =
    let mid = left + (right - left) / 2 in
    let above = quark_loop fuel instr quarks (mid + 1) right in
    let below = quark_loop fuel instr quarks left mid in
    if left == right then left else elim (get_elem? quarks mid) [
      | none ↦ left
      | some quark ↦ if leb quark.instr instr then above else below
    ]

-- `none` is the failure of the assertion
unfoldable pub find_quark : ℕ → List Quark → Option ℕ
unfolding quark_loop
find_quark instr quarks =
    let left = quark_loop (suc (length quarks)) instr quarks 0 (length quarks) in
    if left == 0 then none else some (left - 1)

-- state_print_traceback: the functions and the instructions that a trace shows, the last call first
unfoldable pub traceback : ℕ → List CallSite → List (ℕ × ℕ)
traceback ip [] = []
traceback ip (site ∷ cs) =
    (site.callee, ip)
    ∷ elim site.call_ip [ none ↦ traceback 0 cs | some call_ip ↦ traceback call_ip cs ]

-- the quarks stand in the order of their instructions
abbrev pub Sorted : List Quark → Type 0
Sorted [] = Unit
Sorted (q ∷ []) = Unit
Sorted (q ∷ r ∷ quarks) = (q.instr ≤ r.instr) × Sorted (r ∷ quarks)

-- how many quarks at the start are no later than the instruction
abbrev pub no_later : ℕ → List Quark → ℕ
no_later instr [] = 0
no_later instr (q ∷ quarks) =
    let n = suc (no_later instr quarks) in if leb q.instr instr then n else 0

Sorted-tail : (q : Quark) (quarks : List Quark) → Sorted (q ∷ quarks) → Sorted quarks
Sorted-tail q [] h = tt
Sorted-tail q (r ∷ quarks) h = h.1

same_quark : (q r : Quark) → some q ≡ some r → q ≡ r
same_quark q r e = ap (λ (o : Option Quark). Option.get_or o q) e

later :
    (instr : ℕ) (q : Quark) (quarks : List Quark) (j : ℕ) (r : Quark)
    → Sorted (q ∷ quarks)
    → instr < q.instr
    → get_elem? (q ∷ quarks) j ≡ some r
    → instr < r.instr
later instr q quarks zero r h lt e = omega (arith, ap (λ (t : Quark). t.instr) (same_quark q r e))
later instr q [] (suc j) r h lt e = absurd (Option.none-ne-some r e)
later instr q (p ∷ quarks) (suc j) r h lt e = later instr p quarks j r h.1 (omega (arith, h.0)) e

-- in order, the quark at an index tells on which side of the count the index is
side :
    (instr : ℕ) (quarks : List Quark) (j : ℕ) (q : Quark)
    → Sorted quarks
    → get_elem? quarks j ≡ some q
    → leb q.instr instr ≡ ltb j (no_later instr quarks)
side instr [] j q h e = absurd (Option.none-ne-some q e)
side instr (p ∷ quarks) zero q h e = rw (sym (same_quark p q e)) (ground arith)
side instr (p ∷ quarks) (suc j) q h e = elim (Bool-cases (leb p.instr instr)) [
  | inl t ↦ rw (t, side instr quarks j q (Sorted-tail p quarks h) e) (ground arith)
  | inr t ↦ let lt = later instr p quarks (suc j) q h (ground arith) e in rw t (ground (arith, lt))
]

pub no_later-le : (instr : ℕ) (quarks : List Quark) → no_later instr quarks ≤ length quarks
no_later-le instr [] = omega arith
no_later-le instr (q ∷ quarks) = let h = no_later-le instr quarks in ground arith

quark_at :
    (quarks : List Quark) (i : ℕ) → i < length quarks → (q : Quark) × (get_elem? quarks i ≡ some q)
quark_at [] i h = absurd (omega arith)
quark_at (q ∷ quarks) zero h = (q, refl)
quark_at (q ∷ quarks) (suc i) h = quark_at quarks i (omega arith)

pub quark_loop-no_later :
    (fuel instr : ℕ) (quarks : List Quark) (left right : ℕ)
    → Sorted quarks
    → left ≤ no_later instr quarks
    → no_later instr quarks ≤ right
    → right ≤ length quarks
    → right - left < fuel
    → quark_loop fuel instr quarks left right ≡ no_later instr quarks
unfolding quark_loop
quark_loop-no_later zero instr quarks left right h lo hi fits enough = absurd (omega arith)
quark_loop-no_later (suc fuel) instr quarks left right h lo hi fits enough =
    elim (Bool-cases (left == right)) [
      | inl e ↦ rw e (ground arith)
      | inr e ↦
          let mid = left + (right - left) / 2 in
          let below : mid < right = ground arith in
          let (q, at) = quark_at quarks mid (omega (arith, below, fits)) in
          let which = side instr quarks mid q h at in
          elim (Bool-cases (ltb mid (no_later instr quarks))) [
            | inl t ↦
                rw (e, at, which, t)
                  (quark_loop-no_later fuel instr quarks (mid + 1) right h (ground arith) hi fits
                    (ground (arith, below)))
            | inr t ↦
                rw (e, at, which, t)
                  (quark_loop-no_later fuel instr quarks left mid h lo (ground arith)
                    (omega (arith, below, fits)) (ground (arith, below)))
          ]
    ]

-- the indices up to the one found
abbrev pub up_to : Option ℕ → ℕ → Bool
up_to none j = false
up_to (some i) j = leb j i

-- Where the quarks stand in the order of their instructions, find_quark gives the last one that is no
-- later than the instruction: the quarks up to it, or none, are just those that are no later.
pub find_quark-up_to :
    (instr : ℕ) (quarks : List Quark) (j : ℕ) (q : Quark)
    → Sorted quarks
    → get_elem? quarks j ≡ some q
    → leb q.instr instr ≡ up_to (find_quark instr quarks) j
unfolding find_quark
find_quark-up_to instr quarks j q h e =
    let n = no_later instr quarks in
    let found =
      quark_loop-no_later (suc (length quarks)) instr quarks 0 (length quarks) h (omega arith)
        (no_later-le instr quarks) (omega arith) (omega arith) in
    side instr quarks j q h e ∙ elim (Bool-cases (n == 0)) [
      | inl z ↦ rw (found, z) (ground arith)
      | inr z ↦ rw (found, z) (ground arith)
    ]
