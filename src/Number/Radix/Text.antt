-- ===== src/Number/Radix/Text.antt =====
-- number.c: the text that number_parse_base_validate accepts, its digits and its period.
use mathlib.Core.Option
use calx.Base.{
  ℕ, suc, ◌+◌, ◌*◌, ◌≤◌, ◌<◌, ◌≡◌, refl, ap, ◌∙◌, ◌⊎◌, inl, inr, Bool, true, false, Option, some,
  [], ◌∷◌, Bytes, arith, length, leb, ◌==◌, if◌then◌else◌, Bool-cases,
}
use calx.Number.Text.Parse.{decode, skip_minus, validate_loop}

-- periods and quotes
abbrev pub is_mark : ℕ → Bool
is_mark c = if c == b'.' then true else (c == b'\'')

-- the value of the digits of a text, behind a value that was read before
abbrev pub radix_value : ℕ → Bytes → ℕ → ℕ
radix_value radix [] v = v
radix_value radix (c ∷ s) v =
    if is_mark c then radix_value radix s v else radix_value radix s (v * radix + decode c)

abbrev pub count_all : Bytes → ℕ
count_all [] = 0
count_all (c ∷ s) = let n = count_all s in if is_mark c then n else suc n

-- the digits behind the period
abbrev pub count_frac : Bytes → ℕ
count_frac [] = 0
count_frac (c ∷ s) = let n = count_frac s in if c == b'.' then count_all s else n

count_all-le : (s : Bytes) → count_all s ≤ length s
count_all-le [] = omega arith
count_all-le (c ∷ s) = let h = count_all-le s in ground arith

pub count_frac-le : (s : Bytes) → count_frac s ≤ length s
count_frac-le [] = omega arith
count_frac-le (c ∷ s) = let h = count_frac-le s in let k = count_all-le s in ground arith

-- how many digits stand behind the period, when it was seen and when it was not
abbrev pub scale_from : Bool → ℕ → Bytes → ℕ
scale_from seen_dot k s = if seen_dot then k + count_all s else k + count_frac s

pub skip_minus-le : (s : Bytes) → length (skip_minus s).1 ≤ length s
unfolding skip_minus
skip_minus-le [] = omega arith
skip_minus-le (c ∷ s) = elim (Bool-cases (c == b'-')) [
  | inl e ↦ rw e (omega arith)
  | inr e ↦ rw e (omega arith)
]

not_leb : (m n : ℕ) → leb m n ≡ false → n < m
not_leb m n h = ground arith

pub bind-some :
    {A B : Type 0} (o : Option A) (a : A) (f : A → Option B) → o ≡ some a → Option.bind o f ≡ f a
bind-some {A = A} o a f h = ap (λ (t : Option A). Option.bind t f) h ∙ unfold Option.bind in refl

-- what validate_loop accepts: at most one period, quotes, and digits below the base
abbrev pub Checked : ℕ → Bytes → Bool → Type 0
Checked radix [] dot = Unit
Checked radix (c ∷ s) dot =
    (((c == b'.') ≡ true) × (dot ≡ false) × Checked radix s true)
    ⊎ (((c == b'.') ≡ false) × ((c == b'\'') ≡ true) × Checked radix s dot)
    ⊎ (((c == b'.') ≡ false) × ((c == b'\'') ≡ false) × (decode c < radix) × Checked radix s dot)

only_else : (t u : Bool) → (if t then false else u) ≡ true → (t ≡ false) × (u ≡ true)
only_else true u h = absurd (ground arith)
only_else false u h = (refl, h)

pub validate_loop-Checked :
    (radix : ℕ) (s : Bytes) (seen_digit dot : Bool)
    → validate_loop radix s seen_digit dot ≡ true
    → Checked radix s dot
unfolding validate_loop
validate_loop-Checked radix [] seen_digit dot ok = tt
validate_loop-Checked radix (c ∷ s) seen_digit dot ok = elim (Bool-cases (c == b'.')) [
  | inl e ↦
      let (first, rest) = only_else dot _ (rw e at ok) in
      inl (e, first, validate_loop-Checked radix s seen_digit true rest)
  | inr e ↦ elim (Bool-cases (c == b'\'')) [
    | inl f ↦ inr (inl (e, f, validate_loop-Checked radix s seen_digit dot (rw (e, f) at ok)))
    | inr f ↦
        let (below, rest) = only_else (leb radix (decode c)) _ (rw (e, f) at ok) in
        inr
          (inr (e, f, not_leb radix (decode c) below, validate_loop-Checked radix s true dot rest))
  ]
]

pub scale_from-nil : (dot : Bool) (k : ℕ) → scale_from dot k [] ≡ k
scale_from-nil true k = omega arith
scale_from-nil false k = omega arith

pub scale_from-digit :
    (dot : Bool) (k : ℕ) (s : Bytes)
    → scale_from dot (if dot then suc k else k) s
      ≡ (if dot then k + suc (count_all s) else k + count_frac s)
scale_from-digit true k s = omega arith
scale_from-digit false k s = refl
