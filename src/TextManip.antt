-- ===== src/TextManip.antt =====
-- text_manip.c: text_nth_line.
use calx.Base.{
  ℕ, zero, suc, ◌≡◌, refl, ap, false, Option, none, some, List, [], ◌∷◌, ◌++◌, Bytes, arith, get_or,
  length, min, ◌==◌, if◌then◌else◌,
}

-- the text behind the first line end, that is memchr(text, '\n', ntext) + 1
unfoldable pub behind_newline : Bytes → Option Bytes
behind_newline [] = none
behind_newline (c ∷ s) = let later = behind_newline s in if c == b'\n' then some s else later

-- out_len bytes of the text that is returned
unfoldable pub first_line : Bytes → Bytes
first_line [] = []
first_line (c ∷ s) = let rest = first_line s in if c == b'\n' then [] else c ∷ rest

unfoldable pub text_nth_line : Bytes → ℕ → Bytes
unfolding behind_newline first_line
text_nth_line text zero = first_line text
text_nth_line text (suc lineno) = elim (behind_newline text) [
  | none ↦ first_line text
  | some rest ↦ text_nth_line rest lineno
]

-- no line end stands in it
abbrev pub IsLine : Bytes → Type 0
IsLine [] = Unit
IsLine (c ∷ s) = ((c == b'\n') ≡ false) × IsLine s

abbrev pub AllLines : List Bytes → Type 0
AllLines [] = Unit
AllLines (l ∷ lines) = IsLine l × AllLines lines

-- lines with line ends between them
abbrev pub join : Bytes → List Bytes → Bytes
join l [] = l
join l (m ∷ lines) = l ++ b'\n' ∷ join m lines

first_line-all : (l : Bytes) → IsLine l → first_line l ≡ l
unfolding first_line
first_line-all [] h = refl
first_line-all (c ∷ l) h = rw h.0 (ap (λ (t : Bytes). c ∷ t) (first_line-all l h.1))

first_line-append : (l s : Bytes) → IsLine l → first_line (l ++ b'\n' ∷ s) ≡ l
unfolding first_line
first_line-append [] s h = refl
first_line-append (c ∷ l) s h = rw h.0 (ap (λ (t : Bytes). c ∷ t) (first_line-append l s h.1))

behind_newline-line : (l : Bytes) → IsLine l → behind_newline l ≡ none
unfolding behind_newline
behind_newline-line [] h = refl
behind_newline-line (c ∷ l) h = rw h.0 (behind_newline-line l h.1)

behind_newline-append : (l s : Bytes) → IsLine l → behind_newline (l ++ b'\n' ∷ s) ≡ some s
unfolding behind_newline
behind_newline-append [] s h = refl
behind_newline-append (c ∷ l) s h = rw h.0 (behind_newline-append l s h.1)

-- Of a text that consists of lines, text_nth_line gives the line with the number, counted from zero,
-- or the last line where there are no more.
pub text_nth_line-get_or :
    (l : Bytes) (lines : List Bytes) (lineno : ℕ)
    → IsLine l
    → AllLines lines
    → text_nth_line (join l lines) lineno ≡ get_or (l ∷ lines) (min lineno (length lines)) []
unfolding text_nth_line
text_nth_line-get_or l [] zero h k = first_line-all l h
text_nth_line-get_or l [] (suc lineno) h k =
    let none_left : min (suc lineno) 0 ≡ 0 = omega arith in
    rw (text_nth_line, behind_newline-line l h, none_left) (first_line-all l h)
text_nth_line-get_or l (m ∷ lines) zero h k =
    let first : min 0 (suc (length lines)) ≡ 0 = omega arith in
    rw first (first_line-append l (join m lines) h)
text_nth_line-get_or l (m ∷ lines) (suc lineno) h k =
    let next : min (suc lineno) (suc (length lines)) ≡ suc (min lineno (length lines)) =
      omega arith in
    rw (text_nth_line, behind_newline-append l (join m lines) h, next)
      (text_nth_line-get_or m lines lineno k.0 k.1)
