-- ===== src/Literal/Ends.antt =====
-- parse.c: the loop of add_string_const ends within its rounds.
use Prim.Native.Nat.{bit_or}
use calx.Base.{
  ℕ, zero, suc, ◌-◌, ◌*◌, ◌≤◌, ◌<◌, ◌≡◌, refl, ap, inl, inr, Option, none, some, [], ◌∷◌, Bytes,
  Bool, true, false, arith, length, ◌==◌, if◌then◌else◌, Bool-cases,
}
use mathlib.Core.Option
use calx.Literal.Write.{backslash, quote}
use calx.Literal.Read.{
  Unescaped, byte, bad, overrun, decode_hex, unescape_low, unescape_hex, unescape,
  split_at_backslash, Literal, append_escape, append_part, read_loop, add_string_const,
}

abbrev pub Ends : Option Literal → Type 0
Ends o = (l : Literal) × (o ≡ some l)

-- what is left behind an escape is no longer than what was there
data Left (n : ℕ) : Unescaped → Type 0 where
  left : {v : ℕ} {rest : Bytes} {k : ℕ} → length rest ≤ n → Left n (byte v rest k)
  left_bad : {k : ℕ} → Left n (bad k)
  left_overrun : Left n overrun

Left-low : (n hi : ℕ) (s : Bytes) → length s ≤ n → Left n (unescape_low hi s)
unfolding unescape_low
Left-low n hi [] h = left_bad
Left-low n hi (c ∷ s) h = by_digit (decode_hex c)
  where
    by_digit :
        (o : Option ℕ) → Left n (elim o [ none ↦ bad 3 | some lo ↦ byte (bit_or (hi * 16) lo) s 3 ])
    by_digit none = left_bad
    by_digit (some lo) = left (omega arith)

Left-hex : (n : ℕ) (s : Bytes) → length s ≤ n → Left n (unescape_hex s)
unfolding unescape_hex
Left-hex n [] h = left_bad
Left-hex n (c ∷ s) h = by_digit (decode_hex c)
  where
    by_digit : (o : Option ℕ) → Left n (elim o [ none ↦ bad 2 | some hi ↦ unescape_low hi s ])
    by_digit none = left_bad
    by_digit (some hi) = Left-low n hi s (omega arith)

Left-if : (n : ℕ) (b : Bool) (u v : Unescaped) → Left n u → Left n v → Left n (if b then u else v)
Left-if n true u v h k = h
Left-if n false u v h k = k

Left-unescape : (n : ℕ) (s : Bytes) → length s ≤ suc n → Left n (unescape s)
unfolding unescape
Left-unescape n [] h = left_overrun
Left-unescape n (c ∷ s) g =
    let h : length s ≤ n = omega arith in
    Left-if n (c == backslash) _ _ (left h) (
      Left-if n (c == b'a') _ _ (left h) (
        Left-if n (c == b'b') _ _ (left h) (
          Left-if n (c == b'e') _ _ (left h) (
            Left-if n (c == b'f') _ _ (left h) (
              Left-if n (c == b'n') _ _ (left h) (
                Left-if n (c == b'r') _ _ (left h) (
                  Left-if n (c == b't') _ _ (left h) (
                    Left-if n (c == b'v') _ _ (left h) (
                      Left-if n (c == quote) _ _ (left h) (
                        Left-if n (c == b'0') _ _ (left h)
                          (Left-if n (c == b'x') _ _ (Left-hex n s h) left_bad)))))))))))

-- what is left behind a backslash is shorter
split_at_backslash-shorter :
    (s : Bytes) (after : Bytes) → (split_at_backslash s).1 ≡ some after → length after < length s
unfolding split_at_backslash
split_at_backslash-shorter [] after e = absurd (Option.none-ne-some after e)
split_at_backslash-shorter (c ∷ s) after e = elim (Bool-cases (c == backslash)) [
  | inl t ↦
      let e' : some s ≡ some after = rw t at e in
      omega (arith, ap (λ (o : Option Bytes). length (Option.get_or o [])) e')
  | inr t ↦
      let e' : (split_at_backslash s).1 ≡ some after = rw t at e in
      omega (arith, split_at_backslash-shorter s after e')
]

-- The rounds of the loop are enough, if the rest of the loop is given enough.
append_escape-Ends :
    (again : Bytes → ℕ → Bytes → Option Literal) (n m : ℕ) (s seg : Bytes) (u : Unescaped)
    → ((ptr : Bytes) (k : ℕ) (t : Bytes) → length ptr ≤ m → Ends (again ptr k t))
    → Left m u
    → Ends (append_escape again n s seg u)
unfolding append_escape
append_escape-Ends again n m s seg (byte v rest k) ih (left h) = ih rest _ _ h
append_escape-Ends again n m s seg (bad k) ih h = (_, refl)
append_escape-Ends again n m s seg overrun ih h = (_, refl)

append_part-Ends :
    (again : Bytes → ℕ → Bytes → Option Literal) (n m : ℕ) (s seg : Bytes) (o : Option Bytes)
    → ((ptr : Bytes) (k : ℕ) (t : Bytes) → length ptr ≤ m → Ends (again ptr k t))
    → ((after : Bytes) → o ≡ some after → length after ≤ suc m)
    → Ends (append_part again n s (seg, o))
unfolding append_part
append_part-Ends again n m s seg none ih h = (_, refl)
append_part-Ends again n m s seg (some after) ih h =
    append_escape-Ends again n m s seg (unescape after) ih (Left-unescape m after (h after refl))

read_loop-Ends :
    (fuel : ℕ) (ptr : Bytes) (n : ℕ) (s : Bytes) → length ptr < fuel → Ends (read_loop fuel ptr n s)
unfolding read_loop
read_loop-Ends zero ptr n s h = absurd (omega arith)
read_loop-Ends (suc fuel) [] n s h = (_, refl)
read_loop-Ends (suc fuel) (p ∷ ptr) n s h =
    append_part-Ends (read_loop fuel) n (length ptr - 1) s (split_at_backslash (p ∷ ptr)).0
      (split_at_backslash (p ∷ ptr)).1 (λ q k t hq. read_loop-Ends fuel q k t (omega arith))
      (λ after e. omega (arith, split_at_backslash-shorter (p ∷ ptr) after e))

pub add_string_const-Ends : (body : Bytes) → Ends (add_string_const body)
unfolding add_string_const
add_string_const-Ends body = read_loop-Ends _ body 1 [] (omega arith)
