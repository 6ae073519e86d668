-- ===== src/Number/Text/Decimal.antt =====
-- number.c: parse_int_part and the decimal value of its digits.
use native.Mathlib.Nat.{
  pow-suc, mod-add-mod, mod-eq_of_lt, div-add-mod, add-mul-mod_self_left, mul-le-mul_right,
  pow-le-pow_right,
}
use calx.Base.{
  ℕ, zero, suc, ◌+◌, ◌-◌, ◌*◌, ◌/◌, ◌%◌, ◌^◌, ◌≤◌, ◌<◌, ◌≡◌, refl, sym, ap, ◌∙◌, inl, inr, [], ◌∷◌,
  ◌++◌, Bytes, arith, length, take, drop, length-take, length-drop, take-append-drop, ◌==◌, ==_iff,
  Bool-cases,
}
use calx.Number.Deci.{Deci, base}
use calx.Number.Text.Parse.{parse_digits, parse_word, parse_int_part}
use calx.Number.Words.{eval, Below, pow_zero, pow_pos}

-- the value of decimal digits, the most significant one first, behind `r`
unfoldable pub decimal_from : ℕ → Bytes → ℕ
decimal_from r [] = r
decimal_from r (c ∷ s) = decimal_from (r * 10 + (c - b'0')) s

abbrev pub AllDigits : Bytes → Type 0
AllDigits [] = Unit
AllDigits (c ∷ s) = ((b'0' ≤ c) × (c ≤ b'9')) × AllDigits s

decimal_from-append :
    (r : ℕ) (s t : Bytes) → decimal_from r (s ++ t) ≡ decimal_from (decimal_from r s) t
unfolding decimal_from
decimal_from-append r [] t = refl
decimal_from-append r (c ∷ s) t = decimal_from-append (r * 10 + (c - b'0')) s t

pub decimal_from-shift :
    (r : ℕ) (s : Bytes) → decimal_from r s ≡ r * 10 ^ length s + decimal_from 0 s
unfolding decimal_from
decimal_from-shift r [] = omega (arith, ap (λ (t : ℕ). r * t) (pow_zero 10))
decimal_from-shift r (c ∷ s) =
    let v = c - b'0' in
    rw (decimal_from-shift (r * 10 + v) s, decimal_from-shift (0 * 10 + v) s, pow-suc 10 (length s))
      (omega arith)

pub decimal_from-lt : (s : Bytes) → AllDigits s → decimal_from 0 s < 10 ^ length s
unfolding decimal_from
decimal_from-lt [] h = omega (arith, pow_zero 10)
decimal_from-lt (c ∷ s) h =
    let small : c - b'0' ≤ 9 = omega (arith, h.0.1) in
    rw (decimal_from-shift (0 * 10 + (c - b'0')) s, pow-suc 10 (length s))
      (omega (arith, decimal_from-lt s h.1, mul-le-mul_right (10 ^ length s) small))

AllDigits-take : (n : ℕ) (s : Bytes) → AllDigits s → AllDigits (take n s)
AllDigits-take zero s h = tt
AllDigits-take (suc n) [] h = tt
AllDigits-take (suc n) (c ∷ s) h = (h.0, AllDigits-take n s h.1)

AllDigits-drop : (n : ℕ) (s : Bytes) → AllDigits s → AllDigits (drop n s)
AllDigits-drop zero s h = h
AllDigits-drop (suc n) [] h = tt
AllDigits-drop (suc n) (c ∷ s) h = AllDigits-drop n s h.1

digit_step : (r v m : ℕ) → ((r % m) * 10 % m + v) % m ≡ (r * 10 + v) % m
digit_step r v m =
    let e : r * 10 + v ≡ ((r % m) * 10 + v) + m * (r / m * 10) = omega (arith, div-add-mod r m) in
    mod-add-mod (r % m * 10) m v
    ∙ sym (ap (λ (t : ℕ). t % m) e ∙ add-mul-mod_self_left _ m (r / m * 10))

parse_digits-mod :
    (bits : ℕ) (s : Bytes) (r : ℕ)
    → parse_digits bits s (r % 2 ^ bits) ≡ decimal_from r s % 2 ^ bits
unfolding parse_digits decimal_from
parse_digits-mod bits [] r = refl
parse_digits-mod bits (c ∷ s) r =
    rw (digit_step r (c - b'0') (2 ^ bits)) (parse_digits-mod bits s (r * 10 + (c - b'0')))

module _ (d : Deci) (bits : ℕ) (fits : base d ≤ 2 ^ bits) where
  -- a word of no more digits than a word holds
  parse_word-decimal :
      (s : Bytes)
      → AllDigits s
      → length s ≤ d.base_log
      → (parse_word bits s ≡ decimal_from 0 s) × (decimal_from 0 s < base d)
  unfolding parse_word
  parse_word-decimal s h le =
      let grow : 10 ^ length s ≤ base d = pow-le-pow_right (omega arith) le in
      let lt : decimal_from 0 s < base d = omega (arith, decimal_from-lt s h) in
      let z : 0 ≡ 0 % 2 ^ bits = sym (mod-eq_of_lt (pow_pos 2 bits (omega arith))) in
      (
        ap (λ (t : ℕ). parse_digits bits s t) z
            ∙ parse_digits-mod bits s 0
            ∙ mod-eq_of_lt (omega arith),
        lt,
      )

  decimal_split :
      (p : ℕ) (s : Bytes)
      → decimal_from 0 s
        ≡ decimal_from 0 (take p s) * 10 ^ length (drop p s) + decimal_from 0 (drop p s)
  decimal_split p s =
      ap (λ t. decimal_from 0 t) (sym (take-append-drop p s))
      ∙ decimal_from-append 0 (take p s) (drop p s)
      ∙ decimal_from-shift (decimal_from 0 (take p s)) (drop p s)

  -- what stands before the last word's digits is worth the base
  scaled :
      (s : Bytes)
      → let p = length s - d.base_log in
        base d * decimal_from 0 (take p s) ≡ decimal_from 0 (take p s) * 10 ^ length (drop p s)
  scaled s =
      let p = length s - d.base_log in
      elim (Bool-cases (p == 0)) [
        | inl e ↦
            let none : decimal_from 0 (take p s) ≡ 0 =
              ap (λ (t : ℕ). decimal_from 0 (take t s)) ((==_iff p 0).0 e)
              ∙ (unfold decimal_from in refl) in
            rw none (omega arith)
        | inr e ↦
            let more : 0 < p = ground arith in
            let full : length (drop p s) ≡ d.base_log = omega (arith, length-drop p s) in
            rw full (omega arith)
      ]

  pub parse_int_part-decimal :
      (n : ℕ) (s : Bytes)
      → AllDigits s
      → length s ≤ n * d.base_log
      → (eval (base d) (parse_int_part d bits n s) ≡ decimal_from 0 s)
        × Below (base d) (parse_int_part d bits n s)
  unfolding parse_int_part
  parse_int_part-decimal zero [] h le = (unfold decimal_from in refl, tt)
  parse_int_part-decimal zero (c ∷ s) h le = absurd (omega arith)
  parse_int_part-decimal (suc zero) s h le =
      let w = parse_word-decimal s h (omega arith) in (omega (arith, w.0), (rw (w.0) (w.1), tt))
  parse_int_part-decimal (suc (suc n)) s h le =
      let p = length s - d.base_log in
      let w =
        parse_word-decimal (drop p s) (AllDigits-drop p s h) (omega (arith, length-drop p s)) in
      let rest =
        parse_int_part-decimal (suc n) (take p s) (AllDigits-take p s h)
          (omega (arith, length-take p s)) in
      (
        omega (arith, w.0, ap (λ (t : ℕ). base d * t) (rest.0), scaled s, decimal_split p s),
        (rw (w.0) (w.1), rest.1),
      )
