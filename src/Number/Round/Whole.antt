-- ===== src/Number/Round/Whole.antt =====
-- number.c: number_trunc, number_floor and number_ceil, as quotients of the words.
use native.Mathlib.Nat.{div-eq_of_lt-le}
use calx.Base.{
  ℕ, ◌+◌, ◌-◌, ◌*◌, ◌/◌, ◌^◌, ◌≤◌, ◌<◌, ◌≡◌, refl, sym, ap, ◌∙◌, inl, inr, Bool, true, false, not,
  ◌&&◌, arith, length, ◌==◌, ==_iff, if◌then◌else◌, Bool-cases,
}
use calx.Number.Add.Defs.{number_abs_add_uword}
use calx.Number.Deci.{Deci, base, bit, DeciLaws}
use calx.Number.Defs.{
  Number, IsValid, mkuniq, mkuniq_scale_down, number_is_fzero, int_part, frac_part,
}
use calx.Number.Round.Defs.{number_trunc, number_floor, number_ceil}
use calx.Number.Round.Increment.{
  incremented, incremented-Successor, incremented_sign, abs_add_one, mkuniq-IsValid,
}
use calx.Number.Round.Parts.{
  whole, frac-lt, quotient, scale_down-words, scale_down_rest, IsWhole, IsWhole-at,
}
use calx.Number.Words.{IsNormalized, eval, Below, Below-drop}

-- the quotient, rounded up
abbrev pub ceiling : ℕ → ℕ → ℕ
ceiling m p = (m + (p - 1)) / p

module _ (d : Deci) (laws : DeciLaws d) where
  -- the rounding that has the integer part, or one more
  unfoldable pub rounded : Bool → Number → Number
  rounded up a = mkuniq_scale_down (if up then number_abs_add_uword d a 1 else a) 0

  scale_down-IsWhole :
      (a : Number)
      → a.scale ≤ length a.words
      → Below (base d) (int_part a)
      → IsNormalized (int_part a)
      → IsWhole d (eval (base d) (int_part a)) a.sign (mkuniq_scale_down a 0)
  scale_down-IsWhole a fits below normalized =
      let words = scale_down-words a fits in
      let (scale, sign) = scale_down_rest a in
      record {
        valid = record {
          scale_fits = omega (arith, scale);
          normalized = rw (scale, words) normalized;
          below = rw words below;
        };
        scale = scale;
        value = ap (eval (base d)) words;
        sign_of = sign;
      }

  pub rounded-IsWhole :
      (up : Bool) (a : Number)
      → IsValid d a
      → IsWhole d (eval (base d) (int_part a) + bit up) a.sign (rounded up a)
  unfolding rounded
  rounded-IsWhole false a v =
      IsWhole-at d _ _ _ _ _ (omega arith) refl (
        scale_down-IsWhole a v.scale_fits (Below-drop (base d) a.scale a.words v.below)
          v.normalized)
  rounded-IsWhole true a v =
      let (u, same, sign) = mkuniq-IsValid d laws a v in
      let (fits, next) = incremented-Successor d laws (mkuniq a) u in
      rw (abs_add_one d laws a) (
        IsWhole-at d _ _ _ _ _ (next.value ∙ ap (λ ws. eval (base d) ws + 1) same)
          (incremented_sign d laws (mkuniq a) ∙ sign)
          (scale_down-IsWhole (incremented d laws (mkuniq a)) fits next.below next.normalized))

  -- Truncation of a valid number leaves the quotient of the magnitude by the power of the base, with
  -- the sign and no fraction.
  number_trunc-IsWhole :
      (a : Number)
      → IsValid d a
      → IsWhole d (eval (base d) a.words / base d ^ a.scale) a.sign (number_trunc a)
  unfolding number_trunc rounded
  number_trunc-IsWhole a v =
      IsWhole-at d _ _ _ _ _ (omega (arith, quotient d laws a v)) refl (rounded-IsWhole false a v)

  quotient_up :
      (f p q m : ℕ) → m ≡ f + p * q → f < p → (m + (p - 1)) / p ≡ q + (if f == 0 then 0 else 1)
  quotient_up f p q m e lt = elim (Bool-cases (f == 0)) [
    | inl z ↦ rw z (
        div-eq_of_lt-le {k = q + 0} p (omega (arith, (==_iff f 0).0 z))
          (omega (arith, (==_iff f 0).0 z)))
    | inr z ↦
        let more : 0 < f = ground arith in
        rw z (div-eq_of_lt-le {k = q + 1} p (omega arith) (omega arith))
  ]

  not_zero :
      (a : Number) → d.is_zero_n (frac_part a) ≡ false → (eval (base d) (frac_part a) == 0) ≡ false
  not_zero a e = elim (Bool-cases (eval (base d) (frac_part a) == 0)) [
    | inl z ↦ z ∙ sym ((laws.is_zero_n_iff (frac_part a)).1 ((==_iff _ 0).0 z)) ∙ e
    | inr z ↦ z
  ]

  fzero_bit :
      (a : Number)
      → bit (not (number_is_fzero d a)) ≡ (if eval (base d) (frac_part a) == 0 then 0 else 1)
  unfolding number_is_fzero
  fzero_bit a = elim (Bool-cases (d.is_zero_n (frac_part a))) [
    | inl e ↦
        let z : eval (base d) (frac_part a) ≡ 0 = (laws.is_zero_n_iff (frac_part a)).0 e in
        rw (e, z) refl
    | inr e ↦ let z : (eval (base d) (frac_part a) == 0) ≡ false = not_zero a e in rw (e, z) refl
  ]

  up_value :
      (a : Number)
      → IsValid d a
      → eval (base d) (int_part a) + bit (not (number_is_fzero d a))
        ≡ ceiling (eval (base d) a.words) (base d ^ a.scale)
  up_value a v =
      rw (fzero_bit a)
        (sym (quotient_up _ _ _ _ (whole d laws a v.scale_fits) (frac-lt d laws a v)))

  -- The floor of a valid number is valid, has the sign of the number and no fraction, and its magnitude
  -- is the quotient of the magnitude by the power of the base, rounded up if the number has the sign and
  -- down otherwise.
  pub number_floor-IsWhole :
      (a : Number)
      → IsValid d a
      → IsWhole d
          (if a.sign
            then ceiling (eval (base d) a.words) (base d ^ a.scale)
            else eval (base d) a.words / base d ^ a.scale)
          a.sign
          (number_floor d a)
  unfolding number_floor rounded
  number_floor-IsWhole a v =
      IsWhole-at d _ _ _ _ _ (by_sign a.sign) refl
        (rounded-IsWhole (a.sign && not (number_is_fzero d a)) a v)
    where
      by_sign :
          (s : Bool)
          → eval (base d) (int_part a) + bit (s && not (number_is_fzero d a)) ≡ (
              if s
              then ceiling (eval (base d) a.words) (base d ^ a.scale)
              else eval (base d) a.words / base d ^ a.scale)
      by_sign true = up_value a v
      by_sign false = omega (arith, quotient d laws a v)

  -- The ceiling of a valid number is valid, has the sign of the number and no fraction, and its magnitude
  -- is the quotient of the magnitude by the power of the base, rounded down if the number has the sign and
  -- up otherwise: towards zero for a number with the sign.
  pub number_ceil-IsWhole :
      (a : Number)
      → IsValid d a
      → IsWhole d
          (if a.sign
            then eval (base d) a.words / base d ^ a.scale
            else ceiling (eval (base d) a.words) (base d ^ a.scale))
          a.sign
          (number_ceil d a)
  unfolding number_ceil rounded
  number_ceil-IsWhole a v =
      IsWhole-at d _ _ _ _ _ (by_sign a.sign) refl
        (rounded-IsWhole (not a.sign && not (number_is_fzero d a)) a v)
    where
      by_sign :
          (s : Bool)
          → eval (base d) (int_part a) + bit (not s && not (number_is_fzero d a)) ≡ (
              if s
              then eval (base d) a.words / base d ^ a.scale
              else ceiling (eval (base d) a.words) (base d ^ a.scale))
      by_sign true = omega (arith, quotient d laws a v)
      by_sign false = up_value a v
