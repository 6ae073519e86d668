-- ===== src/Number/Round/Defs.antt =====
-- number.c: number_trunc, number_floor, number_ceil, number_round, number_frac, number_mul_uword,
-- number_abs_eq_uword, number_nintdigits and number_nfracdigits.
use calx.Base.{
  ℕ, zero, suc, ◌+◌, ◌-◌, ◌*◌, ◌/◌, ◌%◌, Bool, false, not, ◌&&◌, Option, List, [], ◌∷◌, length,
  drop, get_or, leb, ◌==◌, if◌then◌else◌, some,
}
use calx.Number.Add.Defs.{number_abs_add_uword}
use calx.Number.Convert.Defs.{number_new_from_zu}
use calx.Number.Deci.{Deci, base}
use calx.Number.Defs.{
  Number, mkuniq, mkuniq_scale_down, unsafe_strip, unsafe_push_word, number_is_zero,
  number_is_fzero, frac_part,
}

unfoldable pub number_trunc : Number → Number
unfolding mkuniq_scale_down
number_trunc a = mkuniq_scale_down a 0

unfoldable pub number_frac : Number → Number
unfolding mkuniq unsafe_strip
number_frac a = unsafe_strip (mkuniq a) a.scale a.scale

-- how often a digit can be taken off, on fuel; no more than the word itself is needed
unfoldable pub count_digits : ℕ → ℕ → ℕ
count_digits zero hi = 0
count_digits (suc fuel) hi =
    let rest = suc (count_digits fuel (hi / 10)) in if hi == 0 then 0 else rest

-- how many zero digits a word has at its end, on fuel
unfoldable pub count_end_zeros : ℕ → ℕ → ℕ
count_end_zeros zero lo = 0
count_end_zeros (suc fuel) lo =
    let rest = suc (count_end_zeros fuel (lo / 10)) in if lo % 10 == 0 then rest else 0

module _ (d : Deci) where
  unfoldable pub number_floor : Number → Number
  number_floor a =
      mkuniq_scale_down
        (if a.sign && not (number_is_fzero d a) then number_abs_add_uword d a 1 else a) 0

  unfoldable pub number_ceil : Number → Number
  number_ceil a =
      mkuniq_scale_down
        (if not a.sign && not (number_is_fzero d a) then number_abs_add_uword d a 1 else a) 0

  unfoldable pub number_round : Number → Number
  number_round a =
      mkuniq_scale_down
        (if not (a.scale == 0) && leb (base d / 2) (get_or a.words (a.scale - 1) 0)
          then number_abs_add_uword d a 1
          else a)
        0

  -- `none` means that number_new_from_zu ran out of fuel, which it does not
  unfoldable pub number_mul_uword : Number → ℕ → Option Number
  unfolding mkuniq unsafe_push_word number_new_from_zu
  number_mul_uword a b =
      let a' = mkuniq a in
      let product = d.mul_uword a'.words b in
      let r = record a' { words = product.0 } in
      if b == 0
      then number_new_from_zu d 0
      else if product.1 == 0
      then some r
      else some (unsafe_push_word r product.1)

  unfoldable pub number_abs_eq_uword : Number → ℕ → Bool
  unfolding number_is_zero number_is_fzero
  number_abs_eq_uword a w =
      if w == 0
      then number_is_zero d a
      else if not (number_is_fzero d a)
      then false
      else length a.words - a.scale == 1 && get_or a.words a.scale 0 == w

  unfoldable pub number_nintdigits : Number → ℕ
  unfolding count_digits
  number_nintdigits a =
      let n = length a.words - a.scale in
      let hi = get_or a.words (length a.words - 1) 0 in
      if n == 0 then 0 else count_digits (suc hi) hi + (n - 1) * d.base_log

  -- the words of the fraction, without the zero words at its end
  unfoldable pub frac_digits : List ℕ → ℕ
  unfolding count_end_zeros
  frac_digits [] = 0
  frac_digits (lo ∷ ws) = d.base_log - count_end_zeros d.base_log lo + length ws * d.base_log

  unfoldable pub number_nfracdigits : Number → ℕ
  unfolding frac_digits
  number_nfracdigits a = frac_digits (drop (d.skip0_n (frac_part a)) (frac_part a))
