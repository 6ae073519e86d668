-- ===== src/Number/Div/Defs.antt =====
-- number.c: div_prepare, number_div, number_imod and number_idiv, with the normalization after them.
use calx.Base.{
  ℕ, ◌+◌, ◌-◌, ◌%◌, List, [], ◌∷◌, ◌++◌, take, drop, replicate, ltb, leb, ◌==◌, if◌then◌else◌,
}
use calx.Number.Add.Defs.{xor}
use calx.Number.Deci.{Deci}
use calx.Number.Defs.{Number, mkuniq_scale_down, mkuniq_scale_up, unsafe_strip, int_part}
use calx.Number.Fancy.Defs.{fancy_div, fancy_mod}
use calx.Number.Fancy.Spans.{SpanOps}
use calx.Ntp.{NumberTruncateParams}

-- a->words[0] -= a->words[0] % submod
unfoldable pub truncate_low : ℕ → List ℕ → List ℕ
truncate_low submod [] = []
truncate_low submod (w ∷ ws) = (w - w % submod) ∷ ws

unfoldable pub div_prepare : Number → ℕ → ℕ → Number
unfolding mkuniq_scale_up
div_prepare a mul_base_pow min_scale =
    let sr = if ltb a.scale min_scale then min_scale else a.scale in
    record (mkuniq_scale_up a (sr + mul_base_pow)) { scale = sr }

-- the words above the quotient that belong to the fraction become zero
unfoldable pub zero_above : Number → ℕ → Number
zero_above a nwr = record a {
  words = take nwr a.words ++ (replicate (a.scale - nwr) 0 ++ drop a.scale a.words);
}

module _ (d : Deci) where
  unfoldable pub unsafe_normalize_after_div : Number → ℕ → NumberTruncateParams → Number
  unfolding zero_above unsafe_strip truncate_low
  unsafe_normalize_after_div a nwr ntp =
      let sa = a.scale in
      let new_nwa = if ltb sa nwr then sa + d.normalize_n (drop sa (take nwr a.words)) else sa in
      let a' = if ltb sa nwr then a else zero_above a nwr in
      let cut = unsafe_strip a' (new_nwa - sa + ntp.scale) ntp.scale in
      if leb ntp.scale sa
      then (if ntp.scale == 0
          then cut
          else record cut { words = truncate_low ntp.submod cut.words })
      else unsafe_strip a' new_nwa sa

  unfoldable pub unsafe_normalize_after_idiv : Number → ℕ → Number
  unfolding unsafe_strip
  unsafe_normalize_after_idiv a nwr = unsafe_strip a (d.normalize_n (take nwr a.words)) 0

  module _ (x : SpanOps) where
    unfoldable pub number_div : Number → Number → NumberTruncateParams → Number
    unfolding div_prepare unsafe_normalize_after_div
    number_div a b ntp =
        let a' = div_prepare a b.scale ntp.scale in
        let r = fancy_div d x a'.words b.words in
        unsafe_normalize_after_div (record a' { sign = xor a'.sign b.sign; words = r.0 }) r.1 ntp

    unfoldable pub number_imod : Number → Number → Number
    unfolding mkuniq_scale_down unsafe_normalize_after_idiv
    number_imod a b =
        let a' = mkuniq_scale_down a 0 in
        let r = fancy_mod d x a'.words (int_part b) in
        unsafe_normalize_after_idiv (record a' { words = r.0 }) r.1

    unfoldable pub number_idiv : Number → Number → Number
    unfolding mkuniq_scale_down unsafe_normalize_after_idiv
    number_idiv a b =
        let a' = mkuniq_scale_down a 0 in
        let r = fancy_div d x a'.words (int_part b) in
        unsafe_normalize_after_idiv (record a' { sign = xor a'.sign b.sign; words = r.0 }) r.1
