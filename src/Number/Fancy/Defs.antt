-- ===== src/Number/Fancy/Defs.antt =====
-- fancy.c: fancy_mul, fancy_div and fancy_mod. A span that is changed in place is returned, with the
-- count of words that the C function returns.
use calx.Base.{
  ℕ, ◌+◌, ◌-◌, Bool, true, false, ◌&&◌, List, ◌++◌, length, take, drop, min, ltb, ◌==◌,
  if◌then◌else◌,
}
use calx.Number.Deci.{Deci}
use calx.Number.Fancy.Spans.{SpanOps}

abbrev pub mul_basecase_cutoff : ℕ
mul_basecase_cutoff = 30

abbrev pub mul_karatsuba_cutoff : ℕ
mul_karatsuba_cutoff = 75

abbrev pub div_basecase_cutoff : ℕ
div_basecase_cutoff = 75

module _ (d : Deci) (x : SpanOps) where
  -- `same` is wa == wb: both operands are the same span
  unfoldable pub fancy_mul : Bool → List ℕ → List ℕ → List ℕ
  fancy_mul same wa wb =
      let min_n = min (length wa) (length wb) in
      if ltb min_n mul_basecase_cutoff
      then x.mul wa wb
      else if ltb min_n mul_karatsuba_cutoff
      then x.kara_mul wa wb
      else if same && length wa == length wb
      then x.ntt_sqr wa
      else x.ntt_mul wa wb

  -- mul_callback copies an operand that is the output, so that no operands are the same span
  unfoldable pub mul_callback : List ℕ → List ℕ → List ℕ
  unfolding fancy_mul
  mul_callback wa wb = fancy_mul false wa wb

  unfoldable pub basecase : List ℕ → List ℕ → Bool → List ℕ × ℕ
  basecase wa wb quotient = if quotient then x.div wa wb else x.mod_ wa wb

  unfoldable pub newton : List ℕ → List ℕ → Bool → List ℕ × ℕ
  newton wa wb quotient =
      let scratch = x.newt_div mul_callback wa wb in
      let ndelta = length wa - length wb + 1 in
      if quotient
      then (scratch.1 ++ drop ndelta wa, ndelta)
      else ((d.sub_raw wa scratch.0).0, length wa)

  -- the two spans are normalized here
  unfoldable pub divide : List ℕ → List ℕ → Bool → List ℕ × ℕ
  divide wa wb quotient =
      let nwa = length wa in
      let nwb = length wb in
      let ndelta = nwa - nwb + 1 in
      if ltb nwa nwb
      then basecase wa wb quotient
      else if ltb (min ndelta nwb) div_basecase_cutoff
      then basecase wa wb quotient
      else if ltb nwb x.newt_min
      then basecase wa wb quotient
      else newton wa wb quotient

  -- words above the normalized dividend stay as they are
  unfoldable pub quotient_or_remainder : List ℕ → List ℕ → Bool → List ℕ × ℕ
  quotient_or_remainder wa wb quotient =
      let nwa = d.normalize_n wa in
      let r = divide (take nwa wa) (take (d.normalize_n wb) wb) quotient in
      (r.0 ++ drop nwa wa, r.1)

  unfoldable pub fancy_div : List ℕ → List ℕ → List ℕ × ℕ
  fancy_div wa wb = quotient_or_remainder wa wb true

  unfoldable pub fancy_mod : List ℕ → List ℕ → List ℕ × ℕ
  fancy_mod wa wb = quotient_or_remainder wa wb false
