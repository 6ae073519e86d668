-- ===== src/Number/Scale/Defs.antt =====
-- number.c: number_scale_down and number_scale_up. The powers of ten that the loops compute are less
-- than the base, so that they fit into a word.
use calx.Base.{
  ℕ, zero, suc, ◌+◌, ◌-◌, ◌*◌, ◌/◌, ◌%◌, Option, some, set, length, ltb, ◌==◌, if◌then◌else◌,
}
use calx.Number.Deci.{Deci}
use calx.Number.Defs.{Number, mkuniq_scale_up, mkuniq_extend, unsafe_normalize_full}
use calx.Number.Fancy.Spans.{SpanOps}
use calx.Number.Round.Defs.{number_mul_uword}

-- for (i = r; i; --i) f *= 10
unfoldable pub times_ten : ℕ → ℕ → ℕ
times_ten zero f = f
times_ten (suc i) f = times_ten i (f * 10)

module _ (d : Deci) where
  -- the remainder m becomes a word below the others
  unfoldable pub push_remainder : Number → ℕ → ℕ → Number
  unfolding mkuniq_scale_up times_ten
  push_remainder a r m =
      let a' = mkuniq_scale_up a (a.scale + 1) in
      if m == 0 then a else record a' { words = set a'.words 0 (times_ten (d.base_log - r) m) }

  unfoldable pub scale_extended : Number → ℕ → Number
  unfolding mkuniq_extend
  scale_extended a q =
      let s = a.scale + q in
      let a' = mkuniq_extend a (if ltb s (length a.words) then length a.words else s) in
      record a' { scale = a'.scale + q }

  unfoldable pub scale_divided : SpanOps → Number → ℕ → Number
  unfolding times_ten push_remainder
  scale_divided x a r =
      let quotient = x.divmod_uword a.words (times_ten r 1) in
      if r == 0 then a else push_remainder (record a { words = quotient.0 }) r quotient.1

  unfoldable pub number_scale_down : SpanOps → Number → ℕ → Number
  unfolding scale_extended scale_divided unsafe_normalize_full
  number_scale_down x a n =
      unsafe_normalize_full d (scale_divided x (scale_extended a (n / d.base_log)) (n % d.base_log))

  unfoldable pub scale_raised : Number → ℕ → Number
  unfolding mkuniq_scale_up unsafe_normalize_full
  scale_raised a q =
      let a' = mkuniq_scale_up a (if ltb q a.scale then a.scale else q) in
      unsafe_normalize_full d (record a' { scale = a'.scale - q })

  -- `none` stands for no result of number_mul_uword
  unfoldable pub number_scale_up : Number → ℕ → Option Number
  unfolding scale_raised times_ten number_mul_uword
  number_scale_up a n =
      let r = n % d.base_log in
      let a' = scale_raised a (n / d.base_log) in
      if r == 0 then some a' else number_mul_uword d a' (times_ten r 1)
