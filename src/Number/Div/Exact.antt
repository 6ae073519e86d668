-- ===== src/Number/Div/Exact.antt =====
-- number.c: the value of number_div.
use native.Mathlib.Nat.{div-div-eq-div-mul, mul-div-mul_right}
use calx.Base.{
  ℕ, ◌+◌, ◌-◌, ◌*◌, ◌/◌, ◌^◌, ◌≤◌, ◌<◌, ◌≡◌, refl, sym, ap, ◌∙◌, Bool, true, arith, length,
  replicate, ltb, if◌then◌else◌, length-append, length-replicate,
}
use calx.Number.Add.Align.{scale_up-words, scale_up_rest}
use calx.Number.Add.Defs.{xor}
use calx.Number.Deci.{Deci, base, DeciLaws}
use calx.Number.Defs.{Number, IsValid}
use calx.Number.Div.Defs.{div_prepare, number_div}
use calx.Number.Div.Truncate.{Truncated, Truncated-at, after_div-Truncated}
use calx.Number.Fancy.Defs.{fancy_div}
use calx.Number.Fancy.Exact.{quotient_or_remainder-Holds}
use calx.Number.Fancy.Spans.{SpanOps, SpanLaws}
use calx.Number.Words.{
  eval, eval-append, eval-zeros, pow-add, pow_pos, Below, Below-append, Below-zeros,
}
use calx.Ntp.{NumberTruncateParams}

-- Both sides of a fraction by the power that the dividend was scaled by.
shift_quotient : (a p b x y z : ℕ) → 0 < p → 0 < z → x * p ≡ y * z → a * x / b / z ≡ a * y / (b * p)
shift_quotient a p b x y z pos_p pos_z h =
    let one : a * x / b / z ≡ a * x / (b * z) = div-div-eq-div-mul (a * x) b z in
    let up : a * x * p / (b * z * p) ≡ a * x / (b * z) =
      mul-div-mul_right {m = p} (a * x) (b * z) pos_p in
    let down : a * y * z / (b * p * z) ≡ a * y / (b * p) =
      mul-div-mul_right {m = z} (a * y) (b * p) pos_z in
    let top : a * x * p ≡ a * y * z = omega (arith, ap (λ (t : ℕ). a * t) h) in
    let bottom : b * z * p ≡ b * p * z = omega arith in one ∙ sym up ∙ rw (top, bottom) down

meet : (b n i j k l : ℕ) → i + j ≡ n → k + l ≡ n → b ^ i * b ^ j ≡ b ^ k * b ^ l
meet b n i j k l e f = sym (pow-add b i j) ∙ ap (λ (t : ℕ). b ^ t) (e ∙ sym f) ∙ pow-add b k l

module _ (d : Deci) (laws : DeciLaws d) (x : SpanOps) (span : SpanLaws d x) where
  -- the dividend: zero words below, and room for the fraction of the quotient
  record Prepared (a : Number) (p s : ℕ) (r : Number) : Type 0 where
    scale : r.scale ≡ s
    sign : r.sign ≡ a.sign
    size : length r.words ≡ s + p - a.scale + length a.words
    value : eval (base d) r.words ≡ eval (base d) a.words * base d ^ (s + p - a.scale)
    below : Below (base d) r.words

  wide : Number → NumberTruncateParams → ℕ
  wide a ntp = if ltb a.scale ntp.scale then ntp.scale else a.scale

  wide_le :
      (a : Number) (ntp : NumberTruncateParams) → (ntp.scale ≤ wide a ntp) × (a.scale ≤ wide a ntp)
  unfolding wide
  wide_le a ntp = (ground arith, ground arith)

  div_prepare-Prepared :
      (a : Number) (p : ℕ) (ntp : NumberTruncateParams)
      → Below (base d) a.words
      → Prepared a p (wide a ntp) (div_prepare a p ntp.scale)
  unfolding div_prepare wide
  div_prepare-Prepared a p ntp below =
      let s = wide a ntp in
      let words = scale_up-words a (s + p) in
      let (sign, scale) = scale_up_rest a (s + p) in
      let n = s + p - a.scale in
      let count = length-replicate {A = ℕ} n 0 in
      let positive = pow_pos 10 d.base_log (omega arith) in
      record {
        scale = refl;
        sign = sign;
        size = ap length words ∙ length-append (replicate n 0) a.words ∙ omega (arith, count);
        value =
            ap (eval (base d)) words
            ∙ eval-append (base d) (replicate n 0) a.words
            ∙ rw (eval-zeros (base d) n, count) (omega arith);
        below =
            rw words (
              Below-append (base d) (replicate n 0) a.words (Below-zeros (base d) n positive)
                below);
      }

  -- Division of valid numbers keeps as many words of fraction as it is told, has the sign of a
  -- quotient, meets the invariants, and is exact up to the digits that it drops: at the scale of
  -- the result the words stand for the quotient of the values rounded down, less its remainder by
  -- submod. The divisor is not zero, and the base is a multiple of submod.
  pub number_div-Truncated :
      (a b : Number) (ntp : NumberTruncateParams) (k : ℕ)
      → IsValid d a
      → IsValid d b
      → 0 < eval (base d) b.words
      → base d ≡ ntp.submod * k
      → Truncated d ntp
          (eval (base d) a.words
            * base d ^ (ntp.scale + b.scale)
            / (eval (base d) b.words * base d ^ a.scale))
          (xor a.sign b.sign)
          (number_div d x a b ntp)
  unfolding number_div fancy_div
  number_div-Truncated a b ntp k va vb h whole_base =
      let a' = div_prepare a b.scale ntp.scale in
      let s = wide a ntp in
      let (le, le_a) = wide_le a ntp in
      let p = div_prepare-Prepared a b.scale ntp va.below in
      let held =
        quotient_or_remainder-Holds d laws x span a'.words b.words true p.below vb.below h in
      let r = fancy_div d x a'.words b.words in
      let c = record a' { sign = xor a'.sign b.sign; words = r.0 } in
      let positive = pow_pos 10 d.base_log (omega arith) in
      let done =
        after_div-Truncated d laws c r.1 _ k ntp whole_base (omega (arith, p.scale, le))
          (omega (arith, p.scale, p.size, held.size, le_a, va.scale_fits))
          (omega (arith, held.count, held.size)) held.value held.below in
      let powers : base d ^ (s + b.scale - a.scale) * base d ^ a.scale
          ≡ base d ^ (ntp.scale + b.scale) * base d ^ (s - ntp.scale) =
        meet (base d) (s + b.scale) (s + b.scale - a.scale) a.scale (ntp.scale + b.scale)
          (s - ntp.scale) (omega (arith, le_a)) (omega (arith, le)) in
      let value : eval (base d) a'.words / eval (base d) b.words / base d ^ (a'.scale - ntp.scale)
          ≡ eval (base d) a.words
            * base d ^ (ntp.scale + b.scale)
            / (eval (base d) b.words * base d ^ a.scale) =
        rw (p.value, p.scale)
          (shift_quotient (eval (base d) a.words) (base d ^ a.scale) (eval (base d) b.words) _ _ _
            (pow_pos (base d) a.scale positive) (pow_pos (base d) (s - ntp.scale) positive)
            powers) in
      Truncated-at d ntp _ _ _ _ _ value (ap (λ (t : Bool). xor t b.sign) p.sign) done
