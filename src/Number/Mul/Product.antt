-- ===== src/Number/Mul/Product.antt =====
-- number.c: the value of number_mul.
use calx.Base.{ℕ, ◌+◌, ◌-◌, ◌*◌, ◌^◌, ◌≡◌, ap, ◌∙◌, Bool, true, arith}
use calx.Number.Add.Defs.{xor}
use calx.Number.Deci.{Deci, base, DeciLaws}
use calx.Number.Defs.{Number, IsValid, allocate}
use calx.Number.Fancy.Defs.{fancy_mul}
use calx.Number.Fancy.Exact.{fancy_mul-IsProduct}
use calx.Number.Fancy.Spans.{SpanOps, SpanLaws}
use calx.Number.Mul.Defs.{number_mul}
use calx.Number.Mul.Normalize.{Scaled, unsafe_normalize_full-Scaled}
use calx.Number.Words.{eval, mul-pow_zero, pow-add}

pub Scaled-self : (d : Deci) (a : Number) → Scaled d a (eval (base d) a.words) a.scale
Scaled-self d a =
    let z : a.scale - a.scale ≡ 0 = omega arith in
    record {
      scale_fits = omega arith;
      value = rw z (mul-pow_zero (base d) (eval (base d) a.words));
    }

regroup : (a b p q m n : ℕ) → a * p ≡ m → b * q ≡ n → a * b * (p * q) ≡ m * n
regroup a b p q m n h k = rw (← h, ← k) (omega arith)

module _ (d : Deci) (laws : DeciLaws d) (x : SpanOps) (span : SpanLaws d x) where
  -- The product of numbers that stand for m at the scale s and for n at the scale t stands for m * n
  -- at the scale s + t, with the sign of the product and the invariants.
  pub number_mul-Scaled :
      (same : Bool) (a b : Number) (m n s t : ℕ)
      → (same ≡ true → a.words ≡ b.words)
      → IsValid d a
      → IsValid d b
      → Scaled d a m s
      → Scaled d b n t
      → Scaled d (number_mul d x same a b) (m * n) (s + t)
        × IsValid d (number_mul d x same a b)
        × ((number_mul d x same a b).sign ≡ xor a.sign b.sign)
  unfolding number_mul allocate
  number_mul-Scaled same a b m n s t h va vb ra rb =
      let p = fancy_mul-IsProduct d laws x span same a.words b.words h va.below vb.below in
      let r =
        allocate (xor a.sign b.sign) (fancy_mul d x same a.words b.words) (a.scale + b.scale) in
      let fit_a = ra.scale_fits in
      let fit_b = rb.scale_fits in
      let powers : base d ^ (s + t - (a.scale + b.scale))
          ≡ base d ^ (s - a.scale) * base d ^ (t - b.scale) =
        ap (λ (t : ℕ). base d ^ t) (omega (arith, fit_a, fit_b))
        ∙ pow-add (base d) (s - a.scale) (t - b.scale) in
      unsafe_normalize_full-Scaled d laws x span r
        (omega (arith, p.size, va.scale_fits, vb.scale_fits)) p.below (m * n) (s + t)
        (omega (arith, fit_a, fit_b)) (rw (powers, p.value) (regroup _ _ _ _ m n ra.value rb.value))

  -- Multiplication of valid numbers is exact: at the sum of the scales the words of the result stand
  -- for the product, the sign is that of the product, and the invariants hold. The flag is only set
  -- where both operands are one object.
  pub number_mul-value :
      (same : Bool) (a b : Number)
      → (same ≡ true → a ≡ b)
      → IsValid d a
      → IsValid d b
      → Scaled d
          (number_mul d x same a b)
          (eval (base d) a.words * eval (base d) b.words)
          (a.scale + b.scale)
        × IsValid d (number_mul d x same a b)
        × ((number_mul d x same a b).sign ≡ xor a.sign b.sign)
  number_mul-value same a b h va vb =
      number_mul-Scaled same a b _ _ a.scale b.scale (λ e. ap (λ (n : Number). n.words) (h e)) va vb
        (Scaled-self d a) (Scaled-self d b)
