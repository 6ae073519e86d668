-- ===== src/Number/Radix/Parse.antt =====
-- number.c: the value of number_parse_base.
use mathlib.Core.Option
use mathlib.Core.Path.{ap₂}
use calx.Base.{
  ℕ, zero, suc, ◌+◌, ◌-◌, ◌*◌, ◌/◌, ◌^◌, ◌<◌, ◌≡◌, refl, sym, ap, ◌∙◌, ◌⊎◌, inl, inr, Bool, true,
  false, not, Option, some, [], ◌∷◌, Bytes, arith, length, ◌==◌, ==_iff, if◌then◌else◌, Bool-cases,
}
use calx.Number.Add.Align.{mkuniq-words, mkuniq-scale, mkuniq-sign}
use calx.Number.Add.Defs.{xor, number_negate}
use calx.Number.Convert.Defs.{size_mod, number_new_from_zu}
use calx.Number.Convert.New.{number_new_from_zu-value}
use calx.Number.Deci.{Deci, base, DeciLaws}
use calx.Number.Defs.{Number, IsValid}
use calx.Number.Div.Defs.{number_div}
use calx.Number.Div.Exact.{number_div-Truncated}
use calx.Number.Div.Truncate.{Truncated, Truncated-at}
use calx.Number.Round.Parts.{IsWhole}
use calx.Number.Fancy.Spans.{SpanOps, SpanLaws}
use calx.Number.Mul.Defs.{number_pow_zu}
use calx.Number.Mul.Power.{parity, number_pow_zu-IsPower}
use calx.Number.Radix.Add.{number_abs_add_uword-IsWhole}
use calx.Number.Radix.Defs.{push_digit, parse_base_loop, divide_scale, number_parse_base}
use calx.Number.Scale.Word.{number_mul_uword-Times}
use calx.Number.Text.Parse.{decode, skip_minus, number_parse_base_validate}
use calx.Number.Words.{eval, pow_pos, mul-pow_zero}
use calx.Ntp.{NumberTruncateParams}
use calx.Number.Radix.Text.{
  radix_value, count_frac, count_frac-le, scale_from, scale_from-nil, scale_from-digit,
  skip_minus-le, bind-some, Checked, validate_loop-Checked,
}

module _ (d : Deci) (laws : DeciLaws d) (x : SpanOps) (span : SpanLaws d x) (radix : ℕ)
    (small : radix < base d) where
  push_digit-IsWhole :
      (a : Number) (v c : ℕ)
      → IsWhole d v false a
      → decode c < radix
      → (r : Number) × (push_digit d radix c a ≡ some r) × IsWhole d (v * radix + decode c) false r
  unfolding push_digit
  push_digit-IsWhole a v c h lt =
      let (r, made, t) = number_mul_uword-Times d laws x span a radix h.valid (omega arith) small in
      let product : IsWhole d (v * radix) false r = record {
        valid = t.valid;
        scale = t.scale ∙ h.scale;
        value = t.value ∙ ap (λ (u : ℕ). u * radix) h.value;
        sign_of = t.sign ∙ h.sign_of;
      } in
      (
        _,
        rw made refl,
        number_abs_add_uword-IsWhole d laws r (v * radix) (decode c) false product (omega arith),
      )

  parse_base_loop-IsWhole :
      (s : Bytes) (dot : Bool) (k v : ℕ) (a : Number)
      → Checked radix s dot
      → IsWhole d v false a
      → (r : Number) × (parse_base_loop d radix s dot k a ≡ some (r, scale_from dot k s))
        × IsWhole d (radix_value radix s v) false r
  unfolding parse_base_loop
  parse_base_loop-IsWhole [] dot k v a ok h =
      (a, ap (λ (t : ℕ). some (a, t)) (sym (scale_from-nil dot k)), h)
  parse_base_loop-IsWhole (c ∷ s) dot k v a (inl (e, first, ok)) h =
      let (r, parsed, p) = parse_base_loop-IsWhole s true k v a ok h in
      (r, rw (e, first) parsed, rw e p)
  parse_base_loop-IsWhole (c ∷ s) dot k v a (inr (inl (e, f, ok))) h =
      let (r, parsed, p) = parse_base_loop-IsWhole s dot k v a ok h in
      (r, rw (e, f) parsed, rw (e, f) p)
  parse_base_loop-IsWhole (c ∷ s) dot k v a (inr (inr (e, f, lt, ok))) h =
      let (b, pushed, q) = push_digit-IsWhole a v c h lt in
      let (r, parsed, p) =
        parse_base_loop-IsWhole s dot (if dot then suc k else k) (v * radix + decode c) b ok q in
      (
        r,
        rw (e, f)
            (bind-some _ b _ pushed
              ∙ parsed
              ∙ ap (λ (t : ℕ). some (r, t)) (scale_from-digit dot k s)),
        rw (e, f) p,
      )

  parity_plain : (k : ℕ) → parity false k ≡ false
  unfolding parity
  parity_plain zero = refl
  parity_plain (suc k) = parity_plain k

  -- the power of the base that the digits behind the period stand over
  record IsDivisor (k : ℕ) (p : Number) : Type 0 where
    valid : IsValid d p
    scale : p.scale ≡ 0
    sign : p.sign ≡ false
    value : eval (base d) p.words ≡ radix ^ k

  power-IsDivisor :
      (k : ℕ)
      → radix < size_mod
      → k < size_mod
      → (p : Number) × (Option.bind (number_new_from_zu d radix) (λ r. number_pow_zu d x r k)
          ≡ some p)
        × IsDivisor k p
  power-IsDivisor k fits lt =
      let (b, made, valid, sign, scale, value) = number_new_from_zu-value d laws radix fits in
      let (p, powered, q) = number_pow_zu-IsPower d laws x span b k valid lt in
      let level : k * b.scale ≡ 0 = ap (λ (t : ℕ). k * t) scale ∙ omega arith in
      let flat : p.scale ≡ 0 = omega (arith, q.value.scale_fits, level) in
      let none : k * b.scale - p.scale ≡ 0 = omega (arith, level) in
      (
        p,
        bind-some (number_new_from_zu d radix) b (λ r. number_pow_zu d x r k) made ∙ powered,
        record {
          valid = q.valid;
          scale = flat;
          sign = q.sign_of ∙ ap (λ (t : Bool). parity t k) sign ∙ parity_plain k;
          value =
              sym (mul-pow_zero (base d) (eval (base d) p.words))
              ∙ ap (λ (t : ℕ). eval (base d) p.words * base d ^ t) (sym none)
              ∙ q.value.value
              ∙ ap (λ (t : ℕ). t ^ k) value;
        },
      )

  -- what a text stands for: an integer, or a fraction that is cut at the precision
  abbrev pub Parsed : NumberTruncateParams → ℕ → ℕ → Bool → Number → Type 0
  Parsed ntp k v sign r =
      ((k ≡ 0) × IsWhole d v sign r)
      ⊎ ((0 < k) × Truncated d ntp (v * base d ^ ntp.scale / radix ^ k) sign r)

  divide_scale-Parsed :
      (ntp : NumberTruncateParams) (m k v : ℕ) (a : Number)
      → radix < size_mod
      → k < size_mod
      → 0 < radix
      → base d ≡ ntp.submod * m
      → IsWhole d v false a
      → (r : Number) × (divide_scale d x radix ntp a k ≡ some r) × Parsed ntp k v false r
  unfolding divide_scale
  divide_scale-Parsed ntp m k v a fits lt pos whole_base h = elim (Bool-cases (k == 0)) [
    | inl z ↦ (a, rw z refl, inl ((==_iff k 0).0 z, h))
    | inr z ↦
        let (p, made, q) = power-IsDivisor k fits lt in
        let not_zero : 0 < eval (base d) p.words = rw (q.value) (pow_pos radix k pos) in
        let t = number_div-Truncated d laws x span a p ntp m h.valid q.valid not_zero whole_base in
        let level : ntp.scale + p.scale ≡ ntp.scale = omega (arith, q.scale) in
        let top : eval (base d) a.words * base d ^ (ntp.scale + p.scale) ≡ v * base d ^ ntp.scale =
          ap₂ (λ (e n : ℕ). e * base d ^ n) h.value level in
        let bottom : eval (base d) p.words * base d ^ a.scale ≡ radix ^ k =
          ap₂ (λ (e n : ℕ). e * base d ^ n) q.value h.scale ∙ mul-pow_zero (base d) (radix ^ k) in
        (
          number_div d x a p ntp,
          ap
                (λ (o : Option Number).
                  if k == 0 then some a else Option.map (λ r. number_div d x a r ntp) o)
                made
              ∙ rw z refl,
          inr (
            ground arith,
            Truncated-at d ntp _ _ _ _ _ (ap₂ (λ (u w : ℕ). u / w) top bottom)
                (ap₂ xor h.sign_of q.sign) t,
          ),
        )
  ]

  negated-IsValid : (a : Number) → IsValid d a → IsValid d (number_negate a)
  unfolding number_negate
  negated-IsValid a v = record {
    scale_fits = rw (mkuniq-scale a, mkuniq-words a) v.scale_fits;
    normalized = rw (mkuniq-scale a, mkuniq-words a) v.normalized;
    below = rw (mkuniq-words a) v.below;
  }

  negate_if-Parsed :
      (negate : Bool) (ntp : NumberTruncateParams) (k v : ℕ) (a : Number)
      → Parsed ntp k v false a
      → Parsed ntp k v negate (if negate then number_negate a else a)
  unfolding number_negate
  negate_if-Parsed false ntp k v a h = h
  negate_if-Parsed true ntp k v a (inl (z, h)) = inl (
    z,
    record {
      valid = negated-IsValid a h.valid;
      scale = mkuniq-scale a ∙ h.scale;
      value = ap (eval (base d)) (mkuniq-words a) ∙ h.value;
      sign_of = ap not (mkuniq-sign a ∙ h.sign_of);
    },
  )
  negate_if-Parsed true ntp k v a (inr (pos, h)) = inr (
    pos,
    record {
      valid = negated-IsValid a h.valid;
      scale = mkuniq-scale a ∙ h.scale;
      value = ap (eval (base d)) (mkuniq-words a) ∙ h.value;
      sign_of = ap not (mkuniq-sign a ∙ h.sign_of);
    },
  )

  -- For a text that number_parse_base_validate accepts, number_parse_base gives the value of its
  -- digits in the base, with the sign that it starts with: exactly where no digits stand behind a
  -- period, and else over the power of the base, cut at the precision. The base is no less than one
  -- and less than the base of the words, which is a multiple of submod.
  pub number_parse_base-Parsed :
      (s : Bytes) (ntp : NumberTruncateParams) (m : ℕ)
      → number_parse_base_validate radix s ≡ true
      → length s < size_mod
      → radix < size_mod
      → 0 < radix
      → base d ≡ ntp.submod * m
      → (r : Number) × (number_parse_base d x s radix ntp ≡ some r)
        × Parsed ntp
            (count_frac (skip_minus s).1)
            (radix_value radix (skip_minus s).1 0)
            (skip_minus s).0
            r
  unfolding number_parse_base number_parse_base_validate
  number_parse_base-Parsed s ntp m ok short fits pos whole_base =
      let digits = (skip_minus s).1 in
      let (n, made, valid, sign, scale, value) = number_new_from_zu-value d laws 0 (omega arith) in
      let zero_whole : IsWhole d 0 false n = record {
        valid = valid;
        scale = scale;
        value = value;
        sign_of = sign;
      } in
      let checked = validate_loop-Checked radix digits false false ok in
      let (a, parsed, h) = parse_base_loop-IsWhole digits false 0 0 n checked zero_whole in
      let count : 0 + count_frac digits ≡ count_frac digits = omega arith in
      let parsed' = parsed ∙ ap (λ (t : ℕ). some (a, t)) count in
      let few : count_frac digits < size_mod =
        omega (arith, count_frac-le digits, skip_minus-le s, short) in
      let (q, divided, p) =
        divide_scale-Parsed ntp m (count_frac digits) (radix_value radix digits 0) a fits few pos
          whole_base h in
      (
        (if (skip_minus s).0 then number_negate q else q),
        ap (Option.map (λ a. if (skip_minus s).0 then number_negate a else a)) (
            bind-some (number_new_from_zu d 0) n _ made
            ∙ bind-some _ (a, count_frac digits) _ parsed'
            ∙ divided),
        negate_if-Parsed (skip_minus s).0 ntp _ _ q p,
      )
