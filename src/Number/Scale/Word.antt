-- ===== src/Number/Scale/Word.antt =====
-- number.c: the value of number_mul_uword and of number_scale_up.
use native.Mathlib.Nat.{mod-lt, div-add-mod}
use mathlib.Core.Path.{subst}
use calx.Base.{
  ℕ, ◌+◌, ◌-◌, ◌*◌, ◌/◌, ◌%◌, ◌^◌, ◌≤◌, ◌<◌, ◌≡◌, refl, sym, ap, ◌∙◌, ◌⊎◌, inl, inr, false, some,
  List, [], ◌∷◌, ◌++◌, arith, length, replicate, ltb, ◌==◌, ==_iff, if◌then◌else◌, Bool-cases,
  length-append, length-replicate,
}
use calx.Number.Add.Align.{
  mkuniq-words, mkuniq-scale, mkuniq-sign, scale_up-words, scale_up_rest, top-IsValid,
}
use calx.Number.Add.Valid.{drop-IsNormalized, IsValid-of_top}
use calx.Number.Deci.{Deci, base, DeciLaws}
use calx.Number.Defs.{Number, IsValid, mkuniq, unsafe_push_word, mkuniq_scale_up}
use calx.Number.Fancy.Spans.{SpanOps, SpanLaws}
use calx.Number.Mul.Normalize.{Scaled, unsafe_normalize_full-Scaled}
use calx.Number.Round.Defs.{number_mul_uword}
use calx.Number.Scale.Defs.{times_ten, scale_raised, number_scale_up}
use calx.Number.Scale.Exact.{times_ten-value, power_lt}
use calx.Number.Words.{
  eval, eval-append, eval-zeros, Below, Below-append, Below-zeros, IsNormalized, pow_zero, pow_pos,
  pow-add, pow-mul,
}

pub IsNormalized-end : (w : ℕ) (ws : List ℕ) → 0 < w → IsNormalized (ws ++ w ∷ [])
IsNormalized-end w [] h = h
IsNormalized-end w (v ∷ []) h = h
IsNormalized-end w (v ∷ u ∷ ws) h = IsNormalized-end w (u ∷ ws) h

shift_product : (e p f w b n : ℕ) → e * p ≡ w * b → b * f ≡ n → e * f * p ≡ w * n
shift_product e p f w b n h k = rw (← k) (omega (arith, ap (λ (t : ℕ). t * f) h))

module _ (d : Deci) (laws : DeciLaws d) (x : SpanOps) (span : SpanLaws d x) where
  -- the words of a product with a word
  pub record Times (a : Number) (b : ℕ) (r : Number) : Type 0 where
    pub scale : r.scale ≡ a.scale
    pub sign : r.sign ≡ a.sign
    pub valid : IsValid d r
    pub value : eval (base d) r.words ≡ eval (base d) a.words * b

  product_le : (p e b : ℕ) → p ≤ e → 0 < b → p ≤ e * b
  product_le p e b h k = grind (arith, h, k)

  Times-plain :
      (a r : Number) (b : ℕ)
      → IsValid d a
      → 0 < b
      → r.scale ≡ a.scale
      → r.sign ≡ a.sign
      → length r.words ≡ length a.words
      → Below (base d) r.words
      → eval (base d) r.words ≡ eval (base d) a.words * b
      → Times a b r
  Times-plain a r b v pos scale sign size below value = record {
    scale = scale;
    sign = sign;
    valid = IsValid-of_top d laws r (omega (arith, scale, size, v.scale_fits)) below (λ h.
        let top = top-IsValid d laws a v (omega (arith, scale, size, h)) in
        rw (size, value) (product_le _ _ b top pos));
    value = value;
  }

  Times-pushed :
      (a r : Number) (b c : ℕ)
      → IsValid d a
      → r.scale ≡ a.scale
      → r.sign ≡ a.sign
      → length r.words ≡ length a.words
      → Below (base d) r.words
      → 0 < c
      → c < base d
      → eval (base d) r.words + c * base d ^ length a.words ≡ eval (base d) a.words * b
      → Times a b (unsafe_push_word r c)
  unfolding unsafe_push_word
  Times-pushed a r b c v scale sign size below pos lt value = record {
    scale = scale;
    sign = sign;
    valid = record {
      scale_fits = omega (arith, scale, size, v.scale_fits, length-append r.words (c ∷ []));
      normalized =
          drop-IsNormalized r.scale (r.words ++ c ∷ [])
            (omega (arith, scale, size, v.scale_fits, length-append r.words (c ∷ [])))
            (IsNormalized-end c r.words pos);
      below = Below-append (base d) r.words (c ∷ []) below (lt, tt);
    };
    value = rw (eval-append (base d) r.words (c ∷ []), size) (omega (arith, value));
  }

  -- The product of a valid number with a word that is not zero is exact, keeps scale and sign, and
  -- meets the invariants.
  pub number_mul_uword-Times :
      (a : Number) (b : ℕ)
      → IsValid d a
      → 0 < b
      → b < base d
      → (r : Number) × (number_mul_uword d a b ≡ some r) × Times a b r
  unfolding number_mul_uword
  number_mul_uword-Times a b v pos lt =
      let words = mkuniq-words a in
      let below : Below (base d) (mkuniq a).words = rw words v.below in
      let (value, size, digits, carry) = span.mul_uword-value (mkuniq a).words b below lt in
      let p = d.mul_uword (mkuniq a).words b in
      let not_zero : (b == 0) ≡ false = ground arith in
      let scale = mkuniq-scale a in
      let sign = mkuniq-sign a in
      let r = record (mkuniq a) { words = p.0 } in
      let same_size : length p.0 ≡ length a.words = size ∙ ap length words in
      let total : eval (base d) p.0 + p.1 * base d ^ length a.words ≡ eval (base d) a.words * b =
        ap (λ (t : List ℕ). eval (base d) p.0 + p.1 * base d ^ length t) (sym words)
        ∙ value
        ∙ ap (λ (t : List ℕ). eval (base d) t * b) words in
      elim (Bool-cases (p.1 == 0)) [
        | inl z ↦
            let none : p.1 ≡ 0 = (==_iff p.1 0).0 z in
            let exact : eval (base d) p.0 ≡ eval (base d) a.words * b =
              omega (arith, total, ap (λ (t : ℕ). t * base d ^ length a.words) none) in
            rw (not_zero, z) (r, refl, Times-plain a r b v pos scale sign same_size digits exact)
        | inr z ↦
            rw (not_zero, z)
              (
                unsafe_push_word r p.1,
                refl,
                Times-pushed a r b p.1 v scale sign same_size digits (ground arith) carry total,
              )
      ]

  scale_raised-Scaled :
      (a : Number) (q : ℕ)
      → IsValid d a
      → Scaled d (scale_raised d a q) (eval (base d) a.words * base d ^ q) a.scale
        × IsValid d (scale_raised d a q)
        × ((scale_raised d a q).sign ≡ a.sign)
  unfolding scale_raised
  scale_raised-Scaled a q v =
      let n = if ltb q a.scale then a.scale else q in
      let a' = mkuniq_scale_up a n in
      let words = scale_up-words a n in
      let (sign, scale) = scale_up_rest a n in
      let (up, over) : (a.scale ≤ n) × (q ≤ n) = (ground arith, ground arith) in
      let zeros = n - a.scale in
      let count = length-replicate {A = ℕ} zeros 0 in
      let positive = pow_pos 10 d.base_log (omega arith) in
      let size : length a'.words ≡ zeros + length a.words =
        ap length words ∙ length-append (replicate zeros 0) a.words ∙ omega (arith, count) in
      let value : eval (base d) a'.words ≡ base d ^ zeros * eval (base d) a.words =
        ap (eval (base d)) words
        ∙ eval-append (base d) (replicate zeros 0) a.words
        ∙ rw (eval-zeros (base d) zeros, count) (omega arith) in
      let either : (n ≡ a.scale) ⊎ (n ≡ q) = ground arith in
      let powers : base d ^ zeros * base d ^ (a.scale - (a'.scale - q)) ≡ base d ^ q =
        sym (pow-add (base d) zeros (a.scale - (a'.scale - q)))
        ∙ ap (λ (t : ℕ). base d ^ t) (omega (arith, scale, up, over, either)) in
      let (scaled, valid, same) =
        unsafe_normalize_full-Scaled d laws x span (record a' { scale = a'.scale - q })
          (omega (arith, scale, size, v.scale_fits, up))
          (rw words (
            Below-append (base d) (replicate zeros 0) a.words (Below-zeros (base d) zeros positive)
              v.below))
          (eval (base d) a.words * base d ^ q) a.scale (omega (arith, scale, up, over, either))
          (omega (
            arith,
            ap (λ (t : ℕ). t * base d ^ (a.scale - (a'.scale - q))) value,
            ap (λ (t : ℕ). t * eval (base d) a.words) powers,
          )) in
      (scaled, valid, same ∙ sign)

  digits_power : (n : ℕ) → base d ^ (n / d.base_log) * 10 ^ (n % d.base_log) ≡ 10 ^ n
  digits_power n =
      ap (λ (t : ℕ). t * 10 ^ (n % d.base_log)) (sym (pow-mul 10 d.base_log (n / d.base_log)))
      ∙ sym (pow-add 10 (d.base_log * (n / d.base_log)) (n % d.base_log))
      ∙ ap (λ (t : ℕ). 10 ^ t) (div-add-mod n d.base_log)

  -- Scaling a valid number up by n decimal digits is exact: at the scale of the number the words of
  -- the result stand for those of the number times the power of ten, and the result has the sign and
  -- meets the invariants.
  pub number_scale_up-Scaled :
      (a : Number) (n : ℕ)
      → IsValid d a
      → (r : Number) × (number_scale_up d a n ≡ some r)
        × Scaled d r (eval (base d) a.words * 10 ^ n) a.scale
        × IsValid d r
        × (r.sign ≡ a.sign)
  unfolding number_scale_up
  number_scale_up-Scaled a n v =
      let q = n / d.base_log in
      let r = n % d.base_log in
      let lt : r < d.base_log = mod-lt n laws.base_log_pos in
      let c = scale_raised d a q in
      let (scaled, valid, sign) = scale_raised-Scaled a q v in
      let f : times_ten r 1 ≡ 10 ^ r = times_ten-value r 1 ∙ omega arith in
      let pos : 0 < times_ten r 1 = rw f (pow_pos 10 r (omega arith)) in
      let small : times_ten r 1 < base d = rw f (power_lt d laws x span r lt) in
      let (p, made, t) = number_mul_uword-Times c (times_ten r 1) valid pos small in
      elim (Bool-cases (r == 0)) [
        | inl z ↦
            let none : r ≡ 0 = (==_iff r 0).0 z in
            let power : base d ^ q ≡ 10 ^ n = omega (
              arith,
              digits_power n,
              ap (λ (t : ℕ). base d ^ q * 10 ^ t) none,
              ap (λ (t : ℕ). base d ^ q * t) (pow_zero 10),
            ) in
            (
              c,
              rw z refl,
              subst (λ (t : ℕ). Scaled d c (eval (base d) a.words * t) a.scale) power scaled,
              valid,
              sign,
            )
        | inr z ↦
            let scale = t.scale in
            (
              p,
              rw z made,
              record {
                scale_fits = omega (arith, scale, scaled.scale_fits);
                value =
                    rw (t.value, scale, f)
                      (shift_product _ _ (10 ^ r) _ _ _ scaled.value (digits_power n));
              },
              t.valid,
              t.sign ∙ sign,
            )
      ]
