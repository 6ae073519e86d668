-- ===== src/Number/Scale/Exact.antt =====
-- number.c: the values of number_scale_down and number_scale_up.
use native.Mathlib.Nat.{div-add-mod', mod-lt, pow-suc, pow-le-pow_right}
use mathlib.Core.Path.{subst}
use calx.Base.{
  ℕ, zero, suc, ◌+◌, ◌-◌, ◌*◌, ◌/◌, ◌%◌, ◌^◌, ◌≤◌, ◌<◌, ◌≡◌, refl, ap, ◌∙◌, inl, inr, List, ◌∷◌,
  ◌++◌, arith, length, replicate, set, ltb, ◌==◌, ==_iff, if◌then◌else◌, Bool-cases, length-append,
  length-replicate,
}
use calx.Number.Add.Align.{extend-words, extend_rest, scale_up-words, scale_up_rest}
use calx.Number.Deci.{Deci, base, DeciLaws}
use calx.Number.Defs.{Number, IsValid, unsafe_normalize_full, mkuniq_scale_up}
use calx.Number.Fancy.Spans.{SpanOps, SpanLaws}
use calx.Number.Mul.Normalize.{Scaled, unsafe_normalize_full-Scaled}
use calx.Number.Scale.Defs.{
  times_ten, push_remainder, scale_extended, scale_divided, number_scale_down,
}
use calx.Number.Words.{
  eval, eval-append, eval-zeros, Below, Below-append, Below-zeros, pow_zero, pow_pos, mul-pow_zero,
  pow-add,
}

pub times_ten-value : (i f : ℕ) → times_ten i f ≡ f * 10 ^ i
unfolding times_ten
times_ten-value zero f = omega (arith, ap (λ (t : ℕ). f * t) (pow_zero 10))
times_ten-value (suc i) f =
    times_ten-value i (f * 10) ∙ omega (arith, ap (λ (t : ℕ). f * t) (pow-suc 10 i))

-- one word more of fraction is one power of the base
one_more : (b n s : ℕ) → n ≡ s → b ^ (s + 1 - n) ≡ b
one_more b n s e =
    ap (λ (t : ℕ). b ^ t) (omega (arith, e))
    ∙ pow-suc b 0
    ∙ ap (λ (t : ℕ). t * b) (pow_zero b)
    ∙ omega arith

module _ (d : Deci) (laws : DeciLaws d) (x : SpanOps) (span : SpanLaws d x) where
  positive : 0 < base d
  positive = pow_pos 10 d.base_log (omega arith)

  base_split : (r : ℕ) → r ≤ d.base_log → base d ≡ 10 ^ r * 10 ^ (d.base_log - r)
  base_split r le = ap (λ (t : ℕ). 10 ^ t) (omega (arith, le)) ∙ pow-add 10 r (d.base_log - r)

  pub power_lt : (r : ℕ) → r < d.base_log → 10 ^ r < base d
  power_lt r lt = omega (
    arith,
    pow-le-pow_right {n = 10} (omega arith) {i = suc r} {j = d.base_log} lt,
    pow-suc 10 r,
    pow_pos 10 r (omega arith),
  )

  pushed_words :
      (a : Number) (t : ℕ) → set (mkuniq_scale_up a (a.scale + 1)).words 0 t ≡ t ∷ a.words
  pushed_words a t =
      let one : a.scale + 1 - a.scale ≡ 1 = omega arith in
      ap (λ (ws : List ℕ). set ws 0 t)
        (scale_up-words a (a.scale + 1) ∙ ap (λ (k : ℕ). replicate k 0 ++ a.words) one)

  remainder_value : (e m p q b v : ℕ) → e * p + m ≡ v → b ≡ p * q → m * q + b * e ≡ v * q
  remainder_value e m p q b v h k = rw (k, ← h) (omega arith)

  whole_value : (e m p q b v : ℕ) → e * p + m ≡ v → m ≡ 0 → b ≡ p * q → e * b ≡ v * q
  whole_value e m p q b v h z k = rw (k, ← h, z) (omega arith)

  small_remainder : (m p q b : ℕ) → m < p → 0 < q → b ≡ p * q → m * q < b
  small_remainder m p q b h k e = rw e (grind (arith, h, k))

  push_remainder-Scaled :
      (a : Number) (r m v : ℕ)
      → r ≤ d.base_log
      → a.scale ≤ length a.words
      → Below (base d) a.words
      → m < 10 ^ r
      → eval (base d) a.words * 10 ^ r + m ≡ v
      → let c = unsafe_normalize_full d (push_remainder d a r m) in
        Scaled d c (v * 10 ^ (d.base_log - r)) (a.scale + 1) × IsValid d c × (c.sign ≡ a.sign)
  unfolding push_remainder
  push_remainder-Scaled a r m v le fits below lt value =
      let split = base_split r le in
      let scaled = times_ten-value (d.base_log - r) m in
      let (sign, scale) = scale_up_rest a (a.scale + 1) in
      let a' = mkuniq_scale_up a (a.scale + 1) in
      let t = times_ten (d.base_log - r) m in
      let words = pushed_words a t in
      let level : a.scale + 1 - a'.scale ≡ 0 = omega (arith, scale) in
      elim (Bool-cases (m == 0)) [
        | inl z ↦
            let none : m ≡ 0 = (==_iff m 0).0 z in
            rw z (
              unsafe_normalize_full-Scaled d laws x span a fits below _ (a.scale + 1) (omega arith)
                (ap (λ (t : ℕ). eval (base d) a.words * t) (one_more (base d) a.scale a.scale refl)
                  ∙ whole_value (eval (base d) a.words) m (10 ^ r) (10 ^ (d.base_log - r)) (base d)
                      v value none split))
        | inr z ↦
            let (s, valid, same) =
              unsafe_normalize_full-Scaled d laws x span (record a' { words = set a'.words 0 t })
                (omega (arith, ap length words, scale, fits))
                (rw words (
                  rw scaled (
                      small_remainder m (10 ^ r) _ (base d) lt
                        (pow_pos 10 (d.base_log - r) (omega arith)) split),
                  below,
                ))
                (v * 10 ^ (d.base_log - r)) (a.scale + 1) (omega (arith, scale))
                (ap (λ (k : ℕ). eval (base d) (set a'.words 0 t) * base d ^ k) level
                  ∙ mul-pow_zero (base d) (eval (base d) (set a'.words 0 t))
                  ∙ ap (eval (base d)) words
                  ∙ ap (λ (u : ℕ). u + base d * eval (base d) a.words) scaled
                  ∙ remainder_value (eval (base d) a.words) m (10 ^ r) (10 ^ (d.base_log - r))
                      (base d) v value split) in
            rw z (s, valid, same ∙ sign)
      ]

  record Extended (a : Number) (q : ℕ) (r : Number) : Type 0 where
    fits : r.scale ≤ length r.words
    scale : r.scale ≡ a.scale + q
    sign : r.sign ≡ a.sign
    value : eval (base d) r.words ≡ eval (base d) a.words
    below : Below (base d) r.words

  scale_extended-Extended : (a : Number) (q : ℕ) → IsValid d a → Extended a q (scale_extended d a q)
  unfolding scale_extended
  scale_extended-Extended a q v =
      let n = if ltb (a.scale + q) (length a.words) then length a.words else a.scale + q in
      let words = extend-words a n in
      let (sign, scale) = extend_rest a n in
      let k = n - length a.words in
      let count = length-replicate {A = ℕ} k 0 in
      let room : a.scale + q ≤ n = ground arith in
      record {
        fits =
            omega
              (arith, ap length words, length-append a.words (replicate k 0), count, room, scale);
        scale = omega (arith, scale);
        sign = sign;
        value =
            ap (eval (base d)) words
            ∙ eval-append (base d) a.words (replicate k 0)
            ∙ ap (λ (t : ℕ). eval (base d) a.words + base d ^ length a.words * t)
                (eval-zeros (base d) k)
            ∙ omega arith;
        below = rw words (
            Below-append (base d) a.words (replicate k 0) v.below
              (Below-zeros (base d) k positive));
      }

  divided-Scaled :
      (b : Number) (r v : ℕ)
      → r < d.base_log
      → b.scale ≤ length b.words
      → Below (base d) b.words
      → eval (base d) b.words ≡ v
      → let c = unsafe_normalize_full d (scale_divided d x b r) in
        Scaled d c (v * 10 ^ (d.base_log - r)) (b.scale + 1) × IsValid d c × (c.sign ≡ b.sign)
  unfolding scale_divided
  divided-Scaled b r v lt fits below value = elim (Bool-cases (r == 0)) [
    | inl z ↦
        let none : r ≡ 0 = (==_iff r 0).0 z in
        let whole : base d ≡ 10 ^ (d.base_log - r) = ap (λ (t : ℕ). 10 ^ t) (omega (arith, none)) in
        rw z (
          unsafe_normalize_full-Scaled d laws x span b fits below _ (b.scale + 1) (omega arith) (
            ap (λ (t : ℕ). eval (base d) b.words * t)
              (one_more (base d) b.scale b.scale refl ∙ whole)
            ∙ ap (λ (t : ℕ). t * 10 ^ (d.base_log - r)) value))
    | inr z ↦
        let f : times_ten r 1 ≡ 10 ^ r = times_ten-value r 1 ∙ omega arith in
        let pos : 0 < times_ten r 1 = rw f (pow_pos 10 r (omega arith)) in
        let small : times_ten r 1 < base d = rw f (power_lt r lt) in
        let (quotient, remainder, size, digits) =
          span.divmod_uword-value b.words (times_ten r 1) below pos small in
        let q = x.divmod_uword b.words (times_ten r 1) in
        rw z (
          push_remainder-Scaled (record b { words = q.0 }) r q.1 v (omega arith)
            (omega (arith, size)) digits
            (rw (remainder, f) (mod-lt (eval (base d) b.words) (pow_pos 10 r (omega arith))))
            (rw (quotient, remainder, f) (div-add-mod' (eval (base d) b.words) (10 ^ r) ∙ value)))
  ]

  -- Scaling a valid number down by n decimal digits is exact: the result stands for the words of the
  -- number as a fraction with n more digits, and it has the sign and meets the invariants.
  pub number_scale_down-Scaled :
      (a : Number) (n : ℕ)
      → IsValid d a
      → Scaled d
          (number_scale_down d x a n)
          (eval (base d) a.words * 10 ^ (d.base_log - n % d.base_log))
          (a.scale + n / d.base_log + 1)
        × IsValid d (number_scale_down d x a n)
        × ((number_scale_down d x a n).sign ≡ a.sign)
  unfolding number_scale_down
  number_scale_down-Scaled a n v =
      let q = n / d.base_log in
      let r = n % d.base_log in
      let lt : r < d.base_log = mod-lt n laws.base_log_pos in
      let b = scale_extended d a q in
      let e = scale_extended-Extended a q v in
      let (scaled, valid, sign) =
        divided-Scaled b r (eval (base d) a.words) lt e.fits e.below e.value in
      let level : b.scale + 1 ≡ a.scale + q + 1 = ap (λ (t : ℕ). t + 1) e.scale in
      (
        subst (Scaled d (number_scale_down d x a n) (eval (base d) a.words * 10 ^ (d.base_log - r)))
            level scaled,
        valid,
        sign ∙ e.sign,
      )
