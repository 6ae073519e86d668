-- ===== src/Number/Mul/Normalize.antt =====
-- number.c: the value and the invariants after unsafe_normalize_full.
use mathlib.Core.Path.{ap₂}
use calx.Base.{
  ℕ, ◌+◌, ◌-◌, ◌*◌, ◌^◌, ◌≤◌, ◌≡◌, refl, sym, ap, ◌∙◌, inl, inr, ◌&&◌, List, ◌++◌, arith, length,
  take, drop, ◌==◌, Bool-cases, length-take, length-drop, length-append, take-append-drop,
  take-append_right, take-all, drop-append_left, drop-append_all,
}
use calx.Number.Deci.{Deci, base, DeciLaws}
use calx.Number.Defs.{Number, IsValid, int_part, frac_part, unsafe_strip, unsafe_normalize_full}
use calx.Number.Fancy.Spans.{SpanOps, SpanLaws}
use calx.Number.Words.{eval, Below, Below-take, Below-drop, Below-append, eval-append, pow-add}

-- A number whose words stand for `m` at the scale `s`.
pub record Scaled (d : Deci) (r : Number) (m s : ℕ) : Type 0 where
  pub scale_fits : r.scale ≤ s
  pub value : eval (base d) r.words * base d ^ (s - r.scale) ≡ m

pub strip-words :
    (a : Number) (n s : ℕ)
    → s ≤ a.scale
    → ((unsafe_strip a n s).words ≡ take n (drop (a.scale - s) a.words))
      × ((unsafe_strip a n s).scale ≡ s)
      × ((unsafe_strip a n s).sign ≡ a.sign)
unfolding unsafe_strip
strip-words a n s h = elim (Bool-cases (length a.words == n && a.scale == s)) [
  | inl e ↦
      let size : length a.words ≡ n = ground arith in
      let scale : a.scale ≡ s = ground arith in
      let none : a.scale - s ≡ 0 = omega (arith, scale) in
      rw e (
        sym (
            ap (λ (t : ℕ). take n (drop t a.words)) none
            ∙ take-all n a.words (omega (arith, size))),
        scale,
        refl,
      )
  | inr e ↦ rw e (refl, refl, refl)
]

module _ (d : Deci) (laws : DeciLaws d) (x : SpanOps) (span : SpanLaws d x) where
  module _ (r : Number) (fits : r.scale ≤ length r.words) (below : Below (base d) r.words) where
    ds : ℕ
    ds = d.skip0_n (frac_part r)

    ni : ℕ
    ni = d.normalize_n (int_part r)

    size_frac : length (frac_part r) ≡ r.scale
    size_frac = omega (arith, length-take r.scale r.words, fits)

    ds_le : ds ≤ r.scale
    unfolding ds
    ds_le = omega (arith, span.skip0_n-le (frac_part r), size_frac)

    -- what is left of the fraction and of the integer part
    kept :
        take (r.scale - ds + ni) (drop ds r.words) ≡ drop ds (frac_part r) ++ take ni (int_part r)
    kept =
        ap (λ (ws : List ℕ). take (r.scale - ds + ni) (drop ds ws))
          (sym (take-append-drop r.scale r.words))
        ∙ ap (take (r.scale - ds + ni))
            (drop-append_left ds (frac_part r) (int_part r) (omega (arith, ds_le, size_frac)))
        ∙ take-append_right (r.scale - ds) ni (drop ds (frac_part r)) (int_part r)
            (omega (arith, length-drop ds (frac_part r), size_frac))

    result_words : (unsafe_normalize_full d r).words ≡ drop ds (frac_part r) ++ take ni (int_part r)
    unfolding unsafe_normalize_full ds ni
    result_words =
        let back : r.scale - (r.scale - d.skip0_n (frac_part r)) ≡ d.skip0_n (frac_part r) =
          omega (arith, ds_le) in
        (strip-words r (r.scale - d.skip0_n (frac_part r) + d.normalize_n (int_part r))
          (r.scale - d.skip0_n (frac_part r)) (omega arith)).0
        ∙ ap
            (λ (t : ℕ).
              take (r.scale - d.skip0_n (frac_part r) + d.normalize_n (int_part r))
                (drop t r.words))
            back
        ∙ kept

    result_scale :
        ((unsafe_normalize_full d r).scale ≡ r.scale - ds)
        × ((unsafe_normalize_full d r).sign ≡ r.sign)
    unfolding unsafe_normalize_full ds ni
    result_scale =
        let (w, s, g) = strip-words r (r.scale - ds + ni) (r.scale - ds) (omega arith) in (s, g)

    result_value :
        eval (base d) (drop ds (frac_part r) ++ take ni (int_part r)) * base d ^ ds
        ≡ eval (base d) r.words
    result_value =
        let b = base d in
        let low = take ds (frac_part r) in
        let high = drop ds (frac_part r) in
        let n : length low ≡ ds = omega (arith, length-take ds (frac_part r), size_frac, ds_le) in
        let top : eval b (take ni (int_part r)) ≡ eval b (int_part r) =
          unfold ni in laws.normalize_n-eval (int_part r) in
        let nil : eval b low ≡ 0 = unfold ds in span.skip0_n-eval (frac_part r) in
        let frac : eval b (frac_part r) ≡ eval b low + b ^ ds * eval b high =
          ap (eval b) (sym (take-append-drop ds (frac_part r)))
          ∙ eval-append b low high
          ∙ rw n refl in
        let all : eval b r.words ≡ eval b (frac_part r) + b ^ r.scale * eval b (int_part r) =
          ap (eval b) (sym (take-append-drop r.scale r.words))
          ∙ eval-append b (frac_part r) (int_part r)
          ∙ rw size_frac refl in
        let powers : b ^ r.scale ≡ b ^ ds * b ^ length high =
          ap (λ (t : ℕ). b ^ t) (omega (arith, length-drop ds (frac_part r), size_frac, ds_le))
          ∙ pow-add b ds (length high) in
        rw (eval-append b high (take ni (int_part r)), top)
          (omega (arith, all, frac, nil, ap (λ (t : ℕ). t * eval b (int_part r)) powers))

    -- Leading and trailing zero words do not matter, and the result meets the invariants.
    pub unsafe_normalize_full-Scaled :
        (m s : ℕ)
        → r.scale ≤ s
        → eval (base d) r.words * base d ^ (s - r.scale) ≡ m
        → Scaled d (unsafe_normalize_full d r) m s
          × IsValid d (unsafe_normalize_full d r)
          × ((unsafe_normalize_full d r).sign ≡ r.sign)
    unsafe_normalize_full-Scaled m s le v =
        let b = base d in
        let high = drop ds (frac_part r) in
        let (scale, sign) = result_scale in
        let size : r.scale - ds ≡ length high =
          omega (arith, length-drop ds (frac_part r), size_frac) in
        let ints : int_part (unsafe_normalize_full d r) ≡ take ni (int_part r) =
          ap₂ drop scale result_words
          ∙ drop-append_all (r.scale - ds) high (take ni (int_part r)) size in
        let powers : b ^ (s - (r.scale - ds)) ≡ b ^ ds * b ^ (s - r.scale) =
          ap (λ (t : ℕ). b ^ t) (omega (arith, ds_le, le)) ∙ pow-add b ds (s - r.scale) in
        (
          record {
            scale_fits = omega (arith, scale, le);
            value =
                rw (scale, result_words, powers)
                  (omega (arith, v, ap (λ (t : ℕ). t * b ^ (s - r.scale)) result_value));
          },
          record {
            scale_fits = omega (
              arith,
              scale,
              ap length result_words,
              length-append high (take ni (int_part r)),
              size,
            );
            normalized = rw ints (unfold ni in laws.normalize_n-IsNormalized (int_part r));
            below = rw result_words (
                Below-append b high _ (Below-drop b ds _ (Below-take b r.scale r.words below))
                  (Below-take b ni _ (Below-drop b r.scale r.words below)));
          },
          sign,
        )
