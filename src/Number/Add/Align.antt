-- ===== src/Number/Add/Align.antt =====
-- number.c: the sizes, the scale and the value of an operand after `align`.
use mathlib.Core.List.{append-nil}
use calx.Base.{
  ℕ, suc, ◌+◌, ◌-◌, ◌*◌, ◌^◌, ◌≤◌, ◌<◌, max, ◌≡◌, refl, sym, ap, ◌∙◌, inl, inr, true, false, List,
  [], ◌∷◌, ◌++◌, arith, length, take, drop, replicate, ltb, ◌==◌, Bool-cases, ltb→lt, length-append,
  length-replicate, length-drop, length-take, take-append-drop,
}
use calx.Number.Add.Defs.{align}
use calx.Number.Deci.{Deci, base, DeciLaws}
use calx.Number.Defs.{Number, IsValid, int_part, mkuniq, mkuniq_scale_up, mkuniq_extend}
use calx.Number.Words.{
  eval, Below, IsNormalized, mul-pow_zero, pow-add, pow_pos, eval-append, eval-zeros, Below-append,
  Below-zeros, IsNormalized-le,
}

-- the number of integer words
abbrev pub nint : Number → ℕ
nint a = length a.words - a.scale

pub mkuniq-words : (a : Number) → (mkuniq a).words ≡ a.words
unfolding mkuniq
mkuniq-words a = ground arith

pub mkuniq-scale : (a : Number) → (mkuniq a).scale ≡ a.scale
unfolding mkuniq
mkuniq-scale a = ground arith

pub mkuniq-sign : (a : Number) → (mkuniq a).sign ≡ a.sign
unfolding mkuniq
mkuniq-sign a = ground arith

not_lt : (m n : ℕ) → ltb m n ≡ false → n ≤ m
not_lt m n h = ground arith

==_to_eq : (m n : ℕ) → (m == n) ≡ true → m ≡ n
==_to_eq m n h = ground arith

pub extend-words :
    (a : Number) (n : ℕ) → (mkuniq_extend a n).words ≡ a.words ++ replicate (n - length a.words) 0
unfolding mkuniq_extend
extend-words a n = elim (Bool-cases (a.nrefs == 1)) [
  | inr p ↦ rw p
  | inl p ↦ elim (Bool-cases (length a.words == n)) [
    | inr q ↦ rw (p, q)
    | inl q ↦
        let none_left : n - length a.words ≡ 0 = omega (arith, ==_to_eq (length a.words) n q) in
        rw (p, q, none_left) (sym (append-nil a.words))
  ]
]

pub extend_rest :
    (a : Number) (n : ℕ)
    → ((mkuniq_extend a n).sign ≡ a.sign) × ((mkuniq_extend a n).scale ≡ a.scale)
unfolding mkuniq_extend
extend_rest a n = (ground arith, ground arith)

pub scale_up-words :
    (a : Number) (sr : ℕ) → (mkuniq_scale_up a sr).words ≡ replicate (sr - a.scale) 0 ++ a.words
unfolding mkuniq_scale_up
scale_up-words a sr = elim (Bool-cases (a.nrefs == 1)) [
  | inr p ↦ rw p
  | inl p ↦ elim (Bool-cases (a.scale == sr)) [
    | inr q ↦ rw (p, q)
    | inl q ↦
        let none_left : sr - a.scale ≡ 0 = omega (arith, ==_to_eq a.scale sr q) in
        rw (p, q, none_left)
  ]
]

pub scale_up_rest :
    (a : Number) (sr : ℕ)
    → ((mkuniq_scale_up a sr).sign ≡ a.sign) × ((mkuniq_scale_up a sr).scale ≡ sr)
unfolding mkuniq_scale_up
scale_up_rest a sr = (ground arith, ground (arith, ==_to_eq a.scale sr))

module _ (d : Deci) (laws : DeciLaws d) where
  pub base_pos : 0 < base d
  base_pos = pow_pos 10 d.base_log (omega arith)

  le_scaled : (p x y z : ℕ) → x ≤ y → p * x ≤ z + p * y
  le_scaled p x y z h = grind arith

  -- the top word of a span that is normalized
  top_le :
      (ws : List ℕ) → IsNormalized ws → 0 < length ws → base d ^ (length ws - 1) ≤ eval (base d) ws
  top_le [] n h = absurd (omega arith)
  top_le (w ∷ ws) n h =
      let e : suc (length ws) - 1 ≡ length ws = omega arith in
      rw e (IsNormalized-le (base d) w ws base_pos n)

  pub split-eval :
      (k : ℕ) (ws : List ℕ)
      → k ≤ length ws
      → eval (base d) ws ≡ eval (base d) (take k ws) + base d ^ k * eval (base d) (drop k ws)
  split-eval k ws h =
      let e : length (take k ws) ≡ k = omega (arith, length-take k ws) in
      ap (eval (base d)) (sym (take-append-drop k ws))
      ∙ eval-append (base d) (take k ws) (drop k ws)
      ∙ ap (λ n. eval (base d) (take k ws) + base d ^ n * eval (base d) (drop k ws)) e

  pub top-IsValid :
      (a : Number)
      → IsValid d a
      → a.scale < length a.words
      → base d ^ (length a.words - 1) ≤ eval (base d) a.words
  top-IsValid a v h =
      let top = top_le (int_part a) v.normalized (omega (arith, length-drop a.scale a.words)) in
      let e : length a.words - 1 ≡ a.scale + (length (int_part a) - 1) =
        omega (arith, length-drop a.scale a.words) in
      rw
        (
          e,
          pow-add (base d) a.scale (length (int_part a) - 1),
          split-eval a.scale a.words v.scale_fits,
        )
        (le_scaled (base d ^ a.scale) _ _ _ top)

  pub record Aligned (a b r : Number) : Type 0 where
    pub sign : r.sign ≡ a.sign
    pub scale : r.scale ≡ max a.scale b.scale
    pub size : length r.words ≡ max a.scale b.scale + max (nint a) (nint b)
    pub value :
        eval (base d) r.words ≡ eval (base d) a.words * base d ^ (max a.scale b.scale - a.scale)
    pub below : Below (base d) r.words

  extend-Aligned :
      (a b : Number)
      → IsValid d a
      → b.scale ≤ a.scale
      → nint a < nint b
      → Aligned a b (mkuniq_extend a (a.scale + nint b))
  extend-Aligned a b va lo hi =
      let words = extend-words a (a.scale + nint b) in
      let rest = extend_rest a (a.scale + nint b) in
      let none : max a.scale b.scale - a.scale ≡ 0 = omega arith in
      let zeros = a.scale + nint b - length a.words in
      record {
        sign = rest.0;
        scale = omega (arith, rest.1);
        size =
            rw (words, length-append a.words (replicate zeros 0), length-replicate {A = ℕ} zeros 0)
              (omega (arith, va.scale_fits));
        value =
            rw
              (
                words,
                none,
                eval-append (base d) a.words (replicate zeros 0),
                eval-zeros (base d) zeros,
                mul-pow_zero (base d),
              )
              (omega arith);
        below = rw words (
            Below-append (base d) a.words (replicate zeros 0) va.below
              (Below-zeros (base d) zeros base_pos));
      }

  scale_up-Aligned :
      (a b : Number)
      → IsValid d a
      → a.scale < b.scale
      → nint b ≤ nint a
      → Aligned a b (mkuniq_scale_up a b.scale)
  scale_up-Aligned a b va lo hi =
      let words = scale_up-words a b.scale in
      let rest = scale_up_rest a b.scale in
      let zeros = b.scale - a.scale in
      let same : max a.scale b.scale - a.scale ≡ zeros = omega arith in
      record {
        sign = rest.0;
        scale = omega (arith, rest.1);
        size =
            rw (words, length-append (replicate zeros 0) a.words, length-replicate {A = ℕ} zeros 0)
              (omega (arith, va.scale_fits));
        value =
            rw
              (
                words,
                same,
                eval-append (base d) (replicate zeros 0) a.words,
                eval-zeros (base d) zeros,
                length-replicate {A = ℕ} zeros 0,
              )
              (omega arith);
        below = rw words (
            Below-append (base d) (replicate zeros 0) a.words (Below-zeros (base d) zeros base_pos)
              va.below);
      }

  uniq-Aligned :
      (a b : Number) → IsValid d a → b.scale ≤ a.scale → nint b ≤ nint a → Aligned a b (mkuniq a)
  uniq-Aligned a b va lo hi =
      let none : max a.scale b.scale - a.scale ≡ 0 = omega arith in
      record {
        sign = mkuniq-sign a;
        scale = omega (arith, mkuniq-scale a);
        size = rw (mkuniq-words a) (omega (arith, va.scale_fits));
        value = rw (mkuniq-words a, none, mul-pow_zero (base d)) refl;
        below = rw (mkuniq-words a) va.below;
      }

  -- Behind the exchange in `do_add_or_sub` the first number is at least as long as the second.
  pub align-Aligned :
      (a b : Number)
      → IsValid d a
      → IsValid d b
      → length b.words ≤ length a.words
      → Aligned a b (align a b)
  unfolding align
  align-Aligned a b va vb h = elim (Bool-cases (ltb (nint a) (nint b))) [
    | inl p ↦
        let lt = ltb→lt (nint a) (nint b) p in
        rw p (extend-Aligned a b va (omega (arith, va.scale_fits, vb.scale_fits)) lt)
    | inr p ↦ elim (Bool-cases (ltb a.scale b.scale)) [
      | inl q ↦
          rw (p, q)
            (scale_up-Aligned a b va (ltb→lt a.scale b.scale q) (not_lt (nint a) (nint b) p))
      | inr q ↦
          rw (p, q) (uniq-Aligned a b va (not_lt a.scale b.scale q) (not_lt (nint a) (nint b) p))
    ]
  ]
