-- ===== src/Number/Add/Exact.antt =====
-- number.c: signs, the exchange of the operands, and the value of sums and differences.
use mathlib.Core.Path.{ap₂, subst}
use native.Mathlib.Nat.{max_comm}
use calx.Base.{
  ℕ, ◌+◌, ◌-◌, ◌*◌, ◌^◌, ◌≤◌, max, ◌≡◌, ap, ◌∙◌, inl, inr, Bool, true, false, not, ◌||◌, ◌&&◌,
  arith, length, ltb, ◌==◌, if◌then◌else◌, Bool-cases,
}
use calx.Base.Int.{ℤ, pos, sub_ℕ, ◌+ℤ◌, ◌-ℤ◌}
use calx.Number.Add.Align.{Aligned, align-Aligned}
use calx.Number.Add.Combine.{Room, eval-add_words}
use calx.Number.Add.Defs.{
  xor, align, add_words, normalize_top, add_or_sub_aligned, do_add_or_sub, number_add, number_sub,
}
use calx.Number.Add.Subtract.{
  diff, difference, sub_words-difference, difference-length, difference_plain, difference_borrowed,
  eval-normalize_top,
}
use calx.Number.Deci.{Deci, base, DeciLaws}
use calx.Number.Defs.{Number, IsValid, unsafe_push_word}
use calx.Number.Words.{eval, mul-pow_zero}

-- a magnitude with its sign; a zero has the sign of neither
abbrev pub to_ℤ : Bool → ℕ → ℤ
to_ℤ sign m = if sign then sub_ℕ 0 m else pos m

-- the number times base ^ s, an integer for every s that is no less than the scale
abbrev pub value_at : Deci → ℕ → Number → ℤ
value_at d s a = to_ℤ a.sign (eval (base d) a.words * base d ^ (s - a.scale))

abbrev negate_if : Bool → ℤ → ℤ
negate_if neg z = if neg then pos 0 -ℤ z else z

abbrev add_or_sub : Bool → ℤ → ℤ → ℤ
add_or_sub add x y = if add then x +ℤ y else x -ℤ y

signs_sum :
    (s t add neg : Bool) (a b e : ℕ)
    → xor (xor s t) add ≡ true
    → e ≡ a + b
    → to_ℤ (xor s neg) e ≡ negate_if neg (add_or_sub add (to_ℤ s a) (to_ℤ t b))
unfolding ◌+ℤ◌ ◌-ℤ◌
signs_sum true true add neg a b e h v = ground arith
signs_sum true false add neg a b e h v = ground arith
signs_sum false true add neg a b e h v = ground arith
signs_sum false false add neg a b e h v = ground arith

signs_difference :
    (s t add neg : Bool) (a b e : ℕ)
    → xor (xor s t) add ≡ false
    → e + b ≡ a
    → to_ℤ (xor s (xor neg false)) e ≡ negate_if neg (add_or_sub add (to_ℤ s a) (to_ℤ t b))
unfolding ◌+ℤ◌ ◌-ℤ◌
signs_difference true true add neg a b e h v = ground arith
signs_difference true false add neg a b e h v = ground arith
signs_difference false true add neg a b e h v = ground arith
signs_difference false false add neg a b e h v = ground arith

signs_borrowed :
    (s t add neg : Bool) (a b e : ℕ)
    → xor (xor s t) add ≡ false
    → e + a ≡ b
    → to_ℤ (xor s (xor neg true)) e ≡ negate_if neg (add_or_sub add (to_ℤ s a) (to_ℤ t b))
unfolding ◌+ℤ◌ ◌-ℤ◌
signs_borrowed true true add neg a b e h v = ground arith
signs_borrowed true false add neg a b e h v = ground arith
signs_borrowed false true add neg a b e h v = ground arith
signs_borrowed false false add neg a b e h v = ground arith

-- the exchange of the operands is undone by the sign
exchanged : (add : Bool) (x y : ℤ) → negate_if (not add) (add_or_sub add y x) ≡ add_or_sub add x y
unfolding ◌+ℤ◌ ◌-ℤ◌
exchanged true x y = ground arith
exchanged false x y = ground arith

pub not_swapped : (m n : ℕ) (c : Bool) → (ltb m n || (m == n && c)) ≡ false → n ≤ m
not_swapped m n c h = ground arith

pub swapped : (m n : ℕ) (c : Bool) → (ltb m n || (m == n && c)) ≡ true → m ≤ n
swapped m n c h = ground arith

module _ (d : Deci) (laws : DeciLaws d) where
  module _ (a b : Number) (k : ℕ) (room : Room d laws a b k) (fits : a.scale ≤ length a.words) where
    pub add_words_rest : ((add_words d a b).sign ≡ a.sign) × ((add_words d a b).scale ≡ a.scale)
    unfolding add_words unsafe_push_word
    add_words_rest = (ground arith, ground arith)

    normalize_top-scale : (r : Number) → (normalize_top d r).scale ≡ r.scale
    unfolding normalize_top
    normalize_top-scale r = ground arith

    diff_words :
        eval (base d) (normalize_top d (difference d laws a b k room)).words
        ≡ eval (base d) (difference d laws a b k room).words
    unfolding difference
    diff_words =
        eval-normalize_top d laws (difference d laws a b k room)
          (rw (difference-length d laws a b k room) fits)

    pub diff_scale : (normalize_top d (difference d laws a b k room)).scale ≡ a.scale
    unfolding difference
    diff_scale = normalize_top-scale (difference d laws a b k room)

    aligned_value :
        (add neg : Bool)
        → let r = add_or_sub_aligned d a b add neg in
          (to_ℤ r.sign (eval (base d) r.words)
            ≡ negate_if neg (
                add_or_sub add
                  (to_ℤ a.sign (eval (base d) a.words))
                  (to_ℤ b.sign (eval (base d) b.words * base d ^ k))))
          × (r.scale ≡ a.scale)
    unfolding add_or_sub_aligned
    aligned_value add neg = elim (Bool-cases (xor (xor a.sign b.sign) add)) [
      | inl s ↦ rw s (
        signs_sum a.sign b.sign add neg _ _ _ s (eval-add_words d laws a b k room),
        add_words_rest.1,
      )
      | inr s ↦
          rw (s, sub_words-difference d laws a b k room)
            (elim (Bool-cases (diff d laws a b k room).1) [
              | inl c ↦ rw c (
                signs_borrowed a.sign b.sign add neg _ _ _ s
                    (rw diff_words (difference_borrowed d laws a b k room c)),
                diff_scale,
              )
              | inr c ↦ rw c (
                signs_difference a.sign b.sign add neg _ _ _ s
                    (rw diff_words (difference_plain d laws a b k room c)),
                diff_scale,
              )
            ])
    ]

  -- what the aligned operands give, in terms of the operands before `align`
  module _ (a b : Number) (va : IsValid d a) (vb : IsValid d b)
      (h : length b.words ≤ length a.words) where
    pub al : Aligned d laws a b (align a b)
    al = align-Aligned d laws a b va vb h

    pub room : Room d laws (align a b) b (max a.scale b.scale - b.scale)
    room = record {
      shift = omega (arith, al.scale);
      fits = omega (arith, al.size, al.scale, va.scale_fits, vb.scale_fits);
      below_a = al.below;
      below_b = vb.below;
    }

    operands_value :
        (add neg : Bool)
        → let r = add_or_sub_aligned d (align a b) b add neg in
          (value_at d (max a.scale b.scale) r
            ≡ negate_if neg (
                add_or_sub add
                  (value_at d (max a.scale b.scale) a)
                  (value_at d (max a.scale b.scale) b)))
          × (r.scale ≡ max a.scale b.scale)
    operands_value add neg =
        let (v, sc) =
          aligned_value (align a b) b _ room (omega (arith, al.size, al.scale)) add neg in
        let r = add_or_sub_aligned d (align a b) b add neg in
        let scale : r.scale ≡ max a.scale b.scale = sc ∙ al.scale in
        let none : max a.scale b.scale - r.scale ≡ 0 = omega (arith, scale) in
        let m = eval (base d) r.words in
        let same : m * base d ^ (max a.scale b.scale - r.scale) ≡ m =
          rw none (mul-pow_zero (base d) m) in
        (
          ap (to_ℤ r.sign) same
              ∙ v
              ∙ ap₂
                  (λ t n.
                    negate_if neg (add_or_sub add (to_ℤ t n) (value_at d (max a.scale b.scale) b)))
                  al.sign al.value,
          scale,
        )

  -- `do_add_or_sub` is exact on valid numbers, whatever their signs, sizes, scales and reference
  -- counts.
  do_add_or_sub_value :
      (a b : Number) (add : Bool)
      → IsValid d a
      → IsValid d b
      → (value_at d (max a.scale b.scale) (do_add_or_sub d a b add)
          ≡ add_or_sub add
              (value_at d (max a.scale b.scale) a)
              (value_at d (max a.scale b.scale) b))
        × ((do_add_or_sub d a b add).scale ≡ max a.scale b.scale)
  unfolding do_add_or_sub
  do_add_or_sub_value a b add va vb =
      elim (Bool-cases (
        ltb (length a.words) (length b.words)
        || (length a.words == length b.words && b.nrefs == 1))) [
          | inr s ↦ rw s (operands_value a b va vb (not_swapped _ _ _ s) add false)
          | inl s ↦
              let (v, sc) = operands_value b a vb va (swapped _ _ _ s) add (not add) in
              let r = add_or_sub_aligned d (align b a) a add (not add) in
              rw s (
                subst
                  (λ m.
                    (value_at d m r ≡ add_or_sub add (value_at d m a) (value_at d m b))
                    × (r.scale ≡ m))
                  (max_comm b.scale a.scale)
                  (
                    v
                        ∙ exchanged add (value_at d (max b.scale a.scale) a)
                            (value_at d (max b.scale a.scale) b),
                    sc,
                  ))
        ]

  -- Addition of valid numbers is exact: the result has the larger of the two scales, and at that
  -- scale its value is the sum of the values.
  pub number_add-value :
      (a b : Number)
      → IsValid d a
      → IsValid d b
      → (value_at d (max a.scale b.scale) (number_add d a b)
          ≡ value_at d (max a.scale b.scale) a +ℤ value_at d (max a.scale b.scale) b)
        × ((number_add d a b).scale ≡ max a.scale b.scale)
  unfolding number_add
  number_add-value a b va vb = do_add_or_sub_value a b true va vb

  -- Subtraction of valid numbers is exact in the same sense.
  pub number_sub-value :
      (a b : Number)
      → IsValid d a
      → IsValid d b
      → (value_at d (max a.scale b.scale) (number_sub d a b)
          ≡ value_at d (max a.scale b.scale) a -ℤ value_at d (max a.scale b.scale) b)
        × ((number_sub d a b).scale ≡ max a.scale b.scale)
  unfolding number_sub
  number_sub-value a b va vb = do_add_or_sub_value a b false va vb
