-- ===== src/Number/Compare/Order.antt =====
-- number.c: number_compare and the order of the values.
use mathlib.Core.List.{reverse, reverse-cons}
use native.Mathlib.Nat.{
  mul-le-mul_left, mul-le-mul_right, max_comm, mul-lt-mul_of_pos_right, pow-le-pow_right,
}
use calx.Base.{
  ℕ, suc, ◌+◌, ◌-◌, ◌*◌, ◌^◌, ◌≤◌, ◌<◌, max, ◌≡◌, refl, sym, ap, ◌∙◌, inl, inr, Bool, true, false,
  List, [], ◌∷◌, ◌++◌, arith, length, take, ltb, ltb→lt, ◌==◌, ==_iff, if◌then◌else◌, Bool-cases,
  length-append, take-append-drop, length-take, length-drop, ◌&&◌, ◌↔◌,
}
use calx.Base.Int.{ℤ, pos_part, neg_part, ◌-ℤ◌}
use calx.Number.Add.Exact.{value_at, to_ℤ}
use calx.Number.Compare.Defs.{
  compare_less, compare_eq, compare_greater, compare_loop, compare_abs, number_compare,
}
use calx.Number.Compare.Spans.{top-reverse, order, order-lt, order-gt, compare_loop-order}
use calx.Number.Deci.{Deci, base, DeciLaws}
use calx.Number.Defs.{Number, IsValid, number_is_zero, int_part, frac_part}
use calx.Number.Words.{
  eval, Below, IsNormalized, IsNormalized-le, Below-append, eval-append, eval-lt, mul-pow_zero,
  pow_pos, pow-add,
}

length-reverse : (ws : List ℕ) → length (reverse ws) ≡ length ws
length-reverse [] = refl
length-reverse (w ∷ ws) =
    rw reverse-cons (length-append (reverse ws) (w ∷ []) ∙ omega (arith, length-reverse ws))

Below-reverse : (b : ℕ) (ws : List ℕ) → Below b ws → Below b (reverse ws)
Below-reverse b [] h = tt
Below-reverse b (w ∷ ws) h =
    rw reverse-cons (Below-append b (reverse ws) (w ∷ []) (Below-reverse b ws h.1) (h.0, tt))

-- the order of two spans, the first no shorter than the second
spans_order :
    (b : ℕ) (xs ys : List ℕ) (f : ℕ)
    → 0 < b
    → length ys ≤ length xs
    → Below b xs
    → Below b ys
    → compare_loop (reverse xs) (reverse ys) f
      ≡ order f (eval b xs) (eval b ys * b ^ (length xs - length ys))
spans_order b xs ys f h le k l =
    let e =
      compare_loop-order b (reverse xs) (reverse ys) f h
        (rw (length-reverse xs, length-reverse ys) le) (Below-reverse b xs k)
        (Below-reverse b ys l) in
    e ∙ rw (top-reverse b xs, top-reverse b ys, length-reverse xs, length-reverse ys) refl

-- a normalized part that is not empty
part_large :
    (b : ℕ) (ws : List ℕ)
    → 0 < b
    → 0 < length ws
    → IsNormalized ws
    → b ^ (length ws - 1) ≤ eval b ws
part_large b [] h pos_length n = absurd (omega arith)
part_large b (w ∷ ws) h pos_length n =
    let e : suc (length ws) - 1 ≡ length ws = omega arith in rw e (IsNormalized-le b w ws h n)

large :
    (d : Deci) (a : Number)
    → IsValid d a
    → a.scale < length a.words
    → base d ^ (length a.words - 1) ≤ eval (base d) a.words
large d a v h =
    let b = base d in
    let bp : 0 < b = pow_pos 10 d.base_log (omega arith) in
    let part : b ^ (length (int_part a) - 1) ≤ eval b (int_part a) =
      part_large b (int_part a) bp (omega (arith, length-drop a.scale a.words)) v.normalized in
    let whole : eval b a.words
        ≡ eval b (take a.scale a.words) + b ^ length (take a.scale a.words) * eval b (int_part a) =
      ap (eval b) (sym (take-append-drop a.scale a.words))
      ∙ eval-append b (take a.scale a.words) (int_part a) in
    let exponents : length a.words - 1 ≡ length (take a.scale a.words) + (length (int_part a) - 1) =
      omega (arith, length-take a.scale a.words, length-drop a.scale a.words) in
    rw
      (
        ap (λ (t : ℕ). b ^ t) exponents
            ∙ pow-add b (length (take a.scale a.words)) (length (int_part a) - 1),
        whole,
      )
      (omega (arith, mul-le-mul_left (b ^ length (take a.scale a.words)) part))

-- fewer words in the integer part, a smaller number
shorter-lt :
    (d : Deci) (a b : Number) (s : ℕ)
    → IsValid d a
    → IsValid d b
    → a.scale ≤ s
    → b.scale ≤ s
    → length a.words - a.scale < length b.words - b.scale
    → eval (base d) a.words * base d ^ (s - a.scale)
      < eval (base d) b.words * base d ^ (s - b.scale)
shorter-lt d a b s va vb ha hb h =
    let B = base d in
    let bp : 0 < B = pow_pos 10 d.base_log (omega arith) in
    let low : eval B a.words * B ^ (s - a.scale) < B ^ length a.words * B ^ (s - a.scale) =
      mul-lt-mul_of_pos_right (eval-lt B a.words va.below) (pow_pos B (s - a.scale) bp) in
    let high : B ^ (length b.words - 1) * B ^ (s - b.scale) ≤ eval B b.words * B ^ (s - b.scale) =
      mul-le-mul_right (B ^ (s - b.scale)) (large d b vb (omega arith)) in
    let exponents : B ^ (length a.words + (s - a.scale))
        ≤ B ^ (length b.words - 1 + (s - b.scale)) =
      pow-le-pow_right bp (omega (arith, va.scale_fits, vb.scale_fits)) in
    omega (
      arith,
      low,
      high,
      exponents,
      pow-add B (length a.words) (s - a.scale),
      pow-add B (length b.words - 1) (s - b.scale),
    )

order-5 : (m n : ℕ) → order 5 m n ≡ order 0 n m
order-5 m n = ground arith

-- the magnitude at the scale s
unfoldable magnitude : Deci → ℕ → Number → ℕ
magnitude d s a = eval (base d) a.words * base d ^ (s - a.scale)

module _ (d : Deci) (a b : Number) (va : IsValid d a) (vb : IsValid d b) where
  compare_abs-order :
      compare_abs a b
      ≡ order 0 (magnitude d (max a.scale b.scale) a) (magnitude d (max a.scale b.scale) b)
  unfolding compare_abs magnitude
  compare_abs-order =
      let bp : 0 < base d = pow_pos 10 d.base_log (omega arith) in
      elim (Bool-cases (length a.words - a.scale == length b.words - b.scale)) [
        | inl e ↦ elim (Bool-cases (ltb a.scale b.scale)) [
          | inl f ↦
              let x : max a.scale b.scale - a.scale ≡ length b.words - length a.words =
                ground arith in
              let y : max a.scale b.scale - b.scale ≡ 0 = ground arith in
              rw (e, f, x, y, mul-pow_zero (base d) (eval (base d) b.words))
                (spans_order (base d) b.words a.words 5 bp (ground arith) vb.below va.below
                  ∙ order-5 (eval (base d) b.words)
                      (eval (base d) a.words * base d ^ (length b.words - length a.words)))
          | inr f ↦
              let x : max a.scale b.scale - b.scale ≡ length a.words - length b.words =
                ground arith in
              let y : max a.scale b.scale - a.scale ≡ 0 = ground arith in
              rw (e, f, x, y, mul-pow_zero (base d) (eval (base d) a.words))
                (spans_order (base d) a.words b.words 0 bp (ground arith) va.below vb.below)
        ]
        | inr e ↦ elim (Bool-cases (ltb (length a.words - a.scale) (length b.words - b.scale))) [
          | inl f ↦
              rw (e, f)
                (sym (
                  order-lt 0 _ _ (
                    shorter-lt d a b (max a.scale b.scale) va vb (omega arith) (omega arith)
                      (ltb→lt _ _ f))))
          | inr f ↦
              rw (e, f)
                (sym (
                  order-gt 0 _ _ (
                    shorter-lt d b a (max a.scale b.scale) vb va (omega arith) (omega arith)
                      (ground arith))))
        ]
      ]

-- the order of an integer and zero
abbrev pub order_zero : ℤ → ℕ
order_zero z =
    if ltb 0 (neg_part z)
    then compare_less
    else if ltb 0 (pos_part z)
    then compare_greater
    else compare_eq

order-plus : (m n : ℕ) → order 0 m n ≡ order_zero (to_ℤ false m -ℤ to_ℤ false n)
unfolding ◌-ℤ◌
order-plus m n = ground arith

order-minus : (m n : ℕ) → order 0 n m ≡ order_zero (to_ℤ true m -ℤ to_ℤ true n)
unfolding ◌-ℤ◌
order-minus m n = ground arith

order-minus_plus :
    (m n : ℕ)
    → (if m == 0 && n == 0 then compare_eq else compare_less)
      ≡ order_zero (to_ℤ true m -ℤ to_ℤ false n)
unfolding ◌-ℤ◌
order-minus_plus m n = ground arith

order-plus_minus :
    (m n : ℕ)
    → (if m == 0 && n == 0 then compare_eq else compare_greater)
      ≡ order_zero (to_ℤ false m -ℤ to_ℤ true n)
unfolding ◌-ℤ◌
order-plus_minus m n = ground arith

-- the branches of number_compare, by the order of the magnitudes
by_signs :
    (s t : Bool) (c c' : ℕ) (za zb : Bool) (m n : ℕ)
    → c ≡ order 0 m n
    → c' ≡ order 0 n m
    → za ≡ (m == 0)
    → zb ≡ (n == 0)
    → (if s
        then (if t then c' else if za && zb then compare_eq else compare_less)
        else (if t then (if za && zb then compare_eq else compare_greater) else c))
      ≡ order_zero (to_ℤ s m -ℤ to_ℤ t n)
by_signs true true c c' za zb m n h h' z z' = h' ∙ order-minus m n
by_signs true false c c' za zb m n h h' z z' = rw (z, z') (order-minus_plus m n)
by_signs false true c c' za zb m n h h' z z' = rw (z, z') (order-plus_minus m n)
by_signs false false c c' za zb m n h h' z z' = h ∙ order-plus m n

eval-empty : (b : ℕ) (ws : List ℕ) → length ws ≡ 0 → eval b ws ≡ 0
eval-empty b [] h = refl
eval-empty b (w ∷ ws) h = absurd (omega arith)

product_zero : (m p : ℕ) → 0 < p → (m * p == 0) ≡ (m == 0)
product_zero m p h = elim (Bool-cases (m == 0)) [
  | inl e ↦ let z : m * p ≡ 0 = ap (λ (t : ℕ). t * p) ((==_iff m 0).0 e) ∙ omega arith in rw (e, z)
  | inr e ↦
      let one : 1 ≤ m = ground arith in
      let more : 0 < m * p = omega (arith, mul-le-mul_right p one) in rw e (ground arith)
]

same_test : (p : Bool) (n : ℕ) → (p ≡ true) ↔ (n ≡ 0) → p ≡ (n == 0)
same_test true n h = let z = h.0 refl in ground arith
same_test false n h = elim (Bool-cases (n == 0)) [
  | inl e ↦ h.1 ((==_iff n 0).0 e) ∙ sym e
  | inr e ↦ sym e
]

module _ (d : Deci) (laws : DeciLaws d) where
  frac_whole :
      (a : Number) → a.scale ≡ length a.words → eval (base d) (frac_part a) ≡ eval (base d) a.words
  frac_whole a h =
      let none_left : eval (base d) (int_part a) ≡ 0 =
        eval-empty (base d) (int_part a) (omega (arith, length-drop a.scale a.words)) in
      let whole : eval (base d) (frac_part a ++ int_part a) ≡ eval (base d) a.words =
        ap (eval (base d)) (take-append-drop a.scale a.words) in
      omega (
        arith,
        whole,
        eval-append (base d) (frac_part a) (int_part a),
        ap (λ (t : ℕ). base d ^ length (frac_part a) * t) none_left,
      )

  pub number_is_zero-eval :
      (a : Number) → IsValid d a → number_is_zero d a ≡ (eval (base d) a.words == 0)
  unfolding number_is_zero
  number_is_zero-eval a v = elim (Bool-cases (a.scale == length a.words)) [
    | inl e ↦ rw e (
        same_test _ _ (laws.is_zero_n_iff (frac_part a))
        ∙ ap (λ (t : ℕ). t == 0) (frac_whole a ((==_iff a.scale (length a.words)).0 e)))
    | inr e ↦
        let more : 0 < eval (base d) a.words = omega (
          arith,
          large d a v (ground arith),
          pow_pos (base d) (length a.words - 1) (pow_pos 10 d.base_log (omega arith)),
        ) in
        rw e (ground arith)
  ]

  number_is_zero-magnitude :
      (a : Number) (s : ℕ) → IsValid d a → number_is_zero d a ≡ (magnitude d s a == 0)
  unfolding magnitude
  number_is_zero-magnitude a s v =
      number_is_zero-eval a v
      ∙ sym
          (product_zero _ _ (pow_pos (base d) (s - a.scale) (pow_pos 10 d.base_log (omega arith))))

  -- Valid numbers compare as their values at the larger of the two scales.
  pub number_compare-value :
      (a b : Number)
      → IsValid d a
      → IsValid d b
      → number_compare d a b
        ≡ order_zero (value_at d (max a.scale b.scale) a -ℤ value_at d (max a.scale b.scale) b)
  unfolding number_compare magnitude
  number_compare-value a b va vb =
      let s = max a.scale b.scale in
      by_signs a.sign b.sign _ _ _ _ (magnitude d s a) (magnitude d s b)
        (compare_abs-order d a b va vb)
        (compare_abs-order d b a vb va ∙ rw (max_comm b.scale a.scale) refl)
        (number_is_zero-magnitude a s va) (number_is_zero-magnitude b s vb)
