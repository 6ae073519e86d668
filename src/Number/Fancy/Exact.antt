-- ===== src/Number/Fancy/Exact.antt =====
-- fancy.c: the value of products, quotients and remainders, whichever algorithm is chosen.
use mathlib.Core.Path.{subst, ap₂}
use native.Mathlib.Nat.{div-add-mod}
use calx.Base.{
  ℕ, ◌+◌, ◌-◌, ◌*◌, ◌/◌, ◌%◌, ◌^◌, ◌≤◌, ◌<◌, ◌≡◌, sym, ap, ◌∙◌, inl, inr, Bool, true, false, ◌&&◌,
  List, [], ◌∷◌, arith, length, take, drop, min, ltb, ◌==◌, if◌then◌else◌, Bool-cases, length-take,
  length-drop, length-append, take-append_all, take-append_left, take-all,
}
use calx.Number.Deci.{Deci, base, bit, DeciLaws}
use calx.Number.Fancy.Defs.{
  fancy_mul, mul_callback, basecase, newton, divide, quotient_or_remainder,
}
use calx.Number.Fancy.Spans.{SpanOps, SpanLaws, IsProduct, Holds}
use calx.Number.Words.{eval, Below, IsNormalized, Below-take, Below-drop, Below-append, eval-lt}

length_pos : (b : ℕ) (ws : List ℕ) → 0 < eval b ws → 0 < length ws
length_pos b [] h = absurd (omega arith)
length_pos b (w ∷ ws) h = omega arith

-- what is left after the product has been taken off, without a borrow
remainder :
    (r p a b q m w : ℕ) (c : Bool)
    → r + p ≡ a + bit c * w
    → p ≡ q * b
    → b * q + m ≡ a
    → r < w
    → r ≡ m
remainder r p a b q m w true h k l lt = absurd (omega (arith, h, k, l, lt))
remainder r p a b q m w false h k l lt = omega (arith, h, k, l)

module _ (d : Deci) (laws : DeciLaws d) (x : SpanOps) (span : SpanLaws d x) where
  -- Every branch of fancy_mul gives the product, where the flag says that the operands are the same
  -- span only if they are.
  pub fancy_mul-IsProduct :
      (same : Bool) (a b : List ℕ)
      → (same ≡ true → a ≡ b)
      → Below (base d) a
      → Below (base d) b
      → IsProduct d a b (fancy_mul d x same a b)
  unfolding fancy_mul
  fancy_mul-IsProduct same a b h k l = elim (Bool-cases (ltb (min (length a) (length b)) 30)) [
    | inl e ↦ rw e (span.mul-IsProduct a b k l)
    | inr e ↦ elim (Bool-cases (ltb (min (length a) (length b)) 75)) [
      | inl f ↦ rw (e, f) (span.kara_mul-IsProduct a b k l)
      | inr f ↦
          rw (e, f)
            (elim (Bool-cases (same && length a == length b)) [
              | inl g ↦ rw g (squared (h (ground arith)))
              | inr g ↦ rw g (span.ntt_mul-IsProduct a b k l)
            ])
    ]
  ]
    where
      squared : a ≡ b → IsProduct d a b (x.ntt_sqr a)
      squared e =
          subst (λ (t : List ℕ). IsProduct d a t (x.ntt_sqr a)) e (span.ntt_sqr-IsProduct a k)

  mul_callback-IsProduct :
      (a b : List ℕ) → Below (base d) a → Below (base d) b → IsProduct d a b (mul_callback d x a b)
  unfolding mul_callback
  mul_callback-IsProduct a b k l = fancy_mul-IsProduct false a b (λ e. cc) k l

  -- quotient or remainder
  abbrev pub result : Bool → ℕ → ℕ → ℕ
  result quotient a b = if quotient then a / b else a % b

  module _ (a b : List ℕ) (ka : Below (base d) a) (kb : Below (base d) b) (nb : IsNormalized b)
      (pos : 0 < eval (base d) b) where
    basecase-Holds :
        (q : Bool) → Holds d a (result q (eval (base d) a) (eval (base d) b)) (basecase d x a b q)
    unfolding basecase
    basecase-Holds true = span.div-Holds a b ka kb nb pos
    basecase-Holds false = span.mod-Holds a b ka kb nb pos

    newton-Holds :
        (q : Bool)
        → IsNormalized a
        → x.newt_min ≤ length b
        → length b ≤ length a
        → Holds d a (result q (eval (base d) a) (eval (base d) b)) (newton d x a b q)
    unfolding newton
    newton-Holds true na min le =
        let (vq, lq, bq, vp, lp, bp) =
          span.newt_div-value (mul_callback d x) a b mul_callback-IsProduct ka kb na nb min le
            pos in
        let some_word = length_pos (base d) b pos in
        record {
          value =
              rw
                (take-append_all (length a - length b + 1) (x.newt_div (mul_callback d x) a b).1 _
                  (sym lq))
                vq;
          size = omega (
            arith,
            length-append (x.newt_div (mul_callback d x) a b).1 (drop (length a - length b + 1) a),
            lq,
            length-drop (length a - length b + 1) a,
            some_word,
            le,
          );
          count = omega (arith, some_word, le);
          below = Below-append (base d) _ _ bq (Below-drop (base d) _ a ka);
        }
    newton-Holds false na min le =
        let (vq, lq, bq, vp, lp, bp) =
          span.newt_div-value (mul_callback d x) a b mul_callback-IsProduct ka kb na nb min le
            pos in
        let p = (x.newt_div (mul_callback d x) a b).0 in
        let fits : length p ≤ length a = omega (arith, lp) in
        let size = laws.length-sub_raw a p fits in
        let lt = eval-lt (base d) (d.sub_raw a p).0 (laws.Below-sub_raw a p fits ka bp) in
        let whole = div-add-mod (eval (base d) a) (eval (base d) b) in
        record {
          value = rw (take-all (length a) (d.sub_raw a p).0 (omega (arith, size))) (
              remainder _ _ _ _ _ _ _ _ (laws.eval-sub_raw a p fits ka bp) vp whole
                (omega (arith, lt, ap (λ (t : ℕ). base d ^ t) size)));
          size = size;
          count = omega arith;
          below = laws.Below-sub_raw a p fits ka bp;
        }

    divide-Holds :
        (q : Bool)
        → IsNormalized a
        → Holds d a (result q (eval (base d) a) (eval (base d) b)) (divide d x a b q)
    unfolding divide
    divide-Holds q na = elim (Bool-cases (ltb (length a) (length b))) [
      | inl e ↦ rw e (basecase-Holds q)
      | inr e ↦ elim (Bool-cases (ltb (min (length a - length b + 1) (length b)) 75)) [
        | inl f ↦ rw (e, f) (basecase-Holds q)
        | inr f ↦ elim (Bool-cases (ltb (length b) x.newt_min)) [
          | inl g ↦ rw (e, f, g) (basecase-Holds q)
          | inr g ↦ rw (e, f, g) (newton-Holds q na (ground arith) (ground arith))
        ]
      ]
    ]

  -- The quotient or the remainder of any spans of digits, the divisor not zero.
  pub quotient_or_remainder-Holds :
      (a b : List ℕ) (q : Bool)
      → Below (base d) a
      → Below (base d) b
      → 0 < eval (base d) b
      → Holds d a (result q (eval (base d) a) (eval (base d) b)) (quotient_or_remainder d x a b q)
  unfolding quotient_or_remainder
  quotient_or_remainder-Holds a b q ka kb pos =
      let n = d.normalize_n a in
      let va = laws.normalize_n-eval a in
      let vb = laws.normalize_n-eval b in
      let r = divide d x (take n a) (take (d.normalize_n b) b) q in
      let held =
        divide-Holds (take n a) (take (d.normalize_n b) b) (Below-take (base d) n a ka)
          (Below-take (base d) (d.normalize_n b) b kb) (laws.normalize_n-IsNormalized b) (rw vb pos)
          q (laws.normalize_n-IsNormalized a) in
      let fits = laws.normalize_n-le a in
      let whole : length (take n a) ≡ n = omega (arith, length-take n a) in
      record {
        value =
            ap (eval (base d))
              (take-append_left r.1 r.0 (drop n a) (omega (arith, held.count, held.size)))
            ∙ held.value
            ∙ ap₂ (result q) va vb;
        size = omega (arith, length-append r.0 (drop n a), held.size, length-drop n a, whole);
        count = omega (arith, held.count, whole, fits);
        below = Below-append (base d) r.0 (drop n a) held.below (Below-drop (base d) n a ka);
      }
