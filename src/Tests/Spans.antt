-- ===== src/Tests/Spans.antt =====
-- A decimal instance of the operations on long spans, one digit a word, with its laws.
use native.Mathlib.Nat.{
  mod-add-div', div-lt_iff_lt-mul, div-mul-le_self, mul-le-mul, mul-le-mul_left, div-le_self,
  mod-le,
}
use calx.Base.{
  ℕ, suc, ◌+◌, ◌-◌, ◌*◌, ◌/◌, ◌%◌, ◌^◌, ◌≤◌, ◌<◌, ◌≡◌, refl, ap, ◌∙◌, inl, inr, List, [], ◌∷◌, ◌==◌,
  ==_iff, Bool-cases, arith, length, take, take-all,
}
use calx.Number.Fancy.Spans.{SpanOps, SpanLaws, IsProduct, Holds}
use calx.Number.Words.{eval, Below, IsNormalized, pow_pos, IsNormalized-le, eval-lt, pow-add}
use calx.Tests.Decimal.{
  decimal, digits, length-digits, Below-digits, eval-digits, eval-digits_mod, skip0_n,
}

lt_product : (a b p q : ℕ) → a < p → b < q → a * b < p * q
lt_product a b p q h k = omega (arith, mul-le-mul h k)

product : List ℕ → List ℕ → List ℕ
product a b = digits (length a + length b) (eval 10 a * eval 10 b)

unfoldable pub decimal_spans : SpanOps
unfolding product digits
decimal_spans = record {
  mul = product;
  kara_mul = product;
  ntt_mul = product;
  ntt_sqr = λ a. product a a;
  div = λ a b. (digits (length a) (eval 10 a / eval 10 b), length a);
  mod_ = λ a b. (digits (length a) (eval 10 a % eval 10 b), length a);
  newt_min = 2;
  newt_div = λ mul a b. (
    digits (length a) (eval 10 a / eval 10 b * eval 10 b),
    digits (length a - length b + 1) (eval 10 a / eval 10 b),
  );
  divmod_uword = λ a w. (digits (length a) (eval 10 a / w), eval 10 a % w);
}

product-IsProduct : (a b : List ℕ) → Below 10 a → Below 10 b → IsProduct decimal a b (product a b)
unfolding product decimal
product-IsProduct a b ka kb =
    let lt_a = eval-lt 10 a ka in
    let lt_b = eval-lt 10 b kb in
    let fits : eval 10 a * eval 10 b < 10 ^ (length a + length b) =
      rw (pow-add 10 (length a) (length b)) (lt_product _ _ _ _ lt_a lt_b) in
    record {
      value = eval-digits (length a + length b) _ fits;
      size = length-digits _ _;
      below = Below-digits _ _;
    }

whole-Holds :
    (a : List ℕ) (v : ℕ) → v < 10 ^ length a → Holds decimal a v (digits (length a) v, length a)
unfolding decimal
whole-Holds a v lt =
    let size = length-digits (length a) v in
    record {
      value =
          ap (eval 10) (take-all (length a) (digits (length a) v) (omega (arith, size)))
          ∙ eval-digits (length a) v lt;
      size = size;
      count = omega arith;
      below = Below-digits (length a) v;
    }

skip-le : (ws : List ℕ) → skip0_n ws ≤ length ws
unfolding skip0_n
skip-le [] = omega arith
skip-le (w ∷ ws) = let h = skip-le ws in ground arith

skip-eval : (ws : List ℕ) → eval 10 (take (skip0_n ws) ws) ≡ 0
unfolding skip0_n
skip-eval [] = refl
skip-eval (w ∷ ws) = elim (Bool-cases (w == 0)) [
  | inl z ↦ rw z (omega (arith, (==_iff w 0).0 z, skip-eval ws))
  | inr z ↦ rw z refl
]

quotient_small : (a b : List ℕ) → Below 10 a → eval 10 a / eval 10 b < 10 ^ length a
quotient_small a b h = omega (arith, eval-lt 10 a h, div-le_self (eval 10 a) (eval 10 b))

quotient_words :
    (a b : List ℕ)
    → Below 10 a
    → IsNormalized b
    → 0 < eval 10 b
    → length b ≤ length a
    → eval 10 a / eval 10 b < 10 ^ (length a - length b + 1)
quotient_words a [] h n pos le = absurd (omega arith)
quotient_words a (w ∷ ws) h n pos le =
    let top = IsNormalized-le 10 w ws (omega arith) n in
    let k = length a - suc (length ws) + 1 in
    let all : 10 ^ length a ≡ 10 ^ k * 10 ^ length ws =
      ap (λ (t : ℕ). 10 ^ t) (omega (arith, le)) ∙ pow-add 10 k (length ws) in
    (div-lt_iff_lt-mul pos).1 (omega (arith, eval-lt 10 a h, all, mul-le-mul_left (10 ^ k) top))

pub decimal_span_laws : SpanLaws decimal decimal_spans
unfolding decimal decimal_spans
decimal_span_laws = record {
  skip0_n-le = skip-le;
  skip0_n-eval = skip-eval;
  mul-IsProduct = product-IsProduct;
  kara_mul-IsProduct = product-IsProduct;
  ntt_mul-IsProduct = product-IsProduct;
  ntt_sqr-IsProduct = λ a h. product-IsProduct a a h h;
  div-Holds = λ a b h k n pos. whole-Holds a _ (quotient_small a b h);
  mod-Holds = λ a b h k n pos.
      whole-Holds a _ (omega (arith, eval-lt 10 a h, mod-le (eval 10 a) (eval 10 b)));
  newt_div-value = λ mul a b good ka kb na nb m le pos. (
    eval-digits (length a - length b + 1) _ (quotient_words a b ka nb pos le),
    length-digits _ _,
    Below-digits _ _,
    eval-digits (length a) _
        (omega (arith, eval-lt 10 a ka, div-mul-le_self (eval 10 a) (eval 10 b))),
    length-digits _ _,
    Below-digits _ _,
  );
  divmod_uword-value = λ a w h pos lt. (
    eval-digits (length a) _ (omega (arith, eval-lt 10 a h, div-le_self (eval 10 a) w)),
    refl,
    length-digits _ _,
    Below-digits _ _,
  );
  mul_uword-value = λ a w h lt. (
    rw eval-digits_mod (mod-add-div' _ _),
    length-digits _ _,
    Below-digits _ _,
    (div-lt_iff_lt-mul (pow_pos 10 (length a) (omega arith))).1
        (omega (arith, lt_product _ _ _ _ (eval-lt 10 a h) lt)),
  );
}
