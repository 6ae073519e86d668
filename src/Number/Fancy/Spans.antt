-- ===== src/Number/Fancy/Spans.antt =====
-- What fancy.c and number.c call of libdeci and of its companions for long spans (libdeci-kara,
-- libdeci-ntt and libdeci-newt, git submodules too), with what their documentation promises.
use calx.Base.{ℕ, ◌+◌, ◌-◌, ◌*◌, ◌/◌, ◌%◌, ◌^◌, ◌≤◌, ◌<◌, ◌≡◌, List, length, take}
use calx.Number.Deci.{Deci, base}
use calx.Number.Words.{eval, Below, IsNormalized}

pub record SpanOps : Type 0 where
  -- deci_mul (into a span of zeros), decikara_mul, decintt_mul and decintt_sqr
  pub mul : List ℕ → List ℕ → List ℕ
  pub kara_mul : List ℕ → List ℕ → List ℕ
  pub ntt_mul : List ℕ → List ℕ → List ℕ
  pub ntt_sqr : List ℕ → List ℕ
  -- deci_div and deci_mod: the first span, and how many words of it the result has
  pub div : List ℕ → List ℕ → List ℕ × ℕ
  pub mod_ : List ℕ → List ℕ → List ℕ × ℕ
  -- DECINEWT_MIN, and decinewt_div with the multiplication it calls: what it leaves in the scratch
  -- span, the product of the quotient and the divisor (as many words as the dividend) and the quotient
  pub newt_min : ℕ
  pub newt_div : (List ℕ → List ℕ → List ℕ) → List ℕ → List ℕ → List ℕ × List ℕ
  -- deci_divmod_uword: the quotient in place, and the remainder
  pub divmod_uword : List ℕ → ℕ → List ℕ × ℕ

-- a span that holds a product
pub record IsProduct (d : Deci) (a b w : List ℕ) : Type 0 where
  pub value : eval (base d) w ≡ eval (base d) a * eval (base d) b
  pub size : length w ≡ length a + length b
  pub below : Below (base d) w

-- a span like the dividend, whose first words hold a value
pub record Holds (d : Deci) (a : List ℕ) (v : ℕ) (r : List ℕ × ℕ) : Type 0 where
  pub value : eval (base d) (take r.1 r.0) ≡ v
  pub size : length r.0 ≡ length a
  pub count : r.1 ≤ length a
  pub below : Below (base d) r.0

pub record SpanLaws (d : Deci) (x : SpanOps) : Type 0 where
  pub skip0_n-le : (ws : List ℕ) → d.skip0_n ws ≤ length ws
  pub skip0_n-eval : (ws : List ℕ) → eval (base d) (take (d.skip0_n ws) ws) ≡ 0
  pub mul-IsProduct :
      (a b : List ℕ) → Below (base d) a → Below (base d) b → IsProduct d a b (x.mul a b)
  pub kara_mul-IsProduct :
      (a b : List ℕ) → Below (base d) a → Below (base d) b → IsProduct d a b (x.kara_mul a b)
  pub ntt_mul-IsProduct :
      (a b : List ℕ) → Below (base d) a → Below (base d) b → IsProduct d a b (x.ntt_mul a b)
  pub ntt_sqr-IsProduct : (a : List ℕ) → Below (base d) a → IsProduct d a a (x.ntt_sqr a)
  pub div-Holds :
      (a b : List ℕ)
      → Below (base d) a
      → Below (base d) b
      → IsNormalized b
      → 0 < eval (base d) b
      → Holds d a (eval (base d) a / eval (base d) b) (x.div a b)
  pub mod-Holds :
      (a b : List ℕ)
      → Below (base d) a
      → Below (base d) b
      → IsNormalized b
      → 0 < eval (base d) b
      → Holds d a (eval (base d) a % eval (base d) b) (x.mod_ a b)
  -- given a multiplication that is right, on normalized spans that are long enough
  pub newt_div-value :
      (mul : List ℕ → List ℕ → List ℕ) (a b : List ℕ)
      → ((u v : List ℕ) → Below (base d) u → Below (base d) v → IsProduct d u v (mul u v))
      → Below (base d) a
      → Below (base d) b
      → IsNormalized a
      → IsNormalized b
      → x.newt_min ≤ length b
      → length b ≤ length a
      → 0 < eval (base d) b
      → (eval (base d) (x.newt_div mul a b).1 ≡ eval (base d) a / eval (base d) b)
        × (length (x.newt_div mul a b).1 ≡ length a - length b + 1)
        × Below (base d) (x.newt_div mul a b).1
        × (eval (base d) (x.newt_div mul a b).0
            ≡ eval (base d) a / eval (base d) b * eval (base d) b)
        × (length (x.newt_div mul a b).0 ≡ length a)
        × Below (base d) (x.newt_div mul a b).0
  pub divmod_uword-value :
      (a : List ℕ) (w : ℕ)
      → Below (base d) a
      → 0 < w
      → w < base d
      → (eval (base d) (x.divmod_uword a w).0 ≡ eval (base d) a / w)
        × ((x.divmod_uword a w).1 ≡ eval (base d) a % w)
        × (length (x.divmod_uword a w).0 ≡ length a)
        × Below (base d) (x.divmod_uword a w).0
  -- deci_mul_uword
  pub mul_uword-value :
      (a : List ℕ) (w : ℕ)
      → Below (base d) a
      → w < base d
      → (eval (base d) (d.mul_uword a w).0 + (d.mul_uword a w).1 * base d ^ length a
          ≡ eval (base d) a * w)
        × (length (d.mul_uword a w).0 ≡ length a)
        × Below (base d) (d.mul_uword a w).0
        × ((d.mul_uword a w).1 < base d)
