-- ===== src/Number/Words.antt =====
-- The natural number that a span of words stands for, and its laws.
use native.Mathlib.Nat.{pow-zero, pow-suc}
use calx.Base.{
  ℕ, zero, suc, ◌+◌, ◌*◌, ◌^◌, ◌≤◌, ◌<◌, ◌≡◌, refl, sym, ap, ◌∙◌, List, [], ◌∷◌, ◌++◌, arith,
  length, take, drop, replicate,
}

abbrev pub eval : ℕ → List ℕ → ℕ
eval base [] = 0
eval base (w ∷ ws) = w + base * eval base ws

-- every word is a digit of the base
abbrev pub Below : ℕ → List ℕ → Type 0
Below base [] = Unit
Below base (w ∷ ws) = (w < base) × Below base ws

-- the most significant word, if there is one, is not zero
abbrev pub IsNormalized : List ℕ → Type 0
IsNormalized [] = Unit
IsNormalized (w ∷ []) = 0 < w
IsNormalized (w ∷ v ∷ ws) = IsNormalized (v ∷ ws)

pub pow_zero : (b : ℕ) → b ^ 0 ≡ 1
pow_zero b = pow-zero b

pub mul-pow_zero : (b x : ℕ) → x * b ^ 0 ≡ x
mul-pow_zero b x = rw (pow_zero b) (omega arith)

pub pow-add : (b n m : ℕ) → b ^ (n + m) ≡ b ^ n * b ^ m
pow-add b zero m =
    let e : 0 + m ≡ m = omega arith in
    rw e (omega (arith, pow_zero b, ap (λ (t : ℕ). t * b ^ m) (pow_zero b)))
pow-add b (suc n) m =
    let e : suc n + m ≡ suc (n + m) = omega arith in
    rw (e, pow-suc b (n + m), pow-suc b n, pow-add b n m) (omega arith)

pub pow-mul : (b n m : ℕ) → b ^ (n * m) ≡ (b ^ n) ^ m
pow-mul b n zero = let e : n * 0 ≡ 0 = omega arith in rw e (pow_zero b ∙ sym (pow_zero (b ^ n)))
pow-mul b n (suc m) =
    let e : n * suc m ≡ n * m + n = omega arith in
    rw (e, pow-add b (n * m) n, pow-suc (b ^ n) m, pow-mul b n m) refl

pub pow_pos : (b n : ℕ) → 0 < b → 0 < b ^ n
pow_pos b zero h = omega (arith, pow_zero b)
pow_pos b (suc n) h = rw pow-suc (grind (arith, pow_pos b n h))

pub eval-append :
    (b : ℕ) (xs ys : List ℕ) → eval b (xs ++ ys) ≡ eval b xs + b ^ length xs * eval b ys
eval-append b [] ys = omega (arith, ap (λ (t : ℕ). t * eval b ys) (pow_zero b))
eval-append b (x ∷ xs) ys = rw (pow-suc b (length xs), eval-append b xs ys) (omega arith)

pub eval-zeros : (b n : ℕ) → eval b (replicate n 0) ≡ 0
eval-zeros b zero = refl
eval-zeros b (suc n) = rw (eval-zeros b n) (omega arith)

pub eval-lt : (b : ℕ) (xs : List ℕ) → Below b xs → eval b xs < b ^ length xs
eval-lt b [] h = omega (arith, pow_zero b)
eval-lt b (x ∷ xs) h = rw (pow-suc b (length xs)) (grind (arith, eval-lt b xs h.1))

pub Below-append : (b : ℕ) (xs ys : List ℕ) → Below b xs → Below b ys → Below b (xs ++ ys)
Below-append b [] ys h k = k
Below-append b (x ∷ xs) ys h k = (h.0, Below-append b xs ys h.1 k)

pub Below-zeros : (b n : ℕ) → 0 < b → Below b (replicate n 0)
Below-zeros b zero h = tt
Below-zeros b (suc n) h = (h, Below-zeros b n h)

pub Below-take : (b n : ℕ) (xs : List ℕ) → Below b xs → Below b (take n xs)
Below-take b zero xs h = tt
Below-take b (suc n) [] h = tt
Below-take b (suc n) (x ∷ xs) h = (h.0, Below-take b n xs h.1)

pub Below-drop : (b n : ℕ) (xs : List ℕ) → Below b xs → Below b (drop n xs)
Below-drop b zero xs h = h
Below-drop b (suc n) [] h = tt
Below-drop b (suc n) (x ∷ xs) h = Below-drop b n xs h.1

shift_le : (b x p e : ℕ) → p ≤ e → p * b ≤ x + b * e
shift_le b x p e h = grind arith

-- a top word that is not zero, by the value
pub IsNormalized-le :
    (b : ℕ) (x : ℕ) (xs : List ℕ) → 0 < b → IsNormalized (x ∷ xs) → b ^ length xs ≤ eval b (x ∷ xs)
IsNormalized-le b x [] pos h = omega (arith, pow_zero b)
IsNormalized-le b x (y ∷ ys) pos h =
    rw (pow-suc b (length ys)) (shift_le b x _ _ (IsNormalized-le b y ys pos h))

le_of_shifted : (b x p e : ℕ) → x < b → p * b ≤ x + b * e → p ≤ e
le_of_shifted b x p e h le = grind arith

pub le-IsNormalized :
    (b : ℕ) (x : ℕ) (xs : List ℕ)
    → Below b (x ∷ xs)
    → b ^ length xs ≤ eval b (x ∷ xs)
    → IsNormalized (x ∷ xs)
le-IsNormalized b x [] h le = omega (arith, pow_zero b, h.0)
le-IsNormalized b x (y ∷ ys) h le =
    le-IsNormalized b y ys h.1
      (le_of_shifted b x (b ^ length ys) _ h.0 (rw (← pow-suc b (length ys)) le))
