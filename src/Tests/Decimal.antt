-- ===== src/Tests/Decimal.antt =====
-- A decimal instance of the parameter that stands for libdeci, one digit a word, with its laws.
use native.Mathlib.Nat.{mod-lt, mod-eq_of_lt, mod-eq-sub-mod, div-add-mod, pow-suc, mul-le-mul_left}
use calx.Base.{
  ℕ, zero, suc, ◌+◌, ◌-◌, ◌*◌, ◌/◌, ◌%◌, ◌^◌, ◌≤◌, ◌<◌, ◌≡◌, refl, sym, ap, ◌∙◌, inl, inr, List, [],
  ◌∷◌, ltb, leb, ◌==◌, ==_iff, if◌then◌else◌, Bool-cases, arith, length, take, length-take, ◌⊎◌,
}
use calx.Number.Deci.{Deci, bit, DeciLaws}
use calx.Number.Words.{eval, Below, IsNormalized, pow_zero, pow_pos, eval-lt, pow-add}

-- the lowest n digits
unfoldable pub digits : ℕ → ℕ → List ℕ
digits zero v = []
digits (suc n) v = v % 10 ∷ digits n (v / 10)

pub length-digits : (n v : ℕ) → length (digits n v) ≡ n
unfolding digits
length-digits zero v = refl
length-digits (suc n) v = ap suc (length-digits n (v / 10))

pub Below-digits : (n v : ℕ) → Below 10 (digits n v)
unfolding digits
Below-digits zero v = tt
Below-digits (suc n) v = (mod-lt v (omega arith), Below-digits n (v / 10))

pub eval-digits : (n v : ℕ) → v < 10 ^ n → eval 10 (digits n v) ≡ v
unfolding digits
eval-digits zero v h = omega (arith, pow_zero 10)
eval-digits (suc n) v h =
    let lt : v / 10 < 10 ^ n = omega (arith, pow-suc 10 n, div-add-mod v 10) in
    omega (arith, eval-digits n (v / 10) lt, div-add-mod v 10)

-- the words up to the last that is not zero, and the zero words at the start
normalize_n : List ℕ → ℕ
normalize_n [] = 0
normalize_n (w ∷ ws) = let n = normalize_n ws in if n == 0 then (if w == 0 then 0 else 1) else suc n

unfoldable pub skip0_n : List ℕ → ℕ
skip0_n [] = 0
skip0_n (w ∷ ws) = let n = skip0_n ws in if w == 0 then suc n else 0

unfoldable pub decimal : Deci
unfolding digits normalize_n skip0_n
decimal = record {
  base_log = 1;
  normalize_n = normalize_n;
  skip0_n = skip0_n;
  is_zero_n = λ ws. eval 10 ws == 0;
  add = λ a b. (
    digits (length a) ((eval 10 a + eval 10 b) % 10 ^ length a),
    leb (10 ^ length a) (eval 10 a + eval 10 b),
  );
  sub_raw = λ a b. (
    digits (length a) ((eval 10 a + (10 ^ length a - eval 10 b)) % 10 ^ length a),
    ltb (eval 10 a) (eval 10 b),
  );
  uncomplement = λ a. digits (length a) ((10 ^ length a - eval 10 a) % 10 ^ length a);
  mul_uword =
      λ a w. (digits (length a) (eval 10 a * w % 10 ^ length a), eval 10 a * w / 10 ^ length a);
}

carry : (v p : ℕ) → 0 < p → v < p + p → v % p + bit (leb p v) * p ≡ v
carry v p pos h = elim (Bool-cases (leb p v)) [
  | inl e ↦
      let le : p ≤ v = ground arith in
      rw (e, mod-eq-sub-mod le) (omega (arith, mod-eq_of_lt {n = v - p} {m = p} (omega arith)))
  | inr e ↦ rw e (omega (arith, mod-eq_of_lt {n = v} {m = p} (ground arith)))
]

borrow : (a b p : ℕ) → a < p → b < p → (a + (p - b)) % p + b ≡ a + bit (ltb a b) * p
borrow a b p h k = elim (Bool-cases (ltb a b)) [
  | inl e ↦
      let lt : a < b = ground arith in
      rw e (omega (arith, mod-eq_of_lt {n = a + (p - b)} {m = p} (omega arith)))
  | inr e ↦
      let le : b ≤ a = ground arith in
      rw (e, mod-eq-sub-mod {n = a + (p - b)} {m = p} (omega arith))
        (omega (arith, mod-eq_of_lt {n = a + (p - b) - p} {m = p} (omega arith)))
]

mod_pos : (v n : ℕ) → v % 10 ^ n < 10 ^ n
mod_pos v n = mod-lt v (pow_pos 10 n (omega arith))

pub grow_power : (n m : ℕ) → n ≤ m → 10 ^ n ≤ 10 ^ m
grow_power n m h =
    let e : m ≡ n + (m - n) = omega arith in
    rw (ap (λ (t : ℕ). 10 ^ t) e ∙ pow-add 10 n (m - n))
      (omega (arith, mul-le-mul_left (10 ^ n) (pow_pos 10 (m - n) (omega arith))))

pub eval_le : (a b : List ℕ) → length b ≤ length a → Below 10 b → eval 10 b < 10 ^ length a
eval_le a b h k = omega (arith, eval-lt 10 b k, grow_power (length b) (length a) h)

pub eval-digits_mod : (n v : ℕ) → eval 10 (digits n (v % 10 ^ n)) ≡ v % 10 ^ n
eval-digits_mod n v = eval-digits n _ (mod_pos v n)

sum_law :
    (a b : List ℕ) (n : ℕ)
    → eval 10 a < 10 ^ n
    → eval 10 b < 10 ^ n
    → eval 10 (digits n ((eval 10 a + eval 10 b) % 10 ^ n))
        + bit (leb (10 ^ n) (eval 10 a + eval 10 b)) * 10 ^ n
      ≡ eval 10 a + eval 10 b
sum_law a b n h k = rw eval-digits_mod (carry _ _ (pow_pos 10 n (omega arith)) (omega arith))

difference_law :
    (a b : List ℕ) (n : ℕ)
    → eval 10 a < 10 ^ n
    → eval 10 b < 10 ^ n
    → eval 10 (digits n ((eval 10 a + (10 ^ n - eval 10 b)) % 10 ^ n)) + eval 10 b
      ≡ eval 10 a + bit (ltb (eval 10 a) (eval 10 b)) * 10 ^ n
difference_law a b n h k = rw eval-digits_mod (borrow _ _ _ h k)

complement_law :
    (a : List ℕ) (n : ℕ)
    → eval 10 a < 10 ^ n
    → 0 < eval 10 a
    → eval 10 (digits n ((10 ^ n - eval 10 a) % 10 ^ n)) + eval 10 a ≡ 10 ^ n
complement_law a n h k =
    rw eval-digits_mod
      (omega (arith, mod-eq_of_lt {n = 10 ^ n - eval 10 a} {m = 10 ^ n} (omega arith)))

norm-le : (ws : List ℕ) → normalize_n ws ≤ length ws
unfolding normalize_n
norm-le [] = omega arith
norm-le (w ∷ ws) = let h = norm-le ws in ground arith

abbrev Cases : ℕ → List ℕ → Type 0
Cases w ws =
    ((normalize_n ws ≡ 0) × (w ≡ 0) × (normalize_n (w ∷ ws) ≡ 0))
    ⊎ ((normalize_n ws ≡ 0) × (0 < w) × (normalize_n (w ∷ ws) ≡ 1))
    ⊎ ((0 < normalize_n ws) × (normalize_n (w ∷ ws) ≡ suc (normalize_n ws)))

cases : (w : ℕ) (ws : List ℕ) → Cases w ws
unfolding normalize_n
cases w ws = ground arith

norm-eval : (ws : List ℕ) → eval 10 (take (normalize_n ws) ws) ≡ eval 10 ws
norm-eval [] = unfold normalize_n in refl
norm-eval (w ∷ ws) =
    let ih = norm-eval ws in
    elim (cases w ws) [
      | inl (e, z, f) ↦ rw f (omega (arith, sym (ap (λ (t : ℕ). eval 10 (take t ws)) e) ∙ ih))
      | inr (inl (e, z, f)) ↦ rw f (omega (arith, sym (ap (λ (t : ℕ). eval 10 (take t ws)) e) ∙ ih))
      | inr (inr (p, f)) ↦ rw f (omega (arith, ih))
    ]

IsNormalized-cons : (w : ℕ) (xs : List ℕ) → 0 < length xs → IsNormalized xs → IsNormalized (w ∷ xs)
IsNormalized-cons w [] h n = absurd (omega arith)
IsNormalized-cons w (x ∷ xs) h n = n

norm-IsNormalized : (ws : List ℕ) → IsNormalized (take (normalize_n ws) ws)
norm-IsNormalized [] = unfold normalize_n in tt
norm-IsNormalized (w ∷ ws) = elim (cases w ws) [
  | inl (e, z, f) ↦ rw f tt
  | inr (inl (e, z, f)) ↦ rw f z
  | inr (inr (p, f)) ↦ rw f (
      IsNormalized-cons w (take (normalize_n ws) ws) (rw length-take (omega (arith, norm-le ws)))
        (norm-IsNormalized ws))
]

pub decimal_laws : DeciLaws decimal
unfolding decimal
decimal_laws = record {
  base_log_pos = omega arith;
  normalize_n-le = norm-le;
  normalize_n-eval = norm-eval;
  normalize_n-IsNormalized = norm-IsNormalized;
  is_zero_n_iff = λ ws. ==_iff (eval 10 ws) 0;
  length-add = λ a b h. length-digits _ _;
  Below-add = λ a b h k l. Below-digits _ _;
  eval-add = λ a b h k l. sum_law a b _ (eval-lt 10 a k) (eval_le a b h l);
  length-sub_raw = λ a b h. length-digits _ _;
  Below-sub_raw = λ a b h k l. Below-digits _ _;
  eval-sub_raw = λ a b h k l. difference_law a b _ (eval-lt 10 a k) (eval_le a b h l);
  length-uncomplement = λ a. length-digits _ _;
  Below-uncomplement = λ a h. Below-digits _ _;
  eval-uncomplement = λ a h k. complement_law a _ (eval-lt 10 a h) k;
}
