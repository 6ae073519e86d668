-- ===== src/Number/Round/Half.antt =====
-- number.c: number_round, by the most significant word of the fraction.
use native.Mathlib.Nat.{div-eq_of_lt-le, mul-le-mul_left, pow-suc}
use calx.Base.{
  ℕ, zero, suc, ◌+◌, ◌-◌, ◌*◌, ◌/◌, ◌^◌, ◌≤◌, ◌<◌, ◌≡◌, refl, sym, ap, ◌∙◌, inl, inr, false, not,
  ◌&&◌, List, [], ◌∷◌, arith, length, take, get_or, leb, leb→le, ◌==◌, Bool-cases, length-take,
}
use calx.Number.Deci.{Deci, base, bit, DeciLaws}
use calx.Number.Defs.{Number, IsValid, frac_part, int_part}
use calx.Number.Round.Defs.{number_round}
use calx.Number.Round.Parts.{whole, frac-lt, IsWhole, IsWhole-at}
use calx.Number.Round.Whole.{rounded, rounded-IsWhole}
use calx.Number.Words.{eval, Below, Below-take, pow_zero}

even_base : (n : ℕ) → 0 < n → 10 ^ n ≡ 10 ^ n / 2 + 10 ^ n / 2
even_base zero h = absurd (omega arith)
even_base (suc n) h = omega (arith, pow-suc 10 n)

get_or-take : (n : ℕ) (xs : List ℕ) → get_or (take (suc n) xs) n 0 ≡ get_or xs n 0
get_or-take zero [] = refl
get_or-take zero (x ∷ xs) = refl
get_or-take (suc n) [] = refl
get_or-take (suc n) (x ∷ xs) = get_or-take n xs

-- the words below the most significant one
top_split :
    (b n : ℕ) (ws : List ℕ)
    → length ws ≡ suc n
    → Below b ws
    → (low : ℕ) × (eval b ws ≡ low + b ^ n * get_or ws n 0) × (low < b ^ n)
top_split b zero (w ∷ []) e h =
    (0, omega (arith, ap (λ (t : ℕ). t * w) (pow_zero b)), omega (arith, pow_zero b))
top_split b zero (w ∷ v ∷ ws) e h = absurd (omega arith)
top_split b zero [] e h = absurd (omega arith)
top_split b (suc n) [] e h = absurd (omega arith)
top_split b (suc n) (w ∷ ws) e h =
    let (low, v, lt) = top_split b n ws (omega arith) h.1 in
    let below = h.0 in
    let le : b * suc low ≤ b * b ^ n = mul-le-mul_left b lt in
    (
      w + b * low,
      rw (pow-suc b n) (omega (arith, ap (λ (t : ℕ). b * t) v)),
      rw (pow-suc b n) (omega (arith, le, below)),
    )

-- the test of the top word is the test of the whole fraction
top_test : (h q low w : ℕ) → low < q → leb h w ≡ leb (h * q) (low + q * w)
top_test h q low w lt = elim (Bool-cases (leb h w)) [
  | inl e ↦ let le = mul-le-mul_left q (leb→le h w e) in rw e (ground (arith, le))
  | inr e ↦
      let more : suc w ≤ h = ground arith in
      let le = mul-le-mul_left q more in rw e (ground (arith, le))
]

half_up : (f h q m : ℕ) → m ≡ f + (h + h) * q → f < h + h → (m + h) / (h + h) ≡ q + bit (leb h f)
half_up f h q m e lt = elim (Bool-cases (leb h f)) [
  | inl z ↦
      let le = leb→le h f z in
      rw z (div-eq_of_lt-le {k = q + 1} (h + h) (omega arith) (omega arith))
  | inr z ↦
      let less : f < h = ground arith in
      rw z (div-eq_of_lt-le {k = q + 0} (h + h) (omega arith) (omega arith))
]

-- half of a power of the base
half_power : (b n : ℕ) → b ≡ b / 2 + b / 2 → b ^ suc n ≡ b / 2 * b ^ n + b / 2 * b ^ n
half_power b n e = pow-suc b n ∙ omega (arith, ap (λ (t : ℕ). b ^ n * t) e)

module _ (d : Deci) (laws : DeciLaws d) where
  by_scale :
      (s : ℕ) (a : Number)
      → a.scale ≡ s
      → IsValid d a
      → eval (base d) (int_part a)
          + bit (not (s == 0) && leb (base d / 2) (get_or a.words (s - 1) 0))
        ≡ (eval (base d) a.words + base d ^ s / 2) / base d ^ s
  by_scale zero a e v =
      let one : base d ^ a.scale ≡ 1 = ap (λ (t : ℕ). base d ^ t) e ∙ pow_zero (base d) in
      let parts = whole d laws a v.scale_fits in
      let none = frac-lt d laws a v in
      rw (pow_zero (base d))
        (omega (arith, one, parts, none, ap (λ (t : ℕ). t * eval (base d) (int_part a)) one))
  by_scale (suc n) a e v =
      let h = base d / 2 * base d ^ n in
      let w = get_or a.words n 0 in
      let pw : base d ^ suc n ≡ h + h =
        half_power (base d) n (even_base d.base_log laws.base_log_pos) in
      let p : base d ^ a.scale ≡ h + h = ap (λ (t : ℕ). base d ^ t) e ∙ pw in
      let size : length (frac_part a) ≡ suc n =
        omega (arith, length-take a.scale a.words, v.scale_fits, e) in
      let (low, value, lt) =
        top_split (base d) n (frac_part a) size (Below-take (base d) a.scale a.words v.below) in
      let word : get_or (frac_part a) n 0 ≡ w =
        ap (λ (t : ℕ). get_or (take t a.words) n 0) e ∙ get_or-take n a.words in
      let frac : eval (base d) (frac_part a) ≡ low + base d ^ n * w =
        value ∙ ap (λ (t : ℕ). low + base d ^ n * t) word in
      let test : leb (base d / 2) w ≡ leb h (eval (base d) (frac_part a)) =
        top_test (base d / 2) (base d ^ n) low w lt ∙ ap (λ (t : ℕ). leb h t) (sym frac) in
      let half : (h + h) / 2 ≡ h = omega arith in
      let index : suc n - 1 ≡ n = omega arith in
      let positive : (suc n == 0) ≡ false = ground arith in
      let sum =
        half_up (eval (base d) (frac_part a)) h (eval (base d) (int_part a)) (eval (base d) a.words)
          (whole d laws a v.scale_fits
            ∙ ap (λ (t : ℕ). eval (base d) (frac_part a) + t * eval (base d) (int_part a)) p)
          (omega (arith, frac-lt d laws a v, p)) in
      rw (index, positive, test, pw, half) (sym sum)

  -- A valid number that is rounded is valid, has the sign of the number and no fraction, and its
  -- magnitude is the magnitude plus half of the power of the base, divided by the power: the nearest
  -- integer, and the one further from zero where two are as near.
  pub number_round-IsWhole :
      (a : Number)
      → IsValid d a
      → IsWhole d
          ((eval (base d) a.words + base d ^ a.scale / 2) / base d ^ a.scale)
          a.sign
          (number_round d a)
  unfolding number_round rounded
  number_round-IsWhole a v = IsWhole-at d _ _ _ _ _ (by_scale a.scale a refl v) refl (
      rounded-IsWhole d laws
        (not (a.scale == 0) && leb (base d / 2) (get_or a.words (a.scale - 1) 0)) a v)
