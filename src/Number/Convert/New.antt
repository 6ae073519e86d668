-- ===== src/Number/Convert/New.antt =====
-- number.c: number_new_from_zu, both of its ways.
use mathlib.Core.Option
use native.Mathlib.Nat.{div-add-mod, mod-lt, pow-suc, mul-le-mul_right}
use calx.Base.{
  ℕ, zero, suc, ◌+◌, ◌*◌, ◌/◌, ◌%◌, ◌^◌, ◌≤◌, ◌<◌, ◌≡◌, refl, sym, ap, inl, inr, true, false,
  Option, none, some, List, [], ◌∷◌, ltb, ◌==◌, Bool-cases, arith, ltb→lt,
}
use calx.Number.Convert.Defs.{fill_buffer, push_words, number_new_from_zu, size_mod}
use calx.Number.Deci.{Deci, base, DeciLaws}
use calx.Number.Defs.{Number, IsValid, allocate}
use calx.Number.Words.{eval, Below, IsNormalized, pow_zero, pow_pos}

pub ten_le_pow : (n : ℕ) → 0 < n → 10 ≤ 10 ^ n
ten_le_pow zero h = absurd (omega arith)
ten_le_pow (suc n) h = rw pow-suc (omega (arith, pow_pos 10 n (omega arith)))

is_zero : (x : ℕ) → (x == 0) ≡ true → x ≡ 0
is_zero x h = ground arith

is_pos : (x : ℕ) → (x == 0) ≡ false → 0 < x
is_pos x h = ground arith

-- dividing by ten or more at least halves
halves : (x b p q r : ℕ) → 10 ≤ b → x < p * 2 → b * q + r ≡ x → q < p
halves x b p q r h lt e = elim (Bool-cases (ltb q p)) [
  | inl y ↦ ltb→lt q p y
  | inr n ↦ let le : p ≤ q = ground arith in absurd (omega (arith, mul-le-mul_right q h))
]

shrinks : (x b p : ℕ) → 10 ≤ b → x < p * 2 → x / b < p
shrinks x b p h lt = halves x b p (x / b) (x % b) h lt (div-add-mod x b)

module _ (d : Deci) (laws : DeciLaws d) where
  -- the words of a number, without leading zeros
  pub record Digits (x : ℕ) (ws : List ℕ) : Type 0 where
    pub value : eval (base d) ws ≡ x
    pub below : Below (base d) ws
    pub normalized : IsNormalized ws

  ten_le_base : 10 ≤ base d
  ten_le_base = ten_le_pow d.base_log laws.base_log_pos

  Digits-nil : (x : ℕ) → x ≡ 0 → Digits x []
  Digits-nil x h = record { value = sym h; below = tt; normalized = tt }

  Digits-cons : (x : ℕ) (ws : List ℕ) → 0 < x → Digits (x / base d) ws → Digits x (x % base d ∷ ws)
  Digits-cons x [] pos h = record {
    value = omega (arith, div-add-mod x (base d), ap (λ (t : ℕ). base d * t) h.value);
    below = (mod-lt x (omega (arith, ten_le_base)), tt);
    normalized = omega (arith, div-add-mod x (base d), ap (λ (t : ℕ). base d * t) h.value);
  }
  Digits-cons x (w ∷ ws) pos h = record {
    value = omega (arith, div-add-mod x (base d), ap (λ (t : ℕ). base d * t) h.value);
    below = (mod-lt x (omega (arith, ten_le_base)), h.below);
    normalized = h.normalized;
  }

  -- what is stored, if anything is, are the digits
  Stores : ℕ → Option (List ℕ) → Type 0
  Stores x none = Unit
  Stores x (some ws) = Digits x ws

  Stores-cons :
      (x : ℕ) (o : Option (List ℕ))
      → 0 < x
      → Stores (x / base d) o
      → Stores x (Option.map (λ ws. x % base d ∷ ws) o)
  unfolding Stores
  Stores-cons x none pos h = tt
  Stores-cons x (some ws) pos h = Digits-cons x ws pos h

  fill_buffer-Stores : (room y : ℕ) → Stores y (fill_buffer d room y)
  unfolding fill_buffer Stores
  fill_buffer-Stores zero y = elim (Bool-cases (y == 0)) [
    | inl z ↦ rw z (Digits-nil y (is_zero y z))
    | inr p ↦ rw p tt
  ]
  fill_buffer-Stores (suc room) y = elim (Bool-cases (y == 0)) [
    | inl z ↦ rw z (Digits-nil y (is_zero y z))
    | inr p ↦ elim (Bool-cases (ltb y (base d))) [
      | inl q ↦
          let lt = ltb→lt y (base d) q in
          rw (p, q) (record { value = omega arith; below = (lt, tt); normalized = is_pos y p })
      | inr q ↦ rw (p, q) (Stores-cons y _ (is_pos y p) (fill_buffer-Stores room (y / base d)))
    ]
  ]

  push_round :
      (fuel x : ℕ) (ws : List ℕ)
      → (x == 0) ≡ false
      → push_words d fuel (x / base d) ≡ some ws
      → push_words d (suc fuel) x ≡ some (x % base d ∷ ws)
  unfolding push_words
  push_round fuel x ws p e = rw (p, e)

  push_words-Digits :
      (fuel x : ℕ)
      → x < 2 ^ fuel
      → (ws : List ℕ) × (push_words d (suc fuel) x ≡ some ws) × Digits x ws
  push_words-Digits zero x h =
      let z : x ≡ 0 = omega (arith, pow_zero 2) in ([], unfold push_words in rw z, Digits-nil x z)
  push_words-Digits (suc fuel) x h = elim (Bool-cases (x == 0)) [
    | inl z ↦ ([], unfold push_words in rw z, Digits-nil x (is_zero x z))
    | inr p ↦
        let (ws, e, g) =
          push_words-Digits fuel (x / base d)
            (shrinks x (base d) (2 ^ fuel) ten_le_base (rw pow-suc at h)) in
        (x % base d ∷ ws, push_round (suc fuel) x ws p e, Digits-cons x ws (is_pos x p) g)
  ]

  -- The new number is the argument, for every size_t, and meets the invariants of number.h.
  pub number_new_from_zu-value :
      (x : ℕ)
      → x < size_mod
      → (a : Number) × (number_new_from_zu d x ≡ some a)
        × IsValid d a
        × (a.sign ≡ false)
        × (a.scale ≡ 0)
        × (eval (base d) a.words ≡ x)
  unfolding number_new_from_zu allocate Stores
  number_new_from_zu-value x h = chosen (fill_buffer d 4 x) (fill_buffer-Stores 4 x)
    where
      made : (ws : List ℕ) → Digits x ws → IsValid d (allocate false ws 0)
      made ws g = record { scale_fits = omega arith; normalized = g.normalized; below = g.below }

      chosen :
          (o : Option (List ℕ))
          → Stores x o
          → (a : Number) × (elim o [
            | some words ↦ some (allocate false words 0)
            | none ↦ Option.map (λ words. allocate false words 0) (push_words d 65 x)
          ]
              ≡ some a)
            × IsValid d a
            × (a.sign ≡ false)
            × (a.scale ≡ 0)
            × (eval (base d) a.words ≡ x)
      chosen (some ws) g = (allocate false ws 0, refl, made ws g, refl, refl, g.value)
      chosen none g =
          let (ws, e, g') = push_words-Digits 64 x h in
          (allocate false ws 0, rw e, made ws g', refl, refl, g'.value)
