-- ===== src/Number/Convert/Bits.antt =====
-- number.c: number_bit_shl and number_bit_lshr.
use native.Mathlib.Nat.{mod-lt, mul-mod_left, mul-le-mul_right, div-le_self, div-eq_of_lt}
use calx.Base.{
  ℕ, ◌+◌, ◌-◌, ◌*◌, ◌/◌, ◌%◌, ◌^◌, ◌≤◌, ◌<◌, ◌≡◌, refl, sym, ap, ◌∙◌, inl, inr, false, Option, some,
  ltb, if◌then◌else◌, Bool-cases, arith,
}
use calx.Number.Convert.Defs.{number_to_u32, number_bit_shl, number_bit_lshr, size_mod, u32_mod}
use calx.Number.Convert.New.{number_new_from_zu-value}
use calx.Number.Convert.Read.{number_to_u32-mod}
use calx.Number.Deci.{Deci, base, DeciLaws}
use calx.Number.Defs.{Number, IsValid}
use calx.Number.Words.{eval, pow-add, pow_pos}

far : (y : ℕ) → 32 ≤ y → 2 ^ y ≡ 2 ^ (y - 32) * u32_mod
far y h = let e : y ≡ (y - 32) + 32 = omega arith in ap (λ (t : ℕ). 2 ^ t) e ∙ pow-add 2 (y - 32) 32

guarded_shl : (x y : ℕ) → (if ltb y 32 then x * 2 ^ y % u32_mod else 0) ≡ x * 2 ^ y % u32_mod
guarded_shl x y = elim (Bool-cases (ltb y 32)) [
  | inl e ↦ rw e refl
  | inr e ↦
      let f : x * 2 ^ y ≡ x * 2 ^ (y - 32) * u32_mod =
        omega (arith, ap (λ (t : ℕ). x * t) (far y (ground arith))) in
      rw e (sym (ap (λ (t : ℕ). t % u32_mod) f ∙ mul-mod_left (x * 2 ^ (y - 32)) u32_mod))
]

guarded_lshr : (x y : ℕ) → x < u32_mod → (if ltb y 32 then x / 2 ^ y else 0) ≡ x / 2 ^ y
guarded_lshr x y h = elim (Bool-cases (ltb y 32)) [
  | inl e ↦ rw e refl
  | inr e ↦ rw e (
      sym (
        div-eq_of_lt (
          omega (
            arith,
            far y (ground arith),
            mul-le-mul_right u32_mod (pow_pos 2 (y - 32) (omega arith)),
          ))))
]

small : (x : ℕ) → x < u32_mod → x < size_mod
small x h = omega arith

lt_of_le : {m n p : ℕ} → m ≤ n → n < p → m < p
lt_of_le h k = omega arith

module _ (d : Deci) (laws : DeciLaws d) where
  to_u32-lt : (a : Number) → number_to_u32 d a < u32_mod
  to_u32-lt a = rw (number_to_u32-mod d a) (elim (Bool-cases a.sign) [
    | inl s ↦ rw s (mod-lt _ (omega arith))
    | inr s ↦ rw s (mod-lt _ (omega arith))
  ])

  -- the new number with a given value
  pub Makes : Option Number → ℕ → Type 0
  Makes o v =
      (r : Number) × (o ≡ some r)
      × IsValid d r
      × (r.sign ≡ false)
      × (r.scale ≡ 0)
      × (eval (base d) r.words ≡ v)

  -- A left shift is the product with a power of two, modulo 2 ^ 32, for every distance.
  pub number_bit_shl-value :
      (a b : Number)
      → Makes (number_bit_shl d a b) (number_to_u32 d a * 2 ^ number_to_u32 d b % u32_mod)
  unfolding number_bit_shl Makes
  number_bit_shl-value a b =
      rw guarded_shl (number_new_from_zu-value d laws _ (small _ (mod-lt _ (omega arith))))

  -- A right shift is the quotient by a power of two, for every distance.
  pub number_bit_lshr-value :
      (a b : Number) → Makes (number_bit_lshr d a b) (number_to_u32 d a / 2 ^ number_to_u32 d b)
  unfolding number_bit_lshr Makes
  number_bit_lshr-value a b =
      rw (guarded_lshr _ _ (to_u32-lt a))
        (number_new_from_zu-value d laws _ (small _ (lt_of_le (div-le_self _ _) (to_u32-lt a))))
