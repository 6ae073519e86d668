-- ===== src/Number/Convert/Read.antt =====
-- number.h: number_to_zu and number_to_u32, by Horner's rule.
use mathlib.Core.List.{reverse, reverse-cons}
use native.Mathlib.Nat.{mul-le-mul_left, div-add-mod, mod-add-mod, add-mul-mod_self_left}
use mathlib.Core.Option
use calx.Base.{
  ◌/◌, ◌%◌, min, ℕ, ◌+◌, ◌-◌, ◌*◌, ◌≤◌, ◌<◌, ◌≡◌, refl, sym, ap, ◌∙◌, inl, inr, false, Option, none,
  some, List, [], ◌∷◌, ◌++◌, ltb, if◌then◌else◌, Bool-cases, arith, lt→ltb, ltb→lt,
}
use calx.Number.Convert.Defs.{
  to_zu_loop, number_to_zu, number_new_from_zu, to_u32_loop, number_to_u32, size_mod, u32_mod,
}
use calx.Number.Convert.New.{number_new_from_zu-value}
use calx.Number.Deci.{Deci, base, DeciLaws}
use calx.Number.Defs.{Number, int_part}
use calx.Number.Words.{eval, pow_pos}

-- Horner's rule, from the most significant word
horner : ℕ → List ℕ → ℕ → ℕ
horner b [] r = r
horner b (w ∷ ws) r = horner b ws (r * b + w)

horner-append : (b : ℕ) (xs : List ℕ) (w r : ℕ) → horner b (xs ++ w ∷ []) r ≡ horner b xs r * b + w
unfolding horner
horner-append b [] w r = refl
horner-append b (x ∷ xs) w r = horner-append b xs w (r * b + x)

horner-reverse : (b : ℕ) (ws : List ℕ) → horner b (reverse ws) 0 ≡ eval b ws
unfolding horner
horner-reverse b [] = refl
horner-reverse b (w ∷ ws) =
    rw (reverse-cons, horner-append b (reverse ws) w 0, horner-reverse b ws) (omega arith)

grows : (b : ℕ) (ws : List ℕ) (r : ℕ) → 0 < b → r ≤ horner b ws r
unfolding horner
grows b [] r h = omega arith
grows b (w ∷ ws) r h = omega (arith, grows b ws (r * b + w) h, mul-le-mul_left r h)

module _ (d : Deci) where
  abbrev saturated : ℕ → Option ℕ
  saturated v = if ltb v size_mod then some v else none

  saturated_big : (v r : ℕ) → r ≤ v → ltb r size_mod ≡ false → saturated v ≡ none
  saturated_big v r le e = let f : ltb v size_mod ≡ false = ground arith in rw f refl

  to_zu_loop-horner :
      (ws : List ℕ) (r : ℕ)
      → 0 < base d
      → r < size_mod
      → to_zu_loop d ws r ≡ saturated (horner (base d) ws r)
  unfolding to_zu_loop horner
  to_zu_loop-horner [] r p h = rw (lt→ltb r size_mod h) refl
  to_zu_loop-horner (w ∷ ws) r p h = elim (Bool-cases (ltb (r * base d) size_mod)) [
    | inl e ↦ elim (Bool-cases (ltb (r * base d + w) size_mod)) [
      | inl f ↦ rw (e, f) (to_zu_loop-horner ws (r * base d + w) p (ltb→lt _ _ f))
      | inr f ↦ rw (e, f) (sym (saturated_big _ _ (grows (base d) ws (r * base d + w) p) f))
    ]
    | inr e ↦
        rw e (
          sym
            (saturated_big _ (r * base d) (omega (arith, grows (base d) ws (r * base d + w) p)) e))
  ]

  saturated-min :
      (v : ℕ) → elim (saturated v) [ some r ↦ r | none ↦ size_mod - 1 ] ≡ min v (size_mod - 1)
  saturated-min v = elim (Bool-cases (ltb v size_mod)) [
    | inl e ↦ rw e (ground arith)
    | inr e ↦ rw e (ground arith)
  ]

  -- A number without the sign gives its integer part, or the greatest size_t where that is more.
  pub number_to_zu-min :
      (a : Number)
      → a.sign ≡ false
      → number_to_zu d a ≡ min (eval (base d) (int_part a)) (size_mod - 1)
  unfolding number_to_zu
  number_to_zu-min a s =
      rw
        (
          s,
          to_zu_loop-horner (reverse (int_part a)) 0 (pow_pos 10 d.base_log (omega arith))
              (omega arith),
          horner-reverse (base d) (int_part a),
        )
        (saturated-min _)

  -- Every size_t comes back from the number that is made of it.
  pub number_to_zu-number_new_from_zu :
      (laws : DeciLaws d) (x : ℕ)
      → x < size_mod
      → Option.map (number_to_zu d) (number_new_from_zu d x) ≡ some x
  number_to_zu-number_new_from_zu laws x h =
      let (a, made, valid, plain, whole, value) = number_new_from_zu-value d laws x h in
      let e : eval (base d) (int_part a) ≡ x = rw whole value in
      rw made (ap some (number_to_zu-min a plain ∙ rw e (omega arith)))

  step_mod : (r b w m : ℕ) → ((r % m) * b % m + w) % m ≡ (r * b + w) % m
  step_mod r b w m =
      let e : r * b + w ≡ ((r % m) * b + w) + m * (r / m * b) =
        omega (arith, ap (λ (t : ℕ). t * b) (div-add-mod r m)) in
      mod-add-mod (r % m * b) m w
      ∙ sym (ap (λ (t : ℕ). t % m) e ∙ add-mul-mod_self_left _ m (r / m * b))

  to_u32_loop-horner :
      (ws : List ℕ) (r : ℕ) → to_u32_loop d ws (r % u32_mod) ≡ horner (base d) ws r % u32_mod
  unfolding to_u32_loop horner
  to_u32_loop-horner [] r = refl
  to_u32_loop-horner (w ∷ ws) r =
      rw (step_mod r (base d) w u32_mod) (to_u32_loop-horner ws (r * base d + w))

  -- A number gives its integer part modulo 2 ^ 32, negated there if it has the sign.
  pub number_to_u32-mod :
      (a : Number)
      → number_to_u32 d a ≡ (
          if a.sign
          then (u32_mod - eval (base d) (int_part a) % u32_mod) % u32_mod
          else eval (base d) (int_part a) % u32_mod)
  unfolding number_to_u32
  number_to_u32-mod a =
      let e : to_u32_loop d (reverse (int_part a)) 0 ≡ eval (base d) (int_part a) % u32_mod =
        to_u32_loop-horner (reverse (int_part a)) 0
        ∙ rw (horner-reverse (base d) (int_part a)) refl in
      rw e refl
