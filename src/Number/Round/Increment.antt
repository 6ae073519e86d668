-- ===== src/Number/Round/Increment.antt =====
-- number.c: number_abs_add_uword for 1, on a valid number.
use mathlib.Core.List.{append_assoc}
use calx.Base.{
  drop-append_all, drop-all, ℕ, zero, suc, ◌+◌, ◌-◌, ◌*◌, ◌^◌, ◌≤◌, ◌<◌, ◌≡◌, refl, ap, inl, inr,
  true, false, List, [], ◌∷◌, ◌++◌, arith, length, take, drop, ◌==◌, ==_iff, if◌then◌else◌,
  Bool-cases, length-take, length-drop, length-append,
}
use calx.Number.Add.Defs.{number_abs_add_uword}
use calx.Number.Convert.New.{ten_le_pow}
use calx.Number.Deci.{Deci, base, bit, DeciLaws}
use calx.Number.Defs.{Number, IsValid, allocate, mkuniq, unsafe_push_word, int_part}
use calx.Number.Add.Valid.{top-IsNormalized}
use calx.Number.Words.{
  Below-append, IsNormalized, IsNormalized-le, eval, Below, Below-drop, eval-append,
}

drop-take-append : (n : ℕ) (xs ys : List ℕ) → n ≤ length xs → drop n (take n xs ++ ys) ≡ ys
drop-take-append zero xs ys h = refl
drop-take-append (suc n) [] ys h = absurd (omega arith)
drop-take-append (suc n) (x ∷ xs) ys h = drop-take-append n xs ys (omega arith)

-- the words of the next integer
pub record Successor (d : Deci) (ws r : List ℕ) : Type 0 where
  pub value : eval (base d) r ≡ eval (base d) ws + 1
  pub below : Below (base d) r
  pub normalized : IsNormalized r

top_le :
    (b : ℕ) (ws : List ℕ)
    → 0 < b
    → 0 < length ws
    → IsNormalized ws
    → b ^ (length ws - 1) ≤ eval b ws
top_le b [] pos h n = absurd (omega arith)
top_le b (w ∷ ws) pos h n =
    let e : suc (length ws) - 1 ≡ length ws = omega arith in rw e (IsNormalized-le b w ws pos n)

module _ (d : Deci) (laws : DeciLaws d) where
  pub one_below : 1 < base d
  one_below = omega (arith, ten_le_pow d.base_log laws.base_log_pos)

  one-Successor : Successor d [] (1 ∷ [])
  one-Successor = record { value = omega arith; below = (one_below, tt); normalized = omega arith }

  module _ (ws : List ℕ) (some_words : 0 < length ws) (below : Below (base d) ws)
      (normalized : IsNormalized ws) where
    one : Below (base d) (1 ∷ [])
    one = (one_below, tt)

    sum_value :
        eval (base d) (d.add ws (1 ∷ [])).0 + bit (d.add ws (1 ∷ [])).1 * base d ^ length ws
        ≡ eval (base d) ws + 1
    sum_value = omega (arith, laws.eval-add ws (1 ∷ []) (omega (arith, some_words)) below one)

    sum_size : length (d.add ws (1 ∷ [])).0 ≡ length ws
    sum_size = laws.length-add ws (1 ∷ []) (omega (arith, some_words))

    sum-Below : Below (base d) (d.add ws (1 ∷ [])).0
    sum-Below = laws.Below-add ws (1 ∷ []) (omega (arith, some_words)) below one

    sum-Successor : (d.add ws (1 ∷ [])).1 ≡ false → Successor d ws (d.add ws (1 ∷ [])).0
    sum-Successor c =
        let value : eval (base d) (d.add ws (1 ∷ [])).0 ≡ eval (base d) ws + 1 =
          omega (arith, sum_value, ap (λ b. bit b * base d ^ length ws) c) in
        let top = top_le (base d) ws (omega (arith, one_below)) some_words normalized in
        record {
          value = value;
          below = sum-Below;
          normalized =
              top-IsNormalized d laws (d.add ws (1 ∷ [])).0 sum-Below
                (rw sum_size (omega (arith, value, top)));
        }

    carried-Successor :
        (d.add ws (1 ∷ [])).1 ≡ true → Successor d ws ((d.add ws (1 ∷ [])).0 ++ 1 ∷ [])
    carried-Successor c =
        let sum = (d.add ws (1 ∷ [])).0 in
        let split : eval (base d) (sum ++ 1 ∷ []) ≡ eval (base d) sum + base d ^ length ws =
          rw (eval-append, sum_size) (omega arith) in
        let all = Below-append (base d) sum (1 ∷ []) sum-Below one in
        let size : length (sum ++ 1 ∷ []) - 1 ≡ length ws =
          omega (arith, length-append sum (1 ∷ []), sum_size) in
        record {
          value = omega (arith, split, sum_value, ap (λ b. bit b * base d ^ length ws) c);
          below = all;
          normalized = top-IsNormalized d laws (sum ++ 1 ∷ []) all (rw size (omega (arith, split)));
        }

  -- the branches of number_abs_add_uword for 1, on a number that is not shared
  pub incremented : Number → Number
  incremented a =
      let sum = d.add (int_part a) (1 ∷ []) in
      let r = record a { words = take a.scale a.words ++ sum.0 } in
      if a.scale == length a.words
      then record a { words = a.words ++ 1 ∷ [] }
      else if sum.1
      then record r { words = r.words ++ 1 ∷ [] }
      else r

  not_all :
      (a : Number)
      → a.scale ≤ length a.words
      → (a.scale == length a.words) ≡ false
      → a.scale < length a.words
  not_all a h e = ground arith

  room :
      (a : Number) (ys : List ℕ)
      → a.scale ≤ length a.words
      → a.scale ≤ length (take a.scale a.words ++ ys)
  room a ys h = omega (arith, length-append (take a.scale a.words) ys, length-take a.scale a.words)

  pub incremented-Successor :
      (a : Number)
      → IsValid d a
      → ((incremented a).scale ≤ length (incremented a).words)
        × Successor d (int_part a) (int_part (incremented a))
  unfolding incremented
  incremented-Successor a v = elim (Bool-cases (a.scale == length a.words)) [
    | inl e ↦
        let z = (==_iff a.scale (length a.words)).0 e in
        rw e (
          omega (arith, length-append a.words (1 ∷ [])),
          rw
              (
                drop-append_all a.scale a.words (1 ∷ []) z,
                drop-all a.scale a.words (omega (arith, z)),
              )
              one-Successor,
        )
    | inr e ↦
        let le = v.scale_fits in
        let less : 0 < length (int_part a) =
          omega (arith, length-drop a.scale a.words, not_all a le e) in
        let below = Below-drop (base d) a.scale a.words v.below in
        elim (Bool-cases (d.add (int_part a) (1 ∷ [])).1) [
          | inl c ↦
              rw (e, c, append_assoc, drop-take-append a.scale a.words _ le)
                (room a _ le, carried-Successor (int_part a) less below v.normalized c)
          | inr c ↦
              rw (e, c, drop-take-append a.scale a.words _ le)
                (room a _ le, sum-Successor (int_part a) less below v.normalized c)
        ]
  ]

  pub incremented_sign : (a : Number) → (incremented a).sign ≡ a.sign
  unfolding incremented
  incremented_sign a = ground arith

  pub abs_add_one : (a : Number) → number_abs_add_uword d a 1 ≡ incremented (mkuniq a)
  unfolding number_abs_add_uword incremented unsafe_push_word
  abs_add_one a = refl

  mkuniq-parts : (a : Number) → (mkuniq a).words ≡ a.words
  unfolding mkuniq allocate
  mkuniq-parts a = ground arith

  pub mkuniq-IsValid :
      (a : Number)
      → IsValid d a
      → IsValid d (mkuniq a) × (int_part (mkuniq a) ≡ int_part a) × ((mkuniq a).sign ≡ a.sign)
  unfolding mkuniq allocate
  mkuniq-IsValid a v = elim (Bool-cases (a.nrefs == 1)) [
    | inl e ↦ rw e (v, refl, refl)
    | inr e ↦ rw e (
      record { scale_fits = v.scale_fits; normalized = v.normalized; below = v.below },
      refl,
      refl,
    )
  ]
