-- ===== src/Number/Add/Subtract.antt =====
-- The words that `do_add_or_sub` computes where it subtracts: the difference, its complement after
-- a borrow, and the zero words that are dropped from the top.
use native.Mathlib.Nat.{pow-le-pow_right}
use calx.Base.{
  ℕ, zero, suc, ◌+◌, ◌*◌, ◌^◌, ◌≤◌, ◌<◌, ◌≡◌, refl, sym, ap, ◌∙◌, inl, inr, Bool, true, false, List,
  [], ◌∷◌, ◌++◌, arith, length, take, drop, if◌then◌else◌, Bool-cases, length-append, length-drop,
  length-take,
}
use calx.Number.Add.Align.{split-eval, base_pos}
use calx.Number.Add.Combine.{
  Room, high_fits, low_length, high-Below, low-Below, total, spliced, a_split,
}
use calx.Number.Add.Defs.{sub_words, has_zero_top, normalize_top}
use calx.Number.Deci.{Deci, base, bit, DeciLaws}
use calx.Number.Defs.{Number, int_part}
use calx.Number.Words.{eval, Below, pow_pos, eval-append, eval-lt, Below-append}

take-nil : (n : ℕ) → take {A = ℕ} n [] ≡ []
take-nil zero = refl
take-nil (suc n) = refl

lt_scaled : (p x h : ℕ) → 0 < p → x < h → x * p < p * h
lt_scaled p x h pos lt = grind arith

pub take-add : (m n : ℕ) (ws : List ℕ) → take (m + n) ws ≡ take m ws ++ take n (drop m ws)
take-add zero n ws = let e : 0 + n ≡ n = omega arith in rw e
take-add (suc m) n [] = rw (take-nil (suc m + n), take-nil n)
take-add (suc m) n (w ∷ ws) =
    let e : suc m + n ≡ suc (m + n) = omega arith in rw (e, take-add m n ws)

module _ (d : Deci) (laws : DeciLaws d) where
  pub eval-normalize_top :
      (a : Number)
      → a.scale ≤ length a.words
      → eval (base d) (normalize_top d a).words ≡ eval (base d) a.words
  unfolding normalize_top
  eval-normalize_top a h = elim (Bool-cases (has_zero_top d a)) [
    | inr z ↦ rw z
    | inl z ↦
        let n = d.normalize_n (int_part a) in
        let low : length (take a.scale a.words) ≡ a.scale =
          omega (arith, length-take a.scale a.words) in
        rw
          (
            z,
            take-add a.scale n a.words,
            eval-append (base d) (take a.scale a.words),
            low,
            laws.normalize_n-eval (int_part a),
          )
          (sym (split-eval d laws a.scale a.words h))
  ]

  module _ (a b : Number) (k : ℕ) (room : Room d laws a b k) where
    unfoldable pub diff : List ℕ × Bool
    diff = d.sub_raw (drop k a.words) b.words

    diff_length : length (take k a.words ++ diff.0) ≡ length a.words
    unfolding diff
    diff_length =
        length-append (take k a.words) diff.0
        ∙ omega (
          arith,
          low_length d laws a b k room,
          laws.length-sub_raw (drop k a.words) b.words (high_fits d laws a b k room),
          length-drop k a.words,
          room.fits,
        )

    diff-Below : Below (base d) (take k a.words ++ diff.0)
    unfolding diff
    diff-Below = Below-append (base d) (take k a.words) diff.0 (low-Below d laws a b k room) (
        laws.Below-sub_raw (drop k a.words) b.words (high_fits d laws a b k room)
          (high-Below d laws a b k room) room.below_b)

    -- the difference before a complement
    diff_value :
        eval (base d) (take k a.words ++ diff.0) + eval (base d) b.words * base d ^ k
        ≡ eval (base d) a.words + bit diff.1 * base d ^ length a.words
    unfolding diff
    diff_value =
        let law =
          ap (λ (t : ℕ). base d ^ k * t)
            (laws.eval-sub_raw (drop k a.words) b.words (high_fits d laws a b k room)
              (high-Below d laws a b k room) room.below_b) in
        rw (spliced d laws a b k room diff.0, total d laws a b k room)
          (omega (arith, law, a_split d laws a b k room))

    -- the second number is less than the weight behind the top word
    b_small : eval (base d) b.words * base d ^ k < base d ^ length a.words
    b_small =
        let wide : base d ^ length b.words ≤ base d ^ length (drop k a.words) =
          pow-le-pow_right (base_pos d laws) (high_fits d laws a b k room) in
        rw (total d laws a b k room) (
          lt_scaled _ _ _ (pow_pos (base d) k (base_pos d laws))
            (omega (arith, wide, eval-lt (base d) b.words room.below_b)))

    -- the number before zero words are dropped from the top
    unfoldable pub difference : Number
    difference = record a {
      words =
          if diff.1 then d.uncomplement (take k a.words ++ diff.0) else take k a.words ++ diff.0;
    }

    pub sub_words-difference : sub_words d a b ≡ (normalize_top d difference, diff.1)
    unfolding sub_words difference diff
    sub_words-difference = rw room.shift

    pub difference-length : length difference.words ≡ length a.words
    unfolding difference
    difference-length = elim (Bool-cases diff.1) [
      | inl c ↦ rw (c, laws.length-uncomplement (take k a.words ++ diff.0)) diff_length
      | inr c ↦ rw c diff_length
    ]

    pub difference-Below : Below (base d) difference.words
    unfolding difference
    difference-Below = elim (Bool-cases diff.1) [
      | inl c ↦ rw c (laws.Below-uncomplement _ diff-Below)
      | inr c ↦ rw c diff-Below
    ]

    -- without a borrow the words are the difference
    pub difference_plain :
        diff.1 ≡ false
        → eval (base d) difference.words + eval (base d) b.words * base d ^ k
          ≡ eval (base d) a.words
    unfolding difference
    difference_plain c = let v = rw c at diff_value in rw c (omega (arith, v))

    -- after a borrow they are the difference the other way round
    pub difference_borrowed :
        diff.1 ≡ true
        → eval (base d) difference.words + eval (base d) a.words
          ≡ eval (base d) b.words * base d ^ k
    unfolding difference
    difference_borrowed c =
        let v = rw c at diff_value in
        let pos : 0 < eval (base d) (take k a.words ++ diff.0) = omega (arith, v, b_small) in
        let law = rw diff_length at (laws.eval-uncomplement _ diff-Below pos) in
        rw c (omega (arith, v, law))
