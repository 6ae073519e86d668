-- ===== src/Number/Add/Combine.antt =====
-- The words that `do_add_or_sub` computes where it adds: the high words of the longer number are
-- added to, and the low ones kept.
use calx.Base.{
  ℕ, ◌+◌, ◌-◌, ◌*◌, ◌^◌, ◌≤◌, ◌≡◌, ap, ◌∙◌, inl, inr, Bool, true, false, List, [], ◌∷◌, ◌++◌, arith,
  length, take, drop, Bool-cases, length-append, length-drop, length-take,
}
use calx.Number.Add.Align.{split-eval}
use calx.Number.Add.Defs.{add_words}
use calx.Number.Deci.{Deci, base, bit, DeciLaws}
use calx.Number.Defs.{Number, unsafe_push_word}
use calx.Number.Words.{eval, Below, pow-add, eval-append, Below-take, Below-drop}

module _ (d : Deci) (laws : DeciLaws d) where
  -- an aligned number `a`, `k` words of which lie below those of `b`
  pub record Room (a b : Number) (k : ℕ) : Type 0 where
    pub shift : a.scale - b.scale ≡ k
    pub fits : k + length b.words ≤ length a.words
    pub below_a : Below (base d) a.words
    pub below_b : Below (base d) b.words

  module _ (a b : Number) (k : ℕ) (room : Room a b k) where
    pub high_fits : length b.words ≤ length (drop k a.words)
    high_fits = omega (arith, length-drop k a.words, room.fits)

    pub low_length : length (take k a.words) ≡ k
    low_length = omega (arith, length-take k a.words, room.fits)

    pub high-Below : Below (base d) (drop k a.words)
    high-Below = Below-drop (base d) k a.words room.below_a

    pub low-Below : Below (base d) (take k a.words)
    low-Below = Below-take (base d) k a.words room.below_a

    pub total : base d ^ length a.words ≡ base d ^ k * base d ^ length (drop k a.words)
    total =
        let e : length a.words ≡ k + length (drop k a.words) =
          omega (arith, length-drop k a.words, room.fits) in
        rw (e, length-drop k a.words, pow-add (base d) k)

    -- low words kept, high words replaced
    pub spliced :
        (ws : List ℕ)
        → eval (base d) (take k a.words ++ ws)
          ≡ eval (base d) (take k a.words) + base d ^ k * eval (base d) ws
    spliced ws =
        eval-append (base d) (take k a.words) ws
        ∙ ap (λ n. eval (base d) (take k a.words) + base d ^ n * eval (base d) ws) low_length

    unfoldable pub sum : List ℕ × Bool
    sum = d.add (drop k a.words) b.words

    -- the law of `add`, times the weight of the low words
    sum_value :
        base d ^ k * (eval (base d) sum.0 + bit sum.1 * base d ^ length (drop k a.words))
        ≡ base d ^ k * (eval (base d) (drop k a.words) + eval (base d) b.words)
    unfolding sum
    sum_value =
        ap (λ (t : ℕ). base d ^ k * t)
          (laws.eval-add (drop k a.words) b.words high_fits high-Below room.below_b)

    pub sum_length : length (take k a.words ++ sum.0) ≡ length a.words
    unfolding sum
    sum_length =
        length-append (take k a.words) sum.0
        ∙ omega (
          arith,
          low_length,
          laws.length-add (drop k a.words) b.words high_fits,
          length-drop k a.words,
          room.fits,
        )

    pub a_split :
        eval (base d) a.words
        ≡ eval (base d) (take k a.words) + base d ^ k * eval (base d) (drop k a.words)
    a_split = split-eval d laws k a.words (omega (arith, room.fits))

    pub sum_carried :
        sum.1 ≡ true
        → eval (base d) (take k a.words ++ sum.0 ++ 1 ∷ [])
          ≡ eval (base d) a.words + eval (base d) b.words * base d ^ k
    sum_carried c =
        let v = rw c at sum_value in
        rw
          (
            eval-append (base d) (take k a.words ++ sum.0) (1 ∷ []),
            sum_length,
            spliced sum.0,
            total,
          )
          (omega (arith, v, a_split))

    pub sum_plain :
        sum.1 ≡ false
        → eval (base d) (take k a.words ++ sum.0)
          ≡ eval (base d) a.words + eval (base d) b.words * base d ^ k
    sum_plain c = let v = rw c at sum_value in rw (spliced sum.0) (omega (arith, v, a_split))

    -- the sum of the words, exactly
    pub eval-add_words :
        eval (base d) (add_words d a b).words
        ≡ eval (base d) a.words + eval (base d) b.words * base d ^ k
    unfolding add_words unsafe_push_word sum
    eval-add_words = elim (Bool-cases sum.1) [
      | inl c ↦ rw (room.shift, c) (sum_carried c)
      | inr c ↦ rw (room.shift, c) (sum_plain c)
    ]
