-- ===== src/Number/Add/Valid.antt =====
-- number.c, number.h: the invariants of number.h in sums and differences.
use native.Mathlib.Nat.{pow-suc}
use calx.Base.{
  ℕ, zero, suc, ◌+◌, ◌-◌, ◌*◌, ◌^◌, ◌≤◌, ◌<◌, max, ◌≡◌, ◌≢◌, refl, inl, inr, Bool, true, false, not,
  ◌||◌, ◌&&◌, arith, length, ltb, ◌==◌, Bool-cases, ltb→lt, List, [], ◌∷◌, ◌++◌, take, drop, get_or,
  length-append, length-take,
}
use calx.Number.Add.Align.{Aligned, nint, top-IsValid}
use calx.Number.Add.Combine.{Room, sum, sum_length, sum_plain, low-Below, high-Below, high_fits}
use calx.Number.Add.Defs.{
  xor, align, add_words, sub_words, has_zero_top, normalize_top, add_or_sub_aligned, do_add_or_sub,
  number_add, number_sub,
}
use calx.Number.Add.Exact.{al, room, swapped, not_swapped}
use calx.Number.Add.Subtract.{
  difference, sub_words-difference, difference-length, difference-Below, take-add,
}
use calx.Number.Deci.{Deci, base, DeciLaws}
use calx.Number.Defs.{Number, IsValid, int_part, unsafe_push_word}
use calx.Number.Words.{
  eval, Below, IsNormalized, le-IsNormalized, pow-add, pow_pos, eval-append, Below-append,
  Below-take,
}

not_lt : (m n : ℕ) → ltb m n ≡ false → n ≤ m
not_lt m n h = ground arith

eq_le : (m n : ℕ) → (m == n) ≡ true → m ≤ n
eq_le m n h = ground arith

ten_pow : (n : ℕ) → 0 < n → 1 < 10 ^ n
ten_pow zero h = absurd (omega arith)
ten_pow (suc n) h = rw pow-suc (omega (arith, pow_pos 10 n (omega arith)))

drop-take : (n : ℕ) (ws vs : List ℕ) → n ≤ length ws → drop n (take n ws ++ vs) ≡ vs
drop-take zero ws vs h = refl
drop-take (suc n) [] vs h = absurd (omega arith)
drop-take (suc n) (w ∷ ws) vs h = drop-take n ws vs (omega arith)

drop_all : (n : ℕ) (ws : List ℕ) → length ws ≤ n → drop n ws ≡ []
drop_all zero [] h = refl
drop_all zero (w ∷ ws) h = absurd (omega arith)
drop_all (suc n) [] h = refl
drop_all (suc n) (w ∷ ws) h = drop_all n ws (omega arith)

pub drop-IsNormalized :
    (s : ℕ) (ws : List ℕ) → s < length ws → IsNormalized ws → IsNormalized (drop s ws)
drop-IsNormalized zero ws h n = n
drop-IsNormalized (suc s) [] h n = absurd (omega arith)
drop-IsNormalized (suc s) (w ∷ []) h n = absurd (omega arith)
drop-IsNormalized (suc s) (w ∷ v ∷ ws) h n = drop-IsNormalized s (v ∷ ws) (omega arith) n

-- a span whose last word is not zero
last-IsNormalized : (ws : List ℕ) → get_or ws (length ws - 1) 0 ≢ 0 → IsNormalized ws
last-IsNormalized [] n = tt
last-IsNormalized (w ∷ []) n = omega arith
last-IsNormalized (w ∷ v ∷ ws) n =
    let e : suc (suc (length ws)) - 1 ≡ suc (suc (length ws) - 1) = omega arith in
    last-IsNormalized (v ∷ ws) (rw e at n)

module _ (d : Deci) (laws : DeciLaws d) where
  -- the value of a whole span, with the top word reached
  pub top-IsNormalized :
      (ws : List ℕ)
      → Below (base d) ws
      → base d ^ (length ws - 1) ≤ eval (base d) ws
      → IsNormalized ws
  top-IsNormalized [] b le = tt
  top-IsNormalized (w ∷ ws) b le =
      let e : suc (length ws) - 1 ≡ length ws = omega arith in
      le-IsNormalized (base d) w ws b (rw e at le)

  -- A span whose top word is reached by its value, or which has no integer part.
  pub IsValid-of_top :
      (a : Number)
      → a.scale ≤ length a.words
      → Below (base d) a.words
      → (a.scale < length a.words → base d ^ (length a.words - 1) ≤ eval (base d) a.words)
      → IsValid d a
  IsValid-of_top a fits below top = record {
    scale_fits = fits;
    normalized = elim (Bool-cases (ltb a.scale (length a.words))) [
      | inl p ↦
          let lt = ltb→lt a.scale (length a.words) p in
          drop-IsNormalized a.scale a.words lt (top-IsNormalized a.words below (top lt))
      | inr p ↦ rw (drop_all a.scale a.words (not_lt a.scale (length a.words) p)) tt
    ];
    below = below;
  }

  stripped-IsValid :
      (a : Number)
      → a.scale ≤ length a.words
      → Below (base d) a.words
      → IsValid d (record a { words = take (a.scale + d.normalize_n (int_part a)) a.words })
  stripped-IsValid a fits below =
      let n = d.normalize_n (int_part a) in
      record {
        scale_fits = omega (arith, length-take (a.scale + n) a.words, fits);
        normalized =
            rw
              (
                take-add a.scale n a.words,
                drop-take a.scale a.words (take n (drop a.scale a.words)) fits,
              )
              (laws.normalize_n-IsNormalized (int_part a));
        below = Below-take (base d) _ a.words below;
      }

  kept-IsNormalized : (a : Number) → has_zero_top d a ≡ false → IsNormalized (int_part a)
  unfolding has_zero_top
  kept-IsNormalized a z = elim (Bool-cases (length a.words == a.scale)) [
    | inl p ↦ rw (drop_all a.scale a.words (eq_le _ _ p)) tt
    | inr p ↦ elim (Bool-cases (ltb a.scale (length a.words))) [
      | inl q ↦
          drop-IsNormalized a.scale a.words (ltb→lt a.scale (length a.words) q)
            (last-IsNormalized a.words (ground arith))
      | inr q ↦ rw (drop_all a.scale a.words (not_lt a.scale (length a.words) q)) tt
    ]
  ]

  normalize_top-IsValid :
      (a : Number)
      → a.scale ≤ length a.words
      → Below (base d) a.words
      → IsValid d (normalize_top d a)
  unfolding normalize_top
  normalize_top-IsValid a fits below = elim (Bool-cases (has_zero_top d a)) [
    | inl z ↦ rw z (stripped-IsValid a fits below)
    | inr z ↦ rw z (record { scale_fits = fits; normalized = kept-IsNormalized a z; below = below })
  ]

  IsValid-sign : (a : Number) (s : Bool) → IsValid d a → IsValid d (record a { sign = s })
  IsValid-sign a s v = record {
    scale_fits = v.scale_fits;
    normalized = v.normalized;
    below = v.below;
  }

  le_product : (p x y e z : ℕ) → x ≤ y → p * x ≤ e + y * p
  le_product p x y e z h = grind arith

  module _ (a b : Number) (va : IsValid d a) (vb : IsValid d b)
      (h : length b.words ≤ length a.words) where
    r : Number
    r = align a b

    k : ℕ
    k = max a.scale b.scale - b.scale

    aligned : Aligned d laws a b r
    unfolding r
    aligned = al d laws a b va vb h

    fits : r.scale ≤ length r.words
    fits = omega (arith, aligned.size, aligned.scale)

    -- one of the operands reaches the top word, if there is an integer part
    reached :
        r.scale < length r.words
        → base d ^ (length r.words - 1) ≤ eval (base d) r.words + eval (base d) b.words * base d ^ k
    unfolding k
    reached lt = elim (Bool-cases (ltb (nint a) (nint b))) [
      | inl p ↦
          let less = ltb→lt (nint a) (nint b) p in
          let e : length r.words - 1 ≡ max a.scale b.scale - b.scale + (length b.words - 1) =
            omega (arith, aligned.size, vb.scale_fits, va.scale_fits) in
          let top = top-IsValid d laws b vb (omega arith) in
          rw (e, pow-add (base d) (max a.scale b.scale - b.scale) (length b.words - 1))
            (le_product _ _ _ _ 0 top)
      | inr p ↦
          let more = not_lt (nint a) (nint b) p in
          let e : length r.words - 1 ≡ max a.scale b.scale - a.scale + (length a.words - 1) =
            omega (arith, aligned.size, aligned.scale, va.scale_fits) in
          let top = top-IsValid d laws a va (omega (arith, aligned.size, aligned.scale)) in
          rw
            (
              e,
              pow-add (base d) (max a.scale b.scale - a.scale) (length a.words - 1),
              aligned.value,
            )
            (omega (arith, le_product _ _ _ 0 0 top))
    ]

    rm : Room d laws r b k
    unfolding r k
    rm = room d laws a b va vb h

    sum-Below : Below (base d) (take k r.words ++ (sum d laws r b k rm).0)
    unfolding sum
    sum-Below = Below-append (base d) (take k r.words) _ (low-Below d laws r b k rm) (
        laws.Below-add (drop k r.words) b.words (high_fits d laws r b k rm)
          (high-Below d laws r b k rm) rm.below_b)

    one_below : 1 < base d
    one_below = ten_pow d.base_log laws.base_log_pos

    carried-IsValid :
        (sum d laws r b k rm).1 ≡ true
        → IsValid d
            (unsafe_push_word (record r { words = take k r.words ++ (sum d laws r b k rm).0 }) 1)
    unfolding unsafe_push_word
    carried-IsValid c =
        let ws = take k r.words ++ (sum d laws r b k rm).0 in
        let size = sum_length d laws r b k rm in
        let long : length (ws ++ 1 ∷ []) ≡ length ws + 1 = length-append ws (1 ∷ []) in
        let e : length (ws ++ 1 ∷ []) - 1 ≡ length ws = omega (arith, long) in
        IsValid-of_top (record r { words = ws ++ 1 ∷ [] }) (omega (arith, long, size, fits))
          (Below-append (base d) ws (1 ∷ []) sum-Below (one_below, tt))
          (λ _. rw (e, eval-append (base d) ws (1 ∷ [])) (omega arith))

    plain-IsValid :
        (sum d laws r b k rm).1 ≡ false
        → IsValid d (record r { words = take k r.words ++ (sum d laws r b k rm).0 })
    plain-IsValid c =
        let ws = take k r.words ++ (sum d laws r b k rm).0 in
        let size = sum_length d laws r b k rm in
        IsValid-of_top (record r { words = ws }) (omega (arith, size, fits)) sum-Below
          (λ lt. rw (size, sum_plain d laws r b k rm c) (reached (omega (arith, size))))

    add_words-IsValid : IsValid d (add_words d r b)
    unfolding add_words
    add_words-IsValid = elim (Bool-cases (sum d laws r b k rm).1) [
      | inl c ↦ let v = carried-IsValid c in unfold sum in rw (rm.shift, c) v
      | inr c ↦ let v = plain-IsValid c in unfold sum in rw (rm.shift, c) v
    ]

    sub_words-IsValid : IsValid d (sub_words d r b).0
    sub_words-IsValid = rw (sub_words-difference d laws r b k rm) (
        normalize_top-IsValid (difference d laws r b k rm)
          (unfold difference in omega (arith, difference-length d laws r b k rm, fits))
          (difference-Below d laws r b k rm))

    add_or_sub_aligned-IsValid : (add neg : Bool) → IsValid d (add_or_sub_aligned d r b add neg)
    unfolding add_or_sub_aligned
    add_or_sub_aligned-IsValid add neg = elim (Bool-cases (xor (xor r.sign b.sign) add)) [
      | inl s ↦ rw s (IsValid-sign (add_words d r b) _ add_words-IsValid)
      | inr s ↦ rw s (IsValid-sign (sub_words d r b).0 _ sub_words-IsValid)
    ]

  do_add_or_sub-IsValid :
      (a b : Number) (add : Bool) → IsValid d a → IsValid d b → IsValid d (do_add_or_sub d a b add)
  unfolding do_add_or_sub r
  do_add_or_sub-IsValid a b add va vb =
      elim (Bool-cases (
        ltb (length a.words) (length b.words)
        || (length a.words == length b.words && b.nrefs == 1))) [
          | inr s ↦ rw s (add_or_sub_aligned-IsValid a b va vb (not_swapped _ _ _ s) add false)
          | inl s ↦ rw s (add_or_sub_aligned-IsValid b a vb va (swapped _ _ _ s) add (not add))
        ]

  -- Addition and subtraction of numbers that meet the invariants of number.h give such a number.
  pub number_add_sub-IsValid :
      (a b : Number)
      → IsValid d a
      → IsValid d b
      → IsValid d (number_add d a b) × IsValid d (number_sub d a b)
  unfolding number_add number_sub
  number_add_sub-IsValid a b va vb =
      (do_add_or_sub-IsValid a b true va vb, do_add_or_sub-IsValid a b false va vb)
