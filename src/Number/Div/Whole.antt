-- ===== src/Number/Div/Whole.antt =====
-- number.c: the values of number_idiv and number_imod.
use calx.Base.{
  ℕ, zero, suc, [], ◌∷◌, ◌/◌, ◌%◌, ◌≤◌, ◌<◌, ◌≡◌, refl, sym, ap, ◌∙◌, inl, inr, Bool, true, false,
  ◌&&◌, List, arith, length, take, ◌==◌, Bool-cases, take-all,
}
use calx.Number.Add.Defs.{xor}
use calx.Number.Deci.{Deci, base, DeciLaws}
use calx.Number.Defs.{Number, IsValid, int_part, mkuniq_scale_down, unsafe_strip}
use calx.Number.Div.Defs.{unsafe_normalize_after_idiv, number_idiv, number_imod}
use calx.Number.Fancy.Defs.{fancy_div, fancy_mod}
use calx.Number.Fancy.Exact.{quotient_or_remainder-Holds}
use calx.Number.Fancy.Spans.{SpanOps, SpanLaws, Holds}
use calx.Number.Round.Parts.{scale_down-words, scale_down_rest, IsWhole, IsWhole-at}
use calx.Number.Words.{eval, Below, Below-take, Below-drop}

take-take : (n m : ℕ) (xs : List ℕ) → n ≤ length (take m xs) → take n (take m xs) ≡ take n xs
take-take zero m xs h = refl
take-take (suc n) zero xs h = absurd (omega arith)
take-take (suc n) (suc m) [] h = refl
take-take (suc n) (suc m) (x ∷ xs) h = ap (λ ys. x ∷ ys) (take-take n m xs (omega arith))

strip_whole :
    (a : Number) (n : ℕ)
    → a.scale ≡ 0
    → ((unsafe_strip a n 0).words ≡ take n a.words)
      × ((unsafe_strip a n 0).scale ≡ 0)
      × ((unsafe_strip a n 0).sign ≡ a.sign)
unfolding unsafe_strip
strip_whole a n z = elim (Bool-cases (length a.words == n && a.scale == 0)) [
  | inl e ↦ rw e (sym (take-all n a.words (ground arith)), z, refl)
  | inr e ↦ rw (e, z) (refl, refl, refl)
]

module _ (d : Deci) (laws : DeciLaws d) (x : SpanOps) (span : SpanLaws d x) where
  after_idiv-IsWhole :
      (a : Number) (ws : List ℕ) (v : ℕ) (r : List ℕ × ℕ)
      → a.scale ≡ 0
      → Holds d ws v r
      → a.words ≡ r.0
      → IsWhole d v a.sign (unsafe_normalize_after_idiv d a r.1)
  unfolding unsafe_normalize_after_idiv
  after_idiv-IsWhole a ws v r z h same =
      let kept = take r.1 r.0 in
      let n = d.normalize_n kept in
      let (words, scale, sign) = strip_whole a (d.normalize_n (take r.1 a.words)) z in
      let all : (unsafe_strip a (d.normalize_n (take r.1 a.words)) 0).words ≡ take n kept =
        words
        ∙ ap (λ (t : List ℕ). take (d.normalize_n (take r.1 t)) t) same
        ∙ sym (take-take n r.1 r.0 (laws.normalize_n-le kept)) in
      record {
        valid = record {
          scale_fits = omega (arith, scale);
          normalized = rw (scale, all) (laws.normalize_n-IsNormalized kept);
          below = rw all (Below-take (base d) n kept (Below-take (base d) r.1 r.0 h.below));
        };
        scale = scale;
        value = rw all (laws.normalize_n-eval kept ∙ h.value);
        sign_of = sign;
      }

  -- number_idiv gives the quotient of the integer parts, with the sign of a quotient.
  pub number_idiv-IsWhole :
      (a b : Number)
      → IsValid d a
      → IsValid d b
      → 0 < eval (base d) (int_part b)
      → IsWhole d
          (eval (base d) (int_part a) / eval (base d) (int_part b))
          (xor a.sign b.sign)
          (number_idiv d x a b)
  unfolding number_idiv fancy_div
  number_idiv-IsWhole a b va vb h =
      let a' = mkuniq_scale_down a 0 in
      let words = scale_down-words a va.scale_fits in
      let (scale, sign) = scale_down_rest a in
      let below : Below (base d) a'.words =
        rw words (Below-drop (base d) a.scale a.words va.below) in
      let held =
        quotient_or_remainder-Holds d laws x span a'.words (int_part b) true below
          (Below-drop (base d) b.scale b.words vb.below) h in
      let r = fancy_div d x a'.words (int_part b) in
      let same = ap (λ (t : List ℕ). eval (base d) t / eval (base d) (int_part b)) words in
      IsWhole-at d _ _ _ _ _ same (ap (λ (t : Bool). xor t b.sign) sign) (
        after_idiv-IsWhole (record a' { sign = xor a'.sign b.sign; words = r.0 }) a'.words _ r scale
          held refl)

  -- number_imod gives the remainder of the integer parts, with the sign of the dividend.
  pub number_imod-IsWhole :
      (a b : Number)
      → IsValid d a
      → IsValid d b
      → 0 < eval (base d) (int_part b)
      → IsWhole d
          (eval (base d) (int_part a) % eval (base d) (int_part b))
          a.sign
          (number_imod d x a b)
  unfolding number_imod fancy_mod
  number_imod-IsWhole a b va vb h =
      let a' = mkuniq_scale_down a 0 in
      let words = scale_down-words a va.scale_fits in
      let (scale, sign) = scale_down_rest a in
      let below : Below (base d) a'.words =
        rw words (Below-drop (base d) a.scale a.words va.below) in
      let held =
        quotient_or_remainder-Holds d laws x span a'.words (int_part b) false below
          (Below-drop (base d) b.scale b.words vb.below) h in
      let r = fancy_mod d x a'.words (int_part b) in
      let same = ap (λ (t : List ℕ). eval (base d) t % eval (base d) (int_part b)) words in
      IsWhole-at d _ _ _ _ _ same sign
        (after_idiv-IsWhole (record a' { words = r.0 }) a'.words _ r scale held refl)
