-- ===== src/Number/Round/Parts.antt =====
-- number.c: the two parts of a number, and the whole number that mkuniq_scale_down leaves.
use native.Mathlib.Nat.{div-eq_of_lt-le}
use calx.Base.{
  ℕ, ◌+◌, ◌-◌, ◌*◌, ◌/◌, ◌^◌, ◌≤◌, ◌<◌, ◌≡◌, refl, sym, ap, ◌∙◌, inl, inr, Bool, ◌&&◌, arith,
  length, drop, ◌==◌, Bool-cases, length-take, take-append-drop,
}
use calx.Number.Deci.{Deci, base, DeciLaws}
use calx.Number.Defs.{Number, IsValid, allocate, mkuniq_scale_down, int_part, frac_part}
use calx.Number.Words.{eval, Below-take, eval-append, eval-lt}

pub scale_down-words :
    (a : Number) → a.scale ≤ length a.words → (mkuniq_scale_down a 0).words ≡ int_part a
unfolding mkuniq_scale_down allocate
scale_down-words a h = elim (Bool-cases (a.nrefs == 1 && a.scale == 0)) [
  | inl e ↦ let z : a.scale ≡ 0 = ground arith in rw e (sym (ap (λ (t : ℕ). drop t a.words) z))
  | inr e ↦
      let n : length a.words - (length a.words - a.scale + 0) ≡ a.scale = omega arith in
      rw (e, n) refl
]

-- a number with no fraction, of these words and this sign
pub record IsWhole (d : Deci) (v : ℕ) (sign : Bool) (r : Number) : Type 0 where
  pub valid : IsValid d r
  pub scale : r.scale ≡ 0
  pub value : eval (base d) r.words ≡ v
  pub sign_of : r.sign ≡ sign

pub IsWhole-at :
    (d : Deci) (v w : ℕ) (s t : Bool) (r : Number)
    → v ≡ w
    → s ≡ t
    → IsWhole d v s r
    → IsWhole d w t r
IsWhole-at d v w s t r e f h = record {
  valid = h.valid;
  scale = h.scale;
  value = h.value ∙ e;
  sign_of = h.sign_of ∙ f;
}

pub scale_down_rest :
    (a : Number) → ((mkuniq_scale_down a 0).scale ≡ 0) × ((mkuniq_scale_down a 0).sign ≡ a.sign)
unfolding mkuniq_scale_down allocate
scale_down_rest a = elim (Bool-cases (a.nrefs == 1 && a.scale == 0)) [
  | inl e ↦ rw e (ground arith, refl)
  | inr e ↦ rw e (refl, refl)
]

module _ (d : Deci) (laws : DeciLaws d) where
  -- the words, in terms of the two parts
  pub whole :
      (a : Number)
      → a.scale ≤ length a.words
      → eval (base d) a.words
        ≡ eval (base d) (frac_part a) + base d ^ a.scale * eval (base d) (int_part a)
  whole a h =
      let n : length (frac_part a) ≡ a.scale = omega (arith, length-take a.scale a.words) in
      sym (ap (eval (base d)) (take-append-drop a.scale a.words))
      ∙ eval-append (base d) (frac_part a) (int_part a)
      ∙ rw n refl

  pub frac-lt : (a : Number) → IsValid d a → eval (base d) (frac_part a) < base d ^ a.scale
  frac-lt a v =
      let n : length (frac_part a) ≡ a.scale =
        omega (arith, length-take a.scale a.words, v.scale_fits) in
      let lt = eval-lt (base d) (frac_part a) (Below-take (base d) a.scale a.words v.below) in
      omega (arith, lt, ap (λ (t : ℕ). base d ^ t) n)

  -- the integer part is the quotient
  pub quotient :
      (a : Number)
      → IsValid d a
      → eval (base d) a.words / base d ^ a.scale ≡ eval (base d) (int_part a)
  quotient a v =
      let w = whole a v.scale_fits in
      let lt = frac-lt a v in
      div-eq_of_lt-le {k = eval (base d) (int_part a)} (base d ^ a.scale) (omega (arith, w))
        (omega (arith, w, lt))
