-- ===== src/Number/Radix/Add.antt =====
-- number.c: the value of number_abs_add_uword on an integer.
use calx.Base.{
  ℕ, ◌+◌, ◌-◌, ◌*◌, ◌^◌, ◌≤◌, ◌<◌, ◌≡◌, refl, sym, ap, ◌∙◌, inl, inr, Bool, true, false, List, [],
  ◌∷◌, ◌++◌, arith, length, take, drop, ◌==◌, ==_iff, Bool-cases,
}
use calx.Number.Add.Align.{mkuniq-words, mkuniq-scale, mkuniq-sign, top-IsValid}
use calx.Number.Add.Defs.{number_abs_add_uword}
use calx.Number.Deci.{Deci, base, bit, DeciLaws}
use calx.Number.Defs.{Number, mkuniq, unsafe_push_word}
use calx.Number.Round.Parts.{IsWhole}
use calx.Number.Add.Valid.{top-IsNormalized}
use calx.Number.Round.Increment.{one_below}
use calx.Number.Scale.Word.{IsNormalized-end}
use calx.Number.Words.{eval, eval-append, Below, Below-append, IsNormalized}

no_words : (ws : List ℕ) → length ws ≡ 0 → ws ≡ []
no_words [] h = refl
no_words (w ∷ ws) h = absurd (omega arith)

module _ (d : Deci) (laws : DeciLaws d) where
  -- an integer by its words
  integer :
      (r : Number) (ws : List ℕ) (v : ℕ) (s : Bool)
      → r.words ≡ ws
      → r.scale ≡ 0
      → r.sign ≡ s
      → Below (base d) ws
      → IsNormalized ws
      → eval (base d) ws ≡ v
      → IsWhole d v s r
  integer r ws v s words scale sign below normalized value = record {
    valid = record {
      scale_fits = omega (arith, scale);
      normalized = rw (scale, words) normalized;
      below = rw words below;
    };
    scale = scale;
    value = ap (eval (base d)) words ∙ value;
    sign_of = sign;
  }

  -- a span of digits with this value and a top word that is not zero
  record Digits (ws : List ℕ) (v : ℕ) : Type 0 where
    below : Below (base d) ws
    normalized : IsNormalized ws
    value : eval (base d) ws ≡ v

  added-carry :
      (ps : List ℕ) (b v : ℕ)
      → 0 < length ps
      → Below (base d) ps
      → b < base d
      → eval (base d) ps ≡ v
      → (d.add ps (b ∷ [])).1 ≡ true
      → Digits ((d.add ps (b ∷ [])).0 ++ 1 ∷ []) (v + b)
  added-carry ps b v room below lt value carry =
      let sum = d.add ps (b ∷ []) in
      let size = laws.length-add ps (b ∷ []) room in
      let exact = laws.eval-add ps (b ∷ []) room below (lt, tt) in
      record {
        below =
            Below-append (base d) sum.0 (1 ∷ []) (laws.Below-add ps (b ∷ []) room below (lt, tt))
              (one_below d laws, tt);
        normalized = IsNormalized-end 1 sum.0 (omega arith);
        value =
            rw (eval-append (base d) sum.0 (1 ∷ []), size)
              (omega (arith, exact, value, ap (λ (t : Bool). bit t * base d ^ length ps) carry));
      }

  added-plain :
      (ps : List ℕ) (b v : ℕ)
      → 0 < length ps
      → Below (base d) ps
      → b < base d
      → eval (base d) ps ≡ v
      → base d ^ (length ps - 1) ≤ v
      → (d.add ps (b ∷ [])).1 ≡ false
      → Digits (d.add ps (b ∷ [])).0 (v + b)
  added-plain ps b v room below lt value top carry =
      let sum = d.add ps (b ∷ []) in
      let size = laws.length-add ps (b ∷ []) room in
      let digits = laws.Below-add ps (b ∷ []) room below (lt, tt) in
      let exact : eval (base d) sum.0 ≡ v + b = omega (
        arith,
        laws.eval-add ps (b ∷ []) room below (lt, tt),
        value,
        ap (λ (t : Bool). bit t * base d ^ length ps) carry,
      ) in
      record {
        below = digits;
        normalized = top-IsNormalized d laws sum.0 digits (rw (size, exact) (omega (arith, top)));
        value = exact;
      }

  -- The sum of an integer with a word is exact and keeps the sign.
  pub number_abs_add_uword-IsWhole :
      (a : Number) (v b : ℕ) (s : Bool)
      → IsWhole d v s a
      → b < base d
      → IsWhole d (v + b) s (number_abs_add_uword d a b)
  unfolding number_abs_add_uword unsafe_push_word
  number_abs_add_uword-IsWhole a v b s h lt = elim (Bool-cases (b == 0)) [
    | inl z ↦
        let none : b ≡ 0 = (==_iff b 0).0 z in
        rw z (record {
          valid = h.valid;
          scale = h.scale;
          value = omega (arith, h.value, none);
          sign_of = h.sign_of;
        })
    | inr z ↦
        let words = mkuniq-words a in
        let scale : (mkuniq a).scale ≡ 0 = mkuniq-scale a ∙ h.scale in
        let sign : (mkuniq a).sign ≡ s = mkuniq-sign a ∙ h.sign_of in
        let below : Below (base d) (mkuniq a).words = rw words h.valid.below in
        let ints : drop (mkuniq a).scale (mkuniq a).words ≡ a.words =
          ap (λ (t : ℕ). drop t (mkuniq a).words) scale ∙ words in
        let sum = d.add (drop (mkuniq a).scale (mkuniq a).words) (b ∷ []) in
        elim (Bool-cases ((mkuniq a).scale == length (mkuniq a).words)) [
          | inl e ↦
              let empty : a.words ≡ [] =
                no_words a.words (ground (arith, scale, ap length words)) in
              rw (z, e)
                (integer (unsafe_push_word (mkuniq a) b) (b ∷ []) (v + b) s
                  (ap (λ (t : List ℕ). t ++ b ∷ []) (words ∙ empty)) scale sign (lt, tt)
                  (ground arith) (omega (arith, sym h.value ∙ ap (eval (base d)) empty)))
          | inr e ↦
              let room : 0 < length a.words = ground (arith, scale, ap length words) in
              let ps = drop (mkuniq a).scale (mkuniq a).words in
              let some_words : 0 < length ps = omega (arith, room, ap length ints) in
              let digits : Below (base d) ps = rw ints h.valid.below in
              let value : eval (base d) ps ≡ v = ap (eval (base d)) ints ∙ h.value in
              let top : base d ^ (length ps - 1) ≤ v = rw ints (
                omega
                  (arith, top-IsValid d laws a h.valid (omega (arith, h.scale, room)), h.value)) in
              let r = record (mkuniq a) {
                words = take (mkuniq a).scale (mkuniq a).words ++ sum.0;
              } in
              let high : r.words ≡ sum.0 = ap (λ (t : ℕ). take t (mkuniq a).words ++ sum.0) scale in
              elim (Bool-cases sum.1) [
                | inl c ↦
                    let p = added-carry ps b v some_words digits lt value c in
                    rw (z, e, c)
                      (integer (unsafe_push_word r 1) (sum.0 ++ 1 ∷ []) (v + b) s
                        (ap (λ (t : List ℕ). t ++ 1 ∷ []) high) scale sign p.below p.normalized
                        p.value)
                | inr c ↦
                    let p = added-plain ps b v some_words digits lt value top c in
                    rw (z, e, c)
                      (integer r sum.0 (v + b) s high scale sign p.below p.normalized p.value)
              ]
        ]
  ]
