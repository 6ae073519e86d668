-- ===== src/Vm/Arithmetic.antt =====
-- vm.c: what perform_aop gives for numbers.
use calx.Base.{
  ℕ, ◌+◌, ◌*◌, ◌/◌, ◌%◌, ◌^◌, ◌<◌, ◌≡◌, refl, ◌∙◌, ◌⊎◌, inl, inr, Bool, arith, length, ◌==◌, ==_iff,
  if◌then◌else◌, Bool-cases, length-drop, List, [], ◌∷◌,
}
use calx.Number.Add.Defs.{xor}
use calx.Number.Compare.Order.{number_is_zero-eval}
use calx.Number.Deci.{Deci, base, DeciLaws}
use calx.Number.Defs.{Number, IsValid, number_is_izero, int_part}
use calx.Number.Div.Exact.{number_div-Truncated}
use calx.Number.Div.Truncate.{Truncated}
use calx.Number.Round.Parts.{IsWhole}
use calx.Number.Div.Whole.{number_idiv-IsWhole, number_imod-IsWhole}
use calx.Number.Fancy.Spans.{SpanOps, SpanLaws}
use calx.Number.Words.{eval, IsNormalized, IsNormalized-le, pow_pos}
use calx.Ntp.{NumberTruncateParams}
use calx.Vm.Aop.{perform_aop, numbers, oprepr}
use calx.Vm.Values.{
  Value, num, kind, AritOp, attempt_to_compute, aop_div, aop_idiv, aop_mod, division_by_zero,
  Perform, result, failed,
}

-- an error for the divisor zero, and else a number with this property
abbrev pub Divides : (Number → Type 0) → ℕ → Perform Value → Type 0
Divides P v r =
    ((v ≡ 0) × (r ≡ failed division_by_zero))
    ⊎ ((0 < v) × ((n : Number) × (r ≡ result (num n)) × P n))

Divides-by :
    (P : Number → Type 0) (v : ℕ) (zero_test : Bool) (n : Number)
    → zero_test ≡ (v == 0)
    → (0 < v → P n)
    → Divides P v (if zero_test then failed division_by_zero else result (num n))
Divides-by P v zero_test n e p = elim (Bool-cases (v == 0)) [
  | inl z ↦ inl ((==_iff v 0).0 z, rw (e, z) refl)
  | inr z ↦ inr (ground arith, (n, rw (e, z) refl, p (ground arith)))
]

-- for two numbers this, and else the error that names the kinds and the operator
abbrev pub Operates :
    (Number → Number → Perform Value → Type 0) → AritOp → Value → Value → Perform Value → Type 0
Operates P aop (num m) (num n) r = P m n r
Operates P aop v w r = r ≡ failed (attempt_to_compute (kind v) (oprepr aop) (kind w))

-- an operand that is valid if it is a number
abbrev pub IsOperand : Deci → Value → Type 0
IsOperand d (num n) = IsValid d n
IsOperand d _ = Unit

numbers-Operates :
    (d : Deci) (P : Number → Number → Perform Value → Type 0) (aop : AritOp)
    (f : Number → Number → Perform Value)
    → ((m n : Number) → IsValid d m → IsValid d n → P m n (f m n))
    → (v w : Value) → IsOperand d v
    → IsOperand d w
    → Operates P aop v w (numbers d aop v w f)
unfolding numbers
numbers-Operates d P aop f h (num m) (num n) vm vn = h m n vm vn
numbers-Operates d P aop f h (num m) _ vm vn = refl
numbers-Operates d P aop f h _ w vm vn = refl

module _ (d : Deci) (laws : DeciLaws d) where
  izero_words : (ws : List ℕ) → IsNormalized ws → (length ws == 0) ≡ (eval (base d) ws == 0)
  izero_words [] h = refl
  izero_words (w ∷ ws) h =
      let positive = pow_pos 10 d.base_log (omega arith) in
      let top = IsNormalized-le (base d) w ws positive h in
      let more = pow_pos (base d) (length ws) positive in ground (arith, top, more)

  number_is_izero-eval :
      (a : Number) → IsValid d a → number_is_izero d a ≡ (eval (base d) (int_part a) == 0)
  unfolding number_is_izero
  number_is_izero-eval a v =
      ground (arith, length-drop a.scale a.words, v.scale_fits)
      ∙ izero_words (int_part a) v.normalized

  module _ (x : SpanOps) (span : SpanLaws d x) (same : Number → Number → Bool)
      (ntp : NumberTruncateParams) where
    -- The division of the machine, of valid operands: of two numbers it is an error just for the divisor
    -- zero, and else the quotient, cut at the precision of the machine; of any other operands it is the
    -- error that names their kinds. The base is a multiple of submod.
    pub perform_aop-Truncated :
        (v w : Value) (k : ℕ)
        → IsOperand d v
        → IsOperand d w
        → base d ≡ ntp.submod * k
        → Operates
            (λ m n.
              Divides
                (Truncated d ntp
                  (eval (base d) m.words
                    * base d ^ (ntp.scale + n.scale)
                    / (eval (base d) n.words * base d ^ m.scale))
                  (xor m.sign n.sign))
                (eval (base d) n.words))
            aop_div
            v
            w
            (perform_aop d x same ntp aop_div v w)
    unfolding perform_aop
    perform_aop-Truncated v w k ov ow whole_base =
        numbers-Operates d _ aop_div _
          (λ m n vm vn.
            Divides-by _ _ _ _ (number_is_zero-eval d laws n vn)
              (λ h. number_div-Truncated d laws x span m n ntp k vm vn h whole_base))
          v w ov ow

    -- The whole quotient and the remainder of the machine, of valid operands: of two numbers they are an
    -- error just where the integer part of the divisor is zero, and else those of the integer parts, with
    -- the sign of a quotient and of the dividend; of any other operands they are the error that names
    -- their kinds.
    pub perform_aop-IsWhole :
        (v w : Value)
        → IsOperand d v
        → IsOperand d w
        → Operates
            (λ m n.
              Divides
                (IsWhole d
                  (eval (base d) (int_part m) / eval (base d) (int_part n))
                  (xor m.sign n.sign))
                (eval (base d) (int_part n)))
            aop_idiv
            v
            w
            (perform_aop d x same ntp aop_idiv v w)
          × Operates
              (λ m n.
                Divides
                  (IsWhole d (eval (base d) (int_part m) % eval (base d) (int_part n)) m.sign)
                  (eval (base d) (int_part n)))
              aop_mod
              v
              w
              (perform_aop d x same ntp aop_mod v w)
    unfolding perform_aop
    perform_aop-IsWhole v w ov ow = (
      numbers-Operates d _ aop_idiv _
          (λ m n vm vn.
            Divides-by _ _ _ _ (number_is_izero-eval n vn)
              (number_idiv-IsWhole d laws x span m n vm vn))
          v w ov ow,
      numbers-Operates d _ aop_mod _
          (λ m n vm vn.
            Divides-by _ _ _ _ (number_is_izero-eval n vn)
              (number_imod-IsWhole d laws x span m n vm vn))
          v w ov ow,
    )
