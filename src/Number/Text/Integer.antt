-- ===== src/Number/Text/Integer.antt =====
-- number.c: number_parse, on the text of an integer.
use native.Mathlib.Nat.{
  div-add-mod, mod-lt, zero-mod, div-eq_of_lt, pow-suc, pow-le-pow_right, mul-le-mul_right,
}
use calx.Base.{
  ℕ, zero, suc, ◌+◌, ◌-◌, ◌*◌, ◌/◌, ◌%◌, ◌^◌, ◌≤◌, ◌<◌, ◌≡◌, refl, ap, ◌∙◌, inl, inr, true, false,
  none, List, [], ◌∷◌, Bytes, arith, length, ◌==◌, ==_iff, if◌then◌else◌, Bool-cases,
}
use calx.Number.Deci.{Deci, base}
use calx.Number.Defs.{Number, IsValid, allocate}
use calx.Number.Text.Decimal.{decimal_from, decimal_from-shift, AllDigits, parse_int_part-decimal}
use calx.Number.Text.Parse.{
  span_memchr, skip_minus, skip_zeros, parse_parts, parse_no_sq, number_parse, parse_int_part,
  parse_nchars_to_nwords,
}
use calx.Number.Words.{eval, Below, IsNormalized, le-IsNormalized, pow_zero, pow-add}

span_memchr-AllDigits : (c : ℕ) (s : Bytes) → c < b'0' → AllDigits s → span_memchr c s ≡ none
unfolding span_memchr
span_memchr-AllDigits c [] h a = refl
span_memchr-AllDigits c (x ∷ s) h a =
    let other : (x == c) ≡ false = let low = a.0.0 in ground arith in
    rw (other, span_memchr-AllDigits c s h (a.1))

skip_minus-AllDigits : (s : Bytes) → AllDigits s → skip_minus s ≡ (false, s)
unfolding skip_minus
skip_minus-AllDigits [] a = refl
skip_minus-AllDigits (c ∷ s) a =
    let other : (c == b'-') ≡ false = let low = a.0.0 in ground arith in rw other refl

skip_zeros-AllDigits : (s : Bytes) → AllDigits s → AllDigits (skip_zeros s)
unfolding skip_zeros
skip_zeros-AllDigits [] a = tt
skip_zeros-AllDigits (c ∷ s) a = elim (Bool-cases (c == b'0')) [
  | inl e ↦ rw e (skip_zeros-AllDigits s a.1)
  | inr e ↦ rw e a
]

decimal_from-skip_zeros : (s : Bytes) → decimal_from 0 (skip_zeros s) ≡ decimal_from 0 s
unfolding skip_zeros decimal_from
decimal_from-skip_zeros [] = refl
decimal_from-skip_zeros (c ∷ s) = elim (Bool-cases (c == b'0')) [
  | inl e ↦ let z : 0 * 10 + (c - b'0') ≡ 0 = ground arith in rw (e, z) (decimal_from-skip_zeros s)
  | inr e ↦ rw e refl
]

-- no zero at the start
abbrev Leads : Bytes → Type 0
Leads [] = Unit
Leads (c ∷ s) = (c == b'0') ≡ false

skip_zeros-Leads : (s : Bytes) → Leads (skip_zeros s)
unfolding skip_zeros
skip_zeros-Leads [] = tt
skip_zeros-Leads (c ∷ s) = elim (Bool-cases (c == b'0')) [
  | inl e ↦ rw e (skip_zeros-Leads s)
  | inr e ↦ rw e e
]

power_of_power : (b k n : ℕ) → (b ^ k) ^ n ≡ b ^ (k * n)
power_of_power b k zero =
    let e : k * 0 ≡ 0 = omega arith in rw e (omega (arith, pow_zero b, pow_zero (b ^ k)))
power_of_power b k (suc n) =
    let e : k * suc n ≡ k * n + k = omega arith in
    rw (e, pow-suc (b ^ k) n, pow-add b (k * n) k, power_of_power b k n) (omega arith)

-- the first digit is worth a power of ten
decimal_from-large :
    (c : ℕ) (s : Bytes) → b'0' ≤ c → (c == b'0') ≡ false → 10 ^ length s ≤ decimal_from 0 (c ∷ s)
unfolding decimal_from
decimal_from-large c s low e =
    let one : 1 ≤ 0 * 10 + (c - b'0') = ground arith in
    rw (decimal_from-shift (0 * 10 + (c - b'0')) s)
      (omega (arith, mul-le-mul_right (10 ^ length s) one))

module _ (d : Deci) (bits : ℕ) (positive : 0 < d.base_log) (fits : base d ≤ 2 ^ bits) where
  enough_words : (n : ℕ) → n ≤ parse_nchars_to_nwords d bits n * d.base_log
  unfolding parse_nchars_to_nwords
  enough_words n = elim (Bool-cases (n % d.base_log == 0)) [
    | inl e ↦
        let z : n % d.base_log ≡ 0 = (==_iff _ 0).0 e in
        rw e (omega (arith, div-add-mod n d.base_log))
    | inr e ↦ rw e (omega (arith, div-add-mod n d.base_log, mod-lt n positive))
  ]

  few_exact :
      (n q : ℕ)
      → suc n % d.base_log ≡ 0
      → q ≡ suc n / d.base_log
      → (suc n % d.base_log == 0) ≡ true
      → d.base_log * (suc n / d.base_log + (if suc n % d.base_log == 0 then 0 else 1) - 1) ≤ n
  few_exact n zero z q e = rw (e, ← q) (omega (arith, positive))
  few_exact n (suc q) z h e =
      let k : suc q + 0 - 1 ≡ q = omega arith in
      let whole : d.base_log * suc q ≡ suc n =
        omega (arith, ap (λ (t : ℕ). d.base_log * t) h, div-add-mod (suc n) d.base_log) in
      rw (e, ← h, k) (omega arith)

  few_words : (n : ℕ) → d.base_log * (parse_nchars_to_nwords d bits (suc n) - 1) ≤ n
  unfolding parse_nchars_to_nwords
  few_words n = elim (Bool-cases (suc n % d.base_log == 0)) [
    | inl e ↦ few_exact n (suc n / d.base_log) ((==_iff _ 0).0 e) refl e
    | inr e ↦
        let more : 0 < suc n % d.base_log = ground arith in
        let k : suc n / d.base_log + 1 - 1 ≡ suc n / d.base_log = omega arith in
        rw (e, k) (omega (arith, div-add-mod (suc n) d.base_log))
  ]

  length-parse_int_part : (n : ℕ) (s : Bytes) → length (parse_int_part d bits n s) ≡ n
  unfolding parse_int_part
  length-parse_int_part zero s = refl
  length-parse_int_part (suc zero) s = refl
  length-parse_int_part (suc (suc n)) s = ap suc (length-parse_int_part (suc n) _)

  IsNormalized-large :
      (ws : List ℕ)
      → Below (base d) ws
      → base d ^ (length ws - 1) ≤ eval (base d) ws
      → IsNormalized ws
  IsNormalized-large [] h le = tt
  IsNormalized-large (w ∷ ws) h le =
      let e : suc (length ws) - 1 ≡ length ws = omega arith in
      le-IsNormalized (base d) w ws h (rw (← e) le)

  no_words : parse_nchars_to_nwords d bits 0 ≡ 0
  unfolding parse_nchars_to_nwords
  no_words = rw (div-eq_of_lt positive, zero-mod d.base_log) refl

  -- digits without a zero at the start
  int_part-IsNormalized :
      (s : Bytes)
      → AllDigits s
      → Leads s
      → IsNormalized (parse_int_part d bits (parse_nchars_to_nwords d bits (length s)) s)
  int_part-IsNormalized [] a l = rw no_words (unfold parse_int_part in tt)
  int_part-IsNormalized (c ∷ s) a l =
      let n = parse_nchars_to_nwords d bits (suc (length s)) in
      let (v, below) =
        parse_int_part-decimal d bits fits n (c ∷ s) a (enough_words (suc (length s))) in
      let small : 10 ^ (d.base_log * (n - 1)) ≤ 10 ^ length s =
        pow-le-pow_right (omega arith) (few_words (length s)) in
      IsNormalized-large (parse_int_part d bits n (c ∷ s)) below (
        rw (length-parse_int_part n (c ∷ s), v, power_of_power 10 d.base_log (n - 1))
          (omega (arith, small, decimal_from-large c s (a.0.0) l)))

  parsed : Bytes → Number
  parsed t = allocate false (parse_int_part d bits (parse_nchars_to_nwords d bits (length t)) t) 0

  parse_no_sq-parsed : (s : Bytes) → AllDigits s → parse_no_sq d bits s ≡ parsed (skip_zeros s)
  unfolding parse_no_sq parse_parts parsed
  parse_no_sq-parsed s a =
      rw (skip_minus-AllDigits s a) (
        rw (span_memchr-AllDigits b'.' (skip_zeros s) (omega arith) (skip_zeros-AllDigits s a))
          refl)

  number_parse-parsed : (s : Bytes) → AllDigits s → number_parse d bits s ≡ parsed (skip_zeros s)
  unfolding number_parse
  number_parse-parsed s a =
      rw (number_parse, span_memchr-AllDigits b'\'' s (omega arith) a) (parse_no_sq-parsed s a)

  -- The text of digits is parsed as the number with that decimal value, which has no sign and no
  -- fraction and meets the invariants of number.h. A word holds the base, a power of ten with a
  -- positive exponent.
  pub number_parse-integer :
      (s : Bytes)
      → AllDigits s
      → let a = number_parse d bits s in
        IsValid d a × (a.sign ≡ false) × (a.scale ≡ 0) × (eval (base d) a.words ≡ decimal_from 0 s)
  unfolding parsed allocate
  number_parse-integer s h =
      let t = skip_zeros s in
      let n = parse_nchars_to_nwords d bits (length t) in
      let digits = skip_zeros-AllDigits s h in
      let (v, below) = parse_int_part-decimal d bits fits n t digits (enough_words (length t)) in
      rw (number_parse-parsed s h) (
        record {
          scale_fits = omega arith;
          normalized = int_part-IsNormalized t digits (skip_zeros-Leads s);
          below = below;
        },
        refl,
        refl,
        v ∙ decimal_from-skip_zeros s,
      )
