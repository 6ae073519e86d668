-- ===== src/Number/Text/Parse.antt =====
-- number.c: number_parse_base_validate and number_parse. A word has `bits` bits. The text that is
-- parsed holds digits, quotes and at most one period, which the lexer and the validation see to.
use mathlib.Core.Option
use calx.Base.{
  ℕ, zero, suc, ◌+◌, ◌-◌, ◌*◌, ◌/◌, ◌%◌, ◌^◌, Bool, true, false, ◌&&◌, Option, none, some, List, [],
  ◌∷◌, ◌++◌, Bytes, in_range, length, take, drop, leb, ◌==◌, if◌then◌else◌,
}
use calx.Number.Deci.{Deci}
use calx.Number.Defs.{Number, allocate}

-- memchr: the bytes before the first `c`, and those behind it
unfoldable pub span_memchr : ℕ → Bytes → Option (Bytes × Bytes)
span_memchr c [] = none
span_memchr c (x ∷ s) =
    let later = Option.map (λ found. (x ∷ found.0, found.1)) (span_memchr c s) in
    if x == c then some ([], s) else later

-- The segments between the quotes are copied one behind another; `segment` starts at `s` in C.
unfoldable pub copy_remove_sq : Bytes → Bytes → Bytes
copy_remove_sq segment [] = segment
copy_remove_sq segment (c ∷ s) =
    let next = segment ++ copy_remove_sq [] s in
    let same = copy_remove_sq (segment ++ c ∷ []) s in if c == b'\'' then next else same

-- 255 is (uint8_t) -1
unfoldable pub decode : ℕ → ℕ
decode c =
    if in_range b'0' b'9' c
    then c - b'0'
    else if in_range b'a' b'z' c
    then c - b'a' + 10
    else if in_range b'A' b'Z' c
    then c - b'A' + 10
    else 255

unfoldable pub validate_loop : ℕ → Bytes → Bool → Bool → Bool
unfolding decode
validate_loop base [] seen_digit seen_dot = seen_digit
validate_loop base (c ∷ s) seen_digit seen_dot =
    let dot = validate_loop base s seen_digit true in
    let quote = validate_loop base s seen_digit seen_dot in
    let digit = validate_loop base s true seen_dot in
    if c == b'.'
    then (if seen_dot then false else dot)
    else if c == b'\''
    then quote
    else if leb base (decode c)
    then false
    else digit

-- without the minus at the start
unfoldable pub skip_minus : Bytes → Bool × Bytes
skip_minus [] = (false, [])
skip_minus (c ∷ s) = if c == b'-' then (true, s) else (false, c ∷ s)

unfoldable pub number_parse_base_validate : ℕ → Bytes → Bool
unfolding validate_loop skip_minus
number_parse_base_validate base s = validate_loop base (skip_minus s).1 false false

-- r *= 10; r += *s - '0'
unfoldable pub parse_digits : ℕ → Bytes → ℕ → ℕ
parse_digits bits [] r = r
parse_digits bits (c ∷ s) r = parse_digits bits s ((r * 10 % 2 ^ bits + (c - b'0')) % 2 ^ bits)

unfoldable pub pad_digits : ℕ → ℕ → ℕ → ℕ
pad_digits bits zero r = r
pad_digits bits (suc n) r = pad_digits bits n (r * 10 % 2 ^ bits)

unfoldable pub parse_word : ℕ → Bytes → ℕ
unfolding parse_digits
parse_word bits s = parse_digits bits s 0

unfoldable pub skip_zeros : Bytes → Bytes
skip_zeros [] = []
skip_zeros (c ∷ s) = let rest = skip_zeros s in if c == b'0' then rest else c ∷ s

-- while (s_end[-1] == c) --s_end
unfoldable pub strip_end : ℕ → Bytes → Bytes
strip_end c [] = []
strip_end c (x ∷ s) =
    let rest = strip_end c s in if length rest == 0 && x == c then [] else x ∷ rest

module _ (d : Deci) (bits : ℕ) where
  unfoldable pub parse_word_pad : Bytes → ℕ
  unfolding parse_word pad_digits
  parse_word_pad s = pad_digits bits (d.base_log - length s) (parse_word bits s)

  unfoldable pub parse_nchars_to_nwords : ℕ → ℕ
  parse_nchars_to_nwords n = n / d.base_log + (if n % d.base_log == 0 then 0 else 1)

  -- The words of the integer part, the least significant one from the end of the text.
  unfoldable pub parse_int_part : ℕ → Bytes → List ℕ
  unfolding parse_word
  parse_int_part zero s = []
  parse_int_part (suc zero) s = parse_word bits s ∷ []
  parse_int_part (suc (suc n)) s =
      let p = length s - d.base_log in
      parse_word bits (drop p s) ∷ parse_int_part (suc n) (take p s)

  -- The words of the fraction, the most significant one from the start of the text.
  unfoldable pub parse_frac_part : ℕ → Bytes → List ℕ
  unfolding parse_word parse_word_pad
  parse_frac_part zero s = []
  parse_frac_part (suc zero) s = parse_word_pad s ∷ []
  parse_frac_part (suc (suc n)) s =
      parse_frac_part (suc n) (drop d.base_log s) ++ parse_word bits (take d.base_log s) ∷ []

  -- the two parts, once the period is found or not; trailing zeros of a fraction are dropped, where
  -- the period itself stops the loop at the latest
  unfoldable pub parse_parts : Bool → Bytes → Option (Bytes × Bytes) → Number
  unfolding allocate parse_nchars_to_nwords
  parse_parts sign s (some (before, after)) =
      let fraction = strip_end b'0' after in
      let frac_nwords = parse_nchars_to_nwords (length fraction) in
      allocate sign
        (parse_frac_part frac_nwords fraction
          ++ parse_int_part (parse_nchars_to_nwords (length before)) before)
        frac_nwords
  parse_parts sign s none = allocate sign (parse_int_part (parse_nchars_to_nwords (length s)) s) 0

  unfoldable pub parse_no_sq : Bytes → Number
  unfolding skip_minus skip_zeros parse_parts
  parse_no_sq s =
      let (sign, text) = skip_minus s in
      let digits = skip_zeros text in parse_parts sign digits (span_memchr b'.' digits)

  unfoldable pub number_parse : Bytes → Number
  unfolding parse_no_sq
  number_parse s = elim (span_memchr b'\'' s) [
    | some found ↦ parse_no_sq (copy_remove_sq [] s)
    | none ↦ parse_no_sq s
  ]
