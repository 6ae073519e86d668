-- ===== src/Number/Radix/Defs.antt =====
-- number.c: number_parse_base and number_tostring_base. The text that is parsed has passed
-- number_parse_base_validate.
use mathlib.Core.List.{reverse}
use mathlib.Core.Option
use calx.Base.{
  ℕ, zero, suc, ◌+◌, ◌*◌, Bool, true, false, Option, some, List, [], ◌∷◌, ◌++◌, Bytes, codes,
  get_or, length, take, ltb, ◌==◌, if◌then◌else◌,
}
use calx.Number.Add.Defs.{number_abs_add_uword, number_negate}
use calx.Number.Convert.Defs.{number_new_from_zu}
use calx.Number.Deci.{Deci, base}
use calx.Number.Defs.{Number, int_part, frac_part}
use calx.Number.Div.Defs.{number_div}
use calx.Number.Fancy.Spans.{SpanOps}
use calx.Number.Mul.Defs.{number_pow_zu}
use calx.Number.Round.Defs.{number_mul_uword}
use calx.Number.Text.Parse.{decode, skip_minus}
use calx.Number.Text.Print.{finalize_tostring}
use calx.Number.Words.{eval}
use calx.Ntp.{NumberTruncateParams}

module _ (d : Deci) where
  unfoldable pub push_digit : ℕ → ℕ → Number → Option Number
  unfolding number_mul_uword number_abs_add_uword
  push_digit radix c a =
      Option.map (λ a'. number_abs_add_uword d a' (decode c)) (number_mul_uword d a radix)

  -- the number, and how many digits stand behind the period; `none` stands for no result of
  -- number_mul_uword
  unfoldable pub parse_base_loop : ℕ → Bytes → Bool → ℕ → Number → Option (Number × ℕ)
  unfolding push_digit
  parse_base_loop radix [] seen_dot base_scale a = some (a, base_scale)
  parse_base_loop radix (c ∷ s) seen_dot base_scale a =
      let more = if seen_dot then suc base_scale else base_scale in
      if c == b'.'
      then parse_base_loop radix s true base_scale a
      else if c == b'\''
      then parse_base_loop radix s seen_dot base_scale a
      else Option.bind (push_digit radix c a) (parse_base_loop radix s seen_dot more)

  -- the value of the digits over the power of the base
  unfoldable pub divide_scale : SpanOps → ℕ → NumberTruncateParams → Number → ℕ → Option Number
  unfolding number_pow_zu number_div
  divide_scale x radix ntp a base_scale =
      let divisor =
        Option.bind (number_new_from_zu d radix) (λ r. number_pow_zu d x r base_scale) in
      if base_scale == 0 then some a else Option.map (λ r. number_div d x a r ntp) divisor

  unfoldable pub number_parse_base : SpanOps → Bytes → ℕ → NumberTruncateParams → Option Number
  unfolding parse_base_loop divide_scale
  number_parse_base x s radix ntp =
      let (negate, digits) = skip_minus s in
      Option.map (λ a. if negate then number_negate a else a)
        (Option.bind (number_new_from_zu d 0) (λ zero_number.
          Option.bind (parse_base_loop radix digits false 0 zero_number)
            (λ parsed. divide_scale x radix ntp parsed.0 parsed.1)))

  abbrev chars : Bytes
  chars = codes "0123456789ABCDEFGHIJKLMNOPQRSTUVWXYZ"

  -- the digits of the integer part, the lowest first, on fuel: a round takes the words to a smaller
  -- value
  unfoldable pub int_digits : SpanOps → ℕ → ℕ → List ℕ → Bytes
  int_digits x radix zero ws = []
  int_digits x radix (suc fuel) [] = []
  int_digits x radix (suc fuel) (w ∷ ws) =
      let r = x.divmod_uword (w ∷ ws) radix in
      get_or chars r.1 0 ∷ int_digits x radix fuel (take (d.normalize_n r.0) r.0)

  unfoldable pub frac_chars : ℕ → ℕ → List ℕ → Bytes
  frac_chars radix zero ws = []
  frac_chars radix (suc nfrac) ws =
      let r = d.mul_uword ws radix in get_or chars r.1 0 ∷ frac_chars radix nfrac r.0

  -- The zeros at the end of the fraction are dropped, and a period behind which nothing is left. The
  -- helpers take the characters in the reverse order.
  unfoldable pub drop_zeros : Bytes → Bytes
  drop_zeros [] = []
  drop_zeros (c ∷ s) = let rest = drop_zeros s in if c == b'0' then rest else c ∷ s

  unfoldable pub drop_period : Bytes → Bytes
  drop_period [] = []
  drop_period (c ∷ s) = if c == b'.' then s else c ∷ s

  unfoldable pub number_tostring_base : SpanOps → Number → ℕ → ℕ → Bytes
  unfolding int_digits frac_chars drop_zeros drop_period
  number_tostring_base x a radix nfrac =
      let ints = int_digits x radix (suc (eval (base d) (int_part a))) (int_part a) in
      let low = if length ints == 0 then b'0' ∷ [] else ints in
      let whole = reverse (low ++ (if a.sign then b'-' ∷ [] else [])) in
      let all = whole ++ b'.' ∷ frac_chars radix nfrac (frac_part a) in
      finalize_tostring (reverse (drop_period (drop_zeros (reverse all))))

  -- how many digits of a base a word has at most, on fuel; 2 ^ 4 is more than 10
  unfoldable pub digits_per_word : ℕ → ℕ → ℕ → ℕ
  digits_per_word radix zero bound = 0
  digits_per_word radix (suc fuel) bound =
      let rest = suc (digits_per_word radix fuel (bound * radix)) in
      if ltb bound (base d) then rest else 0

  unfoldable pub number_tostring_base_size : Number → ℕ → ℕ → ℕ
  unfolding digits_per_word
  number_tostring_base_size a radix nfrac =
      3 + (nfrac + length a.words * digits_per_word radix (4 * d.base_log) 1)
