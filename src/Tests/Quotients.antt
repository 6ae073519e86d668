-- ===== src/Tests/Quotients.antt =====
-- Products, powers and quotients at concrete inputs, on one decimal digit a word.
use calx.Base.{refl, ◌<◌, ◌*◌, ◌/◌, ◌^◌, ◌≡◌, true, false, some, [], ◌∷◌, arith}
use calx.Number.Add.Defs.{xor}
use calx.Number.Deci.{base}
use calx.Number.Defs.{Number, IsValid}
use calx.Number.Div.Defs.{number_div}
use calx.Number.Div.Exact.{number_div-Truncated}
use calx.Number.Div.Truncate.{Truncated}
use calx.Number.Mul.Defs.{number_mul, number_pow_zu}
use calx.Number.Mul.Normalize.{Scaled}
use calx.Number.Mul.Power.{IsPower, number_pow_zu-IsPower}
use calx.Number.Mul.Product.{number_mul-value}
use calx.Number.Scale.Defs.{number_scale_down, number_scale_up}
use calx.Number.Scale.Exact.{number_scale_down-Scaled}
use calx.Number.Scale.Word.{number_scale_up-Scaled}
use calx.Base.{codes}
use calx.Number.Text.Parse.{number_parse_base_validate}
use calx.Number.Radix.Defs.{number_parse_base}
use calx.Number.Radix.Parse.{Parsed, number_parse_base-Parsed}
use calx.Number.Words.{eval}
use calx.Ntp.{NumberTruncateParams}
use calx.Tests.Decimal.{decimal, decimal_laws}
use calx.Tests.Spans.{decimal_spans, decimal_span_laws}

-- 12.5 and -3.4
abbrev pub twelve_half : Number
twelve_half = record { nrefs = 1; sign = false; words = 5 ∷ 2 ∷ 1 ∷ []; scale = 1 }

abbrev pub minus_three : Number
minus_three = record { nrefs = 2; sign = true; words = 4 ∷ 3 ∷ []; scale = 1 }

pub twelve_half-IsValid : IsValid decimal twelve_half
unfolding decimal
twelve_half-IsValid = record {
  scale_fits = omega arith;
  normalized = omega arith;
  below = (omega arith, (omega arith, (omega arith, tt)));
}

pub minus_three-IsValid : IsValid decimal minus_three
unfolding decimal
minus_three-IsValid = record {
  scale_fits = omega arith;
  normalized = omega arith;
  below = (omega arith, (omega arith, tt));
}

-- two words of fraction, all digits kept
abbrev pub two_words : NumberTruncateParams
two_words = record { scale = 2; submod = 1 }

number_mul-value_example :
    Scaled decimal
      (number_mul decimal decimal_spans false twelve_half minus_three)
      (eval (base decimal) twelve_half.words * eval (base decimal) minus_three.words)
      2
    × IsValid decimal (number_mul decimal decimal_spans false twelve_half minus_three)
    × ((number_mul decimal decimal_spans false twelve_half minus_three).sign ≡ xor false true)
number_mul-value_example =
    number_mul-value decimal decimal_laws decimal_spans decimal_span_laws false twelve_half
      minus_three (λ h. ground arith) twelve_half-IsValid minus_three-IsValid

number_pow_zu-IsPower_example :
    (r : Number) × (number_pow_zu decimal decimal_spans minus_three 5 ≡ some r)
    × IsPower decimal decimal_laws decimal_spans decimal_span_laws
        (eval (base decimal) minus_three.words)
        1
        true
        5
        r
number_pow_zu-IsPower_example =
    number_pow_zu-IsPower decimal decimal_laws decimal_spans decimal_span_laws minus_three 5
      minus_three-IsValid (omega arith)

number_div-Truncated_example :
    Truncated decimal two_words
      (eval (base decimal) twelve_half.words
        * base decimal ^ 3
        / (eval (base decimal) minus_three.words * base decimal ^ 1))
      (xor false true)
      (number_div decimal decimal_spans twelve_half minus_three two_words)
unfolding decimal
number_div-Truncated_example =
    number_div-Truncated decimal decimal_laws decimal_spans decimal_span_laws twelve_half
      minus_three two_words 10 twelve_half-IsValid minus_three-IsValid (omega arith) (omega arith)

number_scale_down-Scaled_example :
    Scaled decimal
      (number_scale_down decimal decimal_spans twelve_half 3)
      (eval (base decimal) twelve_half.words * 10 ^ 1)
      5
    × IsValid decimal (number_scale_down decimal decimal_spans twelve_half 3)
    × ((number_scale_down decimal decimal_spans twelve_half 3).sign ≡ false)
unfolding decimal
number_scale_down-Scaled_example =
    number_scale_down-Scaled decimal decimal_laws decimal_spans decimal_span_laws twelve_half 3
      twelve_half-IsValid

number_scale_up-Scaled_example :
    (r : Number) × (number_scale_up decimal minus_three 2 ≡ some r)
    × Scaled decimal r (eval (base decimal) minus_three.words * 10 ^ 2) 1
    × IsValid decimal r
    × (r.sign ≡ true)
number_scale_up-Scaled_example =
    number_scale_up-Scaled decimal decimal_laws decimal_spans decimal_span_laws minus_three 2
      minus_three-IsValid

octal_small : 8 < base decimal
unfolding decimal
octal_small = omega arith

-- -7.5 in octal
number_parse_base-Parsed_example :
    (r : Number) × (number_parse_base decimal decimal_spans (codes "-7.5") 8 two_words ≡ some r)
    × Parsed decimal decimal_laws decimal_spans decimal_span_laws 8 octal_small two_words 1 61 true
        r
unfolding decimal number_parse_base_validate
number_parse_base-Parsed_example =
    number_parse_base-Parsed decimal decimal_laws decimal_spans decimal_span_laws 8 octal_small
      (codes "-7.5") two_words 10 refl (omega arith) (omega arith) (omega arith) refl
