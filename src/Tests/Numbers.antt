-- ===== src/Tests/Numbers.antt =====
-- Numbers at concrete inputs, on one decimal digit a word.
use mathlib.Core.Option
use calx.Base.{
  ◌+◌, codes, ◌-◌, ◌*◌, ◌/◌, ◌%◌, ◌^◌, ◌≡◌, refl, true, false, some, [], ◌∷◌, arith, min,
}
use calx.Base.Int.{◌+ℤ◌, ◌-ℤ◌}
use calx.Number.Add.Defs.{number_add, number_sub}
use calx.Number.Add.Exact.{value_at, number_add-value, number_sub-value}
use calx.Number.Add.Valid.{number_add_sub-IsValid}
use calx.Number.Compare.Defs.{number_compare}
use calx.Number.Compare.Order.{order_zero, number_compare-value}
use calx.Number.Round.Half.{number_round-IsWhole}
use calx.Number.Round.Parts.{IsWhole}
use calx.Number.Round.Defs.{number_round, number_floor, number_ceil}
use calx.Number.Round.Whole.{ceiling, number_floor-IsWhole, number_ceil-IsWhole}
use calx.Number.Text.Decimal.{decimal_from, AllDigits}
use calx.Number.Text.Integer.{number_parse-integer}
use calx.Number.Text.Parse.{number_parse}
use calx.Number.Convert.Bits.{Makes, number_bit_shl-value, number_bit_lshr-value}
use calx.Number.Convert.Defs.{
  number_new_from_zu, number_to_zu, number_to_u32, number_bit_shl, number_bit_lshr, size_mod,
  u32_mod,
}
use calx.Number.Convert.New.{number_new_from_zu-value}
use calx.Number.Convert.Read.{number_to_zu-min, number_to_zu-number_new_from_zu, number_to_u32-mod}
use calx.Number.Deci.{base}
use calx.Number.Defs.{number_is_fzero, mkuniq_scale_down, allocate, Number, IsValid}
use calx.Number.Words.{eval}
use calx.Tests.Decimal.{decimal, decimal_laws}

-- 12.5 and -7.25
abbrev twelve : Number
twelve = record { nrefs = 1; sign = false; words = 5 ∷ 2 ∷ 1 ∷ []; scale = 1 }

abbrev minus_seven : Number
minus_seven = record { nrefs = 2; sign = true; words = 5 ∷ 2 ∷ 7 ∷ []; scale = 2 }

twelve-IsValid : IsValid decimal twelve
unfolding decimal
twelve-IsValid = record {
  scale_fits = omega arith;
  normalized = omega arith;
  below = (omega arith, (omega arith, (omega arith, tt)));
}

minus_seven-IsValid : IsValid decimal minus_seven
unfolding decimal
minus_seven-IsValid = record {
  scale_fits = omega arith;
  normalized = omega arith;
  below = (omega arith, (omega arith, (omega arith, tt)));
}

number_add-value_example :
    (value_at decimal 2 (number_add decimal twelve minus_seven)
      ≡ value_at decimal 2 twelve +ℤ value_at decimal 2 minus_seven)
    × ((number_add decimal twelve minus_seven).scale ≡ 2)
number_add-value_example =
    number_add-value decimal decimal_laws twelve minus_seven twelve-IsValid minus_seven-IsValid

number_sub-value_example :
    (value_at decimal 2 (number_sub decimal twelve minus_seven)
      ≡ value_at decimal 2 twelve -ℤ value_at decimal 2 minus_seven)
    × ((number_sub decimal twelve minus_seven).scale ≡ 2)
number_sub-value_example =
    number_sub-value decimal decimal_laws twelve minus_seven twelve-IsValid minus_seven-IsValid

number_add_sub-IsValid_example :
    IsValid decimal (number_add decimal minus_seven twelve)
    × IsValid decimal (number_sub decimal minus_seven twelve)
number_add_sub-IsValid_example =
    number_add_sub-IsValid decimal decimal_laws minus_seven twelve minus_seven-IsValid
      twelve-IsValid

number_new_from_zu-value_example :
    (a : Number) × (number_new_from_zu decimal 1234567 ≡ some a)
    × IsValid decimal a
    × (a.sign ≡ false)
    × (a.scale ≡ 0)
    × (eval (base decimal) a.words ≡ 1234567)
number_new_from_zu-value_example =
    number_new_from_zu-value decimal decimal_laws 1234567 (omega arith)

number_to_zu-min_example :
    number_to_zu decimal twelve ≡ min (eval (base decimal) (2 ∷ 1 ∷ [])) (size_mod - 1)
number_to_zu-min_example = number_to_zu-min decimal twelve refl

number_to_zu-number_new_from_zu_example :
    Option.map (number_to_zu decimal) (number_new_from_zu decimal 1234567) ≡ some 1234567
number_to_zu-number_new_from_zu_example =
    number_to_zu-number_new_from_zu decimal decimal_laws 1234567 (omega arith)

number_to_u32-mod_example :
    number_to_u32 decimal minus_seven ≡ (u32_mod - eval (base decimal) (7 ∷ []) % u32_mod) % u32_mod
number_to_u32-mod_example = number_to_u32-mod decimal minus_seven

number_bit_shl-value_example :
    Makes decimal decimal_laws
      (number_bit_shl decimal twelve minus_seven)
      (number_to_u32 decimal twelve * 2 ^ number_to_u32 decimal minus_seven % u32_mod)
number_bit_shl-value_example = number_bit_shl-value decimal decimal_laws twelve minus_seven

number_bit_lshr-value_example :
    Makes decimal decimal_laws
      (number_bit_lshr decimal minus_seven twelve)
      (number_to_u32 decimal minus_seven / 2 ^ number_to_u32 decimal twelve)
number_bit_lshr-value_example = number_bit_lshr-value decimal decimal_laws minus_seven twelve

number_compare-value_example :
    number_compare decimal minus_seven twelve
    ≡ order_zero (value_at decimal 2 minus_seven -ℤ value_at decimal 2 twelve)
number_compare-value_example =
    number_compare-value decimal decimal_laws minus_seven twelve minus_seven-IsValid twelve-IsValid

number_parse-integer_example :
    let a = number_parse decimal 4 (codes "0407") in
    IsValid decimal a
    × (a.sign ≡ false)
    × (a.scale ≡ 0)
    × (eval (base decimal) a.words ≡ decimal_from 0 (codes "0407"))
unfolding decimal
number_parse-integer_example =
    number_parse-integer decimal 4 (omega arith) (omega arith) (codes "0407") digits
  where
    digits : AllDigits (codes "0407")
    digits = (
      (omega arith, omega arith),
      ((omega arith, omega arith), ((omega arith, omega arith), ((omega arith, omega arith), tt))),
    )

number_floor-IsWhole_example :
    IsWhole decimal
      (ceiling (eval (base decimal) minus_seven.words) (base decimal ^ 2))
      true
      (number_floor decimal minus_seven)
number_floor-IsWhole_example =
    number_floor-IsWhole decimal decimal_laws minus_seven minus_seven-IsValid

number_ceil-IsWhole_example :
    IsWhole decimal
      (ceiling (eval (base decimal) twelve.words) (base decimal ^ 1))
      false
      (number_ceil decimal twelve)
number_ceil-IsWhole_example = number_ceil-IsWhole decimal decimal_laws twelve twelve-IsValid

-- minus two and a half
abbrev minus_five_halves : Number
minus_five_halves = record { nrefs = 1; sign = true; words = 5 ∷ 2 ∷ []; scale = 1 }

-- towards zero, not away from it
ceil_towards_zero :
    number_ceil decimal minus_five_halves
    ≡ record { nrefs = 1; sign = true; words = 2 ∷ []; scale = 0 }
unfolding number_ceil number_is_fzero mkuniq_scale_down allocate
ceil_towards_zero = refl

number_round-IsWhole_example :
    IsWhole decimal
      ((eval (base decimal) minus_seven.words + base decimal ^ 2 / 2) / base decimal ^ 2)
      true
      (number_round decimal minus_seven)
number_round-IsWhole_example =
    number_round-IsWhole decimal decimal_laws minus_seven minus_seven-IsValid
