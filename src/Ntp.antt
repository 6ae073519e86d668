-- ===== src/Ntp.antt =====
-- ntp.c, ntp.h: how many decimal digits a quotient keeps, as a count of words and a power of ten
-- below the last kept digit. DECI_BASE_LOG and the width of deci_UWORD belong to libdeci.
pub mod RoundTrip
use calx.Base.{ℕ, zero, suc, ◌+◌, ◌-◌, ◌*◌, ◌/◌, ◌%◌, ◌^◌, ◌==◌, if◌then◌else◌}

pub record NumberTruncateParams : Type 0 where
  pub scale : ℕ
  pub submod : ℕ

-- r *= 10, in an unsigned word of `bits` bits
unfoldable pub word_from_pow10_loop : ℕ → ℕ → ℕ → ℕ
word_from_pow10_loop bits zero r = r
word_from_pow10_loop bits (suc p) r = word_from_pow10_loop bits p (r * 10 % 2 ^ bits)

unfoldable pub word_from_pow10 : ℕ → ℕ → ℕ
unfolding word_from_pow10_loop
word_from_pow10 bits p = word_from_pow10_loop bits p 1

-- The number of trailing zero bits; the first argument is fuel, and no more than `x` is needed.
unfoldable pub ctz_fuel : ℕ → ℕ → ℕ
ctz_fuel zero x = 0
ctz_fuel (suc f) x = let rest = suc (ctz_fuel f (x / 2)) in if x % 2 == 0 then rest else 0

unfoldable pub word_ctz : ℕ → ℕ
unfolding ctz_fuel
word_ctz x = ctz_fuel x x

unfoldable pub ntp_from_prec : ℕ → ℕ → ℕ → NumberTruncateParams
ntp_from_prec base_log bits prec =
    let q = prec / base_log in
    let r = prec % base_log in
    if r == 0
    then record { scale = q; submod = 1 }
    else record { scale = q + 1; submod = word_from_pow10 bits (base_log - r) }

unfoldable pub ntp_to_prec : ℕ → NumberTruncateParams → ℕ
ntp_to_prec base_log ntp = ntp.scale * base_log - word_ctz ntp.submod
