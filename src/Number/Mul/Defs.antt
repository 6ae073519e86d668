-- ===== src/Number/Mul/Defs.antt =====
-- number.c: number_mul, number_pow_zu and number_pow. Two operands that are one object are told
-- apart from equal ones by a flag.
use Prim.Native.Nat.{bit_and}
use calx.Base.{
  ℕ, zero, suc, ◌+◌, ◌-◌, ◌*◌, ◌/◌, Bool, true, false, ◌&&◌, Option, some, ltb, ◌==◌, if◌then◌else◌,
}
use calx.Number.Add.Defs.{xor}
use calx.Number.Convert.Defs.{number_new_from_zu, number_to_zu, number_to_u32, size_mod}
use calx.Number.Deci.{Deci}
use calx.Number.Defs.{Number, allocate, mkuniq, unsafe_normalize_full, number_is_zero}
use calx.Number.Fancy.Defs.{fancy_mul}
use calx.Number.Fancy.Spans.{SpanOps}
use calx.Number.Round.Defs.{number_abs_eq_uword}

-- for (tmp = e >> 1; tmp; tmp >>= 1) h <<= 1, on fuel; a size_t has 64 bits
unfoldable pub top_bit : ℕ → ℕ → ℕ → ℕ
top_bit zero tmp h = h
top_bit (suc fuel) tmp h = let more = top_bit fuel (tmp / 2) (h * 2) in if tmp == 0 then h else more

-- what number_pow gives: a number, or the end of the program
pub data PowResult : Type 0 where
  power : Option Number → PowResult
  exponent_is_too_large : PowResult

module _ (d : Deci) (x : SpanOps) where
  unfoldable pub number_mul : Bool → Number → Number → Number
  unfolding allocate unsafe_normalize_full
  number_mul same a b =
      unsafe_normalize_full d
        (allocate (xor a.sign b.sign) (fancy_mul d x same a.words b.words) (a.scale + b.scale))

  -- while (h > 1), on fuel
  unfoldable pub pow_loop : ℕ → ℕ → ℕ → Number → Number → Number
  pow_loop zero h e b s = s
  pow_loop (suc fuel) h e b s =
      let h' = h / 2 in
      let s' = number_mul true s s in
      let s'' = if bit_and e h' == 0 then s' else number_mul false s' b in
      let more = pow_loop fuel h' e b s'' in if ltb 1 h then more else s

  unfoldable pub number_pow_zu : Number → ℕ → Option Number
  number_pow_zu b e =
      let h = top_bit 64 (e / 2) 1 in
      let b' = unsafe_normalize_full d (mkuniq b) in
      if e == 0 then number_new_from_zu d 1 else some (pow_loop 64 h e b' b')

  unfoldable pub number_pow : Number → Number → PowResult
  number_pow b e =
      let n = number_to_zu d e in
      if n == size_mod - 1
      then (if number_is_zero d b
          then power (some b)
          else if number_abs_eq_uword d b 1
          then (if b.sign && bit_and (number_to_u32 d e) 1 == 1
              then power (some b)
              else power (number_new_from_zu d 1))
          else exponent_is_too_large)
      else power (number_pow_zu b n)
