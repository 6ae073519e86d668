-- ===== src/Number/Convert/Defs.antt =====
-- number.c, number.h: number_new_from_zu, number_to_zu, number_to_u32 and the bit operations. size_t
-- has 64 bits.
use Prim.Native.Nat.{bit_and, bit_or, bit_xor}
use mathlib.Core.List.{reverse}
use mathlib.Core.Option
use calx.Base.{
  ℕ, zero, suc, ◌+◌, ◌-◌, ◌*◌, ◌/◌, ◌%◌, ◌^◌, false, Option, none, some, List, [], ◌∷◌, ltb, ◌==◌,
  if◌then◌else◌,
}
use calx.Number.Deci.{Deci, base}
use calx.Number.Defs.{Number, allocate, int_part, number_is_zero}

abbrev pub size_mod : ℕ
size_mod = 2 ^ 64

abbrev pub u32_mod : ℕ
u32_mod = 2 ^ 32

abbrev cons : ℕ → Option (List ℕ) → Option (List ℕ)
cons w = Option.map (λ ws. w ∷ ws)

module _ (d : Deci) where
  -- the loop over the buffer, with the room that it has left; `none` is the jump to slow_way
  unfoldable pub fill_buffer : ℕ → ℕ → Option (List ℕ)
  fill_buffer zero y = if y == 0 then some [] else none
  fill_buffer (suc room) y =
      let more = cons (y % base d) (fill_buffer room (y / base d)) in
      if y == 0 then some [] else if ltb y (base d) then some (y ∷ []) else more

  -- the loop at slow_way, on fuel; `none` means that the fuel ran out
  unfoldable pub push_words : ℕ → ℕ → Option (List ℕ)
  push_words zero x = none
  push_words (suc fuel) x =
      let more = cons (x % base d) (push_words fuel (x / base d)) in
      if x == 0 then some [] else more

  -- The buffer has room for NBUF = 4 words. A round divides by the base, so a size_t takes less than
  -- 65 rounds.
  unfoldable pub number_new_from_zu : ℕ → Option Number
  number_new_from_zu x = elim (fill_buffer 4 x) [
    | some words ↦ some (allocate false words 0)
    | none ↦ Option.map (λ words. allocate false words 0) (push_words 65 x)
  ]

  -- The loop of number_to_zu, from the most significant word; `none` is the jump to overflow.
  unfoldable pub to_zu_loop : List ℕ → ℕ → Option ℕ
  to_zu_loop [] r = some r
  to_zu_loop (w ∷ ws) r =
      let more = to_zu_loop ws (r * base d + w) in
      if ltb (r * base d) size_mod
      then (if ltb (r * base d + w) size_mod then more else none)
      else none

  -- (size_t) -1 where it does not fit
  unfoldable pub number_to_zu : Number → ℕ
  number_to_zu a =
      if a.sign
      then (if number_is_zero d a then 0 else size_mod - 1)
      else elim (to_zu_loop (reverse (int_part a)) 0) [ some r ↦ r | none ↦ size_mod - 1 ]

  unfoldable pub to_u32_loop : List ℕ → ℕ → ℕ
  to_u32_loop [] r = r
  to_u32_loop (w ∷ ws) r = to_u32_loop ws ((r * base d % u32_mod + w) % u32_mod)

  unfoldable pub number_to_u32 : Number → ℕ
  number_to_u32 a =
      let r = to_u32_loop (reverse (int_part a)) 0 in if a.sign then (u32_mod - r) % u32_mod else r

  unfoldable pub number_bit_and : Number → Number → Option Number
  number_bit_and a b = number_new_from_zu (bit_and (number_to_u32 a) (number_to_u32 b))

  unfoldable pub number_bit_or : Number → Number → Option Number
  number_bit_or a b = number_new_from_zu (bit_or (number_to_u32 a) (number_to_u32 b))

  unfoldable pub number_bit_xor : Number → Number → Option Number
  number_bit_xor a b = number_new_from_zu (bit_xor (number_to_u32 a) (number_to_u32 b))

  unfoldable pub number_bit_shl : Number → Number → Option Number
  number_bit_shl a b =
      let x = number_to_u32 a in
      let y = number_to_u32 b in number_new_from_zu (if ltb y 32 then x * 2 ^ y % u32_mod else 0)

  unfoldable pub number_bit_lshr : Number → Number → Option Number
  number_bit_lshr a b =
      let x = number_to_u32 a in
      let y = number_to_u32 b in number_new_from_zu (if ltb y 32 then x / 2 ^ y else 0)
