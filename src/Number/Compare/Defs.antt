-- ===== src/Number/Compare/Defs.antt =====
-- number.c, compare.h: compare_abs and number_compare.
use Prim.Native.Nat.{bit_or, bit_xor}
use mathlib.Core.List.{reverse}
use calx.Base.{ℕ, ◌-◌, not, ◌&&◌, List, [], ◌∷◌, length, ltb, ◌==◌, if◌then◌else◌}
use calx.Number.Deci.{Deci}
use calx.Number.Defs.{Number, number_is_zero}

abbrev pub compare_less : ℕ
compare_less = 1

abbrev pub compare_eq : ℕ
compare_eq = 2

abbrev pub compare_greater : ℕ
compare_greater = 4

-- the loop over what is left of the first span
unfoldable pub rest_loop : List ℕ → ℕ → ℕ
rest_loop [] xor_result_with = compare_eq
rest_loop (x ∷ xs) xor_result_with =
    let more = rest_loop xs xor_result_with in
    if x == 0 then more else bit_xor xor_result_with compare_greater

-- The loop over both spans, each with its most significant word first. The first span is not
-- shorter than the second, so that the clause for an empty first span is not reached.
unfoldable pub compare_loop : List ℕ → List ℕ → ℕ → ℕ
unfolding rest_loop
compare_loop xs [] xor_result_with = rest_loop xs xor_result_with
compare_loop [] (y ∷ ys) xor_result_with = compare_eq
compare_loop (x ∷ xs) (y ∷ ys) xor_result_with =
    let more = compare_loop xs ys xor_result_with in
    if ltb x y
    then bit_xor xor_result_with compare_less
    else if ltb y x
    then bit_xor xor_result_with compare_greater
    else more

unfoldable pub compare_abs : Number → Number → ℕ
compare_abs a b =
    let ninta = length a.words - a.scale in
    let nintb = length b.words - b.scale in
    if not (ninta == nintb)
    then (if ltb ninta nintb then compare_less else compare_greater)
    else if ltb a.scale b.scale
    then compare_loop (reverse b.words) (reverse a.words) (bit_or compare_less compare_greater)
    else compare_loop (reverse a.words) (reverse b.words) 0

unfoldable pub number_compare : Deci → Number → Number → ℕ
number_compare d a b =
    if a.sign
    then (if b.sign
        then compare_abs b a
        else if number_is_zero d a && number_is_zero d b
        then compare_eq
        else compare_less)
    else (if b.sign
        then (if number_is_zero d a && number_is_zero d b then compare_eq else compare_greater)
        else compare_abs a b)
