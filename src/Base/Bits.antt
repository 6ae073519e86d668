-- ===== src/Base/Bits.antt =====
-- Facts about `bit_and` at variables, from the digits that the native operation stands for.
use Prim.Native.Nat.{bit_and, bit_and-bitwise}
use Prim.Native.Nat
use native.Mathlib.Nat.{pow-suc, div-div-eq-div-mul, div-one, zero-div}
use calx.Base.{ℕ, zero, suc, ◌*◌, ◌/◌, ◌%◌, ◌^◌, ◌≤◌, ◌≡◌, refl, ap, ◌∙◌, min, arith}

-- the lowest digits of both, as many as the count says
abbrev common : ℕ → ℕ → ℕ → ℕ
common n a b = Nat.digits (λ b. zero) min n a b

common-le : (n a b : ℕ) → common n a b ≤ b
common-le zero a b = omega arith
common-le (suc n) zero b = omega arith
common-le (suc n) (suc a) b = omega (arith, common-le n (suc a / 2) (b / 2))

-- A mask is an upper bound.
pub bit_and-le : (a b : ℕ) → bit_and a b ≤ b
bit_and-le a b = omega (arith, bit_and-bitwise a b, common-le a a b)

common-zero : (n a : ℕ) → common n a 0 ≡ 0
common-zero zero a = refl
common-zero (suc n) zero = refl
common-zero (suc n) (suc a) = omega (arith, common-zero n (suc a / 2))

pow_even : (j : ℕ) → (2 ^ suc j % 2 ≡ 0) × (2 ^ suc j / 2 ≡ 2 ^ j)
pow_even j = rw (pow-suc 2 j) (omega arith, omega arith)

common-pow : (n a j : ℕ) → a ≤ n → common n a (2 ^ j) ≡ a / 2 ^ j % 2 * 2 ^ j
common-pow zero zero j h = rw (zero-div (2 ^ j)) (omega arith)
common-pow zero (suc a) j h = absurd (omega arith)
common-pow (suc n) zero j h = rw (zero-div (2 ^ j)) (omega arith)
common-pow (suc n) (suc a) zero h = omega (arith, common-zero n (suc a / 2), div-one (suc a))
common-pow (suc n) (suc a) (suc j) h =
    let half : suc a / 2 / 2 ^ j ≡ suc a / 2 ^ suc j =
      div-div-eq-div-mul (suc a) 2 (2 ^ j)
      ∙ ap (λ (t : ℕ). suc a / t) (omega (arith, pow-suc 2 j)) in
    let digit : suc a / 2 / 2 ^ j % 2 * 2 ^ j ≡ suc a / 2 ^ suc j % 2 * 2 ^ j =
      ap (λ (t : ℕ). t % 2 * 2 ^ j) half in
    let (even, less) = pow_even j in
    rw (less, even)
      (omega (
        arith,
        common-pow n (suc a / 2) j (omega arith),
        digit,
        ap (λ (t : ℕ). suc a / 2 ^ suc j % 2 * t) (pow-suc 2 j),
      ))

-- A mask of one digit says whether that digit is set.
pub bit_and-pow : (a j : ℕ) → bit_and a (2 ^ j) ≡ a / 2 ^ j % 2 * 2 ^ j
bit_and-pow a j = bit_and-bitwise a (2 ^ j) ∙ common-pow a a j (omega arith)
