-- ===== src/Ntp/RoundTrip.antt =====
-- ntp.c: ntp_to_prec after ntp_from_prec, by the trailing zero bits of a power of ten.
use native.Mathlib.Nat.{pow-suc, mod-eq_of_lt, pow-le-pow_right, div-add-mod, mod-lt}
use calx.Base.{
  ℕ, zero, suc, ◌-◌, ◌*◌, ◌/◌, ◌%◌, ◌^◌, ◌≤◌, ◌<◌, ◌≡◌, arith, ◌==◌, Bool-cases, inl, inr, ap,
}
use calx.Ntp.{word_from_pow10, word_from_pow10_loop, ctz_fuel, word_ctz, ntp_from_prec, ntp_to_prec}

pow10_pos : (k : ℕ) → 0 < 10 ^ k
pow10_pos zero = omega arith
pow10_pos (suc k) = rw pow-suc (omega (arith, pow10_pos k))

word_from_pow10_loop-pow :
    (bits p r : ℕ) → r * 10 ^ p < 2 ^ bits → word_from_pow10_loop bits p r ≡ r * 10 ^ p
unfolding word_from_pow10_loop
word_from_pow10_loop-pow bits zero r h = omega arith
word_from_pow10_loop-pow bits (suc p) r h =
    let e : r * 10 ^ suc p ≡ r * 10 * 10 ^ p = rw pow-suc (omega arith) in
    let fits : r * 10 < 2 ^ bits = grind (arith, pow10_pos p) in
    rw (mod-eq_of_lt fits, e) (word_from_pow10_loop-pow bits p (r * 10) (rw (← e) h))

pub word_from_pow10-pow : (bits p : ℕ) → 10 ^ p < 2 ^ bits → word_from_pow10 bits p ≡ 10 ^ p
unfolding word_from_pow10
word_from_pow10-pow bits p h = rw (word_from_pow10_loop-pow bits p 1 (omega arith)) (omega arith)

ctz_fuel-even : (f y : ℕ) → ctz_fuel (suc f) (2 * y) ≡ suc (ctz_fuel f y)
unfolding ctz_fuel
ctz_fuel-even f y =
    let half : 2 * y / 2 ≡ y = omega arith in
    let rem : 2 * y % 2 ≡ 0 = omega arith in rw (half, rem)

ctz_fuel-odd : (f m : ℕ) → m % 2 ≡ 1 → ctz_fuel (suc f) m ≡ 0
unfolding ctz_fuel
ctz_fuel-odd f m odd = rw odd

-- halving k times leads from 2 ^ k * m to the odd m
ctz_fuel-pow : (k f m : ℕ) → k < f → m % 2 ≡ 1 → ctz_fuel f (2 ^ k * m) ≡ k
ctz_fuel-pow k zero m h odd = absurd (omega arith)
ctz_fuel-pow zero (suc f) m h odd =
    let e : 2 ^ 0 * m ≡ m = omega arith in rw e (ctz_fuel-odd f m odd)
ctz_fuel-pow (suc k) (suc f) m h odd =
    let e : 2 ^ suc k * m ≡ 2 * (2 ^ k * m) = rw pow-suc (omega arith) in
    rw (e, ctz_fuel-even f (2 ^ k * m)) (ap suc (ctz_fuel-pow k f m (omega arith) odd))

pow10-split : (k : ℕ) → 10 ^ k ≡ 2 ^ k * 5 ^ k
pow10-split zero = omega arith
pow10-split (suc k) = rw (pow-suc 10 k, pow-suc 2 k, pow-suc 5 k, pow10-split k) (omega arith)

pow5_odd : (k : ℕ) → 5 ^ k % 2 ≡ 1
pow5_odd zero = omega arith
pow5_odd (suc k) = rw pow-suc (omega (arith, pow5_odd k))

lt-pow10 : (k : ℕ) → k < 10 ^ k
lt-pow10 zero = omega arith
lt-pow10 (suc k) = rw pow-suc (omega (arith, lt-pow10 k))

pub word_ctz-pow10 : (k : ℕ) → word_ctz (10 ^ k) ≡ k
unfolding word_ctz
word_ctz-pow10 k =
    rw (ap (λ x. ctz_fuel (10 ^ k) x) (pow10-split k))
      (ctz_fuel-pow k (10 ^ k) (5 ^ k) (lt-pow10 k) (pow5_odd k))

-- The precision comes back from the parameters that are made of it, where DECI_BASE is a power of
-- ten with a positive exponent and fits into a word.
pub ntp_to_prec-ntp_from_prec :
    (base_log bits prec : ℕ)
    → 0 < base_log
    → 10 ^ base_log < 2 ^ bits
    → ntp_to_prec base_log (ntp_from_prec base_log bits prec) ≡ prec
unfolding ntp_to_prec ntp_from_prec
ntp_to_prec-ntp_from_prec base_log bits prec pos fits = elim (Bool-cases (prec % base_log == 0)) [
  | inl z ↦ rw z (ground (arith, word_ctz-pow10 0))
  | inr nz ↦
      rw nz
        let r = prec % base_log in
          let small : 10 ^ (base_log - r) ≤ 10 ^ base_log =
            pow-le-pow_right (omega arith) (omega arith) in
          rw (word_from_pow10-pow bits (base_log - r) (omega arith), word_ctz-pow10 (base_log - r))
            (omega (arith, div-add-mod prec base_log, mod-lt prec pos))
]
