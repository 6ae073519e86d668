-- ===== src/Number/Mul/Power.antt =====
-- number.c: the value of number_pow_zu, by squaring.
use Prim.Native.Nat.{bit_and}
use mathlib.Core.Path.{ap₂, subst}
use native.Mathlib.Nat.{pow-suc, div-div-eq-div-mul, div-one}
use calx.Base.{
  ℕ, zero, suc, ◌+◌, ◌-◌, ◌*◌, ◌/◌, ◌%◌, ◌^◌, ◌≤◌, ◌<◌, ◌≡◌, refl, sym, ap, ◌∙◌, inl, inr, Bool,
  true, false, some, arith, length, ltb, ◌==◌, ==_iff, if◌then◌else◌, Bool-cases, lt→ltb,
}
use calx.Base.Bits.{bit_and-pow}
use calx.Number.Add.Defs.{xor}
use calx.Number.Convert.Defs.{size_mod}
use calx.Number.Convert.New.{number_new_from_zu-value}
use calx.Number.Words.{Below}
use calx.Number.Deci.{Deci, base, DeciLaws}
use calx.Number.Defs.{Number, IsValid, mkuniq, allocate, unsafe_normalize_full}
use calx.Number.Fancy.Spans.{SpanOps, SpanLaws}
use calx.Number.Mul.Defs.{top_bit, number_mul, pow_loop, number_pow_zu}
use calx.Number.Mul.Normalize.{Scaled, unsafe_normalize_full-Scaled}
use calx.Number.Mul.Product.{number_mul-Scaled}
use calx.Number.Words.{eval, pow_zero, mul-pow_zero, pow_pos, pow-add}

halving : (e j : ℕ) → e / 2 ^ j ≡ 2 * (e / 2 ^ suc j) + e / 2 ^ j % 2
halving e j =
    let h : e / 2 ^ j / 2 ≡ e / 2 ^ suc j =
      div-div-eq-div-mul e (2 ^ j) 2 ∙ ap (λ (t : ℕ). e / t) (omega (arith, pow-suc 2 j)) in
    omega (arith, h)

bit_test : (e j : ℕ) → (bit_and e (2 ^ j) == 0) ≡ (e / 2 ^ j % 2 == 0)
bit_test e j = elim (Bool-cases (e / 2 ^ j % 2 == 0)) [
  | inl z ↦
      let none : bit_and e (2 ^ j) ≡ 0 =
        bit_and-pow e j ∙ ap (λ (t : ℕ). t * 2 ^ j) ((==_iff _ 0).0 z) ∙ omega arith in
      rw (none, z) refl
  | inr z ↦
      let one : e / 2 ^ j % 2 ≡ 1 = ground arith in
      let more : bit_and e (2 ^ j) ≡ 2 ^ j =
        bit_and-pow e j ∙ ap (λ (t : ℕ). t * 2 ^ j) one ∙ omega arith in
      let positive = pow_pos 2 j (omega arith) in rw (more, z) (ground arith)
]

next_half : (e i : ℕ) → e / 2 ^ suc i / 2 ≡ e / 2 ^ suc (suc i)
next_half e i =
    div-div-eq-div-mul e (2 ^ suc i) 2 ∙ ap (λ (t : ℕ). e / t) (omega (arith, pow-suc 2 (suc i)))

double : (i : ℕ) → 2 ^ i * 2 ≡ 2 ^ suc i
double i = omega (arith, pow-suc 2 i)

top_bit_stop : (fuel tmp h : ℕ) → tmp ≡ 0 → top_bit (suc fuel) tmp h ≡ h
unfolding top_bit
top_bit_stop fuel tmp h z = rw z refl

top_bit_step :
    (fuel tmp h : ℕ)
    → (tmp == 0) ≡ false
    → top_bit (suc fuel) tmp h ≡ top_bit fuel (tmp / 2) (h * 2)
unfolding top_bit
top_bit_step fuel tmp h z = rw z refl

-- the highest power of two that is no more than e
top_bit-power :
    (fuel e i : ℕ)
    → e / 2 ^ suc i < 2 ^ fuel
    → 0 < e / 2 ^ i
    → (j : ℕ) × (top_bit fuel (e / 2 ^ suc i) (2 ^ i) ≡ 2 ^ j) × (e / 2 ^ j ≡ 1) × (j ≤ i + fuel)
top_bit-power zero e i h some_left =
    (i, unfold top_bit in refl, omega (arith, halving e i, pow_zero 2), omega arith)
top_bit-power (suc fuel) e i h some_left = elim (Bool-cases (e / 2 ^ suc i == 0)) [
  | inl z ↦
      let none : e / 2 ^ suc i ≡ 0 = (==_iff _ 0).0 z in
      (i, top_bit_stop fuel (e / 2 ^ suc i) (2 ^ i) none, omega (arith, halving e i), omega arith)
  | inr z ↦
      let more : 0 < e / 2 ^ suc i = ground arith in
      let small : e / 2 ^ suc (suc i) < 2 ^ fuel =
        omega (arith, halving e (suc i), h, pow-suc 2 fuel) in
      let (j, f, one, le) = top_bit-power fuel e (suc i) small more in
      let step = top_bit_step fuel (e / 2 ^ suc i) (2 ^ i) z in
      (j, step ∙ ap₂ (top_bit fuel) (next_half e i) (double i) ∙ f, one, omega arith)
]

-- the sign of a power
unfoldable pub parity : Bool → ℕ → Bool
parity s zero = false
parity s (suc k) = xor s (parity s k)

xor_assoc : (a b c : Bool) → xor (xor a b) c ≡ xor a (xor b c)
xor_assoc true true true = refl
xor_assoc true true false = refl
xor_assoc true false true = refl
xor_assoc true false false = refl
xor_assoc false b c = refl

parity_add : (s : Bool) (k l : ℕ) → xor (parity s k) (parity s l) ≡ parity s (k + l)
unfolding parity
parity_add s zero l = let e : 0 + l ≡ l = omega arith in rw e refl
parity_add s (suc k) l =
    let e : suc k + l ≡ suc (k + l) = omega arith in
    rw e (xor_assoc s (parity s k) (parity s l) ∙ ap (xor s) (parity_add s k l))

xor-false : (s : Bool) → xor s false ≡ s
xor-false true = refl
xor-false false = refl

mkuniq_same :
    (a : Number)
    → ((mkuniq a).words ≡ a.words) × ((mkuniq a).scale ≡ a.scale) × ((mkuniq a).sign ≡ a.sign)
unfolding mkuniq allocate
mkuniq_same a = elim (Bool-cases (a.nrefs == 1)) [
  | inl e ↦ rw e (refl, refl, refl)
  | inr e ↦ rw e (refl, refl, refl)
]

module _ (d : Deci) (laws : DeciLaws d) (x : SpanOps) (span : SpanLaws d x) where
  -- the k-th power of a number that stands for m at the scale s
  pub record IsPower (m s : ℕ) (sign : Bool) (k : ℕ) (r : Number) : Type 0 where
    pub valid : IsValid d r
    pub value : Scaled d r (m ^ k) (k * s)
    pub sign_of : r.sign ≡ parity sign k

  IsPower-mul :
      (same : Bool) (m s : ℕ) (sign : Bool) (k l : ℕ) (a b : Number)
      → (same ≡ true → a ≡ b)
      → IsPower m s sign k a
      → IsPower m s sign l b
      → IsPower m s sign (k + l) (number_mul d x same a b)
  IsPower-mul same m s sign k l a b h p q =
      let (scaled, valid, xors) =
        number_mul-Scaled d laws x span same a b (m ^ k) (m ^ l) (k * s) (l * s)
          (λ e. ap (λ (n : Number). n.words) (h e)) p.valid q.valid p.value q.value in
      let times : (k + l) * s ≡ k * s + l * s = omega arith in
      record {
        valid = valid;
        value = rw (pow-add m k l, times) scaled;
        sign_of = xors ∙ ap₂ xor p.sign_of q.sign_of ∙ parity_add sign k l;
      }

  IsPower-at :
      (m s : ℕ) (sign : Bool) (k l : ℕ) (r : Number)
      → k ≡ l
      → IsPower m s sign k r
      → IsPower m s sign l r
  IsPower-at m s sign k l r e p = subst (λ (t : ℕ). IsPower m s sign t r) e p

  -- one round: the square, times the number itself where the digit of the exponent is set
  pow_round-IsPower :
      (j e m s : ℕ) (sign : Bool) (b r : Number)
      → IsPower m s sign 1 b
      → IsPower m s sign (e / 2 ^ suc j) r
      → IsPower m s sign (e / 2 ^ j) (
          if bit_and e (2 ^ j) == 0
          then number_mul d x true r r
          else number_mul d x false (number_mul d x true r r) b)
  pow_round-IsPower j e m s sign b r pb pr =
      let k = e / 2 ^ suc j in
      let square = IsPower-mul true m s sign k k r r (λ h. refl) pr pr in
      elim (Bool-cases (e / 2 ^ j % 2 == 0)) [
        | inl z ↦
            let even : e / 2 ^ j % 2 ≡ 0 = (==_iff _ 0).0 z in
            rw (bit_test e j, z)
              (IsPower-at m s sign (k + k) (e / 2 ^ j) _ (omega (arith, halving e j)) square)
        | inr z ↦
            let odd : e / 2 ^ j % 2 ≡ 1 = ground arith in
            rw (bit_test e j, z)
              (IsPower-at m s sign (k + k + 1) (e / 2 ^ j) _ (omega (arith, halving e j))
                (IsPower-mul false m s sign (k + k) 1 _ b (λ h. ground arith) square pb))
      ]

  pow_loop_step :
      (j fuel e : ℕ) (b r : Number)
      → pow_loop d x (suc fuel) (2 ^ suc j) e b r
        ≡ pow_loop d x fuel (2 ^ j) e b (
            if bit_and e (2 ^ j) == 0
            then number_mul d x true r r
            else number_mul d x false (number_mul d x true r r) b)
  unfolding pow_loop
  pow_loop_step j fuel e b r =
      let big : ltb 1 (2 ^ suc j) ≡ true =
        lt→ltb _ _ (omega (arith, pow-suc 2 j, pow_pos 2 j (omega arith))) in
      let half : 2 ^ suc j / 2 ≡ 2 ^ j = omega (arith, pow-suc 2 j) in rw (big, half) refl

  pow_loop-IsPower :
      (j fuel e m s : ℕ) (sign : Bool) (b r : Number)
      → j ≤ fuel
      → IsPower m s sign 1 b
      → IsPower m s sign (e / 2 ^ j) r
      → IsPower m s sign e (pow_loop d x fuel (2 ^ j) e b r)
  pow_loop-IsPower zero zero e m s sign b r le pb pr =
      unfold pow_loop in IsPower-at m s sign _ e r (div-one e) pr
  pow_loop-IsPower zero (suc fuel) e m s sign b r le pb pr =
      unfold pow_loop in IsPower-at m s sign _ e r (div-one e) pr
  pow_loop-IsPower (suc j) zero e m s sign b r le pb pr = absurd (omega arith)
  pow_loop-IsPower (suc j) (suc fuel) e m s sign b r le pb pr = rw (pow_loop_step j fuel e b r) (
      pow_loop-IsPower j fuel e m s sign b _ (omega arith) pb
        (pow_round-IsPower j e m s sign b r pb pr))

  -- the copy that the loop starts from
  own_copy :
      (b : Number)
      → IsValid d b
      → IsPower (eval (base d) b.words) b.scale b.sign 1 (unsafe_normalize_full d (mkuniq b))
  own_copy b v =
      let (words, scale, sign) = mkuniq_same b in
      let fits : (mkuniq b).scale ≤ length (mkuniq b).words = rw (words, scale) v.scale_fits in
      let below : Below (base d) (mkuniq b).words = rw words v.below in
      let z : b.scale - b.scale ≡ 0 = omega arith in
      let m = eval (base d) b.words in
      let (scaled, valid, same) =
        unsafe_normalize_full-Scaled d laws x span (mkuniq b) fits below m b.scale
          (omega (arith, scale)) (rw (words, scale, z) (mul-pow_zero (base d) m)) in
      let first : m ^ 1 ≡ m = pow-suc m 0 ∙ ap (λ (t : ℕ). t * m) (pow_zero m) ∙ omega arith in
      let once : 1 * b.scale ≡ b.scale = omega arith in
      record {
        valid = valid;
        value = rw (first, once) scaled;
        sign_of = same ∙ sign ∙ unfold parity in sym (xor-false b.sign);
      }

  -- For every exponent of a size_t, number_pow_zu returns the power of a valid number: its words
  -- stand for the power of the words at that many times the scale.
  pub number_pow_zu-IsPower :
      (b : Number) (e : ℕ)
      → IsValid d b
      → e < size_mod
      → (r : Number) × (number_pow_zu d x b e ≡ some r)
        × IsPower (eval (base d) b.words) b.scale b.sign e r
  unfolding number_pow_zu
  number_pow_zu-IsPower b e v lt = elim (Bool-cases (e == 0)) [
    | inl z ↦
        let none : 0 ≡ e = sym ((==_iff _ 0).0 z) in
        let (r, made, valid, sign, scale, value) =
          number_new_from_zu-value d laws 1 (omega arith) in
        let m = eval (base d) b.words in
        let level : 0 * b.scale - 0 ≡ 0 = omega arith in
        (
          r,
          rw z made,
          IsPower-at m b.scale b.sign 0 e r none (record {
            valid = valid;
            value = record {
              scale_fits = omega (arith, scale);
              value = rw (scale, value, pow_zero m, level) (omega (arith, pow_zero (base d)));
            };
            sign_of = sign ∙ unfold parity in refl;
          }),
        )
    | inr z ↦
        let some_left : 0 < e / 2 ^ 0 = ground (arith, div-one e) in
        let small : e / 2 ^ 1 < 2 ^ 64 = omega arith in
        let (j, top, one, le) = top_bit-power 64 e 0 small some_left in
        let c = unsafe_normalize_full d (mkuniq b) in
        let p = own_copy b v in
        (
          pow_loop d x 64 (2 ^ j) e c c,
          rw (z, top) refl,
          pow_loop-IsPower j 64 e (eval (base d) b.words) b.scale b.sign c c (omega (arith, le)) p
              (IsPower-at (eval (base d) b.words) b.scale b.sign 1 (e / 2 ^ j) c (sym one) p),
        )
  ]
