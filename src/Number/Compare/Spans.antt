-- ===== src/Number/Compare/Spans.antt =====
-- number.c: the loops of compare_abs and the order of the spans.
use Prim.Native.Nat.{bit_xor}
use mathlib.Core.List.{reverse, reverse-cons}
use native.Mathlib.Nat.{pow-suc, mul-le-mul_right}
use calx.Base.{
  ℕ, suc, ◌+◌, ◌-◌, ◌*◌, ◌^◌, ◌≤◌, ◌<◌, ◌≡◌, refl, sym, ap, ◌∙◌, inl, inr, false, List, [], ◌∷◌,
  ◌++◌, arith, length, ltb, ltb→lt, ◌==◌, ==_iff, if◌then◌else◌, Bool-cases, length-append,
}
use calx.Number.Compare.Defs.{compare_less, compare_eq, compare_greater, rest_loop, compare_loop}
use calx.Number.Words.{eval, Below, pow_zero, pow_pos, pow-add}

-- the value of a span with its most significant word first
unfoldable pub top : ℕ → List ℕ → ℕ
top b [] = 0
top b (x ∷ xs) = x * b ^ length xs + top b xs

top-append : (b : ℕ) (xs : List ℕ) (w : ℕ) → top b (xs ++ w ∷ []) ≡ b * top b xs + w
unfolding top
top-append b [] w = omega (arith, ap (λ (t : ℕ). w * t) (pow_zero b))
top-append b (x ∷ xs) w =
    let e : length (xs ++ w ∷ []) ≡ suc (length xs) = omega (arith, length-append xs (w ∷ [])) in
    rw (e, top-append b xs w, pow-suc b (length xs)) (omega arith)

pub top-reverse : (b : ℕ) (ws : List ℕ) → top b (reverse ws) ≡ eval b ws
unfolding top
top-reverse b [] = refl
top-reverse b (w ∷ ws) = rw (reverse-cons, top-append, top-reverse b ws) (omega arith)

top-lt : (b : ℕ) (xs : List ℕ) → Below b xs → top b xs < b ^ length xs
unfolding top
top-lt b [] h = omega (arith, pow_zero b)
top-lt b (x ∷ xs) h = rw (pow-suc b (length xs)) (grind (arith, top-lt b xs h.1))

-- the order of two numbers, as number.c encodes it
abbrev pub order : ℕ → ℕ → ℕ → ℕ
order f m n =
    if ltb m n
    then bit_xor f compare_less
    else if ltb n m
    then bit_xor f compare_greater
    else compare_eq

pub order-lt : (f m n : ℕ) → m < n → order f m n ≡ bit_xor f compare_less
order-lt f m n h = ground arith

pub order-gt : (f m n : ℕ) → n < m → order f m n ≡ bit_xor f compare_greater
order-gt f m n h = ground arith

order-shift : (f c m n : ℕ) → order f (c + m) (c + n) ≡ order f m n
order-shift f c m n = ground arith

-- a non-zero word on top
top_pos : (x p t : ℕ) → 0 < p → (x == 0) ≡ false → 0 < x * p + t
top_pos x p t h e = let one : 1 ≤ x = ground arith in omega (arith, mul-le-mul_right p one)

rest_loop-order : (b : ℕ) (xs : List ℕ) (f : ℕ) → 0 < b → rest_loop xs f ≡ order f (top b xs) 0
unfolding rest_loop top
rest_loop-order b [] f h = refl
rest_loop-order b (x ∷ xs) f h = elim (Bool-cases (x == 0)) [
  | inl e ↦
      let z : x * b ^ length xs + top b xs ≡ top b xs =
        ap (λ (t : ℕ). t * b ^ length xs + top b xs) ((==_iff x 0).0 e) ∙ omega arith in
      rw (e, z) (rest_loop-order b xs f h)
  | inr e ↦ rw e (sym (order-gt f _ 0 (top_pos x _ (top b xs) (pow_pos b (length xs) h) e)))
]

higher : (x y p t u : ℕ) → x < y → t < p → x * p + t < y * p + u
higher x y p t u h lt = omega (arith, mul-le-mul_right p h)

-- the second span, shifted to the length of the first
shifted :
    (b y : ℕ) (xs ys : List ℕ)
    → length ys ≤ length xs
    → (y * b ^ length ys + top b ys) * b ^ (suc (length xs) - suc (length ys))
      ≡ y * b ^ length xs + top b ys * b ^ (length xs - length ys)
shifted b y xs ys h =
    let e : suc (length xs) - suc (length ys) ≡ length xs - length ys = omega arith in
    let f : length ys + (length xs - length ys) ≡ length xs = omega arith in
    let g : b ^ length ys * b ^ (length xs - length ys) ≡ b ^ length xs =
      sym (pow-add b (length ys) (length xs - length ys)) ∙ ap (λ (t : ℕ). b ^ t) f in
    rw e (omega (arith, ap (λ (t : ℕ). y * t) g))

shifted-lt :
    (b : ℕ) (xs ys : List ℕ)
    → 0 < b
    → length ys ≤ length xs
    → Below b ys
    → top b ys * b ^ (length xs - length ys) < b ^ length xs
shifted-lt b xs ys p h l =
    let f : length ys + (length xs - length ys) ≡ length xs = omega arith in
    let g : b ^ length ys * b ^ (length xs - length ys) ≡ b ^ length xs =
      sym (pow-add b (length ys) (length xs - length ys)) ∙ ap (λ (t : ℕ). b ^ t) f in
    let le : suc (top b ys) * b ^ (length xs - length ys)
        ≤ b ^ length ys * b ^ (length xs - length ys) =
      mul-le-mul_right (b ^ (length xs - length ys)) (top-lt b ys l) in
    omega (arith, g, le, pow_pos b (length xs - length ys) p)

pub compare_loop-order :
    (b : ℕ) (xs ys : List ℕ) (f : ℕ)
    → 0 < b
    → length ys ≤ length xs
    → Below b xs
    → Below b ys
    → compare_loop xs ys f ≡ order f (top b xs) (top b ys * b ^ (length xs - length ys))
unfolding compare_loop top
compare_loop-order b xs [] f h le k l =
    let z : top b [] * b ^ (length xs - length {A = ℕ} []) ≡ 0 = omega arith in
    rw z (rest_loop-order b xs f h)
compare_loop-order b [] (y ∷ ys) f h le k l = absurd (omega arith)
compare_loop-order b (x ∷ xs) (y ∷ ys) f h le k l =
    rw (shifted b y xs ys (omega arith)) (elim (Bool-cases (ltb x y)) [
      | inl e ↦ rw e (sym (order-lt f _ _ (higher x y _ _ _ (ltb→lt x y e) (top-lt b xs k.1))))
      | inr e ↦ elim (Bool-cases (ltb y x)) [
        | inl g ↦
            rw (e, g)
              (sym (
                order-gt f _ _
                  (higher y x _ _ _ (ltb→lt y x g) (shifted-lt b xs ys h (omega arith) l.1))))
        | inr g ↦
            let same : y ≡ x = ground arith in
            rw (e, g, same, order-shift) (compare_loop-order b xs ys f h (omega arith) k.1 l.1)
      ]
    ])
