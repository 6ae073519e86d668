-- ===== src/Parser/Rotate/Swap.antt =====
-- parse.c: what SWAP, ti_reverse and ti_rotate_left do to a part of the program.
use calx.Base.{
  ℕ, zero, suc, ◌+◌, ◌-◌, ◌/◌, ◌≡◌, refl, sym, ap, ◌∙◌, some, List, [], ◌∷◌, ◌++◌, arith, length,
  get_elem?, set, length-append,
}
use mathlib.Core.List.{reverse, append_assoc, reverse-append, reverse-reverse, reverse-cons}
use calx.Parser.Rotate.{swap, reverse_loop, ti_reverse, ti_rotate_left}

module _ {ℓ} {A : Type ℓ} where
  get_elem?-middle :
      (xs : List A) (a : A) (ys : List A) → get_elem? (xs ++ a ∷ ys) (length xs) ≡ some a
  get_elem?-middle [] a ys = refl
  get_elem?-middle (x ∷ xs) a ys = get_elem?-middle xs a ys

  set-middle :
      (xs : List A) (a b : A) (ys : List A) → set (xs ++ a ∷ ys) (length xs) b ≡ xs ++ b ∷ ys
  set-middle [] a b ys = refl
  set-middle (x ∷ xs) a b ys = ap (λ zs. x ∷ zs) (set-middle xs a b ys)

  -- an element in the second part of a list
  at_second :
      (xs : List A) (a : A) (mid : List A) (b : A) (ys : List A) (j : ℕ)
      → j ≡ length xs + suc (length mid)
      → (get_elem? (xs ++ a ∷ (mid ++ b ∷ ys)) j ≡ some b)
        × ((c : A) → set (xs ++ a ∷ (mid ++ b ∷ ys)) j c ≡ xs ++ a ∷ (mid ++ c ∷ ys))
  at_second xs a mid b ys j e =
      let e' : j ≡ length (xs ++ a ∷ mid) = e ∙ sym (length-append xs (a ∷ mid)) in
      rw (e', ← append_assoc xs (a ∷ mid) (b ∷ ys))
        (
          get_elem?-middle (xs ++ a ∷ mid) b ys,
          λ c. set-middle (xs ++ a ∷ mid) b c ys ∙ append_assoc xs (a ∷ mid) (c ∷ ys),
        )

  swap_lem :
      (xs : List A) (a : A) (mid : List A) (b : A) (ys : List A) (j : ℕ)
      → j ≡ length xs + suc (length mid)
      → swap (xs ++ a ∷ (mid ++ b ∷ ys)) (length xs) j ≡ xs ++ b ∷ (mid ++ a ∷ ys)
  unfolding swap
  swap_lem xs a mid b ys j e = rw (
    get_elem?-middle xs a (mid ++ b ∷ ys),
    (at_second xs a mid b ys j e).0,
    set-middle xs a b (mid ++ b ∷ ys),
    (at_second xs b mid b ys j e).1 a,
  )

  unsnoc : (x : A) (xs : List A) → (mid : List A) × (y : A) × (x ∷ xs ≡ mid ++ y ∷ [])
  unsnoc x [] = ([], x, refl)
  unsnoc x (z ∷ xs) = let (mid, y, e) = unsnoc z xs in (x ∷ mid, y, ap (λ zs. x ∷ zs) e)

  -- half as many rounds as the part has elements turn it round
  reverse_loop-reverse :
      (n : ℕ) (xs part ys : List A)
      → length part / 2 ≡ n
      → reverse_loop n (length xs) (length xs + length part) (xs ++ (part ++ ys))
        ≡ xs ++ (reverse part ++ ys)
  unfolding reverse_loop
  reverse_loop-reverse zero xs [] ys h = refl
  reverse_loop-reverse zero xs (a ∷ []) ys h = refl
  reverse_loop-reverse zero xs (a ∷ b ∷ part) ys h = absurd (omega arith)
  reverse_loop-reverse (suc n) xs [] ys h = absurd (omega arith)
  reverse_loop-reverse (suc n) xs (a ∷ []) ys h = absurd (omega arith)
  reverse_loop-reverse (suc n) xs (a ∷ b ∷ part) ys h =
      let (mid, c, e) = unsnoc b part in
      let len : length (b ∷ part) ≡ suc (length mid) =
        ap length e ∙ (length-append mid (c ∷ []) ∙ omega arith) in
      let j = length xs + suc (length (b ∷ part)) - 1 in
      let swapped : swap (xs ++ a ∷ ((b ∷ part) ++ ys)) (length xs) j
          ≡ (xs ++ c ∷ []) ++ (mid ++ a ∷ ys) =
        ap (λ zs. swap (xs ++ a ∷ zs) (length xs) j)
          (ap (λ zs. zs ++ ys) e ∙ append_assoc mid (c ∷ []) ys)
        ∙ (swap_lem xs a mid c ys j (omega (arith, len))
            ∙ sym (append_assoc xs (c ∷ []) (mid ++ a ∷ ys))) in
      let turned : reverse (a ∷ b ∷ part) ≡ (c ∷ reverse mid) ++ a ∷ [] =
        reverse-cons a (b ∷ part)
        ∙ ap (λ zs. zs ++ a ∷ []) (ap reverse e ∙ reverse-append mid (c ∷ [])) in
      let from : length xs + 1 ≡ length (xs ++ c ∷ []) = omega (arith, length-append xs (c ∷ [])) in
      let to : j ≡ length (xs ++ c ∷ []) + length mid =
        omega (arith, length-append xs (c ∷ []), len) in
      let ih : reverse_loop n (length (xs ++ c ∷ [])) (length (xs ++ c ∷ []) + length mid)
            ((xs ++ c ∷ []) ++ (mid ++ a ∷ ys))
          ≡ (xs ++ c ∷ []) ++ (reverse mid ++ a ∷ ys) =
        reverse_loop-reverse n (xs ++ c ∷ []) mid (a ∷ ys) (omega (arith, len)) in
      ap (reverse_loop n (length xs + 1) j) swapped
      ∙ ((λ i. reverse_loop n (from i) (to i) ((xs ++ c ∷ []) ++ (mid ++ a ∷ ys)))
          ∙ (ih ∙ rw turned (simp append_assoc)))

  -- ti_reverse turns a part round
  ti_reverse-reverse :
      (xs part ys : List A) (mem nmem : ℕ)
      → mem ≡ length xs
      → nmem ≡ length part
      → ti_reverse mem nmem (xs ++ (part ++ ys)) ≡ xs ++ (reverse part ++ ys)
  unfolding ti_reverse
  ti_reverse-reverse xs part ys mem nmem e f =
      rw (e, f) (reverse_loop-reverse (length part / 2) xs part ys refl)

  length-reverse : (xs : List A) → length (reverse xs) ≡ length xs
  length-reverse [] = refl
  length-reverse (x ∷ xs) =
      rw (reverse-cons x xs)
        (length-append (reverse xs) (x ∷ []) ∙ omega (arith, length-reverse xs))

  -- ti_rotate_left exchanges a part of the program with the part that follows it, whatever stands
  -- before and behind.
  pub ti_rotate_left-exchange :
      (xs first second ys : List A)
      → ti_rotate_left
          (length xs)
          (length first + length second)
          (length first)
          (xs ++ (first ++ (second ++ ys)))
        ≡ xs ++ (second ++ (first ++ ys))
  unfolding ti_rotate_left
  ti_rotate_left-exchange xs first second ys =
      let n = length first + length second in
      let d = n - length first in
      let whole : ti_reverse (length xs) n (xs ++ (first ++ (second ++ ys)))
          ≡ xs ++ (reverse second ++ (reverse first ++ ys)) =
        ap (λ zs. ti_reverse (length xs) n (xs ++ zs)) (sym (append_assoc first second ys))
        ∙ (ti_reverse-reverse xs (first ++ second) ys (length xs) n refl
              (sym (length-append first second))
            ∙ rw (reverse-append first second) (simp append_assoc)) in
      let left : ti_reverse (length xs) d (xs ++ (reverse second ++ (reverse first ++ ys)))
          ≡ (xs ++ second) ++ (reverse first ++ ys) =
        ti_reverse-reverse xs (reverse second) (reverse first ++ ys) (length xs) d refl
          (omega (arith, length-reverse second))
        ∙ rw (reverse-reverse second) (sym (append_assoc xs second (reverse first ++ ys))) in
      let right : ti_reverse (length xs + d) (length first)
            ((xs ++ second) ++ (reverse first ++ ys))
          ≡ xs ++ (second ++ (first ++ ys)) =
        ti_reverse-reverse (xs ++ second) (reverse first) ys (length xs + d) (length first)
          (omega (arith, length-append xs second)) (sym (length-reverse first))
        ∙ rw (reverse-reverse first) (append_assoc xs second (first ++ ys)) in
      ap (λ zs. ti_reverse (length xs + d) (length first) (ti_reverse (length xs) d zs)) whole
      ∙ (ap (ti_reverse (length xs + d) (length first)) left ∙ right)
