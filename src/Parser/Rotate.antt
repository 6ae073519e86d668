-- ===== src/Parser/Rotate.antt =====
-- parse.c: ti_reverse and ti_rotate_left, by which a `for` loop moves its last part behind its body.
-- A part of the program is given by its first index and its length.
pub mod Swap
use calx.Base.{ℕ, zero, suc, ◌+◌, ◌-◌, ◌/◌, Option, some, List, get_elem?, set}

module _ {ℓ} {A : Type ℓ} where
  unfoldable pub swap_with : List A → ℕ → ℕ → Option A → Option A → List A
  swap_with xs i j (some a) (some b) = set (set xs i b) j a
  swap_with xs i j _ _ = xs

  -- SWAP
  unfoldable pub swap : List A → ℕ → ℕ → List A
  unfolding swap_with
  swap xs i j = swap_with xs i j (get_elem? xs i) (get_elem? xs j)

  unfoldable pub reverse_loop : ℕ → ℕ → ℕ → List A → List A
  unfolding swap
  reverse_loop zero mem mem_end xs = xs
  reverse_loop (suc n) mem mem_end xs =
      reverse_loop n (mem + 1) (mem_end - 1) (swap xs mem (mem_end - 1))

  unfoldable pub ti_reverse : ℕ → ℕ → List A → List A
  unfolding reverse_loop
  ti_reverse mem nmem xs = reverse_loop (nmem / 2) mem (mem + nmem) xs

  unfoldable pub ti_rotate_left : ℕ → ℕ → ℕ → List A → List A
  unfolding ti_reverse
  ti_rotate_left mem nmem nrotate xs =
      let d = nmem - nrotate in
      ti_reverse (mem + d) nrotate (ti_reverse mem d (ti_reverse mem nmem xs))
