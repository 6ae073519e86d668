-- ===== src/Str/Order.antt =====
-- str.c: string_compare and the order of bytes.
use calx.Base.{
  ℕ, suc, ◌≡◌, refl, ◌∙◌, inl, inr, not, [], ◌∷◌, Bytes, arith, length, min, ltb, ◌==◌,
  if◌then◌else◌, Bool-cases,
}
use calx.Number.Compare.Defs.{compare_less, compare_eq, compare_greater}
use calx.Str.Defs.{String, memcmp, string_compare}

-- the lexicographic order, where the end of a string stands before every byte
pub lexicographic : Bytes → Bytes → ℕ
lexicographic [] [] = compare_eq
lexicographic [] (e ∷ t) = compare_less
lexicographic (c ∷ s) [] = compare_greater
lexicographic (c ∷ s) (e ∷ t) =
    let rest = lexicographic s t in
    if ltb c e then compare_less else if ltb e c then compare_greater else rest

by_length : ℕ → ℕ → ℕ → ℕ
by_length r ns nt =
    if not (r == compare_eq)
    then r
    else if ltb ns nt
    then compare_less
    else if ns == nt
    then compare_eq
    else compare_greater

by_length-suc : (r m n : ℕ) → by_length r (suc m) (suc n) ≡ by_length r m n
unfolding by_length
by_length-suc r m n = ground arith

memcmp-lexicographic :
    (s t : Bytes)
    → by_length (memcmp (min (length s) (length t)) s t) (length s) (length t) ≡ lexicographic s t
unfolding memcmp lexicographic by_length
memcmp-lexicographic [] [] = refl
memcmp-lexicographic [] (e ∷ t) =
    let m : min 0 (suc (length t)) ≡ 0 = omega arith in rw m (ground arith)
memcmp-lexicographic (c ∷ s) [] =
    let m : min (suc (length s)) 0 ≡ 0 = omega arith in rw m (ground arith)
memcmp-lexicographic (c ∷ s) (e ∷ t) =
    let m : min (suc (length s)) (suc (length t)) ≡ suc (min (length s) (length t)) = omega arith in
    rw m (elim (Bool-cases (ltb c e)) [
      | inl x ↦ rw x refl
      | inr x ↦ elim (Bool-cases (ltb e c)) [
        | inl y ↦ rw (x, y) refl
        | inr y ↦
            rw (x, y)
              (by_length-suc (memcmp (min (length s) (length t)) s t) (length s) (length t)
                ∙ memcmp-lexicographic s t)
      ]
    ])

-- Strings compare as their bytes do, lexicographically.
pub string_compare-lexicographic :
    (s t : String) → string_compare s t ≡ lexicographic s.bytes t.bytes
unfolding string_compare by_length
string_compare-lexicographic s t = memcmp-lexicographic s.bytes t.bytes
