-- ===== src/Number/Defs.antt =====
-- number.h: the number and its tests; number.c: copies with another scale or length.
use calx.Base.{
  ℕ, ◌+◌, ◌-◌, ◌≤◌, Bool, ◌&&◌, List, [], ◌∷◌, ◌++◌, length, take, drop, replicate, ◌==◌,
  if◌then◌else◌,
}
use calx.Number.Deci.{Deci, base}
use calx.Number.Words.{Below, IsNormalized}

-- `nrefs` is the reference count of the header; nwords is the length of `words`. Sizes that do not
-- fit into size_t end the program for want of memory, which is not modelled.
pub record Number : Type 0 where
  pub nrefs : ℕ
  pub sign : Bool
  pub words : List ℕ
  pub scale : ℕ

-- a new object, with one reference to it
unfoldable pub allocate : Bool → List ℕ → ℕ → Number
allocate sign words scale = record { nrefs = 1; sign = sign; words = words; scale = scale }

-- the words of the integer part and of the fraction
abbrev pub int_part : Number → List ℕ
int_part a = drop a.scale a.words

abbrev pub frac_part : Number → List ℕ
frac_part a = take a.scale a.words

-- The invariants that number.h states, and that each word is a digit of the base.
pub record IsValid (d : Deci) (a : Number) : Type 0 where
  pub scale_fits : a.scale ≤ length a.words
  pub normalized : IsNormalized (int_part a)
  pub below : Below (base d) a.words

unfoldable pub unsafe_push_word : Number → ℕ → Number
unsafe_push_word a w = record a { words = a.words ++ w ∷ [] }

unfoldable pub mkuniq : Number → Number
unfolding allocate
mkuniq a = if a.nrefs == 1 then a else allocate a.sign a.words a.scale

-- the low words of the fraction are dropped
unfoldable pub mkuniq_scale_down : Number → ℕ → Number
unfolding allocate
mkuniq_scale_down a sr =
    let nwr = length a.words - a.scale + sr in
    if a.nrefs == 1 && a.scale == sr
    then a
    else allocate a.sign (drop (length a.words - nwr) a.words) sr

-- zero words are put below the fraction
unfoldable pub mkuniq_scale_up : Number → ℕ → Number
unfolding allocate
mkuniq_scale_up a sr =
    if a.nrefs == 1 && a.scale == sr
    then a
    else allocate a.sign (replicate (sr - a.scale) 0 ++ a.words) sr

-- zero words are put on top
unfoldable pub mkuniq_extend : Number → ℕ → Number
unfolding allocate
mkuniq_extend a new_nwords =
    let words = a.words ++ replicate (new_nwords - length a.words) 0 in
    if a.nrefs == 1
    then (if length a.words == new_nwords then a else record a { words = words })
    else allocate a.sign words a.scale

-- The new length and scale; words are dropped at both ends. `nwr` is not more than is left.
unfoldable pub unsafe_strip : Number → ℕ → ℕ → Number
unsafe_strip a nwr sr =
    if length a.words == nwr && a.scale == sr
    then a
    else record a { words = take nwr (drop (a.scale - sr) a.words); scale = sr }

module _ (d : Deci) where
  unfoldable pub number_is_zero : Number → Bool
  number_is_zero a = a.scale == length a.words && d.is_zero_n (frac_part a)

  unfoldable pub number_is_izero : Number → Bool
  number_is_izero a = length a.words == a.scale

  unfoldable pub number_is_fzero : Number → Bool
  number_is_fzero a = d.is_zero_n (frac_part a)

  -- leading zero words of the integer part, and trailing zero words of the fraction, are dropped
  unfoldable pub unsafe_normalize_full : Number → Number
  unfolding unsafe_strip
  unsafe_normalize_full a =
      let new_scale = a.scale - d.skip0_n (frac_part a) in
      let new_nintpart = d.normalize_n (int_part a) in
      unsafe_strip a (new_scale + new_nintpart) new_scale
