-- ===== src/Number/Add/Defs.antt =====
-- number.c: do_add_or_sub, number_add, number_sub, number_abs_add_uword, number_negate. The local
-- variables nwa, sa, … are the length and the scale of the number at that point.
use calx.Base.{
  ℕ, ◌+◌, ◌-◌, Bool, true, false, not, ◌&&◌, ◌||◌, [], ◌∷◌, ◌++◌, length, take, drop, ltb, ◌==◌,
  if◌then◌else◌, get_or,
}
use calx.Number.Deci.{Deci}
use calx.Number.Defs.{Number, unsafe_push_word, mkuniq, mkuniq_scale_up, mkuniq_extend, int_part}

-- ^ on flags
abbrev pub xor : Bool → Bool → Bool
xor true b = not b
xor false b = b

-- The first operand gets as many integer words and as large a scale as the second.
unfoldable pub align : Number → Number → Number
align a b =
    let ninta = length a.words - a.scale in
    let nintb = length b.words - b.scale in
    if ltb ninta nintb
    then mkuniq_extend a (a.scale + nintb)
    else if ltb a.scale b.scale
    then mkuniq_scale_up a b.scale
    else mkuniq a

module _ (d : Deci) where
  -- the span from wa + sa - sb on is added to
  unfoldable pub add_words : Number → Number → Number
  add_words a b =
      let k = a.scale - b.scale in
      let sum = d.add (drop k a.words) b.words in
      let r = record a { words = take k a.words ++ sum.0 } in
      if sum.1 then unsafe_push_word r 1 else r

  -- nwa != sa && wa_end[-1] == 0
  unfoldable pub has_zero_top : Number → Bool
  has_zero_top a = not (length a.words == a.scale) && get_or a.words (length a.words - 1) 0 == 0

  -- the integer part is normalized if its top word became zero
  unfoldable pub normalize_top : Number → Number
  normalize_top a =
      if has_zero_top a
      then record a { words = take (a.scale + d.normalize_n (int_part a)) a.words }
      else a

  -- The difference, and whether there was a borrow, after which the words are complemented.
  unfoldable pub sub_words : Number → Number → Number × Bool
  sub_words a b =
      let k = a.scale - b.scale in
      let diff = d.sub_raw (drop k a.words) b.words in
      let words = take k a.words ++ diff.0 in
      let r = record a { words = if diff.1 then d.uncomplement words else words } in
      (normalize_top r, diff.1)

  -- `a` is aligned with `b`; the sign is set last
  unfoldable pub add_or_sub_aligned : Number → Number → Bool → Bool → Number
  add_or_sub_aligned a b add negate_result =
      let sum = add_words a b in
      let diff = sub_words a b in
      if xor (xor a.sign b.sign) add
      then record sum { sign = xor a.sign negate_result }
      else record (diff.0) { sign = xor a.sign (xor negate_result diff.1) }

  unfoldable pub do_add_or_sub : Number → Number → Bool → Number
  do_add_or_sub a b add =
      if ltb (length a.words) (length b.words) || (length a.words == length b.words && b.nrefs == 1)
      then add_or_sub_aligned (align b a) a add (not add)
      else add_or_sub_aligned (align a b) b add false

  unfoldable pub number_add : Number → Number → Number
  number_add a b = do_add_or_sub a b true

  unfoldable pub number_sub : Number → Number → Number
  number_sub a b = do_add_or_sub a b false

  unfoldable pub number_abs_add_uword : Number → ℕ → Number
  unfolding mkuniq unsafe_push_word
  number_abs_add_uword a b =
      let a' = mkuniq a in
      let sum = d.add (int_part a') (b ∷ []) in
      let r = record a' { words = take a'.scale a'.words ++ sum.0 } in
      if b == 0
      then a
      else if a'.scale == length a'.words
      then unsafe_push_word a' b
      else if sum.1
      then unsafe_push_word r 1
      else r

unfoldable pub number_negate : Number → Number
unfolding mkuniq
number_negate a = let a' = mkuniq a in record a' { sign = not a'.sign }
