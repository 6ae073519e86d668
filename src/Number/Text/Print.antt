-- ===== src/Number/Text/Print.antt =====
-- number.c: number_tostring and number_write. The buffer is a list from `r` to `p`.
use mathlib.Core.List.{reverse}
use calx.Base.{
  ℕ, zero, suc, ◌+◌, ◌-◌, ◌/◌, ◌%◌, not, ◌&&◌, List, [], ◌∷◌, ◌++◌, Bytes, codes, bytes_eq, length,
  take, drop, get_or, ◌==◌, if◌then◌else◌,
}
use calx.Number.Deci.{Deci}
use calx.Number.Defs.{Number, number_is_zero, int_part, frac_part}
use calx.Number.Text.Parse.{strip_end, skip_zeros}

-- n digits of a word, the least significant one first
unfoldable pub word_digits : ℕ → ℕ → Bytes
word_digits zero x = []
word_digits (suc n) x = (b'0' + x % 10) ∷ word_digits n (x / 10)

-- s[n - 1] == '.' is dropped
unfoldable pub strip_period : Bytes → Bytes
strip_period [] = []
strip_period (c ∷ []) = if c == b'.' then [] else c ∷ []
strip_period (c ∷ e ∷ s) = c ∷ strip_period (e ∷ s)

unfoldable pub finalize_tostring : Bytes → Bytes
finalize_tostring s = if bytes_eq s (codes "-0") then codes "0" else s

module _ (d : Deci) where
  -- the loop over the words, from word i on
  unfoldable pub tostring_loop : List ℕ → ℕ → ℕ → Bytes
  unfolding word_digits
  tostring_loop [] i sa = []
  tostring_loop (w ∷ ws) i sa =
      (if i == sa then b'.' ∷ [] else [])
      ++ (word_digits d.base_log w ++ tostring_loop ws (suc i) sa)

  unfoldable pub number_tostring : Number → Bytes
  unfolding tostring_loop strip_end strip_period finalize_tostring
  number_tostring a =
      let digits = tostring_loop a.words 0 a.scale in
      let whole =
        if length a.words == a.scale then digits ++ codes ".0" else strip_end b'0' digits in
      let signed = whole ++ (if a.sign then b'-' ∷ [] else []) in
      finalize_tostring (strip_period (strip_end b'0' (reverse signed)))

  unfoldable pub word2str : ℕ → Bytes
  unfolding word_digits
  word2str x = reverse (word_digits d.base_log x)

  unfoldable pub write_leading : ℕ → Bytes
  unfolding word2str skip_zeros
  write_leading x = skip_zeros (word2str x)

  unfoldable pub write_trailing : ℕ → Bytes
  unfolding word2str strip_end
  write_trailing x = strip_end b'0' (word2str x)

  -- the most significant word first
  unfoldable pub write_seq : List ℕ → Bytes
  unfolding word2str
  write_seq [] = []
  write_seq (w ∷ ws) = write_seq ws ++ word2str w

  unfoldable pub write_int : List ℕ → Bytes
  unfolding write_leading write_seq
  write_int ws =
      let n = length ws - 1 in
      if length ws == 0 then codes "0" else write_leading (get_or ws n 0) ++ write_seq (take n ws)

  unfoldable pub write_frac : List ℕ → Bytes
  unfolding write_trailing write_seq
  write_frac [] = []
  write_frac (w ∷ ws) = b'.' ∷ (write_seq ws ++ write_trailing w)

  -- all that the calls of `writer` get, in order
  unfoldable pub number_write : Number → Bytes
  unfolding write_int write_frac
  number_write a =
      (if a.sign && not (number_is_zero d a) then b'-' ∷ [] else [])
      ++ (write_int (int_part a) ++ write_frac (drop (d.skip0_n (frac_part a)) (frac_part a)))
