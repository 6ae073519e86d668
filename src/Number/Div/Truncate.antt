-- ===== src/Number/Div/Truncate.antt =====
-- number.c: unsafe_normalize_after_div on a span that holds a quotient.
use native.Mathlib.Nat.{div-eq_of_lt-le, add-mul-mod_self_left, mod-le}
use calx.Base.{
  ℕ, zero, suc, ◌+◌, ◌-◌, ◌*◌, ◌/◌, ◌%◌, ◌^◌, ◌≤◌, ◌<◌, ◌≡◌, refl, sym, ap, ◌∙◌, inl, inr, Bool,
  true, false, List, [], ◌∷◌, ◌++◌, arith, length, take, drop, replicate, ltb, leb, ◌==◌,
  if◌then◌else◌, Bool-cases, length-take, length-drop, length-append, length-replicate,
  take-append-drop, take-append_right, take-append_left, take-append_all, drop-append_all, drop-all,
  drop-drop,
}
use calx.Number.Deci.{Deci, base, DeciLaws}
use calx.Number.Defs.{Number, IsValid, unsafe_strip}
use calx.Number.Div.Defs.{truncate_low, zero_above, unsafe_normalize_after_div}
use calx.Number.Mul.Normalize.{strip-words}
use calx.Number.Words.{
  eval, eval-append, eval-zeros, eval-lt, pow_pos, Below, IsNormalized, Below-take, Below-drop,
  Below-append, Below-zeros,
}
use calx.Ntp.{NumberTruncateParams}

-- the digits below the last kept one become zero
abbrev pub kept : NumberTruncateParams → ℕ → ℕ
kept ntp v = if ntp.scale == 0 then v else v - v % ntp.submod

eval-drop :
    (b k : ℕ) (ws : List ℕ)
    → 0 < b
    → Below b ws
    → k ≤ length ws
    → eval b (drop k ws) ≡ eval b ws / b ^ k
eval-drop b k ws pos h le =
    let n : length (take k ws) ≡ k = omega (arith, length-take k ws) in
    let lt = eval-lt b (take k ws) (Below-take b k ws h) in
    let small : eval b (take k ws) < b ^ k = omega (arith, lt, ap (λ (t : ℕ). b ^ t) n) in
    let all : eval b ws ≡ eval b (take k ws) + b ^ k * eval b (drop k ws) =
      ap (eval b) (sym (take-append-drop k ws))
      ∙ eval-append b (take k ws) (drop k ws)
      ∙ rw n refl in
    sym (
      div-eq_of_lt-le {k = eval b (drop k ws)} (b ^ k) (omega (arith, all))
        (omega (arith, all, small)))

take-drop : (k m : ℕ) (ws : List ℕ) → take m (drop k ws) ≡ drop k (take (k + m) ws)
take-drop zero m ws = let e : 0 + m ≡ m = omega arith in rw e
take-drop (suc k) zero [] = let e : suc k + zero ≡ suc (k + zero) = omega arith in rw e refl
take-drop (suc k) (suc m) [] = let e : suc k + suc m ≡ suc (k + suc m) = omega arith in rw e refl
take-drop (suc k) m (w ∷ ws) =
    let e : suc k + m ≡ suc (k + m) = omega arith in rw e (take-drop k m ws)

truncate_low-eval :
    (b m k : ℕ) (ws : List ℕ) → b ≡ m * k → eval b (truncate_low m ws) ≡ eval b ws - eval b ws % m
unfolding truncate_low
truncate_low-eval b m k [] e = let z : 0 - 0 % m ≡ 0 = omega (arith, mod-le 0 m) in sym z
truncate_low-eval b m k (w ∷ ws) e =
    let multiple : b * eval b ws ≡ m * (k * eval b ws) =
      ap (λ (t : ℕ). t * eval b ws) e ∙ omega arith in
    let low : (w + b * eval b ws) % m ≡ w % m =
      ap (λ (t : ℕ). (w + t) % m) multiple ∙ add-mul-mod_self_left w m (k * eval b ws) in
    rw low (omega (arith, mod-le w m))

Below-truncate_low : (b m : ℕ) (ws : List ℕ) → Below b ws → Below b (truncate_low m ws)
unfolding truncate_low
Below-truncate_low b m [] h = tt
Below-truncate_low b m (w ∷ ws) h = (omega (arith, h.0), h.1)

drop-truncate_low : (m j : ℕ) (ws : List ℕ) → drop (suc j) (truncate_low m ws) ≡ drop (suc j) ws
unfolding truncate_low
drop-truncate_low m j [] = refl
drop-truncate_low m j (w ∷ ws) = refl

length-truncate_low : (m : ℕ) (ws : List ℕ) → length (truncate_low m ws) ≡ length ws
unfolding truncate_low
length-truncate_low m [] = refl
length-truncate_low m (w ∷ ws) = refl

-- A number of ntp.scale words of fraction, that stands for v without the digits that ntp drops.
pub record Truncated (d : Deci) (ntp : NumberTruncateParams) (v : ℕ) (sign : Bool) (r : Number)
    : Type 0 where
  pub valid : IsValid d r
  pub scale : r.scale ≡ ntp.scale
  pub value : eval (base d) r.words ≡ kept ntp v
  pub sign_of : r.sign ≡ sign

pub Truncated-at :
    (d : Deci) (ntp : NumberTruncateParams) (v w : ℕ) (s t : Bool) (r : Number)
    → v ≡ w
    → s ≡ t
    → Truncated d ntp v s r
    → Truncated d ntp w t r
Truncated-at d ntp v w s t r e f h = record {
  valid = h.valid;
  scale = h.scale;
  value = h.value ∙ ap (kept ntp) e;
  sign_of = h.sign_of ∙ f;
}

-- A number whose first n words hold v, the words of the integer part normalized.
record Quotient (d : Deci) (v n : ℕ) (a : Number) : Type 0 where
  fits : n ≤ length a.words
  above : a.scale ≤ n
  value : eval (base d) (take n a.words) ≡ v
  normalized : IsNormalized (drop a.scale (take n a.words))
  below : Below (base d) a.words

module _ (d : Deci) (laws : DeciLaws d) where
  positive : 0 < base d
  positive = pow_pos 10 d.base_log (omega arith)

  long-Quotient :
      (a : Number) (nwr v : ℕ)
      → a.scale < nwr
      → nwr ≤ length a.words
      → eval (base d) (take nwr a.words) ≡ v
      → Below (base d) a.words
      → Quotient d v (a.scale + d.normalize_n (drop a.scale (take nwr a.words))) a
  long-Quotient a nwr v lt le value below =
      let ws = take nwr a.words in
      let low = take a.scale ws in
      let high = drop a.scale ws in
      let k = d.normalize_n high in
      let size : length ws ≡ nwr = omega (arith, length-take nwr a.words) in
      let low_size : length low ≡ a.scale = omega (arith, length-take a.scale ws, size) in
      let fit = laws.normalize_n-le high in
      let words : take (a.scale + k) a.words ≡ low ++ take k high =
        ap (take (a.scale + k)) (sym (take-append-drop nwr a.words))
        ∙ take-append_left (a.scale + k) ws (drop nwr a.words)
            (omega (arith, fit, length-drop a.scale ws, size))
        ∙ ap (take (a.scale + k)) (sym (take-append-drop a.scale ws))
        ∙ take-append_right a.scale k low high (omega (arith, low_size)) in
      record {
        fits = omega (arith, fit, length-drop a.scale ws, size);
        above = omega arith;
        value =
            rw (words, eval-append (base d) low (take k high), laws.normalize_n-eval high)
              (sym (eval-append (base d) low high)
                ∙ ap (eval (base d)) (take-append-drop a.scale ws)
                ∙ value);
        normalized =
            rw (words, drop-append_all a.scale low (take k high) (omega (arith, low_size)))
              (laws.normalize_n-IsNormalized high);
        below = below;
      }

  short-Quotient :
      (a : Number) (nwr v : ℕ)
      → nwr ≤ a.scale
      → a.scale ≤ length a.words
      → eval (base d) (take nwr a.words) ≡ v
      → Below (base d) a.words
      → Quotient d v a.scale (zero_above a nwr)
  unfolding zero_above
  short-Quotient a nwr v le fits value below =
      let ws = take nwr a.words in
      let zeros : List ℕ = replicate (a.scale - nwr) 0 in
      let rest = drop a.scale a.words in
      let size : length ws ≡ nwr = omega (arith, length-take nwr a.words) in
      let count : a.scale ≡ nwr + (a.scale - nwr) = omega arith in
      let zero_count = length-replicate {A = ℕ} (a.scale - nwr) 0 in
      let words : take a.scale (ws ++ (zeros ++ rest)) ≡ ws ++ zeros =
        ap (λ (t : ℕ). take t (ws ++ (zeros ++ rest))) count
        ∙ take-append_right nwr (a.scale - nwr) ws (zeros ++ rest) (sym size)
        ∙ ap (λ (t : List ℕ). ws ++ t)
            (take-append_all (a.scale - nwr) zeros rest (sym zero_count)) in
      record {
        fits =
            omega
              (arith, length-append ws (zeros ++ rest), length-append zeros rest, zero_count, size);
        above = omega arith;
        value =
            rw (words, eval-append (base d) ws zeros, eval-zeros (base d) (a.scale - nwr))
              (omega (arith, value));
        normalized =
            rw
              (
                words,
                drop-all a.scale (ws ++ zeros)
                    (omega (arith, length-append ws zeros, zero_count, size)),
              )
              tt;
        below = Below-append (base d) ws (zeros ++ rest) (Below-take (base d) nwr a.words below) (
            Below-append (base d) zeros rest (Below-zeros (base d) (a.scale - nwr) positive)
              (Below-drop (base d) a.scale a.words below));
      }

  low_off :
      (r : Number) (ntp : NumberTruncateParams) (v k j : ℕ)
      → base d ≡ ntp.submod * k
      → ntp.scale ≡ suc j
      → IsValid d r
      → r.scale ≡ ntp.scale
      → eval (base d) r.words ≡ v
      → Truncated d ntp v r.sign (record r { words = truncate_low ntp.submod r.words })
  low_off r ntp v k j whole_base some_fraction valid scale value =
      let not_zero : (ntp.scale == 0) ≡ false = ground (arith, some_fraction) in
      let tail : drop r.scale (truncate_low ntp.submod r.words) ≡ drop r.scale r.words =
        ap (λ (t : ℕ). drop t (truncate_low ntp.submod r.words)) (scale ∙ some_fraction)
        ∙ drop-truncate_low ntp.submod j r.words
        ∙ sym (ap (λ (t : ℕ). drop t r.words) (scale ∙ some_fraction)) in
      record {
        valid = record {
          scale_fits = omega (arith, length-truncate_low ntp.submod r.words, valid.scale_fits);
          normalized = rw tail valid.normalized;
          below = Below-truncate_low (base d) ntp.submod r.words valid.below;
        };
        scale = scale;
        value =
            truncate_low-eval (base d) ntp.submod k r.words whole_base
            ∙ ap (λ (t : ℕ). t - t % ntp.submod) value
            ∙ rw not_zero refl;
        sign_of = refl;
      }

  finish :
      (a : Number) (n v k : ℕ) (ntp : NumberTruncateParams)
      → base d ≡ ntp.submod * k
      → ntp.scale ≤ a.scale
      → Quotient d v n a
      → let cut = unsafe_strip a (n - a.scale + ntp.scale) ntp.scale in
        Truncated d ntp
          (v / base d ^ (a.scale - ntp.scale))
          a.sign
          (if ntp.scale == 0 then cut else record cut { words = truncate_low ntp.submod cut.words })
  finish a n v k ntp whole_base le q =
      let cut = unsafe_strip a (n - a.scale + ntp.scale) ntp.scale in
      let ws = take n a.words in
      let off = a.scale - ntp.scale in
      let (raw, scale, sign) = strip-words a (n - a.scale + ntp.scale) ntp.scale le in
      let count : off + (n - a.scale + ntp.scale) ≡ n = omega (arith, q.above) in
      let size : length ws ≡ n = omega (arith, length-take n a.words, q.fits) in
      let words : cut.words ≡ drop off ws =
        raw
        ∙ take-drop off (n - a.scale + ntp.scale) a.words
        ∙ ap (λ (t : ℕ). drop off (take t a.words)) count in
      let below_ws = Below-take (base d) n a.words q.below in
      let whole_part : drop ntp.scale (drop off ws) ≡ drop a.scale ws =
        drop-drop ntp.scale off ws ∙ ap (λ (t : ℕ). drop t ws) (omega (arith, le)) in
      let valid : IsValid d cut = record {
        scale_fits = omega (arith, scale, ap length words, length-drop off ws, size, q.above, le);
        normalized = rw (words, scale, whole_part) q.normalized;
        below = rw words (Below-drop (base d) off ws below_ws);
      } in
      let value : eval (base d) cut.words ≡ v / base d ^ off =
        ap (eval (base d)) words
        ∙ eval-drop (base d) off ws positive below_ws (omega (arith, size, q.above))
        ∙ ap (λ (t : ℕ). t / base d ^ off) q.value in
      elim (Bool-cases (ntp.scale == 0)) [
        | inl z ↦ rw z (record { valid = valid; scale = scale; value = rw z value; sign_of = sign })
        | inr z ↦
            let some_fraction : ntp.scale ≡ suc (ntp.scale - 1) = ground arith in
            rw z (
              Truncated-at d ntp _ _ _ _ _ refl sign
                (low_off cut ntp _ k (ntp.scale - 1) whole_base some_fraction valid scale value))
      ]

  pub after_div-Truncated :
      (a : Number) (nwr v k : ℕ) (ntp : NumberTruncateParams)
      → base d ≡ ntp.submod * k
      → ntp.scale ≤ a.scale
      → a.scale ≤ length a.words
      → nwr ≤ length a.words
      → eval (base d) (take nwr a.words) ≡ v
      → Below (base d) a.words
      → Truncated d ntp
          (v / base d ^ (a.scale - ntp.scale))
          a.sign
          (unsafe_normalize_after_div d a nwr ntp)
  unfolding unsafe_normalize_after_div
  after_div-Truncated a nwr v k ntp whole_base le fits count value below =
      let no_more : leb ntp.scale a.scale ≡ true = ground arith in
      elim (Bool-cases (ltb a.scale nwr)) [
        | inl e ↦
            rw (e, no_more)
              (finish a _ v k ntp whole_base le
                (long-Quotient a nwr v (ground arith) count value below))
        | inr e ↦
            rw (e, no_more)
              (finish (zero_above a nwr) a.scale v k ntp whole_base le
                (short-Quotient a nwr v (ground arith) fits value below))
      ]
