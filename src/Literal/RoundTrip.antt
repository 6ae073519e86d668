-- ===== src/Literal/RoundTrip.antt =====
-- vm.c, lexer.c, parse.c: a string from its printed form through the lexer to the constant.
use Prim.Native.Nat.{bit_or}
use mathlib.Core.List.{append_assoc, append-nil}
use calx.Base.{
  ◌∙◌, ℕ, zero, suc, ◌+◌, ◌-◌, ◌*◌, ◌/◌, ◌%◌, ◌≤◌, ◌<◌, ◌≡◌, refl, ap, inl, inr, Bool, true, false,
  not, ◌&&◌, ◌||◌, Option, none, some, [], ◌∷◌, ◌++◌, Bytes, arith, length, take, drop,
  length-append, ◌==◌, ==_iff, if◌then◌else◌, Bool-cases,
}
use calx.Lexer.Scan.{closed, pass, string_loop}
use calx.Lexer.Kinds.{LexemeKind}
use calx.Lexer.Token.{Lexer, advance, string, string_result}
use calx.Literal.Read.{
  decode_hex, byte, unescape_low, unescape_hex, unescape, split_at_backslash, ok, append_escape,
  append_part, read_loop, literal_body, add_string_const,
}
use calx.Literal.Write.{
  hex_char, backslash, quote, write_char_escaped, needs_escape, escape_loop, write_string_escaped,
}

-- what the printed string holds for one byte
pub hide : ℕ → Bytes
hide c = if needs_escape c then write_char_escaped c else c ∷ []

pub hide_all : Bytes → Bytes
hide_all [] = []
hide_all (c ∷ s) = hide c ++ hide_all s

escape_loop-hide_all : (s seg out : Bytes) → escape_loop s seg out ≡ out ++ (seg ++ hide_all s)
unfolding escape_loop hide_all hide
escape_loop-hide_all [] seg out = rw append-nil
escape_loop-hide_all (c ∷ s) seg out = elim (Bool-cases (needs_escape c)) [
  | inl e ↦ rw (e, escape_loop-hide_all s [] _) (simp append_assoc)
  | inr e ↦ rw (e, escape_loop-hide_all s _ out) (simp append_assoc)
]

write_string_escaped-hide_all :
    (s : Bytes) → write_string_escaped s ≡ quote ∷ (hide_all s ++ quote ∷ [])
unfolding write_string_escaped
write_string_escaped-hide_all s = rw (escape_loop-hide_all s [] (quote ∷ []))

-- The tables below go over all digits and all control characters.
-- a test on the `count` numbers from `first` on
passes_from : (ℕ → Bool) → ℕ → ℕ → Bool
passes_from test first zero = true
passes_from test first (suc count) = test first && passes_from test (suc first) count

passes_from-at :
    (test : ℕ → Bool) (first count c : ℕ)
    → first ≤ c
    → c < first + count
    → passes_from test first count ≡ true
    → test c ≡ true
unfolding passes_from
passes_from-at test first zero c low high h = absurd (omega arith)
passes_from-at test first (suc count) c low high h = elim (Bool-cases (c == first)) [
  | inl e ↦ ap test ((==_iff c first).0 e) ∙ (ground arith)
  | inr e ↦ passes_from-at test (suc first) count c (ground arith) (omega arith) (ground arith)
]

table_entry :
    (n : ℕ) (test : ℕ → Bool) (c : ℕ) → passes_from test 0 n ≡ true → c < n → test c ≡ true
table_entry n test c h lt = passes_from-at test 0 n c (omega arith) (omega arith) h

digit_is : ℕ → Option ℕ → Bool
digit_is d none = false
digit_is d (some e) = d == e

digit_table : passes_from (λ d. digit_is d (decode_hex (hex_char d))) 0 16 ≡ true
unfolding passes_from digit_is decode_hex hex_char
digit_table = refl

digit_is-some : (d : ℕ) (o : Option ℕ) → digit_is d o ≡ true → o ≡ some d
unfolding digit_is
digit_is-some d none h = cc
digit_is-some d (some e) h = ground arith

decode_hex-hex_char : (d : ℕ) → d < 16 → decode_hex (hex_char d) ≡ some d
decode_hex-hex_char d h =
    digit_is-some d _
      (table_entry 16 (λ d'. digit_is d' (decode_hex (hex_char d'))) d digit_table h)

byte_table : passes_from (λ x. bit_or (x / 16 * 16) (x % 16) == x) 0 256 ≡ true
unfolding passes_from
byte_table = refl

bit_or_digits : (x : ℕ) → x < 256 → bit_or (x / 16 * 16) (x % 16) ≡ x
bit_or_digits x h =
    (==_iff _ x).0 (table_entry 256 (λ x'. bit_or (x' / 16 * 16) (x' % 16) == x') x byte_table h)

unescape_hex-digits :
    (c : ℕ) (rest : Bytes)
    → c < 256
    → unescape_hex (hex_char (c / 16) ∷ hex_char (c % 16) ∷ rest) ≡ byte c rest 3
unfolding unescape_hex unescape_low
unescape_hex-digits c rest h =
    rw (decode_hex-hex_char (c / 16) (omega arith), unescape_hex)
      (rw (decode_hex-hex_char (c % 16) (omega arith), unescape_low) (rw (bit_or_digits c h)))

-- behind the backslash
tail_of : ℕ → Bytes
tail_of c = drop 1 (write_char_escaped c)

write_char_escaped-tail_of : (c : ℕ) → write_char_escaped c ≡ backslash ∷ tail_of c
unfolding tail_of write_char_escaped
write_char_escaped-tail_of c = ground arith

unescape-tail_of :
    (c : ℕ) (rest : Bytes)
    → needs_escape c ≡ true
    → unescape (tail_of c ++ rest) ≡ byte c rest (length (tail_of c))
unfolding tail_of write_char_escaped unescape
unescape-tail_of c rest h = ground (arith, unescape_hex-digits c rest)

-- no backslash in a segment
abbrev Plain : Bytes → Type 0
Plain [] = Unit
Plain (c ∷ s) = ((c == backslash) ≡ false) × Plain s

Plain-append : (s : Bytes) (c : ℕ) → Plain s → (c == backslash) ≡ false → Plain (s ++ c ∷ [])
Plain-append [] c h e = (e, tt)
Plain-append (d ∷ s) c h e = (h.0, Plain-append s c h.1 e)

split-undisturbed : (seg : Bytes) → Plain seg → split_at_backslash seg ≡ (seg, none)
unfolding split_at_backslash
split-undisturbed [] h = refl
split-undisturbed (c ∷ seg) h = rw (split-undisturbed seg h.1, h.0)

split-escape :
    (seg after : Bytes)
    → Plain seg
    → split_at_backslash (seg ++ backslash ∷ after) ≡ (seg, some after)
unfolding split_at_backslash
split-escape [] after h = refl
split-escape (c ∷ seg) after h = rw (split-escape seg after h.1, h.0)

read_loop-undisturbed :
    (fuel : ℕ) (seg : Bytes) (n : ℕ) (s : Bytes)
    → Plain seg
    → read_loop (suc fuel) seg n s ≡ some (ok (s ++ seg))
unfolding read_loop append_part append_escape
read_loop-undisturbed fuel [] n s h = rw append-nil
read_loop-undisturbed fuel (c ∷ seg) n s h = rw (split-undisturbed (c ∷ seg) h)

-- one round, at an escape that stands for `c`
read_loop-escape :
    (fuel : ℕ) (seg : Bytes) (c : ℕ) (rest : Bytes) (n : ℕ) (s : Bytes)
    → Plain seg
    → needs_escape c ≡ true
    → read_loop (suc fuel) (seg ++ backslash ∷ (tail_of c ++ rest)) n s
      ≡ read_loop fuel rest (n + length seg + 1 + length (tail_of c)) (s ++ (seg ++ c ∷ []))
unfolding read_loop append_part append_escape
read_loop-escape fuel [] c rest n s h e =
    rw (split-escape [] (tail_of c ++ rest) tt, unescape-tail_of c rest e)
read_loop-escape fuel (d ∷ seg) c rest n s h e =
    rw (split-escape (d ∷ seg) (tail_of c ++ rest) h, unescape-tail_of c rest e)

not_backslash : (c : ℕ) → needs_escape c ≡ false → (c == backslash) ≡ false
not_backslash c h = ground arith

-- the loop reads what was printed for `cs`, behind a segment that it has not yet passed
read_loop-hide_all :
    (cs seg : Bytes) (fuel n : ℕ) (s : Bytes)
    → Plain seg
    → length cs < fuel
    → read_loop fuel (seg ++ hide_all cs) n s ≡ some (ok (s ++ (seg ++ cs)))
unfolding hide_all hide
read_loop-hide_all [] seg zero n s h lt = absurd (omega arith)
read_loop-hide_all [] seg (suc fuel) n s h lt = rw append-nil (read_loop-undisturbed fuel seg n s h)
read_loop-hide_all (c ∷ cs) seg zero n s h lt = absurd (omega arith)
read_loop-hide_all (c ∷ cs) seg (suc fuel) n s h lt = elim (Bool-cases (needs_escape c)) [
  | inl e ↦
      rw (e, write_char_escaped-tail_of c, read_loop-escape fuel seg c (hide_all cs) n s h e)
        (rw (read_loop-hide_all cs [] fuel _ _ tt (omega arith)) (simp append_assoc))
  | inr e ↦ rw e (
      rw (← append_assoc seg (c ∷ []) (hide_all cs)) (
        rw
          (read_loop-hide_all cs (seg ++ c ∷ []) (suc fuel) n s
            (Plain-append seg c h (not_backslash c e)) (omega arith))
          (simp append_assoc)))
]

length-hide-pos : (c : ℕ) → 1 ≤ length (hide c)
unfolding hide write_char_escaped
length-hide-pos c = ground arith

length-hide_all-le : (s : Bytes) → length s ≤ length (hide_all s)
unfolding hide_all
length-hide_all-le [] = omega arith
length-hide_all-le (c ∷ s) =
    omega (arith, length-append (hide c) (hide_all s), length-hide-pos c, length-hide_all-le s)

-- The body of a printed string is read back as that string.
pub add_string_const-hide_all : (s : Bytes) → add_string_const (hide_all s) ≡ some (ok s)
unfolding add_string_const
add_string_const-hide_all s =
    read_loop-hide_all s [] (suc (length (hide_all s))) 1 [] tt
      (omega (arith, length-hide_all-le s))

-- The lexer's loop passes a byte that is no quote, no backslash and no line end.
abbrev ends_or_escapes : ℕ → Bool
ends_or_escapes c = c == quote || (c == backslash || c == b'\n')

string_loop-plain :
    (c : ℕ) (r : Bytes)
    → ends_or_escapes c ≡ false
    → string_loop false (c ∷ r) ≡ pass (string_loop false r)
unfolding string_loop
string_loop-plain c r h = ground arith

hex_char_table : passes_from (λ d. not (ends_or_escapes (hex_char d))) 0 16 ≡ true
unfolding passes_from hex_char
hex_char_table = refl

not-eq-true : (b : Bool) → not b ≡ true → b ≡ false
not-eq-true true h = cc
not-eq-true false h = refl

hex_char_plain : (d : ℕ) → d < 16 → ends_or_escapes (hex_char d) ≡ false
hex_char_plain d h =
    not-eq-true _ (table_entry 16 (λ d'. not (ends_or_escapes (hex_char d'))) d hex_char_table h)

string_loop-hex :
    (c : ℕ) (r : Bytes)
    → c < 256
    → string_loop false (backslash ∷ b'x' ∷ hex_char (c / 16) ∷ hex_char (c % 16) ∷ r)
      ≡ (suc (suc (suc (suc (string_loop false r).0))), (string_loop false r).1)
unfolding pass
string_loop-hex c r h =
    unfold string_loop in
    rw (
      string_loop-plain (hex_char (c / 16)) (hex_char (c % 16) ∷ r)
          (hex_char_plain _ (omega arith)),
      string_loop-plain (hex_char (c % 16)) r (hex_char_plain _ (omega arith)),
    )

string_loop-hide :
    (c : ℕ) (r : Bytes)
    → string_loop false (hide c ++ r)
      ≡ ((string_loop false r).0 + length (hide c), (string_loop false r).1)
unfolding hide write_char_escaped string_loop
string_loop-hide c r = ground (arith, string_loop-hex c r)

string_loop-hide_all :
    (s rest : Bytes)
    → string_loop false (hide_all s ++ quote ∷ rest) ≡ (length (hide_all s) + 1, closed)
unfolding hide_all
string_loop-hide_all [] rest = unfold string_loop in ground arith
string_loop-hide_all (c ∷ s) rest =
    rw
      (
        append_assoc (hide c) (hide_all s) (quote ∷ rest),
        string_loop-hide c,
        string_loop-hide_all s rest,
        length-append (hide c) (hide_all s),
      )
      (ground arith)

take-append : (s t : Bytes) → take (length s) (s ++ t) ≡ s
take-append [] t = refl
take-append (c ∷ s) t = ap (λ r. c ∷ r) (take-append s t)

literal_body-hide_all : (s : Bytes) → literal_body (quote ∷ (hide_all s ++ quote ∷ [])) ≡ hide_all s
unfolding literal_body
literal_body-hide_all s =
    let e : suc (length (hide_all s ++ quote ∷ [])) - 2 ≡ length (hide_all s) =
      omega (arith, length-append (hide_all s) (quote ∷ [])) in
    rw e (take-append (hide_all s) (quote ∷ []))

string-closed :
    (x : Lexer) (n : ℕ)
    → string_loop false (drop 1 x.rest) ≡ (n, closed)
    → string x ≡ string_result closed (advance x (suc n)) x.cur
unfolding string
string-closed x n h = rw h

drop-append : (s t : Bytes) → drop (length s) (s ++ t) ≡ t
drop-append [] t = refl
drop-append (c ∷ s) t = drop-append s t

length-write_string_escaped :
    (s : Bytes) → length (write_string_escaped s) ≡ suc (length (hide_all s) + 1)
length-write_string_escaped s =
    rw (write_string_escaped-hide_all s) (ap suc (length-append (hide_all s) (quote ∷ [])))

-- Where the source goes on with a string that was printed escaped, the lexer's `string` makes one
-- string lexeme of exactly that text, and the parser reads its body back as the string.
pub string-write_string_escaped :
    (x : Lexer) (s rest : Bytes)
    → x.rest ≡ write_string_escaped s ++ rest
    → ((string x).0.kind ≡ LexemeKind.lk_string)
      × ((string x).0.start ≡ x.cur)
      × ((string x).0.size ≡ length (write_string_escaped s))
      × ((string x).1.rest ≡ rest)
      × (add_string_const (literal_body (write_string_escaped s)) ≡ some (ok s))
unfolding string_result advance
string-write_string_escaped x s rest e =
    let loop : string_loop false (drop 1 x.rest) ≡ (length (hide_all s) + 1, closed) =
      rw (e, write_string_escaped-hide_all s)
        (rw (append_assoc (hide_all s) (quote ∷ []) rest) (string_loop-hide_all s rest)) in
    let left : drop (suc (length (hide_all s) + 1)) x.rest ≡ rest =
      rw (← length-write_string_escaped s, e) (drop-append (write_string_escaped s) rest) in
    rw (string-closed x _ loop) (
      refl,
      refl,
      omega (arith, length-write_string_escaped s),
      left,
      rw (write_string_escaped-hide_all s, literal_body-hide_all s) (add_string_const-hide_all s),
    )
