-- ===== src/Literal/Read.antt =====
-- parse.c: decode_hex, unescape and add_string_const, on the body of a literal. Behind the body
-- stands the closing quote, which `unescape` may read; a read behind that is an overrun.
use Prim.Native.Nat.{bit_or}
use calx.Base.{
  ℕ, zero, suc, ◌+◌, ◌-◌, ◌*◌, Option, none, some, [], ◌∷◌, ◌++◌, Bytes, length, take, drop,
  in_range, ◌==◌, if◌then◌else◌,
}
use calx.Literal.Write.{backslash, quote}

-- `none` for -1
unfoldable pub decode_hex : ℕ → Option ℕ
decode_hex c =
    if in_range b'0' b'9' c
    then some (c - b'0')
    else if in_range b'a' b'f' c
    then some (c - b'a' + 10)
    else if in_range b'A' b'F' c
    then some (c - b'A' + 10)
    else none

-- `byte v rest k`: the value, what is left of the body, and how many bytes were read.
pub data Unescaped : Type 0 where
  byte : ℕ → Bytes → ℕ → Unescaped
  bad : ℕ → Unescaped
  overrun : Unescaped

-- the second digit of \xHH; at the end of the body it is the closing quote, no digit
unfoldable pub unescape_low : ℕ → Bytes → Unescaped
unescape_low hi [] = bad 3
unescape_low hi (c ∷ s) = elim (decode_hex c) [
  | none ↦ bad 3
  | some lo ↦ byte (bit_or (hi * 16) lo) s 3
]

unfoldable pub unescape_hex : Bytes → Unescaped
unescape_hex [] = bad 2
unescape_hex (c ∷ s) = elim (decode_hex c) [ none ↦ bad 2 | some hi ↦ unescape_low hi s ]

-- The switch on the byte behind the backslash. If that byte is the closing quote, the cursor has
-- left the body.
unfoldable pub unescape : Bytes → Unescaped
unescape [] = overrun
unescape (c ∷ s) =
    if c == backslash
    then byte backslash s 1
    else if c == b'a'
    then byte 7 s 1
    else if c == b'b'
    then byte 8 s 1
    else if c == b'e'
    then byte 27 s 1
    else if c == b'f'
    then byte 12 s 1
    else if c == b'n'
    then byte 10 s 1
    else if c == b'r'
    then byte 13 s 1
    else if c == b't'
    then byte 9 s 1
    else if c == b'v'
    then byte 11 s 1
    else if c == quote
    then byte quote s 1
    else if c == b'0'
    then byte 0 s 1
    else if c == b'x'
    then unescape_hex s
    else bad 1

-- memchr(ptr, '\\', end - ptr): the bytes before the backslash, and those behind it
unfoldable pub split_at_backslash : Bytes → Bytes × Option Bytes
split_at_backslash [] = ([], none)
split_at_backslash (c ∷ s) =
    let (seg, found) = split_at_backslash s in
    if c == backslash then ([], some s) else (c ∷ seg, found)

-- The string, or the offset in the token at which an escape is invalid.
pub data Literal : Type 0 where
  ok : Bytes → Literal
  invalid_escape : ℕ → Literal
  fault : Literal

-- One round: append the segment, then the escape behind it; `again` is the rest of the loop, and
-- `n` the offset in the token of the byte at which the round starts.
unfoldable pub append_escape :
    (Bytes → ℕ → Bytes → Option Literal) → ℕ → Bytes → Bytes → Unescaped → Option Literal
append_escape again n s seg (byte v rest k) =
    again rest (n + length seg + 1 + k) (s ++ (seg ++ v ∷ []))
append_escape again n s seg (bad k) = some (invalid_escape (n + length seg + 1 + k - 1))
append_escape again n s seg overrun = some fault

unfoldable pub append_part :
    (Bytes → ℕ → Bytes → Option Literal) → ℕ → Bytes → Bytes × Option Bytes → Option Literal
append_part again n s (seg, none) = some (ok (s ++ seg))
append_part again n s (seg, some after) = append_escape again n s seg (unescape after)

-- The loop `while (ptr != end)` on fuel; `none` means that the fuel ran out. Each round passes a
-- backslash or is the last.
unfoldable pub read_loop : ℕ → Bytes → ℕ → Bytes → Option Literal
read_loop zero ptr n s = none
read_loop (suc fuel) [] n s = some (ok s)
read_loop (suc fuel) (p ∷ ptr) n s = append_part (read_loop fuel) n s (split_at_backslash (p ∷ ptr))

-- the bytes between token.start + 1 and token.start + token.size - 1
unfoldable pub literal_body : Bytes → Bytes
literal_body token = take (length token - 2) (drop 1 token)

-- add_string_const, up to the constant that it adds
unfoldable pub add_string_const : Bytes → Option Literal
add_string_const body = read_loop (suc (length body)) body 1 []
