-- ===== src/Literal/Write.antt =====
-- vm.c: write_char_escaped and write_string_escaped. What goes to stdout is returned.
use calx.Base.{
  ℕ, ◌/◌, ◌%◌, Bool, ◌||◌, [], ◌∷◌, ◌++◌, Bytes, codes, get_or, ltb, ◌==◌, if◌then◌else◌,
}

-- HEX_CHARS[d]
unfoldable pub hex_char : ℕ → ℕ
hex_char d = get_or (codes "0123456789ABCDEF") d 0

abbrev pub backslash : ℕ
backslash = b'\\'

abbrev pub quote : ℕ
quote = b'"'

unfoldable pub write_char_escaped : ℕ → Bytes
unfolding hex_char
write_char_escaped c =
    if c == 0
    then codes "\\0"
    else if c == 7
    then codes "\\a"
    else if c == 8
    then codes "\\b"
    else if c == 9
    then codes "\\t"
    else if c == 10
    then codes "\\n"
    else if c == 11
    then codes "\\v"
    else if c == 12
    then codes "\\f"
    else if c == 13
    then codes "\\r"
    else if c == 27
    then codes "\\e"
    else if c == backslash
    then backslash ∷ backslash ∷ []
    else if c == quote
    then backslash ∷ quote ∷ []
    else backslash ∷ b'x' ∷ hex_char (c / 16) ∷ hex_char (c % 16) ∷ []

-- c < 32 || c == '\\' || c == '"'
abbrev pub needs_escape : ℕ → Bool
needs_escape c = ltb c 32 || (c == backslash || c == quote)

-- The loop: `seg` holds the bytes from `prev` to `s`, which are not yet written.
unfoldable pub escape_loop : Bytes → Bytes → Bytes → Bytes
escape_loop [] seg out = out ++ seg
escape_loop (c ∷ s) seg out =
    let escaped = escape_loop s [] (out ++ (seg ++ write_char_escaped c)) in
    let plain = escape_loop s (seg ++ c ∷ []) out in if needs_escape c then escaped else plain

unfoldable pub write_string_escaped : Bytes → Bytes
unfolding escape_loop write_char_escaped
write_string_escaped s = escape_loop s [] (quote ∷ []) ++ quote ∷ []
