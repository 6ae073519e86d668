-- ===== src/Tests/Strings.antt =====
-- Strings at concrete inputs.
use calx.Base.{◌≡◌, ◌↔◌, refl, true, some, [], ◌∷◌, ◌++◌, codes, arith, get_or, min}
use calx.TextManip.{text_nth_line, join, text_nth_line-get_or}
use calx.Str.Append.{IsHashed, string_append-IsHashed, string_equal_iff}
use calx.Str.Defs.{String, hash_str, string_append, string_compare, string_equal}
use calx.Str.Order.{lexicographic, string_compare-lexicographic}

abbrev word : String
word = record { nrefs = 2; capacity = 4; hash = hash_str (codes "abc"); bytes = codes "abc" }

abbrev other : String
other = record { nrefs = 1; capacity = 3; hash = hash_str (codes "abd"); bytes = codes "abd" }

word-IsHashed : IsHashed word
word-IsHashed = record { hash = refl; room = omega arith }

other-IsHashed : IsHashed other
other-IsHashed = record { hash = refl; room = omega arith }

string_append-IsHashed_example :
    (r : String) × (string_append word (codes "def") ≡ some r)
    × (r.bytes ≡ codes "abc" ++ codes "def")
    × (r.nrefs ≡ 1)
    × IsHashed r
string_append-IsHashed_example =
    string_append-IsHashed word (codes "def") word-IsHashed (omega arith)

string_equal_iff_example : (string_equal word other ≡ true) ↔ (codes "abc" ≡ codes "abd")
string_equal_iff_example = string_equal_iff word other word-IsHashed other-IsHashed

string_compare-lexicographic_example :
    string_compare word other ≡ lexicographic (codes "abc") (codes "abd")
string_compare-lexicographic_example = string_compare-lexicographic word other

text_nth_line-get_or_example :
    text_nth_line (join (codes "ab") (codes "c" ∷ [] ∷ [])) 1
    ≡ get_or (codes "ab" ∷ codes "c" ∷ [] ∷ []) (min 1 2) []
text_nth_line-get_or_example =
    text_nth_line-get_or (codes "ab") (codes "c" ∷ [] ∷ []) 1 (refl, (refl, tt))
      ((refl, tt), (tt, tt))
