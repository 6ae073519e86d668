-- ===== src/Str/Defs.antt =====
-- str.c, str.h, hash.h: creation, appending in place or to a copy, order and equality. size_t has 64
-- bits; a hash has 32.
use Prim.Native.Nat.{bit_xor}
use mathlib.Core.Option
use calx.Base.{
  ℕ, zero, suc, ◌+◌, ◌-◌, ◌*◌, ◌/◌, ◌%◌, ◌^◌, Bool, false, not, Option, none, some, [], ◌∷◌, ◌++◌,
  Bytes, bytes_eq, length, min, ltb, ◌==◌, if◌then◌else◌,
}
use calx.Number.Compare.Defs.{compare_less, compare_eq, compare_greater}

-- `size` is the length of `bytes` (the C field data)
pub record String : Type 0 where
  pub nrefs : ℕ
  pub capacity : ℕ
  pub hash : ℕ
  pub bytes : Bytes

abbrev pub size_max : ℕ
size_max = 2 ^ 64 - 1

unfoldable pub hash_str_concat : ℕ → Bytes → ℕ
hash_str_concat ret [] = ret
hash_str_concat ret (c ∷ s) = hash_str_concat (bit_xor ret c * 16777619 % 2 ^ 32) s

unfoldable pub hash_str : Bytes → ℕ
hash_str s = hash_str_concat 2166136261 s

unfoldable pub string_new_with_capacity : Bytes → ℕ → String
string_new_with_capacity x capacity = record {
  nrefs = 1;
  capacity = capacity;
  hash = hash_str x;
  bytes = x;
}

unfoldable pub string_new : Bytes → String
unfolding string_new_with_capacity
string_new x = string_new_with_capacity x (length x)

-- while (c < req_capacity) c *= 2, on fuel
unfoldable pub grow_capacity : ℕ → ℕ → ℕ → Option ℕ
grow_capacity zero c req_capacity = none
grow_capacity (suc fuel) c req_capacity =
    let more = grow_capacity fuel (c * 2) req_capacity in
    if ltb c req_capacity then more else some c

-- the string with the new capacity, in place or copied
unfoldable pub with_capacity : String → ℕ → String
unfolding string_new_with_capacity
with_capacity s c =
    if s.nrefs == 1
    then (if ltb s.capacity c then record s { capacity = c } else s)
    else string_new_with_capacity s.bytes c

-- `none` is the end of the program for want of memory. A capacity is doubled 63 times at most.
unfoldable pub string_hot_append_begin : String → ℕ → Option String
unfolding grow_capacity with_capacity
string_hot_append_begin s n =
    let req_capacity = length s.bytes + n in
    if ltb (size_max / 2) req_capacity
    then none
    else Option.map (with_capacity s)
        (grow_capacity 65 (if s.capacity == 0 then 1 else s.capacity) req_capacity)

-- `x` holds the n bytes that the caller has put behind the data
unfoldable pub string_hot_append_end : String → Bytes → String
string_hot_append_end s x = record s { hash = hash_str_concat s.hash x; bytes = s.bytes ++ x }

unfoldable pub string_append : String → Bytes → Option String
unfolding string_hot_append_begin string_hot_append_end
string_append s x =
    Option.map (λ s'. string_hot_append_end s' x) (string_hot_append_begin s (length x))

-- memcmp on the first n bytes: the order of the first two bytes that differ
unfoldable pub memcmp : ℕ → Bytes → Bytes → ℕ
memcmp zero s t = compare_eq
memcmp (suc n) (c ∷ s) (e ∷ t) =
    let rest = memcmp n s t in
    if ltb c e then compare_less else if ltb e c then compare_greater else rest
memcmp (suc n) _ _ = compare_eq

unfoldable pub string_compare : String → String → ℕ
unfolding memcmp
string_compare s t =
    let ns = length s.bytes in
    let nt = length t.bytes in
    let r = memcmp (min ns nt) s.bytes t.bytes in
    if not (r == compare_eq)
    then r
    else if ltb ns nt
    then compare_less
    else if ns == nt
    then compare_eq
    else compare_greater

unfoldable pub string_equal : String → String → Bool
string_equal s t =
    if not (length s.bytes == length t.bytes)
    then false
    else if not (s.hash == t.hash)
    then false
    else bytes_eq s.bytes t.bytes
