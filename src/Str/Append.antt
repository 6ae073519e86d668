-- ===== src/Str/Append.antt =====
-- str.c, hash.h: the cached hash, string_append and string_equal.
use Prim.Native.Nat.{bit_xor}
use mathlib.Core.Path.{ap₂}
use calx.Number.Words.{pow_zero}
use native.Mathlib.Nat.{pow-suc, mul-le-mul_right}
use calx.Base.{
  ℕ, zero, suc, ◌+◌, ◌*◌, ◌/◌, ◌%◌, ◌^◌, ◌≤◌, ◌≡◌, refl, sym, ap, ◌∙◌, inl, inr, Bool, true, false,
  not, some, [], ◌∷◌, ◌++◌, Bytes, bytes_eq, arith, length, length-append, ltb, ◌==◌, ==_iff,
  if◌then◌else◌, Bool-cases, ◌↔◌,
}
use calx.Str.Defs.{
  String, size_max, hash_str_concat, hash_str, grow_capacity, with_capacity,
  string_new_with_capacity, string_hot_append_begin, string_hot_append_end, string_append,
  string_equal,
}

-- the hash is that of the data, and the data fits
pub record IsHashed (s : String) : Type 0 where
  pub hash : s.hash ≡ hash_str s.bytes
  pub room : length s.bytes ≤ s.capacity

hash_str_concat-append :
    (h : ℕ) (s t : Bytes) → hash_str_concat h (s ++ t) ≡ hash_str_concat (hash_str_concat h s) t
unfolding hash_str_concat
hash_str_concat-append h [] t = refl
hash_str_concat-append h (c ∷ s) t = hash_str_concat-append (bit_xor h c * 16777619 % 2 ^ 32) s t

grow_step :
    (fuel c req : ℕ)
    → ltb c req ≡ true
    → grow_capacity (suc fuel) c req ≡ grow_capacity fuel (c * 2) req
unfolding grow_capacity
grow_step fuel c req e = rw e refl

grow_stop : (fuel c req : ℕ) → ltb c req ≡ false → grow_capacity (suc fuel) c req ≡ some c
unfolding grow_capacity
grow_stop fuel c req e = rw e refl

grow_capacity-enough :
    (fuel c req : ℕ)
    → req ≤ c * 2 ^ fuel
    → (c' : ℕ) × (grow_capacity (suc fuel) c req ≡ some c') × (req ≤ c') × (c ≤ c')
grow_capacity-enough zero c req h =
    let le : req ≤ c = omega (arith, ap (λ (t : ℕ). c * t) (pow_zero 2)) in
    (c, grow_stop zero c req (ground arith), le, omega arith)
grow_capacity-enough (suc fuel) c req h = elim (Bool-cases (ltb c req)) [
  | inl e ↦
      let (c', f, le, more) =
        grow_capacity-enough fuel (c * 2) req
          (omega (arith, ap (λ (t : ℕ). c * t) (pow-suc 2 fuel))) in
      (c', grow_step (suc fuel) c req e ∙ f, le, omega arith)
  | inr e ↦ (c, grow_stop (suc fuel) c req e, ground arith, omega arith)
]

-- a string that is ready for more bytes
record Ready (s w : String) (req : ℕ) : Type 0 where
  bytes : w.bytes ≡ s.bytes
  hash : w.hash ≡ hash_str s.bytes
  single : w.nrefs ≡ 1
  room : req ≤ w.capacity

with_capacity-Ready :
    (s : String) (c req : ℕ) → IsHashed s → req ≤ c → Ready s (with_capacity s c) req
unfolding with_capacity string_new_with_capacity
with_capacity-Ready s c req v le = elim (Bool-cases (s.nrefs == 1)) [
  | inl e ↦ elim (Bool-cases (ltb s.capacity c)) [
    | inl f ↦
        rw (e, f) (record { bytes = refl; hash = v.hash; single = (==_iff _ 1).0 e; room = le })
    | inr f ↦
        rw (e, f)
          (record { bytes = refl; hash = v.hash; single = (==_iff _ 1).0 e; room = ground arith })
  ]
  | inr e ↦ rw e (record { bytes = refl; hash = refl; single = refl; room = le })
]

first_capacity : ℕ → ℕ
first_capacity c = if c == 0 then 1 else c

string_hot_append_begin-Ready :
    (s : String) (n : ℕ)
    → IsHashed s
    → length s.bytes + n ≤ size_max / 2
    → (w : String) × (string_hot_append_begin s n ≡ some w) × Ready s w (length s.bytes + n)
unfolding string_hot_append_begin
string_hot_append_begin-Ready s n v h =
    let one : 1 ≤ (if s.capacity == 0 then 1 else s.capacity) = ground arith in
    let (c, e, le, more) =
      grow_capacity-enough 64 (if s.capacity == 0 then 1 else s.capacity) (length s.bytes + n)
        (omega (arith, mul-le-mul_right (2 ^ 64) one)) in
    let small : ltb (size_max / 2) (length s.bytes + n) ≡ false = ground arith in
    (with_capacity s c, rw (small, e) refl, with_capacity-Ready s c (length s.bytes + n) v le)

appended :
    (s w : String) (x : Bytes)
    → Ready s w (length s.bytes + length x)
    → IsHashed (string_hot_append_end w x)
unfolding string_hot_append_end hash_str
appended s w x r = record {
  hash =
      ap (λ (t : ℕ). hash_str_concat t x) r.hash
      ∙ sym (hash_str_concat-append 2166136261 s.bytes x)
      ∙ ap (λ t. hash_str_concat 2166136261 (t ++ x)) (sym r.bytes);
  room = omega (arith, length-append w.bytes x, ap length r.bytes, r.room);
}

-- Appending to a string with a right hash gives the bytes of both, with one reference and again the
-- right hash, in place or not, as long as the size fits into half of a size_t.
pub string_append-IsHashed :
    (s : String) (x : Bytes)
    → IsHashed s
    → length s.bytes + length x ≤ size_max / 2
    → (r : String) × (string_append s x ≡ some r)
      × (r.bytes ≡ s.bytes ++ x)
      × (r.nrefs ≡ 1)
      × IsHashed r
unfolding string_append string_hot_append_end
string_append-IsHashed s x v h =
    let (w, e, r) = string_hot_append_begin-Ready s (length x) v h in
    (string_hot_append_end w x, rw e refl, ap (λ t. t ++ x) r.bytes, r.single, appended s w x r)

bytes_eq→eq : (s t : Bytes) → bytes_eq s t ≡ true → s ≡ t
bytes_eq→eq [] [] h = refl
bytes_eq→eq [] (e ∷ t) h = cc
bytes_eq→eq (c ∷ s) [] h = cc
bytes_eq→eq (c ∷ s) (e ∷ t) h =
    let heads : (c == e) ≡ true = ground arith in
    let tails : bytes_eq s t ≡ true = ground arith in
    ap₂ (λ x y. x ∷ y) ((==_iff c e).0 heads) (bytes_eq→eq s t tails)

bytes_eq_refl : (s : Bytes) → bytes_eq s s ≡ true
bytes_eq_refl [] = refl
bytes_eq_refl (c ∷ s) = rw (bytes_eq_refl s) (ground arith)

last_test : (p q r : Bool) → (if not p then false else if not q then false else r) ≡ true → r ≡ true
last_test true true r h = h
last_test true false r h = cc
last_test false q r h = cc

-- Strings with right hashes are equal exactly where their bytes are.
pub string_equal_iff :
    (s t : String) → IsHashed s → IsHashed t → (string_equal s t ≡ true) ↔ (s.bytes ≡ t.bytes)
unfolding string_equal
string_equal_iff s t v w = (
  λ h.
      bytes_eq→eq s.bytes t.bytes
        (last_test (length s.bytes == length t.bytes) (s.hash == t.hash) _ h),
  λ e.
      let sizes : (length s.bytes == length t.bytes) ≡ true = (==_iff _ _).1 (ap length e) in
      let hashes : (s.hash == t.hash) ≡ true =
        (==_iff _ _).1 (v.hash ∙ ap hash_str e ∙ sym w.hash) in
      let same : bytes_eq s.bytes t.bytes ≡ true =
        ap (λ x. bytes_eq s.bytes x) (sym e) ∙ bytes_eq_refl s.bytes in
      rw (sizes, hashes, same) refl,
)
