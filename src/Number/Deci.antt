-- ===== src/Number/Deci.antt =====
-- What number.c calls of libdeci, a library of its own (a git submodule): the base, and operations
-- on spans of words. The laws say what its documentation promises of them.
use calx.Base.{ℕ, ◌+◌, ◌*◌, ◌^◌, ◌≤◌, ◌<◌, ◌≡◌, ◌↔◌, Bool, true, false, List, length, take}
use calx.Number.Words.{eval, Below, IsNormalized}

-- An operation on a span in place returns the new span. `base_log` is DECI_BASE_LOG.
pub record Deci : Type 0 where
  pub base_log : ℕ
  -- deci_normalize_n and deci_normalize, deci_skip0_n, deci_is_zero_n: counts of words
  pub normalize_n : List ℕ → ℕ
  pub skip0_n : List ℕ → ℕ
  pub is_zero_n : List ℕ → Bool
  -- deci_add and deci_sub_raw: the first span, and the carry or the borrow
  pub add : List ℕ → List ℕ → List ℕ × Bool
  pub sub_raw : List ℕ → List ℕ → List ℕ × Bool
  pub uncomplement : List ℕ → List ℕ
  -- deci_mul_uword: the span, and the word behind it
  pub mul_uword : List ℕ → ℕ → List ℕ × ℕ

-- DECI_BASE
abbrev pub base : Deci → ℕ
base d = 10 ^ d.base_log

abbrev pub bit : Bool → ℕ
bit true = 1
bit false = 0

pub record DeciLaws (d : Deci) : Type 0 where
  pub base_log_pos : 0 < d.base_log
  pub normalize_n-le : (ws : List ℕ) → d.normalize_n ws ≤ length ws
  pub normalize_n-eval :
      (ws : List ℕ) → eval (base d) (take (d.normalize_n ws) ws) ≡ eval (base d) ws
  pub normalize_n-IsNormalized : (ws : List ℕ) → IsNormalized (take (d.normalize_n ws) ws)
  pub is_zero_n_iff : (ws : List ℕ) → (d.is_zero_n ws ≡ true) ↔ (eval (base d) ws ≡ 0)
  pub length-add : (a b : List ℕ) → length b ≤ length a → length (d.add a b).0 ≡ length a
  pub Below-add :
      (a b : List ℕ)
      → length b ≤ length a
      → Below (base d) a
      → Below (base d) b
      → Below (base d) (d.add a b).0
  pub eval-add :
      (a b : List ℕ)
      → length b ≤ length a
      → Below (base d) a
      → Below (base d) b
      → eval (base d) (d.add a b).0 + bit (d.add a b).1 * base d ^ length a
        ≡ eval (base d) a + eval (base d) b
  pub length-sub_raw : (a b : List ℕ) → length b ≤ length a → length (d.sub_raw a b).0 ≡ length a
  pub Below-sub_raw :
      (a b : List ℕ)
      → length b ≤ length a
      → Below (base d) a
      → Below (base d) b
      → Below (base d) (d.sub_raw a b).0
  pub eval-sub_raw :
      (a b : List ℕ)
      → length b ≤ length a
      → Below (base d) a
      → Below (base d) b
      → eval (base d) (d.sub_raw a b).0 + eval (base d) b
        ≡ eval (base d) a + bit (d.sub_raw a b).1 * base d ^ length a
  pub length-uncomplement : (a : List ℕ) → length (d.uncomplement a) ≡ length a
  pub Below-uncomplement : (a : List ℕ) → Below (base d) a → Below (base d) (d.uncomplement a)
  pub eval-uncomplement :
      (a : List ℕ)
      → Below (base d) a
      → 0 < eval (base d) a
      → eval (base d) (d.uncomplement a) + eval (base d) a ≡ base d ^ length a
