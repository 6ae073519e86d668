-- ===== src/Vm/Aop.antt =====
-- vm.c: perform_cmp_3way, append_string_repr, do_pow, perform_aop and perform_neg.
use Prim.Native.Nat.{bit_and}
use mathlib.Core.Option
use calx.Base.{
  [], length, ◌*◌, ℕ, ◌+◌, Bool, not, ◌&&◌, Option, none, some, Bytes, codes, ◌==◌, if◌then◌else◌,
}
use calx.Number.Add.Defs.{number_add, number_sub, number_negate}
use calx.Number.Compare.Defs.{number_compare}
use calx.Number.Convert.Defs.{
  number_bit_and, number_bit_or, number_bit_xor, number_bit_shl, number_bit_lshr,
}
use calx.Number.Deci.{Deci}
use calx.Number.Defs.{Number, number_is_zero, number_is_izero, number_is_fzero}
use calx.Number.Div.Defs.{number_div, number_idiv, number_imod}
use calx.Number.Fancy.Spans.{SpanOps}
use calx.Number.Mul.Defs.{PowResult, power, exponent_is_too_large, number_mul, number_pow}
use calx.Number.Text.Print.{number_tostring}
use calx.Ntp.{NumberTruncateParams}
use calx.Str.Defs.{
  String, string_append, string_new, string_compare, string_hot_append_begin, string_hot_append_end,
}
use calx.Vm.Values.{
  Value, num, flag, str, kind, value_kind_name, value_is_truthy, AritOp, aop_and, aop_bit_and,
  aop_sub, aop_or, aop_bit_or, aop_bit_xor, aop_lshift, aop_rshift, aop_mod, aop_add, aop_div,
  aop_idiv, aop_mul, aop_pow, aop_concat, attempt_to_compute, division_by_zero,
  exponent_is_negative, exponent_has_fraction, attempt_to_negate, Perform, result, failed, stuck,
}

-- the operator's name in the message of an error
unfoldable pub cmp_oprepr : ℕ → Bytes
cmp_oprepr a =
    if a == 1
    then codes "<"
    else if a == 3
    then codes "<="
    else if a == 4
    then codes ">"
    else codes ">="

unfoldable pub oprepr : AritOp → Bytes
oprepr aop_and = codes "&&"
oprepr aop_bit_and = codes "&"
oprepr aop_sub = codes "-"
oprepr aop_or = codes "||"
oprepr aop_bit_or = codes "|"
oprepr aop_bit_xor = codes "^"
oprepr aop_lshift = codes "<<"
oprepr aop_rshift = codes ">>"
oprepr aop_mod = codes "%"
oprepr aop_add = codes "+"
oprepr aop_div = codes "/"
oprepr aop_idiv = codes "//"
oprepr aop_mul = codes "*"
oprepr aop_pow = codes "**"
oprepr aop_concat = codes "~"

-- `none` is the end of the program for want of memory
unfoldable pub made : Option Number → Perform Value
made none = stuck
made (some n) = result (num n)

unfoldable pub made_string : Option String → Perform Value
made_string none = stuck
made_string (some s) = result (str s)

module _ (d : Deci) where
  unfoldable pub perform_cmp_3way : Value → Value → ℕ → Perform Value
  unfolding kind cmp_oprepr
  perform_cmp_3way (num m) (num n) a = result (flag (not (bit_and a (number_compare d m n) == 0)))
  perform_cmp_3way (str s) (str t) a = result (flag (not (bit_and a (string_compare s t) == 0)))
  perform_cmp_3way left right a =
      failed (attempt_to_compute (kind left) (cmp_oprepr a) (kind right))

  -- UU_PANIC_OOM where the size is too large; string_tostring writes no more bytes than the size
  unfoldable pub append_string_repr : String → Value → Option String
  unfolding value_kind_name kind
  append_string_repr s (num n) =
      Option.map (λ s'. string_hot_append_end s' (number_tostring d n))
        (string_hot_append_begin s (3 + length n.words * d.base_log))
  append_string_repr s (str t) = string_append s t.bytes
  append_string_repr s (flag t) = string_append s (if t then codes "true" else codes "false")
  append_string_repr s v = Option.bind (string_append s (codes "<")) (λ s'.
      Option.bind (string_append s' (value_kind_name (kind v)))
        (λ s''. string_append s'' (codes ">")))

  -- concatenation: onto the string on the left, or onto a new one
  unfoldable pub concat : Value → Value → Option String
  unfolding append_string_repr
  concat (str s) right = append_string_repr s right
  concat left right =
      Option.bind (append_string_repr (string_new []) left) (λ s. append_string_repr s right)

  unfoldable pub perform_neg : Value → Perform Value
  unfolding kind
  perform_neg (num n) = result (num (number_negate n))
  perform_neg v = failed (attempt_to_negate (kind v))

  -- what both operands must be, or the error that names their kinds
  unfoldable pub numbers :
      AritOp → Value → Value → (Number → Number → Perform Value) → Perform Value
  unfolding kind oprepr
  numbers aop (num m) (num n) f = f m n
  numbers aop left right f = failed (attempt_to_compute (kind left) (oprepr aop) (kind right))

  module _ (x : SpanOps) where
    -- the program ends where the exponent is too large
    unfoldable pub powered : PowResult → Perform Value
    unfolding made
    powered (power r) = made r
    powered exponent_is_too_large = stuck

    unfoldable pub do_pow : Number → Number → Perform Value
    unfolding powered
    do_pow b e =
        if e.sign && not (number_is_zero d e)
        then failed exponent_is_negative
        else if not (number_is_fzero d e)
        then failed exponent_has_fraction
        else powered (number_pow d x b e)

    -- `same` says which operands of a product are one object
    unfoldable pub perform_aop :
        (Number → Number → Bool) → NumberTruncateParams → AritOp → Value → Value → Perform Value
    unfolding numbers made made_string do_pow concat value_is_truthy
    perform_aop same ntp aop_add v w = numbers aop_add v w (λ m n. result (num (number_add d m n)))
    perform_aop same ntp aop_sub v w = numbers aop_sub v w (λ m n. result (num (number_sub d m n)))
    perform_aop same ntp aop_mul v w =
        numbers aop_mul v w (λ m n. result (num (number_mul d x (same m n) m n)))
    perform_aop same ntp aop_div v w = numbers aop_div v w (λ m n.
        if number_is_zero d n
        then failed division_by_zero
        else result (num (number_div d x m n ntp)))
    perform_aop same ntp aop_pow v w = numbers aop_pow v w do_pow
    perform_aop same ntp aop_idiv v w = numbers aop_idiv v w (λ m n.
        if number_is_izero d n then failed division_by_zero else result (num (number_idiv d x m n)))
    perform_aop same ntp aop_mod v w = numbers aop_mod v w (λ m n.
        if number_is_izero d n then failed division_by_zero else result (num (number_imod d x m n)))
    perform_aop same ntp aop_concat v w = made_string (concat v w)
    perform_aop same ntp aop_and v w = if value_is_truthy v then result w else result v
    perform_aop same ntp aop_or v w = if value_is_truthy v then result v else result w
    perform_aop same ntp aop_bit_and v w =
        numbers aop_bit_and v w (λ m n. made (number_bit_and d m n))
    perform_aop same ntp aop_bit_or v w = numbers aop_bit_or v w (λ m n. made (number_bit_or d m n))
    perform_aop same ntp aop_bit_xor v w =
        numbers aop_bit_xor v w (λ m n. made (number_bit_xor d m n))
    perform_aop same ntp aop_lshift v w =
        numbers aop_lshift v w (λ m n. made (number_bit_shl d m n))
    perform_aop same ntp aop_rshift v w =
        numbers aop_rshift v w (λ m n. made (number_bit_lshr d m n))
