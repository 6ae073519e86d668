-- ===== src/Parser/Operators.antt =====
-- parse.c: the tables of operators, and the cases of expressions.
use calx.Base.{ℕ, ◌+◌, Bool, Option, none, some, not}
use calx.Lexer.Kinds.{LexemeKind}
use calx.Parser.Resolve.{guard}
use calx.Parser.State.{cur_lexeme, M, ◌>>=◌, throw_error_at, plain}
use calx.Vm.State.{Opcode, op_neg, op_not, op_len, op_aop, op_cmp_2way, op_cmp_3way, Instr}
use calx.Vm.Values.{
  aop_and, aop_bit_and, aop_sub, aop_or, aop_bit_or, aop_bit_xor, aop_lshift, aop_rshift, aop_mod,
  aop_add, aop_div, aop_idiv, aop_mul, aop_pow, aop_concat,
}
use calx.Number.Compare.Defs.{compare_less, compare_eq, compare_greater}

unfoldable pub this_is_expr : Bool → M (Unit {0})
unfolding guard cur_lexeme throw_error_at
this_is_expr expect_expr = do
  cur ← cur_lexeme
  guard (not expect_expr) (throw_error_at "unexpected expression" cur)

unfoldable pub after_expr : Bool → M (Unit {0})
unfolding guard cur_lexeme throw_error_at
after_expr expect_expr = do
  cur ← cur_lexeme
  guard expect_expr (throw_error_at "expected expression" cur)

-- the opcode and the priority of a unary operator; `none` for priority 0
unfoldable pub unary_table : LexemeKind → Option (Opcode × ℕ)
unary_table LexemeKind.lk_minus = some (op_neg, 50)
unary_table LexemeKind.lk_bang = some (op_not, 50)
unary_table LexemeKind.lk_at = some (op_len, 60)
unary_table _ = none

-- `right` is 1 for operators that group from left to right, which want a higher priority on the right
pub record BinaryOpProps : Type 0 where
  pub instr : Instr
  pub priority : ℕ
  pub right : ℕ

abbrev pub left_to_right : Instr → ℕ → Option BinaryOpProps
left_to_right instr priority = some (record { instr = instr; priority = priority; right = 1 })

abbrev pub right_to_left : Instr → ℕ → Option BinaryOpProps
right_to_left instr priority = some (record { instr = instr; priority = priority; right = 0 })

abbrev pub cmp_2way : ℕ → Instr
cmp_2way a = record { opcode = op_cmp_2way; a = a; c = 0 }

abbrev pub cmp_3way : ℕ → Instr
cmp_3way a = record { opcode = op_cmp_3way; a = a; c = 0 }

unfoldable pub binary_table : LexemeKind → Option BinaryOpProps
binary_table LexemeKind.lk_tilde = left_to_right (plain (op_aop aop_concat)) 10
binary_table LexemeKind.lk_or_or = left_to_right (plain (op_aop aop_or)) 11
binary_table LexemeKind.lk_and_and = left_to_right (plain (op_aop aop_and)) 12
binary_table LexemeKind.lk_or = left_to_right (plain (op_aop aop_bit_or)) 13
binary_table LexemeKind.lk_hat = left_to_right (plain (op_aop aop_bit_xor)) 14
binary_table LexemeKind.lk_and = left_to_right (plain (op_aop aop_bit_and)) 15
binary_table LexemeKind.lk_bang_eq = left_to_right (cmp_2way 0) 16
binary_table LexemeKind.lk_eq_eq = left_to_right (cmp_2way compare_eq) 16
binary_table LexemeKind.lk_greater_eq = left_to_right (cmp_3way (compare_greater + compare_eq)) 17
binary_table LexemeKind.lk_greater = left_to_right (cmp_3way compare_greater) 17
binary_table LexemeKind.lk_less_eq = left_to_right (cmp_3way (compare_less + compare_eq)) 17
binary_table LexemeKind.lk_less = left_to_right (cmp_3way compare_less) 17
binary_table LexemeKind.lk_greater_greater = left_to_right (plain (op_aop aop_rshift)) 18
binary_table LexemeKind.lk_less_less = left_to_right (plain (op_aop aop_lshift)) 18
binary_table LexemeKind.lk_minus = left_to_right (plain (op_aop aop_sub)) 19
binary_table LexemeKind.lk_plus = left_to_right (plain (op_aop aop_add)) 19
binary_table LexemeKind.lk_percent = left_to_right (plain (op_aop aop_mod)) 20
binary_table LexemeKind.lk_slash = left_to_right (plain (op_aop aop_div)) 20
binary_table LexemeKind.lk_slash_slash = left_to_right (plain (op_aop aop_idiv)) 20
binary_table LexemeKind.lk_star = left_to_right (plain (op_aop aop_mul)) 20
binary_table LexemeKind.lk_star_star = right_to_left (plain (op_aop aop_pow)) 21
binary_table _ = none
