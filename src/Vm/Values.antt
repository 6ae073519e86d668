-- ===== src/Vm/Values.antt =====
-- vm.h, vm.c: values, their kinds and names, equality and the messages of errors. A number or a string
-- is a value; a list, a dict, a function or a weak reference is the address of an object.
use calx.Base.{ℕ, Bool, true, false, Bytes, codes, ◌==◌}
use calx.Number.Compare.Defs.{number_compare, compare_eq}
use calx.Number.Deci.{Deci}
use calx.Number.Defs.{Number}
use calx.Str.Defs.{String, string_equal}

pub data Kind : Type 0 where
  vk_num vk_flag vk_str vk_nil vk_list vk_dict vk_func vk_cfunc vk_wref : Kind

pub data Value : Type 0 where
  num : Number → Value
  flag : Bool → Value
  str : String → Value
  nil : Value
  list dict func cfunc wref : ℕ → Value

unfoldable pub kind : Value → Kind
kind (num n) = vk_num
kind (flag t) = vk_flag
kind (str s) = vk_str
kind nil = vk_nil
kind (list p) = vk_list
kind (dict p) = vk_dict
kind (func p) = vk_func
kind (cfunc p) = vk_cfunc
kind (wref p) = vk_wref

unfoldable pub value_kind_name : Kind → Bytes
value_kind_name vk_num = codes "number"
value_kind_name vk_flag = codes "flag"
value_kind_name vk_nil = codes "nil"
value_kind_name vk_str = codes "string"
value_kind_name vk_list = codes "list"
value_kind_name vk_dict = codes "dict"
value_kind_name vk_wref = codes "weakref"
value_kind_name vk_func = codes "function"
value_kind_name vk_cfunc = codes "function"

unfoldable pub value_kind_name_long : Kind → Bytes
value_kind_name_long vk_num = codes "number"
value_kind_name_long vk_flag = codes "flag"
value_kind_name_long vk_nil = codes "nil"
value_kind_name_long vk_str = codes "string"
value_kind_name_long vk_list = codes "list"
value_kind_name_long vk_dict = codes "dict"
value_kind_name_long vk_wref = codes "weakref"
value_kind_name_long vk_func = codes "function (bytecode)"
value_kind_name_long vk_cfunc = codes "function (native code)"

unfoldable pub value_is_truthy : Value → Bool
value_is_truthy nil = false
value_is_truthy (flag t) = t
value_is_truthy _ = true

unfoldable pub same_flag : Bool → Bool → Bool
same_flag true t = t
same_flag false true = false
same_flag false false = true

unfoldable pub values_equal : Deci → Value → Value → Bool
unfolding same_flag
values_equal d (num m) (num n) = number_compare d m n == compare_eq
values_equal d (str s) (str t) = string_equal s t
values_equal d (flag s) (flag t) = same_flag s t
values_equal d nil nil = true
values_equal d (list p) (list q) = p == q
values_equal d (dict p) (dict q) = p == q
values_equal d (func p) (func q) = p == q
values_equal d (cfunc p) (cfunc q) = p == q
values_equal d (wref p) (wref q) = p == q
values_equal d _ _ = false

pub data AritOp : Type 0 where
  aop_and aop_bit_and aop_sub aop_or aop_bit_or aop_bit_xor aop_lshift aop_rshift : AritOp
  aop_mod aop_add aop_div aop_idiv aop_mul aop_pow aop_concat : AritOp

-- The errors, with what their messages name: the kinds, the operator, the counts.
pub data Message : Type 0 where
  attempt_to_compute : Kind → Bytes → Kind → Message
  division_by_zero exponent_is_negative exponent_has_fraction : Message
  attempt_to_negate attempt_to_compute_length attempt_to_index : Kind → Message
  index_list_with index_dict_with index_string_with dict_with_key : Kind → Message
  insert_past_the_end strings_are_immutable : Message
  undefined_global : ℕ → Message
  cannot_scatter attempt_to_call : Kind → Message
  wrong_number_of_arguments expected_at_least : ℕ → ℕ → Message
  functions_with_args : Message
  native_error : Bytes → Message

-- A result, a prepared error, or the end of the program (for want of memory, or where the C code
-- does not say what happens).
pub data Perform {ℓ} (A : Type ℓ) : Type ℓ where
  result : A → Perform A
  failed : Message → Perform A
  stuck : Perform A

infixl 1 ◌>>=◌
abbrev pub ◌>>=◌ {ℓ κ} : {A : Type ℓ} {B : Type κ} → Perform A → (A → Perform B) → Perform B
result a >>= f = f a
failed m >>= f = failed m
stuck >>= f = stuck
