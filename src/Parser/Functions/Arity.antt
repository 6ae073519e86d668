-- ===== src/Parser/Functions/Arity.antt =====
-- parse.c with vm.c: the parameters that fun_param counts, as a call reads them.
use calx.Base.{
  List, ◌++◌, length, ap, ◌∙◌, Bool-cases, inl, inr, sym, ℕ, zero, suc, ◌^◌, ◌<◌, ◌≡◌, refl, Bool,
  true, false, arith, leb, ◌==◌, if◌then◌else◌,
}
use calx.Parser.Functions.{count_param}
use calx.Parser.State.{no_shape}
use calx.Vm.Call.{do_call_coerce}
use calx.Vm.Frames.{accepts, coerce-accepts, coerce_error}
use calx.Vm.State.{State, Shape}
use calx.Vm.Values.{Value, Perform, result}

-- the shape of a function with so many parameters, and perhaps one that gathers the rest
abbrev pub counted : ℕ → Shape
counted zero = no_shape
counted (suc n) = count_param false (counted n)

abbrev pub with_params : ℕ → Bool → Shape
with_params n true = count_param true (counted n)
with_params n false = counted n

counted-nargs : (n : ℕ) → n < 2 ^ 31 → (counted n).nargs_encoded ≡ n
unfolding count_param
counted-nargs zero h = refl
counted-nargs (suc n) h = omega (arith, counted-nargs n (omega arith))

accepts-with_params :
    (n : ℕ) (gather : Bool) (nargs : ℕ)
    → n < 2 ^ 31
    → accepts (with_params n gather).nargs_encoded nargs
      ≡ (if gather then leb n nargs else nargs == n)
unfolding count_param
accepts-with_params n true nargs h = let e = counted-nargs n h in rw e (ground arith)
accepts-with_params n false nargs h = let e = counted-nargs n h in rw e (ground arith)

abbrev pub succeeds : {A : Type 0} → Perform A → Bool
succeeds (result a) = true
succeeds _ = false

coerce-succeeds :
    (state : State) (args rest : List Value) (enc : ℕ)
    → succeeds (do_call_coerce state (args ++ rest) enc (length args)) ≡ accepts enc (length args)
coerce-succeeds state args rest enc = elim (Bool-cases (accepts enc (length args))) [
  | inl e ↦ ap succeeds (coerce-accepts state args rest enc e).0 ∙ sym e
  | inr e ↦ ap succeeds (coerce_error state (args ++ rest) enc (length args) e) ∙ sym e
]

-- A call of a function whose parameters were counted by the parser, fewer than 2 ^ 31 and perhaps a last
-- one that gathers the rest, takes the arguments just if they are as many as the parameters, or at least
-- as many where the last one gathers, and is an error else.
pub do_call_coerce-with_params :
    (state : State) (n : ℕ) (gather : Bool) (args rest : List Value)
    → n < 2 ^ 31
    → succeeds
        (do_call_coerce state (args ++ rest) (with_params n gather).nargs_encoded (length args))
      ≡ (if gather then leb n (length args) else length args == n)
do_call_coerce-with_params state n gather args rest h =
    coerce-succeeds state args rest _ ∙ accepts-with_params n gather (length args) h
