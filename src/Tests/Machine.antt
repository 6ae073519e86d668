-- ===== src/Tests/Machine.antt =====
-- The machine at concrete inputs: a function of two arguments and one that gathers, in one chunk.
use calx.Base.{◌-◌, ◌*◌, ◌/◌, ◌%◌, ◌^◌, ◌≡◌, refl, true, false, some, List, [], ◌∷◌, ◌++◌, arith}
use calx.Number.Add.Defs.{xor}
use calx.Number.Deci.{base}
use calx.Number.Defs.{int_part}
use calx.Number.Div.Truncate.{Truncated}
use calx.Number.Round.Parts.{IsWhole}
use calx.Number.Words.{eval}
use calx.Tests.Decimal.{decimal, decimal_laws}
use calx.Tests.Quotients.{
  twelve_half, minus_three, twelve_half-IsValid, minus_three-IsValid, two_words,
}
use calx.Tests.Spans.{decimal_spans, decimal_span_laws}
use calx.Vm.Aop.{perform_aop}
use calx.Vm.Arithmetic.{Divides, perform_aop-Truncated, perform_aop-IsWhole}
use calx.Vm.Call.{call_func, do_return, entered}
use calx.Vm.Frames.{Entered, gathered, arguments, call_func-Entered, do_return-Entered}
use calx.Vm.State.{
  State, RuntimeInfo, Chunk, Shape, op_function, op_return, func_object, func_at, func_shape,
}
use calx.Vm.Values.{Value, num, nil, flag, func, aop_div, aop_idiv, aop_mod, result}
use calx.Xht.Defs.{xht_new}

abbrev two_args : Shape
two_args = record { nargs_encoded = 2; nlocals = 3; offset = 2; maxstack = 4 }

-- one argument at least
abbrev gather_args : Shape
gather_args = record { nargs_encoded = 2 ^ 32 - 2; nlocals = 2; offset = 2; maxstack = 4 }

abbrev some_chunk : Chunk
some_chunk = record {
  code =
      (record { opcode = op_function; a = 0; c = 0 })
      ∷ (record { opcode = op_return; a = 0; c = 0 })
      ∷ (record { opcode = op_function; a = 0; c = 1 })
      ∷ (record { opcode = op_return; a = 0; c = 0 })
      ∷ [];
  consts = [];
  quarks = [];
  shapes = two_args ∷ gather_args ∷ [];
}

abbrev pub some_state : State
some_state = record {
  objects = func_object 0 0 ∷ func_object 0 2 ∷ [];
  chunks = some_chunk ∷ [];
  globals_table = xht_new 0;
  globals = [];
  ntp = two_words;
  printed = [];
}

-- the gathering function, called with three arguments
abbrev some_args : List Value
some_args = flag true ∷ num twelve_half ∷ nil ∷ []

abbrev some_rti : RuntimeInfo
some_rti = record { vs = some_args ++ func 1 ∷ nil ∷ []; cs = []; ip = 7; locals = 1; consts = 0 }

call_func-Entered_example :
    (rti' : RuntimeInfo) × (call_func some_state some_rti 1 3
      ≡ result (gathered some_state (2 ^ 32 - 2) some_args, rti'))
    × Entered some_rti 1
        (0, 2)
        gather_args
        (arguments some_state (2 ^ 32 - 2) some_args)
        (nil ∷ [])
        rti'
unfolding func_at func_shape
call_func-Entered_example =
    call_func-Entered some_state some_rti 1 (0, 2) gather_args some_args (nil ∷ []) refl refl refl
      refl (omega arith)

-- the two arguments, and a local that the callee has set by the return
abbrev pair : List Value
pair = flag true ∷ nil ∷ []

abbrev caller : RuntimeInfo
caller = record { vs = pair ++ func 0 ∷ nil ∷ []; cs = []; ip = 7; locals = 1; consts = 0 }

abbrev callee_start : RuntimeInfo
callee_start = entered caller 0 (0, 0) two_args (pair ++ func 0 ∷ nil ∷ []) 2

callee_start-Entered : Entered caller 0 (0, 0) two_args pair (nil ∷ []) callee_start
unfolding entered
callee_start-Entered = record {
  frame = nil ∷ pair;
  size = refl;
  nils = 1;
  holds = refl;
  vs = refl;
  locals = refl;
  ip = refl;
  consts = refl;
  cs = refl;
}

abbrev callee_end : RuntimeInfo
unfolding entered
callee_end = record callee_start {
  vs = flag false ∷ num twelve_half ∷ flag true ∷ nil ∷ func 0 ∷ nil ∷ [];
  ip = 1;
}

do_return-Entered_example :
    do_return some_state callee_end
    ≡ result
        (record { vs = flag false ∷ nil ∷ []; cs = []; ip = 1; locals = 1; consts = 0 }, some 7)
unfolding func_shape entered
do_return-Entered_example =
    do_return-Entered some_state caller callee_start callee_end 0 (0, 0) two_args pair
      (num twelve_half ∷ flag true ∷ nil ∷ []) (nil ∷ []) (flag false) callee_start-Entered refl
      refl refl refl

perform_aop-Truncated_example :
    Divides
      (Truncated decimal two_words
        (eval (base decimal) twelve_half.words
          * base decimal ^ 3
          / (eval (base decimal) minus_three.words * base decimal ^ 1))
        (xor false true))
      (eval (base decimal) minus_three.words)
      (perform_aop decimal decimal_spans
        (λ a b. false)
        two_words
        aop_div
        (num twelve_half)
        (num minus_three))
unfolding decimal
perform_aop-Truncated_example =
    perform_aop-Truncated decimal decimal_laws decimal_spans decimal_span_laws (λ a b. false)
      two_words (num twelve_half) (num minus_three) 10 twelve_half-IsValid minus_three-IsValid
      (omega arith)

perform_aop-IsWhole_example :
    Divides
      (IsWhole decimal
        (eval (base decimal) (int_part twelve_half) / eval (base decimal) (int_part minus_three))
        (xor false true))
      (eval (base decimal) (int_part minus_three))
      (perform_aop decimal decimal_spans
        (λ a b. false)
        two_words
        aop_idiv
        (num twelve_half)
        (num minus_three))
    × Divides
        (IsWhole decimal
          (eval (base decimal) (int_part twelve_half) % eval (base decimal) (int_part minus_three))
          false)
        (eval (base decimal) (int_part minus_three))
        (perform_aop decimal decimal_spans
          (λ a b. false)
          two_words
          aop_mod
          (num twelve_half)
          (num minus_three))
perform_aop-IsWhole_example =
    perform_aop-IsWhole decimal decimal_laws decimal_spans decimal_span_laws (λ a b. false)
      two_words (num twelve_half) (num minus_three) twelve_half-IsValid minus_three-IsValid
