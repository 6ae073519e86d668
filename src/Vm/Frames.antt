-- ===== src/Vm/Frames.antt =====
-- vm.c: the frame that a call of a bytecode function makes, its arity, and the return from it.
use calx.Base.{
  ℕ, zero, suc, ◌+◌, ◌-◌, ◌^◌, ◌≤◌, ◌≡◌, refl, sym, ap, ◌∙◌, inl, inr, Bool, true, false, not, some,
  List, [], ◌∷◌, ◌++◌, arith, length, take, drop, replicate, ltb, leb, ◌==◌, if◌then◌else◌,
  Bool-cases, length-append, length-replicate, length-drop, drop-append_left, take-append_left,
}
use mathlib.Core.Path.{ap₂}
use mathlib.Core.List.{append_assoc, reverse}
use calx.Vm.Call.{
  do_call_gather, do_call_coerce, entered, enter, call_func, do_return, return_from, pop_frame,
}
use calx.Vm.State.{State, RuntimeInfo, CallSite, Shape, func_at, func_shape, list_object}
use calx.Vm.Values.{
  Value, nil, list, func, Message, wrong_number_of_arguments, expected_at_least, Perform, result,
  failed, ◌>>=◌,
}

-- How many arguments a function takes: so many, or so many at least and a list of the rest.
abbrev pub gathers : ℕ → Bool
gathers nargs_encoded = not (ltb nargs_encoded (2 ^ 31))

abbrev pub least_args : ℕ → ℕ
least_args nargs_encoded =
    if gathers nargs_encoded then 2 ^ 32 - 1 - nargs_encoded else nargs_encoded

abbrev pub accepts : ℕ → ℕ → Bool
accepts nargs_encoded nargs =
    if gathers nargs_encoded
    then leb (least_args nargs_encoded) nargs
    else nargs == least_args nargs_encoded

-- the locals that the arguments take up
abbrev pub arg_locals : ℕ → ℕ
arg_locals nargs_encoded =
    if gathers nargs_encoded then least_args nargs_encoded + 1 else least_args nargs_encoded

abbrev pub arity_error : ℕ → ℕ → Message
arity_error nargs_encoded nargs =
    if gathers nargs_encoded
    then expected_at_least (least_args nargs_encoded) nargs
    else wrong_number_of_arguments (least_args nargs_encoded) nargs

-- the arguments that the callee has, and the state with the list of those that were gathered
abbrev pub arguments : State → ℕ → List Value → List Value
arguments state nargs_encoded args =
    if gathers nargs_encoded
    then list (length state.objects) ∷ drop (length args - least_args nargs_encoded) args
    else args

abbrev pub gathered : State → ℕ → List Value → State
gathered state nargs_encoded args =
    let rest = list_object (reverse (take (length args - least_args nargs_encoded) args)) in
    if gathers nargs_encoded then record state { objects = state.objects ++ rest ∷ [] } else state

pub coerce-accepts :
    (state : State) (args rest : List Value) (enc : ℕ)
    → accepts enc (length args) ≡ true
    → (do_call_coerce state (args ++ rest) enc (length args)
        ≡ result (gathered state enc args, (arguments state enc args ++ rest, arg_locals enc)))
      × (length (arguments state enc args) ≡ arg_locals enc)
unfolding do_call_coerce do_call_gather
coerce-accepts state args rest enc ok = elim (Bool-cases (ltb enc (2 ^ 31))) [
  | inl e ↦
      let size : length args ≡ enc = ground arith in
      let same : (length args == enc) ≡ true = ground arith in
      (rw (e, same) (ap (λ (t : ℕ). result (state, (args ++ rest, t))) size), rw e size)
  | inr e ↦
      let least = 2 ^ 32 - 1 - enc in
      let enough : ltb (length args) least ≡ false = ground arith in
      let fits : least ≤ length args = ground arith in
      let kept = drop-append_left (length args - least) args rest (omega arith) in
      let more = take-append_left (length args - least) args rest (omega arith) in
      (
        rw (e, enough)
            (ap₂
              (λ (g t : List Value). result (
                record state { objects = state.objects ++ list_object (reverse g) ∷ [] },
                (list (length state.objects) ∷ t, least + 1),
              ))
              more kept),
        rw e (omega (arith, length-drop (length args - least) args, fits)),
      )
]

pub coerce_error :
    (state : State) (args : List Value) (enc nargs : ℕ)
    → accepts enc nargs ≡ false
    → do_call_coerce state args enc nargs ≡ failed (arity_error enc nargs)
unfolding do_call_coerce do_call_gather
coerce_error state args enc nargs refused = elim (Bool-cases (ltb enc (2 ^ 31))) [
  | inl e ↦ let other : (nargs == enc) ≡ false = ground arith in rw (e, other) refl
  | inr e ↦ let few : ltb nargs (2 ^ 32 - 1 - enc) ≡ true = ground arith in rw (e, few) refl
]

drop-past :
    (n : ℕ) (xs : List Value) (v : Value) (below : List Value)
    → n ≡ length xs
    → drop (n + 1) (xs ++ v ∷ below) ≡ below
drop-past zero [] v below h = refl
drop-past zero (x ∷ xs) v below h = absurd (omega arith)
drop-past (suc n) [] v below h = absurd (omega arith)
drop-past (suc n) (x ∷ xs) v below h =
    let e : suc n + 1 ≡ suc (n + 1) = omega arith in rw e (drop-past n xs v below (omega arith))

-- what the return needs
abbrev pub site : RuntimeInfo → ℕ → CallSite
site rti p = record {
  call_ip = some rti.ip;
  callee = p;
  prev_consts = rti.consts;
  prev_locals_offset = rti.locals;
}

-- The frame of a call: the function and its locals on the value stack of the caller, and a call site
-- with what the return needs.
pub record Entered (rti : RuntimeInfo) (p : ℕ) (f : ℕ × ℕ) (shape : Shape) (args below : List Value)
    (rti' : RuntimeInfo) : Type 0 where
  pub frame : List Value
  pub size : length frame ≡ shape.nlocals
  pub nils : ℕ
  pub holds : frame ≡ replicate nils nil ++ args
  pub vs : rti'.vs ≡ frame ++ func p ∷ below
  pub locals : rti'.locals ≡ suc (length below)
  pub ip : rti'.ip ≡ f.1
  pub consts : rti'.consts ≡ f.0
  pub cs : rti'.cs ≡ site rti p ∷ rti.cs

enter-Entered :
    (rti : RuntimeInfo) (p : ℕ) (f : ℕ × ℕ) (shape : Shape) (state : State)
    (args below : List Value) (n : ℕ)
    → length args ≡ n
    → n ≤ shape.nlocals
    → (rti' : RuntimeInfo) × (enter rti p f shape state (args ++ func p ∷ below) n
        ≡ result (state, rti'))
      × Entered rti p f shape args below rti'
unfolding enter entered
enter-Entered rti p f shape state args below n size le =
    let locals : List Value = replicate (shape.nlocals - n) nil in
    let count = length-replicate {A = Value} (shape.nlocals - n) nil in
    let fits : ltb shape.nlocals n ≡ false = ground arith in
    let frame_size : length (locals ++ args) ≡ shape.nlocals =
      length-append locals args ∙ omega (arith, count, size, le) in
    let all : length (locals ++ (args ++ func p ∷ below)) ≡ shape.nlocals + suc (length below) =
      length-append locals (args ++ func p ∷ below)
      ∙ omega (arith, count, length-append args (func p ∷ below), size, le) in
    (
      entered rti p f shape (args ++ func p ∷ below) n,
      rw fits refl,
      record {
        frame = locals ++ args;
        size = frame_size;
        nils = shape.nlocals - n;
        holds = refl;
        vs = sym (append_assoc locals args (func p ∷ below));
        locals = omega (arith, all);
        ip = refl;
        consts = refl;
        cs = refl;
      },
    )

call_func_step :
    (state : State) (rti : RuntimeInfo) (p : ℕ) (f : ℕ × ℕ) (shape : Shape) (nargs : ℕ)
    → func_at state p ≡ result f
    → func_shape state p ≡ result shape
    → call_func state rti p nargs ≡ (
        do_call_coerce state rti.vs shape.nargs_encoded nargs
        >>= (λ c. enter rti p f shape c.0 c.1.0 c.1.1))
unfolding call_func
call_func_step state rti p f shape nargs at shaped =
    ap₂
      (λ (a : Perform (ℕ × ℕ)) (b : Perform Shape). a >>= (λ f'. b >>= (λ shape'.
        do_call_coerce state rti.vs shape'.nargs_encoded nargs
        >>= (λ c. enter rti p f' shape' c.0 c.1.0 c.1.1))))
      at shaped

-- A call with a number of arguments that the function takes makes a frame of the function and its
-- locals on the stack of the caller: the arguments, the rest of them as a list where it gathers them,
-- and nil above. The arguments have room in the locals.
pub call_func-Entered :
    (state : State) (rti : RuntimeInfo) (p : ℕ) (f : ℕ × ℕ) (shape : Shape)
    (args below : List Value)
    → func_at state p ≡ result f
    → func_shape state p ≡ result shape
    → rti.vs ≡ args ++ func p ∷ below
    → accepts shape.nargs_encoded (length args) ≡ true
    → arg_locals shape.nargs_encoded ≤ shape.nlocals
    → (rti' : RuntimeInfo) × (call_func state rti p (length args)
        ≡ result (gathered state shape.nargs_encoded args, rti'))
      × Entered rti p f shape (arguments state shape.nargs_encoded args) below rti'
unfolding call_func
call_func-Entered state rti p f shape args below at shaped vs ok room =
    let (coerced, size) = coerce-accepts state args (func p ∷ below) shape.nargs_encoded ok in
    let (rti', entered, frame) =
      enter-Entered rti p f shape (gathered state shape.nargs_encoded args)
        (arguments state shape.nargs_encoded args) below (arg_locals shape.nargs_encoded) size
        room in
    (
      rti',
      call_func_step state rti p f shape (length args) at shaped
          ∙ ap
              (λ (t : List Value).
                do_call_coerce state t shape.nargs_encoded (length args)
                >>= (λ c. enter rti p f shape c.0 c.1.0 c.1.1))
              vs
          ∙ rw coerced entered,
      frame,
    )

-- The return from a frame, whatever its locals hold by then, puts the value in the place of the
-- function and its arguments, and gives the caller back its locals, its constants and its call site;
-- the caller goes on behind the instruction of the call.
pub do_return-Entered :
    (state : State) (rti rti1 rti2 : RuntimeInfo) (p : ℕ) (f : ℕ × ℕ) (shape : Shape)
    (args frame below : List Value) (v : Value)
    → Entered rti p f shape args below rti1
    → func_shape state p ≡ result shape
    → length frame ≡ shape.nlocals
    → rti2.cs ≡ rti1.cs
    → rti2.vs ≡ v ∷ (frame ++ func p ∷ below)
    → do_return state rti2
      ≡ result (
        record {
          vs = v ∷ below;
          cs = rti.cs;
          ip = rti2.ip;
          locals = rti.locals;
          consts = rti.consts;
        },
        some rti.ip,
      )
unfolding do_return
do_return-Entered state rti rti1 rti2 p f shape args frame below v h shaped size cs vs =
    let over : length (frame ++ func p ∷ below) ≡ shape.nlocals + suc (length below) =
      length-append frame (func p ∷ below) ∙ omega (arith, size) in
    let room : ltb (length (frame ++ func p ∷ below)) (shape.nlocals + 1) ≡ false =
      ground (arith, over) in
    let rest : drop (shape.nlocals + 1) (frame ++ func p ∷ below) ≡ below =
      drop-past (shape.nlocals) frame (func p) below (sym size) in
    ap₂ (return_from state rti2) (cs ∙ h.cs) vs
    ∙ ap
        (λ (t : Perform Shape).
          t >>= pop_frame rti2 (site rti p) rti.cs v (frame ++ func p ∷ below))
        shaped
    ∙ unfold pop_frame in rw (room, rest) refl
