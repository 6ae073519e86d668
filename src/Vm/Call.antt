-- ===== src/Vm/Call.antt =====
-- vm.c: do_call with do_call_scatter, do_call_gather and do_call_coerce, and OP_RETURN.
use mathlib.Core.List.{reverse}
use calx.Base.{
  ℕ, ◌+◌, ◌-◌, ◌^◌, Bool, true, false, Option, none, some, List, [], ◌∷◌, ◌++◌, get_elem?, length,
  take, drop, replicate, ltb, ◌==◌, not, if◌then◌else◌,
}
use calx.Vm.Elements.{list_at}
use calx.Vm.State.{
  State, RuntimeInfo, CallSite, Shape, list_object, cfunc_object, alloc, func_at, func_shape,
}
use calx.Vm.Values.{
  Value, nil, list, func, cfunc, kind, cannot_scatter, attempt_to_call, wrong_number_of_arguments,
  expected_at_least, Perform, result, failed, stuck, ◌>>=◌,
}

-- the list on top gives way to its elements, and their number is returned
unfoldable pub do_call_scatter : State → List Value → Perform (List Value × ℕ)
unfolding kind
do_call_scatter state [] = stuck
do_call_scatter state (list p ∷ vs) = do xs ← list_at state p; result (reverse xs ++ vs, length xs)
do_call_scatter state (v ∷ vs) = failed (cannot_scatter (kind v))

-- the top n values give way to a list of them
unfoldable pub do_call_gather : State → List Value → ℕ → State × List Value
unfolding alloc
do_call_gather state vs n =
    let (s, p) = alloc state (list_object (reverse (take n vs))) in (s, list p ∷ drop n vs)

-- nargs_encoded is negative as an int32_t where the last argument gathers the rest
unfoldable pub do_call_coerce : State → List Value → ℕ → ℕ → Perform (State × (List Value × ℕ))
unfolding do_call_gather
do_call_coerce state vs nargs_encoded nargs =
    let least = 2 ^ 32 - 1 - nargs_encoded in
    let (s, vs') = do_call_gather state vs (nargs - least) in
    if ltb nargs_encoded (2 ^ 31)
    then (if not (nargs == nargs_encoded)
        then failed (wrong_number_of_arguments nargs_encoded nargs)
        else result (state, (vs, nargs)))
    else if ltb nargs least
    then failed (expected_at_least least nargs)
    else result (s, (vs', least + 1))

-- what a callee starts with: the call site, nil for the locals that are no arguments
unfoldable pub entered : RuntimeInfo → ℕ → ℕ × ℕ → Shape → List Value → ℕ → RuntimeInfo
entered rti p f shape args nargs =
    let vs = replicate (shape.nlocals - nargs) nil ++ args in
    let site : CallSite = record {
      call_ip = some rti.ip;
      callee = p;
      prev_consts = rti.consts;
      prev_locals_offset = rti.locals;
    } in
    record {
      vs = vs;
      cs = site ∷ rti.cs;
      ip = f.1;
      locals = length vs - shape.nlocals;
      consts = f.0;
    }

unfoldable pub enter :
    RuntimeInfo → ℕ → ℕ × ℕ → Shape → State → List Value → ℕ → Perform (State × RuntimeInfo)
unfolding entered
enter rti p f shape state args nargs =
    if ltb shape.nlocals nargs then stuck else result (state, entered rti p f shape args nargs)

unfoldable pub call_func : State → RuntimeInfo → ℕ → ℕ → Perform (State × RuntimeInfo)
unfolding func_shape func_at do_call_coerce enter
call_func state rti p nargs = do
  f ← func_at state p
  shape ← func_shape state p
  coerced ← do_call_coerce state rti.vs shape.nargs_encoded nargs
  enter rti p f shape coerced.0 coerced.1.0 coerced.1.1

-- the values that are on the stack at a call, and how many of them are arguments
unfoldable pub call_args : State → List Value → Bool → ℕ → Perform (List Value × ℕ)
unfolding do_call_scatter
call_args state vs false nargs = result (vs, nargs)
call_args state vs true nargs = do r ← do_call_scatter state vs; result (r.0, nargs + r.1 - 1)

-- A native function gives the state that it leaves, also where it throws.
module _ (natives : ℕ → State → List Value → State × Perform Value) where
  -- the arguments in their order
  unfoldable pub call_native : State → RuntimeInfo → ℕ → ℕ → State × Perform RuntimeInfo
  call_native state rti p nargs = elim (get_elem? state.objects p) [
    | some (cfunc_object k) ↦
        let r = natives k state (reverse (take nargs rti.vs)) in
        (r.0, r.1 >>= (λ v. result (record rti { vs = v ∷ drop (nargs + 1) rti.vs })))
    | _ ↦ (state, stuck)
  ]

  -- an error leaves the state as it was
  unfoldable pub or_same : State → Perform (State × RuntimeInfo) → State × Perform RuntimeInfo
  or_same state (result r) = (r.0, result r.1)
  or_same state (failed m) = (state, failed m)
  or_same state stuck = (state, stuck)

  unfoldable pub call_value : State → RuntimeInfo → Value → ℕ → State × Perform RuntimeInfo
  unfolding call_func call_native or_same kind
  call_value state rti (func p) nargs = or_same state (call_func state rti p nargs)
  call_value state rti (cfunc p) nargs = call_native state rti p nargs
  call_value state rti v nargs = (state, failed (attempt_to_call (kind v)))

  -- the value below the arguments is called
  unfoldable pub call_below : State → RuntimeInfo → List Value × ℕ → State × Perform RuntimeInfo
  unfolding call_value
  call_below state rti args = elim (get_elem? args.0 args.1) [
    | none ↦ (state, stuck)
    | some v ↦ call_value state (record rti { vs = args.0 }) v args.1
  ]

  unfoldable pub do_call : State → RuntimeInfo → Bool → ℕ → State × Perform RuntimeInfo
  unfolding call_args call_below
  do_call state rti scatter nargs = elim (call_args state rti.vs scatter nargs) [
    | result args ↦ call_below state rti args
    | failed m ↦ (state, failed m)
    | stuck ↦ (state, stuck)
  ]

-- OP_RETURN: the frame of the callee gives way to the value; `none` is the return from state_eval
unfoldable pub pop_frame :
    RuntimeInfo
    → CallSite
    → List CallSite
    → Value
    → List Value
    → Shape
    → Perform (RuntimeInfo × Option ℕ)
pop_frame rti site cs v vs shape =
    let rti' : RuntimeInfo = record {
      vs = v ∷ drop (shape.nlocals + 1) vs;
      cs = cs;
      ip = rti.ip;
      locals = site.prev_locals_offset;
      consts = site.prev_consts;
    } in
    if ltb (length vs) (shape.nlocals + 1) then stuck else result (rti', site.call_ip)

unfoldable pub return_from :
    State → RuntimeInfo → List CallSite → List Value → Perform (RuntimeInfo × Option ℕ)
unfolding func_shape pop_frame
return_from state rti [] vs = stuck
return_from state rti (site ∷ cs) [] = stuck
return_from state rti (site ∷ cs) (v ∷ vs) =
    func_shape state site.callee >>= pop_frame rti site cs v vs

unfoldable pub do_return : State → RuntimeInfo → Perform (RuntimeInfo × Option ℕ)
unfolding return_from
do_return state rti = return_from state rti rti.cs rti.vs
