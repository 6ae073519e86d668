-- ===== src/Vm/Step.antt =====
-- vm.c: setup_for_eval and the instructions of state_eval.
use mathlib.Core.List.{reverse}
use calx.Base.{
  ℕ, zero, suc, ◌+◌, ◌-◌, ◌*◌, ◌^◌, Bool, not, Option, none, some, List, [], ◌∷◌, ◌++◌, get_elem?,
  set, length, take, drop, replicate, ltb, ◌==◌, if◌then◌else◌,
}
use calx.Number.Deci.{Deci}
use calx.Number.Defs.{Number}
use calx.Number.Fancy.Spans.{SpanOps}
use calx.Vm.Aop.{perform_aop, perform_cmp_3way, perform_neg}
use calx.Vm.Call.{do_call, do_return}
use calx.Vm.Elements.{
  perform_len, get_elem_at, get_elem_ptr_at, check_dict_keys, dict_new_steal, read_place,
  write_place,
}
use calx.Vm.State.{
  Opcode, op_load_const, op_load_local, op_load_at, op_load_global, op_store_local, op_store_at,
  op_store_global, op_modify_local, op_modify_at, op_modify_global, op_print, op_return, op_jump,
  op_jump_unless, op_call, op_function, op_neg, op_not, op_aop, op_cmp_2way, op_cmp_3way, op_list,
  op_dict, op_len, State, RuntimeInfo, CallSite, Shape, list_object, dict_object, func_object,
  alloc, found, func_at, func_shape, current, fetch, global_value, local_place,
}
use calx.Vm.Values.{
  Value, flag, nil, list, dict, func, values_equal, same_flag, value_is_truthy, functions_with_args,
  Message, Perform, result, failed, stuck, ◌>>=◌,
}
use calx.Xht.Defs.{xht_new}

-- What a step leads to. An error comes with the state and the stacks at that moment, which
-- the stack trace reads.
pub data Outcome : Type 0 where
  running : State → RuntimeInfo → Outcome
  finished : State → Value → Outcome
  thrown : Message → State → RuntimeInfo → Outcome
  undefined : Outcome

-- a prepared error is thrown with what is left of the value stack
unfoldable pub or_throw {ℓ} :
    {A : Type ℓ} → State → RuntimeInfo → Perform A → (A → Outcome) → Outcome
or_throw state rti (result a) f = f a
or_throw state rti (failed m) f = thrown m state rti
or_throw state rti stuck f = undefined

-- ip += (int32_t) c
unfoldable pub jump : ℕ → ℕ → ℕ
jump ip c = if ltb c (2 ^ 31) then ip + c else ip - (2 ^ 32 - c)

-- the next instruction, with this value stack
unfoldable pub next : State → RuntimeInfo → List Value → Outcome
next state rti vs = running state (record rti { vs = vs; ip = rti.ip + 1 })

unfoldable pub popped : RuntimeInfo → List Value → RuntimeInfo
popped rti vs = record rti { vs = vs }

unfoldable pub after_return : State → RuntimeInfo → Option ℕ → Outcome
after_return state rti (some call_ip) = running state (record rti { ip = call_ip + 1 })
after_return state rti none = elim rti.vs [ v ∷ [] ↦ finished state v | _ ↦ undefined ]

-- The function stands at the bottom of the value stack, with its locals above it. The site has no
-- instruction, constants and locals to go back to.
unfoldable pub initial : ℕ → ℕ × ℕ → Shape → RuntimeInfo
initial callee f shape =
    let site : CallSite = record {
      call_ip = none;
      callee = callee;
      prev_consts = 0;
      prev_locals_offset = 0;
    } in
    record {
      vs = replicate shape.nlocals nil ++ func callee ∷ [];
      cs = site ∷ [];
      ip = f.1 + 1;
      locals = 1;
      consts = f.0;
    }

unfoldable pub setup_for_eval : State → ℕ → Perform RuntimeInfo
unfolding func_shape func_at initial
setup_for_eval state callee = do
  f ← func_at state callee
  shape ← func_shape state callee
  (if shape.nargs_encoded == 0 then result (initial callee f shape) else failed functions_with_args)

module _ (d : Deci) (x : SpanOps) (same : Number → Number → Bool)
    (natives : ℕ → State → List Value → State × Perform Value) where
  -- one instruction, by its opcode
  unfoldable pub execute : State → RuntimeInfo → ℕ → ℕ → Opcode → List Value → Outcome
  unfolding or_throw next popped jump after_return
  execute state rti a c op_load_const vs =
      or_throw state rti (found (get_elem? state.chunks rti.consts)) (λ chunk.
        or_throw state rti (found (get_elem? chunk.consts c)) (λ v. next state rti (v ∷ vs)))
  execute state rti a c op_load_local vs =
      or_throw state rti (local_place rti c)
        (λ i. or_throw state rti (found (get_elem? vs i)) (λ v. next state rti (v ∷ vs)))
  execute state rti a c op_load_global vs =
      or_throw state rti (global_value state c) (λ v. next state rti (v ∷ vs))
  execute state rti a c op_load_at (i ∷ e ∷ vs) =
      or_throw state (popped rti vs) (get_elem_at d state e i) (λ v. next state rti (v ∷ vs))
  execute state rti a c (op_aop aop) (v ∷ w ∷ vs) =
      or_throw state (popped rti vs) (perform_aop d x same state.ntp aop w v)
        (λ r. next state rti (r ∷ vs))
  execute state rti a c op_cmp_2way (v ∷ w ∷ vs) =
      next state rti (flag (same_flag (values_equal d w v) (not (a == 0))) ∷ vs)
  execute state rti a c op_cmp_3way (v ∷ w ∷ vs) =
      or_throw state (popped rti vs) (perform_cmp_3way d w v a) (λ r. next state rti (r ∷ vs))
  execute state rti a c op_jump vs = running state (record rti { ip = jump rti.ip c })
  execute state rti a c op_jump_unless (v ∷ vs) =
      running state
        (record rti { vs = vs; ip = if value_is_truthy v then rti.ip + 1 else jump rti.ip c })
  execute state rti a c op_return vs =
      or_throw state rti (do_return state rti) (λ r. after_return state r.0 r.1)
  execute state rti a c op_call vs =
      let r = do_call natives state rti (not (a == 0)) c in
      or_throw r.0 rti r.1 (λ rti'. next r.0 rti' rti'.vs)
  execute state rti a c op_not (v ∷ vs) = next state rti (flag (not (value_is_truthy v)) ∷ vs)
  execute state rti a c op_len (v ∷ vs) =
      or_throw state (popped rti vs) (perform_len d state v) (λ r. next state rti (r ∷ vs))
  execute state rti a c op_store_local (v ∷ vs) =
      or_throw state rti (local_place (popped rti vs) c) (λ i. next state rti (set vs i v))
  execute state rti a c op_store_global (v ∷ vs) =
      next (record state { globals = set state.globals c (some v) }) rti vs
  execute state rti a c op_store_at (v ∷ i ∷ e ∷ vs) =
      or_throw state (popped rti vs) (get_elem_ptr_at d state e i)
        (λ p. or_throw p.0 (popped rti vs) (write_place p.0 p.1 v) (λ s. next s rti vs))
  execute state rti a c (op_modify_local aop) (v ∷ vs) =
      or_throw state rti (local_place (popped rti vs) c) (λ i.
        or_throw state rti (found (get_elem? vs i)) (λ w.
          or_throw state (popped rti vs) (perform_aop d x same state.ntp aop w v)
            (λ r. next state rti (set vs i r))))
  execute state rti a c (op_modify_global aop) (v ∷ vs) =
      or_throw state rti (global_value state c) (λ w.
        or_throw state (popped rti vs) (perform_aop d x same state.ntp aop w v)
          (λ r. next (record state { globals = set state.globals c (some r) }) rti vs))
  execute state rti a c (op_modify_at aop) (v ∷ i ∷ e ∷ vs) =
      or_throw state (popped rti vs) (get_elem_ptr_at d state e i) (λ p.
        or_throw p.0 (popped rti vs) (read_place p.0 p.1) (λ w.
          or_throw p.0 (popped rti vs) (perform_aop d x same state.ntp aop w v)
            (λ r. or_throw p.0 (popped rti vs) (write_place p.0 p.1 r) (λ s. next s rti vs))))
  execute state rti a c op_print (v ∷ vs) =
      next (record state { printed = v ∷ state.printed }) rti vs
  execute state rti a c op_function vs = or_throw state rti (current rti >>= func_at state) (λ f.
      or_throw state rti (found (get_elem? state.chunks f.0)) (λ chunk.
        or_throw state rti (found (get_elem? chunk.shapes c)) (λ shape.
          let (s, p) = alloc state (func_object f.0 rti.ip) in
          running s (record rti { vs = func p ∷ vs; ip = rti.ip + shape.offset }))))
  execute state rti a c op_neg (v ∷ vs) =
      or_throw state (popped rti vs) (perform_neg d v) (λ r. next state rti (r ∷ vs))
  execute state rti a c op_dict vs =
      if ltb (length vs) (c * 2)
      then undefined
      else or_throw state rti (check_dict_keys (reverse (take (c * 2) vs))) (λ t.
        let (s, p) =
          alloc state (dict_object (dict_new_steal (xht_new 0) (reverse (take (c * 2) vs)))) in
        next s rti (dict p ∷ drop (c * 2) vs))
  execute state rti a c op_list vs =
      let (s, p) = alloc state (list_object (reverse (take c vs))) in
      if ltb (length vs) c then undefined else next s rti (list p ∷ drop c vs)
  execute state rti a c _ vs = undefined

  unfoldable pub step : State → RuntimeInfo → Outcome
  unfolding execute
  step state rti =
      or_throw state rti (fetch state rti)
        (λ instr. execute state rti instr.a instr.c instr.opcode rti.vs)

  -- the steps of state_eval, a given number of them at most
  unfoldable pub run : ℕ → State → RuntimeInfo → Outcome
  unfolding step
  run zero state rti = running state rti
  run (suc n) state rti = elim (step state rti) [ running s r ↦ run n s r | o ↦ o ]
