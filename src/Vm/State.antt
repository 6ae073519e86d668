-- ===== src/Vm/State.antt =====
-- vm.c, vm.h: the state of the machine. The value stack is a list with the top first; the C pointers
-- into it are offsets from its bottom. An instruction pointer is an index into the code of the chunk
-- of the function that runs.
use calx.Base.{
  ℕ, suc, ◌+◌, ◌-◌, Option, none, some, List, [], ◌∷◌, ◌++◌, Bytes, get_elem?, set, length, ltb,
  ◌==◌, if◌then◌else◌,
}
use calx.Ntp.{NumberTruncateParams}
use calx.Str.Defs.{hash_str}
use calx.Vm.Values.{Value, AritOp, undefined_global, Perform, result, failed, stuck, ◌>>=◌}
use calx.Xht.Defs.{Xht, xht_put, value_or}

pub data Opcode : Type 0 where
  op_load_const op_load_local op_load_at op_load_global : Opcode
  op_store_local op_store_at op_store_global : Opcode
  op_modify_local op_modify_at op_modify_global : AritOp → Opcode
  op_print op_return op_jump op_jump_unless op_call op_function : Opcode
  op_neg op_not : Opcode
  op_aop : AritOp → Opcode
  op_cmp_2way op_cmp_3way op_list op_dict op_len : Opcode
  op_load_symbolic op_store_symbolic : Opcode
  op_modify_symbolic : AritOp → Opcode

-- Where the field a is the code of an arithmetic operation, it stands in the opcode; b is always 0.
pub record Instr : Type 0 where
  pub opcode : Opcode
  pub a : ℕ
  pub c : ℕ

pub record Quark : Type 0 where
  pub instr : ℕ
  pub line : ℕ

pub record Shape : Type 0 where
  pub nargs_encoded : ℕ
  pub nlocals : ℕ
  pub offset : ℕ
  pub maxstack : ℕ

pub record Chunk : Type 0 where
  pub code : List Instr
  pub consts : List Value
  pub quarks : List Quark
  pub shapes : List Shape

pub data Object : Type 0 where
  list_object : List Value → Object
  dict_object : Xht (Option Value) → Object
  -- the chunk and the instruction pointer
  func_object : ℕ → ℕ → Object
  -- the native function
  cfunc_object : ℕ → Object
  wref_object : Object

pub record CallSite : Type 0 where
  -- `none` is the null pointer
  pub call_ip : Option ℕ
  pub callee : ℕ
  pub prev_consts : ℕ
  pub prev_locals_offset : ℕ

-- `consts` is the index of the chunk that the constants belong to.
pub record RuntimeInfo : Type 0 where
  pub vs : List Value
  pub cs : List CallSite
  pub ip : ℕ
  pub locals : ℕ
  pub consts : ℕ

-- Objects and chunks by address; `printed` has the values that were printed, the last one first.
pub record State : Type 0 where
  pub objects : List Object
  pub chunks : List Chunk
  pub globals_table : Xht ℕ
  pub globals : List (Option Value)
  pub ntp : NumberTruncateParams
  pub printed : List Value

-- what a place out of range gives
unfoldable pub found {ℓ} : {A : Type ℓ} → Option A → Perform A
found none = stuck
found (some a) = result a

-- a new object, and its address
unfoldable pub alloc : State → Object → State × ℕ
alloc state o = (record state { objects = state.objects ++ o ∷ [] }, length state.objects)

unfoldable pub state_intern_global : State → Bytes → State × ℕ
state_intern_global state name =
    let old_size = length state.globals in
    let (table, i) = xht_put state.globals_table name (hash_str name) old_size in
    let idx = value_or (get_elem? table.items i) old_size in
    let s = record state { globals_table = table } in
    if idx == old_size then (record s { globals = state.globals ++ none ∷ [] }, idx) else (s, idx)

unfoldable pub state_steal_global : State → Bytes → Value → State
unfolding state_intern_global
state_steal_global state name value =
    let (s, idx) = state_intern_global state name in
    record s { globals = set s.globals idx (some value) }

-- the value of a global, or the error that it is missing
unfoldable pub global_value : State → ℕ → Perform Value
global_value state idx = elim (get_elem? state.globals idx) [
  | none ↦ stuck
  | some none ↦ failed (undefined_global idx)
  | some (some v) ↦ result v
]

-- the place of a local variable in the value stack, counted from the top
unfoldable pub local_place : RuntimeInfo → ℕ → Perform ℕ
local_place rti i =
    let n = rti.locals + i in
    if ltb n (length rti.vs) then result (length rti.vs - suc n) else stuck

-- the chunk and the instruction pointer of a function
unfoldable pub func_at : State → ℕ → Perform (ℕ × ℕ)
func_at state p = elim (get_elem? state.objects p) [
  | some (func_object chunk ip) ↦ result (chunk, ip)
  | _ ↦ stuck
]

unfoldable pub func_shape : State → ℕ → Perform Shape
unfolding found func_at
func_shape state p = do
  f ← func_at state p
  chunk ← found (get_elem? state.chunks f.0)
  instr ← found (get_elem? chunk.code f.1)
  found (get_elem? chunk.shapes instr.c)

-- the function that runs: the callee of the last call
unfoldable pub current : RuntimeInfo → Perform ℕ
current rti = elim rti.cs [ [] ↦ stuck | site ∷ cs ↦ result site.callee ]

-- the instruction that is next
unfoldable pub fetch : State → RuntimeInfo → Perform Instr
unfolding found func_at current
fetch state rti = do
  p ← current rti
  f ← func_at state p
  chunk ← found (get_elem? state.chunks f.0)
  found (get_elem? chunk.code rti.ip)
