-- ===== src/Vm/Elements.antt =====
-- vm.c: perform_len, get_elem_at, get_elem_ptr_at and check_dict_keys; list.h and dict.c, dict.h: what
-- they call of lists and dicts.
use mathlib.Core.Option
use calx.Base.{
  ℕ, Option, none, some, List, [], ◌∷◌, ◌++◌, get_elem?, get_or, set, length, ltb, ◌==◌,
  if◌then◌else◌,
}
use calx.Number.Convert.Defs.{number_new_from_zu, number_to_zu}
use calx.Number.Deci.{Deci}
use calx.Str.Defs.{String, string_new}
use calx.Vm.Aop.{made}
use calx.Vm.State.{State, Object, list_object, dict_object, found}
use calx.Vm.Values.{
  Value, num, str, nil, list, dict, kind, attempt_to_compute_length, attempt_to_index,
  index_list_with, index_dict_with, index_string_with, dict_with_key, insert_past_the_end,
  strings_are_immutable, Perform, result, failed, stuck, ◌>>=◌,
}
use calx.Xht.Defs.{Xht, xht_size, xht_get, xht_put}

-- the pointer to an element that get_elem_ptr_at returns
pub data Place : Type 0 where
  -- the address of the list or of the dict, and the index of the element or of the item
  list_place dict_place : ℕ → ℕ → Place

unfoldable pub list_at : State → ℕ → Perform (List Value)
list_at state p = elim (get_elem? state.objects p) [ some (list_object vs) ↦ result vs | _ ↦ stuck ]

unfoldable pub dict_at : State → ℕ → Perform (Xht (Option Value))
dict_at state p = elim (get_elem? state.objects p) [ some (dict_object ht) ↦ result ht | _ ↦ stuck ]

unfoldable pub set_object : State → ℕ → Object → State
set_object state p o = record state { objects = set state.objects p o }

unfoldable pub set_value : Xht (Option Value) → ℕ → Value → Xht (Option Value)
set_value ht i v = elim (get_elem? ht.items i) [
  | none ↦ ht
  | some item ↦ record ht { items = set ht.items i (record item { value = some v }) }
]

unfoldable pub item_value : Xht (Option Value) → ℕ → Option Value
item_value ht i = Option.bind (get_elem? ht.items i) (λ item. item.value)

unfoldable pub or_nil : Option Value → Value
or_nil none = nil
or_nil (some v) = v

-- the item of the key; a new item has nil as its value
unfoldable pub dict_get_ptr : Xht (Option Value) → String → Xht (Option Value) × ℕ
unfolding set_value item_value or_nil
dict_get_ptr ht key =
    let (ht', i) = xht_put ht key.bytes key.hash none in
    (set_value ht' i (or_nil (item_value ht' i)), i)

-- keys and values in turn; the keys are strings
unfoldable pub dict_new_steal : Xht (Option Value) → List Value → Xht (Option Value)
unfolding set_value
dict_new_steal ht (str key ∷ v ∷ kv) =
    let (ht', i) = xht_put ht key.bytes key.hash none in dict_new_steal (set_value ht' i v) kv
dict_new_steal ht _ = ht

unfoldable pub check_dict_keys : List Value → Perform (Unit {0})
unfolding kind
check_dict_keys [] = result tt
check_dict_keys (str key ∷ v ∷ kv) = check_dict_keys kv
check_dict_keys (k ∷ v ∷ kv) = failed (dict_with_key (kind k))
check_dict_keys (k ∷ []) = stuck

unfoldable pub read_place : State → Place → Perform Value
unfolding list_at dict_at item_value found
read_place state (list_place p i) = do vs ← list_at state p; found (get_elem? vs i)
read_place state (dict_place p i) = do ht ← dict_at state p; found (item_value ht i)

unfoldable pub write_place : State → Place → Value → Perform State
unfolding list_at dict_at set_object set_value
write_place state (list_place p i) v = do
  vs ← list_at state p
  result (set_object state p (list_object (set vs i v)))
write_place state (dict_place p i) v = do
  ht ← dict_at state p
  result (set_object state p (dict_object (set_value ht i v)))

module _ (d : Deci) where
  unfoldable pub perform_len : State → Value → Perform Value
  unfolding made list_at dict_at kind
  perform_len state (list p) = do vs ← list_at state p; made (number_new_from_zu d (length vs))
  perform_len state (dict p) = do ht ← dict_at state p; made (number_new_from_zu d (xht_size ht))
  perform_len state (str s) = made (number_new_from_zu d (length s.bytes))
  perform_len state v = failed (attempt_to_compute_length (kind v))

  unfoldable pub get_elem_at : State → Value → Value → Perform Value
  unfolding list_at dict_at or_nil kind
  get_elem_at state (list p) (num n) = do
    vs ← list_at state p
    result (get_or vs (number_to_zu d n) nil)
  get_elem_at state (list p) i = failed (index_list_with (kind i))
  get_elem_at state (dict p) (str key) = do
    ht ← dict_at state p
    result (or_nil (xht_get ht key.bytes key.hash none))
  get_elem_at state (dict p) i = failed (index_dict_with (kind i))
  get_elem_at state (str s) (num n) = result (elim (get_elem? s.bytes (number_to_zu d n)) [
    | none ↦ nil
    | some c ↦ str (string_new (c ∷ []))
  ])
  get_elem_at state (str s) i = failed (index_string_with (kind i))
  get_elem_at state c i = failed (attempt_to_index (kind c))

  -- one past the end a list grows by nil
  unfoldable pub list_ptr : State → ℕ → List Value → ℕ → Perform (State × Place)
  unfolding set_object
  list_ptr state p vs idx =
      if idx == length vs
      then result (set_object state p (list_object (vs ++ nil ∷ [])), list_place p idx)
      else if ltb (length vs) idx
      then failed insert_past_the_end
      else result (state, list_place p idx)

  unfoldable pub get_elem_ptr_at : State → Value → Value → Perform (State × Place)
  unfolding list_at dict_at list_ptr dict_get_ptr set_object kind
  get_elem_ptr_at state (list p) (num n) = do
    vs ← list_at state p
    list_ptr state p vs (number_to_zu d n)
  get_elem_ptr_at state (list p) i = failed (index_list_with (kind i))
  get_elem_ptr_at state (dict p) (str key) = do
    ht ← dict_at state p
    let (ht', i) = dict_get_ptr ht key
    result (set_object state p (dict_object ht'), dict_place p i)
  get_elem_ptr_at state (dict p) i = failed (index_dict_with (kind i))
  get_elem_ptr_at state (str s) i = failed strings_are_immutable
  get_elem_ptr_at state c i = failed (attempt_to_index (kind c))
