-- ===== src/Xht/Defs.antt =====
-- xht.c, xht.h. Walks along a chain are on fuel, as many steps as there are items and one more:
-- a chain without a cycle is no longer.
use Prim.Native.Nat.{bit_and}
use mathlib.Core.Option
use calx.Base.{
  ℕ, zero, suc, ◌+◌, ◌-◌, ◌*◌, ◌^◌, Option, none, some, List, [], ◌∷◌, ◌++◌, Bytes, bytes_eq,
  get_elem?, get_or, set, length, take, drop, replicate, ltb, ◌==◌, if◌then◌else◌,
}

-- the index that ends a chain, (uint32_t) -1
abbrev pub no_index : ℕ
no_index = 2 ^ 32 - 1

pub record Item {ℓ} (A : Type ℓ) : Type ℓ where
  pub key : Bytes
  pub value : A
  pub next : ℕ
  pub hash : ℕ

-- items_size is the length of `items`, nbuckets that of `buckets`
pub record Xht {ℓ} (A : Type ℓ) : Type ℓ where
  pub items : List (Item A)
  pub buckets : List ℕ

-- the first bucket that is not empty
unfoldable pub first_full : List ℕ → ℕ
first_full [] = no_index
first_full (i ∷ buckets) = let later = first_full buckets in if i == no_index then later else i

module _ {ℓ} {A : Type ℓ} where
  unfoldable pub xht_new : ℕ → Xht A
  xht_new rank = record { items = []; buckets = replicate (2 ^ rank) no_index }

  unfoldable pub xht_size : Xht A → ℕ
  xht_size ht = length ht.items

  -- the bucket of a hash: nbuckets is a power of two
  unfoldable pub bucket_of : Xht A → ℕ → ℕ
  bucket_of ht hash = bit_and hash (length ht.buckets - 1)

  unfoldable pub first_of : Xht A → ℕ → ℕ
  first_of ht bucket = get_or ht.buckets bucket no_index

  -- The walk of xht_get: the index of the item with the key. An index out of range is not reached.
  unfoldable pub find_index : ℕ → List (Item A) → Bytes → ℕ → Option ℕ
  find_index zero items key i = none
  find_index (suc fuel) items key i = elim (get_elem? items i) [
    | none ↦ none
    | some item ↦
        let more = find_index fuel items key item.next in
        if bytes_eq key item.key then some i else more
  ]

  unfoldable pub lookup : Xht A → Bytes → ℕ → Option ℕ
  lookup ht key hash =
      find_index (suc (length ht.items)) ht.items key (first_of ht (bucket_of ht hash))

  unfoldable pub value_or : Option (Item A) → A → A
  value_or none if_absent = if_absent
  value_or (some item) if_absent = item.value

  unfoldable pub xht_get : Xht A → Bytes → ℕ → A → A
  unfolding lookup value_or
  xht_get ht key hash if_absent = elim (lookup ht key hash) [
    | none ↦ if_absent
    | some i ↦ value_or (get_elem? ht.items i) if_absent
  ]

  -- The loop of grow_buckets over the items from index i on, which get new links.
  unfoldable pub rehash : List (Item A) → ℕ → List ℕ → List (Item A) × List ℕ
  rehash [] i buckets = ([], buckets)
  rehash (item ∷ items) i buckets =
      let bucket = bit_and item.hash (length buckets - 1) in
      let rest = rehash items (suc i) (set buckets bucket i) in
      ((record item { next = get_or buckets bucket no_index }) ∷ rest.0, rest.1)

  unfoldable pub grow_buckets : Xht A → Xht A
  unfolding rehash
  grow_buckets ht =
      let (items, buckets) = rehash ht.items 0 (replicate (length ht.buckets * 2) no_index) in
      record { items = items; buckets = buckets }

  -- the new item, linked in front of its chain, before the test that lets the buckets grow
  unfoldable pub link_new : Xht A → Bytes → ℕ → A → Xht A
  unfolding bucket_of first_of
  link_new ht key hash value =
      let bucket = bucket_of ht hash in
      let item : Item A = record {
        key = key;
        value = value;
        next = first_of ht bucket;
        hash = hash;
      } in
      record { items = ht.items ++ item ∷ []; buckets = set ht.buckets bucket (length ht.items) }

  -- The pointer that is returned is to the item at index items_size of before.
  unfoldable pub xht_insert_new_unchecked : Xht A → Bytes → ℕ → A → Xht A
  unfolding link_new grow_buckets
  xht_insert_new_unchecked ht key hash value =
      let ht' = link_new ht key hash value in
      if ltb (length ht'.buckets * 3) (length ht'.items * 4) then grow_buckets ht' else ht'

  -- the table, and the index of the item whose value the pointer that is returned points to; a value
  -- that is there stays as it is
  unfoldable pub xht_put : Xht A → Bytes → ℕ → A → Xht A × ℕ
  unfolding lookup xht_insert_new_unchecked
  xht_put ht key hash value = elim (lookup ht key hash) [
    | some i ↦ (ht, i)
    | none ↦ (xht_insert_new_unchecked ht key hash value, length ht.items)
  ]

  unfoldable pub xht_indexed_first : Xht A → ℕ → ℕ
  unfolding first_full
  xht_indexed_first ht start_bucket = first_full (drop start_bucket ht.buckets)

  unfoldable pub next_or : Option (Item A) → ℕ → ℕ
  next_or none first = no_index
  next_or (some item) first = if item.next == no_index then first else item.next

  unfoldable pub xht_indexed_next : Xht A → Bytes → ℕ → ℕ
  unfolding lookup bucket_of xht_indexed_first next_or
  xht_indexed_next ht key hash = elim (lookup ht key hash) [
    | none ↦ no_index
    | some i ↦ next_or (get_elem? ht.items i) (xht_indexed_first ht (bucket_of ht hash + 1))
  ]

-- what the pointer `pi` of xht_remove and of pop_item_at_index points to
pub data Slot : Type 0 where
  bucket_slot next_slot : ℕ → Slot

module _ {ℓ} {A : Type ℓ} where
  unfoldable pub next_of : Option (Item A) → ℕ
  next_of none = no_index
  next_of (some item) = item.next

  unfoldable pub read_slot : Xht A → Slot → ℕ
  unfolding next_of
  read_slot ht (bucket_slot b) = get_or ht.buckets b no_index
  read_slot ht (next_slot j) = next_of (get_elem? ht.items j)

  unfoldable pub set_next : List (Item A) → ℕ → ℕ → List (Item A)
  set_next items j i = elim (get_elem? items j) [
    | none ↦ items
    | some item ↦ set items j (record item { next = i })
  ]

  unfoldable pub write_slot : Xht A → Slot → ℕ → Xht A
  unfolding set_next
  write_slot ht (bucket_slot b) i = record ht { buckets = set ht.buckets b i }
  write_slot ht (next_slot j) i = record ht { items = set_next ht.items j i }

  -- while (*pi != idx): the slot that holds the index
  unfoldable pub find_slot : ℕ → Xht A → Slot → ℕ → Slot
  unfolding read_slot
  find_slot zero ht slot idx = slot
  find_slot (suc fuel) ht slot idx =
      let later = find_slot fuel ht (next_slot (read_slot ht slot)) idx in
      if read_slot ht slot == idx then slot else later

  -- the last item takes the place of the one that goes
  unfoldable pub move_last : Xht A → ℕ → Option (Item A) → Xht A
  unfolding find_slot write_slot bucket_of
  move_last ht idx none = ht
  move_last ht idx (some last_item) =
      let slot =
        find_slot (suc (length ht.items)) ht (bucket_slot (bucket_of ht last_item.hash))
          (length ht.items - 1) in
      let ht' = write_slot ht slot idx in
      let moved = Option.get_or (get_elem? ht'.items (length ht.items - 1)) last_item in
      record ht' { items = set ht'.items idx moved }

  unfoldable pub pop_item_at_index : Xht A → ℕ → Xht A
  unfolding move_last
  pop_item_at_index ht idx =
      let idx_last = length ht.items - 1 in
      let ht' = if idx == idx_last then ht else move_last ht idx (get_elem? ht.items idx_last) in
      record ht' { items = take idx_last ht'.items }

  -- The walk of xht_remove: the slot that holds the index of the item with the key, and that index.
  unfoldable pub remove_loop : ℕ → Xht A → Slot → Bytes → Option (Slot × ℕ)
  unfolding read_slot
  remove_loop zero ht slot key = none
  remove_loop (suc fuel) ht slot key =
      let i = read_slot ht slot in
      elim (get_elem? ht.items i) [
        | none ↦ none
        | some item ↦
            let more = remove_loop fuel ht (next_slot i) key in
            if bytes_eq key item.key then some (slot, i) else more
      ]

  -- the value that is returned, and the table
  unfoldable pub xht_remove : Xht A → Bytes → ℕ → A → A × Xht A
  unfolding remove_loop value_or next_of write_slot pop_item_at_index
  xht_remove ht key hash if_absent =
      elim (remove_loop (suc (length ht.items)) ht (bucket_slot (bucket_of ht hash)) key) [
        | none ↦ (if_absent, ht)
        | some (slot, i) ↦
            let item = get_elem? ht.items i in
            (value_or item if_absent, pop_item_at_index (write_slot ht slot (next_of item)) i)
      ]
