-- ===== src/KeyMap.antt =====
-- src/key_map.c and the inline lookup of include/arnm/key_map.h: a table of slots that is probed
-- from a key's home on, in front of a bucket vector of the keys. A key is a value of `A`; `same` is
-- the comparison of its bytes and `slot_hash` the map's hash folded to 32 bits. `capacity` is 0 or a
-- power of two, so `& (capacity - 1)` is `% capacity`.
mod Tests
pub mod Probing
pub mod Capacity
pub mod Placing
pub mod Table
pub mod Lookup
pub mod Inserting
pub mod Reserving
use arnm.Base.{
  ℕ, zero, suc, ◌+◌, ◌-◌, ◌*◌, ◌/◌, ◌%◌, Option, none, some, List, [], ◌∷◌, Bool, true, false, ltb,
  leb, ◌==◌, not, ◌&&◌, ◌||◌, if◌then◌else◌, length, get_elem?, set, replicate,
}
use arnm.Result.{
  Result, success, is_success, error_null_pointer, error_invalid_param, error_invalid_state,
  error_arithmetic_overflow,
}
use arnm.Memory.Machine.{Machine, Host}
use arnm.Memory.Api.{Arnm, alloc, free}
use arnm.BucketVector.{Bvec, init, get, clear}
use arnm.BucketVector.Growth.{Grown, reserve, push_ptr}
use arnm.BucketVector.Release.{free_vector}

-- ARNM_KEY_MAP_EMPTY_ID
abbrev pub empty_id : ℕ
empty_id = 4294967295

-- ARNM_KEY_MAP_MAX_CAPACITY, and MIN_CAPACITY
abbrev pub max_capacity : ℕ
max_capacity = 268435456

abbrev pub min_capacity : ℕ
min_capacity = 8

-- ARNM_KEY_MAP_MAX_KEYS
abbrev pub max_keys : ℕ
max_keys = max_capacity - max_capacity / 4

-- `arnm_key_map_slot`
pub record KeySlot : Type 0 where
  pub hash : ℕ
  pub id : ℕ

-- a slot with all bits set
abbrev pub free_slot : KeySlot
free_slot = record { hash = 4294967295; id = 4294967295 }

-- `arnm_key_map`, but for the allocator in its vector, which each call takes as an argument, and
-- for the choice of the hash. `block` is the address of the slots.
pub record KeyMap (A : Type 0) : Type 0 where
  pub block : ℕ
  pub slots : List KeySlot
  pub keys : Bvec A
  pub capacity : ℕ

-- load_limit
abbrev pub load_limit : ℕ → ℕ
load_limit capacity = capacity - capacity / 4

-- The loop of capacity_for, for `rounds` of it: 29 of them shift every bit of the capacity out, so a
-- loop that has not ended by then does not end.
unfoldable pub double_until : ℕ → ℕ → ℕ → ℕ
double_until zero capacity key_count = capacity
double_until (suc rounds) capacity key_count =
    let doubled = double_until rounds (capacity * 2 % 4294967296) key_count in
    if ltb (load_limit capacity) key_count then doubled else capacity

-- capacity_for, whose count of keys is ARNM_KEY_MAP_MAX_KEYS at most
unfoldable pub capacity_for : ℕ → ℕ
capacity_for key_count = double_until 32 min_capacity key_count

-- a read outside the slots, which the code does not do, would find a free slot
unfoldable pub slot_at : List KeySlot → ℕ → KeySlot
slot_at slots index = elim (get_elem? slots index) [ none ↦ free_slot | some s ↦ s ]

abbrev pub is_free : KeySlot → Bool
is_free s = s.id == 4294967295

-- The loop to the first free slot, in rebuild and in insert_absent; `rounds` of it at most.
unfoldable pub first_free : ℕ → List KeySlot → ℕ → ℕ → ℕ
first_free zero slots capacity index = index
first_free (suc rounds) slots capacity index =
    let rest = first_free rounds slots capacity ((index + 1) % capacity) in
    if is_free (slot_at slots index) then index else rest

-- The loop of rebuild over the old slots.
unfoldable pub place_all : List KeySlot → ℕ → List KeySlot → List KeySlot
place_all [] capacity slots = slots
place_all (s ∷ old) capacity slots =
    if is_free s
    then place_all old capacity slots
    else place_all old capacity
        (set slots (first_free capacity slots capacity (s.hash % capacity)) s)

-- What a call leaves: its answer, the map, the id and whether the key is new, where the code sets
-- them, the allocator and the machine.
pub record Inserted (A H : Type 0) : Type 0 where
  pub result : Result
  pub map : KeyMap A
  pub out_id : Option ℕ
  pub inserted : Option Bool
  pub allocator : Option Arnm
  pub machine : Machine H

abbrev pub refused : {A H : Type 0} → Result → KeyMap A → Option Arnm → Machine H → Inserted A H
refused r map m w = record {
  result = r;
  map = map;
  out_id = none;
  inserted = none;
  allocator = m;
  machine = w;
}

module _ {A : Type 0} (same : A → A → Bool) (slot_hash : A → ℕ) where
  -- whether the key of this number is `key`
  unfoldable pub holds_key : Bvec A → ℕ → A → Bool
  holds_key keys number key = elim (get keys number) [ none ↦ false | some k ↦ same k key ]

  -- The loop of arnm_key_map_probe, `rounds` of it at most.
  unfoldable pub probe_from : ℕ → KeyMap A → A → ℕ → ℕ → ℕ
  probe_from zero map key hash index = index
  probe_from (suc rounds) map key hash index =
      let rest = probe_from rounds map key hash ((index + 1) % map.capacity) in
      let s = slot_at map.slots index in
      if is_free s
      then index
      else if s.hash == hash && holds_key map.keys s.id key
      then index
      else rest

  -- arnm_key_map_probe, once round the table at most
  unfoldable pub probe : KeyMap A → A → ℕ → ℕ
  probe map key hash = probe_from map.capacity map key hash (hash % map.capacity)

  -- arnm_key_map_find on a map and a key that are there: the answer is whether there is an id
  unfoldable pub find : KeyMap A → A → Option ℕ
  find map key =
      if map.capacity == 0
      then none
      else let s = slot_at map.slots (probe map key (slot_hash key)) in
        if is_free s then none else some s.id

module _ {A : Type 0} where
  -- init_map behind its NULL check
  unfoldable pub init_map : ℕ → ℕ → KeyMap A → Result × KeyMap A
  init_map key_size keys_bucket_log2 map =
      let (r, keys) = init (some map.keys) keys_bucket_log2 0 key_size in
      elim keys [
        | none ↦ (r, map)
        | some keys' ↦
            if is_success r
            then (success, record { block = 0; slots = []; keys = keys'; capacity = 0 })
            else (r, map)
      ]

  -- arnm_key_map_clear
  unfoldable pub clear_map : Option (KeyMap A) → Option (KeyMap A)
  clear_map none = none
  clear_map (some map) = elim (clear (some map.keys)) [
    | none ↦ some map
    | some keys ↦ some (record map {
      slots = if map.block == 0 then map.slots else replicate map.capacity free_slot;
      keys = keys;
    })
  ]

module _ {A H : Type 0} (os : Host H) (junk : A) where
  -- rebuild
  unfoldable pub rebuild : KeyMap A → ℕ → Option Arnm → Machine H → Inserted A H
  rebuild map capacity m w =
      let r = alloc os (some 0) (capacity * 8 % 4294967296) m w in
      if is_success r.result
      then elim r.buffer [
        | none ↦ refused error_invalid_state map r.handle r.machine
        | some p ↦
            let slots = place_all map.slots capacity (replicate capacity free_slot) in
            let map' = record map { block = p; slots = slots; capacity = capacity } in
            if map.block == 0
            then refused success map' r.handle r.machine
            else let (freed, m', w') =
                free os map.block (map.capacity * 8 % 4294967296) r.handle r.machine in
              refused success map' m' w'
      ]
      else refused r.result map r.handle r.machine

  -- The last part of insert_absent: the key, and behind it the slot that names it.
  unfoldable pub store_key : KeyMap A → A → ℕ → ℕ → Option Arnm → Machine H → Inserted A H
  store_key map key hash index m w =
      let count = map.keys.size in
      let g = push_ptr os junk map.keys key m w in
      if is_success g.result
      then record {
        result = success;
        map = record map {
          keys = g.vector;
          slots = set map.slots index (record { hash = hash; id = count });
        };
        out_id = some count;
        inserted = none;
        allocator = g.allocator;
        machine = g.machine;
      }
      else refused g.result (record map { keys = g.vector }) g.allocator g.machine

  -- insert_absent
  unfoldable pub insert_absent : KeyMap A → A → ℕ → ℕ → Option Arnm → Machine H → Inserted A H
  insert_absent map key hash index m w =
      if leb (load_limit map.capacity) map.keys.size
      then if leb max_capacity map.capacity
        then refused error_arithmetic_overflow map m w
        else (let g =
              rebuild map
                (if map.capacity == 0 then min_capacity else map.capacity * 2 % 4294967296) m w in
            let home =
              first_free g.map.capacity g.map.slots g.map.capacity (hash % g.map.capacity) in
            if is_success g.result then store_key g.map key hash home g.allocator g.machine else g)
      else store_key map key hash index m w

  -- arnm_key_map_insert_absent behind its NULL checks
  unfoldable pub insert_absent_checked :
      KeyMap A → A → ℕ → ℕ → Option Arnm → Machine H → Inserted A H
  insert_absent_checked map key hash slot_index m w =
      if map.keys.element_size == 0
      then refused error_invalid_state map m w
      else if not (map.capacity == 0)
          && (ltb map.keys.size (load_limit map.capacity)
              && (leb map.capacity slot_index || not (is_free (slot_at map.slots slot_index))))
      then refused error_invalid_param map m w
      else insert_absent map key hash slot_index m w

  -- arnm_key_map_reserve behind its NULL check
  unfoldable pub reserve_keys : KeyMap A → ℕ → Option Arnm → Machine H → Inserted A H
  reserve_keys map key_count m w =
      if key_count == 0
      then refused error_invalid_param map m w
      else if map.keys.element_size == 0
      then refused error_invalid_state map m w
      else if ltb max_keys key_count
      then refused error_arithmetic_overflow map m w
      else let g = reserve os junk map.keys key_count m w in
        let map' = record map { keys = g.vector } in
        let capacity = capacity_for key_count in
        if is_success g.result
        then if leb capacity map.capacity
          then refused success map' g.allocator g.machine
          else rebuild map' capacity g.allocator g.machine
        else refused g.result map' g.allocator g.machine

  -- arnm_key_map_free on a map that is there
  unfoldable pub free_map : KeyMap A → Option Arnm → Machine H → KeyMap A × Option Arnm × Machine H
  free_map map m w =
      let (r, m1, w1) =
        if map.block == 0
        then (success, m, w)
        else free os map.block (map.capacity * 8 % 4294967296) m w in
      let (keys, m2, w2) = free_vector os map.keys m1 w1 in
      (record { block = 0; slots = []; keys = keys; capacity = 0 }, m2, w2)

  module _ (same : A → A → Bool) (slot_hash : A → ℕ) where
    -- arnm_key_map_get_or_insert behind its NULL checks, with a cell for `out_inserted`
    unfoldable pub get_or_insert : KeyMap A → A → Option Arnm → Machine H → Inserted A H
    get_or_insert map key m w =
        let hash = slot_hash key in
        let index = if map.capacity == 0 then 0 else probe same slot_hash map key hash in
        let s = slot_at map.slots index in
        let g = insert_absent map key hash index m w in
        if map.keys.element_size == 0
        then refused error_invalid_state map m w
        else if not (map.capacity == 0) && not (is_free s)
        then record {
          result = success;
          map = map;
          out_id = some s.id;
          inserted = some false;
          allocator = m;
          machine = w;
        }
        else if is_success g.result
        then record g { inserted = some true }
        else g
