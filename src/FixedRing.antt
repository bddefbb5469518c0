-- ===== src/FixedRing.antt =====
-- src/fixed_ring.c and the inline functions of include/arnm/fixed_ring.h: a bounded queue in one
-- block. An element is a value of `A`, which memcpy moves whole; `none` is a NULL pointer.
pub mod Window
pub mod Queue
pub mod Refine
pub mod Runs
mod Tests
use arnm.Base.{
  ℕ, zero, suc, ◌+◌, ◌-◌, ◌*◌, ◌/◌, ◌%◌, Option, none, some, List, [], ◌∷◌, ◌++◌, Bool, true, false,
  ltb, leb, ◌==◌, not, ◌&&◌, ◌||◌, if◌then◌else◌, length, get_elem?, get_or, set, take, drop,
  replicate, add32, sub32,
}
use arnm.Result.{
  Result, success, is_success, error_null_pointer, error_invalid_param, error_arithmetic_overflow,
  error_not_initialized, error_resource_exhausted, error_array_index_out_of_bounds,
  error_destination_buffer_to_small,
}
use arnm.Memory.Machine.{Machine, Host, max_alloc_size}
use arnm.Memory.Api.{Arnm, Reply, alloc, free}

-- `arnm_fixed_ring`: the address of the block, and the elements in its slots.
pub record Ring (A : Type 0) : Type 0 where
  pub slots : ℕ
  pub cells : List A
  pub capacity : ℕ
  pub head : ℕ
  pub size : ℕ
  pub element_size : ℕ

-- block_bytes
abbrev pub block_bytes : {A : Type 0} → Ring A → ℕ
block_bytes r = (r.capacity * r.element_size) % 4294967296

-- forget_everything
abbrev pub forgotten : {A : Type 0} → Ring A
forgotten = record { slots = 0; cells = []; capacity = 0; head = 0; size = 0; element_size = 0 }

-- What init leaves: its answer, the ring, the allocator and the machine.
pub record Setup (A H : Type 0) : Type 0 where
  pub result : Result
  pub ring : Option (Ring A)
  pub allocator : Option Arnm
  pub machine : Machine H

module _ {A H : Type 0} (os : Host H) (junk : A) where
  -- arnm_fixed_ring_init; the fresh block holds `junk`
  unfoldable pub init : Option (Ring A) → ℕ → ℕ → Option Arnm → Machine H → Setup A H
  unfolding is_success
  init none capacity element_size m w = record {
    result = error_null_pointer;
    ring = none;
    allocator = m;
    machine = w;
  }
  init (some old) capacity element_size m w =
      if capacity == 0 || element_size == 0 || ltb 65535 element_size
      then record { result = error_invalid_param; ring = some old; allocator = m; machine = w }
      else if ltb (max_alloc_size / element_size) capacity
      then record {
        result = error_arithmetic_overflow;
        ring = some old;
        allocator = m;
        machine = w;
      }
      else let r = alloc os (some 0) ((capacity * element_size) % 4294967296) m w in
        if is_success r.result
        then elim r.buffer [
          | none ↦ record {
            result = r.result;
            ring = some old;
            allocator = r.handle;
            machine = r.machine;
          }
          | some slots ↦ record {
            result = success;
            ring = some (record {
              slots = slots;
              cells = replicate capacity junk;
              capacity = capacity;
              head = 0;
              size = 0;
              element_size = element_size;
            });
            allocator = r.handle;
            machine = r.machine;
          }
        ]
        else record {
          result = r.result;
          ring = some old;
          allocator = r.handle;
          machine = r.machine;
        }

-- arnm_fixed_ring_free
unfoldable pub free_ring :
    {A H : Type 0} → Host H → Option (Ring A) → Option Arnm → Machine H → Setup A H
free_ring os none m w = record {
  result = error_null_pointer;
  ring = none;
  allocator = m;
  machine = w;
}
free_ring os (some r) m w =
    if r.slots == 0
    then record { result = success; ring = some forgotten; allocator = m; machine = w }
    else let (result, m', w') = free os r.slots (block_bytes r) m w in
      record { result = result; ring = some forgotten; allocator = m'; machine = w' }

module _ {A : Type 0} where
  -- arnm_fixed_ring_clear
  unfoldable pub clear : Option (Ring A) → Option (Ring A)
  clear none = none
  clear (some r) = some (record r { head = 0; size = 0 })

  -- The slot of arnm_fixed_ring_get: `head + index`, brought back over the end once.
  unfoldable pub slot : Ring A → ℕ → ℕ
  slot r index =
      let position = add32 r.head index in
      if leb r.capacity position then position - r.capacity else position

  -- arnm_fixed_ring_emplace: the slot's position goes through `out_slot`, a cell or NULL.
  unfoldable pub emplace : Option (Ring A) → Option ℕ → Result × Option (Ring A) × Option ℕ
  unfolding slot
  emplace none out = (error_null_pointer, none, out)
  emplace (some r) none = (error_null_pointer, some r, none)
  emplace (some r) (some out) =
      if r.slots == 0
      then (error_not_initialized, some r, some out)
      else if r.size == r.capacity
      then (error_resource_exhausted, some r, some out)
      else (success, some (record r { size = add32 r.size 1 }), some (slot r r.size))

  -- the memcpy into the slot that emplace handed out
  store : A → Option (Ring A) → Option ℕ → Option (Ring A)
  store x none out = none
  store x (some r) none = some r
  store x (some r) (some i) = some (record r { cells = set r.cells i x })

  -- arnm_fixed_ring_push_ptr
  unfoldable pub push_ptr : Option (Ring A) → Option A → Result × Option (Ring A)
  unfolding emplace is_success store
  push_ptr none value = (error_null_pointer, none)
  push_ptr (some r) none = (error_null_pointer, some r)
  push_ptr (some r) (some x) =
      let (result, r', out) = emplace (some r) (some 0) in
      if is_success result then (success, store x r' out) else (result, r')

  -- arnm_fixed_ring_pop
  unfoldable pub pop : Option (Ring A) → Result × Option (Ring A)
  pop none = (error_null_pointer, none)
  pop (some r) =
      if r.size == 0
      then (error_array_index_out_of_bounds, some r)
      else let head = add32 r.head 1 in
        (
          success,
          some (record r { head = if head == r.capacity then 0 else head; size = sub32 r.size 1 }),
        )

  -- arnm_fixed_ring_get, at(), front() and back(): the element, `none` where they answer NULL
  unfoldable pub get : Ring A → ℕ → Option A
  unfolding slot
  get r index = get_elem? r.cells (slot r index)

  unfoldable pub at : Ring A → ℕ → Option A
  unfolding get
  at r index = if leb r.size index then none else get r index

  unfoldable pub front : Ring A → Option A
  unfolding get
  front r = if r.size == 0 then none else get r 0

  unfoldable pub back : Ring A → Option A
  unfolding get
  back r = if r.size == 0 then none else get r (sub32 r.size 1)

  -- arnm_fixed_ring_available
  unfoldable pub available : Ring A → ℕ
  available r = sub32 r.capacity r.size

  -- arnm_fixed_ring_reserved
  unfoldable pub reserved : Option (Ring A) → ℕ
  reserved none = 0
  reserved (some r) = if r.slots == 0 then 0 else block_bytes r

  -- arnm_fixed_ring_pop_copy: `dst` holds what the caller's element was before
  unfoldable pub pop_copy : Option (Ring A) → Option A → Result × Option (Ring A) × Option A
  unfolding pop slot
  pop_copy none dst = (error_null_pointer, none, dst)
  pop_copy (some r) none = (error_null_pointer, some r, none)
  pop_copy (some r) (some old) =
      if r.size == 0
      then (error_array_index_out_of_bounds, some r, some old)
      else let (result, r') = pop (some r) in (result, r', some (get_or r.cells (slot r 0) old))

  -- The two memcpys of arnm_fixed_ring_copy_to, to the front of `dst`.
  unfoldable pub copy_runs : Ring A → List A → List A
  copy_runs r dst =
      let to_end = sub32 r.capacity r.head in
      let first_run = if ltb r.size to_end then r.size else to_end in
      let first = take first_run (drop r.head r.cells) in
      if ltb first_run r.size
      then first ++ take (sub32 r.size first_run) r.cells ++ drop r.size dst
      else first ++ drop first_run dst

  -- arnm_fixed_ring_copy_to: `dst` is the destination's elements, `none` if it is NULL
  unfoldable pub copy_to : Option (Ring A) → Option (List A) → ℕ → Result × Option (List A)
  unfolding copy_runs
  copy_to none dst dst_capacity = (error_null_pointer, dst)
  copy_to (some r) none dst_capacity = (error_null_pointer, none)
  copy_to (some r) (some dst) dst_capacity =
      if ltb dst_capacity r.size
      then (error_destination_buffer_to_small, some dst)
      else if r.size == 0
      then (success, some dst)
      else (success, some (copy_runs r dst))
