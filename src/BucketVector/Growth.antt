-- ===== src/BucketVector/Growth.antt =====
-- The calls of src/bucket_vector.c that ask the allocator for memory.
use arnm.Base.{
  ℕ, zero, suc, ◌+◌, ◌-◌, ◌*◌, ◌/◌, ◌%◌, ◌^◌, Option, none, some, List, ◌++◌, Bool, true, false,
  ltb, leb, ◌==◌, not, ◌&&◌, if◌then◌else◌, get_elem?, set, replicate, add32,
}
use arnm.Result.{
  Result, success, is_success, error_invalid_param, error_invalid_state, error_arithmetic_overflow,
  warning_arena_memory_not_reclaimed,
}
use arnm.Memory.Machine.{Machine, Host}
use arnm.Memory.Api.{Arnm, alloc}
use arnm.Memory.Realloc.{realloc}
use arnm.BucketVector.{
  Slot, Bvec, bucket_slots, bucket_bytes, bucket_count_allocated, is_state_valid, bucket_count,
}

-- ARNM_BVEC_MAX_INDEX_CAPACITY, with pointers of eight bytes
abbrev pub max_index_capacity : ℕ
max_index_capacity = 8191

-- index_bytes
abbrev pub index_bytes : ℕ → ℕ
index_bytes capacity = (capacity * 8) % 4294967296

-- What a call leaves: its answer, the vector, the allocator and the machine.
pub record Grown (A H : Type 0) : Type 0 where
  pub result : Result
  pub vector : Bvec A
  pub allocator : Option Arnm
  pub machine : Machine H

-- A call that answers `r` and leaves everything as it is.
abbrev pub answer : {A H : Type 0} → Result → Bvec A → Option Arnm → Machine H → Grown A H
answer r v m w = record { result = r; vector = v; allocator = m; machine = w }

-- both answers of arnm_realloc with which the callers go on
unfoldable pub is_resized : Result → Bool
is_resized success = true
is_resized warning_arena_memory_not_reclaimed = true
is_resized _ = false

unfoldable pub address_of : Option ℕ → ℕ → ℕ
address_of none old = old
address_of (some p) old = p

-- a write to the elements of one bucket, through its pointer
unfoldable pub write_cell : {A : Type 0} → List (Slot A) → ℕ → ℕ → A → List (Slot A)
write_cell index k place x = elim (get_elem? index k) [
  | none ↦ index
  | some none ↦ index
  | some (some b) ↦ set index k (some (record b { cells = set b.cells place x }))
]

-- the last lines of arnm_bvec_grow: bucket `next` is open, and its first slot is handed out
unfoldable pub open_bucket : {A : Type 0} → Bvec A → ℕ → Bvec A
open_bucket v next = record v {
  tail = true;
  tail_index = next;
  tail_used = 1;
  size = add32 v.size 1;
}

module _ {A H : Type 0} (os : Host H) (junk : A) where
  -- The index array is resized to `capacity` slots, and the new ones are NULL.
  unfoldable pub grow_index : Bvec A → ℕ → Option Arnm → Machine H → Grown A H
  unfolding address_of
  grow_index v capacity m w =
      let r =
        realloc os (some v.buckets) (index_bytes v.bucket_capacity) (index_bytes capacity) m w in
      let v' = record v { buckets = address_of r.buffer v.buckets } in
      if is_resized r.result
      then record {
        result = success;
        vector = record v' {
          index = v.index ++ replicate (capacity - v.bucket_capacity) none;
          bucket_capacity = capacity;
        };
        allocator = r.handle;
        machine = r.machine;
      }
      else record { result = r.result; vector = v'; allocator = r.handle; machine = r.machine }

  -- One more bucket, whose places hold `junk`, in the slot behind the last one.
  unfoldable pub add_bucket : Bvec A → Option Arnm → Machine H → Grown A H
  add_bucket v m w =
      let r = alloc os (some 0) (bucket_bytes v) m w in
      if is_success r.result
      then elim r.buffer [
        | none ↦ record {
          result = error_invalid_state;
          vector = v;
          allocator = r.handle;
          machine = r.machine;
        }
        | some p ↦ record {
          result = success;
          vector = record v {
            index =
                set v.index (bucket_count_allocated v)
                  (some (record { addr = p; cells = replicate (bucket_slots v) junk }));
            allocated_count = bucket_count_allocated v + 1;
          };
          allocator = r.handle;
          machine = r.machine;
        }
      ]
      else record { result = r.result; vector = v; allocator = r.handle; machine = r.machine }

  -- the loop of arnm_bvec_reserve, `left` buckets to go
  unfoldable pub add_buckets : ℕ → Bvec A → Option Arnm → Machine H → Grown A H
  add_buckets zero v m w = record { result = success; vector = v; allocator = m; machine = w }
  add_buckets (suc left) v m w =
      let g = add_bucket v m w in
      let rest = add_buckets left g.vector g.allocator g.machine in
      if is_success g.result then rest else g

  -- arnm_bvec_reserve behind its NULL check
  unfoldable pub reserve : Bvec A → ℕ → Option Arnm → Machine H → Grown A H
  reserve v element_count m w =
      let mask = bucket_slots v - 1 in
      if element_count == 0
      then answer error_invalid_param v m w
      else if not (is_state_valid v)
      then answer error_invalid_state v m w
      else if ltb ((4294967295 - mask) / v.element_size) element_count
      then answer error_arithmetic_overflow v m w
      else let needed = (element_count + mask) / 2 ^ v.bucket_capacity_max_log2 in
        let previous = bucket_count_allocated v in
        if ltb max_index_capacity needed
        then answer error_arithmetic_overflow v m w
        else if leb needed previous
        then answer success v m w
        else if ltb v.bucket_capacity needed
        then (let g = grow_index v needed m w in
            if is_success g.result
            then add_buckets (needed - previous) g.vector g.allocator g.machine
            else g)
        else add_buckets (needed - previous) v m w

  -- the call of arnm_alloc in arnm_bvec_grow, and its last lines
  unfoldable pub grow_bucket : ℕ → Bvec A → Option Arnm → Machine H → Grown A H
  grow_bucket next v m w =
      let g = add_bucket v m w in
      if is_success g.result then record g { vector = open_bucket g.vector next } else g

  -- arnm_bvec_grow behind its NULL checks; the slot it hands out is the first of the tail
  unfoldable pub grow : Bvec A → Option Arnm → Machine H → Grown A H
  grow v m w =
      let next = bucket_count v in
      let previous = bucket_count_allocated v in
      if not (is_state_valid v)
      then answer error_invalid_state v m w
      else if ltb next previous
      then record { result = success; vector = open_bucket v next; allocator = m; machine = w }
      else if previous == v.bucket_capacity
      then if ltb max_index_capacity (v.bucket_capacity + v.index_grow_step_size)
        then answer error_arithmetic_overflow v m w
        else (let g = grow_index v (v.bucket_capacity + v.index_grow_step_size) m w in
            if is_success g.result then grow_bucket next g.vector g.allocator g.machine else g)
      else grow_bucket next v m w

  -- arnm_bvec_emplace: the slot it hands out is number `tail_used - 1` of the tail
  unfoldable pub emplace : Bvec A → Option Arnm → Machine H → Grown A H
  emplace v m w =
      if v.tail && ltb v.tail_used (bucket_slots v)
      then record {
        result = success;
        vector = record v { tail_used = (v.tail_used + 1) % 65536; size = add32 v.size 1 };
        allocator = m;
        machine = w;
      }
      else grow v m w

  -- arnm_bvec_push_ptr on a vector and a value that are there
  unfoldable pub push_ptr : Bvec A → A → Option Arnm → Machine H → Grown A H
  push_ptr v x m w =
      let g = emplace v m w in
      if is_success g.result
      then record g {
        vector = record g.vector {
          index = write_cell g.vector.index g.vector.tail_index (g.vector.tail_used - 1) x;
        };
      }
      else g
