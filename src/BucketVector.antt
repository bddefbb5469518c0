-- ===== src/BucketVector.antt =====
-- src/bucket_vector.c and the inline functions of include/arnm/bucket_vector.h: a vector that keeps
-- its elements in buckets of one size behind an index array, so that no element ever moves. An
-- element is a value of `A`, which memcpy moves whole; `none` is a NULL pointer.
pub mod Contents
pub mod Calls
pub mod Extend
pub mod Growth
pub mod Init
pub mod Place
pub mod Pop
pub mod Push
pub mod Release
pub mod Walked
pub mod Freed
pub mod Fewer
pub mod Reads
pub mod Shrinking
pub mod Sizes
pub mod Reserve
pub mod Reserved
mod Tests
pub mod Walks
pub mod Writes
use arnm.Base.{
  ℕ, zero, suc, ◌+◌, ◌-◌, ◌*◌, ◌/◌, ◌%◌, ◌^◌, Option, none, some, List, [], ◌∷◌, ◌++◌, Bool, true,
  false, ltb, leb, ◌==◌, not, ◌&&◌, ◌||◌, if◌then◌else◌, length, get_elem?, get_or, set, take, drop,
  add32, sub32,
}
use arnm.Result.{
  Result, success, error_null_pointer, error_invalid_param, error_array_index_out_of_bounds,
  error_destination_buffer_to_small,
}

-- A bucket: its address, and the elements in its places.
pub record Bucket (A : Type 0) : Type 0 where
  pub addr : ℕ
  pub cells : List A

-- A slot of the index array.
abbrev pub Slot : Type 0 → Type 0
Slot A = Option (Bucket A)

-- `arnm_bvec`, but for its allocator, which each call here takes as an argument. `buckets` is the
-- address of the index array and `index` its slots. Wherever the code sets `tail`, it sets it to
-- the bucket of slot `tail_index` or to NULL, so here it is only whether it is open.
pub record Bvec (A : Type 0) : Type 0 where
  pub buckets : ℕ
  pub index : List (Slot A)
  pub element_size : ℕ
  pub bucket_capacity : ℕ
  pub tail_index : ℕ
  pub tail_used : ℕ
  pub tail : Bool
  pub size : ℕ
  pub bucket_capacity_max_log2 : ℕ
  pub index_grow_step_size : ℕ
  pub allocated_count : ℕ

-- bucket_capacity(v->bucket_capacity_max_log2), which arnm_pow2_u16 answers
abbrev pub bucket_slots : {A : Type 0} → Bvec A → ℕ
bucket_slots v = 2 ^ v.bucket_capacity_max_log2 % 65536

-- bucket_bytes
abbrev pub bucket_bytes : {A : Type 0} → Bvec A → ℕ
bucket_bytes v = (v.element_size * 2 ^ v.bucket_capacity_max_log2) % 4294967296

-- the elements of a slot's bucket
unfoldable pub cells_of : {A : Type 0} → Option (Slot A) → List A
cells_of (some (some b)) = b.cells
cells_of _ = []

module _ {A : Type 0} where
  -- bucket_count_allocated
  unfoldable pub bucket_count_allocated : Bvec A → ℕ
  bucket_count_allocated v = if v.buckets == 0 then 0 else v.allocated_count

  -- is_state_valid
  unfoldable pub is_state_valid : Bvec A → Bool
  is_state_valid v =
      let bucket_count = bucket_count_allocated v in
      if v.element_size == 0 || v.bucket_capacity_max_log2 == 0
      then false
      else if v.buckets == 0
      then not (
          not (bucket_count == 0)
          || not (v.bucket_capacity == 0)
          || not (v.tail_index == 0)
          || v.tail
          || not (v.size == 0))
      else if v.bucket_capacity == 0
      then false
      else if ltb v.bucket_capacity bucket_count
      then false
      else if (if v.tail then leb bucket_count v.tail_index else not (v.tail_index == 0))
      then false
      else leb v.size (bucket_count * bucket_slots v)

  -- what arnm_bvec_init writes
  abbrev pub fresh : ℕ → ℕ → ℕ → Bvec A
  fresh log2 step element_size = record {
    buckets = 0;
    index = [];
    element_size = element_size;
    bucket_capacity = 0;
    tail_index = 0;
    tail_used = 2 ^ log2 % 65536;
    tail = false;
    size = 0;
    bucket_capacity_max_log2 = log2;
    index_grow_step_size = if step == 0 then 8 else step;
    allocated_count = 0;
  }

  -- arnm_bvec_init; `v` is `none` for NULL, and nothing of it is read
  unfoldable pub init : Option (Bvec A) → ℕ → ℕ → ℕ → Result × Option (Bvec A)
  init none log2 step element_size = (error_null_pointer, none)
  init (some v) log2 step element_size =
      if element_size == 0
        || log2 == 0
        || ltb 15 log2
        || ltb (4294967295 / 2 ^ log2) element_size
        || ltb 65535 element_size
      then (error_invalid_param, some v)
      else (success, some (fresh log2 step element_size))

  -- arnm_bvec_clear
  unfoldable pub clear : Option (Bvec A) → Option (Bvec A)
  clear none = none
  clear (some v) =
      some (record v { tail = false; tail_index = 0; tail_used = bucket_slots v; size = 0 })

  -- arnm_bvec_pop
  unfoldable pub pop : Option (Bvec A) → Result × Option (Bvec A)
  pop none = (error_null_pointer, none)
  pop (some v) =
      if v.size == 0
      then (error_array_index_out_of_bounds, some v)
      else let size = sub32 v.size 1 in
        let tail_used = (v.tail_used + 65535) % 65536 in
        if tail_used == 0
        then if not (size == 0)
          then (
            success,
            some (record v {
              size = size;
              tail_index = (v.tail_index + 65535) % 65536;
              tail_used = bucket_slots v;
            }),
          )
          else (
            success,
            some (record v {
              size = size;
              tail = false;
              tail_index = 0;
              tail_used = bucket_slots v;
            }),
          )
        else (success, some (record v { size = size; tail_used = tail_used }))

  -- arnm_bvec_bucket_count
  unfoldable pub bucket_count : Bvec A → ℕ
  bucket_count v = if v.tail then (v.tail_index + 1) % 65536 else 0

  -- arnm_bvec_bucket_size
  unfoldable pub bucket_size : Bvec A → ℕ → ℕ
  bucket_size v bucket =
      if bucket == v.tail_index then v.tail_used else 2 ^ v.bucket_capacity_max_log2 % 65536

  -- arnm_bvec_get and arnm_bvec_at: the element, `none` where they answer NULL
  unfoldable pub get : Bvec A → ℕ → Option A
  get v i =
      get_elem? (cells_of (get_elem? v.index (i / 2 ^ v.bucket_capacity_max_log2 % 65536)))
        (i % 2 ^ v.bucket_capacity_max_log2)

  unfoldable pub at : Bvec A → ℕ → Option A
  at v i = if leb v.size i then none else get v i

  -- arnm_bvec_front and arnm_bvec_back
  unfoldable pub front : Bvec A → Option A
  front v = if v.size == 0 then none else get_elem? (cells_of (get_elem? v.index 0)) 0

  unfoldable pub back : Bvec A → Option A
  back v =
      if v.tail
      then get_elem? (cells_of (get_elem? v.index v.tail_index)) (v.tail_used - 1)
      else none

  -- The loop of arnm_bvec_copy_to, from bucket `k` on with `left` buckets to go: what it copies.
  unfoldable pub copy_loop : Bvec A → ℕ → ℕ → List A
  copy_loop v zero k = []
  copy_loop v (suc left) k =
      take (bucket_size v k) (cells_of (get_elem? v.index k)) ++ copy_loop v left (suc k)

  -- arnm_bvec_copy_to: `dst` is the destination's elements
  unfoldable pub copy_to : Option (Bvec A) → Option (List A) → ℕ → Result × Option (List A)
  copy_to none dst dst_capacity = (error_null_pointer, dst)
  copy_to (some v) none dst_capacity = (error_null_pointer, none)
  copy_to (some v) (some dst) dst_capacity =
      if ltb dst_capacity v.size
      then (error_destination_buffer_to_small, some dst)
      else let copied = copy_loop v (bucket_count v) 0 in
        (success, some (copied ++ drop (length copied) dst))
