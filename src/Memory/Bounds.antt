-- ===== src/Memory/Bounds.antt =====
-- Rounding to 8, and the representation invariant of a single arena.
use arnm.Base.{ℕ, ◌+◌, ◌-◌, ◌%◌, ◌≤◌, ◌<◌, some, ◌≡◌, arith}
use arnm.Result.{success}
use arnm.Memory.Machine.{max_alloc_size, align8_u32}
use arnm.Memory.Arena.{
  Arena, remaining_bytes, account_capacity_exceeded, alloc_in_arena, pull_back, reset_arena,
  borrow_arena,
}
use arnm.Memory.Realloc.{stretch}

-- A size of at most ARNM_MAX_ALLOC_SIZE is rounded up to the least multiple of 8 that is not below
-- it: the sum inside ARNM_ALIGN8 does not wrap.
pub align8_u32-ceiling :
    (size : ℕ)
    → size ≤ max_alloc_size
    → (align8_u32 size % 8 ≡ 0) × (size ≤ align8_u32 size) × (align8_u32 size < size + 8)
unfolding align8_u32
align8_u32-ceiling size h = (ground arith, ground arith, ground arith)

pub align8_u32_bounds :
    (size : ℕ)
    → size < 4294967296
    → (align8_u32 size % 8 ≡ 0)
      × (align8_u32 size < size + 8)
      × (size ≤ max_alloc_size → size ≤ align8_u32 size)
      × (max_alloc_size < size → align8_u32 size ≡ 0)
unfolding align8_u32
align8_u32_bounds size h = (ground arith, ground arith, ground arith, ground arith)

pub align8_u32-pos : (size : ℕ) → 0 < size → size ≤ max_alloc_size → 0 < align8_u32 size
unfolding align8_u32
align8_u32-pos size h k = ground arith

pub align8_u32-le : (size : ℕ) → size ≤ max_alloc_size → align8_u32 size ≤ max_alloc_size
unfolding align8_u32
align8_u32-le size h = ground arith

-- A multiple of 8 that fits is its own rounding.
pub align8_u32_self : (size : ℕ) → size % 8 ≡ 0 → size ≤ max_alloc_size → align8_u32 size ≡ size
unfolding align8_u32
align8_u32_self size h k = ground arith

-- Base, index and capacity stand on the eight byte grid, and the index never passes the capacity.
pub record IsValid (a : Arena) : Type 0 where
  pub base_aligned : a.base % 8 ≡ 0
  pub index_aligned : a.last_index % 8 ≡ 0
  pub capacity_aligned : a.capacity % 8 ≡ 0
  pub within : a.last_index ≤ a.capacity
  pub small : a.capacity < 4294967296
  pub counted : a.out_of_memory_capacity < 4294967296

pub remaining_bytes-eq-sub : {a : Arena} → IsValid a → remaining_bytes a ≡ a.capacity - a.last_index
unfolding remaining_bytes
remaining_bytes-eq-sub v = omega arith

pub account_capacity_exceeded-IsValid :
    {a : Arena} (aligned : ℕ) → IsValid a → IsValid (account_capacity_exceeded aligned a).1
unfolding account_capacity_exceeded
account_capacity_exceeded-IsValid aligned v = ground arith

pub alloc_in_arena-IsValid :
    {a : Arena} (buffer aligned : ℕ)
    → aligned % 8 ≡ 0
    → IsValid a
    → IsValid (alloc_in_arena buffer aligned a).arena
unfolding alloc_in_arena
alloc_in_arena-IsValid buffer aligned h v = ground arith

pub pull_back-IsValid :
    {a : Arena} (aligned : ℕ)
    → aligned % 8 ≡ 0
    → aligned ≤ a.last_index
    → IsValid a
    → IsValid (pull_back aligned a)
unfolding pull_back
pull_back-IsValid aligned h k v = omega arith

pub stretch-IsValid :
    {a : Arena} (additional : ℕ)
    → additional % 8 ≡ 0
    → additional ≤ a.capacity - a.last_index
    → IsValid a
    → IsValid (stretch additional a)
unfolding stretch
stretch-IsValid additional h k v = omega arith

pub reset_arena-IsValid : {a : Arena} → IsValid a → IsValid (reset_arena a)
unfolding reset_arena
reset_arena-IsValid v = omega arith

-- What arnm_init_arena_borrow accepts, for a uint32_t capacity, is a valid empty arena over
-- exactly the block it was lent.
borrow_arena-IsValid :
    (block capacity : ℕ) {a : Arena}
    → capacity < 4294967296
    → borrow_arena block capacity ≡ (success, some a)
    → IsValid a × (a.base ≡ block) × (a.capacity ≡ capacity) × (a.last_index ≡ 0)
unfolding borrow_arena align8_u32
borrow_arena-IsValid block capacity h e = ground arith
