-- ===== src/Memory/Outcomes.antt =====
-- What the calls do on an arena, in closed form.
use arnm.Base.{ℕ, ◌+◌, ◌-◌, ◌≤◌, ◌<◌, some, ◌==◌, if◌then◌else◌, ◌≡◌, ◌≢◌, arith}
use arnm.Result.{success, error_out_of_memory, warning_arena_memory_not_reclaimed}
use arnm.Memory.Machine.{Machine, Host, align8_u32, max_alloc_size}
use arnm.Memory.Arena.{Arena, is_reclaimable, account_capacity_exceeded, alloc_in_arena, pull_back}
use arnm.Memory.Api.{arena, reply, alloc, free}
use arnm.Memory.Bounds.{IsValid, align8_u32_bounds, align8_u32-pos}

module _ {H : Type 0} (os : Host H) (w : Machine H) {a : Arena} (v : IsValid a)
    (based : a.base ≢ 0) where
  -- an arena after a request of this many bytes was served
  abbrev pub bumped : ℕ → Arena
  bumped size = record a { last_index = a.last_index + align8_u32 size }

  pub alloc-fits :
      (b size : ℕ)
      → 0 < size
      → size ≤ max_alloc_size
      → align8_u32 size ≤ a.capacity - a.last_index
      → alloc os (some b) size (some (arena a)) w
        ≡ reply success (some (a.base + a.last_index)) (some (arena (bumped size))) w
  unfolding alloc alloc_in_arena account_capacity_exceeded
  alloc-fits b size pos small fits = ground (arith, align8_u32_bounds size, align8_u32-pos size)

  pub alloc-full :
      (b size : ℕ)
      → 0 < size
      → size ≤ max_alloc_size
      → a.capacity - a.last_index < align8_u32 size
      → alloc os (some b) size (some (arena a)) w
        ≡ reply error_out_of_memory
            (some b)
            (some (arena (account_capacity_exceeded (align8_u32 size) a).1))
            w
  unfolding alloc alloc_in_arena account_capacity_exceeded
  alloc-full b size pos small full = ground (arith, align8_u32_bounds size, align8_u32-pos size)

  -- Freeing a block that ends at the index takes it back; any other block is only warned about.
  pub free-lem :
      (p size : ℕ)
      → p ≢ 0
      → 0 < size
      → size ≤ max_alloc_size
      → p + align8_u32 size ≤ a.base + a.last_index
      → free os p size (some (arena a)) w ≡ (
          if p + align8_u32 size == a.base + a.last_index
          then (success, some (arena (pull_back (align8_u32 size) a)), w)
          else (warning_arena_memory_not_reclaimed, some (arena a), w))
  unfolding free is_reclaimable
  free-lem p size nz pos small within = ground (arith, align8_u32_bounds size, align8_u32-pos size)
