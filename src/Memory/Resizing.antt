-- ===== src/Memory/Resizing.antt =====
-- What arnm_realloc (src/memory.c) does to a block of an arena, case by case.
use arnm.Base.{ℕ, ◌+◌, ◌-◌, ◌%◌, ◌≤◌, ◌<◌, some, ◌==◌, ◌≡◌, ◌≢◌, arith}
use arnm.Result.{success, is_success, error_out_of_memory, warning_arena_memory_not_reclaimed}
use arnm.Memory.Machine.{Machine, Host, align8_u32, max_alloc_size, memcpy}
use arnm.Memory.Arena.{Arena, is_reclaimable, account_capacity_exceeded, pull_back}
use arnm.Memory.Api.{arena, reply}
use arnm.Memory.Realloc.{realloc, realloc_in_arena, realloc_buried, stretch}
use arnm.Memory.Bounds.{IsValid, align8_u32-pos, align8_u32_self, remaining_bytes-eq-sub}
use arnm.Memory.Outcomes.{alloc-fits, alloc-full}

is_reclaimable-eq :
    (p aligned : ℕ) (a : Arena)
    → p ≢ 0
    → 0 < aligned
    → is_reclaimable p aligned a ≡ (p + aligned == a.base + a.last_index)
unfolding is_reclaimable
is_reclaimable-eq p aligned a nz pos = ground arith

module _ {H : Type 0} (os : Host H) (w : Machine H) {a : Arena} (v : IsValid a) (p : ℕ)
    (nz : p ≢ 0) where
  -- behind the checks of arnm_realloc
  pub realloc-enter :
      (old new : ℕ)
      → 0 < old
      → old ≤ max_alloc_size
      → 0 < new
      → new ≤ max_alloc_size
      → old ≢ new
      → realloc os (some p) old new (some (arena a)) w
        ≡ realloc_in_arena os p old (align8_u32 old) (align8_u32 new) a w
  unfolding realloc
  realloc-enter old new op os' np ns ne = ground (arith, align8_u32-pos old, align8_u32-pos new)

  -- the same size again is nothing to do
  pub realloc_same :
      (old new : ℕ)
      → 0 < old
      → old ≤ max_alloc_size
      → old ≡ new
      → realloc os (some p) old new (some (arena a)) w ≡ reply success (some p) (some (arena a)) w
  unfolding realloc
  realloc_same old new pos small same = rw (← same) (ground (arith, align8_u32-pos old))

  module _ (old old_aligned new_aligned : ℕ) (old_pos : 0 < old_aligned) where
    pub resize-tail :
        p + old_aligned ≡ a.base + a.last_index
        → a.base ≤ p
        → 0 < new_aligned
        → p + new_aligned ≤ a.base + a.capacity
        → realloc_in_arena os p old old_aligned new_aligned a w
          ≡ reply success
              (some p)
              (some (arena (record a { last_index = p + new_aligned - a.base })))
              w
    unfolding realloc_in_arena pull_back stretch
    resize-tail tail above pos fits =
        rw (is_reclaimable-eq p old_aligned a nz old_pos, remaining_bytes-eq-sub v) (ground arith)

    pub resize-tail_full :
        p + old_aligned ≡ a.base + a.last_index
        → a.base + a.capacity < p + new_aligned
        → realloc_in_arena os p old old_aligned new_aligned a w
          ≡ reply error_out_of_memory
              (some p)
              (some (arena (account_capacity_exceeded (new_aligned - old_aligned) a).1))
              w
    unfolding realloc_in_arena
    resize-tail_full tail full =
        rw (is_reclaimable-eq p old_aligned a nz old_pos, remaining_bytes-eq-sub v) (ground arith)

    resize-buried :
        p + old_aligned < a.base + a.last_index
        → realloc_in_arena os p old old_aligned new_aligned a w
          ≡ realloc_buried os p old old_aligned new_aligned (some (arena a)) w
    unfolding realloc_in_arena
    resize-buried buried = rw (is_reclaimable-eq p old_aligned a nz old_pos) (ground arith)

    pub resize-buried_small :
        p + old_aligned < a.base + a.last_index
        → new_aligned ≤ old_aligned
        → realloc_in_arena os p old old_aligned new_aligned a w
          ≡ reply warning_arena_memory_not_reclaimed (some p) (some (arena a)) w
    unfolding realloc_buried
    resize-buried_small buried small = rw (resize-buried buried) (ground arith)

    module _ (based : a.base ≢ 0) (grows : old_aligned < new_aligned) (grid : new_aligned % 8 ≡ 0)
        (fit32 : new_aligned ≤ max_alloc_size) where
      pub resize-buried_grow :
          p + old_aligned < a.base + a.last_index
          → 0 < old
          → new_aligned ≤ a.capacity - a.last_index
          → realloc_in_arena os p old old_aligned new_aligned a w
            ≡ reply warning_arena_memory_not_reclaimed
                (some (a.base + a.last_index))
                (some (arena (record a { last_index = a.last_index + new_aligned })))
                (memcpy (a.base + a.last_index) p old w)
      unfolding realloc_buried is_success
      resize-buried_grow buried pos fits =
          rw (resize-buried buried)
            (ground (arith, align8_u32_self new_aligned, alloc-fits os w v based 0 new_aligned))

      pub resize-buried_full :
          p + old_aligned < a.base + a.last_index
          → a.capacity - a.last_index < new_aligned
          → realloc_in_arena os p old old_aligned new_aligned a w
            ≡ reply error_out_of_memory
                (some p)
                (some (arena (account_capacity_exceeded new_aligned a).1))
                w
      unfolding realloc_buried is_success
      resize-buried_full buried full =
          rw (resize-buried buried)
            (ground (arith, align8_u32_self new_aligned, alloc-full os w v based 0 new_aligned))
