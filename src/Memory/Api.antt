-- ===== src/Memory/Api.antt =====
-- The calls of include/arnm/memory.h that every allocator answers, over the three kinds of handle.
-- `none` stands for a NULL handle and for a NULL `buffer`; a buffer is the caller's pointer cell.
use arnm.Base.{
  ℕ, Option, none, some, Bool, true, false, ◌==◌, not, ◌&&◌, if◌then◌else◌, get_elem?, set, map,
}
use arnm.Result.{
  Result, success, error_null_pointer, error_invalid_param, error_arithmetic_overflow,
  warning_arena_memory_not_reclaimed,
}
use arnm.Memory.Machine.{Machine, Host, align8_u32}
use arnm.Memory.Arena.{
  Arena, remaining_bytes, is_reclaimable, alloc_in_arena, pull_back, alloc_default, reset_arena,
}
use arnm.Memory.Chain.{MultiArena, find_owner, reopen, multi_arena_alloc}

-- `arnm`: a zeroed handle is the host allocator.
pub data Arnm : Type 0 where
  default : Arnm
  arena : Arena → Arnm
  chain : MultiArena → Arnm

-- What a call leaves behind.
pub record Reply (H : Type 0) : Type 0 where
  pub result : Result
  pub buffer : Option ℕ
  pub handle : Option Arnm
  pub machine : Machine H

abbrev pub reply : {H : Type 0} → Result → Option ℕ → Option Arnm → Machine H → Reply H
reply r b m w = record { result = r; buffer = b; handle = m; machine = w }

-- The arena that would answer for a block, with its position in a chain.
owner_at : MultiArena → Option ℕ → Option (ℕ × Arena)
owner_at c none = none
owner_at c (some i) = elim (get_elem? c.arenas i) [ none ↦ none | some a ↦ some (i, a) ]

unfoldable pub owner : MultiArena → ℕ → Option (ℕ × Arena)
unfolding owner_at
owner c buffer = owner_at c (find_owner c buffer)

-- a change of one arena of a chain, through its pointer
abbrev pub put : ℕ → Arena → MultiArena → MultiArena
put i a c = record c { arenas = set c.arenas i a }

-- arnm_arena_remaining
unfoldable pub arena_remaining : Option Arnm → ℕ
arena_remaining none = 0
arena_remaining (some default) = 0
arena_remaining (some (arena a)) = remaining_bytes a
arena_remaining (some (chain c)) = 0

-- arnm_arena_overflow_total
unfoldable pub arena_overflow_total : Option Arnm → ℕ
arena_overflow_total none = 0
arena_overflow_total (some default) = 0
arena_overflow_total (some (arena a)) = a.out_of_memory_capacity
arena_overflow_total (some (chain c)) = 0

-- arnm_reset
unfoldable pub reset : Option Arnm → Option Arnm
reset none = none
reset (some default) = some default
reset (some (arena a)) = some (arena (reset_arena a))
reset (some (chain c)) =
    some (chain (record c { arenas = map reset_arena c.arenas; first_open = 0 }))

module _ {H : Type 0} (os : Host H) where
  -- arnm_alloc behind its checks, with arena_alloc_aligned below it
  alloc_sized : ℕ → ℕ → Option Arnm → Machine H → Reply H
  unfolding align8_u32
  alloc_sized b size (some (arena a)) w =
      if align8_u32 size == 0
      then reply error_arithmetic_overflow (some b) (some (arena a)) w
      else let served = alloc_in_arena b (align8_u32 size) a in
        reply served.result (some served.buffer) (some (arena served.arena)) w
  alloc_sized b size (some (chain c)) w =
      if align8_u32 size == 0
      then reply error_arithmetic_overflow (some b) (some (chain c)) w
      else let r = multi_arena_alloc os (align8_u32 size) b c w in
        reply r.result (some r.buffer) (some (chain r.chain)) r.machine
  alloc_sized b size m w = let (r, p, w') = alloc_default os b size w in reply r (some p) m w'

  -- arnm_alloc
  unfoldable pub alloc : Option ℕ → ℕ → Option Arnm → Machine H → Reply H
  unfolding alloc_sized
  alloc none size m w = reply error_null_pointer none m w
  alloc (some b) size m w =
      if size == 0 then reply error_invalid_param (some b) m w else alloc_sized b size m w

  free_sized : ℕ → ℕ → Option Arnm → Machine H → Result × Option Arnm × Machine H
  unfolding owner is_reclaimable pull_back reopen
  free_sized buffer aligned (some (arena a)) w =
      if is_reclaimable buffer aligned a
      then (success, some (arena (pull_back aligned a)), w)
      else (warning_arena_memory_not_reclaimed, some (arena a), w)
  free_sized buffer aligned (some (chain c)) w = elim (owner c buffer) [
    | none ↦
        if buffer == 0
        then (warning_arena_memory_not_reclaimed, some (chain c), w)
        else (error_invalid_param, some (chain c), w)
    | some (i, a) ↦
        if is_reclaimable buffer aligned a
        then (
          success,
          some (chain (reopen i (pull_back aligned a) (put i (pull_back aligned a) c))),
          w,
        )
        else (warning_arena_memory_not_reclaimed, some (chain c), w)
  ]
  free_sized buffer aligned m w = (success, m, os.free buffer w)

  is_arena : Option Arnm → Bool
  is_arena none = false
  is_arena (some default) = false
  is_arena (some (arena a)) = true
  is_arena (some (chain c)) = true

  -- arnm_free
  unfoldable pub free : ℕ → ℕ → Option Arnm → Machine H → Result × Option Arnm × Machine H
  unfolding free_sized is_arena align8_u32
  free buffer size m w =
      if is_arena m && (not (size == 0) && align8_u32 size == 0)
      then (error_arithmetic_overflow, m, w)
      else free_sized buffer (align8_u32 size) m w
