-- ===== src/Memory/Realloc.antt =====
-- arnm_realloc and arnm_clone of src/memory.c.
use arnm.Base.{
  ℕ, ◌-◌, Option, none, some, ltb, leb, ◌==◌, not, ◌&&◌, ◌||◌, if◌then◌else◌, add32, get_elem?,
}
use arnm.Result.{
  success, is_success, error_null_pointer, error_invalid_param, error_out_of_memory,
  error_arithmetic_overflow, error_invalid_state, warning_arena_memory_not_reclaimed,
}
use arnm.Memory.Machine.{Machine, Host, align8_u32, memcpy}
use arnm.Memory.Arena.{Arena, remaining_bytes, is_reclaimable, account_capacity_exceeded, pull_back}
use arnm.Memory.Chain.{MultiArena, reopen}
use arnm.Memory.Api.{Arnm, arena, chain, Reply, reply, owner, put, alloc, free}

-- `last_index += additional`, where the tail stretches in place
unfoldable pub stretch : ℕ → Arena → Arena
stretch additional a = record a { last_index = add32 a.last_index additional }

module _ {H : Type 0} (os : Host H) where
  -- A buried block: growing takes a fresh block and leaves the old one, shrinking does nothing.
  unfoldable pub realloc_buried : ℕ → ℕ → ℕ → ℕ → Option Arnm → Machine H → Reply H
  unfolding is_success
  realloc_buried b old old_aligned new_aligned m w =
      if ltb old_aligned new_aligned
      then (let r = alloc os (some 0) new_aligned m w in
          if is_success r.result
          then elim r.buffer [
            | none ↦ reply error_invalid_state (some b) r.handle r.machine
            | some resized ↦ reply warning_arena_memory_not_reclaimed (some resized) r.handle (
                if not (b == 0) && not (old == 0)
                then memcpy resized b old r.machine
                else r.machine)
          ]
          else reply r.result (some b) r.handle r.machine)
      else reply warning_arena_memory_not_reclaimed (some b) m w

  -- The tail of a chain's arena that cannot stretch: a fresh block, then the old one handed back
  -- on the arena as it stands at its position after the allocation.
  unfoldable pub realloc_moved : ℕ → ℕ → ℕ → ℕ → ℕ → MultiArena → Machine H → Reply H
  unfolding is_success pull_back reopen
  realloc_moved i b old old_aligned new_aligned c w =
      let r = alloc os (some 0) new_aligned (some (chain c)) w in
      if is_success r.result
      then elim r.handle [
        | some (chain c') ↦ elim r.buffer [
          | none ↦ reply error_invalid_state (some b) r.handle r.machine
          | some moved ↦ elim (get_elem? c'.arenas i) [
            | none ↦ reply error_invalid_state (some b) r.handle r.machine
            | some a ↦
                let a' = pull_back old_aligned a in
                reply success (some moved) (some (chain (reopen i a' (put i a' c'))))
                  (memcpy moved b old r.machine)
          ]
        ]
        | _ ↦ reply error_invalid_state (some b) r.handle r.machine
      ]
      else reply r.result (some b) r.handle r.machine

  unfoldable pub realloc_in_arena : ℕ → ℕ → ℕ → ℕ → Arena → Machine H → Reply H
  unfolding is_reclaimable pull_back stretch account_capacity_exceeded realloc_buried
  realloc_in_arena b old old_aligned new_aligned a w =
      if is_reclaimable b old_aligned a
      then if ltb new_aligned old_aligned
        then reply success (some b) (some (arena (pull_back (old_aligned - new_aligned) a))) w
        else if leb (new_aligned - old_aligned) (remaining_bytes a)
        then reply success (some b) (some (arena (stretch (new_aligned - old_aligned) a))) w
        else reply error_out_of_memory (some b)
            (some (arena (account_capacity_exceeded (new_aligned - old_aligned) a).1)) w
      else realloc_buried b old old_aligned new_aligned (some (arena a)) w

  unfoldable pub realloc_in_chain : ℕ → ℕ → ℕ → ℕ → MultiArena → Machine H → Reply H
  unfolding is_reclaimable pull_back stretch reopen realloc_buried realloc_moved owner
  realloc_in_chain b old old_aligned new_aligned c w = elim (owner c b) [
    | none ↦
        if b == 0
        then realloc_buried b old old_aligned new_aligned (some (chain c)) w
        else reply error_invalid_param (some b) (some (chain c)) w
    | some (i, a) ↦
        if is_reclaimable b old_aligned a
        then (if ltb new_aligned old_aligned
            then (let a' = pull_back (old_aligned - new_aligned) a in
                reply success (some b) (some (chain (reopen i a' (put i a' c)))) w)
            else if leb (new_aligned - old_aligned) (remaining_bytes a)
            then reply success (some b)
                (some (chain (put i (stretch (new_aligned - old_aligned) a) c))) w
            else realloc_moved i b old old_aligned new_aligned c w)
        else realloc_buried b old old_aligned new_aligned (some (chain c)) w
  ]

  unfoldable pub realloc_default : ℕ → ℕ → Option Arnm → Machine H → Reply H
  realloc_default b new m w =
      let (answer, w') = os.realloc b new w in
      elim answer [
        | none ↦ reply error_out_of_memory (some b) m w'
        | some resized ↦ reply success (some resized) m w'
      ]

  unfoldable pub realloc_sized : ℕ → ℕ → ℕ → Option Arnm → Machine H → Reply H
  unfolding realloc_in_arena realloc_in_chain realloc_default align8_u32
  realloc_sized b old new (some (arena a)) w =
      realloc_in_arena b old (align8_u32 old) (align8_u32 new) a w
  realloc_sized b old new (some (chain c)) w =
      realloc_in_chain b old (align8_u32 old) (align8_u32 new) c w
  realloc_sized b old new m w = realloc_default b new m w

  -- arnm_realloc
  unfoldable pub realloc : Option ℕ → ℕ → ℕ → Option Arnm → Machine H → Reply H
  unfolding realloc_sized free align8_u32
  realloc none old new m w = reply error_null_pointer none m w
  realloc (some b) old new m w =
      if (not (new == 0) && align8_u32 new == 0) || (not (old == 0) && align8_u32 old == 0)
      then reply error_arithmetic_overflow (some b) m w
      else if align8_u32 new == 0
      then (let (r, m', w') = free os b (align8_u32 old) m w in
          reply r (if is_success r then some 0 else some b) m' w')
      else if not (b == 0) && old == new
      then reply success (some b) m w
      else realloc_sized b old new m w

  -- arnm_clone
  unfoldable pub clone : Option ℕ → ℕ → ℕ → Option Arnm → Machine H → Reply H
  unfolding alloc is_success
  clone none src size m w = reply error_null_pointer none m w
  clone (some b) src size m w =
      if src == 0
      then reply error_null_pointer (some b) m w
      else if size == 0
      then reply error_invalid_param (some b) m w
      else let r = alloc os (some b) size m w in
        if is_success r.result
        then elim r.buffer [
          | none ↦ r
          | some dst ↦ reply r.result (some dst) r.handle (memcpy dst src size r.machine)
        ]
        else r
