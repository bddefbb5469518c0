-- ===== src/Memory/Arena.antt =====
-- The single arena of src/memory.c: a bump index into one block.
use arnm.Base.{
  ℕ, ◌+◌, ◌-◌, ◌*◌, ◌/◌, Option, none, some, Bool, true, false, ltb, ◌==◌, not, ◌&&◌, ◌||◌,
  if◌then◌else◌, add32, sub32,
}
use arnm.Result.{
  Result, success, is_success, error_null_pointer, error_invalid_param, error_arithmetic_overflow,
  error_out_of_memory, error_invalid_state,
}
use arnm.Memory.Machine.{Machine, Host, align8_u32}

-- ARNM_ALLOC_TYPE_ARENA_OWNED and ARNM_ALLOC_TYPE_ARENA_EXTERNAL
pub data Kind : Type 0 where
  owned external : Kind

abbrev pub is_owned : Kind → Bool
is_owned owned = true
is_owned external = false

-- `arnm_intern` when its type says that it is a single arena.
pub record Arena : Type 0 where
  pub base : ℕ
  pub last_index : ℕ
  pub capacity : ℕ
  pub out_of_memory_capacity : ℕ
  pub kind : Kind

-- remaining_bytes
unfoldable pub remaining_bytes : Arena → ℕ
remaining_bytes a = sub32 a.capacity a.last_index

-- is_single_arena_reclaimable: is the block the most recent one?
unfoldable pub is_reclaimable : ℕ → ℕ → Arena → Bool
is_reclaimable buffer aligned a =
    not (buffer == 0) && not (aligned == 0) && ((a.base + a.last_index) - aligned == buffer)

-- account_capacity_exceeded, on an arena; UINT32_MAX is where the counter stays
unfoldable pub account_capacity_exceeded : ℕ → Arena → Bool × Arena
unfolding remaining_bytes
account_capacity_exceeded aligned a =
    if ltb (remaining_bytes a) aligned
    then (
      true,
      record a {
        out_of_memory_capacity =
            if ltb 4294967295 (a.out_of_memory_capacity + aligned)
            then 4294967295
            else a.out_of_memory_capacity + aligned;
      },
    )
    else (false, a)

-- arnm_reset, on an arena
unfoldable pub reset_arena : Arena → Arena
reset_arena a = record a { last_index = 0; out_of_memory_capacity = 0 }

-- What a call on an arena leaves behind: its answer, the caller's pointer, and the arena.
pub record Served : Type 0 where
  pub result : Result
  pub buffer : ℕ
  pub arena : Arena

-- arena_alloc_aligned, on an arena
unfoldable pub alloc_in_arena : ℕ → ℕ → Arena → Served
unfolding account_capacity_exceeded
alloc_in_arena buffer aligned a =
    if a.base == 0
    then record { result = error_invalid_state; buffer = buffer; arena = a }
    else let (exceeded, a') = account_capacity_exceeded aligned a in
      if exceeded
      then record { result = error_out_of_memory; buffer = buffer; arena = a' }
      else record {
        result = success;
        buffer = a.base + a.last_index;
        arena = record a { last_index = add32 a.last_index aligned };
      }

-- `last_index -= aligned`, where a block of this size is handed back
unfoldable pub pull_back : ℕ → Arena → Arena
pull_back aligned a = record a { last_index = sub32 a.last_index aligned }

-- The checks and the block of arnm_init_arena_borrow; `none` is a NULL handle.
unfoldable pub borrow_arena : ℕ → ℕ → Result × Option Arena
unfolding align8_u32
borrow_arena block capacity =
    if block == 0
    then (error_null_pointer, none)
    else if capacity == 0
    then (error_invalid_param, none)
    else if align8_u32 capacity == 0
    then (error_arithmetic_overflow, none)
    else if not (align8_u32 capacity == capacity) || not (((block + 7) / 8) * 8 == block)
    then (error_invalid_param, none)
    else (
      success,
      some record {
        base = block;
        last_index = 0;
        capacity = align8_u32 capacity;
        out_of_memory_capacity = 0;
        kind = external;
      },
    )

module _ {H : Type 0} (os : Host H) where
  -- The host path of arnm_alloc, which arnm_init_arena takes too: size is not 0 there.
  unfoldable pub alloc_default : ℕ → ℕ → Machine H → Result × ℕ × Machine H
  alloc_default buffer size w =
      let (answer, w') = os.malloc size w in
      elim answer [ none ↦ (error_out_of_memory, buffer, w') | some p ↦ (success, p, w') ]

  -- arnm_init_arena; the arena is `none` where the call leaves the handle as it was
  unfoldable pub init_arena : ℕ → Machine H → Result × Option Arena × Machine H
  unfolding alloc_default align8_u32 is_success
  init_arena capacity w =
      if capacity == 0
      then (error_invalid_param, none, w)
      else if align8_u32 capacity == 0
      then (error_arithmetic_overflow, none, w)
      else let (r, p, w') = alloc_default 0 (align8_u32 capacity) w in
        if is_success r
        then (
          success,
          some record {
            base = p;
            last_index = 0;
            capacity = align8_u32 capacity;
            out_of_memory_capacity = 0;
            kind = owned;
          },
          w',
        )
        else (r, none, w')

  -- arnm_release, on an arena: an owned block goes back to the host
  unfoldable pub release_arena : Arena → Machine H → Arena × Machine H
  unfolding reset_arena
  release_arena a w =
      if not (a.base == 0) && is_owned a.kind
      then (reset_arena (record a { base = 0; capacity = 0 }), os.free a.base w)
      else (reset_arena (record a { capacity = 0 }), w)
