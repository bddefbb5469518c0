-- ===== src/GradedBlockPool.antt =====
-- include/arnm/graded_block_pool.h and src/graded_block_pool.c: a chain of arenas cut into blocks of
-- powers of two, with a free list per grade; here its calls by exponent, and what they stand on. A
-- counter is a uint64_t, written with its wrap.
use arnm.Base.{
  ℕ, zero, suc, ◌+◌, ◌-◌, ◌*◌, ◌/◌, ◌%◌, ◌^◌, Option, none, some, List, true, false, ltb, ◌==◌, not,
  if◌then◌else◌, get_or, set,
}
use arnm.Result.{
  Result, success, is_success, error_not_initialized, error_invalid_state,
  error_resource_size_exceed,
}
use arnm.Memory.Machine.{Machine, Host, align8_u32}
use arnm.Memory.Arena.{Arena, remaining_bytes, alloc_in_arena, borrow_arena}
use arnm.Memory.Api.{Arnm, alloc}
pub mod Chained
pub mod Open
pub mod Served
pub mod Returned
pub mod Examples
mod Tests

-- `arnm_graded_block_pool`; `current` is the arena that blocks are cut from, without bytes while
-- there is none
pub record GradedBlockPool : Type 0 where
  pub source : Option Arnm
  pub lent_bytes : ℕ
  pub cached_bytes : ℕ
  pub min_log2 : ℕ
  pub max_log2 : ℕ
  pub arena_capacity : ℕ
  pub free_head : List ℕ
  pub current : Arena

-- A pool with the memory it works on. `links` is the pointer in the first eight bytes of a block.
pub record Pooled (H : Type 0) : Type 0 where
  pub pool : GradedBlockPool
  pub links : ℕ → ℕ
  pub machine : Machine H

-- What a request leaves; `block` is 0 where the code leaves the caller's pointer alone.
pub record Allotted (H : Type 0) : Type 0 where
  pub result : Result
  pub block : ℕ
  pub state : Pooled H

abbrev pub add64 : ℕ → ℕ → ℕ
add64 a b = (a + b) % 18446744073709551616

abbrev pub sub64 : ℕ → ℕ → ℕ
sub64 a b = (a + 18446744073709551616 - b) % 18446744073709551616

-- the first free block of a grade
abbrev pub head_of : GradedBlockPool → ℕ → ℕ
head_of p log2 = get_or p.free_head (log2 - p.min_log2) 0

abbrev pub raise_log2 : GradedBlockPool → ℕ → ℕ
raise_log2 p log2 = if ltb log2 p.min_log2 then p.min_log2 else log2

-- what arnm_init_arena_borrow leaves of the current arena
abbrev pub borrowed_or : Option Arena → Arena → Arena
borrowed_or none a = a
borrowed_or (some fresh) a = fresh

abbrev pub address_or_null : Option ℕ → ℕ
address_or_null none = 0
address_or_null (some p) = p

module _ {H : Type 0} where
  -- push_free
  unfoldable pub push_free : ℕ → ℕ → Pooled H → Pooled H
  push_free block log2 s = record s {
    pool = record s.pool {
      free_head = set s.pool.free_head (log2 - s.pool.min_log2) block;
      cached_bytes = add64 s.pool.cached_bytes (2 ^ log2);
    };
    links = λ p. if p == block then head_of s.pool log2 else s.links p;
  }

  -- the part of arnm_graded_block_pool_alloc_log2 that takes the head of its list, when there is one
  unfoldable pub pop_head : ℕ → Pooled H → Allotted H
  pop_head log2 s =
      let block = head_of s.pool log2 in
      record {
        result = success;
        block = block;
        state = record s {
          pool = record s.pool {
            free_head = set s.pool.free_head (log2 - s.pool.min_log2) (s.links block);
            cached_bytes = sub64 s.pool.cached_bytes (2 ^ log2);
            lent_bytes = add64 s.pool.lent_bytes (2 ^ log2);
          };
        };
      }

  -- One call of arnm_alloc on the current arena, for 2 ^ log2 bytes.
  unfoldable pub cut_current : ℕ → Pooled H → ℕ × Pooled H
  cut_current log2 s =
      let served = alloc_in_arena 0 (align8_u32 (2 ^ log2)) s.pool.current in
      (served.buffer, record s { pool = record s.pool { current = served.arena } })

  -- the end of arnm_graded_block_pool_alloc_fresh: a block off the current arena
  unfoldable pub lend_fresh : ℕ → Pooled H → Allotted H
  lend_fresh log2 s =
      let (block, s') = cut_current log2 s in
      record {
        result = success;
        block = block;
        state = record s' {
          pool = record s'.pool { lent_bytes = add64 s'.pool.lent_bytes (2 ^ log2) };
        };
      }

  -- The inner loop of split_current, which runs once per whole piece of what is left.
  unfoldable pub split_pieces : ℕ → ℕ → Pooled H → Pooled H
  split_pieces zero log2 s = s
  split_pieces (suc pieces) log2 s =
      let (piece, s') = cut_current log2 s in split_pieces pieces log2 (push_free piece log2 s')

  -- Its outer loop, from the largest of `grades` grades down, with `left` bytes left.
  unfoldable pub split_grades : (grades left : ℕ) → Pooled H → Pooled H
  split_grades zero left s = s
  split_grades (suc grades) left s =
      let log2 = s.pool.min_log2 + grades in
      let rest = split_grades grades (left % 2 ^ log2) (split_pieces (left / 2 ^ log2) log2 s) in
      if ltb left (2 ^ s.pool.min_log2) then s else rest

  -- split_current
  unfoldable pub split_current : Pooled H → Pooled H
  split_current s =
      split_grades (suc s.pool.max_log2 - s.pool.min_log2) (remaining_bytes s.pool.current) s

  -- arnm_graded_block_pool_free_log2
  unfoldable pub free_log2 : ℕ → ℕ → Pooled H → Result × Pooled H
  free_log2 buffer log2 s =
      let grade = raise_log2 s.pool log2 in
      if buffer == 0
      then (success, s)
      else if ltb s.pool.max_log2 log2
      then (error_resource_size_exceed, s)
      else if ltb s.pool.lent_bytes (2 ^ grade)
      then (error_invalid_state, s)
      else let pushed = push_free buffer grade s in
        (
          success,
          record pushed {
            pool = record pushed.pool { lent_bytes = sub64 s.pool.lent_bytes (2 ^ grade) };
          },
        )

module _ {H : Type 0} (os : Host H) where
  -- next_arena
  unfoldable pub next_arena : Pooled H → Result × Pooled H
  next_arena s =
      let capacity = s.pool.arena_capacity in
      let r = alloc os (some 0) capacity s.pool.source s.machine in
      let asked = record s { pool = record s.pool { source = r.handle }; machine = r.machine } in
      let cut = split_current asked in
      if is_success r.result
      then (
        success,
        record cut {
          pool = record cut.pool {
            current =
                borrowed_or (borrow_arena (address_or_null r.buffer) capacity).1 cut.pool.current;
          };
        },
      )
      else (r.result, asked)

  -- arnm_graded_block_pool_alloc_fresh, on the source of the pool; where it calls
  -- arnm_graded_block_pool_alloc_log2 back, the grade is within bounds and its list is not empty
  unfoldable pub alloc_sourced : Option Arnm → ℕ → Pooled H → Allotted H
  alloc_sourced none log2 s = record { result = error_not_initialized; block = 0; state = s }
  alloc_sourced (some m) log2 s =
      let (r, s') = next_arena s in
      if not (ltb (remaining_bytes s.pool.current) (2 ^ log2))
      then lend_fresh log2 s
      else if not (is_success r)
      then record { result = r; block = 0; state = s' }
      else if head_of s'.pool log2 == 0
      then lend_fresh log2 s'
      else pop_head log2 s'

  abbrev pub alloc_fresh : ℕ → Pooled H → Allotted H
  alloc_fresh log2 s = alloc_sourced s.pool.source log2 s

  -- arnm_graded_block_pool_alloc_log2
  unfoldable pub alloc_log2 : ℕ → Pooled H → Allotted H
  alloc_log2 log2 s =
      let grade = raise_log2 s.pool log2 in
      if ltb s.pool.max_log2 log2
      then record { result = error_resource_size_exceed; block = 0; state = s }
      else if head_of s.pool grade == 0
      then alloc_fresh grade s
      else pop_head grade s
