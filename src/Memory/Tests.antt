-- ===== src/Memory/Tests.antt =====
-- The allocator of src/memory.c on concrete arenas, and each theorem about it at one of them.
use arnm.Base.{
  ℕ, zero, suc, ◌+◌, ◌*◌, ◌%◌, ◌≤◌, ◌<◌, ◌≡◌, ◌≢◌, ◌⊎◌, refl, List, [], ◌∷◌, some, true, arith,
  get_elem?, length, min,
}
use arnm.Result.{success, is_success, error_out_of_memory}
use arnm.Memory.Machine.{Machine, Host, align8_u32}
use arnm.Memory.Arena.{
  Arena, Kind, borrow_arena, alloc_in_arena, remaining_bytes, is_reclaimable,
  account_capacity_exceeded,
}
use arnm.Memory.Chain.{MultiArena, find_owner, multi_arena_alloc}
use arnm.Memory.Api.{Arnm, alloc, free}
use arnm.Memory.Realloc.{realloc, realloc_sized, realloc_in_arena}
use arnm.Memory.Refusals.{realloc-refused}
use arnm.Memory.Bounds.{IsValid, align8_u32-ceiling}
use arnm.Memory.Session.{Session, Call, run, step, allocate_step, resize_step}
use arnm.Memory.Stacked.{end_of}
use arnm.Memory.Safety.{IsSafe}
use arnm.Memory.Runs.{run-disjoint, free-alloc, realloc_contents, read}
use arnm.Memory.ChainScan.{IsChain}
use arnm.Memory.ChainAlloc.{Serves}
use arnm.Memory.ChainGrowth.{MallocAligned, multi_arena_alloc-Serves, multi_arena_alloc-room}
use arnm.Memory.ChainOwner.{find_owner-some, find_owner-none, free-IsChain}

-- A host whose heap is the number of 4096 byte pages it has given out.
abbrev pages : Host ℕ
pages = record {
  malloc = λ n w. (some ((w.heap + 1) * 4096), record w { heap = w.heap + 1 });
  free = λ p w. w;
  realloc = λ p n w. (some ((w.heap + 1) * 4096), record w { heap = w.heap + 1 });
  vector_room = λ n w. (success, w);
  vector_reserve = λ n w. (success, w);
  vector_shrink = λ n w. (success, w);
}

abbrev machine : Machine ℕ
machine = record { bytes = λ p. p % 256; heap = 0 }

abbrev empty_arena : Arena
empty_arena = record {
  base = 4096;
  last_index = 0;
  capacity = 64;
  out_of_memory_capacity = 0;
  kind = Kind.owned;
}

abbrev used_arena : Arena
used_arena = record empty_arena { last_index = 32 }

abbrev start : Session ℕ
start = record { arena = empty_arena; machine = machine; live = [] }

abbrev two_blocks : List Call
two_blocks = Call.allocate 10 ∷ Call.allocate 20 ∷ Call.resize 1 17 ∷ []

-- Growing the lower of two blocks moves it to the end of the arena.
two_blocks_live :
    (run pages two_blocks start).live
    ≡ record { addr = 4136; size = 17 } ∷ record { addr = 4112; size = 20 } ∷ []
unfolding run step allocate_step resize_step alloc realloc is_success alloc_in_arena
two_blocks_live = refl

empty_arena-IsValid : IsValid empty_arena
empty_arena-IsValid = omega arith

used_arena-IsValid : IsValid used_arena
used_arena-IsValid = omega arith

start-IsSafe : IsSafe start
start-IsSafe = ground arith

run-disjoint_example :
    let a = (run pages two_blocks start).arena in
    (a.base ≤ 4136)
    × (end_of (record { addr = 4136; size = 17 }) ≤ a.base + a.last_index)
    × (a.last_index ≤ a.capacity)
    × ((end_of (record { addr = 4136; size = 17 }) ≤ 4112)
        ⊎ (end_of (record { addr = 4112; size = 20 }) ≤ 4136))
run-disjoint_example =
    run-disjoint pages two_blocks start start-IsSafe 0 1 {x = record { addr = 4136; size = 17 }}
      {y = record { addr = 4112; size = 20 }} (rw two_blocks_live refl) (rw two_blocks_live refl)
      (omega arith)

realloc_contents_example :
    let r = realloc pages (some 4096) 5 100 (some (Arnm.arena used_arena)) machine in
    (q : ℕ) × (r.buffer ≡ some q)
    × (read (min 5 100) q r.machine.bytes ≡ read (min 5 100) 4096 machine.bytes)
    × (read used_arena.last_index used_arena.base r.machine.bytes
        ≡ read used_arena.last_index used_arena.base machine.bytes)
realloc_contents_example =
    realloc_contents pages machine used_arena-IsValid (omega arith) 4096 5 100 (omega arith)
      (omega arith) (omega arith) (unfold align8_u32 in omega arith) (omega arith) (omega arith)

free-alloc_example :
    let r = alloc pages (some 0) 12 (some (Arnm.arena used_arena)) machine in
    free pages (4096 + 32) 12 r.handle r.machine ≡ (success, some (Arnm.arena used_arena), machine)
free-alloc_example =
    free-alloc pages machine used_arena-IsValid (omega arith) 0 12 (omega arith) (omega arith)
      (unfold align8_u32 in omega arith)

align8_u32-ceiling_example :
    (align8_u32 13 % 8 ≡ 0) × (13 ≤ align8_u32 13) × (align8_u32 13 < 13 + 8)
align8_u32-ceiling_example = align8_u32-ceiling 13 (omega arith)

abbrev lent_arena : Arena
lent_arena = record empty_arena { kind = Kind.external }

lent : borrow_arena 4096 64 ≡ (success, some lent_arena)
unfolding borrow_arena align8_u32
lent = refl

-- A chain whose first arena is full; the marker is past it.
abbrev full_arena : Arena
full_arena = record empty_arena { last_index = 64 }

abbrev open_arena : Arena
open_arena = record empty_arena { base = 8192; last_index = 16 }

abbrev two_arenas : MultiArena
two_arenas = record {
  arenas = full_arena ∷ open_arena ∷ [];
  arena_capacity = 64;
  arena_max_count = 0;
  full_remaining = 0;
  first_open = 1;
}

two_arenas-IsValid :
    (i : ℕ) (a : Arena) → get_elem? two_arenas.arenas i ≡ some a → IsValid a × (a.base ≢ 0)
two_arenas-IsValid zero a e = ground arith
two_arenas-IsValid (suc zero) a e = ground arith
two_arenas-IsValid (suc (suc i)) a e = absurd (ground arith)

two_arenas_closed :
    (i : ℕ) (a : Arena) → i < 1 → get_elem? two_arenas.arenas i ≡ some a → remaining_bytes a ≤ 0
unfolding remaining_bytes
two_arenas_closed zero a lt e = ground arith
two_arenas_closed (suc i) a lt e = absurd (omega arith)

two_arenas-IsChain : IsChain two_arenas
two_arenas-IsChain = record {
  arenas_valid = two_arenas-IsValid;
  closed = two_arenas_closed;
  marked = omega arith;
}

pages_aligned : MallocAligned pages
pages_aligned n p w w' e = ground arith

multi_arena_alloc-Serves_example : Serves 0 56 (multi_arena_alloc pages 56 0 two_arenas machine)
multi_arena_alloc-Serves_example =
    multi_arena_alloc-Serves pages pages_aligned 56 0 two_arenas machine (omega arith) (omega arith)
      (omega arith) two_arenas-IsChain

find_owner-some_example :
    (a : Arena) × (get_elem? two_arenas.arenas 0 ≡ some a)
    × (a.base ≤ 4100)
    × (4100 < a.base + a.capacity)
find_owner-some_example =
    find_owner-some two_arenas 4100 0 (omega arith) (unfold find_owner in refl)

find_owner-none_example : (6000 < 8192) ⊎ (8192 + 64 ≤ 6000)
find_owner-none_example =
    find_owner-none two_arenas 6000 1 (omega arith) (unfold find_owner in refl) refl (omega arith)

free-IsChain_example :
    (m' : MultiArena) × ((free pages 4152 8 (some (Arnm.chain two_arenas)) machine).1
      ≡ some (Arnm.chain m'))
    × IsChain m'
free-IsChain_example =
    free-IsChain pages 4152 8 two_arenas machine (omega arith) (omega arith) two_arenas-IsChain

-- Freeing the newest block of the full arena brings the marker back to it.
reopened :
    (free pages 4152 8 (some (Arnm.chain two_arenas)) machine).1
    ≡ some (
        Arnm.chain (record two_arenas {
          arenas = record full_arena { last_index = 56 } ∷ open_arena ∷ [];
          first_open = 0;
        }))
unfolding free find_owner remaining_bytes
reopened = refl

multi_arena_alloc-room_example :
    let r = multi_arena_alloc pages 40 0 two_arenas machine in
    (is_success r.result ≡ true) × (r.machine ≡ machine) × (length r.chain.arenas ≡ 2)
multi_arena_alloc-room_example =
    multi_arena_alloc-room pages 40 0 two_arenas machine 1 (omega arith) (omega arith)
      two_arenas-IsChain refl (unfold remaining_bytes in omega arith)
      (unfold remaining_bytes in omega arith)

-- a block at the end of an arena that has no room for 100 bytes
realloc_refused_answer :
    (realloc pages (some 4096) 32 100 (some (Arnm.arena used_arena)) machine).result
    ≡ error_out_of_memory
unfolding realloc realloc_sized realloc_in_arena is_reclaimable account_capacity_exceeded align8_u32
realloc_refused_answer = refl

realloc-refused_example :
    (realloc pages (some 4096) 32 100 (some (Arnm.arena used_arena)) machine).buffer ≡ some 4096
realloc-refused_example =
    realloc-refused pages 4096 32 100 (some (Arnm.arena used_arena)) machine
      (λ e. absurd (ground (arith, realloc_refused_answer, e)))
      (λ e. absurd (ground (arith, realloc_refused_answer, e)))
