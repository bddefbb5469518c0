-- ===== src/Memory.antt =====
-- src/memory.c with include/arnm/memory.h, arena.h, multi_arena.h and src/memory_intern.h:
-- the allocator handle, a single arena, a chain of arenas, and the calls all of them answer.
pub mod Machine
pub mod Arena
pub mod Chain
pub mod Api
pub mod Realloc
pub mod Bounds
pub mod Session
pub mod Outcomes
pub mod Refusals
pub mod Resizing
pub mod Stacked
pub mod Safety
pub mod SafeResize
pub mod Runs
pub mod ChainScan
pub mod ChainAlloc
pub mod ChainGrowth
pub mod ChainOwner
mod Tests
