-- ===== src/GradedBlockPool/Tests.antt =====
-- The calls by exponent of src/graded_block_pool.c on a concrete pool, and each theorem about them.
use arnm.Base.{ℕ, ◌≡◌, refl, ◌∷◌, replicate}
use arnm.Result.{is_success}
use arnm.Memory.Machine.{align8_u32}
use arnm.Memory.Arena.{alloc_in_arena, borrow_arena, init_arena, remaining_bytes}
use arnm.Memory.Chain.{multi_arena_alloc}
use arnm.Memory.Api.{alloc}
use arnm.GradedBlockPool.{
  Pooled, alloc_log2, alloc_sourced, next_arena, split_current, split_grades, split_pieces,
  cut_current, lend_fresh, push_free,
}
use arnm.GradedBlockPool.Examples.{pages, fresh_pool}

-- The first block is the start of the arena, which the chain's own first arena holds.
first_block : (alloc_log2 pages 4 fresh_pool).block ≡ 4096
unfolding alloc_log2 alloc_sourced next_arena alloc is_success borrow_arena align8_u32 lend_fresh
    cut_current alloc_in_arena split_current split_grades remaining_bytes multi_arena_alloc
    init_arena
first_block = refl

-- A second arena for a block of 64 bytes, after 16 and 64 of 128: what is left of the first one, 48
-- bytes, goes to the lists of 32 and of 16 bytes.
abbrev two_blocks : Pooled ℕ
two_blocks = (alloc_log2 pages 6 (alloc_log2 pages 4 fresh_pool).state).state

split_rest :
    (alloc_log2 pages 6 two_blocks).state.pool.free_head ≡ 0 ∷ 4208 ∷ 4176 ∷ replicate {A = ℕ} 26 0
unfolding alloc_log2 alloc_sourced next_arena alloc is_success borrow_arena align8_u32 lend_fresh
    cut_current alloc_in_arena split_current split_grades split_pieces push_free remaining_bytes
    multi_arena_alloc init_arena
split_rest = refl
