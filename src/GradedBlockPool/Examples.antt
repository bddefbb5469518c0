-- ===== src/GradedBlockPool/Examples.antt =====
-- A graded block pool (src/graded_block_pool.c) of 8 to 64 byte blocks on a concrete chain.
use arnm.Base.{ℕ, ◌+◌, ◌*◌, ◌≡◌, refl, [], some, inl, arith, replicate}
use arnm.Result.{success}
use arnm.Memory.Machine.{Host}
use arnm.Memory.Arena.{Kind, remaining_bytes}
use arnm.Memory.Chain.{MultiArena}
use arnm.Memory.Api.{chain}
use arnm.Memory.ChainScan.{IsChain}
use arnm.Memory.ChainGrowth.{MallocAligned}
use arnm.GradedBlockPool.{Pooled}
use arnm.GradedBlockPool.Open.{IsOpen}

-- A host whose heap is the number of 4096 byte pages it has given out.
abbrev pub pages : Host ℕ
pages = record {
  malloc = λ n w. (some ((w.heap + 1) * 4096), record w { heap = w.heap + 1 });
  free = λ p w. w;
  realloc = λ p n w. (some ((w.heap + 1) * 4096), record w { heap = w.heap + 1 });
  vector_room = λ n w. (success, w);
  vector_reserve = λ n w. (success, w);
  vector_shrink = λ n w. (success, w);
}

pub pages_aligned : MallocAligned pages
pages_aligned n p w w' e = ground arith

abbrev no_arenas : MultiArena
no_arenas = record {
  arenas = [];
  arena_capacity = 128;
  arena_max_count = 0;
  full_remaining = 7;
  first_open = 0;
}

no_arenas-IsChain : IsChain no_arenas
no_arenas-IsChain = record {
  arenas_valid = λ i a e. absurd (ground arith);
  closed = λ i a lt e. absurd (ground arith);
  marked = omega arith;
}

-- A pool as arnm_graded_block_pool_init leaves it: its chain has no arena yet.
abbrev pub fresh_pool : Pooled ℕ
fresh_pool = record {
  pool = record {
    source = some (chain no_arenas);
    lent_bytes = 0;
    cached_bytes = 0;
    min_log2 = 3;
    max_log2 = 6;
    arena_capacity = 128;
    free_head = replicate {A = ℕ} 29 0;
    current = record {
      base = 0;
      last_index = 0;
      capacity = 0;
      out_of_memory_capacity = 0;
      kind = Kind.external;
    };
  };
  links = λ p. 0;
  machine = record { bytes = λ p. 0; heap = 0 };
}

pub fresh_pool-IsOpen : IsOpen fresh_pool.pool
unfolding remaining_bytes
fresh_pool-IsOpen = record {
  sourced = λ m e. record {
    links = no_arenas;
    is_links = let same : chain no_arenas ≡ m = ground arith in rw (← same) refl;
    in_order = no_arenas-IsChain;
    capacity_small = omega arith;
  };
  least = omega arith;
  graded = omega arith;
  most = omega arith;
  largest_fits = omega arith;
  on_grid = refl;
  small = omega arith;
  current_there = inl refl;
}
