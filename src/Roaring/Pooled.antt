-- ===== src/Roaring/Pooled.antt =====
-- The graded block pool of src/graded_block_pool.c as the pool under the sets.
use arnm.Base.{inl, inr, arith}
use arnm.Memory.Machine.{Host}
use arnm.Memory.ChainGrowth.{MallocAligned}
use arnm.GradedBlockPool.{Pooled, alloc_log2, free_log2}
use arnm.GradedBlockPool.Open.{IsOpen, free_log2-IsOpen}
use arnm.GradedBlockPool.Served.{alloc_log2-Lends}
use arnm.Roaring.Pool.{BlockPool, IsLending}

module _ {H : Type 0} (os : Host H) (grid : MallocAligned os) where
  -- its calls by exponent, on the pools that are in order, which they keep in order
  abbrev pub graded_pool : BlockPool
  graded_pool = record {
    State = (s : Pooled H) × IsOpen s.pool;
    alloc_log2 = λ s log2. record {
      result = (alloc_log2 os log2 s.0).result;
      block = (alloc_log2 os log2 s.0).block;
      pool = ((alloc_log2 os log2 s.0).state, (alloc_log2-Lends os grid log2 s.0 s.1).0);
    };
    free_log2 = λ s block log2. ((free_log2 block log2 s.0).1, free_log2-IsOpen block log2 s.0 s.1);
  }

  -- What the sets assume of their pool holds of the graded block pool.
  pub graded_pool-IsLending : IsLending graded_pool
  graded_pool-IsLending = record {
    alloc-block = λ s log2 served. elim (alloc_log2-Lends os grid log2 s.0 s.1).1 [
      | inl (done, block, counted) ↦ block
      | inr (refused, same) ↦ absurd (ground (arith, refused, served))
    ];
  }
