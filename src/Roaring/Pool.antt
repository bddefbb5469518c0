-- ===== src/Roaring/Pool.antt =====
-- The two calls of include/arnm/graded_block_pool.h that the sets use, as an interface: a block is its
-- address, and the states are those that a pool in order reaches.
use arnm.Base.{ℕ, ◌≡◌, ◌≢◌, true, false}
use arnm.Result.{Result, is_success}

pub record Lending (S : Type 0) : Type 0 where
  pub result : Result
  pub block : ℕ
  pub pool : S

pub record BlockPool : Type 1 where
  pub State : Type 0
  pub alloc_log2 : State → ℕ → Lending State
  pub free_log2 : State → ℕ → ℕ → State

-- A request that succeeds hands out a block; any request may be refused.
pub record IsLending (P : BlockPool) : Type 0 where
  pub alloc-block :
      (p : P.State) (log2 : ℕ)
      → is_success (P.alloc_log2 p log2).result ≡ true
      → (P.alloc_log2 p log2).block ≢ 0

-- There is a request that the pool refuses.
abbrev pub Refuses : BlockPool → Type 0
Refuses P = (p : P.State) × (log2 : ℕ) × (is_success (P.alloc_log2 p log2).result ≡ false)
