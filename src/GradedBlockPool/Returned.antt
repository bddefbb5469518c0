-- ===== src/GradedBlockPool/Returned.antt =====
-- Blocks that come back to a graded block pool (include/arnm/graded_block_pool.h) and go out again.
use arnm.Base.{
  ℕ, zero, suc, ◌-◌, ◌^◌, ◌≤◌, ◌<◌, ◌≡◌, ◌≢◌, refl, ap, List, [], ◌∷◌, true, false, arith, ltb,
  ◌==◌, length, get_or, set, if◌then◌else◌,
}
use arnm.Result.{success}
use arnm.Memory.Machine.{Host}
use arnm.GradedBlockPool.{
  Pooled, head_of, raise_log2, add64, sub64, push_free, pop_head, alloc_log2, free_log2,
}

set_back : (xs : List ℕ) (i a : ℕ) → set (set xs i a) i (get_or xs i 0) ≡ xs
set_back [] i a = refl
set_back (x ∷ xs) zero a = refl
set_back (x ∷ xs) (suc i) a = ap (λ ys. x ∷ ys) (set_back xs i a)

get_or-set : (xs : List ℕ) (i a : ℕ) → i < length xs → get_or (set xs i a) i 0 ≡ a
get_or-set [] i a lt = absurd (omega arith)
get_or-set (x ∷ xs) zero a lt = refl
get_or-set (x ∷ xs) (suc i) a lt = get_or-set xs i a (omega arith)

lent_again : (n b : ℕ) → b ≤ n → n < 18446744073709551616 → add64 (sub64 n b) b ≡ n
lent_again n b le lt = omega arith

cached_again :
    (n b : ℕ) → n < 18446744073709551616 → b < 18446744073709551616 → sub64 (add64 n b) b ≡ n
cached_again n b lt small = omega arith

-- the pool with a block of a grade taken back
abbrev freed : {H : Type 0} → ℕ → ℕ → Pooled H → Pooled H
freed block grade s = record s {
  pool = record s.pool {
    free_head = set s.pool.free_head (grade - s.pool.min_log2) block;
    cached_bytes = add64 s.pool.cached_bytes (2 ^ grade);
    lent_bytes = sub64 s.pool.lent_bytes (2 ^ grade);
  };
  links = λ p. if p == block then head_of s.pool grade else s.links p;
}

free_log2-freed :
    {H : Type 0} (block log2 : ℕ) (s : Pooled H)
    → block ≢ 0
    → log2 ≤ s.pool.max_log2
    → 2 ^ raise_log2 s.pool log2 ≤ s.pool.lent_bytes
    → free_log2 block log2 s ≡ (success, freed block (raise_log2 s.pool log2) s)
unfolding free_log2 push_free
free_log2-freed block log2 s there within lent =
    let not_null : (block == 0) ≡ false = ground arith in
    let not_past : ltb s.pool.max_log2 log2 ≡ false = ground arith in
    let enough : ltb s.pool.lent_bytes (2 ^ raise_log2 s.pool log2) ≡ false = ground arith in
    rw (not_null, not_past, enough) refl

module _ {H : Type 0} (os : Host H) where
  -- A block that arnm_graded_block_pool_free_log2 takes back is what the next call of
  -- arnm_graded_block_pool_alloc_log2 with the same exponent hands out: the pool is then as it was
  -- before the two calls, free lists and counters, and neither the chain nor the host has been asked.
  -- It is assumed that the block is not NULL, the exponent not past the largest grade, that the grade
  -- has a list and no more bytes than are lent out, and that the counters are in the range of
  -- uint64_t.
  pub free_log2-alloc_log2 :
      (block log2 : ℕ) (s : Pooled H)
      → block ≢ 0
      → log2 ≤ s.pool.max_log2
      → raise_log2 s.pool log2 - s.pool.min_log2 < length s.pool.free_head
      → 2 ^ raise_log2 s.pool log2 ≤ s.pool.lent_bytes
      → s.pool.lent_bytes < 18446744073709551616
      → s.pool.cached_bytes < 18446744073709551616
      → let (freed, s') = free_log2 block log2 s in
        let r = alloc_log2 os log2 s' in
        (freed ≡ success)
        × (r.result ≡ success)
        × (r.block ≡ block)
        × (r.state.pool ≡ s.pool)
        × (r.state.machine ≡ s.machine)
  unfolding alloc_log2 pop_head
  free_log2-alloc_log2 block log2 s there within listed lent out in_lists =
      let grade = raise_log2 s.pool log2 in
      let i = grade - s.pool.min_log2 in
      let not_null : (block == 0) ≡ false = ground arith in
      let not_past : ltb s.pool.max_log2 log2 ≡ false = ground arith in
      let self : (block == block) ≡ true = ground arith in
      let small : 2 ^ grade < 18446744073709551616 = omega arith in
      rw
        (
          free_log2-freed block log2 s there within lent,
          not_past,
          get_or-set s.pool.free_head i block listed,
          not_null,
          self,
          set_back s.pool.free_head i block,
          cached_again s.pool.cached_bytes (2 ^ grade) in_lists small,
          lent_again s.pool.lent_bytes (2 ^ grade) lent out,
        )
        (refl, refl, refl, refl, refl)
