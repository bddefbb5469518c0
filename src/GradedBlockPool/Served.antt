-- ===== src/GradedBlockPool/Served.antt =====
-- What arnm_graded_block_pool_alloc_log2 of include/arnm/graded_block_pool.h hands out.
use arnm.Base.{
  ℕ, ◌^◌, ◌≤◌, ◌<◌, ◌≡◌, ◌≢◌, ◌⊎◌, refl, ap, ◌∙◌, inl, inr, Option, some, none, true, false, arith,
  ltb, ◌==◌, Bool-cases,
}
use native.Mathlib.Nat.{one-le-pow, pow-le-pow_right}
use arnm.Result.{is_success}
use arnm.Memory.Machine.{Host}
use arnm.Memory.Arena.{remaining_bytes}
use arnm.Memory.Api.{Arnm, alloc}
use arnm.Memory.ChainGrowth.{MallocAligned}
use arnm.GradedBlockPool.{
  Pooled, Allotted, head_of, raise_log2, add64, pop_head, cut_current, next_arena, lend_fresh,
  alloc_sourced, alloc_fresh, alloc_log2,
}
use arnm.GradedBlockPool.Chained.{alloc-IsSource, borrow_arena-fresh}
use arnm.GradedBlockPool.Open.{
  IsOpen, frame-IsOpen, alloc_in_arena-room, align8_u32-power, split_current-lent_frame,
  pop_head-IsOpen,
}

-- What a request for a block of a grade leaves: a pool in order, and on success a block, whose bytes
-- are counted; a refusal counts nothing.
abbrev pub Lends : {H : Type 0} → Pooled H → ℕ → Allotted H → Type 0
Lends s grade r =
    IsOpen r.state.pool
    × (((is_success r.result ≡ true)
          × (r.block ≢ 0)
          × (r.state.pool.lent_bytes ≡ add64 s.pool.lent_bytes (2 ^ grade)))
        ⊎ ((is_success r.result ≡ false) × (r.state.pool.lent_bytes ≡ s.pool.lent_bytes)))

module _ {H : Type 0} where
  -- A step that lends nothing comes before the request.
  Lends-after :
      (s t : Pooled H) (grade : ℕ) (r : Allotted H)
      → t.pool.lent_bytes ≡ s.pool.lent_bytes
      → Lends t grade r
      → Lends s grade r
  Lends-after s t grade r same (ok, inl (done, block, counted)) =
      (ok, inl (done, block, rw same at counted))
  Lends-after s t grade r same (ok, inr (refused, kept)) = (ok, inr (refused, kept ∙ same))

  -- A block cut off an arena with room for it.
  lend_fresh-Lends :
      (log2 : ℕ) (s : Pooled H)
      → IsOpen s.pool
      → 3 ≤ log2
      → log2 ≤ 31
      → 2 ^ log2 ≤ remaining_bytes s.pool.current
      → Lends s log2 (lend_fresh log2 s)
  unfolding lend_fresh cut_current is_success
  lend_fresh-Lends log2 s ok low high room =
      let pos : 0 < 2 ^ log2 = one-le-pow log2 2 (omega arith) in
      let (block, there) =
        alloc_in_arena-room (2 ^ log2) s.pool.current ok.current_there pos room in
      rw (align8_u32-power log2 low high)
        (frame-IsOpen s.pool _ refl there ok, inl (refl, block, refl))

  -- A block at the head of its list.
  pop_head-Lends :
      (log2 : ℕ) (s : Pooled H)
      → IsOpen s.pool
      → (head_of s.pool log2 == 0) ≡ false
      → Lends s log2 (pop_head log2 s)
  unfolding pop_head is_success
  pop_head-Lends log2 s ok there =
      (pop_head-IsOpen log2 s ok, inl (refl, λ null. ground arith, refl))

module _ {H : Type 0} (os : Host H) (grid : MallocAligned os) where
  -- the arena that next_arena fetches has room for the largest grade
  next_arena-IsOpen :
      (s : Pooled H) (m : Arnm)
      → s.pool.source ≡ some m
      → IsOpen s.pool
      → let r = next_arena os s in
        IsOpen r.1.pool
        × (r.1.pool.lent_bytes ≡ s.pool.lent_bytes)
        × ((is_success r.0 ≡ false) ⊎ (remaining_bytes r.1.pool.current ≡ s.pool.arena_capacity))
  unfolding next_arena is_success remaining_bytes
  next_arena-IsOpen s m there ok =
      let capacity = s.pool.arena_capacity in
      let pos : 0 < 2 ^ s.pool.max_log2 = one-le-pow s.pool.max_log2 2 (omega arith) in
      let some_bytes : 0 < capacity = omega (arith, pos, ok.largest_fits) in
      let r = alloc os (some 0) capacity (some m) s.machine in
      let (c, handle, src, outcome) =
        alloc-IsSource os grid m capacity s.machine (ok.sourced m there) some_bytes ok.on_grid
          ok.small in
      let asked : Pooled H = record s {
        pool = record s.pool { source = some c };
        machine = r.machine;
      } in
      let sourced : IsOpen asked.pool = record {
        sourced = λ m' e. let same : c ≡ m' = ground arith in rw (← same) src;
        least = ok.least;
        graded = ok.graded;
        most = ok.most;
        largest_fits = ok.largest_fits;
        on_grid = ok.on_grid;
        small = ok.small;
        current_there = ok.current_there;
      } in
      rw (there, handle)
        (elim outcome [
          | inl refused ↦ rw refused (sourced, refl, inl refused)
          | inr (served, block, is, nonnull, aligned) ↦
              rw
                (
                  served,
                  is,
                  borrow_arena-fresh block capacity nonnull aligned some_bytes ok.on_grid ok.small,
                )
                (
                  frame-IsOpen asked.pool _ (ap (λ f. f.1) (split_current-lent_frame asked))
                      (inr nonnull) sourced,
                  ap (λ f. f.0) (split_current-lent_frame asked),
                  inr (omega (arith, ok.small)),
                )
        ])

  -- A request that finds its list empty.
  alloc_sourced-Lends :
      (source : Option Arnm) (log2 : ℕ) (s : Pooled H)
      → s.pool.source ≡ source
      → IsOpen s.pool
      → s.pool.min_log2 ≤ log2
      → log2 ≤ s.pool.max_log2
      → Lends s log2 (alloc_sourced os source log2 s)
  unfolding alloc_sourced is_success
  alloc_sourced-Lends none log2 s closed ok low high = (ok, inr (refl, refl))
  alloc_sourced-Lends (some m) log2 s there ok low high =
      let least = ok.least in
      let most = ok.most in
      let fits : 2 ^ log2 ≤ 2 ^ s.pool.max_log2 = pow-le-pow_right (omega arith) high in
      let n = next_arena os s in
      let (after, lent, outcome) = next_arena-IsOpen s m there ok in
      elim (Bool-cases (ltb (remaining_bytes s.pool.current) (2 ^ log2))) [
        | inr room ↦ rw room (lend_fresh-Lends log2 s ok (omega arith) (omega arith) (ground arith))
        | inl short ↦ rw short (elim (Bool-cases (is_success n.0)) [
          | inr refused ↦ rw refused (after, inr (refused, lent))
          | inl served ↦ rw served (elim (Bool-cases (head_of n.1.pool log2 == 0)) [
            | inr split ↦ rw split (
                Lends-after s n.1 log2 (pop_head log2 n.1) lent
                  (pop_head-Lends log2 n.1 after split))
            | inl none_yet ↦
                let room : 2 ^ log2 ≤ remaining_bytes n.1.pool.current = elim outcome [
                  | inl refused ↦ absurd (ground (arith, refused, served))
                  | inr fresh ↦ rw fresh (omega (arith, fits, ok.largest_fits))
                ] in
                rw none_yet (
                  Lends-after s n.1 log2 (lend_fresh log2 n.1) lent
                    (lend_fresh-Lends log2 n.1 after (omega arith) (omega arith) room))
          ])
        ])
      ]

  pub alloc_log2-Lends :
      (log2 : ℕ) (s : Pooled H)
      → IsOpen s.pool
      → Lends s (raise_log2 s.pool log2) (alloc_log2 os log2 s)
  unfolding alloc_log2 is_success
  alloc_log2-Lends log2 s ok =
      let grade = raise_log2 s.pool log2 in
      elim (Bool-cases (ltb s.pool.max_log2 log2)) [
        | inl past ↦ rw past (ok, inr (refl, refl))
        | inr within ↦ rw within (elim (Bool-cases (head_of s.pool grade == 0)) [
          | inr listed ↦ rw listed (pop_head-Lends grade s ok listed)
          | inl empty ↦
              let graded = ok.graded in
              let fresh : Lends s grade (alloc_fresh os grade s) =
                alloc_sourced-Lends s.pool.source grade s refl ok (ground arith) (ground arith) in
              rw empty fresh
        ])
      ]
