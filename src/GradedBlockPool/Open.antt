-- ===== src/GradedBlockPool/Open.antt =====
-- The invariant of a graded block pool, which every call by exponent of src/graded_block_pool.c keeps.
use arnm.Base.{
  ℕ, zero, suc, ◌+◌, ◌-◌, ◌/◌, ◌%◌, ◌^◌, ◌≤◌, ◌<◌, ◌≡◌, ◌≢◌, ◌⊎◌, refl, ◌∙◌, ap, sym, inl, inr,
  Option, some, Bool, true, arith, ltb, ◌==◌, ◌||◌, Bool-cases, all_below, all_below-get, ==_iff,
}
use arnm.Memory.Machine.{max_alloc_size, align8_u32}
use arnm.Memory.Arena.{Arena, remaining_bytes, alloc_in_arena}
use arnm.Memory.Api.{Arnm}
use arnm.GradedBlockPool.{
  GradedBlockPool, Pooled, raise_log2, push_free, pop_head, cut_current, split_pieces, split_grades,
  split_current, free_log2,
}
use arnm.GradedBlockPool.Chained.{IsSource}

-- The current arena has bytes only when it is there.
abbrev pub IsCurrent : Arena → Type 0
IsCurrent a = (remaining_bytes a ≡ 0) ⊎ (a.base ≢ 0)

-- The grades and the capacity are in order, as arnm_graded_block_pool_init leaves them, and the
-- source, if there is one, is a chain.
pub record IsOpen (p : GradedBlockPool) : Type 0 where
  pub sourced : (m : Arnm) → p.source ≡ some m → IsSource m
  pub least : 3 ≤ p.min_log2
  pub graded : p.min_log2 ≤ p.max_log2
  pub most : p.max_log2 ≤ 31
  pub largest_fits : 2 ^ p.max_log2 ≤ p.arena_capacity
  pub on_grid : p.arena_capacity % 8 ≡ 0
  pub small : p.arena_capacity ≤ max_alloc_size
  pub current_there : IsCurrent p.current

-- what no block taken or given back changes
abbrev pub frame : GradedBlockPool → Option Arnm × ℕ × ℕ × ℕ
frame p = (p.source, p.min_log2, p.max_log2, p.arena_capacity)

-- and what a split of the current arena leaves alone besides
abbrev pub lent_frame : GradedBlockPool → ℕ × (Option Arnm × ℕ × ℕ × ℕ)
lent_frame p = (p.lent_bytes, frame p)

pub frame-IsOpen :
    (p q : GradedBlockPool) → frame q ≡ frame p → IsCurrent q.current → IsOpen p → IsOpen q
frame-IsOpen p q same there ok =
    let least = ap (λ f. f.1) same in
    let most = ap (λ f. f.2) same in
    let capacity = ap (λ f. f.3) same in
    record {
      sourced = λ m e. ok.sourced m (sym (ap (λ f. f.0) same) ∙ e);
      least = rw least ok.least;
      graded = rw (least, most) ok.graded;
      most = rw most ok.most;
      largest_fits = rw (most, capacity) ok.largest_fits;
      on_grid = rw capacity ok.on_grid;
      small = rw capacity ok.small;
      current_there = there;
    }

power_test : ℕ → Bool
power_test k = ltb k 3 || (align8_u32 (2 ^ k) == 2 ^ k)

-- A block of a grade is a multiple of 8 bytes.
pub align8_u32-power : (k : ℕ) → 3 ≤ k → k ≤ 31 → align8_u32 (2 ^ k) ≡ 2 ^ k
unfolding power_test
align8_u32-power k low high =
    let all : all_below 32 power_test ≡ true = unfold align8_u32 in refl in
    let here = all_below-get 32 power_test all k (omega arith) in
    (==_iff (align8_u32 (2 ^ k)) (2 ^ k)).0 (ground arith)

-- An arena with room for a positive multiple of 8 bytes serves it, with a block that is not NULL.
pub alloc_in_arena-room :
    (aligned : ℕ) (a : Arena)
    → IsCurrent a
    → 0 < aligned
    → aligned ≤ remaining_bytes a
    → ((alloc_in_arena 0 aligned a).buffer ≢ 0) × IsCurrent (alloc_in_arena 0 aligned a).arena
unfolding alloc_in_arena
alloc_in_arena-room aligned a there pos room = elim there [
  | inl nothing ↦ absurd (omega (arith, nothing))
  | inr based ↦ (λ null. absurd (ground arith), inr (ground arith))
]

module _ {H : Type 0} where
  split_pieces-lent_frame :
      (pieces log2 : ℕ) (s : Pooled H)
      → lent_frame (split_pieces pieces log2 s).pool ≡ lent_frame s.pool
  unfolding split_pieces
  split_pieces-lent_frame zero log2 s = refl
  split_pieces-lent_frame (suc pieces) log2 s =
      let cut = cut_current log2 s in
      split_pieces-lent_frame pieces log2 (push_free cut.0 log2 cut.1)
      ∙ (unfold push_free cut_current in refl)

  split_grades-lent_frame :
      (grades left : ℕ) (s : Pooled H)
      → lent_frame (split_grades grades left s).pool ≡ lent_frame s.pool
  unfolding split_grades
  split_grades-lent_frame zero left s = refl
  split_grades-lent_frame (suc grades) left s =
      let log2 = s.pool.min_log2 + grades in
      let cut = split_pieces (left / 2 ^ log2) log2 s in
      elim (Bool-cases (ltb left (2 ^ s.pool.min_log2))) [
        | inl spent ↦ rw spent refl
        | inr more ↦ rw more (
            split_grades-lent_frame grades (left % 2 ^ log2) cut
            ∙ split_pieces-lent_frame (left / 2 ^ log2) log2 s)
      ]

  pub split_current-lent_frame :
      (s : Pooled H) → lent_frame (split_current s).pool ≡ lent_frame s.pool
  unfolding split_current
  split_current-lent_frame s =
      split_grades-lent_frame (suc s.pool.max_log2 - s.pool.min_log2)
        (remaining_bytes s.pool.current) s

  pub pop_head-IsOpen :
      (log2 : ℕ) (s : Pooled H) → IsOpen s.pool → IsOpen (pop_head log2 s).state.pool
  unfolding pop_head
  pop_head-IsOpen log2 s ok = frame-IsOpen s.pool _ refl ok.current_there ok

  -- arnm_graded_block_pool_free_log2 keeps the invariant, whatever it is handed.
  pub free_log2-IsOpen :
      (buffer log2 : ℕ) (s : Pooled H) → IsOpen s.pool → IsOpen (free_log2 buffer log2 s).1.pool
  unfolding free_log2 push_free
  free_log2-IsOpen buffer log2 s ok =
      let grade = raise_log2 s.pool log2 in
      elim (Bool-cases (buffer == 0)) [
        | inl null ↦ rw null ok
        | inr there ↦ rw there (elim (Bool-cases (ltb s.pool.max_log2 log2)) [
          | inl past ↦ rw past ok
          | inr within ↦ rw within (elim (Bool-cases (ltb s.pool.lent_bytes (2 ^ grade))) [
            | inl unlent ↦ rw unlent ok
            | inr lent ↦ rw lent (frame-IsOpen s.pool _ refl ok.current_there ok)
          ])
        ])
      ]
