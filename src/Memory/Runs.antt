-- ===== src/Memory/Runs.antt =====
-- Any sequence of calls on one arena (src/memory.c), and the bytes that a resize carries over.
use arnm.Base.{
  ℕ, zero, suc, ◌+◌, ◌-◌, ◌≤◌, ◌<◌, ◌≡◌, ◌≢◌, ◌⊎◌, inl, inr, refl, ap, List, [], ◌∷◌, some, arith,
  get_elem?, min, ◌∙◌, sym, Option-cases, ==_iff,
}
use mathlib.Core.Path.{ap₂}
use native.Mathlib.Numerals.{unary_clauses}
use native.Mathlib.Decide.{dec_le, ℕ_discrete}
use arnm.Result.{success}
use arnm.Memory.Machine.{Machine, Host, align8_u32, max_alloc_size, copy_bytes}
use arnm.Memory.Arena.{Arena, pull_back, reset_arena}
use arnm.Memory.Api.{Arnm, alloc, free}
use arnm.Memory.Realloc.{realloc}
use arnm.Memory.Bounds.{IsValid, align8_u32-pos, align8_u32-le}
use arnm.Memory.Outcomes.{alloc-fits, free-lem, bumped}
use arnm.Memory.Resizing.{
  realloc-enter, realloc_same, resize-tail, resize-tail_full, resize-buried_small,
  resize-buried_grow, resize-buried_full,
}
use arnm.Memory.Session.{
  Block, Session, Call, allocate, release, resize, clear, clear_step, step, run,
}
use arnm.Memory.Stacked.{end_of, Stacked-get, Stacked-disjoint}
use arnm.Memory.Safety.{IsSafe, grid, allocate-IsSafe, release-IsSafe}
use arnm.Memory.SafeResize.{resize-IsSafe}

copy_bytes-in :
    (dst src n i : ℕ) (bytes : ℕ → ℕ)
    → i < n
    → copy_bytes dst src n bytes (dst + i) ≡ bytes (src + i)
unfolding copy_bytes
copy_bytes-in dst src n i bytes h = ground arith

copy_bytes-below :
    (dst src n addr : ℕ) (bytes : ℕ → ℕ) → addr < dst → copy_bytes dst src n bytes addr ≡ bytes addr
unfolding copy_bytes
copy_bytes-below dst src n addr bytes h = ground arith

-- the bytes of a run, first one first
unfoldable pub read : ℕ → ℕ → (ℕ → ℕ) → List ℕ
read zero p bytes = []
read (suc n) p bytes = bytes p ∷ read n (suc p) bytes

read-ext :
    (n p q : ℕ) (b c : ℕ → ℕ) → ((i : ℕ) → i < n → b (p + i) ≡ c (q + i)) → read n p b ≡ read n q c
unfolding read
read-ext zero p q b c h = refl
read-ext (suc n) p q b c h =
    let later : (r i : ℕ) → suc r + i ≡ r + suc i = λ r i. omega arith in
    ap₂ (λ x xs. x ∷ xs) (simp unary_clauses at (h 0 (omega arith)))
      (read-ext n (suc p) (suc q) b c
        λ i lt. ap b (later p i) ∙ h (suc i) (omega arith) ∙ sym (ap c (later q i)))

module _ {H : Type 0} (os : Host H) where
  step-IsSafe : (c : Call) (s : Session H) → IsSafe s → IsSafe (step os c s)
  unfolding step
  step-IsSafe (allocate size) s h = allocate-IsSafe os size s h
  step-IsSafe (release i) s h = elim (Option-cases (get_elem? s.live i)) [
    | inl gone ↦ rw (gone, step) h
    | inr (x, e) ↦ rw (e, step) (release-IsSafe os i x s e h)
  ]
  step-IsSafe (resize i size) s h = elim (Option-cases (get_elem? s.live i)) [
    | inl gone ↦ rw (gone, step) h
    | inr (x, e) ↦ rw (e, step) (resize-IsSafe os i x s e h size)
  ]
  step-IsSafe clear s h = unfold clear_step reset_arena in omega arith

  run-IsSafe : (cs : List Call) (s : Session H) → IsSafe s → IsSafe (run os cs s)
  unfolding run
  run-IsSafe [] s h = h
  run-IsSafe (c ∷ cs) s h = run-IsSafe cs (step os c s) (step-IsSafe c s h)

  -- From a valid arena that holds the client's blocks one above the other, after any calls of
  -- arnm_alloc, arnm_free, arnm_realloc and arnm_reset, on any of its blocks and in any order,
  -- every block that the client holds lies inside the used part of the arena, and no two of them
  -- share a byte of what was reserved for them.
  pub run-disjoint :
      (cs : List Call) (s : Session H)
      → IsSafe s
      → (i j : ℕ) {x y : Block} → get_elem? (run os cs s).live i ≡ some x
      → get_elem? (run os cs s).live j ≡ some y
      → i ≢ j
      → let a = (run os cs s).arena in
        (a.base ≤ x.addr)
        × (end_of x ≤ a.base + a.last_index)
        × (a.last_index ≤ a.capacity)
        × ((end_of x ≤ y.addr) ⊎ (end_of y ≤ x.addr))
  run-disjoint cs s h i j e f ne =
      let t = run os cs s in
      let safe = run-IsSafe cs s h in
      let (fits, above, below) = Stacked-get t.arena.base _ t.live i safe.stacked e in
      (
        above,
        below,
        safe.valid.within,
        Stacked-disjoint t.arena.base _ t.live i j safe.stacked e f ne,
      )

  module _ (w : Machine H) {a : Arena} (v : IsValid a) (based : a.base ≢ 0) where
    end-bumped :
        (size : ℕ)
        → a.base + a.last_index + align8_u32 size ≡ a.base + (a.last_index + align8_u32 size)
    end-bumped size = omega arith

    pull_back-bumped :
        (size : ℕ)
        → align8_u32 size ≤ max_alloc_size
        → align8_u32 size ≤ a.capacity - a.last_index
        → pull_back (align8_u32 size) (bumped os w v based size) ≡ a
    unfolding pull_back
    pull_back-bumped size small fits = ground arith

    -- On a valid arena with room for a size above 0 and at most ARNM_MAX_ALLOC_SIZE, freeing the
    -- block that was just allocated puts the arena and the machine back exactly as they were.
    pub free-alloc :
        (b size : ℕ)
        → 0 < size
        → size ≤ max_alloc_size
        → align8_u32 size ≤ a.capacity - a.last_index
        → let r = alloc os (some b) size (some (Arnm.arena a)) w in
          free os (a.base + a.last_index) size r.handle r.machine
          ≡ (success, some (Arnm.arena a), w)
    free-alloc b size pos small fits =
        let filled : IsValid (bumped os w v based size) = ground (arith, grid size small) in
        rw (alloc-fits os w v based b size pos small fits) (
          free-lem os w filled based (a.base + a.last_index) size (omega arith) pos small
            (omega arith)
          ∙ rw (
            (==_iff _ _).1 (end-bumped size),
            pull_back-bumped size (align8_u32-le size small) fits,
          ))

    module _ (p old new : ℕ) (old_pos : 0 < old) (old_small : old ≤ max_alloc_size)
        (above : a.base ≤ p) (below : p + align8_u32 old ≤ a.base + a.last_index)
        (new_pos : 0 < new) (new_small : new ≤ max_alloc_size) where
      -- On a valid arena, resizing a block inside its used part from one size to another, both
      -- above 0 and at most ARNM_MAX_ALLOC_SIZE, leaves the caller, whatever the answer, with a
      -- block that begins with the old bytes, as many as both sizes have, and changes no byte of
      -- the used part of the arena.
      pub realloc_contents :
          let r = realloc os (some p) old new (some (Arnm.arena a)) w in
          (q : ℕ) × (r.buffer ≡ some q)
          × (read (min old new) q r.machine.bytes ≡ read (min old new) p w.bytes)
          × (read a.last_index a.base r.machine.bytes ≡ read a.last_index a.base w.bytes)
      realloc_contents =
          let nz : p ≢ 0 = omega arith in
          let oa = align8_u32 old in
          let na = align8_u32 new in
          let oa_pos = align8_u32-pos old old_pos old_small in
          let na_pos = align8_u32-pos new new_pos new_small in
          let na_grid = grid new new_small in
          let na_small = align8_u32-le new new_small in
          elim (ℕ_discrete old new) [
            | yes same ↦
                rw (realloc_same os w v p nz old new old_pos old_small same) (p, refl, refl, refl)
            | no ne ↦
                rw (realloc-enter os w v p nz old new old_pos old_small new_pos new_small ne)
                  (elim (ℕ_discrete (p + oa) (a.base + a.last_index)) [
                    | yes last ↦ elim (dec_le (p + na) (a.base + a.capacity)) [
                      | yes room ↦
                          rw (resize-tail os w v p nz old oa na oa_pos last above na_pos room)
                            (p, refl, refl, refl)
                      | no full ↦
                          rw (resize-tail_full os w v p nz old oa na oa_pos last (omega arith))
                            (p, refl, refl, refl)
                    ]
                    | no under ↦ elim (dec_le na oa) [
                      | yes less ↦
                          rw (resize-buried_small os w v p nz old oa na oa_pos (omega arith) less)
                            (p, refl, refl, refl)
                      | no more ↦ elim (dec_le na (a.capacity - a.last_index)) [
                        | yes room ↦
                            rw
                              (resize-buried_grow os w v p nz old oa na oa_pos based (omega arith)
                                na_grid na_small (omega arith) old_pos room)
                              (
                                a.base + a.last_index,
                                refl,
                                read-ext _ _ p _ w.bytes
                                    λ i h. copy_bytes-in _ p old i w.bytes (omega arith),
                                read-ext _ _ a.base _ w.bytes λ i h.
                                    copy_bytes-below _ p old (a.base + i) w.bytes (omega arith),
                              )
                        | no full ↦
                            rw
                              (resize-buried_full os w v p nz old oa na oa_pos based (omega arith)
                                na_grid na_small (omega arith) (omega arith))
                              (p, refl, refl, refl)
                      ]
                    ]
                  ])
          ]
