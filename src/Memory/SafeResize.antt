-- ===== src/Memory/SafeResize.antt =====
-- arnm_realloc (src/memory.c) on one of a client's blocks keeps the arena safe, on every branch.
use arnm.Base.{
  ℕ, zero, suc, ◌+◌, ◌-◌, ◌≤◌, ◌<◌, ◌≡◌, ◌≢◌, refl, List, ◌∷◌, Option, some, true, arith, get_elem?,
  set, if◌then◌else◌, ◌∙◌,
}
use native.Mathlib.Decide.{dec_le, ℕ_discrete}
use arnm.Result.{Result, is_success, error_arithmetic_overflow}
use arnm.Memory.Machine.{Machine, Host, align8_u32, max_alloc_size}
use arnm.Memory.Arena.{account_capacity_exceeded}
use arnm.Memory.Api.{Arnm, Reply, reply, free}
use arnm.Memory.Realloc.{realloc, realloc_in_arena}
use arnm.Memory.Bounds.{
  align8_u32_bounds, align8_u32-pos, align8_u32-le, align8_u32_self,
  account_capacity_exceeded-IsValid,
}
use arnm.Memory.Outcomes.{free-lem}
use arnm.Memory.Resizing.{
  realloc-enter, realloc_same, resize-tail, resize-tail_full, resize-buried_small,
  resize-buried_grow, resize-buried_full,
}
use arnm.Memory.Session.{Block, Session, remove, resize_step, resize_live, is_done, arena_of}
use arnm.Memory.Stacked.{
  Fits, end_of, Stacked-mono, Stacked-remove, Stacked-get, Stacked-set, Stacked-set_top,
}
use arnm.Memory.Safety.{IsSafe, grid, free-IsSafe, account_fields}

module _ {H : Type 0} (r : Result) (m : Option Arnm) (w : Machine H) (i : ℕ) (x : Block) (size : ℕ)
    (live : List Block) (done : is_done r ≡ true) (pos : 0 < size) where
  live_kept :
      resize_live (reply r (some x.addr) m w) i x size live
      ≡ set live i (record { addr = x.addr; size = size })
  unfolding resize_live
  live_kept = ground arith

  live_moved :
      (p : ℕ)
      → p ≢ x.addr
      → resize_live (reply r (some p) m w) i x size live
        ≡ record { addr = p; size = size } ∷ remove live i
  unfolding resize_live
  live_moved p ne = ground arith

module _ {H : Type 0} (os : Host H) where
  realloc-huge :
      (p old new : ℕ) (m : Option Arnm) (w : Machine H)
      → max_alloc_size < new
      → realloc os (some p) old new m w ≡ reply error_arithmetic_overflow (some p) m w
  unfolding realloc align8_u32
  realloc-huge p old new m w h = ground arith

  -- a new size of 0 is a free
  realloc-zero :
      (p old : ℕ) (m : Option Arnm) (w : Machine H)
      → 0 < old
      → old ≤ max_alloc_size
      → realloc os (some p) old 0 m w ≡ (
          let (r, m', w') = free os p (align8_u32 old) m w in
          reply r (if is_success r then some 0 else some p) m' w')
  unfolding realloc
  realloc-zero p old m w pos small = ground (arith, align8_u32-pos old, align8_u32_bounds 0)

  module _ (i : ℕ) (x : Block) (s : Session H) (e : get_elem? s.live i ≡ some x)
      (h : IsSafe s) where
    held : Fits x × (s.arena.base ≤ x.addr) × (end_of x ≤ s.arena.base + s.arena.last_index)
    held = Stacked-get s.arena.base _ s.live i h.stacked e

    -- an error leaves the blocks and the index
    kept :
        (aligned : ℕ) → IsSafe (record s { arena = (account_capacity_exceeded aligned s.arena).1 })
    kept aligned =
        ground
          (arith, account_fields aligned s.arena, account_capacity_exceeded-IsValid aligned h.valid)

    -- the block stays where it is, with no more ground than before
    settled :
        (size : ℕ)
        → 0 < size
        → size ≤ max_alloc_size
        → align8_u32 size ≤ align8_u32 x.size
        → IsSafe (record s { live = set s.live i (record { addr = x.addr; size = size }) })
    settled size pos small le = record {
      valid = h.valid;
      based = h.based;
      stacked = Stacked-set s.arena.base _ s.live i _ h.stacked e refl (pos, small) le;
    }

    -- the call, by what arnm_realloc answers
    answered :
        (size : ℕ) {r : Reply H}
        → realloc os (some x.addr) x.size size (some (Arnm.arena s.arena)) s.machine ≡ r
        → IsSafe (record {
          arena = arena_of s.arena r.handle;
          machine = r.machine;
          live = resize_live r i x size s.live;
        })
        → IsSafe (resize_step os i x size s)
    unfolding resize_step
    answered size ran safe = rw ran safe

    resize_zero : IsSafe (resize_step os i x 0 s)
    unfolding resize_step is_success
    resize_zero =
        let (fits, above, below) = held in
        let size = align8_u32 x.size in
        let same : align8_u32 size ≡ size =
          align8_u32_self size (grid x.size fits.1) (omega (arith, align8_u32_bounds x.size)) in
        let pos : 0 < size = align8_u32-pos x.size fits.0 fits.1 in
        let small : size ≤ max_alloc_size = align8_u32-le x.size fits.1 in
        let answered : is_done (free os x.addr size (some (Arnm.arena s.arena)) s.machine).0
            ≡ true =
          rw
            (free-lem os s.machine h.valid h.based x.addr size (omega arith) pos small
              (rw same below))
            (ground arith) in
        rw (realloc-zero x.addr x.size _ s.machine fits.0 fits.1, answered)
          (free-IsSafe os i x size s e pos small same h)

    module _ (size : ℕ) (ne : x.size ≢ size) (pos : 0 < size) (small : size ≤ max_alloc_size) where
      old_pos : 0 < align8_u32 x.size
      old_pos = align8_u32-pos x.size held.0.0 held.0.1

      -- the same, past the checks of arnm_realloc
      resized :
          {r : Reply H}
          → realloc_in_arena os x.addr x.size
              (align8_u32 x.size)
              (align8_u32 size)
              s.arena
              s.machine
            ≡ r
          → IsSafe (record {
            arena = arena_of s.arena r.handle;
            machine = r.machine;
            live = resize_live r i x size s.live;
          })
          → IsSafe (resize_step os i x size s)
      resized ran =
          let (fits, above, below) = held in
          answered size (
            realloc-enter os s.machine h.valid x.addr (omega arith) x.size size fits.0 fits.1 pos
              small ne
            ∙ ran)

      -- The block is the last one, and is resized where it stands.
      resize_last :
          end_of x ≡ s.arena.base + s.arena.last_index → IsSafe (resize_step os i x size s)
      resize_last last =
          let (fits, above, below) = held in
          let nz : x.addr ≢ 0 = omega arith in
          let old_grid = grid x.size fits.1 in
          let new_pos = align8_u32-pos size pos small in
          let new_grid = grid size small in
          elim (dec_le (x.addr + align8_u32 size) (s.arena.base + s.arena.capacity)) [
            | yes room ↦
                resized
                  (resize-tail os s.machine h.valid x.addr nz x.size _ _ old_pos last above new_pos
                    room)
                  (rw (live_kept _ _ _ i x size s.live refl pos) (record {
                    valid = omega arith;
                    based = h.based;
                    stacked =
                        Stacked-mono s.arena.base (x.addr + align8_u32 size) _ _ (omega arith) (
                          Stacked-set_top s.arena.base _ s.live i _ h.stacked e last refl
                            (pos, small));
                  }))
            | no full ↦
                resized
                  (resize-tail_full os s.machine h.valid x.addr nz x.size _ _ old_pos last
                    (omega arith))
                  (unfold resize_live in kept _)
          ]

      -- The block is buried: it stays, or moves to fresh ground.
      resize_buried :
          end_of x < s.arena.base + s.arena.last_index → IsSafe (resize_step os i x size s)
      resize_buried buried =
          let (fits, above, below) = held in
          let nz : x.addr ≢ 0 = omega arith in
          let new_grid = grid size small in
          let new_small : align8_u32 size ≤ max_alloc_size = align8_u32-le size small in
          elim (dec_le (align8_u32 size) (align8_u32 x.size)) [
            | yes less ↦
                resized
                  (resize-buried_small os s.machine h.valid x.addr nz x.size _ _ old_pos buried
                    less)
                  (rw (live_kept _ _ _ i x size s.live refl pos) (settled size pos small less))
            | no more ↦ elim (dec_le (align8_u32 size) (s.arena.capacity - s.arena.last_index)) [
              | yes room ↦
                  resized
                    (resize-buried_grow os s.machine h.valid x.addr nz x.size _ _ old_pos h.based
                      (omega arith) new_grid new_small buried fits.0 room)
                    (rw
                      (live_moved _ _ _ i x size s.live refl pos (s.arena.base + s.arena.last_index)
                        (omega arith))
                      (record {
                        valid = omega arith;
                        based = h.based;
                        stacked = (
                          (pos, small),
                          omega arith,
                          Stacked-remove s.arena.base _ s.live i h.stacked,
                        );
                      }))
              | no full ↦
                  resized
                    (resize-buried_full os s.machine h.valid x.addr nz x.size _ _ old_pos h.based
                      (omega arith) new_grid new_small buried (omega arith))
                    (unfold resize_live in kept _)
            ]
          ]

    pub resize-IsSafe : (size : ℕ) → IsSafe (resize_step os i x size s)
    resize-IsSafe zero = resize_zero
    resize-IsSafe (suc n) =
        let (fits, above, below) = held in
        let size = suc n in
        elim (dec_le size max_alloc_size) [
          | no big ↦
              answered size (realloc-huge x.addr x.size size _ s.machine (omega arith))
                (unfold resize_live in h)
          | yes small ↦ elim (ℕ_discrete x.size size) [
            | yes same ↦
                answered size
                  (realloc_same os s.machine h.valid x.addr (omega arith) x.size size fits.0 fits.1
                    same)
                  (rw (live_kept _ _ _ i x size s.live refl (omega arith))
                    (settled size (omega arith) small (rw same (omega arith))))
            | no ne ↦ elim (ℕ_discrete (end_of x) (s.arena.base + s.arena.last_index)) [
              | yes last ↦ resize_last size ne (omega arith) small last
              | no under ↦ resize_buried size ne (omega arith) small (omega arith)
            ]
          ]
        ]
