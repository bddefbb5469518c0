-- ===== src/Memory/Safety.antt =====
-- Whatever a client does with one arena, its blocks stay inside it and apart from one another.
use arnm.Base.{
  ℕ, ◌+◌, ◌-◌, ◌%◌, ◌≤◌, ◌<◌, ◌≡◌, ◌≢◌, ◌⊎◌, inl, inr, refl, some, false, arith, get_elem?, ◌==◌,
  Bool-cases,
}
use native.Mathlib.Decide.{dec_lt, dec_le}
use arnm.Result.{is_success}
use arnm.Memory.Machine.{Machine, Host, align8_u32, max_alloc_size}
use arnm.Memory.Arena.{Arena, account_capacity_exceeded, pull_back}
use arnm.Memory.Api.{Arnm, alloc, free}
use arnm.Memory.Bounds.{
  IsValid, align8_u32_bounds, account_capacity_exceeded-IsValid, pull_back-IsValid,
}
use arnm.Memory.Outcomes.{alloc-fits, alloc-full, free-lem}
use arnm.Memory.Session.{Block, Session, remove, allocate_step, release_step, arena_of}
use arnm.Memory.Stacked.{Stacked, Stacked-mono, Stacked-remove, Stacked-get, Stacked-remove_top}

-- The arena is valid, and holds the client's blocks as a stack below its index.
pub record IsSafe {H : Type 0} (s : Session H) : Type 0 where
  pub valid : IsValid s.arena
  pub based : s.arena.base ≢ 0
  pub stacked : Stacked s.arena.base (s.arena.base + s.arena.last_index) s.live

pub account_fields :
    (aligned : ℕ) (a : Arena)
    → let a' = (account_capacity_exceeded aligned a).1 in
      (a'.base ≡ a.base) × (a'.last_index ≡ a.last_index) × (a'.capacity ≡ a.capacity)
unfolding account_capacity_exceeded
account_fields aligned a = ground arith

pub grid : (size : ℕ) → size ≤ max_alloc_size → align8_u32 size % 8 ≡ 0
grid size h = (align8_u32_bounds size (omega arith)).0

module _ {H : Type 0} (os : Host H) where
  alloc-refused :
      (size : ℕ) (a : Arena) (w : Machine H)
      → (size ≡ 0) ⊎ (max_alloc_size < size)
      → let r = alloc os (some 0) size (some (Arnm.arena a)) w in
        (is_success r.result ≡ false) × (r.handle ≡ some (Arnm.arena a))
  unfolding alloc is_success align8_u32
  alloc-refused size a w h = ground arith

  pub allocate-IsSafe : (size : ℕ) (s : Session H) → IsSafe s → IsSafe (allocate_step os size s)
  unfolding allocate_step
  allocate-IsSafe size s h =
      let a = s.arena in
      elim (dec_lt 0 size) [
        | no z ↦ ground (arith, alloc-refused size a s.machine)
        | yes pos ↦ elim (dec_le size max_alloc_size) [
          | no big ↦ ground (arith, alloc-refused size a s.machine)
          | yes small ↦ elim (dec_le (align8_u32 size) (a.capacity - a.last_index)) [
            | yes fits ↦
                rw (alloc-fits os s.machine h.valid h.based 0 size pos small fits)
                  (ground (arith, align8_u32_bounds size))
            | no full ↦
                rw (alloc-full os s.machine h.valid h.based 0 size pos small (omega arith)) (
                  ground (
                    arith,
                    account_fields (align8_u32 size) a,
                    account_capacity_exceeded-IsValid (align8_u32 size) h.valid,
                  ))
          ]
        ]
      ]

  -- Handing a block back by any size with its rounding.
  pub free-IsSafe :
      (i : ℕ) (x : Block) (size : ℕ) (s : Session H)
      → get_elem? s.live i ≡ some x
      → 0 < size
      → size ≤ max_alloc_size
      → align8_u32 size ≡ align8_u32 x.size
      → IsSafe s
      → let (_, m, w) = free os x.addr size (some (Arnm.arena s.arena)) s.machine in
        IsSafe (record { arena = arena_of s.arena m; machine = w; live = remove s.live i })
  unfolding pull_back
  free-IsSafe i x size s e pos small same h =
      let a = s.arena in
      let top = a.base + a.last_index in
      let (fits, above, below) = Stacked-get a.base top s.live i h.stacked e in
      rw (free-lem os s.machine h.valid h.based x.addr size (omega arith) pos small (rw same below))
        (elim (Bool-cases (x.addr + align8_u32 size == top)) [
          | inl last ↦ rw last (record {
            valid = pull_back-IsValid (align8_u32 size) (grid size small) (ground arith) h.valid;
            based = h.based;
            stacked =
                Stacked-mono a.base x.addr _ (remove s.live i) (ground arith)
                  (Stacked-remove_top a.base top s.live i h.stacked e (ground arith));
          })
          | inr buried ↦ rw buried (record {
            valid = h.valid;
            based = h.based;
            stacked = Stacked-remove a.base top s.live i h.stacked;
          })
        ])

  pub release-IsSafe :
      (i : ℕ) (x : Block) (s : Session H)
      → get_elem? s.live i ≡ some x
      → IsSafe s
      → IsSafe (release_step os i x s)
  unfolding release_step
  release-IsSafe i x s e h =
      let (fits, above, below) = Stacked-get s.arena.base _ s.live i h.stacked e in
      free-IsSafe i x x.size s e fits.0 fits.1 refl h
