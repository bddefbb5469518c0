-- ===== src/Memory/ChainGrowth.antt =====
-- Fresh ground for a chain, and the whole of multi_arena_alloc (src/memory.c).
use arnm.Base.{
  ℕ, ◌-◌, ◌%◌, ◌≤◌, ◌<◌, ◌≡◌, ◌≢◌, inl, inr, refl, ap, ◌∙◌, none, some, true, false, arith,
  get_elem?, length, ◌==◌, ltb, leb, not, ◌&&◌, Bool-cases, Option-cases, if◌then◌else◌,
}
use native.Mathlib.Decide.{dec_lt}
use arnm.Result.{Result, is_success}
use arnm.Memory.Machine.{Machine, Host, align8_u32}
use arnm.Memory.Arena.{Arena, remaining_bytes, init_arena}
use arnm.Memory.Chain.{MultiArena, scan, push_arena, open_arena, multi_arena_alloc}
use arnm.Memory.Bounds.{IsValid, align8_u32_bounds}
use arnm.Memory.ChainScan.{IsChain, scan-Scanned, scan-none, get_elem?-lt}
use arnm.Memory.ChainAlloc.{
  append-IsChain, serve_at-length, serve_at-machine, Serves, serve_at-Serves, get_elem?-append_last,
}

-- malloc answers NULL or an address on the eight byte grid.
abbrev pub MallocAligned : {H : Type 0} → Host H → Type 0
MallocAligned {H} os =
    (n p : ℕ) (w w' : Machine H) → os.malloc n w ≡ (some p, w') → (p % 8 ≡ 0) × (p ≢ 0)

refused-Serves :
    {H : Type 0} (buffer aligned : ℕ) (r : Result) (m : MultiArena) (w : Machine H)
    → IsChain m
    → is_success r ≡ false
    → Serves buffer aligned (record { result = r; buffer = buffer; chain = m; machine = w })
refused-Serves buffer aligned r m w c h = record { is_chain = c; outcome = inr (h, refl) }

module _ {H : Type 0} (os : Host H) (grid : MallocAligned os) where
  -- An arena that arnm_init_arena sets up is valid, empty and at least as large as asked for.
  pub init_arena-IsValid :
      (capacity : ℕ) (w : Machine H) {r : Result} {a : Arena} {w' : Machine H}
      → capacity < 4294967296
      → init_arena os capacity w ≡ (r, some a, w')
      → IsValid a × (a.base ≢ 0) × (capacity ≤ remaining_bytes a)
  unfolding init_arena remaining_bytes
  init_arena-IsValid capacity w small e =
      let n = align8_u32 capacity in
      elim (Option-cases (os.malloc n w).0) [
        | inl z ↦ ground (arith, align8_u32_bounds capacity)
        | inr (p, z) ↦
            let (on_grid, nz) = grid n p w _ (λ i. (z i, (os.malloc n w).1)) in
            ground (arith, align8_u32_bounds capacity)
      ]

  push_arena-IsChain :
      (a : Arena) (m : MultiArena) (w : Machine H)
      → IsChain m
      → IsValid a
      → a.base ≢ 0
      → IsChain (push_arena os a m w).1
  unfolding push_arena
  push_arena-IsChain a m w c v based =
      elim (Bool-cases (is_success (os.vector_room (length m.arenas) w).0)) [
        | inl room ↦ rw (room, push_arena) (append-IsChain m a c v based)
        | inr full ↦ rw (full, push_arena) c
      ]

  pushed-last :
      (a : Arena) (m : MultiArena) (w : Machine H)
      → is_success (push_arena os a m w).0 ≡ true
      → get_elem? (push_arena os a m w).1.arenas (length m.arenas) ≡ some a
  unfolding push_arena
  pushed-last a m w h = elim (Bool-cases (is_success (os.vector_room (length m.arenas) w).0)) [
    | inl room ↦ rw (room, push_arena) (get_elem?-append_last m.arenas a)
    | inr full ↦ ground arith
  ]

  init_arena-none :
      (capacity : ℕ) (w : Machine H)
      → (init_arena os capacity w).1 ≡ none
      → is_success (init_arena os capacity w).0 ≡ false
  unfolding init_arena
  init_arena-none capacity w h = ground arith

  open_arena-Serves :
      (aligned buffer : ℕ) (m : MultiArena) (w : Machine H)
      → aligned % 8 ≡ 0
      → aligned < 4294967296
      → m.arena_capacity < 4294967296
      → IsChain m
      → Serves buffer aligned (open_arena os aligned buffer m w)
  unfolding open_arena
  open_arena-Serves aligned buffer m w on_grid small cap c =
      let capacity = if ltb m.arena_capacity aligned then aligned else m.arena_capacity in
      let opened = init_arena os capacity w in
      elim (Option-cases opened.1) [
        | inl z ↦
            rw (z, open_arena)
              (refused-Serves buffer aligned _ m _ c (init_arena-none capacity w z))
        | inr (a, z) ↦
            let (v, based, room) =
              init_arena-IsValid capacity w (ground arith) (λ i. (opened.0, z i, opened.2)) in
            let pushed = push_arena os a m opened.2 in
            let chained = push_arena-IsChain a m opened.2 c v based in
            rw (z, open_arena)
              (elim (Bool-cases (is_success pushed.0)) [
                | inr full ↦ rw full (refused-Serves buffer aligned _ pushed.1 _ chained full)
                | inl pushed_in ↦
                    rw pushed_in
                      (serve_at-Serves (length m.arenas) aligned buffer pushed.1 pushed.2 on_grid
                        chained (pushed-last a m opened.2 pushed_in) (ground arith)).0
              ])
      ]

  -- Where malloc answers NULL or an address on the eight byte grid, a call of multi_arena_alloc on
  -- a chain, for a multiple of 8 bytes, leaves a chain, whose marker has passed only arenas that
  -- are used up. On success the block is the newest part of one of its arenas, on the eight byte
  -- grid; on any refusal the caller's pointer is untouched.
  pub multi_arena_alloc-Serves :
      (aligned buffer : ℕ) (m : MultiArena) (w : Machine H)
      → aligned % 8 ≡ 0
      → aligned < 4294967296
      → m.arena_capacity < 4294967296
      → IsChain m
      → Serves buffer aligned (multi_arena_alloc os aligned buffer m w)
  unfolding multi_arena_alloc is_success
  multi_arena_alloc-Serves aligned buffer m w on_grid small cap c =
      let found = scan aligned (length m.arenas - m.first_open) m.first_open m in
      let s =
        scan-Scanned aligned (length m.arenas - m.first_open) m.first_open m c (omega arith) in
      elim (Bool-cases (aligned == 0)) [
        | inl nothing ↦ rw (nothing, multi_arena_alloc) (refused-Serves buffer aligned _ m w c refl)
        | inr more ↦
            rw (more, multi_arena_alloc)
              (elim (Option-cases found.0) [
                | inr (j, e) ↦
                    let (a, here, room) = s.fits j e in
                    rw e
                      (serve_at-Serves j aligned buffer found.1 w on_grid s.is_chain
                        (rw s.arenas here) room).0
                | inl e ↦
                    rw e
                      (elim (Bool-cases
                        (not (m.arena_max_count == 0) && leb m.arena_max_count (length m.arenas))) [
                          | inl full ↦
                              rw full (refused-Serves buffer aligned _ found.1 w s.is_chain refl)
                          | inr room ↦ rw room (
                              open_arena-Serves aligned buffer found.1 w on_grid small
                                (rw s.arena_capacity cap) s.is_chain)
                        ])
              ])
      ]

-- As long as an arena of a chain holds more than the threshold and enough for the request, a
-- positive multiple of 8 bytes, the request is served from the arenas that are there: the machine
-- is as before, and no arena is opened.
pub multi_arena_alloc-room :
    {H : Type 0} (os : Host H) (aligned buffer : ℕ) (m : MultiArena) (w : Machine H) (j : ℕ)
    {a : Arena}
    → aligned % 8 ≡ 0
    → 0 < aligned
    → IsChain m
    → get_elem? m.arenas j ≡ some a
    → m.full_remaining < remaining_bytes a
    → aligned ≤ remaining_bytes a
    → let r = multi_arena_alloc os aligned buffer m w in
      (is_success r.result ≡ true) × (r.machine ≡ w) × (length r.chain.arenas ≡ length m.arenas)
unfolding multi_arena_alloc
multi_arena_alloc-room os aligned buffer m w j {a} on_grid pos c here usable fits =
    let left = length m.arenas - m.first_open in
    let found = scan aligned left m.first_open m in
    let s = scan-Scanned aligned left m.first_open m c (omega arith) in
    let more : (aligned == 0) ≡ false = ground arith in
    let inside = get_elem?-lt m.arenas j here in
    elim (dec_lt j m.first_open) [
      | yes before ↦ absurd (omega (arith, c.closed j a before here))
      | no after ↦
          rw (more, multi_arena_alloc)
            (elim (Option-cases found.0) [
              | inl e ↦ absurd (
                  omega (
                    arith,
                    scan-none aligned left m.first_open m e j (omega arith) (omega arith) here
                        usable,
                  ))
              | inr (i, e) ↦
                  let (b, there, room) = s.fits i e in
                  let at_i : get_elem? found.1.arenas i ≡ some b = rw s.arenas there in
                  rw e (
                    (serve_at-Serves i aligned buffer found.1 w on_grid s.is_chain at_i room).1,
                    serve_at-machine i aligned buffer found.1 w,
                    serve_at-length i aligned buffer found.1 w ∙ ap length s.arenas,
                  )
            ])
    ]
