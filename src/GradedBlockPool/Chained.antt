-- ===== src/GradedBlockPool/Chained.antt =====
-- The arena a graded block pool takes from its chain (next_arena of src/graded_block_pool.c).
use arnm.Base.{
  ℕ, ◌-◌, ◌%◌, ◌≤◌, ◌<◌, ◌≡◌, ◌≢◌, ◌⊎◌, refl, ◌∙◌, inl, inr, true, false, some, arith, ◌==◌, not,
  ◌&&◌, leb, ltb, length, get_elem?, Bool-cases, Option-cases, if◌then◌else◌,
}
use arnm.Result.{is_success}
use arnm.Memory.Machine.{Machine, Host, max_alloc_size}
use arnm.Memory.Arena.{init_arena, borrow_arena, Kind, Arena}
use arnm.Memory.Api.{Arnm, chain, alloc}
use arnm.Memory.Chain.{MultiArena, scan, serve_at, push_arena, open_arena, multi_arena_alloc}
use arnm.Memory.Bounds.{align8_u32_self}
use arnm.Memory.ChainScan.{IsChain, scan-Scanned}
use arnm.Memory.ChainGrowth.{MallocAligned, multi_arena_alloc-Serves}

-- A handle that is a chain in order, as arnm_create_multi_arena makes it.
pub record IsSource (m : Arnm) : Type 0 where
  pub links : MultiArena
  pub is_links : m ≡ chain links
  pub in_order : IsChain links
  pub capacity_small : links.arena_capacity < 4294967296

serve_at-arena_capacity :
    {H : Type 0} (i aligned buffer : ℕ) (m : MultiArena) (w : Machine H)
    → (serve_at i aligned buffer m w).chain.arena_capacity ≡ m.arena_capacity
unfolding serve_at
serve_at-arena_capacity i aligned buffer m w = elim (Option-cases (get_elem? m.arenas i)) [
  | inl gone ↦ rw (gone, serve_at) refl
  | inr (a, e) ↦ rw (e, serve_at) refl
]

module _ {H : Type 0} (os : Host H) where
  push_arena-arena_capacity :
      (a : Arena) (m : MultiArena) (w : Machine H)
      → (push_arena os a m w).1.arena_capacity ≡ m.arena_capacity
  unfolding push_arena
  push_arena-arena_capacity a m w =
      elim (Bool-cases (is_success (os.vector_room (length m.arenas) w).0)) [
        | inl room ↦ rw (room, push_arena) refl
        | inr full ↦ rw (full, push_arena) refl
      ]

  open_arena-arena_capacity :
      (aligned buffer : ℕ) (m : MultiArena) (w : Machine H)
      → (open_arena os aligned buffer m w).chain.arena_capacity ≡ m.arena_capacity
  unfolding open_arena
  open_arena-arena_capacity aligned buffer m w =
      let capacity = if ltb m.arena_capacity aligned then aligned else m.arena_capacity in
      let opened = init_arena os capacity w in
      elim (Option-cases opened.1) [
        | inl z ↦ rw (z, open_arena) refl
        | inr (a, z) ↦
            let pushed = push_arena os a m opened.2 in
            let keeps = push_arena-arena_capacity a m opened.2 in
            rw (z, open_arena)
              (elim (Bool-cases (is_success pushed.0)) [
                | inr full ↦ rw full keeps
                | inl done ↦ rw done (
                    serve_at-arena_capacity (length m.arenas) aligned buffer pushed.1 pushed.2
                    ∙ keeps)
              ])
      ]

  multi_arena_alloc-arena_capacity :
      (aligned buffer : ℕ) (m : MultiArena) (w : Machine H)
      → IsChain m
      → (multi_arena_alloc os aligned buffer m w).chain.arena_capacity ≡ m.arena_capacity
  unfolding multi_arena_alloc
  multi_arena_alloc-arena_capacity aligned buffer m w c =
      let found = scan aligned (length m.arenas - m.first_open) m.first_open m in
      let s =
        scan-Scanned aligned (length m.arenas - m.first_open) m.first_open m c (omega arith) in
      elim (Bool-cases (aligned == 0)) [
        | inl nothing ↦ rw (nothing, multi_arena_alloc) refl
        | inr more ↦
            rw (more, multi_arena_alloc)
              (elim (Option-cases found.0) [
                | inr (j, e) ↦
                    rw e (serve_at-arena_capacity j aligned buffer found.1 w ∙ s.arena_capacity)
                | inl e ↦
                    rw e
                      (elim (Bool-cases
                        (not (m.arena_max_count == 0) && leb m.arena_max_count (length m.arenas))) [
                          | inl full ↦ rw full s.arena_capacity
                          | inr room ↦ rw room (
                              open_arena-arena_capacity aligned buffer found.1 w ∙ s.arena_capacity)
                        ])
              ])
      ]

-- A block on the grid is borrowed whole.
pub borrow_arena-fresh :
    (block capacity : ℕ)
    → block ≢ 0
    → block % 8 ≡ 0
    → 0 < capacity
    → capacity % 8 ≡ 0
    → capacity ≤ max_alloc_size
    → (borrow_arena block capacity).1
      ≡ some record {
        base = block;
        last_index = 0;
        capacity = capacity;
        out_of_memory_capacity = 0;
        kind = Kind.external;
      }
unfolding borrow_arena
borrow_arena-fresh block capacity there grid pos on_grid small =
    let self = align8_u32_self capacity on_grid small in rw self (ground arith)

module _ {H : Type 0} (os : Host H) (grid : MallocAligned os) where
  -- A pool's request for an arena leaves a chain, and on success the address of a block on the grid.
  pub alloc-IsSource :
      (m : Arnm) (capacity : ℕ) (w : Machine H)
      → IsSource m
      → 0 < capacity
      → capacity % 8 ≡ 0
      → capacity ≤ max_alloc_size
      → let r = alloc os (some 0) capacity (some m) w in
        (c : Arnm) × (r.handle ≡ some c)
        × IsSource c
        × ((is_success r.result ≡ false)
            ⊎ ((is_success r.result ≡ true)
                × (block : ℕ) × (r.buffer ≡ some block)
                × (block ≢ 0)
                × (block % 8 ≡ 0)))
  unfolding alloc
  alloc-IsSource m capacity w src pos on_grid small =
      let c = src.links in
      let self = align8_u32_self capacity on_grid small in
      let r = multi_arena_alloc os capacity 0 c w in
      let s =
        multi_arena_alloc-Serves os grid capacity 0 c w on_grid (omega arith) src.capacity_small
          src.in_order in
      let keeps = multi_arena_alloc-arena_capacity os capacity 0 c w src.in_order in
      let some_bytes : (capacity == 0) ≡ false = ground arith in
      let after : IsSource (chain r.chain) = record {
        links = r.chain;
        is_links = refl;
        in_order = s.is_chain;
        capacity_small = rw keeps src.capacity_small;
      } in
      rw (src.is_links, some_bytes, self, some_bytes)
        (
          chain r.chain,
          refl,
          after,
          elim s.outcome [
            | inr (refused, same) ↦ inl refused
            | inl (served, j, a, here, ends, low, on) ↦
                let (valid, based) = s.is_chain.arenas_valid j a here in
                inr (served, r.buffer, refl, λ null. based (omega arith), on)
          ],
        )
