-- ===== src/Memory/ChainOwner.antt =====
-- multi_arena_find_owner and what arnm_free does to a chain (src/memory.c).
use arnm.Base.{
  ℕ, zero, suc, ◌+◌, ◌-◌, ◌≤◌, ◌<◌, ◌≡◌, ◌≢◌, ◌⊎◌, inl, inr, sym, ◌∙◌, List, none, some, true,
  false, arith, get_elem?, length, length-set, ◌==◌, ltb, leb, Bool-cases, Option-cases,
  if◌then◌else◌, not, ◌&&◌, leb→le, ltb→lt,
}
use native.Mathlib.Decide.{ℕ_discrete}
use arnm.Memory.Machine.{Machine, Host, align8_u32}
use arnm.Memory.Arena.{Arena, remaining_bytes, is_reclaimable, pull_back}
use arnm.Memory.Chain.{MultiArena, owns, owner_from, find_owner, reopen, arena_is_used_up}
use arnm.Memory.Api.{chain, put, owner, free}
use arnm.Memory.Bounds.{IsValid, align8_u32_bounds, pull_back-IsValid}
use arnm.Memory.ChainScan.{IsChain, get_elem?-lt}
use arnm.Memory.ChainAlloc.{get_elem?-set_cases, set-IsChain}

-- the position that the loop looks at
abbrev position : ℕ → ℕ → ℕ → ℕ
position count start seen = if leb count (start + seen) then start + seen - count else start + seen

module _ (arenas : List Arena) (buffer start : ℕ) where
  owner_from-some :
      (left seen i : ℕ)
      → owner_from arenas buffer start left seen ≡ some i
      → (a : Arena) × (get_elem? arenas i ≡ some a) × (owns buffer a ≡ true)
  unfolding owner_from
  owner_from-some zero seen i e = absurd (ground arith)
  owner_from-some (suc left) seen i e =
      let k = position (length arenas) start seen in
      elim (Option-cases (get_elem? arenas k)) [
        | inl gone ↦ owner_from-some left (suc seen) i (rw (gone, owner_from) at e)
        | inr (a, here) ↦ elim (Bool-cases (owns buffer a)) [
          | inl mine ↦
              let same : k ≡ i = let f = rw (here, owner_from, mine) at e in cc in
              (a, rw (← same) here, mine)
          | inr other ↦ owner_from-some left (suc seen) i (rw (here, owner_from, other) at e)
        ]
      ]

  owner_from-none :
      (left seen : ℕ)
      → owner_from arenas buffer start left seen ≡ none
      → (k : ℕ) (a : Arena) → seen ≤ k
      → k < seen + left
      → get_elem? arenas (position (length arenas) start k) ≡ some a
      → owns buffer a ≡ false
  unfolding owner_from
  owner_from-none zero seen e k a lo hi f = absurd (omega arith)
  owner_from-none (suc left) seen e k a lo hi f =
      let p = position (length arenas) start seen in
      elim (Option-cases (get_elem? arenas p)) [
        | inl gone ↦ elim (ℕ_discrete k seen) [
          | yes now ↦ let g = rw now at f in absurd (ground arith)
          | no later ↦
              owner_from-none left (suc seen) (rw (gone, owner_from) at e) k a (omega arith)
                (omega arith) f
        ]
        | inr (b, here) ↦ elim (Bool-cases (owns buffer b)) [
          | inl mine ↦ let g = rw (here, owner_from, mine) at e in absurd (ground arith)
          | inr other ↦ elim (ℕ_discrete k seen) [
            | yes now ↦
                let same : some b ≡ some a = sym here ∙ rw now at f in
                let it : b ≡ a = cc in rw (← it) other
            | no later ↦
                owner_from-none left (suc seen) (rw (here, owner_from, other) at e) k a
                  (omega arith) (omega arith) f
          ]
        ]
      ]

-- the arena that the loop starts at
abbrev start_of : MultiArena → ℕ
start_of m = if ltb m.first_open (length m.arenas) then m.first_open else 0

find_owner-enter :
    (m : MultiArena) (buffer : ℕ)
    → buffer ≢ 0
    → find_owner m buffer ≡ owner_from m.arenas buffer (start_of m) (length m.arenas) 0
unfolding find_owner
find_owner-enter m buffer nz = ground arith

-- Where multi_arena_find_owner answers a position for an address that is not NULL, an arena stands
-- there, and the address falls into its block.
pub find_owner-some :
    (m : MultiArena) (buffer i : ℕ)
    → buffer ≢ 0
    → find_owner m buffer ≡ some i
    → (a : Arena) × (get_elem? m.arenas i ≡ some a)
      × (a.base ≤ buffer)
      × (buffer < a.base + a.capacity)
unfolding owns
find_owner-some m buffer i nz e =
    let entered = find_owner-enter m buffer nz in
    let (a, here, mine) =
      owner_from-some m.arenas buffer (start_of m) (length m.arenas) 0 i (sym entered ∙ e) in
    (a, here, ground arith, ground arith)

-- Where multi_arena_find_owner answers none for an address that is not NULL, the address falls
-- into no arena of the chain that has a block, before the marker or behind it.
pub find_owner-none :
    (m : MultiArena) (buffer i : ℕ) {a : Arena}
    → buffer ≢ 0
    → find_owner m buffer ≡ none
    → get_elem? m.arenas i ≡ some a
    → a.base ≢ 0
    → (buffer < a.base) ⊎ (a.base + a.capacity ≤ buffer)
unfolding owns
find_owner-none m buffer i {a} nz e here based =
    let entered = find_owner-enter m buffer nz in
    let count = length m.arenas in
    let start = start_of m in
    let lt = get_elem?-lt m.arenas i here in
    let k = if leb start i then i - start else i + count - start in
    let at_i : position count start k ≡ i = ground arith in
    let other =
      owner_from-none m.arenas buffer start count 0 (sym entered ∙ e) k a (omega arith)
        (ground arith) (rw at_i here) in
    ground arith

-- An arena of the chain got bytes back: the marker returns to it unless it is still used up.
pub reopen-IsChain :
    (m : MultiArena) (i : ℕ) (a : Arena)
    → IsChain m
    → IsValid a
    → a.base ≢ 0
    → i < length m.arenas
    → IsChain (reopen i a (put i a m))
unfolding reopen
reopen-IsChain m i a c v based lt = elim (Bool-cases (ltb i m.first_open)) [
  | inr after ↦ rw (after, reopen) (set-IsChain m i a c v based (λ h. absurd (ground arith)))
  | inl before ↦ elim (Bool-cases (arena_is_used_up (remaining_bytes a) m.full_remaining)) [
    | inl up ↦
        rw (before, up, reopen)
          (set-IsChain m i a c v based (λ _. unfold arena_is_used_up in leb→le _ _ up))
    | inr has ↦
        rw (before, has, reopen)
          (record {
            arenas_valid = λ j b e. elim (get_elem?-set_cases m.arenas i j a e) [
              | inl (same, is) ↦ rw (← is) (v, based)
              | inr (other, old) ↦ c.arenas_valid j b old
            ];
            closed = λ j b h e. elim (get_elem?-set_cases m.arenas i j a e) [
              | inl (same, is) ↦ absurd (omega arith)
              | inr (other, old) ↦ c.closed j b (omega (arith, ltb→lt i m.first_open before)) old
            ];
            marked = rw length-set (omega arith);
          })
  ]
]

owner-get :
    (m : MultiArena) (buffer i : ℕ) (a : Arena)
    → buffer ≢ 0
    → owner m buffer ≡ some (i, a)
    → (get_elem? m.arenas i ≡ some a) × (a.base ≤ buffer) × (buffer < a.base + a.capacity)
unfolding owner
owner-get m buffer i a nz e = elim (Option-cases (find_owner m buffer)) [
  | inl gone ↦ let f = rw (gone, owner) at e in absurd (ground arith)
  | inr (j, at_j) ↦
      let (b, here, above, below) = find_owner-some m buffer j nz at_j in
      let f = rw (at_j, owner) at e in
      let same_i : j ≡ i = ground arith in
      let same_a : b ≡ a = ground arith in
      (rw (← same_i, ← same_a) here, rw (← same_a) above, rw (← same_a) below)
]

reclaimable-le :
    (buffer aligned : ℕ) (a : Arena)
    → buffer ≢ 0
    → a.base ≤ buffer
    → is_reclaimable buffer aligned a ≡ true
    → aligned ≤ a.last_index
unfolding is_reclaimable
reclaimable-le buffer aligned a nz above h = ground arith

-- arnm_free on a chain, with any address but NULL and any uint32_t size, leaves a chain: every
-- arena stays valid, and the marker has passed none that has room again.
pub free-IsChain :
    {H : Type 0} (os : Host H) (buffer size : ℕ) (m : MultiArena) (w : Machine H)
    → buffer ≢ 0
    → size < 4294967296
    → IsChain m
    → (m' : MultiArena) × ((free os buffer size (some (chain m)) w).1 ≡ some (chain m'))
      × IsChain m'
unfolding free
free-IsChain os buffer size m w nz small c =
    let aligned = align8_u32 size in
    elim (Bool-cases (not (size == 0) && aligned == 0)) [
      | inl huge ↦ (m, rw (huge, free), c)
      | inr fine ↦ elim (Option-cases (owner m buffer)) [
        | inl gone ↦ (m, ground arith, c)
        | inr ((i, a), e) ↦
            let (here, above, below) = owner-get m buffer i a nz e in
            let (v, based) = c.arenas_valid i a here in
            let a' = pull_back aligned a in
            elim (Bool-cases (is_reclaimable buffer aligned a)) [
              | inr buried ↦ (m, ground arith, c)
              | inl last ↦ (
                reopen i a' (put i a' m),
                ground arith,
                reopen-IsChain m i a' c
                    (pull_back-IsValid aligned (align8_u32_bounds size small).0
                      (reclaimable-le buffer aligned a nz above last) v)
                    (unfold pull_back in based) (get_elem?-lt m.arenas i here),
              )
            ]
      ]
    ]
