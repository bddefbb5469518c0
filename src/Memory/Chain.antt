-- ===== src/Memory/Chain.antt =====
-- The chain of arenas of src/memory.c. The bucket vector that holds the arenas is their list,
-- oldest first; whether it can take one more is the host's answer (`Host.vector_room`).
use arnm.Base.{
  ℕ, zero, suc, ◌+◌, ◌-◌, Option, none, some, List, [], ◌∷◌, ◌++◌, Bool, true, false, ltb, leb,
  ◌==◌, not, ◌&&◌, if◌then◌else◌, length, get_elem?, set,
}
use arnm.Result.{
  Result, success, is_success, error_invalid_param, error_resource_exhausted, error_invalid_state,
}
use arnm.Memory.Machine.{Machine, Host}
use arnm.Memory.Arena.{Arena, remaining_bytes, alloc_in_arena, init_arena, release_arena}

-- `arnm_multi_arena`
pub record MultiArena : Type 0 where
  pub arenas : List Arena
  pub arena_capacity : ℕ
  pub arena_max_count : ℕ
  pub full_remaining : ℕ
  pub first_open : ℕ

-- arnm_arena_is_used_up
unfoldable pub arena_is_used_up : ℕ → ℕ → Bool
arena_is_used_up remaining full_remaining = leb remaining full_remaining

-- the test of multi_arena_find_owner on one arena
unfoldable pub owns : ℕ → Arena → Bool
owns buffer a = not (a.base == 0) && leb a.base buffer && ltb (buffer - a.base) a.capacity

-- Its loop: `left` rounds to go, at position `start + seen`, round the end once.
unfoldable pub owner_from : List Arena → ℕ → ℕ → ℕ → ℕ → Option ℕ
unfolding owns
owner_from arenas buffer start zero seen = none
owner_from arenas buffer start (suc left) seen =
    let count = length arenas in
    let index = if leb count (start + seen) then start + seen - count else start + seen in
    let rest = owner_from arenas buffer start left (suc seen) in
    elim (get_elem? arenas index) [
      | none ↦ rest
      | some a ↦ if owns buffer a then some index else rest
    ]

-- multi_arena_find_owner: the position of the arena that an address falls into
unfoldable pub find_owner : MultiArena → ℕ → Option ℕ
unfolding owner_from
find_owner m buffer =
    if buffer == 0
    then none
    else let count = length m.arenas in
      let start = if ltb m.first_open count then m.first_open else 0 in
      owner_from m.arenas buffer start count 0

-- multi_arena_reopen, for the arena that bytes came back to
unfoldable pub reopen : ℕ → Arena → MultiArena → MultiArena
unfolding arena_is_used_up
reopen index a m =
    if ltb index m.first_open && not (arena_is_used_up (remaining_bytes a) m.full_remaining)
    then record m { first_open = index }
    else m

-- The scan of multi_arena_alloc from arena `i` on, `left` arenas to go: the arena that serves
-- the request, and the marker as the scan left it.
unfoldable pub scan : ℕ → ℕ → ℕ → MultiArena → Option ℕ × MultiArena
unfolding arena_is_used_up
scan aligned zero i m = (none, m)
scan aligned (suc left) i m = elim (get_elem? m.arenas i) [
  | none ↦ (none, m)
  | some a ↦ elim (arena_is_used_up (remaining_bytes a) m.full_remaining) [
    | true ↦
        scan aligned left (suc i)
          (if i == m.first_open then record m { first_open = suc m.first_open } else m)
    | false ↦ elim (leb aligned (remaining_bytes a)) [
      | true ↦ (some i, m)
      | false ↦ scan aligned left (suc i) m
    ]
  ]
]

-- What a call on a chain leaves behind.
pub record ChainReply (H : Type 0) : Type 0 where
  pub result : Result
  pub buffer : ℕ
  pub chain : MultiArena
  pub machine : Machine H

-- `arena_alloc_aligned` on the arena at one position, written back through its pointer
unfoldable pub serve_at : {H : Type 0} → ℕ → ℕ → ℕ → MultiArena → Machine H → ChainReply H
serve_at i aligned buffer m w = elim (get_elem? m.arenas i) [
  | none ↦ record { result = error_invalid_state; buffer = buffer; chain = m; machine = w }
  | some a ↦
      let served = alloc_in_arena buffer aligned a in
      record {
        result = served.result;
        buffer = served.buffer;
        chain = record m { arenas = set m.arenas i served.arena };
        machine = w;
      }
]

module _ {H : Type 0} (os : Host H) where
  -- multi_arena_push: an arena that finds no room is released again
  unfoldable pub push_arena : Arena → MultiArena → Machine H → Result × MultiArena × Machine H
  unfolding is_success
  push_arena a m w =
      let (r, w') = os.vector_room (length m.arenas) w in
      if is_success r
      then (success, record m { arenas = m.arenas ++ a ∷ [] }, w')
      else (r, m, (release_arena os a w').1)

  -- The second half of multi_arena_alloc: no arena had room.
  unfoldable pub open_arena : ℕ → ℕ → MultiArena → Machine H → ChainReply H
  unfolding push_arena is_success
  open_arena aligned buffer m w =
      let capacity = if ltb m.arena_capacity aligned then aligned else m.arena_capacity in
      let (r, fresh, w') = init_arena os capacity w in
      elim fresh [
        | none ↦ record { result = r; buffer = buffer; chain = m; machine = w' }
        | some a ↦
            let (pushed, m', w'') = push_arena a m w' in
            if is_success pushed
            then serve_at (length m.arenas) aligned buffer m' w''
            else record { result = pushed; buffer = buffer; chain = m'; machine = w'' }
      ]

  -- multi_arena_alloc
  unfoldable pub multi_arena_alloc : ℕ → ℕ → MultiArena → Machine H → ChainReply H
  unfolding scan serve_at open_arena
  multi_arena_alloc aligned buffer m w =
      if aligned == 0
      then record { result = error_invalid_param; buffer = buffer; chain = m; machine = w }
      else let (found, m') = scan aligned (length m.arenas - m.first_open) m.first_open m in
        elim found [
          | some i ↦ serve_at i aligned buffer m' w
          | none ↦
              if not (m.arena_max_count == 0) && leb m.arena_max_count (length m.arenas)
              then record {
                result = error_resource_exhausted;
                buffer = buffer;
                chain = m';
                machine = w;
              }
              else open_arena aligned buffer m' w
        ]
