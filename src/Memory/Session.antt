-- ===== src/Memory/Session.antt =====
-- A client of one arena: the blocks it holds, newest ground first, and its calls of arnm_alloc,
-- arnm_free, arnm_realloc and arnm_reset (src/memory.c) in any order and on any of its blocks.
use arnm.Base.{
  ℕ, zero, suc, ◌==◌, Option, none, some, List, [], ◌∷◌, Bool, true, false, if◌then◌else◌,
  get_elem?, set,
}
use arnm.Result.{Result, success, is_success, warning_arena_memory_not_reclaimed}
use arnm.Memory.Machine.{Machine, Host}
use arnm.Memory.Arena.{Arena}
use arnm.Memory.Api.{Arnm, Reply, alloc, free, reset}
use arnm.Memory.Realloc.{realloc}

-- A block as the client knows it: its address, and the size that it asked for.
pub record Block : Type 0 where
  pub addr : ℕ
  pub size : ℕ

pub record Session (H : Type 0) : Type 0 where
  pub arena : Arena
  pub machine : Machine H
  pub live : List Block

-- The calls; a number names a held block by its place.
pub data Call : Type 0 where
  allocate : ℕ → Call
  release : ℕ → Call
  resize : ℕ → ℕ → Call
  clear : Call

abbrev pub remove : List Block → ℕ → List Block
remove [] i = []
remove (x ∷ xs) zero = xs
remove (x ∷ xs) (suc i) = x ∷ remove xs i

-- the arena behind a handle that a call gives back
abbrev pub arena_of : Arena → Option Arnm → Arena
arena_of a (some (Arnm.arena b)) = b
arena_of a _ = a

-- the block at the address that came back, if one did
abbrev pub hold : Option ℕ → ℕ → List Block → List Block
hold none size live = live
hold (some p) size live = record { addr = p; size = size } ∷ live

abbrev pub is_done : Result → Bool
is_done success = true
is_done warning_arena_memory_not_reclaimed = true
is_done _ = false

-- A block that stays where it is keeps its place; one that moved is the newest.
unfoldable pub resize_live : {H : Type 0} → Reply H → ℕ → Block → ℕ → List Block → List Block
resize_live r i x size live =
    if is_done r.result
    then if size == 0 then remove live i else elim r.buffer [
      | none ↦ live
      | some p ↦
          if p == x.addr
          then set live i (record { addr = p; size = size })
          else record { addr = p; size = size } ∷ remove live i
    ]
    else live

module _ {H : Type 0} (os : Host H) where
  unfoldable pub allocate_step : ℕ → Session H → Session H
  unfolding is_success
  allocate_step size s =
      let r = alloc os (some 0) size (some (Arnm.arena s.arena)) s.machine in
      record {
        arena = arena_of s.arena r.handle;
        machine = r.machine;
        live = if is_success r.result then hold r.buffer size s.live else s.live;
      }

  unfoldable pub release_step : ℕ → Block → Session H → Session H
  release_step i x s =
      let (_, m, w) = free os x.addr x.size (some (Arnm.arena s.arena)) s.machine in
      record { arena = arena_of s.arena m; machine = w; live = remove s.live i }

  unfoldable pub resize_step : ℕ → Block → ℕ → Session H → Session H
  unfolding resize_live
  resize_step i x size s =
      let r = realloc os (some x.addr) x.size size (some (Arnm.arena s.arena)) s.machine in
      record {
        arena = arena_of s.arena r.handle;
        machine = r.machine;
        live = resize_live r i x size s.live;
      }

  unfoldable pub clear_step : Session H → Session H
  unfolding reset
  clear_step s = record s {
    arena = arena_of s.arena (reset (some (Arnm.arena s.arena)));
    live = [];
  }

  -- A call that names no held block is none.
  unfoldable pub step : Call → Session H → Session H
  step (allocate size) s = allocate_step size s
  step (release i) s = elim (get_elem? s.live i) [ none ↦ s | some x ↦ release_step i x s ]
  step (resize i size) s = elim (get_elem? s.live i) [ none ↦ s | some x ↦ resize_step i x size s ]
  step clear s = clear_step s

  unfoldable pub run : List Call → Session H → Session H
  unfolding step
  run [] s = s
  run (c ∷ cs) s = run cs (step c s)
