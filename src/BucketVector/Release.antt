-- ===== src/BucketVector/Release.antt =====
-- The calls of src/bucket_vector.c that give memory back.
use arnm.Base.{
  ℕ, zero, suc, ◌+◌, ◌-◌, Option, none, some, List, Bool, true, false, [], ◌==◌, not, ◌||◌,
  if◌then◌else◌, get_elem?, set, take,
}
use arnm.Result.{Result, success, is_success, error_invalid_state}
use arnm.Memory.Machine.{Machine, Host}
use arnm.Memory.Api.{Arnm, default, arena, chain, free}
use arnm.Memory.Realloc.{realloc}
use arnm.BucketVector.{
  Slot, Bvec, bucket_bytes, bucket_count_allocated, is_state_valid, bucket_count, init,
}
use arnm.BucketVector.Growth.{Grown, answer, index_bytes, address_of, is_resized}

-- releases_newest_first, which asks arnm_is_arena of include/arnm/arena.h
unfoldable pub releases_newest_first : Option Arnm → Bool
releases_newest_first none = false
releases_newest_first (some default) = false
releases_newest_first (some (arena a)) = true
releases_newest_first (some (chain c)) = true

-- Where a walk over the buckets stopped, and what it left.
pub record Released (A H : Type 0) : Type 0 where
  pub stopped : ℕ
  pub index : List (Slot A)
  pub allocator : Option Arnm
  pub machine : Machine H

-- the address of the slot's bucket, if it holds one
abbrev pub held_at : {A : Type 0} → List (Slot A) → ℕ → Option ℕ
held_at index k = elim (get_elem? index k) [
  | none ↦ none
  | some none ↦ none
  | some (some b) ↦ some b.addr
]

module _ {A H : Type 0} (os : Host H) where
  -- The walk of arnm_bvec_shrink from the top down, with `left` buckets above `used_before`: it ends
  -- at the first bucket that the allocator does not take back.
  unfoldable pub release_down :
      (left used_before bytes : ℕ) → List (Slot A) → Option Arnm → Machine H → Released A H
  release_down zero used_before bytes index m w = record {
    stopped = used_before;
    index = index;
    allocator = m;
    machine = w;
  }
  release_down (suc left) used_before bytes index m w = elim (held_at index (used_before + left)) [
    | none ↦ release_down left used_before bytes index m w
    | some p ↦
        let (r, m', w') = free os p bytes m w in
        let rest =
          release_down left used_before bytes (set index (used_before + left) none) m' w' in
        if is_success r then rest else record {
          stopped = used_before + suc left;
          index = index;
          allocator = m';
          machine = w';
        }
  ]

  -- the walk from the bottom up, with `left` buckets to go from `k` on
  unfoldable pub release_up :
      (left k bytes : ℕ) → List (Slot A) → Option Arnm → Machine H → Released A H
  release_up zero k bytes index m w = record {
    stopped = k;
    index = index;
    allocator = m;
    machine = w;
  }
  release_up (suc left) k bytes index m w = elim (held_at index k) [
    | none ↦ release_up left (suc k) bytes index m w
    | some p ↦
        let (r, m', w') = free os p bytes m w in
        release_up left (suc k) bytes (set index k none) m' w'
  ]

  -- both walks of arnm_bvec_shrink; behind the second, `i` is `used_before` again
  unfoldable pub release_unused : Bvec A → Option Arnm → Machine H → Released A H
  release_unused v m w =
      let used_before = bucket_count v in
      let spare = bucket_count_allocated v - used_before in
      if releases_newest_first m
      then release_down spare used_before (bucket_bytes v) v.index m w
      else record (release_up spare used_before (bucket_bytes v) v.index m w) {
        stopped = used_before;
      }

  -- The last part of arnm_bvec_shrink: the index array goes back, or is tightened to `i` slots.
  unfoldable pub tighten : Bvec A → ℕ → Option Arnm → Machine H → Grown A H
  tighten v i m w =
      if i == 0
      then (let (r, m', w') = free os v.buckets (index_bytes v.bucket_capacity) m w in
          if is_success r
          then answer success (record v { buckets = 0; index = []; bucket_capacity = 0 }) m' w'
          else answer success v m' w')
      else if i == v.bucket_capacity
      then answer success v m w
      else let r =
          realloc os (some v.buckets) (index_bytes v.bucket_capacity) (index_bytes i) m w in
        let v' = record v { buckets = address_of r.buffer v.buckets } in
        if is_success r.result
        then answer success (record v' { index = take i v.index; bucket_capacity = i }) r.handle
            r.machine
        else if is_resized r.result
        then answer success v' r.handle r.machine
        else answer r.result v' r.handle r.machine

  -- arnm_bvec_shrink behind its NULL check
  unfoldable pub shrink : Bvec A → Option Arnm → Machine H → Grown A H
  shrink v m w =
      if v.buckets == 0
      then answer success v m w
      else if not (is_state_valid v)
      then answer error_invalid_state v m w
      else let s = release_unused v m w in
        tighten (record v { index = s.index; allocated_count = s.stopped }) s.stopped s.allocator
          s.machine

  -- The loops of arnm_bvec_free, which stop for no answer of the allocator.
  unfoldable pub free_down :
      ℕ → ℕ → List (Slot A) → Option Arnm → Machine H → Option Arnm × Machine H
  free_down zero bytes index m w = (m, w)
  free_down (suc i) bytes index m w = elim (held_at index i) [
    | none ↦ free_down i bytes index m w
    | some p ↦ let (r, m', w') = free os p bytes m w in free_down i bytes index m' w'
  ]

  unfoldable pub free_up :
      (left k bytes : ℕ) → List (Slot A) → Option Arnm → Machine H → Option Arnm × Machine H
  free_up zero k bytes index m w = (m, w)
  free_up (suc left) k bytes index m w = elim (held_at index k) [
    | none ↦ free_up left (suc k) bytes index m w
    | some p ↦ let (r, m', w') = free os p bytes m w in free_up left (suc k) bytes index m' w'
  ]

  -- the vector that arnm_bvec_init leaves, where it refuses nothing
  or_else : Result × Option (Bvec A) → Bvec A → Bvec A
  or_else (r, none) v = v
  or_else (r, some v') v = v'

  -- arnm_bvec_free on a vector that is there; the call of arnm_bvec_init discards its answer
  unfoldable pub free_vector : Bvec A → Option Arnm → Machine H → Bvec A × Option Arnm × Machine H
  unfolding or_else
  free_vector v m w =
      if v.buckets == 0 || v.element_size == 0
      then (v, m, w)
      else let count = bucket_count_allocated v in
        let (m1, w1) =
          if releases_newest_first m
          then free_down count (bucket_bytes v) v.index m w
          else free_up count 0 (bucket_bytes v) v.index m w in
        let (r, m2, w2) = free os v.buckets (index_bytes v.bucket_capacity) m1 w1 in
        (
          or_else (init (some v) v.bucket_capacity_max_log2 v.index_grow_step_size v.element_size)
              v,
          m2,
          w2,
        )
