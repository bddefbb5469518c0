-- ===== src/FixedRing/Queue.antt =====
-- What a client of src/fixed_ring.c is promised: a bounded queue, front first, which refuses what
-- does not fit and what is not there.
use arnm.Base.{ℕ, Option, none, some, List, [], ◌∷◌, ◌++◌, ◌==◌, if◌then◌else◌, length}
use arnm.Result.{Result, success, error_resource_exhausted, error_array_index_out_of_bounds}

-- The calls of a client, and what it sees of each: the answer, and an element if one came out.
pub data Call (A : Type 0) : Type 0 where
  push : A → Call A
  pop : Call A
  -- with what the element copied to held before
  take_front : A → Call A
  clear : Call A

abbrev pub Seen : Type 0 → Type 0
Seen A = Result × Option A

module _ {A : Type 0} where
  unfoldable pub queue_step : ℕ → List A → Call A → Seen A × List A
  queue_step cap q (push x) =
      if length q == cap
      then ((error_resource_exhausted, none), q)
      else ((success, none), q ++ x ∷ [])
  queue_step cap [] pop = ((error_array_index_out_of_bounds, none), [])
  queue_step cap (x ∷ q) pop = ((success, none), q)
  queue_step cap [] (take_front old) = ((error_array_index_out_of_bounds, none), [])
  queue_step cap (x ∷ q) (take_front old) = ((success, some x), q)
  queue_step cap q clear = ((success, none), [])

  unfoldable pub queue_run : ℕ → List A → List (Call A) → List (Seen A)
  queue_run cap q [] = []
  queue_run cap q (c ∷ cs) = (queue_step cap q c).0 ∷ queue_run cap (queue_step cap q c).1 cs
