-- ===== src/FixedRing/Tests.antt =====
-- The ring of src/fixed_ring.c on concrete elements, and each theorem about it at one of them.
use arnm.Base.{
  ℕ, ◌+◌, ◌≡◌, ◌≢◌, refl, List, [], ◌∷◌, ◌++◌, none, some, arith, get_elem?, drop, ltb,
  if◌then◌else◌,
}
use arnm.Result.{
  success, error_destination_buffer_to_small, error_resource_exhausted,
  error_array_index_out_of_bounds,
}
use arnm.FixedRing.{Ring, slot, copy_to, at}
use arnm.FixedRing.Window.{around}
use arnm.FixedRing.Queue.{Call, queue_step, queue_run}
use arnm.FixedRing.Refine.{IsValid, contents}
use arnm.FixedRing.Runs.{ring_run, ring_run-refines, at-contents, slot_wraps, copy_to-contents}

-- Three slots, whose two elements go round the end.
abbrev bent : Ring ℕ
bent = record {
  slots = 4096;
  cells = 22 ∷ 0 ∷ 11 ∷ [];
  capacity = 3;
  head = 2;
  size = 2;
  element_size = 8;
}

bent-IsValid : IsValid bent
bent-IsValid = ground arith

abbrev some_calls : List (Call ℕ)
some_calls =
    Call.push 33 ∷ Call.push 44 ∷ Call.take_front 0 ∷ Call.pop ∷ Call.take_front 0 ∷ Call.pop ∷ []

-- The queue gives its elements in the order they came, and refuses the one too many.
queue_answers :
    queue_run 3 (11 ∷ 22 ∷ []) some_calls
    ≡ (success, none)
      ∷ (error_resource_exhausted, none)
      ∷ (success, some 11)
      ∷ (success, none)
      ∷ (success, some 33)
      ∷ (error_array_index_out_of_bounds, none)
      ∷ []
unfolding queue_run queue_step
queue_answers = refl

ring_run-refines_example : ring_run (some bent) some_calls ≡ queue_run 3 (contents bent) some_calls
ring_run-refines_example = ring_run-refines some_calls bent bent-IsValid

at-contents_example : at bent 1 ≡ get_elem? (contents bent) 1
at-contents_example = at-contents bent 1 bent-IsValid

copy_to-contents_example : copy_to (some bent) (some (7 ∷ 7 ∷ 7 ∷ [])) 3 ≡ (
    if ltb 3 2
    then (error_destination_buffer_to_small, some (7 ∷ 7 ∷ 7 ∷ []))
    else (success, some (contents bent ++ drop 2 (7 ∷ 7 ∷ 7 ∷ []))))
copy_to-contents_example = copy_to-contents bent (7 ∷ 7 ∷ 7 ∷ []) 3 bent-IsValid

-- A ring of one byte elements as large as init accepts, with its front near the end.
abbrev huge : Ring ℕ
huge = record bent { capacity = 4294967288; head = 4294967280; size = 100; element_size = 1 }

slot_wraps_example : slot huge 16 ≢ around huge.capacity (huge.head + 16)
slot_wraps_example = slot_wraps huge 16 (omega arith) (omega arith) (omega arith) (omega arith)
