-- ===== src/BucketVector/Tests.antt =====
-- The bucket vector on concrete vectors, and each theorem about it at one of them.
use arnm.Base.{
  ℕ, zero, suc, ◌+◌, ◌*◌, ◌%◌, ◌<◌, ◌≡◌, ◌⊎◌, refl, [], ◌∷◌, ◌++◌, none, some, true, arith, length,
  get_elem?, ltb, if◌then◌else◌, drop,
}
use arnm.Result.{
  success, is_success, error_invalid_param, error_array_index_out_of_bounds,
  error_destination_buffer_to_small,
}
use arnm.Memory.Machine.{Machine, Host, align8_u32}
use arnm.Memory.Api.{free}
use arnm.Memory.Realloc.{realloc, realloc_sized, realloc_default}
use arnm.BucketVector.{Bvec, bucket_count, cells_of, init, pop, at, copy_to}
use arnm.BucketVector.Contents.{cells_at, elements_of, IsValid}
use arnm.BucketVector.Growth.{address_of, is_resized, push_ptr, reserve}
use arnm.BucketVector.Init.{IsInRange, IsOutOfRange, init-IsValid}
use arnm.BucketVector.Reads.{at-elements_of}
use arnm.BucketVector.Pop.{pop-elements_of, copy_to-elements_of}
use arnm.BucketVector.Writes.{addr_of}
use arnm.BucketVector.Push.{push_ptr-elements_of}
use arnm.BucketVector.Calls.{IsGranted}
use arnm.BucketVector.Freed.{addresses}
use arnm.BucketVector.Fewer.{Fewer}
use arnm.BucketVector.Shrinking.{unused_addresses}
use arnm.BucketVector.Reserve.{IsReserved, reserve-IsSound}
use arnm.BucketVector.Reserved.{push_ptr-reserved}

-- A host whose heap is the number of 4096 byte pages it has given out.
abbrev pages : Host ℕ
pages = record {
  malloc = λ n w. (some ((w.heap + 1) * 4096), record w { heap = w.heap + 1 });
  free = λ p w. w;
  realloc = λ p n w. (some ((w.heap + 1) * 4096), record w { heap = w.heap + 1 });
  vector_room = λ n w. (success, w);
  vector_reserve = λ n w. (success, w);
  vector_shrink = λ n w. (success, w);
}

abbrev machine : Machine ℕ
machine = record { bytes = λ p. p % 256; heap = 0 }

-- two buckets of two places, three of them in use, behind an index of three slots
abbrev three : Bvec ℕ
three = record {
  buckets = 4096;
  index =
      some (record { addr = 8192; cells = 10 ∷ 11 ∷ [] })
      ∷ some (record { addr = 12288; cells = 12 ∷ 77 ∷ [] })
      ∷ none
      ∷ [];
  element_size = 4;
  bucket_capacity = 3;
  tail_index = 1;
  tail_used = 1;
  tail = true;
  size = 3;
  bucket_capacity_max_log2 = 1;
  index_grow_step_size = 2;
  allocated_count = 2;
}

three_held : (k : ℕ) → k < 2 → length (cells_at three.index k) ≡ 2
unfolding cells_of
three_held zero lt = refl
three_held (suc zero) lt = refl
three_held (suc (suc k)) lt = absurd (omega arith)

three-IsValid : IsValid three
three-IsValid = record {
  log2_pos = omega arith;
  log2_small = omega arith;
  sized = omega arith;
  sized_small = omega arith;
  steps = omega arith;
  index_length = refl;
  capacity_small = omega arith;
  held = omega arith;
  missing = λ e. absurd (omega arith);
  present = λ e. absurd (omega arith);
  buckets_held = three_held;
  tailed = (omega arith, omega arith, omega arith, refl);
}

-- three elements, the third in the second bucket
three_elements : elements_of three ≡ 10 ∷ 11 ∷ 12 ∷ []
unfolding elements_of cells_of
three_elements = refl

init-IsValid_example :
    (IsInRange 4 12
      × ((v' : Bvec ℕ) × (init (some three) 4 0 12 ≡ (success, some v'))
          × IsValid v'
          × (elements_of v' ≡ [])))
    ⊎ (IsOutOfRange 4 12 × (init (some three) 4 0 12 ≡ (error_invalid_param, some three)))
init-IsValid_example = init-IsValid three 4 0 12

at-elements_of_example : at three 2 ≡ get_elem? (elements_of three) 2
at-elements_of_example = at-elements_of three three-IsValid 2

pop-elements_of_example :
    ((elements_of three ≡ []) × (pop (some three) ≡ (error_array_index_out_of_bounds, some three)))
    ⊎ ((v' : Bvec ℕ) × (x : ℕ) × (pop (some three) ≡ (success, some v'))
        × IsValid v'
        × (elements_of three ≡ elements_of v' ++ x ∷ []))
pop-elements_of_example = pop-elements_of three three-IsValid

copy_to-elements_of_example : copy_to (some three) (some (0 ∷ 0 ∷ 0 ∷ 99 ∷ [])) 4 ≡ (
    if ltb 4 3
    then (error_destination_buffer_to_small, some (0 ∷ 0 ∷ 0 ∷ 99 ∷ []))
    else (success, some (elements_of three ++ drop 3 (0 ∷ 0 ∷ 0 ∷ 99 ∷ []))))
copy_to-elements_of_example = copy_to-elements_of three three-IsValid (0 ∷ 0 ∷ 0 ∷ 99 ∷ []) 4

-- the index array of `three` can grow by its step
three-IsGranted : IsGranted pages 0 three 5 none machine
unfolding realloc realloc_sized realloc_default align8_u32 is_resized address_of
three-IsGranted resized e = let never : 4096 ≡ 0 = e in absurd (omega (arith, never))

push_ptr-elements_of_example :
    let g = push_ptr pages 0 three 13 none machine in
    IsValid g.vector
    × (elements_of g.vector
        ≡ (if is_success g.result then elements_of three ++ 13 ∷ [] else elements_of three))
    × (g.vector.size ≡ (if is_success g.result then 4 else 3))
    × ((k : ℕ) → k < 2 → addr_of (get_elem? g.vector.index k) ≡ addr_of (get_elem? three.index k))
push_ptr-elements_of_example =
    push_ptr-elements_of pages 0 three 13 none machine three-IsValid three-IsGranted

reserve-IsSound_example : IsReserved pages 0 three 9 (reserve pages 0 three 9 none machine)
reserve-IsSound_example = reserve-IsSound pages 0 three 9 none machine three-IsValid three-IsGranted

push_ptr-reserved_example :
    ((push_ptr pages 0 three 13 none machine).result ≡ success)
    × ((push_ptr pages 0 three 13 none machine).allocator ≡ none)
    × ((push_ptr pages 0 three 13 none machine).machine ≡ machine)
push_ptr-reserved_example =
    push_ptr-reserved pages 0 three three-IsValid 13 none machine (omega arith)

-- `three` with one of its elements: its second bucket is not in use
abbrev one_of_two : Bvec ℕ
one_of_two = record three { tail_index = 0; tail_used = 1; size = 1 }

unused_of_two : unused_addresses one_of_two ≡ 12288 ∷ []
unfolding addresses bucket_count
unused_of_two = refl
