-- ===== src/BucketVector/Push.antt =====
-- What an append through arnm_bvec_emplace, arnm_bvec_grow and arnm_bvec_push_ptr does.
use arnm.Base.{
  ℕ, suc, ◌+◌, ◌-◌, ◌%◌, ◌^◌, ◌≤◌, ◌<◌, ◌≡◌, ◌⊎◌, refl, sym, ap, ◌∙◌, Option, [], ◌∷◌, ◌++◌, true,
  false, ltb, ◌==◌, ◌&&◌, if◌then◌else◌, arith, get_elem?, take, lt→ltb, Bool-cases, inl, inr,
  ltb-cases, add32,
}
use native.Mathlib.Decide.{ℕ_discrete}
use arnm.Result.{success, is_success}
use arnm.Memory.Machine.{Machine, Host}
use arnm.Memory.Api.{Arnm}
use arnm.BucketVector.{Bvec, bucket_slots, bucket_count}
use arnm.BucketVector.Contents.{
  cells_at, filled, elements_of, IsValid, pow2_bounds, retail, retail-IsValid,
}
use arnm.BucketVector.Reads.{is_state_valid-IsValid}
use arnm.BucketVector.Pop.{counts_small}
use arnm.BucketVector.Growth.{
  Grown, open_bucket, grow_bucket, grow, emplace, push_ptr, grow_index, add_bucket,
}
use arnm.BucketVector.Writes.{addr_of}
use arnm.BucketVector.Extend.{
  IsKept, IsKept-refl, IsKept-trans, elements_of-IsKept, bucket_count_allocated-IsValid,
}
use arnm.BucketVector.Calls.{
  IsSound, IsGranted, grow_index-IsSound, add_bucket-IsSound, success_succeeds, overflow_fails,
}
use arnm.BucketVector.Place.{
  write_last, IsHandedOut, elements_of-open, open_bucket-lem, IsHandedOut-IsKept,
  bucket_count-IsKept, full_tail, bucket_count_bound,
}

module _ {A H : Type 0} (os : Host H) (junk : A) where
  -- What a call leaves: a place behind the elements of `v` where it answers success, and the
  -- elements of `v` as they were where it does not.
  abbrev pub IsAppendable : Bvec A → Grown A H → Type 0
  IsAppendable v g =
      ((is_success g.result ≡ true) × IsHandedOut v g.vector)
      ⊎ ((is_success g.result ≡ false) × IsSound os junk v g)

  -- room in the open bucket
  pub emplace-room :
      (v : Bvec A) (m : Option Arnm) (w : Machine H)
      → IsValid v
      → v.tail ≡ true
      → v.tail_used < 2 ^ v.bucket_capacity_max_log2
      → (u : Bvec A) × (emplace os junk v m w
          ≡ record { result = success; vector = u; allocator = m; machine = w })
        × IsHandedOut v u
  unfolding emplace
  emplace-room v m w ok opened room =
      let (small, _, _, whole) = counts_small v ok in
      let (low, high) = pow2_bounds v.bucket_capacity_max_log2 ok.log2_pos ok.log2_small in
      let (held, pos, le, sizes) = rw opened at ok.tailed in
      let used = (v.tail_used + 1) % 65536 in
      let more : add32 v.size 1 ≡ suc v.size = omega arith in
      let further : used - 1 ≡ v.tail_used = omega arith in
      (
        retail v v.tail v.tail_index used (add32 v.size 1),
        ground (arith, opened, whole),
        record {
          valid =
              retail-IsValid ok v.tail v.tail_index used (add32 v.size 1)
                (rw opened (held, omega arith, omega arith, omega arith));
          opened = opened;
          elements =
              ap (λ n. filled v.index v.tail_index ++ take n (cells_at v.index v.tail_index))
                further
              ∙ sym (elements_of-open v opened);
          unmoved = λ k lt. refl;
          one_more = more;
        },
      )

  IsAppendable-IsKept :
      (v v' : Bvec A) (g : Grown A H)
      → IsValid v
      → IsKept v v'
      → IsAppendable v' g
      → IsAppendable v g
  IsAppendable-IsKept v v' g ok kept (inl (served, h)) =
      inl (served, IsHandedOut-IsKept v v' g.vector ok kept h)
  IsAppendable-IsKept v v' g ok kept (inr (refused, (valid, kept'))) =
      inr (refused, (valid, IsKept-trans kept kept'))

  -- the rest of arnm_bvec_grow, where a bucket has to be asked for
  grow_bucket-lem :
      (v : Bvec A) (next : ℕ) (m : Option Arnm) (w : Machine H)
      → IsValid v
      → v.tail_used ≡ 2 ^ v.bucket_capacity_max_log2
      → next ≡ bucket_count v
      → next ≡ v.allocated_count
      → v.allocated_count < v.bucket_capacity
      → IsAppendable v (grow_bucket os junk next v m w)
  unfolding grow_bucket
  grow_bucket-lem v next m w ok full e last room =
      let g = add_bucket os junk v m w in
      let ((valid, kept), one_more) = add_bucket-IsSound os junk v m w ok room in
      elim (Bool-cases (is_success g.result)) [
        | inr refused ↦ rw refused (inr (refused, (valid, kept)))
        | inl served ↦
            let same : next ≡ bucket_count g.vector =
              e ∙ sym (bucket_count-IsKept v g.vector kept) in
            let filled_up : g.vector.tail_used ≡ 2 ^ g.vector.bucket_capacity_max_log2 =
              rw (kept.same_used, kept.same_log2) full in
            let (more, _) = one_more served in
            let handed = open_bucket-lem g.vector valid filled_up (rw (← same) (omega arith)) in
            rw served (
              inl (
                served,
                IsHandedOut-IsKept v g.vector (open_bucket g.vector next) ok kept (rw same handed),
              ))
      ]

  -- the same, where the index array has to be resized first
  grow_wider :
      (v : Bvec A) (m : Option Arnm) (w : Machine H)
      → IsValid v
      → v.tail_used ≡ 2 ^ v.bucket_capacity_max_log2
      → bucket_count v ≡ v.allocated_count
      → IsGranted os junk v (v.bucket_capacity + v.index_grow_step_size) m w
      → v.bucket_capacity + v.index_grow_step_size ≤ 8191
      → (let g = grow_index os junk v (v.bucket_capacity + v.index_grow_step_size) m w in
          IsAppendable v (
            if is_success g.result
            then grow_bucket os junk (bucket_count v) g.vector g.allocator g.machine
            else g))
  grow_wider v m w ok full last granted fits =
      let capacity = v.bucket_capacity + v.index_grow_step_size in
      let g = grow_index os junk v capacity m w in
      let ((valid, kept), wide) =
        grow_index-IsSound os junk v capacity m w ok (omega (arith, ok.steps)) fits granted in
      elim (Bool-cases (is_success g.result)) [
        | inr refused ↦ rw refused (inr (refused, (valid, kept)))
        | inl served ↦
            let filled_up : g.vector.tail_used ≡ 2 ^ g.vector.bucket_capacity_max_log2 =
              rw (kept.same_used, kept.same_log2) full in
            let same = sym (bucket_count-IsKept v g.vector kept) in
            let (wider, unchanged) = wide served in
            rw served (
              IsAppendable-IsKept v g.vector
                (grow_bucket os junk (bucket_count v) g.vector g.allocator g.machine) ok kept
                (grow_bucket-lem g.vector (bucket_count v) g.allocator g.machine valid filled_up
                  same (last ∙ sym unchanged) (omega (arith, ok.held, ok.steps))))
      ]

  grow-lem :
      (v : Bvec A) (m : Option Arnm) (w : Machine H)
      → IsValid v
      → v.tail_used ≡ 2 ^ v.bucket_capacity_max_log2
      → IsGranted os junk v (v.bucket_capacity + v.index_grow_step_size) m w
      → IsAppendable v (grow os junk v m w)
  unfolding grow
  grow-lem v m w ok full granted =
      let next = bucket_count v in
      let capacity = v.bucket_capacity + v.index_grow_step_size in
      let g = grow_index os junk v capacity m w in
      let bounded = bucket_count_bound v ok in
      rw (is_state_valid-IsValid v ok, bucket_count_allocated-IsValid v ok)
        (elim (ltb-cases next v.allocated_count) [
          | inl below ↦
              rw (lt→ltb next v.allocated_count below)
                (inl (success_succeeds, open_bucket-lem v ok full below))
          | inr past ↦
              let shut : ltb next v.allocated_count ≡ false = ground arith in
              rw shut (elim (ℕ_discrete v.allocated_count v.bucket_capacity) [
                | no other ↦
                    let room : (v.allocated_count == v.bucket_capacity) ≡ false = ground arith in
                    rw room (
                      grow_bucket-lem v next m w ok full refl (omega arith)
                        (omega (arith, ok.held)))
                | yes none_left ↦
                    let same : (v.allocated_count == v.bucket_capacity) ≡ true = ground arith in
                    rw same (elim (ltb-cases 8191 capacity) [
                      | inl beyond ↦
                          rw (lt→ltb 8191 capacity beyond)
                            (inr (overflow_fails, (ok, IsKept-refl v)))
                      | inr fits ↦
                          let allowed : ltb 8191 capacity ≡ false = ground arith in
                          rw allowed (grow_wider v m w ok full (omega arith) granted fits)
                    ])
              ])
        ])

  pub emplace-grow :
      (v : Bvec A) (m : Option Arnm) (w : Machine H)
      → v.tail && ltb v.tail_used (bucket_slots v) ≡ false
      → emplace os junk v m w ≡ grow os junk v m w
  unfolding emplace
  emplace-grow v m w full = rw full refl

  -- arnm_bvec_emplace hands out the place behind the elements, or leaves them and says why not.
  pub emplace-IsAppendable :
      (v : Bvec A) (m : Option Arnm) (w : Machine H)
      → IsValid v
      → IsGranted os junk v (v.bucket_capacity + v.index_grow_step_size) m w
      → IsAppendable v (emplace os junk v m w)
  emplace-IsAppendable v m w ok granted =
      let (_, _, _, whole) = counts_small v ok in
      elim (Bool-cases (v.tail && ltb v.tail_used (bucket_slots v))) [
        | inl room ↦
            let opened : v.tail ≡ true = ground arith in
            let less : v.tail_used < 2 ^ v.bucket_capacity_max_log2 = ground arith in
            let (u, e, handed) = emplace-room v m w ok opened less in
            rw e (inl (success_succeeds, handed))
        | inr none_left ↦
            rw (emplace-grow v m w none_left) (grow-lem v m w ok (full_tail v ok none_left) granted)
      ]

  -- arnm_bvec_push_ptr appends the value where it answers success, and then no bucket that was there
  -- has moved; where it does not, the elements are what they were. The vector stays well formed.
  -- The one condition on the allocator: a resize of the index array that it answers with success
  -- is at an address that is not NULL.
  pub push_ptr-elements_of :
      (v : Bvec A) (x : A) (m : Option Arnm) (w : Machine H)
      → IsValid v
      → IsGranted os junk v (v.bucket_capacity + v.index_grow_step_size) m w
      → (let g = push_ptr os junk v x m w in
          IsValid g.vector
          × (elements_of g.vector
              ≡ (if is_success g.result then elements_of v ++ x ∷ [] else elements_of v))
          × (g.vector.size ≡ (if is_success g.result then suc v.size else v.size))
          × ((k : ℕ)
              → k < v.allocated_count
              → addr_of (get_elem? g.vector.index k) ≡ addr_of (get_elem? v.index k)))
  unfolding push_ptr
  push_ptr-elements_of v x m w ok granted =
      let g = emplace os junk v m w in
      elim (emplace-IsAppendable v m w ok granted) [
        | inl (served, h) ↦
            let (valid, elements, addrs) = write_last g.vector x h.valid h.opened in
            rw served (
              valid,
              rw served (elements ∙ ap (λ zs. zs ++ x ∷ []) h.elements),
              rw served h.one_more,
              λ k lt. addrs k ∙ ap addr_of (h.unmoved k lt),
            )
        | inr (refused, (valid, kept)) ↦ rw refused (
          valid,
          rw refused (elements_of-IsKept v g.vector ok kept),
          rw refused kept.same_size,
          λ k lt. ap addr_of (kept.slots_kept k lt),
        )
      ]
