-- ===== src/BucketVector/Calls.antt =====
-- The two calls of the allocator that a growing vector makes: a larger index array, and one more
-- bucket.
use arnm.Base.{
  ℕ, suc, ◌%◌, ◌^◌, ◌≤◌, ◌<◌, ◌≡◌, ◌≢◌, refl, ◌∙◌, Option, some, true, false, arith, replicate,
  length-replicate, Bool-cases, inl, inr, Option-cases,
}
use arnm.Result.{Result, success, is_success, error_invalid_state, error_arithmetic_overflow}
use arnm.Memory.Machine.{Machine, Host}
use arnm.Memory.Api.{Arnm, alloc}
use arnm.Memory.Realloc.{realloc}
use arnm.Memory.Refusals.{realloc-refused}
use arnm.BucketVector.{Bvec, bucket_slots, bucket_bytes}
use arnm.BucketVector.Contents.{IsValid, pow2_bounds}
use arnm.BucketVector.Growth.{Grown, index_bytes, is_resized, address_of, grow_index, add_bucket}
use arnm.BucketVector.Extend.{
  IsKept, IsKept-refl, bucket_count_allocated-IsValid, widened-IsValid, with_bucket-IsValid,
}

pub success_succeeds : is_success success ≡ true
unfolding is_success
success_succeeds = refl

pub overflow_fails : is_success error_arithmetic_overflow ≡ false
unfolding is_success
overflow_fails = refl

pub resized_only : (r : Result) → is_resized r ≡ false → is_success r ≡ false
unfolding is_resized is_success
resized_only r refused = ground arith

module _ {H : Type 0} (os : Host H) where
  pub refused_keeps :
      (b old new : ℕ) (m : Option Arnm) (w : Machine H)
      → is_resized (realloc os (some b) old new m w).result ≡ false
      → address_of (realloc os (some b) old new m w).buffer b ≡ b
  unfolding address_of is_resized
  refused_keeps b old new m w refused =
      let kept =
        realloc-refused os b old new m w (λ e. absurd (ground (arith, e, refused)))
          (λ e. absurd (ground (arith, e, refused))) in
      rw kept refl

module _ {A H : Type 0} (os : Host H) (junk : A) where
  -- Where the allocator answers a resize of the index array with success, the array is at an
  -- address that is not NULL.
  abbrev pub IsGranted : Bvec A → ℕ → Option Arnm → Machine H → Type 0
  IsGranted v capacity m w =
      let r =
        realloc os (some v.buckets) (index_bytes v.bucket_capacity) (index_bytes capacity) m w in
      is_resized r.result ≡ true → address_of r.buffer v.buckets ≢ 0

  -- A call of this component that leaves a well-formed vector with the same elements in it.
  abbrev pub IsSound : Bvec A → Grown A H → Type 0
  IsSound v g = IsValid g.vector × IsKept v g.vector

  pub grow_index-IsSound :
      (v : Bvec A) (capacity : ℕ) (m : Option Arnm) (w : Machine H)
      → IsValid v
      → v.bucket_capacity < capacity
      → capacity ≤ 8191
      → IsGranted v capacity m w
      → IsSound v (grow_index os junk v capacity m w)
        × (is_success (grow_index os junk v capacity m w).result ≡ true
            → ((grow_index os junk v capacity m w).vector.bucket_capacity ≡ capacity)
              × ((grow_index os junk v capacity m w).vector.allocated_count ≡ v.allocated_count))
  unfolding grow_index
  grow_index-IsSound v capacity m w ok more small granted =
      let old = index_bytes v.bucket_capacity in
      let new = index_bytes capacity in
      let r = realloc os (some v.buckets) old new m w in
      elim (Bool-cases (is_resized r.result)) [
        | inl resized ↦
            let wide =
              widened-IsValid v ok (address_of r.buffer v.buckets) capacity (granted resized) more
                small in
            rw resized (wide, λ e. (refl, refl))
        | inr refused ↦
            let same = refused_keeps os v.buckets old new m w refused in
            let failed : is_success r.result ≡ false = resized_only r.result refused in
            rw (refused, same) ((ok, IsKept-refl v), λ e. absurd (ground (arith, failed, e)))
      ]

  invalid_state_fails : is_success error_invalid_state ≡ false
  unfolding is_success
  invalid_state_fails = refl

  pub add_bucket-IsSound :
      (v : Bvec A) (m : Option Arnm) (w : Machine H)
      → IsValid v
      → v.allocated_count < v.bucket_capacity
      → IsSound v (add_bucket os junk v m w)
        × (is_success (add_bucket os junk v m w).result ≡ true
            → ((add_bucket os junk v m w).vector.allocated_count ≡ suc v.allocated_count)
              × ((add_bucket os junk v m w).vector.bucket_capacity ≡ v.bucket_capacity))
  unfolding add_bucket
  add_bucket-IsSound v m w ok room =
      let r = alloc os (some 0) (bucket_bytes v) m w in
      let (low, high) = pow2_bounds v.bucket_capacity_max_log2 ok.log2_pos ok.log2_small in
      let whole : 2 ^ v.bucket_capacity_max_log2 % 65536 ≡ 2 ^ v.bucket_capacity_max_log2 =
        omega arith in
      let long = length-replicate (bucket_slots v) junk ∙ whole in
      elim (Bool-cases (is_success r.result)) [
        | inr refused ↦ rw refused ((ok, IsKept-refl v), λ e. absurd (ground (arith, refused, e)))
        | inl served ↦ elim (Option-cases r.buffer) [
          | inl missing ↦
              rw (served, missing)
                ((ok, IsKept-refl v), λ e. absurd (ground (arith, invalid_state_fails, e)))
          | inr (p, found) ↦
              rw (served, found, bucket_count_allocated-IsValid v ok)
                (
                  with_bucket-IsValid v ok room p (replicate (bucket_slots v) junk) long,
                  λ e. (omega arith, refl),
                )
        ]
      ]
