-- ===== src/BucketVector/Reserved.antt =====
-- The appends that arnm_bvec_reserve has paid for.
use arnm.Base.{
  ◌*◌, ◌^◌, ◌<◌, ◌≡◌, refl, ◌∙◌, true, ltb, ◌&&◌, arith, Bool-cases, inl, inr, ltb-cases, lt→ltb,
}
use native.Mathlib.Nat.{suc-mul, zero-mul, mul-le-mul_right}
use arnm.Result.{success}
use arnm.Memory.Machine.{Machine, Host}
use arnm.Base.{Option}
use arnm.Memory.Api.{Arnm}
use arnm.BucketVector.{Bvec, bucket_slots, bucket_count}
use arnm.BucketVector.Contents.{IsValid}
use arnm.BucketVector.Reads.{is_state_valid-IsValid}
use arnm.BucketVector.Pop.{counts_small, bucket_count-open}
use arnm.BucketVector.Growth.{answer, open_bucket, grow, emplace, push_ptr}
use arnm.BucketVector.Extend.{bucket_count_allocated-IsValid}
use arnm.BucketVector.Calls.{success_succeeds}
use arnm.BucketVector.Place.{bucket_count-shut, full_tail}
use arnm.BucketVector.Push.{emplace-room, emplace-grow}

module _ {A H : Type 0} (os : Host H) (junk : A) (v : Bvec A) (ok : IsValid v) where
  -- the size of a vector whose buckets in use are full
  full-size :
      v.tail_used ≡ 2 ^ v.bucket_capacity_max_log2
      → v.size ≡ bucket_count v * 2 ^ v.bucket_capacity_max_log2
  full-size full =
      let slots = 2 ^ v.bucket_capacity_max_log2 in
      elim (Bool-cases v.tail) [
        | inl opened ↦
            let (held, pos, le, sizes) = rw opened at ok.tailed in
            let product = suc-mul v.tail_index slots in
            rw (bucket_count-open v ok opened) (omega arith)
        | inr shut ↦
            let (at_zero, used, none_held) = rw shut at ok.tailed in
            let product = zero-mul slots in rw (bucket_count-shut v shut) (omega arith)
      ]

  grow-reserved :
      (m : Option Arnm) (w : Machine H)
      → bucket_count v < v.allocated_count
      → grow os junk v m w ≡ answer success (open_bucket v (bucket_count v)) m w
  unfolding grow
  grow-reserved m w below =
      rw
        (
          is_state_valid-IsValid v ok,
          bucket_count_allocated-IsValid v ok,
          lt→ltb (bucket_count v) v.allocated_count below,
        )
        refl

  emplace-reserved :
      (m : Option Arnm) (w : Machine H)
      → v.size < v.allocated_count * 2 ^ v.bucket_capacity_max_log2
      → (u : Bvec A) × (emplace os junk v m w ≡ answer success u m w)
  emplace-reserved m w room =
      let (_, _, _, whole) = counts_small v ok in
      let slots = 2 ^ v.bucket_capacity_max_log2 in
      elim (Bool-cases (v.tail && ltb v.tail_used (bucket_slots v))) [
        | inl open_room ↦
            let opened : v.tail ≡ true = ground arith in
            let less : v.tail_used < slots = ground arith in
            let (u, e, _) = emplace-room os junk v m w ok opened less in (u, e)
        | inr none_left ↦
            let sizes = full-size (full_tail v ok none_left) in
            elim (ltb-cases (bucket_count v) v.allocated_count) [
              | inl below ↦ (
                open_bucket v (bucket_count v),
                emplace-grow os junk v m w none_left ∙ grow-reserved m w below,
              )
              | inr past ↦ absurd (let over = mul-le-mul_right slots past in omega arith)
            ]
      ]

  -- While a well-formed vector holds fewer elements than its buckets have places,
  -- arnm_bvec_push_ptr answers success and leaves the allocator and the machine alone.
  pub push_ptr-reserved :
      (x : A) (m : Option Arnm) (w : Machine H)
      → v.size < v.allocated_count * 2 ^ v.bucket_capacity_max_log2
      → ((push_ptr os junk v x m w).result ≡ success)
        × ((push_ptr os junk v x m w).allocator ≡ m)
        × ((push_ptr os junk v x m w).machine ≡ w)
  unfolding push_ptr
  push_ptr-reserved x m w room =
      let (u, e) = emplace-reserved m w room in rw (e, success_succeeds) (refl, refl, refl)
