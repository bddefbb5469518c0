-- ===== src/BucketVector/Sizes.antt =====
-- The number of elements behind an append, whatever the allocator answers.
use arnm.Base.{ℕ, zero, suc, ◌-◌, ◌/◌, ◌^◌, ◌≡◌, Option, refl, if◌then◌else◌, arith, add32, ◌+◌}
use arnm.Result.{is_success}
use arnm.Memory.Machine.{Machine, Host}
use arnm.Memory.Api.{Arnm}
use arnm.BucketVector.{Bvec, bucket_slots, bucket_count, bucket_count_allocated}
use arnm.BucketVector.Growth.{
  Grown, grow_index, add_bucket, grow_bucket, open_bucket, grow, emplace, push_ptr, add_buckets,
  reserve,
}

module _ {A H : Type 0} (os : Host H) (junk : A) where
  -- the count that an answer leaves: one more on success
  abbrev pub IsCounted : Bvec A → Grown A H → Type 0
  IsCounted v g = g.vector.size ≡ (if is_success g.result then add32 v.size 1 else v.size)

  grow_index-size :
      (v : Bvec A) (capacity : ℕ) (m : Option Arnm) (w : Machine H)
      → (grow_index os junk v capacity m w).vector.size ≡ v.size
  unfolding grow_index
  grow_index-size v capacity m w = ground arith

  add_bucket-size :
      (v : Bvec A) (m : Option Arnm) (w : Machine H)
      → (add_bucket os junk v m w).vector.size ≡ v.size
  unfolding add_bucket
  add_bucket-size v m w = ground arith

  grow_bucket-IsCounted :
      (next : ℕ) (v : Bvec A) (m : Option Arnm) (w : Machine H)
      → IsCounted v (grow_bucket os junk next v m w)
  unfolding grow_bucket open_bucket
  grow_bucket-IsCounted next v m w = ground (arith, add_bucket-size v m w)

  grow-IsCounted : (v : Bvec A) (m : Option Arnm) (w : Machine H) → IsCounted v (grow os junk v m w)
  unfolding grow open_bucket is_success
  grow-IsCounted v m w =
      let capacity = v.bucket_capacity + v.index_grow_step_size in
      let g = grow_index os junk v capacity m w in
      ground (
        arith,
        grow_bucket-IsCounted (bucket_count v) v m w,
        grow_bucket-IsCounted (bucket_count v) g.vector g.allocator g.machine,
        grow_index-size v capacity m w,
      )

  emplace-IsCounted :
      (v : Bvec A) (m : Option Arnm) (w : Machine H) → IsCounted v (emplace os junk v m w)
  unfolding emplace is_success
  emplace-IsCounted v m w = ground (arith, grow-IsCounted v m w)

  pub push_ptr-IsCounted :
      (v : Bvec A) (x : A) (m : Option Arnm) (w : Machine H)
      → IsCounted v (push_ptr os junk v x m w)
  unfolding push_ptr
  push_ptr-IsCounted v x m w = ground (arith, emplace-IsCounted v m w)

  add_buckets-size :
      (left : ℕ) (v : Bvec A) (m : Option Arnm) (w : Machine H)
      → (add_buckets os junk left v m w).vector.size ≡ v.size
  unfolding add_buckets
  add_buckets-size zero v m w = refl
  add_buckets-size (suc left) v m w =
      let g = add_bucket os junk v m w in
      let rest = add_buckets-size left g.vector g.allocator g.machine in
      ground (arith, rest, add_bucket-size v m w)

  pub reserve-size :
      (v : Bvec A) (n : ℕ) (m : Option Arnm) (w : Machine H)
      → (reserve os junk v n m w).vector.size ≡ v.size
  unfolding reserve
  reserve-size v n m w =
      let needed = (n + (bucket_slots v - 1)) / 2 ^ v.bucket_capacity_max_log2 in
      let g = grow_index os junk v needed m w in
      let left = needed - bucket_count_allocated v in
      ground (
        arith,
        add_buckets-size left v m w,
        add_buckets-size left g.vector g.allocator g.machine,
        grow_index-size v needed m w,
      )
