-- ===== src/BucketVector/Shrinking.antt =====
-- arnm_bvec_shrink of src/bucket_vector.c gives back spare memory and no element.
use arnm.Base.{ℕ, suc, ◌-◌, ◌≡◌, ◌≢◌, ◌⊎◌, Option, some, List, true, false}
use arnm.Result.{is_success}
use arnm.Memory.Machine.{Machine, Host}
use arnm.Memory.Api.{Arnm, free}
use arnm.Memory.Realloc.{realloc}
use arnm.BucketVector.{Bvec, bucket_count, bucket_bytes}
use arnm.BucketVector.Growth.{index_bytes, is_resized, address_of}
use arnm.BucketVector.Release.{held_at, releases_newest_first}
use arnm.BucketVector.Freed.{addresses}
use arnm.BucketVector.Walked.{Walked}
use arnm.BucketVector.Fewer.{Fewer}

-- the addresses of the buckets that are not in use
abbrev pub unused_addresses : {A : Type 0} → Bvec A → List ℕ
unused_addresses v = addresses v.index (bucket_count v) (v.allocated_count - bucket_count v)

module _ {A H : Type 0} (os : Host H) where
  -- Where the allocator answers the tightening of the index array with success, the array is at an
  -- address that is not NULL.
  abbrev pub IsTightened : Bvec A → ℕ → Option Arnm → Machine H → Type 0
  IsTightened v i m w =
      let r = realloc os (some v.buckets) (index_bytes v.bucket_capacity) (index_bytes i) m w in
      is_resized r.result ≡ true → address_of r.buffer v.buckets ≢ 0

  -- Why a walk ended at `count` buckets: there were no more that are not in use, or the allocator,
  -- an arena, did not take the last of these back.
  abbrev pub IsEnd : Bvec A → ℕ → Option Arnm → Type 0
  IsEnd v count m =
      (count ≡ bucket_count v)
      ⊎ ((releases_newest_first m ≡ true)
          × (k : ℕ) × (p : ℕ) × (m1 : Option Arnm) × (w1 : Machine H) × (count ≡ suc k)
          × (held_at v.index k ≡ some p)
          × (is_success (free os p (bucket_bytes v) m1 w1).0 ≡ false))
