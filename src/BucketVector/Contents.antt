-- ===== src/BucketVector/Contents.antt =====
-- The elements a vector of src/bucket_vector.c holds, oldest first, and the invariant of its state.
use arnm.Base.{
  all_below, all_below-get, ℕ, zero, suc, ◌+◌, ◌*◌, ◌^◌, ◌≤◌, ◌<◌, ◌≡◌, refl, List, [], ◌++◌, Bool,
  true, false, leb, ◌==◌, ◌&&◌, ◌||◌, if◌then◌else◌, arith, length, get_elem?, take,
}
use arnm.BucketVector.{Slot, Bvec, cells_of}

module _ {A : Type 0} where
  -- the elements of the slot's bucket, if there is one
  abbrev pub cells_at : List (Slot A) → ℕ → List A
  cells_at index k = cells_of (get_elem? index k)

  -- all elements of the first `k` buckets
  abbrev pub filled : List (Slot A) → ℕ → List A
  filled index zero = []
  filled index (suc k) = filled index k ++ cells_at index k

  unfoldable pub elements_of : Bvec A → List A
  elements_of v =
      if v.tail
      then filled v.index v.tail_index ++ take v.tail_used (cells_at v.index v.tail_index)
      else []

-- What the counters say of the open bucket, or of none.
abbrev pub IsTail : {A : Type 0} → Bvec A → Bool → Type 0
IsTail v true =
    (v.tail_index < v.allocated_count)
    × (0 < v.tail_used)
    × (v.tail_used ≤ 2 ^ v.bucket_capacity_max_log2)
    × (v.size ≡ v.tail_index * 2 ^ v.bucket_capacity_max_log2 + v.tail_used)
IsTail v false = (v.tail_index ≡ 0) × (v.tail_used ≡ 2 ^ v.bucket_capacity_max_log2) × (v.size ≡ 0)

-- The first `count` slots of the index hold a bucket of `slots` places each.
abbrev pub IsFilled : {A : Type 0} → List (Slot A) → ℕ → ℕ → Type 0
IsFilled index slots count = (k : ℕ) → k < count → length (cells_at index k) ≡ slots

pub record IsValid {A : Type 0} (v : Bvec A) : Type 0 where
  pub log2_pos : 0 < v.bucket_capacity_max_log2
  pub log2_small : v.bucket_capacity_max_log2 ≤ 15
  pub sized : 0 < v.element_size
  pub sized_small : v.element_size ≤ 65535
  pub steps : 0 < v.index_grow_step_size
  pub index_length : length v.index ≡ v.bucket_capacity
  pub capacity_small : v.bucket_capacity ≤ 8191
  pub held : v.allocated_count ≤ v.bucket_capacity
  pub missing : v.buckets ≡ 0 → v.bucket_capacity ≡ 0
  pub present : v.bucket_capacity ≡ 0 → v.buckets ≡ 0
  pub buckets_held : IsFilled v.index (2 ^ v.bucket_capacity_max_log2) v.allocated_count
  pub tailed : IsTail v v.tail

-- The counters of the tail move, and nothing else.
abbrev pub retail : {A : Type 0} → Bvec A → Bool → ℕ → ℕ → ℕ → Bvec A
retail v tail index used size = record v {
  tail = tail;
  tail_index = index;
  tail_used = used;
  size = size;
}

pub retail-IsValid :
    {A : Type 0} {v : Bvec A}
    → IsValid v
    → (tail : Bool) (index used size : ℕ) → IsTail (retail v tail index used size) tail
    → IsValid (retail v tail index used size)
retail-IsValid ok tail index used size t = record {
  log2_pos = ok.log2_pos;
  log2_small = ok.log2_small;
  sized = ok.sized;
  sized_small = ok.sized_small;
  steps = ok.steps;
  index_length = ok.index_length;
  capacity_small = ok.capacity_small;
  held = ok.held;
  missing = ok.missing;
  present = ok.present;
  buckets_held = ok.buckets_held;
  tailed = t;
}

-- the bounds that `pow2_bounds` states, as a test
pow2_test : ℕ → Bool
pow2_test k = (k == 0) || (leb 2 (2 ^ k) && leb (2 ^ k) 32768)

-- A bucket's number of places, for the exponents arnm_bvec_init takes.
pub pow2_bounds : (k : ℕ) → 0 < k → k ≤ 15 → (2 ≤ 2 ^ k) × (2 ^ k ≤ 32768)
unfolding pow2_test
pow2_bounds k pos le =
    let all : all_below 16 pow2_test ≡ true = refl in
    let here = all_below-get 16 pow2_test all k (omega arith) in ground arith
