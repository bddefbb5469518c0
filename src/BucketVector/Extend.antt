-- ===== src/BucketVector/Extend.antt =====
-- What a vector gains when its index array is resized or a bucket is added: places, and no change
-- of its elements.
use arnm.Base.{
  ℕ, ◌+◌, ◌-◌, ◌^◌, ◌≤◌, ◌<◌, ◌≡◌, ◌≢◌, refl, ap, ◌∙◌, none, some, List, ◌++◌, arith, length,
  get_elem?, set, replicate, length-append, length-set, length-replicate, get_elem?-set_self,
  get_elem?-set_ne, Bool-cases, inl, inr,
}
use native.Mathlib.Decide.{ℕ_discrete}
use arnm.BucketVector.{Slot, Bvec, bucket_count_allocated, cells_of}
use arnm.BucketVector.Contents.{filled, elements_of, IsTail, IsValid}
use arnm.BucketVector.Walks.{filled_ext, get_elem?-append_left}

-- The vector keeps its elements and its buckets: what each slot up to `allocated_count` holds, and
-- where the next element goes.
pub record IsKept {A : Type 0} (v v' : Bvec A) : Type 0 where
  pub slots_kept : (k : ℕ) → k < v.allocated_count → get_elem? v'.index k ≡ get_elem? v.index k
  pub more_buckets : v.allocated_count ≤ v'.allocated_count
  pub same_log2 : v'.bucket_capacity_max_log2 ≡ v.bucket_capacity_max_log2
  pub same_tail : v'.tail ≡ v.tail
  pub same_index : v'.tail_index ≡ v.tail_index
  pub same_used : v'.tail_used ≡ v.tail_used
  pub same_size : v'.size ≡ v.size

module _ {A : Type 0} where
  pub IsKept-refl : (v : Bvec A) → IsKept v v
  IsKept-refl v = record {
    slots_kept = λ k lt. refl;
    more_buckets = omega arith;
    same_log2 = refl;
    same_tail = refl;
    same_index = refl;
    same_used = refl;
    same_size = refl;
  }

  pub IsKept-trans : {u v w : Bvec A} → IsKept u v → IsKept v w → IsKept u w
  IsKept-trans {u} {v} {w} a b = record {
    slots_kept = λ k lt. b.slots_kept k (omega (arith, a.more_buckets)) ∙ a.slots_kept k lt;
    more_buckets = omega (arith, a.more_buckets, b.more_buckets);
    same_log2 = b.same_log2 ∙ a.same_log2;
    same_tail = b.same_tail ∙ a.same_tail;
    same_index = b.same_index ∙ a.same_index;
    same_used = b.same_used ∙ a.same_used;
    same_size = b.same_size ∙ a.same_size;
  }

  pub bucket_count_allocated-IsValid :
      (v : Bvec A) → IsValid v → bucket_count_allocated v ≡ v.allocated_count
  unfolding bucket_count_allocated
  bucket_count_allocated-IsValid v ok = ground (arith, ok.missing, ok.held)

  pub filled-IsKept :
      (v v' : Bvec A)
      → IsKept v v'
      → (k : ℕ) → k ≤ v.allocated_count
      → filled v'.index k ≡ filled v.index k
  filled-IsKept v v' kept k le =
      filled_ext v'.index v.index k (λ j lt. ap cells_of (kept.slots_kept j (omega arith)))

  pub elements_of-IsKept :
      (v v' : Bvec A) → IsValid v → IsKept v v' → elements_of v' ≡ elements_of v
  unfolding elements_of
  elements_of-IsKept v v' ok kept = elim (Bool-cases v.tail) [
    | inl opened ↦
        let (below, pos, le, sizes) = rw opened at ok.tailed in
        let before = filled-IsKept v v' kept v.tail_index (omega arith) in
        let cells = ap cells_of (kept.slots_kept v.tail_index below) in
        rw (kept.same_tail, kept.same_index, kept.same_used, opened, before, cells) refl
    | inr shut ↦ rw (kept.same_tail, shut) refl
  ]

  IsTail-IsKept : (v v' : Bvec A) → IsKept v v' → IsTail v v.tail → IsTail v' v'.tail
  IsTail-IsKept v v' kept t = elim (Bool-cases v.tail) [
    | inl opened ↦
        let (below, pos, le, sizes) = rw opened at t in
        rw (kept.same_tail, opened)
          (
            omega arith,
            omega arith,
            rw (kept.same_used, kept.same_log2) le,
            rw (kept.same_size, kept.same_index, kept.same_log2, kept.same_used) sizes,
          )
    | inr shut ↦
        let (at_zero, used, none_held) = rw shut at t in
        rw (kept.same_tail, shut)
          (
            kept.same_index ∙ at_zero,
            rw (kept.same_used, kept.same_log2) used,
            kept.same_size ∙ none_held,
          )
  ]

  -- the vector behind a larger index array, whose new slots are empty
  abbrev pub widened : Bvec A → ℕ → ℕ → Bvec A
  widened v p capacity = record v {
    buckets = p;
    index = v.index ++ replicate (capacity - v.bucket_capacity) none;
    bucket_capacity = capacity;
  }

  pub widened-IsValid :
      (v : Bvec A)
      → IsValid v
      → (p capacity : ℕ) → p ≢ 0
      → v.bucket_capacity < capacity
      → capacity ≤ 8191
      → IsValid (widened v p capacity) × IsKept v (widened v p capacity)
  widened-IsValid v ok p capacity there more small =
      let extra = replicate {A = Slot A} (capacity - v.bucket_capacity) none in
      let long = length-append v.index extra in
      let added = length-replicate {A = Slot A} (capacity - v.bucket_capacity) none in
      let wide : length (v.index ++ extra) ≡ capacity =
        omega (arith, ok.index_length, long, added) in
      let keep : (k : ℕ)
          → k < v.allocated_count
          → get_elem? (v.index ++ extra) k ≡ get_elem? v.index k =
        λ k lt. get_elem?-append_left v.index extra k (omega (arith, ok.held, ok.index_length)) in
      (
        record {
          log2_pos = ok.log2_pos;
          log2_small = ok.log2_small;
          sized = ok.sized;
          sized_small = ok.sized_small;
          steps = ok.steps;
          index_length = wide;
          capacity_small = small;
          held = omega (arith, ok.held);
          missing = λ e. absurd (there e);
          present = λ e. absurd (omega arith);
          buckets_held = λ k lt. ap (λ s. length (cells_of s)) (keep k lt) ∙ ok.buckets_held k lt;
          tailed = ok.tailed;
        },
        record {
          slots_kept = keep;
          more_buckets = omega arith;
          same_log2 = refl;
          same_tail = refl;
          same_index = refl;
          same_used = refl;
          same_size = refl;
        },
      )

  -- the vector with one bucket more
  abbrev pub with_bucket : Bvec A → ℕ → List A → Bvec A
  with_bucket v p cells = record v {
    index = set v.index v.allocated_count (some (record { addr = p; cells = cells }));
    allocated_count = v.allocated_count + 1;
  }

  pub with_bucket-IsValid :
      (v : Bvec A)
      → IsValid v
      → v.allocated_count < v.bucket_capacity
      → (p : ℕ) (cells : List A) → length cells ≡ 2 ^ v.bucket_capacity_max_log2
      → IsValid (with_bucket v p cells) × IsKept v (with_bucket v p cells)
  unfolding cells_of
  with_bucket-IsValid v ok room p cells long =
      let bucket = some (record { addr = p; cells = cells }) in
      let written = set v.index v.allocated_count bucket in
      let here =
        get_elem?-set_self v.index v.allocated_count bucket (omega (arith, ok.index_length)) in
      let keep : (k : ℕ) → k < v.allocated_count → get_elem? written k ≡ get_elem? v.index k =
        λ k lt. get_elem?-set_ne v.index bucket (omega arith) in
      let kept : IsKept v (with_bucket v p cells) = record {
        slots_kept = keep;
        more_buckets = omega arith;
        same_log2 = refl;
        same_tail = refl;
        same_index = refl;
        same_used = refl;
        same_size = refl;
      } in
      (
        record {
          log2_pos = ok.log2_pos;
          log2_small = ok.log2_small;
          sized = ok.sized;
          sized_small = ok.sized_small;
          steps = ok.steps;
          index_length = length-set v.index v.allocated_count bucket ∙ ok.index_length;
          capacity_small = ok.capacity_small;
          held = omega arith;
          missing = ok.missing;
          present = ok.present;
          buckets_held = λ k lt. elim (ℕ_discrete k v.allocated_count) [
            | yes last ↦ rw (last, here) long
            | no earlier ↦
                ap (λ s. length (cells_of s)) (keep k (omega arith))
                ∙ ok.buckets_held k (omega arith)
          ];
          tailed = IsTail-IsKept v (with_bucket v p cells) kept ok.tailed;
        },
        kept,
      )
