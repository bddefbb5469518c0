-- ===== src/BucketVector/Fewer.antt =====
-- A bucket vector of src/bucket_vector.c with fewer buckets, and the same elements in them.
use arnm.Base.{
  ℕ, ◌≤◌, ◌<◌, ◌≡◌, ◌⊎◌, refl, ap, ◌∙◌, none, List, [], arith, get_elem?, length, Bool-cases, inl,
  inr, ltb-cases,
}
use arnm.BucketVector.{Slot, Bvec, bucket_count, cells_of}
use arnm.BucketVector.Contents.{cells_at, elements_of, IsValid, IsTail}
use arnm.BucketVector.Walks.{filled_ext, get_elem?-past}
use arnm.BucketVector.Pop.{bucket_count-open}
use arnm.BucketVector.Release.{held_at}
use arnm.BucketVector.Walked.{held_at-same}

module _ {A : Type 0} where
  -- The elements of a vector are those of its buckets in use.
  same_elements :
      (v : Bvec A) (index : List (Slot A)) (p capacity count : ℕ)
      → IsValid v
      → ((k : ℕ) → k < bucket_count v → get_elem? index k ≡ get_elem? v.index k)
      → elements_of (record v {
        buckets = p;
        index = index;
        bucket_capacity = capacity;
        allocated_count = count;
      })
        ≡ elements_of v
  unfolding elements_of
  same_elements v index p capacity count ok kept = elim (Bool-cases v.tail) [
    | inr shut ↦ rw shut refl
    | inl opened ↦
        let reaches = bucket_count-open v ok opened in
        let cells : (k : ℕ) → k ≤ v.tail_index → cells_at index k ≡ cells_at v.index k =
          λ k le. ap cells_of (kept k (rw reaches (omega arith))) in
        let before = filled_ext index v.index v.tail_index (λ j lt. cells j (omega arith)) in
        rw (opened, before, cells v.tail_index (omega arith)) refl
  ]

  pub bucket_count-held : (v : Bvec A) → IsValid v → bucket_count v ≤ v.allocated_count
  bucket_count-held v ok = elim (Bool-cases v.tail) [
    | inr shut ↦ (unfold bucket_count in rw shut (omega arith))
    | inl opened ↦
        let (below, pos, le, sizes) = rw opened at ok.tailed in
        let reaches = bucket_count-open v ok opened in omega (arith, reaches, below)
  ]

  -- The vector with fewer buckets and a shorter index array, which hold all that is in use.
  abbrev pub fewer : Bvec A → ℕ → List (Slot A) → ℕ → ℕ → Bvec A
  fewer v p index capacity count = record v {
    buckets = p;
    index = index;
    bucket_capacity = capacity;
    allocated_count = count;
  }

  fewer-IsTail :
      (v : Bvec A) (p : ℕ) (index : List (Slot A)) (capacity count : ℕ)
      → IsValid v
      → bucket_count v ≤ count
      → IsTail (fewer v p index capacity count) v.tail
  fewer-IsTail v p index capacity count ok low = elim (Bool-cases v.tail) [
    | inr shut ↦ rw shut (rw shut at ok.tailed)
    | inl opened ↦
        let (below, pos, le, sizes) = rw opened at ok.tailed in
        let reaches = bucket_count-open v ok opened in
        rw opened (omega (arith, reaches, low), pos, le, sizes)
  ]

  -- What a shrink keeps and what it gives up: `count` buckets stay, as they were, the other slots
  -- of the old buckets that are left hold none, and nothing that is in use is among these.
  pub record Fewer (v v' : Bvec A) : Type 0 where
    pub is_valid : IsValid v'
    pub same_elements : elements_of v' ≡ elements_of v
    pub in_use : bucket_count v ≤ v'.allocated_count
    pub no_more : v'.allocated_count ≤ v.allocated_count
    pub slots :
        (k : ℕ)
        → ((k < v'.allocated_count) × (get_elem? v'.index k ≡ get_elem? v.index k))
          ⊎ ((v'.allocated_count ≤ k) × (held_at v'.index k ≡ none))
          ⊎ (v.allocated_count ≤ k)

  pub fewer-Fewer :
      (v : Bvec A) (p : ℕ) (index : List (Slot A)) (capacity count : ℕ)
      → IsValid v
      → (length index ≡ capacity) × (count ≤ capacity) × (capacity ≤ v.bucket_capacity)
      → (p ≡ 0 → capacity ≡ 0)
      → (capacity ≡ 0 → p ≡ 0)
      → bucket_count v ≤ count
      → count ≤ v.allocated_count
      → ((k : ℕ) → k < count → get_elem? index k ≡ get_elem? v.index k)
      → ((k : ℕ) → count ≤ k → k < v.allocated_count → held_at index k ≡ none)
      → Fewer v (fewer v p index capacity count)
  fewer-Fewer v p index capacity count ok (long, held, narrow) missing present low high kept
        cleared =
      record {
        is_valid = record {
          log2_pos = ok.log2_pos;
          log2_small = ok.log2_small;
          sized = ok.sized;
          sized_small = ok.sized_small;
          steps = ok.steps;
          index_length = long;
          capacity_small = omega (arith, ok.capacity_small);
          held = held;
          missing = missing;
          present = present;
          buckets_held =
              λ k lt. ap (λ s. length (cells_of s)) (kept k lt) ∙ ok.buckets_held k (omega arith);
          tailed = fewer-IsTail v p index capacity count ok low;
        };
        same_elements = same_elements v index p capacity count ok (λ k lt. kept k (omega arith));
        in_use = low;
        no_more = high;
        slots = λ k. elim (ltb-cases k count) [
          | inl below ↦ inl (below, kept k below)
          | inr past ↦ elim (ltb-cases k v.allocated_count) [
            | inl spare ↦ inr (inl (past, cleared k past spare))
            | inr beyond ↦ inr (inr beyond)
          ]
        ];
      }

pub held_at-past :
    {A : Type 0} (index : List (Slot A)) (k : ℕ) → length index ≤ k → held_at index k ≡ none
held_at-past index k past = held_at-same index [] k (get_elem?-past index k past)
