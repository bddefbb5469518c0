-- ===== src/BucketVector/Place.antt =====
-- The place an append hands out behind the elements of a vector, and the write to it.
use arnm.Base.{
  ℕ, suc, ◌+◌, ◌-◌, ◌*◌, ◌^◌, ◌≤◌, ◌<◌, ◌≡◌, refl, sym, ap, ◌∙◌, List, [], ◌∷◌, ◌++◌, true, false,
  ltb, ◌&&◌, arith, length, get_elem?, set, take, Bool-cases, inl, inr, append_assoc, append-nil,
  add32,
}
use native.Mathlib.Nat.{suc-mul, zero-mul}
use arnm.BucketVector.{Bvec, bucket_slots, bucket_count, cells_of}
use arnm.BucketVector.Contents.{cells_at, filled, elements_of, IsValid, pow2_bounds, retail-IsValid}
use arnm.BucketVector.Walks.{filled_ext, take-set, take-all}
use arnm.BucketVector.Pop.{counts_small, bucket_count-open}
use arnm.BucketVector.Growth.{write_cell, open_bucket}
use arnm.BucketVector.Writes.{
  addr_of, write_cell-ne, write_cell_self, write_cell-IsFilled, write_cell-addr, length-write_cell,
}
use arnm.BucketVector.Extend.{IsKept, elements_of-IsKept}

module _ {A : Type 0} where
  -- the elements below the place handed out last
  abbrev pub settled : Bvec A → List A
  settled v = filled v.index v.tail_index ++ take (v.tail_used - 1) (cells_at v.index v.tail_index)

  -- The value written at the place handed out last is the vector's last element.
  pub write_last :
      (u : Bvec A) (x : A)
      → IsValid u
      → u.tail ≡ true
      → IsValid (record u { index = write_cell u.index u.tail_index (u.tail_used - 1) x })
        × (elements_of (record u { index = write_cell u.index u.tail_index (u.tail_used - 1) x })
            ≡ settled u ++ x ∷ [])
        × ((k : ℕ)
            → addr_of (get_elem? (write_cell u.index u.tail_index (u.tail_used - 1) x) k)
              ≡ addr_of (get_elem? u.index k))
  unfolding elements_of
  write_last u x ok opened =
      let (below, pos, le, sizes) = rw opened at ok.tailed in
      let slots = 2 ^ u.bucket_capacity_max_log2 in
      let k = u.tail_index in
      let place = u.tail_used - 1 in
      let inside : place < slots = omega arith in
      let short : u.allocated_count ≤ length u.index = omega (arith, ok.held, ok.index_length) in
      let index = write_cell u.index k place x in
      let before = filled_ext index u.index k (λ j lt. ap cells_of (
        write_cell-ne u.index slots u.allocated_count ok.buckets_held k place x below inside short j
          (omega arith))) in
      let cells =
        write_cell_self u.index slots u.allocated_count ok.buckets_held k place x below inside
          short in
      let used : u.tail_used ≡ suc place = omega arith in
      let part =
        ap (λ n. take n (set (cells_at u.index k) place x)) used
        ∙ take-set place (cells_at u.index k) x (rw (ok.buckets_held k below) inside) in
      (
        record {
          log2_pos = ok.log2_pos;
          log2_small = ok.log2_small;
          sized = ok.sized;
          sized_small = ok.sized_small;
          steps = ok.steps;
          index_length =
              length-write_cell u.index slots u.allocated_count ok.buckets_held k place x below
                inside short
              ∙ ok.index_length;
          capacity_small = ok.capacity_small;
          held = ok.held;
          missing = ok.missing;
          present = ok.present;
          buckets_held =
              write_cell-IsFilled u.index slots u.allocated_count ok.buckets_held k place x below
                inside short;
          tailed = rw opened (below, pos, le, sizes);
        },
        rw (opened, before, cells, part)
            (sym (append_assoc (filled u.index k) (take place (cells_at u.index k)) (x ∷ []))),
        write_cell-addr u.index slots u.allocated_count ok.buckets_held k place x below inside
            short,
      )

  -- A call that hands out one more place behind the elements of `v`, and moves no bucket.
  pub record IsHandedOut (v u : Bvec A) : Type 0 where
    pub valid : IsValid u
    pub opened : u.tail ≡ true
    pub elements : settled u ≡ elements_of v
    pub unmoved : (k : ℕ) → k < v.allocated_count → get_elem? u.index k ≡ get_elem? v.index k
    pub one_more : u.size ≡ suc v.size

  pub elements_of-open :
      (v : Bvec A)
      → v.tail ≡ true
      → elements_of v
        ≡ filled v.index v.tail_index ++ take v.tail_used (cells_at v.index v.tail_index)
  unfolding elements_of
  elements_of-open v opened = rw opened refl

  pub elements_of-shut : (v : Bvec A) → v.tail ≡ false → elements_of v ≡ []
  unfolding elements_of
  elements_of-shut v shut = rw shut refl

  pub bucket_count-shut : (v : Bvec A) → v.tail ≡ false → bucket_count v ≡ 0
  unfolding bucket_count
  bucket_count-shut v shut = rw shut refl

  -- Bucket `bucket_count` opens behind full ones.
  pub open_bucket-lem :
      (v : Bvec A)
      → IsValid v
      → v.tail_used ≡ 2 ^ v.bucket_capacity_max_log2
      → bucket_count v < v.allocated_count
      → IsHandedOut v (open_bucket v (bucket_count v))
  unfolding open_bucket
  open_bucket-lem v ok full below =
      let (small, _, _, _) = counts_small v ok in
      let (low, high) = pow2_bounds v.bucket_capacity_max_log2 ok.log2_pos ok.log2_small in
      let more : add32 v.size 1 ≡ suc v.size = omega arith in
      let slots = 2 ^ v.bucket_capacity_max_log2 in
      let next = bucket_count v in
      elim (Bool-cases v.tail) [
        | inl opened ↦
            let (held, pos, le, sizes) = rw opened at ok.tailed in
            let following = bucket_count-open v ok opened in
            let product : next * slots ≡ v.tail_index * slots + slots =
              ap (λ t. t * slots) following ∙ suc-mul v.tail_index slots in
            let all =
              take-all v.tail_used (cells_at v.index v.tail_index)
                (rw (ok.buckets_held v.tail_index held) (omega arith)) in
            record {
              valid =
                  retail-IsValid ok true next 1 (add32 v.size 1)
                    (below, omega arith, omega arith, omega arith);
              opened = refl;
              elements =
                  append-nil (filled v.index next)
                  ∙ ap (filled v.index) following
                  ∙ sym (
                      elements_of-open v opened
                      ∙ ap (λ part. filled v.index v.tail_index ++ part) all);
              unmoved = λ k lt. refl;
              one_more = more;
            }
        | inr shut ↦
            let (at_zero, used, none_held) = rw shut at ok.tailed in
            let first = bucket_count-shut v shut in
            let product : next * slots ≡ 0 = ap (λ t. t * slots) first ∙ zero-mul slots in
            record {
              valid =
                  retail-IsValid ok true next 1 (add32 v.size 1)
                    (below, omega arith, omega arith, omega arith);
              opened = refl;
              elements =
                  append-nil (filled v.index next)
                  ∙ ap (filled v.index) first
                  ∙ sym (elements_of-shut v shut);
              unmoved = λ k lt. refl;
              one_more = more;
            }
      ]

module _ {A : Type 0} where
  pub IsHandedOut-IsKept :
      (v v' u : Bvec A) → IsValid v → IsKept v v' → IsHandedOut v' u → IsHandedOut v u
  IsHandedOut-IsKept v v' u ok kept h = record {
    valid = h.valid;
    opened = h.opened;
    elements = h.elements ∙ elements_of-IsKept v v' ok kept;
    unmoved = λ k lt. h.unmoved k (omega (arith, kept.more_buckets)) ∙ kept.slots_kept k lt;
    one_more = h.one_more ∙ ap suc kept.same_size;
  }

  pub bucket_count-IsKept : (v v' : Bvec A) → IsKept v v' → bucket_count v' ≡ bucket_count v
  unfolding bucket_count
  bucket_count-IsKept v v' kept = rw (kept.same_tail, kept.same_index) refl

  pub full_tail :
      (v : Bvec A)
      → IsValid v
      → v.tail && ltb v.tail_used (bucket_slots v) ≡ false
      → v.tail_used ≡ 2 ^ v.bucket_capacity_max_log2
  full_tail v ok none_left =
      let (_, _, _, whole) = counts_small v ok in
      elim (Bool-cases v.tail) [
        | inl opened ↦ let (_, _, le, _) = rw opened at ok.tailed in ground arith
        | inr shut ↦ let (_, used, _) = rw shut at ok.tailed in used
      ]

  pub bucket_count_bound : (v : Bvec A) → IsValid v → bucket_count v ≤ v.allocated_count
  bucket_count_bound v ok = elim (Bool-cases v.tail) [
    | inl opened ↦
        let (held, pos, le, sizes) = rw opened at ok.tailed in
        rw (bucket_count-open v ok opened) (omega arith)
    | inr shut ↦ rw (bucket_count-shut v shut) (omega arith)
  ]
