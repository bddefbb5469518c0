-- ===== src/BucketVector/Reads.antt =====
-- What the reads of a vector answer and what arnm_bvec_pop leaves, against the list of elements.
use arnm.Base.{
  ℕ, ◌+◌, ◌-◌, ◌*◌, ◌/◌, ◌%◌, ◌^◌, ◌<◌, ◌≡◌, refl, sym, ap, ◌∙◌, ◌++◌, true, arith, length,
  get_elem?, take, length-append, length-take, Bool-cases, inl, inr, ltb-cases,
}
use native.Mathlib.Nat.{div-add-mod', mod-lt, mod-eq_of_lt, zero-div, zero-mod}
use arnm.BucketVector.{Bvec, bucket_count_allocated, is_state_valid, get, at, front, back}
use arnm.BucketVector.Contents.{cells_at, filled, elements_of, IsValid, pow2_bounds}
use arnm.BucketVector.Walks.{
  length-filled, get_elem?-filled, get_elem?-append_left, get_elem?-append_right, get_elem?-take,
  get_elem?-past, place_within, place_below,
}

module _ {A : Type 0} (v : Bvec A) (ok : IsValid v) where
  -- the number of places of a bucket
  abbrev pub slots_of : ℕ
  slots_of = 2 ^ v.bucket_capacity_max_log2

  pub length-elements_of : length (elements_of v) ≡ v.size
  unfolding elements_of
  length-elements_of =
      let (low, high) = pow2_bounds v.bucket_capacity_max_log2 ok.log2_pos ok.log2_small in
      elim (Bool-cases v.tail) [
        | inl opened ↦
            let (below, pos, small, sizes) = rw opened at ok.tailed in
            let before =
              length-filled v.index slots_of v.allocated_count ok.buckets_held v.tail_index
                (omega arith) in
            let here = ok.buckets_held v.tail_index below in
            let part = length-take v.tail_used (cells_at v.index v.tail_index) in
            rw
              (
                opened,
                length-append (filled v.index v.tail_index)
                    (take v.tail_used (cells_at v.index v.tail_index)),
                before,
                part,
                here,
              )
              (ground arith)
        | inr shut ↦ rw shut (let (_, _, none_held) = rw shut at ok.tailed in sym none_held)
      ]

  -- is_state_valid, which arnm_bvec_reserve, arnm_bvec_shrink and arnm_bvec_grow ask first, holds of
  -- every well-formed vector.
  pub is_state_valid-IsValid : is_state_valid v ≡ true
  unfolding is_state_valid bucket_count_allocated
  is_state_valid-IsValid =
      let (low, high) = pow2_bounds v.bucket_capacity_max_log2 ok.log2_pos ok.log2_small in
      let whole : slots_of % 65536 ≡ slots_of = omega arith in
      elim (Bool-cases v.tail) [
        | inl opened ↦
            let (below, pos, small, sizes) = rw opened at ok.tailed in
            let room =
              place_within v.tail_index v.allocated_count slots_of v.tail_used below small in
            rw (opened, whole)
              (ground (arith, ok.missing, ok.present, ok.held, ok.log2_pos, ok.sized))
        | inr shut ↦
            let (at_zero, used, none_held) = rw shut at ok.tailed in
            rw (shut, whole)
              (ground (arith, ok.missing, ok.present, ok.held, ok.log2_pos, ok.sized))
      ]

  -- The element of number `i` stands at its place of its bucket.
  pub get_elem?-elements_of :
      (i : ℕ)
      → i < v.size
      → get_elem? (elements_of v) i ≡ get_elem? (cells_at v.index (i / slots_of)) (i % slots_of)
  unfolding elements_of
  get_elem?-elements_of i lt =
      let (low, high) = pow2_bounds v.bucket_capacity_max_log2 ok.log2_pos ok.log2_small in
      let split = div-add-mod' i slots_of in
      let small = mod-lt i {m = slots_of} (omega arith) in
      let whole = filled v.index v.tail_index in
      let part = take v.tail_used (cells_at v.index v.tail_index) in
      elim (Bool-cases v.tail) [
        | inl opened ↦
            let (below, pos, le, sizes) = rw opened at ok.tailed in
            let before =
              length-filled v.index slots_of v.allocated_count ok.buckets_held v.tail_index
                (omega arith) in
            elim (ltb-cases (i / slots_of) v.tail_index) [
              | inl earlier ↦
                  let place =
                    place_below (i / slots_of) v.tail_index slots_of (i % slots_of) earlier small in
                  rw opened (
                    get_elem?-append_left whole part i (rw before (omega arith))
                    ∙ ap (get_elem? whole) (sym split)
                    ∙ get_elem?-filled v.index slots_of v.allocated_count ok.buckets_held
                        v.tail_index (i / slots_of) (i % slots_of) (omega arith) earlier small)
              | inr later ↦
                  let same : i / slots_of ≡ v.tail_index =
                    elim (ltb-cases v.tail_index (i / slots_of)) [
                      | inl past ↦
                          let place =
                            place_within v.tail_index (i / slots_of) slots_of v.tail_used past le in
                          absurd (omega arith)
                      | inr there ↦ omega arith
                    ] in
                  let start : i / slots_of * slots_of ≡ v.tail_index * slots_of =
                    ap (λ q. q * slots_of) same in
                  let inside : i % slots_of < v.tail_used = omega arith in
                  let number : length whole + i % slots_of ≡ i = omega arith in
                  rw opened (
                    ap (get_elem? (whole ++ part)) (sym number)
                    ∙ get_elem?-append_right whole part (i % slots_of)
                    ∙ get_elem?-take v.tail_used (cells_at v.index v.tail_index) (i % slots_of)
                        inside
                    ∙ ap (λ k. get_elem? (cells_at v.index k) (i % slots_of)) (sym same))
            ]
        | inr shut ↦ let (at_zero, used, none_held) = rw shut at ok.tailed in absurd (omega arith)
      ]

  -- The number of the bucket fits its sixteen bits.
  bucket_small : (i : ℕ) → i < v.size → i / slots_of < 65536
  bucket_small i lt =
      let (low, high) = pow2_bounds v.bucket_capacity_max_log2 ok.log2_pos ok.log2_small in
      let split = div-add-mod' i slots_of in
      elim (Bool-cases v.tail) [
        | inl opened ↦
            let (below, pos, le, sizes) = rw opened at ok.tailed in
            elim (ltb-cases (i / slots_of) v.allocated_count) [
              | inl inside ↦ omega (arith, ok.held, ok.capacity_small)
              | inr past ↦
                  let place =
                    place_within v.tail_index (i / slots_of) slots_of v.tail_used (omega arith)
                      le in
                  absurd (omega arith)
            ]
        | inr shut ↦ let (at_zero, used, none_held) = rw shut at ok.tailed in absurd (omega arith)
      ]

  get-elements_of : (i : ℕ) → i < v.size → get v i ≡ get_elem? (elements_of v) i
  unfolding get
  get-elements_of i lt = rw (mod-eq_of_lt (bucket_small i lt)) (sym (get_elem?-elements_of i lt))

  -- arnm_bvec_at answers element number `i` of a well-formed vector, and NULL from `size` on.
  pub at-elements_of : (i : ℕ) → at v i ≡ get_elem? (elements_of v) i
  unfolding at
  at-elements_of i = elim (ltb-cases i v.size) [
    | inl inside ↦ ground (arith, get-elements_of i inside)
    | inr past ↦ ground (arith, get_elem?-past (elements_of v) i (rw length-elements_of past))
  ]

  pub front-elements_of : front v ≡ get_elem? (elements_of v) 0
  unfolding front
  front-elements_of = elim (ltb-cases 0 v.size) [
    | inl some_held ↦
        let first = get_elem?-elements_of 0 some_held in
        let here = rw (zero-div slots_of, zero-mod slots_of) at first in ground (arith, here)
    | inr none_held ↦
        ground (arith, get_elem?-past (elements_of v) 0 (rw length-elements_of none_held))
  ]

  pub back-elements_of : back v ≡ get_elem? (elements_of v) (v.size - 1)
  unfolding back elements_of
  back-elements_of = elim (Bool-cases v.tail) [
    | inl opened ↦
        let (below, pos, le, sizes) = rw opened at ok.tailed in
        let whole = filled v.index v.tail_index in
        let cells = cells_at v.index v.tail_index in
        let before =
          length-filled v.index slots_of v.allocated_count ok.buckets_held v.tail_index
            (omega arith) in
        let number : length whole + (v.tail_used - 1) ≡ v.size - 1 = omega arith in
        let read =
          get_elem?-append_right whole (take v.tail_used cells) (v.tail_used - 1)
          ∙ get_elem?-take v.tail_used cells (v.tail_used - 1) (omega arith) in
        rw opened (sym read ∙ ap (get_elem? (whole ++ take v.tail_used cells)) number)
    | inr shut ↦ rw shut refl
  ]
