-- ===== src/BucketVector/Pop.antt =====
-- What arnm_bvec_pop and arnm_bvec_clear leave of a vector, and what arnm_bvec_copy_to copies.
use arnm.Base.{
  ℕ, zero, suc, ◌+◌, ◌-◌, ◌*◌, ◌%◌, ◌^◌, ◌≤◌, ◌<◌, ◌≡◌, ◌⊎◌, refl, sym, ap, ◌∙◌, some, List, [],
  ◌∷◌, ◌++◌, true, false, ltb, if◌then◌else◌, arith, take, drop, append_assoc, append-nil,
  Bool-cases, inl, inr, ltb-cases, sub32,
}
use native.Mathlib.Nat.{mul-le-mul, zero-mul, suc-mul}
use native.Mathlib.Decide.{ℕ_discrete}
use arnm.Result.{success, error_array_index_out_of_bounds, error_destination_buffer_to_small}
use arnm.BucketVector.{
  Bvec, bucket_slots, clear, pop, bucket_count, bucket_size, copy_loop, copy_to,
}
use arnm.BucketVector.Contents.{
  cells_at, filled, elements_of, IsValid, retail, retail-IsValid, pow2_bounds,
}
use arnm.BucketVector.Walks.{take-all, take-suc}
use arnm.BucketVector.Reads.{length-elements_of}

module _ {A : Type 0} (v : Bvec A) (ok : IsValid v) where
  abbrev slots : ℕ
  slots = 2 ^ v.bucket_capacity_max_log2

  -- No count of a well-formed vector comes near the end of its word.
  pub counts_small :
      (v.size ≤ 268402688) × (v.tail_used ≤ 32768) × (v.tail_index < 8192) × (slots % 65536 ≡ slots)
  counts_small =
      let (low, high) = pow2_bounds v.bucket_capacity_max_log2 ok.log2_pos ok.log2_small in
      elim (Bool-cases v.tail) [
        | inl opened ↦
            let (below, pos, le, sizes) = rw opened at ok.tailed in
            let room : v.tail_index * slots ≤ 8190 * 32768 =
              mul-le-mul {n₂ = 8190} (omega (arith, ok.held, ok.capacity_small)) high in
            (omega arith, omega arith, omega (arith, ok.held, ok.capacity_small), omega arith)
        | inr shut ↦
            let (at_zero, used, none_held) = rw shut at ok.tailed in
            (omega arith, omega arith, omega arith, omega arith)
      ]

  -- arnm_bvec_clear leaves a well-formed vector without elements.
  pub clear-IsValid :
      (v' : Bvec A) × (clear (some v) ≡ some v') × IsValid v' × (elements_of v' ≡ [])
  unfolding clear elements_of
  clear-IsValid =
      let (_, _, _, whole) = counts_small in
      (
        retail v false 0 (bucket_slots v) 0,
        refl,
        retail-IsValid ok false 0 (bucket_slots v) 0 (refl, whole, refl),
        refl,
      )

  -- What arnm_bvec_pop leaves of a vector that is not empty: its last element is gone.
  abbrev pub Popped : Type 0
  Popped =
      (v' : Bvec A) × (x : A) × (pop (some v) ≡ (success, some v'))
      × IsValid v'
      × (elements_of v ≡ elements_of v' ++ x ∷ [])

  -- the pop from an open bucket of more than one element
  pop-shorter : v.tail ≡ true → 1 < v.tail_used → Popped
  unfolding pop elements_of
  pop-shorter opened more =
      let (small, used, _, whole) = counts_small in
      let (below, pos, le, sizes) = rw opened at ok.tailed in
      let here = ok.buckets_held v.tail_index below in
      let cells = cells_at v.index v.tail_index in
      let (x, last, _) = take-suc (v.tail_used - 1) cells (omega arith) in
      let same : v.tail_used ≡ suc (v.tail_used - 1) = omega arith in
      let parts = ap (λ n. take n cells) same ∙ last in
      let fewer : sub32 v.size 1 ≡ v.size - 1 = omega arith in
      let back : (v.tail_used + 65535) % 65536 ≡ v.tail_used - 1 = omega arith in
      (
        retail v true v.tail_index (v.tail_used - 1) (v.size - 1),
        x,
        ground (arith, fewer, back, opened),
        retail-IsValid ok true v.tail_index (v.tail_used - 1) (v.size - 1)
            (below, omega arith, omega arith, omega arith),
        rw (opened, parts)
            (sym
              (append_assoc (filled v.index v.tail_index) (take (v.tail_used - 1) cells) (x ∷ []))),
      )

  -- the pop of the only element of the open bucket
  pop-last : v.tail ≡ true → v.tail_used ≡ 1 → Popped
  unfolding pop elements_of
  pop-last opened one =
      let (small, used, low, whole) = counts_small in
      let (below, pos, le, sizes) = rw opened at ok.tailed in
      let cells = cells_at v.index v.tail_index in
      let here = ok.buckets_held v.tail_index below in
      let (x, last, _) = take-suc 0 cells (omega arith) in
      let parts = ap (λ n. take n cells) one ∙ last in
      let fewer : sub32 v.size 1 ≡ v.size - 1 = omega arith in
      elim (ℕ_discrete v.tail_index 0) [
        | yes first ↦
            let product : v.tail_index * slots ≡ 0 = ap (λ t. t * slots) first ∙ zero-mul slots in
            let single : v.size ≡ 1 = omega arith in
            (
              retail v false 0 (bucket_slots v) 0,
              x,
              ground (arith, fewer, opened, one),
              retail-IsValid ok false 0 (bucket_slots v) 0 (refl, whole, refl),
              rw (opened, parts, first) refl,
            )
        | no later ↦
            let k = v.tail_index - 1 in
            let back : (v.tail_index + 65535) % 65536 ≡ k = omega arith in
            let same : v.tail_index ≡ suc k = omega arith in
            let product : v.tail_index * slots ≡ k * slots + slots =
              ap (λ t. t * slots) same ∙ suc-mul k slots in
            let full =
              take-all slots (cells_at v.index k)
                (rw (ok.buckets_held k (omega arith)) (omega arith)) in
            let last_part = ap (λ n. take n (cells_at v.index k)) whole ∙ full in
            let before = ap (filled v.index) same in
            (
              retail v true k (bucket_slots v) (v.size - 1),
              x,
              ground (arith, fewer, back, opened, one),
              retail-IsValid ok true k (bucket_slots v) (v.size - 1)
                  (omega arith, omega arith, omega arith, omega arith),
              rw (opened, parts, last_part) (ap (λ zs. zs ++ x ∷ []) before),
            )
      ]

  -- arnm_bvec_pop refuses an empty vector, and takes the last element off any other.
  pub pop-elements_of :
      ((elements_of v ≡ []) × (pop (some v) ≡ (error_array_index_out_of_bounds, some v))) ⊎ Popped
  unfolding pop elements_of
  pop-elements_of = elim (Bool-cases v.tail) [
    | inl opened ↦ elim (ltb-cases 1 v.tail_used) [
      | inl more ↦ inr (pop-shorter opened more)
      | inr one ↦ inr (pop-last opened (let (_, pos, _, _) = rw opened at ok.tailed in omega arith))
    ]
    | inr shut ↦ inl (
        let (_, _, none_held) = rw shut at ok.tailed in
        (ground (arith, shut), ground (arith, none_held)))
  ]

  -- the loop of arnm_bvec_copy_to, behind the buckets it has copied
  copy_loop-filled :
      v.tail ≡ true
      → (left k : ℕ) → k + left ≡ v.tail_index
      → filled v.index k ++ copy_loop v (suc left) k ≡ elements_of v
  unfolding copy_loop elements_of bucket_size
  copy_loop-filled opened zero k ends =
      let same : k ≡ v.tail_index = omega arith in
      rw (opened, same)
        (ground (arith, append-nil (take v.tail_used (cells_at v.index v.tail_index))))
  copy_loop-filled opened (suc left) k ends =
      let (_, _, _, whole) = counts_small in
      let (below, pos, le, sizes) = rw opened at ok.tailed in
      let full =
        take-all slots (cells_at v.index k) (rw (ok.buckets_held k (omega arith)) (omega arith)) in
      let here : take (bucket_size v k) (cells_at v.index k) ≡ cells_at v.index k =
        ground (arith, ap (λ n. take n (cells_at v.index k)) whole, full) in
      rw here (
        sym (append_assoc (filled v.index k) (cells_at v.index k) (copy_loop v (suc left) (suc k)))
        ∙ copy_loop-filled opened left (suc k) (omega arith))

  pub bucket_count-open : v.tail ≡ true → bucket_count v ≡ suc v.tail_index
  unfolding bucket_count
  bucket_count-open opened =
      let (_, _, low, _) = counts_small in
      let counted : (v.tail_index + 1) % 65536 ≡ suc v.tail_index = omega arith in
      ground (arith, opened, counted)

  copy_loop-elements_of : copy_loop v (bucket_count v) 0 ≡ elements_of v
  unfolding bucket_count elements_of copy_loop
  copy_loop-elements_of = elim (Bool-cases v.tail) [
    | inl opened ↦
        rw (bucket_count-open opened) (copy_loop-filled opened v.tail_index 0 (omega arith))
    | inr shut ↦ rw shut refl
  ]

  -- arnm_bvec_copy_to writes the elements in order over the front of a destination that has room
  -- for them, and refuses one that has not.
  pub copy_to-elements_of :
      (dst : List A) (dst_capacity : ℕ)
      → copy_to (some v) (some dst) dst_capacity ≡ (
          if ltb dst_capacity v.size
          then (error_destination_buffer_to_small, some dst)
          else (success, some (elements_of v ++ drop v.size dst)))
  unfolding copy_to
  copy_to-elements_of dst dst_capacity = rw (copy_loop-elements_of, length-elements_of v ok) refl
