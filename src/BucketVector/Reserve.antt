-- ===== src/BucketVector/Reserve.antt =====
-- What arnm_bvec_reserve promises, and the appends that it pays for.
use arnm.Base.{
  ℕ, zero, suc, ◌+◌, ◌-◌, ◌*◌, ◌/◌, ◌^◌, ◌≤◌, ◌<◌, ◌≡◌, ◌⊎◌, refl, ◌∙◌, Option, true, false, ltb,
  leb, ◌==◌, if◌then◌else◌, arith, Bool-cases, inl, inr, ltb→lt, leb→le,
}
use native.Mathlib.Nat.{lt-div-mul-add, le_trans, mul-le-mul_right}
use arnm.Result.{Result, success, is_success, error_invalid_param, error_arithmetic_overflow}
use arnm.Memory.Machine.{Machine, Host}
use arnm.Memory.Api.{Arnm}
use arnm.BucketVector.{Bvec, bucket_slots}
use arnm.BucketVector.Contents.{IsValid, pow2_bounds}
use arnm.BucketVector.Reads.{is_state_valid-IsValid}
use arnm.BucketVector.Pop.{counts_small}
use arnm.BucketVector.Growth.{Grown, answer, add_bucket, add_buckets, grow_index, reserve}
use arnm.BucketVector.Extend.{IsKept-refl, IsKept-trans, bucket_count_allocated-IsValid}
use arnm.BucketVector.Calls.{
  IsSound, IsGranted, grow_index-IsSound, add_bucket-IsSound, overflow_fails,
}

invalid_param_fails : is_success error_invalid_param ≡ false
unfolding is_success
invalid_param_fails = refl

module _ {A H : Type 0} (os : Host H) (junk : A) where
  -- The loop of arnm_bvec_reserve on an index array with room.
  add_buckets-IsSound :
      (left : ℕ) (v : Bvec A) (m : Option Arnm) (w : Machine H)
      → IsValid v
      → v.allocated_count + left ≤ v.bucket_capacity
      → IsSound os junk v (add_buckets os junk left v m w)
        × (is_success (add_buckets os junk left v m w).result ≡ true
            → (add_buckets os junk left v m w).vector.allocated_count ≡ v.allocated_count + left)
  unfolding add_buckets
  add_buckets-IsSound zero v m w ok room = ((ok, IsKept-refl v), λ e. omega arith)
  add_buckets-IsSound (suc left) v m w ok room =
      let g = add_bucket os junk v m w in
      let ((valid, kept), one_more) = add_bucket-IsSound os junk v m w ok (omega arith) in
      elim (Bool-cases (is_success g.result)) [
        | inr refused ↦ rw refused ((valid, kept), λ e. absurd (ground (arith, e, refused)))
        | inl served ↦
            let (counted, same) = one_more served in
            let ((valid', kept'), rest) =
              add_buckets-IsSound left g.vector g.allocator g.machine valid (omega arith) in
            rw served ((valid', IsKept-trans kept kept'), λ e. rest e ∙ omega arith)
      ]

  -- the buckets that `n` elements need, rounded up
  abbrev pub buckets_for : Bvec A → ℕ → ℕ
  buckets_for v n = (n + (bucket_slots v - 1)) / 2 ^ v.bucket_capacity_max_log2

  buckets_for_bound :
      (v : Bvec A) (n : ℕ) → IsValid v → n ≤ buckets_for v n * 2 ^ v.bucket_capacity_max_log2
  buckets_for_bound v n ok =
      let (_, _, _, whole) = counts_small v ok in
      let (low, high) = pow2_bounds v.bucket_capacity_max_log2 ok.log2_pos ok.log2_small in
      let slots = 2 ^ v.bucket_capacity_max_log2 in
      let up = lt-div-mul-add {a = n + (bucket_slots v - 1)} {b = slots} (omega arith) in
      omega arith

  -- What a reservation for `n` elements leaves: the vector as it was but for its buckets, and, where
  -- it answers success, a place for each of the `n`.
  abbrev pub IsReserved : Bvec A → ℕ → Grown A H → Type 0
  IsReserved v n g =
      IsSound os junk v g
      × ((is_success g.result ≡ false)
          ⊎ (n ≤ g.vector.allocated_count * 2 ^ v.bucket_capacity_max_log2))

  reserve-refused :
      (v : Bvec A) (n : ℕ) (m : Option Arnm) (w : Machine H) (r : Result)
      → IsValid v
      → is_success r ≡ false
      → IsReserved v n (answer r v m w)
  reserve-refused v n m w r ok fails = ((ok, IsKept-refl v), inl fails)

  -- enough buckets, where the loop comes to its end
  add_buckets-IsReserved :
      (left n : ℕ) (v : Bvec A) (m : Option Arnm) (w : Machine H)
      → IsValid v
      → v.allocated_count + left ≤ v.bucket_capacity
      → n ≤ (v.allocated_count + left) * 2 ^ v.bucket_capacity_max_log2
      → IsReserved v n (add_buckets os junk left v m w)
  add_buckets-IsReserved left n v m w ok room enough =
      let (sound, counted) = add_buckets-IsSound left v m w ok room in
      (
        sound,
        elim (Bool-cases (is_success (add_buckets os junk left v m w).result)) [
          | inr refused ↦ inl refused
          | inl served ↦ inr (rw (counted served) enough)
        ],
      )

  reserve_wider :
      (v : Bvec A) (n needed : ℕ) (m : Option Arnm) (w : Machine H)
      → IsValid v
      → v.bucket_capacity < needed
      → needed ≤ 8191
      → n ≤ needed * 2 ^ v.bucket_capacity_max_log2
      → IsGranted os junk v needed m w
      → (let g = grow_index os junk v needed m w in
          IsReserved v n (
            if is_success g.result
            then add_buckets os junk (needed - v.allocated_count) g.vector g.allocator g.machine
            else g))
  reserve_wider v n needed m w ok more small enough granted =
      let g = grow_index os junk v needed m w in
      let ((valid, kept), wide) = grow_index-IsSound os junk v needed m w ok more small granted in
      elim (Bool-cases (is_success g.result)) [
        | inr refused ↦ rw refused ((valid, kept), inl refused)
        | inl served ↦
            let (wider, unchanged) = wide served in
            let total : g.vector.allocated_count + (needed - v.allocated_count) ≡ needed =
              omega (arith, ok.held) in
            let ((valid', kept'), result) =
              add_buckets-IsReserved (needed - v.allocated_count) n g.vector g.allocator g.machine
                valid (omega (arith, total, wider)) (rw (total, kept.same_log2) enough) in
            rw served ((valid', IsKept-trans kept kept'), rw kept.same_log2 at result)
      ]

  -- arnm_bvec_reserve behind its checks of the number of buckets
  reserve_rest :
      (v : Bvec A) (n needed : ℕ) (m : Option Arnm) (w : Machine H)
      → IsValid v
      → needed ≤ 8191
      → n ≤ needed * 2 ^ v.bucket_capacity_max_log2
      → IsGranted os junk v needed m w
      → IsReserved v n (
          if leb needed v.allocated_count
          then answer success v m w
          else if ltb v.bucket_capacity needed
          then (let g = grow_index os junk v needed m w in
              if is_success g.result
              then add_buckets os junk (needed - v.allocated_count) g.vector g.allocator g.machine
              else g)
          else add_buckets os junk (needed - v.allocated_count) v m w)
  reserve_rest v n needed m w ok small enough granted =
      let slots = 2 ^ v.bucket_capacity_max_log2 in
      elim (Bool-cases (leb needed v.allocated_count)) [
        | inl there ↦ rw there (
          (ok, IsKept-refl v),
          inr (le_trans enough (mul-le-mul_right slots (leb→le needed v.allocated_count there))),
        )
        | inr fewer ↦ rw fewer (elim (Bool-cases (ltb v.bucket_capacity needed)) [
          | inl more ↦ rw more (
              reserve_wider v n needed m w ok (ltb→lt v.bucket_capacity needed more) small enough
                granted)
          | inr room ↦
              let total : v.allocated_count + (needed - v.allocated_count) ≡ needed =
                ground arith in
              let held : needed ≤ v.bucket_capacity = ground arith in
              rw room (
                add_buckets-IsReserved (needed - v.allocated_count) n v m w ok (rw total held)
                  (rw total enough))
        ])
      ]

  -- arnm_bvec_reserve keeps the vector well formed and its elements and buckets as they are, and
  -- where it answers success the buckets it holds have a place for every one of `n` elements. The
  -- condition is the allocator's: a resize of the index array that it answers with success is at an
  -- address that is not NULL.
  pub reserve-IsSound :
      (v : Bvec A) (n : ℕ) (m : Option Arnm) (w : Machine H)
      → IsValid v
      → IsGranted os junk v (buckets_for v n) m w
      → IsReserved v n (reserve os junk v n m w)
  unfolding reserve
  reserve-IsSound v n m w ok granted =
      let needed = buckets_for v n in
      let enough = buckets_for_bound v n ok in
      let refuse = λ (r : Result). reserve-refused v n m w r ok in
      let mask = bucket_slots v - 1 in
      rw (is_state_valid-IsValid v ok, bucket_count_allocated-IsValid v ok)
        (elim (Bool-cases (n == 0)) [
          | inl nothing ↦ rw nothing (refuse error_invalid_param invalid_param_fails)
          | inr something ↦
              rw something (elim (Bool-cases (ltb ((4294967295 - mask) / v.element_size) n)) [
                | inl long ↦ rw long (refuse error_arithmetic_overflow overflow_fails)
                | inr short ↦ rw short (elim (Bool-cases (ltb 8191 needed)) [
                  | inl beyond ↦ rw beyond (refuse error_arithmetic_overflow overflow_fails)
                  | inr within ↦
                      rw within (reserve_rest v n needed m w ok (ground arith) enough granted)
                ])
              ])
        ])
