-- ===== src/BucketVector/Init.antt =====
-- The vector that arnm_bvec_init starts from, and the arguments that it refuses.
use arnm.Base.{
  ℕ, ◌/◌, ◌^◌, ◌≤◌, ◌<◌, ◌≡◌, ◌⊎◌, refl, inl, inr, Bool, true, false, some, [], ltb, leb, ◌==◌,
  ◌||◌, if◌then◌else◌, arith, all_below, all_below-get, ltb-cases,
}
use native.Mathlib.Decide.{ℕ_discrete}
use arnm.Result.{success, error_invalid_param}
use arnm.BucketVector.{Bvec, fresh, init}
use arnm.BucketVector.Contents.{elements_of, IsValid, pow2_bounds}

-- the payload bound of arnm_bvec_init, for a size that fits sixteen bits
payload_test : ℕ → Bool
payload_test k = leb 65535 (4294967295 / 2 ^ k)

payload_fits : (k : ℕ) → k ≤ 15 → 65535 ≤ 4294967295 / 2 ^ k
unfolding payload_test
payload_fits k le =
    let all : all_below 16 payload_test ≡ true = refl in
    let here = all_below-get 16 payload_test all k (omega arith) in ground arith

-- exponents and element sizes that arnm_bvec_init takes
abbrev pub IsInRange : ℕ → ℕ → Type 0
IsInRange log2 element_size = (0 < log2) × (log2 ≤ 15) × (0 < element_size) × (element_size ≤ 65535)

abbrev pub IsOutOfRange : ℕ → ℕ → Type 0
IsOutOfRange log2 element_size =
    (log2 ≡ 0) ⊎ ((15 < log2) ⊎ ((element_size ≡ 0) ⊎ (65535 < element_size)))

module _ {A : Type 0} (v : Bvec A) where
  init-served :
      (log2 step element_size : ℕ)
      → IsInRange log2 element_size
      → (v' : Bvec A) × (init (some v) log2 step element_size ≡ (success, some v'))
        × IsValid v'
        × (elements_of v' ≡ [])
  unfolding init elements_of
  init-served log2 step element_size (pos, le, sized, small) =
      let fits = payload_fits log2 le in
      let (low, high) = pow2_bounds log2 pos le in
      let checked : (element_size == 0
            || log2 == 0
            || ltb 15 log2
            || ltb (4294967295 / 2 ^ log2) element_size
            || ltb 65535 element_size)
          ≡ false =
        ground arith in
      let stepped : 0 < (if step == 0 then 8 else step) = ground arith in
      (
        fresh log2 step element_size,
        rw checked refl,
        record {
          log2_pos = pos;
          log2_small = le;
          sized = sized;
          sized_small = small;
          steps = stepped;
          index_length = refl;
          capacity_small = omega arith;
          held = omega arith;
          missing = λ e. refl;
          present = λ e. refl;
          buckets_held = λ k lt. let none_held : k < 0 = lt in absurd (omega (arith, none_held));
          tailed = (refl, omega arith, refl);
        },
        refl,
      )

  -- arnm_bvec_init answers success for an exponent of 1 to 15 and an element size of 1 to 65535,
  -- and leaves a well-formed vector without elements; any other arguments it refuses as invalid,
  -- and leaves the vector as it was.
  pub init-IsValid :
      (log2 step element_size : ℕ)
      → (IsInRange log2 element_size
          × ((v' : Bvec A) × (init (some v) log2 step element_size ≡ (success, some v'))
              × IsValid v'
              × (elements_of v' ≡ [])))
        ⊎ (IsOutOfRange log2 element_size
            × (init (some v) log2 step element_size ≡ (error_invalid_param, some v)))
  unfolding init
  init-IsValid log2 step element_size = elim (ℕ_discrete log2 0) [
    | yes zero_log2 ↦ inr (inl zero_log2, ground arith)
    | no some_log2 ↦ elim (ltb-cases 15 log2) [
      | inl high ↦ inr (inr (inl high), ground arith)
      | inr fits ↦ elim (ℕ_discrete element_size 0) [
        | yes sizeless ↦ inr (inr (inr (inl sizeless)), ground arith)
        | no sized ↦ elim (ltb-cases 65535 element_size) [
          | inl large ↦ inr (inr (inr (inr large)), ground arith)
          | inr small ↦
              let range : IsInRange log2 element_size = (omega arith, fits, omega arith, small) in
              inl (range, init-served log2 step element_size range)
        ]
      ]
    ]
  ]
