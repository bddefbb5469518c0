-- ===== src/Roaring/Results.antt =====
-- arnm_roaring_values_result: an ascending list as a set of its own, in the form that suits its size.
use arnm.Base.{
  nil_of_length, ℕ, ◌-◌, ◌*◌, ◌%◌, ◌^◌, ◌≤◌, ◌<◌, ◌≡◌, refl, ap, sym, ◌∙◌, List, [], ◌∷◌, ◌++◌,
  false, inl, inr, arith, length, get_or, ltb, ◌==◌, Bool-cases, ltb-cases, lt→ltb, ==_iff,
  last_split,
}
use arnm.BucketVector.Walks.{take-all}
use arnm.FixedRing.Window.{get_elem?-some}
use arnm.Result.{is_success}
use arnm.Roaring.{RoaringBitmap, empty_set, log2_for_bytes}
use arnm.Roaring.Pool.{BlockPool, IsLending, Refuses}
use arnm.Roaring.Adding.{values_to_containers, values_result, emit_runs}
use arnm.Roaring.Ascending.{IsAscending, IsAscending-top, IsAscending-entry}
use arnm.Roaring.Elements.{elements, IsRoaring, Settles}
use arnm.Roaring.Converting.{log2_from-enough, log2_from-within, get_or-get_elem?}
use arnm.Roaring.Runs.{
  emit_runs-values, empty_set-IsBuilt, empty_keys, empty_values, no_values, some_containers,
}
use arnm.Roaring.Appending.{elements-sparse, elements-directory, IsBuilt-IsRoaring}
use arnm.Roaring.Building.{empty_set-IsRoaring}

-- The block of up to 1024 values.
values_log2 :
    (count : ℕ)
    → count ≤ 1024
    → (count * 4 ≤ 2 ^ log2_for_bytes (count * 4 % 4294967296))
      × (4 ≤ log2_for_bytes (count * 4 % 4294967296))
      × (log2_for_bytes (count * 4 % 4294967296) ≤ 12)
unfolding log2_for_bytes
values_log2 count few =
    let bytes : count * 4 % 4294967296 ≡ count * 4 = omega arith in
    let (least, most) = log2_from-within 13 4 (count * 4) 12 (omega arith) (omega arith) in
    rw bytes (log2_from-enough 13 4 (count * 4) (omega arith), least, most)

module _ (P : BlockPool) (lending : IsLending P) where
  -- Up to 2048 ascending 32 bit numbers, written to an empty set by arnm_roaring_values_result, leave a
  -- well-formed set of exactly these values when the call succeeds, which it does unless the pool
  -- refuses a request.
  values_result-elements :
      (vs : List ℕ) (p : P.State)
      → IsAscending 0 vs 4294967296
      → length vs ≤ 2048
      → Settles
          (values_result P empty_set vs (length vs) p).result
          (IsRoaring (values_result P empty_set vs (length vs) p).out
            × (elements (values_result P empty_set vs (length vs) p).out ≡ vs))
          (Refuses P)
  unfolding values_result values_to_containers is_success
  values_result-elements vs p up few =
      let all = take-all (length vs) vs (omega arith) in
      elim (Bool-cases (length vs == 0)) [
        | inl nothing ↦
            let empty = nil_of_length vs ((==_iff (length vs) 0).0 nothing) in
            rw nothing
              (inl (refl, (empty_set-IsRoaring, elements-sparse empty_set refl ∙ sym empty)))
        | inr something ↦ rw something (elim (ltb-cases 1024 (length vs)) [
          | inl many ↦
              rw (lt→ltb _ _ many, all)
                (elim (emit_runs-values P lending (length vs) empty_set 0 vs p empty_set-IsBuilt
                  empty_keys empty_values up (omega arith) (omega arith)) [
                    | inr (refusal, why) ↦ inr (refusal, why)
                    | inl (done, (built, held)) ↦
                        let out = (emit_runs P (length vs) empty_set vs p).out in
                        let same = held ∙ ap (λ xs. xs ++ vs) no_values in
                        let some_there : 0 < out.count = omega (
                          arith,
                          built.directory.numbered,
                          some_containers out.containers (length vs) (sym (ap length same))
                              (omega arith),
                        ) in
                        inl (
                          done,
                          (
                            IsBuilt-IsRoaring out built some_there,
                            elements-directory out some_there ∙ same,
                          ),
                        )
                  ])
          | inr short ↦
              let log2 = log2_for_bytes (length vs * 4 % 4294967296) in
              let not_many : ltb 1024 (length vs) ≡ false = ground arith in
              rw (not_many, all)
                (elim (Bool-cases (is_success (P.alloc_log2 p log2).result)) [
                  | inr refusal ↦ rw refusal (inr (refusal, (p, log2, refusal)))
                  | inl granted ↦
                      let (fits, least, most) = values_log2 (length vs) short in
                      let (last, there) = get_elem?-some vs (length vs - 1) (ground arith) in
                      let top = get_or-get_elem? vs (length vs - 1) last 0 there in
                      let (front, whole, written) = last_split vs last there in
                      let out : RoaringBitmap = record empty_set {
                        block = (P.alloc_log2 p log2).block;
                        values = vs;
                        directory_log2 = log2;
                        cardinality = length vs;
                        maximum = get_or vs (length vs - 1) 0;
                      } in
                      let held = elements-sparse out refl in
                      rw granted (
                        inl (
                          refl,
                          (
                            record {
                              counted = ap length (sym held);
                              ascending =
                                  rw (held, top) (IsAscending-top 0 vs 4294967296 up last there);
                              top = inr (front, held ∙ whole ∙ ap (λ v. front ++ v ∷ []) (sym top));
                              bounded =
                                  rw top (
                                    IsAscending-entry 0 vs 4294967296 (length vs - 1) last up
                                      there);
                              form = inl (record {
                                no_containers = refl;
                                no_entries = refl;
                                counted = refl;
                                limited = short;
                                blockless =
                                    λ null. absurd (lending.alloc-block p log2 granted null);
                                least = λ full. least;
                                log2_small = most;
                                fits = fits;
                              });
                            },
                            held,
                          ),
                        ))
                ])
        ])
      ]
