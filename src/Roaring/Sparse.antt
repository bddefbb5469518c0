-- ===== src/Roaring/Sparse.antt =====
-- A value at the end of a sparse set below its limit: it is there, or the set is as it was.
use arnm.Base.{
  nil_of_length, ℕ, suc, ◌+◌, ◌*◌, ◌/◌, ◌%◌, ◌^◌, ◌≤◌, ◌<◌, ◌≡◌, ◌≢◌, refl, ap, sym, ◌∙◌, [], ◌∷◌,
  ◌++◌, false, inl, inr, arith, length, take, ◌==◌, if◌then◌else◌, Bool-cases, ==_iff,
  length-append,
}
use native.Mathlib.Decide.{ℕ_discrete}
use arnm.BucketVector.Walks.{take-all}
use arnm.Result.{is_success}
use arnm.Roaring.{RoaringBitmap}
use arnm.Roaring.Pool.{BlockPool, IsLending, Refuses}
use arnm.Roaring.Adding.{grow_values, sparse_add}
use arnm.Roaring.Elements.{IsSparse, Settles}
use arnm.Roaring.Directory.{block_doubled}

-- The set behind the growth of its block: the same values, and room for one more.
record HasRoom (s grown : RoaringBitmap) : Type 0 where
  values : grown.values ≡ s.values
  count : grown.count ≡ s.count
  containers : grown.containers ≡ s.containers
  cardinality : grown.cardinality ≡ s.cardinality
  has_block : grown.block ≢ 0
  least : 4 ≤ grown.directory_log2
  log2_small : grown.directory_log2 ≤ 12
  room : suc s.cardinality * 4 ≤ 2 ^ grown.directory_log2

-- The set behind a sparse value.
pub record Appended (s : RoaringBitmap) (value : ℕ) (after : RoaringBitmap) : Type 0 where
  pub sparse : IsSparse after
  pub values : after.values ≡ s.values ++ value ∷ []
  pub cardinality : after.cardinality ≡ suc s.cardinality
  pub maximum : after.maximum ≡ value

values_below :
    (s : RoaringBitmap)
    → s.cardinality < 1024
    → s.cardinality ≡ 2 ^ s.directory_log2 / 4
    → s.directory_log2 ≤ 12
    → s.directory_log2 < 12
values_below s few at_limit small = elim (ℕ_discrete s.directory_log2 12) [
  | yes top ↦ let most : s.cardinality ≡ 1024 = at_limit ∙ rw top refl in absurd (omega arith)
  | no other ↦ omega arith
]

no_growth :
    (s : RoaringBitmap)
    → IsSparse s
    → (s.cardinality == (if s.block == 0 then 0 else 2 ^ s.directory_log2 / 4)) ≡ false
    → HasRoom s s
no_growth s valid free = elim (Bool-cases (s.block == 0)) [
  | inl null ↦ absurd (
      let none_yet = valid.blockless ((==_iff s.block 0).0 null) in
      let some_there = rw null at free in ground arith)
  | inr there ↦
      let more = rw there at free in
      record {
        values = refl;
        count = refl;
        containers = refl;
        cardinality = refl;
        has_block = λ e. ground arith;
        least = valid.least there;
        log2_small = valid.log2_small;
        room =
            (let differ : s.cardinality ≢ 2 ^ s.directory_log2 / 4 = ground arith in
              omega (arith, valid.fits));
      }
]

appended :
    (s grown : RoaringBitmap) (value : ℕ)
    → IsSparse s
    → s.cardinality < 1024
    → HasRoom s grown
    → Appended s value (record grown {
      values = take grown.cardinality grown.values ++ value ∷ [];
      cardinality = (grown.cardinality + 1) % 4294967296;
      maximum = value;
    })
appended s grown value valid few entry =
    let one_more : (grown.cardinality + 1) % 4294967296 ≡ suc s.cardinality =
      rw entry.cardinality (omega arith) in
    let kept : take grown.cardinality grown.values ≡ s.values =
      rw (entry.values, entry.cardinality)
        (take-all s.cardinality s.values (omega (arith, valid.counted))) in
    let listed = ap (λ vs. vs ++ value ∷ []) kept in
    record {
      sparse = record {
        no_containers = entry.count ∙ valid.no_containers;
        no_entries = entry.containers ∙ valid.no_entries;
        counted =
            one_more
            ∙ ap suc valid.counted
            ∙ sym (ap length listed ∙ length-append s.values (value ∷ []) ∙ omega arith);
        limited = rw one_more few;
        blockless = λ null. absurd (entry.has_block null);
        least = λ there. entry.least;
        log2_small = entry.log2_small;
        fits = rw one_more entry.room;
      };
      values = listed;
      cardinality = one_more;
      maximum = refl;
    }

module _ (P : BlockPool) (lending : IsLending P) where
  grow_values-HasRoom :
      (s : RoaringBitmap) (p : P.State)
      → IsSparse s
      → s.cardinality < 1024
      → ((s.block == 0) ≡ false → s.cardinality ≡ 2 ^ s.directory_log2 / 4)
      → Settles
          (grow_values P s p).result
          (HasRoom s (grow_values P s p).out)
          ((grow_values P s p).out ≡ s × Refuses P)
  unfolding grow_values is_success
  grow_values-HasRoom s p valid few full = elim (Bool-cases (s.block == 0)) [
    | inl null ↦ rw null (elim (Bool-cases (is_success (P.alloc_log2 p 4).result)) [
      | inl granted ↦
          let none_yet = valid.blockless ((==_iff s.block 0).0 null) in
          rw granted (
            inl (
              refl,
              record {
                values = sym (nil_of_length s.values (sym valid.counted ∙ none_yet));
                count = refl;
                containers = refl;
                cardinality = refl;
                has_block = lending.alloc-block p 4 granted;
                least = omega arith;
                log2_small = omega arith;
                room = rw none_yet (omega arith);
              },
            ))
      | inr refusal ↦ rw refusal (inr (refusal, (refl, (p, 4, refusal))))
    ])
    | inr there ↦
        let below = values_below s few (full there) valid.log2_small in
        let next : (s.directory_log2 + 1) % 256 ≡ suc s.directory_log2 = omega arith in
        rw (there, next)
          (elim (Bool-cases (is_success (P.alloc_log2 p (suc s.directory_log2)).result)) [
            | inl granted ↦ rw granted (
                inl (
                  refl,
                  record {
                    values = take-all s.cardinality s.values (omega (arith, valid.counted));
                    count = refl;
                    containers = refl;
                    cardinality = refl;
                    has_block = lending.alloc-block p (suc s.directory_log2) granted;
                    least = omega (arith, valid.least there);
                    log2_small = omega arith;
                    room =
                        block_doubled s.cardinality s.directory_log2 4 (valid.least there)
                          (omega arith) valid.fits;
                  },
                ))
            | inr refusal ↦ rw refusal (inr (refusal, (refl, (p, suc s.directory_log2, refusal))))
          ])
  ]

  pub sparse_add-Appended :
      (s : RoaringBitmap) (value : ℕ) (p : P.State)
      → IsSparse s
      → s.cardinality < 1024
      → Settles
          (sparse_add P s value p).result
          (Appended s value (sparse_add P s value p).out)
          ((sparse_add P s value p).out ≡ s × Refuses P)
  unfolding sparse_add is_success
  sparse_add-Appended s value p valid few =
      elim (Bool-cases (s.cardinality == (if s.block == 0 then 0 else 2 ^ s.directory_log2 / 4))) [
        | inl full ↦
            let at_limit : (s.block == 0) ≡ false → s.cardinality ≡ 2 ^ s.directory_log2 / 4 =
              λ there. (==_iff _ _).0 (rw there at full) in
            rw full (elim (grow_values-HasRoom s p valid few at_limit) [
              | inl (done, entry) ↦
                  rw done (inl (done, appended s (grow_values P s p).out value valid few entry))
              | inr (refusal, kept) ↦ rw refusal (inr (refusal, kept))
            ])
        | inr free ↦ rw free (inl (refl, appended s s value valid few (no_growth s valid free)))
      ]
