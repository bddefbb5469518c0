-- ===== src/Roaring/Appending.antt =====
-- arnm_roaring_add puts a value at the end of a set, in either form and over the change of form.
use arnm.Base.{
  nil_of_length, ℕ, suc, ◌+◌, ◌%◌, ◌<◌, ◌≡◌, ◌⊎◌, refl, ap, sym, ◌∙◌, [], ◌∷◌, ◌++◌, true, false,
  inl, inr, arith, length, ltb, ◌==◌, Bool-cases, ltb-cases, lt→ltb, length-append,
}
use arnm.Result.{Result}
use arnm.Roaring.{RoaringBitmap, is_sparse, key_of, low_of}
use arnm.Roaring.Pool.{BlockPool, IsLending, Refuses}
use arnm.Roaring.Adding.{place_low, container_add, sparse_add, sparse_to_containers, append, add}
use arnm.Roaring.Ascending.{IsAscending, IsAscending-snoc, IsAscending-widen, length-IsAscending}
use arnm.Roaring.Elements.{directory_values, elements, IsDirectory, IsSparse, IsRoaring, Settles}
use arnm.Roaring.Sparse.{sparse_add-Appended}
use arnm.Roaring.Converting.{IsBuilt}
use arnm.Roaring.Runs.{sparse_to_containers-values}
use arnm.Roaring.Inserting.{place_low-Placed}

pub elements-sparse : (s : RoaringBitmap) → s.count ≡ 0 → elements s ≡ s.values
unfolding elements
elements-sparse s nothing = let yes_sparse : is_sparse s ≡ true = ground arith in rw yes_sparse refl

pub elements-directory :
    (s : RoaringBitmap) → 0 < s.count → elements s ≡ directory_values s.containers
unfolding elements
elements-directory s something = let listed : is_sparse s ≡ false = ground arith in rw listed refl

-- A directory that was built is a set.
pub IsBuilt-IsRoaring : (s : RoaringBitmap) → IsBuilt s → 0 < s.count → IsRoaring s
IsBuilt-IsRoaring s built some_there =
    let listed = elements-directory s some_there in
    record {
      counted = built.counted ∙ ap length (sym listed);
      ascending = rw listed built.ascending;
      top = rw listed built.top;
      bounded = built.bounded;
      form = inr (some_there, built.directory);
    }

-- One value more, above all others.
added :
    (s after : RoaringBitmap) (value : ℕ)
    → s.cardinality ≡ length (elements s)
    → IsAscending 0 (elements s) value
    → value < 4294967296
    → elements after ≡ elements s ++ value ∷ []
    → after.cardinality ≡ suc s.cardinality
    → after.maximum ≡ value
    → IsSparse after ⊎ ((0 < after.count) × IsDirectory after)
    → IsRoaring after
added s after value counted below small grew one_more top form = record {
  counted =
      one_more
      ∙ ap suc counted
      ∙ sym (ap length grew ∙ length-append (elements s) (value ∷ []) ∙ omega arith);
  ascending = rw (grew, top) (IsAscending-snoc 0 (elements s) value value below (omega arith));
  top = inr (elements s, grew ∙ ap (λ v. elements s ++ v ∷ []) (sym top));
  bounded = rw top small;
  form = form;
}

-- What a call of add leaves: the value at the end of a well-formed set, or the same values
-- in one when the pool refuses a request.
abbrev pub Adds : BlockPool → RoaringBitmap → ℕ → Result → RoaringBitmap → Type 0
Adds P s value result after =
    Settles result (IsRoaring after × (elements after ≡ elements s ++ value ∷ []))
      (IsRoaring after × (elements after ≡ elements s) × Refuses P)

module _ (P : BlockPool) (lending : IsLending P) where
  container_add-Adds :
      (s : RoaringBitmap) (value : ℕ) (p : P.State)
      → IsRoaring s
      → (0 < s.count)
      → IsDirectory s
      → value < 4294967296
      → s.cardinality < 4294967295
      → IsAscending 0 (elements s) value
      → Adds P s value (container_add P s value p).result (container_add P s value p).out
  unfolding container_add
  container_add-Adds s value p valid some_there directory small less below =
      let listed = elements-directory s some_there in
      let fewer = length-IsAscending 0 (elements s) value below in
      elim (place_low-Placed P lending s value p directory small (rw listed at below)) [
        | inr (refusal, (kept, why)) ↦
            rw refusal (inr (refusal, (rw kept valid, ap elements kept, why)))
        | inl (done, placed) ↦
            let r = place_low P s (key_of value) (low_of value) p in
            let one_more : (r.out.cardinality + 1) % 4294967296 ≡ suc s.cardinality =
              rw placed.cardinality (omega (arith, valid.counted)) in
            let after : RoaringBitmap = record r.out {
              cardinality = (r.out.cardinality + 1) % 4294967296;
              maximum = value;
            } in
            let grew : elements after ≡ elements s ++ value ∷ [] =
              elements-directory after placed.some_containers
              ∙ placed.values
              ∙ ap (λ vs. vs ++ value ∷ []) (sym listed) in
            let form : IsDirectory after = record {
              numbered = placed.directory.numbered;
              blockless = placed.directory.blockless;
              sorted = placed.directory.sorted;
              all = placed.directory.all;
              least = placed.directory.least;
              log2_small = placed.directory.log2_small;
              fits = placed.directory.fits;
            } in
            rw done (
              inl (
                done,
                (
                  added s after value valid.counted below small grew one_more refl
                      (inr (placed.some_containers, form)),
                  grew,
                ),
              ))
      ]

  append-Adds :
      (s : RoaringBitmap) (value : ℕ) (p : P.State)
      → IsRoaring s
      → value < 4294967296
      → s.cardinality < 4294967295
      → IsAscending 0 (elements s) value
      → Adds P s value (append P s value p).result (append P s value p).out
  unfolding append
  append-Adds s value p valid small less below = elim valid.form [
    | inr (some_there, directory) ↦
        let listed : is_sparse s ≡ false = ground arith in
        rw listed (container_add-Adds s value p valid some_there directory small less below)
    | inl sparse ↦
        let yes_sparse : is_sparse s ≡ true = ground (arith, sparse.no_containers) in
        let listed = elements-sparse s sparse.no_containers in
        rw yes_sparse (elim (ltb-cases s.cardinality 1024) [
          | inl few ↦
              rw (lt→ltb _ _ few) (elim (sparse_add-Appended P lending s value p sparse few) [
                | inr (refusal, (kept, why)) ↦ inr (refusal, (rw kept valid, ap elements kept, why))
                | inl (done, grown) ↦
                    let after = (sparse_add P s value p).out in
                    let grew : elements after ≡ elements s ++ value ∷ [] =
                      elements-sparse after grown.sparse.no_containers
                      ∙ grown.values
                      ∙ ap (λ vs. vs ++ value ∷ []) (sym listed) in
                    inl (
                      done,
                      (
                        added s after value valid.counted below small grew grown.cardinality
                            grown.maximum (inl grown.sparse),
                        grew,
                      ),
                    )
              ])
          | inr many ↦
              let full : ltb s.cardinality 1024 ≡ false = ground arith in
              rw full (elim (sparse_to_containers-values P lending s p valid sparse (omega arith)) [
                | inr (refusal, (kept, why)) ↦
                    rw refusal (inr (refusal, (rw kept valid, ap elements kept, why)))
                | inl (done, (built, some_there, held)) ↦
                    let r = sparse_to_containers P s p in
                    let same : elements r.out ≡ elements s =
                      elements-directory r.out some_there ∙ held ∙ sym listed in
                    let middle = IsBuilt-IsRoaring r.out built some_there in
                    rw done
                      (elim (container_add-Adds r.out value r.pool middle some_there built.directory
                        small
                        (rw (built.counted ∙ ap length held)
                          (omega (arith, sparse.counted, sparse.limited)))
                        (rw same below)) [
                          | inl (ended, (after, grew)) ↦
                              inl (ended, (after, grew ∙ ap (λ vs. vs ++ value ∷ []) same))
                          | inr (refusal, (after, kept, why)) ↦
                              inr (refusal, (after, kept ∙ same, why))
                        ])
              ])
        ])
  ]

  -- With a pool whose requests, where they succeed, hand out a block that is not NULL, and may be
  -- refused, adding a 32 bit number above the maximum, or to an empty set, leaves a well-formed set:
  -- its values with the number behind them when arnm_roaring_add succeeds, and its values alone when
  -- it fails, which it does only if the pool refuses a request. The set is well formed and holds
  -- fewer than 2 ^ 32 - 1 values.
  pub add-Adds :
      (s : RoaringBitmap) (value : ℕ) (p : P.State)
      → IsRoaring s
      → value < 4294967296
      → s.cardinality < 4294967295
      → (s.cardinality ≡ 0) ⊎ (s.maximum < value)
      → Adds P s value (add P s value p).result (add P s value p).out
  unfolding add
  add-Adds s value p valid small less (inl nothing) =
      let below : IsAscending 0 (elements s) value =
        rw (nil_of_length (elements s) (sym valid.counted ∙ nothing)) (omega arith) in
      let none_there : (s.cardinality == 0) ≡ true = ground arith in
      rw none_there (append-Adds s value p valid small less below)
  add-Adds s value p valid small less (inr larger) =
      let below = IsAscending-widen 0 (elements s) (suc s.maximum) value valid.ascending larger in
      let step = append-Adds s value p valid small less below in
      elim (Bool-cases (s.cardinality == 0)) [
        | inl nothing ↦ rw nothing step
        | inr something ↦
            let not_smaller : ltb value s.maximum ≡ false = ground arith in
            let not_equal : (value == s.maximum) ≡ false = ground arith in
            let not_full : (s.cardinality == 4294967295) ≡ false = ground arith in
            rw (something, not_smaller, not_equal, not_full) step
      ]
