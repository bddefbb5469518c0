-- ===== src/Roaring/Filling.antt =====
-- A low part above the others goes into a container, or the container is as it was.
use arnm.Base.{
  ℕ, suc, ◌+◌, ◌*◌, ◌/◌, ◌%◌, ◌^◌, ◌≤◌, ◌<◌, ◌≡◌, ◌≢◌, refl, ap, sym, ◌∙◌, List, [], ◌∷◌, ◌++◌,
  true, false, inl, inr, arith, length, take, replicate, ◌==◌, Bool-cases, ==_iff, length-append,
  length-replicate,
}
use native.Mathlib.Decide.{ℕ_discrete}
use arnm.BucketVector.Walks.{take-all}
use arnm.Result.{is_success}
use arnm.Roaring.{Contents, array, bitmap, Container}
use arnm.Roaring.Pool.{BlockPool, Refuses}
use arnm.Roaring.Containers.{set_bit, set_bits, array_to_bitmap, array_grow}
use arnm.Roaring.Adding.{array_add, last_add}
use arnm.Roaring.Ascending.{IsAscending, IsAscending-snoc, IsAscending-widen, length-IsAscending}
use arnm.Roaring.Bits.{
  low_parts, low_parts-set_bit, low_parts-set_bits, low_parts-zeros, length-set_bit,
  length-set_bits, set_bit-IsWords, set_bits-IsWords, zeros-IsWords,
}
use arnm.Roaring.Directory.{block_doubled}
use arnm.Roaring.Elements.{lows_of, FitsBlock, IsContainer, Settles}

-- a container from its fields
abbrev pub made : ℕ → Contents → ℕ → ℕ → ℕ → Container
made block contents cardinality key log2 = record {
  block = block;
  contents = contents;
  cardinality = cardinality;
  key = key;
  block_log2 = log2;
}

pub record Filled (c : Container) (low : ℕ) (after : Container) : Type 0 where
  pub valid : IsContainer after
  pub lows : lows_of after.contents ≡ lows_of c.contents ++ low ∷ []
  pub key : after.key ≡ c.key

-- One low part more is one more in the count, and the low parts still ascend.
filled :
    (block : ℕ) (contents : Contents) (cardinality key log2 low : ℕ) (block' : ℕ)
    (contents' : Contents) (log2' : ℕ)
    → IsContainer (made block contents cardinality key log2)
    → IsAscending 0 (lows_of contents) low
    → low < 65536
    → lows_of contents' ≡ lows_of contents ++ low ∷ []
    → FitsBlock (suc cardinality) log2' contents'
    → Filled
        (made block contents cardinality key log2)
        low
        (made block' contents' ((cardinality + 1) % 4294967296) key log2')
filled block contents cardinality key log2 low block' contents' log2' valid below small grew fits =
    let counted : cardinality ≡ length (lows_of contents) = valid.counted in
    let few = length-IsAscending 0 (lows_of contents) low below in
    let one_more : (cardinality + 1) % 4294967296 ≡ suc cardinality = omega arith in
    record {
      valid = record {
        some_values = rw one_more (omega arith);
        counted =
            one_more
            ∙ ap suc counted
            ∙ sym (ap length grew ∙ length-append (lows_of contents) (low ∷ []) ∙ omega arith);
        ascending = rw grew (
            IsAscending-widen 0 (lows_of contents ++ low ∷ []) (suc low) 65536
              (IsAscending-snoc 0 (lows_of contents) low low below (omega arith)) small);
        fits = rw one_more fits;
      };
      lows = grew;
      key = refl;
    }

low_parts-array_to_bitmap :
    (block : ℕ) (lows : List ℕ) (cardinality key log2 low : ℕ)
    → IsContainer (made block (array lows) cardinality key log2)
    → IsAscending 0 lows low
    → low < 65536
    → lows_of (bitmap (set_bit low (set_bits (take cardinality lows) (replicate 1024 0))))
      ≡ lows ++ low ∷ []
unfolding lows_of
low_parts-array_to_bitmap block lows cardinality key log2 low valid below small =
    let counted : cardinality ≡ length lows = valid.counted in
    let all : take cardinality lows ≡ lows = take-all cardinality lows (omega arith) in
    let whole : length {A = ℕ} (replicate 1024 0) ≡ 1024 = length-replicate {A = ℕ} 1024 0 in
    let nothing : IsAscending 0 (low_parts (replicate 1024 0)) 0 =
      rw low_parts-zeros (omega arith) in
    let set : low_parts (set_bits lows (replicate 1024 0)) ≡ lows =
      low_parts-set_bits lows (replicate 1024 0) 0 whole nothing valid.ascending
      ∙ ap (λ front. front ++ lows) low_parts-zeros in
    rw all (
      low_parts-set_bit (set_bits lows (replicate 1024 0)) low
        (length-set_bits lows (replicate 1024 0) ∙ whole) small (rw set below)
      ∙ ap (λ front. front ++ low ∷ []) set)

-- The room of an array below its limit.
array_room :
    (cardinality log2 : ℕ)
    → cardinality * 2 ≤ 2 ^ log2
    → (cardinality == 2 ^ log2 / 2) ≡ false
    → suc cardinality * 2 ≤ 2 ^ log2
array_room cardinality log2 fits free =
    let differ : cardinality ≢ 2 ^ log2 / 2 = ground arith in omega arith

array_below :
    (cardinality log2 : ℕ)
    → cardinality < 4096
    → log2 ≤ 13
    → (cardinality == 2 ^ log2 / 2) ≡ true
    → log2 < 13
array_below cardinality log2 few small full = elim (ℕ_discrete log2 13) [
  | yes top ↦
      let equal : cardinality ≡ 2 ^ log2 / 2 = (==_iff _ _).0 full in
      let most : cardinality ≡ 4096 = equal ∙ rw top refl in absurd (omega arith)
  | no other ↦ omega arith
]

below_limit :
    (cardinality : ℕ) → cardinality ≤ 4096 → (cardinality == 4096) ≡ false → cardinality < 4096
below_limit cardinality most free = ground arith

module _ (P : BlockPool) where
  pub last_add-Filled :
      (block : ℕ) (contents : Contents) (cardinality key log2 low : ℕ) (p : P.State)
      → IsContainer (made block contents cardinality key log2)
      → IsAscending 0 (lows_of contents) low
      → low < 65536
      → Settles
          (last_add P (made block contents cardinality key log2) low p).result
          (Filled
            (made block contents cardinality key log2)
            low
            (last_add P (made block contents cardinality key log2) low p).out)
          ((last_add P (made block contents cardinality key log2) low p).out
              ≡ made block contents cardinality key log2
            × Refuses P)
  unfolding last_add is_success array_to_bitmap array_add array_grow lows_of
  last_add-Filled block (bitmap words) cardinality key log2 low p valid below small = inl (
    refl,
    filled block (bitmap words) cardinality key log2 low block (bitmap (set_bit low words)) log2
        valid below small (low_parts-set_bit words low valid.fits.0 small below)
        (
          length-set_bit low words ∙ valid.fits.0,
          valid.fits.1,
          set_bit-IsWords low words valid.fits.2,
        ),
  )
  last_add-Filled block (array lows) cardinality key log2 low p valid below small =
      elim (Bool-cases (cardinality == 4096)) [
        | inl full ↦ rw full (elim (Bool-cases (is_success (P.alloc_log2 p 13).result)) [
          | inl granted ↦ rw granted (
              inl (
                refl,
                filled block (array lows) cardinality key log2 low (P.alloc_log2 p 13).block
                    (bitmap (set_bit low (set_bits (take cardinality lows) (replicate 1024 0)))) 13
                    valid below small
                    (low_parts-array_to_bitmap block lows cardinality key log2 low valid below
                      small)
                    (
                      length-set_bit low _
                          ∙ length-set_bits (take cardinality lows) (replicate 1024 0)
                          ∙ length-replicate {A = ℕ} 1024 0,
                      refl,
                      set_bit-IsWords low _
                          (set_bits-IsWords (take cardinality lows) _ (zeros-IsWords 1024)),
                    ),
              ))
          | inr refusal ↦ rw (refusal, refusal) (inr (refusal, (refl, (p, 13, refusal))))
        ])
        | inr free ↦
            let (most, fits, least, top) = valid.fits in
            let few = below_limit cardinality most free in
            let counted : cardinality ≡ length lows = valid.counted in
            let all : take cardinality lows ≡ lows = take-all cardinality lows (omega arith) in
            let written = ap (λ front. front ++ low ∷ []) all in
            rw free (elim (Bool-cases (cardinality == 2 ^ log2 / 2)) [
              | inr room ↦ rw room (
                  inl (
                    refl,
                    filled block (array lows) cardinality key log2 low block
                        (array (take cardinality lows ++ low ∷ [])) log2 valid below small written
                        (few, array_room cardinality log2 fits room, least, top),
                  ))
              | inl full ↦
                  let smaller = array_below cardinality log2 few top full in
                  let next : (log2 + 1) % 256 ≡ suc log2 = omega arith in
                  rw (full, next)
                    (elim (Bool-cases (is_success (P.alloc_log2 p (suc log2)).result)) [
                      | inl granted ↦ rw granted (
                          inl (
                            refl,
                            filled block (array lows) cardinality key log2 low
                                (P.alloc_log2 p (suc log2)).block
                                (array (take cardinality (take cardinality lows) ++ low ∷ []))
                                (suc log2) valid below small
                                (ap (λ xs. take cardinality xs ++ low ∷ []) all ∙ written)
                                (
                                  few,
                                  block_doubled cardinality log2 2 least (omega arith) fits,
                                  omega arith,
                                  smaller,
                                ),
                          ))
                      | inr refusal ↦
                          rw (refusal, refusal, refusal)
                            (inr (refusal, (refl, (p, suc log2, refusal))))
                    ])
            ])
      ]
