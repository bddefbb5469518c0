-- ===== src/Roaring/Inserting.antt =====
-- arnm_roaring_add puts a value at the end of the set, or leaves its values as they were.
use arnm.Base.{
  nil_of_length, ℕ, suc, ◌-◌, ◌/◌, ◌≤◌, ◌<◌, ◌≡◌, ◌⊎◌, refl, ap, sym, ◌∙◌, List, [], ◌∷◌, ◌++◌,
  none, some, inl, inr, arith, map, length, set, ◌==◌, Bool-cases, ==_iff, append_assoc, length-set,
  last_split, map-snoc,
}
use arnm.FixedRing.Window.{get_elem?-some}
use arnm.Result.{is_success}
use arnm.Roaring.{array, Container, RoaringBitmap, key_of, low_of, value_of}
use arnm.Roaring.Pool.{BlockPool, IsLending, Refuses}
use arnm.Roaring.Adding.{last_container, last_add, new_container, place_low}
use arnm.Roaring.Ascending.{
  IsAscending, IsAscending-snoc, IsAscending-widen, IsAscending-split, IsAscending-last,
  IsAscending-of_values, IsAscending-le,
}
use arnm.Roaring.Keys.{keys_of}
use arnm.Roaring.Elements.{
  lows_of, container_values, directory_values, IsContainer, IsDirectory, Settles,
}
use arnm.Roaring.Directory.{
  keys_of-snoc, directory_values-snoc, AllContainers-snoc, AllContainers-split, push_or_free-Pushed,
}
use arnm.Roaring.Filling.{Filled, last_add-Filled}

-- The set behind the low part of a value.
pub record Placed (s : RoaringBitmap) (value : ℕ) (after : RoaringBitmap) : Type 0 where
  pub directory : IsDirectory after
  pub some_containers : 0 < after.count
  pub values : directory_values after.containers ≡ directory_values s.containers ++ value ∷ []
  pub cardinality : after.cardinality ≡ s.cardinality

-- A key that has values below a bound is not above the key of the bound.
key-le :
    (key lo : ℕ) (lows : List ℕ) (value : ℕ)
    → IsAscending lo (map (value_of key) lows) value
    → 0 < length lows
    → key ≤ value / 65536
key-le key lo [] value h some_there = absurd (omega arith)
key-le key lo (x ∷ xs) value (at_least, h) some_there =
    let below = IsAscending-le (suc (value_of key x)) (map (value_of key) xs) value h in omega arith

-- The last container with the low part added takes its place in the directory.
refilled :
    (s : RoaringBitmap) (value : ℕ) (front : List Container) (last after : Container)
    → IsDirectory s
    → s.containers ≡ front ++ last ∷ []
    → set s.containers (s.count - 1) after ≡ front ++ after ∷ []
    → value_of last.key (low_of value) ≡ value
    → 0 < s.count
    → Filled last (low_of value) after
    → Placed s value (record s { containers = set s.containers (s.count - 1) after })
refilled s value front last after valid whole written own some_there filled =
    let same_keys : keys_of (set s.containers (s.count - 1) after) ≡ keys_of s.containers =
      ap keys_of written
      ∙ keys_of-snoc front after
      ∙ ap (λ k. keys_of front ++ k ∷ []) filled.key
      ∙ sym (keys_of-snoc front last)
      ∙ ap keys_of (sym whole) in
    let (before, here) = AllContainers-split front last (rw whole at valid.all) in
    let gained : container_values after ≡ container_values last ++ value ∷ [] =
      ap (λ k. map (value_of k) (lows_of after.contents)) filled.key
      ∙ ap (map (value_of last.key)) filled.lows
      ∙ map-snoc (value_of last.key) (lows_of last.contents) (low_of value)
      ∙ ap (λ v. container_values last ++ v ∷ []) own in
    record {
      directory = record {
        numbered = valid.numbered ∙ sym (length-set s.containers (s.count - 1) after);
        blockless = valid.blockless;
        sorted = rw same_keys valid.sorted;
        all = rw written (AllContainers-snoc front after before filled.valid);
        least = valid.least;
        log2_small = valid.log2_small;
        fits = valid.fits;
      };
      some_containers = some_there;
      values =
          ap directory_values written
          ∙ directory_values-snoc front after
          ∙ ap (λ vs. directory_values front ++ vs) gained
          ∙ sym (append_assoc (directory_values front) (container_values last) (value ∷ []))
          ∙ ap (λ vs. vs ++ value ∷ [])
              (sym (directory_values-snoc front last) ∙ ap directory_values (sym whole));
      cardinality = refl;
    }

no_keys_lem : (key : ℕ) → IsAscending 0 (keys_of []) key
unfolding keys_of
no_keys_lem key = omega arith

-- The containers are none or end with its last container.
pub last_container_cases :
    (s : RoaringBitmap)
    → s.count ≡ length s.containers
    → ((last_container s ≡ none) × (s.containers ≡ []))
      ⊎ ((last : Container) × (last_container s ≡ some last)
          × (0 < s.count)
          × (front : List Container) × (s.containers ≡ front ++ last ∷ [])
          × ((y : Container) → set s.containers (s.count - 1) y ≡ front ++ y ∷ []))
unfolding last_container
last_container_cases s numbered = elim (Bool-cases (s.count == 0)) [
  | inl nothing ↦
      inl
        (rw nothing refl, nil_of_length s.containers (sym numbered ∙ (==_iff s.count 0).0 nothing))
  | inr something ↦
      let positive : 0 < s.count = ground arith in
      let (last, there) = get_elem?-some s.containers (s.count - 1) (omega (arith, numbered)) in
      let (front, whole, written) = last_split s.containers last (rw numbered at there) in
      inr (
        last,
        (rw something there),
        positive,
        front,
        whole,
        λ y. ap (λ n. set s.containers (n - 1) y) numbered ∙ written y,
      )
]

module _ (P : BlockPool) (lending : IsLending P) where
  new_container-Placed :
      (s : RoaringBitmap) (value : ℕ) (p : P.State)
      → IsDirectory s
      → value < 4294967296
      → IsAscending 0 (keys_of s.containers) (key_of value)
      → Settles
          (new_container P s (key_of value) (low_of value) p).result
          (Placed s value (new_container P s (key_of value) (low_of value) p).out)
          ((new_container P s (key_of value) (low_of value) p).out ≡ s × Refuses P)
  unfolding new_container lows_of
  new_container-Placed s value p valid small above =
      elim (Bool-cases (is_success (P.alloc_log2 p 4).result)) [
        | inr refusal ↦ rw refusal (inr (refusal, (refl, (p, 4, refusal))))
        | inl granted ↦
            let c : Container = record {
              block = (P.alloc_log2 p 4).block;
              contents = array (low_of value ∷ []);
              cardinality = 1;
              key = key_of value;
              block_log2 = 4;
            } in
            let here : IsContainer c = record {
              some_values = omega arith;
              counted = refl;
              ascending = (omega arith, omega arith);
              fits = (omega arith, omega arith, omega arith, omega arith);
            } in
            let whole : value_of (key_of value) (low_of value) ≡ value = omega arith in
            rw granted
              (elim (push_or_free-Pushed P lending s c (P.alloc_log2 p 4).pool valid here above
                (omega arith)) [
                  | inr (refusal, kept) ↦ inr (refusal, kept)
                  | inl (done, pushed) ↦ inl (
                    done,
                    record {
                      directory = pushed.directory;
                      some_containers = rw pushed.count (omega arith);
                      values =
                          ap directory_values pushed.containers
                          ∙ directory_values-snoc s.containers c
                          ∙ ap (λ v. directory_values s.containers ++ v ∷ []) whole;
                      cardinality = pushed.cardinality;
                    },
                  )
                ])
      ]

  -- The low part of a value above all others finds its container.
  pub place_low-Placed :
      (s : RoaringBitmap) (value : ℕ) (p : P.State)
      → IsDirectory s
      → value < 4294967296
      → IsAscending 0 (directory_values s.containers) value
      → Settles
          (place_low P s (key_of value) (low_of value) p).result
          (Placed s value (place_low P s (key_of value) (low_of value) p).out)
          ((place_low P s (key_of value) (low_of value) p).out ≡ s × Refuses P)
  unfolding place_low
  place_low-Placed s value p valid small above = elim (last_container_cases s valid.numbered) [
    | inl (missing, nothing) ↦
        let no_keys : IsAscending 0 (keys_of s.containers) (key_of value) =
          rw nothing (no_keys_lem (key_of value)) in
        rw (missing, place_low) (new_container-Placed s value p valid small no_keys)
    | inr (last, there, some_there, front, whole, written) ↦
        let (before, here) = AllContainers-split front last (rw whole at valid.all) in
        let listed : IsAscending 0 (directory_values front ++ container_values last) value =
          rw (whole, directory_values-snoc front last) at above in
        let (middle, lower, upper) =
          IsAscending-split 0 (directory_values front) (container_values last) value listed in
        let at_most =
          key-le last.key middle (lows_of last.contents) value upper
            (rw here.counted at here.some_values) in
        let keys : IsAscending 0 (keys_of front ++ last.key ∷ []) 65536 =
          rw (whole, keys_of-snoc front last) at valid.sorted in
        let (lower_keys, key_small) = IsAscending-last 0 (keys_of front) last.key 65536 keys in
        rw (there, place_low)
          (elim (Bool-cases (last.key == key_of value)) [
            | inl same ↦
                let equal : last.key ≡ key_of value = (==_iff _ _).0 same in
                let own : value_of last.key (low_of value) ≡ value = omega arith in
                let room : IsAscending 0 (lows_of last.contents) (low_of value) =
                  IsAscending-of_values last.key 0 (lows_of last.contents) (low_of value) 65536
                    here.ascending middle (rw own upper) (omega arith) in
                rw same
                  (elim (last_add-Filled P last.block last.contents last.cardinality last.key
                    last.block_log2 (low_of value) p here room (omega arith)) [
                      | inl (done, filled) ↦ inl (
                        done,
                        refilled s value front last (last_add P last (low_of value) p).out valid
                            whole (written (last_add P last (low_of value) p).out) own some_there
                            filled,
                      )
                      | inr (refusal, (kept, why)) ↦
                          let unchanged : set s.containers (s.count - 1)
                                (last_add P last (low_of value) p).out
                              ≡ s.containers =
                            ap (set s.containers (s.count - 1)) kept ∙ written last ∙ sym whole in
                          inr (refusal, (ap (λ cs. record s { containers = cs }) unchanged, why))
                    ])
            | inr other ↦
                let below : last.key < key_of value = ground arith in
                let all_keys : IsAscending 0 (keys_of s.containers) (key_of value) =
                  rw (whole, keys_of-snoc front last)
                    (IsAscending-widen 0 (keys_of front ++ last.key ∷ []) (suc last.key)
                      (key_of value)
                      (IsAscending-snoc 0 (keys_of front) last.key last.key lower_keys
                        (omega arith))
                      below) in
                rw other (new_container-Placed s value p valid small all_keys)
          ])
  ]
