-- ===== src/Roaring/Contains.antt =====
-- arnm_roaring_contains answers whether a value is among the values of the set.
use arnm.Base.{
  ℕ, zero, suc, ◌/◌, ◌%◌, ◌≤◌, ◌<◌, ◌≡◌, refl, ap, sym, ◌∙◌, List, [], ◌∷◌, ◌++◌, none, some, Bool,
  true, false, ◌&&◌, ◌||◌, inl, inr, arith, map, length, get_elem?, ltb, ◌==◌, if◌then◌else◌,
  ltb-cases, Bool-cases, lt→ltb,
}
use native.Mathlib.Decide.{ℕ_discrete}
use arnm.BucketVector.Walks.{get_elem?-past}
use arnm.Roaring.{
  Contents, array, bitmap, Container, RoaringBitmap, is_sparse, key_of, low_of, value_of,
}
use arnm.Roaring.Containers.{has_bit}
use arnm.Roaring.Search.{lower_bound}
use arnm.Roaring.Reads.{holds_at, container_contains, contains}
use arnm.Roaring.Ascending.{IsAscending, IsAscending-le}
use arnm.Roaring.Counting.{count_below, count_below-above, lower_bound-eq-count_below}
use arnm.Roaring.Keys.{keys_of, first_container-eq-count_below}
use arnm.Roaring.Bits.{members, low_parts}
use arnm.Roaring.Elements.{
  lows_of, container_values, directory_values, elements, IsContainer, AllContainers, IsRoaring,
}

-- whether a value is in a list
unfoldable pub is_in : ℕ → List ℕ → Bool
is_in v [] = false
is_in v (x ∷ xs) = (x == v) || is_in v xs

is_in-append : (v : ℕ) (xs ys : List ℕ) → is_in v (xs ++ ys) ≡ (is_in v xs || is_in v ys)
unfolding is_in
is_in-append v [] ys = refl
is_in-append v (x ∷ xs) ys = elim (Bool-cases (x == v)) [
  | inl here ↦ rw here refl
  | inr other ↦ rw other (is_in-append v xs ys)
]

-- A value below the others is not among them.
is_in-above : (v lo : ℕ) (xs : List ℕ) (hi : ℕ) → IsAscending lo xs hi → v < lo → is_in v xs ≡ false
unfolding is_in
is_in-above v lo [] hi h less = refl
is_in-above v lo (x ∷ xs) hi (at_least, h) less =
    let rest = is_in-above v (suc x) xs hi h (omega arith) in
    let other : (x == v) ≡ false = ground arith in rw other rest

or_false : (b : Bool) → (b || false) ≡ b
or_false true = refl
or_false false = refl

low_eq : (key x v : ℕ) → x < 65536 → key ≡ v / 65536 → (value_of key x == v) ≡ (x == v % 65536)
low_eq key x v small same = ground arith

found_at : List ℕ → ℕ → ℕ → Bool
found_at xs i v = elim (get_elem? xs i) [ none ↦ false | some x ↦ x == v ]

found_at-count_below :
    (v lo : ℕ) (xs : List ℕ) (hi : ℕ)
    → IsAscending lo xs hi
    → found_at xs (count_below v xs) v ≡ is_in v xs
unfolding is_in count_below found_at
found_at-count_below v lo [] hi h = refl
found_at-count_below v lo (x ∷ xs) hi (at_least, h) = elim (ltb-cases x v) [
  | inl below ↦
      let rest = found_at-count_below v (suc x) xs hi h in
      let other : (x == v) ≡ false = ground arith in rw (lt→ltb x v below, other) rest
  | inr above ↦
      let stops : ltb x v ≡ false = ground arith in
      let nothing = count_below-above v (suc x) xs hi h (omega arith) in
      rw (stops, nothing)
        (elim (Bool-cases (x == v)) [
          | inl here ↦ rw here refl
          | inr other ↦ rw other (sym (is_in-above v (suc x) xs hi h (ground arith)))
        ])
]

-- In an ascending array the search tells whether the value is there.
holds_at-lower_bound :
    (v lo : ℕ) (xs : List ℕ) (hi : ℕ)
    → IsAscending lo xs hi
    → holds_at xs (length xs) (lower_bound xs (length xs) v) v ≡ is_in v xs
unfolding holds_at found_at
holds_at-lower_bound v lo xs hi h =
    let found = found_at-count_below v lo xs hi h in
    rw (lower_bound-eq-count_below v lo xs hi h) (elim (ltb-cases (count_below v xs) (length xs)) [
      | inl inside ↦ rw (lt→ltb _ _ inside) found
      | inr past ↦
          let stops : ltb (count_below v xs) (length xs) ≡ false = ground arith in
          let missing = get_elem?-past xs (count_below v xs) past in
          rw stops (rw (missing, found_at) at found)
    ])

is_in-above_members : (f : ℕ → Bool) (n i : ℕ) → n ≤ i → is_in i (members f n) ≡ false
unfolding members is_in
is_in-above_members f zero i le = refl
is_in-above_members f (suc n) i le =
    let below = is_in-above_members f n i (omega arith) in
    elim (Bool-cases (f n)) [
      | inl there ↦
          let unequal : (n == i) ≡ false = ground arith in
          rw there (is_in-append i (members f n) (n ∷ []) ∙ rw (below, unequal) refl)
      | inr clear ↦ rw clear below
    ]

is_in-members : (f : ℕ → Bool) (n i : ℕ) → i < n → is_in i (members f n) ≡ f i
unfolding members is_in
is_in-members f zero i less = absurd (omega arith)
is_in-members f (suc n) i less = elim (ℕ_discrete i n) [
  | yes same ↦
      let below = is_in-above_members f n i (omega arith) in
      elim (Bool-cases (f n)) [
        | inl there ↦
            let equal : (n == i) ≡ true = ground arith in
            rw there (is_in-append i (members f n) (n ∷ []) ∙ rw (below, equal, same) (sym there))
        | inr clear ↦ rw clear (below ∙ rw same (sym clear))
      ]
  | no other ↦
      let below = is_in-members f n i (omega arith) in
      elim (Bool-cases (f n)) [
        | inl there ↦
            let unequal : (n == i) ≡ false = ground arith in
            rw there (is_in-append i (members f n) (n ∷ []) ∙ rw (below, unequal) (or_false (f i)))
        | inr clear ↦ rw clear below
      ]
]

is_in-map_value_of :
    (key : ℕ) (lows : List ℕ) (lo v : ℕ)
    → IsAscending lo lows 65536
    → is_in v (map (value_of key) lows) ≡ ((key == v / 65536) && is_in (v % 65536) lows)
unfolding is_in
is_in-map_value_of key [] lo v h = ground arith
is_in-map_value_of key (x ∷ xs) lo v (at_least, h) =
    let small = IsAscending-le (suc x) xs 65536 h in
    rw (is_in-map_value_of key xs (suc x) v h) (elim (ℕ_discrete key (v / 65536)) [
      | yes same ↦
          let equal : (key == v / 65536) ≡ true = ground arith in
          rw equal (ap (λ b. b || is_in (v % 65536) xs) (low_eq key x v (omega arith) same))
      | no other ↦
          let unequal : (key == v / 65536) ≡ false = ground arith in
          let differ : (value_of key x == v) ≡ false = ground arith in rw (unequal, differ) refl
    ])

-- In the container of its key a value is found by its low part.
contents_contain :
    (contents : Contents) (block cardinality key block_log2 low : ℕ)
    → cardinality ≡ length (lows_of contents)
    → IsAscending 0 (lows_of contents) 65536
    → low < 65536
    → container_contains
        (record {
          block = block;
          contents = contents;
          cardinality = cardinality;
          key = key;
          block_log2 = block_log2;
        })
        low
      ≡ is_in low (lows_of contents)
unfolding container_contains lows_of low_parts
contents_contain (array lows) block cardinality key block_log2 low counted up small =
    rw counted (holds_at-lower_bound low 0 lows 65536 up)
contents_contain (bitmap words) block cardinality key block_log2 low counted up small =
    sym (is_in-members (has_bit words) 65536 low small)

container_contains-is_in :
    (c : Container)
    → IsContainer c
    → (low : ℕ) → low < 65536
    → container_contains c low ≡ is_in low (lows_of c.contents)
container_contains-is_in c valid low small =
    contents_contain c.contents c.block c.cardinality c.key c.block_log2 low valid.counted
      valid.ascending small

-- Among the containers from a key on, no value of a lower key is found.
is_in-directory_above :
    (cs : List Container) (lo hi v : ℕ)
    → IsAscending lo (keys_of cs) hi
    → AllContainers cs
    → v / 65536 < lo
    → is_in v (directory_values cs) ≡ false
unfolding directory_values keys_of is_in
is_in-directory_above [] lo hi v h valid less = refl
is_in-directory_above (c ∷ cs) lo hi v (at_least, h) (here, rest) less =
    let unequal : (c.key == v / 65536) ≡ false = ground arith in
    is_in-append v (container_values c) (directory_values cs)
    ∙ rw (is_in-map_value_of c.key (lows_of c.contents) 0 v here.ascending, unequal)
        (is_in-directory_above cs (suc c.key) hi v h rest (omega arith))

found_in : List Container → ℕ → ℕ → ℕ → Bool
found_in cs index key low = elim (get_elem? cs index) [
  | none ↦ false
  | some c ↦ if c.key == key then container_contains c low else false
]

found_in-count_below :
    (cs : List Container) (lo hi v : ℕ)
    → IsAscending lo (keys_of cs) hi
    → AllContainers cs
    → found_in cs (count_below (v / 65536) (keys_of cs)) (v / 65536) (v % 65536)
      ≡ is_in v (directory_values cs)
unfolding directory_values keys_of is_in count_below found_in
found_in-count_below [] lo hi v h valid = refl
found_in-count_below (c ∷ cs) lo hi v (at_least, h) (here, rest) =
    let parts =
      is_in-append v (container_values c) (directory_values cs)
      ∙ ap (λ b. b || is_in v (directory_values cs))
          (is_in-map_value_of c.key (lows_of c.contents) 0 v here.ascending) in
    elim (ltb-cases c.key (v / 65536)) [
      | inl below ↦
          let unequal : (c.key == v / 65536) ≡ false = ground arith in
          rw (lt→ltb _ _ below, parts, unequal) (found_in-count_below cs (suc c.key) hi v h rest)
      | inr above ↦
          let stops : ltb c.key (v / 65536) ≡ false = ground arith in
          let nothing = count_below-above (v / 65536) (suc c.key) (keys_of cs) hi h (omega arith) in
          rw (stops, nothing, parts, is_in-directory_above cs (suc c.key) hi v h rest (omega arith))
            (elim (Bool-cases (c.key == v / 65536)) [
              | inl equal ↦
                  rw (equal, container_contains-is_in c here (v % 65536) (omega arith))
                    (sym (or_false _))
              | inr unequal ↦ rw unequal refl
            ])
    ]

-- arnm_roaring_contains on a well-formed set answers true for the values of the set and false for
-- every other 32 bit number, whichever form the set and its containers are in.
pub contains-is_in :
    (s : RoaringBitmap) (value : ℕ)
    → IsRoaring s
    → value < 4294967296
    → contains s value ≡ is_in value (elements s)
unfolding contains elements found_in
contains-is_in s value valid small = elim valid.form [
  | inl sparse ↦
      let yes_sparse : is_sparse s ≡ true = ground (arith, sparse.no_containers) in
      let up : IsAscending 0 s.values (suc s.maximum) =
        rw (yes_sparse, elements) at valid.ascending in
      rw (yes_sparse, sparse.counted) (holds_at-lower_bound value 0 s.values _ up)
  | inr (some_containers, directory) ↦
      let listed : is_sparse s ≡ false = ground arith in
      let key : key_of value ≡ value / 65536 = omega arith in
      let index = count_below (key_of value) (keys_of s.containers) in
      let found : found_in s.containers index (key_of value) (low_of value)
          ≡ is_in value (directory_values s.containers) =
        rw key (found_in-count_below s.containers 0 65536 value directory.sorted directory.all) in
      rw
        (
          listed,
          first_container-eq-count_below s (key_of value) 0 65536 directory.sorted
              directory.numbered,
        )
        (elim (Bool-cases (index == s.count)) [
          | inl at_end ↦
              let past : length s.containers ≤ index = ground (arith, directory.numbered) in
              rw at_end (rw (get_elem?-past s.containers index past, found_in) at found)
          | inr inside ↦ rw inside found
        ])
]
