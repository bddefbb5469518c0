-- ===== src/Roaring/Edges.antt =====
-- arnm_roaring_minimum and maximum answer the first and the last value of the set.
use arnm.Base.{
  nil_of_length, ℕ, zero, suc, ◌+◌, ◌-◌, ◌*◌, ◌/◌, ◌%◌, ◌^◌, ◌≤◌, ◌<◌, ◌≡◌, ◌≢◌, refl, ap, sym, ◌∙◌,
  List, [], ◌∷◌, ◌++◌, none, some, Bool, true, false, inl, inr, arith, map, length, get_elem?,
  get_or, ◌==◌, Bool-cases, Option-cases, ==_iff, length-append,
}
use native.Mathlib.Decide.{ℕ_discrete}
use native.Mathlib.Nat.{pow-suc, zero-div}
use arnm.FixedRing.Window.{get_elem?-some}
use arnm.BucketVector.Walks.{get_elem?-append_right}
use arnm.Roaring.{Contents, array, bitmap, Container, RoaringBitmap, is_sparse, value_of}
use arnm.Roaring.Containers.{test_bit, has_bit}
use arnm.Roaring.Reads.{lowest_bit, first_word, minimum_of, maximum_of}
use arnm.Roaring.Bits.{members, low_parts, IsWords, get_or-lt, test_bit_half, first_bit}
use arnm.Roaring.Appending.{elements-sparse, elements-directory}
use arnm.Roaring.Elements.{
  lows_of, container_values, directory_values, elements, AllContainers, IsRoaring, FitsBlock,
}

empty_of_first : {A : Type 0} (xs : List A) → get_elem? xs 0 ≡ none → xs ≡ []
empty_of_first [] missing = refl
empty_of_first (x ∷ xs) missing = absurd (ground arith)

first_append :
    {A : Type 0} (xs ys : List A) (x : A)
    → get_elem? xs 0 ≡ some x
    → get_elem? (xs ++ ys) 0 ≡ some x
first_append [] ys x there = absurd (ground arith)
first_append (z ∷ zs) ys x there = there

members-empty : (f : ℕ → Bool) (n : ℕ) → members f n ≡ [] → (i : ℕ) → i < n → f i ≡ false
unfolding members
members-empty f zero empty i less = absurd (omega arith)
members-empty f (suc n) empty i less = elim (Bool-cases (f n)) [
  | inl set ↦ absurd (
      let sizes = ap length (rw set at empty) in
      let count = length-append (members f n) (n ∷ []) in omega arith)
  | inr clear ↦ elim (ℕ_discrete i n) [
    | yes same ↦ rw same clear
    | no other ↦ members-empty f n (rw clear at empty) i (omega arith)
  ]
]

-- The first member is the least one.
members-first :
    (f : ℕ → Bool) (n h : ℕ)
    → get_elem? (members f n) 0 ≡ some h
    → (h < n) × (f h ≡ true) × ((i : ℕ) → i < h → f i ≡ false)
unfolding members
members-first f zero h there = absurd (ground arith)
members-first f (suc n) h there = elim (Bool-cases (f n)) [
  | inr clear ↦
      let (less, here, before) = members-first f n h (rw clear at there) in
      (omega arith, here, before)
  | inl set ↦
      let listed : get_elem? (members f n ++ n ∷ []) 0 ≡ some h = rw set at there in
      elim (Option-cases (get_elem? (members f n) 0)) [
        | inl nothing ↦
            let empty = empty_of_first (members f n) nothing in
            let same : n ≡ h = let only = rw empty at listed in ground arith in
            (omega arith, rw (sym same) set, λ i less. members-empty f n empty i (omega arith))
        | inr (g, first) ↦
            let (less, here, before) = members-first f n g first in
            let same : g ≡ h =
              let both = sym (first_append (members f n) (n ∷ []) g first) ∙ listed in
              ground arith in
            (omega arith, rw (sym same) here, λ i small. before i (omega arith))
      ]
]

-- A word without a bit set is 0.
clear-zero :
    (width word : ℕ) → word < 2 ^ width → ((b : ℕ) → b < width → test_bit word b ≡ false) → word ≡ 0
clear-zero zero word small clear = omega arith
clear-zero (suc width) word small clear =
    let double : 2 ^ suc width ≡ 2 ^ width * 2 = pow-suc 2 width in
    let half =
      clear-zero width (word / 2) (omega arith)
        (λ b less. sym (test_bit_half word b) ∙ clear (suc b) (omega arith)) in
    let lowest : (word % 2 == 1) ≡ false =
      ap (λ n. n == 1) (sym (first_bit word)) ∙ clear 0 (omega arith) in
    let low : word % 2 ≢ 1 = ground arith in omega arith

lowest_bit-eq :
    (rounds word bit h : ℕ)
    → bit ≤ h
    → h < rounds + bit
    → test_bit word h ≡ true
    → ((i : ℕ) → i < h → test_bit word i ≡ false)
    → lowest_bit rounds word bit ≡ h
unfolding lowest_bit
lowest_bit-eq zero word bit h at_least less here clear = absurd (omega arith)
lowest_bit-eq (suc rounds) word bit h at_least less here clear = elim (ℕ_discrete bit h) [
  | yes same ↦ let set : test_bit word bit ≡ true = rw same here in rw set same
  | no other ↦
      let unset = clear bit (omega arith) in
      rw unset (lowest_bit-eq rounds word (bit + 1) h (omega arith) (omega arith) here clear)
]

first_word-eq :
    (words : List ℕ) (w j : ℕ)
    → get_or words j 0 ≢ 0
    → ((k : ℕ) → k < j → get_or words k 0 ≡ 0)
    → first_word words w ≡ w + j
unfolding first_word
first_word-eq [] w j here before = absurd (here refl)
first_word-eq (v ∷ vs) w zero here before =
    let set : (v == 0) ≡ false = ground arith in rw set (omega arith)
first_word-eq (v ∷ vs) w (suc j) here before =
    let first = before 0 (omega arith) in
    let unset : (v == 0) ≡ true = (==_iff v 0).1 first in
    rw unset
      (first_word-eq vs (w + 1) j here (λ k less. before (suc k) (omega arith)) ∙ omega arith)

zero_clear : (b : ℕ) → test_bit 0 b ≡ false
zero_clear b = rw (zero-div (2 ^ b)) refl

word_clear :
    (words : List ℕ) (h : ℕ)
    → ((i : ℕ) → i < h → has_bit words i ≡ false)
    → (k b : ℕ) → k * 64 + b < h
    → b < 64
    → test_bit (get_or words k 0) b ≡ false
unfolding has_bit
word_clear words h before k b less small =
    let quotient : (k * 64 + b) / 64 ≡ k = omega arith in
    let remainder : (k * 64 + b) % 64 ≡ b = omega arith in
    rw (quotient, remainder) at (before (k * 64 + b) less)

-- The first bit of a bitmap, as the code finds it.
first_low :
    (words : List ℕ) (h : ℕ)
    → IsWords words
    → has_bit words h ≡ true
    → ((i : ℕ) → i < h → has_bit words i ≡ false)
    → first_word words 0 * 64 + lowest_bit 64 (get_or words (first_word words 0) 0) 0 ≡ h
unfolding has_bit
first_low words h all here before =
    let some_there : get_or words (h / 64) 0 ≢ 0 = λ nothing.
      let unset = ap (λ w. test_bit w (h % 64)) nothing ∙ zero_clear (h % 64) in ground arith in
    let earlier : (k : ℕ) → k < h / 64 → get_or words k 0 ≡ 0 = λ k less.
      clear-zero 64 (get_or words k 0) (get_or-lt words k all)
        (λ b small. word_clear words h before k b (omega arith) small) in
    let word : first_word words 0 ≡ h / 64 =
      first_word-eq words 0 (h / 64) some_there earlier ∙ omega arith in
    let bit : lowest_bit 64 (get_or words (h / 64) 0) 0 ≡ h % 64 =
      lowest_bit-eq 64 (get_or words (h / 64) 0) 0 (h % 64) (omega arith) (omega arith) here
        (λ i less. word_clear words h before (h / 64) i (omega arith) (omega arith)) in
    rw (word, bit) (omega arith)

-- The first value of a container, as the code finds it.
first_of_contents :
    (key : ℕ) (contents : Contents) (cardinality log2 x : ℕ)
    → FitsBlock cardinality log2 contents
    → get_elem? (lows_of contents) 0 ≡ some x
    → elim contents [
      | array lows ↦ some (value_of key (get_or lows 0 0))
      | bitmap words ↦ some (
          value_of key
            (first_word words 0 * 64 + lowest_bit 64 (get_or words (first_word words 0) 0) 0))
    ]
      ≡ some (value_of key x)
unfolding lows_of low_parts
first_of_contents key (array []) cardinality log2 x fits there = absurd (ground arith)
first_of_contents key (array (y ∷ ys)) cardinality log2 x fits there =
    let same : y ≡ x = ground arith in ap (λ z. some (value_of key z)) same
first_of_contents key (bitmap words) cardinality log2 x fits there =
    let (less, here, before) = members-first (has_bit words) 65536 x there in
    ap (λ z. some (value_of key z)) (first_low words x fits.2 here before)

get_elem?-map :
    (f : ℕ → ℕ) (xs : List ℕ) (x : ℕ)
    → get_elem? xs 0 ≡ some x
    → get_elem? (map f xs) 0 ≡ some (f x)
get_elem?-map f [] x there = absurd (ground arith)
get_elem?-map f (y ∷ ys) x there = let same : y ≡ x = ground arith in ap (λ z. some (f z)) same

last_of :
    (front : List ℕ) (x : ℕ) → get_elem? (front ++ x ∷ []) (length (front ++ x ∷ []) - 1) ≡ some x
last_of front x =
    let place : length (front ++ x ∷ []) - 1 ≡ length front + 0 =
      let sizes = length-append front (x ∷ []) in omega arith in
    rw place (get_elem?-append_right front (x ∷ []) 0)

first_of_directory :
    (cs : List Container)
    → 0 < length cs
    → AllContainers cs
    → elim (get_elem? cs 0) [
      | none ↦ none
      | some first ↦ elim first.contents [
        | array lows ↦ some (value_of first.key (get_or lows 0 0))
        | bitmap words ↦ some (
            value_of first.key
              (first_word words 0 * 64 + lowest_bit 64 (get_or words (first_word words 0) 0) 0))
      ]
    ]
      ≡ get_elem? (directory_values cs) 0
unfolding directory_values
first_of_directory [] some_there all = absurd (omega arith)
first_of_directory (c ∷ cs) some_there (here, rest) =
    let positive = here.some_values in
    let (x, there) = get_elem?-some (lows_of c.contents) 0 (omega (arith, here.counted)) in
    first_of_contents c.key c.contents c.cardinality c.block_log2 x here.fits there
    ∙ sym (
        first_append (container_values c) (directory_values cs) (value_of c.key x)
          (get_elem?-map (value_of c.key) (lows_of c.contents) x there))

-- The minimum that arnm_roaring_minimum answers for a well-formed set is its first value, and the
-- maximum that arnm_roaring_maximum answers is its last one; there is none exactly if the set is
-- empty.
pub minimum_of-elements :
    (s : RoaringBitmap)
    → IsRoaring s
    → (minimum_of s ≡ get_elem? (elements s) 0)
      × (maximum_of s ≡ get_elem? (elements s) (length (elements s) - 1))
unfolding minimum_of maximum_of
minimum_of-elements s valid = elim (Bool-cases (s.cardinality == 0)) [
  | inl nothing ↦
      let empty = nil_of_length (elements s) (sym valid.counted ∙ (==_iff _ 0).0 nothing) in
      rw (nothing, empty) (refl, refl)
  | inr something ↦
      let last : some s.maximum ≡ get_elem? (elements s) (length (elements s) - 1) =
        elim valid.top [
          | inl empty ↦ absurd (let none_there = valid.counted ∙ ap length empty in ground arith)
          | inr (front, ends) ↦ rw ends (sym (last_of front s.maximum))
        ] in
      rw something (elim valid.form [
        | inl sparse ↦
            let yes_sparse : is_sparse s ≡ true = ground (arith, sparse.no_containers) in
            rw yes_sparse
              (ap (λ vs. get_elem? vs 0) (sym (elements-sparse s sparse.no_containers)), last)
        | inr (some_there, directory) ↦
            let listed : is_sparse s ≡ false = ground arith in
            rw listed (
              first_of_directory s.containers (omega (arith, directory.numbered)) directory.all
                  ∙ ap (λ vs. get_elem? vs 0) (sym (elements-directory s some_there)),
              last,
            )
      ])
]
