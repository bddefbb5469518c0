-- ===== src/Roaring/Reads.antt =====
-- src/roaring_bitmap.c: how one set is read. `none` stands for an answer that is not given. The NULL
-- checks are left out: the set is there.
use arnm.Base.{
  ℕ, zero, suc, ◌+◌, ◌*◌, List, [], ◌∷◌, Option, none, some, Bool, false, ltb, ◌==◌, if◌then◌else◌,
  get_elem?, get_or,
}
use arnm.Roaring.{array, bitmap, Container, RoaringBitmap, is_sparse, key_of, low_of, value_of}
use arnm.Roaring.Search.{lower_bound, lower_bound32, first_container}
use arnm.Roaring.Containers.{test_bit, has_bit}

-- `values[position] == value` at a position in bounds
unfoldable pub holds_at : List ℕ → ℕ → ℕ → ℕ → Bool
holds_at entries count position value =
    if ltb position count
    then elim (get_elem? entries position) [ none ↦ false | some x ↦ x == value ]
    else false

-- the last part of arnm_roaring_contains, in the container of the key
unfoldable pub container_contains : Container → ℕ → Bool
container_contains c low = elim c.contents [
  | bitmap words ↦ has_bit words low
  | array lows ↦ holds_at lows c.cardinality (lower_bound lows c.cardinality low) low
]

-- arnm_roaring_contains
unfoldable pub contains : RoaringBitmap → ℕ → Bool
contains s value =
    if is_sparse s
    then holds_at s.values s.cardinality (lower_bound32 s.values s.cardinality value) value
    else let index = first_container s (key_of value) in
      if index == s.count then false else elim (get_elem? s.containers index) [
        | none ↦ false
        | some c ↦ if c.key == key_of value then container_contains c (low_of value) else false
      ]

-- arnm_roaring_maximum
unfoldable pub maximum_of : RoaringBitmap → Option ℕ
maximum_of s = if s.cardinality == 0 then none else some s.maximum

-- arnm_ctzll: the lowest of the bits from `bit` on that is set, `rounds` of them at most
unfoldable pub lowest_bit : ℕ → ℕ → ℕ → ℕ
lowest_bit zero word bit = bit
lowest_bit (suc rounds) word bit =
    let rest = lowest_bit rounds word (bit + 1) in if test_bit word bit then bit else rest

-- `while (!words[w]) { ++w; }`
unfoldable pub first_word : List ℕ → ℕ → ℕ
first_word [] w = w
first_word (word ∷ words) w = let rest = first_word words (w + 1) in if word == 0 then rest else w

-- arnm_roaring_minimum
unfoldable pub minimum_of : RoaringBitmap → Option ℕ
minimum_of s =
    if s.cardinality == 0
    then none
    else if is_sparse s
    then get_elem? s.values 0
    else elim (get_elem? s.containers 0) [
      | none ↦ none
      | some first ↦ elim first.contents [
        | array lows ↦ some (value_of first.key (get_or lows 0 0))
        | bitmap words ↦
            let w = first_word words 0 in
            some (value_of first.key (w * 64 + lowest_bit 64 (get_or words w 0) 0))
      ]
    ]
