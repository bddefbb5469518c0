-- ===== src/Roaring/Search.antt =====
-- The binary searches of src/roaring_intern.h. Each reads a sorted array through its own test of the
-- entry in the middle; the loop is the same in
-- all of them. The sum of the bounds does not wrap, since an array has 65536 entries at most.
use arnm.Base.{
  ℕ, zero, suc, ◌+◌, ◌-◌, ◌/◌, List, none, some, Bool, false, ltb, leb, ◌==◌, ◌||◌, if◌then◌else◌,
  get_elem?,
}
use arnm.Roaring.{Container, RoaringBitmap}

-- The loop: `goes_up middle` is the test that moves `low` past the middle. `rounds` of it at most.
unfoldable pub search : (ℕ → Bool) → ℕ → ℕ → ℕ → ℕ
search goes_up zero low high = low
search goes_up (suc rounds) low high =
    let middle = (low + high) / 2 in
    let up = goes_up middle in
    let rest =
      search goes_up rounds (if up then middle + 1 else low) (if up then high else middle) in
    if ltb low high then rest else low

-- `array[i] < value` and `array[i] <= value`
unfoldable pub entry_below : List ℕ → ℕ → ℕ → Bool
entry_below entries value i = elim (get_elem? entries i) [ none ↦ false | some x ↦ ltb x value ]

unfoldable pub entry_upto : List ℕ → ℕ → ℕ → Bool
entry_upto entries value i = elim (get_elem? entries i) [ none ↦ false | some x ↦ leb x value ]

-- arnm_roaring_lower_bound16
unfoldable pub lower_bound : List ℕ → ℕ → ℕ → ℕ
lower_bound entries count value = elim (get_elem? entries 0) [
  | none ↦ 0
  | some first ↦
      if count == 0 || leb value first then 0 else search (entry_below entries value) count 0 count
]

-- arnm_roaring_upper_bound16
unfoldable pub upper_bound : List ℕ → ℕ → ℕ → ℕ
upper_bound entries count value = elim (get_elem? entries (count - 1)) [
  | none ↦ count
  | some last ↦
      if count == 0 || leb last value
      then count
      else search (entry_upto entries value) count 0 count
]

-- arnm_roaring_lower_bound32 and upper_bound32, which are the same on wider entries
abbrev pub lower_bound32 : List ℕ → ℕ → ℕ → ℕ
lower_bound32 entries count value = lower_bound entries count value

abbrev pub upper_bound32 : List ℕ → ℕ → ℕ → ℕ
upper_bound32 entries count value = upper_bound entries count value

-- `containers[i].key < key` and `containers[i].key <= key`
unfoldable pub key_below : List Container → ℕ → ℕ → Bool
key_below containers key i = elim (get_elem? containers i) [ none ↦ false | some c ↦ ltb c.key key ]

-- arnm_roaring_first_container
unfoldable pub first_container : RoaringBitmap → ℕ → ℕ
first_container set key = elim (get_elem? set.containers 0) [
  | none ↦ 0
  | some first ↦
      if set.count == 0 || leb key first.key
      then 0
      else search (key_below set.containers key) set.count 0 set.count
]

unfoldable pub key_upto : List Container → ℕ → ℕ → Bool
key_upto containers key i = elim (get_elem? containers i) [ none ↦ false | some c ↦ leb c.key key ]

-- arnm_roaring_container_after
unfoldable pub container_after : RoaringBitmap → ℕ → ℕ
container_after set key = elim (get_elem? set.containers (set.count - 1)) [
  | none ↦ set.count
  | some last ↦
      if set.count == 0 || leb last.key key
      then set.count
      else search (key_upto set.containers key) set.count 0 set.count
]
