-- ===== src/Roaring/Keys.antt =====
-- What the binary searches over the keys of a directory find.
use arnm.Base.{
  ℕ, zero, suc, ◌-◌, ◌≤◌, ◌≡◌, ◌⊎◌, refl, ap, sym, ◌∙◌, List, [], ◌∷◌, none, some, true, false, inl,
  inr, arith, length, get_elem?, leb, ◌==◌, Bool-cases, Option-cases,
}
use arnm.Roaring.{Container, RoaringBitmap}
use arnm.Roaring.Ascending.{IsAscending, IsAscending-top}
use arnm.Roaring.Search.{
  entry_below, entry_upto, key_below, key_upto, container_after, first_container,
}
use arnm.Roaring.Counting.{
  count_below, count_below-le-length, count_below-above, count_below-all, search-eq, entry_below-eq,
  entry_upto-eq, no_last, has_last,
}

-- the keys of the containers, in order
unfoldable pub keys_of : List Container → List ℕ
keys_of [] = []
keys_of (c ∷ cs) = c.key ∷ keys_of cs

key_below-eq :
    (cs : List Container) (key i : ℕ) → key_below cs key i ≡ entry_below (keys_of cs) key i
unfolding key_below entry_below keys_of
key_below-eq [] key i = refl
key_below-eq (c ∷ cs) key zero = refl
key_below-eq (c ∷ cs) key (suc i) = key_below-eq cs key i

pub length-keys_of : (cs : List Container) → length (keys_of cs) ≡ length cs
unfolding keys_of
length-keys_of [] = refl
length-keys_of (c ∷ cs) = ap suc (length-keys_of cs)

no_first :
    (cs : List Container) (key : ℕ) → get_elem? cs 0 ≡ none → 0 ≡ count_below key (keys_of cs)
unfolding count_below keys_of
no_first [] key missing = refl
no_first (c ∷ cs) key missing = absurd (ground arith)

has_first :
    (cs : List Container) (c : Container) → get_elem? cs 0 ≡ some c → (length cs == 0) ≡ false
has_first [] c there = absurd (ground arith)
has_first (d ∷ cs) c there = ground arith

first_above :
    (cs : List Container) (key lo hi : ℕ)
    → IsAscending lo (keys_of cs) hi
    → (c : Container) → get_elem? cs 0 ≡ some c
    → leb key c.key ≡ true
    → count_below key (keys_of cs) ≡ 0
unfolding keys_of
first_above [] key lo hi h c there le = absurd (ground arith)
first_above (d ∷ cs) key lo hi (at_least, h) c there le =
    let same : d ≡ c = ground arith in
    let at_most : key ≤ d.key = rw same (ground arith) in
    count_below-above key d.key (d.key ∷ keys_of cs) hi (omega arith, h) at_most

-- arnm_roaring_first_container returns the number of containers whose keys are below the key.
pub first_container-eq-count_below :
    (s : RoaringBitmap) (key lo hi : ℕ)
    → IsAscending lo (keys_of s.containers) hi
    → s.count ≡ length s.containers
    → first_container s key ≡ count_below key (keys_of s.containers)
unfolding first_container keys_of
first_container-eq-count_below s key lo hi h counted =
    elim (Option-cases (get_elem? s.containers 0)) [
      | inl missing ↦ rw (missing, first_container) (no_first s.containers key missing)
      | inr (c, there) ↦
          let nonempty : (s.count == 0) ≡ false = rw counted (has_first s.containers c there) in
          rw (there, nonempty, first_container)
            (elim (Bool-cases (leb key c.key)) [
              | inl stops ↦ rw stops (sym (first_above s.containers key lo hi h c there stops))
              | inr goes ↦
                  rw (goes, counted)
                    (search-eq (key_below s.containers key) (count_below key (keys_of s.containers))
                      (length s.containers)
                      (λ i less.
                        key_below-eq s.containers key i
                        ∙ entry_below-eq key lo (keys_of s.containers) hi i h
                            (rw (length-keys_of s.containers) less))
                      (length s.containers) 0 (length s.containers) (omega arith)
                      (rw (length-keys_of s.containers) at
                        (count_below-le-length key (keys_of s.containers)))
                      (omega arith) (omega arith))
            ])
    ]

key_upto-eq : (cs : List Container) (key i : ℕ) → key_upto cs key i ≡ entry_upto (keys_of cs) key i
unfolding key_upto entry_upto keys_of
key_upto-eq [] key i = refl
key_upto-eq (c ∷ cs) key zero = refl
key_upto-eq (c ∷ cs) key (suc i) = key_upto-eq cs key i

get_elem?-keys_of :
    (cs : List Container) (i : ℕ)
    → ((get_elem? cs i ≡ none) × (get_elem? (keys_of cs) i ≡ none))
      ⊎ ((c : Container) × (get_elem? cs i ≡ some c) × (get_elem? (keys_of cs) i ≡ some c.key))
unfolding keys_of
get_elem?-keys_of [] i = inl (refl, refl)
get_elem?-keys_of (c ∷ cs) zero = inr (c, refl, refl)
get_elem?-keys_of (c ∷ cs) (suc i) = get_elem?-keys_of cs i

-- arnm_roaring_container_after returns the number of containers whose keys are not above the key.
pub container_after-eq-count_below :
    (s : RoaringBitmap) (key lo hi : ℕ)
    → IsAscending lo (keys_of s.containers) hi
    → s.count ≡ length s.containers
    → container_after s key ≡ count_below (suc key) (keys_of s.containers)
unfolding container_after
container_after-eq-count_below s key lo hi h counted =
    let keys = keys_of s.containers in
    let all : s.count ≡ length keys = counted ∙ sym (length-keys_of s.containers) in
    elim (get_elem?-keys_of s.containers (s.count - 1)) [
      | inl (missing, no_key) ↦
          rw (missing, container_after) (all ∙ no_last keys (rw all at no_key) key)
      | inr (last, there, its_key) ↦
          let at_end = rw all at its_key in
          let nonempty : (s.count == 0) ≡ false = rw all (has_last keys last.key at_end) in
          let top = IsAscending-top lo keys hi h last.key at_end in
          rw (there, nonempty, container_after)
            (elim (Bool-cases (leb last.key key)) [
              | inl all_in ↦
                  rw all_in (
                    all ∙ sym (count_below-all (suc key) lo keys (suc last.key) top (ground arith)))
              | inr more ↦ rw more (
                  search-eq (key_upto s.containers key) (count_below (suc key) keys) s.count
                    (λ i less.
                      key_upto-eq s.containers key i
                      ∙ entry_upto-eq keys key i
                      ∙ entry_below-eq (suc key) lo keys hi i h (rw all at less))
                    s.count 0 s.count (omega arith) (rw all (count_below-le-length (suc key) keys))
                    (omega arith) (omega arith))
            ])
    ]
