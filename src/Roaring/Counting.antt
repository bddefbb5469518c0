-- ===== src/Roaring/Counting.antt =====
-- What the binary searches find in an ascending array: how many of its entries are below a value.
use arnm.Base.{
  ℕ, zero, suc, ◌+◌, ◌-◌, ◌/◌, ◌≤◌, ◌<◌, ◌≡◌, refl, ap, sym, ◌∙◌, List, [], ◌∷◌, none, some, Bool,
  true, false, inl, inr, arith, length, get_elem?, ltb, leb, ◌==◌, if◌then◌else◌, ltb-cases,
  Bool-cases, Option-cases, lt→ltb,
}
use arnm.FixedRing.Window.{get_elem?-some}
use arnm.Roaring.Ascending.{IsAscending, IsAscending-le, IsAscending-top}
use arnm.Roaring.Search.{search, entry_below, entry_upto, lower_bound, upper_bound}

-- how many entries are below `value`
unfoldable pub count_below : ℕ → List ℕ → ℕ
count_below value [] = 0
count_below value (x ∷ xs) =
    let rest = count_below value xs in if ltb x value then suc rest else rest

pub count_below-le-length : (value : ℕ) (xs : List ℕ) → count_below value xs ≤ length xs
unfolding count_below
count_below-le-length value [] = omega arith
count_below-le-length value (x ∷ xs) = ground (arith, count_below-le-length value xs)

-- From a value on, nothing is below it.
pub count_below-above :
    (value lo : ℕ) (xs : List ℕ) (hi : ℕ)
    → IsAscending lo xs hi
    → value ≤ lo
    → count_below value xs ≡ 0
unfolding count_below
count_below-above value lo [] hi h le = refl
count_below-above value lo (x ∷ xs) hi (at_least, h) le =
    ground (arith, count_below-above value (suc x) xs hi h (omega arith))

pub count_below-all :
    (value lo : ℕ) (xs : List ℕ) (hi : ℕ)
    → IsAscending lo xs hi
    → hi ≤ value
    → count_below value xs ≡ length xs
unfolding count_below
count_below-all value lo [] hi h le = refl
count_below-all value lo (x ∷ xs) hi (at_least, h) le =
    let rest = count_below-all value (suc x) xs hi h le in
    let below = IsAscending-le (suc x) xs hi h in ground arith

-- The loop stops at `c` when the test of each entry before `c` moves it up and no other one does.
pub search-eq :
    (goes_up : ℕ → Bool) (c bound : ℕ)
    → ((i : ℕ) → i < bound → goes_up i ≡ ltb i c)
    → (rounds low high : ℕ) → low ≤ c
    → c ≤ high
    → high ≤ bound
    → high ≤ rounds + low
    → search goes_up rounds low high ≡ c
unfolding search
search-eq goes_up c bound test zero low high at_least at_most inside enough = omega arith
search-eq goes_up c bound test (suc rounds) low high at_least at_most inside enough =
    elim (ltb-cases low high) [
      | inr past ↦ let closed : ltb low high ≡ false = ground arith in rw closed (omega arith)
      | inl less ↦
          let here = test ((low + high) / 2) (omega arith) in
          rw (lt→ltb low high less) (elim (ltb-cases ((low + high) / 2) c) [
            | inl up ↦
                let goes : goes_up ((low + high) / 2) ≡ true = here ∙ lt→ltb _ _ up in
                rw goes (
                  search-eq goes_up c bound test rounds _ high (omega arith) at_most inside
                    (omega arith))
            | inr down ↦
                let stays : goes_up ((low + high) / 2) ≡ false = ground arith in
                rw stays (
                  search-eq goes_up c bound test rounds low _ at_least down (omega arith)
                    (omega arith))
          ])
    ]

pub entry_below-eq :
    (value lo : ℕ) (xs : List ℕ) (hi i : ℕ)
    → IsAscending lo xs hi
    → i < length xs
    → entry_below xs value i ≡ ltb i (count_below value xs)
unfolding entry_below count_below
entry_below-eq value lo [] hi i h less = absurd (omega arith)
entry_below-eq value lo (x ∷ xs) hi zero (at_least, h) less =
    let none_past = count_below-above value (suc x) xs hi h in ground arith
entry_below-eq value lo (x ∷ xs) hi (suc i) (at_least, h) less =
    let rest = entry_below-eq value (suc x) xs hi i h (omega arith) in
    let none_past = count_below-above value (suc x) xs hi h in
    elim (ltb-cases x value) [
      | inl below ↦ ground arith
      | inr above ↦
          let zero_past = none_past (omega arith) in
          let not_below : ltb x value ≡ false = ground arith in
          rw (not_below, zero_past) (rest ∙ ap (ltb i) zero_past ∙ ground arith)
    ]

pub entry_upto-eq :
    (entries : List ℕ) (value i : ℕ)
    → entry_upto entries value i ≡ entry_below entries (suc value) i
unfolding entry_upto entry_below
entry_upto-eq entries value i = ground arith

-- arnm_roaring_lower_bound16 and lower_bound32 return the number of entries below the value, in
-- an ascending array.
pub lower_bound-eq-count_below :
    (value lo : ℕ) (xs : List ℕ) (hi : ℕ)
    → IsAscending lo xs hi
    → lower_bound xs (length xs) value ≡ count_below value xs
unfolding lower_bound count_below
lower_bound-eq-count_below value lo [] hi h = refl
lower_bound-eq-count_below value lo (x ∷ xs) hi (at_least, h) = elim (ltb-cases x value) [
  | inl below ↦
      let goes_on : leb value x ≡ false = ground arith in
      let nonempty : (length (x ∷ xs) == 0) ≡ false = ground arith in
      rw (goes_on, nonempty)
        (search-eq (entry_below (x ∷ xs) value) (count_below value (x ∷ xs)) (length (x ∷ xs))
          (λ i less. entry_below-eq value lo (x ∷ xs) hi i (at_least, h) less) (length (x ∷ xs)) 0
          (length (x ∷ xs)) (omega arith) (count_below-le-length value (x ∷ xs)) (omega arith)
          (omega arith))
  | inr above ↦
      let stops : leb value x ≡ true = ground arith in
      let nonempty : (length (x ∷ xs) == 0) ≡ false = ground arith in
      rw (stops, nonempty) (sym (count_below-above value x (x ∷ xs) hi (omega arith, h) above))
]

pub no_last :
    (xs : List ℕ)
    → get_elem? xs (length xs - 1) ≡ none
    → (value : ℕ) → length xs ≡ count_below (suc value) xs
unfolding count_below
no_last [] missing value = refl
no_last (x ∷ xs) missing value =
    let (last, there) = get_elem?-some (x ∷ xs) (length (x ∷ xs) - 1) (omega arith) in
    absurd (ground arith)

pub has_last :
    (xs : List ℕ) (last : ℕ) → get_elem? xs (length xs - 1) ≡ some last → (length xs == 0) ≡ false
has_last [] last there = absurd (ground arith)
has_last (x ∷ xs) last there = ground arith

-- arnm_roaring_upper_bound16 and upper_bound32 return the number of entries that are not above the
-- value, in an ascending array.
pub upper_bound-eq-count_below :
    (value lo : ℕ) (xs : List ℕ) (hi : ℕ)
    → IsAscending lo xs hi
    → upper_bound xs (length xs) value ≡ count_below (suc value) xs
unfolding upper_bound
upper_bound-eq-count_below value lo xs hi h = elim (Option-cases (get_elem? xs (length xs - 1))) [
  | inl missing ↦ rw (missing, upper_bound) (no_last xs missing value)
  | inr (last, there) ↦
      let nonempty : (length xs == 0) ≡ false = has_last xs last there in
      let top = IsAscending-top lo xs hi h last there in
      rw (there, nonempty, upper_bound)
        (elim (Bool-cases (leb last value)) [
          | inl all_in ↦
              rw all_in (sym (count_below-all (suc value) lo xs (suc last) top (ground arith)))
          | inr more ↦ rw more (
              search-eq (entry_upto xs value) (count_below (suc value) xs) (length xs)
                (λ i less. entry_upto-eq xs value i ∙ entry_below-eq (suc value) lo xs hi i h less)
                (length xs) 0 (length xs) (omega arith) (count_below-le-length (suc value) xs)
                (omega arith) (omega arith))
        ])
]
