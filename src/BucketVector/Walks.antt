-- ===== src/BucketVector/Walks.antt =====
-- What the first buckets of an index hold, and the places of their elements.
use arnm.Base.{
  ℕ, zero, suc, ◌+◌, ◌*◌, ◌≤◌, ◌<◌, ◌≡◌, refl, ap, ◌∙◌, none, some, List, [], ◌∷◌, ◌++◌, arith,
  length, get_elem?, set, take, length-append,
}
use native.Mathlib.Decide.{ℕ_discrete}
use arnm.BucketVector.{Slot}
use arnm.BucketVector.Contents.{cells_at, filled, IsFilled}

module _ {ℓ} {A : Type ℓ} where
  pub get_elem?-append_left :
      (xs ys : List A) (i : ℕ) → i < length xs → get_elem? (xs ++ ys) i ≡ get_elem? xs i
  get_elem?-append_left [] ys i lt = absurd (omega arith)
  get_elem?-append_left (x ∷ xs) ys zero lt = refl
  get_elem?-append_left (x ∷ xs) ys (suc i) lt = get_elem?-append_left xs ys i (omega arith)

  pub get_elem?-append_right :
      (xs ys : List A) (i : ℕ) → get_elem? (xs ++ ys) (length xs + i) ≡ get_elem? ys i
  get_elem?-append_right [] ys i = ap (get_elem? ys) (omega arith)
  get_elem?-append_right (x ∷ xs) ys i =
      let next : suc (length xs) + i ≡ suc (length xs + i) = omega arith in
      ap (get_elem? (x ∷ xs ++ ys)) next ∙ get_elem?-append_right xs ys i

  pub get_elem?-take :
      (n : ℕ) (xs : List A) (i : ℕ) → i < n → get_elem? (take n xs) i ≡ get_elem? xs i
  get_elem?-take zero xs i lt = absurd (omega arith)
  get_elem?-take (suc n) [] i lt = refl
  get_elem?-take (suc n) (x ∷ xs) zero lt = refl
  get_elem?-take (suc n) (x ∷ xs) (suc i) lt = get_elem?-take n xs i (omega arith)

  pub get_elem?-past : (xs : List A) (i : ℕ) → length xs ≤ i → get_elem? xs i ≡ none
  get_elem?-past [] i le = refl
  get_elem?-past (x ∷ xs) zero le = absurd (omega arith)
  get_elem?-past (x ∷ xs) (suc i) le = get_elem?-past xs i (omega arith)

  pub take-all : (n : ℕ) (xs : List A) → length xs ≤ n → take n xs ≡ xs
  take-all zero [] le = refl
  take-all zero (x ∷ xs) le = absurd (omega arith)
  take-all (suc n) [] le = refl
  take-all (suc n) (x ∷ xs) le = ap (λ zs. x ∷ zs) (take-all n xs (omega arith))

  -- A write just past a front part extends it.
  pub take-set :
      (n : ℕ) (xs : List A) (x : A)
      → n < length xs
      → take (suc n) (set xs n x) ≡ take n xs ++ x ∷ []
  take-set n [] x lt = absurd (omega arith)
  take-set zero (y ∷ ys) x lt = refl
  take-set (suc n) (y ∷ ys) x lt = ap (λ zs. y ∷ zs) (take-set n ys x (omega arith))

  -- A front part ends with its last element.
  pub take-suc :
      (n : ℕ) (xs : List A)
      → n < length xs
      → (x : A) × (take (suc n) xs ≡ take n xs ++ x ∷ []) × (get_elem? xs n ≡ some x)
  take-suc n [] lt = absurd (omega arith)
  take-suc zero (y ∷ ys) lt = (y, refl, refl)
  take-suc (suc n) (y ∷ ys) lt =
      let (x, e, there) = take-suc n ys (omega arith) in (x, ap (λ zs. y ∷ zs) e, there)

-- A place of an earlier bucket stands before every place of a later one.
pub place_below : (q k slots i : ℕ) → q < k → i < slots → q * slots + i < k * slots
place_below q zero slots i lt small = absurd (omega arith)
place_below q (suc k) slots i lt small = elim (ℕ_discrete q k) [
  | yes same ↦ rw same (omega arith)
  | no other ↦ omega (arith, place_below q k slots i (omega arith) small)
]

pub place_within : (q k slots i : ℕ) → q < k → i ≤ slots → q * slots + i ≤ k * slots
place_within q zero slots i lt small = absurd (omega arith)
place_within q (suc k) slots i lt small = elim (ℕ_discrete q k) [
  | yes same ↦ rw same (omega arith)
  | no other ↦ omega (arith, place_within q k slots i (omega arith) small)
]

module _ {A : Type 0} where
  pub filled_ext :
      (index index' : List (Slot A)) (k : ℕ)
      → ((j : ℕ) → j < k → cells_at index j ≡ cells_at index' j)
      → filled index k ≡ filled index' k
  filled_ext index index' zero same = refl
  filled_ext index index' (suc k) same =
      rw (filled_ext index index' k (λ j lt. same j (omega arith)), same k (omega arith)) refl

  module _ (index : List (Slot A)) (slots count : ℕ) (full : IsFilled index slots count) where
    pub length-filled : (k : ℕ) → k ≤ count → length (filled index k) ≡ k * slots
    length-filled zero le = omega arith
    length-filled (suc k) le =
        let here = full k (omega arith) in
        let below = length-filled k (omega arith) in
        rw (length-append (filled index k) (cells_at index k), here, below) (ground arith)

    -- Place `i` of bucket `q` is element number `q * slots + i`.
    pub get_elem?-filled :
        (k q i : ℕ)
        → k ≤ count
        → q < k
        → i < slots
        → get_elem? (filled index k) (q * slots + i) ≡ get_elem? (cells_at index q) i
    get_elem?-filled zero q i le lt small = absurd (omega arith)
    get_elem?-filled (suc k) q i le lt small = elim (ℕ_discrete q k) [
      | yes same ↦
          rw (same, ← length-filled k (omega arith))
            (get_elem?-append_right (filled index k) (cells_at index k) i)
      | no other ↦
          get_elem?-append_left (filled index k) (cells_at index k) (q * slots + i)
            (rw (length-filled k (omega arith)) (place_below q k slots i (omega arith) small))
          ∙ get_elem?-filled k q i (omega arith) (omega arith) small
    ]
