-- ===== src/Roaring/Ascending.antt =====
-- Strictly ascending lists between two bounds, which is what the values of a set are.
use arnm.Base.{
  ℕ, zero, suc, ◌+◌, ◌-◌, ◌≤◌, ◌<◌, ◌≡◌, List, [], ◌∷◌, ◌++◌, some, arith, map, length, get_elem?,
}
use native.Mathlib.Numerals.{unary_clauses}
use arnm.Roaring.{value_of}

-- at least `lo`, each above the one before, and below `hi`
abbrev pub IsAscending : ℕ → List ℕ → ℕ → Type 0
IsAscending lo [] hi = lo ≤ hi
IsAscending lo (x ∷ xs) hi = (lo ≤ x) × IsAscending (suc x) xs hi

pub IsAscending-le : (lo : ℕ) (xs : List ℕ) (hi : ℕ) → IsAscending lo xs hi → lo ≤ hi
IsAscending-le lo [] hi h = h
IsAscending-le lo (x ∷ xs) hi (le, h) = omega (arith, IsAscending-le (suc x) xs hi h)

pub IsAscending-widen :
    (lo : ℕ) (xs : List ℕ) (hi top : ℕ) → IsAscending lo xs hi → hi ≤ top → IsAscending lo xs top
IsAscending-widen lo [] hi top h le = omega arith
IsAscending-widen lo (x ∷ xs) hi top (at_least, h) le =
    (at_least, IsAscending-widen (suc x) xs hi top h le)

pub IsAscending-lower :
    (lo least : ℕ) (xs : List ℕ) (hi : ℕ)
    → IsAscending lo xs hi
    → least ≤ lo
    → IsAscending least xs hi
IsAscending-lower lo least [] hi h le = omega arith
IsAscending-lower lo least (x ∷ xs) hi (at_least, h) le = (omega arith, h)

pub IsAscending-append :
    (lo : ℕ) (xs : List ℕ) (middle : ℕ) (ys : List ℕ) (hi : ℕ)
    → IsAscending lo xs middle
    → IsAscending middle ys hi
    → IsAscending lo (xs ++ ys) hi
IsAscending-append lo [] middle ys hi h k = IsAscending-lower middle lo ys hi k h
IsAscending-append lo (x ∷ xs) middle ys hi (at_least, h) k =
    (at_least, IsAscending-append (suc x) xs middle ys hi h k)

-- A value that is not below the bound goes behind the others.
pub IsAscending-snoc :
    (lo : ℕ) (xs : List ℕ) (hi x : ℕ)
    → IsAscending lo xs hi
    → hi ≤ x
    → IsAscending lo (xs ++ x ∷ []) (suc x)
IsAscending-snoc lo xs hi x h le = IsAscending-append lo xs hi (x ∷ []) (suc x) h (le, omega arith)

pub IsAscending-split :
    (lo : ℕ) (xs ys : List ℕ) (hi : ℕ)
    → IsAscending lo (xs ++ ys) hi
    → (middle : ℕ) × IsAscending lo xs middle × IsAscending middle ys hi
IsAscending-split lo [] ys hi h = (lo, omega arith, h)
IsAscending-split lo (x ∷ xs) ys hi (at_least, h) =
    let (middle, front, back) = IsAscending-split (suc x) xs ys hi h in
    (middle, (at_least, front), back)

-- The last of the values is the bound below them.
pub IsAscending-last :
    (lo : ℕ) (xs : List ℕ) (x hi : ℕ)
    → IsAscending lo (xs ++ x ∷ []) hi
    → IsAscending lo xs x × (x < hi)
IsAscending-last lo [] x hi (le, h) = (le, h)
IsAscending-last lo (y ∷ ys) x hi (at_least, h) =
    let (front, less) = IsAscending-last (suc y) ys x hi h in ((at_least, front), less)

pub length-IsAscending :
    (lo : ℕ) (xs : List ℕ) (hi : ℕ) → IsAscending lo xs hi → lo + length xs ≤ hi
length-IsAscending lo [] hi h = omega arith
length-IsAscending lo (x ∷ xs) hi (le, h) = omega (arith, length-IsAscending (suc x) xs hi h)

-- The low parts of one key ascend as their values do.
pub IsAscending-map_value_of :
    (key lo : ℕ) (lows : List ℕ) (hi : ℕ)
    → IsAscending lo lows hi
    → IsAscending (value_of key lo) (map (value_of key) lows) (value_of key hi)
IsAscending-map_value_of key lo [] hi h = omega arith
IsAscending-map_value_of key lo (x ∷ xs) hi (le, h) =
    (omega arith, simp unary_clauses at (IsAscending-map_value_of key (suc x) xs hi h))

pub IsAscending-of_values :
    (key lo : ℕ) (lows : List ℕ) (hi bound : ℕ)
    → IsAscending lo lows bound
    → (least : ℕ) → IsAscending least (map (value_of key) lows) (value_of key hi)
    → lo ≤ hi
    → IsAscending lo lows hi
IsAscending-of_values key lo [] hi bound h least k le = le
IsAscending-of_values key lo (x ∷ xs) hi bound (at_least, h) least (at, k) le =
    let below = IsAscending-le _ (map (value_of key) xs) _ k in
    (
      at_least,
      IsAscending-of_values key (suc x) xs hi bound h (suc (value_of key x)) k (omega arith),
    )

-- The entry at the last place bounds the others.
pub IsAscending-top :
    (lo : ℕ) (xs : List ℕ) (hi : ℕ)
    → IsAscending lo xs hi
    → (last : ℕ) → get_elem? xs (length xs - 1) ≡ some last
    → IsAscending lo xs (suc last)
IsAscending-top lo [] hi h last there = absurd (ground arith)
IsAscending-top lo (x ∷ []) hi (at_least, h) last there =
    let same : x ≡ last = ground arith in (at_least, omega arith)
IsAscending-top lo (x ∷ y ∷ ys) hi (at_least, h) last there =
    let next : suc (suc (length ys)) - 1 ≡ suc (suc (length ys) - 1) = omega arith in
    let below = rw next at there in (at_least, IsAscending-top (suc x) (y ∷ ys) hi h last below)

-- Every entry is below the bound.
pub IsAscending-entry :
    (lo : ℕ) (xs : List ℕ) (hi i x : ℕ) → IsAscending lo xs hi → get_elem? xs i ≡ some x → x < hi
IsAscending-entry lo [] hi i x h there = absurd (ground arith)
IsAscending-entry lo (y ∷ ys) hi zero x (at_least, h) there =
    let below = IsAscending-le (suc y) ys hi h in let same : y ≡ x = ground arith in omega arith
IsAscending-entry lo (y ∷ ys) hi (suc i) x (at_least, h) there =
    IsAscending-entry (suc y) ys hi i x h there
