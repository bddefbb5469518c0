-- ===== src/Converter/Buffers.antt =====
-- Runs of a buffer: how take, drop and set meet an append.
use arnm.Base.{
  ℕ, zero, suc, ◌<◌, ◌≡◌, refl, ap, sym, ◌∙◌, List, [], ◌∷◌, ◌++◌, arith, length, set, take, drop,
}

pub take-append {ℓ} : {A : Type ℓ} (xs ys : List A) → take (length xs) (xs ++ ys) ≡ xs
take-append [] ys = refl
take-append (x ∷ xs) ys = ap (λ zs. x ∷ zs) (take-append xs ys)

pub set-append {ℓ} :
    {A : Type ℓ} (xs : List A) (y v : A) (ys : List A)
    → set (xs ++ y ∷ ys) (length xs) v ≡ xs ++ v ∷ ys
set-append [] y v ys = refl
set-append (x ∷ xs) y v ys = ap (λ zs. x ∷ zs) (set-append xs y v ys)

pub drop-lt {ℓ} :
    {A : Type ℓ} (xs : List A) (n : ℕ) → n < length xs → (x : A) × (drop n xs ≡ x ∷ drop (suc n) xs)
drop-lt [] n h = absurd (omega arith)
drop-lt (x ∷ xs) zero h = (x, refl)
drop-lt (x ∷ xs) (suc n) h = drop-lt xs n (omega arith)

pub take-length {ℓ} : {A : Type ℓ} (xs : List A) → take (length xs) xs ≡ xs
take-length [] = refl
take-length (x ∷ xs) = ap (λ zs. x ∷ zs) (take-length xs)

-- the same, where the length is known by an equation
pub take-append_at {ℓ} :
    {A : Type ℓ} (n : ℕ) (xs ys : List A) → length xs ≡ n → take n (xs ++ ys) ≡ xs
take-append_at n xs ys e = ap (λ k. take k (xs ++ ys)) (sym e) ∙ take-append xs ys

pub drop-append_at {ℓ} :
    {A : Type ℓ} (n : ℕ) (xs ys : List A) → length xs ≡ n → drop n (xs ++ ys) ≡ ys
drop-append_at n xs ys e = ap (λ k. drop k (xs ++ ys)) (sym e) ∙ go xs
  where
    go : (zs : List _) → drop (length zs) (zs ++ ys) ≡ ys
    go [] = refl
    go (z ∷ zs) = go zs

pub take-nil {ℓ} : {A : Type ℓ} (n : ℕ) → take {A = A} n [] ≡ []
take-nil zero = refl
take-nil (suc n) = refl
