-- ===== src/Memory/Stacked.antt =====
-- The blocks that a client holds in one arena, as a stack of disjoint runs below an address.
use arnm.Base.{
  ℕ, zero, suc, ◌+◌, ◌≤◌, ◌<◌, ◌≡◌, ◌≢◌, ◌⊎◌, inl, inr, refl, ap, List, [], ◌∷◌, some, arith,
  get_elem?, set,
}
use arnm.Memory.Machine.{align8_u32, max_alloc_size}
use arnm.Memory.Bounds.{align8_u32-pos}
use arnm.Memory.Session.{Block, remove}

-- What the arena reserved for a block: its size rounded up to 8.
abbrev pub end_of : Block → ℕ
end_of x = x.addr + align8_u32 x.size

-- A size that arnm_alloc accepts.
abbrev pub Fits : Block → Type 0
Fits x = (0 < x.size) × (x.size ≤ max_alloc_size)

module _ (base : ℕ) where
  -- From the top down each block ends where the one before begins, or below it.
  abbrev pub Stacked : ℕ → List Block → Type 0
  Stacked top [] = base ≤ top
  Stacked top (x ∷ xs) = Fits x × (end_of x ≤ top) × Stacked x.addr xs

  pub Stacked-mono :
      (top top' : ℕ) (xs : List Block) → top ≤ top' → Stacked top xs → Stacked top' xs
  Stacked-mono top top' [] h s = omega arith
  Stacked-mono top top' (x ∷ xs) h (fits, below, rest) = (fits, omega arith, rest)

  pub Stacked-le : (top : ℕ) (xs : List Block) → Stacked top xs → base ≤ top
  Stacked-le top [] s = s
  Stacked-le top (x ∷ xs) (fits, below, rest) = omega (arith, Stacked-le x.addr xs rest)

  pub Stacked-remove :
      (top : ℕ) (xs : List Block) (i : ℕ) → Stacked top xs → Stacked top (remove xs i)
  Stacked-remove top [] i s = s
  Stacked-remove top (x ∷ xs) zero (fits, below, rest) =
      Stacked-mono x.addr top xs (omega arith) rest
  Stacked-remove top (x ∷ xs) (suc i) (fits, below, rest) =
      (fits, below, Stacked-remove x.addr xs i rest)

  -- A held block lies between the base and the top.
  pub Stacked-get :
      (top : ℕ) (xs : List Block) (i : ℕ) {x : Block}
      → Stacked top xs
      → get_elem? xs i ≡ some x
      → Fits x × (base ≤ x.addr) × (end_of x ≤ top)
  Stacked-get top [] i s e = ground arith
  Stacked-get top (y ∷ ys) zero (fits, below, rest) e = ground (arith, Stacked-le y.addr ys rest)
  Stacked-get top (y ∷ ys) (suc i) (fits, below, rest) e =
      let (f, above, under) = Stacked-get y.addr ys i rest e in (f, above, omega arith)

  -- A block under the first one ends below the top.
  pub Stacked-buried :
      (top : ℕ) (y : Block) (ys : List Block) (i : ℕ) {x : Block}
      → Stacked top (y ∷ ys)
      → get_elem? ys i ≡ some x
      → end_of x < top
  Stacked-buried top y ys i (fits, below, rest) e =
      let (f, above, under) = Stacked-get y.addr ys i rest e in
      omega (arith, align8_u32-pos y.size fits.0 fits.1)

  pub Stacked-set :
      (top : ℕ) (xs : List Block) (i : ℕ) {x : Block} (x' : Block)
      → Stacked top xs
      → get_elem? xs i ≡ some x
      → x'.addr ≡ x.addr
      → Fits x'
      → align8_u32 x'.size ≤ align8_u32 x.size
      → Stacked top (set xs i x')
  Stacked-set top [] i x' s e same f le = s
  Stacked-set top (y ∷ ys) zero {x} x' (fits, below, rest) e same f le =
      let there : y ≡ x = cc in
      let low : y.addr ≤ x'.addr = omega (arith, ap (λ (b : Block). b.addr) there) in
      (
        f,
        omega
            (arith, ap (λ (b : Block). b.addr) there, ap (λ (b : Block). align8_u32 b.size) there),
        Stacked-mono y.addr x'.addr ys low rest,
      )
  Stacked-set top (y ∷ ys) (suc i) x' (fits, below, rest) e same f le =
      (fits, below, Stacked-set y.addr ys i x' rest e same f le)

  -- Two held blocks, as the arena reserved them, share no byte.
  pub Stacked-disjoint :
      (top : ℕ) (xs : List Block) (i j : ℕ) {x y : Block}
      → Stacked top xs
      → get_elem? xs i ≡ some x
      → get_elem? xs j ≡ some y
      → i ≢ j
      → (end_of x ≤ y.addr) ⊎ (end_of y ≤ x.addr)
  Stacked-disjoint top [] i j s e f ne = ground arith
  Stacked-disjoint top (z ∷ zs) zero zero s e f ne = absurd (ne refl)
  Stacked-disjoint top (z ∷ zs) zero (suc j) s e f ne =
      inr (ground (arith, Stacked-get z.addr zs j s.2 f))
  Stacked-disjoint top (z ∷ zs) (suc i) zero s e f ne =
      inl (ground (arith, Stacked-get z.addr zs i s.2 e))
  Stacked-disjoint top (z ∷ zs) (suc i) (suc j) s e f ne =
      Stacked-disjoint z.addr zs i j s.2 e f (omega arith)

  -- The block that ends at the top is the first, and the others end where it begins.
  pub Stacked-remove_top :
      (top : ℕ) (xs : List Block) (i : ℕ) {x : Block}
      → Stacked top xs
      → get_elem? xs i ≡ some x
      → end_of x ≡ top
      → Stacked x.addr (remove xs i)
  Stacked-remove_top top [] i s e t = absurd (ground arith)
  Stacked-remove_top top (y ∷ ys) zero {x} (fits, below, rest) e t =
      let there : y ≡ x = cc in rw there at rest
  Stacked-remove_top top (y ∷ ys) (suc i) s e t =
      absurd (omega (arith, Stacked-buried top y ys i s e))

  pub Stacked-set_top :
      (top : ℕ) (xs : List Block) (i : ℕ) {x : Block} (x' : Block)
      → Stacked top xs
      → get_elem? xs i ≡ some x
      → end_of x ≡ top
      → x'.addr ≡ x.addr
      → Fits x'
      → Stacked (end_of x') (set xs i x')
  Stacked-set_top top [] i x' s e t same f = absurd (ground arith)
  Stacked-set_top top (y ∷ ys) zero {x} x' (fits, below, rest) e t same f =
      let there : y ≡ x = cc in
      (
        f,
        omega arith,
        Stacked-mono y.addr x'.addr ys (omega (arith, ap (λ (b : Block). b.addr) there)) rest,
      )
  Stacked-set_top top (y ∷ ys) (suc i) x' s e t same f =
      absurd (omega (arith, Stacked-buried top y ys i s e))
