-- ===== src/FixedRing/Window.antt =====
-- The elements that a ring holds, front first, and how a write and a step move them.
use arnm.Base.{
  ℕ, zero, suc, ◌+◌, ◌-◌, ◌≤◌, ◌<◌, ◌≡◌, ◌≢◌, refl, ap, sym, ◌∙◌, List, [], ◌∷◌, ◌++◌, none, some,
  arith, length, get_elem?, set, take, drop, leb, ◌==◌, if◌then◌else◌, get_elem?-set_self,
  get_elem?-set_ne,
}

-- one step round
abbrev pub next : ℕ → ℕ → ℕ
next cap h = if suc h == cap then 0 else suc h

-- `head + index`, brought back over the end once
abbrev pub around : ℕ → ℕ → ℕ
around cap position = if leb cap position then position - cap else position

module _ {A : Type 0} where
  -- `n` elements from position `h` on, going round at `cap`; a place that is not there is left out
  abbrev pub window : List A → ℕ → ℕ → ℕ → List A
  window cells cap h zero = []
  window cells cap h (suc n) =
      let rest = window cells cap (if suc h == cap then 0 else suc h) n in
      elim (get_elem? cells h) [ none ↦ rest | some x ↦ x ∷ rest ]

  pub get_elem?-some : (xs : List A) (i : ℕ) → i < length xs → (x : A) × (get_elem? xs i ≡ some x)
  get_elem?-some [] i h = absurd (omega arith)
  get_elem?-some (x ∷ xs) zero h = (x, refl)
  get_elem?-some (x ∷ xs) (suc i) h = get_elem?-some xs i (omega arith)

  drop-get :
      (xs : List A) (i : ℕ) {x : A} → get_elem? xs i ≡ some x → drop i xs ≡ x ∷ drop (suc i) xs
  drop-get [] i e = absurd (ground arith)
  drop-get (y ∷ ys) zero {x} e = let same : y ≡ x = cc in ap (λ z. z ∷ ys) same
  drop-get (y ∷ ys) (suc i) e = drop-get ys i e

  pub window-suc :
      (cells : List A) (cap h n : ℕ) {x : A}
      → get_elem? cells h ≡ some x
      → window cells cap h (suc n) ≡ x ∷ window cells cap (next cap h) n
  window-suc cells cap h n e = rw (e, window)

  module _ (cells : List A) (cap : ℕ) (held : cap ≤ length cells) where
    pub length-window : (h n : ℕ) → h < cap → length (window cells cap h n) ≡ n
    length-window h zero lt = refl
    length-window h (suc n) lt =
        let (x, e) = get_elem?-some cells h (omega arith) in
        rw (window-suc cells cap h n e) (ap suc (length-window (next cap h) n (ground arith)))

    -- Writing just past a window extends it by that element.
    pub window-set :
        (x : A) (n h i : ℕ)
        → h < cap
        → n < cap
        → i ≡ around cap (h + n)
        → window (set cells i x) cap h (suc n) ≡ window cells cap h n ++ x ∷ []
    window-set x zero h i lt room at_i =
        let same : i ≡ h = ground arith in
        rw same (window-suc (set cells h x) cap h 0 (get_elem?-set_self cells h x (omega arith)))
    window-set x (suc n) h i lt room at_i =
        let (y, e) = get_elem?-some cells h (omega arith) in
        let other : i ≢ h = ground arith in
        let e' = get_elem?-set_ne cells x other ∙ e in
        rw (window-suc (set cells i x) cap h (suc n) e', window-suc cells cap h n e)
          (ap (λ zs. y ∷ zs)
            (window-set x n (next cap h) i (ground arith) (omega arith) (ground arith)))

    -- The element at a place of the window is the one at the slot.
    pub get_elem?-window :
        (n h k : ℕ)
        → h < cap
        → n ≤ cap
        → k < n
        → get_elem? (window cells cap h n) k ≡ get_elem? cells (around cap (h + k))
    get_elem?-window zero h k lt le kn = absurd (omega arith)
    get_elem?-window (suc n) h zero lt le kn =
        let (y, e) = get_elem?-some cells h (omega arith) in
        let here : around cap (h + 0) ≡ h = ground arith in
        rw (window-suc cells cap h n e, here) (sym e)
    get_elem?-window (suc n) h (suc k) lt le kn =
        let (y, e) = get_elem?-some cells h (omega arith) in
        let there : around cap (next cap h + k) ≡ around cap (h + suc k) = ground arith in
        rw (window-suc cells cap h n e, ← there)
          (get_elem?-window n (next cap h) k (ground arith) (omega arith) (omega arith))

    -- A window that reaches the end at most is one run of the block.
    pub window-run :
        (n h : ℕ) → h < cap → h + n ≤ cap → window cells cap h n ≡ take n (drop h cells)
    window-run zero h lt le = refl
    window-run (suc zero) h lt le =
        let (x, e) = get_elem?-some cells h (omega arith) in
        rw (window-suc cells cap h 0 e, drop-get cells h e)
    window-run (suc (suc n)) h lt le =
        let (x, e) = get_elem?-some cells h (omega arith) in
        let on : next cap h ≡ suc h = ground arith in
        rw (window-suc cells cap h (suc n) e, drop-get cells h e, on)
          (ap (λ zs. x ∷ zs) (window-run (suc n) (suc h) (omega arith) (omega arith)))

    -- A window that passes the end is two runs: to the end, and from the start.
    pub window-two_runs :
        (n k m h : ℕ)
        → n ≡ k + m
        → h < cap
        → h + k ≡ cap
        → m ≤ cap
        → window cells cap h n ≡ take k (drop h cells) ++ take m cells
    window-two_runs n zero m h sum lt end le = absurd (omega arith)
    window-two_runs zero (suc k) m h sum lt end le = absurd (omega arith)
    window-two_runs (suc n) (suc zero) m h sum lt end le =
        let (x, e) = get_elem?-some cells h (omega arith) in
        let turned : next cap h ≡ 0 = ground arith in
        let same : n ≡ m = omega arith in
        rw (window-suc cells cap h n e, drop-get cells h e, turned)
          (ap (λ zs. x ∷ zs)
            (window-run n 0 (omega arith) (omega arith) ∙ ap (λ t. take t cells) same))
    window-two_runs (suc n) (suc (suc k)) m h sum lt end le =
        let (x, e) = get_elem?-some cells h (omega arith) in
        let on : next cap h ≡ suc h = ground arith in
        rw (window-suc cells cap h n e, drop-get cells h e, on)
          (ap (λ zs. x ∷ zs)
            (window-two_runs n (suc k) m (suc h) (omega arith) (omega arith) (omega arith) le))
