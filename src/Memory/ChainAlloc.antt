-- ===== src/Memory/ChainAlloc.antt =====
-- multi_arena_alloc (src/memory.c) keeps the chain and hands out the tail of one of its arenas.
use arnm.Base.{
  ℕ, zero, suc, ◌+◌, ◌%◌, ◌≤◌, ◌<◌, ◌≡◌, ◌≢◌, ◌⊎◌, inl, inr, refl, ap, List, [], ◌∷◌, ◌++◌, some,
  true, false, arith, get_elem?, set, length, length-set, length-append, Option-cases,
  get_elem?-set_self,
}
use arnm.Result.{success, is_success}
use arnm.Memory.Machine.{Machine}
use arnm.Memory.Arena.{Arena, remaining_bytes, alloc_in_arena}
use arnm.Memory.Chain.{MultiArena, ChainReply, serve_at}
use arnm.Memory.Bounds.{IsValid, remaining_bytes-eq-sub}
use arnm.Memory.ChainScan.{IsChain, get_elem?-lt}

module _ {ℓ} {A : Type ℓ} where
  -- what is found after a write: the written value, or an old one elsewhere
  pub get_elem?-set_cases :
      (xs : List A) (i j : ℕ) (v : A) {b : A}
      → get_elem? (set xs i v) j ≡ some b
      → ((i ≡ j) × (v ≡ b)) ⊎ ((i ≢ j) × (get_elem? xs j ≡ some b))
  get_elem?-set_cases [] i j v e = absurd (ground arith)
  get_elem?-set_cases (x ∷ xs) zero zero v e = inl (refl, cc)
  get_elem?-set_cases (x ∷ xs) zero (suc j) v e = inr (omega arith, e)
  get_elem?-set_cases (x ∷ xs) (suc i) zero v e = inr (omega arith, e)
  get_elem?-set_cases (x ∷ xs) (suc i) (suc j) v e = elim (get_elem?-set_cases xs i j v e) [
    | inl (same, is) ↦ inl (ap suc same, is)
    | inr (other, old) ↦ inr (omega arith, old)
  ]

  -- what is found after an append: an old value, or the new one at the end
  pub get_elem?-append_cases :
      (xs : List A) (v : A) (j : ℕ) {b : A}
      → get_elem? (xs ++ v ∷ []) j ≡ some b
      → ((j < length xs) × (get_elem? xs j ≡ some b)) ⊎ ((j ≡ length xs) × (v ≡ b))
  get_elem?-append_cases [] v zero e = inr (refl, cc)
  get_elem?-append_cases [] v (suc j) e = absurd (ground arith)
  get_elem?-append_cases (x ∷ xs) v zero e = inl (omega arith, e)
  get_elem?-append_cases (x ∷ xs) v (suc j) e = elim (get_elem?-append_cases xs v j e) [
    | inl (lt, old) ↦ inl (omega arith, old)
    | inr (last, is) ↦ inr (ap suc last, is)
  ]

  pub get_elem?-append_last : (xs : List A) (v : A) → get_elem? (xs ++ v ∷ []) (length xs) ≡ some v
  get_elem?-append_last [] v = refl
  get_elem?-append_last (x ∷ xs) v = get_elem?-append_last xs v

-- One arena of a chain changes, and stays used up if the marker is past it.
pub set-IsChain :
    (m : MultiArena) (i : ℕ) (a : Arena)
    → IsChain m
    → IsValid a
    → a.base ≢ 0
    → (i < m.first_open → remaining_bytes a ≤ m.full_remaining)
    → IsChain (record m { arenas = set m.arenas i a })
set-IsChain m i a c v based shut = record {
  arenas_valid = λ j b e. elim (get_elem?-set_cases m.arenas i j a e) [
    | inl (same, is) ↦ rw (← is) (v, based)
    | inr (other, old) ↦ c.arenas_valid j b old
  ];
  closed = λ j b h e. elim (get_elem?-set_cases m.arenas i j a e) [
    | inl (same, is) ↦ rw (← is) (shut (omega arith))
    | inr (other, old) ↦ c.closed j b h old
  ];
  marked = rw length-set c.marked;
}

-- A fresh arena joins at the end.
pub append-IsChain :
    (m : MultiArena) (a : Arena)
    → IsChain m
    → IsValid a
    → a.base ≢ 0
    → IsChain (record m { arenas = m.arenas ++ a ∷ [] })
append-IsChain m a c v based = record {
  arenas_valid = λ j b e. elim (get_elem?-append_cases m.arenas a j e) [
    | inl (lt, old) ↦ c.arenas_valid j b old
    | inr (last, is) ↦ rw (← is) (v, based)
  ];
  closed = λ j b h e. elim (get_elem?-append_cases m.arenas a j e) [
    | inl (lt, old) ↦ c.closed j b h old
    | inr (last, is) ↦ absurd (omega (arith, c.marked))
  ];
  marked = rw length-append (omega (arith, c.marked));
}

-- What a call of multi_arena_alloc leaves: a chain, and either a block that is the tail of one of
-- its arenas, or the caller's pointer as it was.
pub record Serves {H : Type 0} (buffer aligned : ℕ) (r : ChainReply H) : Type 0 where
  pub is_chain : IsChain r.chain
  pub outcome :
      ((is_success r.result ≡ true)
        × (j : ℕ) × (a : Arena) × (get_elem? r.chain.arenas j ≡ some a)
        × (r.buffer + aligned ≡ a.base + a.last_index)
        × (a.base ≤ r.buffer)
        × (r.buffer % 8 ≡ 0))
      ⊎ ((is_success r.result ≡ false) × (r.buffer ≡ buffer))

alloc_in_arena-fits :
    (buffer aligned : ℕ) {a : Arena}
    → IsValid a
    → a.base ≢ 0
    → aligned ≤ remaining_bytes a
    → alloc_in_arena buffer aligned a ≡ record {
      result = success;
      buffer = a.base + a.last_index;
      arena = record a { last_index = a.last_index + aligned };
    }
unfolding alloc_in_arena remaining_bytes
alloc_in_arena-fits buffer aligned v based fits = ground arith

pub serve_at-Serves :
    {H : Type 0} (i aligned buffer : ℕ) (m : MultiArena) (w : Machine H) {a : Arena}
    → aligned % 8 ≡ 0
    → IsChain m
    → get_elem? m.arenas i ≡ some a
    → aligned ≤ remaining_bytes a
    → Serves buffer aligned (serve_at i aligned buffer m w)
      × (is_success (serve_at i aligned buffer m w).result ≡ true)
unfolding serve_at is_success
serve_at-Serves i aligned buffer m w {a} grid c e fits =
    let (v, based) = c.arenas_valid i a e in
    let left = remaining_bytes-eq-sub v in
    rw (e, serve_at, alloc_in_arena-fits buffer aligned v based fits)
      (
        record {
          is_chain =
              set-IsChain m i (record a { last_index = a.last_index + aligned }) c (omega arith)
                based (λ h. unfold remaining_bytes in omega (arith, c.closed i a h e));
          outcome = inl (
            refl,
            i,
            record a { last_index = a.last_index + aligned },
            get_elem?-set_self m.arenas i _ (get_elem?-lt m.arenas i e),
            omega arith,
            omega arith,
            omega arith,
          );
        },
        refl,
      )

pub serve_at-length :
    {H : Type 0} (i aligned buffer : ℕ) (m : MultiArena) (w : Machine H)
    → length (serve_at i aligned buffer m w).chain.arenas ≡ length m.arenas
unfolding serve_at
serve_at-length i aligned buffer m w = elim (Option-cases (get_elem? m.arenas i)) [
  | inl gone ↦ rw (gone, serve_at) refl
  | inr (a, e) ↦ rw (e, serve_at) (length-set m.arenas i _)
]

pub serve_at-machine :
    {H : Type 0} (i aligned buffer : ℕ) (m : MultiArena) (w : Machine H)
    → (serve_at i aligned buffer m w).machine ≡ w
unfolding serve_at
serve_at-machine i aligned buffer m w = elim (Option-cases (get_elem? m.arenas i)) [
  | inl gone ↦ rw (gone, serve_at) refl
  | inr (a, e) ↦ rw (e, serve_at) refl
]
