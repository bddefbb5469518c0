-- ===== src/Memory/ChainScan.antt =====
-- The invariant of a chain of arenas, and the scan of multi_arena_alloc (src/memory.c).
use arnm.Base.{
  ℕ, zero, suc, ◌+◌, ◌≤◌, ◌<◌, ◌≡◌, ◌≢◌, inl, inr, refl, sym, ◌∙◌, List, [], ◌∷◌, Option, none,
  some, arith, get_elem?, length, ◌==◌, leb, Bool-cases, Option-cases, ==_iff, leb→le,
}
use native.Mathlib.Decide.{ℕ_discrete}
use arnm.Memory.Arena.{Arena, remaining_bytes}
use arnm.Memory.Chain.{MultiArena, arena_is_used_up, scan}
use arnm.Memory.Bounds.{IsValid}

-- Every arena is valid and stands somewhere, and every arena before the marker is used up: the
-- marker is the earliest arena that may still have room.
pub record IsChain (m : MultiArena) : Type 0 where
  pub arenas_valid : (i : ℕ) (a : Arena) → get_elem? m.arenas i ≡ some a → IsValid a × (a.base ≢ 0)
  pub closed :
      (i : ℕ) (a : Arena)
      → i < m.first_open
      → get_elem? m.arenas i ≡ some a
      → remaining_bytes a ≤ m.full_remaining
  pub marked : m.first_open ≤ length m.arenas

-- What the scan leaves: the same arenas, a chain still, and an arena with room if it names one.
pub record Scanned (m : MultiArena) (aligned : ℕ) (out : Option ℕ × MultiArena) : Type 0 where
  pub arenas : out.1.arenas ≡ m.arenas
  pub arena_capacity : out.1.arena_capacity ≡ m.arena_capacity
  pub full_remaining : out.1.full_remaining ≡ m.full_remaining
  pub is_chain : IsChain out.1
  pub fits :
      (j : ℕ)
      → out.0 ≡ some j
      → (a : Arena) × (get_elem? m.arenas j ≡ some a) × (aligned ≤ remaining_bytes a)

abbrev advance : MultiArena → MultiArena
advance m = record m { first_open = suc m.first_open }

pub get_elem?-lt {ℓ} :
    {A : Type ℓ} (xs : List A) (i : ℕ) {a : A} → get_elem? xs i ≡ some a → i < length xs
get_elem?-lt [] i e = absurd (ground arith)
get_elem?-lt (x ∷ xs) zero e = omega arith
get_elem?-lt (x ∷ xs) (suc i) e = omega (arith, get_elem?-lt xs i e)

get_elem?-ge {ℓ} : {A : Type ℓ} (xs : List A) (i : ℕ) → get_elem? xs i ≡ none → length xs ≤ i
get_elem?-ge [] i e = omega arith
get_elem?-ge (x ∷ xs) zero e = absurd (ground arith)
get_elem?-ge (x ∷ xs) (suc i) e = omega (arith, get_elem?-ge xs i e)

-- The marker walks over an arena that is used up.
advance-IsChain :
    (m : MultiArena) {a : Arena}
    → IsChain m
    → get_elem? m.arenas m.first_open ≡ some a
    → remaining_bytes a ≤ m.full_remaining
    → IsChain (advance m)
advance-IsChain m {a} c e up = record {
  arenas_valid = c.arenas_valid;
  closed = λ i b h f. elim (ℕ_discrete i m.first_open) [
    | yes same ↦ let there : some a ≡ some b = sym e ∙ rw same at f in ground arith
    | no other ↦ c.closed i b (omega arith) f
  ];
  marked = omega (arith, get_elem?-lt m.arenas m.first_open e);
}

stay : (m : MultiArena) (aligned : ℕ) → IsChain m → Scanned m aligned (none, m)
stay m aligned c = record {
  arenas = refl;
  arena_capacity = refl;
  full_remaining = refl;
  is_chain = c;
  fits = λ j e. absurd (ground arith);
}

of_advance :
    (m : MultiArena) (aligned : ℕ) (out : Option ℕ × MultiArena)
    → Scanned (advance m) aligned out
    → Scanned m aligned out
of_advance m aligned out t = record {
  arenas = t.arenas;
  arena_capacity = t.arena_capacity;
  full_remaining = t.full_remaining;
  is_chain = t.is_chain;
  fits = t.fits;
}

pub scan-Scanned :
    (aligned left i : ℕ) (m : MultiArena)
    → IsChain m
    → m.first_open ≤ i
    → Scanned m aligned (scan aligned left i m)
unfolding scan
scan-Scanned aligned zero i m c h = stay m aligned c
scan-Scanned aligned (suc left) i m c h = elim (Option-cases (get_elem? m.arenas i)) [
  | inl gone ↦ rw (gone, scan) (stay m aligned c)
  | inr (a, e) ↦ elim (Bool-cases (arena_is_used_up (remaining_bytes a) m.full_remaining)) [
    | inl up ↦ elim (Bool-cases (i == m.first_open)) [
      | inl lead ↦
          let at_marker : i ≡ m.first_open = (==_iff _ _).0 lead in
          let ahead =
            advance-IsChain m c (rw at_marker at e) (unfold arena_is_used_up in leb→le _ _ up) in
          rw (e, up, lead, scan)
            (of_advance m aligned _
              (scan-Scanned aligned left (suc i) (advance m) ahead (omega arith)))
      | inr behind ↦ rw (e, up, behind, scan) (scan-Scanned aligned left (suc i) m c (omega arith))
    ]
    | inr has ↦ elim (Bool-cases (leb aligned (remaining_bytes a))) [
      | inl room ↦
          rw (e, has, room, scan)
            (record {
              arenas = refl;
              arena_capacity = refl;
              full_remaining = refl;
              is_chain = c;
              fits = λ j f. let same : i ≡ j = cc in (a, rw (← same) e, leb→le _ _ room);
            })
      | inr small ↦ rw (e, has, small, scan) (scan-Scanned aligned left (suc i) m c (omega arith))
    ]
  ]
]

-- The scan answers none only where no arena from `i` on is both in use still and large enough.
pub scan-none :
    (aligned left i : ℕ) (m : MultiArena)
    → (scan aligned left i m).0 ≡ none
    → (j : ℕ) {a : Arena} → i ≤ j
    → j < i + left
    → get_elem? m.arenas j ≡ some a
    → m.full_remaining < remaining_bytes a
    → remaining_bytes a < aligned
unfolding scan
scan-none aligned zero i m e j lo hi here usable = absurd (omega arith)
scan-none aligned (suc left) i m e j {a} lo hi here usable =
    elim (Option-cases (get_elem? m.arenas i)) [
      | inl gone ↦ elim (ℕ_discrete j i) [
        | yes now ↦ let f : none ≡ some a = sym gone ∙ rw now at here in absurd (ground arith)
        | no later ↦
            absurd (omega (arith, get_elem?-lt m.arenas j here, get_elem?-ge m.arenas i gone))
      ]
      | inr (b, at_i) ↦ elim (Bool-cases (arena_is_used_up (remaining_bytes b) m.full_remaining)) [
        | inl up ↦
            let shut : remaining_bytes b ≤ m.full_remaining =
              unfold arena_is_used_up in leb→le (remaining_bytes b) m.full_remaining up in
            elim (ℕ_discrete j i) [
              | yes now ↦
                  let same : some b ≡ some a = sym at_i ∙ rw now at here in
                  let it : b ≡ a = cc in absurd (let h = rw it at shut in omega arith)
              | no later ↦ elim (Bool-cases (i == m.first_open)) [
                | inl lead ↦
                    scan-none aligned left (suc i) (advance m) (rw (at_i, up, lead, scan) at e) j
                      (omega arith) (omega arith) here usable
                | inr behind ↦
                    scan-none aligned left (suc i) m (rw (at_i, up, behind, scan) at e) j
                      (omega arith) (omega arith) here usable
              ]
            ]
        | inr has ↦ elim (Bool-cases (leb aligned (remaining_bytes b))) [
          | inl room ↦ absurd (let f = rw (at_i, has, room, scan) at e in ground arith)
          | inr small ↦ elim (ℕ_discrete j i) [
            | yes now ↦
                let same : some b ≡ some a = sym at_i ∙ rw now at here in
                let it : b ≡ a = cc in rw (← it) (ground arith)
            | no later ↦
                scan-none aligned left (suc i) m (rw (at_i, has, small, scan) at e) j (omega arith)
                  (omega arith) here usable
          ]
        ]
      ]
    ]
