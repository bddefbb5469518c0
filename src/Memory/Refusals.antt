-- ===== src/Memory/Refusals.antt =====
-- What arnm_realloc leaves of the caller's pointer when it refuses.
use arnm.Base.{
  ℕ, ◌-◌, some, none, Option, ◌≡◌, ◌≢◌, refl, ltb, leb, ◌==◌, not, ◌&&◌, ◌||◌, if◌then◌else◌, arith,
  Bool-cases, inl, inr, Option-cases,
}
use arnm.Result.{Result, success, warning_arena_memory_not_reclaimed, is_success}
use arnm.Memory.Machine.{Machine, Host, align8_u32}
use arnm.Memory.Arena.{Arena, is_reclaimable, remaining_bytes}
use arnm.Memory.Chain.{MultiArena}
use arnm.Memory.Api.{owner, free, Arnm, arena, chain, default, Reply}
use arnm.Memory.Realloc.{
  realloc, realloc_sized, realloc_in_arena, realloc_in_chain, realloc_default, realloc_buried,
  realloc_moved,
}

-- An answer that is neither success nor the arena's warning leaves the pointer.
abbrev Keeps : {H : Type 0} → ℕ → Reply H → Type 0
Keeps b r = r.result ≢ success → r.result ≢ warning_arena_memory_not_reclaimed → r.buffer ≡ some b

module _ {H : Type 0} (os : Host H) (b old : ℕ) where
  realloc_buried-Keeps :
      (old_aligned new_aligned : ℕ) (m : Option Arnm) (w : Machine H)
      → Keeps b (realloc_buried os b old old_aligned new_aligned m w)
  unfolding realloc_buried is_success
  realloc_buried-Keeps old_aligned new_aligned m w refused unwarned = ground arith

  realloc_moved-Keeps :
      (old_aligned new_aligned : ℕ) (c : MultiArena) (w : Machine H) (i : ℕ)
      → Keeps b (realloc_moved os i b old old_aligned new_aligned c w)
  unfolding realloc_moved is_success
  realloc_moved-Keeps old_aligned new_aligned c w i refused unwarned = ground arith

  realloc_in_arena-Keeps :
      (old_aligned new_aligned : ℕ) (a : Arena) (w : Machine H)
      → Keeps b (realloc_in_arena os b old old_aligned new_aligned a w)
  unfolding realloc_in_arena
  realloc_in_arena-Keeps old_aligned new_aligned a w refused unwarned =
      ground (arith, realloc_buried-Keeps old_aligned new_aligned (some (arena a)) w)

  realloc_in_chain-Keeps :
      (old_aligned new_aligned : ℕ) (c : MultiArena) (w : Machine H)
      → Keeps b (realloc_in_chain os b old old_aligned new_aligned c w)
  unfolding realloc_in_chain
  realloc_in_chain-Keeps old_aligned new_aligned c w =
      let buried = realloc_buried-Keeps old_aligned new_aligned (some (chain c)) w in
      elim (Option-cases (owner c b)) [
        | inl missing ↦
            rw (missing, realloc_in_chain)
              (elim (Bool-cases (b == 0)) [
                | inl null ↦ rw null buried
                | inr there ↦ rw there (λ refused unwarned. refl)
              ])
        | inr ((i, a), found) ↦
            rw (found, realloc_in_chain)
              (elim (Bool-cases (is_reclaimable b old_aligned a)) [
                | inr covered ↦ rw covered buried
                | inl at_tail ↦ rw at_tail (elim (Bool-cases (ltb new_aligned old_aligned)) [
                  | inl less ↦ rw less (λ refused unwarned. refl)
                  | inr more ↦
                      rw more
                        (elim (Bool-cases (leb (new_aligned - old_aligned) (remaining_bytes a))) [
                          | inl fits ↦ rw fits (λ refused unwarned. refl)
                          | inr full ↦ rw full (realloc_moved-Keeps old_aligned new_aligned c w i)
                        ])
                ])
              ])
      ]

  realloc_default-Keeps :
      (new : ℕ) (m : Option Arnm) (w : Machine H) → Keeps b (realloc_default os b new m w)
  unfolding realloc_default
  realloc_default-Keeps new m w refused unwarned = ground arith

  realloc_sized-Keeps :
      (new : ℕ) (m : Option Arnm) (w : Machine H) → Keeps b (realloc_sized os b old new m w)
  unfolding realloc_sized
  realloc_sized-Keeps new none w = realloc_default-Keeps new none w
  realloc_sized-Keeps new (some default) w = realloc_default-Keeps new (some default) w
  realloc_sized-Keeps new (some (arena a)) w =
      realloc_in_arena-Keeps (align8_u32 old) (align8_u32 new) a w
  realloc_sized-Keeps new (some (chain c)) w =
      realloc_in_chain-Keeps (align8_u32 old) (align8_u32 new) c w

-- the pointer behind an arnm_free
freed :
    (b : ℕ) (r : Result)
    → r ≢ success
    → r ≢ warning_arena_memory_not_reclaimed
    → (if is_success r then some 0 else some b) ≡ some b
unfolding is_success
freed b r refused unwarned = ground arith

module _ {H : Type 0} (os : Host H) (b old new : ℕ) (m : Option Arnm) (w : Machine H) where
  -- An answer of arnm_realloc that is neither success nor the arena's warning leaves the pointer.
  pub realloc-refused :
      (realloc os (some b) old new m w).result ≢ success
      → (realloc os (some b) old new m w).result ≢ warning_arena_memory_not_reclaimed
      → (realloc os (some b) old new m w).buffer ≡ some b
  unfolding realloc is_success
  realloc-refused =
      elim (Bool-cases
        ((not (new == 0) && align8_u32 new == 0) || (not (old == 0) && align8_u32 old == 0))) [
          | inl over ↦ rw over (λ refused unwarned. refl)
          | inr sized ↦ rw sized (elim (Bool-cases (align8_u32 new == 0)) [
            | inl nothing ↦ rw nothing (freed b (free os b (align8_u32 old) m w).0)
            | inr something ↦ rw something (elim (Bool-cases (not (b == 0) && old == new)) [
              | inl same ↦ rw same (λ refused unwarned. refl)
              | inr resized ↦ rw resized (realloc_sized-Keeps os b old new m w)
            ])
          ])
        ]
