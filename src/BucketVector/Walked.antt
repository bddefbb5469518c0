-- ===== src/BucketVector/Walked.antt =====
-- The two walks of arnm_bvec_shrink in src/bucket_vector.c, and the slots they leave.
use arnm.Base.{
  ℕ, zero, suc, ◌+◌, ◌≤◌, ◌<◌, ◌≡◌, refl, ap, ◌∙◌, Option, none, some, List, arith, length,
  get_elem?, set, length-set, Bool-cases, Option-cases, inl, inr, get_elem?-set_ne,
  get_elem?-set_self,
}
use arnm.Result.{is_success}
use arnm.Memory.Machine.{Machine, Host}
use arnm.Memory.Api.{Arnm, free}
use arnm.Memory.ChainScan.{get_elem?-lt}
use native.Mathlib.Decide.{ℕ_discrete}
use arnm.BucketVector.{Slot}
use arnm.BucketVector.Release.{held_at, release_down, release_up}

-- The slots below `stop` are as before, those from there to `top` hold no bucket, and those from
-- `top` on are as before.
pub record Walked {A : Type 0} (stop top : ℕ) (before after : List (Slot A)) : Type 0 where
  pub long : length after ≡ length before
  pub kept : (k : ℕ) → k < stop → get_elem? after k ≡ get_elem? before k
  pub cleared : (k : ℕ) → stop ≤ k → k < top → held_at after k ≡ none
  pub above : (k : ℕ) → top ≤ k → get_elem? after k ≡ get_elem? before k

stays-Walked : {A : Type 0} (n : ℕ) (index : List (Slot A)) → Walked n n index index
stays-Walked n index = record {
  long = refl;
  kept = λ k lt. refl;
  cleared = λ k le lt. absurd (omega arith);
  above = λ k le. refl;
}

pub held_at-same :
    {A : Type 0} (xs ys : List (Slot A)) (k : ℕ)
    → get_elem? xs k ≡ get_elem? ys k
    → held_at xs k ≡ held_at ys k
held_at-same xs ys k same = rw (same, held_at) refl

module _ {A : Type 0} {stop top : ℕ} {before after : List (Slot A)} where
  -- The slot at `top` holds no bucket either.
  higher :
      Walked stop top before after → held_at before top ≡ none → Walked stop (suc top) before after
  higher w empty = record {
    long = w.long;
    kept = w.kept;
    cleared = λ k le lt. elim (ℕ_discrete k top) [
      | yes here ↦
          let same = w.above top (omega arith) in
          rw here (held_at-same after before top same ∙ empty)
      | no below ↦ w.cleared k le (omega arith)
    ];
    above = λ k le. w.above k (omega arith);
  }

  -- A slot among the cleared ones was emptied before the walk.
  emptied :
      {old : List (Slot A)} {n : ℕ}
      → Walked stop top before after
      → before ≡ set old n none
      → stop ≤ n
      → n < top
      → Walked stop top old after
  emptied {old} {n} w is from to = record {
    long = w.long ∙ ap length is ∙ length-set old n none;
    kept = λ k lt.
        w.kept k lt ∙ ap (λ xs. get_elem? xs k) is ∙ get_elem?-set_ne old none (omega arith);
    cleared = w.cleared;
    above = λ k le.
        w.above k le ∙ ap (λ xs. get_elem? xs k) is ∙ get_elem?-set_ne old none (omega arith);
  }

-- The slot under `stop` holds no bucket either.
lower :
    {A : Type 0} {n top : ℕ} {before after : List (Slot A)}
    → Walked (suc n) top before after
    → held_at before n ≡ none
    → Walked n top before after
lower {A} {n} {top} {before} {after} w empty = record {
  long = w.long;
  kept = λ k lt. w.kept k (omega arith);
  cleared = λ k le lt. elim (ℕ_discrete k n) [
    | yes here ↦
        let same = w.kept n (omega arith) in rw here (held_at-same after before n same ∙ empty)
    | no past ↦ w.cleared k (omega arith) lt
  ];
  above = w.above;
}

set-none :
    {A : Type 0} (index : List (Slot A)) (n : ℕ) {x : Slot A}
    → get_elem? index n ≡ some x
    → held_at (set index n none) n ≡ none
set-none index n there =
    rw (get_elem?-set_self index n none (get_elem?-lt index n there), held_at) refl

module _ {A H : Type 0} (os : Host H) where
  pub release_down-Walked :
      (left used_before bytes : ℕ) (index : List (Slot A)) (m : Option Arnm) (w : Machine H)
      → (let s = release_down os left used_before bytes index m w in
          (used_before ≤ s.stopped)
          × (s.stopped ≤ used_before + left)
          × Walked s.stopped (used_before + left) index s.index)
  unfolding release_down
  release_down-Walked zero used bytes index m w =
      let all : used + 0 ≡ used = omega arith in
      (omega arith, omega arith, rw all (stays-Walked used index))
  release_down-Walked (suc left) used bytes index m w =
      let next : used + suc left ≡ suc (used + left) = omega arith in
      elim (Option-cases (get_elem? index (used + left))) [
        | inl past ↦
            let (low, high, walked) = release_down-Walked left used bytes index m w in
            rw (past, release_down, next)
              (low, omega arith, higher walked (rw (past, held_at) refl))
        | inr (none, empty) ↦
            let (low, high, walked) = release_down-Walked left used bytes index m w in
            rw (empty, release_down, next)
              (low, omega arith, higher walked (rw (empty, held_at) refl))
        | inr (some b, held) ↦
            let freed = free os b.addr bytes m w in
            let index' = set index (used + left) none in
            let (low, high, walked) = release_down-Walked left used bytes index' freed.1 freed.2 in
            elim (Bool-cases (is_success freed.0)) [
              | inl back ↦
                  rw (held, back, release_down, next)
                    (
                      low,
                      omega arith,
                      emptied (higher walked (set-none index (used + left) held)) refl high
                          (omega arith),
                    )
              | inr stays ↦
                  rw (held, stays, release_down, next)
                    (omega arith, omega arith, stays-Walked (suc (used + left)) index)
            ]
      ]

  pub release_up-Walked :
      (left from bytes : ℕ) (index : List (Slot A)) (m : Option Arnm) (w : Machine H)
      → Walked from (from + left) index (release_up os left from bytes index m w).index
  unfolding release_up
  release_up-Walked zero from bytes index m w =
      let all : from + 0 ≡ from = omega arith in rw all (stays-Walked from index)
  release_up-Walked (suc left) from bytes index m w =
      let next : from + suc left ≡ suc from + left = omega arith in
      elim (Option-cases (get_elem? index from)) [
        | inl past ↦
            rw (past, release_up, next)
              (lower (release_up-Walked left (suc from) bytes index m w) (rw (past, held_at) refl))
        | inr (none, empty) ↦
            rw (empty, release_up, next)
              (lower (release_up-Walked left (suc from) bytes index m w) (rw (empty, held_at) refl))
        | inr (some b, held) ↦
            let freed = free os b.addr bytes m w in
            let index' = set index from none in
            let walked = release_up-Walked left (suc from) bytes index' freed.1 freed.2 in
            rw (held, release_up, next)
              (emptied (lower walked (set-none index from held)) refl (omega arith) (omega arith))
      ]
