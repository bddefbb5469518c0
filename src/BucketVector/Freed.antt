-- ===== src/BucketVector/Freed.antt =====
-- What arnm_bvec_shrink of src/bucket_vector.c hands to arnm_free, and why it stops.
use arnm.Base.{
  ℕ, zero, suc, ◌+◌, ◌<◌, ◌≡◌, ◌⊎◌, refl, ap, sym, ◌∙◌, Option, none, some, List, [], ◌∷◌, arith,
  set, Bool-cases, Option-cases, inl, inr, false, get_elem?-set_ne,
}
use arnm.Result.{is_success}
use arnm.Memory.Machine.{Machine, Host}
use arnm.Memory.Api.{Arnm, free}
use arnm.BucketVector.{Slot}
use arnm.BucketVector.Release.{held_at, release_down, release_up}
use arnm.BucketVector.Walked.{held_at-same}

-- the addresses of the buckets in `left` slots from `k` on
unfoldable pub addresses : {A : Type 0} → List (Slot A) → ℕ → ℕ → List ℕ
addresses index k zero = []
addresses index k (suc left) =
    let rest = addresses index (suc k) left in
    elim (held_at index k) [ none ↦ rest | some p ↦ p ∷ rest ]

-- Every block of a list is given back, in its order, whatever the allocator answers.
unfoldable pub free_each :
    {H : Type 0} → Host H → ℕ → List ℕ → Option Arnm → Machine H → Option Arnm × Machine H
free_each os bytes [] m w = (m, w)
free_each os bytes (p ∷ ps) m w =
    let (r, m', w') = free os p bytes m w in free_each os bytes ps m' w'

addresses-set :
    {A : Type 0} (index : List (Slot A)) (n k left : ℕ) (x : Slot A)
    → n < k
    → addresses (set index n x) k left ≡ addresses index k left
unfolding addresses
addresses-set index n k zero x lt = refl
addresses-set index n k (suc left) x lt =
    let here = held_at-same (set index n x) index k (get_elem?-set_ne index x (omega arith)) in
    let rest = addresses-set index n (suc k) left x (omega arith) in
    elim (Option-cases (held_at index k)) [
      | inl empty ↦ let empty' = here ∙ empty in rw (empty, empty', addresses) rest
      | inr (p, held) ↦
          let held' = here ∙ held in rw (held, held', addresses) (ap (λ ps. p ∷ ps) rest)
    ]

module _ {A H : Type 0} (os : Host H) where
  -- The walk from the bottom up frees the buckets it meets, oldest first.
  pub release_up-free_each :
      (left k bytes : ℕ) (index : List (Slot A)) (m : Option Arnm) (w : Machine H)
      → (let s = release_up os left k bytes index m w in (s.allocator, s.machine))
        ≡ free_each os bytes (addresses index k left) m w
  unfolding release_up addresses free_each
  release_up-free_each zero k bytes index m w = refl
  release_up-free_each (suc left) k bytes index m w = elim (Option-cases (held_at index k)) [
    | inl empty ↦
        rw (empty, release_up, addresses) (release_up-free_each left (suc k) bytes index m w)
    | inr (p, held) ↦
        let freed = free os p bytes m w in
        let rest = release_up-free_each left (suc k) bytes (set index k none) freed.1 freed.2 in
        rw (held, release_up, addresses)
          (rest
            ∙ ap (λ ps. free_each os bytes ps freed.1 freed.2)
                (addresses-set index k (suc k) left none (omega arith)))
  ]

  -- The walk from the top down ends at `used_before`, or right above a bucket that the allocator did
  -- not take back.
  pub release_down-ends :
      (left used_before bytes : ℕ) (index : List (Slot A)) (m : Option Arnm) (w : Machine H)
      → (let s = release_down os left used_before bytes index m w in
          (s.stopped ≡ used_before)
          ⊎ ((k : ℕ) × (p : ℕ) × (m1 : Option Arnm) × (w1 : Machine H) × (s.stopped ≡ suc k)
              × (k < used_before + left)
              × (held_at index k ≡ some p)
              × (is_success (free os p bytes m1 w1).0 ≡ false)))
  unfolding release_down
  release_down-ends zero used bytes index m w = inl refl
  release_down-ends (suc left) used bytes index m w =
      elim (Option-cases (held_at index (used + left))) [
        | inl empty ↦
            rw (empty, release_down)
              (elim (release_down-ends left used bytes index m w) [
                | inl all ↦ inl all
                | inr (k, p, m1, w1, at, low, held, refused) ↦
                    inr (k, p, m1, w1, at, omega arith, held, refused)
              ])
        | inr (p, held) ↦
            let freed = free os p bytes m w in
            let index' = set index (used + left) none in
            elim (Bool-cases (is_success freed.0)) [
              | inr stays ↦
                  rw (held, stays, release_down)
                    (inr (used + left, p, m, w, omega arith, omega arith, held, stays))
              | inl back ↦
                  rw (held, back, release_down)
                    (elim (release_down-ends left used bytes index' freed.1 freed.2) [
                      | inl all ↦ inl all
                      | inr (k, q, m1, w1, at, low, there, refused) ↦
                          let same =
                            held_at-same index' index k
                              (get_elem?-set_ne index none (omega arith)) in
                          inr (k, q, m1, w1, at, omega arith, sym same ∙ there, refused)
                    ])
            ]
      ]
