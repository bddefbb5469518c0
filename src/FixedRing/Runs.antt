-- ===== src/FixedRing/Runs.antt =====
-- Sequences of calls on a ring of src/fixed_ring.c, reads by place, and the copy out.
use arnm.Base.{
  ℕ, zero, suc, ◌+◌, ◌-◌, ◌≤◌, ◌<◌, ◌≡◌, ◌≢◌, refl, ap, sym, ◌∙◌, List, [], ◌∷◌, ◌++◌, Option, none,
  some, true, false, arith, length, get_elem?, drop, ltb, if◌then◌else◌, sub32,
}
use mathlib.Core.Path.{ap₂}
use native.Mathlib.Decide.{dec_lt, dec_le, ℕ_discrete}
use arnm.Result.{success, error_destination_buffer_to_small}
use arnm.FixedRing.{Ring, slot, copy_runs, copy_to, at}
use arnm.FixedRing.Window.{around, get_elem?-window, window-run, window-two_runs}
use arnm.FixedRing.Queue.{Call, Seen, queue_step, queue_run}
use arnm.FixedRing.Refine.{
  IsValid, contents, ring_step, step-refines, slot-around, length-contents, contents-empty,
}

get_elem?-none {ℓ} : {A : Type ℓ} (xs : List A) (i : ℕ) → length xs ≤ i → get_elem? xs i ≡ none
get_elem?-none [] i h = refl
get_elem?-none (x ∷ xs) zero h = absurd (omega arith)
get_elem?-none (x ∷ xs) (suc i) h = get_elem?-none xs i (omega arith)

module _ {A : Type 0} where
  -- A client's calls in order, as long as there is a ring.
  unfoldable pub ring_run : Option (Ring A) → List (Call A) → List (Seen A)
  ring_run r [] = []
  ring_run none (c ∷ cs) = []
  ring_run (some r) (c ∷ cs) = (ring_step r c).0 ∷ ring_run (ring_step r c).1 cs

  -- No sequence of pushes, pops, copies out and clears tells a valid ring of at most 2 ^ 31 slots
  -- from the bounded first in, first out queue of its contents: every answer and every element
  -- that comes out is the same, on full and empty rings too.
  pub ring_run-refines :
      (cs : List (Call A)) (r : Ring A)
      → IsValid r
      → ring_run (some r) cs ≡ queue_run r.capacity (contents r) cs
  unfolding ring_run queue_run
  ring_run-refines [] r v = refl
  ring_run-refines (c ∷ cs) r v =
      let s = step-refines r c v in
      rw s.same_answer (
        ap (λ rest. (queue_step r.capacity (contents r) c).0 ∷ rest)
          (ring_run-refines cs s.ring s.valid
            ∙ ap₂ (λ cap q. queue_run cap q cs) s.same_capacity s.same_contents))

  -- On a valid ring of at most 2 ^ 31 slots, arnm_fixed_ring_at answers the element at a place of
  -- the queue, and NULL past its end.
  pub at-contents : (r : Ring A) (k : ℕ) → IsValid r → at r k ≡ get_elem? (contents r) k
  unfolding at
  at-contents r k v = elim (dec_lt k r.size) [
    | yes inside ↦
        let at_slot : at r k ≡ get_elem? r.cells (slot r k) = ground arith in
        at_slot
        ∙ ap (get_elem? r.cells) (slot-around r k v (omega arith))
        ∙ sym (
            get_elem?-window r.cells r.capacity (omega arith) r.size r.head k v.front_in v.size_in
              inside)
    | no outside ↦
        rw (get_elem?-none (contents r) k (rw (length-contents r v) (omega arith))) (ground arith)
  ]

  -- On a ring whose front and place, up to its capacity, come to 2 ^ 32 or more, which takes more
  -- than 2 ^ 31 slots, the addition of arnm_fixed_ring_get wraps, and it names a slot that is not
  -- the place's.
  pub slot_wraps :
      (r : Ring A) (k : ℕ)
      → r.capacity < 4294967296
      → r.head < r.capacity
      → k ≤ r.capacity
      → 4294967296 ≤ r.head + k
      → slot r k ≢ around r.capacity (r.head + k)
  unfolding slot
  slot_wraps r k small front place past e = ground arith

  copy_runs-straight :
      (r : Ring A) (dst : List A)
      → IsValid r
      → r.head + r.size ≤ r.capacity
      → copy_runs r dst ≡ contents r ++ drop r.size dst
  unfolding copy_runs
  copy_runs-straight r dst v straight =
      let first_run =
        if ltb r.size (sub32 r.capacity r.head) then r.size else sub32 r.capacity r.head in
      let whole : first_run ≡ r.size = ground arith in
      let once : ltb first_run r.size ≡ false = ground arith in
      let run = window-run r.cells r.capacity (omega arith) r.size r.head v.front_in straight in
      rw (once, copy_runs) (rw (whole, run) refl)

  copy_runs-bent :
      (r : Ring A) (dst : List A)
      → IsValid r
      → r.capacity < r.head + r.size
      → copy_runs r dst ≡ contents r ++ drop r.size dst
  unfolding copy_runs
  copy_runs-bent r dst v bent =
      let first_run =
        if ltb r.size (sub32 r.capacity r.head) then r.size else sub32 r.capacity r.head in
      let to_end : first_run ≡ r.capacity - r.head = ground arith in
      let twice : ltb first_run r.size ≡ true = ground arith in
      let over : sub32 r.size first_run ≡ r.size - (r.capacity - r.head) = ground arith in
      let runs =
        window-two_runs r.cells r.capacity (omega arith) r.size (r.capacity - r.head)
          (r.size - (r.capacity - r.head)) r.head (omega arith) v.front_in (omega arith)
          (omega arith) in
      rw (twice, over, copy_runs) (rw (to_end, runs) refl)

  -- On a valid ring of at most 2 ^ 31 slots, arnm_fixed_ring_copy_to refuses a destination with
  -- less room than the queue has elements and leaves it alone; otherwise the destination begins
  -- with the queue's elements, front first, whether or not they go round the end of the block, and
  -- the rest of it is unchanged.
  pub copy_to-contents :
      (r : Ring A) (dst : List A) (dst_capacity : ℕ)
      → IsValid r
      → copy_to (some r) (some dst) dst_capacity ≡ (
          if ltb dst_capacity r.size
          then (error_destination_buffer_to_small, some dst)
          else (success, some (contents r ++ drop r.size dst)))
  unfolding copy_to
  copy_to-contents r dst dst_capacity v =
      let copied : copy_runs r dst ≡ contents r ++ drop r.size dst =
        elim (dec_le (r.head + r.size) r.capacity) [
          | yes straight ↦ copy_runs-straight r dst v straight
          | no bent ↦ copy_runs-bent r dst v (omega arith)
        ] in
      elim (ℕ_discrete r.size 0) [
        | yes none_in ↦
            let whole : dst ≡ contents r ++ drop r.size dst =
              ap₂ (λ xs n. xs ++ drop n dst) (sym (contents-empty r none_in)) (sym none_in) in
            ground arith
        | no some_in ↦ ground arith
      ]
