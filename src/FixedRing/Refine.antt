-- ===== src/FixedRing/Refine.antt =====
-- A valid ring of src/fixed_ring.c behaves as the bounded queue of the elements that it holds.
use arnm.Base.{
  ℕ, zero, suc, ◌+◌, ◌-◌, ◌≤◌, ◌<◌, ◌≡◌, ◌≢◌, refl, ap, ◌∙◌, List, [], ◌∷◌, ◌++◌, Option, none,
  some, false, arith, length, length-set, get_elem?, get_or, set, ◌==◌, if◌then◌else◌, add32, sub32,
}
use native.Mathlib.Decide.{ℕ_discrete}
use arnm.Result.{success, is_success, error_resource_exhausted}
use arnm.FixedRing
use arnm.FixedRing.{Ring, slot, emplace, push_ptr, pop_copy, copy_to, at}
use arnm.FixedRing.Window.{
  window, next, around, window-suc, window-set, get_elem?-some, length-window,
}
use arnm.FixedRing.Queue.{Call, Seen, queue_step}

-- A ring with its block: as many slots as the capacity, the front inside, no more than fit.
pub record IsValid {A : Type 0} (r : Ring A) : Type 0 where
  pub blocked : r.slots ≢ 0
  pub held : length r.cells ≡ r.capacity
  pub small : r.capacity ≤ 2147483648
  pub front_in : r.head < r.capacity
  pub size_in : r.size ≤ r.capacity

get_or-get :
    {A : Type 0} (xs : List A) (i : ℕ) (d x : A) → get_elem? xs i ≡ some x → get_or xs i d ≡ x
get_or-get [] i d x e = absurd (ground arith)
get_or-get (y ∷ ys) zero d x e = cc
get_or-get (y ∷ ys) (suc i) d x e = get_or-get ys i d x e

module _ {A : Type 0} where
  abbrev pub contents : Ring A → List A
  contents r = window r.cells r.capacity r.head r.size

  -- A client's call on a ring, and what it sees.
  unfoldable pub ring_step : Ring A → Call A → Seen A × Option (Ring A)
  ring_step r (Call.push x) = let (result, r') = push_ptr (some r) (some x) in ((result, none), r')
  ring_step r Call.pop = let (result, r') = FixedRing.pop (some r) in ((result, none), r')
  ring_step r (Call.take_front old) =
      let (result, r', out) = pop_copy (some r) (some old) in
      ((result, if is_success result then out else none), r')
  ring_step r Call.clear = ((success, none), FixedRing.clear (some r))

  pub slot-around :
      (r : Ring A) (k : ℕ) → IsValid r → k ≤ r.capacity → slot r k ≡ around r.capacity (r.head + k)
  unfolding slot
  slot-around r k v h = ground arith

  push_ptr-full :
      (r : Ring A) (x : A)
      → IsValid r
      → r.size ≡ r.capacity
      → ring_step r (Call.push x) ≡ ((error_resource_exhausted, none), some r)
  unfolding ring_step push_ptr
  push_ptr-full r x v full = ground arith

  push_ptr-room :
      (r : Ring A) (x : A)
      → IsValid r
      → r.size ≢ r.capacity
      → ring_step r (Call.push x) ≡ (
        (success, none),
        some (record r { cells = set r.cells (slot r r.size) x; size = r.size + 1 }),
      )
  unfolding ring_step push_ptr slot
  push_ptr-room r x v room = ground arith

  pop-full :
      (r : Ring A)
      → IsValid r
      → r.size ≢ 0
      → ring_step r Call.pop
        ≡ ((success, none), some (record r { head = next r.capacity r.head; size = r.size - 1 }))
  unfolding ring_step FixedRing.pop
  pop-full r v some_in = ground arith

  pub length-contents : (r : Ring A) → IsValid r → length (contents r) ≡ r.size
  length-contents r v = length-window r.cells r.capacity (omega arith) r.head r.size v.front_in

  pub contents-empty : (r : Ring A) → r.size ≡ 0 → contents r ≡ []
  contents-empty r e = ap (window r.cells r.capacity r.head) e

  contents-front :
      (r : Ring A) {x : A}
      → r.size ≢ 0
      → get_elem? r.cells r.head ≡ some x
      → contents r ≡ x ∷ window r.cells r.capacity (next r.capacity r.head) (r.size - 1)
  contents-front r ne e =
      let one_more : r.size ≡ suc (r.size - 1) = omega arith in
      ap (window r.cells r.capacity r.head) one_more
      ∙ window-suc r.cells r.capacity r.head (r.size - 1) e

  -- One call: the same answer as the queue's, and a ring that holds the queue's next state.
  pub record StepRefines (r : Ring A) (c : Call A) : Type 0 where
    pub ring : Ring A
    pub same_answer : ring_step r c ≡ ((queue_step r.capacity (contents r) c).0, some ring)
    pub valid : IsValid ring
    pub same_capacity : ring.capacity ≡ r.capacity
    pub same_contents : contents ring ≡ (queue_step r.capacity (contents r) c).1

  push-refines : (r : Ring A) (x : A) → IsValid r → StepRefines r (Call.push x)
  unfolding queue_step
  push-refines r x v =
      let held = length-contents r v in
      elim (ℕ_discrete r.size r.capacity) [
        | yes full ↦ record {
          ring = r;
          same_answer = rw held (push_ptr-full r x v full ∙ ground arith);
          valid = v;
          same_capacity = refl;
          same_contents = rw held (ground arith);
        }
        | no room ↦
            let i = slot r r.size in
            let r' : Ring A = record r { cells = set r.cells i x; size = r.size + 1 } in
            let more : r.size + 1 ≡ suc r.size = omega arith in
            let grown : contents r' ≡ contents r ++ x ∷ [] =
              ap (window r'.cells r.capacity r.head) more
              ∙ window-set r.cells r.capacity (omega arith) x r.size r.head i v.front_in
                  (omega arith) (slot-around r r.size v v.size_in) in
            record {
              ring = r';
              same_answer = rw held (push_ptr-room r x v room ∙ ground arith);
              valid = ground (arith, length-set r.cells i x);
              same_capacity = refl;
              same_contents = grown ∙ rw held (ground arith);
            }
      ]

  popped : Ring A → Ring A
  popped r = record r { head = next r.capacity r.head; size = r.size - 1 }

  pop-refines : (r : Ring A) → IsValid r → StepRefines r Call.pop
  unfolding popped
  pop-refines r v = elim (ℕ_discrete r.size 0) [
    | yes none_in ↦ record {
      ring = r;
      same_answer =
          rw (contents-empty r none_in) (unfold queue_step ring_step FixedRing.pop in ground arith);
      valid = v;
      same_capacity = refl;
      same_contents = rw (contents-empty r none_in) (unfold queue_step in refl);
    }
    | no some_in ↦
        let (x, e) = get_elem?-some r.cells r.head (omega arith) in
        record {
          ring = popped r;
          same_answer =
              rw (contents-front r some_in e) (pop-full r v some_in ∙ (unfold queue_step in refl));
          valid = ground arith;
          same_capacity = refl;
          same_contents = rw (contents-front r some_in e) (unfold queue_step in refl);
        }
  ]

  slot-front : (r : Ring A) → IsValid r → slot r 0 ≡ r.head
  slot-front r v =
      let here : around r.capacity (r.head + 0) ≡ r.head = ground arith in
      slot-around r 0 v (omega arith) ∙ here

  pop_copy-front :
      (r : Ring A) (old : A) {x : A}
      → IsValid r
      → r.size ≢ 0
      → get_elem? r.cells r.head ≡ some x
      → pop_copy (some r) (some old) ≡ (success, some (popped r), some x)
  unfolding pop_copy popped
  pop_copy-front r old {x} v some_in e =
      let inside : (r.size == 0) ≡ false = ground arith in
      let turned : (if add32 r.head 1 == r.capacity then 0 else add32 r.head 1)
          ≡ next r.capacity r.head =
        ground arith in
      let fewer : sub32 r.size 1 ≡ r.size - 1 = ground arith in
      let value : get_or r.cells (slot r 0) old ≡ x =
        rw (slot-front r v) (get_or-get r.cells r.head old x e) in
      rw (inside, turned, fewer, value) refl

  take-full :
      (r : Ring A) (old : A) {x : A}
      → IsValid r
      → r.size ≢ 0
      → get_elem? r.cells r.head ≡ some x
      → ring_step r (Call.take_front old) ≡ ((success, some x), some (popped r))
  unfolding ring_step is_success
  take-full r old v some_in e = rw (pop_copy-front r old v some_in e, ring_step) refl

  take-refines : (r : Ring A) (old : A) → IsValid r → StepRefines r (Call.take_front old)
  unfolding popped
  take-refines r old v = elim (ℕ_discrete r.size 0) [
    | yes none_in ↦ record {
      ring = r;
      same_answer =
          rw (contents-empty r none_in)
            (unfold queue_step ring_step pop_copy is_success in ground arith);
      valid = v;
      same_capacity = refl;
      same_contents = rw (contents-empty r none_in) (unfold queue_step in refl);
    }
    | no some_in ↦
        let (x, e) = get_elem?-some r.cells r.head (omega arith) in
        record {
          ring = popped r;
          same_answer =
              rw (contents-front r some_in e)
                (take-full r old v some_in e ∙ (unfold queue_step in refl));
          valid = ground arith;
          same_capacity = refl;
          same_contents = rw (contents-front r some_in e) (unfold queue_step in refl);
        }
  ]

  pub step-refines : (r : Ring A) (c : Call A) → IsValid r → StepRefines r c
  step-refines r (Call.push x) v = push-refines r x v
  step-refines r Call.pop v = pop-refines r v
  step-refines r (Call.take_front old) v = take-refines r old v
  step-refines r Call.clear v = record {
    ring = record r { head = 0; size = 0 };
    same_answer = unfold ring_step queue_step FixedRing.clear in refl;
    valid = omega arith;
    same_capacity = refl;
    same_contents = unfold queue_step in refl;
  }
