-- ===== src/KeyMap/Placing.antt =====
-- The order that probing keeps in the table of src/key_map.c: between a key's home and its slot, no
-- slot is free.
use arnm.Base.{
  ℕ, zero, suc, ◌+◌, ◌%◌, ◌<◌, ◌≡◌, ◌≢◌, refl, sym, ap, ◌∙◌, List, [], ◌∷◌, true, false, arith,
  length, set, inl, inr, Bool-cases, get_elem?-set_self, get_elem?-set_ne,
}
use native.Mathlib.Decide.{ℕ_discrete}
use native.Mathlib.Nat.{mod-eq_of_lt, mod-lt}
use arnm.KeyMap.{KeySlot, slot_at, is_free, first_free}
use arnm.KeyMap.Probing.{used, onward, nearer, some_free, reach, slot_at-suc, slot_at-zero}

-- Slot `p` is a way of `d` steps from `index`, over slots that are taken.
abbrev pub IsReached : List KeySlot → ℕ → ℕ → ℕ → Type 0
IsReached slots capacity index p =
    (d : ℕ) × (d < capacity)
    × ((index + d) % capacity ≡ p)
    × ((e : ℕ) → e < d → is_free (slot_at slots ((index + e) % capacity)) ≡ false)

abbrev pub IsPlaced : List KeySlot → ℕ → Type 0
IsPlaced slots capacity =
    (p : ℕ)
    → p < capacity
    → is_free (slot_at slots p) ≡ false
    → IsReached slots capacity ((slot_at slots p).hash % capacity) p

-- One step more, in front of a way.
pub longer :
    (slots : List KeySlot) (capacity index d : ℕ)
    → index < capacity
    → is_free (slot_at slots index) ≡ false
    → ((e : ℕ) → e < d → is_free (slot_at slots (((index + 1) % capacity + e) % capacity)) ≡ false)
    → (e : ℕ) → e < suc d
    → is_free (slot_at slots ((index + e) % capacity)) ≡ false
longer slots capacity index d at_home taken rest zero lt =
    let sum : index + 0 ≡ index = omega arith in rw (sum, mod-eq_of_lt at_home) taken
longer slots capacity index d at_home taken rest (suc e) lt =
    rw (← onward capacity index e) (rest e (omega arith))

first_free-way :
    (rounds : ℕ) (slots : List KeySlot) (capacity index d : ℕ)
    → d < rounds
    → index < capacity
    → is_free (slot_at slots ((index + d) % capacity)) ≡ true
    → (d0 : ℕ) × (d0 < rounds)
      × ((index + d0) % capacity ≡ first_free rounds slots capacity index)
      × ((e : ℕ) → e < d0 → is_free (slot_at slots ((index + e) % capacity)) ≡ false)
unfolding first_free
first_free-way zero slots capacity index d lt at_home there = absurd (omega arith)
first_free-way (suc rounds) slots capacity index d lt at_home there =
    elim (Bool-cases (is_free (slot_at slots index))) [
      | inl here ↦
          let sum : index + 0 ≡ index = omega arith in
          rw here (
            0,
            omega arith,
            ap (λ n. n % capacity) sum ∙ mod-eq_of_lt at_home,
            λ e none_before. absurd (omega arith),
          )
      | inr taken ↦
          let (d', lt', there') = nearer slots capacity index d rounds lt at_home there taken in
          let (d0, near, way, before) =
            first_free-way rounds slots capacity ((index + 1) % capacity) d' lt'
              (mod-lt (index + 1) (omega arith)) there' in
          rw taken (
            suc d0,
            omega arith,
            sym (onward capacity index d0) ∙ way,
            longer slots capacity index d0 at_home taken before,
          )
    ]

pub first_free-IsReached :
    (slots : List KeySlot) (index : ℕ)
    → used slots < length slots
    → index < length slots
    → IsReached slots (length slots) index (first_free (length slots) slots (length slots) index)
first_free-IsReached slots index room at_home =
    let (p, below, there) = some_free slots room in
    let (d, near, way) = reach (length slots) index p at_home below in
    first_free-way (length slots) slots (length slots) index d near at_home (rw way there)

module _ (slots : List KeySlot) (i : ℕ) (s : KeySlot) (inside : i < length slots)
    (taken : is_free s ≡ false) where
  slot_at-set : slot_at (set slots i s) i ≡ s
  unfolding slot_at
  slot_at-set = rw (get_elem?-set_self slots i s inside, slot_at) refl

  slot_at-set_ne : (j : ℕ) → i ≢ j → slot_at (set slots i s) j ≡ slot_at slots j
  unfolding slot_at
  slot_at-set_ne j other = rw (get_elem?-set_ne slots s other, slot_at) refl

  -- a slot that is taken stays so
  still_taken :
      (j : ℕ) → is_free (slot_at slots j) ≡ false → is_free (slot_at (set slots i s) j) ≡ false
  still_taken j was = elim (ℕ_discrete i j) [
    | yes here ↦ rw (← here, slot_at-set) taken
    | no other ↦ rw (slot_at-set_ne j other) was
  ]

  -- A key that goes to a free slot that its home reaches leaves the table in order.
  pub IsPlaced-set :
      IsPlaced slots (length slots)
      → IsReached slots (length slots) (s.hash % length slots) i
      → IsPlaced (set slots i s) (length slots)
  IsPlaced-set placed (d, near, way, before) p below full = elim (ℕ_discrete i p) [
    | yes here ↦
        rw (← here, slot_at-set)
          (
            d,
            near,
            way,
            λ e lt. still_taken ((s.hash % length slots + e) % length slots) (before e lt),
          )
    | no other ↦
        let was = rw (slot_at-set_ne p other) at full in
        let (d', near', way', before') = placed p below was in
        rw (slot_at-set_ne p other) (
          d',
          near',
          way',
          λ e lt.
              still_taken (((slot_at slots p).hash % length slots + e) % length slots)
                (before' e lt),
        )
  ]

-- One more slot is used when a free one is written.
pub used-set :
    (slots : List KeySlot) (i : ℕ) (s : KeySlot)
    → i < length slots
    → is_free (slot_at slots i) ≡ true
    → is_free s ≡ false
    → used (set slots i s) ≡ suc (used slots)
used-set [] i s inside was taken = absurd (omega arith)
used-set (t ∷ slots) zero s inside was taken =
    let first = rw (slot_at-zero t slots) at was in rw (taken, first) refl
used-set (t ∷ slots) (suc i) s inside was taken =
    let rest = used-set slots i s (omega arith) (rw (slot_at-suc t slots i) at was) taken in
    rw rest (ground arith)
