-- ===== src/KeyMap/Probing.antt =====
-- The probe loops of src/key_map.c end: a table that is not full has a free slot on every way round.
use arnm.Base.{
  ℕ, zero, suc, ◌+◌, ◌-◌, ◌%◌, ◌<◌, ◌≡◌, ◌⊎◌, refl, ap, ◌∙◌, List, [], ◌∷◌, Bool, true, false, ◌==◌,
  ◌&&◌, if◌then◌else◌, arith, length, inl, inr, Bool-cases, ltb-cases,
}
use native.Mathlib.Nat.{mod-add-mod, mod-eq_of_lt, add-mod_right, mod-lt}
use arnm.KeyMap.{KeySlot, KeyMap, slot_at, is_free, first_free, holds_key, probe_from, probe}

-- the number of slots that name a key
abbrev pub used : List KeySlot → ℕ
used [] = 0
used (s ∷ slots) = if is_free s then used slots else suc (used slots)

-- a place of the table within `rounds` steps of `index`
pub reach :
    (capacity index p : ℕ)
    → index < capacity
    → p < capacity
    → (d : ℕ) × (d < capacity) × ((index + d) % capacity ≡ p)
reach capacity index p at_home below = elim (ltb-cases p index) [
  | inr ahead ↦
      let sum : index + (p - index) ≡ p = omega arith in
      (p - index, omega arith, ap (λ n. n % capacity) sum ∙ mod-eq_of_lt below)
  | inl behind ↦
      let sum : index + (p + capacity - index) ≡ p + capacity = omega arith in
      (
        p + capacity - index,
        omega arith,
        ap (λ n. n % capacity) sum ∙ add-mod_right p capacity ∙ mod-eq_of_lt below,
      )
]

pub slot_at-suc :
    (s : KeySlot) (slots : List KeySlot) (i : ℕ) → slot_at (s ∷ slots) (suc i) ≡ slot_at slots i
unfolding slot_at
slot_at-suc s slots i = refl

pub slot_at-zero : (s : KeySlot) (slots : List KeySlot) → slot_at (s ∷ slots) 0 ≡ s
unfolding slot_at
slot_at-zero s slots = refl

pub some_free :
    (slots : List KeySlot)
    → used slots < length slots
    → (p : ℕ) × (p < length slots) × (is_free (slot_at slots p) ≡ true)
some_free [] room = absurd (omega arith)
some_free (s ∷ slots) room = elim (Bool-cases (is_free s)) [
  | inl here ↦ (0, omega arith, rw (slot_at-zero s slots) here)
  | inr taken ↦
      let (p, below, there) = some_free slots (let r = rw taken at room in omega arith) in
      (suc p, omega arith, rw (slot_at-suc s slots p) there)
]

-- the way on from the next place
pub onward :
    (capacity index d : ℕ) → ((index + 1) % capacity + d) % capacity ≡ (index + suc d) % capacity
onward capacity index d =
    let sum : index + 1 + d ≡ index + suc d = omega arith in
    mod-add-mod (index + 1) capacity d ∙ ap (λ n. n % capacity) sum

-- Behind a slot that is taken, the free one is a step nearer.
pub nearer :
    (slots : List KeySlot) (capacity index d rounds : ℕ)
    → d < suc rounds
    → index < capacity
    → is_free (slot_at slots ((index + d) % capacity)) ≡ true
    → is_free (slot_at slots index) ≡ false
    → (d' : ℕ) × (d' < rounds)
      × (is_free (slot_at slots (((index + 1) % capacity + d') % capacity)) ≡ true)
nearer slots capacity index zero rounds lt at_home there taken =
    let sum : index + 0 ≡ index = omega arith in
    let here : is_free (slot_at slots index) ≡ true = rw (sum, mod-eq_of_lt at_home) at there in
    absurd (ground (arith, here, taken))
nearer slots capacity index (suc d) rounds lt at_home there taken =
    (d, omega arith, rw (onward capacity index d) there)

first_free-near :
    (rounds : ℕ) (slots : List KeySlot) (capacity index d : ℕ)
    → d < rounds
    → index < capacity
    → is_free (slot_at slots ((index + d) % capacity)) ≡ true
    → (is_free (slot_at slots (first_free rounds slots capacity index)) ≡ true)
      × (first_free rounds slots capacity index < capacity)
unfolding first_free
first_free-near zero slots capacity index d lt at_home there = absurd (omega arith)
first_free-near (suc rounds) slots capacity index d lt at_home there =
    elim (Bool-cases (is_free (slot_at slots index))) [
      | inl here ↦ rw here (here, at_home)
      | inr taken ↦
          let (d', lt', there') = nearer slots capacity index d rounds lt at_home there taken in
          rw taken (
            first_free-near rounds slots capacity ((index + 1) % capacity) d' lt'
              (mod-lt (index + 1) (omega arith)) there')
    ]

-- The first free slot is found within one way round a table that is not full.
pub first_free-stops :
    (slots : List KeySlot) (index : ℕ)
    → used slots < length slots
    → index < length slots
    → (is_free (slot_at slots (first_free (length slots) slots (length slots) index)) ≡ true)
      × (first_free (length slots) slots (length slots) index < length slots)
first_free-stops slots index room at_home =
    let (p, below, there) = some_free slots room in
    let (d, near, way) = reach (length slots) index p at_home below in
    first_free-near (length slots) slots (length slots) index d near at_home (rw way there)

module _ {A : Type 0} (same : A → A → Bool) (slot_hash : A → ℕ) (map : KeyMap A) (key : A)
    (hash : ℕ) where
  -- the two ways out of the loop of arnm_key_map_probe
  abbrev pub IsEnd : ℕ → Type 0
  IsEnd index =
      (is_free (slot_at map.slots index) ≡ true)
      ⊎ (((slot_at map.slots index).hash ≡ hash)
          × (holds_key same slot_hash map.keys (slot_at map.slots index).id key ≡ true))

  probe_from-near :
      (rounds index d : ℕ)
      → d < rounds
      → index < map.capacity
      → is_free (slot_at map.slots ((index + d) % map.capacity)) ≡ true
      → IsEnd (probe_from same slot_hash rounds map key hash index)
  unfolding probe_from
  probe_from-near zero index d lt at_home there = absurd (omega arith)
  probe_from-near (suc rounds) index d lt at_home there =
      let s = slot_at map.slots index in
      elim (Bool-cases (is_free s)) [
        | inl here ↦ rw here (inl here)
        | inr taken ↦
            rw taken
              (elim (Bool-cases (s.hash == hash && holds_key same slot_hash map.keys s.id key)) [
                | inl found ↦ rw found (inr (ground arith, ground arith))
                | inr other ↦
                    let (d', lt', there') =
                      nearer map.slots map.capacity index d rounds lt at_home there taken in
                    rw other (
                      probe_from-near rounds ((index + 1) % map.capacity) d' lt'
                        (mod-lt (index + 1) (omega arith)) there')
              ])
      ]

  -- arnm_key_map_probe ends within one way round the table, at the key or at a free slot, where the
  -- table has the slots its capacity says and not all of them are used.
  pub probe-stops :
      length map.slots ≡ map.capacity
      → used map.slots < map.capacity
      → IsEnd (probe same slot_hash map key hash)
  unfolding probe
  probe-stops whole room =
      let (p, below, there) = some_free map.slots (rw whole room) in
      let at_home = mod-lt hash {m = map.capacity} (omega arith) in
      let (d, near, way) = reach map.capacity (hash % map.capacity) p at_home (omega arith) in
      probe_from-near map.capacity (hash % map.capacity) d near at_home (rw way there)
