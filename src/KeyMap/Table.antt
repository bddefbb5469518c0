-- ===== src/KeyMap/Table.antt =====
-- The table of src/key_map.c stays in order: rebuild, insert_absent and arnm_key_map_get_or_insert.
use arnm.Base.{
  ℕ, zero, suc, ◌+◌, ◌-◌, ◌*◌, ◌/◌, ◌%◌, ◌≤◌, ◌<◌, ◌≡◌, ◌⊎◌, refl, List, [], ◌∷◌, Option, true,
  false, ◌==◌, some, arith, length, set, replicate, inl, inr, Bool-cases, length-set,
  length-replicate, Option-cases,
}
use native.Mathlib.Nat.{mod-lt}
use arnm.Result.{success, is_success, error_invalid_state}
use arnm.Memory.Machine.{Machine, Host}
use arnm.Memory.Api.{Arnm, alloc}
use arnm.KeyMap.{
  KeySlot, KeyMap, refused, slot_at, is_free, free_slot, first_free, place_all, rebuild,
}
use arnm.KeyMap.Capacity.{IsCapacity}
use arnm.KeyMap.Probing.{used, first_free-stops}
use arnm.KeyMap.Placing.{IsReached, IsPlaced, first_free-IsReached, IsPlaced-set, used-set}

-- A table with as many slots as its capacity says, in the order that probing relies on, with `n` of
-- its slots used.
pub record IsTable (slots : List KeySlot) (capacity n : ℕ) : Type 0 where
  pub whole : length slots ≡ capacity
  pub placed : IsPlaced slots capacity
  pub counted : used slots ≡ n

slot_at-empty : (n i : ℕ) → slot_at (replicate n free_slot) i ≡ free_slot
unfolding slot_at
slot_at-empty zero i = refl
slot_at-empty (suc n) zero = refl
slot_at-empty (suc n) (suc i) = slot_at-empty n i

used-empty : (n : ℕ) → used (replicate n free_slot) ≡ 0
used-empty zero = refl
used-empty (suc n) = used-empty n

pub IsTable-empty : (capacity : ℕ) → IsTable (replicate capacity free_slot) capacity 0
IsTable-empty capacity = record {
  whole = length-replicate capacity free_slot;
  placed =
      λ p below full. absurd (let f = rw (slot_at-empty capacity p) at full in ground (arith, f));
  counted = used-empty capacity;
}

set_whole :
    (slots : List KeySlot) (i : ℕ) (s : KeySlot)
    → IsPlaced slots (length slots)
    → i < length slots
    → is_free (slot_at slots i) ≡ true
    → is_free s ≡ false
    → IsReached slots (length slots) (s.hash % length slots) i
    → IsTable (set slots i s) (length slots) (suc (used slots))
set_whole slots i s placed inside vacant taken reached = record {
  whole = length-set slots i s;
  placed = IsPlaced-set slots i s inside taken placed reached;
  counted = used-set slots i s inside vacant taken;
}

-- A free slot that the home of an entry leads to takes it.
pub IsTable-set :
    (slots : List KeySlot) (capacity n i : ℕ) (s : KeySlot)
    → IsTable slots capacity n
    → i < capacity
    → is_free (slot_at slots i) ≡ true
    → is_free s ≡ false
    → IsReached slots capacity (s.hash % capacity) i
    → IsTable (set slots i s) capacity (suc n)
IsTable-set slots capacity n i s t below vacant taken reached =
    let placed : IsPlaced slots (length slots) = rw t.whole t.placed in
    let inside : i < length slots = rw t.whole below in
    let led : IsReached slots (length slots) (s.hash % length slots) i = rw t.whole reached in
    rw (← t.whole, ← t.counted) (set_whole slots i s placed inside vacant taken led)

-- The slot that the loop to the first free one finds is such a slot.
pub first_free-IsPlace :
    (slots : List KeySlot) (capacity n hash : ℕ)
    → IsTable slots capacity n
    → n < capacity
    → (let i = first_free capacity slots capacity (hash % capacity) in
        (i < capacity)
        × (is_free (slot_at slots i) ≡ true)
        × IsReached slots capacity (hash % capacity) i)
first_free-IsPlace slots capacity n hash t room =
    let short : used slots < length slots = omega (arith, t.whole, t.counted) in
    let at_home = mod-lt hash {m = length slots} (omega arith) in
    let (vacant, inside) = first_free-stops slots (hash % length slots) short at_home in
    let reached = first_free-IsReached slots (hash % length slots) short at_home in
    rw (← t.whole) (inside, vacant, reached)

-- The loop of rebuild moves every entry.
place_all-IsTable :
    (old slots : List KeySlot) (capacity n : ℕ)
    → IsTable slots capacity n
    → n + used old < capacity
    → IsTable (place_all old capacity slots) capacity (n + used old)
unfolding place_all
place_all-IsTable [] slots capacity n t room = let sum : n + 0 ≡ n = omega arith in rw sum t
place_all-IsTable (s ∷ old) slots capacity n t room = elim (Bool-cases (is_free s)) [
  | inl empty ↦ rw empty (place_all-IsTable old slots capacity n t (rw empty at room))
  | inr taken ↦
      let below : n + suc (used old) < capacity = rw taken at room in
      let i = first_free capacity slots capacity (s.hash % capacity) in
      let (inside, vacant, reached) = first_free-IsPlace slots capacity n s.hash t (omega arith) in
      let sum : suc n + used old ≡ n + suc (used old) = omega arith in
      rw (taken, ← sum)
        (place_all-IsTable old (set slots i s) capacity (suc n)
          (IsTable-set slots capacity n i s t inside vacant taken reached) (omega arith))
]

success_succeeds : is_success success ≡ true
unfolding is_success
success_succeeds = refl

invalid_state_fails : is_success error_invalid_state ≡ false
unfolding is_success
invalid_state_fails = refl

module _ {A H : Type 0} (os : Host H) (junk : A) where
  -- What rebuild leaves: a table of `capacity` slots with every entry of the old one, or the map as
  -- it was. The keys are not read.
  pub rebuild-IsTable :
      (map : KeyMap A) (capacity : ℕ) (m : Option Arnm) (w : Machine H)
      → used map.slots < capacity
      → (let g = rebuild os junk map capacity m w in
          ((is_success g.result ≡ true)
            × IsTable g.map.slots capacity (used map.slots)
            × (g.map.capacity ≡ capacity)
            × (g.map.keys ≡ map.keys))
          ⊎ ((is_success g.result ≡ false) × (g.map ≡ map)))
  unfolding rebuild
  rebuild-IsTable map capacity m w room =
      let r = alloc os (some 0) (capacity * 8 % 4294967296) m w in
      let empty : 0 + used map.slots ≡ used map.slots = omega arith in
      let t = rw empty at (
        place_all-IsTable map.slots (replicate capacity free_slot) capacity 0
          (IsTable-empty capacity) (rw empty room)) in
      elim (Bool-cases (is_success r.result)) [
        | inr refused ↦ rw refused (inr (refused, refl))
        | inl served ↦ elim (Option-cases r.buffer) [
          | inl missing ↦ rw (served, missing) (inr (invalid_state_fails, refl))
          | inr (p, found) ↦ elim (Bool-cases (map.block == 0)) [
            | inl first ↦ rw (served, found, first) (inl (success_succeeds, t, refl, refl))
            | inr later ↦ rw (served, found, later) (inl (success_succeeds, t, refl, refl))
          ]
        ]
      ]

-- What the calls that insert keep: a table in order with one used slot for every key, within the
-- load limit.
pub record IsSettled {A : Type 0} (map : KeyMap A) : Type 0 where
  pub table : IsTable map.slots map.capacity map.keys.size
  pub sized : (map.capacity ≡ 0) ⊎ IsCapacity map.capacity
  pub small : map.capacity ≤ 268435456
  pub loaded : map.keys.size ≤ map.capacity - map.capacity / 4
