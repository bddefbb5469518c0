-- ===== src/KeyMap/Lookup.antt =====
-- What arnm_key_map_find answers of a key map whose table is in order.
use arnm.Base.{
  ℕ, zero, suc, ◌+◌, ◌%◌, ◌<◌, ◌≡◌, ◌⊎◌, refl, sym, ap, ◌∙◌, Bool, true, false, ◌==◌, not, ◌&&◌,
  none, some, arith, length, inl, inr, Bool-cases,
}
use native.Mathlib.Nat.{mod-eq_of_lt, mod-lt}
use arnm.KeyMap.{KeyMap, slot_at, is_free, holds_key, probe_from, probe, find}
use arnm.KeyMap.Probing.{used, onward, nearer, some_free, reach, probe-stops}
use arnm.KeyMap.Placing.{IsReached, longer}
use arnm.KeyMap.Table.{IsTable}

module _ {A : Type 0} (same : A → A → Bool) (slot_hash : A → ℕ) (map : KeyMap A) (key : A)
    (hash : ℕ) where
  probe_from-way :
      (rounds index d : ℕ)
      → d < rounds
      → index < map.capacity
      → is_free (slot_at map.slots ((index + d) % map.capacity)) ≡ true
      → (d0 : ℕ) × (d0 < rounds)
        × ((index + d0) % map.capacity ≡ probe_from same slot_hash rounds map key hash index)
        × ((e : ℕ) → e < d0 → is_free (slot_at map.slots ((index + e) % map.capacity)) ≡ false)
  unfolding probe_from
  probe_from-way zero index d lt at_home there = absurd (omega arith)
  probe_from-way (suc rounds) index d lt at_home there =
      let s = slot_at map.slots index in
      let sum : index + 0 ≡ index = omega arith in
      let here_way = ap (λ n. n % map.capacity) sum ∙ mod-eq_of_lt at_home in
      elim (Bool-cases (is_free s)) [
        | inl here ↦ rw here (0, omega arith, here_way, λ e none_before. absurd (omega arith))
        | inr taken ↦
            rw taken
              (elim (Bool-cases (s.hash == hash && holds_key same slot_hash map.keys s.id key)) [
                | inl found ↦
                    rw found (0, omega arith, here_way, λ e none_before. absurd (omega arith))
                | inr other ↦
                    let (d', lt', there') =
                      nearer map.slots map.capacity index d rounds lt at_home there taken in
                    let (d0, near, way, before) =
                      probe_from-way rounds ((index + 1) % map.capacity) d' lt'
                        (mod-lt (index + 1) (omega arith)) there' in
                    rw other (
                      suc d0,
                      omega arith,
                      sym (onward map.capacity index d0) ∙ way,
                      longer map.slots map.capacity index d0 at_home taken before,
                    )
              ])
      ]

  -- The slot where a probe ends is one that the key's home reaches.
  pub probe-IsReached :
      length map.slots ≡ map.capacity
      → used map.slots < map.capacity
      → IsReached map.slots map.capacity (hash % map.capacity) (probe same slot_hash map key hash)
  unfolding probe
  probe-IsReached whole room =
      let (p, below, there) = some_free map.slots (rw whole room) in
      let at_home = mod-lt hash {m = map.capacity} (omega arith) in
      let (d, near, way) = reach map.capacity (hash % map.capacity) p at_home (omega arith) in
      probe_from-way map.capacity (hash % map.capacity) d near at_home (rw way there)

  -- A probe does not pass a slot that names its key.
  probe_from-hits :
      (rounds index d : ℕ)
      → d < rounds
      → index < map.capacity
      → ((e : ℕ) → e < d → is_free (slot_at map.slots ((index + e) % map.capacity)) ≡ false)
      → (let s = slot_at map.slots ((index + d) % map.capacity) in
          (is_free s ≡ false)
          → (s.hash == hash && holds_key same slot_hash map.keys s.id key) ≡ true
          → is_free (slot_at map.slots (probe_from same slot_hash rounds map key hash index))
            ≡ false)
  unfolding probe_from
  probe_from-hits zero index d lt at_home before full matches = absurd (omega arith)
  probe_from-hits (suc rounds) index zero lt at_home before full matches =
      let sum : index + 0 ≡ index = omega arith in
      let here = ap (λ n. n % map.capacity) sum ∙ mod-eq_of_lt at_home in
      let full_here = rw here at full in rw (full_here, rw here at matches) full_here
  probe_from-hits (suc rounds) index (suc d) lt at_home before full matches =
      let s = slot_at map.slots index in
      let sum : index + 0 ≡ index = omega arith in
      let taken : is_free s ≡ false = rw (sum, mod-eq_of_lt at_home) at (before 0 (omega arith)) in
      elim (Bool-cases (s.hash == hash && holds_key same slot_hash map.keys s.id key)) [
        | inl found ↦ rw (taken, found) taken
        | inr other ↦
            rw (taken, other)
              (probe_from-hits rounds ((index + 1) % map.capacity) d (omega arith)
                (mod-lt (index + 1) (omega arith))
                (λ e less. rw (onward map.capacity index e) (before (suc e) (omega arith)))
                (rw (onward map.capacity index d) full) (rw (onward map.capacity index d) matches))
      ]

module _ {A : Type 0} (same : A → A → Bool) (slot_hash : A → ℕ) (map : KeyMap A) (key : A) where
  -- the slot names `key`
  abbrev pub names_key : ℕ → Bool
  names_key p =
      let s = slot_at map.slots p in
      not (is_free s) && (s.hash == slot_hash key && holds_key same slot_hash map.keys s.id key)

  -- no slot of the table names `key`
  abbrev pub IsAbsent : Type 0
  IsAbsent = (p : ℕ) → p < map.capacity → names_key p ≡ false

  probe-absent :
      (n : ℕ)
      → IsTable map.slots map.capacity n
      → n < map.capacity
      → is_free (slot_at map.slots (probe same slot_hash map key (slot_hash key))) ≡ true
      → IsAbsent
  unfolding probe
  probe-absent n t room vacant p below = elim (Bool-cases (names_key p)) [
    | inr other ↦ other
    | inl named ↦
        let s = slot_at map.slots p in
        let full : is_free s ≡ false = ground arith in
        let matches : (s.hash == slot_hash key && holds_key same slot_hash map.keys s.id key)
            ≡ true =
          ground arith in
        let hashed : s.hash ≡ slot_hash key = ground arith in
        let (d, near, way, before) = rw hashed at (t.placed p below full) in
        let at_home = mod-lt (slot_hash key) {m = map.capacity} (omega arith) in
        let hit =
          probe_from-hits same slot_hash map key (slot_hash key) map.capacity
            (slot_hash key % map.capacity) d near at_home before (rw way full) (rw way matches) in
        absurd (ground (arith, hit, vacant))
  ]

  -- arnm_key_map_find answers a number under which the key vector holds the key, or that there is
  -- none, and then no slot of the table names it. The table is in order and not full, or there is no
  -- table yet.
  pub find-IsAbsent :
      (n : ℕ)
      → IsTable map.slots map.capacity n
      → (map.capacity ≡ 0) ⊎ (n < map.capacity)
      → ((find same slot_hash map key ≡ none) × IsAbsent)
        ⊎ ((k : ℕ) × (find same slot_hash map key ≡ some k)
            × (holds_key same slot_hash map.keys k key ≡ true))
  unfolding find
  find-IsAbsent n t (inl tableless) =
      inl (ground (arith, tableless), λ p below. absurd (omega arith))
  find-IsAbsent n t (inr room) =
      let s = slot_at map.slots (probe same slot_hash map key (slot_hash key)) in
      let some_slots : (map.capacity == 0) ≡ false = ground arith in
      elim (Bool-cases (is_free s)) [
        | inl vacant ↦ rw (some_slots, vacant) (inl (refl, probe-absent n t room vacant))
        | inr taken ↦
            elim (probe-stops same slot_hash map key (slot_hash key) t.whole
              (omega (arith, t.counted))) [
                | inl vacant ↦ absurd (ground (arith, vacant, taken))
                | inr (hashed, held) ↦ rw (some_slots, taken) (inr (s.id, refl, held))
              ]
      ]
