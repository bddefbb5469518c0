-- ===== src/KeyMap/Inserting.antt =====
-- The calls of src/key_map.c that insert keep the table in order.
use arnm.Base.{
  ℕ, suc, ◌+◌, ◌*◌, ◌%◌, ◌<◌, ◌≡◌, ◌⊎◌, ◌≢◌, refl, List, Option, Bool, true, false, leb, ◌==◌,
  if◌then◌else◌, some, arith, inl, inr, Bool-cases, add32,
}
use native.Mathlib.Decide.{ℕ_discrete}
use native.Mathlib.Nat.{mod-lt}
use arnm.Result.{is_success}
use arnm.Memory.Machine.{Machine, Host}
use arnm.Memory.Api.{Arnm}
use arnm.BucketVector.Growth.{push_ptr}
use arnm.BucketVector.Sizes.{push_ptr-IsCounted}
use arnm.KeyMap.{
  KeySlot, KeyMap, Inserted, slot_at, is_free, first_free, load_limit, max_capacity, min_capacity,
  rebuild, store_key, insert_absent, get_or_insert, probe,
}
use arnm.KeyMap.Capacity.{IsCapacity, IsCapacity-double, capacity_bounds}
use arnm.KeyMap.Probing.{used}
use arnm.KeyMap.Placing.{IsReached}
use arnm.KeyMap.Table.{IsTable, IsTable-set, first_free-IsPlace, IsSettled, rebuild-IsTable}
use arnm.KeyMap.Lookup.{probe-IsReached}

-- A free slot where the home of `hash` leads.
abbrev pub IsPlace : {A : Type 0} → KeyMap A → ℕ → ℕ → Type 0
IsPlace map hash index =
    (index < map.capacity)
    × (is_free (slot_at map.slots index) ≡ true)
    × IsReached map.slots map.capacity (hash % map.capacity) index

-- a table has room behind every load limit
pub probe_room :
    {A : Type 0} (map : KeyMap A) → IsSettled map → map.capacity ≢ 0 → used map.slots < map.capacity
probe_room map ok there = elim ok.sized [
  | inl tableless ↦ absurd (there tableless)
  | inr c ↦
      let (eight, most) = capacity_bounds map.capacity c in
      omega (arith, ok.table.counted, ok.loaded)
]

reached_below :
    (slots : List KeySlot) (capacity index p : ℕ) → IsReached slots capacity index p → p < capacity
reached_below slots capacity index p (d, near, way, before) =
    rw (← way) (mod-lt (index + d) (omega arith))

IsSettled-answer :
    {A H : Type 0} (g : Inserted A H)
    → IsSettled g.map
    → IsSettled (if is_success g.result then record g { inserted = some true } else g).map
IsSettled-answer g ok = elim (Bool-cases (is_success g.result)) [
  | inl served ↦ rw served ok
  | inr failed ↦ rw failed ok
]

module _ {A H : Type 0} (os : Host H) (junk : A) where
  store_key-IsSettled :
      (map : KeyMap A) (key : A) (hash index : ℕ) (m : Option Arnm) (w : Machine H)
      → IsSettled map
      → map.keys.size < load_limit map.capacity
      → IsPlace map hash index
      → IsSettled (store_key os junk map key hash index m w).map
  unfolding store_key
  store_key-IsSettled map key hash index m w ok room (below, vacant, reached) =
      let g = push_ptr os junk map.keys key m w in
      let sizes = push_ptr-IsCounted os junk map.keys key m w in
      let more : add32 map.keys.size 1 ≡ suc map.keys.size = omega (arith, ok.small) in
      elim (Bool-cases (is_success g.result)) [
        | inr failed ↦
            let same = rw failed at sizes in
            rw failed (record {
              table = rw same ok.table;
              sized = ok.sized;
              small = ok.small;
              loaded = rw same ok.loaded;
            })
        | inl served ↦
            let counted = rw (served, more) at sizes in
            let s : KeySlot = record { hash = hash; id = map.keys.size } in
            let few : map.keys.size < 4294967295 = omega (arith, ok.small) in
            let taken : is_free s ≡ false = ground arith in
            let t =
              IsTable-set map.slots map.capacity map.keys.size index s ok.table below vacant taken
                reached in
            rw served (record {
              table = rw counted t;
              sized = ok.sized;
              small = ok.small;
              loaded = rw counted room;
            })
      ]

  -- the table of an insert that goes past the load limit
  wider_table :
      (map : KeyMap A)
      → IsSettled map
      → leb max_capacity map.capacity ≡ false
      → (let wider = if map.capacity == 0 then min_capacity else map.capacity * 2 % 4294967296 in
          IsCapacity wider × (map.keys.size < load_limit wider))
  wider_table map ok less = elim (ℕ_discrete map.capacity 0) [
    | yes tableless ↦
        let first : (map.capacity == 0) ≡ true = ground arith in
        rw first ((3, omega arith, omega arith, refl), omega (arith, ok.loaded))
    | no there ↦ elim ok.sized [
      | inl tableless ↦ absurd (there tableless)
      | inr c ↦
          let later : (map.capacity == 0) ≡ false = ground arith in
          let below : map.capacity < 268435456 = ground arith in
          rw later (IsCapacity-double map.capacity c below, omega (arith, ok.loaded))
    ]
  ]

  -- insert_absent behind a rebuild
  rebuilt-IsSettled :
      (map : KeyMap A) (wider : ℕ) (key : A) (hash : ℕ) (m : Option Arnm) (w : Machine H)
      → IsSettled map
      → IsCapacity wider
      → map.keys.size < load_limit wider
      → (let g = rebuild os junk map wider m w in
          IsSettled
            (if is_success g.result
              then store_key os junk g.map key hash
                  (first_free g.map.capacity g.map.slots g.map.capacity (hash % g.map.capacity))
                  g.allocator
                  g.machine
              else g).map)
  rebuilt-IsSettled map wider key hash m w ok c room =
      let g = rebuild os junk map wider m w in
      let (eight, most) = capacity_bounds wider c in
      elim (rebuild-IsTable os junk map wider m w (omega (arith, ok.table.counted))) [
        | inr (failed, same) ↦ rw failed (rw same ok)
        | inl (served, t, wide, unread) ↦
            let whole : IsTable g.map.slots g.map.capacity g.map.keys.size =
              rw (wide, unread) (rw ok.table.counted at t) in
            let settled : IsSettled g.map = record {
              table = whole;
              sized = inr (rw wide c);
              small = rw wide most;
              loaded = rw (wide, unread) (omega arith);
            } in
            let short : g.map.keys.size < load_limit g.map.capacity = rw (wide, unread) room in
            let place =
              first_free-IsPlace g.map.slots g.map.capacity g.map.keys.size hash whole
                (omega arith) in
            rw served (
              store_key-IsSettled g.map key hash
                (first_free g.map.capacity g.map.slots g.map.capacity (hash % g.map.capacity))
                g.allocator g.machine settled short place)
      ]

  -- insert_absent, for the slot that a probe found
  insert_absent-IsSettled :
      (map : KeyMap A) (key : A) (hash index : ℕ) (m : Option Arnm) (w : Machine H)
      → IsSettled map
      → (map.capacity ≡ 0) ⊎ IsPlace map hash index
      → IsSettled (insert_absent os junk map key hash index m w).map
  unfolding insert_absent
  insert_absent-IsSettled map key hash index m w ok place =
      let wider = if map.capacity == 0 then min_capacity else map.capacity * 2 % 4294967296 in
      let g = rebuild os junk map wider m w in
      elim (Bool-cases (leb (load_limit map.capacity) map.keys.size)) [
        | inr room ↦ elim place [
          | inl tableless ↦ absurd (ground (arith, room, tableless))
          | inr there ↦ rw room (store_key-IsSettled map key hash index m w ok (ground arith) there)
        ]
        | inl full ↦ rw full (elim (Bool-cases (leb max_capacity map.capacity)) [
          | inl most ↦ rw most ok
          | inr less ↦ rw less (
              rebuilt-IsSettled map wider key hash m w ok (wider_table map ok less).0
                (wider_table map ok less).1)
        ])
      ]

  -- arnm_key_map_get_or_insert keeps the table of a map in order, with one used slot for each key
  -- and within the load limit, whatever the allocator answers and whether or not the call succeeds.
  pub get_or_insert-IsSettled :
      (same : A → A → Bool) (slot_hash : A → ℕ) (map : KeyMap A) (key : A) (m : Option Arnm)
      (w : Machine H)
      → IsSettled map
      → IsSettled (get_or_insert os junk same slot_hash map key m w).map
  unfolding get_or_insert
  get_or_insert-IsSettled same slot_hash map key m w ok =
      let hash = slot_hash key in
      let probed = probe same slot_hash map key hash in
      elim (Bool-cases (map.keys.element_size == 0)) [
        | inl sizeless ↦ rw sizeless ok
        | inr sized ↦ rw sized (elim (ℕ_discrete map.capacity 0) [
          | yes tableless ↦
              let none_yet : (map.capacity == 0) ≡ true = ground arith in
              rw none_yet (
                IsSettled-answer (insert_absent os junk map key hash 0 m w)
                  (insert_absent-IsSettled map key hash 0 m w ok (inl tableless)))
          | no there ↦
              let some_yet : (map.capacity == 0) ≡ false = ground arith in
              let room : used map.slots < map.capacity = probe_room map ok there in
              rw some_yet (elim (Bool-cases (is_free (slot_at map.slots probed))) [
                | inr taken ↦ rw taken ok
                | inl vacant ↦
                    let reached = probe-IsReached same slot_hash map key hash ok.table.whole room in
                    let below : probed < map.capacity =
                      reached_below map.slots map.capacity (hash % map.capacity) probed reached in
                    rw vacant (
                      IsSettled-answer (insert_absent os junk map key hash probed m w) (
                        insert_absent-IsSettled map key hash probed m w ok
                          (inr (below, vacant, reached))))
              ])
        ])
      ]
