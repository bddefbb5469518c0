-- ===== src/KeyMap/Reserving.antt =====
-- arnm_key_map_reserve of src/key_map.c: room for keys, in the vector and in the table.
use arnm.Base.{
  ℕ, ◌≤◌, ◌<◌, ◌≡◌, ◌⊎◌, refl, ap, ◌∙◌, Option, false, ltb, leb, ◌==◌, if◌then◌else◌, arith, inl,
  inr, Bool-cases,
}
use arnm.Result.{
  success, is_success, error_invalid_param, error_invalid_state, error_arithmetic_overflow,
}
use arnm.Memory.Machine.{Machine, Host}
use arnm.Memory.Api.{Arnm}
use arnm.BucketVector.Growth.{reserve}
use arnm.BucketVector.Sizes.{reserve-size}
use arnm.KeyMap.{
  KeyMap, Inserted, refused, load_limit, max_keys, capacity_for, rebuild, reserve_keys,
}
use arnm.KeyMap.Capacity.{capacity_for-IsCapacity, capacity_bounds}
use arnm.KeyMap.Table.{IsSettled, rebuild-IsTable}

module _ {A H : Type 0} (os : Host H) (junk : A) (map : KeyMap A) (n : ℕ) where
  -- A map in order, with as many keys as before and, on success, room for `n`.
  abbrev pub IsRoomy : Inserted A H → Type 0
  IsRoomy g =
      IsSettled g.map
      × (g.map.keys.size ≡ map.keys.size)
      × ((is_success g.result ≡ false) ⊎ (n ≤ load_limit g.map.capacity))

  -- the answers in front of any change
  refusals :
      (is_success error_invalid_param ≡ false)
      × (is_success error_invalid_state ≡ false)
      × (is_success error_arithmetic_overflow ≡ false)
  unfolding is_success
  refusals = (refl, refl, refl)

  -- the table, behind the vector
  room_in_table :
      (map' : KeyMap A) (m : Option Arnm) (w : Machine H)
      → IsSettled map'
      → map'.keys.size ≡ map.keys.size
      → n ≤ max_keys
      → IsRoomy (
          if leb (capacity_for n) map'.capacity
          then refused success map' m w
          else rebuild os junk map' (capacity_for n) m w)
  room_in_table map' m w ok kept few =
      let (c, enough) = capacity_for-IsCapacity n few in
      let (eight, most) = capacity_bounds (capacity_for n) c in
      elim (Bool-cases (leb (capacity_for n) map'.capacity)) [
        | inl there ↦ rw there (ok, kept, inr (ground arith))
        | inr fewer ↦
            let less : map'.capacity < capacity_for n = ground arith in
            rw fewer
              (elim (rebuild-IsTable os junk map' (capacity_for n) m w
                (omega (arith, ok.table.counted, ok.loaded))) [
                  | inr (failed, same) ↦
                      (rw same ok, ap (λ (u : KeyMap A). u.keys.size) same ∙ kept, inl failed)
                  | inl (served, t, wide, unread) ↦ (
                    record {
                      table = rw (wide, unread) (rw ok.table.counted at t);
                      sized = inr (rw wide c);
                      small = rw wide most;
                      loaded = rw (wide, unread) (omega (arith, ok.loaded));
                    },
                    rw unread kept,
                    inr (rw wide enough),
                  )
                ])
      ]

  -- arnm_key_map_reserve keeps the table of a map in order, and its count of keys, whatever the
  -- allocator answers; where it answers success the table takes `n` keys before it has to grow.
  pub reserve_keys-IsSettled :
      (m : Option Arnm) (w : Machine H) → IsSettled map → IsRoomy (reserve_keys os junk map n m w)
  unfolding reserve_keys
  reserve_keys-IsSettled m w ok =
      let (param_fails, state_fails, overflow_fails) = refusals in
      let g = reserve os junk map.keys n m w in
      let size = reserve-size os junk map.keys n m w in
      let kept : IsSettled (record map { keys = g.vector }) = record {
        table = rw size ok.table;
        sized = ok.sized;
        small = ok.small;
        loaded = rw size ok.loaded;
      } in
      elim (Bool-cases (n == 0)) [
        | inl nothing ↦ rw nothing (ok, refl, inl param_fails)
        | inr something ↦ rw something (elim (Bool-cases (map.keys.element_size == 0)) [
          | inl sizeless ↦ rw sizeless (ok, refl, inl state_fails)
          | inr sized ↦ rw sized (elim (Bool-cases (ltb max_keys n)) [
            | inl many ↦ rw many (ok, refl, inl overflow_fails)
            | inr few ↦ rw few (elim (Bool-cases (is_success g.result)) [
              | inr failed ↦ rw failed (kept, size, inl failed)
              | inl served ↦ rw served (
                  room_in_table (record map { keys = g.vector }) g.allocator g.machine kept size
                    (ground arith))
            ])
          ])
        ])
      ]
