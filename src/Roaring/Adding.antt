-- ===== src/Roaring/Adding.antt =====
-- src/roaring_bitmap.c: a set is built by adding its numbers in order. A sparse set that is full
-- turns into containers. The NULL checks of arnm_roaring_add and arnm_roaring_free are left out: the set
-- and the pool are there.
use arnm.Base.{
  ℕ, zero, suc, ◌+◌, ◌-◌, ◌/◌, ◌%◌, ◌^◌, List, [], ◌∷◌, ◌++◌, Option, none, some, ltb, ◌==◌,
  if◌then◌else◌, get_elem?, get_or, ◌*◌, set, take, length,
}
use arnm.Result.{success, is_success, error_invalid_param, error_resource_exhausted}
use arnm.Roaring.{
  array, bitmap, Container, RoaringBitmap, empty_set, is_sparse, sparse_max, array_max, log2_first,
  log2_for_bytes, key_of, low_of,
}
use arnm.Roaring.Pool.{BlockPool}
use arnm.Roaring.Containers.{
  Outcome, array_of, set_bit, array_to_bitmap, array_grow, push_or_free, emit_array,
}

-- The inner loop of arnm_roaring_values_to_containers: the low parts at the front of the values
-- whose key is `key`, and the values behind them.
unfoldable pub run_of : ℕ → List ℕ → List ℕ × List ℕ
run_of key [] = ([], [])
run_of key (v ∷ vs) =
    let (lows, rest) = run_of key vs in
    if key_of v == key then (low_of v ∷ lows, rest) else ([], v ∷ vs)

-- `&set->containers[set->count - 1u]`, when there is one
unfoldable pub last_container : RoaringBitmap → Option Container
last_container s = if s.count == 0 then none else get_elem? s.containers (s.count - 1)

module _ (P : BlockPool) where
  -- arnm_roaring_free
  unfoldable pub free_containers : List Container → P.State → P.State
  free_containers [] p = p
  free_containers (c ∷ cs) p = free_containers cs (P.free_log2 p c.block c.block_log2)

  unfoldable pub free_set : RoaringBitmap → P.State → RoaringBitmap × P.State
  free_set s p =
      if is_sparse s
      then (empty_set, if s.block == 0 then p else P.free_log2 p s.block s.directory_log2)
      else (
        empty_set,
        P.free_log2 (free_containers (take s.count s.containers) p) s.block s.directory_log2,
      )

  -- The outer loop of arnm_roaring_values_to_containers, one round for each key and `rounds` at most.
  unfoldable pub emit_runs : ℕ → RoaringBitmap → List ℕ → P.State → Outcome RoaringBitmap P.State
  emit_runs rounds out [] p = record { result = success; out = out; pool = p }
  emit_runs zero out (v ∷ vs) p = record { result = success; out = out; pool = p }
  emit_runs (suc rounds) out (v ∷ vs) p =
      let (lows, rest) = run_of (key_of v) (v ∷ vs) in
      let r = emit_array P out (key_of v) lows (length lows) p in
      let done = emit_runs rounds r.out rest r.pool in if is_success r.result then done else r

  -- arnm_roaring_values_to_containers
  unfoldable pub values_to_containers :
      RoaringBitmap → List ℕ → ℕ → P.State → Outcome RoaringBitmap P.State
  values_to_containers out values count p = emit_runs count out (take count values) p

  -- sparse_to_containers
  unfoldable pub sparse_to_containers : RoaringBitmap → P.State → Outcome RoaringBitmap P.State
  sparse_to_containers s p =
      let built = values_to_containers empty_set s.values s.cardinality p in
      if is_success built.result
      then record built { pool = P.free_log2 built.pool s.block s.directory_log2 }
      else record { result = built.result; out = s; pool = (free_set built.out built.pool).1 }

  -- arnm_roaring_values_result
  unfoldable pub values_result :
      RoaringBitmap → List ℕ → ℕ → P.State → Outcome RoaringBitmap P.State
  values_result out values count p =
      if count == 0
      then record { result = success; out = out; pool = p }
      else if ltb sparse_max count
      then values_to_containers out values count p
      else let log2 = log2_for_bytes (count * 4 % 4294967296) in
        let r = P.alloc_log2 p log2 in
        if is_success r.result
        then record {
          result = success;
          out = record out {
            block = r.block;
            values = take count values;
            directory_log2 = log2;
            cardinality = count;
            maximum = get_or values (count - 1) 0;
          };
          pool = r.pool;
        }
        else record { result = r.result; out = out; pool = r.pool }

  -- The block of a sparse set when it is full: a first one, or one twice the size.
  unfoldable pub grow_values : RoaringBitmap → P.State → Outcome RoaringBitmap P.State
  grow_values s p =
      let log2 = if s.block == 0 then log2_first else (s.directory_log2 + 1) % 256 in
      let r = P.alloc_log2 p log2 in
      if is_success r.result
      then record {
        result = success;
        out = record s {
          block = r.block;
          values = if s.block == 0 then [] else take s.cardinality s.values;
          directory_log2 = log2;
        };
        pool = if s.block == 0 then r.pool else P.free_log2 r.pool s.block s.directory_log2;
      }
      else record { result = r.result; out = s; pool = r.pool }

  -- sparse_add
  unfoldable pub sparse_add : RoaringBitmap → ℕ → P.State → Outcome RoaringBitmap P.State
  sparse_add s value p =
      let capacity = if s.block == 0 then 0 else 2 ^ s.directory_log2 / 4 in
      let g =
        if s.cardinality == capacity
        then grow_values s p
        else record { result = success; out = s; pool = p } in
      if is_success g.result
      then record g {
        out = record g.out {
          values = take g.out.cardinality g.out.values ++ value ∷ [];
          cardinality = (g.out.cardinality + 1) % 4294967296;
          maximum = value;
        };
      }
      else g

  -- The low part goes into an array that has room, or gets it.
  unfoldable pub array_add : Container → ℕ → P.State → Outcome Container P.State
  array_add last low p =
      let g =
        if last.cardinality == 2 ^ last.block_log2 / 2
        then array_grow P last p
        else record { result = success; out = last; pool = p } in
      if is_success g.result
      then record g {
        out = record g.out {
          contents = array (take g.out.cardinality (array_of g.out.contents) ++ low ∷ []);
        };
      }
      else g

  -- The low part goes into the last container; the count of it follows.
  unfoldable pub last_add : Container → ℕ → P.State → Outcome Container P.State
  last_add last low p =
      let r : Outcome Container P.State = elim last.contents [
        | bitmap words ↦ record {
          result = success;
          out = record last { contents = bitmap (set_bit low words) };
          pool = p;
        }
        | array lows ↦
            if last.cardinality == array_max
            then array_to_bitmap P last low p
            else array_add last low p
      ] in
      if is_success r.result
      then record r { out = record r.out { cardinality = (r.out.cardinality + 1) % 4294967296 } }
      else r

  -- A container of its own for the low part, at the end of the directory.
  unfoldable pub new_container : RoaringBitmap → ℕ → ℕ → P.State → Outcome RoaringBitmap P.State
  new_container s key low p =
      let r = P.alloc_log2 p log2_first in
      let container : Container = record {
        block = r.block;
        contents = array (low ∷ []);
        cardinality = 1;
        key = key;
        block_log2 = log2_first;
      } in
      if is_success r.result
      then push_or_free P s container r.pool
      else record { result = r.result; out = s; pool = r.pool }

  -- The part of arnm_roaring_add that finds the container of the value: the last one, or a new one.
  unfoldable pub place_low : RoaringBitmap → ℕ → ℕ → P.State → Outcome RoaringBitmap P.State
  place_low s key low p = elim (last_container s) [
    | none ↦ new_container s key low p
    | some last ↦
        if last.key == key
        then (let r = last_add last low p in
            record {
              result = r.result;
              out = record s { containers = set s.containers (s.count - 1) r.out };
              pool = r.pool;
            })
        else new_container s key low p
  ]

  -- The end of arnm_roaring_add: the count and the maximum of the set.
  unfoldable pub container_add : RoaringBitmap → ℕ → P.State → Outcome RoaringBitmap P.State
  container_add s value p =
      let r = place_low s (key_of value) (low_of value) p in
      if is_success r.result
      then record r {
        out = record r.out { cardinality = (r.out.cardinality + 1) % 4294967296; maximum = value };
      }
      else r

  -- arnm_roaring_add behind its checks of the maximum
  unfoldable pub append : RoaringBitmap → ℕ → P.State → Outcome RoaringBitmap P.State
  append s value p =
      if is_sparse s
      then if ltb s.cardinality sparse_max
        then sparse_add s value p
        else (let r = sparse_to_containers s p in
            if is_success r.result then container_add r.out value r.pool else r)
      else container_add s value p

  -- arnm_roaring_add
  unfoldable pub add : RoaringBitmap → ℕ → P.State → Outcome RoaringBitmap P.State
  add s value p =
      if s.cardinality == 0
      then append s value p
      else if ltb value s.maximum
      then record { result = error_invalid_param; out = s; pool = p }
      else if value == s.maximum
      then record { result = success; out = s; pool = p }
      else if s.cardinality == 4294967295
      then record { result = error_resource_exhausted; out = s; pool = p }
      else append s value p
