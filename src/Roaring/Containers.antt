-- ===== src/Roaring/Containers.antt =====
-- src/roaring_bitmap.c: the bits of a container, and how a container and the directory grow.
use arnm.Base.{
  ℕ, ◌+◌, ◌-◌, ◌*◌, ◌/◌, ◌%◌, ◌^◌, List, [], ◌∷◌, ◌++◌, Bool, ltb, ◌==◌, if◌then◌else◌, get_or, set,
  take, replicate,
}
use arnm.Result.{Result, success, is_success, error_resource_exhausted}
use arnm.Roaring.{
  Contents, array, bitmap, Container, RoaringBitmap, bitmap_log2, log2_first, log2_for_bytes,
  value_of,
}
use arnm.Roaring.Pool.{BlockPool}

-- the bit `bit` of a word
abbrev pub test_bit : ℕ → ℕ → Bool
test_bit word bit = word / 2 ^ bit % 2 == 1

-- the bit of `low`: `words[low >> 6] >> (low & 63) & 1`
unfoldable pub has_bit : List ℕ → ℕ → Bool
has_bit words low = test_bit (get_or words (low / 64) 0) (low % 64)

-- `word | 1 << bit`
abbrev pub with_bit : ℕ → ℕ → ℕ
with_bit word bit = if test_bit word bit then word else word + 2 ^ bit

-- `words[low >> 6] |= 1ull << (low & 63u)`
unfoldable pub set_bit : ℕ → List ℕ → List ℕ
set_bit low words = set words (low / 64) (with_bit (get_or words (low / 64) 0) (low % 64))

-- the same for each low part of an array
unfoldable pub set_bits : List ℕ → List ℕ → List ℕ
set_bits [] words = words
set_bits (low ∷ lows) words = set_bits lows (set_bit low words)

-- arnm_roaring_array_of, whose block holds low parts
abbrev pub array_of : Contents → List ℕ
array_of (array lows) = lows
array_of (bitmap words) = []

-- what a call leaves: its result, the container or the set, and the pool
pub record Outcome (T S : Type 0) : Type 0 where
  pub result : Result
  pub out : T
  pub pool : S

module _ (P : BlockPool) where
  -- array_to_bitmap
  unfoldable pub array_to_bitmap : Container → ℕ → P.State → Outcome Container P.State
  array_to_bitmap last low p =
      let r = P.alloc_log2 p bitmap_log2 in
      if is_success r.result
      then record {
        result = success;
        out = record last {
          block = r.block;
          contents = bitmap (
              set_bit low
                (set_bits (take last.cardinality (array_of last.contents)) (replicate 1024 0)));
          block_log2 = bitmap_log2;
        };
        pool = P.free_log2 r.pool last.block last.block_log2;
      }
      else record { result = r.result; out = last; pool = r.pool }

  -- array_grow: the values in use move, the rest of the new block is not read
  unfoldable pub array_grow : Container → P.State → Outcome Container P.State
  array_grow last p =
      let log2 = (last.block_log2 + 1) % 256 in
      let r = P.alloc_log2 p log2 in
      if is_success r.result
      then record {
        result = success;
        out = record last {
          block = r.block;
          contents = array (take last.cardinality (array_of last.contents));
          block_log2 = log2;
        };
        pool = P.free_log2 r.pool last.block last.block_log2;
      }
      else record { result = r.result; out = last; pool = r.pool }

  -- The block of the directory when it is full: a first one, or one twice the size.
  unfoldable pub grow_directory : RoaringBitmap → P.State → Outcome RoaringBitmap P.State
  grow_directory set p =
      let log2 = if set.block == 0 then log2_first else (set.directory_log2 + 1) % 256 in
      let r = P.alloc_log2 p log2 in
      if is_success r.result
      then record {
        result = success;
        out = record set {
          block = r.block;
          containers = if set.block == 0 then [] else take set.count set.containers;
          directory_log2 = log2;
        };
        pool = if set.block == 0 then r.pool else P.free_log2 r.pool set.block set.directory_log2;
      }
      else record { result = r.result; out = set; pool = r.pool }

  -- arnm_roaring_push_container
  unfoldable pub push_container :
      RoaringBitmap → Container → P.State → Outcome RoaringBitmap P.State
  push_container set container p =
      let capacity = if set.block == 0 then 0 else 2 ^ set.directory_log2 / 16 in
      let g =
        if set.count == capacity
        then grow_directory set p
        else record { result = success; out = set; pool = p } in
      if is_success g.result
      then record g {
        out = record g.out {
          containers = take g.out.count g.out.containers ++ container ∷ [];
          count = (g.out.count + 1) % 4294967296;
        };
      }
      else g

  -- What the callers of push_container do: with a refusal the new container's block goes back.
  unfoldable pub push_or_free : RoaringBitmap → Container → P.State → Outcome RoaringBitmap P.State
  push_or_free set container p =
      let r = push_container set container p in
      if is_success r.result
      then r
      else record r { pool = P.free_log2 r.pool container.block container.block_log2 }

  -- arnm_roaring_emit_array
  unfoldable pub emit_array :
      RoaringBitmap → ℕ → List ℕ → ℕ → P.State → Outcome RoaringBitmap P.State
  emit_array set key lows count p =
      if count == 0
      then record { result = success; out = set; pool = p }
      else if ltb (4294967295 - count) set.cardinality
      then record { result = error_resource_exhausted; out = set; pool = p }
      else let log2 = log2_for_bytes (count * 2 % 4294967296) in
        let r = P.alloc_log2 p log2 in
        let container : Container = record {
          block = r.block;
          contents = array (take count lows);
          cardinality = count;
          key = key;
          block_log2 = log2;
        } in
        if is_success r.result
        then (let g = push_or_free set container r.pool in
            if is_success g.result
            then record g {
              out = record g.out {
                cardinality = (g.out.cardinality + count) % 4294967296;
                maximum = value_of key (get_or lows (count - 1) 0);
              };
            }
            else g)
        else record { result = r.result; out = set; pool = r.pool }
