-- ===== src/Roaring.antt =====
-- src/roaring_intern.h and include/arnm/roaring_bitmap.h: the layout of a set of 32 bit numbers. A
-- set is sparse, one sorted array, or a directory of containers by the upper 16 bits of a number. A
-- pool block is its address, 0 for NULL; what the code wrote into it is kept beside it, as the list
-- of the values in use. `values` and `containers` are one union there, told apart by `count`: the
-- one that is not in use is empty here.
mod Tests
pub mod Pool
pub mod Pooled
pub mod Search
pub mod Containers
pub mod Adding
pub mod Ascending
pub mod Counting
pub mod Keys
pub mod Reads
pub mod Bits
pub mod Elements
pub mod Contains
pub mod Directory
pub mod Filling
pub mod Sparse
pub mod Converting
pub mod Runs
pub mod Inserting
pub mod Appending
pub mod Building
pub mod Edges
pub mod Results
use arnm.Base.{
  ℕ, zero, suc, ◌+◌, ◌*◌, ◌/◌, ◌%◌, ◌^◌, List, [], ◌∷◌, ◌++◌, Bool, true, false, ltb, leb, ◌==◌,
  if◌then◌else◌, map,
}

-- ARNM_ROARING_ARRAY_MAX
abbrev pub array_max : ℕ
array_max = 4096

-- ARNM_ROARING_SPARSE_MAX
abbrev pub sparse_max : ℕ
sparse_max = 1024

-- ROARING_BITMAP_LOG2
abbrev pub bitmap_log2 : ℕ
bitmap_log2 = 13

-- ROARING_ARRAY_LOG2_FIRST, and ROARING_DIRECTORY_LOG2_FIRST and ROARING_SPARSE_LOG2_FIRST
abbrev pub log2_first : ℕ
log2_first = 4

-- what `data` points at, by `kind`: low parts, or the words of bits
pub data Contents : Type 0 where
  array : List ℕ → Contents
  bitmap : List ℕ → Contents

-- `arnm_roaring_container`
pub record Container : Type 0 where
  pub block : ℕ
  pub contents : Contents
  pub cardinality : ℕ
  pub key : ℕ
  pub block_log2 : ℕ

-- `arnm_roaring_bitmap`
pub record RoaringBitmap : Type 0 where
  pub block : ℕ
  pub values : List ℕ
  pub containers : List Container
  pub cardinality : ℕ
  pub maximum : ℕ
  pub count : ℕ
  pub directory_log2 : ℕ

-- a zeroed set, which is what arnm_roaring_init leaves
abbrev pub empty_set : RoaringBitmap
empty_set = record {
  block = 0;
  values = [];
  containers = [];
  cardinality = 0;
  maximum = 0;
  count = 0;
  directory_log2 = 0;
}

-- arnm_roaring_is_sparse
abbrev pub is_sparse : RoaringBitmap → Bool
is_sparse set = set.count == 0

-- arnm_roaring_key_of and low_of: the halves of a 32 bit value
abbrev pub key_of : ℕ → ℕ
key_of value = value / 65536 % 65536

abbrev pub low_of : ℕ → ℕ
low_of value = value % 65536

-- arnm_roaring_value_of: `low` is below 2 ^ 16, so the or of the halves is their sum
abbrev pub value_of : ℕ → ℕ → ℕ
value_of key low = key * 65536 + low

-- The loop of arnm_roaring_log2_for_bytes, `rounds` of it at most.
unfoldable pub log2_from : ℕ → ℕ → ℕ → ℕ
log2_from zero log2 bytes = log2
log2_from (suc rounds) log2 bytes =
    let rest = log2_from rounds (log2 + 1) bytes in if ltb (2 ^ log2) bytes then rest else log2

-- arnm_roaring_log2_for_bytes, for the 8 KiB of the largest block at most
unfoldable pub log2_for_bytes : ℕ → ℕ
log2_for_bytes bytes = log2_from 13 log2_first bytes
