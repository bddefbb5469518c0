-- ===== src/Roaring/Elements.antt =====
-- What a set holds, as the list of its values, and when a set is well formed.
use arnm.Base.{
  ℕ, suc, ◌*◌, ◌^◌, ◌≤◌, ◌<◌, ◌≡◌, ◌⊎◌, List, [], ◌∷◌, ◌++◌, true, false, map, length, ◌==◌,
  if◌then◌else◌,
}
use arnm.Result.{Result, is_success}
use arnm.Roaring.{
  Contents, array, bitmap, Container, RoaringBitmap, is_sparse, sparse_max, value_of,
}
use arnm.Roaring.Ascending.{IsAscending}
use arnm.Roaring.Keys.{keys_of}
use arnm.Roaring.Bits.{low_parts, IsWords}

-- the low parts that a container holds
unfoldable pub lows_of : Contents → List ℕ
lows_of (array lows) = lows
lows_of (bitmap words) = low_parts words

abbrev pub container_values : Container → List ℕ
container_values c = map (value_of c.key) (lows_of c.contents)

unfoldable pub directory_values : List Container → List ℕ
directory_values [] = []
directory_values (c ∷ cs) = container_values c ++ directory_values cs

-- the values of a set, in either form
unfoldable pub elements : RoaringBitmap → List ℕ
elements s = if is_sparse s then s.values else directory_values s.containers

-- An array fits its block, and a bitmap has all its words.
abbrev pub FitsBlock : ℕ → ℕ → Contents → Type 0
FitsBlock cardinality log2 (array lows) =
    (cardinality ≤ 4096) × (cardinality * 2 ≤ 2 ^ log2) × (4 ≤ log2) × (log2 ≤ 13)
FitsBlock cardinality log2 (bitmap words) = (length words ≡ 1024) × (log2 ≡ 13) × IsWords words

pub record IsContainer (c : Container) : Type 0 where
  pub some_values : 0 < c.cardinality
  pub counted : c.cardinality ≡ length (lows_of c.contents)
  pub ascending : IsAscending 0 (lows_of c.contents) 65536
  pub fits : FitsBlock c.cardinality c.block_log2 c.contents

abbrev pub AllContainers : List Container → Type 0
AllContainers [] = Unit {0}
AllContainers (c ∷ cs) = IsContainer c × AllContainers cs

-- A sparse set is within its limit and its block; an empty one may have no block.
pub record IsSparse (s : RoaringBitmap) : Type 0 where
  pub no_containers : s.count ≡ 0
  pub no_entries : s.containers ≡ []
  pub counted : s.cardinality ≡ length s.values
  pub limited : s.cardinality ≤ sparse_max
  pub blockless : s.block ≡ 0 → s.cardinality ≡ 0
  pub least : (s.block == 0) ≡ false → 4 ≤ s.directory_log2
  pub log2_small : s.directory_log2 ≤ 12
  pub fits : s.cardinality * 4 ≤ 2 ^ s.directory_log2

-- A directory is sorted by key, and it fits its block; an empty one may have no block.
pub record IsDirectory (s : RoaringBitmap) : Type 0 where
  pub numbered : s.count ≡ length s.containers
  pub blockless : s.block ≡ 0 → s.count ≡ 0
  pub sorted : IsAscending 0 (keys_of s.containers) 65536
  pub all : AllContainers s.containers
  pub least : (s.block == 0) ≡ false → 4 ≤ s.directory_log2
  pub log2_small : s.directory_log2 ≤ 20
  pub fits : s.count * 16 ≤ 2 ^ s.directory_log2

-- There is no value, or the last one is the maximum.
abbrev pub EndsWith : List ℕ → ℕ → Type 0
EndsWith xs maximum = (xs ≡ []) ⊎ ((front : List ℕ) × (xs ≡ front ++ maximum ∷ []))

-- The values ascend to the maximum and are counted, in one of the two forms.
pub record IsRoaring (s : RoaringBitmap) : Type 0 where
  pub counted : s.cardinality ≡ length (elements s)
  pub ascending : IsAscending 0 (elements s) (suc s.maximum)
  pub top : EndsWith (elements s) s.maximum
  pub bounded : s.maximum < 4294967296
  pub form : IsSparse s ⊎ ((0 < s.count) × IsDirectory s)

-- What a call leaves: one thing when it succeeds, another one when it does not.
abbrev pub Settles : Result → Type 0 → Type 0 → Type 0
Settles result done kept =
    ((is_success result ≡ true) × done) ⊎ ((is_success result ≡ false) × kept)
