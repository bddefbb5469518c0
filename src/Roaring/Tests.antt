-- ===== src/Roaring/Tests.antt =====
-- The sets on concrete pools and values, and each theorem about them at one.
use arnm.Base.{
  length, get_elem?, ℕ, ◌-◌, ◌≡◌, refl, inl, inr, List, [], ◌∷◌, ◌++◌, true, false, arith,
}
use arnm.Result.{is_success}
use arnm.Roaring.{array, Container, RoaringBitmap, empty_set}
use arnm.Roaring.Pool.{BlockPool}
use arnm.Roaring.Pooled.{graded_pool, graded_pool-IsLending}
use arnm.GradedBlockPool.Examples.{pages, pages_aligned, fresh_pool, fresh_pool-IsOpen}
use arnm.Roaring.Adding.{append, sparse_add, add}
use arnm.Roaring.Search.{search, entry_below, key_below, lower_bound, first_container}
use arnm.Roaring.Reads.{holds_at, container_contains, contains}
use arnm.Roaring.Counting.{count_below, lower_bound-eq-count_below}
use arnm.Roaring.Keys.{keys_of}
use arnm.Roaring.Elements.{lows_of, directory_values, elements, IsContainer, IsRoaring}
use arnm.Roaring.Contains.{is_in, contains-is_in}
use arnm.Roaring.Appending.{Adds, add-Adds}
use arnm.Roaring.Reads.{minimum_of, maximum_of}
use arnm.Roaring.Edges.{minimum_of-elements}
use arnm.Roaring.Building.{Ends, build, build-contains}

-- the sets' pool: a graded block pool with nothing out
abbrev pool : BlockPool
pool = graded_pool pages pages_aligned

abbrev unused : pool.State
unused = (fresh_pool, fresh_pool-IsOpen)

abbrev three : RoaringBitmap
three = record {
  block = 16;
  values = 1 ∷ 5 ∷ 70000 ∷ [];
  containers = [];
  cardinality = 3;
  maximum = 70000;
  count = 0;
  directory_log2 = 4;
}

abbrev low_container : Container
low_container = record {
  block = 64;
  contents = array (1 ∷ 5 ∷ []);
  cardinality = 2;
  key = 0;
  block_log2 = 4;
}

abbrev high_container : Container
high_container = record {
  block = 80;
  contents = array (4464 ∷ []);
  cardinality = 1;
  key = 1;
  block_log2 = 4;
}

-- the same values in two containers
abbrev two_keys : RoaringBitmap
two_keys = record {
  block = 96;
  values = [];
  containers = low_container ∷ high_container ∷ [];
  cardinality = 3;
  maximum = 70000;
  count = 2;
  directory_log2 = 5;
}

three-IsRoaring : IsRoaring three
unfolding elements
three-IsRoaring = record {
  counted = refl;
  ascending = (omega arith, (omega arith, (omega arith, omega arith)));
  top = inr (1 ∷ 5 ∷ [], refl);
  bounded = omega arith;
  form = inl (record {
    no_containers = refl;
    no_entries = refl;
    counted = refl;
    limited = omega arith;
    blockless = λ null. absurd (omega arith);
    least = λ there. omega arith;
    log2_small = omega arith;
    fits = omega arith;
  });
}

low_container-IsContainer : IsContainer low_container
unfolding lows_of
low_container-IsContainer = record {
  some_values = omega arith;
  counted = refl;
  ascending = (omega arith, (omega arith, omega arith));
  fits = (omega arith, omega arith, omega arith, omega arith);
}

high_container-IsContainer : IsContainer high_container
unfolding lows_of
high_container-IsContainer = record {
  some_values = omega arith;
  counted = refl;
  ascending = (omega arith, omega arith);
  fits = (omega arith, omega arith, omega arith, omega arith);
}

two_keys-IsRoaring : IsRoaring two_keys
unfolding elements lows_of directory_values keys_of
two_keys-IsRoaring = record {
  counted = refl;
  ascending = (omega arith, (omega arith, (omega arith, omega arith)));
  top = inr (1 ∷ 5 ∷ [], refl);
  bounded = omega arith;
  form = inr (
    omega arith,
    record {
      numbered = refl;
      blockless = λ null. absurd (omega arith);
      sorted = (omega arith, (omega arith, omega arith));
      all = (low_container-IsContainer, (high_container-IsContainer, tt));
      least = λ there. omega arith;
      log2_small = omega arith;
      fits = omega arith;
    },
  );
}

-- The two forms answer alike.
three_holds : contains three 70000 ≡ true
unfolding contains holds_at lower_bound search entry_below
three_holds = refl

two_keys_holds : contains two_keys 70000 ≡ true
unfolding contains container_contains holds_at lower_bound search entry_below first_container
    key_below
two_keys_holds = refl

two_keys_lacks : contains two_keys 65537 ≡ false
unfolding contains container_contains holds_at lower_bound search entry_below first_container
    key_below
two_keys_lacks = refl

contains-is_in_example : contains two_keys 70000 ≡ is_in 70000 (elements two_keys)
contains-is_in_example = contains-is_in two_keys 70000 two_keys-IsRoaring (omega arith)

add-Adds_example :
    Adds pool two_keys 70001
      (add pool two_keys 70001 unused).result
      (add pool two_keys 70001 unused).out
add-Adds_example =
    add-Adds pool (graded_pool-IsLending pages pages_aligned) two_keys 70001 unused
      two_keys-IsRoaring (omega arith) (omega arith) (inr (omega arith))

build-contains_example :
    let r = build pool (1 ∷ 5 ∷ 70000 ∷ []) empty_set unused in
    (front : List ℕ) × (back : List ℕ) × (front ++ back ≡ 1 ∷ 5 ∷ 70000 ∷ [])
    × IsRoaring r.out
    × (elements r.out ≡ front)
    × (contains r.out 5 ≡ is_in 5 front)
    × Ends pool r.result back
build-contains_example =
    build-contains pool (graded_pool-IsLending pages pages_aligned) (1 ∷ 5 ∷ 70000 ∷ []) unused 5
      (omega arith, (omega arith, (omega arith, omega arith))) (omega arith) (omega arith)

lower_bound_run : lower_bound (1 ∷ 5 ∷ 9 ∷ []) 3 6 ≡ count_below 6 (1 ∷ 5 ∷ 9 ∷ [])
lower_bound_run =
    lower_bound-eq-count_below 6 0 (1 ∷ 5 ∷ 9 ∷ []) 65536
      (omega arith, (omega arith, (omega arith, omega arith)))

-- A set of four values fills its first block.
add_fills : (add pool three 70001 unused).out.directory_log2 ≡ 4
unfolding add append sparse_add is_success
add_fills = refl

minimum_of-elements_example :
    (minimum_of two_keys ≡ get_elem? (elements two_keys) 0)
    × (maximum_of two_keys ≡ get_elem? (elements two_keys) (length (elements two_keys) - 1))
minimum_of-elements_example = minimum_of-elements two_keys two_keys-IsRoaring
