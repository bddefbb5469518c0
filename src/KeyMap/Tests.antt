-- ===== src/KeyMap/Tests.antt =====
-- The key map on concrete maps, and each theorem about it at one of them.
use arnm.Base.{
  ℕ, ◌+◌, ◌*◌, ◌%◌, ◌≤◌, ◌≡◌, ◌⊎◌, refl, inl, inr, List, [], ◌∷◌, none, some, Bool, true, ◌==◌,
  arith, replicate, set,
}
use arnm.Result.{success}
use arnm.Memory.Machine.{Machine, Host}
use arnm.BucketVector.{fresh}
use arnm.KeyMap.{
  KeySlot, KeyMap, slot_at, free_slot, probe, find, holds_key, get_or_insert, reserve_keys,
  capacity_for, load_limit, double_until, max_keys,
}
use arnm.KeyMap.Capacity.{IsCapacity, capacity_for-smallest}
use arnm.KeyMap.Probing.{IsEnd, probe-stops}
use arnm.KeyMap.Table.{IsTable, IsTable-empty, IsTable-set, IsSettled}
use arnm.KeyMap.Lookup.{IsAbsent, find-IsAbsent}
use arnm.KeyMap.Inserting.{get_or_insert-IsSettled}
use arnm.KeyMap.Reserving.{IsRoomy, reserve_keys-IsSettled}

-- A host whose heap is the number of 4096 byte pages it has given out.
abbrev pages : Host ℕ
pages = record {
  malloc = λ n w. (some ((w.heap + 1) * 4096), record w { heap = w.heap + 1 });
  free = λ p w. w;
  realloc = λ p n w. (some ((w.heap + 1) * 4096), record w { heap = w.heap + 1 });
  vector_room = λ n w. (success, w);
  vector_reserve = λ n w. (success, w);
  vector_shrink = λ n w. (success, w);
}

abbrev machine : Machine ℕ
machine = record { bytes = λ p. p % 256; heap = 0 }

abbrev same : ℕ → ℕ → Bool
same a b = a == b

abbrev low_bits : ℕ → ℕ
low_bits key = key % 4294967296

-- a map without a table
abbrev start : KeyMap ℕ
start = record { block = 0; slots = []; keys = fresh 1 2 4; capacity = 0 }

start-IsSettled : IsSettled start
start-IsSettled = record {
  table = record { whole = refl; placed = λ p below. absurd (omega arith); counted = refl };
  sized = inl refl;
  small = omega arith;
  loaded = omega arith;
}

abbrev entry : KeySlot
entry = record { hash = 11; id = 0 }

-- eight slots, the one of number 3 in use
abbrev slots : List KeySlot
slots = set (replicate 8 free_slot) 3 entry

slots-IsTable : IsTable slots 8 1
unfolding slot_at
slots-IsTable =
    IsTable-set (replicate 8 free_slot) 8 0 3 entry (IsTable-empty 8) (omega arith) refl refl
      (0, omega arith, refl, λ e none_before. absurd (omega arith))

-- a map of one key, 11, whose vector has one bucket
abbrev one_key : KeyMap ℕ
one_key = record {
  block = 4096;
  slots = slots;
  keys = record (fresh 1 2 4) {
    buckets = 8192;
    index = some (record { addr = 12288; cells = 11 ∷ 0 ∷ [] }) ∷ none ∷ [];
    bucket_capacity = 2;
    tail = true;
    tail_used = 1;
    size = 1;
    allocated_count = 1;
  };
  capacity = 8;
}

probe-stops_example : IsEnd same low_bits one_key 19 19 (probe same low_bits one_key 19 19)
probe-stops_example = probe-stops same low_bits one_key 19 19 refl (omega arith)

find-IsAbsent_example :
    ((find same low_bits one_key 11 ≡ none) × IsAbsent same low_bits one_key 11)
    ⊎ ((k : ℕ) × (find same low_bits one_key 11 ≡ some k)
        × (holds_key same low_bits one_key.keys k 11 ≡ true))
find-IsAbsent_example = find-IsAbsent same low_bits one_key 11 1 slots-IsTable (inr (omega arith))

get_or_insert-IsSettled_example :
    IsSettled (get_or_insert pages 0 same low_bits start 11 none machine).map
get_or_insert-IsSettled_example =
    get_or_insert-IsSettled pages 0 same low_bits start 11 none machine start-IsSettled

reserve_keys-IsSettled_example :
    IsRoomy pages 0 start 100 (reserve_keys pages 0 start 100 none machine)
reserve_keys-IsSettled_example =
    reserve_keys-IsSettled pages 0 start 100 none machine start-IsSettled

-- a hundred keys fit three quarters of 256 slots, not of 128
capacity_for_hundred : capacity_for 100 ≡ 256
unfolding capacity_for double_until
capacity_for_hundred = refl

-- a count that 256 slots just hold
capacity_for-smallest_example :
    IsCapacity (capacity_for 192) × (192 ≤ load_limit (capacity_for 192)) × (capacity_for 192 ≤ 256)
capacity_for-smallest_example =
    capacity_for-smallest 192 256 (8, omega arith, omega arith, refl) (omega arith)

capacity_for_most : capacity_for max_keys ≡ 268435456
unfolding capacity_for double_until
capacity_for_most = refl
