-- ===== src/Lib.antt =====
-- arnm: a C library of arena allocators and of containers and converters that allocate from them.
-- This library models its allocator, its fixed ring, its bucket vector, its key map, its graded block
-- pool, its roaring bitmaps, its UTF-8 check and its converters, and proves what their users rely on.
--
-- Files and the code they are about (paths from the repository's root):
--   Base, Base/*           native lists, Boolean tests and uint32_t arithmetic for all modules
--   Result                 include/arnm/result.h: the result codes
--   Memory/Machine         the bytes of the process, the C library's malloc, free and realloc and the
--                          memory side of the bucket vector, as parameters; arnm_align8_u32
--   Memory/Arena           src/memory.c: a single arena (arnm_intern of src/memory_intern.h)
--   Memory/Chain           src/memory.c: a chain of arenas, multi_arena_alloc and its helpers
--   Memory/Api             src/memory.c: arnm_alloc, arnm_free and arnm_reset on every kind of handle
--   Memory/Realloc         src/memory.c: arnm_realloc and arnm_clone
--   Memory/Bounds, Outcomes, Resizing, Session, Stacked, Safety, SafeResize, Runs
--                          a client of one arena: blocks in bounds, apart, and with their bytes
--   Memory/ChainScan, ChainAlloc, ChainGrowth, ChainOwner
--                          the marker of a chain, requests that it serves, and blocks that return
--   Memory/Refusals        the caller's pointer where arnm_realloc refuses
--   FixedRing              src/fixed_ring.c and include/arnm/fixed_ring.h: the ring's operations
--   FixedRing/Queue        the bounded queue that a ring's client is promised
--   FixedRing/Window, Refine, Runs
--                          the ring's contents, and that its calls are the queue's
--   BucketVector           src/bucket_vector.c and include/arnm/bucket_vector.h: the vector, its reads
--                          and the calls that need no memory
--   BucketVector/Growth    src/bucket_vector.c: the calls that ask the allocator for memory
--   BucketVector/Release   src/bucket_vector.c: the calls that give memory back
--   BucketVector/Contents, Walks, Writes, Init, Reads, Pop
--                          the elements of a vector and its invariant, and what reads and pops do
--   BucketVector/Extend, Calls, Place, Push, Reserve, Reserved
--                          what stays when a vector grows, appends, and reserved room
--   BucketVector/Sizes     the number of elements behind an append and a reservation
--   BucketVector/Walked, Freed, Fewer, Shrinking
--                          what stays when a vector gives memory back, and what it gives
--   KeyMap                 src/key_map.c and the inline probe of include/arnm/key_map.h
--   KeyMap/Probing, Placing, Lookup
--                          that probing ends, the order it keeps in the table, and what a find answers
--   KeyMap/Capacity, Table, Inserting, Reserving
--                          the capacities of a table, and the calls that change one
--   Roaring                src/roaring_intern.h and include/arnm/roaring_bitmap.h: the layout of a set
--   GradedBlockPool        src/graded_block_pool.c and include/arnm/graded_block_pool.h: blocks by
--                          exponent, the fresh arena and the split of the old one
--   GradedBlockPool/Chained, Open, Served, Returned
--                          the arena from the chain, the invariant of a pool, what a request leaves, and
--                          a block that comes back and goes out again
--   GradedBlockPool/Examples
--                          a concrete pool for the tests
--   Roaring/Pool, Pooled   the two calls of include/arnm/graded_block_pool.h that the sets use, as an
--                          interface, and the graded block pool behind it
--   Roaring/Search         src/roaring_intern.h: the binary searches
--   Roaring/Containers, Adding
--                          src/roaring_bitmap.c: containers, the directory, and adding a value
--   Roaring/Reads          src/roaring_bitmap.c: contains, minimum and maximum
--   Roaring/Ascending, Bits, Elements
--                          the values of a set as an ascending list, and when a set is well formed
--   Roaring/Counting, Keys, Contains, Edges
--                          what the searches find, membership, and the least and largest value
--   Roaring/Directory, Filling, Sparse, Converting, Runs, Inserting, Appending, Building
--                          what an added value changes, step by step, and a set that is built so
--   Roaring/Results        a set from a sorted list of values
--   Converter/Bits         bitwise or, bytes, and buffers
--   Converter/Buffers      runs of buffers
--   Converter/Decimal, Numeral, Text
--                          src/converter.c: integers as decimal text, and that it is their numeral
--   Converter/Hex, HexLaws src/converter.c: bytes as hex text and back
--   Converter/Base64, Base64Laws
--                          src/converter.c: bytes as base64 text and back
--   Converter/Uuid, UuidLaws
--                          src/converter.c: uuids as text and back
--   Utf8                   src/utf8.c: the scan of arnm_utf8_valid_length, and include/arnm/utf8.h
--   Utf8/Scalars, Ascii, Sequences, Prefix
--                          the encoder of scalar values, and that the scan stops where it has to
--   */Tests                concrete runs, and each theorem at a concrete input
--
-- How the code is modelled. A pointer is a number and 0 is NULL, or an Option where only NULL or not
-- matters; a call takes the state it may change and returns it with its result code. A handle of
-- type arnm is the host allocator, an arena or a chain. The bytes of the process are a function of
-- their address, and memcpy changes it. uint32_t arithmetic is written with its wrap (add32, sub32).
-- The arenas of a chain stand in a list, in the order of the bucket vector that holds them. An element
-- of a ring or of a bucket vector is a value that memcpy moves whole, and the block of a ring, or a
-- bucket, is the list of its places. The index array of a bucket vector is the list of its slots, which
-- arnm_realloc keeps, and a new bucket holds an arbitrary element in every place.
--
-- The loops of the chain run once per arena: multi_arena_find_owner makes as many rounds as there are
-- arenas, and the scan of multi_arena_alloc as many as stand behind the marker, so both reach every
-- arena that the C loops reach. The loop that writes decimal digits takes two of them a round and runs
-- on fuel 10, which twenty digits never use up. The UTF-8 scan takes a byte or more a round, so its
-- fuel is the length of the text and one. A probe of the key map makes as many steps as the table has
-- slots, which reach every slot. The loop of capacity_for has 32 rounds; 29 shift a capacity of 8 out
-- of a uint32_t, and the largest table is reached in 25. A binary search makes at most as many rounds as there are entries, and the conversion of a
-- sparse set as many as it has values, one for each key; the size of an array block is found within
-- 13 doublings. The split of an arena takes each grade once, and of a grade as many blocks as fit.
-- Buffers of text are lists of characters.
--
-- Not modelled: the setting up of handles and of a chain's options, base64 in place, JSON, the
-- operations and queries over several roaring bitmaps, the pools but for the calls by exponent of the
-- graded block pool, whose links between free blocks are a function of their address, timers, and the hashes, which the key map takes as a parameter.
pub mod Base
pub mod BucketVector
pub mod Converter
pub mod FixedRing
pub mod GradedBlockPool
pub mod KeyMap
pub mod Memory
pub mod Result
pub mod Roaring
pub mod Utf8
