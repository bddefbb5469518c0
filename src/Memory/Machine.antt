-- ===== src/Memory/Machine.antt =====
-- What src/memory.c stands on: bytes at addresses, the host's malloc, and the alignment helpers of
-- include/arnm/memory.h. An address is a number, 0 is NULL, and address arithmetic does not wrap.
use arnm.Base.{ℕ, ◌+◌, ◌-◌, ◌*◌, ◌/◌, Option, ltb, leb, ◌&&◌, if◌then◌else◌, add32}
use arnm.Result.{Result}

-- The bytes of the process, and the state of the host's allocator.
pub record Machine (H : Type 0) : Type 0 where
  pub bytes : ℕ → ℕ
  pub heap : H

-- Code that is not part of src/memory.c. `malloc`, `free` and `realloc` are the C library's, with
-- `none` for a NULL answer. The other three are the memory side of the bucket vector that holds a
-- chain's arenas: whether it can take element number n, make room for n, and give room back.
pub record Host (H : Type 0) : Type 0 where
  pub malloc : ℕ → Machine H → Option ℕ × Machine H
  pub free : ℕ → Machine H → Machine H
  pub realloc : ℕ → ℕ → Machine H → Option ℕ × Machine H
  pub vector_room : ℕ → Machine H → Result × Machine H
  pub vector_reserve : ℕ → Machine H → Result × Machine H
  pub vector_shrink : ℕ → Machine H → Result × Machine H

-- ARNM_MAX_ALLOC_SIZE
abbrev pub max_alloc_size : ℕ
max_alloc_size = 4294967288

-- ARNM_ALIGN8 on a uint32_t
abbrev pub align8 : ℕ → ℕ
align8 x = (add32 x 7 / 8) * 8

-- arnm_align8_u32
unfoldable pub align8_u32 : ℕ → ℕ
align8_u32 size = if ltb max_alloc_size size then 0 else align8 size

-- memcpy, for runs that do not overlap
unfoldable pub copy_bytes : ℕ → ℕ → ℕ → (ℕ → ℕ) → ℕ → ℕ
copy_bytes dst src n bytes p =
    if leb dst p && ltb p (dst + n) then bytes (src + (p - dst)) else bytes p

abbrev pub memcpy : {H : Type 0} → ℕ → ℕ → ℕ → Machine H → Machine H
memcpy dst src n w = record w { bytes = copy_bytes dst src n w.bytes }
