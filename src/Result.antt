-- ===== src/Result.antt =====
-- include/arnm/result.h and src/result.c: the one result code, and its spelling.
use arnm.Base.{Bool, true, false, ◌≡◌, refl}

-- `enum arnm_result`, in the order of its values, 0 first.
pub data Result : Type 0 where
  success warning_arena_memory_not_reclaimed warning_used_dynamic_allocation_fallback : Result
  error_not_implemented_yet error_not_initialized error_invalid_param : Result
  error_invalid_enum_type error_invalid_state error_null_pointer : Result
  error_arithmetic_overflow error_out_of_memory error_array_index_out_of_bounds : Result
  error_resource_exhausted error_resource_size_exceed error_resource_in_use : Result
  error_decode_failed error_encode_failed error_destination_buffer_to_small : Result
  error_enum_unhandled error_enum_unknown : Result

-- The test `ARNM_SUCCESS == result` of the callers.
unfoldable pub is_success : Result → Bool
is_success success = true
is_success _ = false

pub success_of_is_success : (r : Result) → is_success r ≡ true → r ≡ success
unfolding is_success
success_of_is_success success h = refl
success_of_is_success _ h = cc
