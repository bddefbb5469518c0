-- ===== src/Converter/Hex.antt =====
-- arnm_binary_to_hex and arnm_binary_from_hex_with_known_hex_size of src/converter.c. A buffer is
-- the list of its bytes, at least as many as the call writes; `none` is a NULL pointer.
use arnm.Base.{
  ℕ, ◌+◌, ◌-◌, ◌*◌, ◌/◌, ◌%◌, Option, none, some, List, [], ◌∷◌, Bool, false, ltb, leb, ◌==◌, not,
  ◌||◌, if◌then◌else◌, set, take, replicate,
}
use arnm.Result.{
  Result, success, error_null_pointer, error_invalid_param, error_arithmetic_overflow,
  error_decode_failed,
}
use arnm.Converter.Bits.{bit_or, overwrite}

-- ARNM_HEX_MAX_BINARY_SIZE
abbrev pub hex_max_binary_size : ℕ
hex_max_binary_size = 2147483647

-- a nibble's character
unfoldable pub hex_digit : ℕ → ℕ
hex_digit nibble = (nibble + (if ltb nibble 10 then 48 else 87)) % 256

-- the loop of arnm_binary_to_hex
unfoldable pub to_hex_loop : List ℕ → List ℕ
unfolding hex_digit
to_hex_loop [] = []
to_hex_loop (b ∷ bytes) = hex_digit (b / 16) ∷ hex_digit (b % 16) ∷ to_hex_loop bytes

-- arnm_binary_to_hex; the terminator's index is a uint32_t
unfoldable pub binary_to_hex : Option (List ℕ) → Option (List ℕ) → ℕ → Result × Option (List ℕ)
unfolding to_hex_loop
binary_to_hex none bytes size = (error_null_pointer, none)
binary_to_hex (some buffer) none size = (error_null_pointer, some buffer)
binary_to_hex (some buffer) (some bytes) size =
    if ltb hex_max_binary_size size then (error_arithmetic_overflow, some buffer) else (
      success,
      some (set (overwrite (to_hex_loop (take size bytes)) buffer) ((size * 2) % 4294967296) 0),
    )

-- the branchless value of a character: `(c & 0x0F) + 9 * (c >> 6)`
unfoldable pub nibble_of : ℕ → ℕ
nibble_of c = (c % 16 + 9 * (c / 64)) % 256

-- its test: a digit, or a letter once `c & 0xDF` has cleared bit 5
unfoldable pub is_hex : ℕ → Bool
is_hex c =
    let letter = c - 32 * (c / 32 % 2) in leb ((c + 208) % 256) 9 || leb ((letter + 191) % 256) 5

-- the byte that the loop stores for two characters
unfoldable pub byte_of : ℕ → ℕ → ℕ
unfolding nibble_of bit_or
byte_of high_char low_char = bit_or 12 (nibble_of high_char * 16) (nibble_of low_char) % 256

-- the loop of arnm_binary_from_hex_with_known_hex_size: the bytes, and `invalid`
unfoldable pub from_hex_loop : List ℕ → List ℕ × Bool
unfolding byte_of is_hex
from_hex_loop [] = ([], false)
from_hex_loop (c ∷ []) = ([], false)
from_hex_loop (high_char ∷ low_char ∷ hex) =
    let (bytes, invalid) = from_hex_loop hex in
    (
      byte_of high_char low_char ∷ bytes,
      (not (is_hex high_char) || not (is_hex low_char)) || invalid,
    )

-- arnm_binary_from_hex_with_known_hex_size
unfoldable pub binary_from_hex_with_known_hex_size :
    Option (List ℕ) → Option (List ℕ) → ℕ → Result × Option (List ℕ)
unfolding from_hex_loop
binary_from_hex_with_known_hex_size none hex hex_size = (error_null_pointer, none)
binary_from_hex_with_known_hex_size (some buffer) none hex_size = (error_null_pointer, some buffer)
binary_from_hex_with_known_hex_size (some buffer) (some hex) hex_size =
    let bin_size = hex_size / 2 in
    if not (bin_size * 2 == hex_size)
    then (error_invalid_param, some buffer)
    else (let (bytes, invalid) = from_hex_loop (take hex_size hex) in
        if invalid
        then (error_decode_failed, some (overwrite (replicate bin_size 0) buffer))
        else (success, some (overwrite bytes buffer)))
