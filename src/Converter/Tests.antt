-- ===== src/Converter/Tests.antt =====
-- The converters of src/converter.c on concrete input, and each theorem about them at one of them.
use arnm.Base.{
  ℕ, suc, ◌*◌, ◌/◌, ◌%◌, ◌≡◌, refl, List, [], ◌∷◌, ◌++◌, none, some, arith, length, take, drop, set,
  ltb, ◌==◌, if◌then◌else◌, replicate,
}
use arnm.Result.{success, error_invalid_param, error_decode_failed}
use arnm.Converter.Bits.{overwrite, IsBytes}
use arnm.Converter.Base64.{
  binary_to_base64, binary_from_base64, decoded, to_base64_loop, char_of, alphabet_at,
}
use arnm.Converter.Base64Laws.{base64_round_trip}
use arnm.Converter.Uuid.{uuid_string_length, uuid_to_string, uuid_from_string}
use arnm.Converter.UuidLaws.{uuid_round_trip}
use arnm.Converter.Hex.{to_hex_loop, binary_to_hex, binary_from_hex_with_known_hex_size}
use arnm.Converter.HexLaws.{parse_hex, binary_from_hex-parse_hex, hex_round_trip}
use arnm.Converter.Decimal.{
  uint64_to_string_size, uint64_to_string_known_string_size, write_digits, uint64_to_string,
  int64_to_string,
}
use arnm.Converter.Numeral.{decimal, numeral}
use arnm.Converter.Text.{
  uint64_to_string-decimal, uint64_to_string_size-decimal, signed_decimal,
  int64_to_string-signed_decimal,
}

-- 255, 0 and 171
abbrev three_bytes : List ℕ
three_bytes = 255 ∷ 0 ∷ 171 ∷ []

abbrev room : List ℕ
room = 1 ∷ 2 ∷ 3 ∷ 4 ∷ 5 ∷ 6 ∷ 7 ∷ 8 ∷ []

-- "ff00ab"
to_hex :
    binary_to_hex (some room) (some three_bytes) 3
    ≡ (success, some (102 ∷ 102 ∷ 48 ∷ 48 ∷ 97 ∷ 98 ∷ 0 ∷ 8 ∷ []))
unfolding binary_to_hex to_hex_loop
to_hex = refl

hex_round_trip_example :
    (hex : List ℕ) × (binary_to_hex (some room) (some three_bytes) 3 ≡ (success, some hex))
    × (binary_from_hex_with_known_hex_size (some room) (some hex) (3 * 2)
        ≡ (success, some (overwrite three_bytes room)))
hex_round_trip_example =
    hex_round_trip room room three_bytes (omega arith, (omega arith, (omega arith, tt)))
      (omega arith) (omega arith)

-- "1g" is refused.
binary_from_hex-parse_hex_example :
    binary_from_hex_with_known_hex_size (some room) (some (49 ∷ 103 ∷ [])) 2 ≡ (
      if 2 % 2 == 0
      then elim (parse_hex (take 2 (49 ∷ 103 ∷ []))) [
        | none ↦ (error_decode_failed, some (overwrite (replicate (2 / 2) 0) room))
        | some bytes ↦ (success, some (overwrite bytes room))
      ]
      else (error_invalid_param, some room))
binary_from_hex-parse_hex_example =
    binary_from_hex-parse_hex room (49 ∷ 103 ∷ []) 2 (omega arith, (omega arith, tt))

-- "407" in a buffer of five
uint64_text : uint64_to_string room 5 407 ≡ (3, 52 ∷ 48 ∷ 55 ∷ 0 ∷ 5 ∷ 6 ∷ 7 ∷ 8 ∷ [])
unfolding uint64_to_string uint64_to_string_size uint64_to_string_known_string_size write_digits
uint64_text = refl

uint64_to_string-decimal_example : uint64_to_string room 5 407 ≡ (
  length (decimal 407),
  if ltb (length (decimal 407)) 5
      then decimal 407 ++ 0 ∷ drop (suc (length (decimal 407))) room
      else if 5 == 0
      then room
      else set room 0 0,
)
uint64_to_string-decimal_example = uint64_to_string-decimal room 5 407 (omega arith) (omega arith)

uint64_to_string_size-decimal_example :
    uint64_to_string_size 18446744073709551615 ≡ length (decimal 18446744073709551615)
uint64_to_string_size-decimal_example =
    uint64_to_string_size-decimal 18446744073709551615 (omega arith)

-- -42
int64_to_string-signed_decimal_example : int64_to_string room 6 18446744073709551574 ≡ (
  length (signed_decimal 18446744073709551574),
  signed_decimal 18446744073709551574
      ++ 0 ∷ drop (suc (length (signed_decimal 18446744073709551574))) room,
)
int64_to_string-signed_decimal_example =
    int64_to_string-signed_decimal room 6 18446744073709551574 (omega arith)
      (unfold signed_decimal numeral in omega arith) (omega arith)

three_bytes-IsBytes : IsBytes three_bytes
three_bytes-IsBytes = ground arith

-- "/wCr"
base64_text :
    binary_to_base64 (some room) (some three_bytes) 3
    ≡ (success, some (47 ∷ 119 ∷ 67 ∷ 114 ∷ 0 ∷ 6 ∷ 7 ∷ 8 ∷ []))
unfolding binary_to_base64 to_base64_loop char_of alphabet_at
base64_text = refl

base64_round_trip_example :
    (base64 : List ℕ) × (rest : List ℕ) × (binary_to_base64 (some room) (some three_bytes) 3
      ≡ (success, some (base64 ++ 0 ∷ rest)))
    × (binary_from_base64 (some room) (some 0) (some base64)
        ≡ decoded success (some (overwrite three_bytes room)) (some 3))
base64_round_trip_example =
    base64_round_trip room room three_bytes 0 three_bytes-IsBytes (omega arith) (omega arith)

-- 123e4567-e89b-12d3-a456-426614174000
abbrev uuid_bytes : List ℕ
uuid_bytes = 18 ∷ 62 ∷ 69 ∷ 103 ∷ 232 ∷ 155 ∷ 18 ∷ 211 ∷ 164 ∷ 86 ∷ 66 ∷ 102 ∷ 20 ∷ 23 ∷ 64 ∷ 0 ∷ []

uuid_bytes-IsBytes : IsBytes uuid_bytes
uuid_bytes-IsBytes = ground arith

uuid_round_trip_example :
    (text : List ℕ) × (length text ≡ uuid_string_length)
    × (uuid_to_string (replicate 40 7) uuid_bytes ≡ text ++ 0 ∷ drop 37 (replicate 40 7))
    × (uuid_from_string (some (replicate 16 1)) (some text)
        ≡ (success, some (overwrite uuid_bytes (replicate 16 1))))
uuid_round_trip_example =
    uuid_round_trip (replicate 40 7) (replicate 16 1) uuid_bytes uuid_bytes-IsBytes refl
