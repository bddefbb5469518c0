-- ===== src/Converter/Uuid.antt =====
-- Uuids in their 8-4-4-4-12 form, in src/converter.c. A text is the list of its characters in front
-- of the terminator; `none` is a NULL pointer.
use arnm.Base.{
  ℕ, Option, none, some, List, [], ◌∷◌, ◌++◌, ◌==◌, not, ◌||◌, if◌then◌else◌, length, get_or, take,
  drop, replicate,
}
use arnm.Result.{Result, error_null_pointer, error_invalid_param, error_decode_failed}
use arnm.Converter.Bits.{overwrite}
use arnm.Converter.Hex.{binary_to_hex, binary_from_hex_with_known_hex_size}

-- ARNM_UUID_STRING_LENGTH
abbrev pub uuid_string_length : ℕ
uuid_string_length = 36

-- the five memcpys of arnm_uuid_from_string
unfoldable pub strip_dashes : List ℕ → List ℕ
strip_dashes text =
    take 8 text
    ++ (take 4 (drop 9 text)
        ++ (take 4 (drop 14 text) ++ (take 4 (drop 19 text) ++ take 12 (drop 24 text))))

-- the five memcpys of arnm_uuid_to_string, with the dashes between them
unfoldable pub add_dashes : List ℕ → List ℕ
add_dashes hex =
    take 8 hex
    ++ (45
        ∷ (take 4 (drop 8 hex)
            ++ (45
                ∷ (take 4 (drop 12 hex)
                    ++ (45 ∷ (take 4 (drop 16 hex) ++ (45 ∷ take 12 (drop 20 hex))))))))

-- arnm_uuid_from_string; the 33 bytes of `hex` are its characters and the terminator
unfoldable pub uuid_from_string : Option (List ℕ) → Option (List ℕ) → Result × Option (List ℕ)
uuid_from_string (some uuid) (some text) =
    if not (length text == uuid_string_length)
    then (error_invalid_param, some uuid)
    else if not (get_or text 8 0 == 45)
        || not (get_or text 13 0 == 45)
        || not (get_or text 18 0 == 45)
        || not (get_or text 23 0 == 45)
    then (error_decode_failed, some (overwrite (replicate 16 0) uuid))
    else binary_from_hex_with_known_hex_size (some uuid) (some (strip_dashes text ++ 0 ∷ [])) 32
uuid_from_string uuid text = (error_null_pointer, uuid)

-- arnm_uuid_to_string, on 16 bytes: `hex` is the local buffer of 33 bytes
unfoldable pub uuid_to_string : List ℕ → List ℕ → List ℕ
uuid_to_string result_buffer uuid = elim (binary_to_hex (some (replicate 33 0)) (some uuid) 16).1 [
  | none ↦ result_buffer
  | some hex ↦ overwrite (add_dashes hex ++ 0 ∷ []) result_buffer
]
