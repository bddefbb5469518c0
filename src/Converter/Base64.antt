-- ===== src/Converter/Base64.antt =====
-- Base64 in src/converter.c. A buffer is the list of its bytes, at least as many as the call writes,
-- and a text is the list of its characters in front of the terminator; `none` is a NULL pointer.
use arnm.Base.{
  ℕ, ◌+◌, ◌-◌, ◌*◌, ◌/◌, ◌%◌, Option, none, some, List, [], ◌∷◌, ◌++◌, Bool, true, false, ltb, leb,
  ◌==◌, not, ◌&&◌, ◌||◌, if◌then◌else◌, length, get_or, set, take, replicate,
}
use arnm.Result.{
  Result, success, is_success, error_null_pointer, error_invalid_param, error_arithmetic_overflow,
  error_decode_failed,
}
use arnm.Converter.Bits.{overwrite}

-- BASE64_ALPHABET
abbrev pub base64_alphabet : List ℕ
base64_alphabet =
    65 ∷ 66 ∷ 67 ∷ 68 ∷ 69 ∷ 70 ∷ 71 ∷ 72 ∷ 73 ∷ 74 ∷ 75 ∷ 76 ∷ 77 ∷ 78 ∷ 79 ∷ 80 ∷ 81 ∷ 82 ∷ 83
    ∷ 84 ∷ 85 ∷ 86 ∷ 87 ∷ 88 ∷ 89 ∷ 90 ∷ 97 ∷ 98 ∷ 99 ∷ 100 ∷ 101 ∷ 102 ∷ 103 ∷ 104 ∷ 105 ∷ 106
    ∷ 107 ∷ 108 ∷ 109 ∷ 110 ∷ 111 ∷ 112 ∷ 113 ∷ 114 ∷ 115 ∷ 116 ∷ 117 ∷ 118 ∷ 119 ∷ 120 ∷ 121 ∷ 122
    ∷ 48 ∷ 49 ∷ 50 ∷ 51 ∷ 52 ∷ 53 ∷ 54 ∷ 55 ∷ 56 ∷ 57 ∷ 43 ∷ 47 ∷ []

-- BASE64_VALUE
abbrev pub base64_value : List ℕ
base64_value =
    255 ∷ 255 ∷ 255 ∷ 255 ∷ 255 ∷ 255 ∷ 255 ∷ 255 ∷ 255 ∷ 255 ∷ 255 ∷ 255 ∷ 255 ∷ 255 ∷ 255 ∷ 255
    ∷ 255 ∷ 255 ∷ 255 ∷ 255 ∷ 255 ∷ 255 ∷ 255 ∷ 255 ∷ 255 ∷ 255 ∷ 255 ∷ 255 ∷ 255 ∷ 255 ∷ 255 ∷ 255
    ∷ 255 ∷ 255 ∷ 255 ∷ 255 ∷ 255 ∷ 255 ∷ 255 ∷ 255 ∷ 255 ∷ 255 ∷ 255 ∷ 62 ∷ 255 ∷ 255 ∷ 255 ∷ 63
    ∷ 52 ∷ 53 ∷ 54 ∷ 55 ∷ 56 ∷ 57 ∷ 58 ∷ 59 ∷ 60 ∷ 61 ∷ 255 ∷ 255 ∷ 255 ∷ 255 ∷ 255 ∷ 255 ∷ 255 ∷ 0
    ∷ 1 ∷ 2 ∷ 3 ∷ 4 ∷ 5 ∷ 6 ∷ 7 ∷ 8 ∷ 9 ∷ 10 ∷ 11 ∷ 12 ∷ 13 ∷ 14 ∷ 15 ∷ 16 ∷ 17 ∷ 18 ∷ 19 ∷ 20 ∷ 21
    ∷ 22 ∷ 23 ∷ 24 ∷ 25 ∷ 255 ∷ 255 ∷ 255 ∷ 255 ∷ 255 ∷ 255 ∷ 26 ∷ 27 ∷ 28 ∷ 29 ∷ 30 ∷ 31 ∷ 32 ∷ 33
    ∷ 34 ∷ 35 ∷ 36 ∷ 37 ∷ 38 ∷ 39 ∷ 40 ∷ 41 ∷ 42 ∷ 43 ∷ 44 ∷ 45 ∷ 46 ∷ 47 ∷ 48 ∷ 49 ∷ 50 ∷ 51 ∷ 255
    ∷ 255 ∷ 255 ∷ 255 ∷ 255 ∷ 255 ∷ 255 ∷ 255 ∷ 255 ∷ 255 ∷ 255 ∷ 255 ∷ 255 ∷ 255 ∷ 255 ∷ 255 ∷ 255
    ∷ 255 ∷ 255 ∷ 255 ∷ 255 ∷ 255 ∷ 255 ∷ 255 ∷ 255 ∷ 255 ∷ 255 ∷ 255 ∷ 255 ∷ 255 ∷ 255 ∷ 255 ∷ 255
    ∷ 255 ∷ 255 ∷ 255 ∷ 255 ∷ 255 ∷ 255 ∷ 255 ∷ 255 ∷ 255 ∷ 255 ∷ 255 ∷ 255 ∷ 255 ∷ 255 ∷ 255 ∷ 255
    ∷ 255 ∷ 255 ∷ 255 ∷ 255 ∷ 255 ∷ 255 ∷ 255 ∷ 255 ∷ 255 ∷ 255 ∷ 255 ∷ 255 ∷ 255 ∷ 255 ∷ 255 ∷ 255
    ∷ 255 ∷ 255 ∷ 255 ∷ 255 ∷ 255 ∷ 255 ∷ 255 ∷ 255 ∷ 255 ∷ 255 ∷ 255 ∷ 255 ∷ 255 ∷ 255 ∷ 255 ∷ 255
    ∷ 255 ∷ 255 ∷ 255 ∷ 255 ∷ 255 ∷ 255 ∷ 255 ∷ 255 ∷ 255 ∷ 255 ∷ 255 ∷ 255 ∷ 255 ∷ 255 ∷ 255 ∷ 255
    ∷ 255 ∷ 255 ∷ 255 ∷ 255 ∷ 255 ∷ 255 ∷ 255 ∷ 255 ∷ 255 ∷ 255 ∷ 255 ∷ 255 ∷ 255 ∷ 255 ∷ 255 ∷ 255
    ∷ 255 ∷ 255 ∷ 255 ∷ 255 ∷ 255 ∷ 255 ∷ 255 ∷ 255 ∷ 255 ∷ 255 ∷ 255 ∷ 255 ∷ 255 ∷ 255 ∷ 255 ∷ 255
    ∷ 255 ∷ 255 ∷ 255 ∷ 255 ∷ []

-- BASE64_NO_VALUE
abbrev pub base64_no_value : ℕ
base64_no_value = 255

-- ARNM_BASE64_MAX_BINARY_SIZE
abbrev pub base64_max_binary_size : ℕ
base64_max_binary_size = (4294967294 / 4) * 3

-- BASE64_VALUE[c]
unfoldable pub value_at : ℕ → ℕ
value_at c = get_or base64_value c 255

-- BASE64_ALPHABET[s]
unfoldable pub alphabet_at : ℕ → ℕ
alphabet_at s = get_or base64_alphabet s 0

-- `BASE64_ALPHABET[(group >> shift) & 0x3F]`, for the divisor 2 ^ shift
unfoldable pub char_of : ℕ → ℕ → ℕ
char_of group divisor = alphabet_at (group / divisor % 64)

-- `in[0] << 16 | in[1] << 8 | in[2]`: bytes that are shifted apart share no bit
abbrev pub group_of : ℕ → ℕ → ℕ → ℕ
group_of a b c = a * 65536 + b * 256 + c

-- The loop over whole groups of arnm_binary_to_base64, and the rest of one or two bytes.
unfoldable pub to_base64_loop : List ℕ → List ℕ
to_base64_loop [] = []
to_base64_loop (a ∷ []) =
    let group = group_of a 0 0 in char_of group 262144 ∷ char_of group 4096 ∷ 61 ∷ 61 ∷ []
to_base64_loop (a ∷ b ∷ []) =
    let group = group_of a b 0 in
    char_of group 262144 ∷ char_of group 4096 ∷ char_of group 64 ∷ 61 ∷ []
to_base64_loop (a ∷ b ∷ c ∷ bytes) =
    let group = group_of a b c in
    char_of group 262144
    ∷ char_of group 4096
    ∷ char_of group 64
    ∷ char_of group 1
    ∷ to_base64_loop bytes

-- `written` at the terminator, a uint32_t
abbrev pub base64_written : ℕ → ℕ
base64_written size =
    let groups = size / 3 in (groups * 4 + (if size - groups * 3 == 0 then 0 else 4)) % 4294967296

-- arnm_binary_to_base64
unfoldable pub binary_to_base64 : Option (List ℕ) → Option (List ℕ) → ℕ → Result × Option (List ℕ)
binary_to_base64 none bytes size = (error_null_pointer, none)
binary_to_base64 (some buffer) none size = (error_null_pointer, some buffer)
binary_to_base64 (some buffer) (some bytes) size =
    if ltb base64_max_binary_size size then (error_arithmetic_overflow, some buffer) else (
      success,
      some (set (overwrite (to_base64_loop (take size bytes)) buffer) (base64_written size) 0),
    )

-- base64_padding, on at least two characters
unfoldable pub base64_padding : List ℕ → ℕ → ℕ
base64_padding base64 size =
    if not (get_or base64 (size - 1) 0 == 61)
    then 0
    else if get_or base64 (size - 2) 0 == 61
    then 2
    else 1

-- What character number `k` of a group stands for: its six bits, 0 for padding where padding may
-- be, and none elsewhere. `last` says that the group is the last one, `c3` is its last character.
unfoldable pub six_bits : ℕ → ℕ → ℕ → Bool → Option ℕ
six_bits k c c3 last =
    if value_at c == base64_no_value
    then if c == 61 && last && leb 2 k && (k == 3 || c3 == 61) then some 0 else none
    else some (value_at c)

-- the group of four characters
unfoldable pub read_group : ℕ → ℕ → ℕ → ℕ → Bool → Option ℕ
read_group c0 c1 c2 c3 last = elim (six_bits 0 c0 c3 last) [
  | none ↦ none
  | some v0 ↦ elim (six_bits 1 c1 c3 last) [
    | none ↦ none
    | some v1 ↦ elim (six_bits 2 c2 c3 last) [
      | none ↦ none
      | some v2 ↦ elim (six_bits 3 c3 c3 last) [
        | none ↦ none
        | some v3 ↦ some (v0 * 262144 + v1 * 4096 + v2 * 64 + v3)
      ]
    ]
  ]
]

-- its three bytes
abbrev pub bytes_of : ℕ → List ℕ
bytes_of group = group / 65536 % 256 ∷ group / 256 % 256 ∷ group % 256 ∷ []

abbrev pub is_last : List ℕ → Bool
is_last [] = true
is_last (c ∷ base64) = false

-- The loop of base64_decode_into: the bytes that it stores, at most `left`, and none where it
-- refuses a character.
unfoldable pub decode_loop : List ℕ → ℕ → Option (List ℕ)
decode_loop (c0 ∷ c1 ∷ c2 ∷ c3 ∷ base64) left = elim (read_group c0 c1 c2 c3 (is_last base64)) [
  | none ↦ none
  | some group ↦ elim (decode_loop base64 (left - 3)) [
    | none ↦ none
    | some bytes ↦ some (take left (bytes_of group) ++ bytes)
  ]
]
decode_loop base64 left = some []

-- base64_decode_into, with the two buffers apart
unfoldable pub base64_decode_into : List ℕ → List ℕ → ℕ → ℕ → Result × List ℕ
base64_decode_into buffer base64 size binary_size =
    elim (decode_loop (take size base64) binary_size) [
      | none ↦ (error_decode_failed, overwrite (replicate binary_size 0) buffer)
      | some bytes ↦ (success, overwrite bytes buffer)
    ]

-- What the decoders leave: the answer, the buffer and the size cell.
pub record Decoded : Type 0 where
  pub result : Result
  pub buffer : Option (List ℕ)
  pub out_size : Option ℕ

abbrev pub decoded : Result → Option (List ℕ) → Option ℕ → Decoded
decoded r b n = record { result = r; buffer = b; out_size = n }

-- arnm_binary_from_base64 behind its NULL checks; strlen measures the text
unfoldable pub decode_text : List ℕ → ℕ → List ℕ → Decoded
decode_text buffer old base64 =
    let size = length base64 in
    if size == 0
    then decoded success (some buffer) (some 0)
    else if not (size % 4 == 0)
    then decoded error_invalid_param (some buffer) (some old)
    else let binary_size = size / 4 * 3 - base64_padding base64 size in
      let (result, buffer') = base64_decode_into buffer base64 size binary_size in
      if is_success result
      then decoded success (some buffer') (some (binary_size % 4294967296))
      else decoded result (some buffer') (some old)

-- arnm_binary_from_base64
unfoldable pub binary_from_base64 : Option (List ℕ) → Option ℕ → Option (List ℕ) → Decoded
binary_from_base64 (some buffer) (some old) (some base64) = decode_text buffer old base64
binary_from_base64 buffer out_size base64 = decoded error_null_pointer buffer out_size

-- arnm_base64_binary_size
unfoldable pub base64_binary_size : Option (List ℕ) → ℕ → Option ℕ → Result × Option ℕ
base64_binary_size none size out_size = (error_null_pointer, out_size)
base64_binary_size (some base64) size none = (error_null_pointer, none)
base64_binary_size (some base64) size (some old) =
    if not (size % 4 == 0)
    then (error_decode_failed, some old)
    else if size == 0
    then (success, some 0)
    else (success, some (size / 4 * 3 - base64_padding base64 size))
