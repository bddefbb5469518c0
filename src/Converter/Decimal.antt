-- ===== src/Converter/Decimal.antt =====
-- Integers as decimal text in src/converter.c. A buffer is the list of its characters, at least as
-- many as the call may write; an int64_t is its two's complement, a number below 2 ^ 64.
use arnm.Base.{
  ℕ, zero, suc, ◌+◌, ◌-◌, ◌*◌, ◌/◌, ◌%◌, List, [], ◌∷◌, Bool, true, false, ltb, leb, ◌==◌,
  if◌then◌else◌, get_or, set, drop,
}

-- arnm_uint64_to_string_size
unfoldable pub uint64_to_string_size : ℕ → ℕ
uint64_to_string_size value =
    if ltb value 100000000
    then (if ltb value 10000
        then (if ltb value 100
            then (if ltb value 10 then 1 else 2)
            else (if ltb value 1000 then 3 else 4))
        else if ltb value 1000000
        then (if ltb value 100000 then 5 else 6)
        else (if ltb value 10000000 then 7 else 8))
    else if ltb value 1000000000000
    then (if ltb value 10000000000
        then (if ltb value 1000000000 then 9 else 10)
        else (if ltb value 100000000000 then 11 else 12))
    else if ltb value 10000000000000000
    then (if ltb value 100000000000000
        then (if ltb value 10000000000000 then 13 else 14)
        else (if ltb value 1000000000000000 then 15 else 16))
    else if ltb value 100000000000000000
    then 17
    else if ltb value 1000000000000000000
    then 18
    else if ltb value 10000000000000000000
    then 19
    else 20

-- `v < 0`
abbrev pub is_negative : ℕ → Bool
is_negative v = leb 9223372036854775808 v

-- int64_to_abs_u64
unfoldable pub int64_to_abs_u64 : ℕ → ℕ
int64_to_abs_u64 v = if is_negative v then (18446744073709551616 - v) % 18446744073709551616 else v

-- arnm_int64_to_string_size
unfoldable pub int64_to_string_size : ℕ → ℕ
int64_to_string_size v =
    let str_size = uint64_to_string_size (int64_to_abs_u64 v) in
    if is_negative v then (str_size + 1) % 256 else str_size

abbrev pub digit_table : List ℕ
digit_table =
    48 ∷ 48 ∷ 48 ∷ 49 ∷ 48 ∷ 50 ∷ 48 ∷ 51 ∷ 48 ∷ 52 ∷ 48 ∷ 53 ∷ 48 ∷ 54 ∷ 48 ∷ 55 ∷ 48 ∷ 56 ∷ 48
    ∷ 57 ∷ 49 ∷ 48 ∷ 49 ∷ 49 ∷ 49 ∷ 50 ∷ 49 ∷ 51 ∷ 49 ∷ 52 ∷ 49 ∷ 53 ∷ 49 ∷ 54 ∷ 49 ∷ 55 ∷ 49 ∷ 56
    ∷ 49 ∷ 57 ∷ 50 ∷ 48 ∷ 50 ∷ 49 ∷ 50 ∷ 50 ∷ 50 ∷ 51 ∷ 50 ∷ 52 ∷ 50 ∷ 53 ∷ 50 ∷ 54 ∷ 50 ∷ 55 ∷ 50
    ∷ 56 ∷ 50 ∷ 57 ∷ 51 ∷ 48 ∷ 51 ∷ 49 ∷ 51 ∷ 50 ∷ 51 ∷ 51 ∷ 51 ∷ 52 ∷ 51 ∷ 53 ∷ 51 ∷ 54 ∷ 51 ∷ 55
    ∷ 51 ∷ 56 ∷ 51 ∷ 57 ∷ 52 ∷ 48 ∷ 52 ∷ 49 ∷ 52 ∷ 50 ∷ 52 ∷ 51 ∷ 52 ∷ 52 ∷ 52 ∷ 53 ∷ 52 ∷ 54 ∷ 52
    ∷ 55 ∷ 52 ∷ 56 ∷ 52 ∷ 57 ∷ 53 ∷ 48 ∷ 53 ∷ 49 ∷ 53 ∷ 50 ∷ 53 ∷ 51 ∷ 53 ∷ 52 ∷ 53 ∷ 53 ∷ 53 ∷ 54
    ∷ 53 ∷ 55 ∷ 53 ∷ 56 ∷ 53 ∷ 57 ∷ 54 ∷ 48 ∷ 54 ∷ 49 ∷ 54 ∷ 50 ∷ 54 ∷ 51 ∷ 54 ∷ 52 ∷ 54 ∷ 53 ∷ 54
    ∷ 54 ∷ 54 ∷ 55 ∷ 54 ∷ 56 ∷ 54 ∷ 57 ∷ 55 ∷ 48 ∷ 55 ∷ 49 ∷ 55 ∷ 50 ∷ 55 ∷ 51 ∷ 55 ∷ 52 ∷ 55 ∷ 53
    ∷ 55 ∷ 54 ∷ 55 ∷ 55 ∷ 55 ∷ 56 ∷ 55 ∷ 57 ∷ 56 ∷ 48 ∷ 56 ∷ 49 ∷ 56 ∷ 50 ∷ 56 ∷ 51 ∷ 56 ∷ 52 ∷ 56
    ∷ 53 ∷ 56 ∷ 54 ∷ 56 ∷ 55 ∷ 56 ∷ 56 ∷ 56 ∷ 57 ∷ 57 ∷ 48 ∷ 57 ∷ 49 ∷ 57 ∷ 50 ∷ 57 ∷ 51 ∷ 57 ∷ 52
    ∷ 57 ∷ 53 ∷ 57 ∷ 54 ∷ 57 ∷ 55 ∷ 57 ∷ 56 ∷ 57 ∷ 57 ∷ []

-- DIGIT_TABLE[i]
abbrev pub digit_at : ℕ → ℕ
digit_at i = get_or digit_table i 0

-- The loop and the last digits of arnm_uint64_to_string_known_string_size: whether they fit, and
-- the buffer. A number of 64 bits has ten rounds at most.
unfoldable pub write_digits : ℕ → ℕ → ℕ → List ℕ → Bool × List ℕ
write_digits zero temp cursor buffer = (false, buffer)
write_digits (suc fuel) temp cursor buffer = elim (leb 100 temp) [
  | true ↦ elim (ltb cursor 2) [
    | true ↦ (false, buffer)
    | false ↦
        let q = temp / 100 in
        let r = temp - q * 100 in
        write_digits fuel q (cursor - 2)
          (set (set buffer (cursor - 1) (digit_at (r * 2 + 1))) (cursor - 2) (digit_at (r * 2)))
  ]
  | false ↦
      if ltb temp 10
      then (if ltb cursor 1 then (false, buffer) else (true, set buffer (cursor - 1) (48 + temp)))
      else if ltb cursor 2
      then (false, buffer)
      else (
        true,
        set (set buffer (cursor - 1) (digit_at (temp * 2 + 1))) (cursor - 2) (digit_at (temp * 2)),
      )
]

-- arnm_uint64_to_string_known_string_size: the answer, and the buffer
unfoldable pub uint64_to_string_known_string_size : List ℕ → ℕ → ℕ → ℕ × List ℕ
uint64_to_string_known_string_size buffer value string_size =
    if value == 0
    then (if ltb string_size 1 then (1, buffer) else (1, set (set buffer 0 48) 1 0))
    else let (done, buffer') = write_digits 10 value string_size (set buffer string_size 0) in
      if done then (string_size, buffer') else (uint64_to_string_size value, buffer')

-- arnm_int64_to_string_known_string_size
unfoldable pub int64_to_string_known_string_size : List ℕ → ℕ → ℕ → ℕ × List ℕ
int64_to_string_known_string_size buffer value string_size =
    if is_negative value
    then (let (n, rest) =
          uint64_to_string_known_string_size (drop 1 buffer) (int64_to_abs_u64 value)
            ((string_size + 255) % 256) in
        ((n + 1) % 256, 45 ∷ rest))
    else uint64_to_string_known_string_size buffer value string_size

-- arnm_uint64_to_string
unfoldable pub uint64_to_string : List ℕ → ℕ → ℕ → ℕ × List ℕ
uint64_to_string buffer buffer_size value =
    let required_size = uint64_to_string_size value in
    if ltb buffer_size (required_size + 1)
    then (required_size, if buffer_size == 0 then buffer else set buffer 0 0)
    else uint64_to_string_known_string_size buffer value required_size

-- arnm_int64_to_string
unfoldable pub int64_to_string : List ℕ → ℕ → ℕ → ℕ × List ℕ
int64_to_string buffer buffer_size value =
    let required_size = int64_to_string_size value in
    if ltb buffer_size (required_size + 1)
    then (required_size, if buffer_size == 0 then buffer else set buffer 0 0)
    else int64_to_string_known_string_size buffer value required_size
