-- ===== src/Converter/Text.antt =====
-- What the callers of arnm_uint64_to_string and arnm_int64_to_string (src/converter.c) get.
use arnm.Base.{
  ℕ, zero, suc, ◌+◌, ◌-◌, ◌*◌, ◌/◌, ◌%◌, ◌≤◌, ◌<◌, ◌≡◌, refl, ap, sym, ◌∙◌, List, [], ◌∷◌, ◌++◌,
  true, false, ltb, ◌==◌, if◌then◌else◌, set, drop, length, length-set, arith,
}
use native.Mathlib.Decide.{dec_lt, ℕ_discrete}
use arnm.Converter.Decimal.{
  uint64_to_string_size, uint64_to_string_known_string_size, uint64_to_string, is_negative,
  int64_to_abs_u64, int64_to_string_size, int64_to_string_known_string_size, int64_to_string,
}
use arnm.Converter.Numeral.{
  numeral, decimal, double, size-pos, size-le, drop-set, write_digits-numeral, length-numeral,
}

-- arnm_uint64_to_string_size, by comparisons alone, answers the number of decimal digits of every
-- uint64_t.
pub uint64_to_string_size-decimal :
    (value : ℕ)
    → value < 18446744073709551616
    → uint64_to_string_size value ≡ length (decimal value)
unfolding double
uint64_to_string_size-decimal value small = sym (length-numeral 10 value small (size-le value))

known_string_size-zero :
    (buffer : List ℕ)
    → 1 < length buffer
    → uint64_to_string_known_string_size buffer 0 1 ≡ (1, 48 ∷ 0 ∷ drop 2 buffer)
unfolding uint64_to_string_known_string_size
known_string_size-zero [] h = absurd (omega arith)
known_string_size-zero (a ∷ []) h = absurd (omega arith)
known_string_size-zero (a ∷ b ∷ buffer) h = refl

pub known_string_size-decimal :
    (buffer : List ℕ) (value : ℕ)
    → value < 18446744073709551616
    → uint64_to_string_size value < length buffer
    → uint64_to_string_known_string_size buffer value (uint64_to_string_size value) ≡ (
      uint64_to_string_size value,
      decimal value ++ 0 ∷ drop (suc (uint64_to_string_size value)) buffer,
    )
unfolding uint64_to_string_known_string_size double
known_string_size-decimal buffer value small room =
    let size = uint64_to_string_size value in
    let ended = set buffer size 0 in
    let long : length ended ≡ length buffer = length-set buffer size 0 in
    elim (ℕ_discrete value 0) [
      | yes nothing ↦
          let one_digit : uint64_to_string_size 0 ≡ 1 = unfold uint64_to_string_size in refl in
          let wide : 1 < length buffer = omega (arith, size-pos value, rw nothing at room) in
          rw (nothing, one_digit) (known_string_size-zero buffer wide ∙ (unfold numeral in refl))
      | no some_digits ↦
          let nonzero : (value == 0) ≡ false = ground arith in
          let loop = write_digits-numeral 10 value ended small (size-le value) (omega arith) in
          rw (nonzero, uint64_to_string_known_string_size)
            (rw loop (ap (λ rest. (size, decimal value ++ rest)) (drop-set buffer size 0 room)))
    ]

-- arnm_uint64_to_string writes the decimal numeral of every uint64_t and its terminator, and
-- leaves the rest of the buffer, which is as long as it says; a buffer too small for both gets the
-- empty string, if it has any room. Either way the answer is the number of digits.
pub uint64_to_string-decimal :
    (buffer : List ℕ) (buffer_size value : ℕ)
    → value < 18446744073709551616
    → buffer_size ≤ length buffer
    → let digits = length (decimal value) in
      uint64_to_string buffer buffer_size value ≡ (
        digits,
        if ltb digits buffer_size
            then decimal value ++ 0 ∷ drop (suc digits) buffer
            else if buffer_size == 0
            then buffer
            else set buffer 0 0,
      )
unfolding uint64_to_string
uint64_to_string-decimal buffer buffer_size value small inside =
    let size = uint64_to_string_size-decimal value small in
    rw (← size) (elim (dec_lt (uint64_to_string_size value) buffer_size) [
      | yes room ↦
          let enough : ltb buffer_size (uint64_to_string_size value + 1) ≡ false = ground arith in
          let fits : ltb (uint64_to_string_size value) buffer_size ≡ true = ground arith in
          rw (enough, fits, uint64_to_string)
            (known_string_size-decimal buffer value small (omega arith))
      | no full ↦
          let short : ltb buffer_size (uint64_to_string_size value + 1) ≡ true = ground arith in
          let fails : ltb (uint64_to_string_size value) buffer_size ≡ false = ground arith in
          rw (short, fails, uint64_to_string) refl
    ])

size-abs :
    (value : ℕ)
    → value < 18446744073709551616
    → int64_to_abs_u64 value ≡ (if is_negative value then 18446744073709551616 - value else value)
unfolding int64_to_abs_u64
size-abs value small = ground arith

-- The text of an int64_t: a minus sign if it is negative, and the numeral of its magnitude, which
-- for INT64_MIN is 2 ^ 63.
unfoldable pub signed_decimal : ℕ → List ℕ
signed_decimal value =
    if is_negative value then 45 ∷ decimal (18446744073709551616 - value) else decimal value

-- arnm_int64_to_string writes the sign and the decimal numeral of every int64_t, INT64_MIN too, and
-- the terminator, into a buffer that holds them, and answers their number.
pub int64_to_string-signed_decimal :
    (buffer : List ℕ) (buffer_size value : ℕ)
    → value < 18446744073709551616
    → length (signed_decimal value) < buffer_size
    → buffer_size ≤ length buffer
    → int64_to_string buffer buffer_size value ≡ (
      length (signed_decimal value),
      signed_decimal value ++ 0 ∷ drop (suc (length (signed_decimal value))) buffer,
    )
unfolding int64_to_string int64_to_string_size int64_to_string_known_string_size signed_decimal
int64_to_string-signed_decimal [] buffer_size value small room inside = absurd (omega arith)
int64_to_string-signed_decimal (a ∷ buffer) buffer_size value small room inside =
    let abs = size-abs value small in
    elim (dec_lt value 9223372036854775808) [
      | yes plus ↦
          let sign : is_negative value ≡ false = ground arith in
          let size = uint64_to_string_size-decimal value small in
          let fits : length (decimal value) < buffer_size = rw sign at room in
          let enough : ltb buffer_size (uint64_to_string_size value + 1) ≡ false = ground arith in
          let m : int64_to_abs_u64 value ≡ value = ground arith in
          rw (sign, m, enough, ← size)
            (known_string_size-decimal (a ∷ buffer) value small (omega arith))
      | no minus ↦
          let sign : is_negative value ≡ true = ground arith in
          let magnitude = 18446744073709551616 - value in
          let m : int64_to_abs_u64 value ≡ magnitude = ground arith in
          let low : magnitude < 18446744073709551616 = omega arith in
          let size = uint64_to_string_size-decimal magnitude low in
          let top = size-le magnitude in
          let fits : suc (length (decimal magnitude)) < buffer_size = rw sign at room in
          let with_sign : (uint64_to_string_size magnitude + 1) % 256
              ≡ suc (uint64_to_string_size magnitude) =
            omega arith in
          let without : (suc (uint64_to_string_size magnitude) + 255) % 256
              ≡ uint64_to_string_size magnitude =
            omega arith in
          let enough : ltb buffer_size (suc (uint64_to_string_size magnitude) + 1) ≡ false =
            ground arith in
          rw
            (
              sign,
              m,
              with_sign,
              enough,
              without,
              known_string_size-decimal buffer magnitude low (omega arith),
              with_sign,
              ← size,
            )
            (ap
              (λ n. (
                suc (uint64_to_string_size magnitude),
                45 ∷ (decimal magnitude ++ 0 ∷ drop (suc n) buffer),
              ))
              size)
    ]

-- the number that digits spell behind `n`
unfoldable pub value_of : ℕ → List ℕ → ℕ
value_of n [] = n
value_of n (c ∷ text) = value_of (n * 10 + (c - 48)) text

value_of-append :
    (text : List ℕ) (n c : ℕ) → value_of n (text ++ c ∷ []) ≡ value_of n text * 10 + (c - 48)
unfolding value_of
value_of-append [] n c = refl
value_of-append (d ∷ text) n c = value_of-append text (n * 10 + (d - 48)) c

-- 10 ^ n
abbrev ten_to : ℕ → ℕ
ten_to zero = 1
ten_to (suc n) = 10 * ten_to n

value_of-numeral : (n value : ℕ) → value < ten_to n → value_of 0 (numeral n value) ≡ value
unfolding value_of numeral
value_of-numeral zero value h = omega arith
value_of-numeral (suc n) value h = elim (dec_lt value 10) [
  | yes one ↦ ground arith
  | no more ↦
      let front = value_of-numeral n (value / 10) (omega arith) in
      let big : ltb value 10 ≡ false = ground arith in
      rw big (value_of-append (numeral n (value / 10)) 0 (48 + value % 10) ∙ omega arith)
]

-- The numeral of a uint64_t spells that number, so no two numbers have the same text.
pub value_of-decimal :
    (value : ℕ) → value < 18446744073709551616 → value_of 0 (decimal value) ≡ value
value_of-decimal value small = value_of-numeral 20 value (omega arith)
