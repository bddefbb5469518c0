-- ===== src/Converter/Numeral.antt =====
-- The text that src/converter.c writes for an integer is its decimal numeral.
use arnm.Base.{
  all_below, all_below-get, ℕ, zero, suc, ◌+◌, ◌-◌, ◌*◌, ◌/◌, ◌%◌, ◌≤◌, ◌<◌, ◌≡◌, refl, ap, sym,
  ◌∙◌, List, [], ◌∷◌, ◌++◌, true, false, ltb, leb, ◌==◌, if◌then◌else◌, set, drop, length,
  length-set, length-append, arith, append_assoc, ==_iff,
}
use native.Mathlib.Decide.{dec_lt}
use arnm.Converter.Decimal.{uint64_to_string_size, digit_at, write_digits}

-- The decimal numeral of a number, by one digit at a time, with room for `n` digits.
unfoldable pub numeral : ℕ → ℕ → List ℕ
numeral zero value = []
numeral (suc n) value =
    let front = numeral n (value / 10) in
    if ltb value 10 then (48 + value) ∷ [] else front ++ (48 + value % 10) ∷ []

-- the numeral of a uint64_t
abbrev pub decimal : ℕ → List ℕ
decimal value = numeral 20 value

unfoldable pub double : ℕ → ℕ
double zero = zero
double (suc n) = suc (suc (double n))

digit_at-pair :
    (r : ℕ) → r < 100 → (digit_at (r * 2) ≡ 48 + r / 10) × (digit_at (r * 2 + 1) ≡ 48 + r % 10)
digit_at-pair r h =
    let tens : all_below 100 (λ r. digit_at (r * 2) == 48 + r / 10) ≡ true = refl in
    let ones : all_below 100 (λ r. digit_at (r * 2 + 1) == 48 + r % 10) ≡ true = refl in
    (
      (==_iff _ _).0 (all_below-get 100 (λ r. digit_at (r * 2) == 48 + r / 10) tens r h),
      (==_iff _ _).0 (all_below-get 100 (λ r. digit_at (r * 2 + 1) == 48 + r % 10) ones r h),
    )

size-two :
    (value w k : ℕ)
    → uint64_to_string_size value ≡ k + 2
    → uint64_to_string_size w ≡ k
    → uint64_to_string_size value ≡ uint64_to_string_size w + 2
size-two value w k e f = omega arith

size-hundred_from :
    (value w : ℕ)
    → 100 ≤ value
    → w * 100 ≤ value
    → value < w * 100 + 100
    → value < 18446744073709551616
    → uint64_to_string_size value ≡ uint64_to_string_size w + 2
unfolding uint64_to_string_size
size-hundred_from value w h lo hi small = elim (dec_lt value 1000) [
  | yes below ↦ size-two value w 1 (ground arith) (ground arith)
  | no above ↦ elim (dec_lt value 10000) [
    | yes below ↦ size-two value w 2 (ground arith) (ground arith)
    | no above ↦ elim (dec_lt value 100000) [
      | yes below ↦ size-two value w 3 (ground arith) (ground arith)
      | no above ↦ elim (dec_lt value 1000000) [
        | yes below ↦ size-two value w 4 (ground arith) (ground arith)
        | no above ↦ elim (dec_lt value 10000000) [
          | yes below ↦ size-two value w 5 (ground arith) (ground arith)
          | no above ↦ elim (dec_lt value 100000000) [
            | yes below ↦ size-two value w 6 (ground arith) (ground arith)
            | no above ↦ elim (dec_lt value 1000000000) [
              | yes below ↦ size-two value w 7 (ground arith) (ground arith)
              | no above ↦ elim (dec_lt value 10000000000) [
                | yes below ↦ size-two value w 8 (ground arith) (ground arith)
                | no above ↦ elim (dec_lt value 100000000000) [
                  | yes below ↦ size-two value w 9 (ground arith) (ground arith)
                  | no above ↦ elim (dec_lt value 1000000000000) [
                    | yes below ↦ size-two value w 10 (ground arith) (ground arith)
                    | no above ↦ elim (dec_lt value 10000000000000) [
                      | yes below ↦ size-two value w 11 (ground arith) (ground arith)
                      | no above ↦ elim (dec_lt value 100000000000000) [
                        | yes below ↦ size-two value w 12 (ground arith) (ground arith)
                        | no above ↦ elim (dec_lt value 1000000000000000) [
                          | yes below ↦ size-two value w 13 (ground arith) (ground arith)
                          | no above ↦ elim (dec_lt value 10000000000000000) [
                            | yes below ↦ size-two value w 14 (ground arith) (ground arith)
                            | no above ↦ elim (dec_lt value 100000000000000000) [
                              | yes below ↦ size-two value w 15 (ground arith) (ground arith)
                              | no above ↦ elim (dec_lt value 1000000000000000000) [
                                | yes below ↦ size-two value w 16 (ground arith) (ground arith)
                                | no above ↦ elim (dec_lt value 10000000000000000000) [
                                  | yes below ↦ size-two value w 17 (ground arith) (ground arith)
                                  | no above ↦ size-two value w 18 (ground arith) (ground arith)
                                ]
                              ]
                            ]
                          ]
                        ]
                      ]
                    ]
                  ]
                ]
              ]
            ]
          ]
        ]
      ]
    ]
  ]
]

size-hundred :
    (value : ℕ)
    → 100 ≤ value
    → value < 18446744073709551616
    → uint64_to_string_size value ≡ uint64_to_string_size (value / 100) + 2
size-hundred value h small =
    size-hundred_from value (value / 100) h (omega arith) (omega arith) small

pub size-pos : (value : ℕ) → 1 ≤ uint64_to_string_size value
unfolding uint64_to_string_size
size-pos value = ground arith

size-small :
    (value : ℕ) → value < 100 → uint64_to_string_size value ≡ (if ltb value 10 then 1 else 2)
unfolding uint64_to_string_size
size-small value h = ground arith

pub size-le : (value : ℕ) → uint64_to_string_size value ≤ 20
unfolding uint64_to_string_size
size-le value = ground arith

-- a write at the place before a tail joins it
pub drop-set {ℓ} :
    {A : Type ℓ} (xs : List A) (i : ℕ) (v : A)
    → i < length xs
    → drop i (set xs i v) ≡ v ∷ drop (suc i) xs
drop-set [] i v h = absurd (omega arith)
drop-set (x ∷ xs) zero v h = refl
drop-set (x ∷ xs) (suc i) v h = drop-set xs i v (omega arith)

numeral-hundred :
    (n value : ℕ)
    → 100 ≤ value
    → numeral (suc (suc n)) value
      ≡ numeral n (value / 100) ++ (48 + value / 10 % 10) ∷ (48 + value % 10) ∷ []
unfolding numeral
numeral-hundred n value h =
    let big : ltb value 10 ≡ false = ground arith in
    let big_tenth : ltb (value / 10) 10 ≡ false = ground arith in
    let twice : value / 10 / 10 ≡ value / 100 = omega arith in
    rw (big, big_tenth, twice)
      (append_assoc (numeral n (value / 100)) ((48 + value / 10 % 10) ∷ [])
        ((48 + value % 10) ∷ []))

-- two writes before a place, the second first
drop-pair {ℓ} :
    {A : Type ℓ} (xs : List A) (i : ℕ) (u v : A)
    → 2 ≤ i
    → i ≤ length xs
    → drop (i - 2) (set (set xs (i - 1) v) (i - 2) u) ≡ u ∷ v ∷ drop i xs
drop-pair xs i u v two inside =
    let before : suc (i - 2) ≡ i - 1 = omega arith in
    let last : suc (i - 1) ≡ i = omega arith in
    drop-set (set xs (i - 1) v) (i - 2) u (omega (arith, length-set xs (i - 1) v))
    ∙ ap (λ k. u ∷ drop k (set xs (i - 1) v)) before
    ∙ ap (λ ys. u ∷ ys) (drop-set xs (i - 1) v (omega arith))
    ∙ ap (λ k. u ∷ v ∷ drop k xs) last

write_digits-last :
    (fuel temp : ℕ) (buffer : List ℕ)
    → temp < 100
    → uint64_to_string_size temp ≤ length buffer
    → write_digits (suc fuel) temp (uint64_to_string_size temp) buffer
      ≡ (true, numeral (suc (suc (double fuel))) temp ++ drop (uint64_to_string_size temp) buffer)
unfolding write_digits numeral
write_digits-last fuel temp buffer less room =
    let size = size-small temp less in
    let last_round : leb 100 temp ≡ false = ground arith in
    elim (dec_lt temp 10) [
      | yes one ↦
          let digit : ltb temp 10 ≡ true = ground arith in
          let first : uint64_to_string_size temp ≡ 1 = ground arith in
          rw (last_round, digit, first, write_digits)
            (ap (λ text. (true, text)) (drop-set buffer 0 (48 + temp) (omega arith)))
      | no more ↦
          let digits : ltb temp 10 ≡ false = ground arith in
          let one_left : ltb (temp / 10) 10 ≡ true = ground arith in
          let both : uint64_to_string_size temp ≡ 2 = ground arith in
          let (tens, ones) = digit_at-pair temp less in
          rw (last_round, digits, one_left, both, tens, ones, write_digits)
            (ap (λ text. (true, text))
              (drop-pair buffer 2 (48 + temp / 10) (48 + temp % 10) (omega arith) (omega arith)))
    ]

-- With room for every digit, the loop fills the places before the cursor with the numeral.
pub write_digits-numeral :
    (fuel temp : ℕ) (buffer : List ℕ)
    → temp < 18446744073709551616
    → uint64_to_string_size temp ≤ double fuel
    → uint64_to_string_size temp ≤ length buffer
    → write_digits fuel temp (uint64_to_string_size temp) buffer
      ≡ (true, numeral (double fuel) temp ++ drop (uint64_to_string_size temp) buffer)
unfolding write_digits double
write_digits-numeral zero temp buffer small fuelled room = absurd (omega (arith, size-pos temp))
write_digits-numeral (suc fuel) temp buffer small fuelled room =
    let size = uint64_to_string_size temp in
    elim (dec_lt temp 100) [
      | no big ↦
          let q = temp / 100 in
          let r = temp - q * 100 in
          let more : leb 100 temp ≡ true = ground arith in
          let grown = size-hundred temp (omega arith) small in
          let fits : ltb size 2 ≡ false = ground arith in
          let (tens, ones) = digit_at-pair r (omega arith) in
          let tens_digit : r / 10 ≡ temp / 10 % 10 = omega arith in
          let ones_digit : r % 10 ≡ temp % 10 = omega arith in
          let before : size - 2 ≡ uint64_to_string_size q = omega arith in
          let u = 48 + temp / 10 % 10 in
          let v = 48 + temp % 10 in
          let two = set (set buffer (size - 1) v) (size - 2) u in
          let long : length two ≡ length buffer =
            length-set (set buffer (size - 1) v) (size - 2) u ∙ length-set buffer (size - 1) v in
          let rest = write_digits-numeral fuel q two (omega arith) (omega arith) (omega arith) in
          let written : drop (uint64_to_string_size q) two ≡ u ∷ v ∷ drop size buffer =
            ap (λ k. drop k two) (sym before) ∙ drop-pair buffer size u v (omega arith) room in
          rw (more, fits, tens, ones, tens_digit, ones_digit, write_digits)
            (ap (λ k. write_digits fuel q k two) before
              ∙ rest
              ∙ rw (written, numeral-hundred (double fuel) temp (omega arith))
                  (ap (λ text. (true, text))
                    (sym (append_assoc (numeral (double fuel) q) (u ∷ v ∷ []) (drop size buffer)))))
      | yes less ↦ write_digits-last fuel temp buffer less room
    ]

-- The widths of the comparison ladder are the lengths of the numerals.
pub length-numeral :
    (n value : ℕ)
    → value < 18446744073709551616
    → uint64_to_string_size value ≤ double n
    → length (numeral (double n) value) ≡ uint64_to_string_size value
unfolding numeral double
length-numeral zero value small room = absurd (omega (arith, size-pos value))
length-numeral (suc n) value small room = elim (dec_lt value 100) [
  | yes less ↦ let size = size-small value less in ground arith
  | no big ↦
      let grown = size-hundred value (omega arith) small in
      let rest = length-numeral n (value / 100) (omega arith) (omega arith) in
      rw (numeral-hundred (double n) value (omega arith))
        (length-append (numeral (double n) (value / 100)) _ ∙ omega arith)
]
