-- ===== src/Converter/HexLaws.antt =====
-- What the hex text of bytes is, and that arnm_binary_from_hex_with_known_hex_size (src/converter.c)
-- reads it: against a reader that tells the three ranges of characters apart.
use arnm.Base.{
  ℕ, suc, ◌+◌, ◌-◌, ◌*◌, ◌/◌, ◌%◌, ◌≤◌, ◌<◌, ◌≡◌, refl, ap, sym, ◌∙◌, Option, none, some, List, [],
  ◌∷◌, ◌++◌, true, false, ltb, leb, ◌==◌, ◌&&◌, if◌then◌else◌, length, take, drop, replicate, arith,
  Option-cases, inl, inr,
}
use native.Mathlib.Decide.{ℕ_discrete}
use arnm.Result.{success, error_invalid_param, error_decode_failed}
use arnm.Converter.Bits.{bit_or-nibbles, overwrite, IsBytes}
use arnm.Converter.Buffers.{take-append, take-length, set-append, drop-lt}
use arnm.Converter.Hex.{
  hex_digit, to_hex_loop, binary_to_hex, nibble_of, is_hex, byte_of, from_hex_loop,
  binary_from_hex_with_known_hex_size, hex_max_binary_size,
}

-- The value of a hex character: a digit, an upper case letter or a lower case letter.
unfoldable pub hex_value : ℕ → Option ℕ
hex_value c =
    if leb 48 c && leb c 57
    then some (c - 48)
    else if leb 65 c && leb c 70
    then some (c - 55)
    else if leb 97 c && leb c 102
    then some (c - 87)
    else none

-- The bytes that pairs of hex characters spell, and none if a character is not hex.
unfoldable pub parse_hex : List ℕ → Option (List ℕ)
unfolding hex_value
parse_hex [] = some []
parse_hex (c ∷ []) = some []
parse_hex (high ∷ low ∷ hex) = elim (hex_value high) [
  | none ↦ none
  | some h ↦ elim (hex_value low) [
    | none ↦ none
    | some l ↦ elim (parse_hex hex) [ none ↦ none | some bytes ↦ some ((h * 16 + l) ∷ bytes) ]
  ]
]

is_hex-none : (c : ℕ) → c < 256 → hex_value c ≡ none → is_hex c ≡ false
unfolding is_hex hex_value
is_hex-none c h e = ground arith

is_hex-some :
    (c v : ℕ) → c < 256 → hex_value c ≡ some v → (is_hex c ≡ true) × (nibble_of c ≡ v) × (v < 16)
unfolding is_hex hex_value nibble_of
is_hex-some c v h e = ground arith

hex_value-digit : (n : ℕ) → n < 16 → hex_value (hex_digit n) ≡ some n
unfolding hex_value hex_digit
hex_value-digit n h = ground arith

byte_of-lem :
    (high low h l : ℕ)
    → nibble_of high ≡ h
    → nibble_of low ≡ l
    → h < 16
    → l < 16
    → byte_of high low ≡ h * 16 + l
unfolding byte_of
byte_of-lem high low h l e f hs ls = rw (e, f, bit_or-nibbles h l hs ls) (omega arith)

from_hex_loop-none :
    (hex : List ℕ) → IsBytes hex → parse_hex hex ≡ none → (from_hex_loop hex).1 ≡ true
unfolding from_hex_loop parse_hex
from_hex_loop-none [] b e = absurd (ground arith)
from_hex_loop-none (c ∷ []) b e = absurd (ground arith)
from_hex_loop-none (high ∷ low ∷ hex) (hb, (lb, b)) e = elim (Option-cases (hex_value high)) [
  | inl bad ↦ rw (is_hex-none high hb bad) refl
  | inr (h, eh) ↦ elim (Option-cases (hex_value low)) [
    | inl bad ↦ let lost = is_hex-none low lb bad in ground arith
    | inr (l, el) ↦ elim (Option-cases (parse_hex hex)) [
      | inl gone ↦ let later = from_hex_loop-none hex b gone in ground arith
      | inr (bytes, rest) ↦ absurd (let f = rw (eh, el, rest, parse_hex) at e in ground arith)
    ]
  ]
]

from_hex_loop-some :
    (hex bytes : List ℕ)
    → IsBytes hex
    → parse_hex hex ≡ some bytes
    → from_hex_loop hex ≡ (bytes, false)
unfolding from_hex_loop parse_hex
from_hex_loop-some [] bytes b e = let it : [] ≡ bytes = cc in rw (← it) refl
from_hex_loop-some (c ∷ []) bytes b e = let it : [] ≡ bytes = cc in rw (← it) refl
from_hex_loop-some (high ∷ low ∷ hex) bytes (hb, (lb, b)) e = elim (Option-cases (hex_value high)) [
  | inl bad ↦ absurd (let f = rw (bad, parse_hex) at e in ground arith)
  | inr (h, eh) ↦ elim (Option-cases (hex_value low)) [
    | inl bad ↦ absurd (let f = rw (eh, bad, parse_hex) at e in ground arith)
    | inr (l, el) ↦ elim (Option-cases (parse_hex hex)) [
      | inl gone ↦ absurd (let f = rw (eh, el, gone, parse_hex) at e in ground arith)
      | inr (rest, er) ↦
          let (h_hex, h_value, hs) = is_hex-some high h hb eh in
          let (l_hex, l_value, ls) = is_hex-some low l lb el in
          let f = rw (eh, el, er, parse_hex) at e in
          let it : (h * 16 + l) ∷ rest ≡ bytes = cc in
          rw
            (
              from_hex_loop-some hex rest b er,
              h_hex,
              l_hex,
              ← it,
              byte_of-lem high low h l h_value l_value hs ls,
            )
            refl
    ]
  ]
]

-- arnm_binary_from_hex_with_known_hex_size, on characters that are bytes, refuses an odd length
-- and leaves the buffer alone; an even number of characters gives the bytes that they spell, and
-- if one of them is not a hex character the bytes are zeros. What follows them in the buffer
-- stays.
pub binary_from_hex-parse_hex :
    (buffer hex : List ℕ) (hex_size : ℕ)
    → IsBytes (take hex_size hex)
    → binary_from_hex_with_known_hex_size (some buffer) (some hex) hex_size ≡ (
        if hex_size % 2 == 0
        then elim (parse_hex (take hex_size hex)) [
          | none ↦ (error_decode_failed, some (overwrite (replicate (hex_size / 2) 0) buffer))
          | some bytes ↦ (success, some (overwrite bytes buffer))
        ]
        else (error_invalid_param, some buffer))
unfolding binary_from_hex_with_known_hex_size
binary_from_hex-parse_hex buffer hex hex_size b =
    let chars = take hex_size hex in
    elim (ℕ_discrete (hex_size % 2) 0) [
      | no odd ↦ ground arith
      | yes even ↦
          let whole : (hex_size / 2 * 2 == hex_size) ≡ true = ground arith in
          let fair : (hex_size % 2 == 0) ≡ true = ground arith in
          rw (whole, fair)
            (elim (Option-cases (parse_hex chars)) [
              | inl bad ↦ rw (bad, from_hex_loop-none chars b bad) refl
              | inr (bytes, e) ↦ rw (e, from_hex_loop-some chars bytes b e) refl
            ])
    ]

-- The hex text of bytes is the text of those bytes and of no others.
pub parse_hex-to_hex_loop :
    (bytes : List ℕ) → IsBytes bytes → parse_hex (to_hex_loop bytes) ≡ some bytes
unfolding parse_hex to_hex_loop
parse_hex-to_hex_loop [] b = refl
parse_hex-to_hex_loop (c ∷ bytes) (small, b) =
    let whole : c / 16 * 16 + c % 16 ≡ c = omega arith in
    rw
      (
        hex_value-digit (c / 16) (omega arith),
        hex_value-digit (c % 16) (omega arith),
        parse_hex-to_hex_loop bytes b,
        whole,
        parse_hex,
      )
      refl

pub length-to_hex_loop : (bytes : List ℕ) → length (to_hex_loop bytes) ≡ length bytes * 2
unfolding to_hex_loop
length-to_hex_loop [] = refl
length-to_hex_loop (b ∷ bytes) = omega (arith, length-to_hex_loop bytes)

pub to_hex_loop-IsBytes : (bytes : List ℕ) → IsBytes (to_hex_loop bytes)
unfolding to_hex_loop hex_digit
to_hex_loop-IsBytes [] = tt
to_hex_loop-IsBytes (b ∷ bytes) = (omega arith, (omega arith, to_hex_loop-IsBytes bytes))

-- arnm_binary_to_hex writes two characters for each byte and the terminator behind them, and
-- nothing else of the buffer.
pub binary_to_hex-to_hex_loop :
    (buffer bytes : List ℕ)
    → length bytes ≤ hex_max_binary_size
    → length bytes * 2 < length buffer
    → binary_to_hex (some buffer) (some bytes) (length bytes)
      ≡ (success, some (to_hex_loop bytes ++ 0 ∷ drop (suc (length bytes * 2)) buffer))
unfolding binary_to_hex
binary_to_hex-to_hex_loop buffer bytes small room =
    let text = to_hex_loop bytes in
    let fits : ltb hex_max_binary_size (length bytes) ≡ false = ground arith in
    let (old, split) = drop-lt buffer (length bytes * 2) room in
    let index : length bytes * 2 % 4294967296 ≡ length text =
      omega (arith, length-to_hex_loop bytes) in
    rw (fits, take-length bytes, length-to_hex_loop bytes, split, index)
      (rw (set-append text old 0 (drop (suc (length bytes * 2)) buffer)) refl)

-- What arnm_binary_to_hex writes for bytes, at most ARNM_HEX_MAX_BINARY_SIZE of them, into a
-- buffer that holds their text and its terminator, arnm_binary_from_hex_with_known_hex_size reads
-- back as the same bytes.
pub hex_round_trip :
    (text buffer bytes : List ℕ)
    → IsBytes bytes
    → length bytes ≤ hex_max_binary_size
    → length bytes * 2 < length text
    → (hex : List ℕ) × (binary_to_hex (some text) (some bytes) (length bytes) ≡ (success, some hex))
      × (binary_from_hex_with_known_hex_size (some buffer) (some hex) (length bytes * 2)
          ≡ (success, some (overwrite bytes buffer)))
hex_round_trip text buffer bytes b small room =
    let rest = 0 ∷ drop (suc (length bytes * 2)) text in
    let chars : take (length bytes * 2) (to_hex_loop bytes ++ rest) ≡ to_hex_loop bytes =
      ap (λ n. take n (to_hex_loop bytes ++ rest)) (sym (length-to_hex_loop bytes))
      ∙ take-append (to_hex_loop bytes) rest in
    let even : (length bytes * 2 % 2 == 0) ≡ true = ground arith in
    (
      to_hex_loop bytes ++ rest,
      binary_to_hex-to_hex_loop text bytes small room,
      binary_from_hex-parse_hex buffer (to_hex_loop bytes ++ rest) (length bytes * 2)
            (rw chars (to_hex_loop-IsBytes bytes))
          ∙ rw (even, chars, parse_hex-to_hex_loop bytes b) refl,
    )
