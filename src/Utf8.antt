-- ===== src/Utf8.antt =====
-- arnm_utf8_valid_length of src/utf8.c. A text is the list of its bytes, and the loop sees what is
-- left of it behind `index`.
pub mod Scalars
pub mod Ascii
pub mod Sequences
pub mod Prefix
mod Tests
use arnm.Base.{
  ℕ, zero, suc, ◌+◌, ◌-◌, ◌/◌, ◌%◌, Option, none, some, List, [], ◌∷◌, Bool, true, false, ltb, leb,
  ◌==◌, not, ◌&&◌, ◌||◌, if◌then◌else◌, length, take, drop,
}

-- What the lead byte says: how many bytes follow, and the range of the first of them.
pub record Lead : Type 0 where
  pub continuations : ℕ
  pub first_low : ℕ
  pub first_high : ℕ

abbrev pub lead : ℕ → ℕ → ℕ → Option Lead
lead n low high = some (record { continuations = n; first_low = low; first_high = high })

-- the if chain on the lead byte
unfoldable pub lead_of : ℕ → Option Lead
lead_of b =
    if leb 194 b && leb b 223
    then lead 1 128 191
    else if b == 224
    then lead 2 160 191
    else if b == 237
    then lead 2 128 159
    else if (leb 225 b && leb b 236) || b == 238 || b == 239
    then lead 2 128 191
    else if b == 240
    then lead 3 144 191
    else if leb 241 b && leb b 243
    then lead 3 128 191
    else if b == 244
    then lead 3 128 143
    else none

-- `(byte & 0xC0) == 0x80` for every byte of a run
unfoldable pub all_continue : List ℕ → Bool
all_continue [] = true
all_continue (b ∷ bytes) = (b / 64 == 2) && all_continue bytes

-- The checks on a sequence: its bytes in all, and 0 where the code returns the index.
unfoldable pub sequence_length : ℕ → List ℕ → ℕ
sequence_length b [] = 0
sequence_length b (first ∷ rest) = elim (lead_of b) [
  | none ↦ 0
  | some l ↦
      if leb (suc (suc (length rest))) l.continuations
      then 0
      else if ltb first l.first_low || ltb l.first_high first
      then 0
      else if all_continue (take (l.continuations - 1) rest)
      then l.continuations + 1
      else 0
]

-- a machine word of eight bytes has no top bit set
unfoldable pub is_ascii_word : List ℕ → Bool
is_ascii_word [] = true
is_ascii_word (b ∷ bytes) = ltb b 128 && is_ascii_word bytes

-- the loop over words; a text of n bytes has at most n of them
unfoldable pub skip_words : ℕ → ℕ → List ℕ → ℕ × List ℕ
skip_words zero index rest = (index, rest)
skip_words (suc fuel) index rest = elim (ltb (length rest) 8) [
  | true ↦ (index, rest)
  | false ↦ elim (is_ascii_word (take 8 rest)) [
    | true ↦ skip_words fuel (index + 8) (drop 8 rest)
    | false ↦ (index, rest)
  ]
]

-- the loop over bytes
unfoldable pub skip_bytes : ℕ → List ℕ → ℕ × List ℕ
skip_bytes index [] = (index, [])
skip_bytes index (b ∷ bytes) = elim (ltb b 128) [
  | true ↦ skip_bytes (index + 1) bytes
  | false ↦ (index, b ∷ bytes)
]

-- The outer loop; a round takes at least one byte.
unfoldable pub valid_from : ℕ → ℕ → List ℕ → ℕ
valid_from zero index rest = index
valid_from (suc fuel) index [] = index
valid_from (suc fuel) index (b ∷ bytes) = elim (ltb b 128) [
  | true ↦
      let (at_word, behind) = skip_words (length (b ∷ bytes)) index (b ∷ bytes) in
      let (index', rest) = skip_bytes at_word behind in valid_from fuel index' rest
  | false ↦
      let n = sequence_length b bytes in
      elim (n == 0) [ true ↦ index | false ↦ valid_from fuel (index + n) (drop n (b ∷ bytes)) ]
]

-- arnm_utf8_valid_length; `none` is a NULL text
unfoldable pub utf8_valid_length : Option (List ℕ) → ℕ
utf8_valid_length none = 0
utf8_valid_length (some text) = valid_from (suc (length text)) 0 text

-- arnm_utf8_is_valid on a text, or a NULL one, and its length
unfoldable pub utf8_is_valid : Option (List ℕ) → ℕ → Bool
utf8_is_valid text count = utf8_valid_length text == count
