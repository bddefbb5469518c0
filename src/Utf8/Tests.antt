-- ===== src/Utf8/Tests.antt =====
-- arnm_utf8_valid_length of src/utf8.c on concrete texts, and its theorem at one of them.
use arnm.Base.{ℕ, ◌≡◌, refl, List, [], ◌∷◌, some, arith}
use arnm.Utf8.{
  lead_of, all_continue, sequence_length, is_ascii_word, skip_words, skip_bytes, valid_from,
  utf8_valid_length,
}
use arnm.Utf8.Prefix.{ValidPrefix, utf8_valid_length-ValidPrefix}

-- "a", the euro sign, and half of a surrogate pair
abbrev euro : List ℕ
euro = 97 ∷ 226 ∷ 130 ∷ 172 ∷ 237 ∷ 160 ∷ 128 ∷ []

euro_length : utf8_valid_length (some euro) ≡ 4
unfolding utf8_valid_length valid_from skip_words skip_bytes is_ascii_word sequence_length lead_of
    all_continue
euro_length = refl

-- U+0000 in three bytes
overlong : utf8_valid_length (some (224 ∷ 128 ∷ 128 ∷ [])) ≡ 0
unfolding utf8_valid_length valid_from sequence_length lead_of all_continue
overlong = refl

utf8_valid_length-ValidPrefix_example : ValidPrefix euro (utf8_valid_length (some euro))
utf8_valid_length-ValidPrefix_example = utf8_valid_length-ValidPrefix euro (
  omega arith,
  (omega arith, (omega arith, (omega arith, (omega arith, (omega arith, (omega arith, tt)))))),
)
