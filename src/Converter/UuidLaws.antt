-- ===== src/Converter/UuidLaws.antt =====
-- The text of a uuid reads back as the uuid (src/converter.c).
use arnm.Base.{
  ℕ, zero, suc, ◌≡◌, refl, ap, ◌∙◌, some, List, [], ◌∷◌, ◌++◌, arith, length, length-append, get_or,
  take, drop, replicate, append_assoc,
}
use arnm.Result.{success}
use arnm.Converter.Bits.{overwrite, IsBytes}
use arnm.Converter.Buffers.{take-append_at}
use arnm.Converter.Hex.{to_hex_loop, binary_to_hex, binary_from_hex_with_known_hex_size}
use arnm.Converter.HexLaws.{
  parse_hex-to_hex_loop, length-to_hex_loop, to_hex_loop-IsBytes, binary_to_hex-to_hex_loop,
  binary_from_hex-parse_hex,
}
use arnm.Converter.Uuid.{
  uuid_string_length, strip_dashes, add_dashes, uuid_from_string, uuid_to_string,
}

abbrev tabulate : ℕ → (ℕ → ℕ) → List ℕ
tabulate zero f = []
tabulate (suc n) f = f zero ∷ tabulate n (λ i. f (suc i))

-- a list of a known length, element by element
unroll : (n : ℕ) (xs : List ℕ) → length xs ≡ n → xs ≡ tabulate n (λ i. get_or xs i 0)
unroll zero [] e = refl
unroll zero (x ∷ xs) e = absurd (omega arith)
unroll (suc n) [] e = absurd (omega arith)
unroll (suc n) (x ∷ xs) e = ap (λ ys. x ∷ ys) (unroll n xs (omega arith))

-- The dashes go in, and come out again.
strip_dashes-add_dashes :
    (hex : List ℕ) → length hex ≡ 32 → strip_dashes (add_dashes (hex ++ 0 ∷ [])) ≡ hex
unfolding strip_dashes add_dashes
strip_dashes-add_dashes hex e = rw (unroll 32 hex e) refl

uuid_from_string-add_dashes :
    (hex out : List ℕ)
    → length hex ≡ 32
    → uuid_from_string (some out) (some (add_dashes (hex ++ 0 ∷ [])))
      ≡ binary_from_hex_with_known_hex_size (some out) (some (hex ++ 0 ∷ [])) 32
unfolding uuid_from_string
uuid_from_string-add_dashes hex out e =
    let shape : (length (add_dashes (hex ++ 0 ∷ [])) ≡ 36)
        × (get_or (add_dashes (hex ++ 0 ∷ [])) 8 0 ≡ 45)
        × (get_or (add_dashes (hex ++ 0 ∷ [])) 13 0 ≡ 45)
        × (get_or (add_dashes (hex ++ 0 ∷ [])) 18 0 ≡ 45)
        × (get_or (add_dashes (hex ++ 0 ∷ [])) 23 0 ≡ 45) =
      unfold add_dashes in rw (unroll 32 hex e) (refl, refl, refl, refl, refl) in
    let (long, d0, d1, d2, d3) = shape in
    rw (long, d0, d1, d2, d3, strip_dashes-add_dashes hex e) refl

-- The text that arnm_uuid_to_string writes for 16 bytes reads back as the same bytes, and what
-- follows its 36 characters and the terminator in the buffer stays.
pub uuid_round_trip :
    (result_buffer out uuid : List ℕ)
    → IsBytes uuid
    → length uuid ≡ 16
    → (text : List ℕ) × (length text ≡ uuid_string_length)
      × (uuid_to_string result_buffer uuid ≡ text ++ 0 ∷ drop 37 result_buffer)
      × (uuid_from_string (some out) (some text) ≡ (success, some (overwrite uuid out)))
unfolding uuid_to_string
uuid_round_trip result_buffer out uuid b sixteen =
    let hex = to_hex_loop uuid in
    let long : length hex ≡ 32 = omega (arith, length-to_hex_loop uuid) in
    let text = add_dashes (hex ++ 0 ∷ []) in
    let size : length text ≡ 36 = unfold add_dashes in rw (unroll 32 hex long) refl in
    let spelled : binary_to_hex (some (replicate 33 0)) (some uuid) 16
        ≡ (success, some (hex ++ 0 ∷ [])) =
      rw sixteen at (binary_to_hex-to_hex_loop (replicate 33 0) uuid (omega arith) (omega arith)) in
    let chars : take 32 (hex ++ 0 ∷ []) ≡ hex = take-append_at 32 hex (0 ∷ []) long in
    let read =
      binary_from_hex-parse_hex out (hex ++ 0 ∷ []) 32 (rw chars (to_hex_loop-IsBytes uuid)) in
    let ended : length (text ++ 0 ∷ []) ≡ 37 = omega (arith, length-append text (0 ∷ [])) in
    (
      text,
      size,
      rw (spelled, uuid_to_string)
          (ap (λ n. (text ++ 0 ∷ []) ++ drop n result_buffer) ended
            ∙ append_assoc text (0 ∷ []) (drop 37 result_buffer)),
      uuid_from_string-add_dashes hex out long
          ∙ read
          ∙ rw (chars, parse_hex-to_hex_loop uuid b) refl,
    )
