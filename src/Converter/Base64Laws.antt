-- ===== src/Converter/Base64Laws.antt =====
-- Base64 text of bytes decodes to the bytes (src/converter.c).
use arnm.Base.{
  all_below, all_below-get, ℕ, suc, ◌+◌, ◌-◌, ◌*◌, ◌/◌, ◌%◌, ◌≤◌, ◌<◌, ◌≡◌, ◌⊎◌, inl, inr, refl, ap,
  ◌∙◌, some, List, [], ◌∷◌, ◌++◌, Bool, true, false, ltb, ◌==◌, not, arith, length, take, drop,
  ==_iff,
}
use arnm.Result.{success, is_success}
use arnm.Converter.Bits.{overwrite, IsBytes}
use native.Mathlib.Decide.{ℕ_discrete}
use arnm.Converter.Base64.{
  value_at, alphabet_at, is_last, base64_max_binary_size, char_of, group_of, to_base64_loop,
  base64_written, binary_to_base64, base64_padding, six_bits, read_group, bytes_of, decode_loop,
  base64_decode_into, decoded, decode_text, binary_from_base64,
}
use arnm.Converter.Buffers.{take-length, take-nil, set-append, drop-lt}

value_at-alphabet_at : (s : ℕ) → s < 64 → value_at (alphabet_at s) ≡ s
value_at-alphabet_at s h =
    let all : all_below 64 (λ s. value_at (alphabet_at s) == s) ≡ true =
      unfold value_at alphabet_at in refl in
    (==_iff _ _).0 (all_below-get 64 (λ s. value_at (alphabet_at s) == s) all s h)

-- The character's value comes back, wherever it stands in its group.
char_of-six_bits :
    (k group divisor c3 : ℕ) (last : Bool)
    → six_bits k (char_of group divisor) c3 last ≡ some (group / divisor % 64)
unfolding six_bits char_of
char_of-six_bits k group divisor c3 last =
    let value = value_at-alphabet_at (group / divisor % 64) (omega arith) in
    rw value (elim (ℕ_discrete (group / divisor % 64) 255) [
      | yes out ↦ absurd (omega arith)
      | no inside ↦ ground arith
    ])

padding-six_bits : (k c3 : ℕ) → 2 ≤ k → (k ≡ 3) ⊎ (c3 ≡ 61) → six_bits k 61 c3 true ≡ some 0
unfolding six_bits value_at
padding-six_bits k c3 two e = ground arith

read_group-some :
    (c0 c1 c2 c3 v0 v1 v2 v3 : ℕ) (last : Bool)
    → six_bits 0 c0 c3 last ≡ some v0
    → six_bits 1 c1 c3 last ≡ some v1
    → six_bits 2 c2 c3 last ≡ some v2
    → six_bits 3 c3 c3 last ≡ some v3
    → read_group c0 c1 c2 c3 last ≡ some (v0 * 262144 + v1 * 4096 + v2 * 64 + v3)
unfolding read_group
read_group-some c0 c1 c2 c3 v0 v1 v2 v3 last e0 e1 e2 e3 =
    rw (e0, read_group) (rw e1 (rw e2 (rw e3 refl)))

-- a group of bytes that is taken apart and put together again
regroup :
    (group : ℕ)
    → group < 16777216
    → group / 262144 % 64 * 262144
        + group / 4096 % 64 * 4096
        + group / 64 % 64 * 64
        + group / 1 % 64
      ≡ group
regroup group h = omega arith

decode_loop_step :
    (c0 c1 c2 c3 group left : ℕ) (base64 bytes : List ℕ)
    → read_group c0 c1 c2 c3 (is_last base64) ≡ some group
    → decode_loop base64 (left - 3) ≡ some bytes
    → decode_loop (c0 ∷ c1 ∷ c2 ∷ c3 ∷ base64) left ≡ some (take left (bytes_of group) ++ bytes)
unfolding decode_loop
decode_loop_step c0 c1 c2 c3 group left base64 bytes e rest = rw (e, decode_loop) (rw rest refl)

decode_loop-whole :
    (a b c left : ℕ) (base64 bytes : List ℕ)
    → IsBytes (a ∷ b ∷ c ∷ [])
    → decode_loop base64 left ≡ some bytes
    → let group = group_of a b c in
      decode_loop
        (char_of group 262144 ∷ char_of group 4096 ∷ char_of group 64 ∷ char_of group 1 ∷ base64)
        (suc (suc (suc left)))
      ≡ some (a ∷ b ∷ c ∷ bytes)
decode_loop-whole a b c left base64 bytes (ha, (hb, (hc, _))) rest =
    let group = group_of a b c in
    let last = is_last base64 in
    let read =
      read_group-some (char_of group 262144) (char_of group 4096) (char_of group 64)
        (char_of group 1) (group / 262144 % 64) (group / 4096 % 64) (group / 64 % 64)
        (group / 1 % 64) last (char_of-six_bits 0 group 262144 _ last)
        (char_of-six_bits 1 group 4096 _ last) (char_of-six_bits 2 group 64 _ last)
        (char_of-six_bits 3 group 1 _ last) in
    let whole = read ∙ ap some (regroup group (omega arith)) in
    let less : suc (suc (suc left)) - 3 ≡ left = omega arith in
    let first : group / 65536 % 256 ≡ a = omega arith in
    let second : group / 256 % 256 ≡ b = omega arith in
    let third : group % 256 ≡ c = omega arith in
    decode_loop_step _ _ _ _ group (suc (suc (suc left))) base64 bytes whole (rw less rest)
    ∙ rw (first, second, third, take-nil left) refl

decode_loop-to_base64_loop :
    (bytes : List ℕ)
    → IsBytes bytes
    → decode_loop (to_base64_loop bytes) (length bytes) ≡ some bytes
unfolding to_base64_loop
decode_loop-to_base64_loop [] b = unfold decode_loop in refl
decode_loop-to_base64_loop (a ∷ []) (ha, _) =
    let group = group_of a 0 0 in
    let read =
      read_group-some (char_of group 262144) (char_of group 4096) 61 61 (group / 262144 % 64)
        (group / 4096 % 64) 0 0 true (char_of-six_bits 0 group 262144 61 true)
        (char_of-six_bits 1 group 4096 61 true) (padding-six_bits 2 61 (omega arith) (inr refl))
        (padding-six_bits 3 61 (omega arith) (inr refl)) in
    let same : group / 262144 % 64 * 262144 + group / 4096 % 64 * 4096 + 0 * 64 + 0 ≡ group =
      omega arith in
    let first : group / 65536 % 256 ≡ a = omega arith in
    decode_loop_step _ _ _ _ group 1 [] [] (read ∙ ap some same) (unfold decode_loop in refl)
    ∙ rw first refl
decode_loop-to_base64_loop (a ∷ b ∷ []) (ha, (hb, _)) =
    let group = group_of a b 0 in
    let read =
      read_group-some (char_of group 262144) (char_of group 4096) (char_of group 64) 61
        (group / 262144 % 64) (group / 4096 % 64) (group / 64 % 64) 0 true
        (char_of-six_bits 0 group 262144 61 true) (char_of-six_bits 1 group 4096 61 true)
        (char_of-six_bits 2 group 64 61 true) (padding-six_bits 3 61 (omega arith) (inl refl)) in
    let same : group / 262144 % 64 * 262144 + group / 4096 % 64 * 4096 + group / 64 % 64 * 64 + 0
        ≡ group =
      omega arith in
    let first : group / 65536 % 256 ≡ a = omega arith in
    let second : group / 256 % 256 ≡ b = omega arith in
    decode_loop_step _ _ _ _ group 2 [] [] (read ∙ ap some same) (unfold decode_loop in refl)
    ∙ rw (first, second) refl
decode_loop-to_base64_loop (a ∷ b ∷ c ∷ bytes) (ha, (hb, (hc, rest))) =
    decode_loop-whole a b c (length bytes) (to_base64_loop bytes) bytes (ha, (hb, (hc, tt)))
      (decode_loop-to_base64_loop bytes rest)

length-to_base64_loop :
    (bytes : List ℕ) → length (to_base64_loop bytes) ≡ (length bytes + 2) / 3 * 4
unfolding to_base64_loop
length-to_base64_loop [] = refl
length-to_base64_loop (a ∷ []) = refl
length-to_base64_loop (a ∷ b ∷ []) = refl
length-to_base64_loop (a ∷ b ∷ c ∷ bytes) = omega (arith, length-to_base64_loop bytes)

padding_cons :
    (c : ℕ) (base64 : List ℕ) (k : ℕ)
    → 2 ≤ k
    → base64_padding (c ∷ base64) (suc k) ≡ base64_padding base64 k
unfolding base64_padding
padding_cons c base64 k h =
    let one : suc k - 1 ≡ suc (k - 1) = omega arith in
    let two : suc k - 2 ≡ suc (k - 2) = omega arith in rw (one, two) refl

char_of-no_padding : (group divisor : ℕ) → (char_of group divisor == 61) ≡ false
unfolding char_of
char_of-no_padding group divisor =
    let all : all_below 64 (λ s. not (alphabet_at s == 61)) ≡ true = unfold alphabet_at in refl in
    let one =
      all_below-get 64 (λ s. not (alphabet_at s == 61)) all (group / divisor % 64) (omega arith) in
    ground arith

padding_one : (c0 c1 c2 : ℕ) → (c2 == 61) ≡ false → base64_padding (c0 ∷ c1 ∷ c2 ∷ 61 ∷ []) 4 ≡ 1
unfolding base64_padding
padding_one c0 c1 c2 e = rw e refl

padding_none :
    (c0 c1 c2 c3 : ℕ) → (c3 == 61) ≡ false → base64_padding (c0 ∷ c1 ∷ c2 ∷ c3 ∷ []) 4 ≡ 0
unfolding base64_padding
padding_none c0 c1 c2 c3 e = rw e refl

-- The padding is what the text has more than the bytes.
padding-to_base64_loop :
    (bytes : List ℕ)
    → 0 < length bytes
    → let text = to_base64_loop bytes in
      base64_padding text (length text) + length bytes ≡ (length bytes + 2) / 3 * 3
unfolding to_base64_loop
padding-to_base64_loop [] h = absurd (omega arith)
padding-to_base64_loop (a ∷ []) h = unfold base64_padding in refl
padding-to_base64_loop (a ∷ b ∷ []) h =
    ap (λ n. n + 2) (padding_one _ _ _ (char_of-no_padding (group_of a b 0) 64))
padding-to_base64_loop (a ∷ b ∷ c ∷ []) h =
    ap (λ n. n + 3) (padding_none _ _ _ _ (char_of-no_padding (group_of a b c) 1))
padding-to_base64_loop (a ∷ b ∷ c ∷ d ∷ bytes) h =
    let text = to_base64_loop (d ∷ bytes) in
    let long = length-to_base64_loop (d ∷ bytes) in
    let group = group_of a b c in
    let n = length text in
    let here : base64_padding
          (char_of group 262144 ∷ char_of group 4096 ∷ char_of group 64 ∷ char_of group 1 ∷ text)
          (suc (suc (suc (suc n))))
        ≡ base64_padding text n =
      padding_cons _ _ (suc (suc (suc n))) (omega arith)
      ∙ padding_cons _ _ (suc (suc n)) (omega arith)
      ∙ padding_cons _ _ (suc n) (omega arith)
      ∙ padding_cons _ _ n (omega arith) in
    omega (arith, here, padding-to_base64_loop (d ∷ bytes) (omega arith))

decode_text-to_base64_loop :
    (buffer bytes : List ℕ) (old : ℕ)
    → IsBytes bytes
    → length bytes ≤ base64_max_binary_size
    → decode_text buffer old (to_base64_loop bytes)
      ≡ decoded success (some (overwrite bytes buffer)) (some (length bytes))
unfolding decode_text base64_decode_into is_success
decode_text-to_base64_loop buffer [] old b small = unfold to_base64_loop in refl
decode_text-to_base64_loop buffer (a ∷ bytes) old b small =
    let all = a ∷ bytes in
    let text = to_base64_loop all in
    let n = length text in
    let long = length-to_base64_loop all in
    let padded = padding-to_base64_loop all (omega arith) in
    let some_chars : (n == 0) ≡ false = ground arith in
    let whole : (n % 4 == 0) ≡ true = ground arith in
    let size : n / 4 * 3 - base64_padding text n ≡ length all = omega arith in
    let fits : length all % 4294967296 ≡ length all = omega arith in
    rw
      (
        some_chars,
        whole,
        size,
        take-length text,
        decode_loop-to_base64_loop all b,
        fits,
        decode_text,
        base64_decode_into,
      )
      refl

-- arnm_binary_to_base64 writes the text and the terminator behind it, and nothing else.
pub binary_to_base64-to_base64_loop :
    (buffer bytes : List ℕ)
    → length bytes ≤ base64_max_binary_size
    → (length bytes + 2) / 3 * 4 < length buffer
    → binary_to_base64 (some buffer) (some bytes) (length bytes)
      ≡ (success, some (to_base64_loop bytes ++ 0 ∷ drop (suc ((length bytes + 2) / 3 * 4)) buffer))
unfolding binary_to_base64
binary_to_base64-to_base64_loop buffer bytes small room =
    let text = to_base64_loop bytes in
    let n = (length bytes + 2) / 3 * 4 in
    let long = length-to_base64_loop bytes in
    let fits : ltb base64_max_binary_size (length bytes) ≡ false = ground arith in
    let (old, split) = drop-lt buffer n room in
    let index : base64_written (length bytes) ≡ length text = rw long (ground arith) in
    rw (fits, take-length bytes, index)
      (rw (long, split)
        (rw (← long)
          (ap (λ t. (success, some t)) (set-append text old 0 (drop (suc (length text)) buffer)))))

-- What arnm_binary_to_base64 writes for bytes, at most ARNM_BASE64_MAX_BINARY_SIZE of them, into a
-- buffer that holds their text and its terminator, arnm_binary_from_base64 decodes to the same
-- bytes and their number.
pub base64_round_trip :
    (text buffer bytes : List ℕ) (old : ℕ)
    → IsBytes bytes
    → length bytes ≤ base64_max_binary_size
    → (length bytes + 2) / 3 * 4 < length text
    → (base64 rest : List ℕ) × (binary_to_base64 (some text) (some bytes) (length bytes)
        ≡ (success, some (base64 ++ 0 ∷ rest)))
      × (binary_from_base64 (some buffer) (some old) (some base64)
          ≡ decoded success (some (overwrite bytes buffer)) (some (length bytes)))
unfolding binary_from_base64
base64_round_trip text buffer bytes old b small room = (
  to_base64_loop bytes,
  drop (suc ((length bytes + 2) / 3 * 4)) text,
  binary_to_base64-to_base64_loop text bytes small room,
  decode_text-to_base64_loop buffer bytes old b small,
)
