-- ===== src/Utf8/Ascii.antt =====
-- The two loops of src/utf8.c that walk over ASCII: what they pass is ASCII, and they move.
use arnm.Base.{
  ℕ, zero, suc, ◌+◌, ◌≤◌, ◌<◌, ◌≡◌, refl, ap, sym, ◌∙◌, List, [], ◌∷◌, ◌++◌, true, ltb, arith,
  length, length-append, take, drop, length-take, take-append-drop, append_assoc, Bool-cases, inl,
  inr,
}
use native.Mathlib.Decide.{dec_lt}
use arnm.Utf8.{is_ascii_word, skip_words, skip_bytes}

abbrev pub IsAscii : List ℕ → Type 0
IsAscii [] = Unit {0}
IsAscii (b ∷ bytes) = (b < 128) × IsAscii bytes

pub IsAscii-append : (xs ys : List ℕ) → IsAscii xs → IsAscii ys → IsAscii (xs ++ ys)
IsAscii-append [] ys h k = k
IsAscii-append (x ∷ xs) ys (a, h) k = (a, IsAscii-append xs ys h k)

is_ascii_word-IsAscii : (bytes : List ℕ) → is_ascii_word bytes ≡ true → IsAscii bytes
unfolding is_ascii_word
is_ascii_word-IsAscii [] e = tt
is_ascii_word-IsAscii (b ∷ bytes) e = elim (Bool-cases (is_ascii_word bytes)) [
  | inl good ↦ (ground arith, is_ascii_word-IsAscii bytes good)
  | inr bad ↦ absurd (ground arith)
]

-- A run of ASCII was passed.
pub record Skipped (index : ℕ) (text : List ℕ) (out : ℕ × List ℕ) : Type 0 where
  pub run : List ℕ
  pub ascii : IsAscii run
  pub split : run ++ out.1 ≡ text
  pub counted : out.0 ≡ index + length run

nothing : (index : ℕ) (text : List ℕ) → Skipped index text (index, text)
nothing index text = record { run = []; ascii = tt; split = refl; counted = omega arith }

pub skip_words-Skipped :
    (fuel index : ℕ) (text : List ℕ) → Skipped index text (skip_words fuel index text)
unfolding skip_words
skip_words-Skipped zero index text = nothing index text
skip_words-Skipped (suc fuel) index text = elim (Bool-cases (ltb (length text) 8)) [
  | inl short ↦ rw (short, skip_words) (nothing index text)
  | inr long ↦ elim (Bool-cases (is_ascii_word (take 8 text))) [
    | inr other ↦ rw (long, other, skip_words) (nothing index text)
    | inl word ↦
        let s = skip_words-Skipped fuel (index + 8) (drop 8 text) in
        let whole = take-append-drop 8 text in
        let eight : length (take 8 text) ≡ 8 = ground (arith, length-take 8 text) in
        rw (long, word, skip_words)
          (record {
            run = take 8 text ++ s.run;
            ascii =
                IsAscii-append (take 8 text) s.run (is_ascii_word-IsAscii (take 8 text) word)
                  s.ascii;
            split =
                append_assoc (take 8 text) s.run _
                ∙ ap (λ rest. take 8 text ++ rest) s.split
                ∙ whole;
            counted = omega (arith, s.counted, length-append (take 8 text) s.run);
          })
  ]
]

pub skip_bytes-Skipped : (index : ℕ) (text : List ℕ) → Skipped index text (skip_bytes index text)
unfolding skip_bytes
skip_bytes-Skipped index [] = nothing index []
skip_bytes-Skipped index (b ∷ bytes) = elim (Bool-cases (ltb b 128)) [
  | inr other ↦ rw (other, skip_bytes) (nothing index (b ∷ bytes))
  | inl ascii ↦
      let s = skip_bytes-Skipped (index + 1) bytes in
      rw (ascii, skip_bytes)
        (record {
          run = b ∷ s.run;
          ascii = (ground arith, s.ascii);
          split = ap (λ rest. b ∷ rest) s.split;
          counted = omega (arith, s.counted);
        })
]

skip_bytes-stop :
    (index : ℕ) (text : List ℕ) {c : ℕ} {rest : List ℕ}
    → (skip_bytes index text).1 ≡ c ∷ rest
    → 128 ≤ c
unfolding skip_bytes
skip_bytes-stop index [] e = absurd (ground arith)
skip_bytes-stop index (b ∷ bytes) {c} {rest} e = elim (Bool-cases (ltb b 128)) [
  | inl ascii ↦ skip_bytes-stop (index + 1) bytes (rw (ascii, skip_bytes) at e)
  | inr other ↦
      let f : b ∷ bytes ≡ c ∷ rest = rw (other, skip_bytes) at e in
      let same : b ≡ c = cc in ground arith
]

length-zero {ℓ} : {A : Type ℓ} (xs : List A) → length xs ≡ 0 → xs ≡ []
length-zero [] e = refl
length-zero (x ∷ xs) e = absurd (omega arith)

-- Both loops, on a text that begins with ASCII: they pass at least one byte.
pub ascii_run :
    (fuel index b : ℕ) (bytes : List ℕ)
    → b < 128
    → let words = skip_words fuel index (b ∷ bytes) in
      let out = skip_bytes words.0 words.1 in
      Skipped index (b ∷ bytes) out × (length out.1 < length (b ∷ bytes))
ascii_run fuel index b bytes lt =
    let words = skip_words fuel index (b ∷ bytes) in
    let s = skip_words-Skipped fuel index (b ∷ bytes) in
    let out = skip_bytes words.0 words.1 in
    let t = skip_bytes-Skipped words.0 words.1 in
    let total : (s.run ++ t.run) ++ out.1 ≡ b ∷ bytes =
      append_assoc s.run t.run out.1 ∙ ap (λ rest. s.run ++ rest) t.split ∙ s.split in
    let sizes : length (s.run ++ t.run) + length out.1 ≡ suc (length bytes) =
      sym (length-append (s.run ++ t.run) out.1) ∙ ap length total in
    let moved : 0 < length (s.run ++ t.run) = elim (dec_lt 0 (length (s.run ++ t.run))) [
      | yes some_run ↦ some_run
      | no none_run ↦
          let none_left = length-zero (s.run ++ t.run) (omega arith) in
          let still : out.1 ≡ b ∷ bytes = rw none_left at total in
          absurd (omega (arith, skip_bytes-stop words.0 words.1 still))
    ] in
    (
      record {
        run = s.run ++ t.run;
        ascii = IsAscii-append s.run t.run s.ascii t.ascii;
        split = total;
        counted = omega (arith, s.counted, t.counted, length-append s.run t.run);
      },
      omega arith,
    )
