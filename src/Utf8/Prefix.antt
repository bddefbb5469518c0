-- ===== src/Utf8/Prefix.antt =====
-- What arnm_utf8_valid_length of src/utf8.c answers: where the text stops to be UTF-8.
use arnm.Base.{
  ℕ, zero, suc, ◌+◌, ◌<◌, ◌≡◌, ◌≢◌, refl, ap, sym, ◌∙◌, List, [], ◌∷◌, ◌++◌, some, true, ltb, ◌==◌,
  arith, length, length-append, drop, append_assoc, append-nil, Bool-cases, inl, inr, ==_iff,
  nil_of_length,
}
use arnm.Converter.Bits.{IsBytes}
use arnm.Utf8.{
  sequence_length, skip_words, skip_bytes, valid_from, utf8_valid_length, utf8_is_valid,
}
use arnm.Utf8.Scalars.{IsScalar, encode}
use arnm.Utf8.Ascii.{IsAscii, ascii_run}
use arnm.Utf8.Sequences.{sequence_length-Passed, encode-accepted}

-- the UTF-8 of scalar values
unfoldable pub encode_all : List ℕ → List ℕ
encode_all [] = []
encode_all (c ∷ chars) = encode c ++ encode_all chars

abbrev pub AreScalars : List ℕ → Type 0
AreScalars [] = Unit {0}
AreScalars (c ∷ chars) = IsScalar c × AreScalars chars

-- A text begins with the UTF-8 of scalar values, which is `n` bytes long, and what follows is no
-- scalar value's bytes: the prefix is the longest one.
pub record ValidPrefix (text : List ℕ) (n : ℕ) : Type 0 where
  pub chars : List ℕ
  pub scalars : AreScalars chars
  pub rest : List ℕ
  pub split : encode_all chars ++ rest ≡ text
  pub counted : length (encode_all chars) ≡ n
  pub longest : (c : ℕ) (more : List ℕ) → IsScalar c → encode c ++ more ≢ rest

encode-nonempty : (c : ℕ) (more : List ℕ) → encode c ++ more ≢ []
unfolding encode
encode-nonempty c more e = ground arith

encode_all-append : (xs ys : List ℕ) → encode_all (xs ++ ys) ≡ encode_all xs ++ encode_all ys
unfolding encode_all
encode_all-append [] ys = refl
encode_all-append (x ∷ xs) ys =
    ap (λ bytes. encode x ++ bytes) (encode_all-append xs ys)
    ∙ sym (append_assoc (encode x) (encode_all xs) (encode_all ys))

encode_all-ascii : (xs : List ℕ) → IsAscii xs → encode_all xs ≡ xs
unfolding encode_all encode
encode_all-ascii [] h = refl
encode_all-ascii (x ∷ xs) (a, h) =
    let one : ltb x 128 ≡ true = ground arith in
    rw one (ap (λ bytes. x ∷ bytes) (encode_all-ascii xs h))

AreScalars-ascii : (xs ys : List ℕ) → IsAscii xs → AreScalars ys → AreScalars (xs ++ ys)
AreScalars-ascii [] ys h k = k
AreScalars-ascii (x ∷ xs) ys (a, h) k = (inl (omega arith), AreScalars-ascii xs ys h k)

IsBytes-behind : (xs ys zs : List ℕ) → xs ++ ys ≡ zs → IsBytes zs → IsBytes ys
IsBytes-behind [] ys zs e h = rw e h
IsBytes-behind (x ∷ xs) ys [] e h = absurd (ground arith)
IsBytes-behind (x ∷ xs) ys (z ∷ zs) e (a, h) =
    let tail : xs ++ ys ≡ zs = cc in IsBytes-behind xs ys zs tail h

at_end : ValidPrefix [] 0
unfolding encode_all
at_end = record {
  chars = [];
  scalars = tt;
  rest = [];
  split = refl;
  counted = refl;
  longest = λ c more s. encode-nonempty c more;
}

behind_ascii :
    (run rest text : List ℕ) (n : ℕ)
    → IsAscii run
    → run ++ rest ≡ text
    → ValidPrefix rest n
    → ValidPrefix text (length run + n)
behind_ascii run rest text n a split v =
    let bytes : encode_all (run ++ v.chars) ≡ run ++ encode_all v.chars =
      encode_all-append run v.chars
      ∙ ap (λ front. front ++ encode_all v.chars) (encode_all-ascii run a) in
    record {
      chars = run ++ v.chars;
      scalars = AreScalars-ascii run v.chars a v.scalars;
      rest = v.rest;
      split =
          ap (λ front. front ++ v.rest) bytes
          ∙ append_assoc run (encode_all v.chars) v.rest
          ∙ ap (λ tail. run ++ tail) v.split
          ∙ split;
      counted =
          ap length bytes
          ∙ length-append run (encode_all v.chars)
          ∙ ap (λ k. length run + k) v.counted;
      longest = v.longest;
    }

behind_char :
    (c : ℕ) (rest text : List ℕ) (n : ℕ)
    → IsScalar c
    → encode c ++ rest ≡ text
    → ValidPrefix rest n
    → ValidPrefix text (length (encode c) + n)
unfolding encode_all
behind_char c rest text n s split v = record {
  chars = c ∷ v.chars;
  scalars = (s, v.scalars);
  rest = v.rest;
  split =
      append_assoc (encode c) (encode_all v.chars) v.rest
      ∙ ap (λ tail. encode c ++ tail) v.split
      ∙ split;
  counted =
      length-append (encode c) (encode_all v.chars) ∙ ap (λ k. length (encode c) + k) v.counted;
  longest = v.longest;
}

valid_from-ValidPrefix :
    (fuel index : ℕ) (text : List ℕ)
    → length text < fuel
    → IsBytes text
    → (n : ℕ) × (valid_from fuel index text ≡ index + n) × ValidPrefix text n
unfolding valid_from
valid_from-ValidPrefix zero index text h bs = absurd (omega arith)
valid_from-ValidPrefix (suc fuel) index [] h bs = (0, omega arith, at_end)
valid_from-ValidPrefix (suc fuel) index (b ∷ bytes) h (small, bs) = elim (Bool-cases (ltb b 128)) [
  | inl one ↦
      let words = skip_words (length (b ∷ bytes)) index (b ∷ bytes) in
      let out = skip_bytes words.0 words.1 in
      let (s, shorter) = ascii_run (length (b ∷ bytes)) index b bytes (ground arith) in
      let left = IsBytes-behind s.run out.1 (b ∷ bytes) s.split (small, bs) in
      let (n, e, v) = valid_from-ValidPrefix fuel out.0 out.1 (omega arith) left in
      (
        length s.run + n,
        rw (one, valid_from) (e ∙ omega (arith, s.counted)),
        behind_ascii s.run out.1 (b ∷ bytes) n s.ascii s.split v,
      )
  | inr high ↦ elim (Bool-cases (sequence_length b bytes == 0)) [
    | inl refused ↦
        let none_passed : sequence_length b bytes ≡ 0 = ground arith in
        (
          0,
          rw (high, refused, valid_from) (omega arith),
          record {
            chars = [];
            scalars = tt;
            rest = b ∷ bytes;
            split = unfold encode_all in refl;
            counted = unfold encode_all in refl;
            longest = λ c more s e. encode-accepted c b more bytes s (ground arith) e none_passed;
          },
        )
    | inr some_passed ↦
        let p = sequence_length-Passed b bytes (ground arith) bs (ground arith) in
        let rest = drop (sequence_length b bytes) (b ∷ bytes) in
        let left = IsBytes-behind (encode p.char) rest (b ∷ bytes) p.split (small, bs) in
        let sizes : length (encode p.char) + length rest ≡ suc (length bytes) =
          sym (length-append (encode p.char) rest) ∙ ap length p.split in
        let moved : sequence_length b bytes ≢ 0 = ground arith in
        let (n, e, v) =
          valid_from-ValidPrefix fuel (index + sequence_length b bytes) rest
            (omega (arith, p.counted)) left in
        (
          length (encode p.char) + n,
          rw (high, some_passed, valid_from) (e ∙ omega (arith, p.counted)),
          behind_char p.char rest (b ∷ bytes) n p.scalar p.split v,
        )
  ]
]

-- On every text of bytes, arnm_utf8_valid_length answers the length of its longest prefix that is
-- the UTF-8 of Unicode scalar values: the prefix is the encoder's output for such values, and no
-- scalar value's bytes begin where it ends.
pub utf8_valid_length-ValidPrefix :
    (text : List ℕ) → IsBytes text → ValidPrefix text (utf8_valid_length (some text))
unfolding utf8_valid_length
utf8_valid_length-ValidPrefix text bs =
    let (n, e, v) = valid_from-ValidPrefix (suc (length text)) 0 text (omega arith) bs in
    let plain : 0 + n ≡ n = omega arith in rw (e ∙ plain) v

-- A text that arnm_utf8_is_valid accepts is the UTF-8 of Unicode scalar values, all of it.
utf8_is_valid-encode_all :
    (text : List ℕ)
    → IsBytes text
    → utf8_is_valid (some text) (length text) ≡ true
    → (chars : List ℕ) × AreScalars chars × (encode_all chars ≡ text)
unfolding utf8_is_valid
utf8_is_valid-encode_all text bs accepted =
    let v = utf8_valid_length-ValidPrefix text bs in
    let whole = v.counted ∙ (==_iff _ _).0 accepted in
    let sizes = sym (length-append (encode_all v.chars) v.rest) ∙ ap length v.split in
    let nothing = nil_of_length v.rest (omega arith) in
    (
      v.chars,
      v.scalars,
      sym (append-nil (encode_all v.chars))
          ∙ ap (λ r. encode_all v.chars ++ r) (sym nothing)
          ∙ v.split,
    )
