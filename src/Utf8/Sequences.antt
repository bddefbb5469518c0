-- ===== src/Utf8/Sequences.antt =====
-- The checks of src/utf8.c on one sequence: what they pass is one scalar value's bytes, and what they
-- refuse begins with no scalar value's bytes.
use arnm.Base.{
  ℕ, ◌+◌, ◌-◌, ◌*◌, ◌/◌, ◌%◌, ◌≤◌, ◌<◌, ◌≡◌, ◌≢◌, refl, sym, ◌∙◌, List, [], ◌∷◌, ◌++◌, true, false,
  ltb, arith, length, drop,
}
use native.Mathlib.Decide.{dec_lt}
use arnm.Converter.Bits.{IsBytes}
use arnm.Utf8.{lead_of, all_continue, sequence_length}
use arnm.Utf8.Scalars.{
  IsScalar, encode, two-accepted, three-accepted, four-accepted, two-read, two-encode, three-read,
  three-encode, four-read, four-encode,
}

-- One scalar value was passed.
pub record Passed (b : ℕ) (bytes : List ℕ) : Type 0 where
  pub char : ℕ
  pub scalar : IsScalar char
  pub split : encode char ++ drop (sequence_length b bytes) (b ∷ bytes) ≡ b ∷ bytes
  pub counted : length (encode char) ≡ sequence_length b bytes

short_two : (b x : ℕ) → 224 ≤ b → sequence_length b (x ∷ []) ≡ 0
unfolding sequence_length lead_of all_continue
short_two b x h = ground arith

short_three : (b x y : ℕ) → 240 ≤ b → sequence_length b (x ∷ y ∷ []) ≡ 0
unfolding sequence_length lead_of all_continue
short_three b x y h = ground arith

no_lead : (b : ℕ) (bytes : List ℕ) → b < 194 → 128 ≤ b → sequence_length b bytes ≡ 0
unfolding sequence_length lead_of
no_lead b [] h k = refl
no_lead b (x ∷ bytes) h k = ground arith

passed :
    (b c n : ℕ) (bytes : List ℕ)
    → IsScalar c
    → sequence_length b bytes ≡ n
    → encode c ++ drop n (b ∷ bytes) ≡ b ∷ bytes
    → length (encode c) ≡ n
    → Passed b bytes
passed b c n bytes s e split counted = record {
  char = c;
  scalar = s;
  split = rw e split;
  counted = counted ∙ sym e;
}

pub sequence_length-Passed :
    (b : ℕ) (bytes : List ℕ)
    → 128 ≤ b
    → IsBytes bytes
    → sequence_length b bytes ≢ 0
    → Passed b bytes
sequence_length-Passed b [] high bs ne = absurd (ne (unfold sequence_length in refl))
sequence_length-Passed b (x ∷ rest) high (xs, bs) ne = elim (dec_lt b 194) [
  | yes stray ↦ absurd (ne (no_lead b (x ∷ rest) stray high))
  | no lead ↦ elim (dec_lt b 224) [
    | yes two ↦
        let (n, xl, xh) = two-read b x rest (omega arith) (omega arith) ne in
        let e = two-encode b x (omega arith) (omega arith) xl xh in
        passed b ((b - 192) * 64 + (x - 128)) 2 (x ∷ rest) (ground arith) n (rw e refl) (rw e refl)
    | no more ↦ longer rest bs ne (omega arith)
  ]
]
  where
    longest :
        (y : ℕ) (rest : List ℕ)
        → y < 256
        → IsBytes rest
        → sequence_length b (x ∷ y ∷ rest) ≢ 0
        → 240 ≤ b
        → Passed b (x ∷ y ∷ rest)
    longest y [] ys rs ne h = absurd (ne (short_three b x y h))
    longest y (z ∷ rest) ys (zs, rs) ne h =
        let (n, bh, xl, xh, yl, yh, zl, zh, floor, ceiling) = four-read b x y z rest h ys zs ne in
        let (s, e) = four-encode b x y z h bh xl xh yl yh zl zh floor ceiling in
        passed b ((b - 240) * 262144 + (x - 128) * 4096 + (y - 128) * 64 + (z - 128)) 4
          (x ∷ y ∷ z ∷ rest) s n (rw e refl) (rw e refl)

    longer :
        (rest : List ℕ)
        → IsBytes rest
        → sequence_length b (x ∷ rest) ≢ 0
        → 224 ≤ b
        → Passed b (x ∷ rest)
    longer [] rs ne h = absurd (ne (short_two b x h))
    longer (y ∷ rest) (ys, rs) ne h = elim (dec_lt b 240) [
      | yes three ↦
          let (n, xl, xh, yl, yh, floor, ceiling) = three-read b x y rest h (omega arith) ys ne in
          let (s, e) = three-encode b x y h (omega arith) xl xh yl yh floor ceiling in
          passed b ((b - 224) * 4096 + (x - 128) * 64 + (y - 128)) 3 (x ∷ y ∷ rest) s n (rw e refl)
            (rw e refl)
      | no four ↦ longest y rest ys rs ne (omega arith)
    ]

-- The bytes of a scalar value above ASCII pass, whatever follows them.
pub encode-accepted :
    (c b : ℕ) (more bytes : List ℕ)
    → IsScalar c
    → 128 ≤ b
    → encode c ++ more ≡ b ∷ bytes
    → sequence_length b bytes ≢ 0
unfolding encode
encode-accepted c b more bytes s high e z = elim (dec_lt c 128) [
  | yes one ↦
      let test : ltb c 128 ≡ true = ground arith in
      let f = rw test at e in let same : c ≡ b = cc in omega arith
  | no first ↦
      let test : ltb c 128 ≡ false = ground arith in
      elim (dec_lt c 2048) [
        | yes two ↦
            let test2 : ltb c 2048 ≡ true = ground arith in
            let f = rw (test, test2) at e in
            let head : 192 + c / 64 ≡ b = cc in
            let tail : (128 + c % 64) ∷ more ≡ bytes = cc in
            let n = two-accepted c more (omega arith) two in
            let m = rw (head, tail) at n in omega arith
        | no second ↦
            let test2 : ltb c 2048 ≡ false = ground arith in
            elim (dec_lt c 65536) [
              | yes three ↦
                  let test3 : ltb c 65536 ≡ true = ground arith in
                  let f = rw (test, test2, test3) at e in
                  let head : 224 + c / 4096 ≡ b = cc in
                  let tail : (128 + c / 64 % 64) ∷ (128 + c % 64) ∷ more ≡ bytes = cc in
                  let n = three-accepted c more s (omega arith) three in
                  let m = rw (head, tail) at n in omega arith
              | no third ↦
                  let test3 : ltb c 65536 ≡ false = ground arith in
                  let f = rw (test, test2, test3) at e in
                  let head : 240 + c / 262144 ≡ b = cc in
                  let tail : (128 + c / 4096 % 64) ∷ (128 + c / 64 % 64) ∷ (128 + c % 64) ∷ more
                      ≡ bytes =
                    cc in
                  let n = four-accepted c more s (omega arith) in
                  let m = rw (head, tail) at n in omega arith
            ]
      ]
]
