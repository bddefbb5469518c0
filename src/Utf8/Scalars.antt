-- ===== src/Utf8/Scalars.antt =====
-- UTF-8 by its encoder: a Unicode scalar value and its bytes, against the checks of src/utf8.c.
use arnm.Base.{
  ℕ, ◌+◌, ◌-◌, ◌*◌, ◌/◌, ◌%◌, ◌≤◌, ◌<◌, ◌≡◌, ◌≢◌, ◌⊎◌, refl, List, [], ◌∷◌, true, false, ltb,
  if◌then◌else◌, arith,
}
use arnm.Utf8.{lead_of, all_continue, sequence_length}

-- A scalar value: a code point of Unicode that is not half of a surrogate pair.
abbrev pub IsScalar : ℕ → Type 0
IsScalar c = (c < 55296) ⊎ ((57344 ≤ c) × (c < 1114112))

-- its bytes
unfoldable pub encode : ℕ → List ℕ
encode c =
    if ltb c 128
    then c ∷ []
    else if ltb c 2048
    then (192 + c / 64) ∷ (128 + c % 64) ∷ []
    else if ltb c 65536
    then (224 + c / 4096) ∷ (128 + c / 64 % 64) ∷ (128 + c % 64) ∷ []
    else (240 + c / 262144) ∷ (128 + c / 4096 % 64) ∷ (128 + c / 64 % 64) ∷ (128 + c % 64) ∷ []

pub two-accepted :
    (c : ℕ) (more : List ℕ)
    → 128 ≤ c
    → c < 2048
    → sequence_length (192 + c / 64) ((128 + c % 64) ∷ more) ≡ 2
unfolding sequence_length lead_of all_continue
two-accepted c more lo hi = ground arith

pub three-accepted :
    (c : ℕ) (more : List ℕ)
    → IsScalar c
    → 2048 ≤ c
    → c < 65536
    → sequence_length (224 + c / 4096) ((128 + c / 64 % 64) ∷ (128 + c % 64) ∷ more) ≡ 3
unfolding sequence_length lead_of all_continue
three-accepted c more s lo hi = ground arith

pub four-accepted :
    (c : ℕ) (more : List ℕ)
    → IsScalar c
    → 65536 ≤ c
    → sequence_length
        (240 + c / 262144)
        ((128 + c / 4096 % 64) ∷ (128 + c / 64 % 64) ∷ (128 + c % 64) ∷ more)
      ≡ 4
unfolding sequence_length lead_of all_continue
four-accepted c more s lo = ground arith

pub two-read :
    (b x : ℕ) (rest : List ℕ)
    → 194 ≤ b
    → b ≤ 223
    → sequence_length b (x ∷ rest) ≢ 0
    → (sequence_length b (x ∷ rest) ≡ 2) × (128 ≤ x) × (x < 192)
unfolding sequence_length lead_of all_continue
two-read b x rest lo hi ne = ground arith

pub two-encode :
    (b x : ℕ)
    → 194 ≤ b
    → b ≤ 223
    → 128 ≤ x
    → x < 192
    → encode ((b - 192) * 64 + (x - 128)) ≡ b ∷ x ∷ []
unfolding encode
two-encode b x lo hi xl xh =
    let c = (b - 192) * 64 + (x - 128) in
    let big : ltb c 128 ≡ false = ground arith in
    let small : ltb c 2048 ≡ true = ground arith in
    let q : 192 + c / 64 ≡ b = omega arith in
    let r : 128 + c % 64 ≡ x = omega arith in rw (big, small, q, r) refl

pub three-read :
    (b x y : ℕ) (rest : List ℕ)
    → 224 ≤ b
    → b ≤ 239
    → y < 256
    → sequence_length b (x ∷ y ∷ rest) ≢ 0
    → (sequence_length b (x ∷ y ∷ rest) ≡ 3)
      × (128 ≤ x)
      × (x < 192)
      × (128 ≤ y)
      × (y < 192)
      × ((b ≢ 224) ⊎ (160 ≤ x))
      × ((b ≢ 237) ⊎ (x < 160))
unfolding sequence_length lead_of all_continue
three-read b x y rest lo hi small ne = ground arith

pub three-encode :
    (b x y : ℕ)
    → 224 ≤ b
    → b ≤ 239
    → 128 ≤ x
    → x < 192
    → 128 ≤ y
    → y < 192
    → (b ≢ 224) ⊎ (160 ≤ x)
    → (b ≢ 237) ⊎ (x < 160)
    → let c = (b - 224) * 4096 + (x - 128) * 64 + (y - 128) in
      IsScalar c × (encode c ≡ b ∷ x ∷ y ∷ [])
unfolding encode
three-encode b x y lo hi xl xh yl yh floor ceiling =
    let c = (b - 224) * 4096 + (x - 128) * 64 + (y - 128) in
    let first : ltb c 128 ≡ false = ground arith in
    let big : ltb c 2048 ≡ false = ground arith in
    let small : ltb c 65536 ≡ true = ground arith in
    let q : 224 + c / 4096 ≡ b = omega arith in
    let m : 128 + c / 64 % 64 ≡ x = omega arith in
    let r : 128 + c % 64 ≡ y = omega arith in (ground arith, rw (first, big, small, q, m, r) refl)

pub four-read :
    (b x y z : ℕ) (rest : List ℕ)
    → 240 ≤ b
    → y < 256
    → z < 256
    → sequence_length b (x ∷ y ∷ z ∷ rest) ≢ 0
    → (sequence_length b (x ∷ y ∷ z ∷ rest) ≡ 4)
      × (b ≤ 244)
      × (128 ≤ x)
      × (x < 192)
      × (128 ≤ y)
      × (y < 192)
      × (128 ≤ z)
      × (z < 192)
      × ((b ≢ 240) ⊎ (144 ≤ x))
      × ((b ≢ 244) ⊎ (x < 144))
unfolding sequence_length lead_of all_continue
four-read b x y z rest lo ys zs ne = ground arith

pub four-encode :
    (b x y z : ℕ)
    → 240 ≤ b
    → b ≤ 244
    → 128 ≤ x
    → x < 192
    → 128 ≤ y
    → y < 192
    → 128 ≤ z
    → z < 192
    → (b ≢ 240) ⊎ (144 ≤ x)
    → (b ≢ 244) ⊎ (x < 144)
    → let c = (b - 240) * 262144 + (x - 128) * 4096 + (y - 128) * 64 + (z - 128) in
      IsScalar c × (encode c ≡ b ∷ x ∷ y ∷ z ∷ [])
unfolding encode
four-encode b x y z lo hi xl xh yl yh zl zh floor ceiling =
    let c = (b - 240) * 262144 + (x - 128) * 4096 + (y - 128) * 64 + (z - 128) in
    let first : ltb c 128 ≡ false = ground arith in
    let second : ltb c 2048 ≡ false = ground arith in
    let third : ltb c 65536 ≡ false = ground arith in
    let q : 240 + c / 262144 ≡ b = omega arith in
    let m : 128 + c / 4096 % 64 ≡ x = omega arith in
    let n : 128 + c / 64 % 64 ≡ y = omega arith in
    let r : 128 + c % 64 ≡ z = omega arith in
    (ground arith, rw (first, second, third, q, m, n, r) refl)
