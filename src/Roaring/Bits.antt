-- ===== src/Roaring/Bits.antt =====
-- The bits of a bitmap container as the low parts that it holds.
use arnm.Base.{
  ℕ, zero, suc, ◌*◌, ◌/◌, ◌%◌, ◌^◌, ◌≤◌, ◌<◌, ◌≡◌, ◌≢◌, refl, ap, sym, ◌∙◌, List, [], ◌∷◌, ◌++◌,
  Bool, true, false, ◌||◌, inl, inr, arith, length, get_or, set, replicate, ◌==◌, if◌then◌else◌,
  Bool-cases, length-set, append_assoc, append-nil,
}
use native.Mathlib.Decide.{ℕ_discrete}
use native.Mathlib.Nat.{pow-suc, pow-succ', div-div-eq-div-mul, zero-div}
use arnm.Roaring.Containers.{test_bit, with_bit, has_bit, set_bit, set_bits}
use arnm.Roaring.Ascending.{
  IsAscending, IsAscending-snoc, IsAscending-le, IsAscending-last, IsAscending-widen,
}

-- the numbers below `n` that pass the test, in order
unfoldable pub members : (ℕ → Bool) → ℕ → List ℕ
members test zero = []
members test (suc n) = let below = members test n in if test n then below ++ n ∷ [] else below

pub members_ext :
    (f g : ℕ → Bool) (n : ℕ) → ((i : ℕ) → i < n → f i ≡ g i) → members f n ≡ members g n
unfolding members
members_ext f g zero same = refl
members_ext f g (suc n) same =
    rw (members_ext f g n (λ i less. same i (omega arith)), same n (omega arith)) refl

-- A number past all others goes behind them.
pub members-snoc :
    (f g : ℕ → Bool) (x n : ℕ)
    → x < n
    → g x ≡ true
    → ((i : ℕ) → x ≤ i → i < n → f i ≡ false)
    → ((i : ℕ) → i ≢ x → i < n → g i ≡ f i)
    → members g n ≡ members f n ++ x ∷ []
unfolding members
members-snoc f g x zero less here past same = absurd (omega arith)
members-snoc f g x (suc n) less here past same = elim (ℕ_discrete n x) [
  | yes at_x ↦
      let below : members g n ≡ members f n =
        members_ext g f n (λ i small. same i (λ e. omega arith) (omega arith)) in
      let g_n : g n ≡ true = rw at_x here in
      rw (g_n, past n (omega arith) (omega arith), below, at_x) refl
  | no other ↦
      let f_n = past n (omega arith) (omega arith) in
      let g_n = same n other (omega arith) ∙ f_n in
      rw (g_n, f_n)
        (members-snoc f g x n (omega arith) here (λ i le small. past i le (omega arith))
          (λ i ne small. same i ne (omega arith)))
]

pub members-IsAscending : (f : ℕ → Bool) (n : ℕ) → IsAscending 0 (members f n) n
unfolding members
members-IsAscending f zero = omega arith
members-IsAscending f (suc n) = elim (Bool-cases (f n)) [
  | inl in_it ↦
      rw in_it (IsAscending-snoc 0 (members f n) n n (members-IsAscending f n) (omega arith))
  | inr out_of_it ↦
      rw out_of_it
        (IsAscending-widen 0 (members f n) n (suc n) (members-IsAscending f n) (omega arith))
]

members-none : (f : ℕ → Bool) (n : ℕ) → ((i : ℕ) → f i ≡ false) → members f n ≡ []
unfolding members
members-none f zero nothing = refl
members-none f (suc n) nothing = rw (nothing n, members-none f n nothing) refl

pub first_bit : (word : ℕ) → word / 2 ^ 0 % 2 ≡ word % 2
first_bit word = omega arith

with_bit_parity : (word bit : ℕ) → with_bit word (suc bit) % 2 ≡ word % 2
with_bit_parity word bit =
    let double : 2 ^ suc bit ≡ 2 ^ bit * 2 = pow-suc 2 bit in
    elim (Bool-cases (test_bit word (suc bit))) [
      | inl there ↦ rw there refl
      | inr clear ↦ rw clear (rw double (omega arith))
    ]

pub test_bit_half : (word bit : ℕ) → test_bit word (suc bit) ≡ test_bit (word / 2) bit
test_bit_half word bit =
    let shifted : word / 2 ^ suc bit ≡ word / 2 / 2 ^ bit =
      ap (λ n. word / n) (pow-succ' 2 bit) ∙ sym (div-div-eq-div-mul word 2 (2 ^ bit)) in
    ap (λ n. n % 2 == 1) shifted

with_bit_half : (word bit : ℕ) → with_bit word (suc bit) / 2 ≡ with_bit (word / 2) bit
with_bit_half word bit =
    let double : 2 ^ suc bit ≡ 2 ^ bit * 2 = pow-suc 2 bit in
    elim (Bool-cases (test_bit (word / 2) bit)) [
      | inl there ↦ rw (test_bit_half word bit ∙ there, there) refl
      | inr clear ↦ rw (test_bit_half word bit ∙ clear, clear) (rw double (omega arith))
    ]

test_bit-with_bit :
    (word bit i : ℕ) → test_bit (with_bit word bit) i ≡ ((i == bit) || test_bit word i)
test_bit-with_bit word zero zero = ground arith
test_bit-with_bit word zero (suc i) =
    let same : with_bit word 0 / 2 ≡ word / 2 = ground arith in
    test_bit_half (with_bit word 0) i
    ∙ ap (λ n. test_bit n i) same
    ∙ sym (test_bit_half word i)
    ∙ ground arith
test_bit-with_bit word (suc bit) zero =
    ap (λ n. n == 1)
      (first_bit (with_bit word (suc bit)) ∙ with_bit_parity word bit ∙ sym (first_bit word))
    ∙ ground arith
test_bit-with_bit word (suc bit) (suc i) =
    rw (test_bit_half (with_bit word (suc bit)) i, with_bit_half word bit, test_bit_half word i)
      (test_bit-with_bit (word / 2) bit i ∙ ap (λ b. b || test_bit (word / 2) i) (ground arith))

-- A bit set in the words is the one bit that changes.
get_or-set :
    (words : List ℕ) (i j v : ℕ)
    → i < length words
    → get_or (set words i v) j 0 ≡ (if j == i then v else get_or words j 0)
get_or-set [] i j v less = absurd (omega arith)
get_or-set (w ∷ ws) zero zero v less = ground arith
get_or-set (w ∷ ws) zero (suc j) v less = ground arith
get_or-set (w ∷ ws) (suc i) zero v less = ground arith
get_or-set (w ∷ ws) (suc i) (suc j) v less = get_or-set ws i j v (omega arith) ∙ ground arith

pub has_bit-set_bit :
    (words : List ℕ) (low i : ℕ)
    → low / 64 < length words
    → has_bit (set_bit low words) i ≡ ((i == low) || has_bit words i)
unfolding has_bit set_bit
has_bit-set_bit words low i less =
    let read =
      get_or-set words (low / 64) (i / 64) (with_bit (get_or words (low / 64) 0) (low % 64)) less in
    elim (ℕ_discrete (i / 64) (low / 64)) [
      | yes same ↦
          let here : (i / 64 == low / 64) ≡ true = ground arith in
          ap (λ n. test_bit n (i % 64))
            (read ∙ rw here (ap (λ n. with_bit (get_or words n 0) (low % 64)) (sym same)))
          ∙ test_bit-with_bit (get_or words (i / 64) 0) (low % 64) (i % 64)
          ∙ ap (λ b. b || test_bit (get_or words (i / 64) 0) (i % 64)) (ground arith)
      | no other ↦
          let elsewhere : (i / 64 == low / 64) ≡ false = ground arith in
          let apart : (i == low) ≡ false = ground arith in
          let unread : get_or (set_bit low words) (i / 64) 0 ≡ get_or words (i / 64) 0 =
            rw elsewhere at read in
          rw apart (ap (λ n. test_bit n (i % 64)) unread)
    ]

pub length-set_bit : (low : ℕ) (words : List ℕ) → length (set_bit low words) ≡ length words
unfolding set_bit
length-set_bit low words = length-set words (low / 64) _

-- The low parts of 1024 words.
unfoldable pub low_parts : List ℕ → List ℕ
low_parts words = members (has_bit words) 65536

-- Above the last member every bit is clear.
members-clear :
    (f : ℕ → Bool) (n top : ℕ)
    → IsAscending 0 (members f n) top
    → (i : ℕ) → top ≤ i
    → i < n
    → f i ≡ false
unfolding members
members-clear f zero top h i le less = absurd (omega arith)
members-clear f (suc n) top h i le less = elim (Bool-cases (f n)) [
  | inl there ↦
      let (front, below) = IsAscending-last 0 (members f n) n top (rw there at h) in
      absurd (omega arith)
  | inr clear ↦ elim (ℕ_discrete i n) [
    | yes same ↦ rw same clear
    | no other ↦ members-clear f n top (rw clear at h) i le (omega arith)
  ]
]

-- Setting a bit above all others adds its low part at the end.
pub low_parts-set_bit :
    (words : List ℕ) (low : ℕ)
    → length words ≡ 1024
    → low < 65536
    → IsAscending 0 (low_parts words) low
    → low_parts (set_bit low words) ≡ low_parts words ++ low ∷ []
unfolding low_parts
low_parts-set_bit words low all small below =
    let inside : low / 64 < length words = omega arith in
    let bits = has_bit-set_bit words low in
    members-snoc (has_bit words) (has_bit (set_bit low words)) low 65536 small
      (bits low inside ∙ ground arith)
      (λ i le less. members-clear (has_bit words) 65536 low below i le less)
      (λ i ne less. let other : (i == low) ≡ false = ground arith in bits i inside ∙ rw other refl)

pub low_parts-set_bits :
    (lows words : List ℕ) (lo : ℕ)
    → length words ≡ 1024
    → IsAscending 0 (low_parts words) lo
    → IsAscending lo lows 65536
    → low_parts (set_bits lows words) ≡ low_parts words ++ lows
unfolding set_bits
low_parts-set_bits [] words lo all below h = sym (append-nil (low_parts words))
low_parts-set_bits (low ∷ lows) words lo all below (at_least, h) =
    let small = IsAscending-le (suc low) lows 65536 h in
    let under = IsAscending-widen 0 (low_parts words) lo low below at_least in
    let here = low_parts-set_bit words low all (omega arith) under in
    let next = IsAscending-snoc 0 (low_parts words) low low under (omega arith) in
    low_parts-set_bits lows (set_bit low words) (suc low) (length-set_bit low words ∙ all)
      (rw here next) h
    ∙ rw here (append_assoc (low_parts words) (low ∷ []) lows)

pub length-set_bits : (lows words : List ℕ) → length (set_bits lows words) ≡ length words
unfolding set_bits
length-set_bits [] words = refl
length-set_bits (low ∷ lows) words =
    length-set_bits lows (set_bit low words) ∙ length-set_bit low words

get_or-replicate : (n i w : ℕ) → get_or (replicate n w) i w ≡ w
get_or-replicate zero i w = refl
get_or-replicate (suc n) zero w = refl
get_or-replicate (suc n) (suc i) w = get_or-replicate n i w

-- Words that are all zero hold nothing.
pub low_parts-zeros : low_parts (replicate 1024 0) ≡ []
unfolding low_parts has_bit
low_parts-zeros =
    members-none (has_bit (replicate 1024 0)) 65536
      (λ i. rw (get_or-replicate 1024 (i / 64) 0, zero-div (2 ^ (i % 64))) refl)

-- every word is a uint64_t
abbrev pub IsWords : List ℕ → Type 0
IsWords [] = Unit {0}
IsWords (w ∷ ws) = (w < 18446744073709551616) × IsWords ws

with_bit-lt : (width bit word : ℕ) → bit < width → word < 2 ^ width → with_bit word bit < 2 ^ width
with_bit-lt zero bit word inside small = absurd (omega arith)
with_bit-lt (suc width) zero word inside small =
    let double : 2 ^ suc width ≡ 2 ^ width * 2 = pow-suc 2 width in ground arith
with_bit-lt (suc width) (suc bit) word inside small =
    let double : 2 ^ suc width ≡ 2 ^ width * 2 = pow-suc 2 width in
    let half = with_bit-lt width bit (word / 2) (omega arith) (omega arith) in
    let same = with_bit_half word bit in omega arith

set-IsWords :
    (words : List ℕ) (i w : ℕ) → IsWords words → w < 18446744073709551616 → IsWords (set words i w)
set-IsWords [] i w all small = tt
set-IsWords (v ∷ vs) zero w (first, rest) small = (small, rest)
set-IsWords (v ∷ vs) (suc i) w (first, rest) small = (first, set-IsWords vs i w rest small)

pub get_or-lt : (words : List ℕ) (i : ℕ) → IsWords words → get_or words i 0 < 18446744073709551616
get_or-lt [] i all = omega arith
get_or-lt (v ∷ vs) zero (first, rest) = first
get_or-lt (v ∷ vs) (suc i) (first, rest) = get_or-lt vs i rest

pub set_bit-IsWords : (low : ℕ) (words : List ℕ) → IsWords words → IsWords (set_bit low words)
unfolding set_bit
set_bit-IsWords low words all = set-IsWords words (low / 64) _ all (
    with_bit-lt 64 (low % 64) (get_or words (low / 64) 0) (omega arith)
      (get_or-lt words (low / 64) all))

pub set_bits-IsWords : (lows words : List ℕ) → IsWords words → IsWords (set_bits lows words)
unfolding set_bits
set_bits-IsWords [] words all = all
set_bits-IsWords (low ∷ lows) words all =
    set_bits-IsWords lows (set_bit low words) (set_bit-IsWords low words all)

pub zeros-IsWords : (n : ℕ) → IsWords (replicate n 0)
zeros-IsWords zero = tt
zeros-IsWords (suc n) = (omega arith, zeros-IsWords n)
