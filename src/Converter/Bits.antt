-- ===== src/Converter/Bits.antt =====
-- The bitwise or of the converters, on numbers.
use arnm.Base.{
  ℕ, zero, suc, ◌+◌, ◌*◌, ◌/◌, ◌%◌, ◌<◌, ◌≡◌, refl, true, ◌==◌, if◌then◌else◌, List, [], ◌∷◌, ◌++◌,
  length, take, drop, ==_iff, all_below, all_below-get,
}

-- `a | b` on the lowest `w` bits
unfoldable pub bit_or : ℕ → ℕ → ℕ → ℕ
bit_or zero a b = 0
bit_or (suc w) a b = (if a % 2 == 0 then b % 2 else 1) + 2 * bit_or w (a / 2) (b / 2)

-- two nibbles, one above the other, share no bit
pub bit_or-nibbles : (h l : ℕ) → h < 16 → l < 16 → bit_or 12 (h * 16) l ≡ h * 16 + l
unfolding bit_or
bit_or-nibbles h l hs ls =
    let rows : all_below 16 (λ h. all_below 16 (λ l. bit_or 12 (h * 16) l == h * 16 + l)) ≡ true =
      refl in
    let row =
      all_below-get 16 (λ h. all_below 16 (λ l. bit_or 12 (h * 16) l == h * 16 + l)) rows h hs in
    (==_iff _ _).0 (all_below-get 16 (λ l. bit_or 12 (h * 16) l == h * 16 + l) row l ls)

-- a run written over the front of a buffer
abbrev pub overwrite : List ℕ → List ℕ → List ℕ
overwrite text buffer = text ++ drop (length text) buffer

-- every element is a byte
abbrev pub IsBytes : List ℕ → Type 0
IsBytes [] = Unit {0}
IsBytes (c ∷ cs) = (c < 256) × IsBytes cs

pub IsBytes-take : (n : ℕ) (cs : List ℕ) → IsBytes cs → IsBytes (take n cs)
IsBytes-take zero cs h = tt
IsBytes-take (suc n) [] h = tt
IsBytes-take (suc n) (c ∷ cs) (small, rest) = (small, IsBytes-take n cs rest)
