-- ===== src/KeyMap/Capacity.antt =====
-- The capacities of the table of src/key_map.c.
use arnm.Base.{
  ℕ, zero, suc, ◌+◌, ◌*◌, ◌%◌, ◌^◌, ◌≤◌, ◌<◌, ◌≡◌, ◌≢◌, refl, sym, ◌∙◌, Bool, true, ltb, leb, ◌&&◌,
  ◌||◌, arith, all_below, all_below-get, inl, inr, Bool-cases,
}
use native.Mathlib.Decide.{ℕ_discrete}
use native.Mathlib.Nat.{pow-suc, pow-le-pow_right}
use arnm.KeyMap.{double_until, capacity_for, load_limit, max_keys}

-- a capacity of a table that is there: a power of two from 8 to ARNM_KEY_MAP_MAX_CAPACITY
abbrev pub IsCapacity : ℕ → Type 0
IsCapacity c = (k : ℕ) × (3 ≤ k) × (k ≤ 28) × (c ≡ 2 ^ k)

capacity_test : ℕ → Bool
capacity_test k = ltb k 3 || (leb 8 (2 ^ k) && leb (2 ^ k) 268435456)

pub capacity_bounds : (c : ℕ) → IsCapacity c → (8 ≤ c) × (c ≤ 268435456)
unfolding capacity_test
capacity_bounds c (k, low, high, power) =
    let all : all_below 29 capacity_test ≡ true = refl in
    let here = all_below-get 29 capacity_test all k (omega arith) in rw power (ground arith)

pub IsCapacity-double : (c : ℕ) → IsCapacity c → c < 268435456 → IsCapacity (c * 2 % 4294967296)
IsCapacity-double c (k, low, high, power) less = elim (ℕ_discrete k 28) [
  | yes most ↦ let top : c ≡ 268435456 = rw most at power in absurd (omega arith)
  | no below ↦
      let plain : c * 2 % 4294967296 ≡ c * 2 = omega arith in
      let next : c * 2 ≡ 2 ^ suc k = rw power (sym (pow-suc 2 k)) in
      (suc k, omega arith, omega arith, plain ∙ next)
]

-- The loop ends at a power of two that holds the keys, and at no larger one than `2 ^ i`, if that
-- holds them too.
double_until-IsCapacity :
    (rounds k n i : ℕ)
    → 3 ≤ k
    → k ≤ i
    → i ≤ 28
    → 28 < k + rounds
    → n ≤ load_limit (2 ^ i)
    → IsCapacity (double_until rounds (2 ^ k) n)
      × (n ≤ load_limit (double_until rounds (2 ^ k) n))
      × (double_until rounds (2 ^ k) n ≤ 2 ^ i)
unfolding double_until
double_until-IsCapacity zero k n i low reach high sum few = absurd (omega arith)
double_until-IsCapacity (suc rounds) k n i low reach high sum few =
    let (eight, most) = capacity_bounds (2 ^ k) (k, low, omega arith, refl) in
    let grows : 2 ^ k ≤ 2 ^ i = pow-le-pow_right (omega arith) reach in
    elim (Bool-cases (ltb (load_limit (2 ^ k)) n)) [
      | inr enough ↦ rw enough ((k, low, omega arith, refl), ground arith, grows)
      | inl more ↦
          let plain : 2 ^ k * 2 % 4294967296 ≡ 2 ^ suc k =
            (let small : 2 ^ k * 2 % 4294967296 ≡ 2 ^ k * 2 = omega arith in
              small ∙ sym (pow-suc 2 k)) in
          let short : load_limit (2 ^ k) < n = ground arith in
          let below : k ≢ i =
            λ same. let here : n ≤ load_limit (2 ^ k) = rw same few in omega (arith, here, short) in
          rw (more, plain)
            (double_until-IsCapacity rounds (suc k) n i (omega arith) (omega arith) high
              (omega arith) few)
    ]

-- For every count of keys, and every power of two `c` from 8 to ARNM_KEY_MAP_MAX_CAPACITY whose load
-- limit is not below the count, capacity_for ends at such a power of two too, and at one that is not
-- above `c`: at the smallest table for the count, wherever one within the bounds is large enough.
pub capacity_for-smallest :
    (n c : ℕ)
    → IsCapacity c
    → n ≤ load_limit c
    → IsCapacity (capacity_for n) × (n ≤ load_limit (capacity_for n)) × (capacity_for n ≤ c)
unfolding capacity_for
capacity_for-smallest n c (i, low, high, power) few =
    rw power
      (double_until-IsCapacity 32 3 n i (omega arith) low high (omega arith) (rw (← power) few))

-- The largest table holds ARNM_KEY_MAP_MAX_KEYS.
pub capacity_for-IsCapacity :
    (n : ℕ) → n ≤ max_keys → IsCapacity (capacity_for n) × (n ≤ load_limit (capacity_for n))
capacity_for-IsCapacity n few =
    let (c, enough, least) =
      capacity_for-smallest n 268435456 (28, omega arith, omega arith, refl) (omega arith) in
    (c, enough)
