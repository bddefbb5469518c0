-- ===== src/Base/Words.antt =====
-- uint32_t and uint64_t arithmetic with its wrap written out.
use Prim.Native.Nat.{ℕ, ◌+◌, ◌-◌, ◌%◌, ◌≤◌, ◌<◌}
use mathlib.Core.Path.{◌≡◌}
use native.Mathlib.Omega.{arith}

-- 2 ^ 32, one past UINT32_MAX
abbrev pub u32_mod : ℕ
u32_mod = 4294967296

abbrev pub add32 : ℕ → ℕ → ℕ
add32 a b = (a + b) % 4294967296

-- `-` on ℕ stops at 0, so the modulus is added first.
abbrev pub sub32 : ℕ → ℕ → ℕ
sub32 a b = (a + 4294967296 - b) % 4294967296

pub sub32-eq-sub : (a b : ℕ) → a < 4294967296 → b ≤ a → sub32 a b ≡ a - b
sub32-eq-sub a b h k = omega arith

pub add32-eq-add : (a b : ℕ) → a + b < 4294967296 → add32 a b ≡ a + b
add32-eq-add a b h = omega arith
