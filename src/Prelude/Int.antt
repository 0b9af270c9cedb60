-- ===== src/Prelude/Int.antt =====
-- The signed arguments of the program (an i64 that may be negative), over the native numbers.
use Prim.Native.Nat.{ℕ, ◌≤◌}
use native.Mathlib.Omega.{arith}
use ircbot_rs.Prelude.Tests.{ltb, if◌then◌else◌}

-- `negsuc n` is -(n + 1).
pub data ℤ : Type 0 where
  pos : ℕ → ℤ
  negsuc : ℕ → ℤ

-- `i64::clamp(lo, hi)` with natural bounds.
unfoldable pub clamp : ℕ → ℕ → ℤ → ℕ
clamp lo hi (negsuc n) = lo
clamp lo hi (pos n) = if ltb n lo then lo else if ltb hi n then hi else n

pub clamp_bounds : (lo hi : ℕ) (x : ℤ) → lo ≤ hi → (lo ≤ clamp lo hi x) × (clamp lo hi x ≤ hi)
unfolding clamp
clamp_bounds lo hi (negsuc n) h = ground arith
clamp_bounds lo hi (pos n) h = ground arith
