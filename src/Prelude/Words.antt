-- ===== src/Prelude/Words.antt =====
-- Unsigned machine words: C++ arithmetic on uint8_t, uint16_t and uint32_t wraps.
use Prim.Native.Nat.{ℕ, ◌+◌, ◌-◌, ◌%◌, ◌<◌}
use mathlib.Core.Path.{◌≡◌}
use native.Mathlib.Omega.{arith}

abbrev pub u8 : ℕ → ℕ
u8 n = n % 256

abbrev pub u16 : ℕ → ℕ
u16 n = n % 65536

abbrev pub u32 : ℕ → ℕ
u32 n = n % 4294967296

-- `a - b` on uint32_t, for operands in range: the elapsed time of the sources.
abbrev pub sub32 : ℕ → ℕ → ℕ
sub32 a b = (a + 4294967296 - b) % 4294967296

-- Between two readings that are less than 2 ^ 32 ms apart the difference is exact, also where the
-- millisecond counter has wrapped.
pub sub32-u32_add : (t d : ℕ) → t < 4294967296 → d < 4294967296 → sub32 (u32 (t + d)) t ≡ d
sub32-u32_add t d ht hd = omega arith
