-- ===== src/Base/Words.antt =====
-- The machine's words: `uint8_t`, `uint32_t` and `uint64_t` arithmetic with its wrap-around.
use Prim.Native.Nat.{ℕ, ◌+◌, ◌-◌, ◌*◌, ◌/◌, ◌%◌, ◌^◌}

abbrev pub u32 : ℕ → ℕ
u32 a = a % 2 ^ 32

abbrev pub u64 : ℕ → ℕ
u64 a = a % 2 ^ 64

abbrev pub add32 : ℕ → ℕ → ℕ
add32 a b = (a + b) % 2 ^ 32

-- `a - b` on `uint32_t`, for operands in range.
abbrev pub sub32 : ℕ → ℕ → ℕ
sub32 a b = (a + 2 ^ 32 - b) % 2 ^ 32

-- `~a` on `uint32_t`.
abbrev pub not32 : ℕ → ℕ
not32 a = 2 ^ 32 - 1 - a % 2 ^ 32

-- `a << k` on `uint32_t`.
abbrev pub shl32 : ℕ → ℕ → ℕ
shl32 a k = (a * 2 ^ k) % 2 ^ 32

-- `a >> k`.
abbrev pub shr : ℕ → ℕ → ℕ
shr a k = a / 2 ^ k
