-- ===== src/Memory.antt =====
-- Memory as bytes at addresses, the little-endian loads of the i386, and kernel/lib/endian.c.
use emyx.Base.{ℕ, ◌+◌, ◌*◌, ◌^◌, ◌<◌, ◌≡◌, bit_or, bit_or_fields', shl32, arith}

-- The byte at each address.
abbrev pub Memory : Type 0
Memory = ℕ → ℕ

-- A `uint32_t` and a `uint64_t` field of a packed struct.
abbrev pub load32 : Memory → ℕ → ℕ
load32 mem p = mem p + mem (p + 1) * 2 ^ 8 + mem (p + 2) * 2 ^ 16 + mem (p + 3) * 2 ^ 24

abbrev pub load64 : Memory → ℕ → ℕ
load64 mem p = load32 mem p + load32 mem (p + 4) * 2 ^ 32

unfoldable pub read_le32 : Memory → ℕ → ℕ
read_le32 bytes p =
    bit_or (bit_or (bit_or (bytes p) (shl32 (bytes (p + 1)) 8)) (shl32 (bytes (p + 2)) 16))
      (shl32 (bytes (p + 3)) 24)

-- `read_le32` is the little-endian value of four bytes.
pub read_le32_lem :
    (mem : Memory) (p : ℕ) → ((q : ℕ) → mem q < 256) → read_le32 mem p ≡ load32 mem p
unfolding read_le32
read_le32_lem mem p h = ground (
  arith,
  h p,
  h (p + 1),
  h (p + 2),
  h (p + 3),
  bit_or_fields' 8 (mem (p + 1)) (mem p),
  bit_or_fields' 16 (mem (p + 2)) (mem (p + 1) * 2 ^ 8 + mem p),
  bit_or_fields' 24 (mem (p + 3)) (mem (p + 2) * 2 ^ 16 + (mem (p + 1) * 2 ^ 8 + mem p)),
)

pub load32-lt : (mem : Memory) (p : ℕ) → ((q : ℕ) → mem q < 256) → load32 mem p < 2 ^ 32
load32-lt mem p h = omega (arith, h p, h (p + 1), h (p + 2), h (p + 3))
