-- ===== src/Strings.antt =====
-- libc/string: copying, filling, comparing and measuring memory. A `size_t` counts the rounds.
pub mod Copies
pub mod Compares
mod Tests
use Prim.Native.Nat.{ℕ, zero, suc}
use emyx.Base.{◌+◌, ◌-◌, ◌%◌, Bool, ltb, ◌==◌, if◌then◌else◌, Option, none, some}
use emyx.Memory.{Memory}

abbrev pub poke : Memory → ℕ → ℕ → Memory
poke mem p value q = if q == p then value else mem q

-- `dst[i] = src[i]` for `n` bytes from `i` on.
pub copy_up : ℕ → ℕ → ℕ → ℕ → Memory → Memory
copy_up zero i dst src mem = mem
copy_up (suc n) i dst src mem = copy_up n (i + 1) dst src (poke mem (dst + i) (mem (src + i)))

-- `dst[i-1] = src[i-1]` for `i` from `n` down to 1.
pub copy_down : ℕ → ℕ → ℕ → Memory → Memory
copy_down zero dst src mem = mem
copy_down (suc n) dst src mem = copy_down n dst src (poke mem (dst + n) (mem (src + n)))

pub memcpy : Memory → ℕ → ℕ → ℕ → Memory
memcpy mem dst src size = copy_up size 0 dst src mem

pub memmove : Memory → ℕ → ℕ → ℕ → Memory
memmove mem dst src size =
    if ltb dst src then copy_up size 0 dst src mem else copy_down size dst src mem

-- `buf[i] = (unsigned char)value` for `n` bytes from `i` on.
pub fill_up : ℕ → ℕ → ℕ → ℕ → Memory → Memory
fill_up zero i buf value mem = mem
fill_up (suc n) i buf value mem = fill_up n (i + 1) buf value (poke mem (buf + i) (value % 256))

pub memset : Memory → ℕ → ℕ → ℕ → Memory
memset mem buf value size = fill_up size 0 buf value mem

-- The results -1, 0 and 1.
pub data Order : Type 0 where
  less equal greater : Order

pub compare_from : ℕ → ℕ → ℕ → ℕ → Memory → Order
compare_from zero i a b mem = Order.equal
compare_from (suc n) i a b mem =
    let rest = compare_from n (i + 1) a b mem in
    if ltb (mem (a + i)) (mem (b + i))
    then Order.less
    else if ltb (mem (b + i)) (mem (a + i))
    then Order.greater
    else rest

pub memcmp : Memory → ℕ → ℕ → ℕ → Order
memcmp mem a b size = compare_from size 0 a b mem

-- The loop of `strlen` with `fuel` rounds; `none` where it is not over by then.
pub strlen : ℕ → Memory → ℕ → ℕ → Option ℕ
strlen zero mem str len = none
strlen (suc fuel) mem str len =
    let rest = strlen fuel mem str (len + 1) in if mem (str + len) == 0 then some len else rest
