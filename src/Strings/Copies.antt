-- ===== src/Strings/Copies.antt =====
-- libc/string: what memcpy, memmove and memset leave in memory.
use Prim.Native.Nat.{ℕ, zero, suc}
use emyx.Base.{
  ◌+◌, ◌-◌, ◌%◌, ◌≤◌, ◌≡◌, ◌⊎◌, inl, inr, sym, ◌∙◌, ◌&&◌, ltb, leb, if◌then◌else◌, Bool-cases,
  arith,
}
use native.Mathlib.Decide.{ℕ_discrete}
use emyx.Memory.{Memory}
use emyx.Strings.{poke, copy_up, copy_down, memcpy, memmove, fill_up, memset}

-- The memory once the bytes from `src` on are at `dst`.
abbrev pub copied : Memory → ℕ → ℕ → ℕ → ℕ → ℕ
copied mem dst src size q = if leb dst q && ltb q (dst + size) then mem (src + (q - dst)) else mem q

-- A source that is not below the target, or ends before it, is read before it is written.
abbrev ReadFirst : ℕ → ℕ → ℕ → Type 0
ReadFirst dst src end = (dst ≤ src) ⊎ (src + end ≤ dst)

copy_up_lem :
    (n i dst src : ℕ) (mem : Memory) (q : ℕ)
    → ReadFirst dst src (i + n)
    → copy_up n i dst src mem q
      ≡ (if leb (dst + i) q && ltb q (dst + i + n) then mem (src + (q - dst)) else mem q)
unfolding copy_up
copy_up_lem zero i dst src mem q h = ground arith
copy_up_lem (suc n) i dst src mem q h =
    copy_up_lem n (i + 1) dst src (poke mem (dst + i) (mem (src + i))) q (shift h)
    ∙ first (ℕ_discrete q (dst + i)) h
  where
    shift : ReadFirst dst src (i + suc n) → ReadFirst dst src (i + 1 + n)
    shift (inl above) = inl above
    shift (inr before) = inr (omega arith)

    first :
        Dec (q ≡ dst + i)
        → ReadFirst dst src (i + suc n)
        → (if leb (dst + (i + 1)) q && ltb q (dst + (i + 1) + n)
            then poke mem (dst + i) (mem (src + i)) (src + (q - dst))
            else poke mem (dst + i) (mem (src + i)) q)
          ≡ (if leb (dst + i) q && ltb q (dst + i + suc n) then mem (src + (q - dst)) else mem q)
    first (yes here) h =
        let back : dst + i - dst ≡ i = omega arith in rw (here, back) (ground arith)
    first (no other) (inl above) = ground arith
    first (no other) (inr before) = ground arith

copy_down_lem :
    (n dst src : ℕ) (mem : Memory) (q : ℕ)
    → src ≤ dst
    → copy_down n dst src mem q ≡ copied mem dst src n q
unfolding copy_down
copy_down_lem zero dst src mem q h = ground arith
copy_down_lem (suc n) dst src mem q h =
    copy_down_lem n dst src (poke mem (dst + n) (mem (src + n))) q h
    ∙ first (ℕ_discrete q (dst + n))
  where
    first :
        Dec (q ≡ dst + n)
        → copied (poke mem (dst + n) (mem (src + n))) dst src n q ≡ copied mem dst src (suc n) q
    first (yes here) = let back : dst + n - dst ≡ n = omega arith in rw (here, back) (ground arith)
    first (no other) = ground arith

-- `memmove` moves the bytes as they were before the call, however the two ranges overlap, and leaves
-- all other bytes.
pub memmove_lem :
    (mem : Memory) (dst src size q : ℕ) → memmove mem dst src size q ≡ copied mem dst src size q
unfolding memmove
memmove_lem mem dst src size q = elim (Bool-cases (ltb dst src)) [
  | inl below ↦ rw below (copy_up_lem size 0 dst src mem q (inl (ground arith)) ∙ plain)
  | inr above ↦ rw above (copy_down_lem size dst src mem q (ground arith))
]
  where
    plain :
        (if leb (dst + 0) q && ltb q (dst + 0 + size) then mem (src + (q - dst)) else mem q)
        ≡ copied mem dst src size q
    plain = ground arith

-- For two ranges that do not overlap, or a target that is not above the source, `memcpy` does what
-- `memmove` does.
pub memcpy-memmove :
    (mem : Memory) (dst src size q : ℕ)
    → (dst ≤ src) ⊎ (src + size ≤ dst)
    → memcpy mem dst src size q ≡ memmove mem dst src size q
unfolding memcpy
memcpy-memmove mem dst src size q h =
    copy_up_lem size 0 dst src mem q (at_start h)
    ∙ ground arith
    ∙ sym (memmove_lem mem dst src size q)
  where
    at_start : ReadFirst dst src size → ReadFirst dst src (0 + size)
    at_start (inl above) = inl above
    at_start (inr before) = inr (omega arith)

fill_up_lem :
    (n i buf value : ℕ) (mem : Memory) (q : ℕ)
    → fill_up n i buf value mem q
      ≡ (if leb (buf + i) q && ltb q (buf + i + n) then value % 256 else mem q)
unfolding fill_up
fill_up_lem zero i buf value mem q = ground arith
fill_up_lem (suc n) i buf value mem q =
    fill_up_lem n (i + 1) buf value (poke mem (buf + i) (value % 256)) q ∙ ground arith

-- `memset` gives each of the bytes the low byte of the value, and leaves all others.
pub memset_lem :
    (mem : Memory) (buf value size q : ℕ)
    → memset mem buf value size q ≡ (if leb buf q && ltb q (buf + size) then value % 256 else mem q)
unfolding memset
memset_lem mem buf value size q = fill_up_lem size 0 buf value mem q ∙ ground arith
