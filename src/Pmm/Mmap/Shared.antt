-- ===== src/Pmm/Mmap/Shared.antt =====
-- kernel/mm/pmm.c: the bytes that the kernel shares with usable memory, which `check_kernel_location` sums.
use Prim.Native.Nat.{ℕ}
use emyx.Base.{
  ◌+◌, ◌-◌, ◌%◌, ◌^◌, ◌≡◌, ◌<◌, ◌≤◌, ◌∙◌, refl, List, [], ◌∷◌, ltb, ◌==◌, if◌then◌else◌, Bool-cases,
  inl, inr, arith, All, u64,
}
use emyx.Pmm.Mmap.{Entry, Span, overlap_bytes, kernel_overlap_from}
use emyx.Pmm.Mmap.Segment.{IsLowRegion}

-- The bytes of a range that lie in a region of usable memory.
abbrev pub shared : Span → Entry → ℕ
shared range e =
    if e.type == 1
    then (if ltb (e.addr + e.len) range.end then e.addr + e.len else range.end)
      - (if ltb e.addr range.start then range.start else e.addr)
    else 0

abbrev pub shared_bytes : Span → List Entry → ℕ
shared_bytes range [] = 0
shared_bytes range (e ∷ es) = shared range e + shared_bytes range es

overlap_bytes-shared :
    (range : Span) (e : Entry)
    → IsLowRegion e
    → overlap_bytes e range.start range.end ≡ shared range e
unfolding overlap_bytes
overlap_bytes-shared range e low = elim (Bool-cases (e.type == 1)) [
  | inr other ↦ rw other refl
  | inl one ↦
      let below : e.addr + e.len + 2 ^ 18 ≤ 2 ^ 32 = low (ground arith) in
      let same : u64 (e.addr + e.len) ≡ e.addr + e.len = omega (arith, below) in
      rw (one, same) (ground arith)
]

-- The sum of the loop is that of the shared bytes, in 64 bits.
pub kernel_overlap-shared :
    (sum : ℕ) (range : Span) (es : List Entry)
    → sum < 2 ^ 64
    → All IsLowRegion es
    → kernel_overlap_from sum range es ≡ (sum + shared_bytes range es) % 2 ^ 64
unfolding kernel_overlap_from
kernel_overlap-shared sum range [] h low = omega (arith, h)
kernel_overlap-shared sum range (e ∷ es) h low =
    kernel_overlap-shared (u64 (sum + overlap_bytes e range.start range.end)) range es (omega arith)
      low.1
    ∙ omega (arith, overlap_bytes-shared range e low.0)
