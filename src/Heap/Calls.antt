-- ===== src/Heap/Calls.antt =====
-- kernel/mm/kmalloc.c: what `kmalloc` and `kfree` promise their callers.
use Prim.Native.Nat.{ℕ}
use emyx.Base.{
  ◌+◌, ◌*◌, ◌-◌, ◌/◌, ◌^◌, ◌<◌, ◌≡◌, ◌≢◌, ◌⊎◌, ◌↔◌, inl, inr, refl, false, ◌||◌, ltb, ◌==◌, arith,
  sub32, All, Bool-cases,
}
use emyx.Heap.{Block, Heap, header_size, max_payload, kmalloc, kfree}
use emyx.Heap.Blocks.{align_size_lem, IsLowBlock, Has}
use emyx.Heap.Coalesce.{free_at-All, free_at-Pairwise, free_at-Has}
use emyx.Heap.Pages.{Fits, IsHeap, Fits-low, Fits-IsMergeable}
use emyx.Heap.Alloc.{Mallocs, Serves-Mallocs, kmalloc_aligned-Serves}

-- `kmalloc` refuses 0 bytes and more than 4080, and changes nothing then. For any other size, in a
-- valid heap, it rounds up to a multiple of 8, and fails only where no free block is that large and
-- no page of the direct map is left; or it returns a block of that size, in use and apart from all
-- others. The heap stays valid, the blocks in use stay in use, and no other comes into use.
pub kmalloc_lem :
    (h : Heap) (size : ℕ)
    → size < 2 ^ 32
    → IsHeap h
    → ((size ≡ 0) ⊎ (4080 < size)) × (kmalloc h size ≡ (0, h))
      ⊎ Mallocs h ((size + 7) / 8 * 8) (kmalloc h size)
unfolding kmalloc
kmalloc_lem h size wide v = elim (Bool-cases ((size == 0) || ltb (2 ^ 32 - 8) size)) [
  | inl refused ↦ inl (ground arith, rw (align_size_lem size wide, refused, kmalloc))
  | inr accepted ↦ elim (Bool-cases (ltb max_payload ((size + 7) / 8 * 8))) [
    | inl large ↦ inl (ground arith, rw (align_size_lem size wide, accepted, large, kmalloc))
    | inr small ↦ inr (
        rw (align_size_lem size wide, accepted, small, kmalloc)
          (Serves-Mallocs h ((size + 7) / 8 * 8) _ v
            (kmalloc_aligned-Serves h.pmm h.blocks ((size + 7) / 8 * 8) (ground arith) v)))
  ]
]

-- `kfree` of the pointer to a block in use keeps a valid heap valid, takes that block out of use, and
-- leaves all others in use; it gives no page back. `kfree` of NULL changes nothing.
pub kfree_lem :
    (h : Heap) (p : ℕ)
    → IsHeap h
    → (kfree h 0 ≡ h)
      × IsHeap (kfree h p)
      × ((kfree h p).pmm ≡ h.pmm)
      × (p ≢ 0
          → (d : Block) → d.free ≡ false
          → Has d (kfree h p).blocks ↔ (Has d h.blocks × (d.addr ≢ sub32 p header_size)))
unfolding kfree
kfree_lem h p v = elim (Bool-cases (p == 0)) [
  | inl null ↦ (refl, rw null v, rw null refl, λ nz. absurd (ground arith))
  | inr given ↦ (
    refl,
    rw given (record {
      valid = v.valid;
      fits =
          free_at-All (Fits h.pmm) (sub32 p header_size) h.blocks (Fits-IsMergeable h.pmm)
            (λ b f. f) low v.fits;
      apart = free_at-Pairwise (sub32 p header_size) h.blocks low v.apart;
    }),
    rw given refl,
    rw given (λ nz d used. free_at-Has (sub32 p header_size) d h.blocks low v.apart used),
  )
]
  where
    low : All IsLowBlock h.blocks
    low = Fits-low h.pmm h.blocks v.fits
