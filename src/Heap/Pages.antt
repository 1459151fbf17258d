-- ===== src/Heap/Pages.antt =====
-- kernel/mm/kmalloc.c: the heap's invariant, and the blocks that `new_block` makes of free pages.
use Prim.Native.Nat.{ℕ}
use emyx.Base.{
  ◌+◌, ◌*◌, ◌≤◌, ◌<◌, ◌≡◌, inl, inr, refl, true, false, Option, none, some, List, [], ◌∷◌, ◌==◌,
  arith, All, Bool-cases,
}
use native.Mathlib.Decide.{dec_lt}
use emyx.DirectMap.{
  phys_to_virt-eq, vmm_phys_to_virt, direct_map_lem, kernel_virtual_base, direct_map_limit,
}
use emyx.Pmm.{Pmm, page_size}
use emyx.Pmm.Bitmap.{used}
use emyx.Pmm.Invariant.{IsValid, taking, used-taking}
use emyx.Pmm.Alloc.{exhausted, page, pmm_alloc_page_lem, free-alloc}
use emyx.Heap.{Block, Heap, max_payload, new_block}
use emyx.Heap.Blocks.{block_end, IsLowBlock, IsHereditary, Apart, Pairwise}
use emyx.Heap.Coalesce.{IsMergeable}

-- A block lies in the direct map, in pages that the page allocator has handed out.
abbrev pub Fits : Pmm → Block → Type 0
Fits s b =
    (kernel_virtual_base ≤ b.addr)
    × (block_end b ≤ kernel_virtual_base + direct_map_limit)
    × ((q : ℕ)
        → kernel_virtual_base + q * page_size < block_end b
        → b.addr < kernel_virtual_base + (q + 1) * page_size
        → used s.bitmap q ≡ true)

-- The page allocator is valid, each block lies in pages taken from it, and no two blocks share a byte.
pub record IsHeap (h : Heap) : Type 0 where
  pub valid : IsValid h.pmm
  pub fits : All (Fits h.pmm) h.blocks
  pub apart : Pairwise h.blocks

pub All-map {ℓ κ μ} :
    {A : Type ℓ} (P : A → Type κ) (Q : A → Type μ)
    → ((a : A) → P a → Q a)
    → (xs : List A) → All P xs
    → All Q xs
All-map P Q f [] h = tt
All-map P Q f (x ∷ xs) h = (f x h.0, All-map P Q f xs h.1)

pub Fits-low : (s : Pmm) (bs : List Block) → All (Fits s) bs → All IsLowBlock bs
Fits-low s = All-map (Fits s) IsLowBlock (λ b f. omega arith)

pub Fits-IsHereditary : (s : Pmm) → IsHereditary (Fits s)
Fits-IsHereditary s b c f w =
    (omega arith, omega arith, λ q below above. f.2 q (omega arith) (omega arith))

pub Fits-IsMergeable : (s : Pmm) → IsMergeable (Fits s)
Fits-IsMergeable s b n e f f' = (
  f.0,
  omega arith,
  λ q below above. elim (dec_lt (kernel_virtual_base + q * page_size) (block_end b)) [
    | yes inside ↦ f.2 q inside above
    | no beyond ↦ f'.2 q (omega arith) (omega arith)
  ],
)

pub Fits-taking :
    (s : Pmm) (p : ℕ) → IsValid s → p < s.max_page → (b : Block) → Fits s b → Fits (taking s p) b
Fits-taking s p v lt b f =
    (f.0, f.1, λ q below above. ground (arith, used-taking s p v.counts lt q, f.2 q below above))

-- The block that fills page `p`.
abbrev pub fresh : ℕ → Block
fresh p = record { addr = kernel_virtual_base + p * page_size; size = max_payload; free = true }

-- All pages of the direct map are taken; page 0 is never handed out.
abbrev pub NoPage : Pmm → Type 0
NoPage s =
    (q : ℕ) → 1 ≤ q → q < s.max_page → q * page_size < direct_map_limit → used s.bitmap q ≡ true

-- What `new_block` may do: nothing, or take a page in the direct map for a block that fills it.
pub data NewBlock (s : Pmm) (r : Option Block × Pmm) : Type 0 where
  no_page : r ≡ (none, s) → NoPage s → NewBlock s r
  new_page :
      (p : ℕ)
      → r ≡ (some (fresh p), taking s p)
      → p < s.max_page
      → used s.bitmap p ≡ false
      → p * page_size < direct_map_limit
      → NewBlock s r

pub new_block-NewBlock : (s : Pmm) → IsValid s → NewBlock s (new_block s)
unfolding new_block
new_block-NewBlock s v = elim (pmm_alloc_page_lem s v) [
  | exhausted e all ↦ no_page (rw e refl) (λ q lo hi near. all q lo hi)
  | page p e lo hi off all ↦
      let some_addr : (p * page_size == 0) ≡ false = ground arith in
      elim (Bool-cases (vmm_phys_to_virt (p * page_size) == 0)) [
        | inl far ↦
            let back = rw e at (free-alloc s v (rw e (omega arith))) in
            no_page (rw (e, some_addr, far, back)) (λ q lo' hi' near.
              all q lo' (ground (arith, far, near, direct_map_lem (p * page_size) 0)))
        | inr near ↦
            let below : p * page_size < direct_map_limit =
              ground (arith, direct_map_lem (p * page_size) 0) in
            new_page p (rw (e, some_addr, near, phys_to_virt-eq (p * page_size) below)) hi off below
      ]
]

-- A page that was free touches no block.
pub fresh-Apart :
    (s : Pmm) (p : ℕ) → used s.bitmap p ≡ false → (b : Block) → Fits s b → Apart b (fresh p)
fresh-Apart s p off b f = elim (dec_lt b.addr (kernel_virtual_base + (p + 1) * page_size)) [
  | no after ↦ inr (omega arith)
  | yes above ↦ elim (dec_lt (kernel_virtual_base + p * page_size) (block_end b)) [
    | no before ↦ inl (omega arith)
    | yes below ↦ absurd (ground (arith, f.2 p below above))
  ]
]

pub fresh-Fits :
    (s : Pmm) (p : ℕ)
    → IsValid s
    → p < s.max_page
    → p * page_size < direct_map_limit
    → Fits (taking s p) (fresh p)
fresh-Fits s p v lt below = (
  omega arith,
  omega arith,
  λ q lo hi. let same : q ≡ p = omega arith in ground (arith, used-taking s p v.counts lt q),
)
