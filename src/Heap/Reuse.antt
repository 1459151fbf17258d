-- ===== src/Heap/Reuse.antt =====
-- kernel/mm/kmalloc.c: a freed block is the next one to be handed out.
use Prim.Native.Nat.{ℕ}
use emyx.Base.{
  ◌+◌, ◌*◌, ◌-◌, ◌/◌, ◌^◌, ◌≤◌, ◌<◌, ◌≡◌, ◌≢◌, inl, inr, refl, sym, ap, ◌∙◌, true, false, ◌||◌,
  Option, none, some, List, [], ◌∷◌, ltb, leb, ◌==◌, arith, sub32, All, Bool-cases,
}
use emyx.Heap.{
  Block, Heap, header_size, max_payload, payload, alloc_from_block, coalesce_next, first_fit, seed,
  kmalloc_aligned, kmalloc, free_at, kfree,
}
use emyx.Pmm.{Pmm}
use emyx.Heap.Blocks.{
  align_size_lem, IsLowBlock, Apart, Pairwise, Takes, here, later, is_fit, in_use_block, left_over,
  alloc_from_block-eq,
}
use emyx.Heap.Coalesce.{freed, merged, merges, coalesce_next-nil, coalesce_next-cons}
use emyx.Heap.Pages.{IsHeap, Fits-low}
use emyx.Heap.Alloc.{
  Serves, nowhere, in_list, in_new_page, kmalloc_aligned-Serves, grown, grown-IsHeap, Takes-pos,
}

-- A list that begins with a block at the same address, of the same mark, and no smaller.
data Grows (b : Block) (bs : List Block) : Type 0 where
  grows :
      (c : Block) (rest : List Block)
      → bs ≡ c ∷ rest
      → c.addr ≡ b.addr
      → c.free ≡ b.free
      → b.size ≤ c.size
      → Grows b bs

coalesce_next-Grows :
    (b : Block) (bs : List Block) → IsLowBlock b → All IsLowBlock bs → Grows b (coalesce_next b bs)
coalesce_next-Grows b [] low lows = grows b [] (coalesce_next-nil b) refl refl (omega arith)
coalesce_next-Grows b (n ∷ rest) low lows = elim (Bool-cases (merges b n)) [
  | inl joins ↦ elim (coalesce_next-Grows (merged b n) rest (ground (arith, lows.0)) lows.1) [
    | grows c rest' e at mark size ↦
        grows c rest' (rw (coalesce_next-cons b n rest low lows.0, joins) e) at mark (omega arith)
  ]
  | inr ends ↦
      grows b (n ∷ rest) (rw (coalesce_next-cons b n rest low lows.0, ends) refl) refl refl
        (omega arith)
]

-- The search takes the first block where that one fits.
abbrev Finds : ℕ → ℕ → List Block → Type 0
Finds asize a bs = (bs' : List Block) × (first_fit asize bs ≡ some (a, bs'))

Finds-head :
    (asize a : ℕ) (c : Block) (rest : List Block)
    → is_fit asize c ≡ true
    → payload c ≡ a
    → Finds asize a (c ∷ rest)
unfolding first_fit
Finds-head asize a c rest fit e = (alloc_from_block c asize rest, rw (fit, e) refl)

Finds-later :
    (asize a : ℕ) (c : Block) (rest : List Block)
    → is_fit asize c ≡ false
    → Finds asize a rest
    → Finds asize a (c ∷ rest)
unfolding first_fit
Finds-later asize a c rest unfit f = (c ∷ f.0, rw (unfit, f.1) refl)

free_at-hit :
    (a : ℕ) (b : Block) (bs : List Block)
    → b.addr ≡ a
    → free_at a (b ∷ bs) ≡ coalesce_next (freed b) bs
unfolding free_at
free_at-hit a b bs e = let hit : (b.addr == a) ≡ true = ground arith in rw hit refl

free_at-miss :
    (a : ℕ) (b : Block) (bs : List Block) → b.addr ≢ a → free_at a (b ∷ bs) ≡ b ∷ free_at a bs
unfolding free_at
free_at-miss a b bs ne = let miss : (b.addr == a) ≡ false = ground arith in rw miss refl

Takes-addr :
    (asize a : ℕ) (c : Block) {bs bs' : List Block}
    → All IsLowBlock bs
    → All (Apart c) bs
    → Takes asize a bs bs'
    → c.addr ≢ sub32 a header_size
Takes-addr asize a c low apart (here b rest fit e e') = λ same. clash apart.0 (same ∙ ground arith)
  where
    clash : Apart c b → c.addr ≡ b.addr → ⊥
    clash (inl before) e = omega arith
    clash (inr after) e = omega arith
Takes-addr asize a c low apart (later d unfit t) = Takes-addr asize a c low.1 apart.1 t

freed_head-Finds :
    (asize a : ℕ) (b : Block) (bs : List Block)
    → IsLowBlock b
    → All IsLowBlock bs
    → b.size ≡ asize
    → payload b ≡ a
    → Finds asize a (free_at (sub32 a header_size) (b ∷ bs))
freed_head-Finds asize a b bs low lows size e = elim (coalesce_next-Grows (freed b) bs low lows) [
  | grows c rest e' at mark grown_size ↦
      rw (free_at-hit (sub32 a header_size) b bs (ground arith), e')
        (Finds-head asize a c rest (ground (arith, mark)) (ground arith))
]

-- The first block that fits, freed again, is again the first that fits.
Takes-Finds :
    (asize a : ℕ) {bs bs' : List Block}
    → All IsLowBlock bs
    → Pairwise bs
    → Takes asize a bs bs'
    → Finds asize a (free_at (sub32 a header_size) bs')
Takes-Finds asize a low apart (here b rest fit e e') =
    rw (e', alloc_from_block-eq b asize rest low.0 (ground arith))
      (elim (Bool-cases (leb (asize + 20) b.size)) [
        | inl split ↦ rw split (
            freed_head-Finds asize a (in_use_block b asize) (left_over b asize ∷ rest)
              (ground arith) (ground arith, low.1) refl (sym e))
        | inr whole ↦
            rw whole (
              freed_head-Finds asize a (in_use_block b asize) rest (ground arith) low.1 refl
                (sym e))
      ])
Takes-Finds asize a low apart (later {bs' = bs'} c unfit t) =
    rw (free_at-miss (sub32 a header_size) c bs' (Takes-addr asize a c low.1 apart.0 t)) (
      Finds-later asize a c (free_at (sub32 a header_size) bs') unfit
        (Takes-Finds asize a low.1 apart.1 t))

Finds-none : (asize a : ℕ) → Finds asize a [] → ⊥
unfolding first_fit
Finds-none asize a f = let e : ◌≡◌ {A = Option (ℕ × List Block)} none (some (a, f.0)) = f.1 in cc

Finds-kmalloc_aligned :
    (s : Pmm) (bs : List Block) (asize a : ℕ)
    → Finds asize a bs
    → (kmalloc_aligned (record { pmm = s; blocks = bs }) asize).0 ≡ a
unfolding kmalloc_aligned seed
Finds-kmalloc_aligned s [] asize a f = absurd (Finds-none asize a f)
Finds-kmalloc_aligned s (b ∷ bs) asize a f = rw f.1 refl

-- What `kmalloc` does with a size that it accepts.
kmalloc-aligned :
    (h : Heap) (size : ℕ)
    → size < 2 ^ 32
    → size ≢ 0
    → size ≤ 4080
    → kmalloc h size ≡ kmalloc_aligned h ((size + 7) / 8 * 8)
unfolding kmalloc
kmalloc-aligned h size wide some_bytes few =
    let accepted : ((size == 0) || ltb (2 ^ 32 - 8) size) ≡ false = ground arith in
    let small : ltb max_payload ((size + 7) / 8 * 8) ≡ false = ground arith in
    rw (align_size_lem size wide, accepted, small, kmalloc) refl

kfree-block :
    (h : Heap) (a : ℕ)
    → a ≢ 0
    → kfree h a ≡ record h { blocks = free_at (sub32 a header_size) h.blocks }
unfolding kfree
kfree-block h a given = let block : (a == 0) ≡ false = ground arith in rw block refl

Takes-again :
    (h : Heap) (asize a : ℕ) (bs' : List Block)
    → IsHeap h
    → Takes asize a h.blocks bs'
    → a ≢ 0
    → (kmalloc_aligned (kfree (record h { blocks = bs' }) a) asize).0 ≡ a
Takes-again h asize a bs' v t given = rw (kfree-block (record h { blocks = bs' }) a given) (
    Finds-kmalloc_aligned h.pmm (free_at (sub32 a header_size) bs') asize a
      (Takes-Finds asize a (Fits-low h.pmm h.blocks v.fits) v.apart t))

Serves-again :
    (h : Heap) (asize : ℕ) (r : ℕ × Heap)
    → IsHeap h
    → Serves h asize r
    → r.0 ≢ 0
    → (kmalloc_aligned (kfree r.1 r.0) asize).0 ≡ r.0
Serves-again h asize r v (nowhere e unfit full) given =
    absurd (given (ap (λ (x : ℕ × Heap). x.0) e))
Serves-again h asize r v (in_list a bs' e t) given =
    rw e (Takes-again h asize a bs' v t (Takes-pos h.pmm asize a v.fits t))
Serves-again h asize r v (in_new_page p a bs' e t lt off below) given = rw e (
    Takes-again (grown h p) asize a bs' (grown-IsHeap h p v lt off below) t
      (Takes-pos (grown h p).pmm asize a (grown-IsHeap h p v lt off below).fits t))

-- In a valid heap a block that was just allocated and is freed is what the next `kmalloc` of the same
-- size returns.
pub malloc-free :
    (h : Heap) (size : ℕ)
    → IsHeap h
    → size ≢ 0
    → size ≤ 4080
    → (kmalloc h size).0 ≢ 0
    → (kmalloc (kfree (kmalloc h size).1 (kmalloc h size).0) size).0 ≡ (kmalloc h size).0
malloc-free h size v some_bytes few =
    rw (kmalloc-aligned h size (omega arith) some_bytes few) (λ given.
      ap (λ (x : ℕ × Heap). x.0)
        (kmalloc-aligned (kfree (kmalloc_aligned h asize).1 (kmalloc_aligned h asize).0) size
          (omega arith) some_bytes few)
      ∙ Serves-again h asize (kmalloc_aligned h asize) v
          (kmalloc_aligned-Serves h.pmm h.blocks asize (omega arith) v) given)
  where
    asize : ℕ
    asize = (size + 7) / 8 * 8
