-- ===== src/Heap/Alloc.antt =====
-- kernel/mm/kmalloc.c: what `kmalloc` and `kfree` promise their callers.
use Prim.Native.Nat.{ℕ}
use emyx.Base.{
  ◌*◌, ◌≤◌, ◌<◌, ◌≡◌, ◌≢◌, ◌⊎◌, ◌↔◌, inl, inr, refl, true, false, ◌&&◌, none, some, List, [], ◌∷◌,
  ◌++◌, leb, arith, All,
}
use emyx.DirectMap.{direct_map_limit}
use emyx.Pmm.{Pmm, page_size}
use emyx.Pmm.Bitmap.{used}
use emyx.Pmm.Invariant.{taking}
use emyx.Pmm.Alloc.{taking-IsValid}
use emyx.Heap.{
  Block, Heap, max_payload, payload, alloc_from_block, first_fit, seed, extend, kmalloc_aligned,
}
use emyx.Heap.Blocks.{
  IsLowBlock, Takes, taken, none_fits, first_fit-Searches, Takes-All, Takes-Pairwise, Takes-Has,
  Apart, Pairwise, Has, block_at, here, later, is_fit, free_or_used,
}
use emyx.Heap.Pages.{
  Fits, IsHeap, All-map, Fits-low, Fits-IsHereditary, Fits-taking, fresh, no_page, new_page, NoPage,
  new_block-NewBlock, fresh-Apart, fresh-Fits,
}

-- What a call of `kmalloc` that rounds its size up to `asize` may do: fail, where no block fits and
-- no page of the direct map is left; or return a pointer to a block in use of that size, apart from
-- all others. Blocks in use stay in use, and no other comes into use.
pub data Mallocs (h : Heap) (asize : ℕ) (r : ℕ × Heap) : Type 0 where
  refused :
      r.0 ≡ 0
      → All (λ b. (b.free && leb asize b.size) ≡ false) h.blocks
      → NoPage h.pmm
      → IsHeap r.1
      → ((d : Block) → d.free ≡ false → Has d r.1.blocks ↔ Has d h.blocks)
      → Mallocs h asize r
  granted :
      r.0 ≢ 0
      → IsHeap r.1
      → ((d : Block)
          → d.free ≡ false
          → Has d r.1.blocks ↔ ((block_at r.0 asize ≡ d) ⊎ Has d h.blocks))
      → Mallocs h asize r

pub Takes-pos :
    (s : Pmm) (asize p : ℕ) {bs bs' : List Block} → All (Fits s) bs → Takes asize p bs bs' → p ≢ 0
Takes-pos s asize p f (here b rest fit e e') = omega arith
Takes-pos s asize p f (later c unfit t) = Takes-pos s asize p f.1 t

-- Taking a block of the list.
Takes-Mallocs :
    (h : Heap) (asize p : ℕ) (bs' : List Block)
    → IsHeap h
    → Takes asize p h.blocks bs'
    → Mallocs h asize (p, record h { blocks = bs' })
Takes-Mallocs h asize p bs' v t =
    granted (Takes-pos h.pmm asize p v.fits t)
      (record {
        valid = v.valid;
        fits = Takes-All (Fits h.pmm) asize p (Fits-IsHereditary h.pmm) low t v.fits;
        apart = Takes-Pairwise asize p low t v.apart;
      })
      (λ d used. Takes-Has asize p d low t used)
  where
    low : All IsLowBlock h.blocks
    low = Fits-low h.pmm h.blocks v.fits

All-append {ℓ κ} :
    {A : Type ℓ} (P : A → Type κ) (xs ys : List A) → All P xs → All P ys → All P (xs ++ ys)
All-append P [] ys h k = k
All-append P (x ∷ xs) ys h k = (h.0, All-append P xs ys h.1 k)

Pairwise-append :
    (bs : List Block) (c : Block) → Pairwise bs → All (λ b. Apart b c) bs → Pairwise (bs ++ c ∷ [])
Pairwise-append [] c p a = (tt, tt)
Pairwise-append (b ∷ bs) c p a =
    (All-append (Apart b) bs (c ∷ []) p.0 (a.0, tt), Pairwise-append bs c p.1 a.1)

-- The heap with a new page at the end of its list.
abbrev pub grown : Heap → ℕ → Heap
grown h p = record { pmm = taking h.pmm p; blocks = h.blocks ++ fresh p ∷ [] }

Takes-append :
    (asize : ℕ) (bs : List Block) (f : Block)
    → All (λ b. is_fit asize b ≡ false) bs
    → is_fit asize f ≡ true
    → Takes asize (payload f) (bs ++ f ∷ []) (bs ++ alloc_from_block f asize [])
Takes-append asize [] f unfit fit = here f [] fit refl refl
Takes-append asize (b ∷ bs) f unfit fit = later b unfit.0 (Takes-append asize bs f unfit.1 fit)

Has-append : (d f : Block) (bs : List Block) → (f ≡ d → ⊥) → Has d (bs ++ f ∷ []) ↔ Has d bs
Has-append d f [] ne =
    ((λ x. elim x [ inl same ↦ absurd (ne same) | inr nowhere ↦ nowhere ]), (λ x. elim x [ ]))
Has-append d f (b ∷ bs) ne =
    let ih = Has-append d f bs ne in
    (
      (λ x. elim x [ inl same ↦ inl same | inr more ↦ inr (ih.0 more) ]),
      (λ x. elim x [ inl same ↦ inl same | inr more ↦ inr (ih.1 more) ]),
    )

module _ (h : Heap) (p : ℕ) (v : IsHeap h) (lt : p < h.pmm.max_page)
    (off : used h.pmm.bitmap p ≡ false) (below : p * page_size < direct_map_limit) where
  pub grown-IsHeap : IsHeap (grown h p)
  grown-IsHeap = record {
    valid = taking-IsValid h.pmm p v.valid lt off;
    fits =
        All-append (Fits (taking h.pmm p)) h.blocks (fresh p ∷ [])
          (All-map (Fits h.pmm) (Fits (taking h.pmm p)) (Fits-taking h.pmm p v.valid lt) h.blocks
            v.fits)
          (fresh-Fits h.pmm p v.valid lt below, tt);
    apart =
        Pairwise-append h.blocks (fresh p) v.apart
          (All-map (Fits h.pmm) (λ b. Apart b (fresh p)) (fresh-Apart h.pmm p off) h.blocks v.fits);
  }

  -- An allocation in the grown heap is one for the heap before it grew.
  grown-Mallocs :
      (asize a : ℕ) (bs' : List Block)
      → Takes asize a (grown h p).blocks bs'
      → Mallocs h asize (a, record (grown h p) { blocks = bs' })
  grown-Mallocs asize a bs' t = elim (Takes-Mallocs (grown h p) asize a bs' grown-IsHeap t) [
    | granted nz v' has ↦ granted nz v' (λ d used. regroup d used (has d used))
    | refused z unfit no_more v' has ↦
        absurd (Takes-pos (grown h p).pmm asize a grown-IsHeap.fits t z)
  ]
    where
      regroup :
          (d : Block)
          → d.free ≡ false
          → Has d bs' ↔ ((block_at a asize ≡ d) ⊎ Has d (grown h p).blocks)
          → Has d bs' ↔ ((block_at a asize ≡ d) ⊎ Has d h.blocks)
      regroup d used has =
          let old = Has-append d (fresh p) h.blocks (λ e. free_or_used d (fresh p) e refl used) in
          (
            (λ x. elim (has.0 x) [ inl new ↦ inl new | inr more ↦ inr (old.0 more) ]),
            (λ x. elim x [ inl new ↦ has.1 (inl new) | inr more ↦ has.1 (inr (old.1 more)) ]),
          )

-- Where the block of an allocation comes from.
pub data Serves (h : Heap) (asize : ℕ) (r : ℕ × Heap) : Type 0 where
  nowhere :
      r ≡ (0, h)
      → All (λ b. (b.free && leb asize b.size) ≡ false) h.blocks
      → NoPage h.pmm
      → Serves h asize r
  in_list :
      (a : ℕ) (bs' : List Block)
      → r ≡ (a, record h { blocks = bs' })
      → Takes asize a h.blocks bs'
      → Serves h asize r
  in_new_page :
      (p a : ℕ) (bs' : List Block)
      → r ≡ (a, record (grown h p) { blocks = bs' })
      → Takes asize a (grown h p).blocks bs'
      → p < h.pmm.max_page
      → used h.pmm.bitmap p ≡ false
      → p * page_size < direct_map_limit
      → Serves h asize r

-- `kmalloc` from its search on.
search_list : Heap → ℕ → ℕ × Heap
search_list h asize = elim (first_fit asize h.blocks) [
  | some (p, blocks) ↦ (p, record h { blocks = blocks })
  | none ↦ extend h asize
]

search_list-Serves :
    (h : Heap) (asize : ℕ) → asize ≤ max_payload → IsHeap h → Serves h asize (search_list h asize)
unfolding search_list extend
search_list-Serves h asize small v = elim (first_fit-Searches asize h.blocks) [
  | taken p bs' e t ↦ in_list p bs' (rw (e, search_list) refl) t
  | none_fits e unfit ↦ elim (new_block-NewBlock h.pmm v.valid) [
    | no_page made full ↦ nowhere (rw (e, search_list, made, extend, made) refl) unfit full
    | new_page p made lt off below ↦
        in_new_page p (payload (fresh p)) (h.blocks ++ alloc_from_block (fresh p) asize [])
          (rw (e, search_list, made, extend, made) refl)
          (Takes-append asize h.blocks (fresh p) unfit (ground arith)) lt off below
  ]
]

pub kmalloc_aligned-Serves :
    (s : Pmm) (bs : List Block) (asize : ℕ)
    → asize ≤ max_payload
    → IsHeap (record { pmm = s; blocks = bs })
    → Serves
        (record { pmm = s; blocks = bs })
        asize
        (kmalloc_aligned (record { pmm = s; blocks = bs }) asize)
unfolding kmalloc_aligned search_list seed
kmalloc_aligned-Serves s (b ∷ bs) asize small v =
    search_list-Serves (record { pmm = s; blocks = b ∷ bs }) asize small v
kmalloc_aligned-Serves s [] asize small v = elim (new_block-NewBlock s v.valid) [
  | no_page made full ↦ nowhere (rw (made, seed) refl) tt full
  | new_page p made lt off below ↦ elim (first_fit-Searches asize (fresh p ∷ [])) [
    | taken a bs' e t ↦ in_new_page p a bs' (rw (made, seed) (rw (e, made) refl)) t lt off below
    | none_fits e unfit ↦ absurd (ground (arith, unfit.0))
  ]
]

pub Serves-Mallocs :
    (h : Heap) (asize : ℕ) (r : ℕ × Heap) → IsHeap h → Serves h asize r → Mallocs h asize r
Serves-Mallocs h asize r v (nowhere e unfit full) =
    rw e (refused refl unfit full v (λ d used. ((λ x. x), (λ x. x))))
Serves-Mallocs h asize r v (in_list a bs' e t) = rw e (Takes-Mallocs h asize a bs' v t)
Serves-Mallocs h asize r v (in_new_page p a bs' e t lt off below) =
    rw e (grown-Mallocs h p v lt off below asize a bs' t)
