-- ===== src/Heap/Blocks.antt =====
-- kernel/mm/kmalloc.c: what splitting, merging and searching do to a list of blocks.
use Prim.Native.Nat.{ℕ}
use emyx.Base.{
  ◌+◌, ◌*◌, ◌-◌, ◌/◌, ◌%◌, ◌^◌, ◌≤◌, ◌<◌, ◌≡◌, ◌⊎◌, inl, inr, refl, ap, ◌∙◌, Bool, true, false,
  ◌&&◌, Option, none, some, List, [], ◌∷◌, ltb, leb, ◌||◌, ◌==◌, if◌then◌else◌, arith, bit_and,
  bit_and_mask, bit_and_high, not32, sub32, ◌↔◌, Any, All, Bool-cases,
}
use emyx.Heap.{Block, header_size, kmalloc_align, align_size, alloc_from_block, first_fit, payload}

-- `align_size` accepts the sizes from 1 up to 2^32 - 8 and rounds them up to a multiple of 8.
pub align_size_lem :
    (size : ℕ)
    → size < 2 ^ 32
    → align_size size
      ≡ (if (size == 0) || ltb (2 ^ 32 - 8) size then none else some ((size + 7) / 8 * 8))
unfolding align_size
align_size_lem size h = elim (Bool-cases ((size == 0) || ltb (2 ^ 32 - 8) size)) [
  | inl refused ↦ rw refused (ground arith)
  | inr accepted ↦ rw accepted (ground (arith, rounded (ground arith)))
]
  where
    rounded :
        size ≤ 2 ^ 32 - 8
        → bit_and ((size + kmalloc_align - 1) % 2 ^ 32) (not32 (kmalloc_align - 1))
          ≡ (size + 7) / 8 * 8
    rounded fits =
        let low : (size + kmalloc_align - 1) % 2 ^ 32 ≡ size + 7 = omega arith in
        ap (λ (t : ℕ). bit_and t (not32 7)) low
        ∙ bit_and_high 3 (size + 7) (2 ^ 29 - 1)
        ∙ omega (arith, bit_and_mask 29 ((size + 7) / 8))

abbrev pub block_end : Block → ℕ
block_end b = b.addr + header_size + b.size

-- A block lies in the 32-bit address space, so that sums of its fields do not wrap.
abbrev pub IsLowBlock : Block → Type 0
IsLowBlock b = block_end b + 2 ^ 20 ≤ 2 ^ 32

-- The one block's bytes are among the other's.
abbrev pub Within : Block → Block → Type 0
Within b c = (b.addr ≤ c.addr) × (block_end c ≤ block_end b)

abbrev pub is_fit : ℕ → Block → Bool
is_fit asize b = b.free && leb asize b.size

-- How the loop of `kmalloc` takes the first block that fits.
pub data Takes (asize p : ℕ) : List Block → List Block → Type 0 where
  here :
      {bs' : List Block} (b : Block) (rest : List Block)
      → is_fit asize b ≡ true
      → p ≡ payload b
      → bs' ≡ alloc_from_block b asize rest
      → Takes asize p (b ∷ rest) bs'
  later :
      {bs bs' : List Block} (c : Block)
      → is_fit asize c ≡ false
      → Takes asize p bs bs'
      → Takes asize p (c ∷ bs) (c ∷ bs')

pub data Searches (asize : ℕ) (bs : List Block) (r : Option (ℕ × List Block)) : Type 0 where
  taken :
      (p : ℕ) (bs' : List Block) → r ≡ some (p, bs') → Takes asize p bs bs' → Searches asize bs r
  none_fits : r ≡ none → All (λ b. is_fit asize b ≡ false) bs → Searches asize bs r

pub first_fit-Searches : (asize : ℕ) (bs : List Block) → Searches asize bs (first_fit asize bs)
unfolding first_fit
first_fit-Searches asize [] = none_fits refl tt
first_fit-Searches asize (b ∷ rest) = elim (Bool-cases (is_fit asize b)) [
  | inl fit ↦
      rw fit (taken (payload b) (alloc_from_block b asize rest) refl (here b rest fit refl refl))
  | inr unfit ↦ rw unfit (elim (first_fit-Searches asize rest) [
    | taken p bs' e t ↦ rw e (taken p (b ∷ bs') refl (later b unfit t))
    | none_fits e all ↦ rw e (none_fits refl (unfit, all))
  ])
]

-- A property of blocks that their parts have.
abbrev pub IsHereditary : (Block → Type 0) → Type 0
IsHereditary Q = (b c : Block) → Q b → Within b c → Q c

-- The block in use after an allocation.
abbrev pub in_use_block : Block → ℕ → Block
in_use_block b size = record b { size = size; free = false }

-- What is left of the block, where enough is left.
abbrev pub left_over : Block → ℕ → Block
left_over b size = record {
  addr = b.addr + header_size + size;
  size = b.size - size - header_size;
  free = true;
}

-- The two shapes of a block that was allocated from.
pub alloc_from_block-eq :
    (b : Block) (size : ℕ) (rest : List Block)
    → IsLowBlock b
    → size ≤ b.size
    → alloc_from_block b size rest ≡ (
        if leb (size + 20) b.size
        then in_use_block b size ∷ left_over b size ∷ rest
        else in_use_block b size ∷ rest)
unfolding alloc_from_block
alloc_from_block-eq b size rest low fits = ground arith

-- A rest of 20 bytes or more is a block of its own.
alloc_from_block-All :
    (Q : Block → Type 0) (b : Block) (size : ℕ) (rest : List Block)
    → IsHereditary Q
    → IsLowBlock b
    → size ≤ b.size
    → Q b
    → All Q rest
    → All Q (alloc_from_block b size rest)
alloc_from_block-All Q b size rest part low fits q all =
    elim (Bool-cases (leb (size + 20) b.size)) [
      | inl split ↦
          rw (alloc_from_block-eq b size rest low fits, split)
            (
              part b (in_use_block b size) q (omega arith),
              (part b (left_over b size) q (ground arith), all),
            )
      | inr whole ↦
          rw (alloc_from_block-eq b size rest low fits, whole)
            (part b (in_use_block b size) q (omega arith), all)
    ]

-- What all blocks have and their parts inherit, all have after an allocation.
pub Takes-All :
    (Q : Block → Type 0) (asize p : ℕ) {bs bs' : List Block}
    → IsHereditary Q
    → All IsLowBlock bs
    → Takes asize p bs bs'
    → All Q bs
    → All Q bs'
Takes-All Q asize p part low (here b rest fit e e') all =
    rw e' (alloc_from_block-All Q b asize rest part low.0 (ground arith) all.0 all.1)
Takes-All Q asize p part low (later c unfit t) all = (all.0, Takes-All Q asize p part low.1 t all.1)

-- Two blocks share no byte.
abbrev pub Apart : Block → Block → Type 0
Apart b c = (block_end b ≤ c.addr) ⊎ (block_end c ≤ b.addr)

-- No two blocks of the list share a byte.
abbrev pub Pairwise : List Block → Type 0
Pairwise [] = Unit {0}
Pairwise (b ∷ bs) = All (Apart b) bs × Pairwise bs

pub Apart-IsHereditary : (b : Block) → IsHereditary (Apart b)
Apart-IsHereditary b c d (inl before) w = inl (omega arith)
Apart-IsHereditary b c d (inr after) w = inr (omega arith)

pub All-Apart-Within :
    (b c : Block) (bs : List Block) → Within b c → All (Apart b) bs → All (Apart c) bs
All-Apart-Within b c [] w a = tt
All-Apart-Within b c (d ∷ bs) w a = (apart a.0, All-Apart-Within b c bs w a.1)
  where
    apart : Apart b d → Apart c d
    apart (inl before) = inl (omega arith)
    apart (inr after) = inr (omega arith)

alloc_from_block-Pairwise :
    (b : Block) (size : ℕ) (rest : List Block)
    → IsLowBlock b
    → size ≤ b.size
    → Pairwise (b ∷ rest)
    → Pairwise (alloc_from_block b size rest)
alloc_from_block-Pairwise b size rest low fits apart = elim (Bool-cases (leb (size + 20) b.size)) [
  | inl split ↦
      rw (alloc_from_block-eq b size rest low fits, split)
        (
          (inl (omega arith), All-Apart-Within b (in_use_block b size) rest (omega arith) apart.0),
          (All-Apart-Within b (left_over b size) rest (ground arith) apart.0, apart.1),
        )
  | inr whole ↦
      rw (alloc_from_block-eq b size rest low fits, whole)
        (All-Apart-Within b (in_use_block b size) rest (omega arith) apart.0, apart.1)
]

-- An allocation leaves the blocks apart.
pub Takes-Pairwise :
    (asize p : ℕ) {bs bs' : List Block}
    → All IsLowBlock bs
    → Takes asize p bs bs'
    → Pairwise bs
    → Pairwise bs'
Takes-Pairwise asize p low (here b rest fit e e') apart =
    rw e' (alloc_from_block-Pairwise b asize rest low.0 (ground arith) apart)
Takes-Pairwise asize p low (later c unfit t) apart = (
  Takes-All (Apart c) asize p (Apart-IsHereditary c) low.1 t apart.0,
  Takes-Pairwise asize p low.1 t apart.1,
)

-- The block stands in the list.
abbrev pub Has : Block → List Block → Type 0
Has d = Any (λ b. b ≡ d)

pub free_or_used : (d b : Block) → b ≡ d → b.free ≡ true → d.free ≡ false → ⊥
free_or_used d b same free used = ground arith

-- The block in use that a pointer returned by `kmalloc` stands for.
abbrev pub block_at : ℕ → ℕ → Block
block_at p asize = record { addr = sub32 p header_size; size = asize; free = false }

alloc_from_block-Has :
    (b d : Block) (size : ℕ) (rest : List Block)
    → IsLowBlock b
    → size ≤ b.size
    → d.free ≡ false
    → Has d (alloc_from_block b size rest) ↔ ((in_use_block b size ≡ d) ⊎ Has d rest)
alloc_from_block-Has b d size rest low fits used = elim (Bool-cases (leb (size + 20) b.size)) [
  | inl split ↦
      rw (alloc_from_block-eq b size rest low fits, split)
        (
          (λ x. elim x [
            | inl same ↦ inl same
            | inr more ↦ elim more [
              | inl left ↦ absurd (free_or_used d (left_over b size) left refl used)
              | inr beyond ↦ inr beyond
            ]
          ]),
          (λ x. elim x [ inl same ↦ inl same | inr beyond ↦ inr (inr beyond) ]),
        )
  | inr whole ↦ rw (alloc_from_block-eq b size rest low fits, whole) ((λ x. x), (λ x. x))
]

-- An allocation adds its block to those in use, and removes and changes none of them.
pub Takes-Has :
    (asize p : ℕ) (d : Block) {bs bs' : List Block}
    → All IsLowBlock bs
    → Takes asize p bs bs'
    → d.free ≡ false
    → Has d bs' ↔ ((block_at p asize ≡ d) ⊎ Has d bs)
Takes-Has asize p d low (here b rest fit e e') used =
    rw (e', addressed)
      (
        (λ x. elim (step.0 x) [ inl new ↦ inl new | inr old ↦ inr (inr old) ]),
        (λ x. elim x [
          | inl new ↦ step.1 (inl new)
          | inr old ↦ elim old [
            | inl same ↦ absurd (free_or_used d b same (ground arith) used)
            | inr beyond ↦ step.1 (inr beyond)
          ]
        ]),
      )
  where
    step : Has d (alloc_from_block b asize rest) ↔ ((in_use_block b asize ≡ d) ⊎ Has d rest)
    step = alloc_from_block-Has b d asize rest low.0 (ground arith) used

    addressed : block_at p asize ≡ in_use_block b asize
    addressed = ground arith
Takes-Has asize p d low (later c unfit t) used =
    let ih = Takes-Has asize p d low.1 t used in
    (
      (λ x. elim x [
        | inl same ↦ inr (inl same)
        | inr rest ↦ elim (ih.0 rest) [ inl new ↦ inl new | inr old ↦ inr (inr old) ]
      ]),
      (λ x. elim x [
        | inl new ↦ inr (ih.1 (inl new))
        | inr old ↦ elim old [ inl same ↦ inl same | inr rest ↦ inr (ih.1 (inr rest)) ]
      ]),
    )
