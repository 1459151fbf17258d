-- ===== src/Heap/Coalesce.antt =====
-- kernel/mm/kmalloc.c: what freeing a block and merging it with its neighbours does to the list.
use Prim.Native.Nat.{ℕ}
use emyx.Base.{
  ◌+◌, ◌≡◌, ◌≢◌, ◌↔◌, inl, inr, refl, sym, ap, ◌∙◌, Bool, true, false, ◌&&◌, List, [], ◌∷◌, ◌==◌,
  if◌then◌else◌, arith, All, Bool-cases,
}
use emyx.Heap.{Block, header_size, coalesce_next, free_at}
use emyx.Heap.Blocks.{block_end, IsLowBlock, Apart, Pairwise, Has, All-Apart-Within, free_or_used}

-- The block grown over the next one.
abbrev pub merged : Block → Block → Block
merged b n = record b { size = b.size + (header_size + n.size) }

abbrev pub merges : Block → Block → Bool
merges b n = n.free && (block_end b == n.addr)

pub coalesce_next-nil : (b : Block) → coalesce_next b [] ≡ b ∷ []
unfolding coalesce_next
coalesce_next-nil b = refl

pub coalesce_next-cons :
    (b n : Block) (rest : List Block)
    → IsLowBlock b
    → IsLowBlock n
    → coalesce_next b (n ∷ rest)
      ≡ (if merges b n then coalesce_next (merged b n) rest else b ∷ n ∷ rest)
unfolding coalesce_next
coalesce_next-cons b n rest low low' = ground arith

-- A property that passes to the block grown over the one that begins at its end.
abbrev pub IsMergeable : (Block → Type 0) → Type 0
IsMergeable Q = (b n : Block) → block_end b ≡ n.addr → Q b → Q n → Q (merged b n)

module _ (Q : Block → Type 0) (grow : IsMergeable Q) where
  coalesce_next-All :
      (b : Block) (bs : List Block)
      → IsLowBlock b
      → All IsLowBlock bs
      → Q b
      → All Q bs
      → All Q (coalesce_next b bs)
  coalesce_next-All b [] low lows q all = rw (coalesce_next-nil b) (q, tt)
  coalesce_next-All b (n ∷ rest) low lows q all = elim (Bool-cases (merges b n)) [
    | inl joins ↦
        rw (coalesce_next-cons b n rest low lows.0, joins)
          (coalesce_next-All (merged b n) rest (ground (arith, lows.0)) lows.1
            (grow b n (ground arith) q all.0) all.1)
    | inr ends ↦ rw (coalesce_next-cons b n rest low lows.0, ends) (q, (all.0, all.1))
  ]

Apart-IsMergeable : (x : Block) → IsMergeable (Apart x)
Apart-IsMergeable x b n e (inl before) (inl before') = inl (omega arith)
Apart-IsMergeable x b n e (inl before) (inr after') = absurd (omega arith)
Apart-IsMergeable x b n e (inr after) (inl before') = absurd (omega arith)
Apart-IsMergeable x b n e (inr after) (inr after') = inr (omega arith)

merged-Apart :
    (b n : Block) (bs : List Block)
    → block_end b ≡ n.addr
    → All (Apart b) bs
    → All (Apart n) bs
    → All (Apart (merged b n)) bs
merged-Apart b n [] e a a' = tt
merged-Apart b n (d ∷ bs) e a a' = (both a.0 a'.0, merged-Apart b n bs e a.1 a'.1)
  where
    both : Apart b d → Apart n d → Apart (merged b n) d
    both (inl before) (inl before') = inl (omega arith)
    both (inl before) (inr after') = absurd (omega arith)
    both (inr after) _ = inr (omega arith)

coalesce_next-Pairwise :
    (b : Block) (bs : List Block)
    → IsLowBlock b
    → All IsLowBlock bs
    → All (Apart b) bs
    → Pairwise bs
    → Pairwise (coalesce_next b bs)
coalesce_next-Pairwise b [] low lows a apart = rw (coalesce_next-nil b) (tt, tt)
coalesce_next-Pairwise b (n ∷ rest) low lows a apart = elim (Bool-cases (merges b n)) [
  | inl joins ↦
      rw (coalesce_next-cons b n rest low lows.0, joins)
        (coalesce_next-Pairwise (merged b n) rest (ground (arith, lows.0)) lows.1
          (merged-Apart b n rest (ground arith) a.1 apart.0) apart.1)
  | inr ends ↦ rw (coalesce_next-cons b n rest low lows.0, ends) (a, apart)
]

-- Merging a free block with free blocks adds and removes no block in use.
coalesce_next-Has :
    (d b : Block) (bs : List Block)
    → IsLowBlock b
    → All IsLowBlock bs
    → b.free ≡ true
    → d.free ≡ false
    → Has d (coalesce_next b bs) ↔ Has d bs
coalesce_next-Has d b [] low lows free used = rw (coalesce_next-nil b) (
  (λ x. elim x [ inl same ↦ absurd (free_or_used d b same free used) | inr none ↦ none ]),
  (λ x. elim x [ ]),
)
coalesce_next-Has d b (n ∷ rest) low lows free used = elim (Bool-cases (merges b n)) [
  | inl joins ↦
      let ih = coalesce_next-Has d (merged b n) rest (ground (arith, lows.0)) lows.1 free used in
      rw (coalesce_next-cons b n rest low lows.0, joins)
        (
          (λ x. inr (ih.0 x)),
          (λ x. elim x [
            | inl same ↦ absurd (free_or_used d n same (ground arith) used)
            | inr more ↦ ih.1 more
          ]),
        )
  | inr ends ↦
      rw (coalesce_next-cons b n rest low lows.0, ends)
        (
          (λ x. elim x [ inl same ↦ absurd (free_or_used d b same free used) | inr more ↦ more ]),
          (λ x. inr x),
        )
]

Apart-addr : (b d : Block) (bs : List Block) → All (Apart b) bs → Has d bs → b.addr ≢ d.addr
Apart-addr b d [] a x = elim x [ ]
Apart-addr b d (c ∷ bs) a (inl same) = λ e. clash a.0 (e ∙ ap (λ (x : Block). x.addr) (sym same))
  where
    clash : Apart b c → b.addr ≡ c.addr → ⊥
    clash (inl before) e = omega arith
    clash (inr after) e = omega arith
Apart-addr b d (c ∷ bs) a (inr more) = Apart-addr b d bs a.1 more

abbrev pub freed : Block → Block
freed b = record b { free = true }

-- What holds of all blocks, whatever their marks, and passes to merged ones, holds after a free.
pub free_at-All :
    (Q : Block → Type 0) (a : ℕ) (bs : List Block)
    → IsMergeable Q
    → ((b : Block) → Q b → Q (freed b))
    → All IsLowBlock bs
    → All Q bs
    → All Q (free_at a bs)
unfolding free_at
free_at-All Q a [] grow mark low all = tt
free_at-All Q a (b ∷ bs) grow mark low all = elim (Bool-cases (b.addr == a)) [
  | inl hit ↦ rw hit (coalesce_next-All Q grow (freed b) bs low.0 low.1 (mark b all.0) all.1)
  | inr miss ↦ rw miss (all.0, free_at-All Q a bs grow mark low.1 all.1)
]

pub free_at-Pairwise :
    (a : ℕ) (bs : List Block) → All IsLowBlock bs → Pairwise bs → Pairwise (free_at a bs)
unfolding free_at
free_at-Pairwise a [] low apart = tt
free_at-Pairwise a (b ∷ bs) low apart = elim (Bool-cases (b.addr == a)) [
  | inl hit ↦ rw hit (
      coalesce_next-Pairwise (freed b) bs low.0 low.1
        (All-Apart-Within b (freed b) bs (omega arith) apart.0) apart.1)
  | inr miss ↦ rw miss (
    free_at-All (Apart b) a bs (Apart-IsMergeable b) (λ c x. x) low.1 apart.0,
    free_at-Pairwise a bs low.1 apart.1,
  )
]

-- A free takes the block at its address out of those in use, and no other.
pub free_at-Has :
    (a : ℕ) (d : Block) (bs : List Block)
    → All IsLowBlock bs
    → Pairwise bs
    → d.free ≡ false
    → Has d (free_at a bs) ↔ (Has d bs × (d.addr ≢ a))
unfolding free_at
free_at-Has a d [] low apart used = ((λ x. elim x [ ]), (λ x. x.0))
free_at-Has a d (b ∷ bs) low apart used = elim (Bool-cases (b.addr == a)) [
  | inl hit ↦
      let ih = coalesce_next-Has d (freed b) bs low.0 low.1 refl used in
      rw hit (
        (λ x. let more = ih.0 x in (inr more, λ e. Apart-addr b d bs apart.0 more (ground arith))),
        (λ x. elim x.0 [ inl same ↦ absurd (x.1 (ground arith)) | inr more ↦ ih.1 more ]),
      )
  | inr miss ↦
      let ih = free_at-Has a d bs low.1 apart.1 used in
      rw miss (
        (λ x. elim x [
          | inl same ↦ (inl same, ground arith)
          | inr more ↦ (inr (ih.0 more).0, (ih.0 more).1)
        ]),
        (λ x. elim x.0 [ inl same ↦ inl same | inr more ↦ inr (ih.1 (more, x.1)) ]),
      )
]
