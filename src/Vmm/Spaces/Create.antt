-- ===== src/Vmm/Spaces/Create.antt =====
-- kernel/mm/vmm.c: what `vmm_create_address_space` makes.
use Prim.Native.Nat.{ℕ, zero, suc}
use emyx.Base.{
  ◌+◌, ◌*◌, ◌-◌, ◌/◌, ◌%◌, ◌^◌, ◌≤◌, ◌<◌, ◌≡◌, ◌≢◌, ◌⊎◌, inl, inr, refl, ap, ◌∙◌, true, false, ◌&&◌,
  none, List, ltb, leb, ◌==◌, if◌then◌else◌, Bool-cases, arith,
}
use native.Mathlib.Decide.{ℕ_discrete}
use emyx.DirectMap.{
  kernel_virtual_base, direct_map_limit, vmm_phys_to_virt, phys_to_virt-eq, direct_map_lem,
}
use emyx.Pmm.{Pmm, pmm_alloc_page, pmm_free_page}
use emyx.Pmm.Bitmap.{used}
use emyx.Pmm.Invariant.{taking, used-taking}
use emyx.Pmm.Alloc.{exhausted, page, pmm_alloc_page_lem, taking-IsValid, free-alloc}
use emyx.Vmm.{Vmm, slot, store, clear_page, vmm_get_paddr_in}
use emyx.Vmm.Spaces.{copy_entries, vmm_create_address_space}
use emyx.Vmm.Tree.{at, translate, IsTree}
use emyx.Vmm.Space.{IsSpace, get_paddr-translate}

-- The copy of `n` entries from `i` on, between pages that do not overlap.
copy_entries_lem :
    (n i to from : ℕ) (words : ℕ → ℕ) (q : ℕ)
    → i + n ≤ 1024
    → (from + 4096 ≤ to) ⊎ (to + 4096 ≤ from)
    → copy_entries n i to from words q ≡ (
        if (leb (to + 4 * i) q && ltb q (to + 4 * (i + n))) && ((q - to) % 4 == 0)
        then words (from + (q - to))
        else words q)
unfolding copy_entries
copy_entries_lem zero i to from words q h apart = ground arith
copy_entries_lem (suc n) i to from words q h apart =
    copy_entries_lem n (i + 1) to from (store words (slot to i) (words (slot from i))) q
      (omega arith) apart
    ∙ first (ℕ_discrete q (to + 4 * i)) apart
  where
    first :
        Dec (q ≡ to + 4 * i)
        → (from + 4096 ≤ to) ⊎ (to + 4096 ≤ from)
        → (if (leb (to + 4 * (i + 1)) q && ltb q (to + 4 * (i + 1 + n))) && ((q - to) % 4 == 0)
            then store words (slot to i) (words (slot from i)) (from + (q - to))
            else store words (slot to i) (words (slot from i)) q)
          ≡ (if (leb (to + 4 * i) q && ltb q (to + 4 * (i + suc n))) && ((q - to) % 4 == 0)
              then words (from + (q - to))
              else words q)
    first (yes here) apart =
        let back : to + 4 * i - to ≡ 4 * i = omega arith in rw (here, back) (ground arith)
    first (no other) (inl before) = ground arith
    first (no other) (inr after) = ground arith

-- The directory is page `p`, which was free, and the kernel's is page `k`.
module _ (words : ℕ → ℕ) (k p : ℕ) (bm bm' : List ℕ) (t : IsTree words k bm)
    (free : used bm p ≡ false) (taken : used bm' p ≡ true) (low : p < 4096)
    (keeps : (q : ℕ) → used bm q ≡ true → used bm' q ≡ true) where
  abbrev made : ℕ → ℕ
  made =
      copy_entries 256 768 (kernel_virtual_base + p * 4096) (kernel_virtual_base + k * 4096)
        (clear_page words (kernel_virtual_base + p * 4096))

  page_ne : p ≢ k
  page_ne e = ground (arith, t.root_used)

  pages_apart :
      (kernel_virtual_base + k * 4096 + 4096 ≤ kernel_virtual_base + p * 4096)
      ⊎ (kernel_virtual_base + p * 4096 + 4096 ≤ kernel_virtual_base + k * 4096)
  pages_apart = elim (Bool-cases (ltb k p)) [
    | inl less ↦ inl (ground arith)
    | inr more ↦ inr (ground (arith, page_ne))
  ]

  made-at : (i : ℕ) → i < 1024 → at made p i ≡ (if leb 768 i then at words k i else 0)
  made-at i h =
      let back : kernel_virtual_base + p * 4096 + 4 * i - (kernel_virtual_base + p * 4096) ≡ 4 * i =
        omega arith in
      copy_entries_lem 256 768 (kernel_virtual_base + p * 4096) (kernel_virtual_base + k * 4096)
        (clear_page words (kernel_virtual_base + p * 4096)) (kernel_virtual_base + p * 4096 + 4 * i)
        (omega arith) pages_apart
      ∙ rw back (ground (arith, page_ne))

  made-outside : (q i : ℕ) → i < 1024 → q ≢ p → at made q i ≡ at words q i
  made-outside q i h ne =
      copy_entries_lem 256 768 (kernel_virtual_base + p * 4096) (kernel_virtual_base + k * 4096)
        (clear_page words (kernel_virtual_base + p * 4096)) (kernel_virtual_base + q * 4096 + 4 * i)
        (omega arith) pages_apart
      ∙ ground (arith, ne)

  made-word : (q : ℕ) → made q < 2 ^ 32
  made-word q =
      let read =
        copy_entries_lem 256 768 (kernel_virtual_base + p * 4096) (kernel_virtual_base + k * 4096)
          (clear_page words (kernel_virtual_base + p * 4096)) q (omega arith) pages_apart in
      ground (
        arith,
        read,
        t.word q,
        t.word (kernel_virtual_base + k * 4096 + (q - (kernel_virtual_base + p * 4096))),
      )

  made-IsTree : IsTree made p bm'
  made-IsTree = record {
    word = made-word;
    root_low = low;
    root_used = taken;
    table_low =
        λ i h on. let e = old i h on in omega (arith, e, t.table_low i h (omega (arith, e)));
    table_ne = λ i h on same.
        let e = old i h on in
        absurd (
          ground (
            arith,
            t.table_used i h (omega (arith, e)),
            ap (λ (m : ℕ). used bm (m / 4096)) e,
            ap (used bm) same,
          ));
    table_used = λ i h on. rw (old i h on) (keeps _ (t.table_used i h (omega (arith, old i h on))));
    apart = λ i j h h' on on' e.
        t.apart i j h h' (omega (arith, old i h on)) (omega (arith, old j h' on'))
          (omega (arith, e, old i h on, old j h' on'));
  }
    where
      old : (i : ℕ) → i < 1024 → at made p i % 2 ≡ 1 → at made p i ≡ at words k i
      old i h on = elim (Bool-cases (leb 768 i)) [
        | inl high ↦ made-at i h ∙ rw high refl
        | inr rest ↦
            let none_there : at made p i ≡ 0 = made-at i h ∙ rw rest refl in absurd (omega arith)
      ]

  made-translate :
      (w : ℕ)
      → w < 2 ^ 32
      → translate made p w ≡ (if leb 768 (w / 2 ^ 22) then translate words k w else none)
  made-translate w h = elim (Bool-cases (leb 768 (w / 2 ^ 22))) [
    | inr rest ↦
        let zero_entry : at made p (w / 2 ^ 22) ≡ 0 =
          made-at (w / 2 ^ 22) (omega arith) ∙ rw rest refl in
        rw (rest, zero_entry) refl
    | inl high ↦
        let same : at made p (w / 2 ^ 22) ≡ at words k (w / 2 ^ 22) =
          made-at (w / 2 ^ 22) (omega arith) ∙ rw high refl in
        elim (Bool-cases (at words k (w / 2 ^ 22) % 2 == 1)) [
          | inr absent ↦ rw (high, same, absent) refl
          | inl on ↦
              let table_ne : at words k (w / 2 ^ 22) / 4096 ≢ p = λ e. absurd (
                ground (
                  arith,
                  t.table_used (w / 2 ^ 22) (omega arith) (ground arith),
                  ap (used bm) e,
                )) in
              let entry =
                made-outside (at words k (w / 2 ^ 22) / 4096) (w / 4096 % 1024) (omega arith)
                  table_ne in
              rw (high, same, on, entry) refl
        ]
  ]

-- What `vmm_create_address_space` may do: fail, with nothing changed, where no page of the direct map is
-- free; or make a valid space that maps the kernel's half as the kernel's space does, and no more.
pub data Creates (s : Vmm) (r : ℕ × Vmm) : Type 0 where
  no_space :
      r ≡ (0, s)
      → ((pmm_alloc_page s.pmm).0 ≡ 0) ⊎ (direct_map_limit ≤ (pmm_alloc_page s.pmm).0)
      → Creates s r
  space :
      r.0 ≢ 0
      → IsSpace r.1 r.0
      → ((w : ℕ)
          → w < 2 ^ 32
          → vmm_get_paddr_in r.1 r.0 w
            ≡ (if leb 768 (w / 2 ^ 22) then vmm_get_paddr_in s s.kernel_page_directory w else none))
      → Creates s r

-- The state with a new directory at page `p`.
abbrev with_space : Vmm → ℕ → Vmm
with_space s p = record s {
  pmm = taking s.pmm p;
  words =
      copy_entries 256 768 (kernel_virtual_base + p * 4096)
        (kernel_virtual_base + s.kernel_page_directory / 4096 * 4096)
        (clear_page s.words (kernel_virtual_base + p * 4096));
}

with_space-IsSpace :
    (s : Vmm) (p : ℕ)
    → IsSpace s s.kernel_page_directory
    → p < s.pmm.max_page
    → used s.pmm.bitmap p ≡ false
    → 1 ≤ p
    → p < 4096
    → IsSpace (with_space s p) (p * 4096)
      × ((w : ℕ)
          → w < 2 ^ 32
          → translate (with_space s p).words p w ≡ (
              if leb 768 (w / 2 ^ 22)
              then translate s.words (s.kernel_page_directory / 4096) w
              else none))
with_space-IsSpace s p h hi free lo small = (
  record {
    valid = taking-IsValid s.pmm p h.valid hi free;
    aligned = omega arith;
    nonnull = omega arith;
    tree = rw page_of (
        made-IsTree s.words k p s.pmm.bitmap (taking s.pmm p).bitmap h.tree free taken small keeps);
  },
  made-translate s.words k p s.pmm.bitmap (taking s.pmm p).bitmap h.tree free taken small keeps,
)
  where
    k : ℕ
    k = s.kernel_page_directory / 4096

    page_of : p * 4096 / 4096 ≡ p
    page_of = omega arith

    taken : used (taking s.pmm p).bitmap p ≡ true
    taken = ground (arith, used-taking s.pmm p h.valid.counts hi p)

    keeps : (q : ℕ) → used s.pmm.bitmap q ≡ true → used (taking s.pmm p).bitmap q ≡ true
    keeps q on = ground (arith, used-taking s.pmm p h.valid.counts hi q)

-- Where the kernel's own address space is valid, `vmm_create_address_space` fails with nothing changed
-- only where no page of the direct map is handed out; otherwise it makes a valid address space that
-- maps every address from the kernel's base on as the kernel's space does, and no address below.
pub vmm_create_address_space_lem :
    (s : Vmm) → IsSpace s s.kernel_page_directory → Creates s (vmm_create_address_space s)
unfolding vmm_create_address_space
vmm_create_address_space_lem s h = elim (pmm_alloc_page_lem s.pmm h.valid) [
  | exhausted e all ↦ no_space (rw e refl) (inl (ap (λ (r : ℕ × Pmm). r.0) e))
  | page p e lo hi free all ↦
      let nz : (p * 4096 == 0) ≡ false = ground arith in
      elim (Bool-cases (vmm_phys_to_virt (p * 4096) == 0)) [
        | inl far ↦
            let back : pmm_free_page (taking s.pmm p) (p * 4096) ≡ s.pmm =
              rw e at (free-alloc s.pmm h.valid (rw e (omega arith))) in
            no_space (rw (e, nz, far, back) refl)
              (inr (rw e (ground (arith, direct_map_lem (p * 4096) 0))))
        | inr near ↦
            let below : p * 4096 < direct_map_limit = ground (arith, direct_map_lem (p * 4096) 0) in
            let made_here = with_space-IsSpace s p h hi free lo (omega arith) in
            let kernel : vmm_phys_to_virt s.kernel_page_directory
                ≡ kernel_virtual_base + s.kernel_page_directory / 4096 * 4096 =
              omega (
                arith,
                phys_to_virt-eq s.kernel_page_directory (omega (arith, h.aligned, h.tree.root_low)),
                h.aligned,
              ) in
            let page_of : p * 4096 / 4096 ≡ p = omega arith in
            rw (e, nz, near, phys_to_virt-eq (p * 4096) below, kernel)
              (space (omega arith) made_here.0 (λ w wide.
                get_paddr-translate (with_space s p) (p * 4096) w made_here.0 wide
                ∙ rw (page_of, get_paddr-translate s s.kernel_page_directory w h wide)
                    (made_here.1 w wide)))
      ]
]
