-- ===== src/Pmm/Mmap/Segment.antt =====
-- kernel/mm/pmm.c: where `find_segment` places the page bitmap.
use Prim.Native.Nat.{ℕ}
use emyx.Base.{
  ◌+◌, ◌%◌, ◌^◌, ◌≤◌, ◌<◌, ◌≡◌, refl, List, [], ◌∷◌, ◌==◌, if◌then◌else◌, inl, inr, u32, u64, Any,
  All, Bool-cases, arith,
}
use emyx.Pmm.{page_size}
use emyx.Pmm.Mmap.{Boot, ok, Entry, Span, align_up, place, find_segment}
use emyx.Pmm.Mmap.Place.{align_up_lem, IsLow, IsApart, IsPlace, Places, place-Places, no_place}

-- A region of usable memory ends low enough.
abbrev pub IsLowRegion : Entry → Type 0
IsLowRegion e = e.type ≡ 1 → IsLow (e.addr + e.len)

module _ (bytes : ℕ) (kernel mbi mmap : Span) where
  -- A place for the bytes in a region of usable memory, at a page and not at address 0.
  abbrev pub IsSpot : ℕ → Entry → Type 0
  IsSpot s e =
      (e.type ≡ 1)
      × (e.addr ≤ s)
      × (0 < s)
      × (s % 4096 ≡ 0)
      × (s + bytes ≤ e.addr + e.len)
      × IsApart bytes kernel mbi mmap s

  -- A spot in some region; or 0, where no region has one.
  pub data Finds (es : List Entry) (r : Boot ℕ) : Type 0 where
    found : (base : ℕ) → r ≡ ok base → Any (IsSpot base) es → Finds es r
    no_spot : r ≡ ok 0 → ((s : ℕ) → Any (IsSpot s) es → ⊥) → Finds es r

  abbrev first_start : Entry → ℕ
  first_start e = align_up (if e.addr == 0 then 1 else u32 e.addr) page_size

  module _ (e : Entry) (t : e.type ≡ 1) (low : IsLow (e.addr + e.len)) (b : bytes ≤ 2 ^ 17)
      (k : IsLow kernel.end) (m : IsLow mbi.end) (n : IsLow mmap.end) where
    abbrev region_end : ℕ
    region_end = u32 (u64 (e.addr + e.len))

    -- `estart` is what the region's places start from: address 0 is no place.
    first_start_lem :
        (first_start e % 4096 ≡ 0)
        × (e.addr ≤ first_start e)
        × (0 < first_start e)
        × (first_start e ≤ e.addr + 4096)
    first_start_lem = ground (arith, align_up_lem (if e.addr == 0 then 1 else u32 e.addr))

    in_region :
        Places bytes region_end kernel mbi mmap
          (first_start e)
          (place 4 bytes region_end kernel mbi mmap (first_start e))
    in_region =
        place-Places bytes region_end kernel mbi mmap 4 (first_start e) b
          (omega (arith, first_start_lem)) (first_start_lem.0) k m n (ground arith)

    IsSpot-of_place :
        (s : ℕ) → IsPlace bytes region_end kernel mbi mmap (first_start e) s → IsSpot s e
    IsSpot-of_place s p =
        (t, omega (arith, first_start_lem), omega (arith, first_start_lem), p.1, omega arith, p.3)

    IsPlace-of_spot :
        (s : ℕ) → IsSpot s e → IsPlace bytes region_end kernel mbi mmap (first_start e) s
    IsPlace-of_spot s q = (
      ground (arith, align_up_lem (if e.addr == 0 then 1 else u32 e.addr)),
      q.3,
      omega arith,
      q.5,
    )

  -- `find_segment` ends and returns the address of a whole number of pages in a region of usable
  -- memory, apart from the kernel, the multiboot information and the memory map, and not 0; or it
  -- returns 0, and then no region has such a place. This holds for a bitmap of at most 2^17 bytes
  -- where the regions and the three ranges end below 2^32 - 2^18.
  pub find_segment_lem :
      (es : List Entry)
      → bytes ≤ 2 ^ 17
      → IsLow kernel.end
      → IsLow mbi.end
      → IsLow mmap.end
      → All IsLowRegion es
      → Finds es (find_segment bytes kernel mbi mmap es)
  unfolding find_segment
  find_segment_lem [] b k m n low = no_spot refl (λ s x. elim x [ ])
  find_segment_lem (e ∷ es) b k m n low = elim (Bool-cases (e.type == 1)) [
    | inr other ↦ rw other (elim (find_segment_lem es b k m n low.1) [
      | found base r spot ↦ found base r (inr spot)
      | no_spot r nowhere ↦
          no_spot r (λ s x. elim x [ inl spot ↦ ground arith | inr spot ↦ nowhere s spot ])
    ])
    | inl usable ↦
        let t : e.type ≡ 1 = ground arith in
        rw usable (elim (in_region e t (low.0 t) b k m n) [
          | Places.found s r p least ↦
              rw r (found s refl (inl (IsSpot-of_place e t (low.0 t) b k m n s p)))
          | no_place r nowhere ↦ rw r (elim (find_segment_lem es b k m n low.1) [
            | found base r' spot ↦ found base r' (inr spot)
            | no_spot r' nowhere' ↦ no_spot r' (λ s x. elim x [
              | inl spot ↦ nowhere s (IsPlace-of_spot e t (low.0 t) b k m n s spot)
              | inr spot ↦ nowhere' s spot
            ])
          ])
        ])
  ]

  pub IsSpot-bounds :
      (base : ℕ) (es : List Entry)
      → All IsLowRegion es
      → Any (IsSpot base) es
      → (0 < base) × IsLow (base + bytes)
  IsSpot-bounds base [] low spot = elim spot [ ]
  IsSpot-bounds base (e ∷ es) low (inl spot) = omega (arith, low.0 spot.0)
  IsSpot-bounds base (e ∷ es) low (inr spot) = IsSpot-bounds base es low.1 spot
