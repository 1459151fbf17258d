-- ===== src/Pmm/Mmap/Place.antt =====
-- kernel/mm/pmm.c: the inner loop of `find_segment` ends, and finds the lowest place in a region.
use Prim.Native.Nat.{ℕ, zero, suc}
use emyx.Base.{
  ◌+◌, ◌*◌, ◌-◌, ◌/◌, ◌%◌, ◌^◌, ◌≤◌, ◌<◌, ◌≡◌, ◌⊎◌, refl, Bool, true, false, Option, none, some,
  ltb, leb, if◌then◌else◌, inl, inr, Bool-cases, arith, add32, bit_and, bit_and_high, bit_and_mask,
  ap, ◌∙◌, not32,
}
use native.Mathlib.Nat.{le_refl}
use emyx.Pmm.{page_size}
use emyx.Pmm.Mmap.{Boot, ok, Span, align_up, ranges_overlap, place}

-- `align_up` to a page rounds up, where it does not pass 2^32.
pub align_up_lem : (a : ℕ) → a + 4096 ≤ 2 ^ 32 → (align_up a page_size ≡ (a + 4095) / 4096 * 4096)
unfolding align_up
align_up_lem a h =
    ap (λ (t : ℕ). bit_and t (not32 4095)) low
    ∙ bit_and_high 12 (a + 4095) (2 ^ 20 - 1)
    ∙ omega (arith, bit_and_mask 20 ((a + 4095) / 4096))
  where
    low : (a + page_size - 1) % 2 ^ 32 ≡ a + 4095
    low = omega arith

-- `bytes` bytes from `s` on share no address with a range.
abbrev pub Apart : ℕ → ℕ → Span → Type 0
Apart s bytes a = (s + bytes ≤ a.start) ⊎ (a.end ≤ s)

-- Low enough for the sums with sizes and page roundings to fit 32 bits.
abbrev pub IsLow : ℕ → Type 0
IsLow a = a + 2 ^ 18 ≤ 2 ^ 32

abbrev overlaps : ℕ → ℕ → Span → Bool
overlaps start bytes a = ranges_overlap start (add32 start bytes) a.start a.end

module _ (start bytes : ℕ) (a : Span) (fits : start + bytes < 2 ^ 32) where
  Apart-of_no_overlap : overlaps start bytes a ≡ false → Apart start bytes a
  unfolding ranges_overlap
  Apart-of_no_overlap h = ground arith

  overlap_bounds : overlaps start bytes a ≡ true → (start < a.end) × (a.start < start + bytes)
  unfolding ranges_overlap
  overlap_bounds h = ground arith

-- The ranges that end above an address, so that a place from there on may still meet them.
abbrev ahead : Span → ℕ → ℕ
ahead a start = if ltb start a.end then 1 else 0

abbrev pub IsApart : ℕ → Span → Span → Span → ℕ → Type 0
IsApart bytes kernel mbi mmap s = Apart s bytes kernel × Apart s bytes mbi × Apart s bytes mmap

module _ (bytes eend : ℕ) (kernel mbi mmap : Span) where
  -- A place for the bytes in a region's part from `start` on.
  abbrev pub IsPlace : ℕ → ℕ → Type 0
  IsPlace start s =
      (start ≤ s) × (s % 4096 ≡ 0) × (s + bytes ≤ eend) × IsApart bytes kernel mbi mmap s

  -- The lowest place, or none where there is none.
  pub data Places (start : ℕ) (r : Boot (Option ℕ)) : Type 0 where
    found :
        (s : ℕ)
        → r ≡ ok (some s)
        → IsPlace start s
        → ((s' : ℕ) → IsPlace start s' → s ≤ s')
        → Places start r
    no_place : r ≡ ok none → ((s' : ℕ) → IsPlace start s' → ⊥) → Places start r

  module _ (start : ℕ) (a : Span) (fits : start + bytes < 2 ^ 32) (low : IsLow a.end)
      (over : overlaps start bytes a ≡ true)
      (part : (s : ℕ) → IsApart bytes kernel mbi mmap s → Apart s bytes a) where
    moved : align_up a.end page_size ≡ (a.end + 4095) / 4096 * 4096
    moved = align_up_lem a.end (omega arith)

    -- The bytes overlap the range at every place up to its end.
    later : (s : ℕ) → IsPlace start s → IsPlace (align_up a.end page_size) s
    later s p =
        let past : a.end ≤ s = elim (part s p.3) [
          | inl before ↦ absurd (omega (arith, overlap_bounds start bytes a fits over))
          | inr after ↦ after
        ] in
        (omega (arith, moved), p.1, p.2, p.3)

    -- Moving past a range that the bytes overlap skips no place.
    skip : {r : Boot (Option ℕ)} → Places (align_up a.end page_size) r → Places start r
    skip (found s e p least) =
        found s e (omega (arith, moved, overlap_bounds start bytes a fits over), p.1, p.2, p.3)
          (λ s' p'. least s' (later s' p'))
    skip (no_place e nowhere) = no_place e (λ s' p'. nowhere s' (later s' p'))

  -- With fuel for one round more than ranges lie ahead, the inner loop ends, at the lowest place
  -- from `start` on.
  pub place-Places :
      (fuel start : ℕ)
      → bytes ≤ 2 ^ 17
      → start + 2 ^ 17 < 2 ^ 32
      → start % 4096 ≡ 0
      → IsLow kernel.end
      → IsLow mbi.end
      → IsLow mmap.end
      → ahead kernel start + ahead mbi start + ahead mmap start < fuel
      → Places start (place fuel bytes eend kernel mbi mmap start)
  unfolding place
  place-Places zero start b w al k m n enough = absurd (omega arith)
  place-Places (suc fuel) start b w al k m n enough =
      elim (Bool-cases (leb (add32 start bytes) eend)) [
        | inr past ↦ rw past (no_place refl (λ s' p'. ground arith))
        | inl within ↦ elim (Bool-cases (overlaps start bytes kernel)) [
          | inl over ↦
              rw (within, over)
                (skip start kernel (omega arith) k over (λ s p. p.0)
                  (place-Places fuel (align_up kernel.end page_size) b
                    (omega (arith, align_up_lem kernel.end))
                    (omega (arith, align_up_lem kernel.end)) k m n
                    (ground (arith, align_up_lem kernel.end, overlap_bounds start bytes kernel))))
          | inr free ↦ elim (Bool-cases (overlaps start bytes mbi)) [
            | inl over ↦
                rw (within, free, over)
                  (skip start mbi (omega arith) m over (λ s p. p.1)
                    (place-Places fuel (align_up mbi.end page_size) b
                      (omega (arith, align_up_lem mbi.end)) (omega (arith, align_up_lem mbi.end)) k
                      m n (ground (arith, align_up_lem mbi.end, overlap_bounds start bytes mbi))))
            | inr free' ↦ elim (Bool-cases (overlaps start bytes mmap)) [
              | inl over ↦
                  rw (within, free, free', over)
                    (skip start mmap (omega arith) n over (λ s p. p.2)
                      (place-Places fuel (align_up mmap.end page_size) b
                        (omega (arith, align_up_lem mmap.end))
                        (omega (arith, align_up_lem mmap.end)) k m n
                        (ground (arith, align_up_lem mmap.end, overlap_bounds start bytes mmap))))
              | inr free'' ↦
                  rw (within, free, free', free'')
                    (found start refl
                      (
                        le_refl start,
                        al,
                        ground arith,
                        (
                          Apart-of_no_overlap start bytes kernel (omega arith) free,
                          Apart-of_no_overlap start bytes mbi (omega arith) free',
                          Apart-of_no_overlap start bytes mmap (omega arith) free'',
                        ),
                      )
                      (λ s' p'. p'.0))
            ]
          ]
        ]
      ]
