-- ===== src/Pmm/Mmap/MaxPage.antt =====
-- kernel/mm/pmm.c: bounds on the number of pages that `find_max_page` finds.
use Prim.Native.Nat.{ℕ}
use emyx.Base.{
  ◌+◌, ◌/◌, ◌^◌, ◌≤◌, ◌<◌, ◌≡◌, ◌⊎◌, refl, ◌∙◌, Bool-cases, u32, List, [], ◌∷◌, ltb, ◌==◌, ◌&&◌,
  if◌then◌else◌, arith, inl, inr, u64, shr, All, Any,
}
use native.Mathlib.Nat.{le_refl, le_trans}
use emyx.Pmm.{page_shift}
use emyx.Pmm.Mmap.{Entry, Span, max_page_from, find_max_page}
use emyx.Pmm.Mmap.Segment.{IsSpot, IsLowRegion}

-- The running maximum after an entry.
abbrev after : ℕ → Entry → ℕ
after m e =
    let entry_max_page = shr (u64 (e.addr + e.len)) page_shift in
    if (e.type == 1) && ltb m entry_max_page then entry_max_page else m

-- Memory that the regions of usable memory describe lies below 4 GiB, so its pages fit.
pub max_page_from-le :
    (m : ℕ) (es : List Entry) → m ≤ 2 ^ 20 → All IsLowRegion es → max_page_from m es ≤ 2 ^ 20
unfolding max_page_from
max_page_from-le m [] h low = h
max_page_from-le m (e ∷ es) h low = max_page_from-le (after m e) es (ground (arith, low.0)) low.1

le-max_page_from : (m : ℕ) (es : List Entry) → m ≤ max_page_from m es
unfolding max_page_from
le-max_page_from m [] = le_refl m
le-max_page_from m (e ∷ es) =
    ground (arith, le-max_page_from m es, le-max_page_from (u64 (e.addr + e.len) / 2 ^ 12) es)

-- A region that reaches past the first page gives a page.
pub max_page_from-pos :
    (bytes m base : ℕ) (kernel mbi mmap : Span) (es : List Entry)
    → All IsLowRegion es
    → Any (IsSpot bytes kernel mbi mmap base) es
    → 0 < max_page_from m es
unfolding max_page_from
max_page_from-pos bytes m base kernel mbi mmap [] low spot = elim spot [ ]
max_page_from-pos bytes m base kernel mbi mmap (e ∷ es) low (inl spot) =
    ground
      (arith, low.0, le-max_page_from m es, le-max_page_from (u64 (e.addr + e.len) / 2 ^ 12) es)
max_page_from-pos bytes m base kernel mbi mmap (e ∷ es) low (inr spot) =
    max_page_from-pos bytes (after m e) base kernel mbi mmap es low.1 spot

-- With all usable memory below 4 GiB no page number is cut, and there is a page where some region
-- has room for the bitmap.
pub find_max_page_lem :
    (bytes base : ℕ) (kernel mbi mmap : Span) (es : List Entry)
    → All IsLowRegion es
    → (find_max_page es ≤ 2 ^ 20)
      × (Any (IsSpot bytes kernel mbi mmap base) es → 0 < find_max_page es)
unfolding find_max_page
find_max_page_lem bytes base kernel mbi mmap es low = (
  omega (arith, max_page_from-le 0 es (omega arith) low),
  λ spot. omega (
    arith,
    max_page_from-le 0 es (omega arith) low,
    max_page_from-pos bytes 0 base kernel mbi mmap es low spot,
  ),
)

-- The number of pages up to the end of the last region of usable memory, or 0 where there is none.
abbrev pub EndsBy : ℕ → Entry → Type 0
EndsBy m e = e.type ≡ 1 → (e.addr + e.len) / 4096 ≤ m

abbrev pub EndsAt : ℕ → Entry → Type 0
EndsAt m e = (e.type ≡ 1) × (m ≡ (e.addr + e.len) / 4096)

abbrev pub IsMaxPage : List Entry → ℕ → Type 0
IsMaxPage es m = All (EndsBy m) es × ((m ≡ 0) ⊎ Any (EndsAt m) es)

-- The running maximum is at least the one before and the entry's, and one of the two.
after_lem :
    (m : ℕ) (e : Entry)
    → IsLowRegion e
    → (m ≤ after m e) × EndsBy (after m e) e × ((after m e ≡ m) ⊎ EndsAt (after m e) e)
after_lem m e low = elim (Bool-cases (e.type == 1)) [
  | inr other ↦ rw other (le_refl m, (λ one. absurd (ground (arith, other))), inl refl)
  | inl one ↦
      let t : e.type ≡ 1 = ground arith in
      let below : e.addr + e.len + 2 ^ 18 ≤ 2 ^ 32 = low t in
      let same : u64 (e.addr + e.len) ≡ e.addr + e.len = omega (arith, below) in
      elim (Bool-cases (ltb m ((e.addr + e.len) / 2 ^ 12))) [
        | inl more ↦ rw (one, same, more) (ground arith, (λ _. ground arith), inr (t, refl))
        | inr less ↦ rw (one, same, less) (le_refl m, (λ _. ground arith), inl refl)
      ]
]

max_page_from-IsMaxPage :
    (m : ℕ) (es : List Entry)
    → All IsLowRegion es
    → All (EndsBy (max_page_from m es)) es
      × ((max_page_from m es ≡ m) ⊎ Any (EndsAt (max_page_from m es)) es)
unfolding max_page_from
max_page_from-IsMaxPage m [] low = (tt, inl refl)
max_page_from-IsMaxPage m (e ∷ es) low =
    let (up, by, at) = after_lem m e low.0 in
    let (all, some_end) = max_page_from-IsMaxPage (after m e) es low.1 in
    let top = le-max_page_from (after m e) es in
    (
      ((λ t. le_trans (by t) top), all),
      elim some_end [
        | inl same ↦ elim at [
          | inl before ↦ inl (same ∙ before)
          | inr here ↦ inr (inl (here.0, same ∙ here.1))
        ]
        | inr later ↦ inr (inr later)
      ],
    )

pub find_max_page-IsMaxPage :
    (es : List Entry) → All IsLowRegion es → IsMaxPage es (find_max_page es)
unfolding find_max_page
find_max_page-IsMaxPage es low =
    let whole : u32 (max_page_from 0 es) ≡ max_page_from 0 es =
      omega (arith, max_page_from-le 0 es (omega arith) low) in
    rw whole (max_page_from-IsMaxPage 0 es low)
