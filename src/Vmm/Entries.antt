-- ===== src/Vmm/Entries.antt =====
-- kernel/mm/vmm.c: page table entries and address parts as arithmetic.
use emyx.Base.{
  ℕ, ◌+◌, ◌*◌, ◌-◌, ◌/◌, ◌%◌, ◌^◌, ◌<◌, ◌≡◌, ap, ◌∙◌, not, bit_and, bit_or, ◌==◌, bit_and_high,
  bit_and_mask, bit_or_fields, bit_or-lt, bit_or-odd, bit_or_low, arith,
}
use emyx.Vmm.{pde_index, pte_index, frame_of, is_present, is_unaligned, page_writable, page_user}

pub pde_index-eq : (v : ℕ) → v < 2 ^ 32 → pde_index v ≡ v / 2 ^ 22
unfolding pde_index
pde_index-eq v h = omega (arith, bit_and_mask 10 (v / 2 ^ 22))

pub pte_index-eq : (v : ℕ) → pte_index v ≡ v / 2 ^ 12 % 1024
unfolding pte_index
pte_index-eq v = bit_and_mask 10 (v / 2 ^ 12)

pub frame_of-eq : (e : ℕ) → e < 2 ^ 32 → frame_of e ≡ e / 2 ^ 12 * 2 ^ 12
unfolding frame_of
frame_of-eq e h = bit_and_high 12 e (2 ^ 20 - 1) ∙ omega (arith, bit_and_mask 20 (e / 2 ^ 12))

pub is_present-eq : (e : ℕ) → is_present e ≡ (e % 2 == 1)
unfolding is_present
is_present-eq e = ground (arith, bit_and_mask 1 e)

pub is_unaligned-eq : (a : ℕ) → is_unaligned a ≡ not (a % 2 ^ 12 == 0)
unfolding is_unaligned
is_unaligned-eq a = ground (arith, bit_and_mask 12 a)

-- An entry for an aligned address, with flags.
pub entry-eq :
    (paddr flags : ℕ)
    → paddr % 2 ^ 12 ≡ 0
    → bit_or paddr (bit_and flags 0xfff) ≡ paddr + flags % 2 ^ 12
entry-eq paddr flags h =
    let low : bit_and flags 0xfff ≡ flags % 2 ^ 12 = bit_and_mask 12 flags in
    let split : paddr / 2 ^ 12 * 2 ^ 12 ≡ paddr = omega arith in
    ap (λ (t : ℕ). bit_or paddr t) low
    ∙ ap (λ (t : ℕ). bit_or t (flags % 2 ^ 12)) (omega arith)
    ∙ bit_or_fields 12 (paddr / 2 ^ 12) (flags % 2 ^ 12) (omega arith)
    ∙ omega arith

-- The flags that a directory entry takes over: bits 1 and 2.
abbrev pub more_flags : ℕ → ℕ → ℕ
more_flags e flags = bit_or e (bit_and flags (bit_or page_writable page_user))

pub more_flags-eq :
    (e flags : ℕ)
    → e < 2 ^ 32
    → (more_flags e flags < 2 ^ 32)
      × (more_flags e flags / 2 ^ 12 ≡ e / 2 ^ 12)
      × (more_flags e flags % 2 ≡ e % 2)
more_flags-eq e flags h =
    let six : bit_and flags 6 ≡ flags / 2 % 4 * 2 =
      bit_and_high 1 flags 3 ∙ ap (λ (t : ℕ). t * 2) (bit_and_mask 2 (flags / 2)) in
    let r : ℕ = flags / 2 % 4 * 2 in
    rw six (
      omega (
        arith,
        bit_or_low 12 e r (omega arith),
        bit_or-lt 12 (e % 2 ^ 12) r (omega arith) (omega arith),
      ),
      omega (
        arith,
        bit_or_low 12 e r (omega arith),
        bit_or-lt 12 (e % 2 ^ 12) r (omega arith) (omega arith),
      ),
      omega (arith, bit_or-odd e r),
    )
