-- ===== src/Vmm/Fresh.antt =====
-- kernel/mm/vmm.c: a new page table, entered in a directory, changes no mapping.
use Prim.Native.Nat.{ℕ}
use emyx.Base.{
  ◌+◌, ◌*◌, ◌/◌, ◌%◌, ◌^◌, ◌<◌, ◌≡◌, ◌≢◌, inl, inr, refl, ap, true, false, List, ◌==◌, Bool-cases,
  arith,
}
use native.Mathlib.Decide.{ℕ_discrete}
use emyx.DirectMap.{kernel_virtual_base}
use emyx.Pmm.Bitmap.{used}
use emyx.Vmm.{store, clear_page}
use emyx.Vmm.Tree.{at, translate, IsTree}

-- Page `p` cleared, and entered in the directory as the table of entry `i`.
abbrev pub add_table : (ℕ → ℕ) → ℕ → ℕ → ℕ → ℕ → ℕ
add_table words root i p =
    store (clear_page words (kernel_virtual_base + p * 4096))
      (kernel_virtual_base + root * 4096 + 4 * i) (p * 4096 + 1)

-- Page `p` was free; it is cleared and becomes the table of entry `i`, which had none.
module _ (words : ℕ → ℕ) (root : ℕ) (bm bm' : List ℕ) (t : IsTree words root bm) (i p : ℕ)
    (inside : i < 1024) (off : at words root i % 2 ≡ 0) (free : used bm p ≡ false)
    (taken : used bm' p ≡ true) (low : p < 4096)
    (keeps : (q : ℕ) → used bm q ≡ true → used bm' q ≡ true) where
  abbrev added : ℕ → ℕ
  added = add_table words root i p

  root_ne : p ≢ root
  root_ne e = ground (arith, t.root_used)

  table_ne_page : (j : ℕ) → j < 1024 → at words root j % 2 ≡ 1 → at words root j / 4096 ≢ p
  table_ne_page j h on e = absurd (ground (arith, t.table_used j h on))

  added-word : (q : ℕ) → added q < 2 ^ 32
  added-word q = ground (arith, t.word q)

  pub at-added_self : at added root i ≡ p * 4096 + 1
  at-added_self = ground arith

  pub at-added_ne : (j : ℕ) → j < 1024 → j ≢ i → at added root j ≡ at words root j
  at-added_ne j h ne = ground (arith, root_ne)

  pub added-IsTree : IsTree added root bm'
  added-IsTree = record {
    word = added-word;
    root_low = t.root_low;
    root_used = keeps root t.root_used;
    table_low = λ j h on. elim (ℕ_discrete j i) [
      | yes same ↦ rw same (omega (arith, at-added_self))
      | no ne ↦
          omega (arith, at-added_ne j h ne, t.table_low j h (omega (arith, at-added_ne j h ne)))
    ];
    table_ne = λ j h on e. elim (ℕ_discrete j i) [
      | yes same ↦ root_ne (omega (arith, at-added_self, ap (λ (k : ℕ). at added root k) same))
      | no ne ↦
          t.table_ne j h (omega (arith, at-added_ne j h ne)) (omega (arith, at-added_ne j h ne))
    ];
    table_used = λ j h on. elim (ℕ_discrete j i) [
      | yes same ↦
          let page : at added root j / 4096 ≡ p = rw same (omega (arith, at-added_self)) in
          rw page taken
      | no ne ↦
          rw (at-added_ne j h ne) (keeps _ (t.table_used j h (omega (arith, at-added_ne j h ne))))
    ];
    apart = λ j k h h' on on' e. elim (ℕ_discrete j i) [
      | yes same ↦ elim (ℕ_discrete k i) [
        | yes same' ↦ omega arith
        | no ne' ↦ absurd (
            table_ne_page k h' (omega (arith, at-added_ne k h' ne')) (
              omega
                (arith, at-added_ne k h' ne', at-added_self, ap (λ (m : ℕ). at added root m) same)))
      ]
      | no ne ↦ elim (ℕ_discrete k i) [
        | yes same' ↦ absurd (
            table_ne_page j h (omega (arith, at-added_ne j h ne)) (
              omega
                (arith, at-added_ne j h ne, at-added_self, ap (λ (m : ℕ). at added root m) same')))
        | no ne' ↦
            t.apart j k h h' (omega (arith, at-added_ne j h ne))
              (omega (arith, at-added_ne k h' ne'))
              (omega (arith, at-added_ne j h ne, at-added_ne k h' ne'))
      ]
    ];
  }

  pub added-translate : (w : ℕ) → w < 2 ^ 32 → translate added root w ≡ translate words root w
  added-translate w h = elim (ℕ_discrete (w / 2 ^ 22) i) [
    | yes same ↦
        let page : (p * 4096 + 1) / 4096 ≡ p = omega arith in
        let odd : ((p * 4096 + 1) % 2 == 1) ≡ true = ground arith in
        let even : (at words root i % 2 == 1) ≡ false = ground arith in
        let empty : at added p (w / 4096 % 1024) ≡ 0 = ground (arith, root_ne) in
        rw (same, even, at-added_self, odd, page, empty) refl
    | no ne ↦
        let kept = at-added_ne (w / 2 ^ 22) (omega arith) ne in
        elim (Bool-cases (at words root (w / 2 ^ 22) % 2 == 1)) [
          | inl on ↦
              let table_ne = t.table_ne (w / 2 ^ 22) (omega arith) (ground arith) in
              let page_ne = table_ne_page (w / 2 ^ 22) (omega arith) (ground arith) in
              let entry : at added (at words root (w / 2 ^ 22) / 4096) (w / 4096 % 1024)
                  ≡ at words (at words root (w / 2 ^ 22) / 4096) (w / 4096 % 1024) =
                ground arith in
              rw (kept, on, entry) refl
          | inr absent ↦ rw (kept, absent) refl
        ]
  ]
