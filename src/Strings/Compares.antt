-- ===== src/Strings/Compares.antt =====
-- libc/string: what memcmp and strlen compute.
use Prim.Native.Nat.{ℕ, zero, suc}
use emyx.Base.{
  ◌+◌, ◌≤◌, ◌<◌, ◌≡◌, ◌≢◌, inl, inr, refl, ap, true, false, some, ltb, ◌==◌, Bool-cases, arith,
}
use native.Mathlib.Decide.{ℕ_discrete}
use emyx.Memory.{Memory}
use emyx.Strings.{Order, compare_from, memcmp, strlen}

-- The bytes are the same from offset `i` up to `k`.
abbrev pub Same : Memory → ℕ → ℕ → ℕ → ℕ → Type 0
Same mem a b i k = (j : ℕ) → i ≤ j → j < k → mem (a + j) ≡ mem (b + j)

-- How two ranges compare: by the first byte that differs, or as equal where there is none.
pub data Compares (mem : Memory) (a b i end : ℕ) (r : Order) : Type 0 where
  same : r ≡ Order.equal → Same mem a b i end → Compares mem a b i end r
  lower :
      (k : ℕ)
      → r ≡ Order.less
      → i ≤ k
      → k < end
      → Same mem a b i k
      → mem (a + k) < mem (b + k)
      → Compares mem a b i end r
  higher :
      (k : ℕ)
      → r ≡ Order.greater
      → i ≤ k
      → k < end
      → Same mem a b i k
      → mem (b + k) < mem (a + k)
      → Compares mem a b i end r

Same-step :
    (mem : Memory) (a b i k : ℕ)
    → mem (a + i) ≡ mem (b + i)
    → Same mem a b (i + 1) k
    → Same mem a b i k
Same-step mem a b i k here rest j lo hi = elim (ℕ_discrete j i) [
  | yes e ↦ rw e here
  | no ne ↦ rest j (omega arith) hi
]

compare_from-Compares :
    (n i a b : ℕ) (mem : Memory) → Compares mem a b i (i + n) (compare_from n i a b mem)
unfolding compare_from
compare_from-Compares zero i a b mem = same refl (λ j lo hi. absurd (omega arith))
compare_from-Compares (suc n) i a b mem = elim (Bool-cases (ltb (mem (a + i)) (mem (b + i)))) [
  | inl less ↦
      rw less
        (lower i refl (omega arith) (omega arith) (λ j lo hi. absurd (omega arith)) (ground arith))
  | inr not_less ↦ elim (Bool-cases (ltb (mem (b + i)) (mem (a + i)))) [
    | inl more ↦
        rw (not_less, more)
          (higher i refl (omega arith) (omega arith) (λ j lo hi. absurd (omega arith))
            (ground arith))
    | inr not_more ↦
        let here : mem (a + i) ≡ mem (b + i) = ground arith in
        rw (not_less, not_more)
          (elim (compare_from-Compares n (i + 1) a b mem) [
            | same e all ↦
                same e (λ j lo hi. Same-step mem a b i (i + 1 + n) here all j lo (omega arith))
            | lower k e lo hi all lt ↦
                lower k e (omega arith) (omega arith) (Same-step mem a b i k here all) lt
            | higher k e lo hi all lt ↦
                higher k e (omega arith) (omega arith) (Same-step mem a b i k here all) lt
          ])
  ]
]

-- `memcmp` orders two ranges by the first byte in which they differ, and they are equal exactly where
-- there is none.
pub memcmp_lem : (mem : Memory) (a b size : ℕ) → Compares mem a b 0 size (memcmp mem a b size)
unfolding memcmp
memcmp_lem mem a b size = from_zero (compare_from-Compares size 0 a b mem)
  where
    from_zero :
        Compares mem a b 0 (0 + size) (compare_from size 0 a b mem)
        → Compares mem a b 0 size (compare_from size 0 a b mem)
    from_zero (same e all) = same e (λ j lo hi. all j lo (omega arith))
    from_zero (lower k e lo hi all lt) = lower k e lo (omega arith) all lt
    from_zero (higher k e lo hi all lt) = higher k e lo (omega arith) all lt

strlen_from :
    (fuel len : ℕ) (mem : Memory) (str k : ℕ)
    → len ≤ k
    → k < len + fuel
    → mem (str + k) ≡ 0
    → ((j : ℕ) → len ≤ j → j < k → mem (str + j) ≢ 0)
    → strlen fuel mem str len ≡ some k
unfolding strlen
strlen_from zero len mem str k lo hi nul chars = absurd (omega arith)
strlen_from (suc fuel) len mem str k lo hi nul chars = elim (ℕ_discrete len k) [
  | yes here ↦
      let ends : (mem (str + len) == 0) ≡ true = rw here (ground arith) in rw ends (ap some here)
  | no before ↦
      let goes_on : (mem (str + len) == 0) ≡ false =
        ground (arith, chars len (omega arith) (omega arith)) in
      rw goes_on (
        strlen_from fuel (len + 1) mem str k (omega arith) (omega arith) nul
          (λ j lo' hi'. chars j (omega arith) hi'))
]

-- `strlen` ends at the first NUL, after one round more than there are characters before it.
pub strlen_lem :
    (fuel : ℕ) (mem : Memory) (str k : ℕ)
    → k < fuel
    → mem (str + k) ≡ 0
    → ((j : ℕ) → j < k → mem (str + j) ≢ 0)
    → strlen fuel mem str 0 ≡ some k
strlen_lem fuel mem str k h nul chars =
    strlen_from fuel 0 mem str k (omega arith) (omega arith) nul (λ j lo hi. chars j hi)
