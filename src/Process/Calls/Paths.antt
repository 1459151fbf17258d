-- ===== src/Process/Calls/Paths.antt =====
-- kernel/user.c: a path as the characters before its NUL.
use Prim.Native.Nat.{ℕ, zero, suc}
use emyx.Base.{
  ◌+◌, ◌<◌, ◌≡◌, ◌≢◌, refl, ap, ap₂, ◌∙◌, List, [], ◌∷◌, length, get_or, arith, ◌==◌, false,
}
use emyx.Process.Calls.{string_from}

-- The string that begins at index `i` with the characters of a line without NULs, and a NUL behind them.
pub string_from-line :
    (n i : ℕ) (p : ℕ → ℕ) (line : List ℕ)
    → ((j : ℕ) → j < length line → p (i + j) ≡ get_or line j 0)
    → ((j : ℕ) → j < length line → get_or line j 0 ≢ 0)
    → p (i + length line) ≡ 0
    → length line < n
    → string_from n i p ≡ line
unfolding string_from
string_from-line zero i p line same solid ended below = absurd (omega (arith, below))
string_from-line (suc n) i p [] same solid ended below =
    let start : i ≡ i + 0 = omega arith in let e : p i ≡ 0 = ap p start ∙ ended in rw e refl
string_from-line (suc n) i p (c ∷ cs) same solid ended below =
    let start : i ≡ i + 0 = omega arith in
    let here : p i ≡ c = ap p start ∙ same 0 (omega arith) in
    let more : (p i == 0) ≡ false = ground (arith, here, solid 0 (omega arith)) in
    let shift : (j : ℕ) → i + 1 + j ≡ i + suc j = λ j. omega arith in
    let rest =
      string_from-line n (i + 1) p cs (λ j hj. ap p (shift j) ∙ same (suc j) (omega (arith, hj)))
        (λ j hj. solid (suc j) (omega (arith, hj))) (ap p (shift (length cs)) ∙ ended)
        (omega (arith, below)) in
    rw more (ap₂ (λ x xs. x ∷ xs) here rest)
