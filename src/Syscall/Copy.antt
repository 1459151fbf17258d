-- ===== src/Syscall/Copy.antt =====
-- kernel/syscall.c: what `copy_string_from_user` reads and writes.
use Prim.Native.Nat.{ℕ, zero, suc}
use emyx.Base.{
  ◌+◌, ◌≤◌, ◌<◌, ◌≡◌, ◌≢◌, inl, inr, sym, ap, ◌∙◌, Bool, true, false, not, Option, none, some, ltb,
  leb, ◌==◌, if◌then◌else◌, Bool-cases, arith,
}
use native.Mathlib.Decide.{ℕ_discrete}
use emyx.Memory.{Memory}
use emyx.Syscall.{put_byte, copy_from, terminate, copy_string_from_user}

-- The array after the characters of `src` from `lo` on and below `hi` are copied.
abbrev pub copied : Memory → ℕ → ℕ → ℕ → (ℕ → ℕ) → ℕ → ℕ
copied user src lo hi dst j =
    if leb lo j then (if ltb j hi then user (src + j) else dst j) else dst j

-- No character of `src` from `lo` on and below `hi` is a NUL.
abbrev pub HasNoNul : Memory → ℕ → ℕ → ℕ → Type 0
HasNoNul user src lo hi = (j : ℕ) → lo ≤ j → j < hi → user (src + j) ≢ 0

-- What the loop comes to from `lo` on and below `hi`.
data Loop (user : Memory) (src lo hi : ℕ) (dst : ℕ → ℕ) : Option Bool × (ℕ → ℕ) → Type 0 where
  ran :
      {dst' : ℕ → ℕ}
      → HasNoNul user src lo hi
      → ((j : ℕ) → dst' j ≡ copied user src lo hi dst j)
      → Loop user src lo hi dst (none, dst')
  stopped :
      {dst' : ℕ → ℕ} (n : ℕ)
      → lo ≤ n
      → n < hi
      → user (src + n) ≡ 0
      → HasNoNul user src lo n
      → ((j : ℕ) → dst' j ≡ copied user src lo (n + 1) dst j)
      → Loop user src lo hi dst (some (not (n == 0)), dst')

copied-more :
    (user : Memory) (src lo hi : ℕ) (dst : ℕ → ℕ) (j : ℕ)
    → lo < hi
    → copied user src (lo + 1) hi (put_byte dst lo (user (src + lo))) j
      ≡ copied user src lo hi dst j
copied-more user src lo hi dst j h = elim (ℕ_discrete j lo) [
  | yes here ↦ rw here (ground arith)
  | no other ↦ ground arith
]

further :
    (user : Memory) (src lo hi : ℕ) (dst : ℕ → ℕ) (r : Option Bool × (ℕ → ℕ))
    → user (src + lo) ≢ 0
    → Loop user src (lo + 1) hi (put_byte dst lo (user (src + lo))) r
    → lo < hi
    → Loop user src lo hi dst r
further user src lo hi dst r on (ran clear same) h =
    ran
      (λ j l m. elim (ℕ_discrete j lo) [
        | yes here ↦ rw here on
        | no later ↦ clear j (omega arith) m
      ])
      (λ j. same j ∙ copied-more user src lo hi dst j h)
further user src lo hi dst r on (stopped n l m nul clear same) h =
    stopped n (omega arith) m nul
      (λ j l' m'. elim (ℕ_discrete j lo) [
        | yes here ↦ rw here on
        | no later ↦ clear j (omega arith) m'
      ])
      (λ j. same j ∙ copied-more user src lo (n + 1) dst j (omega arith))

copy_from-Loop :
    (n lo hi : ℕ) (user : Memory) (src : ℕ) (dst : ℕ → ℕ)
    → lo + n ≡ hi
    → Loop user src lo hi dst (copy_from n lo user src dst)
unfolding copy_from
copy_from-Loop zero lo hi user src dst e = ran (λ j l m. absurd (omega arith)) (λ j. ground arith)
copy_from-Loop (suc n) lo hi user src dst e = elim (Bool-cases (user (src + lo) == 0)) [
  | inl nul ↦ rw nul (
      stopped lo (omega arith) (omega arith) (ground arith) (λ j l m. absurd (omega arith))
        (λ j. ground arith))
  | inr on ↦ rw on (
      further user src lo hi dst (copy_from n (lo + 1) user src (put_byte dst lo (user (src + lo))))
        (ground arith)
        (copy_from-Loop n (lo + 1) hi user src (put_byte dst lo (user (src + lo))) (omega arith))
        (omega arith))
]

-- What `copy_string_from_user` comes to for a `src` that is not NULL and room for a character.
pub data Copies (user : Memory) (dst : ℕ → ℕ) (src max_len : ℕ) : Bool × (ℕ → ℕ) → Type 0 where
  copies :
      {dst' : ℕ → ℕ} (len : ℕ)
      → 0 < len
      → len < max_len
      → user (src + len) ≡ 0
      → HasNoNul user src 0 len
      → ((j : ℕ) → dst' j ≡ (if ltb j (len + 1) then user (src + j) else dst j))
      → Copies user dst src max_len (true, dst')
  empty :
      {dst' : ℕ → ℕ}
      → user src ≡ 0
      → ((j : ℕ) → dst' j ≡ (if j == 0 then 0 else dst j))
      → Copies user dst src max_len (false, dst')
  too_long :
      {dst' : ℕ → ℕ}
      → HasNoNul user src 0 max_len
      → ((j : ℕ)
          → dst' j
            ≡ (if ltb (j + 1) max_len then user (src + j) else if ltb j max_len then 0 else dst j))
      → Copies user dst src max_len (false, dst')

from_loop :
    (user : Memory) (dst : ℕ → ℕ) (src max_len : ℕ) (r : Option Bool × (ℕ → ℕ))
    → 0 < max_len
    → Loop user src 0 max_len dst r
    → Copies user dst src max_len (terminate max_len r)
from_loop user dst src max_len _ h (ran clear same) =
    too_long clear (λ j. ground (arith, same j, h))
from_loop user dst src max_len _ h (stopped n l m nul clear same) = elim (ℕ_discrete n 0) [
  | yes first ↦
      let at : src + n ≡ src = omega (arith, first) in
      let at' : src + 0 ≡ src = omega arith in
      let nul' : user src ≡ 0 = sym (ap user at) ∙ nul in
      rw first (
        empty nul' (λ j. elim (ℕ_discrete j 0) [
          | yes start ↦ rw start (ground (arith, same 0, ap user at', nul'))
          | no after ↦ ground (arith, same j, first, after)
        ]))
  | no later ↦
      let on : not (n == 0) ≡ true = ground (arith, later) in
      rw on (copies n (omega (arith, later)) m nul clear (λ j. ground (arith, same j)))
]

-- For a source that is not NULL and room for at least one character, `copy_string_from_user`
-- succeeds just on a string of one character or more that fits with its NUL, and then the array
-- has it; on an empty string it writes only the NUL; on a string that does not fit it copies what
-- does, ends it with a NUL and fails. No byte behind the array is written.
pub copy_string_from_user_lem :
    (user : Memory) (dst : ℕ → ℕ) (src max_len : ℕ)
    → 0 < src
    → 0 < max_len
    → Copies user dst src max_len (copy_string_from_user user dst src max_len)
unfolding copy_string_from_user
copy_string_from_user_lem user dst src max_len h k =
    let there : (src == 0) ≡ false = ground (arith, h) in
    let room : (max_len == 0) ≡ false = ground (arith, k) in
    rw (there, room)
      (from_loop user dst src max_len (copy_from max_len 0 user src dst) k
        (copy_from-Loop max_len 0 max_len user src dst (omega arith)))
