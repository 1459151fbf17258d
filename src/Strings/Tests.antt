-- ===== src/Strings/Tests.antt =====
-- libc/string at a small memory.
use Prim.Native.Nat.{ℕ}
use emyx.Base.{
  ◌+◌, ◌≡◌, inl, refl, Bool, true, not, ◌==◌, holds_up_to, holds_up_to-at, some, [], ◌∷◌, get_or,
  arith,
}
use emyx.Memory.{Memory}
use emyx.Strings.{memcpy, memmove, memcmp, strlen, copy_down}
use emyx.Strings.Copies.{copied, memmove_lem, memcpy-memmove}
use emyx.Strings.Compares.{Compares, memcmp_lem, strlen_lem}

-- "abcab" and a NUL.
abbrev mem : Memory
mem p = get_or (b'a' ∷ b'b' ∷ b'c' ∷ b'a' ∷ b'b' ∷ []) p 0

memmove_lem_example : memmove mem 1 0 3 3 ≡ copied mem 1 0 3 3
memmove_lem_example = memmove_lem mem 1 0 3 3

move_runs : memmove mem 1 0 3 3 ≡ b'c'
unfolding memmove copy_down
move_runs = refl

memcpy-memmove_example : memcpy mem 0 2 3 1 ≡ memmove mem 0 2 3 1
memcpy-memmove_example = memcpy-memmove mem 0 2 3 1 (inl (omega arith))

memcmp_lem_example : Compares mem 0 3 0 3 (memcmp mem 0 3 3)
memcmp_lem_example = memcmp_lem mem 0 3 3

abbrev is_char : ℕ → Bool
is_char j = not (mem (3 + j) == 0)

all_chars : holds_up_to is_char 2 ≡ true
unfolding holds_up_to
all_chars = refl

strlen_lem_example : strlen 9 mem 3 0 ≡ some 2
strlen_lem_example =
    strlen_lem 9 mem 3 2 (omega arith) refl
      (λ j h. ground (arith, holds_up_to-at is_char 2 all_chars j h))
