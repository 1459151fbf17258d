-- ===== src/Printk/Tests.antt =====
-- kernel/lib/printk.c at concrete numbers and formats.
use Prim.Native.Nat.{ℕ}
use emyx.Base.{◌≤◌, ◌≡◌, refl, none, some, List, [], ◌∷◌, ◌++◌, length, leb, if◌then◌else◌, arith}
use emyx.Printk.{
  Arg, char, int_max, hex_digits, u32_to_hex, collect, u32_to_str, converted, print_from, printk,
}
use emyx.Printk.Numbers.{read_hex, u32_to_hex_lem}
use emyx.Printk.Format.{render, printk_lem}

u32_to_hex_lem_example :
    (length (u32_to_hex 0xbeef) ≡ 11) × (read_hex (hex_digits 8 0 0xbeef ++ 0 ∷ []) 0 ≡ some 0xbeef)
u32_to_hex_lem_example = let l = u32_to_hex_lem 0xbeef (omega arith) in (l.0, l.2)

str_runs : u32_to_str 4096 ≡ b'4' ∷ b'0' ∷ b'9' ∷ b'6' ∷ 0 ∷ []
unfolding u32_to_str collect
str_runs = refl

-- "a%u%%%c".
abbrev format : List ℕ
format = b'a' ∷ b'%' ∷ b'u' ∷ b'%' ∷ b'%' ∷ b'%' ∷ b'c' ∷ []

abbrev args : List Arg
args = Arg.u32 12 ∷ char b'x' ∷ []

printk_lem_example :
    ((printk format args).1 ≡ (
      if leb (length (render format args)) int_max
      then some (length (render format args))
      else none))
    × (length (render format args) ≤ int_max → (printk format args).0 ≡ render format args)
printk_lem_example = printk_lem format args

printk_runs : printk format args ≡ (b'a' ∷ b'1' ∷ b'2' ∷ b'%' ∷ b'x' ∷ [], some 5)
unfolding printk print_from converted u32_to_str collect
printk_runs = refl
