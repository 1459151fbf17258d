-- ===== src/Shell/Tests.antt =====
-- kernel/kshell.c at a line that is typed and run.
use Prim.Native.Nat.{ℕ}
use emyx.Base.{◌≡◌, refl, false, true, List, [], ◌∷◌, codes, arith}
use emyx.Shell.{Kshell, Command, Action, kshell_init, kshell_on_char, kshell_exec}
use emyx.Shell.Line.{IsLine, text, type_all, typed_all, init-IsLine, type_all_lem}
use emyx.Shell.Lookup.{asked, lookup, same_text, kshell_exec_lem}

abbrev off : Kshell
off = record { buffer = []; length = 0; command_ready = false; active = false; output = [] }

abbrev on : Kshell
on = kshell_init off

-- "irx", a backspace, "q", a newline.
abbrev keys : List ℕ
keys = b'i' ∷ b'r' ∷ b'x' ∷ 8 ∷ b'q' ∷ 10 ∷ []

on-active : on.active ≡ true
unfolding kshell_init
on-active = refl

type_all_lem_example :
    IsLine (type_all on keys) × (text (type_all on keys) ≡ typed_all (text on) keys)
type_all_lem_example = type_all_lem on keys (init-IsLine off) on-active (ground arith)

kshell_exec_lem_example : kshell_exec (type_all on keys) ≡ asked (text (type_all on keys))
kshell_exec_lem_example = kshell_exec_lem (type_all on keys) type_all_lem_example.0

types_irq : text (type_all on keys) ≡ codes "irq"
unfolding type_all kshell_on_char kshell_init
types_irq = refl

asks_irq : asked (codes "irq 7") ≡ Action.run Command.irq
unfolding asked lookup same_text
asks_irq = refl
