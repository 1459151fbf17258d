-- ===== src/Commands.antt =====
-- kernel/kshell.c: the functions of the shell's commands, and `initramfs_list` of kernel/initramfs.c.
pub mod Selftest
pub mod Keeps
pub mod Poll
mod Tests
use Prim.Native.Nat.{ℕ, zero, suc}
use emyx.Base.{
  ◌^◌, ltb, ◌+◌, ◌-◌, ◌*◌, ◌/◌, Bool, true, false, not, ◌||◌, Option, none, some, List, [], ◌∷◌,
  get_or, leb, ◌==◌, if◌then◌else◌, codes,
}
use emyx.Memory.{Memory, read_le32}
use emyx.Printk.{Arg, char, str, u32}
use emyx.Keyboard.{keyboard_buffer_clear}
use emyx.Initramfs.{Module, initramfs_header, entry_at, path_size}
use emyx.Process.{Userland}
use emyx.Process.Calls.{Code, print, user_spawn, user_init}
use emyx.Shell.{Kshell, KshellCmd, commands}

-- -1 where there is no value.
abbrev pub or_minus_one : Option ℕ → ℕ
or_minus_one none = 0xffffffff
or_minus_one (some value) = value

-- What is printed is kept in `output`. The loop of `cmd_help`.
pub help_from : List KshellCmd → Userland → Userland
help_from [] s = s
help_from (cmd ∷ cmds) s =
    help_from cmds (print s (codes "- %s: %s\n") (str (some cmd.name) ∷ str (some cmd.desc) ∷ []))

pub cmd_help : Userland → Userland
cmd_help s = help_from commands (print s (codes "Available commands:\n") [])

-- For what `timer_get_ticks` returns.
pub cmd_ticks : ℕ → Userland → Userland
cmd_ticks ticks s =
    print s (codes "Ticks: %u (%x)\nUptime: %us\n") (u32 ticks ∷ u32 ticks ∷ u32 (ticks / 100) ∷ [])

-- The loop of `cmd_irq`, for `n` counters from `i` on.
pub irq_from : ℕ → ℕ → (ℕ → ℕ) → Userland → Userland
irq_from zero i counts s = s
irq_from (suc n) i counts s =
    irq_from n (i + 1) counts (print s (codes "irq%u: %u\n") (u32 i ∷ u32 (counts i) ∷ []))

-- For what `irq_get_counts` returns.
pub cmd_irq : (ℕ → ℕ) → Userland → Userland
cmd_irq counts s = irq_from 16 0 counts s

-- The loop over the characters of a path, for `n` characters from `j` on.
pub list_path : ℕ → ℕ → ℕ → Userland → Userland
list_path zero j entry s = s
list_path (suc n) j entry s =
    let c = s.memory (entry + j) in
    let rest = list_path n (j + 1) entry (print s (codes "%c") (char c ∷ [])) in
    if c == 0 then s else rest

-- The loop over the files, for `n` files from `i` on.
pub list_from : ℕ → ℕ → Userland → Userland
list_from zero i s = s
list_from (suc n) i s =
    let entry = entry_at s.archive i in
    let offset = read_le32 s.memory (entry + path_size) in
    let file_size = read_le32 s.memory (entry + path_size + 4) in
    list_from n (i + 1) (
      print (list_path path_size 0 entry (print s (codes "- ") [])) (codes " offset=%x size=%x\n")
        (u32 offset ∷ u32 file_size ∷ []))

-- From the result of `initramfs_header` on.
pub list_files : Userland → Option ℕ → Userland
list_files s none = print s (codes "initramfs: invalid module\n") []
list_files s (some file_count) =
    list_from file_count 0
      (print s (codes "initramfs: files=%x size=%x\n") (u32 file_count ∷ u32 s.archive.size ∷ []))

pub initramfs_list : Userland → Userland
initramfs_list s = list_files s (initramfs_header s.memory s.archive)

-- From the result of `user_spawn` on.
pub report_spawn : Option ℕ × Userland → Userland
report_spawn (none, s) =
    print (print s (codes "userspawn: process=%x\n") (u32 0xffffffff ∷ []))
      (codes "userspawn: failed to create user process\n") []
report_spawn (some process_id, s) =
    let s1 = print s (codes "userspawn: process=%x\n") (u32 process_id ∷ []) in
    if ltb process_id (2 ^ 31)
    then s1
    else print s1 (codes "userspawn: failed to create user process\n") []

-- The path is what is in the buffer behind the command's name and a space.
pub cmd_userspawn : Code → Kshell → Userland → Userland
cmd_userspawn code k s =
    if leb k.length 9 || not (get_or k.buffer 9 0 == b' ')
    then print s (codes "usage: userspawn PATH\n") []
    else report_spawn (user_spawn code s (λ i. get_or k.buffer (9 + 1 + i) 0))

-- `turns` are what happens while `user_init` yields; `none` is that it waits still.
pub cmd_userland : List (Userland → Userland) → Code → Userland → Option Userland
cmd_userland turns code s = user_init turns code s

-- `turn` is what happens while `sched_yield` runs other tasks.
pub cmd_yield : (Userland → Userland) → Userland → Userland
cmd_yield turn s = turn (record s { keyboard = keyboard_buffer_clear s.keyboard })
