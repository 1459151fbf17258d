-- ===== src/Commands/Keeps.antt =====
-- kernel/kshell.c: what the commands that print leave alone.
use Prim.Native.Nat.{ℕ, zero, suc}
use emyx.Base.{
  ◌+◌, ◌^◌, ◌<◌, ◌≡◌, inl, inr, refl, ◌∙◌, not, ◌||◌, Option, none, some, List, [], ◌∷◌, get_or,
  leb, ltb, ◌==◌, Bool-cases, codes,
}
use emyx.Memory.{read_le32}
use emyx.Printk.{char, str, u32}
use emyx.Initramfs.{entry_at, path_size, initramfs_header}
use emyx.Process.{Userland}
use emyx.Process.Calls.{Code, print, user_spawn}
use emyx.Process.Calls.Spawn.{user_spawn_lem}
use emyx.Process.Calls.Invariant.{HasTable, spawn-HasTable}
use emyx.Shell.{Kshell, KshellCmd, commands}
use emyx.Commands.{
  help_from, cmd_help, cmd_ticks, irq_from, cmd_irq, list_path, list_from, list_files,
  initramfs_list, report_spawn, cmd_userspawn,
}

-- The processes and their next id are the same.
pub record SameProcesses (s r : Userland) : Type 0 where
  pub processes : r.processes ≡ s.processes
  pub next_pid : r.next_pid ≡ s.next_pid

pub same : {s : Userland} → SameProcesses s s
same = record { processes = refl; next_pid = refl }

pub SameProcesses-trans :
    (s r q : Userland) → SameProcesses s r → SameProcesses r q → SameProcesses s q
SameProcesses-trans s r q a b = record {
  processes = b.processes ∙ a.processes;
  next_pid = b.next_pid ∙ a.next_pid;
}

pub SameProcesses-HasTable : (s r : Userland) → SameProcesses s r → HasTable s → HasTable r
SameProcesses-HasTable s r e v = rw (e.processes, e.next_pid) v

help_from-same : (cmds : List KshellCmd) (s : Userland) → SameProcesses s (help_from cmds s)
unfolding help_from
help_from-same [] s = same
help_from-same (cmd ∷ cmds) s =
    let r = print s (codes "- %s: %s\n") (str (some cmd.name) ∷ str (some cmd.desc) ∷ []) in
    let e = help_from-same cmds r in record { processes = e.processes; next_pid = e.next_pid }

pub cmd_help-same : (s : Userland) → SameProcesses s (cmd_help s)
unfolding cmd_help
cmd_help-same s =
    let e = help_from-same commands (print s (codes "Available commands:\n") []) in
    record { processes = e.processes; next_pid = e.next_pid }

pub cmd_ticks-same : (ticks : ℕ) (s : Userland) → SameProcesses s (cmd_ticks ticks s)
unfolding cmd_ticks
cmd_ticks-same ticks s = record { processes = refl; next_pid = refl }

irq_from-same : (n i : ℕ) (counts : ℕ → ℕ) (s : Userland) → SameProcesses s (irq_from n i counts s)
unfolding irq_from
irq_from-same zero i counts s = same
irq_from-same (suc n) i counts s =
    let r = print s (codes "irq%u: %u\n") (u32 i ∷ u32 (counts i) ∷ []) in
    let e = irq_from-same n (i + 1) counts r in
    record { processes = e.processes; next_pid = e.next_pid }

pub cmd_irq-same : (counts : ℕ → ℕ) (s : Userland) → SameProcesses s (cmd_irq counts s)
unfolding cmd_irq
cmd_irq-same counts s = irq_from-same 16 0 counts s

list_path-same : (n j entry : ℕ) (s : Userland) → SameProcesses s (list_path n j entry s)
unfolding list_path
list_path-same zero j entry s = same
list_path-same (suc n) j entry s =
    let r = print s (codes "%c") (char (s.memory (entry + j)) ∷ []) in
    let e = list_path-same n (j + 1) entry r in
    elim (Bool-cases (s.memory (entry + j) == 0)) [
      | inl nul ↦ rw nul same
      | inr more ↦ rw more (record { processes = e.processes; next_pid = e.next_pid })
    ]

list_from-same : (n i : ℕ) (s : Userland) → SameProcesses s (list_from n i s)
unfolding list_from
list_from-same zero i s = same
list_from-same (suc n) i s =
    let entry = entry_at s.archive i in
    let offset = read_le32 s.memory (entry + path_size) in
    let file_size = read_le32 s.memory (entry + path_size + 4) in
    let dash = print s (codes "- ") [] in
    let path = list_path path_size 0 entry dash in
    let p = list_path-same path_size 0 entry dash in
    let line = print path (codes " offset=%x size=%x\n") (u32 offset ∷ u32 file_size ∷ []) in
    let e = list_from-same n (i + 1) line in
    record { processes = e.processes ∙ p.processes; next_pid = e.next_pid ∙ p.next_pid }

list_files-same : (s : Userland) (o : Option ℕ) → SameProcesses s (list_files s o)
unfolding list_files
list_files-same s none = record { processes = refl; next_pid = refl }
list_files-same s (some n) =
    let r = print s (codes "initramfs: files=%x size=%x\n") (u32 n ∷ u32 s.archive.size ∷ []) in
    let e = list_from-same n 0 r in record { processes = e.processes; next_pid = e.next_pid }

pub initramfs_list-same : (s : Userland) → SameProcesses s (initramfs_list s)
unfolding initramfs_list
initramfs_list-same s = list_files-same s (initramfs_header s.memory s.archive)

report_spawn-same : (r : Option ℕ × Userland) → SameProcesses r.1 (report_spawn r)
unfolding report_spawn
report_spawn-same (none, s) = record { processes = refl; next_pid = refl }
report_spawn-same (some id, s) = elim (Bool-cases (ltb id (2 ^ 31))) [
  | inl small ↦ rw small (record { processes = refl; next_pid = refl })
  | inr large ↦ rw large (record { processes = refl; next_pid = refl })
]

pub cmd_userspawn-HasTable :
    (code : Code) (k : Kshell) (s : Userland)
    → HasTable s
    → s.next_pid + 1 < 2 ^ 32
    → HasTable (cmd_userspawn code k s)
unfolding cmd_userspawn
cmd_userspawn-HasTable code k s v below =
    let path = λ (i : ℕ). get_or k.buffer (9 + 1 + i) 0 in
    let r = user_spawn code s path in
    let spawned = spawn-HasTable code s path r v (user_spawn_lem code s path v below) in
    elim (Bool-cases (leb k.length 9 || not (get_or k.buffer 9 0 == b' '))) [
      | inl usage ↦ rw usage v
      | inr fine ↦
          rw fine (SameProcesses-HasTable r.1 (report_spawn r) (report_spawn-same r) spawned.0)
    ]
