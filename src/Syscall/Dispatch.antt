-- ===== src/Syscall/Dispatch.antt =====
-- kernel/syscall.c: what system calls leave of the process table.
use Prim.Native.Nat.{ℕ, zero, suc}
use emyx.Base.{
  All, ◌+◌, ◌^◌, ◌<◌, ◌≡◌, inl, inr, refl, Bool, true, false, not, ◌||◌, [], ◌∷◌, ◌==◌, Bool-cases,
  codes,
}
use emyx.Memory.{Memory}
use emyx.Printk.{char}
use emyx.Initramfs.{path_size}
use emyx.Process.{Userland}
use emyx.Process.Calls.{Code, Wait, print, user_spawn, user_wait, user_exit_current}
use emyx.Process.Calls.Invariant.{HasTable, Step-HasTable, spawns, exits}
use emyx.Process.Calls.Turns.{KeepsTable, DoneHasTable, user_wait-DoneHasTable}
use emyx.Syscall.{
  SyscallFrame, Caller, Outcome, returns, ends, waits, write_from, sys_write, sys_exit, sys_yield,
  spawn_copied, sys_spawn, sys_wait, waited, syscall_dispatch, copy_string_from_user,
  sys_write_number, sys_exit_number, sys_yield_number, sys_getc_number, sys_spawn_number,
  sys_wait_number, sys_fd_stdout,
}

-- A call leaves a table that keeps its invariant.
abbrev pub Keeps : Outcome → Type 0
Keeps (returns value r) = HasTable r
Keeps (ends r exit) = HasTable r
Keeps waits = Unit {0}

write_from-keeps :
    (n i : ℕ) (user : Memory) (buf : ℕ) (s : Userland)
    → ((write_from n i user buf s).processes ≡ s.processes)
      × ((write_from n i user buf s).next_pid ≡ s.next_pid)
unfolding write_from
write_from-keeps zero i user buf s = (refl, refl)
write_from-keeps (suc n) i user buf s =
    write_from-keeps n (i + 1) user buf (print s (codes "%c") (char (user (buf + i)) ∷ []))

sys_write-Keeps :
    (user : Memory) (s : Userland) (fd buf len : ℕ)
    → HasTable s
    → Keeps (sys_write user s fd buf len)
unfolding sys_write
sys_write-Keeps user s fd buf len v =
    let w = write_from-keeps len 0 user buf s in
    elim (Bool-cases (not (fd == sys_fd_stdout) || (buf == 0))) [
      | inl refused ↦ rw refused v
      | inr fine ↦ rw fine (rw (w.0, w.1) v)
    ]

sys_exit-Keeps :
    (code : Code) (esp : ℕ) (s : Userland) (status : ℕ)
    → HasTable s
    → s.next_pid + 1 < 2 ^ 32
    → Keeps (sys_exit esp s status)
unfolding sys_exit
sys_exit-Keeps code esp s status v below =
    (Step-HasTable code s (user_exit_current s status) 0 v below (exits status)).0

spawn-Keeps :
    (code : Code) (s : Userland) (r : Bool × (ℕ → ℕ))
    → HasTable s
    → s.next_pid + 1 < 2 ^ 32
    → Keeps (spawn_copied code s r)
unfolding spawn_copied
spawn-Keeps code s (false, path) v below = v
spawn-Keeps code s (true, path) v below =
    (Step-HasTable code s (user_spawn code s path).1 1 v below (spawns path)).0

waited-Keeps : (w : Wait) → DoneHasTable w → Keeps (waited w)
waited-Keeps (Wait.done status s) v = v
waited-Keeps Wait.yields v = tt

-- From a state whose process table keeps its invariant, with an id left, every system call with
-- any number and arguments leaves a table that keeps it, whether the call returns or the thread
-- ends, if what the other tasks do while it waits keeps the invariant.
pub syscall_dispatch-Keeps :
    (c : Caller) (s : Userland) (frame : SyscallFrame)
    → HasTable s
    → s.next_pid + 1 < 2 ^ 32
    → All KeepsTable c.turns
    → Keeps (syscall_dispatch c s frame)
unfolding syscall_dispatch sys_yield sys_spawn sys_wait
syscall_dispatch-Keeps c s frame v below k = elim (Bool-cases (frame.eax == sys_write_number)) [
  | inl write ↦ rw write (sys_write-Keeps c.user s frame.ebx frame.ecx frame.edx v)
  | inr n1 ↦ elim (Bool-cases (frame.eax == sys_exit_number)) [
    | inl exit ↦ rw (n1, exit) (sys_exit-Keeps c.code c.esp s frame.ebx v below)
    | inr n2 ↦ elim (Bool-cases (frame.eax == sys_yield_number)) [
      | inl yield ↦ rw (n1, n2, yield) v
      | inr n3 ↦ elim (Bool-cases (frame.eax == sys_getc_number)) [
        | inl getc ↦ rw (n1, n2, n3, getc) v
        | inr n4 ↦ elim (Bool-cases (frame.eax == sys_spawn_number)) [
          | inl spawn ↦
              rw (n1, n2, n3, n4, spawn)
                (spawn-Keeps c.code s
                  (copy_string_from_user c.user c.kernel_path frame.ebx path_size) v below)
          | inr n5 ↦ elim (Bool-cases (frame.eax == sys_wait_number)) [
            | inl wait ↦
                rw (n1, n2, n3, n4, n5, wait)
                  (waited-Keeps (user_wait c.turns s frame.ebx)
                    (user_wait-DoneHasTable c.turns s frame.ebx k v))
            | inr n6 ↦ rw (n1, n2, n3, n4, n5, n6) v
          ]
        ]
      ]
    ]
  ]
]
