-- ===== src/Syscall.antt =====
-- kernel/syscall.c: the system calls of the processes.
pub mod Copy
pub mod Dispatch
mod Tests
use Prim.Native.Nat.{ℕ, zero, suc}
use emyx.Base.{
  ◌+◌, ◌-◌, Bool, true, false, not, ◌||◌, Option, none, some, List, [], ◌∷◌, ◌==◌, if◌then◌else◌,
  codes,
}
use emyx.Memory.{Memory}
use emyx.Printk.{char, u32}
use emyx.Keyboard.{keyboard_buffer_pop}
use emyx.Initramfs.{path_size}
use emyx.Sched.{Exit, kthread_exit, sched_yield}
use emyx.Process.{Userland}
use emyx.Process.Calls.{as_int, Code, Wait, print, user_spawn, user_wait, user_exit_current}

-- `struct syscall_frame`.
pub record SyscallFrame : Type 0 where
  pub edi : ℕ
  pub esi : ℕ
  pub ebp : ℕ
  pub esp : ℕ
  pub ebx : ℕ
  pub edx : ℕ
  pub ecx : ℕ
  pub eax : ℕ

-- SYS_WRITE to SYS_WAIT, SYS_FD_STDOUT and SYS_ERR.
abbrev pub sys_write_number : ℕ
sys_write_number = 1

abbrev pub sys_exit_number : ℕ
sys_exit_number = 2

abbrev pub sys_yield_number : ℕ
sys_yield_number = 3

abbrev pub sys_getc_number : ℕ
sys_getc_number = 4

abbrev pub sys_spawn_number : ℕ
sys_spawn_number = 5

abbrev pub sys_wait_number : ℕ
sys_wait_number = 6

abbrev pub sys_fd_stdout : ℕ
sys_fd_stdout = 1

abbrev pub sys_err : ℕ
sys_err = 0xffffffff

-- How a call ends: it returns a value, the thread has exited, or it waits still.
pub data Outcome : Type 0 where
  returns : ℕ → Userland → Outcome
  ends : Userland → Exit → Outcome
  waits : Outcome

-- The bytes at the virtual addresses of the process are `user`. The loop of `sys_write`, for `n`
-- characters from `i` on.
pub write_from : ℕ → ℕ → Memory → ℕ → Userland → Userland
write_from zero i user buf s = s
write_from (suc n) i user buf s =
    write_from n (i + 1) user buf (print s (codes "%c") (char (user (buf + i)) ∷ []))

pub sys_write : Memory → Userland → ℕ → ℕ → ℕ → Outcome
sys_write user s fd buf len =
    if not (fd == sys_fd_stdout) || (buf == 0)
    then returns sys_err s
    else returns len (write_from len 0 user buf s)

-- `esp` is the stack pointer that a switch saves.
pub sys_exit : ℕ → Userland → ℕ → Outcome
sys_exit esp s status =
    let s1 =
      print (user_exit_current s status) (codes "user: exited status=%x\n") (u32 status ∷ []) in
    ends s1 (kthread_exit s1.sched esp)

pub sys_yield : ℕ → Userland → Outcome
sys_yield esp s = returns 0 (record s { sched = sched_yield s.sched esp })

abbrev pub put_byte : (ℕ → ℕ) → ℕ → ℕ → ℕ → ℕ
put_byte dst i c j = if j == i then c else dst j

-- The loop of `copy_string_from_user`, for `n` characters from `i` on: its result, or `none` where it
-- runs to its end, and the array.
pub copy_from : ℕ → ℕ → Memory → ℕ → (ℕ → ℕ) → Option Bool × (ℕ → ℕ)
copy_from zero i user src dst = (none, dst)
copy_from (suc n) i user src dst =
    let dst' = put_byte dst i (user (src + i)) in
    let rest = copy_from n (i + 1) user src dst' in
    if user (src + i) == 0 then (some (not (i == 0)), dst') else rest

abbrev pub terminate : ℕ → Option Bool × (ℕ → ℕ) → Bool × (ℕ → ℕ)
terminate max_len (some result, dst) = (result, dst)
terminate max_len (none, dst) = (false, put_byte dst (max_len - 1) 0)

-- For a `dst` that is not NULL. The result is whether the call returns 0; otherwise it returns -1.
pub copy_string_from_user : Memory → (ℕ → ℕ) → ℕ → ℕ → Bool × (ℕ → ℕ)
copy_string_from_user user dst src max_len =
    if (src == 0) || (max_len == 0)
    then (false, dst)
    else terminate max_len (copy_from max_len 0 user src dst)

abbrev pub or_error : Option ℕ → ℕ
or_error none = sys_err
or_error (some value) = value

-- From the result of `copy_string_from_user` on.
pub spawn_copied : Code → Userland → Bool × (ℕ → ℕ) → Outcome
spawn_copied code s (false, kernel_path) = returns sys_err s
spawn_copied code s (true, kernel_path) =
    let (process_id, s') = user_spawn code s kernel_path in
    returns (or_error (as_int process_id)) s'

-- `kernel_path` is what the array has at first.
pub sys_spawn : Code → Memory → (ℕ → ℕ) → Userland → ℕ → Outcome
sys_spawn code user kernel_path s path =
    spawn_copied code s (copy_string_from_user user kernel_path path path_size)

abbrev pub waited : Wait → Outcome
waited (Wait.done status s) = returns (or_error status) s
waited Wait.yields = waits

pub sys_wait : List (Userland → Userland) → Userland → ℕ → Outcome
sys_wait turns s pid = waited (user_wait turns s pid)

abbrev pub got : Userland → Outcome
got s =
    let (c, keyboard) = keyboard_buffer_pop s.keyboard in
    returns c (record s { keyboard = keyboard })

-- What a call finds besides the kernel's state and its frame.
pub record Caller : Type 0 where
  pub code : Code
  pub user : Memory
  pub esp : ℕ
  pub kernel_path : ℕ → ℕ
  pub turns : List (Userland → Userland)

pub syscall_dispatch : Caller → Userland → SyscallFrame → Outcome
syscall_dispatch c s frame =
    if frame.eax == sys_write_number
    then sys_write c.user s frame.ebx frame.ecx frame.edx
    else if frame.eax == sys_exit_number
    then sys_exit c.esp s frame.ebx
    else if frame.eax == sys_yield_number
    then sys_yield c.esp s
    else if frame.eax == sys_getc_number
    then got s
    else if frame.eax == sys_spawn_number
    then sys_spawn c.code c.user c.kernel_path s frame.ebx
    else if frame.eax == sys_wait_number
    then sys_wait c.turns s frame.ebx
    else returns sys_err s
