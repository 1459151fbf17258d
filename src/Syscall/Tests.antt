-- ===== src/Syscall/Tests.antt =====
-- kernel/syscall.c at the shell's calls.
use emyx.Base.{◌-◌, ◌≡◌, refl, true, false, [], ◌∷◌, get_or, codes, arith}
use emyx.Memory.{Memory}
use emyx.Process.Examples.{machine, code, two-IsTable}
use emyx.Syscall.{
  SyscallFrame, Caller, syscall_dispatch, copy_string_from_user, copy_from, sys_spawn_number,
}
use emyx.Syscall.Copy.{Copies, copy_string_from_user_lem}
use emyx.Syscall.Dispatch.{Keeps, syscall_dispatch-Keeps}

-- "/bin/init" at 0x400100 in the memory of the process.
abbrev user : Memory
user p = get_or (codes "/bin/init") (p - 0x400100) 0

copy_string_from_user_lem_example :
    Copies user (λ i. 0xaa) 0x400100 32 (copy_string_from_user user (λ i. 0xaa) 0x400100 32)
copy_string_from_user_lem_example =
    copy_string_from_user_lem user (λ i. 0xaa) 0x400100 32 (omega arith) (omega arith)

copy_runs :
    ((copy_string_from_user user (λ i. 0xaa) 0x400100 32).0 ≡ true)
    × ((copy_string_from_user user (λ i. 0xaa) 0x400100 9).0 ≡ false)
    × ((copy_string_from_user user (λ i. 0xaa) 0x400100 9).1 8 ≡ 0)
unfolding copy_string_from_user copy_from
copy_runs = (refl, refl, refl)

abbrev caller : Caller
caller = record {
  code = code;
  user = user;
  esp = 0xC0002F00;
  kernel_path = λ i. 0;
  turns = (λ s. s) ∷ [];
}

abbrev spawn_frame : SyscallFrame
spawn_frame = record {
  edi = 0;
  esi = 0;
  ebp = 0;
  esp = 0;
  ebx = 0x400100;
  edx = 0;
  ecx = 0;
  eax = sys_spawn_number;
}

syscall_dispatch-Keeps_example : Keeps (syscall_dispatch caller (machine 2) spawn_frame)
syscall_dispatch-Keeps_example =
    syscall_dispatch-Keeps caller (machine 2) spawn_frame two-IsTable (omega arith) (λ s v. v, tt)
