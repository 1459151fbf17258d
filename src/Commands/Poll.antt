-- ===== src/Commands/Poll.antt =====
-- kernel/kshell.c: `kshell_poll` with the command that it runs.
pub mod Keeps
use Prim.Native.Nat.{ℕ}
use emyx.Base.{Bool, true, false, Option, none, some, List, [], codes}
use emyx.Process.{Userland}
use emyx.Process.Calls.{Code, print}
use emyx.Terminal.{Terminal, terminal_init}
use emyx.Shell.{Kshell, Command, Action, nothing, unknown, run, kshell_init, kshell_poll}
use emyx.Interrupt.{Machine, timer_get_ticks, irq_get_counts}
use emyx.Commands.{
  cmd_help, cmd_ticks, cmd_irq, initramfs_list, cmd_userspawn, cmd_userland, cmd_yield,
}
use emyx.Commands.Selftest.{cmd_vmmtest, cmd_heaptest}

-- What the commands work on.
pub record Console : Type 0 where
  pub machine : Machine
  pub terminal : Terminal

-- The addresses of functions, among them `sched_zero_address_space_test` and `cmd_vmmtest`, and what
-- other tasks do while a command yields.
pub record World : Type 0 where
  pub code : Code
  pub test_address : ℕ
  pub vmmtest_address : ℕ
  pub turn : Userland → Userland
  pub turns : List (Userland → Userland)

-- How a command ends: it returns, it waits for processes still, or the machine stops in it, after the
-- message that is printed, with an exception or a reset.
pub data End : Type 0 where
  returned : Console → End
  waiting : End
  stopped : Console → End

abbrev pub with_userland : Console → Userland → Console
with_userland c s = record c { machine = record c.machine { userland = s } }

abbrev pub ended : Console → Option Userland → End
ended c none = waiting
ended c (some s) = returned (with_userland c s)

abbrev pub say : Console → List ℕ → Console
say c message = with_userland c (print c.machine.userland message [])

abbrev pub cmd_clear : Console → End
cmd_clear c = returned (record c { terminal = terminal_init c.terminal })

-- The division by zero, the reset and the read of an address that is not mapped follow the message.
abbrev pub cmd_panic : Console → End
cmd_panic c = stopped (say c (codes "Triggering exception...\n"))

abbrev pub cmd_reboot : Console → End
cmd_reboot c = stopped (say c (codes "Rebooting...\n"))

abbrev pub cmd_pagefault : Console → End
cmd_pagefault c = stopped (say c (codes "Triggering pagefault...\n"))

abbrev pub cmd_initramfs : Console → End
cmd_initramfs c = returned (with_userland c (initramfs_list c.machine.userland))

pub run_command : World → Command → Console → End
run_command w Command.help c = returned (with_userland c (cmd_help c.machine.userland))
run_command w Command.clear c = cmd_clear c
run_command w Command.ticks c =
    returned (with_userland c (cmd_ticks (timer_get_ticks c.machine.timer) c.machine.userland))
run_command w Command.irq c =
    returned (with_userland c (cmd_irq (irq_get_counts c.machine) c.machine.userland))
run_command w Command.panic c = cmd_panic c
run_command w Command.reboot c = cmd_reboot c
run_command w Command.pagefault c = cmd_pagefault c
run_command w Command.vmmtest c = returned (
    with_userland c (
      cmd_vmmtest w.test_address w.code.kthread_trampoline w.vmmtest_address w.turn
        c.machine.userland))
run_command w Command.heaptest c = returned (with_userland c (cmd_heaptest c.machine.userland))
run_command w Command.initramfs c = cmd_initramfs c
run_command w Command.userspawn c =
    returned (with_userland c (cmd_userspawn w.code c.machine.shell c.machine.userland))
run_command w Command.userland c = ended c (cmd_userland w.turns w.code c.machine.userland)
run_command w Command.yield c = returned (with_userland c (cmd_yield w.turn c.machine.userland))

-- `kshell_init`, once the command is done.
abbrev pub prompt : End → End
prompt (returned c) =
    returned (record c { machine = record c.machine { shell = kshell_init c.machine.shell } })
prompt waiting = waiting
prompt (stopped c) = stopped c

abbrev pub act : World → Console → Option Action → End
act w c none = returned c
act w c (some nothing) = prompt (returned c)
act w c (some unknown) = prompt (returned (say c (codes "Unknown command\n")))
act w c (some (run command)) = prompt (run_command w command c)

pub poll : World → Console → End
poll w c = act w c (kshell_poll c.machine.shell)
