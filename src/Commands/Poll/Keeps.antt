-- ===== src/Commands/Poll/Keeps.antt =====
-- kernel/kshell.c: what a command that is run from the shell leaves of the process table and the line.
use emyx.Base.{◌≡◌, ◌⊎◌, Bool, true, false}
use emyx.Process.Calls.Invariant.{HasTable}
use emyx.Shell.{Command, Action, nothing, unknown, run, kshell_exec}
use emyx.Shell.Line.{IsLine}
use emyx.Commands.Poll.{Console, End, returned, waiting, stopped}

-- How a command may end: the three that are to stop the machine do, the one that starts the user
-- programs returns or waits, and all others return.
abbrev pub Halts : Command → Type 0
Halts command =
    (command ≡ Command.panic) ⊎ (command ≡ Command.reboot) ⊎ (command ≡ Command.pagefault)

-- Where a command returns, the process table keeps its invariant.
abbrev pub EndHasTable : Command → End → Type 0
EndHasTable command (returned c) = HasTable c.machine.userland × (Halts command → ⊥)
EndHasTable command waiting = command ≡ Command.userland
EndHasTable command (stopped c) = Halts command

-- What `kshell_poll` may come to: nothing changes where no command is ready; or it returns from what the
-- line asks for, with an empty line and no command ready; or the command waits, or stops the machine.
pub data GoesOn (c : Console) (e : End) : Type 0 where
  idle : c.machine.shell.command_ready ≡ false → e ≡ returned c → GoesOn c e
  back :
      (r : Console)
      → c.machine.shell.command_ready ≡ true
      → e ≡ returned r
      → ((command : Command) → kshell_exec c.machine.shell ≡ run command → Halts command → ⊥)
      → HasTable r.machine.userland
      → IsLine r.machine.shell
      → r.machine.shell.length ≡ 0
      → r.machine.shell.command_ready ≡ false
      → r.machine.shell.active ≡ true
      → GoesOn c e
  waits :
      c.machine.shell.command_ready ≡ true
      → e ≡ waiting
      → kshell_exec c.machine.shell ≡ run Command.userland
      → GoesOn c e
  stops :
      (r : Console) (command : Command)
      → c.machine.shell.command_ready ≡ true
      → e ≡ stopped r
      → kshell_exec c.machine.shell ≡ run command
      → Halts command
      → GoesOn c e

-- Tells the commands that stop the machine from the others.
abbrev halting : Command → Bool
halting Command.help = false
halting Command.clear = false
halting Command.ticks = false
halting Command.irq = false
halting Command.panic = true
halting Command.reboot = true
halting Command.pagefault = true
halting Command.vmmtest = false
halting Command.heaptest = false
halting Command.initramfs = false
halting Command.userspawn = false
halting Command.userland = false
halting Command.yield = false

abbrev is_run : Action → Bool
is_run nothing = false
is_run unknown = false
is_run (run command) = true

abbrev command_of : Action → Command
command_of nothing = Command.help
command_of unknown = Command.help
command_of (run command) = command
