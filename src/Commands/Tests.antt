-- ===== src/Commands/Tests.antt =====
-- kernel/kshell.c at a line that spawns a process, and at the uptime.
use Prim.Native.Nat.{ℕ}
use emyx.Base.{false, List, [], ◌∷◌, ◌++◌, codes, arith}
use emyx.Shell.{Kshell, kshell_init}
use emyx.Shell.Line.{IsLine, init-IsLine, init-active, type_all, type_all_lem}
use emyx.Process.Examples.{machine, code}
use emyx.Commands.Poll.{Console, World}

abbrev off : Kshell
off = record { buffer = []; length = 0; command_ready = false; active = false; output = [] }

abbrev keys : List ℕ
keys = codes "userspawn /bin/init" ++ (10 ∷ [])

abbrev typed : Kshell
typed = type_all (kshell_init off) keys

typed-IsLine : IsLine typed
typed-IsLine =
    (type_all_lem (kshell_init off) keys (init-IsLine off) (init-active off) (ground arith)).0

abbrev console : Console
console = record {
  machine = record {
    irq_counts = λ i. 0;
    timer = record { ticks = 4200; last_printed_ticks = 0 };
    shell = typed;
    userland = machine 0;
    serial = [];
    ports = [];
  };
  terminal = record { row = 0; column = 0; color = 7; cells = λ i. 0; ports = [] };
}

abbrev world : World
world = record {
  code = code;
  test_address = 0xC0100100;
  vmmtest_address = 0xC0100200;
  turn = λ s. s;
  turns = (λ s. s) ∷ [];
}
