-- ===== src/Interrupt/Tests.antt =====
-- kernel/interrupt.c at a key press for the shell of a process, and the timer's divisor.
use emyx.Base.{◌≡◌, refl, [], ◌∷◌, false, arith}
use emyx.Keyboard.Refine.{initial-IsValid}
use emyx.Process.Examples.{machine, two-IsTable}
use emyx.Shell.{Kshell, kshell_init}
use emyx.Shell.Line.{init-IsLine}
use emyx.Interrupt.{Machine, irq_handler, pit_init}
use emyx.Interrupt.Keys.{IsSound, Handles, irq_handler_lem}

abbrev shell : Kshell
shell =
    kshell_init
      (record { buffer = []; length = 0; command_ready = false; active = false; output = [] })

abbrev kernel : Machine
kernel = record {
  irq_counts = λ i. 7;
  timer = record { ticks = 100; last_printed_ticks = 0 };
  shell = shell;
  userland = machine 2;
  serial = [];
  ports = [];
}

kernel-IsSound : IsSound kernel
kernel-IsSound = record {
  line =
      init-IsLine
        (record { buffer = []; length = 0; command_ready = false; active = false; output = [] });
  table = two-IsTable;
  queue = initial-IsValid;
}

-- The key "a".
irq_handler_lem_example : Handles kernel 1 0x1E (irq_handler kernel 1 0x1E)
irq_handler_lem_example = irq_handler_lem kernel 1 0x1E kernel-IsSound (omega arith)

-- At 100 Hz the divisor is 11931; the divisor for 1 Hz wraps around to 13534, which is 88 Hz.
divisors :
    (pit_init 100 ≡ (0x43, 0x34) ∷ (0x40, 0x9b) ∷ (0x40, 0x2e) ∷ [])
    × (pit_init 1 ≡ (0x43, 0x34) ∷ (0x40, 0xde) ∷ (0x40, 0x34) ∷ [])
unfolding pit_init
divisors = (refl, refl)
