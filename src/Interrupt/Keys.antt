-- ===== src/Interrupt/Keys.antt =====
-- kernel/interrupt.c: what a hardware interrupt does to the parts of the kernel.
use Prim.Native.Nat.{ℕ}
use emyx.Base.{
  ◌^◌, ◌%◌, ◌<◌, ◌≡◌, ◌≢◌, inl, inr, refl, sym, ap, subst, ◌∙◌, true, false, ◌+◌, ◌&&◌, leb, List,
  [], ◌∷◌, ◌++◌, ltb, ◌==◌, if◌then◌else◌, Bool-cases, arith,
}
use native.Mathlib.Decide.{ℕ_discrete}
use emyx.Keyboard.{keyboard_buffer_push, keyboard_decode}
use emyx.Keyboard.Refine.{IsValid, push-IsValid}
use emyx.Process.{Userland}
use emyx.Process.Calls.Focus.{HasFocus, focused, not_focused, user_has_input_focus-Focuses}
use emyx.Process.Calls.Invariant.{HasTable}
use emyx.Shell.{Kshell, kshell_on_char}
use emyx.Shell.Line.{IsLine, on_char_lem, on_char-asleep}
use emyx.Interrupt.{
  Machine, Timer, count_irq, timer_tick, pic_send_eoi, deliver, on_scancode, irq_ack, irq_handler,
}

-- The shell's line, the process table and the keyboard's ring buffer are as they should be.
pub record IsSound (m : Machine) : Type 0 where
  pub line : IsLine m.shell
  pub table : HasTable m.userland
  pub queue : IsValid m.userland.keyboard

-- A key that is pressed goes to one of two places.
pub data Delivers (m : Machine) (key : ℕ) (r : Machine) : Type 0 where
  to_processes :
      HasFocus m.userland
      → r.shell ≡ m.shell
      → r.userland ≡ record m.userland { keyboard = keyboard_buffer_push m.userland.keyboard key }
      → Delivers m key r
  to_shell :
      (HasFocus m.userland → ⊥)
      → r.shell ≡ kshell_on_char m.shell key
      → r.userland ≡ m.userland
      → Delivers m key r

-- The end of interrupt, 0x20, goes to the command port 0xA0 of the slave for interrupts from 8 on, and
-- to the command port 0x20 of the master for all.
abbrev pub end_of_interrupt : ℕ → List (ℕ × ℕ)
end_of_interrupt irq = if leb 8 irq then (0xA0, 0x20) ∷ (0x20, 0x20) ∷ [] else (0x20, 0x20) ∷ []

pic_send_eoi-eq : (irq : ℕ) → pic_send_eoi irq ≡ end_of_interrupt irq
unfolding pic_send_eoi
pic_send_eoi-eq irq = refl

-- What an interrupt does, for the scancode that the keyboard has.
pub record Handles (m : Machine) (irq sc : ℕ) (r : Machine) : Type 0 where
  pub sound : IsSound r
  pub counts :
      (j : ℕ)
      → r.irq_counts j
        ≡ (if (j == irq) && ltb j 16 then (m.irq_counts j + 1) % 2 ^ 32 else m.irq_counts j)
  pub ticks : r.timer.ticks ≡ (if irq == 0 then (m.timer.ticks + 1) % 2 ^ 32 else m.timer.ticks)
  pub printed : r.timer.last_printed_ticks ≡ m.timer.last_printed_ticks
  pub key : irq ≡ 1 → keyboard_decode sc ≢ 0 → Delivers m (keyboard_decode sc) r
  pub quiet : (irq ≢ 1) → (r.shell ≡ m.shell) × (r.userland ≡ m.userland) × (r.serial ≡ m.serial)
  pub no_key :
      keyboard_decode sc ≡ 0
      → (r.shell ≡ m.shell) × (r.userland ≡ m.userland) × (r.serial ≡ m.serial)
  pub acknowledged : r.ports ≡ m.ports ++ end_of_interrupt irq

on_char-IsLine : (k : Kshell) (c : ℕ) → IsLine k → c ≢ 0 → IsLine (kshell_on_char k c)
on_char-IsLine k c v ne = elim (Bool-cases k.active) [
  | inl on ↦ (on_char_lem k c v on ne).line
  | inr off ↦ rw (on_char-asleep k c off) v
]

-- A key, on a machine whose parts are as they should be.
deliver_lem :
    (m : Machine) (key : ℕ)
    → IsSound m
    → key ≢ 0
    → Delivers m key (deliver m key)
      × IsLine (deliver m key).shell
      × HasTable (deliver m key).userland
      × IsValid (deliver m key).userland.keyboard
      × ((deliver m key).irq_counts ≡ m.irq_counts)
      × ((deliver m key).timer ≡ m.timer)
      × ((deliver m key).ports ≡ m.ports)
unfolding deliver
deliver_lem m key v ne = elim (user_has_input_focus-Focuses m.userland) [
  | focused e focus ↦ rw e (
    to_processes focus refl refl,
    v.line,
    v.table,
    push-IsValid m.userland.keyboard key v.queue,
    refl,
    refl,
    refl,
  )
  | not_focused e none_there ↦ rw e (
    to_shell none_there refl refl,
    on_char-IsLine m.shell key v.line ne,
    v.table,
    v.queue,
    refl,
    refl,
    refl,
  )
]

-- A scancode.
record Scans (m : Machine) (sc : ℕ) (r : Machine) : Type 0 where
  sound : IsSound r
  counts : r.irq_counts ≡ m.irq_counts
  timer : r.timer ≡ m.timer
  key : keyboard_decode sc ≢ 0 → Delivers m (keyboard_decode sc) r
  no_key :
      keyboard_decode sc ≡ 0
      → (r.shell ≡ m.shell) × (r.userland ≡ m.userland) × (r.serial ≡ m.serial)
  ports : r.ports ≡ m.ports

-- What is sent to the serial port plays no part.
resent :
    (m : Machine) (key : ℕ) (r : Machine) (serial : List ℕ)
    → Delivers m key r
    → Delivers m key (record r { serial = serial })
resent m key r serial (to_processes focus a b) = to_processes focus a b
resent m key r serial (to_shell none_there a b) = to_shell none_there a b

on_scancode_lem : (m : Machine) (sc : ℕ) → IsSound m → Scans m sc (on_scancode m sc)
unfolding on_scancode
on_scancode_lem m sc v = elim (ℕ_discrete (keyboard_decode sc) 0) [
  | yes none_there ↦ rw none_there (record {
    sound = v;
    counts = refl;
    timer = refl;
    key = λ ne. absurd (ne none_there);
    no_key = λ e. (refl, refl, refl);
    ports = refl;
  })
  | no ne ↦
      let key = keyboard_decode sc in
      let there : (key == 0) ≡ false = ground (arith, ne) in
      let d = deliver_lem m key v ne in
      rw there (record {
        sound = record { line = d.1; table = d.2; queue = d.3 };
        counts = d.4;
        timer = d.5;
        key = λ h. resent m key (deliver m key) _ d.0;
        no_key = λ e. absurd (ne e);
        ports = d.6;
      })
]

-- The machine once the interrupt is counted.
abbrev counted : Machine → ℕ → Machine
counted m irq = if ltb irq 16 then record m { irq_counts = count_irq m.irq_counts irq } else m

counted_lem :
    (m : Machine) (irq : ℕ)
    → IsSound m
    → IsSound (counted m irq)
      × ((j : ℕ)
          → (counted m irq).irq_counts j
            ≡ (if (j == irq) && ltb j 16 then (m.irq_counts j + 1) % 2 ^ 32 else m.irq_counts j))
      × ((counted m irq).timer ≡ m.timer)
      × ((counted m irq).shell ≡ m.shell)
      × ((counted m irq).userland ≡ m.userland)
      × ((counted m irq).serial ≡ m.serial)
      × ((counted m irq).ports ≡ m.ports)
counted_lem m irq v = elim (Bool-cases (ltb irq 16)) [
  | inl line ↦ rw line (
    record { line = v.line; table = v.table; queue = v.queue },
    λ j. elim (ℕ_discrete j irq) [
      | yes same ↦ rw (same, line) (ground arith)
      | no other ↦ let off : (j == irq) ≡ false = ground (arith, other) in rw off refl
    ],
    refl,
    refl,
    refl,
    refl,
    refl,
  )
  | inr none_there ↦ rw none_there (
    v,
    λ j. elim (ℕ_discrete j irq) [
      | yes same ↦ rw (same, none_there) (ground arith)
      | no other ↦ let off : (j == irq) ≡ false = ground (arith, other) in rw off refl
    ],
    refl,
    refl,
    refl,
    refl,
    refl,
  )
]

-- The processes and the shell are those of before the interrupt was counted.
moved :
    (m m1 : Machine) (key : ℕ) (r : Machine)
    → m1.shell ≡ m.shell
    → m1.userland ≡ m.userland
    → Delivers m1 key r
    → Delivers m key r
moved m m1 key r a b (to_processes focus e f) = to_processes (subst HasFocus b focus) (e ∙ a) (
    f
    ∙ ap {B = Userland}
        (λ (u : Userland). record u { keyboard = keyboard_buffer_push u.keyboard key }) b)
moved m m1 key r a b (to_shell none_there e f) =
    to_shell (λ f. none_there (subst HasFocus (sym b) f)) (e ∙ ap (λ k. kshell_on_char k key) a)
      (f ∙ b)

-- What is written to the ports plays no part in these.
acked : (m : Machine) (ports : List (ℕ × ℕ)) → IsSound m → IsSound (record m { ports = ports })
acked m ports v = record { line = v.line; table = v.table; queue = v.queue }

resent_ports :
    (m : Machine) (key : ℕ) (r : Machine) (ports : List (ℕ × ℕ))
    → Delivers m key r
    → Delivers m key (record r { ports = ports })
resent_ports m key r ports (to_processes focus a b) = to_processes focus a b
resent_ports m key r ports (to_shell none_there a b) = to_shell none_there a b

-- On a machine whose shell, process table and keyboard buffer keep their invariants, an interrupt of
-- any 8-bit number keeps them. If it is one of the first 16, its counter goes up by one, with
-- wrap-around; every other word from the counters on stays, also where the number is larger.
-- Interrupt 0 alone adds one to the ticks. On interrupt 1, a scancode that decodes to a
-- character gives the character to the keyboard buffer if the processes are started from the kernel or
-- the process of the running task runs, and to the shell otherwise, never to both. Any other interrupt or scancode leaves shell, processes and
-- serial port alone. The end of the interrupt is always sent, to the slave controller first for
-- numbers from 8 on, and to the master.
pub irq_handler_lem :
    (m : Machine) (irq sc : ℕ) → IsSound m → irq < 2 ^ 8 → Handles m irq sc (irq_handler m irq sc)
unfolding irq_handler irq_ack timer_tick
irq_handler_lem m irq sc v h =
    let c = counted_lem m irq v in
    let m1 = counted m irq in
    let s = on_scancode_lem m1 sc c.0 in
    let r = on_scancode m1 sc in
    let byte : irq % 2 ^ 8 ≡ irq = omega (arith, h) in
    elim (ℕ_discrete irq 1) [
      | yes one ↦
          let is_one : (irq == 1) ≡ true = ground (arith, one) in
          let not_zero : (irq == 0) ≡ false = ground (arith, one) in
          let ports = r.ports ++ end_of_interrupt irq in
          rw (is_one, not_zero, byte, pic_send_eoi-eq irq)
            (record {
              sound = acked r ports s.sound;
              counts = λ j. ap (λ (xs : ℕ → ℕ). xs j) s.counts ∙ c.1 j;
              ticks = rw not_zero (ap (λ (t : Timer). t.ticks) (s.timer ∙ c.2));
              printed = ap (λ (t : Timer). t.last_printed_ticks) (s.timer ∙ c.2);
              key = λ e ne.
                  resent_ports m (keyboard_decode sc) r ports
                    (moved m m1 (keyboard_decode sc) r c.3 c.4 (s.key ne));
              quiet = λ ne. absurd (ne one);
              no_key = λ e. let k = s.no_key e in (k.0 ∙ c.3, k.1 ∙ c.4, k.2 ∙ c.5);
              acknowledged = ap (λ p. p ++ end_of_interrupt irq) (s.ports ∙ c.6);
            })
      | no other ↦
          let not_one : (irq == 1) ≡ false = ground (arith, other) in
          elim (Bool-cases (irq == 0)) [
            | inl zero_th ↦
                rw (not_one, zero_th, byte, pic_send_eoi-eq irq)
                  (record {
                    sound = record { line = c.0.line; table = c.0.table; queue = c.0.queue };
                    counts = c.1;
                    ticks = rw zero_th (ap (λ (t : Timer). (t.ticks + 1) % 2 ^ 32) c.2);
                    printed = ap (λ (t : Timer). t.last_printed_ticks) c.2;
                    key = λ e. absurd (other e);
                    quiet = λ ne. (c.3, c.4, c.5);
                    no_key = λ e. (c.3, c.4, c.5);
                    acknowledged = ap (λ p. p ++ end_of_interrupt irq) c.6;
                  })
            | inr not_zero ↦
                rw (not_one, not_zero, byte, pic_send_eoi-eq irq)
                  (record {
                    sound = acked m1 (m1.ports ++ end_of_interrupt irq) c.0;
                    counts = c.1;
                    ticks = rw not_zero (ap (λ (t : Timer). t.ticks) c.2);
                    printed = ap (λ (t : Timer). t.last_printed_ticks) c.2;
                    key = λ e. absurd (other e);
                    quiet = λ ne. (c.3, c.4, c.5);
                    no_key = λ e. (c.3, c.4, c.5);
                    acknowledged = ap (λ p. p ++ end_of_interrupt irq) c.6;
                  })
          ]
    ]
