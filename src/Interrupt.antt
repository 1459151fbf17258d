-- ===== src/Interrupt.antt =====
-- kernel/interrupt.c, kernel/timer.c, kernel/arch/i386/pic.c, kernel/arch/i386/pit.c and
-- kernel/arch/i386/serial.c: interrupts, the timer and the devices' ports.
pub mod Keys
mod Tests
pub mod Report
use Prim.Native.Nat.{ℕ, zero, suc}
use emyx.Base.{
  ◌+◌, ◌-◌, ◌*◌, ◌/◌, ◌%◌, ◌^◌, Bool, true, false, not, List, [], ◌∷◌, ◌++◌, get_or, set, bit_and,
  bit_or, ltb, leb, ◌==◌, if◌then◌else◌, add32, sub32, shr, codes,
}
use emyx.Printk.{u32_to_hex, c_string}
use emyx.Keyboard.{keyboard_buffer_push, keyboard_decode}
use emyx.Process.{Userland}
use emyx.Process.Calls.{user_has_input_focus}
use emyx.Shell.{Kshell, kshell_on_char}

-- The static variables of timer.c.
pub record Timer : Type 0 where
  pub ticks : ℕ
  pub last_printed_ticks : ℕ

pub timer_tick : Timer → Timer
timer_tick t = record t { ticks = add32 t.ticks 1 }

pub timer_get_ticks : Timer → ℕ
timer_get_ticks t = t.ticks

-- COM1.
abbrev pub com1 : ℕ
com1 = 0x3F8

-- The writes to ports, first to last.
pub serial_init : List (ℕ × ℕ)
serial_init =
    (com1 + 1, 0x00)
    ∷ (com1 + 3, 0x80)
    ∷ (com1 + 0, 0x03)
    ∷ (com1 + 1, 0x00)
    ∷ (com1 + 3, 0x03)
    ∷ (com1 + 2, 0xC7)
    ∷ (com1 + 4, 0x0B)
    ∷ []

-- What `serial_writestring` sends, up to a NUL: a line feed becomes a carriage return and a line feed.
pub serial_writestring : List ℕ → List ℕ
serial_writestring [] = []
serial_writestring (c ∷ cs) =
    let rest = serial_writestring cs in
    if c == 0 then [] else if c == 10 then 13 ∷ c ∷ rest else c ∷ rest

-- The timer, and what goes to the serial port.
pub timer_print : Timer → Timer × List ℕ
timer_print t = if ltb (sub32 t.ticks t.last_printed_ticks) 100 then (t, []) else (
  record t { last_printed_ticks = t.ticks },
  serial_writestring (codes "TICKS: ")
      ++ serial_writestring (u32_to_hex t.ticks)
      ++ serial_writestring (codes "\n"),
)

-- PIC1_COMMAND to PIC2_DATA, PIC_EOI, PIT_COMMAND, PIT_CHANNEL0 and PIT_MODE2.
abbrev pub pic1_command : ℕ
pic1_command = 0x20

abbrev pub pic2_command : ℕ
pic2_command = 0xA0

abbrev pub pic1_data : ℕ
pic1_data = 0x21

abbrev pub pic2_data : ℕ
pic2_data = 0xA1

abbrev pub pic_eoi : ℕ
pic_eoi = 0x20

abbrev pub pit_command : ℕ
pit_command = 0x43

abbrev pub pit_channel0 : ℕ
pit_channel0 = 0x40

abbrev pub pit_mode2 : ℕ
pit_mode2 = 0x34

-- The writes to ports, first to last, for the masks that are read at the start.
pub pic_remap : ℕ → ℕ → ℕ → ℕ → List (ℕ × ℕ)
pic_remap master_offset slave_offset mask1 mask2 =
    (pic1_command, bit_or 0x10 0x01)
    ∷ (pic2_command, bit_or 0x10 0x01)
    ∷ (pic1_data, master_offset)
    ∷ (pic2_data, slave_offset)
    ∷ (pic1_data, 0x04)
    ∷ (pic2_data, 0x02)
    ∷ (pic1_data, 0x01)
    ∷ (pic2_data, 0x01)
    ∷ (pic1_data, mask1)
    ∷ (pic2_data, mask2)
    ∷ []

-- The port and the bit of a line.
pub irq_to_port_bit : ℕ → ℕ × ℕ
irq_to_port_bit irq_line =
    if ltb irq_line 8 then (pic1_data, irq_line) else (pic2_data, irq_line - 8)

-- The port and what is written to it, where `inb` gives what is read.
pub pic_set_mask : (ℕ → ℕ) → ℕ → ℕ × ℕ
pic_set_mask inb irq_line =
    let (port, bit) = irq_to_port_bit irq_line in (port, bit_or (inb port) (2 ^ bit) % 2 ^ 8)

pub pic_clear_mask : (ℕ → ℕ) → ℕ → ℕ × ℕ
pic_clear_mask inb irq_line =
    let (port, bit) = irq_to_port_bit irq_line in
    (port, bit_and (inb port) (2 ^ 32 - 1 - 2 ^ bit) % 2 ^ 8)

pub pic_send_eoi : ℕ → List (ℕ × ℕ)
pic_send_eoi irq_line =
    if leb 8 irq_line
    then (pic2_command, pic_eoi) ∷ (pic1_command, pic_eoi) ∷ []
    else (pic1_command, pic_eoi) ∷ []

pub pit_init : ℕ → List (ℕ × ℕ)
pit_init hz =
    let hz' = if hz == 0 then 1 else hz in
    let wrapped = 1193182 / hz' % 2 ^ 16 in
    let divisor = if wrapped == 0 then 1 else wrapped in
    (pit_command, pit_mode2)
    ∷ (pit_channel0, bit_and divisor 0x00FF)
    ∷ (pit_channel0, bit_and (shr divisor 8) 0x00FF)
    ∷ []

-- What interrupts work on: the static variables of interrupt.c and of the parts that it calls, what was
-- sent to the serial port, and the writes to the interrupt controllers, first to last. `irq_counts` has the
-- words from the array's start on by their index, those behind its sixteen included.
pub record Machine : Type 0 where
  pub irq_counts : ℕ → ℕ
  pub timer : Timer
  pub shell : Kshell
  pub userland : Userland
  pub serial : List ℕ
  pub ports : List (ℕ × ℕ)

-- A key goes to the processes or to the kernel's shell.
pub deliver : Machine → ℕ → Machine
deliver m key =
    if user_has_input_focus m.userland
    then record m {
      userland = record m.userland { keyboard = keyboard_buffer_push m.userland.keyboard key };
    }
    else record m { shell = kshell_on_char m.shell key }

-- For the scancode that `keyboard_read` gives.
pub on_scancode : Machine → ℕ → Machine
on_scancode m sc =
    let key = keyboard_decode sc in
    let m1 = deliver m key in
    if key == 0 then m else record m1 {
      serial =
          m1.serial
          ++ serial_writestring (codes "scancode=")
          ++ serial_writestring (u32_to_hex sc)
          ++ serial_writestring (codes " key=")
          ++ serial_writestring (key ∷ 0 ∷ [])
          ++ serial_writestring (codes "\n");
    }

pub irq_ack : Machine → ℕ → Machine
irq_ack m irq = record m { ports = m.ports ++ pic_send_eoi (irq % 2 ^ 8) }

-- `irq_counts[irq]++`.
abbrev pub count_irq : (ℕ → ℕ) → ℕ → ℕ → ℕ
count_irq counts irq j = if j == irq then add32 (counts irq) 1 else counts j

pub irq_handler : Machine → ℕ → ℕ → Machine
irq_handler m irq sc =
    let m1 = if ltb irq 16 then record m { irq_counts = count_irq m.irq_counts irq } else m in
    let m2 = if irq == 0 then record m1 { timer = timer_tick m1.timer } else m1 in
    let m3 = if irq == 1 then on_scancode m2 sc else m2 in irq_ack m3 irq

pub irq_get_counts : Machine → ℕ → ℕ
irq_get_counts m = m.irq_counts
