-- ===== src/Keyboard.antt =====
-- kernel/keyboard.c, the ring buffer between the keyboard interrupt and SYS_GETC, and the scancode
-- table of kernel/arch/i386/keyboard.c.
pub mod Queue
pub mod Refine
pub mod Decode
mod Tests
use Prim.Native.Nat.{ℕ}
use emyx.Base.{
  ◌+◌, ◌%◌, ◌==◌, if◌then◌else◌, Bool, ltb, List, get_or, set, bit_and, replicate, [], ◌∷◌,
}

-- KEYBOARD_BUFFER_SIZE.
abbrev pub buffer_size : ℕ
buffer_size = 32

-- The static variables of kernel/keyboard.c. A `char` is the byte that it is stored as.
pub record Keyboard : Type 0 where
  pub buffer : List ℕ
  pub read_index : ℕ
  pub write_index : ℕ

-- The variables as the loader zeroes them.
abbrev pub initial : Keyboard
initial = record { buffer = replicate 32 0; read_index = 0; write_index = 0 }

-- `(uint32_t)c` for a `char`, which is signed on i386.
abbrev pub u32_of_char : ℕ → ℕ
u32_of_char c = if ltb c 128 then c else c + 0xffffff00

pub keyboard_buffer_push : Keyboard → ℕ → Keyboard
keyboard_buffer_push k c =
    let next = (k.write_index + 1) % buffer_size in
    if c == 0
    then k
    else if next == k.read_index
    then k
    else record k { buffer = set k.buffer k.write_index c; write_index = next }

pub keyboard_buffer_pop : Keyboard → ℕ × Keyboard
keyboard_buffer_pop k = if k.read_index == k.write_index then (0, k) else (
  u32_of_char (get_or k.buffer k.read_index 0),
  record k { read_index = (k.read_index + 1) % buffer_size },
)

pub keyboard_buffer_clear : Keyboard → Keyboard
keyboard_buffer_clear k = record k { read_index = k.write_index }

-- The cases of `keyboard_decode`: scancode and character.
abbrev pub keymap : List (ℕ × ℕ)
keymap =
    (0x02, b'1')
    ∷ (0x03, b'2')
    ∷ (0x04, b'3')
    ∷ (0x05, b'4')
    ∷ (0x06, b'5')
    ∷ (0x07, b'6')
    ∷ (0x08, b'7')
    ∷ (0x09, b'8')
    ∷ (0x0A, b'9')
    ∷ (0x0B, b'0')
    ∷ (0x0E, 8)
    ∷ (0x10, b'q')
    ∷ (0x11, b'w')
    ∷ (0x12, b'e')
    ∷ (0x13, b'r')
    ∷ (0x14, b't')
    ∷ (0x15, b'y')
    ∷ (0x16, b'u')
    ∷ (0x17, b'i')
    ∷ (0x18, b'o')
    ∷ (0x19, b'p')
    ∷ (0x1C, 10)
    ∷ (0x1E, b'a')
    ∷ (0x1F, b's')
    ∷ (0x20, b'd')
    ∷ (0x21, b'f')
    ∷ (0x22, b'g')
    ∷ (0x23, b'h')
    ∷ (0x24, b'j')
    ∷ (0x25, b'k')
    ∷ (0x26, b'l')
    ∷ (0x2C, b'z')
    ∷ (0x2D, b'x')
    ∷ (0x2E, b'c')
    ∷ (0x2F, b'v')
    ∷ (0x30, b'b')
    ∷ (0x31, b'n')
    ∷ (0x32, b'm')
    ∷ (0x35, b'/')
    ∷ (0x39, b' ')
    ∷ []

-- `switch`: the first case that matches, else `default: return 0`.
pub switch : List (ℕ × ℕ) → ℕ → ℕ
switch [] scancode = 0
switch ((code, c) ∷ cases) scancode = if scancode == code then c else switch cases scancode

pub keyboard_decode : ℕ → ℕ
unfolding switch
keyboard_decode scancode = if bit_and scancode 0x80 == 0 then switch keymap scancode else 0
