-- ===== src/Terminal.antt =====
-- kernel/arch/i386/tty.c and kernel/arch/i386/vga.h: the text screen.
pub mod Screen
pub mod Bounds
mod Tests
use Prim.Native.Nat.{ℕ, zero, suc}
use emyx.Base.{
  ◌+◌, ◌*◌, ◌-◌, ◌/◌, ◌%◌, ◌^◌, Option, none, some, List, [], ◌∷◌, get_or, bit_and, bit_or, ltb,
  ◌==◌, if◌then◌else◌, add32, shr, length,
}
use emyx.Memory.{Memory}
use emyx.Printk.{c_string}

-- VGA_WIDTH and VGA_HEIGHT.
abbrev pub width : ℕ
width = 80

abbrev pub height : ℕ
height = 25

-- VGA_CRTC_INDEX and VGA_CRTC_DATA.
abbrev pub crtc_index : ℕ
crtc_index = 0x3D4

abbrev pub crtc_data : ℕ
crtc_data = 0x3D5

-- `enum vga_color`, and the values of its constants.
pub data VgaColor : Type 0 where
  black blue green cyan red magenta brown light_grey dark_grey : VgaColor
  light_blue light_green light_cyan light_red light_magenta light_brown white : VgaColor

abbrev pub color_code : VgaColor → ℕ
color_code VgaColor.black = 0
color_code VgaColor.blue = 1
color_code VgaColor.green = 2
color_code VgaColor.cyan = 3
color_code VgaColor.red = 4
color_code VgaColor.magenta = 5
color_code VgaColor.brown = 6
color_code VgaColor.light_grey = 7
color_code VgaColor.dark_grey = 8
color_code VgaColor.light_blue = 9
color_code VgaColor.light_green = 10
color_code VgaColor.light_cyan = 11
color_code VgaColor.light_red = 12
color_code VgaColor.light_magenta = 13
color_code VgaColor.light_brown = 14
color_code VgaColor.white = 15

-- `vga_entry_color`, whose result is a `uint8_t`.
pub vga_entry_color : VgaColor → VgaColor → ℕ
vga_entry_color fg bg = bit_or (color_code fg) (color_code bg * 2 ^ 4) % 2 ^ 8

-- `vga_entry`, whose result is a `uint16_t`.
pub vga_entry : ℕ → ℕ → ℕ
vga_entry uc color = bit_or uc (color * 2 ^ 8) % 2 ^ 16

-- The static variables of tty.c; `cells` has the words from `terminal_buffer` on, by their index, and
-- `ports` the port and the value of each `outb`, latest first.
pub record Terminal : Type 0 where
  pub row : ℕ
  pub column : ℕ
  pub color : ℕ
  pub cells : ℕ → ℕ
  pub ports : List (ℕ × ℕ)

abbrev pub outb : Terminal → ℕ → ℕ → Terminal
outb t port value = record t { ports = (port, value) ∷ t.ports }

abbrev pub put_cell : (ℕ → ℕ) → ℕ → ℕ → ℕ → ℕ
put_cell cells index value i = if i == index then value else cells i

pub terminal_update_cursor : Terminal → Terminal
terminal_update_cursor t =
    let pos = (t.row * width + t.column) % 2 ^ 16 in
    outb (outb (outb (outb t crtc_index 0x0F) crtc_data (bit_and pos 0xFF)) crtc_index 0x0E)
      crtc_data (bit_and (shr pos 8) 0xFF)

pub terminal_putentryat : Terminal → ℕ → ℕ → ℕ → ℕ → Terminal
terminal_putentryat t c color x y = record t {
  cells = put_cell t.cells (y * width + x) (vga_entry c color);
}

-- The two loops of `terminal_init`: `n` columns from `x` on, and `n` rows from `y` on.
pub blank_row : ℕ → ℕ → ℕ → Terminal → Terminal
blank_row zero x y t = t
blank_row (suc n) x y t = blank_row n (x + 1) y (terminal_putentryat t b' ' t.color x y)

pub blank_rows : ℕ → ℕ → Terminal → Terminal
blank_rows zero y t = t
blank_rows (suc n) y t = blank_rows n (y + 1) (blank_row width 0 y t)

pub terminal_init : Terminal → Terminal
terminal_init t = terminal_update_cursor (
    blank_rows height 0 (record t {
      row = 0;
      column = 0;
      color = vga_entry_color VgaColor.light_grey VgaColor.black;
    }))

pub terminal_setcolor : Terminal → ℕ → Terminal
terminal_setcolor t color = record t { color = color }

-- The first loop of `terminal_scroll_up`, for `n` cells from `i` on.
pub move_up : ℕ → ℕ → (ℕ → ℕ) → ℕ → ℕ
move_up zero i cells = cells
move_up (suc n) i cells = move_up n (i + 1) (put_cell cells i (cells (i + width)))

-- The second loop.
pub blank_cells : ℕ → ℕ → ℕ → (ℕ → ℕ) → ℕ → ℕ
blank_cells zero i color cells = cells
blank_cells (suc n) i color cells =
    blank_cells n (i + 1) color (put_cell cells i (vga_entry b' ' color))

pub terminal_scroll_up : Terminal → Terminal
terminal_scroll_up t =
    let size = width * height in
    terminal_update_cursor (record t {
      cells = blank_cells width (size - width) t.color (move_up (size - width) 0 t.cells);
      row = height - 1;
      column = 0;
    })

pub terminal_backspace : Terminal → Terminal
terminal_backspace t =
    let t1 =
      if t.column == 0
      then record t { column = width - 1; row = t.row - 1 }
      else record t { column = t.column - 1 } in
    let t2 = terminal_update_cursor (terminal_putentryat t1 b' ' t1.color t1.column t1.row) in
    if t.column == 0 then (if t.row == 0 then t else t2) else t2

-- `if (++terminal_row == VGA_HEIGHT) terminal_scroll_up();` in the next line's first column.
pub next_row : Terminal → Terminal
next_row t =
    let t1 = record t { column = 0; row = add32 t.row 1 } in
    if t1.row == height then terminal_scroll_up t1 else t1

-- A `char` is the byte that it is stored as.
pub terminal_putchar : Terminal → ℕ → Terminal
terminal_putchar t c =
    let t1 = terminal_putentryat t c t.color t.column t.row in
    let t2 = record t1 { column = add32 t1.column 1 } in
    if c == 8
    then terminal_backspace t
    else if c == 10
    then terminal_update_cursor (next_row t)
    else terminal_update_cursor (if t2.column == width then next_row t2 else t2)

-- `text` are the characters that the loop reads.
pub terminal_write : Terminal → List ℕ → Terminal
terminal_write t [] = t
terminal_write t (c ∷ text) = terminal_write (terminal_putchar t c) text

-- `text` is what is in memory at the pointer, up to a NUL or further.
pub terminal_writestring : Terminal → List ℕ → Terminal
terminal_writestring t text = terminal_write t (c_string text)
