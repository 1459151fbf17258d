-- ===== src/Terminal/Tests.antt =====
-- kernel/arch/i386/tty.c at short texts.
use Prim.Native.Nat.{ℕ}
use emyx.Base.{◌+◌, ◌*◌, ◌≤◌, ◌≡◌, refl, [], codes}
use emyx.Terminal.{
  Terminal, terminal_init, terminal_write, terminal_putchar, terminal_putentryat,
  terminal_update_cursor, next_row, vga_entry,
}
use emyx.Terminal.Screen.{put_all, line, IsOnScreen, terminal_write_lem}
use emyx.Terminal.Bounds.{terminal_init_lem, terminal_write-bounds}

abbrev off : Terminal
off = record { row = 3; column = 7; color = 0; cells = λ i. 0; ports = [] }

terminal_write_lem_example :
    (line (terminal_write (terminal_init off) (codes "ok\n"))
      ≡ put_all (line (terminal_init off)) (codes "ok\n"))
    × IsOnScreen (terminal_write (terminal_init off) (codes "ok\n"))
terminal_write_lem_example =
    terminal_write_lem (terminal_init off) (codes "ok\n") (terminal_init_lem off).0

terminal_write-bounds_example :
    IsOnScreen (terminal_write (terminal_init off) (codes "ok\n"))
    × ((j : ℕ)
        → 2000 ≤ j
        → (terminal_write (terminal_init off) (codes "ok\n")).cells j ≡ (terminal_init off).cells j)
terminal_write-bounds_example =
    terminal_write-bounds (terminal_init off) (codes "ok\n") (terminal_init_lem off).0

-- Two characters and a backspace from the end of a line.
abbrev at_end : Terminal
at_end = record { row = 3; column = 79; color = 7; cells = λ i. 0; ports = [] }

wraps :
    ((terminal_write at_end (codes "ab")).row ≡ 4)
    × ((terminal_write at_end (codes "ab")).column ≡ 1)
    × ((terminal_write at_end (codes "ab")).cells 319 ≡ 7 * 256 + b'a')
unfolding terminal_write terminal_putchar terminal_putentryat terminal_update_cursor next_row
    vga_entry
wraps = (refl, refl, refl)
