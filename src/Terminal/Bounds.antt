-- ===== src/Terminal/Bounds.antt =====
-- kernel/arch/i386/tty.c: what is written stays on the screen, and the screen after initialisation.
use Prim.Native.Nat.{ℕ, zero, suc}
use emyx.Base.{
  ◌+◌, ◌*◌, ◌≤◌, ◌<◌, ◌≡◌, refl, ap, ◌∙◌, List, [], ◌∷◌, ltb, leb, if◌then◌else◌, arith,
}
use emyx.Terminal.{
  Terminal, VgaColor, vga_entry, vga_entry_color, put_cell, terminal_putentryat, blank_row,
  blank_rows, terminal_init, terminal_write,
}
use emyx.Terminal.Screen.{
  Line, blank, put, put_all, line, IsOnScreen, update_cursor-IsOnScreen, update_cursor-line,
  terminal_write_lem,
}

-- A character changes no cell behind the screen.
put-bounds :
    (l : Line) (c j : ℕ)
    → l.place < 2000
    → 2000 ≤ j
    → ((put l c).place < 2000) × ((put l c).cells j ≡ l.cells j)
put-bounds l c j h k = (ground arith, ground arith)

put_all-bounds :
    (l : Line) (text : List ℕ) (j : ℕ)
    → l.place < 2000
    → 2000 ≤ j
    → (put_all l text).cells j ≡ l.cells j
unfolding put_all
put_all-bounds l [] j h k = refl
put_all-bounds l (c ∷ text) j h k =
    let one = put-bounds l c j h k in put_all-bounds (put l c) text j one.0 k ∙ one.1

-- On a terminal whose row, column and cursor are on the screen, writing any text leaves them on
-- the screen and changes no word behind the 2000 cells of the buffer.
pub terminal_write-bounds :
    (t : Terminal) (text : List ℕ)
    → IsOnScreen t
    → IsOnScreen (terminal_write t text)
      × ((j : ℕ) → 2000 ≤ j → (terminal_write t text).cells j ≡ t.cells j)
terminal_write-bounds t text v =
    let w = terminal_write_lem t text v in
    (
      w.1,
      λ j h.
          ap (λ l. l.cells j) w.0
          ∙ put_all-bounds (line t) text j (omega (arith, v.row_in, v.column_in)) h,
    )

blank_row_lem :
    (n x y : ℕ) (t : Terminal)
    → ((blank_row n x y t).row ≡ t.row)
      × ((blank_row n x y t).column ≡ t.column)
      × ((blank_row n x y t).color ≡ t.color)
      × ((j : ℕ)
          → (blank_row n x y t).cells j ≡ (
              if leb (y * 80 + x) j
              then (if ltb j (y * 80 + x + n) then blank t.color else t.cells j)
              else t.cells j))
unfolding blank_row terminal_putentryat
blank_row_lem zero x y t = (refl, refl, refl, λ j. ground arith)
blank_row_lem (suc n) x y t =
    let one : Terminal = record t { cells = put_cell t.cells (y * 80 + x) (blank t.color) } in
    let rest = blank_row_lem n (x + 1) y one in
    (rest.0, rest.1, rest.2, λ j. ground (arith, rest.3 j))

blank_rows_lem :
    (n y : ℕ) (t : Terminal)
    → ((blank_rows n y t).row ≡ t.row)
      × ((blank_rows n y t).column ≡ t.column)
      × ((blank_rows n y t).color ≡ t.color)
      × ((j : ℕ)
          → (blank_rows n y t).cells j ≡ (
              if leb (y * 80) j
              then (if ltb j (y * 80 + n * 80) then blank t.color else t.cells j)
              else t.cells j))
unfolding blank_rows
blank_rows_lem zero y t = (refl, refl, refl, λ j. ground arith)
blank_rows_lem (suc n) y t =
    let one = blank_row_lem 80 0 y t in
    let rest = blank_rows_lem n (y + 1) (blank_row 80 0 y t) in
    (rest.0 ∙ one.0, rest.1 ∙ one.1, rest.2 ∙ one.2, λ j. ground (arith, rest.3 j, one.3 j, one.2))

-- After `terminal_init` the cursor is at the first cell of the screen, all 2000 cells are light
-- grey blanks, and no word behind them was changed, whatever the state before.
pub terminal_init_lem :
    (t : Terminal)
    → IsOnScreen (terminal_init t)
      × ((line (terminal_init t)).place ≡ 0)
      × ((j : ℕ) → (terminal_init t).cells j ≡ (if ltb j 2000 then 7 * 256 + b' ' else t.cells j))
unfolding terminal_init vga_entry_color vga_entry
terminal_init_lem t =
    let start : Terminal = record t {
      row = 0;
      column = 0;
      color = vga_entry_color VgaColor.light_grey VgaColor.black;
    } in
    let b = blank_rows_lem 25 0 start in
    let r = blank_rows 25 0 start in
    let same = update_cursor-line r in
    (
      update_cursor-IsOnScreen r (omega (arith, b.0)) (omega (arith, b.1)),
      ap (λ l. l.place) same ∙ omega (arith, b.0, b.1),
      λ j. ap (λ l. l.cells j) same ∙ (b.3 j ∙ ground arith),
    )
