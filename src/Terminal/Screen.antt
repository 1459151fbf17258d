-- ===== src/Terminal/Screen.antt =====
-- kernel/arch/i386/tty.c: the screen as cells in a line, and the bounds of row, column and cursor.
use Prim.Native.Nat.{ℕ, zero, suc}
use emyx.Base.{
  ◌+◌, ◌*◌, ◌-◌, ◌/◌, ◌%◌, ◌^◌, ◌<◌, ◌≡◌, refl, ap, subst, ◌∙◌, true, false, List, [], ◌∷◌, ltb,
  leb, ◌==◌, if◌then◌else◌, arith, add32, shr, bit_and_mask,
}
use native.Mathlib.Decide.{ℕ_discrete}
use emyx.Terminal.{
  Terminal, crtc_index, crtc_data, vga_entry, put_cell, terminal_update_cursor, terminal_putentryat,
  move_up, blank_cells, terminal_scroll_up, terminal_backspace, next_row, terminal_putchar,
  terminal_write,
}

-- The screen as 2000 cells in a line, with the place of the next character.
pub record Line : Type 0 where
  pub place : ℕ
  pub color : ℕ
  pub cells : ℕ → ℕ

abbrev pub blank : ℕ → ℕ
blank color = vga_entry b' ' color

-- All lines move up by one, and the last one is blank.
abbrev pub scrolled : ℕ → (ℕ → ℕ) → ℕ → ℕ
scrolled color cells i =
    if ltb i 1920 then cells (i + 80) else if ltb i 2000 then blank color else cells i

-- A place behind the last cell is on a new line.
abbrev pub settle : Line → Line
settle l =
    if l.place == 2000 then record l { place = 1920; cells = scrolled l.color l.cells } else l

-- A backspace blanks the last cell before the place, a newline goes to the next multiple of the
-- width, and any other character fills a cell.
abbrev pub put : Line → ℕ → Line
put l c =
    if c == 8
    then (if l.place == 0 then l else record l {
      place = l.place - 1;
      cells = put_cell l.cells (l.place - 1) (blank l.color);
    })
    else settle (
        if c == 10 then record l { place = (l.place / 80 + 1) * 80 } else record l {
          place = l.place + 1;
          cells = put_cell l.cells l.place (vga_entry c l.color);
        })

unfoldable pub put_all : Line → List ℕ → Line
put_all l [] = l
put_all l (c ∷ text) = put_all (put l c) text

-- The line that a terminal shows.
abbrev pub line : Terminal → Line
line t = record { place = t.row * 80 + t.column; color = t.color; cells = t.cells }

-- The row and the column are on the screen, and the last values written to the display's ports are
-- the two bytes of the cursor's position, which is theirs.
pub record IsOnScreen (t : Terminal) : Type 0 where
  pub row_in : t.row < 25
  pub column_in : t.column < 80
  pub earlier : List (ℕ × ℕ)
  pub cursor : t.ports ≡ (
      (crtc_data, (t.row * 80 + t.column) / 256)
      ∷ (crtc_index, 0x0E)
      ∷ (crtc_data, (t.row * 80 + t.column) % 256)
      ∷ (crtc_index, 0x0F)
      ∷ earlier)

pub update_cursor-IsOnScreen :
    (t : Terminal) → t.row < 25 → t.column < 80 → IsOnScreen (terminal_update_cursor t)
unfolding terminal_update_cursor
update_cursor-IsOnScreen t h k =
    let pos = (t.row * 80 + t.column) % 2 ^ 16 in
    record {
      row_in = h;
      column_in = k;
      earlier = t.ports;
      cursor = rw (bit_and_mask 8 (shr pos 8), bit_and_mask 8 pos) (ground (arith, h, k));
    }

pub update_cursor-line : (t : Terminal) → line (terminal_update_cursor t) ≡ line t
unfolding terminal_update_cursor
update_cursor-line t = refl

move_up_lem :
    (n i : ℕ) (cells : ℕ → ℕ) (j : ℕ)
    → move_up n i cells j
      ≡ (if leb i j then (if ltb j (i + n) then cells (j + 80) else cells j) else cells j)
unfolding move_up
move_up_lem zero i cells j = ground arith
move_up_lem (suc n) i cells j =
    ground (arith, move_up_lem n (i + 1) (put_cell cells i (cells (i + 80))) j)

blank_cells_lem :
    (n i color : ℕ) (cells : ℕ → ℕ) (j : ℕ)
    → blank_cells n i color cells j
      ≡ (if leb i j then (if ltb j (i + n) then blank color else cells j) else cells j)
unfolding blank_cells
blank_cells_lem zero i color cells j = ground arith
blank_cells_lem (suc n) i color cells j =
    ground (arith, blank_cells_lem n (i + 1) color (put_cell cells i (blank color)) j)

scroll_cells :
    (color : ℕ) (cells : ℕ → ℕ) (j : ℕ)
    → blank_cells 80 1920 color (move_up 1920 0 cells) j ≡ scrolled color cells j
scroll_cells color cells j =
    ground
      (arith, blank_cells_lem 80 1920 color (move_up 1920 0 cells) j, move_up_lem 1920 0 cells j)

scroll_up-line :
    (t : Terminal)
    → (line (terminal_scroll_up t)
        ≡ record { place = 1920; color = t.color; cells = scrolled t.color t.cells })
      × IsOnScreen (terminal_scroll_up t)
unfolding terminal_scroll_up
scroll_up-line t =
    let cells = blank_cells 80 1920 t.color (move_up 1920 0 t.cells) in
    let up : Terminal = record t { cells = cells; row = 24; column = 0 } in
    (
      update_cursor-line up ∙ (λ i. record {
        place = 1920;
        color = t.color;
        cells = λ j. scroll_cells t.color t.cells j i;
      }),
      update_cursor-IsOnScreen up (omega arith) (omega arith),
    )

-- A state with the row and the column on the screen that shows a line.
record Shows (t : Terminal) (l : Line) : Type 0 where
  row_in : t.row < 25
  column_in : t.column < 80
  shown : line t ≡ l

next_row-Shows :
    (t : Terminal)
    → t.row < 25
    → Shows
        (next_row t)
        (settle (record { place = (t.row + 1) * 80; color = t.color; cells = t.cells }))
unfolding next_row
next_row-Shows t h = elim (ℕ_discrete t.row 24) [
  | yes last ↦ rw last (
      let u = scroll_up-line (record t { column = 0; row = 25 }) in
      record { row_in = u.1.row_in; column_in = u.1.column_in; shown = u.0 })
  | no before ↦
      let inside : ((t.row + 1) % 2 ^ 32 == 25) ≡ false = ground (arith, h) in
      let before_end : ((t.row + 1) * 80 == 2000) ≡ false = ground (arith, h) in
      let same : (t.row + 1) % 2 ^ 32 * 80 + 0 ≡ (t.row + 1) * 80 = omega (arith, h) in
      rw (inside, before_end)
        (record {
          row_in = omega (arith, h);
          column_in = omega arith;
          shown = λ i. record { place = same i; color = t.color; cells = t.cells };
        })
]

cursor-Shows :
    (t : Terminal) (l : Line)
    → Shows t l
    → (line (terminal_update_cursor t) ≡ l) × IsOnScreen (terminal_update_cursor t)
cursor-Shows t l s =
    (update_cursor-line t ∙ s.shown, update_cursor-IsOnScreen t s.row_in s.column_in)

-- A cell is blanked, and the cursor put there.
back_to :
    (t : Terminal) (row column place : ℕ)
    → row < 25
    → column < 80
    → row * 80 + column ≡ place
    → (line (
          terminal_update_cursor
            (terminal_putentryat (record t { row = row; column = column }) b' ' t.color column row))
        ≡ record { place = place; color = t.color; cells = put_cell t.cells place (blank t.color) })
      × IsOnScreen (
          terminal_update_cursor
            (terminal_putentryat (record t { row = row; column = column }) b' ' t.color column row))
unfolding terminal_putentryat
back_to t row column place h k e =
    let t1 : Terminal = record t {
      row = row;
      column = column;
      cells = put_cell t.cells (row * 80 + column) (blank t.color);
    } in
    (
      update_cursor-line t1 ∙ (λ i. record {
        place = e i;
        color = t.color;
        cells = put_cell t.cells (e i) (blank t.color);
      }),
      update_cursor-IsOnScreen t1 h k,
    )

backspace_lem :
    (t : Terminal)
    → IsOnScreen t
    → (line (terminal_backspace t) ≡ put (line t) 8) × IsOnScreen (terminal_backspace t)
unfolding terminal_backspace
backspace_lem t v = elim (ℕ_discrete t.column 0) [
  | yes first ↦ elim (ℕ_discrete t.row 0) [
    | yes top ↦
        let start : (t.row * 80 + t.column == 0) ≡ true = ground (arith, first, top) in
        let c : (t.column == 0) ≡ true = ground (arith, first) in
        let r : (t.row == 0) ≡ true = ground (arith, top) in rw (start, c, r) (refl, v)
    | no lower ↦
        let start : (t.row * 80 + t.column == 0) ≡ false = ground (arith, lower) in
        let c : (t.column == 0) ≡ true = ground (arith, first) in
        let r : (t.row == 0) ≡ false = ground (arith, lower) in
        rw (start, c, r)
          (back_to t (t.row - 1) 79 (t.row * 80 + t.column - 1) (omega (arith, v.row_in))
            (omega arith) (omega (arith, first, lower)))
  ]
  | no inner ↦
      let start : (t.row * 80 + t.column == 0) ≡ false = ground (arith, inner) in
      let c : (t.column == 0) ≡ false = ground (arith, inner) in
      rw (start, c)
        (back_to t t.row (t.column - 1) (t.row * 80 + t.column - 1) v.row_in
          (omega (arith, v.column_in)) (omega (arith, inner)))
]

-- A character fills a cell.
fill_lem :
    (t : Terminal) (c : ℕ)
    → IsOnScreen t
    → Shows
        (let t2 : Terminal = record (terminal_putentryat t c t.color t.column t.row) {
          column = add32 t.column 1;
        } in
          if t2.column == 80 then next_row t2 else t2)
        (settle (record {
          place = t.row * 80 + t.column + 1;
          color = t.color;
          cells = put_cell t.cells (t.row * 80 + t.column) (vga_entry c t.color);
        }))
unfolding terminal_putentryat
fill_lem t c v =
    let cells = put_cell t.cells (t.row * 80 + t.column) (vga_entry c t.color) in
    let t2 : Terminal = record t { column = add32 t.column 1; cells = cells } in
    elim (ℕ_discrete t.column 79) [
      | yes last ↦
          let at_end : ((t.column + 1) % 2 ^ 32 == 80) ≡ true = ground (arith, last) in
          let same : (t.row + 1) * 80 ≡ t.row * 80 + t.column + 1 = omega (arith, last) in
          rw at_end (
            subst
              (λ place.
                Shows (next_row t2)
                  (settle (record { place = place; color = t.color; cells = cells })))
              same (next_row-Shows t2 v.row_in))
      | no inner ↦
          let inside : ((t.column + 1) % 2 ^ 32 == 80) ≡ false =
            ground (arith, inner, v.column_in) in
          let on : (t.row * 80 + t.column + 1 == 2000) ≡ false =
            ground (arith, inner, v.column_in, v.row_in) in
          let same : t.row * 80 + (t.column + 1) % 2 ^ 32 ≡ t.row * 80 + t.column + 1 =
            omega (arith, v.column_in) in
          rw (inside, on)
            (record {
              row_in = v.row_in;
              column_in = omega (arith, v.column_in, inner);
              shown = λ i. record { place = same i; color = t.color; cells = cells };
            })
    ]

putchar_lem :
    (t : Terminal) (c : ℕ)
    → IsOnScreen t
    → (line (terminal_putchar t c) ≡ put (line t) c) × IsOnScreen (terminal_putchar t c)
unfolding terminal_putchar terminal_putentryat
putchar_lem t c v = elim (ℕ_discrete c 8) [
  | yes back ↦ rw back (backspace_lem t v)
  | no other ↦ elim (ℕ_discrete c 10) [
    | yes newline ↦
        let at_row : (t.row * 80 + t.column) / 80 ≡ t.row = omega (arith, v.column_in) in
        rw (newline, at_row)
          (cursor-Shows (next_row t)
            (settle (record { place = (t.row + 1) * 80; color = t.color; cells = t.cells }))
            (next_row-Shows t v.row_in))
    | no plain ↦
        let not_back : (c == 8) ≡ false = ground (arith, other) in
        let not_newline : (c == 10) ≡ false = ground (arith, plain) in
        let filled : Terminal = record (terminal_putentryat t c t.color t.column t.row) {
          column = add32 t.column 1;
        } in
        rw (not_back, not_newline)
          (cursor-Shows (if filled.column == 80 then next_row filled else filled)
            (settle (record {
              place = t.row * 80 + t.column + 1;
              color = t.color;
              cells = put_cell t.cells (t.row * 80 + t.column) (vga_entry c t.color);
            }))
            (fill_lem t c v))
  ]
]

-- On a terminal whose row, column and cursor are on the screen, writing any text has the effect of
-- the line editor `put_all` on the 2000 cells in a line: a newline goes to the next multiple of
-- 80, a backspace blanks the last cell, any other character fills a cell, and at the end of the
-- screen all lines move up by one. The row, the column and the cursor stay on the screen.
pub terminal_write_lem :
    (t : Terminal) (text : List ℕ)
    → IsOnScreen t
    → (line (terminal_write t text) ≡ put_all (line t) text) × IsOnScreen (terminal_write t text)
unfolding terminal_write put_all
terminal_write_lem t [] v = (refl, v)
terminal_write_lem t (c ∷ text) v =
    let one = putchar_lem t c v in
    let rest = terminal_write_lem (terminal_putchar t c) text one.1 in
    (rest.0 ∙ ap (λ l. put_all l text) one.0, rest.1)
