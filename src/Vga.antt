-- ===== src/Vga.antt =====
-- The text screen of drivers/vga.cpp: cells, the place of the cursor, and scrolling.
pub mod Inside
mod Tests
use keon_os.Base.{
  ℕ, zero, suc, ◌+◌, ◌-◌, ◌*◌, ◌/◌, ◌%◌, Bool, true, false, List, [], ◌∷◌, ◌==◌, ltb, leb,
  if◌then◌else◌,
}

abbrev pub vga_width : ℕ
vga_width = 80

abbrev pub vga_height : ℕ
vga_height = 25

-- `vga_color_t`
pub record Color : Type 0 where
  pub fg : ℕ
  pub bg : ℕ

-- The globals of the terminal, and the place that `update_cursor` last sent to the ports.
pub record Terminal : Type 0 where
  pub terminal_row : ℕ
  pub terminal_column : ℕ
  pub terminal_color : Color
  pub terminal_buffer : ℕ → ℕ
  pub cursor : ℕ

-- The two halves of the byte share no bit, so `|` is a sum.
unfoldable pub to_byte : Color → ℕ
to_byte c = c.bg * 16 % 256 + c.fg % 16

-- The byte of the character and that of the colour share no bit either.
unfoldable pub vga_entry : ℕ → Color → ℕ
vga_entry uc color = uc % 256 + to_byte color * 256

unfoldable pub store_cell : ℕ → ℕ → Terminal → Terminal
store_cell i v t = record t { terminal_buffer = λ j. if j == i then v else t.terminal_buffer j }

unfoldable pub terminal_putentryat : ℕ → Color → ℕ → ℕ → Terminal → Terminal
terminal_putentryat c color x y t = store_cell (y * vga_width + x) (vga_entry c color) t

unfoldable pub update_cursor : ℕ → ℕ → Terminal → Terminal
update_cursor x y t = record t { cursor = (y * vga_width + x) % 65536 }

-- `memmove` of 24 rows by one row upwards, then a blank last row.
unfoldable pub terminal_scroll : Terminal → Terminal
terminal_scroll t = record t {
  terminal_buffer = λ j.
      if ltb j 1920
      then t.terminal_buffer (j + vga_width)
      else if ltb j 2000
      then vga_entry 0x20 t.terminal_color
      else t.terminal_buffer j;
  terminal_row = 24;
}

-- `if (++terminal_row == VGA_HEIGHT) terminal_scroll();` with column 0.
unfoldable pub new_line : Terminal → Terminal
new_line t =
    let t' = record t { terminal_column = 0; terminal_row = t.terminal_row + 1 } in
    if t.terminal_row + 1 == vga_height then terminal_scroll t' else t'

-- `(terminal_column + 8) & ~7`
unfoldable pub tab : Terminal → Terminal
tab t =
    let column = (t.terminal_column + 8) / 8 * 8 in
    if leb vga_width column then new_line t else record t { terminal_column = column }

unfoldable pub back : Terminal → Terminal
back t =
    if ltb 0 t.terminal_column
    then record t { terminal_column = t.terminal_column - 1 }
    else if ltb 0 t.terminal_row
    then record t { terminal_row = t.terminal_row - 1; terminal_column = 79 }
    else t

unfoldable pub blank_cell : Terminal → Terminal
blank_cell t =
    store_cell (t.terminal_row * vga_width + t.terminal_column) (vga_entry 0x20 t.terminal_color) t

unfoldable pub advance : Terminal → Terminal
advance t =
    if t.terminal_column + 1 == vga_width
    then new_line t
    else record t { terminal_column = t.terminal_column + 1 }

unfoldable pub show_cursor : Terminal → Terminal
show_cursor t = update_cursor t.terminal_column t.terminal_row t

unfoldable pub terminal_putchar : ℕ → Terminal → Terminal
terminal_putchar c t =
    if c == 0x0a
    then show_cursor (new_line t)
    else if c == 0x09
    then show_cursor (tab t)
    else if c == 0x08
    then show_cursor (blank_cell (back t))
    else show_cursor
        (advance (terminal_putentryat c t.terminal_color t.terminal_column t.terminal_row t))

unfoldable pub terminal_write : List ℕ → Terminal → Terminal
terminal_write [] t = t
terminal_write (c ∷ chars) t = terminal_write chars (terminal_putchar c t)

unfoldable pub terminal_clear : Color → Terminal → Terminal
terminal_clear color t = update_cursor 0 0 (record t {
  terminal_row = 0;
  terminal_column = 0;
  terminal_buffer = λ j. if ltb j 2000 then vga_entry 0x20 color else t.terminal_buffer j;
})

unfoldable pub terminal_initialize : Terminal → Terminal
terminal_initialize t = record t {
  terminal_row = 0;
  terminal_column = 0;
  terminal_color = record { fg = 15; bg = 0 };
  terminal_buffer =
      λ j. if ltb j 2000 then vga_entry 0x20 (record { fg = 15; bg = 0 }) else t.terminal_buffer j;
}
