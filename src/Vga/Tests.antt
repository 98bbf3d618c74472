-- ===== src/Vga/Tests.antt =====
-- Output that wraps and scrolls on the screen of drivers/vga.cpp.
use keon_os.Base.{[], ◌∷◌, arith}
use keon_os.Vga.{Terminal, terminal_write}
use keon_os.Vga.Inside.{Inside, terminal_write-Inside}

abbrev corner : Terminal
corner = record {
  terminal_row = 24;
  terminal_column = 79;
  terminal_color = record { fg = 15; bg = 0 };
  terminal_buffer = λ j. j;
  cursor = 0;
}

terminal_write-Inside_example :
    Inside corner (terminal_write (0x41 ∷ 0x09 ∷ 0x08 ∷ 0x0a ∷ []) corner)
terminal_write-Inside_example =
    terminal_write-Inside (0x41 ∷ 0x09 ∷ 0x08 ∷ 0x0a ∷ []) corner
      (record { row = omega arith; column = omega arith })
