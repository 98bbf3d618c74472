-- ===== src/Vga/Inside.antt =====
-- Output of drivers/vga.cpp stays on the screen.
use keon_os.Base.{
  ℕ, ◌+◌, ◌-◌, ◌*◌, ◌/◌, ◌<◌, ◌≤◌, ◌≡◌, inl, inr, refl, ◌∙◌, false, List, [], ◌∷◌, ◌==◌, ltb, leb,
  Bool-cases, arith,
}
use keon_os.Vga.{
  Terminal, vga_entry, store_cell, terminal_putentryat, update_cursor, terminal_scroll, new_line,
  tab, back, blank_cell, advance, show_cursor, terminal_putchar, terminal_write,
}

-- The cursor stands on the screen.
pub record OnScreen (t : Terminal) : Type 0 where
  pub row : t.terminal_row < 25
  pub column : t.terminal_column < 80

-- The cursor stays on the screen, the colour stays, and so does all memory from cell 2000 on.
pub record Inside (t t' : Terminal) : Type 0 where
  pub placed : OnScreen t'
  pub color : t'.terminal_color ≡ t.terminal_color
  pub outside : (j : ℕ) → 2000 ≤ j → t'.terminal_buffer j ≡ t.terminal_buffer j

Inside-trans : (t t' t'' : Terminal) → Inside t t' → Inside t' t'' → Inside t t''
Inside-trans t t' t'' a b = record {
  placed = b.placed;
  color = b.color ∙ a.color;
  outside = λ j far. b.outside j far ∙ a.outside j far;
}

store-Inside : (i v : ℕ) (t : Terminal) → OnScreen t → i < 2000 → Inside t (store_cell i v t)
unfolding store_cell
store-Inside i v t s low = record {
  placed = record { row = s.row; column = s.column };
  color = refl;
  outside = λ j far. elim (Bool-cases (j == i)) [
    | inl e ↦ absurd (ground (arith, e, far, low))
    | inr e ↦ rw e refl
  ];
}

new_line-Inside : (t : Terminal) → OnScreen t → Inside t (new_line t)
unfolding new_line terminal_scroll
new_line-Inside t s = elim (Bool-cases (t.terminal_row + 1 == 25)) [
  | inl last ↦ rw last (record {
    placed = record { row = omega arith; column = omega arith };
    color = refl;
    outside = λ j far.
        let past : ltb j 1920 ≡ false = ground (arith, far) in
        let past_all : ltb j 2000 ≡ false = ground (arith, far) in rw (past, past_all) refl;
  })
  | inr more ↦
      let below : t.terminal_row + 1 < 25 = ground (arith, s.row, more) in
      rw more (record {
        placed = record { row = below; column = omega arith };
        color = refl;
        outside = λ j far. refl;
      })
]

show_cursor-Inside : (t t' : Terminal) → Inside t t' → Inside t (show_cursor t')
unfolding show_cursor update_cursor
show_cursor-Inside t t' a = record {
  placed = record { row = a.placed.row; column = a.placed.column };
  color = a.color;
  outside = a.outside;
}

tab-Inside : (t : Terminal) → OnScreen t → Inside t (tab t)
unfolding tab
tab-Inside t s = elim (Bool-cases (leb 80 ((t.terminal_column + 8) / 8 * 8))) [
  | inl wide ↦ rw wide (new_line-Inside t s)
  | inr fits ↦
      let below : (t.terminal_column + 8) / 8 * 8 < 80 = ground (arith, fits) in
      rw fits (record {
        placed = record { row = s.row; column = below };
        color = refl;
        outside = λ j far. refl;
      })
]

advance-Inside : (t : Terminal) → OnScreen t → Inside t (advance t)
unfolding advance
advance-Inside t s = elim (Bool-cases (t.terminal_column + 1 == 80)) [
  | inl last ↦ rw last (new_line-Inside t s)
  | inr more ↦
      let below : t.terminal_column + 1 < 80 = ground (arith, s.column, more) in
      rw more (record {
        placed = record { row = s.row; column = below };
        color = refl;
        outside = λ j far. refl;
      })
]

back-Inside : (t : Terminal) → OnScreen t → Inside t (back t)
unfolding back
back-Inside t s = elim (Bool-cases (ltb 0 t.terminal_column)) [
  | inl some_left ↦
      let below : t.terminal_column - 1 < 80 = omega (arith, s.column) in
      rw some_left (record {
        placed = record { row = s.row; column = below };
        color = refl;
        outside = λ j far. refl;
      })
  | inr first ↦ elim (Bool-cases (ltb 0 t.terminal_row)) [
    | inl above ↦
        let below : t.terminal_row - 1 < 25 = omega (arith, s.row) in
        rw (first, above)
          (record {
            placed = record { row = below; column = omega arith };
            color = refl;
            outside = λ j far. refl;
          })
    | inr top ↦ rw (first, top) (record { placed = s; color = refl; outside = λ j far. refl })
  ]
]

cell-inside : (t : Terminal) → OnScreen t → t.terminal_row * 80 + t.terminal_column < 2000
cell-inside t s = omega (arith, s.row, s.column)

putchar-Inside : (c : ℕ) (t : Terminal) → OnScreen t → Inside t (terminal_putchar c t)
unfolding terminal_putchar terminal_putentryat blank_cell
putchar-Inside c t s =
    let b = back-Inside t s in
    let cleared =
      store-Inside ((back t).terminal_row * 80 + (back t).terminal_column)
        (vga_entry 0x20 (back t).terminal_color) (back t) b.placed
        (cell-inside (back t) b.placed) in
    let v = vga_entry c t.terminal_color in
    let i = t.terminal_row * 80 + t.terminal_column in
    let stored = store-Inside i v t s (cell-inside t s) in
    elim (Bool-cases (c == 0x0a)) [
      | inl nl ↦ rw nl (show_cursor-Inside t (new_line t) (new_line-Inside t s))
      | inr no_nl ↦ elim (Bool-cases (c == 0x09)) [
        | inl tb ↦ rw (no_nl, tb) (show_cursor-Inside t (tab t) (tab-Inside t s))
        | inr no_tb ↦ elim (Bool-cases (c == 0x08)) [
          | inl bs ↦
              rw (no_nl, no_tb, bs)
                (show_cursor-Inside t (blank_cell (back t))
                  (Inside-trans t (back t) (blank_cell (back t)) b cleared))
          | inr no_bs ↦
              rw (no_nl, no_tb, no_bs)
                (show_cursor-Inside t (advance (store_cell i v t)) (
                  Inside-trans t (store_cell i v t) (advance (store_cell i v t)) stored
                    (advance-Inside (store_cell i v t) stored.placed)))
        ]
      ]
    ]

-- For any characters that are written while the cursor stands on the screen of 25 rows and 80
-- columns: the cursor stands on it afterwards, the colour is the same, and no memory from cell
-- 2000 on has changed.
pub terminal_write-Inside :
    (chars : List ℕ) (t : Terminal) → OnScreen t → Inside t (terminal_write chars t)
unfolding terminal_write
terminal_write-Inside [] t s = record { placed = s; color = refl; outside = λ j far. refl }
terminal_write-Inside (c ∷ chars) t s =
    let a = putchar-Inside c t s in
    Inside-trans t (terminal_putchar c t) (terminal_write chars (terminal_putchar c t)) a
      (terminal_write-Inside chars (terminal_putchar c t) a.placed)
