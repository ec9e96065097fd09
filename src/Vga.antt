-- ===== src/Vga.antt =====
-- kernel/drivers/vga.c: the text screen. The video memory is a function from the index of a cell.
pub mod Bounds
mod Tests
use dev_os.Prelude.{
  ℕ, zero, suc, ◌+◌, ◌*◌, ◌^◌, ◌==◌, leb, if◌then◌else◌, List, [], ◌∷◌, update, bit_or,
}
use dev_os.Word.{u8, u16}

pub record Vga : Type 0 where
  pub vga_color : ℕ
  pub vga_row : ℕ
  pub vga_col : ℕ
  pub cells : ℕ → ℕ

abbrev pub vga_cols : ℕ
vga_cols = 80

abbrev pub vga_rows : ℕ
vga_rows = 25

unfoldable pub make_entry : ℕ → ℕ → ℕ
make_entry c color = u16 (bit_or (u8 c) (color * 2 ^ 8))

-- A loop that fills `n` cells from `i` on.
unfoldable pub fill : ℕ → ℕ → ℕ → (ℕ → ℕ) → ℕ → ℕ
fill zero i x cells = cells
fill (suc n) i x cells = fill n (i + 1) x (update cells i x)

-- The two nested loops of `vga_scroll`, cell by cell, with `n` cells left from `i` on.
unfoldable pub move_up : ℕ → ℕ → (ℕ → ℕ) → ℕ → ℕ
move_up zero i cells = cells
move_up (suc n) i cells = move_up n (i + 1) (update cells i (cells (i + 80)))

unfoldable pub vga_scroll : Vga → Vga
vga_scroll v = record v {
  cells = fill 80 1920 (make_entry 32 v.vga_color) (move_up 1920 0 v.cells);
  vga_row = 24;
}

unfoldable pub vga_set_color : ℕ → ℕ → Vga → Vga
vga_set_color fg bg v = record v { vga_color = u8 (bit_or (u8 fg) (u8 bg * 2 ^ 4)) }

unfoldable pub vga_clear : Vga → Vga
vga_clear v = record v {
  cells = fill 2000 0 (make_entry 32 v.vga_color) v.cells;
  vga_row = 0;
  vga_col = 0;
}

-- Light grey on black.
unfoldable pub vga_init : Vga → Vga
vga_init v = vga_clear (record v { vga_color = 7 })

-- `if (++vga_row >= VGA_ROWS) vga_scroll();` with the column at 0.
unfoldable pub next_row : Vga → Vga
next_row v =
    let w = record v { vga_col = 0; vga_row = u16 (v.vga_row + 1) } in
    if leb vga_rows w.vga_row then vga_scroll w else w

unfoldable pub vga_putchar : ℕ → Vga → Vga
vga_putchar c v =
    let w = record v {
      cells = update v.cells (v.vga_row * vga_cols + v.vga_col) (make_entry c v.vga_color);
      vga_col = u16 (v.vga_col + 1);
    } in
    if c == 10
    then next_row v
    else if c == 13
    then record v { vga_col = 0 }
    else if leb vga_cols w.vga_col
    then next_row w
    else w

-- The characters before the NUL.
unfoldable pub vga_puts : List ℕ → Vga → Vga
vga_puts [] v = v
vga_puts (c ∷ cs) v = vga_puts cs (vga_putchar c v)
