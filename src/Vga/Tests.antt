-- ===== src/Vga/Tests.antt =====
-- kernel/drivers/vga.c: printing from the last cell of the screen.
use dev_os.Prelude.{◌≡◌, refl, arith, [], ◌∷◌}
use dev_os.Vga.{Vga, vga_puts, vga_putchar}
use dev_os.Vga.Bounds.{Within, Scrolled, vga_puts-Within, vga_putchar-Scrolled}

abbrev last_cell : Vga
last_cell = record { vga_color = 7; vga_row = 24; vga_col = 79; cells = λ k. k }

vga_puts-Within_example : Within last_cell (vga_puts (65 ∷ 10 ∷ 66 ∷ []) last_cell)
vga_puts-Within_example =
    vga_puts-Within (65 ∷ 10 ∷ 66 ∷ []) last_cell (record { row = omega arith; col = omega arith })

vga_putchar-Scrolled_example :
    Scrolled last_cell (vga_putchar 10 last_cell)
    × ((vga_putchar 10 last_cell).vga_row ≡ 24)
    × ((vga_putchar 10 last_cell).vga_col ≡ 0)
vga_putchar-Scrolled_example = vga_putchar-Scrolled last_cell refl
