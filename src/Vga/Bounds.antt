-- ===== src/Vga/Bounds.antt =====
-- The cursor of kernel/drivers/vga.c and the cells that it writes.
use dev_os.Prelude.{
  ℕ, zero, suc, ◌+◌, ◌*◌, ◌==◌, ◌≡◌, ◌≤◌, ◌<◌, leb, refl, arith, ap, ◌∙◌, Bool-cases, inl, inr,
  List, [], ◌∷◌, update, update_self, update_ne, true,
}
use dev_os.Word.{u16}
use dev_os.Vga.{Vga, make_entry, fill, move_up, vga_scroll, next_row, vga_putchar, vga_puts}

fill-outside : (n i x : ℕ) (cells : ℕ → ℕ) (k : ℕ) → i + n ≤ k → fill n i x cells k ≡ cells k
unfolding fill
fill-outside zero i x cells k h = refl
fill-outside (suc n) i x cells k h =
    fill-outside n (i + 1) x (update cells i x) k (omega arith)
    ∙ update_ne cells i k x (λ e. omega (arith, e, h))

fill-below : (n i x : ℕ) (cells : ℕ → ℕ) (k : ℕ) → k < i → fill n i x cells k ≡ cells k
unfolding fill
fill-below zero i x cells k h = refl
fill-below (suc n) i x cells k h =
    fill-below n (i + 1) x (update cells i x) k (omega arith)
    ∙ update_ne cells i k x (λ e. omega (arith, e, h))

fill-inside : (n i x : ℕ) (cells : ℕ → ℕ) (k : ℕ) → i ≤ k → k < i + n → fill n i x cells k ≡ x
unfolding fill
fill-inside zero i x cells k low high = absurd (omega arith)
fill-inside (suc n) i x cells k low high = elim (Bool-cases (k == i)) [
  | inl here ↦
      let e : k ≡ i = ground arith in
      ap (fill n (i + 1) x (update cells i x)) e
      ∙ fill-below n (i + 1) x (update cells i x) i (omega arith)
      ∙ update_self cells i x
  | inr later ↦ fill-inside n (i + 1) x (update cells i x) k (ground arith) (omega arith)
]

move_up-outside : (n i : ℕ) (cells : ℕ → ℕ) (k : ℕ) → i + n ≤ k → move_up n i cells k ≡ cells k
unfolding move_up
move_up-outside zero i cells k h = refl
move_up-outside (suc n) i cells k h =
    move_up-outside n (i + 1) (update cells i (cells (i + 80))) k (omega arith)
    ∙ update_ne cells i k (cells (i + 80)) (λ e. omega (arith, e, h))

move_up-below : (n i : ℕ) (cells : ℕ → ℕ) (k : ℕ) → k < i → move_up n i cells k ≡ cells k
unfolding move_up
move_up-below zero i cells k h = refl
move_up-below (suc n) i cells k h =
    move_up-below n (i + 1) (update cells i (cells (i + 80))) k (omega arith)
    ∙ update_ne cells i k (cells (i + 80)) (λ e. omega (arith, e, h))

move_up-inside :
    (n i : ℕ) (cells : ℕ → ℕ) (k : ℕ) → i ≤ k → k < i + n → move_up n i cells k ≡ cells (k + 80)
unfolding move_up
move_up-inside zero i cells k low high = absurd (omega arith)
move_up-inside (suc n) i cells k low high =
    let after = update cells i (cells (i + 80)) in
    elim (Bool-cases (k == i)) [
      | inl here ↦
          let e : k ≡ i = ground arith in
          let from_below : i + 80 ≡ k + 80 = ground arith in
          ap (move_up n (i + 1) after) e
          ∙ move_up-below n (i + 1) after i (omega arith)
          ∙ update_self cells i (cells (i + 80))
          ∙ ap cells from_below
      | inr later ↦
          move_up-inside n (i + 1) after k (ground arith) (omega arith)
          ∙ update_ne cells i (k + 80) (cells (i + 80)) (λ e. omega (arith, e, low))
    ]

-- The lines move up by one, and the last one is blank.
pub record Scrolled (v w : Vga) : Type 0 where
  pub lines : (k : ℕ) → k < 1920 → w.cells k ≡ v.cells (k + 80)
  pub last_line : (k : ℕ) → 1920 ≤ k → k < 2000 → w.cells k ≡ make_entry 32 v.vga_color
  pub others : (k : ℕ) → 2000 ≤ k → w.cells k ≡ v.cells k

vga_scroll-Scrolled : (v : Vga) → Scrolled v (vga_scroll v)
unfolding vga_scroll
vga_scroll-Scrolled v =
    let up = move_up 1920 0 v.cells in
    let blank = make_entry 32 v.vga_color in
    record {
      lines = λ k small.
          fill-below 80 1920 blank up k small
          ∙ move_up-inside 1920 0 v.cells k (omega arith) (omega arith);
      last_line = λ k low high. fill-inside 80 1920 blank up k low (omega arith);
      others = λ k far.
          fill-outside 80 1920 blank up k (omega arith)
          ∙ move_up-outside 1920 0 v.cells k (omega arith);
    }

-- The cursor is on the screen of 25 lines of 80 cells.
pub record IsOn (v : Vga) : Type 0 where
  pub row : v.vga_row < 25
  pub col : v.vga_col < 80

-- The cursor is on the screen, and the memory behind the screen is that of `v`.
pub record Within (v w : Vga) : Type 0 where
  pub on : IsOn w
  pub behind : (k : ℕ) → 2000 ≤ k → w.cells k ≡ v.cells k
  pub color : w.vga_color ≡ v.vga_color

-- The state after a step of the cursor to the next line.
scrolled-Within : (v : Vga) → v.vga_col < 80 → Within v (vga_scroll v)
unfolding vga_scroll
scrolled-Within v col = record {
  on = record { row = omega arith; col = col };
  behind = (vga_scroll-Scrolled v).others;
  color = refl;
}

next_row-Within : (v : Vga) → v.vga_row < 25 → Within v (next_row v)
unfolding next_row
next_row-Within v row =
    let w = record v { vga_col = 0; vga_row = u16 (v.vga_row + 1) } in
    elim (Bool-cases (leb 25 w.vga_row)) [
      | inl over ↦
          let r = scrolled-Within w (omega arith) in
          rw (over, next_row) (record { on = r.on; behind = r.behind; color = r.color })
      | inr room ↦
          rw (room, next_row)
            (record {
              on = record { row = ground arith; col = omega arith };
              behind = λ k far. refl;
              color = refl;
            })
    ]

vga_putchar-Within : (c : ℕ) (v : Vga) → IsOn v → Within v (vga_putchar c v)
unfolding vga_putchar
vga_putchar-Within c v on =
    let cell = v.vga_row * 80 + v.vga_col in
    let w : Vga = record v {
      cells = update v.cells cell (make_entry c v.vga_color);
      vga_col = u16 (v.vga_col + 1);
    } in
    let apart : (k : ℕ) → 2000 ≤ k → w.cells k ≡ v.cells k = λ k far.
      update_ne v.cells cell k (make_entry c v.vga_color)
        (λ e. omega (arith, e, far, on.row, on.col)) in
    elim (Bool-cases (c == 10)) [
      | inl newline ↦ rw (newline, vga_putchar) (next_row-Within v on.row)
      | inr other ↦ elim (Bool-cases (c == 13)) [
        | inl return ↦
            rw (other, return, vga_putchar)
              (record {
                on = record { row = on.row; col = omega arith };
                behind = λ k far. refl;
                color = refl;
              })
        | inr shown ↦ elim (Bool-cases (leb 80 w.vga_col)) [
          | inl full ↦
              let r = next_row-Within w on.row in
              rw (other, shown, full, vga_putchar)
                (record {
                  on = r.on;
                  behind = λ k far. r.behind k far ∙ apart k far;
                  color = r.color;
                })
          | inr room ↦
              rw (other, shown, room, vga_putchar)
                (record {
                  on = record { row = on.row; col = ground arith };
                  behind = apart;
                  color = refl;
                })
        ]
      ]
    ]

-- Printing a string of any length from a cursor on the screen leaves the cursor on the screen of 25
-- lines of 80 cells, keeps the colour, and changes no memory behind the screen.
pub vga_puts-Within : (cs : List ℕ) (v : Vga) → IsOn v → Within v (vga_puts cs v)
unfolding vga_puts
vga_puts-Within [] v on = record { on = on; behind = λ k far. refl; color = refl }
vga_puts-Within (c ∷ cs) v on =
    let one = vga_putchar-Within c v on in
    let rest = vga_puts-Within cs (vga_putchar c v) one.on in
    record {
      on = rest.on;
      behind = λ k far. rest.behind k far ∙ one.behind k far;
      color = rest.color ∙ one.color;
    }

-- A newline on the last line moves every line up by one, blanks the last one and puts the cursor at
-- its start.
pub vga_putchar-Scrolled :
    (v : Vga)
    → v.vga_row ≡ 24
    → Scrolled v (vga_putchar 10 v)
      × ((vga_putchar 10 v).vga_row ≡ 24)
      × ((vga_putchar 10 v).vga_col ≡ 0)
unfolding vga_putchar next_row vga_scroll
vga_putchar-Scrolled v last =
    let w = record v { vga_col = 0; vga_row = u16 (v.vga_row + 1) } in
    let over : leb 25 w.vga_row ≡ true = ground arith in
    let r = vga_scroll-Scrolled w in
    rw (over, next_row)
      (record { lines = r.lines; last_line = r.last_line; others = r.others }, refl, refl)
