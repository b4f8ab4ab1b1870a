-- ===== src/Dev/Vga/Bounds.antt =====
-- The cursor stays on the screen, and where term_putc writes.
use rubi_kernel.Prelude.{
  ℕ, zero, suc, ◌+◌, ◌*◌, ◌%◌, ◌≤◌, ◌<◌, ◌≡◌, ◌≢◌, ◌⊎◌, inl, inr, refl, ap, ◌∙◌, false, arith, ◌==◌,
  ==_refl,
}
use rubi_kernel.Prelude.Int.{ℤ, pos, negsuc, ◌+ℤ◌, ◌-ℤ◌, ◌≤ℤ◌}
use rubi_kernel.Dev.Vga.Scroll.{scroll_lem}
use rubi_kernel.Dev.Vga.{
  Vga, vga_rows, vga_size, cell, to_u16, write_com, term_setc, put_switch, wrap_position,
  scroll_if_below, term_putc,
}

-- the cursor is one of the 80x25 positions
pub record OnScreen (s : Vga) : Type 0 where
  pub col_low : pos 0 ≤ℤ s.term_col
  pub col_high : s.term_col ≤ℤ pos 79
  pub row_low : pos 0 ≤ℤ s.term_row
  pub row_high : s.term_row ≤ℤ pos 24

-- at most one step off the screen, to the left, to the right or below
record Near (s : Vga) : Type 0 where
  col_low : negsuc 0 ≤ℤ s.term_col
  col_high : s.term_col ≤ℤ pos 80
  row_low : pos 0 ≤ℤ s.term_row
  row_high : s.term_row ≤ℤ pos 25

-- one row too low at most, in a column of the screen
record Wrapped (s : Vga) : Type 0 where
  col_low : pos 0 ≤ℤ s.term_col
  col_high : s.term_col ≤ℤ pos 79
  row_low : pos 0 ≤ℤ s.term_row
  row_high : s.term_row ≤ℤ pos 25

setc_position :
    (x y color c : ℕ) (s : Vga)
    → ((term_setc x y color c s).term_col ≡ s.term_col)
      × ((term_setc x y color c s).term_row ≡ s.term_row)
unfolding term_setc
setc_position x y color c s = (ground arith, ground arith)

put_switch-Near : (c : ℕ) (s : Vga) → OnScreen s → Near (put_switch c s)
unfolding put_switch term_setc ◌+ℤ◌ ◌-ℤ◌
put_switch-Near c s v = ground arith

wrap_position-Wrapped :
    (s : Vga) → Near s → ((s.term_row ≡ pos 25) → s.term_col ≤ℤ pos 79) → Wrapped (wrap_position s)
unfolding wrap_position ◌+ℤ◌ ◌-ℤ◌
wrap_position-Wrapped s v o = ground arith

scroll-OnScreen : (s : Vga) → Wrapped s → OnScreen (scroll_if_below s)
unfolding scroll_if_below
scroll-OnScreen s v = ground arith

put_switch-last :
    (c : ℕ) (s : Vga)
    → OnScreen s
    → (put_switch c s).term_row ≡ pos 25
    → (put_switch c s).term_col ≤ℤ pos 79
unfolding put_switch term_setc ◌+ℤ◌ ◌-ℤ◌
put_switch-last c s v h = ground arith

-- `term_putc` keeps the cursor on the screen, for every character.
pub term_putc-OnScreen : (c : ℕ) (s : Vga) → OnScreen s → OnScreen (term_putc c s)
unfolding term_putc
term_putc-OnScreen c s v =
    scroll-OnScreen (wrap_position (put_switch c s))
      (wrap_position-Wrapped (put_switch c s) (put_switch-Near c s v) (put_switch-last c s v))

wrap-buffer :
    (s : Vga)
    → ((wrap_position s).buffer ≡ s.buffer) × ((wrap_position s).term_color ≡ s.term_color)
unfolding wrap_position
wrap-buffer s = (ground arith, ground arith)

below-buffer : (s : Vga) (k : ℕ) → vga_size ≤ k → (scroll_if_below s).buffer k ≡ s.buffer k
unfolding scroll_if_below
below-buffer s k h = ground (arith, scroll_lem s.term_color s.buffer k)

setc_far :
    (x y color c : ℕ) (s : Vga) (k : ℕ)
    → x < 80
    → y < 25
    → vga_size ≤ k
    → (term_setc x y color c s).buffer k ≡ s.buffer k
unfolding term_setc
setc_far x y color c s k hx hy hk = ground arith

col_u16 : (z : ℤ) → pos 0 ≤ℤ z → z ≤ℤ pos 79 → to_u16 z < 80
col_u16 (pos n) lo hi = omega arith
col_u16 (negsuc n) lo hi = absurd (omega arith)

row_u16 : (z : ℤ) → pos 0 ≤ℤ z → z ≤ℤ pos 24 → to_u16 z < 25
row_u16 (pos n) lo hi = omega arith
row_u16 (negsuc n) lo hi = absurd (omega arith)

back_u16 : (z : ℤ) → pos 0 ≤ℤ z → z ≤ℤ pos 79 → z ≢ pos 0 → to_u16 (z -ℤ pos 1) < 80
unfolding ◌-ℤ◌
back_u16 (pos zero) lo hi n = absurd (n refl)
back_u16 (pos (suc n)) lo hi ne = ground arith
back_u16 (negsuc n) lo hi ne = absurd (omega arith)

switch-buffer :
    (c : ℕ) (s : Vga) (k : ℕ)
    → OnScreen s
    → (c ≢ 8) ⊎ (s.term_col ≢ pos 0)
    → vga_size ≤ k
    → (put_switch c s).buffer k ≡ s.buffer k
unfolding put_switch
switch-buffer c s k v o h =
    let row = row_u16 s.term_row v.row_low v.row_high in
    let col = col_u16 s.term_col v.col_low v.col_high in
    let plain =
      setc_far (to_u16 s.term_col) (to_u16 s.term_row) s.term_color c (write_com c s) k col row h in
    elim o [
      | inl n ↦ let other : (c == 8) ≡ false = ground arith in rw other (ground (arith, plain))
      | inr n ↦
          let back =
            setc_far (to_u16 (s.term_col -ℤ pos 1)) (to_u16 s.term_row) s.term_color 32
              (record s { term_col = s.term_col -ℤ pos 1 }) k
              (back_u16 s.term_col v.col_low v.col_high n) row h in
          ground (arith, plain, back)
    ]

-- On a valid screen `term_putc` writes no cell past the 2000 of the screen, unless the character is
-- a backspace and the cursor stands in column 0.
pub term_putc_in_bounds :
    (c : ℕ) (s : Vga) (k : ℕ)
    → OnScreen s
    → (c ≢ 8) ⊎ (s.term_col ≢ pos 0)
    → vga_size ≤ k
    → (term_putc c s).buffer k ≡ s.buffer k
unfolding term_putc
term_putc_in_bounds c s k v o h =
    below-buffer (wrap_position (put_switch c s)) k h
    ∙ ap (λ (b : ℕ → ℕ). b k) (wrap-buffer (put_switch c s)).0
    ∙ switch-buffer c s k v o h

small_row : (r : ℕ) → r < 25 → r % 65536 ≡ r
small_row r h = ground arith

back_zero : to_u16 (pos 0 -ℤ pos 1) ≡ 65535
unfolding ◌-ℤ◌
back_zero = ground arith

switch_back :
    (s : Vga) (r : ℕ)
    → s.term_col ≡ pos 0
    → s.term_row ≡ pos r
    → r < 25
    → (put_switch 8 s).buffer (80 * r + 65535) ≡ cell s.term_color 32
unfolding put_switch term_setc
switch_back s r c e h = rw (c, e, back_zero, small_row r h, ==_refl (80 * r + 65535)) refl

-- A backspace in column 0 of row `r` writes a blank to cell `80 * r + 65535`, which is past the 2000
-- of the screen.
pub term_putc_backspace :
    (s : Vga) (r : ℕ)
    → s.term_col ≡ pos 0
    → s.term_row ≡ pos r
    → r < vga_rows
    → ((term_putc 8 s).buffer (80 * r + 65535) ≡ cell s.term_color 32) × (vga_size ≤ 80 * r + 65535)
unfolding term_putc
term_putc_backspace s r c e h =
    let far : vga_size ≤ 80 * r + 65535 = omega arith in
    (
      below-buffer (wrap_position (put_switch 8 s)) (80 * r + 65535) far
          ∙ ap (λ (b : ℕ → ℕ). b (80 * r + 65535)) (wrap-buffer (put_switch 8 s)).0
          ∙ switch_back s r c e h,
      far,
    )
