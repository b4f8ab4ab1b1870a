-- ===== src/Dev/Vga/Scroll.antt =====
-- What scrolling leaves in the cells.
use rubi_kernel.Prelude.{
  ℕ, zero, suc, ◌+◌, ◌-◌, ◌*◌, ◌^◌, ◌<◌, ◌≡◌, inl, inr, ap, ◌∙◌, Bool, ◌&&◌, arith, ltb, leb, ◌==◌,
  if◌then◌else◌, Bool-cases, update, u16, bit_or, for_range, for_range-zero, for_range-suc,
}
use rubi_kernel.Dev.Vga.{vga_cols, move_row, scroll}

abbrev between : (lo hi x : ℕ) → Bool
between lo hi x = leb lo x && ltb x hi

-- Within one row: the cells from `x` on take those of the row below.
move_row_from :
    (n x y : ℕ) (b : ℕ → ℕ) (k : ℕ)
    → 0 < y
    → for_range n x (λ x b1. update b1 (vga_cols * (y - 1) + x) (b1 (vga_cols * y + x))) b k ≡ (
        if between (vga_cols * (y - 1) + x) (vga_cols * (y - 1) + x + n) k
        then b (k + vga_cols)
        else b k)
unfolding for_range
move_row_from zero x y b k h = ground arith
move_row_from (suc n) x y b k h =
    let b1 : ℕ → ℕ = update b (vga_cols * (y - 1) + x) (b (vga_cols * y + x)) in
    let ih = move_row_from n (x + 1) y b1 k h in
    elim (Bool-cases (vga_cols * (y - 1) + x == k)) [
      | inl e ↦
          let at : b (k + vga_cols) ≡ b (vga_cols * y + x) = ap b (ground arith) in ground arith
      | inr e ↦ elim (Bool-cases (vga_cols * (y - 1) + x == k + vga_cols)) [
        | inl e' ↦ ground arith
        | inr e' ↦ ground arith
      ]
    ]

move_row_lem :
    (y : ℕ) (b : ℕ → ℕ) (k : ℕ)
    → 0 < y
    → move_row y b k ≡ (if between (80 * (y - 1)) (80 * (y - 1) + 80) k then b (k + 80) else b k)
unfolding move_row
move_row_lem y b k h = ground (arith, move_row_from 80 0 y b k h)

move_rows :
    (n y : ℕ) (b : ℕ → ℕ) (k : ℕ)
    → 0 < y
    → for_range n y move_row b k
      ≡ (if between (80 * (y - 1)) (80 * (y - 1) + 80 * n) k then b (k + 80) else b k)
move_rows zero y b k h = rw (for_range-zero y move_row b) (ground arith)
move_rows (suc n) y b k h = rw (for_range-suc n y move_row b) (
    move_rows n (y + 1) (move_row y b) k (omega arith)
    ∙ join y (move_row y b) (move_row_lem y b k h) (move_row_lem y b (k + 80) h) h)
  where
    join :
        (y : ℕ) (b' : ℕ → ℕ)
        → b' k ≡ (if between (80 * (y - 1)) (80 * (y - 1) + 80) k then b (k + 80) else b k)
        → b' (k + 80) ≡ (
            if between (80 * (y - 1)) (80 * (y - 1) + 80) (k + 80)
            then b (k + 80 + 80)
            else b (k + 80))
        → 0 < y
        → (if between (80 * (y + 1 - 1)) (80 * (y + 1 - 1) + 80 * n) k then b' (k + 80) else b' k)
          ≡ (if between (80 * (y - 1)) (80 * (y - 1) + 80 * suc n) k then b (k + 80) else b k)
    join y b' p q h = ground arith

blank_row :
    (n x a : ℕ) (v : ℕ) (b : ℕ → ℕ) (k : ℕ)
    → for_range n x (λ x b1. update b1 (a + x) v) b k
      ≡ (if between (a + x) (a + x + n) k then v else b k)
unfolding for_range
blank_row zero x a v b k = ground arith
blank_row (suc n) x a v b k = ground (arith, blank_row n (x + 1) a v (update b (a + x) v) k)

-- Scrolling moves each row up by one, blanks the last row in the color, and writes no cell past the
-- 2000 of the screen.
pub scroll_lem :
    (color : ℕ) (b : ℕ → ℕ) (k : ℕ)
    → scroll color b k ≡ (
        if ltb k 1920
        then b (k + 80)
        else if ltb k 2000
        then u16 (bit_or (color * 2 ^ 8) 32)
        else b k)
unfolding scroll
scroll_lem color b k =
    blank_row 80 0 1920 (u16 (bit_or (color * 2 ^ 8) 32)) (for_range 24 1 move_row b) k
    ∙ ground (arith, move_rows 24 1 b k (omega arith))
