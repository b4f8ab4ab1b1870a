-- ===== src/Dev/Vga.antt =====
-- kernel/src/kernel/vga/vga.c: the 80x25 text terminal.
-- `buffer` is what `term_buffer` points to, by index, so a write past the 2000 cells of the array is
-- seen as such. What `write_com` sends to the first serial port is kept as a list, newest first.
-- A `char` is a byte; as an int it is negative from 128 on.
pub mod Bounds
pub mod Scroll
pub mod Tests
use rubi_kernel.Prelude.{
  ℕ, zero, suc, ◌+◌, ◌-◌, ◌*◌, ◌%◌, ◌^◌, bit_or, Bool, true, false, List, [], ◌∷◌, ltb, ◌==◌, ◌||◌,
  if◌then◌else◌, u16, update, for_range,
}
use rubi_kernel.Prelude.Int.{ℤ, pos, negsuc, ◌+ℤ◌, ◌-ℤ◌, ltb_ℤ}

abbrev pub vga_cols : ℕ
vga_cols = 80

abbrev pub vga_rows : ℕ
vga_rows = 25

abbrev pub vga_size : ℕ
vga_size = vga_cols * vga_rows

-- V_BLACK << 4 | V_WHITE
abbrev pub default_color : ℕ
default_color = 0x0F

pub record Vga : Type 0 where
  pub term_col : ℤ
  pub term_row : ℤ
  pub screen : ℕ
  pub term_color : ℕ
  pub allow_legacy_vga_functions : ℕ
  pub buffer : ℕ → ℕ
  pub video : ℕ → ℕ
  pub serial : List ℕ

-- an int passed as a uint16_t
abbrev pub to_u16 : ℤ → ℕ
to_u16 (pos n) = u16 n
to_u16 (negsuc n) = 2 ^ 16 - 1 - u16 n

-- a char as an int, in 32 bits
abbrev pub char_to_int : ℕ → ℕ
char_to_int c = if ltb c 128 then c else c + (2 ^ 32 - 2 ^ 8)

-- `(color << 8) | c`, stored as a uint16_t
abbrev pub cell : ℕ → ℕ → ℕ
cell color c = u16 (bit_or (color * 2 ^ 8) (char_to_int c))

-- memcpy of VGA_SIZE * 2 bytes
unfoldable pub term_flush : Vga → Vga
term_flush s = record s { video = for_range vga_size 0 (λ i v. update v i (s.buffer i)) s.video }

unfoldable pub term_setc : (x y color c : ℕ) → Vga → Vga
term_setc x y color c s =
    if c == b'\n'
    then s
    else record s { buffer = update s.buffer (vga_cols * y + x) (cell color c) }

-- the loops of term_clear: columns outside, rows inside
unfoldable pub blank_all : ℕ → (ℕ → ℕ) → ℕ → ℕ
blank_all color buffer =
    for_range vga_cols 0
      (λ col b. for_range vga_rows 0 (λ row b1. update b1 (vga_cols * row + col) (cell color 32)) b)
      buffer

unfoldable pub term_clear : Vga → Vga
term_clear s =
    let s1 = record s {
      buffer = blank_all s.term_color s.buffer;
      term_col = pos 0;
      term_row = pos 0;
    } in
    if s1.allow_legacy_vga_functions == 0 then s1 else term_flush s1

-- The two writes to the cursor port are not part of the state.
unfoldable pub term_init : Vga → Vga
term_init s = term_clear (record s {
  term_col = pos 0;
  term_row = pos 0;
  term_color = default_color;
  screen = 0;
  allow_legacy_vga_functions = 1;
})

abbrev pub write_com : ℕ → Vga → Vga
write_com c s = record s { serial = c ∷ s.serial }

-- the switch of term_putc
unfoldable pub put_switch : ℕ → Vga → Vga
put_switch c s =
    if c == 0
    then s
    else if c == b'\n'
    then (let s1 = write_com 13 (write_com c s) in
        record s1 { term_col = pos 0; term_row = s1.term_row +ℤ pos 1 })
    else if c == 8
    then (let s1 = record s { term_col = s.term_col -ℤ pos 1 } in
        term_setc (to_u16 s1.term_col) (to_u16 s1.term_row) s1.term_color 32 s1)
    else (let s1 = write_com c s in
        let s2 = term_setc (to_u16 s1.term_col) (to_u16 s1.term_row) s1.term_color c s1 in
        record s2 { term_col = s2.term_col +ℤ pos 1 })

-- the three corrections of the position
unfoldable pub wrap_position : Vga → Vga
wrap_position s =
    let s1 =
      if ltb_ℤ s.term_col (pos vga_cols)
      then s
      else record s { term_col = pos 0; term_row = s.term_row +ℤ pos 1 } in
    let s2 =
      if ltb_ℤ s1.term_col (pos 0)
      then record s1 { term_col = pos (vga_cols - 1); term_row = s1.term_row -ℤ pos 1 }
      else s1 in
    if ltb_ℤ s2.term_row (pos 0) then record s2 { term_row = pos 0 } else s2

-- one line moved up, and all of them
unfoldable pub move_row : ℕ → (ℕ → ℕ) → ℕ → ℕ
move_row y b =
    for_range vga_cols 0 (λ x b1. update b1 (vga_cols * (y - 1) + x) (b1 (vga_cols * y + x))) b

unfoldable pub scroll : ℕ → (ℕ → ℕ) → ℕ → ℕ
scroll color buffer =
    let moved = for_range (vga_rows - 1) 1 move_row buffer in
    for_range vga_cols 0
      (λ x b. update b (vga_cols * (vga_rows - 1) + x) (u16 (bit_or (color * 2 ^ 8) 32))) moved

unfoldable pub scroll_if_below : Vga → Vga
scroll_if_below s =
    if ltb_ℤ s.term_row (pos vga_rows)
    then s
    else record s { buffer = scroll s.term_color s.buffer; term_row = pos (vga_rows - 1) }

-- The `flush` argument is not used.
unfoldable pub term_putc : ℕ → Vga → Vga
term_putc c s = scroll_if_below (wrap_position (put_switch c s))

-- The bytes of the string before its NUL. ESC takes the next one for the color.
unfoldable pub term_print_from : List ℕ → Vga → Vga
term_print_from [] s = s
term_print_from (c ∷ []) s = if c == 27 then record s { term_color = 0 } else term_putc c s
term_print_from (c ∷ d ∷ rest) s = elim (c == 27) [
  | true ↦ term_print_from rest (record s { term_color = d })
  | false ↦ term_print_from (d ∷ rest) (term_putc c s)
]

unfoldable pub term_print : List ℕ → Vga → Vga
term_print str s = term_flush (term_print_from str s)

unfoldable pub term_change : ℕ → Vga → Vga
term_change term_id s =
    if s.allow_legacy_vga_functions == 0 then s else term_flush (record s { screen = 0 })
