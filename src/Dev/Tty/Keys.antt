-- ===== src/Dev/Tty/Keys.antt =====
-- Keys typed at the terminal: where the input pointer goes, and what the handler writes.
use rubi_kernel.Prelude.{ℕ, ◌≤◌, ◌<◌, ◌≡◌, ◌≢◌, inl, inr, List, [], ◌∷◌, arith, ◌==◌, Bool-cases}
use rubi_kernel.Dev.Vga.{Vga, term_putc, term_print, term_print_from, term_flush}
use rubi_kernel.Dev.Vga.Bounds.{OnScreen, term_putc-OnScreen}
use rubi_kernel.Dev.Tty.{Tty, store_key, echo_key, erase_key, accept_char}

-- the pointer is in the buffer or just behind it, and the cursor on the screen
pub record IsReady (t : Tty) : Type 0 where
  pub within : t.input_ptr ≤ 80
  pub cursor : OnScreen t.vga

recolored : (s : Vga) (c : ℕ) → OnScreen s → OnScreen (record s { term_color = c })
recolored s c o = record {
  col_low = o.col_low;
  col_high = o.col_high;
  row_low = o.row_low;
  row_high = o.row_high;
}

pub flushed : (s : Vga) → OnScreen s → OnScreen (term_flush s)
unfolding term_flush
flushed s o = record {
  col_low = o.col_low;
  col_high = o.col_high;
  row_low = o.row_low;
  row_high = o.row_high;
}

print_from-OnScreen : (str : List ℕ) (s : Vga) → OnScreen s → OnScreen (term_print_from str s)
unfolding term_print_from
print_from-OnScreen [] s o = o
print_from-OnScreen (c ∷ []) s o = elim (Bool-cases (c == 27)) [
  | inl e ↦ rw e (recolored s 0 o)
  | inr e ↦ rw e (term_putc-OnScreen c s o)
]
print_from-OnScreen (c ∷ d ∷ rest) s o = elim (Bool-cases (c == 27)) [
  | inl e ↦
      rw (e, term_print_from)
        (print_from-OnScreen rest (record s { term_color = d }) (recolored s d o))
  | inr e ↦
      rw (e, term_print_from)
        (print_from-OnScreen (d ∷ rest) (term_putc c s) (term_putc-OnScreen c s o))
]

-- `term_print` of any text keeps the cursor on the screen.
pub term_print-OnScreen : (str : List ℕ) (s : Vga) → OnScreen s → OnScreen (term_print str s)
unfolding term_print
term_print-OnScreen str s o = flushed (term_print_from str s) (print_from-OnScreen str s o)

-- In line mode, with room in the buffer, a character that is not 0 and not a backspace, and then a
-- backspace, leave the input pointer where it was.
pub accept-backspace :
    (ch : ℕ) (t : Tty)
    → t.read_line_mode ≢ 0
    → t.input_ptr < 80
    → ch ≢ 0
    → ch ≢ 8
    → (accept_char 8 (accept_char ch t)).input_ptr ≡ t.input_ptr
unfolding accept_char store_key echo_key erase_key
accept-backspace ch t m h n b = ground arith
