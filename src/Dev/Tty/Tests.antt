-- ===== src/Dev/Tty/Tests.antt =====
-- The terminal device on concrete states: "hi" and a newline are in the buffer.
use rubi_kernel.Prelude.{ℕ, ◌≡◌, refl, List, [], ◌∷◌, arith, ◌==◌, if◌then◌else◌, ok}
use rubi_kernel.Prelude.Int.{pos}
use rubi_kernel.Dev.Vga.{Vga}
use rubi_kernel.Dev.Tty.{Tty, key_char, tty_read}
use rubi_kernel.Dev.Tty.Lines.{tty_read_line}

abbrev blank : Vga
blank = record {
  term_col = pos 0;
  term_row = pos 0;
  screen = 0;
  term_color = 15;
  allow_legacy_vga_functions = 1;
  buffer = λ k. 0;
  video = λ k. 0;
  serial = [];
}

abbrev hi : ℕ → ℕ
hi i = if i == 0 then 104 else if i == 1 then 105 else if i == 2 then 10 else 0

abbrev typed : Tty
typed = record {
  input_buff = hi;
  input_ptr = 3;
  read_line_mode = 1;
  is_echo = 1;
  updates = 0;
  vga = blank;
}

abbrev report : Tty → List ℕ
report t = 10 ∷ t.input_ptr ∷ []

key_a : key_char 30 ≡ 97
unfolding key_char
key_a = refl

tty_read_line_example :
    tty_read report 5 [] 0 80 typed ≡ ok (104 ∷ 105 ∷ 10 ∷ [], 0, record typed { input_ptr = 0 })
tty_read_line_example =
    tty_read_line report (104 ∷ 105 ∷ []) 5 [] 0 80 typed (λ e. omega arith)
      (
        refl,
        (λ e. omega arith),
        (λ e. omega arith),
        (refl, (λ e. omega arith), (λ e. omega arith), refl),
      )
      (omega arith) (omega arith) (omega arith) (omega arith)
