-- ===== src/Dev/Vga/Tests.antt =====
-- The terminal on a concrete screen.
use rubi_kernel.Prelude.{◌≡◌, inl, [], arith}
use rubi_kernel.Prelude.Int.{pos}
use rubi_kernel.Dev.Vga.{Vga, term_putc}
use rubi_kernel.Dev.Vga.Bounds.{OnScreen, term_putc-OnScreen, term_putc_in_bounds}

abbrev corner : Vga
corner = record {
  term_col = pos 79;
  term_row = pos 24;
  screen = 0;
  term_color = 15;
  allow_legacy_vga_functions = 1;
  buffer = λ k. k;
  video = λ k. 0;
  serial = [];
}

abbrev line_start : Vga
line_start = record corner { term_col = pos 0; term_row = pos 3 }

corner-OnScreen : OnScreen corner
corner-OnScreen = record {
  col_low = omega arith;
  col_high = omega arith;
  row_low = omega arith;
  row_high = omega arith;
}

term_putc-OnScreen_example : OnScreen (term_putc 65 corner)
term_putc-OnScreen_example = term_putc-OnScreen 65 corner corner-OnScreen

term_putc_in_bounds_example : (term_putc 65 corner).buffer 2000 ≡ 2000
term_putc_in_bounds_example =
    term_putc_in_bounds 65 corner 2000 corner-OnScreen (inl (λ e. omega arith)) (omega arith)
