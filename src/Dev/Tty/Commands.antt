-- ===== src/Dev/Tty/Commands.antt =====
-- The commands of tty_ioctl keep the terminal ready.
use rubi_kernel.Prelude.{ℕ, zero, suc, ◌+◌, inl, inr, arith, ◌==◌, Bool-cases, get_or}
use rubi_kernel.Dev.Vga.{Vga, term_print, term_clear, term_flush}
use rubi_kernel.Dev.Vga.Bounds.{OnScreen, term_putc-OnScreen}
use rubi_kernel.Dev.Tty.{
  Tty, tty_write_ch, tty_write_from, tty_write, migrate, migrate_text, ok_text, tty_ioctl,
}
use rubi_kernel.Dev.Tty.Keys.{IsReady, term_print-OnScreen, flushed}

write_ch-IsReady : (c : ℕ) (t : Tty) → IsReady t → IsReady (tty_write_ch c t)
unfolding tty_write_ch
write_ch-IsReady c t r = elim (Bool-cases (c == 0)) [
  | inl e ↦ rw e r
  | inr e ↦ rw e (record { within = r.within; cursor = term_putc-OnScreen c t.vga r.cursor })
]

write_from-IsReady :
    (n i : ℕ) (buf : ℕ → ℕ) (t : Tty) → IsReady t → IsReady (tty_write_from n i buf t).1
unfolding tty_write_from
write_from-IsReady zero i buf t r = r
write_from-IsReady (suc n) i buf t r =
    let once = write_ch-IsReady (buf i) t r in
    elim (Bool-cases (buf i == 0)) [
      | inl e ↦ rw e once
      | inr e ↦ rw e (write_from-IsReady n (i + 1) buf (tty_write_ch (buf i) t) once)
    ]

-- `tty_write` of any buffer and size keeps the input pointer and the cursor in their ranges.
pub tty_write-IsReady :
    (buf : ℕ → ℕ) (size : ℕ) (t : Tty) → IsReady t → IsReady (tty_write buf size t).1
unfolding tty_write
tty_write-IsReady buf size t r = write_from-IsReady size 0 buf t r

clear-OnScreen : (s : Vga) → OnScreen (term_clear s)
unfolding term_clear term_flush
clear-OnScreen s = elim (Bool-cases (s.allow_legacy_vga_functions == 0)) [
  | inl e ↦ rw e (record {
    col_low = omega arith;
    col_high = omega arith;
    row_low = omega arith;
    row_high = omega arith;
  })
  | inr e ↦ rw e (record {
    col_low = omega arith;
    col_high = omega arith;
    row_low = omega arith;
    row_high = omega arith;
  })
]

no_legacy : (v : Vga) → OnScreen v → OnScreen (record v { allow_legacy_vga_functions = 0 })
no_legacy v o = record {
  col_low = o.col_low;
  col_high = o.col_high;
  row_low = o.row_low;
  row_high = o.row_high;
}

migrate-IsReady : (t : Tty) → IsReady t → IsReady (migrate t)
unfolding migrate
migrate-IsReady t r =
    let v = term_print migrate_text t.vga in
    let t1 = record t { vga = record v { allow_legacy_vga_functions = 0 } } in
    let r1 : IsReady t1 = record {
      within = r.within;
      cursor = no_legacy v (term_print-OnScreen migrate_text t.vga r.cursor);
    } in
    let r2 = tty_write-IsReady (λ i. get_or ok_text i 0) 9 t1 r1 in
    record {
      within = r2.within;
      cursor = flushed (tty_write (λ i. get_or ok_text i 0) 9 t1).1.vga r2.cursor;
    }

with_vga : (t : Tty) (v : Vga) → IsReady t → OnScreen v → IsReady (record t { vga = v })
with_vga t v r o = record { within = r.within; cursor = o }

-- `tty_ioctl` keeps the input pointer within the buffer or just behind it and the cursor on the screen,
-- for every command and subcommand.
pub tty_ioctl-IsReady :
    (command subcmd : ℕ) (t : Tty) → IsReady t → IsReady (tty_ioctl command subcmd t)
unfolding tty_ioctl
tty_ioctl-IsReady command subcmd t r = ground (
  arith,
  migrate-IsReady t r,
  with_vga t (term_flush t.vga) r (flushed t.vga r.cursor),
  with_vga t (term_flush (term_clear t.vga)) r (flushed (term_clear t.vga) (clear-OnScreen t.vga)),
)
