-- ===== src/Dev/Tty/Lines.antt =====
-- Writing to the terminal, and reading a line from it.
use rubi_kernel.Prelude.{
  ℕ, zero, suc, ◌+◌, ◌-◌, ◌^◌, ◌<◌, ◌≡◌, ◌≢◌, refl, ap, ◌∙◌, true, false, not, ◌&&◌, ◌||◌, List, [],
  ◌∷◌, ◌++◌, length, arith, leb, ◌==◌, u32, ok,
}
use rubi_kernel.Dev.Vga.{Vga, term_putc}
use rubi_kernel.Dev.Tty.{Tty, tty_write_ch, tty_write_from, tty_write, tty_read_ch, tty_read}

-- `term_putc` of each character in turn
unfoldable pub put_all : List ℕ → Vga → Vga
put_all [] s = s
put_all (c ∷ cs) s = put_all cs (term_putc c s)

-- from index `i` on, the buffer holds the bytes `cs`, none of them 0
abbrev pub Holds : (ℕ → ℕ) → ℕ → List ℕ → Type 0
Holds buf i [] = Unit {0}
Holds buf i (c ∷ cs) = (buf i ≡ c) × (c ≢ 0) × Holds buf (i + 1) cs

write_char : (c : ℕ) (t : Tty) → c ≢ 0 → tty_write_ch c t ≡ record t { vga = term_putc c t.vga }
unfolding tty_write_ch
write_char c t h = let off : (c == 0) ≡ false = ground arith in rw off refl

write_whole :
    (cs : List ℕ) (i : ℕ) (buf : ℕ → ℕ) (t : Tty)
    → Holds buf i cs
    → tty_write_from (length cs) i buf t ≡ (i + length cs, record t { vga = put_all cs t.vga })
unfolding tty_write_from put_all
write_whole [] i buf t h = ap (λ n. (n, t)) (omega arith)
write_whole (c ∷ cs) i buf t h =
    let off : (buf i == 0) ≡ false = ground arith in
    rw (off, h.0, write_char c t h.1)
      (write_whole cs (i + 1) buf (record t { vga = term_putc c t.vga }) h.2
        ∙ ap (λ n. (n, record t { vga = put_all cs (term_putc c t.vga) })) (omega arith))

-- `tty_write` of bytes that are not 0 returns their number, and has put each of them on the
-- terminal, in order.
pub tty_write_lem :
    (cs : List ℕ) (buf : ℕ → ℕ) (t : Tty)
    → Holds buf 0 cs
    → tty_write buf (length cs) t ≡ (length cs, record t { vga = put_all cs t.vga })
unfolding tty_write
tty_write_lem cs buf t h =
    write_whole cs 0 buf t h ∙ ap (λ n. (n, record t { vga = put_all cs t.vga })) (omega arith)

-- the bytes of a line, none of them a newline
abbrev pub UntilNewline : (ℕ → ℕ) → ℕ → List ℕ → Type 0
UntilNewline buf i [] = buf i ≡ 10
UntilNewline buf i (c ∷ cs) = (buf i ≡ c) × (c ≢ 0) × (c ≢ 10) × UntilNewline buf (i + 1) cs

read_char :
    (i : ℕ) (t : Tty)
    → i < t.input_ptr
    → t.input_buff i ≢ 10
    → tty_read_ch i t ≡ (t.input_buff i, i + 1, t)
unfolding tty_read_ch
read_char i t h n =
    let inside : leb t.input_ptr i ≡ false = ground arith in
    let other : (t.input_buff i == 10) ≡ false = ground arith in rw (inside, other) (ground arith)

read_newline :
    (i : ℕ) (t : Tty)
    → t.read_line_mode ≢ 0
    → i < t.input_ptr
    → t.input_buff i ≡ 10
    → tty_read_ch i t ≡ (10, 0, record t { input_ptr = 0 })
unfolding tty_read_ch
read_newline i t m h n =
    let inside : leb t.input_ptr i ≡ false = ground arith in
    let line : (t.read_line_mode == 0) ≡ false = ground arith in rw (inside, line, n) refl

less_one : (size : ℕ) → 0 < size → size < 2 ^ 32 → u32 (size + 2 ^ 32 - 1) ≡ size - 1
less_one size h l = omega arith

-- In line mode, when the buffer holds a line and its newline from the offset on, `tty_read` of a
-- size that has room for both, given more fuel than the line's length, ends without waiting for a key;
-- it returns the line with its newline, and sets the offset and the input pointer to the start.
pub tty_read_line :
    (report : Tty → List ℕ) (cs : List ℕ) (fuel : ℕ) (script : List (List ℕ)) (i size : ℕ) (t : Tty)
    → t.read_line_mode ≢ 0
    → UntilNewline t.input_buff i cs
    → i + length cs < t.input_ptr
    → length cs < size
    → size < 2 ^ 32
    → length cs < fuel
    → tty_read report fuel script i size t ≡ ok (cs ++ 10 ∷ [], 0, record t { input_ptr = 0 })
unfolding tty_read
tty_read_line report cs zero script i size t m h p r w f = absurd (omega arith)
tty_read_line report [] (suc fuel) script i size t m h p r w f =
    let here = read_newline i t m (omega arith) h in
    let stop : ((u32 (size + 2 ^ 32 - 1) == 0) || (not (t.read_line_mode == 0) && (10 == 10)))
        ≡ true =
      ground arith in
    rw
      (
        tty_read,
        ap (λ r. r.0) here,
        ap (λ r. r.2) here,
        ap (λ r. r.0) here,
        stop,
        ap (λ r. r.0) here,
        ap (λ r. r.1) here,
        ap (λ r. r.2) here,
      )
      refl
tty_read_line report (c ∷ cs) (suc fuel) script i size t m h p r w f =
    let here = read_char i t (omega arith) (λ e. h.2 (ground arith)) in
    let go : ((u32 (size + 2 ^ 32 - 1) == 0)
          || (not (t.read_line_mode == 0) && (t.input_buff i == 10)))
        ≡ false =
      ground (arith, h.2) in
    let some_char : (t.input_buff i == 0) ≡ false = ground arith in
    rw
      (
        tty_read,
        ap (λ r. r.0) here,
        some_char,
        ap (λ r. r.2) here,
        ap (λ r. r.0) here,
        go,
        ap (λ r. r.0) here,
        ap (λ r. r.1) here,
        ap (λ r. r.2) here,
        less_one size (omega arith) w,
        tty_read_line report cs fuel script (i + 1) (size - 1) t m h.3 (omega arith) (omega arith)
            (omega arith) (omega arith),
        h.0,
      )
      refl
