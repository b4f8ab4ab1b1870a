-- ===== src/Dev/Tty.antt =====
-- kernel/src/kernel/dev/tty.c: the terminal device, over the text terminal of vga.c.
-- `input_buff` is the 80-byte array by index, and `input_ptr` the offset of tty_input_ptr in it, so a
-- write past the array is seen as such. `updates` counts the messages that ask for a flush.
-- `report` is the text that the debug print of F1 formats.
-- A key arrives only while the reader waits in sched_yield: `script` has the scan codes that arrive at
-- each yield, and a read that has used it up is still waiting.
pub mod Keys
pub mod Lines
pub mod Commands
pub mod Tests
use rubi_kernel.Prelude.{
  ℕ, zero, suc, ◌+◌, ◌-◌, ◌*◌, ◌%◌, ◌^◌, Bool, true, false, not, ◌&&◌, ◌||◌, List, [], ◌∷◌, ltb,
  leb, ◌==◌, if◌then◌else◌, u32, update, Run, ok, out_of_fuel, ◌>>=◌, get_or,
}
use rubi_kernel.Dev.Vga.{Vga, vga_cols, term_putc, term_print, term_clear, term_flush}

-- character set 1; the keys that are not listed are undefined
abbrev pub keyboard_map : List ℕ
keyboard_map =
    0 ∷ 27 ∷ 49 ∷ 50 ∷ 51 ∷ 52 ∷ 53 ∷ 54 ∷ 55 ∷ 56 ∷ 57 ∷ 48 ∷ 45 ∷ 61 ∷ 8 ∷ 9 ∷ 113 ∷ 119 ∷ 101
    ∷ 114 ∷ 116 ∷ 121 ∷ 117 ∷ 105 ∷ 111 ∷ 112 ∷ 91 ∷ 93 ∷ 10 ∷ 0 ∷ 97 ∷ 115 ∷ 100 ∷ 102 ∷ 103 ∷ 104
    ∷ 106 ∷ 107 ∷ 108 ∷ 59 ∷ 39 ∷ 96 ∷ 0 ∷ 92 ∷ 122 ∷ 120 ∷ 99 ∷ 118 ∷ 98 ∷ 110 ∷ 109 ∷ 44 ∷ 46 ∷ 47
    ∷ 0 ∷ 42 ∷ 0 ∷ 32 ∷ 0 ∷ 0 ∷ 0 ∷ 0 ∷ 0 ∷ 0 ∷ 0 ∷ 0 ∷ 0 ∷ 0 ∷ 0 ∷ 0 ∷ 0 ∷ 0 ∷ 0 ∷ 0 ∷ 45 ∷ 0 ∷ 0
    ∷ 0 ∷ 43 ∷ 0 ∷ []

pub record Tty : Type 0 where
  pub input_buff : ℕ → ℕ
  pub input_ptr : ℕ
  pub read_line_mode : ℕ
  pub is_echo : ℕ
  pub updates : ℕ
  pub vga : Vga

abbrev pub is_backspace : ℕ → Bool
is_backspace ch = ch == 8

-- the four steps of the interrupt handler, for a character that is not 0
unfoldable pub store_key : ℕ → Tty → Tty
store_key ch t =
    if ltb t.input_ptr vga_cols && (not (is_backspace ch) || (t.read_line_mode == 0))
    then record t { input_buff = update t.input_buff t.input_ptr ch; input_ptr = t.input_ptr + 1 }
    else t

unfoldable pub echo_key : ℕ → Tty → Tty
echo_key ch t =
    if not (t.is_echo == 0) && not (ch == 0) && ltb 0 t.input_ptr
    then record t { vga = term_putc ch t.vga }
    else t

unfoldable pub erase_key : ℕ → Tty → Tty
erase_key ch t =
    if not (t.read_line_mode == 0) && is_backspace ch && ltb 0 t.input_ptr
    then record t {
      input_buff = update t.input_buff (t.input_ptr - 1) 0;
      input_ptr = t.input_ptr - 1;
    }
    else t

abbrev pub ask_update : Tty → Tty
ask_update t = record t { updates = t.updates + 1 }

-- the character of a scan code below 128
unfoldable pub key_char : ℕ → ℕ
key_char index = get_or keyboard_map index 0

unfoldable pub accept_char : ℕ → Tty → Tty
accept_char ch t = if ch == 0 then t else ask_update (erase_key ch (echo_key ch (store_key ch t)))

unfoldable pub tty_write_ch : ℕ → Tty → Tty
tty_write_ch ch t = if ch == 0 then t else record t { vga = term_putc ch t.vga }

-- the loop of tty_write at index `i`, with `rounds` to go
unfoldable pub tty_write_from : (rounds i : ℕ) → (ℕ → ℕ) → Tty → ℕ × Tty
tty_write_from zero i buf t = (i, t)
tty_write_from (suc rounds) i buf t =
    let ch = buf i in
    let t' = tty_write_ch ch t in
    let rest = tty_write_from rounds (i + 1) buf t' in if ch == 0 then (i + 1, t') else rest

unfoldable pub tty_write : (ℕ → ℕ) → (size : ℕ) → Tty → ℕ × Tty
tty_write buf size t = tty_write_from size 0 buf t

-- "Migrate to tty driver" and "... [OK]\n"
abbrev pub migrate_text : List ℕ
migrate_text =
    77 ∷ 105 ∷ 103 ∷ 114 ∷ 97 ∷ 116 ∷ 101 ∷ 32 ∷ 116 ∷ 111 ∷ 32 ∷ 116 ∷ 116 ∷ 121 ∷ 32 ∷ 100 ∷ 114
    ∷ 105 ∷ 118 ∷ 101 ∷ 114 ∷ []

abbrev pub ok_text : List ℕ
ok_text = 46 ∷ 46 ∷ 46 ∷ 32 ∷ 91 ∷ 79 ∷ 75 ∷ 93 ∷ 10 ∷ []

unfoldable pub migrate : Tty → Tty
migrate t =
    let v = term_print migrate_text t.vga in
    let t1 = record t { vga = record v { allow_legacy_vga_functions = 0 } } in
    let t2 = (tty_write (λ i. get_or ok_text i 0) 9 t1).1 in record t2 { vga = term_flush t2.vga }

-- The commands are 0, 1 and multiples of 2 ^ 8; subcmd 0 is for reading and 1 for writing.
unfoldable pub tty_ioctl : (command subcmd : ℕ) → Tty → Tty
tty_ioctl command subcmd t =
    let reads = subcmd == 0 in
    let writes = subcmd == 1 in
    if command == 0
    then (if writes && not (t.vga.allow_legacy_vga_functions == 0) then migrate t else t)
    else if command == 1
    then (if writes then record t { vga = term_flush t.vga } else t)
    else if command == 2 ^ 8
    then (if writes then record t { vga = term_flush (term_clear t.vga) } else t)
    else if command == 2 * 2 ^ 8
    then (if reads then record t { read_line_mode = 1 } else t)
    else if command == 3 * 2 ^ 8
    then (if reads then record t { is_echo = 1 } else t)
    else if command == 4 * 2 ^ 8
    then (if reads then record t { read_line_mode = 0 } else t)
    else if command == 5 * 2 ^ 8 && reads
    then record t { is_echo = 0 }
    else t

-- the character, the new offset and the state
unfoldable pub tty_read_ch : (offset : ℕ) → Tty → ℕ × ℕ × Tty
tty_read_ch offset t =
    if leb t.input_ptr offset
    then (0, t.input_ptr, t)
    else if not (t.read_line_mode == 0) && (t.input_buff offset == 10)
    then (10, 0, record t { input_ptr = 0 })
    else (t.input_buff offset, offset + 1, t)

module _ (report : Tty → List ℕ) where
  unfoldable pub tty_keyboard_ih_low : (index : ℕ) → Tty → Tty
  tty_keyboard_ih_low index t =
      if ltb index 128
      then accept_char (key_char index)
          (if index == 59 then record t { vga = term_print (report t) t.vga } else t)
      else t

  unfoldable pub type_keys : List ℕ → Tty → Tty
  type_keys [] t = t
  type_keys (k ∷ ks) t = type_keys ks (tty_keyboard_ih_low k t)

  -- Result: the bytes put in the buffer, the offset and the state. `size -= 1` wraps.
  unfoldable pub tty_read :
      (fuel : ℕ) (script : List (List ℕ)) (offset size : ℕ) → Tty → Run (List ℕ × ℕ × Tty)
  tty_read zero script offset size t = out_of_fuel
  tty_read (suc fuel) script offset size t =
      let (ch, offset', t') = tty_read_ch offset t in
      let size' = u32 (size + 2 ^ 32 - 1) in
      elim (ch == 0) [
        | true ↦ elim script [
          | [] ↦ out_of_fuel
          | keys ∷ later ↦ elim (size == 0) [
            | true ↦ ok ([], offset', type_keys keys t')
            | false ↦ tty_read fuel later offset' size (type_keys keys t')
          ]
        ]
        | false ↦ elim ((size' == 0) || (not (t'.read_line_mode == 0) && (ch == 10))) [
          | true ↦ ok (ch ∷ [], offset', t')
          | false ↦ tty_read fuel script offset' size' t' >>= λ r. ok (ch ∷ r.0, r.1, r.2)
        ]
      ]
