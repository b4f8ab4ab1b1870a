-- ===== src/Klib/Format.antt =====
-- vsprintf of kernel/src/lib/string.c. `va_list` is the list of argument words not yet read, and
-- reading past its end is a fault. `rt` is the address of the local buffer. `text_fuel` goes to the
-- string functions that are called.
pub mod Steps
pub mod Tests
use rubi_kernel.Prelude.{
  ℕ, zero, suc, ◌+◌, ◌-◌, Run, ok, fault, out_of_fuel, ◌>>=◌, List, [], ◌∷◌, ◌==◌, ◌||◌, Bool,
  if◌then◌else◌, u8, update,
}
use rubi_kernel.Klib.Text.{Mem, memset, memcpy, strlen, itoa}

-- the variables of the loop
pub record Fmt : Type 0 where
  pub src_i : ℕ
  pub dst_i : ℕ
  pub args : List ℕ
  pub mem : Mem

unfoldable pub va_arg : Fmt → Run (ℕ × Fmt)
va_arg f = elim f.args [ [] ↦ fault | a ∷ rest ↦ ok (a, record f { args = rest }) ]

module _ (text_fuel s1 s2 rt : ℕ) where
  -- memcpy of the string at `p` to the output, and the two advances
  unfoldable pub put_string : ℕ → Fmt → Run Fmt
  put_string p f = do
    len ← strlen text_fuel p f.mem
    ok (record f {
      mem = memcpy (s1 + f.dst_i) p len f.mem;
      dst_i = f.dst_i + len;
      src_i = f.src_i + 2;
    })

  -- '%x', '%i', '%d' and '%u'
  unfoldable pub put_number : ℕ → Fmt → Run Fmt
  put_number base f = do
    (num, f1) ← va_arg f
    m ← itoa text_fuel num rt base f1.mem
    put_string rt (record f1 { mem = m })

  -- '%X': hexadecimal, padded to 8 characters
  unfoldable pub put_padded : Fmt → Run Fmt
  put_padded f = do
    (num, f1) ← va_arg f
    m ← itoa text_fuel num rt 16 f1.mem
    len ← strlen text_fuel rt m
    let num2 = 8 - len
    put_string rt (record f1 { mem = memset (s1 + f1.dst_i) 48 num2 m; dst_i = f1.dst_i + num2 })

  unfoldable pub put_pointer : Fmt → Run Fmt
  put_pointer f = do (p, f1) ← va_arg f; put_string p f1

  -- '%c' has no `break`: the default case follows, and the format is advanced by 3
  unfoldable pub put_char : Fmt → Run Fmt
  put_char f = do
    (num, f1) ← va_arg f
    ok (record f1 {
      mem = update f1.mem (s1 + f1.dst_i) (u8 num);
      dst_i = f1.dst_i + 1;
      src_i = f1.src_i + 2 + 1;
    })

  -- one round: the character at `src_i` is not NUL
  unfoldable pub step : Fmt → Run Fmt
  step f =
      let c = f.mem (s2 + f.src_i) in
      let conv = f.mem (s2 + (f.src_i + 1)) in
      if c == b'%'
      then if conv == b'x'
        then put_number 16 f
        else if conv == b'X'
        then put_padded f
        else if (conv == b'i') || (conv == b'd') || (conv == b'u')
        then put_number 10 f
        else if conv == b's'
        then put_pointer f
        else if conv == b'c'
        then put_char f
        else ok (record f { src_i = f.src_i + 1 })
      else ok (record f {
        mem = update f.mem (s1 + f.dst_i) c;
        src_i = f.src_i + 1;
        dst_i = f.dst_i + 1;
      })

  unfoldable pub vsprintf_from : ℕ → Fmt → Run (ℕ × Mem)
  vsprintf_from zero f = out_of_fuel
  vsprintf_from (suc fuel) f =
      let rest = step f >>= vsprintf_from fuel in
      if f.mem (s2 + f.src_i) == 0 then ok (f.dst_i, update f.mem (s1 + f.dst_i) 0) else rest

-- The value is the number of characters, with the memory that is left.
unfoldable pub vsprintf : (fuel text_fuel rt s1 s2 : ℕ) → List ℕ → Mem → Run (ℕ × Mem)
vsprintf fuel text_fuel rt s1 s2 list m =
    vsprintf_from text_fuel s1 s2 rt fuel (record { src_i = 0; dst_i = 0; args = list; mem = m })
