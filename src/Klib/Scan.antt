-- ===== src/Klib/Scan.antt =====
-- vsscanf of kernel/src/lib/string.c. `va_list` is the list of pointers not yet read, and reading past
-- its end is a fault. The loops run on fuel.
use rubi_kernel.Prelude.{
  ℕ, zero, suc, ◌+◌, Bool, ◌||◌, List, [], ◌∷◌, Run, ok, fault, out_of_fuel, ◌>>=◌, ◌==◌,
  if◌then◌else◌, update,
}
use rubi_kernel.Klib.Text.{Mem}

-- the variables of the loop
pub record Scan : Type 0 where
  pub format_i : ℕ
  pub dst_i : ℕ
  pub count : ℕ
  pub args : List ℕ
  pub mem : Mem

abbrev pub is_blank : ℕ → Bool
is_blank c = (c == b' ') || (c == b'\n') || (c == b'\t')

module _ (src format : ℕ) where
  -- the inner loop: the characters up to a blank or a NUL go to `ptr`; the result is the pointer behind them
  unfoldable pub copy_word : (fuel ptr : ℕ) → Scan → Run (ℕ × Scan)
  copy_word zero ptr f = out_of_fuel
  copy_word (suc fuel) ptr f =
      let c = f.mem (src + f.dst_i) in
      let rest =
        copy_word fuel (ptr + 1) (record f { mem = update f.mem ptr c; dst_i = f.dst_i + 1 }) in
      if (c == 0) || is_blank c then ok (ptr, f) else rest

  -- '%s'
  unfoldable pub scan_string : (fuel : ℕ) → Scan → Run Scan
  scan_string fuel f = elim f.args [
    | [] ↦ fault
    | p ∷ rest ↦ do
      r ← copy_word fuel p (record f { args = rest })
      let g = r.1
      let skip = if is_blank (g.mem (src + g.dst_i)) then g.dst_i + 1 else g.dst_i
      ok (record g {
        dst_i = skip;
        mem = update g.mem r.0 0;
        count = g.count + 1;
        format_i = g.format_i + 2;
      })
  ]

  -- one round; both strings have a character
  unfoldable pub scan_step : (fuel : ℕ) → Scan → Run Scan
  scan_step fuel f =
      let word = scan_string fuel f in
      if f.mem (format + f.format_i) == b'%'
      then if f.mem (format + (f.format_i + 1)) == b's'
        then word
        else ok (record f { format_i = f.format_i + 1 })
      else ok (record f { format_i = f.format_i + 1 })

  unfoldable pub vsscanf_from : (fuel word_fuel : ℕ) → Scan → Run Scan
  vsscanf_from zero word_fuel f = out_of_fuel
  vsscanf_from (suc fuel) word_fuel f =
      let rest = scan_step word_fuel f >>= vsscanf_from fuel word_fuel in
      if (f.mem (format + f.format_i) == 0) || (f.mem (src + f.dst_i) == 0) then ok f else rest

-- The value is the number of strings that were read, with the memory that is left.
unfoldable pub vsscanf : (fuel word_fuel src format : ℕ) → List ℕ → Mem → Run (ℕ × Mem)
vsscanf fuel word_fuel src format list m = do
  f ←
      vsscanf_from src format fuel word_fuel
        (record { format_i = 0; dst_i = 0; count = 0; args = list; mem = m })
  ok (f.count, f.mem)
