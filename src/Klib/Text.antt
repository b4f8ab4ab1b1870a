-- ===== src/Klib/Text.antt =====
-- kernel/src/lib/string.c over a byte memory: addresses and bytes are numbers, and every pointer
-- is an address. Loops that end at a NUL run on fuel, which each function takes as an argument.
-- The int loop counters are taken not to overflow.
pub mod Memory
pub mod Strings
pub mod Numerals
pub mod Words
pub mod Tests
use rubi_kernel.Prelude.{
  ℕ, zero, suc, ◌+◌, ◌-◌, ◌*◌, ◌/◌, ◌%◌, ◌^◌, Run, ok, out_of_fuel, ◌>>=◌, List, [], ◌∷◌, ltb, ◌==◌,
  ◌&&◌, ◌||◌, not, Bool, if◌then◌else◌, u8, u32, update, for_range,
}

abbrev pub Mem : Type 0
Mem = ℕ → ℕ

-- a uint32_t in memory, its lowest byte first
abbrev pub read32 : Mem → ℕ → ℕ
read32 m a = m a + m (a + 1) * 2 ^ 8 + m (a + 2) * 2 ^ 16 + m (a + 3) * 2 ^ 24

abbrev pub write32 : Mem → (a value : ℕ) → Mem
write32 m a value =
    update
      (update (update (update m a (value % 256)) (a + 1) (value / 2 ^ 8 % 256)) (a + 2)
        (value / 2 ^ 16 % 256))
      (a + 3) (value / 2 ^ 24 % 256)

-- the value is a byte
unfoldable pub memset : (dst value bytes : ℕ) → Mem → Mem
memset dst value bytes = for_range bytes 0 (λ i m. update m (dst + i) (u8 value))

unfoldable pub memcpy : (buf1 buf2 bytes : ℕ) → Mem → Mem
memcpy buf1 buf2 bytes = for_range bytes 0 (λ i m. update m (buf1 + i) (m (buf2 + i)))

unfoldable pub strlen_from : (fuel s ret : ℕ) → Mem → Run ℕ
strlen_from zero s ret m = out_of_fuel
strlen_from (suc fuel) s ret m =
    let rest = strlen_from fuel s (ret + 1) m in if m (s + ret) == 0 then ok ret else rest

unfoldable pub strlen : (fuel s : ℕ) → Mem → Run ℕ
strlen fuel s m = strlen_from fuel s 0 m

-- the loop of strcmp over `n` characters from index `i`
unfoldable pub strcmp_from : (n i s1 s2 : ℕ) → Mem → ℕ
strcmp_from zero i s1 s2 m = 0
strcmp_from (suc n) i s1 s2 m =
    let rest = strcmp_from n (i + 1) s1 s2 m in if m (s1 + i) == m (s2 + i) then rest else 1338

unfoldable pub strcmp : (fuel s1 s2 : ℕ) → Mem → Run ℕ
strcmp fuel s1 s2 m = do
  len1 ← strlen fuel s1 m
  len2 ← strlen fuel s2 m
  if len1 == len2 then ok (strcmp_from len1 0 s1 s2 m) else ok 1337

unfoldable pub strcpy : (fuel dst src : ℕ) → Mem → Run Mem
strcpy fuel dst src m = do
  len ← strlen fuel src m
  let m' = for_range len 0 (λ i m1. update m1 (dst + i) (m1 (src + i))) m
  ok (update m' (dst + len) 0)

-- The loop runs while `i < len && i < n`, so it makes the smaller number of rounds.
unfoldable pub strncpy : (fuel dst src n : ℕ) → Mem → Run Mem
strncpy fuel dst src n m = do
  len ← strlen fuel src m
  let rounds = if ltb len n then len else n
  let m' = for_range rounds 0 (λ i m1. update m1 (dst + i) (m1 (src + i))) m
  ok (update m' (dst + rounds) 0)

-- `for (; j < size; j++, size--)` swaps the ends; each round takes two from `size - j`.
unfoldable pub strinv_from : (fuel str j size : ℕ) → Mem → Mem
strinv_from zero str j size m = m
strinv_from (suc fuel) str j size m =
    let k = m (str + j) in
    let m1 = update m (str + j) (m (str + size)) in
    let rest = strinv_from fuel str (j + 1) (size - 1) (update m1 (str + size) k) in
    if ltb j size then rest else m

unfoldable pub strinv : (str size : ℕ) → Mem → Mem
strinv str size m = strinv_from size str 0 size m

-- `k + (k < 10 ? '0' : 'A' - 10)`
abbrev pub digit_char : ℕ → ℕ
digit_char k = k + (if ltb k 10 then 48 else 55)

-- the digit loop of itoa from index `i`, which stores bytes; the result is the next index
unfoldable pub itoa_from : (fuel value base i str : ℕ) → Mem → Run (ℕ × Mem)
itoa_from zero value base i str m = out_of_fuel
itoa_from (suc fuel) value base i str m =
    let rest =
      itoa_from fuel (value / base) base (i + 1) str
        (update m (str + i) (u8 (digit_char (value % base)))) in
    if value == 0 then ok (i, m) else rest

unfoldable pub itoa : (fuel value str base : ℕ) → Mem → Run Mem
itoa fuel value str base m = do
  let start = if value == 0 then 1 else 0
  let m0 = if value == 0 then update m str 48 else m
  (i, m1) ← itoa_from fuel value base start str m0
  ok (strinv str (i - 1) (update m1 (str + i) 0))
