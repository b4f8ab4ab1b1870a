-- ===== src/Klib/Text/Memory.antt =====
-- memset and memcpy.
use rubi_kernel.Prelude.{
  ℕ, zero, suc, ◌+◌, ◌-◌, ◌≤◌, ◌≡◌, ◌⊎◌, inl, inr, ap, Bool, false, ◌&&◌, arith, ltb, leb, ◌==◌,
  if◌then◌else◌, Bool-cases, u8, update, for_range,
}
use rubi_kernel.Klib.Text.{Mem, memset, memcpy}

-- the address is one of `n` from `a`
abbrev pub inside : (a n x : ℕ) → Bool
inside a n x = leb a x && ltb x (a + n)

abbrev pub fill : ℕ → ℕ → ℕ → Mem → Mem
fill dst value i m = update m (dst + i) value

fill_from :
    (n i dst value : ℕ) (m : Mem) (x : ℕ)
    → for_range n i (fill dst value) m x ≡ (if inside (dst + i) n x then value else m x)
unfolding for_range
fill_from zero i dst value m x = ground arith
fill_from (suc n) i dst value m x =
    ground (arith, fill_from n (i + 1) dst value (fill dst value i m) x)

-- `memset` writes the low byte of the value at exactly the addresses of the range.
pub memset_lem :
    (dst value bytes : ℕ) (m : Mem) (x : ℕ)
    → memset dst value bytes m x ≡ (if inside dst bytes x then u8 value else m x)
unfolding memset
memset_lem dst value bytes m x = ground (arith, fill_from bytes 0 dst (u8 value) m x)

abbrev pub copy : ℕ → ℕ → ℕ → Mem → Mem
copy dst src i m = update m (dst + i) (m (src + i))

-- A copy upwards reads no byte that it has written: the destination begins at the source or before it, or behind
-- the end of the source.
abbrev pub Apart : (dst src n : ℕ) → Type 0
Apart dst src n = (dst ≤ src) ⊎ (src + n ≤ dst)

pub copy_from :
    (n i dst src : ℕ) (m : Mem) (x : ℕ)
    → Apart dst src (i + n)
    → for_range n i (copy dst src) m x ≡ (if inside (dst + i) n x then m (src + (x - dst)) else m x)
unfolding for_range
copy_from zero i dst src m x a = ground arith
copy_from (suc n) i dst src m x a =
    let a' : Apart dst src (i + 1 + n) = elim a [
      | inl p ↦ inl (omega arith)
      | inr p ↦ inr (omega arith)
    ] in
    let rest = copy_from n (i + 1) dst src (copy dst src i m) x a' in
    elim (Bool-cases (dst + i == x)) [
      | inl here ↦
          let e : x ≡ dst + i = ground arith in
          let at : m (src + (x - dst)) ≡ m (src + i) = ap m (omega arith) in ground arith
      | inr there ↦ elim (Bool-cases (inside (dst + i) (suc n) x)) [
        | inl within ↦
            let free : (dst + i == src + (x - dst)) ≡ false = elim a [
              | inl p ↦ ground arith
              | inr p ↦ ground arith
            ] in
            ground arith
        | inr beyond ↦ ground arith
      ]
    ]

-- `memcpy` to a range that does not begin inside the source copies the source to the destination, and changes
-- nothing outside the destination.
pub memcpy_lem :
    (buf1 buf2 bytes : ℕ) (m : Mem) (x : ℕ)
    → Apart buf1 buf2 bytes
    → memcpy buf1 buf2 bytes m x ≡ (if inside buf1 bytes x then m (buf2 + (x - buf1)) else m x)
unfolding memcpy
memcpy_lem buf1 buf2 bytes m x a = ground (
  arith,
  copy_from bytes 0 buf1 buf2 m x
      (elim a [ inl p ↦ inl (omega arith) | inr p ↦ inr (omega arith) ]),
)
