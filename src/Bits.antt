-- ===== src/Bits.antt =====
-- Single bits of words: `w | 1 << b`, `w & ~(1 << b)` and `w >> c & 1` of the C sources.
mod Step
pub mod Fields
use Step.{bit_or_low, bit_and_low}
use native.Mathlib.Nat.{pow-suc, one-le-pow, div-div-eq-div-mul, mul_comm}
use rubi_kernel.Prelude.{
  ℕ, zero, suc, ◌+◌, ◌-◌, ◌*◌, ◌/◌, ◌%◌, ◌^◌, ◌≤◌, ◌<◌, bit_and, bit_or, ◌≡◌, refl, ap, arith, ◌==◌,
  if◌then◌else◌,
}

-- bit `c` of `w`
abbrev pub bit : ℕ → ℕ → ℕ
bit w c = w / 2 ^ c % 2

bit-suc : (w c : ℕ) → bit w (suc c) ≡ bit (w / 2) c
bit-suc w c = rw (pow-suc 2 c, mul_comm (2 ^ c) 2, ← div-div-eq-div-mul w 2 (2 ^ c)) refl

bit_or-zero : (n w : ℕ) → w ≤ n → bit_or w 0 ≡ w
bit_or-zero n zero h = refl
bit_or-zero zero (suc w) h = elim h [ ]
bit_or-zero (suc n) (suc w) h =
    omega (arith, bit_or_low (suc w) 0, bit_or-zero n (suc w / 2) (omega arith))

double_pow : (b : ℕ) → 2 ^ suc b ≡ 2 * 2 ^ b
double_pow b = omega (arith, pow-suc 2 b)

bit_or_pow_zero : (w : ℕ) → bit_or w 1 ≡ w / 2 * 2 + 1
bit_or_pow_zero w = omega (arith, bit_or_low w 1, bit_or-zero w (w / 2) (omega arith))

bit_or_pow_suc : (w b : ℕ) → bit_or w (2 ^ suc b) ≡ w % 2 + 2 * bit_or (w / 2) (2 ^ b)
bit_or_pow_suc w b = rw (double_pow b) (
    let half : 2 * 2 ^ b / 2 ≡ 2 ^ b = omega arith in
    let low = bit_or_low w (2 * 2 ^ b) in omega (arith, rw half at low))

-- Setting a bit sets that bit, and no other.
pub bit-bit_or : (b c w : ℕ) → bit (bit_or w (2 ^ b)) c ≡ (if b == c then 1 else bit w c)
bit-bit_or zero zero w = omega (arith, bit_or_pow_zero w)
bit-bit_or zero (suc c) w =
    let half : bit_or w 1 / 2 ≡ w / 2 = omega (arith, bit_or_pow_zero w) in
    rw (bit-suc (bit_or w 1) c, half, bit-suc w c) (ground arith)
bit-bit_or (suc b) zero w =
    let odd : bit_or w (2 ^ suc b) % 2 ≡ w % 2 = omega (arith, bit_or_pow_suc w b) in ground arith
bit-bit_or (suc b) (suc c) w =
    let half : bit_or w (2 ^ suc b) / 2 ≡ bit_or (w / 2) (2 ^ b) =
      omega (arith, bit_or_pow_suc w b) in
    rw (bit-suc (bit_or w (2 ^ suc b)) c, half, bit-bit_or b c (w / 2), bit-suc w c) (ground arith)

-- `~(1 << b)` in `k` bits.
abbrev pub clear_mask : ℕ → ℕ → ℕ
clear_mask k b = 2 ^ k - 1 - 2 ^ b

bit_and_ones : (k w : ℕ) → w < 2 ^ k → bit_and w (2 ^ k - 1) ≡ w
bit_and_ones zero w h = let e : w ≡ 0 = omega arith in rw e refl
bit_and_ones (suc k) w h =
    let half : (2 ^ suc k - 1) / 2 ≡ 2 ^ k - 1 = omega (arith, double_pow k, one-le-pow k 2) in
    let low = bit_and_low w (2 ^ suc k - 1) in
    omega (
      arith,
      rw half at low,
      double_pow k,
      one-le-pow k 2,
      bit_and_ones k (w / 2) (omega (arith, double_pow k)),
    )

bit_and_clear_zero : (k w : ℕ) → w < 2 ^ suc k → bit_and w (clear_mask (suc k) 0) ≡ 2 * (w / 2)
bit_and_clear_zero k w h =
    let half : clear_mask (suc k) 0 / 2 ≡ 2 ^ k - 1 = omega (arith, double_pow k, one-le-pow k 2) in
    let low = bit_and_low w (clear_mask (suc k) 0) in
    omega (
      arith,
      rw half at low,
      double_pow k,
      one-le-pow k 2,
      bit_and_ones k (w / 2) (omega (arith, double_pow k)),
    )

bit_and_clear_suc :
    (k b w : ℕ)
    → 2 ^ b < 2 ^ k
    → bit_and w (clear_mask (suc k) (suc b)) ≡ w % 2 + 2 * bit_and (w / 2) (clear_mask k b)
bit_and_clear_suc k b w h =
    let half : clear_mask (suc k) (suc b) / 2 ≡ clear_mask k b =
      omega (arith, double_pow k, double_pow b) in
    let low = bit_and_low w (clear_mask (suc k) (suc b)) in
    omega (arith, rw half at low, double_pow k, double_pow b)

pow-lt : (b k : ℕ) → b < k → 2 ^ b < 2 ^ k
pow-lt zero zero h = elim h [ ]
pow-lt zero (suc k) h = omega (arith, double_pow k, one-le-pow k 2)
pow-lt (suc b) zero h = elim h [ ]
pow-lt (suc b) (suc k) h = omega (arith, double_pow k, double_pow b, pow-lt b k (omega arith))

-- Clearing bit `b` of a `k`-bit word clears that bit, and no other.
pub bit-bit_and_clear :
    (k b c w : ℕ)
    → b < k
    → w < 2 ^ k
    → bit (bit_and w (clear_mask k b)) c ≡ (if b == c then 0 else bit w c)
bit-bit_and_clear zero b c w hb hw = absurd (omega arith)
bit-bit_and_clear (suc k) zero zero w hb hw = omega (arith, bit_and_clear_zero k w hw)
bit-bit_and_clear (suc k) zero (suc c) w hb hw =
    let half : bit_and w (clear_mask (suc k) 0) / 2 ≡ w / 2 =
      omega (arith, bit_and_clear_zero k w hw) in
    rw (bit-suc (bit_and w (clear_mask (suc k) 0)) c, half, bit-suc w c) (ground arith)
bit-bit_and_clear (suc k) (suc b) zero w hb hw =
    let odd : bit_and w (clear_mask (suc k) (suc b)) % 2 ≡ w % 2 =
      omega (arith, bit_and_clear_suc k b w (pow-lt b k (omega arith))) in
    ground arith
bit-bit_and_clear (suc k) (suc b) (suc c) w hb hw =
    let half : bit_and w (clear_mask (suc k) (suc b)) / 2 ≡ bit_and (w / 2) (clear_mask k b) =
      omega (arith, bit_and_clear_suc k b w (pow-lt b k (omega arith))) in
    rw
      (
        bit-suc (bit_and w (clear_mask (suc k) (suc b))) c,
        half,
        bit-bit_and_clear k b c (w / 2) (omega arith) (omega (arith, double_pow k)),
        bit-suc w c,
      )
      (ground arith)

-- Neither operation leaves the width of the word.
pub bit_or-lt : (k b w : ℕ) → b < k → w < 2 ^ k → bit_or w (2 ^ b) < 2 ^ k
bit_or-lt zero b w hb hw = absurd (omega arith)
bit_or-lt (suc k) zero w hb hw = omega (arith, bit_or_pow_zero w, double_pow k)
bit_or-lt (suc k) (suc b) w hb hw = omega (
  arith,
  bit_or_pow_suc w b,
  double_pow k,
  bit_or-lt k b (w / 2) (omega arith) (omega (arith, double_pow k)),
)

pub bit_and_clear-lt : (k b w : ℕ) → b < k → w < 2 ^ k → bit_and w (clear_mask k b) < 2 ^ k
bit_and_clear-lt zero b w hb hw = absurd (omega arith)
bit_and_clear-lt (suc k) zero w hb hw = omega (arith, bit_and_clear_zero k w hw)
bit_and_clear-lt (suc k) (suc b) w hb hw = omega (
  arith,
  bit_and_clear_suc k b w (pow-lt b k (omega arith)),
  double_pow k,
  bit_and_clear-lt k b (w / 2) (omega arith) (omega (arith, double_pow k)),
)
