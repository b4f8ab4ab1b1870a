-- ===== src/Bits/Fields.antt =====
-- Fields of a word: the bits below, and the bits from a place on.
use rubi_kernel.Prelude.{
  ℕ, zero, suc, ◌+◌, ◌-◌, ◌*◌, ◌/◌, ◌%◌, ◌^◌, ◌<◌, ◌≤◌, ◌≡◌, refl, sym, ap, ◌∙◌, arith, bit_and,
  bit_or,
}
use native.Mathlib.Nat.{pow-suc, one-le-pow, mul_comm, mul_assoc, div-div-eq-div-mul, div-add-mod'}
use rubi_kernel.Bits.Step.{bit_or_low, bit_and_low}

double : (k : ℕ) → 2 ^ suc k ≡ 2 * 2 ^ k
double k = pow-suc 2 k ∙ omega arith

swap : (a b : ℕ) → a * (2 * b) ≡ 2 * (a * b)
swap a b = rw (← mul_assoc a 2 b, mul_comm a 2, mul_assoc 2 a b) refl

bit_and-nil : (n x : ℕ) → x ≤ n → bit_and x 0 ≡ 0
bit_and-nil n zero h = refl
bit_and-nil zero (suc x) h = elim h [ ]
bit_and-nil (suc n) (suc x) h =
    omega (arith, bit_and_low (suc x) 0, bit_and-nil n (suc x / 2) (omega arith))

bit_or-nil : (n x : ℕ) → x ≤ n → bit_or x 0 ≡ x
bit_or-nil n zero h = refl
bit_or-nil zero (suc x) h = elim h [ ]
bit_or-nil (suc n) (suc x) h =
    omega (arith, bit_or_low (suc x) 0, bit_or-nil n (suc x / 2) (omega arith))

-- The remainder keeps the lowest bit and the remainder of the rest.
halve-mod : (k x : ℕ) → x % 2 ^ suc k ≡ x % 2 + 2 * (x / 2 % 2 ^ k)
halve-mod k x =
    let q = x / 2 ^ suc k in
    let quot : x / 2 / 2 ^ k ≡ q =
      div-div-eq-div-mul x 2 (2 ^ k) ∙ ap (λ n. x / n) (sym (double k)) in
    let twice : q * 2 ^ suc k ≡ 2 * (q * 2 ^ k) = ap (λ n. q * n) (double k) ∙ swap q (2 ^ k) in
    let rest : q * 2 ^ k + x / 2 % 2 ^ k ≡ x / 2 =
      ap (λ n. n * 2 ^ k + x / 2 % 2 ^ k) (sym quot) ∙ div-add-mod' (x / 2) (2 ^ k) in
    omega (arith, div-add-mod' x (2 ^ suc k), rest, twice)

-- A mask of the lowest bits takes the remainder.
pub bit_and-ones : (k x : ℕ) → bit_and x (2 ^ k - 1) ≡ x % 2 ^ k
bit_and-ones zero x = omega (arith, bit_and-nil x x (omega arith))
bit_and-ones (suc k) x =
    let half : (2 ^ suc k - 1) / 2 ≡ 2 ^ k - 1 = omega (arith, double k, one-le-pow k 2) in
    let low = bit_and_low x (2 ^ suc k - 1) in
    let odd : (2 ^ suc k - 1) % 2 ≡ 1 = omega (arith, double k, one-le-pow k 2) in
    omega (arith, rw half at low, odd, bit_and-ones k (x / 2), halve-mod k x)

-- A number below the place of another's lowest bit is added to it.
pub bit_or-add : (k x y : ℕ) → y < 2 ^ k → bit_or (x * 2 ^ k) y ≡ x * 2 ^ k + y
bit_or-add zero x y h =
    let none : y ≡ 0 = omega arith in
    rw none (bit_or-nil (x * 1) (x * 1) (omega arith) ∙ omega arith)
bit_or-add (suc k) x y h =
    let place : x * 2 ^ suc k ≡ 2 * (x * 2 ^ k) = ap (λ n. x * n) (double k) ∙ swap x (2 ^ k) in
    let half : x * 2 ^ suc k / 2 ≡ x * 2 ^ k = omega (arith, place) in
    let low = bit_or_low (x * 2 ^ suc k) y in
    omega (arith, rw half at low, place, bit_or-add k x (y / 2) (omega (arith, double k)))

-- A mask from a place on works on the bits from there on.
pub bit_and-shift : (k x m : ℕ) → bit_and x (m * 2 ^ k) ≡ bit_and (x / 2 ^ k) m * 2 ^ k
bit_and-shift zero x m =
    let a : m * 2 ^ 0 ≡ m = omega arith in
    let b : x / 2 ^ 0 ≡ x = omega arith in rw (a, b) (omega arith)
bit_and-shift (suc k) x m =
    let place : m * 2 ^ suc k ≡ 2 * (m * 2 ^ k) = ap (λ n. m * n) (double k) ∙ swap m (2 ^ k) in
    let half : m * 2 ^ suc k / 2 ≡ m * 2 ^ k = omega (arith, place) in
    let low = bit_and_low x (m * 2 ^ suc k) in
    let quot : x / 2 / 2 ^ k ≡ x / 2 ^ suc k =
      div-div-eq-div-mul x 2 (2 ^ k) ∙ ap (λ n. x / n) (sym (double k)) in
    let ih = bit_and-shift k (x / 2) m in
    let ih' : bit_and (x / 2) (m * 2 ^ k) ≡ bit_and (x / 2 ^ suc k) m * 2 ^ k = rw quot at ih in
    let out : bit_and (x / 2 ^ suc k) m * 2 ^ suc k ≡ 2 * (bit_and (x / 2 ^ suc k) m * 2 ^ k) =
      ap (λ n. bit_and (x / 2 ^ suc k) m * n) (double k)
      ∙ swap (bit_and (x / 2 ^ suc k) m) (2 ^ k) in
    omega (arith, rw half at low, place, ih', out)
