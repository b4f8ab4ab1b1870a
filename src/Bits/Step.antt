-- ===== src/Bits/Step.antt =====
-- The native bit operations, by their lowest digit: the library gives them as a recursion with fuel.
use Prim.Native.Nat.{min, max, digits, bitwise, bit_and-bitwise, bit_or-bitwise}
use rubi_kernel.Prelude.{ℕ, zero, suc, ◌+◌, ◌*◌, ◌/◌, ◌%◌, ◌≤◌, bit_and, bit_or, ◌≡◌, refl, arith}

module _ (rest : ℕ → ℕ) (op : ℕ → ℕ → ℕ) where
  -- two sufficient amounts of fuel give one result
  same : (j k u v : ℕ) → u ≤ j → u ≤ k → digits rest op j u v ≡ digits rest op k u v
  same zero zero u v p q = refl
  same zero (suc k) zero v p q = refl
  same zero (suc k) (suc u) v p q = elim p [ ]
  same (suc j) zero zero v p q = refl
  same (suc j) zero (suc u) v p q = elim q [ ]
  same (suc j) (suc k) zero v p q = refl
  same (suc j) (suc k) (suc u) v p q =
      let ih = same j k (suc u / 2) (v / 2) (omega arith) (omega arith) in omega (arith, ih)

  bitwise_low :
      (x y : ℕ)
      → bitwise rest op (suc x) y ≡ op (suc x % 2) (y % 2) + 2 * bitwise rest op (suc x / 2) (y / 2)
  bitwise_low x y =
      omega (arith, same x (suc x / 2) (suc x / 2) (y / 2) (omega arith) (omega arith))

pub bit_or_low : (x y : ℕ) → bit_or x y ≡ max (x % 2) (y % 2) + 2 * bit_or (x / 2) (y / 2)
bit_or_low zero y = rw (bit_or-bitwise 0 y, bit_or-bitwise 0 (y / 2)) (omega arith)
bit_or_low (suc x) y =
    rw (bit_or-bitwise (suc x) y, bit_or-bitwise (suc x / 2) (y / 2)) (bitwise_low (λ v. v) max x y)

pub bit_and_low : (x y : ℕ) → bit_and x y ≡ min (x % 2) (y % 2) + 2 * bit_and (x / 2) (y / 2)
bit_and_low zero y = rw (bit_and-bitwise 0 y, bit_and-bitwise 0 (y / 2)) (omega arith)
bit_and_low (suc x) y =
    rw (bit_and-bitwise (suc x) y, bit_and-bitwise (suc x / 2) (y / 2))
      (bitwise_low (λ v. 0) min x y)
