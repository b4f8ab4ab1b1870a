-- ===== src/Klib/Text/Words.antt =====
-- A 32-bit number that is written to memory is what is read back, and so are several in a row.
use rubi_kernel.Prelude.{
  ℕ, zero, suc, ◌+◌, ◌*◌, ◌/◌, ◌%◌, ◌^◌, ◌≤◌, ◌<◌, ◌⊎◌, ◌≡◌, ◌∙◌, inl, inr, ap, refl, false, List,
  [], ◌∷◌, length, arith, ◌==◌,
}
use rubi_kernel.Klib.Text.{Mem, read32, write32}

apart : (a k : ℕ) → 0 < k → (a + k == a) ≡ false
apart a k h = ground arith

bytes_sum :
    (v : ℕ)
    → v < 2 ^ 32
    → v % 256 + v / 2 ^ 8 % 256 * 2 ^ 8 + v / 2 ^ 16 % 256 * 2 ^ 16 + v / 2 ^ 24 % 256 * 2 ^ 24 ≡ v
bytes_sum v h = omega arith

pub read32-write32 : (m : Mem) (a v : ℕ) → v < 2 ^ 32 → read32 (write32 m a v) a ≡ v
read32-write32 m a v h =
    let w = write32 m a v in
    let b0 : w a ≡ v % 256 = ground arith in
    let b1 : w (a + 1) ≡ v / 2 ^ 8 % 256 = ground arith in
    let b2 : w (a + 2) ≡ v / 2 ^ 16 % 256 = ground arith in
    let b3 : w (a + 3) ≡ v / 2 ^ 24 % 256 = ground arith in
    omega (arith, b0, b1, b2, b3, bytes_sum v h)

-- the words from the address on, as the copy of a structure of words leaves them
abbrev pub write_words : Mem → (a : ℕ) → List ℕ → Mem
write_words m a [] = m
write_words m a (w ∷ ws) = write_words (write32 m a w) (a + 4) ws

abbrev pub word : List ℕ → ℕ → ℕ
word [] i = 0
word (w ∷ ws) zero = w
word (w ∷ ws) (suc i) = word ws i

abbrev pub AreWords : List ℕ → Type 0
AreWords [] = Unit {0}
AreWords (w ∷ ws) = (w < 2 ^ 32) × AreWords ws

pub read32_apart :
    (m : Mem) (a b v : ℕ) → (a + 4 ≤ b) ⊎ (b + 4 ≤ a) → read32 (write32 m b v) a ≡ read32 m a
read32_apart m a b v h =
    let w = write32 m b v in
    let b0 : w a ≡ m a = ground arith in
    let b1 : w (a + 1) ≡ m (a + 1) = ground arith in
    let b2 : w (a + 2) ≡ m (a + 2) = ground arith in
    let b3 : w (a + 3) ≡ m (a + 3) = ground arith in omega (arith, b0, b1, b2, b3)

pub read32_below :
    (m : Mem) (a b : ℕ) (ws : List ℕ) → a + 4 ≤ b → read32 (write_words m b ws) a ≡ read32 m a
read32_below m a b [] h = refl
read32_below m a b (w ∷ ws) h =
    read32_below (write32 m b w) a (b + 4) ws (omega arith) ∙ read32_apart m a b w (inl h)

pub read32_above :
    (m : Mem) (a b : ℕ) (ws : List ℕ)
    → b + 4 * length ws ≤ a
    → read32 (write_words m b ws) a ≡ read32 m a
read32_above m a b [] h = refl
read32_above m a b (w ∷ ws) h =
    read32_above (write32 m b w) a (b + 4) ws (omega arith)
    ∙ read32_apart m a b w (inr (omega arith))

pub read32-write_words :
    (m : Mem) (a i : ℕ) (ws : List ℕ)
    → i < length ws
    → AreWords ws
    → read32 (write_words m a ws) (a + 4 * i) ≡ word ws i
read32-write_words m a i [] h s = absurd (omega arith)
read32-write_words m a zero (w ∷ ws) h s =
    let here : a + 4 * 0 ≡ a = omega arith in
    ap (read32 (write_words m a (w ∷ ws))) here
    ∙ read32_below (write32 m a w) a (a + 4) ws (omega arith)
    ∙ read32-write32 m a w s.0
read32-write_words m a (suc i) (w ∷ ws) h s =
    let there : a + 4 * suc i ≡ a + 4 + 4 * i = omega arith in
    ap (read32 (write_words m a (w ∷ ws))) there
    ∙ read32-write_words (write32 m a w) (a + 4) i ws (omega arith) s.1
