-- ===== src/Dev/Pci/Numbers.antt =====
-- The address of a register, and the size of a device's area.
use rubi_kernel.Prelude.{
  ℕ, ◌+◌, ◌-◌, ◌*◌, ◌/◌, ◌%◌, ◌^◌, ◌<◌, ◌≡◌, refl, sym, ap, ◌∙◌, true, arith, ◌==◌, bit_and, bit_or,
}
use rubi_kernel.Bits.Fields.{bit_and-ones, bit_or-add, bit_and-shift}
use rubi_kernel.Dev.Pci.{config_address, area_size}

address_sum :
    (bus device func reg : ℕ)
    → config_address bus device func reg
      ≡ 2 ^ 31
        + bus % 2 ^ 8 * 2 ^ 16
        + device % 2 ^ 5 * 2 ^ 11
        + func % 2 ^ 3 * 2 ^ 8
        + reg / 4 % 2 ^ 6 * 4
unfolding config_address
address_sum bus device func reg =
    let b = bit_and-ones 8 bus in
    let d = bit_and-ones 5 device in
    let f = bit_and-ones 3 func in
    let r : bit_and reg 0xFC ≡ reg / 4 % 2 ^ 6 * 4 =
      bit_and-shift 2 reg 63 ∙ ap (λ n. n * 4) (bit_and-ones 6 (reg / 4)) in
    let x1 = 2 ^ 31 + bus % 2 ^ 8 * 2 ^ 16 in
    let x2 = x1 + device % 2 ^ 5 * 2 ^ 11 in
    let x3 = x2 + func % 2 ^ 3 * 2 ^ 8 in
    let o1 : bit_or (2 ^ 31) (bus % 2 ^ 8 * 2 ^ 16) ≡ x1 =
      bit_or-add 24 (2 ^ 7) (bus % 2 ^ 8 * 2 ^ 16) (omega arith) in
    let h1 : (2 ^ 15 + bus % 2 ^ 8) * 2 ^ 16 ≡ x1 = omega arith in
    let o2 : bit_or x1 (device % 2 ^ 5 * 2 ^ 11) ≡ x2 =
      ap (λ n. bit_or n (device % 2 ^ 5 * 2 ^ 11)) (sym h1)
      ∙ (bit_or-add 16 (2 ^ 15 + bus % 2 ^ 8) (device % 2 ^ 5 * 2 ^ 11) (omega arith)
          ∙ omega arith) in
    let h2 : (2 ^ 20 + bus % 2 ^ 8 * 2 ^ 5 + device % 2 ^ 5) * 2 ^ 11 ≡ x2 = omega arith in
    let o3 : bit_or x2 (func % 2 ^ 3 * 2 ^ 8) ≡ x3 =
      ap (λ n. bit_or n (func % 2 ^ 3 * 2 ^ 8)) (sym h2)
      ∙ (bit_or-add 11 (2 ^ 20 + bus % 2 ^ 8 * 2 ^ 5 + device % 2 ^ 5) (func % 2 ^ 3 * 2 ^ 8)
            (omega arith)
          ∙ omega arith) in
    let h3 : (2 ^ 23 + bus % 2 ^ 8 * 2 ^ 8 + device % 2 ^ 5 * 2 ^ 3 + func % 2 ^ 3) * 2 ^ 8 ≡ x3 =
      omega arith in
    let o4 : bit_or x3 (reg / 4 % 2 ^ 6 * 4) ≡ x3 + reg / 4 % 2 ^ 6 * 4 =
      ap (λ n. bit_or n (reg / 4 % 2 ^ 6 * 4)) (sym h3)
      ∙ (bit_or-add 8 (2 ^ 23 + bus % 2 ^ 8 * 2 ^ 8 + device % 2 ^ 5 * 2 ^ 3 + func % 2 ^ 3)
            (reg / 4 % 2 ^ 6 * 4) (omega arith)
          ∙ omega arith) in
    rw (b, d, f, r, o1, o2, o3, o4) refl

-- For a bus, device, function and register in their ranges, the fields of the address are these four, the
-- register without its two lowest bits, and the highest bit is set.
pub config_address_lem :
    (bus device func reg : ℕ)
    → bus < 256
    → device < 32
    → func < 8
    → reg < 256
    → let a = config_address bus device func reg in
      (a / 2 ^ 31 ≡ 1)
      × (a / 2 ^ 16 % 256 ≡ bus)
      × (a / 2 ^ 11 % 32 ≡ device)
      × (a / 2 ^ 8 % 8 ≡ func)
      × (a % 256 ≡ reg / 4 * 4)
config_address_lem bus device func reg b d f r =
    let e = address_sum bus device func reg in
    (omega (arith, e), omega (arith, e), omega (arith, e), omega (arith, e), omega (arith, e))

-- When a device with an area of `size` bytes, a multiple of 16, answers to all ones with the bits of the size
-- cleared but for the four lowest, which hold its kind, the computed size of a memory area is `size`.
pub area_size_lem :
    (raw units low : ℕ)
    → raw % 2 ≡ 0
    → 0 < units
    → units < 2 ^ 28
    → low < 16
    → area_size raw (2 ^ 32 - units * 16 + low) ≡ units * 16
unfolding area_size
area_size_lem raw units low m p u l =
    let answer = 2 ^ 32 - units * 16 + low in
    let kind : (raw % 2 == 0) ≡ true = ground arith in
    let mask : bit_and answer 0xFFFFFFF0 ≡ answer / 16 % 2 ^ 28 * 16 =
      bit_and-shift 4 answer (2 ^ 28 - 1) ∙ ap (λ n. n * 16) (bit_and-ones 28 (answer / 16)) in
    let masked : bit_and answer 0xFFFFFFF0 ≡ 2 ^ 32 - units * 16 = omega (arith, mask) in
    rw (kind, masked) (omega arith)
