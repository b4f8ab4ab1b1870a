-- ===== src/Dev/Pci/Tests.antt =====
-- A bus whose registers can be written, but for their lowest 12 bits: areas of 4096 bytes.
use rubi_kernel.Prelude.{ℕ, ◌+◌, ◌*◌, ◌^◌, ◌==◌, if◌then◌else◌, update}
use rubi_kernel.Dev.Pci.{Io}
use rubi_kernel.Dev.Pci.Restore.{latched}

-- the address that was written last, and the registers
abbrev Machine : Type 0
Machine = ℕ × (ℕ → ℕ)

abbrev vendor_register : ℕ
vendor_register = 2 ^ 31 + 3 * 2 ^ 11

abbrev outdw : (port value : ℕ) → Machine → Machine
outdw port value m =
    if port == 0xCF8 then (value, m.1) else (m.0, update m.1 m.0 (latched 12 (m.1 m.0) value))

abbrev indw : ℕ → Io Machine ℕ
indw port m = (m.1 m.0, m)

abbrev machine : Machine
machine = (0, λ a. a)
