-- ===== src/Dev/Pci/Restore.antt =====
-- Finding out about a device leaves its configuration space as it was.
use rubi_kernel.Prelude.{ℕ, ◌+◌, ◌*◌, ◌/◌, ◌%◌, ◌^◌, ◌<◌, ◌≡◌, ◌==◌, if◌then◌else◌}
use rubi_kernel.Dev.Pci.{Io, pci_config_address, pci_config_data, config_address, align_reg}

-- What is in a base address register after a write: its lowest bits, as many as `bits`, are hard-wired.
abbrev pub latched : (bits old value : ℕ) → ℕ
latched bits old value = value / 2 ^ bits * 2 ^ bits + old % 2 ^ bits

-- What the code relies on of the bus: the data port reads the register that was addressed, a read changes no
-- register, and a write to one of the six base address registers of a function changes that one only, but
-- for its hard-wired lowest bits, whose number is the register's own (32 where there is none).
pub record ConfigSpace {M : Type 0} (outdw : (port value : ℕ) → M → M) (indw : (port : ℕ) → Io M ℕ)
    : Type 0 where
  pub register : M → ℕ → ℕ
  pub fixed : (a : ℕ) → ℕ
  pub read_value :
      (a : ℕ) (m : M) → (indw pci_config_data (outdw pci_config_address a m)).0 ≡ register m a
  pub read_keeps :
      (a b : ℕ) (m : M)
      → register (indw pci_config_data (outdw pci_config_address a m)).1 b ≡ register m b
  pub write_bar :
      (bus slot func i value b : ℕ) (m : M)
      → i < 6
      → let a = config_address bus slot func (align_reg (16 + i * 4)) in
        register (outdw pci_config_data value (outdw pci_config_address a m)) b
        ≡ (if a == b then latched (fixed a) (register m a) value else register m b)

module _ {M : Type 0} (outdw : (port value : ℕ) → M → M) (indw : (port : ℕ) → Io M ℕ)
    (space : ConfigSpace outdw indw) (bus slot func : ℕ) where
  abbrev at : ℕ → ℕ
  at reg = config_address bus slot func (align_reg reg)
