-- ===== src/Dev/Pci.antt =====
-- kernel/src/kernel/dev/pci.c: the configuration space of the PCI bus. The ports are not part of the source:
-- `outdw` and `indw` are parameters over a state `M` of the machine. The fields of a union are the number that
-- they share. Drivers and the log are not modelled.
pub mod Numbers
pub mod Restore
pub mod Memory
pub mod Tests
use rubi_kernel.Prelude.{
  ℕ, zero, suc, Bool, ◌+◌, ◌-◌, ◌*◌, ◌/◌, ◌%◌, ◌^◌, true, false, ◌==◌, if◌then◌else◌, bit_and,
  bit_or, u16, u32, update,
}

abbrev pub pci_config_address : ℕ
pci_config_address = 0xCF8

abbrev pub pci_config_data : ℕ
pci_config_data = 0xCFC

-- struct base_addres_register_t, without what alloc_pci_mem sets
pub record BaseAddressRegister : Type 0 where
  pub size : ℕ
  pub raw_value : ℕ

pub record PciDev : Type 0 where
  pub bus : ℕ
  pub slot : ℕ
  pub func : ℕ
  pub vendor : ℕ
  pub device : ℕ
  pub command_reg : ℕ
  pub status_reg : ℕ
  pub revision : ℕ
  pub dev_class : ℕ
  pub cache_latency : ℕ
  pub header_bist : ℕ
  pub base_addrs : ℕ → BaseAddressRegister
  pub cardbus_cis_pointer : ℕ
  pub subsystem_vendor : ℕ
  pub subsystem_id : ℕ
  pub expansion_rom_base_addr : ℕ
  pub interrupts : ℕ
  pub grant_latency : ℕ

-- `{0}`
abbrev pub zero_dev : PciDev
zero_dev = record {
  bus = 0;
  slot = 0;
  func = 0;
  vendor = 0;
  device = 0;
  command_reg = 0;
  status_reg = 0;
  revision = 0;
  dev_class = 0;
  cache_latency = 0;
  header_bist = 0;
  base_addrs = λ i. record { size = 0; raw_value = 0 };
  cardbus_cis_pointer = 0;
  subsystem_vendor = 0;
  subsystem_id = 0;
  expansion_rom_base_addr = 0;
  interrupts = 0;
  grant_latency = 0;
}

-- what is written to the address port
unfoldable pub config_address : (bus device func reg : ℕ) → ℕ
config_address bus device func reg =
    bit_or
      (bit_or (bit_or (bit_or (2 ^ 31) (bit_and bus 0xFF * 2 ^ 16)) (bit_and device 0x1F * 2 ^ 11))
        (bit_and func 0x07 * 2 ^ 8))
      (bit_and reg 0xFC)

-- `reg &= ~0x3`
abbrev pub align_reg : ℕ → ℕ
align_reg reg = bit_and reg 0xFFFFFFFC

-- the size of the area, from what is read back once all ones were written
unfoldable pub area_size : (raw_value size : ℕ) → ℕ
area_size raw_value size =
    let masked = if raw_value % 2 == 0 then bit_and size 0xFFFFFFF0 else bit_and size 0xFFFFFFFC in
    u32 (2 ^ 32 - 1 - masked + 1)

-- a call that may change the machine
abbrev pub Io : Type 0 → Type 0 → Type 0
Io M A = M → A × M

abbrev pub ◌>>=◌ : {M A B : Type 0} → Io M A → (A → Io M B) → Io M B
◌>>=◌ f g m = let r = f m in g r.0 r.1

abbrev pub pure : {M A : Type 0} → A → Io M A
pure x m = (x, m)

module _ {M : Type 0} (outdw : (port value : ℕ) → M → M) (indw : (port : ℕ) → Io M ℕ) where
  unfoldable pub pci_config_read : (bus device func reg : ℕ) → Io M ℕ
  pci_config_read bus device func reg m =
      let r =
        indw pci_config_data
          (outdw pci_config_address (config_address bus device func (align_reg reg)) m) in
      (r.0 / 2 ^ (8 * (reg % 4)), r.1)

  unfoldable pub pci_config_read_word : (bus device func reg : ℕ) → Io M ℕ
  pci_config_read_word bus device func reg = do
    v ← pci_config_read bus device func reg
    pure (u16 v)

  unfoldable pub pci_config_write_dword : (bus device func reg value : ℕ) → Io M (Unit {0})
  pci_config_write_dword bus device func reg value m = (
    tt,
    outdw pci_config_data value
        (outdw pci_config_address (config_address bus device func (align_reg reg)) m),
  )

  -- the size of a base address register that is not 0
  unfoldable pub probe_size : (bus slot func base raw_value : ℕ) → Io M ℕ
  probe_size bus slot func base raw_value = do
    t ← pci_config_write_dword bus slot func base 0xFFFFFFFF
    size ← pci_config_read bus slot func base
    u ← pci_config_write_dword bus slot func base raw_value
    pure (area_size raw_value size)

  -- a register that was read as `raw`, by whether that is 0
  unfoldable pub size_bar :
      (empty : Bool) (bus slot func base raw : ℕ) → BaseAddressRegister → Io M BaseAddressRegister
  size_bar true bus slot func base raw old = pure (record old { raw_value = raw })
  size_bar false bus slot func base raw old = do
    size ← probe_size bus slot func base raw
    pure (record { size = size; raw_value = raw })

  unfoldable pub fill_bar :
      (bus slot func base : ℕ) → BaseAddressRegister → Io M BaseAddressRegister
  fill_bar bus slot func base old = do
    raw ← pci_config_read bus slot func base
    size_bar (raw == 0) bus slot func base raw old

  -- the loop over the six registers, with `rounds` to go
  unfoldable pub fill_bars :
      (rounds i bus slot func : ℕ) → (ℕ → BaseAddressRegister) → Io M (ℕ → BaseAddressRegister)
  fill_bars zero i bus slot func bars = pure bars
  fill_bars (suc rounds) i bus slot func bars = do
    bar ← fill_bar bus slot func (16 + i * 4) (bars i)
    fill_bars rounds (i + 1) bus slot func (update bars i bar)

  -- the fields of a device that is there
  unfoldable pub fill_fields : (bus slot func vendor : ℕ) → PciDev → Io M PciDev
  fill_fields bus slot func vendor dev = do
    device ← pci_config_read_word bus slot func 2
    command_reg ← pci_config_read_word bus slot func 4
    status_reg ← pci_config_read_word bus slot func 6
    revision ← pci_config_read_word bus slot func 8
    dev_class ← pci_config_read_word bus slot func 10
    cache_latency ← pci_config_read_word bus slot func 12
    header_bist ← pci_config_read_word bus slot func 14
    base_addrs ← fill_bars 6 0 bus slot func dev.base_addrs
    cardbus_cis_pointer ← pci_config_read bus slot func 40
    subsystem_vendor ← pci_config_read_word bus slot func 44
    subsystem_id ← pci_config_read_word bus slot func 46
    expansion_rom_base_addr ← pci_config_read bus slot func 48
    interrupts ← pci_config_read_word bus slot func 0x3C
    grant_latency ← pci_config_read_word bus slot func 0x3E
    pure (record {
      bus = bus;
      slot = slot;
      func = func;
      vendor = vendor;
      device = device;
      command_reg = command_reg;
      status_reg = status_reg;
      revision = revision;
      dev_class = dev_class;
      cache_latency = cache_latency;
      header_bist = header_bist;
      base_addrs = base_addrs;
      cardbus_cis_pointer = cardbus_cis_pointer;
      subsystem_vendor = subsystem_vendor;
      subsystem_id = subsystem_id;
      expansion_rom_base_addr = expansion_rom_base_addr;
      interrupts = interrupts;
      grant_latency = grant_latency;
    })

  -- a device whose vendor was read, by whether there is none
  unfoldable pub fill_present :
      (absent : Bool) (bus slot func vendor : ℕ) → PciDev → Io M (ℕ × PciDev)
  fill_present true bus slot func vendor dev =
      pure (vendor, record dev { bus = 0; slot = 0; vendor = vendor })
  fill_present false bus slot func vendor dev = do
    filled ← fill_fields bus slot func vendor dev
    pure (vendor, filled)

  unfoldable pub pci_fill_dev : (bus slot func : ℕ) → PciDev → Io M (ℕ × PciDev)
  pci_fill_dev bus slot func dev = do
    vendor ← pci_config_read_word bus slot func 0
    fill_present (vendor == 0xFFFF) bus slot func vendor dev

  -- the vendor; a device that is there is also logged
  unfoldable pub pci_check_vendor : (bus slot func : ℕ) → Io M ℕ
  pci_check_vendor bus slot func = do r ← pci_fill_dev bus slot func zero_dev; pure r.1.vendor
