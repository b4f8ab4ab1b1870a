-- ===== src/DescriptorTables/Encoding.antt =====
-- The processor's reading of an encoded descriptor is the descriptor.
use rubi_kernel.Prelude.{ℕ, ◌+◌, ◌*◌, ◌^◌, ◌<◌, ◌≡◌, arith, ◌==◌, if◌then◌else◌}
use rubi_kernel.DescriptorTables.{GdtRawEntry, idt_fill_entry}

-- the base and the limit in bytes, as the processor reads them
abbrev pub read_base : GdtRawEntry → ℕ
read_base e = e.base_low + e.base_middle * 2 ^ 16 + e.base_high * 2 ^ 24

abbrev pub read_limit : GdtRawEntry → ℕ
read_limit e =
    let limit = e.limit_low + e.limit_high * 2 ^ 16 in
    if e.g == 0 then limit else limit * 2 ^ 12 + 0xFFF

-- The two halves of the offset of an interrupt gate are the address of its 32-bit handler.
pub idt_fill_entry_lem :
    (code_selector gate handler : ℕ)
    → handler < 2 ^ 32
    → (idt_fill_entry code_selector gate handler).offset_lowerbits
        + (idt_fill_entry code_selector gate handler).offset_higherbits * 2 ^ 16
      ≡ handler
unfolding idt_fill_entry
idt_fill_entry_lem code_selector gate handler h = omega arith
