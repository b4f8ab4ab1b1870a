-- ===== src/DescriptorTables.antt =====
-- kernel/src/kernel/DT/dt.c: the encoding of segment descriptors and of interrupt gates. Bit fields
-- are numbers; what is stored in one is cut to its width.
pub mod Encoding
pub mod Gdt
pub mod Idt
pub mod Tests
use rubi_kernel.Prelude.{ℕ, ◌+◌, ◌*◌, ◌/◌, ◌%◌, ◌^◌, Bool, not, ◌&&◌, ltb, ◌==◌, if◌then◌else◌}

pub record GdtRawEntry : Type 0 where
  pub limit_low : ℕ
  pub base_low : ℕ
  pub base_middle : ℕ
  pub type : ℕ
  pub s : ℕ
  pub dpl : ℕ
  pub p : ℕ
  pub limit_high : ℕ
  pub a : ℕ
  pub zero_bit : ℕ
  pub db : ℕ
  pub g : ℕ
  pub base_high : ℕ

pub record GdtNormalEntry : Type 0 where
  pub base : ℕ
  pub limit : ℕ
  pub type : ℕ
  pub s : ℕ
  pub dpl : ℕ
  pub p : ℕ
  pub a : ℕ
  pub db : ℕ
  pub g : ℕ

pub record IdtEntry : Type 0 where
  pub offset_lowerbits : ℕ
  pub selector : ℕ
  pub zero_byte : ℕ
  pub type_attr : ℕ
  pub offset_higherbits : ℕ

-- a limit that cannot be encoded
abbrev pub refused : GdtNormalEntry → Bool
refused src = ltb 65536 src.limit && not (src.limit % 2 ^ 12 == 0xFFF)

-- the stored limit, and the granularity
abbrev pub coarse : GdtNormalEntry → Bool
coarse src = ltb 65536 src.limit && (src.g == 0)

-- The results are the raw entry and the source, whose limit may have been changed. `a` gets `s`.
unfoldable pub encode_gdt_entry : GdtRawEntry → GdtNormalEntry → GdtRawEntry × GdtNormalEntry
encode_gdt_entry target src =
    let limit = if coarse src then src.limit / 2 ^ 12 else src.limit in
    let g = if coarse src then 1 else if src.g == 0 then 0 else 1 in
    if refused src then (target, src) else (
      record {
        limit_low = limit % 2 ^ 16;
        base_low = src.base % 2 ^ 16;
        base_middle = src.base / 2 ^ 16 % 2 ^ 8;
        type = src.type;
        s = src.s;
        dpl = src.dpl;
        p = src.p;
        limit_high = limit / 2 ^ 16 % 2 ^ 4;
        a = src.s;
        zero_bit = 0;
        db = src.db;
        g = g;
        base_high = src.base / 2 ^ 24 % 2 ^ 8;
      },
      record src { limit = limit },
    )

-- `code_selector` is GDT_KCODE_SELECTOR and `gate` INTERRUPT_GATE.
unfoldable pub idt_fill_entry : (code_selector gate handler : ℕ) → IdtEntry
idt_fill_entry code_selector gate handler = record {
  offset_lowerbits = handler % 2 ^ 16;
  selector = code_selector;
  zero_byte = 0;
  type_attr = gate;
  offset_higherbits = handler / 2 ^ 16 % 2 ^ 16;
}
