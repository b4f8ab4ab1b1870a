-- ===== src/DescriptorTables/Gdt.antt =====
-- kernel/src/kernel/DT/dt.c: gdt_init and gdt_flush. gdt_load is the processor's; the pointer that it gets
-- is a field.
use rubi_kernel.Prelude.{ℕ, ◌-◌, ◌*◌, ◌≡◌, refl, update, for_range}
use rubi_kernel.DescriptorTables.{GdtRawEntry, GdtNormalEntry, encode_gdt_entry}
use rubi_kernel.DescriptorTables.Encoding.{read_base, read_limit}

abbrev pub gdt_entries_count : ℕ
gdt_entries_count = 8

abbrev pub gdt_null_segment : ℕ
gdt_null_segment = 0

abbrev pub gdt_kcode_segment : ℕ
gdt_kcode_segment = 1

abbrev pub gdt_kdata_segment : ℕ
gdt_kdata_segment = 2

abbrev pub gdt_kstack_segment : ℕ
gdt_kstack_segment = 3

pub record GdtPointer : Type 0 where
  pub limit : ℕ
  pub base : ℕ

-- the global tables, and what gdt_load was given
pub record Gdt : Type 0 where
  pub gdt : ℕ → GdtRawEntry
  pub normal_gdt : ℕ → GdtNormalEntry
  pub gdt_ptr : GdtPointer

unfoldable pub flush_entry : ℕ → Gdt → Gdt
flush_entry i t =
    let r = encode_gdt_entry (t.gdt i) (t.normal_gdt i) in
    record t { gdt = update t.gdt i r.0; normal_gdt = update t.normal_gdt i r.1 }

unfoldable pub gdt_flush : Gdt → Gdt
gdt_flush = for_range gdt_entries_count 0 flush_entry

abbrev pub null_segment : GdtNormalEntry
null_segment = record { base = 0; limit = 0; type = 0; s = 0; dpl = 0; p = 0; a = 0; db = 0; g = 0 }

abbrev pub kcode_segment : GdtNormalEntry
kcode_segment = record {
  base = 0;
  limit = 0xFFFFFFFF;
  type = 0b1010;
  s = 1;
  dpl = 0;
  p = 1;
  a = 0;
  db = 1;
  g = 1;
}

abbrev pub kdata_segment : GdtNormalEntry
kdata_segment = record {
  base = 0;
  limit = 0xFFFFFFFF;
  type = 0b0010;
  s = 1;
  dpl = 0;
  p = 1;
  a = 0;
  db = 1;
  g = 1;
}

abbrev pub kstack_segment : GdtNormalEntry
kstack_segment = record {
  base = 0;
  limit = 0xFFFFFFFF;
  type = 0b0010;
  s = 1;
  dpl = 0;
  p = 1;
  a = 0;
  db = 1;
  g = 0;
}

-- `gdt_addr` is the address of the table; its limit is 8 entries of 8 bytes, less 1.
unfoldable pub gdt_init : (gdt_addr : ℕ) → Gdt → Gdt
gdt_init gdt_addr t =
    let n0 = update t.normal_gdt gdt_null_segment null_segment in
    let n1 = update n0 gdt_kcode_segment kcode_segment in
    let n2 = update n1 gdt_kdata_segment kdata_segment in
    gdt_flush (record t {
      normal_gdt = update n2 gdt_kstack_segment kstack_segment;
      gdt_ptr = record { limit = gdt_entries_count * 8 - 1; base = gdt_addr };
    })

-- a present segment of the kernel, from 0 to the end of the address space, as the processor reads it
abbrev pub IsFlat : GdtRawEntry → Type 0
IsFlat e = (read_base e ≡ 0) × (read_limit e ≡ 0xFFFFFFFF) × (e.p ≡ 1) × (e.dpl ≡ 0) × (e.s ≡ 1)

-- After `gdt_init`, whatever the tables held, the processor reads the segments for the kernel's code, data
-- and stack as present segments of privilege 0 over the whole address space, of the types 0b1010, 0b0010
-- and 0b0010; the null segment is not present.
pub gdt_init-IsFlat :
    (gdt_addr : ℕ) (t : Gdt)
    → let e = (gdt_init gdt_addr t).gdt in
      (IsFlat (e gdt_kcode_segment) × ((e gdt_kcode_segment).type ≡ 0b1010))
      × (IsFlat (e gdt_kdata_segment) × ((e gdt_kdata_segment).type ≡ 0b0010))
      × (IsFlat (e gdt_kstack_segment) × ((e gdt_kstack_segment).type ≡ 0b0010))
      × ((e gdt_null_segment).p ≡ 0)
unfolding gdt_init gdt_flush flush_entry encode_gdt_entry for_range
gdt_init-IsFlat gdt_addr t = (
  ((refl, refl, refl, refl, refl), refl),
  ((refl, refl, refl, refl, refl), refl),
  ((refl, refl, refl, refl, refl), refl),
  refl,
)

-- A further `gdt_flush` after `gdt_init` leaves the kernel's stack segment with a limit of 0xFFFFF bytes only:
-- the first one has changed the limit that it reads.
pub gdt_flush_twice :
    (gdt_addr : ℕ) (t : Gdt)
    → read_limit ((gdt_flush (gdt_init gdt_addr t)).gdt gdt_kstack_segment) ≡ 0xFFFFF
unfolding gdt_init gdt_flush flush_entry encode_gdt_entry for_range
gdt_flush_twice gdt_addr t = refl
