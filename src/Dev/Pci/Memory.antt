-- ===== src/Dev/Pci/Memory.antt =====
-- alloc_pci_mem of kernel/src/kernel/dev/pci.c: the memory of a device is mapped behind the kernel. The array
-- of tables has one element that is used.
use rubi_kernel.Prelude.{
  ℕ, ◌*◌, ◌/◌, ◌%◌, ◌^◌, ◌≡◌, ◌⊎◌, inl, inr, refl, true, false, not, ◌&&◌, ◌==◌, if◌then◌else◌, Run,
  ok, fault, ◌>>=◌, arith,
}
use rubi_kernel.Klib.Text.{write32}
use rubi_kernel.Memory.Layout.{pages_per_table}
use rubi_kernel.Memory.Heap.{kmalloc}
use rubi_kernel.Memory.Mmu.{alloc_page_extended, bind_table}
use rubi_kernel.Memory.Tables.{entry_size, create_page_table}
use rubi_kernel.Sched.Life.{Machine}
use rubi_kernel.Elf.{cleared_table}

-- what the register of the device gets beside its value
pub record Mapping : Type 0 where
  pub tables_count : ℕ
  pub tables : ℕ
  pub base_linear_addr : ℕ

-- the address of a memory area, from the raw register: the field `offset`, moved to its place
abbrev pub area_start : (raw_value : ℕ) → ℕ
area_start raw_value = raw_value / 2 ^ 4 % 2 ^ 28 * 2 ^ 4

-- the part behind the two allocations
unfoldable pub map_area : (raw_value tables table : ℕ) → Machine → Mapping × Machine
map_area raw_value tables table s =
    let r =
      alloc_page_extended table (area_start raw_value)
        (cleared_table table pages_per_table s.mmu) in
    (
      record { tables_count = 1; tables = tables; base_linear_addr = r.0 },
      record s {
        mem = write32 s.mem tables table;
        mmu = bind_table r.1.kernel_page_directory table r.0 r.1;
      },
    )

-- the register's fields when the area is in memory, and the state; NULL is written through as in the code
unfoldable pub alloc_area : (fuel raw_value : ℕ) → Machine → Run (Mapping × Machine)
alloc_area fuel raw_value s = do
  (tables, h1) ← kmalloc fuel (1 * entry_size * pages_per_table) s.heap
  (table, m, h2) ← create_page_table fuel pages_per_table s.mem h1
  elim (tables == 0) [
    | true ↦ fault
    | false ↦ ok (map_area raw_value tables table (record s { mem = m; heap = h2 }))
  ]

-- The value is `base_linear_addr`, NULL for a register that is not of a memory area.
unfoldable pub alloc_pci_mem :
    (fuel raw_value : ℕ) → Mapping → Machine → Run (ℕ × Mapping × Machine)
alloc_pci_mem fuel raw_value bar s =
    let mapped = (do (b, s1) ← alloc_area fuel raw_value s; ok (b.base_linear_addr, b, s1)) in
    if not (raw_value == 0) && (raw_value % 2 == 0) then mapped else ok (0, bar, s)

-- A register that is 0 or of an area of ports is not mapped, and nothing changes.
pub alloc_pci_mem_none :
    (fuel raw_value : ℕ) (bar : Mapping) (s : Machine)
    → (raw_value ≡ 0) ⊎ (raw_value % 2 ≡ 1)
    → alloc_pci_mem fuel raw_value bar s ≡ ok (0, bar, s)
unfolding alloc_pci_mem
alloc_pci_mem_none fuel raw_value bar s h =
    let other : (not (raw_value == 0) && (raw_value % 2 == 0)) ≡ false = elim h [
      | inl e ↦ ground arith
      | inr e ↦ ground arith
    ] in
    rw other refl
