-- ===== src/Memory/Tables.antt =====
-- The page directories and tables in the heap, of kernel/src/kernel/memory/mmu.c. `boot_page_directory` and
-- `boot_page_table` are set up by the assembly that starts the kernel, so their addresses are parameters.
-- NULL from kmalloc_a is written through, which is `fault`.
pub mod Leak
pub mod Tests
use rubi_kernel.Prelude.{
  ℕ, true, false, ◌+◌, ◌*◌, ◌&&◌, not, ltb, leb, ◌==◌, if◌then◌else◌, u32, Run, ok, fault, ◌>>=◌,
}
use rubi_kernel.Klib.Text.{Mem, memset, memcpy}
use rubi_kernel.Memory.Layout.{
  pages_per_table, table_size, kernel_lower_tables, kernel_higher_tables,
}
use rubi_kernel.Memory.Heap.{Kheap, kmalloc_a, kfree_a}

-- the size of struct page_directory_entry_t and of struct page_table_entry_t
abbrev pub entry_size : ℕ
entry_size = 4

unfoldable pub create_page_directory :
    (fuel kernel_page_directory : ℕ) → Mem → Kheap → Run (ℕ × Mem × Kheap)
create_page_directory fuel kernel_page_directory m s = do
  (dir, m1, s1) ← kmalloc_a fuel (entry_size * 1024) 4096 m s
  elim (dir == 0) [
    | true ↦ fault
    | false ↦ ok (dir, memcpy dir kernel_page_directory (entry_size * 1024) m1, s1)
  ]

unfoldable pub create_page_table : (fuel count : ℕ) → Mem → Kheap → Run (ℕ × Mem × Kheap)
create_page_table fuel count m s =
    let made = do
      (table, m1, s1) ← kmalloc_a fuel (entry_size * count) 4096 m s
      if table == 0 then fault else ok (table, memset table 0 (entry_size * count) m1, s1)
    in if ltb pages_per_table count then ok (0, m, s) else made

unfoldable pub free_page_directory : (fuel kernel_page_directory pd : ℕ) → Mem → Kheap → Run Kheap
free_page_directory fuel kernel_page_directory pd m s =
    if pd == kernel_page_directory then ok s else kfree_a fuel pd m s

-- The end of the kernel's tables as it is computed: a sum of a pointer and a number of entries.
abbrev pub kernel_tables_end : ℕ → ℕ
kernel_tables_end kernel_page_table =
    u32 (kernel_page_table + (kernel_lower_tables + kernel_higher_tables) * table_size * entry_size)

unfoldable pub free_page_table : (fuel kernel_page_table pt : ℕ) → Mem → Kheap → Run Kheap
free_page_table fuel kernel_page_table pt m s =
    if leb kernel_page_table pt && leb pt (kernel_tables_end kernel_page_table)
    then ok s
    else kfree_a fuel pt m s
