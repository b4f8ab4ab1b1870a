-- ===== src/Memory/Mmu/Init.antt =====
-- kernel/src/kernel/memory/mmu.c: init_memory_manager. The boot directory and table are set up by the
-- assembly that starts the kernel, so their addresses are parameters.
pub mod Rounds
pub mod Mapped
pub mod Whole
use rubi_kernel.Prelude.{
  ℕ, ◌+◌, ◌*◌, ◌/◌, ◌%◌, bit_and, ltb, ◌==◌, if◌then◌else◌, update, for_range,
}
use rubi_kernel.Memory.Layout.{
  virt_base, page_size, pages_per_table, table_size, phys, table_bit_field, kernel_lower_tables,
  kernel_higher_tables, kernel_extended_tables, mm_bitmap_tables, mm_bitmap_int_per_table,
}
use rubi_kernel.Memory.Mmu.{Mmu, simple_page_bitmap_callback, bind_table, bind_page}

-- memset of a bitmap: `bytes` is a number of bytes, and a word has four
abbrev pub clear_bytes : (bytes : ℕ) → (ℕ → ℕ) → ℕ → ℕ
clear_bytes bytes words i = if ltb i (bytes / 4) then 0 else words i

-- the marks of the first four tables
abbrev pub fill_low : (ℕ → ℕ) → ℕ → ℕ
fill_low words =
    for_range 4 0
      (λ i w.
        for_range mm_bitmap_int_per_table 0
          (λ j v. update v (i * mm_bitmap_int_per_table + j) 0b11111111111111111111111111111111) w)
      words

abbrev pub heap_linear : ℕ → ℕ
heap_linear n = virt_base + kernel_lower_tables * table_size + n * page_size

-- one round of the loop over the pages of the kernel's heap, the one with `k` at its start plus `n`
unfoldable pub map_heap_page : (n : ℕ) → Mmu → Mmu
map_heap_page n s =
    let i = heap_linear n in
    let k = kernel_lower_tables * pages_per_table + n in
    let s1 =
      if i % table_size == 0
      then bind_table s.kernel_page_directory (s.kernel_page_table + 4 * k) i s
      else s in
    bind_page (s.kernel_page_table + 4 * bit_and k (table_bit_field / 4)) i (phys i)
      simple_page_bitmap_callback s1

abbrev pub heap_pages : ℕ
heap_pages = kernel_higher_tables * pages_per_table

unfoldable pub init_memory_manager : (boot_page_directory boot_page_table : ℕ) → Mmu → Mmu
init_memory_manager boot_page_directory boot_page_table s =
    let s1 = record s {
      kernel_page_directory = boot_page_directory;
      kernel_page_table = boot_page_table;
      pages = fill_low (clear_bytes (mm_bitmap_int_per_table * mm_bitmap_tables) s.pages);
      extended = clear_bytes (mm_bitmap_int_per_table * kernel_extended_tables) s.extended;
      kernel_pages_operations = 1;
    } in
    record (for_range heap_pages 0 map_heap_page s1) { kernel_pages_operations = 0 }
