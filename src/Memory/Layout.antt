-- ===== src/Memory/Layout.antt =====
-- The constants of kernel/include/kernel/defines.h and kernel/include/kernel/memory/mmu.h, and the
-- address arithmetic on a 32-bit size_t.
use rubi_kernel.Prelude.{ℕ, ◌+◌, ◌-◌, ◌*◌, ◌^◌, u32}

abbrev pub virt_base : ℕ
virt_base = 0xC0000000

abbrev pub page_size : ℕ
page_size = 0x1000

abbrev pub pages_per_table : ℕ
pages_per_table = 1024

abbrev pub table_size : ℕ
table_size = page_size * pages_per_table

-- PHYS(x): the subtraction wraps below VIRT_BASE.
abbrev pub phys : ℕ → ℕ
phys x = u32 (x + 2 ^ 32 - virt_base)

-- VIRT(x): the sum wraps.
abbrev pub virt : ℕ → ℕ
virt x = u32 (x + virt_base)

abbrev pub directory_bit_field : ℕ
directory_bit_field = 0b11111111110000000000000000000000

abbrev pub table_bit_field : ℕ
table_bit_field = 0b00000000001111111111000000000000

abbrev pub kernel_lower_tables : ℕ
kernel_lower_tables = 4

abbrev pub kernel_higher_tables : ℕ
kernel_higher_tables = 4

abbrev pub kernel_extended_tables : ℕ
kernel_extended_tables = 128

abbrev pub user_space_tables : ℕ
user_space_tables = 8

abbrev pub kernel_pages_end : ℕ
kernel_pages_end = virt_base + (kernel_lower_tables + kernel_higher_tables) * table_size

abbrev pub kernel_extended_start : ℕ
kernel_extended_start = kernel_pages_end + page_size

abbrev pub kernel_extended_end : ℕ
kernel_extended_end = kernel_extended_start + kernel_extended_tables * table_size

abbrev pub phys_tasks_space_start : ℕ
phys_tasks_space_start = (kernel_lower_tables + kernel_higher_tables) * table_size

abbrev pub phys_tasks_space_end : ℕ
phys_tasks_space_end =
    (kernel_lower_tables + kernel_higher_tables) * table_size + user_space_tables * table_size

abbrev pub mm_bitmap_tables : ℕ
mm_bitmap_tables = kernel_lower_tables + kernel_higher_tables + user_space_tables

abbrev pub mm_bitmap_int_per_table : ℕ
mm_bitmap_int_per_table = 32
